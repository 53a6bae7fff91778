-- ===== src/Hooks/Refresh/Burst.antt =====
-- What a burst of events leads to, for Hooks.Refresh.
use mmn_tx_explorer.Base.{
  ℕ, zero, suc, ◌+◌, ◌*◌, none, some, List, [], ◌∷◌, ◌++◌, ◌==◌, if◌then◌else◌, has, Bool-cases,
  Option-cases, ◌≡◌, inl, inr, refl, ap, ◌∙◌, arith,
}
use mmn_tx_explorer.Hooks.Refresh.{
  ListHook, query_keys, Refresh, handle_refresh, on_debounce, on_anim, fire,
}

-- The handler called as often as given.
abbrev pub refreshes : ListHook → ℕ → Refresh → Refresh
refreshes hook zero s = s
refreshes hook (suc k) s = refreshes hook k (handle_refresh hook s)

-- Timers firing in the order given.
abbrev pub fire_all : ListHook → List ℕ → Refresh → Refresh
fire_all hook [] s = s
fire_all hook (n ∷ ns) s = fire_all hook ns (fire hook n s)

on_anim-keeps :
    (n : ℕ) (s : Refresh)
    → ((on_anim n s).invalidated ≡ s.invalidated)
      × ((on_anim n s).debounce_timer ≡ s.debounce_timer)
unfolding on_anim
on_anim-keeps n s = elim (Option-cases s.refresh_anim_timer) [
  | inl e ↦ ground arith
  | inr (live, e) ↦ ground arith
]

fire-still :
    (hook : ListHook) (n : ℕ) (s : Refresh)
    → s.debounce_timer ≡ none
    → ((fire hook n s).invalidated ≡ s.invalidated) × ((fire hook n s).debounce_timer ≡ none)
unfolding fire on_debounce
fire-still hook n s h = ground (arith, on_anim-keeps n (on_debounce hook n s))

fire_all-still :
    (hook : ListHook) (ns : List ℕ) (s : Refresh)
    → s.debounce_timer ≡ none
    → (fire_all hook ns s).invalidated ≡ s.invalidated
fire_all-still hook [] s h = refl
fire_all-still hook (n ∷ ns) s h =
    let e = fire-still hook n s h in fire_all-still hook ns (fire hook n s) e.1 ∙ e.0

fire-live :
    (hook : ListHook) (n live : ℕ) (s : Refresh)
    → s.debounce_timer ≡ some live
    → ((fire hook n s).invalidated
        ≡ (if live == n then s.invalidated ++ query_keys hook else s.invalidated))
      × ((fire hook n s).debounce_timer ≡ (if live == n then none else some live))
unfolding fire on_debounce
fire-live hook n live s h = ground (arith, on_anim-keeps n (on_debounce hook n s))

fire_all-live :
    (hook : ListHook) (ns : List ℕ) (live : ℕ) (s : Refresh)
    → s.debounce_timer ≡ some live
    → (fire_all hook ns s).invalidated
      ≡ (if has live ns then s.invalidated ++ query_keys hook else s.invalidated)
fire_all-live hook [] live s h = refl
fire_all-live hook (n ∷ ns) live s h =
    let e = fire-live hook n live s h in
    elim (Bool-cases (live == n)) [
      | inl same ↦
          let done : (fire hook n s).debounce_timer ≡ none = e.1 ∙ rw same refl in
          fire_all-still hook ns (fire hook n s) done ∙ e.0 ∙ rw same refl
      | inr other ↦
          let kept : (fire hook n s).debounce_timer ≡ some live = e.1 ∙ rw other refl in
          let unasked : (fire hook n s).invalidated ≡ s.invalidated = e.0 ∙ rw other refl in
          fire_all-live hook ns live (fire hook n s) kept ∙ rw (other, unasked) refl
    ]

refreshes-keeps :
    (hook : ListHook) (k : ℕ) (s : Refresh)
    → ((refreshes hook (suc k) s).invalidated ≡ s.invalidated)
      × ((refreshes hook (suc k) s).debounce_timer ≡ some (s.next_timer + 2 * k + 1))
unfolding handle_refresh
refreshes-keeps hook zero s = (refl, ap some (omega arith))
refreshes-keeps hook (suc k) s =
    let e = refreshes-keeps hook k (handle_refresh hook s) in (e.0, e.1 ∙ ap some (omega arith))

-- However many events come before a delay ends, and in whatever order the timers then fire, the
-- queries are invalidated once where the timer of the last event fires, and not at all where it does
-- not.
pub refreshes-once :
    (hook : ListHook) (k : ℕ) (ns : List ℕ) (s : Refresh)
    → (fire_all hook ns (refreshes hook (suc k) s)).invalidated ≡ (
        if has (s.next_timer + 2 * k + 1) ns
        then s.invalidated ++ query_keys hook
        else s.invalidated)
refreshes-once hook k ns s =
    let e = refreshes-keeps hook k s in
    fire_all-live hook ns (s.next_timer + 2 * k + 1) (refreshes hook (suc k) s) e.1
    ∙ ap (λ l. if has (s.next_timer + 2 * k + 1) ns then l ++ query_keys hook else l) e.0
