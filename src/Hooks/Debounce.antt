-- ===== src/Hooks/Debounce.antt =====
-- The hook useDebounceFunction of frontend/hooks/useDebounceFunction.ts: the function runs at once,
-- and calls are dropped until the delay is over. Timers are numbered.
use mmn_tx_explorer.Base.{
  ℕ, ◌+◌, Bool, true, false, Option, none, some, List, [], ◌∷◌, ◌≡◌, refl, arith, ◌==◌,
  if◌then◌else◌, Bool-cases, Option-cases, inl, inr,
}

pub record Debounce : Type 0 where
  pub is_debouncing : Bool
  pub timer : Option ℕ
  pub next_timer : ℕ
  -- How often the function ran, and how often a delay ended.
  pub runs : ℕ
  pub ends : ℕ

unfoldable pub clear_timer : Debounce → Debounce
clear_timer s = record s { timer = none }

unfoldable pub set_timer : Debounce → Debounce
set_timer s = record s { timer = some s.next_timer; next_timer = s.next_timer + 1 }

-- `debouncedFunction`; `seen` is `isDebouncing` in the render that the function belongs to.
unfoldable pub debounced_function : Bool → Debounce → Debounce
unfolding clear_timer set_timer
debounced_function seen s =
    if seen
    then s
    else set_timer (clear_timer (record s { runs = s.runs + 1; is_debouncing = true }))

-- The callback of a timer, which the browser runs unless it was cleared.
unfoldable pub timer_fires : ℕ → Debounce → Debounce
timer_fires n s = elim s.timer [
  | none ↦ s
  | some live ↦
      if live == n then record s { is_debouncing = false; timer = none; ends = s.ends + 1 } else s
]

-- The state at first, and after the effect of a start delay, which runs once while the inputs stay.
abbrev pub started : Bool → Debounce
started start_delay = record {
  is_debouncing = start_delay;
  timer = if start_delay then some 0 else none;
  next_timer = 1;
  runs = 0;
  ends = 0;
}

pub data DebounceEvent : Type 0 where
  call fires : ℕ → DebounceEvent

-- Each call is made on the render that shows the state.
unfoldable pub debounce_step : DebounceEvent → Debounce → Debounce
unfolding debounced_function timer_fires
debounce_step (call argument) s = debounced_function s.is_debouncing s
debounce_step (fires n) s = timer_fires n s

unfoldable pub debounce_run : List DebounceEvent → Debounce → Debounce
unfolding debounce_step
debounce_run [] s = s
debounce_run (e ∷ es) s = debounce_run es (debounce_step e s)

abbrev pub one_if : Bool → ℕ
one_if true = 1
one_if false = 0

abbrev pub is_live : Option ℕ → Bool
is_live none = false
is_live (some n) = true

-- A delay is on exactly while its timer is live, and each run of the function and the delay at the
-- start has ended or is the one that is on.
pub record IsPaced (start_delay : Bool) (s : Debounce) : Type 0 where
  pub live : is_live s.timer ≡ s.is_debouncing
  pub paced : s.runs + one_if start_delay ≡ s.ends + one_if s.is_debouncing

debounce_step-IsPaced :
    (start : Bool) (e : DebounceEvent) (s : Debounce)
    → IsPaced start s
    → IsPaced start (debounce_step e s)
unfolding debounce_step
debounce_step-IsPaced start (call x) s h = elim (Bool-cases s.is_debouncing) [
  | inl on ↦ record { live = ground (arith, h.live); paced = ground (arith, h.paced) }
  | inr off ↦ record { live = ground (arith, h.live); paced = ground (arith, h.paced) }
]
debounce_step-IsPaced start (fires n) s h = elim (Option-cases s.timer) [
  | inl none_live ↦ record { live = ground (arith, h.live); paced = ground (arith, h.paced) }
  | inr (live, e) ↦ record { live = ground (arith, h.live); paced = ground (arith, h.paced) }
]

run-IsPaced :
    (start : Bool) (es : List DebounceEvent) (s : Debounce)
    → IsPaced start s
    → IsPaced start (debounce_run es s)
unfolding debounce_run
run-IsPaced start [] s h = h
run-IsPaced start (e ∷ es) s h =
    run-IsPaced start es (debounce_step e s) (debounce_step-IsPaced start e s h)

started-IsPaced : (start : Bool) → IsPaced start (started start)
started-IsPaced true = record { live = refl; paced = refl }
started-IsPaced false = record { live = refl; paced = refl }

-- However calls and timers interleave, where each call is made on the render that shows the state, a
-- delay is on exactly while a timer is live, and the runs of the function with the delay at the
-- start are the delays that ended and the one that is on.
pub debounce_run-IsPaced :
    (start : Bool) (es : List DebounceEvent) → IsPaced start (debounce_run es (started start))
debounce_run-IsPaced start es = run-IsPaced start es (started start) (started-IsPaced start)

-- Two calls on one render that shows no delay both run the function, and the later timer is left
-- live.
pub debounced_function-twice :
    (s : Debounce)
    → s.is_debouncing ≡ false
    → let s' = debounced_function s.is_debouncing (debounced_function s.is_debouncing s) in
      (s'.runs ≡ s.runs + 2) × (s'.timer ≡ some (s.next_timer + 1))
unfolding debounced_function
debounced_function-twice s off = (ground arith, ground arith)
