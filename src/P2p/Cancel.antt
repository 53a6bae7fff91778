-- ===== src/P2p/Cancel.antt =====
-- The hook useCancelOffer of frontend/modules/p2p/hooks/useCancelOffer.ts: the mutation's callbacks
-- and the timer after which the lists are asked for again. Timers are numbered; `settled` is called
-- for a success and a failure alike.
use mmn_tx_explorer.Base.{
  ℕ, ◌+◌, ◌*◌, ◌≤◌, String, Option, none, some, List, [], ◌∷◌, ◌++◌, ◌≡◌, ◌≢◌, arith, ◌==◌,
  if◌then◌else◌, truthy, length, length-append, eq_iff, Option-cases, inl, inr,
}

pub data QueryKey : Type 0 where
  offer : String → QueryKey
  my_offers offers : QueryKey

pub record Cancel : Type 0 where
  pub canceling_offer_id : Option String
  -- The live timer and the offer of its callback.
  pub timer : Option (ℕ × String)
  pub next_timer : ℕ
  pub invalidated : List QueryKey

unfoldable pub on_mutate : String → Cancel → Cancel
on_mutate offer_id s = record s { canceling_offer_id = some offer_id }

unfoldable pub on_settled : String → Cancel → Cancel
on_settled offer_id s =
    if truthy offer_id
    then record s { timer = some (s.next_timer, offer_id); next_timer = s.next_timer + 1 }
    else s

-- The callback of the timer with the given number, if it was not cleared.
unfoldable pub on_timer : ℕ → Cancel → Cancel
on_timer n s = elim s.timer [
  | none ↦ s
  | some (live, offer_id) ↦
      if live == n
      then record s {
        timer = none;
        invalidated = s.invalidated ++ offer offer_id ∷ my_offers ∷ offers ∷ [];
        canceling_offer_id = none;
      }
      else s
]

-- What the effect returns.
unfoldable pub on_unmount : Cancel → Cancel
on_unmount s = record s { timer = none }

pub data CancelEvent : Type 0 where
  mutated settled : String → CancelEvent
  fired : ℕ → CancelEvent
  unmounted : CancelEvent

unfoldable pub cancel_step : CancelEvent → Cancel → Cancel
unfolding on_mutate on_settled on_timer on_unmount
cancel_step (mutated id) s = on_mutate id s
cancel_step (settled id) s = on_settled id s
cancel_step (fired n) s = on_timer n s
cancel_step unmounted s = on_unmount s

unfoldable pub cancel_run : List CancelEvent → Cancel → Cancel
unfolding cancel_step
cancel_run [] s = s
cancel_run (e ∷ es) s = cancel_run es (cancel_step e s)

-- How often an offer was settled with an id that is not empty.
abbrev pub settled_in : List CancelEvent → ℕ
settled_in [] = 0
settled_in (mutated id ∷ es) = settled_in es
settled_in (settled id ∷ es) = (if truthy id then 1 else 0) + settled_in es
settled_in (fired n ∷ es) = settled_in es
settled_in (unmounted ∷ es) = settled_in es

-- Three for a live timer.
abbrev pub pending_keys : Option (ℕ × String) → ℕ
pending_keys none = 0
pending_keys (some t) = 3

step-invalidated :
    (e : CancelEvent) (s : Cancel)
    → let s' = cancel_step e s in
      length s'.invalidated + pending_keys s'.timer
      ≤ length s.invalidated + pending_keys s.timer + 3 * settled_in (e ∷ [])
unfolding cancel_step
step-invalidated (mutated id) s = omega arith
step-invalidated (settled id) s = elim (Option-cases s.timer) [
  | inl e ↦ ground arith
  | inr (t, e) ↦ ground arith
]
step-invalidated (fired n) s = elim (Option-cases s.timer) [
  | inl e ↦ ground arith
  | inr ((live, id), e) ↦
      ground (arith, length-append s.invalidated (offer id ∷ my_offers ∷ offers ∷ []))
]
step-invalidated unmounted s = omega arith

-- However cancelling, settled offers, timers and unmounting interleave, the keys invalidated with
-- those of the live timer are at most those at the start and three more for each time that an offer
-- with an id was settled.
pub cancel_run-invalidated :
    (es : List CancelEvent) (s : Cancel)
    → let s' = cancel_run es s in
      length s'.invalidated + pending_keys s'.timer
      ≤ length s.invalidated + pending_keys s.timer + 3 * settled_in es
unfolding cancel_run
cancel_run-invalidated [] s = omega arith
cancel_run-invalidated (mutated id ∷ es) s =
    let s' = cancel_step (mutated id) s in
    omega (arith, step-invalidated (mutated id) s, cancel_run-invalidated es s')
cancel_run-invalidated (settled id ∷ es) s =
    let s' = cancel_step (settled id) s in
    omega (arith, step-invalidated (settled id) s, cancel_run-invalidated es s')
cancel_run-invalidated (fired n ∷ es) s =
    let s' = cancel_step (fired n) s in
    omega (arith, step-invalidated (fired n) s, cancel_run-invalidated es s')
cancel_run-invalidated (unmounted ∷ es) s =
    let s' = cancel_step unmounted s in
    omega (arith, step-invalidated unmounted s, cancel_run-invalidated es s')

-- For two offers with ids that are not empty: where the second is cancelled while the timer of the
-- first runs, that timer's end takes the mark of the second although it is not settled; and where
-- both are settled before a timer ends, only the second offer is asked for again, with the two
-- lists.
pub on_timer-overlap :
    (first second : String) (s : Cancel)
    → first ≢ ""
    → second ≢ ""
    → ((on_timer s.next_timer
          (on_mutate second (on_settled first (on_mutate first s)))).canceling_offer_id
        ≡ none)
      × ((on_timer
            (s.next_timer + 1)
            (on_timer s.next_timer (on_settled second (on_settled first s)))).invalidated
          ≡ s.invalidated ++ offer second ∷ my_offers ∷ offers ∷ [])
unfolding on_timer on_mutate on_settled
on_timer-overlap first second s h k = (
  ground (arith, eq_iff first "", eq_iff second ""),
  ground (arith, eq_iff first "", eq_iff second ""),
)
