-- ===== src/LuckyMoney/Create/Timeout.antt =====
-- The fallback timer of a creation, for LuckyMoney.Create.
use mmn_tx_explorer.Base.{
  ℕ, ◌+◌, String, true, false, not, ◌&&◌, none, some, List, [], ◌∷◌, ◌++◌, ◌==◌, ==_iff, ◌≡◌, refl,
  sym, ap, ◌∙◌, subst, arith, eq_refl, has, has-append,
}
use mmn_tx_explorer.LuckyMoney.Create.{
  RedEnvelope, Creation, clear, transferred, clear_pending_timeout, set_timeout_id, begin_creation,
  end_creation, timeout, on_red_envelope_status_updated,
}

has-clear : (n m : ℕ) (live : List ℕ) → has m (clear n live) ≡ (not (m == n) && has m live)
has-clear n m [] = ground arith
has-clear n m (x ∷ xs) = ground (arith, has-clear n m xs, ==_iff m x, ==_iff x n, ==_iff m n)

-- The state of a creation that waits with its fallback timer.
abbrev pub waiting_of : RedEnvelope → Creation → Creation
waiting_of e s = record s {
  show_confirm_modal = false;
  is_processing = true;
  pending_envelope_id = some e.id;
  generated_envelope = some e;
  timeout_id = some s.next_timer;
  live = s.live ++ s.next_timer ∷ [];
  next_timer = s.next_timer + 1;
}

end_creation-waits :
    (e : RedEnvelope) (s : Creation)
    → s.timeout_id ≡ none
    → end_creation (transferred e) (begin_creation s) ≡ waiting_of e s
unfolding end_creation set_timeout_id begin_creation
end_creation-waits e s h = rw (set_timeout_id, h) refl

has-last : (n : ℕ) (ms : List ℕ) → has n (ms ++ n ∷ []) ≡ true
has-last n ms = ground (arith, has-append n ms (n ∷ []), ==_iff n n)

has-cleared : (n : ℕ) (ms : List ℕ) → has n (clear n ms) ≡ false
has-cleared n ms = ground (arith, has-clear n n ms, ==_iff n n)

-- A timer that is not live does nothing.
timeout-cleared : (n : ℕ) (s : Creation) → has n s.live ≡ false → timeout n s ≡ s
unfolding timeout
timeout-cleared n s h = rw (timeout, h) refl

-- An event that is not waited for does nothing.
on_red_envelope_status_updated-idle :
    (id : String) (s : Creation)
    → s.pending_envelope_id ≡ none
    → on_red_envelope_status_updated id s ≡ s
unfolding on_red_envelope_status_updated
on_red_envelope_status_updated-idle id s h = rw (on_red_envelope_status_updated, h) refl

timeout-waiting :
    (e : RedEnvelope) (s : Creation)
    → timeout s.next_timer (waiting_of e s) ≡ record (waiting_of e s) {
      live = clear s.next_timer (s.live ++ s.next_timer ∷ []);
      is_processing = false;
      pending_envelope_id = none;
    }
unfolding timeout
timeout-waiting e s = rw (timeout, has-last s.next_timer s.live) refl

on_red_envelope_status_updated-waiting :
    (e : RedEnvelope) (s : Creation)
    → on_red_envelope_status_updated e.id (waiting_of e s) ≡ record (waiting_of e s) {
      live = clear s.next_timer (s.live ++ s.next_timer ∷ []);
      timeout_id = none;
      is_processing = false;
      is_success = true;
      pending_envelope_id = none;
    }
unfolding on_red_envelope_status_updated clear_pending_timeout
on_red_envelope_status_updated-waiting e s = rw (on_red_envelope_status_updated, eq_refl e.id) refl

-- Where no timer is set, a transfer that was made leaves a live fallback timer: when it fires, the
-- creation is no longer pending and no event is waited for; an event for the envelope that comes
-- first ends the creation with success, and the timer then changes nothing, nor does the event again.
pub end_creation-falls_back :
    (e : RedEnvelope) (s : Creation)
    → s.timeout_id ≡ none
    → let waiting = end_creation (transferred e) (begin_creation s) in
      let late = timeout s.next_timer waiting in
      let done = on_red_envelope_status_updated e.id waiting in
      (has s.next_timer waiting.live ≡ true)
      × ((late.is_processing ≡ false)
          × (late.pending_envelope_id ≡ none)
          × (late.is_success ≡ s.is_success))
      × ((done.is_processing ≡ false)
          × (done.is_success ≡ true)
          × (done.pending_envelope_id ≡ none))
      × (timeout s.next_timer done ≡ done)
      × (on_red_envelope_status_updated e.id done ≡ done)
end_creation-falls_back e s h =
    let same = sym (end_creation-waits e s h) in
    let fired = timeout-waiting e s in
    let heard = on_red_envelope_status_updated-waiting e s in
    subst
      (λ w.
        (has s.next_timer w.live ≡ true)
        × (((timeout s.next_timer w).is_processing ≡ false)
            × ((timeout s.next_timer w).pending_envelope_id ≡ none)
            × ((timeout s.next_timer w).is_success ≡ s.is_success))
        × (((on_red_envelope_status_updated e.id w).is_processing ≡ false)
            × ((on_red_envelope_status_updated e.id w).is_success ≡ true)
            × ((on_red_envelope_status_updated e.id w).pending_envelope_id ≡ none))
        × (timeout s.next_timer (on_red_envelope_status_updated e.id w)
            ≡ on_red_envelope_status_updated e.id w)
        × (on_red_envelope_status_updated e.id (on_red_envelope_status_updated e.id w)
            ≡ on_red_envelope_status_updated e.id w))
      same
      (
        has-last s.next_timer s.live,
        (
          ap (λ (t : Creation). t.is_processing) fired,
          ap (λ (t : Creation). t.pending_envelope_id) fired,
          ap (λ (t : Creation). t.is_success) fired,
        ),
        (
          ap (λ (t : Creation). t.is_processing) heard,
          ap (λ (t : Creation). t.is_success) heard,
          ap (λ (t : Creation). t.pending_envelope_id) heard,
        ),
        timeout-cleared s.next_timer (on_red_envelope_status_updated e.id (waiting_of e s)) (
            ap (λ (t : Creation). has s.next_timer t.live) heard
            ∙ has-cleared s.next_timer (s.live ++ s.next_timer ∷ [])),
        on_red_envelope_status_updated-idle e.id
            (on_red_envelope_status_updated e.id (waiting_of e s))
            (ap (λ (t : Creation). t.pending_envelope_id) heard),
      )

set_timeout_id-over :
    (old new : ℕ) (s : Creation)
    → s.timeout_id ≡ some old
    → set_timeout_id (some new) s
      ≡ record s { live = clear new (clear old s.live); timeout_id = none }
unfolding set_timeout_id clear_pending_timeout
set_timeout_id-over old new s h = rw (set_timeout_id, h) refl

end_creation-over :
    (e : RedEnvelope) (n : ℕ) (s : Creation)
    → s.timeout_id ≡ some n
    → end_creation (transferred e) (begin_creation s) ≡ record (waiting_of e s) {
      live = clear s.next_timer (clear n (s.live ++ s.next_timer ∷ []));
      timeout_id = none;
    }
unfolding end_creation begin_creation
end_creation-over e n s h =
    set_timeout_id-over n s.next_timer (record (waiting_of e s) { timeout_id = s.timeout_id }) h

-- Where no timer is set, and after a creation that was transferred its fallback timer has fired, a
-- second creation that is transferred waits for its event without a fallback: its own timer is no
-- longer live, and no timer is set.
pub end_creation-no_fallback :
    (first second : RedEnvelope) (s : Creation)
    → s.timeout_id ≡ none
    → let late = timeout s.next_timer (end_creation (transferred first) (begin_creation s)) in
      let waiting = end_creation (transferred second) (begin_creation late) in
      (has late.next_timer waiting.live ≡ false)
      × (waiting.timeout_id ≡ none)
      × (waiting.is_processing ≡ true)
      × (waiting.pending_envelope_id ≡ some second.id)
end_creation-no_fallback first second s h =
    let late = timeout s.next_timer (end_creation (transferred first) (begin_creation s)) in
    let fired =
      ap (timeout s.next_timer) (end_creation-waits first s h) ∙ timeout-waiting first s in
    let over =
      end_creation-over second s.next_timer late (ap (λ (t : Creation). t.timeout_id) fired) in
    (
      ap (λ (t : Creation). has late.next_timer t.live) over
          ∙ has-cleared late.next_timer (clear s.next_timer (late.live ++ late.next_timer ∷ [])),
      ap (λ (t : Creation). t.timeout_id) over,
      ap (λ (t : Creation). t.is_processing) over,
      ap (λ (t : Creation). t.pending_envelope_id) over,
    )
