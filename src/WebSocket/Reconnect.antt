-- ===== src/WebSocket/Reconnect.antt =====
-- The reconnect attempts of WebSocketManager: what each method schedules and counts.
pub mod Runs
use mmn_tx_explorer.Base.{
  ℕ, ◌+◌, ◌≤◌, String, Bool, true, false, not, Option, none, some, List, [], ◌∷◌, ◌++◌, ◌≡◌, refl,
  arith, Option-cases, if_either, inl, inr, ltb, ◌&&◌, lookup,
}
use mmn_tx_explorer.WebSocket.Value.{Value}
use mmn_tx_explorer.WebSocket.Manager.{
  Effect, new_socket, close, send, set_interval, clear_interval, set_reconnect, call, State, Env,
  Outcome, stop_heartbeat, stop_deadline_checker, calls, targets, handle_event, send_raw,
  heartbeat_tick, attempt_reconnect, drop_socket, leave_socket, force_reconnect, deadline_tick,
  retire, open_socket, connect_with, connect, on_open, on_close, on_error, disconnect, on_message,
  on, off, or_data, parse_data, parse_payload, active_token, is_ack, is_connected, serves,
  set_token_expired_handler, initial, max_reconnect_attempts,
}

-- How many reconnects a trace schedules.
unfoldable pub reconnects : List Effect → ℕ
reconnects [] = 0
reconnects (new_socket id url ∷ es) = reconnects es
reconnects (close id ∷ es) = reconnects es
reconnects (send id msg ∷ es) = reconnects es
reconnects (set_interval id ms ∷ es) = reconnects es
reconnects (clear_interval id ∷ es) = reconnects es
reconnects (set_reconnect ms ∷ es) = 1 + reconnects es
reconnects (call c v ∷ es) = reconnects es

pub reconnects-append :
    (xs ys : List Effect) → reconnects (xs ++ ys) ≡ reconnects xs + reconnects ys
unfolding reconnects
reconnects-append [] ys = omega arith
reconnects-append (set_reconnect ms ∷ es) ys = omega (arith, reconnects-append es ys)
reconnects-append (_ ∷ es) ys = reconnects-append es ys

reconnects-calls : (v : Value) (cbs : List ℕ) → reconnects (calls v cbs) ≡ 0
unfolding reconnects calls
reconnects-calls v [] = refl
reconnects-calls v (c ∷ cs) = reconnects-calls v cs

-- A step counts each reconnect that it schedules, within the bound.
pub record Counts (m m' : State) : Type 0 where
  pub counted :
      reconnects m'.trace + m.reconnect_attempts ≡ reconnects m.trace + m'.reconnect_attempts
  pub capped :
      m.reconnect_attempts ≤ max_reconnect_attempts → m'.reconnect_attempts ≤ max_reconnect_attempts

pub Counts-refl : (m : State) → Counts m m
Counts-refl m = ground arith

pub Counts-trans : {a b c : State} → Counts a b → Counts b c → Counts a c
Counts-trans p q = record { counted = omega arith; capped = λ h. q.capped (p.capped h) }

pub stop_heartbeat-Counts : (m : State) → Counts m (stop_heartbeat m)
unfolding stop_heartbeat reconnects
stop_heartbeat-Counts m = elim (Option-cases m.heartbeat_interval_id) [
  | inl e ↦ ground arith
  | inr (id, e) ↦ ground (arith, reconnects-append m.trace (clear_interval id ∷ []))
]

pub stop_deadline_checker-Counts : (m : State) → Counts m (stop_deadline_checker m)
unfolding stop_deadline_checker reconnects
stop_deadline_checker-Counts m = elim (Option-cases m.deadline_check_interval_id) [
  | inl e ↦ ground arith
  | inr (id, e) ↦ ground (arith, reconnects-append m.trace (clear_interval id ∷ []))
]

pub drop_socket-Counts : (m : State) → Counts m (drop_socket m)
unfolding drop_socket reconnects
drop_socket-Counts m = elim (Option-cases m.ws) [
  | inl e ↦ ground arith
  | inr (id, e) ↦ ground (arith, reconnects-append m.trace (close id ∷ []))
]

pub leave_socket-Counts : (m : State) → Counts m (leave_socket m)
unfolding leave_socket reconnects
leave_socket-Counts m = elim (Option-cases m.ws) [
  | inl e ↦ ground arith
  | inr (id, e) ↦ ground (arith, reconnects-append m.trace (close id ∷ []))
]

pub retire-Counts : (t : String) (m : State) → Counts m (retire t m)
unfolding retire reconnects
retire-Counts t m = elim (Option-cases m.ws) [
  | inl e ↦ ground arith
  | inr (id, e) ↦ ground (arith, reconnects-append m.trace (close id ∷ []))
]

pub send_raw-Counts : (env : Env) (msg : String) (m : State) → Counts m (send_raw env msg m).0
unfolding send_raw reconnects
send_raw-Counts env msg m = elim (Option-cases m.ws) [
  | inl e ↦ ground arith
  | inr (id, e) ↦ ground (arith, reconnects-append m.trace (send id msg ∷ []))
]

pub attempt_reconnect-Counts : (m : State) → Counts m (attempt_reconnect m)
unfolding attempt_reconnect reconnects
attempt_reconnect-Counts m = ground (arith, reconnects-append m.trace (set_reconnect 3000 ∷ []))

pub handle_event-Counts : (v : Value) (m : State) → Counts m (handle_event v m)
unfolding handle_event
handle_event-Counts v m =
    let cbs = targets v m.listeners in
    ground (arith, reconnects-append m.trace (calls v cbs), reconnects-calls v cbs)

-- Two states that agree on the counter and the trace.
pub Counts-same :
    {m s s' : State}
    → s'.reconnect_attempts ≡ s.reconnect_attempts
    → s'.trace ≡ s.trace
    → Counts m s
    → Counts m s'
Counts-same p q c = ground (arith, c.capped)
