-- ===== src/WebSocket/Listeners/Keeps.antt =====
-- What leaves the listeners of WebSocketManager alone.
use mmn_tx_explorer.Base.{
  String, true, false, Option, none, [], ◌≡◌, ◌∙◌, refl, arith, Option-cases, if_either, ◌&&◌, ltb,
  inl, inr,
}
use mmn_tx_explorer.WebSocket.Value.{Value}
use mmn_tx_explorer.WebSocket.Manager.{
  State, Env, Outcome, stop_heartbeat, start_heartbeat, stop_deadline_checker,
  start_deadline_checker, send_raw, heartbeat_tick, drop_socket, leave_socket, attempt_reconnect,
  force_reconnect, deadline_tick, retire, open_socket, connect_with, connect, serves, on_open,
  on_close, on_error, set_token_expired_handler, disconnect, on_message, or_data, parse_data,
  parse_payload, active_token, is_ack, is_connected,
}
use mmn_tx_explorer.WebSocket.Listeners.{heard-handle_event}

-- The listeners of the second state are those of the first.
abbrev pub Keeps : State → State → Type 0
Keeps m m' = m'.listeners ≡ m.listeners

pub send_raw-Keeps : (env : Env) (msg : String) (m : State) → Keeps m (send_raw env msg m).0
unfolding send_raw
send_raw-Keeps env msg m = elim (Option-cases m.ws) [
  | inl e ↦ ground arith
  | inr (id, e) ↦ ground arith
]

stop_heartbeat-Keeps : (m : State) → Keeps m (stop_heartbeat m)
unfolding stop_heartbeat
stop_heartbeat-Keeps m = elim (Option-cases m.heartbeat_interval_id) [
  | inl e ↦ ground arith
  | inr (id, e) ↦ ground arith
]

stop_deadline_checker-Keeps : (m : State) → Keeps m (stop_deadline_checker m)
unfolding stop_deadline_checker
stop_deadline_checker-Keeps m = elim (Option-cases m.deadline_check_interval_id) [
  | inl e ↦ ground arith
  | inr (id, e) ↦ ground arith
]

drop_socket-Keeps : (m : State) → Keeps m (drop_socket m)
unfolding drop_socket
drop_socket-Keeps m = elim (Option-cases m.ws) [ inl e ↦ ground arith | inr (id, e) ↦ ground arith ]

attempt_reconnect-Keeps : (m : State) → Keeps m (attempt_reconnect m)
unfolding attempt_reconnect
attempt_reconnect-Keeps m = ground arith

retire-Keeps : (t : String) (m : State) → Keeps m (retire t m)
unfolding retire
retire-Keeps t m = elim (Option-cases m.ws) [ inl e ↦ ground arith | inr (id, e) ↦ ground arith ]

-- Stopping both timers.
halt-Keeps : (m : State) → Keeps m (stop_deadline_checker (stop_heartbeat m))
halt-Keeps m = stop_deadline_checker-Keeps (stop_heartbeat m) ∙ stop_heartbeat-Keeps m

force_reconnect-Keeps : (m : State) → Keeps m (force_reconnect m)
unfolding force_reconnect
force_reconnect-Keeps m =
    let s = record (stop_deadline_checker (stop_heartbeat m)) { is_connecting = false } in
    attempt_reconnect-Keeps (drop_socket s) ∙ drop_socket-Keeps s ∙ halt-Keeps m

pub deadline_tick-Keeps : (env : Env) (m : State) → Keeps m (deadline_tick env m)
unfolding deadline_tick
deadline_tick-Keeps env m =
    if_either (Keeps m) (is_connected env m && ltb m.connection_deadline env.now)
      (force_reconnect-Keeps m) refl

pub heartbeat_tick-Keeps : (env : Env) (m : State) → Keeps m (heartbeat_tick env m)
unfolding heartbeat_tick
heartbeat_tick-Keeps env m = send_raw-Keeps env _ m

pub connect-Keeps :
    (url : String → String) (env : Env) (token : Option String) (answer : Outcome)
    (stored : Option String) (m : State)
    → Keeps m (connect url env token answer stored m)
unfolding connect connect_with open_socket
connect-Keeps url env token answer stored m =
    elim (Option-cases (active_token token answer stored m)) [
      | inl e ↦ rw (e, connect) refl
      | inr (t, e) ↦
          rw (e, connect)
            (if_either (Keeps m) (serves env t m) refl
              (if_either (Keeps m) m.is_connecting refl (retire-Keeps t m)))
    ]

pub on_open-Keeps : (env : Env) (m : State) → Keeps m (on_open env m)
unfolding on_open start_heartbeat start_deadline_checker
on_open-Keeps env m =
    let fresh : State = record m {
      is_connecting = false;
      should_reconnect = true;
      reconnect_attempts = 0;
    } in
    stop_deadline_checker-Keeps (start_heartbeat env fresh) ∙ stop_heartbeat-Keeps fresh

pub on_close-Keeps : (m : State) → Keeps m (on_close m)
unfolding on_close
on_close-Keeps m = halt-Keeps (record m { is_connecting = false })

pub on_error-Keeps : (m : State) → Keeps m (on_error m)
unfolding on_error
on_error-Keeps m = refl

pub set_token_expired_handler-Keeps : (m : State) → Keeps m (set_token_expired_handler m)
unfolding set_token_expired_handler
set_token_expired_handler-Keeps m = refl

pub on_message-Keeps :
    (json_parse : String → Option Value) (env : Env) (d : Value) (m : State)
    → Keeps m (on_message json_parse env d m)
unfolding on_message
on_message-Keeps json_parse env d m =
    if_either (Keeps m) (is_ack json_parse d) refl
      (heard-handle_event
        (or_data json_parse (parse_payload json_parse (parse_data json_parse d)) d) 0 m).1

-- After `disconnect` there are no listeners.
pub disconnect-clears : (m : State) → (disconnect m).listeners ≡ []
unfolding disconnect
disconnect-clears m =
    stop_heartbeat-Keeps
      (record (leave_socket m) { is_connecting = false; current_token = none; listeners = [] })
