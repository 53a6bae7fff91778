-- ===== src/WebSocket/Reconnect/Runs.antt =====
-- The bound on the reconnects that WebSocketManager schedules in any run.
use mmn_tx_explorer.Base.{
  ℕ, ◌+◌, ◌≤◌, String, Bool, true, false, Option, none, List, [], ◌∷◌, ◌≡◌, refl, arith,
  Option-cases, if_either, inl, inr, ltb, ◌&&◌,
}
use mmn_tx_explorer.WebSocket.Value.{Value}
use mmn_tx_explorer.WebSocket.Manager.{
  new_socket, State, Env, Outcome, stop_heartbeat, stop_deadline_checker, heartbeat_tick,
  drop_socket, leave_socket, force_reconnect, deadline_tick, retire, open_socket, connect, on_open,
  on_close, on_error, disconnect, on_message, on, off, or_data, parse_data, parse_payload,
  active_token, is_ack, is_connected, serves, set_token_expired_handler, initial,
  max_reconnect_attempts,
}
use mmn_tx_explorer.WebSocket.Events.{
  Event, connect_call, socket_open, socket_close, socket_error, heartbeat_interval,
  deadline_interval, message, subscribe, unsubscribe, send_call, disconnect_call, set_handler, step,
  run,
}
use mmn_tx_explorer.WebSocket.Reconnect.{
  reconnects, reconnects-append, Counts, Counts-refl, Counts-trans, Counts-same,
  stop_heartbeat-Counts, stop_deadline_checker-Counts, drop_socket-Counts, leave_socket-Counts,
  retire-Counts, send_raw-Counts, attempt_reconnect-Counts, handle_event-Counts,
}

force_reconnect-Counts : (m : State) → Counts m (force_reconnect m)
unfolding force_reconnect
force_reconnect-Counts m =
    let s = stop_deadline_checker (stop_heartbeat m) in
    let quiet : State = record s { is_connecting = false } in
    let stopped : Counts m quiet =
      Counts-same refl refl (
        Counts-trans (stop_heartbeat-Counts m) (stop_deadline_checker-Counts (stop_heartbeat m))) in
    Counts-trans stopped
      (Counts-trans (drop_socket-Counts quiet) (attempt_reconnect-Counts (drop_socket quiet)))

connect-Counts :
    (url : String → String) (env : Env) (token : Option String) (answer : Outcome)
    (stored : Option String) (m : State)
    → Counts m (connect url env token answer stored m)
unfolding connect open_socket reconnects
connect-Counts url env token answer stored m =
    elim (Option-cases (active_token token answer stored m)) [
      | inl e ↦ rw (e, connect) (Counts-refl m)
      | inr (t, e) ↦
          let s = retire t m in
          let opened : Counts m (open_socket url t s) =
            Counts-trans (retire-Counts t m)
              (ground (arith, reconnects-append s.trace (new_socket s.next_id (url t) ∷ []))) in
          rw (e, connect)
            (if_either (Counts m) (serves env t m) (Counts-refl m)
              (if_either (Counts m) m.is_connecting (Counts-refl m) opened))
    ]

disconnect-Counts : (m : State) → Counts m (disconnect m)
unfolding disconnect
disconnect-Counts m =
    let s : State = record (leave_socket m) {
      is_connecting = false;
      current_token = none;
      listeners = [];
    } in
    Counts-trans (Counts-same {s' = s} refl refl (leave_socket-Counts m)) (stop_heartbeat-Counts s)

on_close-Counts : (m : State) → Counts m (on_close m)
unfolding on_close
on_close-Counts m =
    let quiet : State = record m { is_connecting = false } in
    Counts-same refl refl (
      Counts-trans (Counts-same {s' = quiet} refl refl (Counts-refl m)) (
        Counts-trans (stop_heartbeat-Counts quiet)
          (stop_deadline_checker-Counts (stop_heartbeat quiet))))

on_message-Counts :
    (parse : String → Option Value) (env : Env) (d : Value) (m : State)
    → Counts m (on_message parse env d m)
unfolding on_message
on_message-Counts parse env d m =
    let v = or_data parse (parse_payload parse (parse_data parse d)) d in
    if_either (Counts m) (is_ack parse d) (Counts-same refl refl (Counts-refl m))
      (handle_event-Counts v m)

off-Counts : (t : String) (cb : ℕ) (m : State) → Counts m (off t cb m)
unfolding off
off-Counts t cb m = ground arith

on_open-reset : (env : Env) (m : State) → (on_open env m).reconnect_attempts ≡ 0
unfolding on_open
on_open-reset env m = ground arith

abbrev pub is_open_event : Event → Bool
is_open_event socket_open = true
is_open_event _ = false

module _ (url : String → String) (parse : String → Option Value) where
  step-Counts :
      (env : Env) (e : Event) (m : State)
      → is_open_event e ≡ false
      → Counts m (step url parse env e m)
  unfolding step heartbeat_tick set_token_expired_handler on_error on deadline_tick
  step-Counts env (connect_call token answer stored) m _ =
      connect-Counts url env token answer stored m
  step-Counts env socket_open m h = cc
  step-Counts env socket_close m _ = on_close-Counts m
  step-Counts env socket_error m _ = Counts-same refl refl (Counts-refl m)
  step-Counts env heartbeat_interval m _ = send_raw-Counts env "heartbeat_check" m
  step-Counts env deadline_interval m _ =
      if_either (Counts m) (is_connected env m && ltb m.connection_deadline env.now)
        (force_reconnect-Counts m) (Counts-refl m)
  step-Counts env (message d) m _ = on_message-Counts parse env d m
  step-Counts env (subscribe t cb) m _ = Counts-same refl refl (Counts-refl m)
  step-Counts env (unsubscribe t cb) m _ = off-Counts t cb m
  step-Counts env (send_call msg) m _ = send_raw-Counts env msg m
  step-Counts env disconnect_call m _ = disconnect-Counts m
  step-Counts env set_handler m _ = Counts-same refl refl (Counts-refl m)

  step-capped :
      (env : Env) (e : Event) (m : State)
      → m.reconnect_attempts ≤ max_reconnect_attempts
      → (step url parse env e m).reconnect_attempts ≤ max_reconnect_attempts
  unfolding step
  step-capped env socket_open m h = omega (arith, on_open-reset env m)
  step-capped env e m h = (step-Counts env e m refl).capped h

  run-capped :
      (es : List (Env × Event)) (m : State)
      → m.reconnect_attempts ≤ max_reconnect_attempts
      → (run url parse es m).reconnect_attempts ≤ max_reconnect_attempts
  unfolding run
  run-capped [] m h = h
  run-capped ((env, e) ∷ es) m h = run-capped es (step url parse env e m) (step-capped env e m h)

  abbrev pub NeverOpens : List (Env × Event) → Type 0
  NeverOpens [] = Unit
  NeverOpens ((env, e) ∷ es) = (is_open_event e ≡ false) × NeverOpens es

  run-Counts : (es : List (Env × Event)) (m : State) → NeverOpens es → Counts m (run url parse es m)
  unfolding run
  run-Counts [] m _ = Counts-refl m
  run-Counts ((env, e) ∷ es) m (h, hs) =
      Counts-trans (step-Counts env e m h) (run-Counts es (step url parse env e m) hs)

-- From any state that a run reaches, and for as long as no socket opens, at most
-- `max_reconnect_attempts` further reconnects are scheduled, whatever else happens.
pub run-reconnects-le :
    (url : String → String) (parse : String → Option Value) (before after : List (Env × Event))
    → NeverOpens url parse after
    → let m = run url parse before initial in
      reconnects (run url parse after m).trace ≤ reconnects m.trace + max_reconnect_attempts
run-reconnects-le url parse before after quiet =
    let m = run url parse before initial in
    let reached = run-capped url parse before initial (omega arith) in
    let later = run-Counts url parse after m quiet in
    omega (arith, later.counted, later.capped reached)
