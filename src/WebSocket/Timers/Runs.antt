-- ===== src/WebSocket/Timers/Runs.antt =====
-- No interval timer of WebSocketManager is leaked, whatever happens in whatever order.
use mmn_tx_explorer.Base.{
  ℕ, ◌+◌, String, true, false, Option, none, List, [], ◌∷◌, ◌≡◌, refl, arith, Option-cases,
  if_either, ◌&&◌, ltb, inl, inr,
}
use mmn_tx_explorer.WebSocket.Value.{Value}
use mmn_tx_explorer.WebSocket.Manager.{
  State, Env, Outcome, stop_heartbeat, start_heartbeat, stop_deadline_checker, on, off,
  heartbeat_tick, drop_socket, leave_socket, force_reconnect, deadline_tick, retire, connect_with,
  connect, serves, on_open, on_close, on_error, disconnect, on_message, or_data, parse_data,
  parse_payload, active_token, is_ack, is_connected, set_token_expired_handler, initial,
}
use mmn_tx_explorer.WebSocket.Events.{
  Event, connect_call, socket_open, socket_close, socket_error, heartbeat_interval,
  deadline_interval, message, subscribe, unsubscribe, send_call, disconnect_call, set_handler, step,
  run,
}
use mmn_tx_explorer.WebSocket.Timers.{
  sets, clears, held_by, IsAccounted, Alike-IsAccounted, stop_heartbeat-IsAccounted,
  stop_deadline_checker-IsAccounted, start_heartbeat-IsAccounted,
  start_deadline_checker-IsAccounted, send_raw-Alike, drop_socket-Alike, attempt_reconnect-Alike,
  retire-Alike, open_socket-Alike, handle_event-Alike, leave_socket-Alike,
}

force_reconnect-IsAccounted : (m : State) → IsAccounted m → IsAccounted (force_reconnect m)
unfolding force_reconnect
force_reconnect-IsAccounted m h =
    let s = stop_deadline_checker (stop_heartbeat m) in
    let quiet : State = record s { is_connecting = false } in
    let stopped : IsAccounted quiet = record {
      balance =
          (stop_deadline_checker-IsAccounted (stop_heartbeat m)
            (stop_heartbeat-IsAccounted m h)).balance;
    } in
    Alike-IsAccounted (attempt_reconnect-Alike (drop_socket quiet))
      (Alike-IsAccounted (drop_socket-Alike quiet) stopped)

connect_with-IsAccounted :
    (url : String → String) (env : Env) (t : String) (m : State)
    → IsAccounted m
    → IsAccounted (connect_with url env t m)
unfolding connect_with
connect_with-IsAccounted url env t m h =
    let opened =
      Alike-IsAccounted (open_socket-Alike url t (retire t m))
        (Alike-IsAccounted (retire-Alike t m) h) in
    if_either IsAccounted (serves env t m) h (if_either IsAccounted m.is_connecting h opened)

connect-IsAccounted :
    (url : String → String) (env : Env) (token : Option String) (answer : Outcome)
    (stored : Option String) (m : State)
    → IsAccounted m
    → IsAccounted (connect url env token answer stored m)
unfolding connect
connect-IsAccounted url env token answer stored m h =
    elim (Option-cases (active_token token answer stored m)) [
      | inl e ↦ rw (e, connect) h
      | inr (t, e) ↦ rw (e, connect) (connect_with-IsAccounted url env t m h)
    ]

disconnect-IsAccounted : (m : State) → IsAccounted m → IsAccounted (disconnect m)
unfolding disconnect
disconnect-IsAccounted m h =
    let left = Alike-IsAccounted (leave_socket-Alike m) h in
    stop_heartbeat-IsAccounted
      (record (leave_socket m) { is_connecting = false; current_token = none; listeners = [] })
      (record { balance = left.balance })

on_open-IsAccounted : (env : Env) (m : State) → IsAccounted m → IsAccounted (on_open env m)
unfolding on_open
on_open-IsAccounted env m h =
    let fresh : State = record m {
      is_connecting = false;
      should_reconnect = true;
      reconnect_attempts = 0;
    } in
    start_deadline_checker-IsAccounted (start_heartbeat env fresh)
      (start_heartbeat-IsAccounted env fresh (record { balance = h.balance }))

on_close-IsAccounted : (m : State) → IsAccounted m → IsAccounted (on_close m)
unfolding on_close
on_close-IsAccounted m h =
    let quiet : State = record m { is_connecting = false } in
    let stopped =
      stop_deadline_checker-IsAccounted (stop_heartbeat quiet)
        (stop_heartbeat-IsAccounted quiet (record { balance = h.balance })) in
    record { balance = stopped.balance }

on_message-IsAccounted :
    (parse : String → Option Value) (env : Env) (d : Value) (m : State)
    → IsAccounted m
    → IsAccounted (on_message parse env d m)
unfolding on_message
on_message-IsAccounted parse env d m h =
    let v = or_data parse (parse_payload parse (parse_data parse d)) d in
    if_either IsAccounted (is_ack parse d) (record { balance = h.balance })
      (Alike-IsAccounted (handle_event-Alike v m) h)

deadline_tick-IsAccounted :
    (env : Env) (m : State) → IsAccounted m → IsAccounted (deadline_tick env m)
unfolding deadline_tick
deadline_tick-IsAccounted env m h =
    if_either IsAccounted (is_connected env m && ltb m.connection_deadline env.now)
      (force_reconnect-IsAccounted m h) h

module _ (url : String → String) (parse : String → Option Value) where
  -- Every event, in every state, leaves each timer cleared or held.
  pub step-IsAccounted :
      (env : Env) (e : Event) (m : State) → IsAccounted m → IsAccounted (step url parse env e m)
  unfolding step heartbeat_tick set_token_expired_handler on_error on off
  step-IsAccounted env (connect_call token answer stored) m h =
      connect-IsAccounted url env token answer stored m h
  step-IsAccounted env socket_open m h = on_open-IsAccounted env m h
  step-IsAccounted env socket_close m h = on_close-IsAccounted m h
  step-IsAccounted env socket_error m h = record { balance = h.balance }
  step-IsAccounted env heartbeat_interval m h =
      Alike-IsAccounted (send_raw-Alike env "heartbeat_check" m) h
  step-IsAccounted env deadline_interval m h = deadline_tick-IsAccounted env m h
  step-IsAccounted env (message d) m h = on_message-IsAccounted parse env d m h
  step-IsAccounted env (subscribe t cb) m h = record { balance = h.balance }
  step-IsAccounted env (unsubscribe t cb) m h = record {
    balance = λ n. ground (arith, h.balance n);
  }
  step-IsAccounted env (send_call msg) m h = Alike-IsAccounted (send_raw-Alike env msg m) h
  step-IsAccounted env disconnect_call m h = disconnect-IsAccounted m h
  step-IsAccounted env set_handler m h = record { balance = h.balance }

  pub run-IsAccounted :
      (es : List (Env × Event)) (m : State) → IsAccounted m → IsAccounted (run url parse es m)
  unfolding run
  run-IsAccounted [] m h = h
  run-IsAccounted ((env, e) ∷ es) m h =
      run-IsAccounted es (step url parse env e m) (step-IsAccounted env e m h)

-- After any run from a new manager, for every id, the timers set under it are those cleared and
-- those that the heartbeat field and the deadline field still hold, so none leaks.
pub run-live_timers :
    (url : String → String) (parse : String → Option Value) (es : List (Env × Event)) (n : ℕ)
    → let m = run url parse es initial in
      sets n m.trace
      ≡ clears n m.trace
        + (held_by n m.heartbeat_interval_id + held_by n m.deadline_check_interval_id)
unfolding sets clears
run-live_timers url parse es n =
    (run-IsAccounted url parse es initial (record { balance = λ k. refl })).balance n
