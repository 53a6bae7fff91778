-- ===== src/WebSocket/Events.antt =====
-- Runs of the manager: the callbacks of the browser and the calls of its clients, in any order.
use mmn_tx_explorer.Base.{ℕ, String, Option, List, [], ◌∷◌}
use mmn_tx_explorer.WebSocket.Value.{Value}
use mmn_tx_explorer.WebSocket.Manager.{
  State, Env, Outcome, connect, on_open, on_close, on_error, heartbeat_tick, deadline_tick,
  on_message, on, off, send_raw, disconnect, set_token_expired_handler,
}

-- What the browser or a caller makes the manager do.
pub data Event : Type 0 where
  connect_call : Option String → Outcome → Option String → Event
  socket_open socket_close socket_error heartbeat_interval deadline_interval : Event
  message : Value → Event
  subscribe unsubscribe : String → ℕ → Event
  send_call : String → Event
  disconnect_call set_handler : Event

module _ (connect_url : String → String) (json_parse : String → Option Value) where
  unfoldable pub step : Env → Event → State → State
  step env (connect_call token answer stored) m = connect connect_url env token answer stored m
  step env socket_open m = on_open env m
  step env socket_close m = on_close m
  step env socket_error m = on_error m
  step env heartbeat_interval m = heartbeat_tick env m
  step env deadline_interval m = deadline_tick env m
  step env (message d) m = on_message json_parse env d m
  step env (subscribe t cb) m = on t cb m
  step env (unsubscribe t cb) m = off t cb m
  step env (send_call msg) m = (send_raw env msg m).0
  step env disconnect_call m = disconnect m
  step env set_handler m = set_token_expired_handler m

  -- A run takes the events in order, each with what the browser answers at that time.
  unfoldable pub run : List (Env × Event) → State → State
  run [] m = m
  run ((env, e) ∷ es) m = run es (step env e m)
