-- ===== src/WebSocket/Manager/Core.antt =====
-- The manager's fields, its timers and reconnects (websocket-manager.ts, constants.ts).
use mmn_tx_explorer.Base.{
  ℕ, ◌+◌, String, Bool, true, false, ◌&&◌, not, Option, none, some, List, [], ◌∷◌, ◌++◌, ltb,
  if◌then◌else◌,
}
use mmn_tx_explorer.WebSocket.Value.{Value}

abbrev pub heartbeat_check : String
heartbeat_check = "heartbeat_check"

abbrev pub heartbeat_ack : String
heartbeat_ack = "heartbeat_ack"

abbrev pub heartbeat_check_interval_ms : ℕ
heartbeat_check_interval_ms = 30000

abbrev pub heartbeat_timeout_ms : ℕ
heartbeat_timeout_ms = 60000

abbrev pub max_reconnect_attempts : ℕ
max_reconnect_attempts = 5

abbrev pub reconnect_delay_ms : ℕ
reconnect_delay_ms = 3000

pub data ReadyState : Type 0 where
  connecting opened closing closed : ReadyState

abbrev pub is_open : ReadyState → Bool
is_open connecting = false
is_open opened = true
is_open closing = false
is_open closed = false

abbrev pub is_open_or_connecting : ReadyState → Bool
is_open_or_connecting connecting = true
is_open_or_connecting opened = true
is_open_or_connecting closing = false
is_open_or_connecting closed = false

-- What the browser answers while a method runs: the clock and each socket's `readyState`.
pub record Env : Type 0 where
  pub now : ℕ
  pub ready : ℕ → ReadyState

pub data Effect : Type 0 where
  new_socket : ℕ → String → Effect
  close : ℕ → Effect
  send : ℕ → String → Effect
  set_interval : ℕ → ℕ → Effect
  clear_interval : ℕ → Effect
  -- `setTimeout(() => this.connect(), delay)`
  set_reconnect : ℕ → Effect
  call : ℕ → Value → Effect

pub record State : Type 0 where
  pub ws : Option ℕ
  pub reconnect_attempts : ℕ
  pub listeners : List (String × List ℕ)
  pub heartbeat_interval_id : Option ℕ
  pub deadline_check_interval_id : Option ℕ
  pub connection_deadline : ℕ
  pub should_reconnect : Bool
  pub has_token_provider : Bool
  pub current_token : Option String
  pub is_connecting : Bool
  pub next_id : ℕ
  pub trace : List Effect

-- The fields as the constructor leaves them.
abbrev pub initial : State
initial = record {
  ws = none;
  reconnect_attempts = 0;
  listeners = [];
  heartbeat_interval_id = none;
  deadline_check_interval_id = none;
  connection_deadline = 0;
  should_reconnect = true;
  has_token_provider = false;
  current_token = none;
  is_connecting = false;
  next_id = 0;
  trace = [];
}

abbrev pub emit : Effect → State → State
emit e m = record m { trace = m.trace ++ e ∷ [] }

-- `this.ws?.readyState === WebSocket.OPEN`
unfoldable pub is_connected : Env → State → Bool
is_connected env m = elim m.ws [ none ↦ false | some id ↦ is_open (env.ready id) ]

unfoldable pub send_raw : Env → String → State → State × Bool
send_raw env msg m = elim m.ws [
  | none ↦ (m, false)
  | some id ↦ if is_open (env.ready id) then (emit (send id msg) m, true) else (m, false)
]

unfoldable pub stop_heartbeat : State → State
stop_heartbeat m = elim m.heartbeat_interval_id [
  | none ↦ m
  | some id ↦ record m { heartbeat_interval_id = none; trace = m.trace ++ clear_interval id ∷ [] }
]

unfoldable pub start_heartbeat : Env → State → State
unfolding stop_heartbeat
start_heartbeat env m =
    let s = stop_heartbeat m in
    record s {
      heartbeat_interval_id = some s.next_id;
      next_id = s.next_id + 1;
      trace = s.trace ++ set_interval s.next_id heartbeat_check_interval_ms ∷ [];
      connection_deadline = env.now + heartbeat_timeout_ms;
    }

unfoldable pub stop_deadline_checker : State → State
stop_deadline_checker m = elim m.deadline_check_interval_id [
  | none ↦ m
  | some id ↦ record m {
    deadline_check_interval_id = none;
    trace = m.trace ++ clear_interval id ∷ [];
  }
]

unfoldable pub start_deadline_checker : State → State
unfolding stop_deadline_checker
start_deadline_checker m =
    let s = stop_deadline_checker m in
    record s {
      deadline_check_interval_id = some s.next_id;
      next_id = s.next_id + 1;
      trace = s.trace ++ set_interval s.next_id 1000 ∷ [];
    }

-- The callback of the heartbeat interval.
unfoldable pub heartbeat_tick : Env → State → State
unfolding send_raw
heartbeat_tick env m = (send_raw env heartbeat_check m).0

unfoldable pub attempt_reconnect : State → State
attempt_reconnect m =
    if not m.should_reconnect
    then m
    else (if ltb m.reconnect_attempts max_reconnect_attempts
        then record m {
          reconnect_attempts = m.reconnect_attempts + 1;
          trace = m.trace ++ set_reconnect reconnect_delay_ms ∷ [];
        }
        else m)

-- `if (this.ws) { this.ws.close(); this.ws = null; }`
unfoldable pub drop_socket : State → State
drop_socket m = elim m.ws [
  | none ↦ m
  | some id ↦ record m { ws = none; trace = m.trace ++ close id ∷ [] }
]

unfoldable pub force_reconnect : State → State
unfolding stop_heartbeat stop_deadline_checker drop_socket attempt_reconnect
force_reconnect m =
    let s = stop_deadline_checker (stop_heartbeat m) in
    attempt_reconnect (drop_socket (record s { is_connecting = false }))

-- The callback of the deadline interval.
unfoldable pub deadline_tick : Env → State → State
unfolding force_reconnect is_connected
deadline_tick env m =
    if is_connected env m && ltb m.connection_deadline env.now then force_reconnect m else m
