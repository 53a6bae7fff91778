-- ===== src/WebSocket/Manager/Socket.antt =====
-- Opening and closing the socket: `connect`, the socket's callbacks and `disconnect`.
use mmn_tx_explorer.Base.{
  ◌+◌, String, Bool, true, false, ◌&&◌, Option, none, some, [], ◌∷◌, ◌++◌, if◌then◌else◌, str_eq,
  or_text,
}
use mmn_tx_explorer.WebSocket.Manager.Core.{
  is_open_or_connecting, Env, new_socket, close, State, stop_heartbeat, start_heartbeat,
  stop_deadline_checker, start_deadline_checker,
}

-- How the awaited token handler ends.
pub data Outcome : Type 0 where
  resolved : Option String → Outcome
  rejected : Outcome

unfoldable pub set_token_expired_handler : State → State
set_token_expired_handler m = record m { has_token_provider = true }

-- The wrapper that `setTokenExpiredHandler` puts round the handler.
abbrev pub provided : Outcome → Option String
provided (resolved token) = token
provided rejected = none

-- The token that `connect` settles on, where one is found that is not empty.
unfoldable pub active_token : Option String → Outcome → Option String → State → Option String
active_token token answer stored m =
    or_text (if m.has_token_provider then or_text (provided answer) token else token)
      (or_text stored none)

-- `this.currentToken === activeToken`
abbrev pub is_current : Option String → String → Bool
is_current none t = false
is_current (some s) t = str_eq s t

-- `this.ws && …`: a socket that is open or being opened for this very token.
unfoldable pub serves : Env → String → State → Bool
serves env t m = elim m.ws [
  | none ↦ false
  | some id ↦ is_open_or_connecting (env.ready id) && is_current m.current_token t
]

-- `if (this.ws && this.currentToken !== activeToken) { … }`
unfoldable pub retire : String → State → State
retire t m = elim m.ws [
  | none ↦ m
  | some id ↦
      if is_current m.current_token t
      then m
      else record m { should_reconnect = false; ws = none; trace = m.trace ++ close id ∷ [] }
]

module _ (connect_url : String → String) where
  -- `new WebSocket(url)` and the fields that are set before it; `connect_url` forms the address
  -- from the token with `encodeURIComponent`.
  unfoldable pub open_socket : String → State → State
  open_socket t m = record m {
    is_connecting = true;
    current_token = some t;
    ws = some m.next_id;
    next_id = m.next_id + 1;
    trace = m.trace ++ new_socket m.next_id (connect_url t) ∷ [];
  }

  unfoldable pub connect_with : Env → String → State → State
  unfolding serves retire open_socket
  connect_with env t m =
      if serves env t m then m else if m.is_connecting then m else open_socket t (retire t m)

  -- `connect(token)` from where it goes on when the token provider has answered; `stored` is
  -- what `getStoredToken` reads.
  unfoldable pub connect : Env → Option String → Outcome → Option String → State → State
  unfolding connect_with active_token
  connect env token answer stored m = elim (active_token token answer stored m) [
    | none ↦ m
    | some t ↦ connect_with env t m
  ]

unfoldable pub on_open : Env → State → State
unfolding start_heartbeat start_deadline_checker
on_open env m = start_deadline_checker (
    start_heartbeat env
      (record m { is_connecting = false; should_reconnect = true; reconnect_attempts = 0 }))

unfoldable pub on_close : State → State
unfolding stop_heartbeat stop_deadline_checker
on_close m =
    let s = stop_deadline_checker (stop_heartbeat (record m { is_connecting = false })) in
    record s { ws = none }

unfoldable pub on_error : State → State
on_error m = record m { is_connecting = false }

-- `if (this.ws) { this.shouldReconnect = false; this.ws.close(); this.ws = null; }`
unfoldable pub leave_socket : State → State
leave_socket m = elim m.ws [
  | none ↦ m
  | some id ↦ record m { should_reconnect = false; ws = none; trace = m.trace ++ close id ∷ [] }
]

unfoldable pub disconnect : State → State
unfolding leave_socket stop_heartbeat
disconnect m =
    stop_heartbeat
      (record (leave_socket m) { is_connecting = false; current_token = none; listeners = [] })
