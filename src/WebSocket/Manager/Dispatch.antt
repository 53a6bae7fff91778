-- ===== src/WebSocket/Manager/Dispatch.antt =====
-- Listeners and messages: `on`, `off`, `handleEvent` and `onmessage`.
use mmn_tx_explorer.Base.{
  ℕ, ◌+◌, String, Bool, false, not, Option, none, some, List, [], ◌∷◌, ◌++◌, ◌==◌, if◌then◌else◌,
  str_eq, has, keep, lookup, insert,
}
use mmn_tx_explorer.WebSocket.Value.{Value, null, scalar, text, array, object, get, put, event_type}
use mmn_tx_explorer.WebSocket.Manager.Core.{
  Env, Effect, call, State, heartbeat_ack, heartbeat_timeout_ms,
}

-- `this.listeners.get(type)`, the members in insertion order; none for a missing key.
unfoldable pub listeners_of : String → List (String × List ℕ) → List ℕ
listeners_of type ls = elim (lookup type ls) [ none ↦ [] | some cbs ↦ cbs ]

-- `set.add(cb)`
abbrev pub add : ℕ → List ℕ → List ℕ
add cb cbs = if has cb cbs then cbs else cbs ++ cb ∷ []

-- `set.delete(cb)`
abbrev pub delete : ℕ → List ℕ → List ℕ
delete cb cbs = keep (λ c. not (c == cb)) cbs

unfoldable pub on : String → ℕ → State → State
unfolding listeners_of
on type cb m = record m {
  listeners = insert type (add cb (listeners_of type m.listeners)) m.listeners;
}

unfoldable pub off : String → ℕ → State → State
off type cb m = elim (lookup type m.listeners) [
  | none ↦ m
  | some cbs ↦ record m { listeners = insert type (delete cb cbs) m.listeners }
]

-- `listeners.forEach((listener) => listener(event))`
unfoldable pub calls : Value → List ℕ → List Effect
calls v [] = []
calls v (cb ∷ cbs) = call cb v ∷ calls v cbs

-- The callbacks that `handleEvent` runs, in order.
unfoldable pub targets : Value → List (String × List ℕ) → List ℕ
unfolding listeners_of
targets v ls =
    let named : List ℕ = elim (event_type v) [
      | none ↦ []
      | some t ↦ if str_eq t "" then [] else listeners_of t ls
    ] in
    named ++ listeners_of "*" ls

unfoldable pub handle_event : Value → State → State
unfolding calls targets
handle_event v m = record m { trace = m.trace ++ calls v (targets v m.listeners) }

module _ (json_parse : String → Option Value) where
  -- `JSON.parse` where the data is a text, and the data itself where that fails.
  unfoldable pub parse_data : Value → Value
  parse_data null = null
  parse_data (scalar b) = scalar b
  parse_data (text s) = elim (json_parse s) [ none ↦ text s | some v ↦ v ]
  parse_data array = array
  parse_data (object fs) = object fs

  -- A payload that is a text is parsed too, and kept where that fails.
  unfoldable pub parse_payload : Value → Value
  parse_payload null = null
  parse_payload (scalar b) = scalar b
  parse_payload (text s) = text s
  parse_payload array = array
  parse_payload (object fs) = elim (get "payload" fs) [
    | none ↦ object fs
    | some null ↦ object fs
    | some (scalar b) ↦ object fs
    | some array ↦ object fs
    | some (object p) ↦ object fs
    | some (text s) ↦ elim (json_parse s) [
      | none ↦ object fs
      | some v ↦ object (put "payload" v fs)
    ]
  ]

  -- `parsedData ?? event.data`
  abbrev pub or_data : Value → Value → Value
  or_data null d = d
  or_data (scalar b) d = scalar b
  or_data (text s) d = text s
  or_data array d = array
  or_data (object fs) d = object fs

  -- `event.data === HEARTBEAT_ACK`
  abbrev pub is_ack : Value → Bool
  is_ack null = false
  is_ack (scalar b) = false
  is_ack (text s) = str_eq s heartbeat_ack
  is_ack array = false
  is_ack (object fs) = false

  unfoldable pub on_message : Env → Value → State → State
  unfolding handle_event parse_data parse_payload
  on_message env d m =
      if is_ack d
      then record m { connection_deadline = env.now + heartbeat_timeout_ms }
      else handle_event (or_data (parse_payload (parse_data d)) d) m
