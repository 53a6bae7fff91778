-- ===== src/WebSocket/Value.antt =====
-- JavaScript values as the message handlers read them (frontend/lib/websocket/websocket-manager.ts
-- and useJoinRoom.ts): what `typeof`, `in` and a property access see of a parsed message.
use mmn_tx_explorer.Base.{
  String, Bool, true, false, Option, none, some, if◌then◌else◌, str_eq, truthy,
}

mutual
  pub data Value : Type 0 where
    null : Value
    -- A number or a Boolean, by whether a condition takes it for true.
    scalar : Bool → Value
    text : String → Value
    -- An array is an object with neither of the keys that the handlers look up.
    array : Value
    object : Fields → Value

  pub data Fields : Type 0 where
    end : Fields
    field : String → Value → Fields → Fields

-- `fields[key]`
unfoldable pub get : String → Fields → Option Value
get key end = none
get key (field k v fs) = if str_eq k key then some v else get key fs

-- `fields[key] = value` on a key that is there
unfoldable pub put : String → Value → Fields → Fields
put key value end = end
put key value (field k v fs) =
    if str_eq k key then field k value fs else field k v (put key value fs)

-- The condition `if (value)`.
abbrev pub is_truthy : Value → Bool
is_truthy null = false
is_truthy (scalar b) = b
is_truthy (text s) = truthy s
is_truthy array = true
is_truthy (object fs) = true

-- `typeof value === 'string' ? value : undefined`, for an optional property
abbrev pub as_text : Option Value → Option String
as_text none = none
as_text (some null) = none
as_text (some (scalar b)) = none
as_text (some (text s)) = some s
as_text (some array) = none
as_text (some (object fs)) = none

-- `value.type` if `value` is an object with a text under `type`
unfoldable pub event_type : Value → Option String
unfolding get
event_type null = none
event_type (scalar b) = none
event_type (text s) = none
event_type array = none
event_type (object fs) = as_text (get "type" fs)
