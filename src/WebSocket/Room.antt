-- ===== src/WebSocket/Room.antt =====
-- The hook useJoinRoom of frontend/lib/websocket/useJoinRoom.ts over the manager. The refs of the
-- hook and the manager are one state, since the hook calls the manager's methods and shares its
-- trace of effects. `clearInterval` and `setInterval` of the hook are not modelled as effects of
-- the manager: they are seen in the field `interval`.
pub mod Never
use mmn_tx_explorer.Base.{
  ℕ, ◌+◌, String, Bool, true, false, ◌&&◌, ◌||◌, not, Option, none, some, List, [], ◌∷◌, ◌==◌,
  if◌then◌else◌, str_eq, truthy, has,
}
use mmn_tx_explorer.WebSocket.Value.{
  Value, null, scalar, text, array, object, Fields, end, field, get, as_text,
}
use mmn_tx_explorer.WebSocket.Manager.{
  State, Env, on, off, send_raw, is_connected, on_open, on_close, handle_event, targets,
}

abbrev pub msg_join_room : String
msg_join_room = "join_room"

abbrev pub msg_leave_room : String
msg_leave_room = "leave_room"

abbrev pub server_joined_room_prefix : String
server_joined_room_prefix = "joined_room"

abbrev pub server_left_room_prefix : String
server_left_room_prefix = "left_room"

pub record Room : Type 0 where
  pub joined : Bool
  pub joining : Bool
  pub interval : Option ℕ
  pub manager : State

abbrev pub clear_join_interval : Room → Room
clear_join_interval r = record r { interval = none }

unfoldable pub mark_joined : Room → Room
mark_joined r = clear_join_interval (record r { joined = true; joining = false })

unfoldable pub mark_left : Room → Room
mark_left r = record r { joined = false; joining = false }

-- `const [type, r] = parts; if (type && r)`
unfoldable pub pair_of : List String → Option (String × String)
pair_of [] = none
pair_of (type ∷ []) = none
pair_of (type ∷ r ∷ more) = if truthy type && truthy r then some (type, r) else none

-- A type and a room that are both texts.
unfoldable pub both : Option String → Option String → Option (String × String)
both none r = none
both (some type) none = none
both (some type) (some r) = some (type, r)

-- `JSON.stringify({ type, room })` is a parameter, as is `split(':')`.
module _ (split_colon : String → List String) (stringify : Value → String) where
  unfoldable pub parse_room_event : Value → Option (String × String)
  unfolding pair_of both get
  parse_room_event null = none
  parse_room_event (scalar b) = none
  parse_room_event (text s) = pair_of (split_colon s)
  parse_room_event array = none
  parse_room_event (object fs) = both (as_text (get "type" fs)) (as_text (get "room" fs))

  unfoldable pub server_handler : String → Value → Room → Room
  unfolding parse_room_event mark_joined mark_left
  server_handler room_id evt r = elim (parse_room_event evt) [
    | none ↦ r
    | some (type, room) ↦
        if not (str_eq room room_id)
        then r
        else (if str_eq type server_joined_room_prefix
            then mark_joined r
            else if str_eq type server_left_room_prefix
            then mark_left r
            else r)
  ]

  abbrev pub room_message : String → String → String
  room_message type room_id =
      stringify (object (field "type" (text type) (field "room" (text room_id) end)))

  unfoldable pub do_join : Env → String → Room → Room
  unfolding is_connected send_raw
  do_join env room_id r =
      if r.joined || r.joining
      then r
      else (if is_connected env r.manager
          then (let (m, ok) = send_raw env (room_message msg_join_room room_id) r.manager in
              record r { joining = if ok then true else r.joining; manager = m })
          else r)

  unfoldable pub do_leave : Env → String → Room → Room
  unfolding send_raw mark_left
  do_leave env room_id r =
      if not r.joined && not r.joining
      then r
      else mark_left
          (record r { manager = (send_raw env (room_message msg_leave_room room_id) r.manager).0 })

  -- The body of the effect. The callback `serverHandler` has the number `cb`, and the interval
  -- that it sets the number `timer`.
  unfoldable pub mount : Env → String → ℕ → ℕ → Bool → Room → Room
  unfolding do_join do_leave on
  mount env room_id cb timer should_join r =
      let s : Room = record r { manager = on room_id cb r.manager } in
      if should_join
      then (let t = do_join env room_id s in
          if not t.joined
          then record t { interval = elim t.interval [ none ↦ some timer | some old ↦ some old ] }
          else t)
      else do_leave env room_id s

  -- What the effect returns, run when the component goes or its inputs change.
  unfoldable pub unmount : Env → String → ℕ → Room → Room
  unfolding do_leave off
  unmount env room_id cb r =
      let s = do_leave env room_id (clear_join_interval r) in
      record s { manager = off room_id cb s.manager }

  -- The manager dispatches an event; the hook's callback runs if it is among the targets.
  unfoldable pub deliver : String → ℕ → Value → Room → Room
  unfolding server_handler handle_event
  deliver room_id cb v r =
      let called = has cb (targets v r.manager.listeners) in
      let s : Room = record r { manager = handle_event v r.manager } in
      if called then server_handler room_id v s else s
