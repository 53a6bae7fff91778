-- ===== src/WebSocket/Tests.antt =====
-- The theorems on the web socket client at concrete inputs, and runs that can be followed in the
-- source.
use mmn_tx_explorer.Base.{
  ℕ, ◌+◌, ◌≤◌, String, true, false, Option, none, some, List, [], ◌∷◌, ◌≡◌, refl, arith, eq_iff,
}
use mmn_tx_explorer.WebSocket.Value.{Value, text, object, end, field}
use mmn_tx_explorer.WebSocket.Manager.{
  State, Env, opened, resolved, initial, on_open, on_close, connect_with, connect, send_raw,
  heartbeat_tick, deadline_tick, listeners_of,
}
use mmn_tx_explorer.WebSocket.Listeners.{IsSetMap}
use mmn_tx_explorer.WebSocket.Listeners.Refine.{Refines, replay, initial-Refines, run-Refines}
use mmn_tx_explorer.WebSocket.Events.{
  Event, connect_call, socket_open, deadline_interval, subscribe, unsubscribe, step, run,
}
use mmn_tx_explorer.WebSocket.Timers.{sets, clears, held_by}
use mmn_tx_explorer.WebSocket.Timers.Runs.{run-live_timers}
use mmn_tx_explorer.WebSocket.Reconnect.{reconnects}
use mmn_tx_explorer.WebSocket.Reconnect.Runs.{run-reconnects-le}
use mmn_tx_explorer.WebSocket.Connection.{late_close-strands}
use mmn_tx_explorer.WebSocket.Room.{Room, do_join, mount}
use mmn_tx_explorer.WebSocket.Room.Never.{
  IsUnder, RoomEvent, tick, dispatched, opened as reopened, closed, room_run, room_run-never_joins,
}

abbrev url : String → String
url t = t

abbrev no_parse : String → Option Value
no_parse s = none

abbrev no_split : String → List String
no_split s = s ∷ []

abbrev show : Value → String
show v = "{}"

-- Every socket is open, at the given time.
abbrev at : ℕ → Env
at t = record { now = t; ready = λ id. opened }

initial-IsSetMap : IsSetMap initial.listeners
unfolding listeners_of
initial-IsSetMap = record { once = λ t c. omega arith }

abbrev session : List (Env × Event)
session =
    (at 0, connect_call (some "jwt") (resolved none) none)
    ∷ (at 1, socket_open)
    ∷ (at 70000, deadline_interval)
    ∷ []

abbrev after_session : State
after_session = run url no_parse session initial

-- The deadline has passed, so the socket is closed and a reconnect is scheduled.
after_session_test :
    (after_session.ws ≡ none)
    × (after_session.reconnect_attempts ≡ 1)
    × (reconnects after_session.trace ≡ 1)
unfolding run reconnects step deadline_tick on_open connect
after_session_test = (refl, refl, refl)

run-live_timers_example :
    sets 1 after_session.trace
    ≡ clears 1 after_session.trace
      + (held_by 1 after_session.heartbeat_interval_id
          + held_by 1 after_session.deadline_check_interval_id)
run-live_timers_example = run-live_timers url no_parse session 1

run-reconnects-le_example :
    reconnects (run url no_parse ((at 70001, deadline_interval) ∷ []) after_session).trace
    ≤ reconnects after_session.trace + 5
run-reconnects-le_example =
    run-reconnects-le url no_parse session ((at 70001, deadline_interval) ∷ []) (refl, tt)

abbrev connected : State
connected = record initial { ws = some 0; current_token = some "old"; next_id = 1 }

late_close-strands_example :
    let s = on_open (at 5) (on_close (connect_with url (at 4) "new" connected)) in
    ((connect_with url (at 4) "new" connected).ws ≡ some 1)
    × (s.ws ≡ none)
    × (heartbeat_tick (at 9) s ≡ s)
    × (deadline_tick (at 9) s ≡ s)
    × ((msg : String) → send_raw (at 9) msg s ≡ (s, false))
late_close-strands_example =
    late_close-strands url (at 4) (at 5) (at 9) "new" connected 0 refl refl refl

abbrev jwt : String
jwt = "jwt"

-- The hook mounted on a connected manager: it has sent its join message.
abbrev mounted : Room
mounted =
    mount no_split show (at 1) "offer_updates" 7 3 true
      (record { joined = false; joining = false; interval = none; manager = connected })

joined_room_message : Value
joined_room_message =
    object (field "type" (text "joined_room") (field "room" (text "offer_updates") end))

mounted-IsUnder : IsUnder "offer_updates" 7 mounted.manager
unfolding mount listeners_of
mounted-IsUnder = record { elsewhere = λ s h. ground (arith, eq_iff "offer_updates" s) }

abbrev life : List RoomEvent
life = dispatched joined_room_message ∷ closed ∷ reopened (at 5) ∷ tick (at 6) ∷ []

room_run-never_joins_example :
    let s = room_run no_split show "offer_updates" 7 life mounted in
    (s.joined ≡ false) × (do_join no_split show (at 9) "offer_updates" s ≡ s)
unfolding mount
room_run-never_joins_example =
    room_run-never_joins no_split show "offer_updates" 7 life mounted (at 9)
      (ground (arith, eq_iff "offer_updates" "*"))
      (ground (arith, eq_iff "offer_updates" "joined_room"))
      (ground (arith, eq_iff "offer_updates" "left_room")) mounted-IsUnder refl refl

-- A callback is registered twice and removed once while the socket opens.
abbrev subscriptions : List (Env × Event)
subscriptions =
    (at 0, subscribe "ORDER_CONFIRMED" 7)
    ∷ (at 1, connect_call (some "jwt") (resolved none) none)
    ∷ (at 2, subscribe "ORDER_CONFIRMED" 7)
    ∷ (at 3, subscribe "*" 8)
    ∷ (at 4, socket_open)
    ∷ (at 5, unsubscribe "ORDER_CONFIRMED" 7)
    ∷ []

run-Refines_example :
    Refines (run url no_parse subscriptions initial) (replay subscriptions (λ s c. 0))
run-Refines_example = run-Refines url no_parse subscriptions initial (λ s c. 0) initial-Refines
