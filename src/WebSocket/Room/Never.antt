-- ===== src/WebSocket/Room/Never.antt =====
-- What useJoinRoom does with the server's confirmation: the listener is registered under the room's
-- name, and the manager dispatches by the type of the event.
use mmn_tx_explorer.Base.{
  ℕ, String, true, false, some, List, [], ◌∷◌, ◌≡◌, ◌≢◌, refl, arith, ◌∙◌, eq_iff, has,
  Option-cases, Bool-cases, inl, inr,
}
use mmn_tx_explorer.WebSocket.Value.{Value, null, scalar, text, array, object, event_type}
use mmn_tx_explorer.WebSocket.Manager.{
  State, Env, on_open, on_close, targets, handle_event, send_raw,
}
use mmn_tx_explorer.WebSocket.Listeners.{subscribed, le-count_of_has, count-targets}
use mmn_tx_explorer.WebSocket.Room.{Room, server_handler, do_join, deliver}

-- The callback stands under the room's key alone.
pub record IsUnder (room_id : String) (cb : ℕ) (m : State) : Type 0 where
  pub elsewhere : (s : String) → s ≢ room_id → subscribed s cb m.listeners ≡ 0

targeted :
    (room_id : String) (cb : ℕ) (v : Value) (m : State)
    → IsUnder room_id cb m
    → room_id ≢ "*"
    → has cb (targets v m.listeners) ≡ true
    → event_type v ≡ some room_id
targeted room_id cb v m only nonstar h = elim (Option-cases (event_type v)) [
  | inl e ↦ ground (
    arith,
    le-count_of_has cb (targets v m.listeners),
    count-targets v cb m.listeners,
    only.elsewhere "*",
  )
  | inr (t, e) ↦ ground (
    arith,
    le-count_of_has cb (targets v m.listeners),
    count-targets v cb m.listeners,
    only.elsewhere "*",
    only.elsewhere t,
    eq_iff t room_id,
    eq_iff t "",
  )
]

module _ (split_colon : String → List String) (stringify : Value → String) where
  server_handler-ignores :
      (room_id : String) (v : Value) (r : Room)
      → event_type v ≡ some room_id
      → room_id ≢ "joined_room"
      → room_id ≢ "left_room"
      → server_handler split_colon stringify room_id v r ≡ r
  unfolding server_handler event_type
  server_handler-ignores room_id null r e _ _ = cc
  server_handler-ignores room_id (scalar b) r e _ _ = cc
  server_handler-ignores room_id (text s) r e _ _ = cc
  server_handler-ignores room_id array r e _ _ = cc
  server_handler-ignores room_id (object fs) r e nj nl =
      ground (arith, eq_iff room_id "joined_room", eq_iff room_id "left_room")

  deliver-ignores :
      (room_id : String) (cb : ℕ) (v : Value) (r : Room)
      → IsUnder room_id cb r.manager
      → room_id ≢ "*"
      → room_id ≢ "joined_room"
      → room_id ≢ "left_room"
      → deliver split_colon stringify room_id cb v r
        ≡ record r { manager = handle_event v r.manager }
  unfolding deliver
  deliver-ignores room_id cb v r only ns nj nl =
      elim (Bool-cases (has cb (targets v r.manager.listeners))) [
        | inr quiet ↦ simp quiet
        | inl called ↦ simp called (
            server_handler-ignores room_id v (record r { manager = handle_event v r.manager })
              (targeted room_id cb v r.manager only ns called) nj nl)
      ]

-- What happens to a mounted hook: its interval, dispatched events, and the socket's fate.
pub data RoomEvent : Type 0 where
  tick : Env → RoomEvent
  dispatched : Value → RoomEvent
  opened : Env → RoomEvent
  closed : RoomEvent

module _ (split_colon : String → List String) (stringify : Value → String) where
  unfoldable pub room_step : String → ℕ → RoomEvent → Room → Room
  unfolding do_join deliver
  room_step room_id cb (tick env) r = do_join split_colon stringify env room_id r
  room_step room_id cb (dispatched v) r = deliver split_colon stringify room_id cb v r
  room_step room_id cb (opened env) r = record r { manager = on_open env r.manager }
  room_step room_id cb closed r = record r { manager = on_close r.manager }

  unfoldable pub room_run : String → ℕ → List RoomEvent → Room → Room
  unfolding room_step
  room_run room_id cb [] r = r
  room_run room_id cb (e ∷ es) r = room_run room_id cb es (room_step room_id cb e r)

  -- The listeners are those of before, the confirmation has not come, and a join that was sent
  -- still counts as pending.
  record Same (a b : Room) : Type 0 where
    listeners : b.manager.listeners ≡ a.manager.listeners
    joined : b.joined ≡ a.joined
    joining : a.joining ≡ true → b.joining ≡ true

  Same-trans : {a b c : Room} → Same a b → Same b c → Same a c
  Same-trans p q = record {
    listeners = q.listeners ∙ p.listeners;
    joined = q.joined ∙ p.joined;
    joining = λ h. q.joining (p.joining h);
  }

  do_join-Same :
      (env : Env) (room_id : String) (r : Room)
      → Same r (do_join split_colon stringify env room_id r)
  unfolding do_join send_raw
  do_join-Same env room_id r = ground arith

  on_open-listeners : (env : Env) (m : State) → (on_open env m).listeners ≡ m.listeners
  unfolding on_open
  on_open-listeners env m = ground arith

  on_close-listeners : (m : State) → (on_close m).listeners ≡ m.listeners
  unfolding on_close
  on_close-listeners m = ground arith

  handle_event-listeners : (v : Value) (m : State) → (handle_event v m).listeners ≡ m.listeners
  unfolding handle_event
  handle_event-listeners v m = refl

  module _ (room_id : String) (cb : ℕ) where
    abbrev Named : Type 0
    Named = (room_id ≢ "*") × (room_id ≢ "joined_room") × (room_id ≢ "left_room")

    room_step-Same :
        (e : RoomEvent) (r : Room)
        → Named
        → IsUnder room_id cb r.manager
        → Same r (room_step room_id cb e r)
    unfolding room_step
    room_step-Same (tick env) r n only = do_join-Same env room_id r
    room_step-Same (dispatched v) r (ns, nj, nl) only =
        rw (deliver-ignores split_colon stringify room_id cb v r only ns nj nl) (record {
          listeners = handle_event-listeners v r.manager;
          joined = refl;
          joining = λ h. h;
        })
    room_step-Same (opened env) r n only = record {
      listeners = on_open-listeners env r.manager;
      joined = refl;
      joining = λ h. h;
    }
    room_step-Same closed r n only = record {
      listeners = on_close-listeners r.manager;
      joined = refl;
      joining = λ h. h;
    }

    room_run-Same :
        (es : List RoomEvent) (r : Room)
        → Named
        → IsUnder room_id cb r.manager
        → Same r (room_run room_id cb es r)
    unfolding room_run
    room_run-Same [] r n only = record { listeners = refl; joined = refl; joining = λ h. h }
    room_run-Same (e ∷ es) r n only =
        let s = room_step room_id cb e r in
        let first = room_step-Same e r n only in
        let still : IsUnder room_id cb s.manager = record {
          elsewhere = λ k h. rw first.listeners (only.elsewhere k h);
        } in
        Same-trans first (room_run-Same es s n still)

-- A hook whose callback stands under its room's name alone, where that is not "*", "joined_room" or
-- "left_room", and that has sent its join message without having joined, never learns that it
-- joined, whatever events are dispatched, and its join message is not sent again, also after the
-- socket closed and opened.
pub room_run-never_joins :
    (split_colon : String → List String) (stringify : Value → String) (room_id : String) (cb : ℕ)
    (es : List RoomEvent) (r : Room) (env : Env)
    → room_id ≢ "*"
    → room_id ≢ "joined_room"
    → room_id ≢ "left_room"
    → IsUnder room_id cb r.manager
    → r.joined ≡ false
    → r.joining ≡ true
    → let s = room_run split_colon stringify room_id cb es r in
      (s.joined ≡ false) × (do_join split_colon stringify env room_id s ≡ s)
unfolding do_join
room_run-never_joins split_colon stringify room_id cb es r env ns nj nl only fresh sent =
    let same = room_run-Same split_colon stringify room_id cb es r (ns, nj, nl) only in
    let pending = same.joining sent in (same.joined ∙ fresh, ground arith)
