-- ===== src/WebSocket/Connection.antt =====
-- Connecting, staying alive and losing the connection: websocket-manager.ts.
use mmn_tx_explorer.Base.{
  ℕ, ◌+◌, ◌≤◌, ◌<◌, String, true, false, Option, none, some, [], ◌∷◌, ◌++◌, ◌≡◌, ◌≢◌, refl, arith,
  Option-cases, Bool-cases, inl, inr, str_eq, eq_iff, sym, ap, if◌then◌else◌, or_text, ◌∙◌, ◌⊎◌,
}
use mmn_tx_explorer.WebSocket.Value.{Value, text}
use mmn_tx_explorer.WebSocket.Manager.{
  new_socket, close, send, State, Env, Outcome, provided, send_raw, heartbeat_tick, heartbeat_ack,
  deadline_tick, connect_with, on_open, on_close, on_message, active_token, is_open, is_connected,
  is_current, serves, max_reconnect_attempts,
}

-- Where `or_text` takes its value from.
or_text-from :
    (a b : Option String) {t : String}
    → or_text a b ≡ some t
    → (a ≡ some t) × (t ≢ "") ⊎ (b ≡ some t)
or_text-from none b e = inr e
or_text-from (some s) b {t} e = elim (Bool-cases (str_eq s "")) [
  | inl empty ↦ inr (ground arith)
  | inr full ↦ inl (ground arith, ground (arith, eq_iff s ""))
]

or_text-first : (s : String) (b : Option String) → s ≢ "" → or_text (some s) b ≡ some s
or_text-first s b h = ground (arith, eq_iff s "")

abbrev Source : Option String → Outcome → Option String → State → String → Type 0
Source token answer stored m t =
    (m.has_token_provider ≡ true) × (provided answer ≡ some t)
    ⊎ (token ≡ some t)
    ⊎ (stored ≡ some t)

-- The token that `connect` settles on is not empty, and it is the answer of the token provider, the
-- argument or the stored token; unless there is no provider or its answer is missing or empty, it is
-- that answer.
pub active_token-chooses :
    (token : Option String) (answer : Outcome) (stored : Option String) (m : State) (t : String)
    → active_token token answer stored m ≡ some t
    → (t ≢ "")
      × Source token answer stored m t
      × ((m.has_token_provider ≡ false)
          ⊎ (or_text (provided answer) none ≡ none)
          ⊎ (provided answer ≡ some t))
unfolding active_token
active_token-chooses token answer stored m t e = (nonempty, source, prefers)
  where
    first : Option String
    first = if m.has_token_provider then or_text (provided answer) token else token

    parts : (first ≡ some t) × (t ≢ "") ⊎ (stored ≡ some t) × (t ≢ "")
    parts = elim (or_text-from first (or_text stored none) e) [
      | inl here ↦ inl here
      | inr later ↦ elim (or_text-from stored none later) [
        | inl s ↦ inr s
        | inr no_one ↦ absurd (cc)
      ]
    ]

    nonempty : t ≢ ""
    nonempty = elim parts [ inl (_, h) ↦ h | inr (_, h) ↦ h ]

    prefers :
        (m.has_token_provider ≡ false)
        ⊎ (or_text (provided answer) none ≡ none)
        ⊎ (provided answer ≡ some t)
    prefers = elim (Bool-cases m.has_token_provider) [
      | inr off ↦ inl off
      | inl given ↦ elim (Option-cases (or_text (provided answer) none)) [
        | inl blank ↦ inr (inl blank)
        | inr (p, there) ↦ elim (or_text-from (provided answer) none there) [
          | inr never ↦ absurd cc
          | inl (answered, full) ↦
              let same : t ≡ p =
                ground
                  (arith, or_text-first p token full, or_text-first p (or_text stored none) full) in
              inr (inr (answered ∙ ap some (sym same)))
        ]
      ]
    ]

    source : Source token answer stored m t
    source = elim parts [
      | inr (s, _) ↦ inr (inr s)
      | inl (f, _) ↦ elim (Bool-cases m.has_token_provider) [
        | inr off ↦ inr (inl (ground arith))
        | inl given ↦ elim (or_text-from (provided answer) token (rw given at f)) [
          | inl (p, _) ↦ inl (given, p)
          | inr a ↦ inr (inl a)
        ]
      ]
    ]

-- While none is being opened, connecting for a token closes the socket that is held for another
-- token and then opens exactly one socket.
pub connect_with-switches :
    (url : String → String) (env : Env) (t : String) (m : State) (old : ℕ)
    → m.ws ≡ some old
    → is_current m.current_token t ≡ false
    → m.is_connecting ≡ false
    → ((connect_with url env t m).ws ≡ some m.next_id)
      × ((connect_with url env t m).current_token ≡ some t)
      × ((connect_with url env t m).trace
          ≡ (m.trace ++ close old ∷ []) ++ new_socket m.next_id (url t) ∷ [])
unfolding connect_with
connect_with-switches url env t m old held other free = ground arith

-- A second call for the token while its socket is open or being opened changes nothing.
pub connect_with-idle :
    (url : String → String) (env : Env) (t : String) (m : State)
    → (serves env t m ≡ true) ⊎ (m.is_connecting ≡ true)
    → connect_with url env t m ≡ m
unfolding connect_with
connect_with-idle url env t m (inl e) = ground arith
connect_with-idle url env t m (inr e) = ground arith

on_close-ws : (m : State) → (on_close m).ws ≡ none
unfolding on_close
on_close-ws m = refl

on_open-ws : (env : Env) (m : State) → (on_open env m).ws ≡ m.ws
unfolding on_open
on_open-ws env m = ground arith

-- Without a socket every message is refused, and neither tick does anything.
pub stranded :
    (env : Env) (m : State)
    → m.ws ≡ none
    → (heartbeat_tick env m ≡ m)
      × (deadline_tick env m ≡ m)
      × ((msg : String) → send_raw env msg m ≡ (m, false))
unfolding heartbeat_tick deadline_tick send_raw
stranded env m e = (ground arith, ground arith, λ msg. ground arith)

-- Where connecting for a token replaces the socket that is held for another, the close event of the
-- replaced socket takes the new socket from the manager: even when that socket then opens, no
-- message and no heartbeat is sent and no deadline forces a reconnect.
pub late_close-strands :
    (url : String → String) (env opening later : Env) (t : String) (m : State) (old : ℕ)
    → m.ws ≡ some old
    → is_current m.current_token t ≡ false
    → m.is_connecting ≡ false
    → let s = on_open opening (on_close (connect_with url env t m)) in
      ((connect_with url env t m).ws ≡ some m.next_id)
      × (s.ws ≡ none)
      × (heartbeat_tick later s ≡ s)
      × (deadline_tick later s ≡ s)
      × ((msg : String) → send_raw later msg s ≡ (s, false))
late_close-strands url env opening later t m old held other free =
    let c = connect_with url env t m in
    let s = on_open opening (on_close c) in
    let lost : s.ws ≡ none = on_open-ws opening (on_close c) ∙ on_close-ws c in
    let (idle, quiet, refused) = stranded later s lost in
    ((connect_with-switches url env t m old held other free).0, lost, idle, quiet, refused)

-- Past the deadline, with an open socket, attempts left and reconnecting allowed, the manager drops
-- its socket and both timers and counts one more reconnect attempt.
pub deadline_tick-late :
    (env : Env) (m : State) (id : ℕ)
    → m.ws ≡ some id
    → is_open (env.ready id) ≡ true
    → m.connection_deadline < env.now
    → m.should_reconnect ≡ true
    → m.reconnect_attempts < max_reconnect_attempts
    → let s = deadline_tick env m in
      (s.ws ≡ none)
      × (s.heartbeat_interval_id ≡ none)
      × (s.deadline_check_interval_id ≡ none)
      × (s.reconnect_attempts ≡ m.reconnect_attempts + 1)
unfolding deadline_tick
deadline_tick-late env m id held up late allowed room = ground arith

deadline_tick-early :
    (env : Env) (m : State) → env.now ≤ m.connection_deadline → deadline_tick env m ≡ m
unfolding deadline_tick
deadline_tick-early env m h = ground arith

on_open-deadline : (env : Env) (m : State) → (on_open env m).connection_deadline ≡ env.now + 60000
unfolding on_open
on_open-deadline env m = ground arith

on_message-deadline :
    (parse : String → Option Value) (env : Env) (m : State)
    → (on_message parse env (text heartbeat_ack) m).connection_deadline ≡ env.now + 60000
unfolding on_message
on_message-deadline parse env m = refl

-- For 60 seconds after the socket opened or the server acknowledged a heartbeat, no deadline check
-- changes anything.
pub deadline_tick-after_ack :
    (parse : String → Option Value) (env later : Env) (m : State)
    → later.now ≤ env.now + 60000
    → (deadline_tick later (on_open env m) ≡ on_open env m)
      × (deadline_tick later (on_message parse env (text heartbeat_ack) m)
          ≡ on_message parse env (text heartbeat_ack) m)
deadline_tick-after_ack parse env later m soon = (
  deadline_tick-early later (on_open env m) (omega (arith, on_open-deadline env m)),
  deadline_tick-early later (on_message parse env (text heartbeat_ack) m)
      (omega (arith, on_message-deadline parse env m)),
)

-- Either the held socket is open and the message goes out on it, or it is not and nothing changes;
-- the result says which.
pub send_raw_iff :
    (env : Env) (msg : String) (m : State)
    → (is_connected env m ≡ true)
        × ((id : ℕ) × (m.ws ≡ some id)
            × ((send_raw env msg m).0.trace ≡ m.trace ++ send id msg ∷ []))
        × ((send_raw env msg m).1 ≡ true)
      ⊎ (is_connected env m ≡ false) × (send_raw env msg m ≡ (m, false))
unfolding send_raw is_connected
send_raw_iff env msg m = elim (Option-cases m.ws) [
  | inl e ↦ inr (ground arith, ground arith)
  | inr (id, e) ↦ elim (Bool-cases (is_open (env.ready id))) [
    | inl up ↦ inl (ground arith, (id, e, ground arith), ground arith)
    | inr down ↦ inr (ground arith, ground arith)
  ]
]
