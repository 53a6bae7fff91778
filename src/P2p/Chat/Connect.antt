-- ===== src/P2p/Chat/Connect.antt =====
-- The connection of the chat and the message sent on entering: the effects of chat-sidebar.tsx. What
-- the client and the socket answer is a parameter, read in the order of the awaits.
use mmn_tx_explorer.Base.{
  String, Bool, true, false, ◌&&◌, ◌||◌, Option, none, some, ◌≡◌, ◌⊎◌, inl, inr, refl, ℕ, ◌==◌,
  ==_iff, arith, sym, ap, ◌∙◌, if_either, if◌then◌else◌, Bool-cases, not,
}
use mmn_tx_explorer.Hooks.Transfer.{Answer, threw, answered}
use mmn_tx_explorer.P2p.Chat.{Chat, has_channel}

pub record Replies : Type 0 where
  pub is_session_expired : Answer Bool
  pub refresh_session : Answer {0} Unit
  -- `isMounted` after the refresh
  pub mounted : Bool
  pub connect : Answer {0} Unit
  pub create_dm : Answer String
  pub join_dm_channel : Answer {0} Unit
  -- `isMounted` at the end
  pub mounted_last : Bool

abbrev is_answered {ℓ} : {A : Type ℓ} → Answer A → Bool
is_answered (threw m) = false
is_answered (answered a) = true

-- From the socket's connection to the end of `initChat`.
unfoldable pub open_channel : Replies → Chat → Chat
open_channel r c =
    let opened = record c { socket = true } in
    if is_answered r.connect
    then (elim r.create_dm [
      | threw m ↦ opened
      | answered id ↦
          if is_answered r.join_dm_channel
          then record opened {
            channel_id = some id;
            is_connected = r.mounted_last || c.is_connected;
          }
          else opened
    ])
    else c

-- `initChat`, and whether the refreshed session is stored.
unfoldable pub init_chat : Replies → Chat → Chat × Bool
unfolding open_channel
init_chat r c =
    let go = if r.mounted then open_channel r c else c in
    elim r.is_session_expired [
      | threw m ↦ (c, false)
      | answered false ↦ (go, false)
      | answered true ↦ if is_answered r.refresh_session then (go, true) else (c, false)
    ]

abbrev pub is_same : ℕ → Option ℕ → Bool
is_same message none = false
is_same message (some last) = last == message

-- The effect of the message sent on entering: the object to send, where it sends one.
unfoldable pub send_auto : Option ℕ → Chat → Chat × Option ℕ
send_auto none c = (c, none)
send_auto (some message) c =
    if c.is_connected
      && (c.socket && (has_channel c.channel_id && not (is_same message c.auto_message_sent)))
    then (record c { auto_message_sent = some message }, some message)
    else (c, none)

Answer-cases {ℓ} :
    {A : Type ℓ} (a : Answer A)
    → ((m : Option String) × (a ≡ threw m)) ⊎ ((x : A) × (a ≡ answered x))
Answer-cases (threw m) = inl (m, refl)
Answer-cases (answered x) = inr (x, refl)

-- What opening a channel does to a chat that is not connected.
open_channel_lem :
    (r : Replies) (c : Chat)
    → c.is_connected ≡ false
    → (open_channel r c).is_connected ≡ true
    → (id : String) × (r.create_dm ≡ answered id)
      × (r.connect ≡ answered tt)
      × (r.join_dm_channel ≡ answered tt)
      × ((open_channel r c).socket ≡ true)
      × ((open_channel r c).channel_id ≡ some id)
unfolding open_channel
open_channel_lem r c off h = elim (Answer-cases r.create_dm) [
  | inl (m, e) ↦ absurd (ground arith)
  | inr (id, e) ↦ elim (Answer-cases r.connect) [
    | inl (m, f) ↦ absurd (ground arith)
    | inr (tt, f) ↦ elim (Answer-cases r.join_dm_channel) [
      | inl (m, g) ↦ absurd (ground arith)
      | inr (tt, g) ↦ (id, e, f, g, ground arith, ground arith)
    ]
  ]
]

-- A chat that is connected by `initChat` is what opening the channel makes of it.
init_chat-opens :
    (r : Replies) (c : Chat)
    → c.is_connected ≡ false
    → (init_chat r c).0.is_connected ≡ true
    → ((init_chat r c).0 ≡ open_channel r c)
      × ((r.is_session_expired ≡ answered false) ⊎ (r.refresh_session ≡ answered tt))
unfolding init_chat
init_chat-opens r c off h = elim (Answer-cases r.is_session_expired) [
  | inl (m, e) ↦ absurd (ground arith)
  | inr (expired, e) ↦ elim (Bool-cases expired) [
    | inr f ↦ (ground arith, inl (e ∙ ap answered f))
    | inl f ↦ elim (Answer-cases r.refresh_session) [
      | inl (m, g) ↦ absurd (ground arith)
      | inr (tt, g) ↦ (ground arith, inr g)
    ]
  ]
]

-- A chat that was not connected is connected after `initChat` only where the client gave a channel
-- that was joined over a connected socket: that is then the chat's channel, and the session was not
-- expired or was refreshed.
pub init_chat-connected :
    (r : Replies) (c : Chat)
    → c.is_connected ≡ false
    → (init_chat r c).0.is_connected ≡ true
    → (id : String) × (r.create_dm ≡ answered id)
      × (r.connect ≡ answered tt)
      × (r.join_dm_channel ≡ answered tt)
      × ((init_chat r c).0.socket ≡ true)
      × ((init_chat r c).0.channel_id ≡ some id)
      × ((r.is_session_expired ≡ answered false) ⊎ (r.refresh_session ≡ answered tt))
init_chat-connected r c off h =
    let (same, fresh) = init_chat-opens r c off h in
    let (id, e, f, g, p, q) = open_channel_lem r c off (ap (λ d. d.is_connected) (sym same) ∙ h) in
    (id, e, f, g, ap (λ d. d.socket) same ∙ p, ap (λ d. d.channel_id) same ∙ q, fresh)

-- However often the effect runs on one object, nothing else being sent, it is sent once.
pub send_auto-once :
    (message : ℕ) (c : Chat)
    → (send_auto (some message) c).1 ≡ some message
    → ((send_auto (some message) (send_auto (some message) c).0).1 ≡ none)
      × ((c.is_connected ≡ true) × (c.socket ≡ true) × (has_channel c.channel_id ≡ true))
unfolding send_auto
send_auto-once message c h =
    (ground (arith, ==_iff message message), (ground arith, ground arith, ground arith))

module _ {κ} (P : Chat → Type κ) where
  open_channel-either :
      (r : Replies) (c : Chat)
      → P c
      → P (record c { socket = true })
      → ((id : String) (b : Bool)
          → P (record c { socket = true; channel_id = some id; is_connected = b }))
      → P (open_channel r c)
  unfolding open_channel
  open_channel-either r c h opened joined = elim (Answer-cases r.create_dm) [
    | inl (m, e) ↦ rw (open_channel, e) (if_either P (is_answered r.connect) opened h)
    | inr (id, e) ↦
        rw (open_channel, e)
          (if_either P (is_answered r.connect)
            (if_either P (is_answered r.join_dm_channel)
              (joined id (r.mounted_last || c.is_connected)) opened)
            h)
  ]

  -- What `initChat` may leave.
  pub init_chat-either :
      (r : Replies) (c : Chat)
      → P c
      → P (record c { socket = true })
      → ((id : String) (b : Bool)
          → P (record c { socket = true; channel_id = some id; is_connected = b }))
      → P (init_chat r c).0
  unfolding init_chat
  init_chat-either r c h opened joined =
      let go = if_either P r.mounted (open_channel-either r c h opened joined) h in
      elim (Answer-cases r.is_session_expired) [
        | inl (m, e) ↦ rw (init_chat, e) h
        | inr (expired, e) ↦ elim (Bool-cases expired) [
          | inr f ↦ rw (init_chat, e, f) go
          | inl f ↦ elim (Bool-cases (is_answered r.refresh_session)) [
            | inl g ↦ rw (init_chat, e, f, g) go
            | inr g ↦ rw (init_chat, e, f, g) h
          ]
        ]
      ]
