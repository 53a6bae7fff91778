-- ===== src/P2p/Chat/Receive.antt =====
-- Messages of the chat's channel: the callback of `onChannelMessage` in chat-sidebar.tsx.
-- `JSON.parse` is a parameter.
use mmn_tx_explorer.Base.{
  ℕ, ◌+◌, String, Bool, true, false, ◌&&◌, ◌||◌, Option, none, some, List, [], ◌∷◌, ◌++◌, ltb, ◌≡◌,
  arith, if◌then◌else◌, str_eq, truthy, trim, eq_refl,
}
use mmn_tx_explorer.Auth.Storage.{safe_json_parse}
use mmn_tx_explorer.P2p.Chat.{Message, Chat}

-- What a content is parsed to: null, an object with its `t`, or anything else.
pub data Parsed : Type 0 where
  json_null json_other : Parsed
  json_object : Option String → Parsed

-- A content as it arrives: a text, an object, or neither.
pub data Content : Type 0 where
  text_content : String → Content
  object_content : Option String → Content
  no_content : Content

pub record Incoming : Type 0 where
  pub id : String
  pub sender : String
  pub body : Content
  pub attached : ℕ

-- Whether a text is there with something but white space.
abbrev pub has_content : Option String → Bool
has_content none = false
has_content (some t) = truthy t && truthy (trim t)

-- `messages.find` by the id
abbrev pub has_message : String → List Message → Bool
has_message id [] = false
has_message id (m ∷ ms) = str_eq m.message_id id || has_message id ms

pub has_message-append :
    (id : String) (ms : List Message) (m : Message)
    → has_message id (ms ++ m ∷ []) ≡ (has_message id ms || str_eq m.message_id id)
has_message-append id [] m = ground arith
has_message-append id (x ∷ ms) m = ground (arith, has_message-append id ms m)

module _ (json_parse : String → Option Parsed) where
  -- The `t` of the parsed content.
  unfoldable pub parse_content : Content → Option String
  unfolding safe_json_parse
  parse_content (text_content s) = elim (safe_json_parse json_parse (some s)) [
    | none ↦ some s
    | some json_null ↦ some s
    | some json_other ↦ none
    | some (json_object t) ↦ t
  ]
  parse_content (object_content t) = t
  parse_content no_content = some ""

  -- `user?.id`
  abbrev pub is_user : Option String → String → Bool
  is_user none sender = false
  is_user (some id) sender = str_eq sender id

  unfoldable pub accepts_message : Option String → String → Incoming → Bool
  unfolding parse_content
  accepts_message user seller_id msg =
      (has_content (parse_content msg.body) || ltb 0 msg.attached)
      && (is_user user msg.sender || str_eq msg.sender seller_id)

  -- `normalizedMessage`
  abbrev pub normalized_message : Incoming → Message
  normalized_message msg = record {
    message_id = msg.id;
    sender_id = msg.sender;
    text = parse_content msg.body;
    attachments = msg.attached;
  }

  unfoldable pub receive : Option String → String → Incoming → Chat → Chat
  unfolding accepts_message
  receive user seller_id msg c =
      if accepts_message user seller_id msg
      then record c {
        messages =
            if has_message msg.id c.messages
            then c.messages
            else c.messages ++ normalized_message msg ∷ [];
        unread_count =
            if is_user user msg.sender || c.is_mobile_open
            then c.unread_count
            else c.unread_count + 1;
      }
      else c

  -- A message of the seller that arrives again, the seller not being the user and the chat not being
  -- open on the phone, leaves the messages as they are, and yet it is counted a second time as unread.
  pub receive-again :
      (user : Option String) (seller_id : String) (msg : Incoming) (c : Chat)
      → accepts_message user seller_id msg ≡ true
      → is_user user msg.sender ≡ false
      → c.is_mobile_open ≡ false
      → let once = receive user seller_id msg c in
        ((receive user seller_id msg once).messages ≡ once.messages)
        × ((receive user seller_id msg once).unread_count ≡ c.unread_count + 2)
  unfolding receive
  receive-again user seller_id msg c h k closed = ground (
    arith,
    h,
    k,
    closed,
    eq_refl msg.id,
    has_message-append msg.id c.messages (normalized_message msg),
  )
