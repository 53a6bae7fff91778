-- ===== src/P2p/Chat/Run.antt =====
-- Runs of the chat: the handlers of chat-sidebar.tsx in any order, with at most one call of
-- `handleSendMessage` between its awaits. `JSON.parse`, the user and the seller are parameters.
use mmn_tx_explorer.Base.{
  ℕ, ◌≤◌, String, Bool, true, false, not, ◌&&◌, Option, none, some, List, [], ◌∷◌, ◌≡◌, ltb,
  if◌then◌else◌, size, All, map,
}
use mmn_tx_explorer.P2p.Upload.{File, max_file_size}
use mmn_tx_explorer.P2p.Chat.{
  Chat, Preview, Message, ClipboardItem, Sending, set_mobile_open, handle_file_change, handle_paste,
  handle_drop, handle_drag_over, handle_drag_leave, remove_file, handle_textarea_change, sending_of,
  can_send, begin_send, end_send, max_char_limit,
}
use mmn_tx_explorer.P2p.Chat.Connect.{Replies, init_chat, send_auto}
use mmn_tx_explorer.P2p.Chat.Receive.{Parsed, Incoming, has_message, receive}

pub data ChatEvent : Type 0 where
  connected : Replies → ChatEvent
  auto_message : Option ℕ → ChatEvent
  received : Incoming → ChatEvent
  typed : String → ChatEvent
  picked : List File → ChatEvent
  pasted : List ClipboardItem → ChatEvent
  dropped : Option (List File) → ChatEvent
  removed : ℕ → ChatEvent
  drag_over : ChatEvent
  drag_leave mobile_open : Bool → ChatEvent
  submitted : ChatEvent
  -- The last await of a call is over: whether the message was delivered.
  sent : Bool → ChatEvent

-- The state and the call that is out.
pub record ChatRun : Type 0 where
  pub chat : Chat
  pub sending : Option Sending

-- Files, each with its preview, none too large.
pub record IsSelection (files : List File) (previews : List Preview) : Type 0 where
  pub paired : files ≡ map (λ p. p.file) previews
  pub small : All (λ f. ltb max_file_size f.size ≡ false) files

-- No two messages have one id.
abbrev pub distinct : List Message → Bool
distinct [] = true
distinct (m ∷ ms) = not (has_message m.message_id ms) && distinct ms

-- What a call of `handleSendMessage` keeps, where one is out.
abbrev pub IsKept : Option Sending → Type 0
IsKept none = Unit
IsKept (some w) = IsSelection w.files w.kept_previews × (size w.content ≤ max_char_limit)

abbrev pub is_out : Option Sending → Bool
is_out none = false
is_out (some w) = true

pub record IsChat (r : ChatRun) : Type 0 where
  pub selection : IsSelection r.chat.selected_files r.chat.previews
  pub input : size r.chat.input_value ≤ max_char_limit
  pub messages : distinct r.chat.messages ≡ true
  pub sending : r.chat.is_message_sending ≡ is_out r.sending
  pub kept : IsKept r.sending

unfoldable pub submit : ChatRun → ChatRun
unfolding can_send begin_send
submit r =
    if can_send r.chat
    then record { chat = begin_send r.chat; sending = some (sending_of r.chat) }
    else r

unfoldable pub finish : Bool → ChatRun → ChatRun
unfolding end_send
finish delivered r = elim r.sending [
  | none ↦ r
  | some w ↦ record { chat = end_send delivered w r.chat; sending = none }
]

module _ (json_parse : String → Option Parsed) (user : Option String) (seller_id : String) where
  -- What a handler other than that of sending does to the state.
  unfoldable pub handle : ChatEvent → Chat → Chat
  unfolding receive
  handle (connected replies) c = (init_chat replies c).0
  handle (auto_message message) c = (send_auto message c).0
  handle (received msg) c = receive json_parse user seller_id msg c
  handle (typed value) c = handle_textarea_change value c
  handle (picked files) c = handle_file_change files c
  handle (pasted items) c = handle_paste items c
  handle (dropped files) c = handle_drop files c
  handle (removed i) c = remove_file i c
  handle drag_over c = handle_drag_over c
  handle (drag_leave outside) c = handle_drag_leave outside c
  handle (mobile_open b) c = set_mobile_open b c
  handle submitted c = c
  handle (sent delivered) c = c

  unfoldable pub chat_step : ChatEvent → ChatRun → ChatRun
  unfolding handle submit finish
  chat_step submitted r = submit r
  chat_step (sent delivered) r = finish delivered r
  chat_step e r = record r { chat = handle e r.chat }

  unfoldable pub chat_run : List ChatEvent → ChatRun → ChatRun
  unfolding chat_step
  chat_run [] r = r
  chat_run (e ∷ es) r = chat_run es (chat_step e r)
