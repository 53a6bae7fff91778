-- ===== src/P2p/Chat/Tidy.antt =====
-- What each handler of the chat keeps, for P2p.Chat.Invariant.
use mmn_tx_explorer.Base.{
  ℕ, ◌≤◌, String, Bool, true, false, not, ◌&&◌, Option, none, some, List, [], ◌∷◌, ◌++◌, ◌≡◌, ap,
  ◌∙◌, ltb, if◌then◌else◌, size, Bool-cases, Option-cases, List-cases, inl, inr, if_either,
}
use mmn_tx_explorer.P2p.Upload.{File, max_file_size}
use mmn_tx_explorer.P2p.Chat.{
  Chat, Preview, Message, set_mobile_open, is_ready, add_files, handle_file_change, handle_paste,
  handle_drop, handle_drag_over, handle_drag_leave, item_at, without, drop_file, remove_file,
  handle_textarea_change, max_char_limit, has_channel, get_files_from_clipboard,
  get_files_from_drag_event,
}
use mmn_tx_explorer.P2p.Chat.Connect.{init_chat-either, is_same, send_auto}
use mmn_tx_explorer.P2p.Chat.Receive.{
  Parsed, Incoming, has_message, accepts_message, receive, normalized_message,
}
use mmn_tx_explorer.P2p.Chat.Run.{
  ChatEvent, connected, auto_message, received, typed, picked, pasted, dropped, removed, drag_over,
  drag_leave, mobile_open, submitted, sent, IsSelection, distinct, handle,
}
use mmn_tx_explorer.P2p.Chat.Selection.{
  map-without, All-without, distinct-append, size-limited, add_files-IsSelection,
}

-- What a handler keeps of the state, in the fields that it is about.
pub record AreTidy (b : Bool) (files : List File) (previews : List Preview) (value : String)
    (shown : List Message) (sending : Bool) : Type 0 where
  pub selection : IsSelection files previews
  pub input : size value ≤ max_char_limit
  pub messages : distinct shown ≡ true
  pub mark : sending ≡ b

module _ (b : Bool) where
  abbrev pub IsTidy : Chat → Type 0
  IsTidy c = AreTidy b c.selected_files c.previews c.input_value c.messages c.is_message_sending

  add_files-IsTidy : (files : List File) (c : Chat) → IsTidy c → IsTidy (add_files files c)
  unfolding add_files
  add_files-IsTidy files c h = record {
    selection = add_files-IsSelection files c h.selection;
    input = h.input;
    mark = h.mark;
    messages = h.messages;
  }

  drop_file-IsTidy : (i : ℕ) (p : Preview) (c : Chat) → IsTidy c → IsTidy (drop_file i p c)
  unfolding drop_file
  drop_file-IsTidy i p c h = record {
    selection = record {
      paired = ap (without i) h.selection.paired ∙ map-without i c.previews;
      small =
          All-without (λ f. ltb max_file_size f.size ≡ false) i c.selected_files h.selection.small;
    };
    input = h.input;
    mark = h.mark;
    messages = h.messages;
  }

  remove_file-IsTidy : (i : ℕ) (c : Chat) → IsTidy c → IsTidy (remove_file i c)
  unfolding remove_file
  remove_file-IsTidy i c h = elim (Option-cases (item_at i c.previews)) [
    | inl e ↦ rw (remove_file, e) h
    | inr (p, e) ↦ rw (remove_file, e) (drop_file-IsTidy i p c h)
  ]

  handle_drop-IsTidy :
      (files : List File) (c : Chat)
      → IsTidy c
      → IsTidy (elim files [ [] ↦ c | f ∷ fs ↦ add_files (f ∷ fs) c ])
  handle_drop-IsTidy [] c h = h
  handle_drop-IsTidy (f ∷ fs) c h = add_files-IsTidy (f ∷ fs) c h

  module _ (json_parse : String → Option Parsed) (user : Option String) (seller_id : String) where
    receive-IsTidy :
        (msg : Incoming) (c : Chat) → IsTidy c → IsTidy (receive json_parse user seller_id msg c)
    unfolding receive
    receive-IsTidy msg c h =
        if_either IsTidy (accepts_message json_parse user seller_id msg)
          (record {
            selection = h.selection;
            input = h.input;
            mark = h.mark;
            messages = received_messages;
          })
          h
      where
        received_messages :
            distinct (
              if has_message msg.id c.messages
              then c.messages
              else c.messages ++ normalized_message json_parse msg ∷ [])
            ≡ true
        received_messages = elim (Bool-cases (has_message msg.id c.messages)) [
          | inl e ↦ rw e h.messages
          | inr e ↦
              rw e (distinct-append c.messages (normalized_message json_parse msg) h.messages e)
        ]

    -- Each handler keeps the state tidy and leaves the mark of a call that is out.
    pub handle-IsTidy :
        (e : ChatEvent) (c : Chat) → IsTidy c → IsTidy (handle json_parse user seller_id e c)
    unfolding handle send_auto handle_textarea_change handle_file_change handle_paste handle_drop
        handle_drag_over handle_drag_leave set_mobile_open
    handle-IsTidy (connected r) c h = init_chat-either IsTidy r c h h (λ id b. h)
    handle-IsTidy (auto_message none) c h = h
    handle-IsTidy (auto_message (some m)) c h =
        if_either (λ (d : Chat × Option ℕ). IsTidy d.0)
          (c.is_connected
            && (c.socket && (has_channel c.channel_id && not (is_same m c.auto_message_sent))))
          h h
    handle-IsTidy (received msg) c h = receive-IsTidy msg c h
    handle-IsTidy (typed value) c h = record {
      selection = h.selection;
      input = size-limited value;
      mark = h.mark;
      messages = h.messages;
    }
    handle-IsTidy (picked []) c h = h
    handle-IsTidy (picked (f ∷ fs)) c h =
        if_either IsTidy (is_ready c) (add_files-IsTidy (f ∷ fs) c h) h
    handle-IsTidy (pasted items) c h = elim (List-cases (get_files_from_clipboard items)) [
      | inl e ↦ rw (handle_paste, e) h
      | inr (f, fs, e) ↦ rw (handle_paste, e) (add_files-IsTidy (f ∷ fs) c h)
    ]
    handle-IsTidy (dropped files) c h =
        handle_drop-IsTidy (get_files_from_drag_event files) (record c { is_dragging = false }) h
    handle-IsTidy (removed i) c h = remove_file-IsTidy i c h
    handle-IsTidy drag_over c h = h
    handle-IsTidy (drag_leave outside) c h = h
    handle-IsTidy (mobile_open b) c h = h
    handle-IsTidy submitted c h = h
    handle-IsTidy (sent delivered) c h = h
