-- ===== src/P2p/Chat.antt =====
-- The chat of a trading room: the state and the handlers of
-- frontend/modules/p2p/components/trading-room/chat-sidebar.tsx, with the files of a paste and a drop
-- of frontend/utils/file.util.ts. Each handler runs on the render that shows the state. The urls that
-- `createObjectURL` gives are numbered; a file that is no image has none. Each character counts one
-- unit, and `t` is a text where a content has it.
pub mod Connect
pub mod Deliver
pub mod Receive
pub mod Run
pub mod Selection
pub mod Tidy
pub mod Invariant
mod Tests
use mmn_tx_explorer.Base.{
  ℕ, zero, suc, ◌+◌, String, Bool, true, false, not, ◌&&◌, ◌||◌, Option, none, some, List, [], ◌∷◌,
  ◌++◌, ltb, ◌==◌, if◌then◌else◌, str_eq, truthy, keep, size, slice, trim, starts_with,
}
use mmn_tx_explorer.P2p.Upload.{File, max_file_size}

pub record Preview : Type 0 where
  pub url : Option ℕ
  pub file : File

pub record Message : Type 0 where
  pub message_id : String
  pub sender_id : String
  pub text : Option String
  pub attachments : ℕ

pub record Chat : Type 0 where
  pub messages : List Message
  pub input_value : String
  pub is_connected : Bool
  -- The object that was sent last.
  pub auto_message_sent : Option ℕ
  pub is_mobile_open : Bool
  pub unread_count : ℕ
  pub show_limit_warning : Bool
  pub light_client : Bool
  pub socket : Bool
  pub channel_id : Option String
  pub is_uploading : Bool
  pub selected_files : List File
  pub previews : List Preview
  pub is_dragging : Bool
  pub is_message_sending : Bool
  pub next_url : ℕ
  pub revoked : List ℕ

abbrev pub max_char_limit : ℕ
max_char_limit = 5000

-- The effect of `isMobileOpen`.
unfoldable pub set_mobile_open : Bool → Chat → Chat
set_mobile_open open_now c = record c {
  is_mobile_open = open_now;
  unread_count = if open_now then 0 else c.unread_count;
}

abbrev pub has_channel : Option String → Bool
has_channel none = false
has_channel (some id) = truthy id

-- The client, the socket and the channel are there.
abbrev pub is_ready : Chat → Bool
is_ready c = c.light_client && (c.socket && has_channel c.channel_id)

-- Files that are not too large.
abbrev pub valid_files : List File → List File
valid_files files = keep (λ f. not (ltb max_file_size f.size)) files

-- The previews of files, the first url being `n`.
abbrev pub new_previews : ℕ → List File → List Preview
new_previews n [] = []
new_previews n (f ∷ fs) =
    let rest = new_previews n fs in
    let after = new_previews (n + 1) fs in
    if starts_with "image/" f.type
    then record { url = some n; file = f } ∷ after
    else record { url = none; file = f } ∷ rest

-- How many of the files are images.
abbrev pub images : List File → ℕ
images [] = 0
images (f ∷ fs) = (if starts_with "image/" f.type then 1 else 0) + images fs

-- What the three handlers do with the files they are given.
unfoldable pub add_files : List File → Chat → Chat
add_files files c =
    let valid = valid_files files in
    record c {
      selected_files = c.selected_files ++ valid;
      previews = c.previews ++ new_previews c.next_url valid;
      next_url = c.next_url + images valid;
    }

unfoldable pub handle_file_change : List File → Chat → Chat
unfolding add_files
handle_file_change [] c = c
handle_file_change (f ∷ fs) c = if is_ready c then add_files (f ∷ fs) c else c

-- An item of a clipboard: a file, which may be null, or something else.
pub data ClipboardItem : Type 0 where
  file_item : Option File → ClipboardItem
  other_item : ClipboardItem

abbrev pub get_files_from_clipboard : List ClipboardItem → List File
get_files_from_clipboard [] = []
get_files_from_clipboard (file_item none ∷ items) = get_files_from_clipboard items
get_files_from_clipboard (file_item (some f) ∷ items) = f ∷ get_files_from_clipboard items
get_files_from_clipboard (other_item ∷ items) = get_files_from_clipboard items

abbrev pub get_files_from_drag_event : Option (List File) → List File
get_files_from_drag_event none = []
get_files_from_drag_event (some files) = files

unfoldable pub handle_paste : List ClipboardItem → Chat → Chat
unfolding add_files
handle_paste items c = elim (get_files_from_clipboard items) [
  | [] ↦ c
  | f ∷ fs ↦ add_files (f ∷ fs) c
]

unfoldable pub handle_drop : Option (List File) → Chat → Chat
unfolding add_files
handle_drop data_transfer c =
    let dropped = record c { is_dragging = false } in
    elim (get_files_from_drag_event data_transfer) [
      | [] ↦ dropped
      | f ∷ fs ↦ add_files (f ∷ fs) dropped
    ]

unfoldable pub handle_drag_over : Chat → Chat
handle_drag_over c = record c { is_dragging = true }

-- Whether the pointer has left the rectangle.
unfoldable pub handle_drag_leave : Bool → Chat → Chat
handle_drag_leave outside c = record c { is_dragging = if outside then false else c.is_dragging }

-- `list[i]`, and the list without it.
abbrev pub item_at {ℓ} : {A : Type ℓ} → ℕ → List A → Option A
item_at n [] = none
item_at zero (x ∷ xs) = some x
item_at (suc n) (x ∷ xs) = item_at n xs

abbrev pub without {ℓ} : {A : Type ℓ} → ℕ → List A → List A
without n [] = []
without zero (x ∷ xs) = xs
without (suc n) (x ∷ xs) = x ∷ without n xs

-- The urls of previews that are blobs.
abbrev pub urls : List Preview → List ℕ
urls [] = []
urls (p ∷ ps) = elim p.url [ none ↦ urls ps | some n ↦ n ∷ urls ps ]

-- Without the file at the index, whose preview is given.
unfoldable pub drop_file : ℕ → Preview → Chat → Chat
drop_file i p c = record c {
  previews = without i c.previews;
  selected_files = without i c.selected_files;
  revoked = c.revoked ++ urls (p ∷ []);
}

-- Without a preview at the index, reading its url throws.
unfoldable pub remove_file : ℕ → Chat → Chat
unfolding drop_file
remove_file i c = elim (item_at i c.previews) [ none ↦ c | some p ↦ drop_file i p c ]

unfoldable pub handle_textarea_change : String → Chat → Chat
handle_textarea_change value c =
    let over = ltb max_char_limit (size value) in
    record c {
      input_value = if over then slice max_char_limit value else value;
      show_limit_warning = over;
    }

abbrev pub is_empty {ℓ} : {A : Type ℓ} → List A → Bool
is_empty [] = true
is_empty (x ∷ xs) = false

-- What a call of `handleSendMessage` keeps until it ends.
pub record Sending : Type 0 where
  pub content : String
  pub files : List File
  pub kept_previews : List Preview

abbrev pub sending_of : Chat → Sending
sending_of c = record {
  content = trim c.input_value;
  files = c.selected_files;
  kept_previews = c.previews;
}

-- The guards.
unfoldable pub can_send : Chat → Bool
can_send c =
    not c.is_message_sending
    && ((truthy (trim c.input_value) || not (is_empty c.selected_files)) && is_ready c)

-- `handleSendMessage` up to its first await, past the guards.
unfoldable pub begin_send : Chat → Chat
begin_send c = record c {
  is_message_sending = true;
  is_uploading = true;
  input_value = "";
  previews = [];
  selected_files = [];
  show_limit_warning = false;
}

-- The end of `handleSendMessage`: whether the message was delivered.
unfoldable pub end_send : Bool → Sending → Chat → Chat
end_send true w c = record c {
  revoked = c.revoked ++ urls w.kept_previews;
  is_uploading = false;
  is_message_sending = false;
}
end_send false w c = record c {
  input_value = w.content;
  previews = w.kept_previews;
  selected_files = w.files;
  is_uploading = false;
  is_message_sending = false;
}

-- What Enter does: whether the default is prevented, and whether the message is submitted.
unfoldable pub handle_key_down : Bool → Bool → Chat → Bool × Bool
handle_key_down enter shift c =
    if enter && (not (truthy (trim c.input_value)) && is_empty c.selected_files)
    then (true, false)
    else (enter && not shift, enter && not shift)
