-- ===== src/Donation/References.antt =====
-- The transaction hashes that an update refers to: ReferenceTx of frontend/modules/donation-campaign/
-- components/campaign-updates/shared/update-form/reference-tx.tsx. The text of the editor is its
-- `innerText`; lower case and where the browser inserts a text are parameters.
pub mod Distinct
pub mod Editor
mod Tests
use Prim.Native.Char.{Char, code}
use Prim.Native.String.{String, [] as empty, ◌∷◌ as cons}
use mmn_tx_explorer.Base.{
  ℕ, ◌+◌, Bool, true, false, not, ◌&&◌, ◌||◌, Option, none, some, List, [], ◌∷◌, ◌++◌, map, ◌==◌,
  leb, ltb, if◌then◌else◌, str_eq, truthy, trim, is_space, size, length, keep,
}

pub record References : Type 0 where
  pub hashes : List String
  pub text : String
  pub toasts : List String

-- `MAX_HASHES`
abbrev pub max_hashes : ℕ
max_hashes = 10

abbrev pub is_hex : Char → Bool
is_hex c = (leb 97 (code c) && leb (code c) 102) || (leb 48 (code c) && leb (code c) 57)

abbrev pub all_hex : String → Bool
all_hex empty = true
all_hex (cons c s) = is_hex c && all_hex s

-- `TX_HASH_REGEX.test(s)`
unfoldable pub is_tx_hash : String → Bool
is_tx_hash s = size s == 64 && all_hex s

abbrev pub without : String → List String → List String
without h hashes = keep (λ x. not (str_eq x h)) hashes

-- `[...new Set(hashes)]`
abbrev pub dedupe : List String → List String
dedupe [] = []
dedupe (h ∷ hs) = h ∷ without h (dedupe hs)

unfoldable pub add_hashes : List String → References → References
add_hashes new_hashes r =
    if ltb max_hashes (length r.hashes + length new_hashes)
    then record r { toasts = r.toasts ++ "You can only add up to 10 transaction hashes." ∷ [] }
    else record r { hashes = dedupe (r.hashes ++ new_hashes) }

unfoldable pub remove_hash : String → References → References
remove_hash h r = record r { hashes = without h r.hashes }

abbrev pub clear_typed_text : References → References
clear_typed_text r = record r { text = "" }

abbrev pub last_hash : List String → Option String
last_hash [] = none
last_hash (h ∷ []) = some h
last_hash (h ∷ (k ∷ ks)) = last_hash (k ∷ ks)

-- The keys that `handleKeyDown` tells apart: a space, a comma and a semicolon are one.
pub data EditorKey : Type 0 where
  backspace separator enter other_key : EditorKey

-- Whether the cursor is at the start comes with the key.
unfoldable pub handle_key_down : EditorKey → Bool → References → References
unfolding remove_hash add_hashes
handle_key_down backspace cursor_at_start r =
    if not (truthy (trim r.text)) && cursor_at_start
    then (elim (last_hash r.hashes) [ none ↦ r | some h ↦ remove_hash h r ])
    else r
handle_key_down separator cursor_at_start r =
    if is_tx_hash (trim r.text) then clear_typed_text (add_hashes (trim r.text ∷ []) r) else r
handle_key_down enter cursor_at_start r =
    if is_tx_hash (trim r.text)
    then clear_typed_text (add_hashes (trim r.text ∷ []) r)
    else (if truthy (trim r.text) then clear_typed_text r else r)
handle_key_down other_key cursor_at_start r = r

-- The separators of `/[\s,;\n]+/`.
abbrev pub is_separator : Char → Bool
is_separator c = is_space c || (code c == 44 || code c == 59)

abbrev pub starts_separator : String → Bool
starts_separator empty = false
starts_separator (cons c s) = is_separator c

abbrev pub before_first : Char → List String → List String
before_first c [] = cons c empty ∷ []
before_first c (w ∷ ws) = cons c w ∷ ws

-- `text.split(/[\s,;\n]+/)`
abbrev pub split : String → List String
split empty = "" ∷ []
split (cons c s) =
    let rest = split s in
    if is_separator c then (if starts_separator s then rest else "" ∷ rest) else before_first c rest

-- A text whose marked characters are spaces.
abbrev pub blank_out : (Char → Bool) → String → String
blank_out p empty = empty
blank_out p (cons c s) = cons (if p c then " " else c) (blank_out p s)

-- The editor after an input of the text that it then holds.
unfoldable pub handle_input : String → References → References
handle_input text r = record r { text = blank_out (λ c. code c == 10) text }

unfoldable pub handle_clear_all : References → References
handle_clear_all r = record r { hashes = [] }

pub data EditorEvent : Type 0 where
  pressed : EditorKey → Bool → EditorEvent
  typed pasted chip_clicked : String → EditorEvent
  blurred cleared : EditorEvent

module _ (to_lower_case : String → String) (insert_text : String → String → String) where
  abbrev pub valid_hashes : String → List String
  valid_hashes text = keep is_tx_hash (map (λ h. to_lower_case (trim h)) (split text))

  unfoldable pub handle_paste : String → References → References
  unfolding add_hashes
  handle_paste text r = elim (valid_hashes text) [
    | [] ↦ record r {
      text = insert_text r.text (blank_out (λ c. code c == 10 || code c == 13) text);
    }
    | h ∷ hs ↦ clear_typed_text (add_hashes (h ∷ hs) r)
  ]

  unfoldable pub handle_blur : References → References
  unfolding add_hashes
  handle_blur r =
      let text = to_lower_case (trim r.text) in
      if is_tx_hash text then clear_typed_text (add_hashes (text ∷ []) r) else r

  unfoldable pub editor_step : EditorEvent → References → References
  unfolding handle_key_down handle_input handle_paste remove_hash handle_blur handle_clear_all
  editor_step (pressed key cursor_at_start) r = handle_key_down key cursor_at_start r
  editor_step (typed text) r = handle_input text r
  editor_step (pasted text) r = handle_paste text r
  editor_step (chip_clicked h) r = remove_hash h r
  editor_step blurred r = handle_blur r
  editor_step cleared r = handle_clear_all r

  unfoldable pub editor_run : List EditorEvent → References → References
  unfolding editor_step
  editor_run [] r = r
  editor_run (e ∷ es) r = editor_run es (editor_step e r)
