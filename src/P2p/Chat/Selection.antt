-- ===== src/P2p/Chat/Selection.antt =====
-- Lists of files, previews and messages as the chat changes them, for P2p.Chat.Tidy.
use Prim.Native.Nat.{suc, zero}
use mmn_tx_explorer.Base.{
  ℕ, ◌+◌, ◌≤◌, String, true, false, List, [], ◌∷◌, ◌++◌, ◌≡◌, refl, sym, ap, ◌∙◌, arith, ltb,
  if◌then◌else◌, eq_iff, size, size-slice, All, All-append, map, Bool-cases, inl, inr, starts_with,
  slice,
}
use mmn_tx_explorer.P2p.Upload.{File, max_file_size}
use mmn_tx_explorer.P2p.Chat.{
  Chat, Preview, Message, valid_files, new_previews, add_files, without, max_char_limit,
}
use mmn_tx_explorer.P2p.Chat.Receive.{has_message, has_message-append}
use mmn_tx_explorer.P2p.Chat.Run.{IsSelection, distinct}

valid_files-small :
    (files : List File) → All (λ f. ltb max_file_size f.size ≡ false) (valid_files files)
valid_files-small [] = tt
valid_files-small (f ∷ fs) = elim (Bool-cases (ltb max_file_size f.size)) [
  | inl e ↦ rw e (valid_files-small fs)
  | inr e ↦ rw e (e, valid_files-small fs)
]

new_previews-files : (n : ℕ) (files : List File) → files ≡ map (λ p. p.file) (new_previews n files)
new_previews-files n [] = refl
new_previews-files n (f ∷ fs) = elim (Bool-cases (starts_with "image/" f.type)) [
  | inl e ↦ ap (λ gs. f ∷ gs) (new_previews-files (n + 1) fs) ∙ ground arith
  | inr e ↦ ap (λ gs. f ∷ gs) (new_previews-files n fs) ∙ ground arith
]

pub map-without :
    (i : ℕ) (ps : List Preview)
    → without i (map (λ p. p.file) ps) ≡ map (λ p. p.file) (without i ps)
map-without i [] = refl
map-without zero (p ∷ ps) = refl
map-without (suc i) (p ∷ ps) = ap (λ fs. p.file ∷ fs) (map-without i ps)

pub All-without {ℓ κ} :
    {A : Type ℓ} (P : A → Type κ) (i : ℕ) (xs : List A) → All P xs → All P (without i xs)
All-without P i [] h = h
All-without P zero (x ∷ xs) (p, h) = h
All-without P (suc i) (x ∷ xs) (p, h) = (p, All-without P i xs h)

pub distinct-append :
    (ms : List Message) (m : Message)
    → distinct ms ≡ true
    → has_message m.message_id ms ≡ false
    → distinct (ms ++ m ∷ []) ≡ true
distinct-append [] m h k = refl
distinct-append (x ∷ ms) m h k = ground (
  arith,
  distinct-append ms m,
  has_message-append x.message_id ms m,
  eq_iff x.message_id m.message_id,
  eq_iff m.message_id x.message_id,
)

map-append :
    (ps qs : List Preview)
    → map (λ p. p.file) (ps ++ qs) ≡ map (λ p. p.file) ps ++ map (λ p. p.file) qs
map-append [] qs = refl
map-append (p ∷ ps) qs = ap (λ fs. p.file ∷ fs) (map-append ps qs)

ltb-false→le : (a b : ℕ) → ltb a b ≡ false → b ≤ a
ltb-false→le a b h = ground arith

pub size-limited :
    (value : String)
    → size (if ltb max_char_limit (size value) then slice max_char_limit value else value)
      ≤ max_char_limit
size-limited value = elim (Bool-cases (ltb max_char_limit (size value))) [
  | inl e ↦ rw e (size-slice max_char_limit value)
  | inr e ↦ rw e (ltb-false→le max_char_limit (size value) e)
]

pub add_files-IsSelection :
    (files : List File) (c : Chat)
    → IsSelection c.selected_files c.previews
    → IsSelection (add_files files c).selected_files (add_files files c).previews
unfolding add_files
add_files-IsSelection files c h = record {
  paired =
      ap (λ fs. fs ++ valid_files files) h.paired
      ∙ (ap (λ fs. map (λ p. p.file) c.previews ++ fs)
            (new_previews-files c.next_url (valid_files files))
          ∙ sym (map-append c.previews (new_previews c.next_url (valid_files files))));
  small =
      All-append (λ f. ltb max_file_size f.size ≡ false) c.selected_files (valid_files files)
        h.small (valid_files-small files);
}
