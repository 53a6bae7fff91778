-- ===== src/Donation/References/Tests.antt =====
-- The theorems on references at concrete inputs.
use mmn_tx_explorer.Base.{
  ◌+◌, String, true, false, ◌||◌, List, [], ◌∷◌, ltb, if◌then◌else◌, str_eq, is_space, trim, length,
  ◌≡◌, ◌⊎◌, refl, arith,
}
use mmn_tx_explorer.Donation.References.{
  References, is_tx_hash, separator, backspace, enter, EditorEvent, pressed, typed, pasted,
  chip_clicked, blurred, add_hashes, valid_hashes, handle_paste, handle_key_down, handle_blur,
  editor_run,
}
use mmn_tx_explorer.Donation.References.Distinct.{has_hash, IsReferences}
use mmn_tx_explorer.Donation.References.Editor.{editor_run-IsReferences, handle_paste_lem}

-- Two hashes, and the first as it is pasted in capitals.
abbrev first_hash : String
first_hash = "00112233445566778899aabbccddeeff00112233445566778899aabbccddeeff"

abbrev second_hash : String
second_hash = "ff112233445566778899aabbccddeeff00112233445566778899aabbccddeeff"

abbrev capitals : String
capitals = "00112233445566778899AABBCCDDEEFF00112233445566778899AABBCCDDEEFF"

-- Lower case, at the one text that matters here.
abbrev lower : String → String
lower s = if str_eq s capitals then first_hash else s

abbrev append_text : String → String → String
append_text s t = t

abbrev two_hashes : String
two_hashes =
    "00112233445566778899AABBCCDDEEFF00112233445566778899AABBCCDDEEFF, ff112233445566778899aabbccddeeff00112233445566778899aabbccddeeff"

abbrev empty_editor : References
empty_editor = record { hashes = []; text = ""; toasts = [] }

finds_two : valid_hashes lower append_text two_hashes ≡ first_hash ∷ second_hash ∷ []
unfolding is_tx_hash is_space trim
finds_two = refl

-- Capitals that are typed are taken when the editor is left, and thrown away on Enter.
abbrev typed_capitals : References
typed_capitals = record { hashes = []; text = capitals; toasts = [] }

blur_takes : (handle_blur lower append_text typed_capitals).hashes ≡ first_hash ∷ []
unfolding handle_blur is_tx_hash add_hashes trim is_space
blur_takes = refl

enter_drops : handle_key_down enter true typed_capitals ≡ record typed_capitals { text = "" }
unfolding handle_key_down is_tx_hash trim is_space
enter_drops = refl

empty_editor-IsReferences : IsReferences empty_editor
empty_editor-IsReferences = record { few = omega arith; valid = refl; different = refl }

-- Both hashes are pasted twice, the first is typed again, and one is removed.
abbrev edits : List EditorEvent
edits =
    pasted two_hashes
    ∷ pasted two_hashes
    ∷ typed first_hash
    ∷ pressed separator false
    ∷ pressed backspace true
    ∷ blurred
    ∷ chip_clicked first_hash
    ∷ []

editor_run-IsReferences_example : IsReferences (editor_run lower append_text edits empty_editor)
editor_run-IsReferences_example =
    editor_run-IsReferences lower append_text edits empty_editor empty_editor-IsReferences

handle_paste_lem_example :
    let found = valid_hashes lower append_text two_hashes in
    let after = handle_paste lower append_text two_hashes empty_editor in
    ((found ≡ []) × (after.hashes ≡ []) × (after.toasts ≡ []))
    ⊎ (((ltb 10 (0 + length found) ≡ true) × (after.hashes ≡ []) × (length after.toasts ≡ 0 + 1))
        ⊎ ((ltb 10 (0 + length found) ≡ false)
            × ((h : String) → has_hash h after.hashes ≡ (has_hash h [] || has_hash h found))
            × (after.toasts ≡ [])))
handle_paste_lem_example = handle_paste_lem lower append_text two_hashes empty_editor
