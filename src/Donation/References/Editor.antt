-- ===== src/Donation/References/Editor.antt =====
-- The editor of the hashes as its events come, for Donation.References.
use mmn_tx_explorer.Base.{
  ◌+◌, String, Bool, true, false, not, ◌&&◌, ◌||◌, List, [], ◌∷◌, ◌++◌, map, ltb, truthy, trim,
  length, length-append, List-cases, Bool-cases, Option-cases, if_either, ◌≡◌, ◌⊎◌, inl, inr, refl,
  ap, ◌∙◌, arith,
}
use mmn_tx_explorer.Donation.References.{
  References, max_hashes, is_tx_hash, dedupe, add_hashes, remove_hash, clear_typed_text, last_hash,
  EditorKey, backspace, separator, enter, other_key, handle_key_down, handle_input,
  handle_clear_all, split, valid_hashes, handle_paste, handle_blur, EditorEvent, pressed, typed,
  pasted, chip_clicked, blurred, cleared, editor_step, editor_run,
}
use mmn_tx_explorer.Donation.References.Distinct.{
  has_hash, all_valid, IsReferences, has_hash-append, has_hash-dedupe, distinct-dedupe,
  distinct-without, length-dedupe, length-without, valid-append, valid-dedupe, valid-without,
  valid-keep,
}

add_hashes-full :
    (hs : List String) (r : References)
    → ltb max_hashes (length r.hashes + length hs) ≡ true
    → add_hashes hs r
      ≡ record r { toasts = r.toasts ++ "You can only add up to 10 transaction hashes." ∷ [] }
unfolding add_hashes
add_hashes-full hs r e = rw (add_hashes, e) refl

add_hashes-fits :
    (hs : List String) (r : References)
    → ltb max_hashes (length r.hashes + length hs) ≡ false
    → add_hashes hs r ≡ record r { hashes = dedupe (r.hashes ++ hs) }
unfolding add_hashes
add_hashes-fits hs r e = rw (add_hashes, e) refl

add_hashes-IsReferences :
    (hs : List String) (r : References)
    → all_valid hs ≡ true
    → IsReferences r
    → IsReferences (add_hashes hs r)
add_hashes-IsReferences hs r ok h =
    elim (Bool-cases (ltb max_hashes (length r.hashes + length hs))) [
      | inl e ↦
          rw (add_hashes-full hs r e)
            (record { few = h.few; valid = h.valid; different = h.different })
      | inr e ↦ rw (add_hashes-fits hs r e) (record {
        few = ground (arith, length-dedupe (r.hashes ++ hs), length-append r.hashes hs);
        valid = valid-dedupe (r.hashes ++ hs) (valid-append r.hashes hs h.valid ok);
        different = distinct-dedupe (r.hashes ++ hs);
      })
    ]

remove_hash-IsReferences :
    (k : String) (r : References) → IsReferences r → IsReferences (remove_hash k r)
unfolding remove_hash
remove_hash-IsReferences k r h = record {
  few = omega (arith, length-without k r.hashes, h.few);
  valid = valid-without k r.hashes h.valid;
  different = distinct-without k r.hashes h.different;
}

-- The text and the notices of the editor do not matter.
texted : (text : String) (r : References) → IsReferences r → IsReferences (record r { text = text })
texted text r h = record { few = h.few; valid = h.valid; different = h.different }

entered :
    (text : String) (r : References)
    → is_tx_hash text ≡ true
    → IsReferences r
    → IsReferences (clear_typed_text (add_hashes (text ∷ []) r))
entered text r e h =
    texted "" (add_hashes (text ∷ []) r) (add_hashes-IsReferences (text ∷ []) r (rw e refl) h)

handle_key_down-IsReferences :
    (key : EditorKey) (at_start : Bool) (r : References)
    → IsReferences r
    → IsReferences (handle_key_down key at_start r)
unfolding handle_key_down
handle_key_down-IsReferences backspace at_start r h =
    if_either IsReferences (not (truthy (trim r.text)) && at_start)
      (elim (Option-cases (last_hash r.hashes)) [
        | inl e ↦ rw e h
        | inr (k, e) ↦ rw e (remove_hash-IsReferences k r h)
      ])
      h
handle_key_down-IsReferences separator at_start r h = elim (Bool-cases (is_tx_hash (trim r.text))) [
  | inl e ↦ rw (handle_key_down, e) (entered (trim r.text) r e h)
  | inr e ↦ rw (handle_key_down, e) h
]
handle_key_down-IsReferences enter at_start r h = elim (Bool-cases (is_tx_hash (trim r.text))) [
  | inl e ↦ rw (handle_key_down, e) (entered (trim r.text) r e h)
  | inr e ↦
      rw (handle_key_down, e) (if_either IsReferences (truthy (trim r.text)) (texted "" r h) h)
]
handle_key_down-IsReferences other_key at_start r h = h

module _ (to_lower_case : String → String) (insert_text : String → String → String) where
  handle_paste-valid :
      (text : String) (r : References)
      → ((valid_hashes to_lower_case insert_text text ≡ [])
          × ((handle_paste to_lower_case insert_text text r).hashes ≡ r.hashes)
          × ((handle_paste to_lower_case insert_text text r).toasts ≡ r.toasts))
        ⊎ (handle_paste to_lower_case insert_text text r
            ≡ clear_typed_text (add_hashes (valid_hashes to_lower_case insert_text text) r))
  unfolding handle_paste
  handle_paste-valid text r = elim (List-cases (valid_hashes to_lower_case insert_text text)) [
    | inl e ↦ inl (e, rw (handle_paste, e) refl, rw (handle_paste, e) refl)
    | inr (k, ks, e) ↦ inr (rw (handle_paste, e) refl)
  ]

  kept : (r s : References) → s.hashes ≡ r.hashes → IsReferences r → IsReferences s
  kept r s e h = record { few = rw e h.few; valid = rw e h.valid; different = rw e h.different }

  handle_paste-IsReferences :
      (text : String) (r : References)
      → IsReferences r
      → IsReferences (handle_paste to_lower_case insert_text text r)
  handle_paste-IsReferences text r h =
      let hs = valid_hashes to_lower_case insert_text text in
      elim (handle_paste-valid text r) [
        | inl (e, same, shown) ↦ kept r (handle_paste to_lower_case insert_text text r) same h
        | inr e ↦ rw e (
            texted "" (add_hashes hs r) (
              add_hashes-IsReferences hs r
                (valid-keep (map (λ w. to_lower_case (trim w)) (split text))) h))
      ]

  handle_blur-IsReferences :
      (r : References) → IsReferences r → IsReferences (handle_blur to_lower_case insert_text r)
  unfolding handle_blur
  handle_blur-IsReferences r h = elim (Bool-cases (is_tx_hash (to_lower_case (trim r.text)))) [
    | inl e ↦ rw (handle_blur, e) (entered (to_lower_case (trim r.text)) r e h)
    | inr e ↦ rw (handle_blur, e) h
  ]

  step-IsReferences :
      (e : EditorEvent) (r : References)
      → IsReferences r
      → IsReferences (editor_step to_lower_case insert_text e r)
  unfolding editor_step handle_input handle_clear_all
  step-IsReferences (pressed key at_start) r h = handle_key_down-IsReferences key at_start r h
  step-IsReferences (typed text) r h = texted (handle_input text r).text r h
  step-IsReferences (pasted text) r h = handle_paste-IsReferences text r h
  step-IsReferences (chip_clicked k) r h = remove_hash-IsReferences k r h
  step-IsReferences blurred r h = handle_blur-IsReferences r h
  step-IsReferences cleared r h = record { few = omega arith; valid = refl; different = refl }

  -- Whatever is typed, pasted, pressed and removed, there are ten hashes at most, each of 64 small
  -- hexadecimal digits, and no two the same, where all that held at the start.
  pub editor_run-IsReferences :
      (es : List EditorEvent) (r : References)
      → IsReferences r
      → IsReferences (editor_run to_lower_case insert_text es r)
  unfolding editor_run
  editor_run-IsReferences [] r h = h
  editor_run-IsReferences (e ∷ es) r h =
      editor_run-IsReferences es (editor_step to_lower_case insert_text e r)
        (step-IsReferences e r h)

  -- A paste with as many valid hashes as there is room for adds each of these, and only these; one
  -- with more changes no hash and shows one notice; one without any changes no hash and shows none.
  pub handle_paste_lem :
      (text : String) (r : References)
      → let found = valid_hashes to_lower_case insert_text text in
        let after = handle_paste to_lower_case insert_text text r in
        ((found ≡ []) × (after.hashes ≡ r.hashes) × (after.toasts ≡ r.toasts))
        ⊎ (((ltb 10 (length r.hashes + length found) ≡ true)
              × (after.hashes ≡ r.hashes)
              × (length after.toasts ≡ length r.toasts + 1))
            ⊎ ((ltb 10 (length r.hashes + length found) ≡ false)
                × ((h : String)
                    → has_hash h after.hashes ≡ (has_hash h r.hashes || has_hash h found))
                × (after.toasts ≡ r.toasts)))
  handle_paste_lem text r =
      let found = valid_hashes to_lower_case insert_text text in
      elim (handle_paste-valid text r) [
        | inl none_found ↦ inl none_found
        | inr e ↦ inr (elim (Bool-cases (ltb 10 (length r.hashes + length found))) [
          | inl full ↦
              let done = e ∙ ap clear_typed_text (add_hashes-full found r full) in
              inl (
                full,
                ap (λ s. s.hashes) done,
                ap (λ s. length s.toasts) done
                    ∙ length-append r.toasts ("You can only add up to 10 transaction hashes." ∷ []),
              )
          | inr fits ↦
              let done = e ∙ ap clear_typed_text (add_hashes-fits found r fits) in
              inr (
                fits,
                λ h.
                    ap (λ s. has_hash h s.hashes) done
                    ∙ has_hash-dedupe h (r.hashes ++ found)
                    ∙ has_hash-append h r.hashes found,
                ap (λ s. s.toasts) done,
              )
        ])
      ]
