-- ===== src/P2p/Payment/Matching.antt =====
-- The saved payment that a form stands for, for P2p.Payment.
use mmn_tx_explorer.Base.{
  String, Bool, true, false, none, some, List, [], ◌∷◌, ◌≡◌, ◌⊎◌, inl, inr, refl, sym, ap, ◌∙◌,
  arith, eq_refl, lookup, Bool-cases, Option-cases,
}
use mmn_tx_explorer.P2p.Payment.{
  SavedPayment, PaymentForm, bank_options, in_bank, is_match, find, matched_saved_info, bool_eq,
  has_changes, has_id, sync_id, fill, handle_bank_change,
}

find-finds :
    (test : SavedPayment → Bool) (saved : List SavedPayment) (p : SavedPayment)
    → find test saved ≡ some p
    → test p ≡ true
find-finds test [] p h = absurd (ground arith)
find-finds test (q ∷ qs) p h = elim (Bool-cases (test q)) [
  | inl e ↦ ground (arith, e)
  | inr e ↦ find-finds test qs p (ground arith)
]

-- The first that meets a test is the first that meets a narrower one, where it meets that too.
find-narrow :
    (wide narrow : SavedPayment → Bool) (saved : List SavedPayment) (p : SavedPayment)
    → ((q : SavedPayment) → wide q ≡ false → narrow q ≡ false)
    → find wide saved ≡ some p
    → narrow p ≡ true
    → find narrow saved ≡ some p
find-narrow wide narrow [] p k h ok = absurd (ground arith)
find-narrow wide narrow (q ∷ qs) p k h ok = elim (Bool-cases (wide q)) [
  | inl e ↦ ground arith
  | inr e ↦ rw (k q e) (find-narrow wide narrow qs p k (ground arith) ok)
]

find-none :
    (wide narrow : SavedPayment → Bool) (saved : List SavedPayment)
    → ((q : SavedPayment) → wide q ≡ false → narrow q ≡ false)
    → find wide saved ≡ none
    → find narrow saved ≡ none
find-none wide narrow [] k h = refl
find-none wide narrow (q ∷ qs) k h = elim (Bool-cases (wide q)) [
  | inl e ↦ absurd (ground arith)
  | inr e ↦ rw (k q e) (find-none wide narrow qs k (ground arith))
]

matches-narrow :
    (f : PaymentForm) (q : SavedPayment)
    → in_bank (lookup f.bank bank_options) q ≡ false
    → is_match f q ≡ false
matches-narrow f q h = rw h refl

bool_eq-same : (b : Bool) → bool_eq b b ≡ true
bool_eq-same true = refl
bool_eq-same false = refl

matches-fill :
    (value : String) (f : PaymentForm) (p : SavedPayment)
    → in_bank (lookup value bank_options) p ≡ true
    → is_match (fill p (record f { bank = value })) p ≡ true
matches-fill value f p h = rw (h, eq_refl p.account_number, eq_refl p.account_name) refl

handle_bank_change-matched :
    (saved : List SavedPayment) (value : String) (f : PaymentForm) (p : SavedPayment)
    → find (in_bank (lookup value bank_options)) saved ≡ some p
    → matched_saved_info saved (fill p (record f { bank = value })) ≡ some p
unfolding matched_saved_info
handle_bank_change-matched saved value f p e =
    let g = fill p (record f { bank = value }) in
    find-narrow (in_bank (lookup value bank_options)) (is_match g) saved p (matches-narrow g) e
      (matches-fill value f p (find-finds (in_bank (lookup value bank_options)) saved p e))

has_changes-fill :
    (saved : List SavedPayment) (f : PaymentForm) (p : SavedPayment)
    → matched_saved_info saved (fill p f) ≡ some p
    → has_changes saved (fill p f) ≡ false
unfolding has_changes
has_changes-fill saved f p h =
    rw (has_changes, h, eq_refl p.account_number, eq_refl p.account_name, bool_eq-same p.is_primary)
      refl

sync_id-fill :
    (saved : List SavedPayment) (f : PaymentForm) (p : SavedPayment)
    → matched_saved_info saved (fill p f) ≡ some p
    → sync_id saved (fill p f) ≡ fill p f
unfolding sync_id
sync_id-fill saved f p h = rw (sync_id, h) refl

-- A form without details.
abbrev pub emptied : String → PaymentForm → PaymentForm
emptied value f = record f {
  bank = value;
  account_number = "";
  account_name = "";
  is_primary = false;
  payment_info_id = none;
}

handle_bank_change-unmatched :
    (saved : List SavedPayment) (value : String) (f : PaymentForm)
    → find (in_bank (lookup value bank_options)) saved ≡ none
    → matched_saved_info saved (emptied value f) ≡ none
unfolding matched_saved_info
handle_bank_change-unmatched saved value f e =
    let g = emptied value f in
    find-none (in_bank (lookup value bank_options)) (is_match g) saved (matches-narrow g) e

has_changes-emptied :
    (saved : List SavedPayment) (value : String) (f : PaymentForm)
    → matched_saved_info saved (emptied value f) ≡ none
    → (has_changes saved (emptied value f) ≡ false)
      × (sync_id saved (emptied value f) ≡ emptied value f)
unfolding has_changes sync_id
has_changes-emptied saved value f h = (rw (has_changes, h) refl, rw (sync_id, h) refl)

handle_bank_change-cases :
    (saved : List SavedPayment) (value : String) (f : PaymentForm)
    → ((handle_bank_change saved value f ≡ emptied value f)
        × (find (in_bank (lookup value bank_options)) saved ≡ none))
      ⊎ ((p : SavedPayment) × (handle_bank_change saved value f
            ≡ fill p (record f { bank = value }))
          × (find (in_bank (lookup value bank_options)) saved ≡ some p))
unfolding handle_bank_change
handle_bank_change-cases saved value f =
    elim (Option-cases (find (in_bank (lookup value bank_options)) saved)) [
      | inl e ↦ inl (rw (handle_bank_change, e) refl, e)
      | inr (p, e) ↦ inr (p, rw (handle_bank_change, e) refl, e)
    ]

-- Whatever bank is chosen, the form shows no unsaved changes, the effect on the id leaves it as it is,
-- and the saved payment that is_match is the first of the bank, none where there is none.
pub handle_bank_change_lem :
    (saved : List SavedPayment) (value : String) (f : PaymentForm)
    → let g = handle_bank_change saved value f in
      (has_changes saved g ≡ false)
      × (sync_id saved g ≡ g)
      × (matched_saved_info saved g ≡ find (in_bank (lookup value bank_options)) saved)
handle_bank_change_lem saved value f = elim (handle_bank_change-cases saved value f) [
  | inl (same, e) ↦
      let none_left = handle_bank_change-unmatched saved value f e in
      let (unchanged, kept) = has_changes-emptied saved value f none_left in
      (
        ap (has_changes saved) same ∙ unchanged,
        ap (sync_id saved) same ∙ kept ∙ sym same,
        ap (matched_saved_info saved) same ∙ none_left ∙ sym e,
      )
  | inr (p, same, e) ↦
      let found = handle_bank_change-matched saved value f p e in
      (
        ap (has_changes saved) same ∙ has_changes-fill saved (record f { bank = value }) p found,
        ap (sync_id saved) same ∙ sync_id-fill saved (record f { bank = value }) p found ∙ sym same,
        ap (matched_saved_info saved) same ∙ found ∙ sym e,
      )
]

-- An id other than zero that the effect leaves in the form is that of a saved payment with the form's
-- bank, number and name.
pub sync_id-matches :
    (saved : List SavedPayment) (f : PaymentForm)
    → has_id (sync_id saved f).payment_info_id ≡ true
    → (p : SavedPayment) × ((sync_id saved f).payment_info_id ≡ some p.id)
      × (matched_saved_info saved f ≡ some p)
      × (is_match f p ≡ true)
unfolding sync_id matched_saved_info
sync_id-matches saved f h = elim (Option-cases (matched_saved_info saved f)) [
  | inr (p, e) ↦ (p, rw (sync_id, e) refl, e, find-finds (is_match f) saved p e)
  | inl e ↦ elim (Bool-cases (has_id f.payment_info_id)) [
    | inl k ↦ absurd (ground arith)
    | inr k ↦ absurd (ground arith)
  ]
]
