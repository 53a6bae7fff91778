-- ===== src/P2p/Payment.antt =====
-- The payment details of a form: PaymentSection of
-- frontend/modules/p2p/components/p2p-trading/create-offer-form/payment-section.tsx, with BANK_OPTIONS
-- of frontend/modules/p2p/constants.ts. The form's values are a record, and a value that is missing is
-- the empty text, false or none.
pub mod Matching
use mmn_tx_explorer.Base.{
  ℕ, String, Bool, true, false, not, ◌&&◌, ◌||◌, Option, none, some, List, [], ◌∷◌, ◌==◌, ==_iff,
  ◌≡◌, ◌⊎◌, inl, inr, refl, sym, ap, ◌∙◌, arith, if◌then◌else◌, str_eq, eq_iff, eq_refl, truthy,
  lookup, Bool-cases, Option-cases, &&_iff,
}

pub record SavedPayment : Type 0 where
  pub id : ℕ
  pub bank_name : String
  pub account_number : String
  pub account_name : String
  pub is_primary : Bool

pub record PaymentForm : Type 0 where
  pub bank : String
  pub account_number : String
  pub account_name : String
  pub is_primary : Bool
  pub payment_info_id : Option ℕ

abbrev pub bank_options : List (String × String)
bank_options =
    ("MB", "MB Bank")
    ∷ ("VCB", "Vietcombank")
    ∷ ("TCB", "Techcombank")
    ∷ ("ACB", "ACB")
    ∷ ("TPBANK", "TPBank")
    ∷ []

-- `p.bank_name === label`, for a label that may be missing
abbrev pub in_bank : Option String → SavedPayment → Bool
in_bank none p = false
in_bank (some label) p = str_eq p.bank_name label

-- The same bank, number and name.
abbrev pub is_match : PaymentForm → SavedPayment → Bool
is_match f p =
    in_bank (lookup f.bank bank_options) p
    && (str_eq p.account_number f.account_number && str_eq p.account_name f.account_name)

-- `savedPayments.find(...)`
abbrev pub find : (SavedPayment → Bool) → List SavedPayment → Option SavedPayment
find test [] = none
find test (p ∷ ps) = if test p then some p else find test ps

unfoldable pub matched_saved_info : List SavedPayment → PaymentForm → Option SavedPayment
matched_saved_info saved f = find (is_match f) saved

abbrev pub bool_eq : Bool → Bool → Bool
bool_eq true b = b
bool_eq false b = not b

-- `hasChanges`
unfoldable pub has_changes : List SavedPayment → PaymentForm → Bool
unfolding matched_saved_info
has_changes saved f = elim (matched_saved_info saved f) [
  | none ↦ truthy f.account_number || (truthy f.account_name || f.is_primary)
  | some p ↦ not (
      str_eq f.account_number p.account_number
      && (str_eq f.account_name p.account_name && bool_eq f.is_primary p.is_primary))
]

-- An id that is there and not zero.
abbrev pub has_id : Option ℕ → Bool
has_id none = false
has_id (some n) = not (n == 0)

-- The effect that keeps the id of the payment that is_match.
unfoldable pub sync_id : List SavedPayment → PaymentForm → PaymentForm
unfolding matched_saved_info
sync_id saved f = elim (matched_saved_info saved f) [
  | none ↦ record f {
    payment_info_id = if has_id f.payment_info_id then none else f.payment_info_id;
  }
  | some p ↦ record f { payment_info_id = some p.id }
]

abbrev pub fill : SavedPayment → PaymentForm → PaymentForm
fill p f = record f {
  account_number = p.account_number;
  account_name = p.account_name;
  is_primary = p.is_primary;
  payment_info_id = some p.id;
}

unfoldable pub handle_bank_change : List SavedPayment → String → PaymentForm → PaymentForm
handle_bank_change saved value f = elim (find (in_bank (lookup value bank_options)) saved) [
  | none ↦ record f {
    bank = value;
    account_number = "";
    account_name = "";
    is_primary = false;
    payment_info_id = none;
  }
  | some p ↦ fill p (record f { bank = value })
]

unfoldable pub handle_cancel : List SavedPayment → PaymentForm → PaymentForm
unfolding matched_saved_info
handle_cancel saved f = elim (matched_saved_info saved f) [
  | none ↦ record f { account_number = ""; account_name = ""; is_primary = false }
  | some p ↦ record f {
    account_number = p.account_number;
    account_name = p.account_name;
    is_primary = p.is_primary;
  }
]

-- The first primary payment, else the first.
abbrev pub primary_account : List SavedPayment → Option SavedPayment
primary_account [] = none
primary_account (p ∷ ps) = elim (find (λ q. q.is_primary) (p ∷ ps)) [
  | none ↦ some p
  | some q ↦ some q
]

-- `BANK_OPTIONS.find((opt) => opt.label === name)?.value`
abbrev pub bank_value : String → List (String × String) → Option String
bank_value name [] = none
bank_value name ((value, label) ∷ os) = if str_eq label name then some value else bank_value name os

-- The effect that fills the form once after it is opened, and whether it has done so: `open === false`,
-- whether filling is asked for, and whether it has been done.
unfoldable pub auto_fill : Bool → Bool → Bool → List SavedPayment → PaymentForm → PaymentForm × Bool
auto_fill closed wanted done saved f =
    if closed
    then (f, false)
    else (if wanted && not done
        then (elim (primary_account saved) [
          | none ↦ (f, done)
          | some p ↦ elim (bank_value p.bank_name bank_options) [
            | none ↦ (f, true)
            | some value ↦ (fill p (record f { bank = value }), true)
          ]
        ])
        else (f, done))
