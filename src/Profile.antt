-- ===== src/Profile.antt =====
-- The bank accounts of a profile: frontend/modules/profile/components/bank-payment-accounts-tab.tsx with
-- the dialog bank-payment-accounts-modal.tsx beside it, one record for both. The saved payments are
-- none until they are loaded; a call of the server is a request, and its answer is an operation.
pub mod Submit
mod Tests
use mmn_tx_explorer.Base.{
  ℕ, String, Bool, true, false, not, ◌&&◌, Option, none, some, List, [], ◌∷◌, ◌++◌, ltb,
  if◌then◌else◌, truthy, lookup, size,
}
use mmn_tx_explorer.P2p.Offer.{is_number}
use mmn_tx_explorer.P2p.Payment.{SavedPayment, bank_options, in_bank, find, bank_value}

pub record PaymentInfo : Type 0 where
  pub id : Option ℕ
  pub bank_name : String
  pub account_number : String
  pub account_name : String
  pub is_primary : Bool

pub data AccountRequest : Type 0 where
  update_payment : PaymentInfo → AccountRequest
  delete_payment : ℕ → AccountRequest

pub data AccountNotice : Type 0 where
  account_updated account_added account_deleted primary_updated : AccountNotice
  delete_failed primary_failed : AccountNotice
  account_refused : String → AccountNotice

pub record Accounts : Type 0 where
  pub is_modal_open : Bool
  pub selected_payment : Option SavedPayment
  pub is_delete_modal_open : Bool
  pub payment_to_delete : Option SavedPayment
  pub bank : String
  pub account_number : String
  pub account_name : String
  pub is_primary : Bool
  pub requests : List AccountRequest
  pub toasts : List AccountNotice

-- What the list of the dialog's parent does.
unfoldable pub handle_add : Accounts → Accounts
handle_add a = record a { selected_payment = none; is_modal_open = true }

unfoldable pub handle_edit : SavedPayment → Accounts → Accounts
handle_edit p a = record a { selected_payment = some p; is_modal_open = true }

unfoldable pub handle_delete_click : SavedPayment → Accounts → Accounts
handle_delete_click p a = record a { payment_to_delete = some p; is_delete_modal_open = true }

unfoldable pub confirm_delete : Accounts → Accounts
confirm_delete a = elim a.payment_to_delete [
  | none ↦ a
  | some p ↦ record a { requests = a.requests ++ delete_payment p.id ∷ [] }
]

-- The answer to a deletion, and whether it succeeded.
unfoldable pub deleted : Bool → Accounts → Accounts
deleted ok a =
    if ok
    then record a {
      toasts = a.toasts ++ account_deleted ∷ [];
      is_delete_modal_open = false;
      payment_to_delete = none;
    }
    else record a { toasts = a.toasts ++ delete_failed ∷ [] }

unfoldable pub handle_set_primary : SavedPayment → Accounts → Accounts
handle_set_primary p a =
    let info : PaymentInfo = record {
      id = some p.id;
      bank_name = p.bank_name;
      account_number = p.account_number;
      account_name = p.account_name;
      is_primary = true;
    } in
    record a { requests = a.requests ++ update_payment info ∷ [] }

unfoldable pub primary_set : Bool → Accounts → Accounts
primary_set ok a = record a {
  toasts = a.toasts ++ (if ok then primary_updated else primary_failed) ∷ [];
}

-- The fields of the dialog.
abbrev pub fill_account : SavedPayment → Accounts → Accounts
fill_account p a = record a {
  account_number = p.account_number;
  account_name = p.account_name;
  is_primary = p.is_primary;
}

abbrev pub clear_account : Accounts → Accounts
clear_account a = record a { account_number = ""; account_name = ""; is_primary = false }

-- The first saved payment of the bank, where they are loaded and there is one.
abbrev pub matched : Option (List SavedPayment) → String → Option SavedPayment
matched none value = none
matched (some saved) value = find (in_bank (lookup value bank_options)) saved

abbrev pub fill_matched : Option (List SavedPayment) → String → Accounts → Accounts
fill_matched saved value a = elim (matched saved value) [
  | none ↦ clear_account a
  | some p ↦ fill_account p a
]

-- The effect on the payment, on opening and on the saved payments.
unfoldable pub open_effect : Option (List SavedPayment) → Accounts → Accounts
open_effect saved a = if not a.is_modal_open then a else elim a.selected_payment [
  | some p ↦ fill_account p (elim (bank_value p.bank_name bank_options) [
    | none ↦ a
    | some value ↦ record a { bank = value }
  ])
  | none ↦ fill_matched saved "MB" (record a { bank = "MB" })
]

unfoldable pub handle_bank_change : Option (List SavedPayment) → String → Accounts → Accounts
handle_bank_change saved value a =
    let chosen = record a { bank = value } in
    elim a.selected_payment [
      | some p ↦ chosen
      | none ↦ elim saved [
        | none ↦ chosen
        | some payments ↦ fill_matched (some payments) value chosen
      ]
    ]

-- The notice of the first guard that refuses.
unfoldable pub account_issue : Accounts → Option String
account_issue a =
    if not (truthy a.account_number)
    then some "Please enter the account number"
    else (if ltb 14 (size a.account_number)
        then some "Account number must be 14 digits or less"
        else (if not (is_number a.account_number)
            then some "Account number must contain only digits"
            else (if not (truthy a.account_name)
                then some "Please enter the account name"
                else none)))

-- `BANK_OPTIONS.find((b) => b.value === bank)?.label || bank`
abbrev pub bank_label : String → String
bank_label bank = elim (lookup bank bank_options) [
  | none ↦ bank
  | some label ↦ if truthy label then label else bank
]

abbrev pub payment_id : Option SavedPayment → Option ℕ
payment_id none = none
payment_id (some p) = some p.id

abbrev pub payment_info : Accounts → PaymentInfo
payment_info a = record {
  id = payment_id a.selected_payment;
  bank_name = bank_label a.bank;
  account_number = a.account_number;
  account_name = a.account_name;
  is_primary = a.is_primary;
}

unfoldable pub handle_submit : Accounts → Accounts
unfolding account_issue
handle_submit a = elim (account_issue a) [
  | some message ↦ record a { toasts = a.toasts ++ account_refused message ∷ [] }
  | none ↦ record a { requests = a.requests ++ update_payment (payment_info a) ∷ [] }
]

-- The answer to an update: none for success, or the message of the response, if any.
unfoldable pub updated : Option (Option String) → Accounts → Accounts
updated none a = record a {
  toasts =
      a.toasts ++ elim a.selected_payment [ none ↦ account_added | some p ↦ account_updated ] ∷ [];
  is_modal_open = false;
}
updated (some response) a = record a {
  toasts =
      a.toasts
      ++ account_refused (elim response [
        | none ↦ "Failed to save account"
        | some message ↦ if truthy message then message else "Failed to save account"
      ])
        ∷ [];
}
