-- ===== src/Profile/Submit.antt =====
-- What the dialog of a bank account sends, for Profile.
use mmn_tx_explorer.Base.{
  ◌≤◌, String, Bool, true, ◌&&◌, Option, none, some, List, [], ◌∷◌, ◌++◌, str_eq, eq_iff, truthy,
  size, Bool-cases, Option-cases, ◌≡◌, ◌⊎◌, inl, inr, refl, ap, ◌∙◌, arith,
}
use mmn_tx_explorer.P2p.Offer.{is_number}
use mmn_tx_explorer.P2p.Payment.{SavedPayment, bank_options, bank_value}
use mmn_tx_explorer.Profile.{
  update_payment, account_refused, Accounts, handle_edit, fill_account, open_effect, account_issue,
  bank_label, payment_info, handle_submit,
}

-- A number of one to fourteen digits, with a name.
pub record IsAccount (number name : String) : Type 0 where
  pub short : size number ≤ 14
  pub digits : is_number number ≡ true
  pub named : truthy name ≡ true

account_issue-none :
    (a : Accounts) → account_issue a ≡ none → IsAccount a.account_number a.account_name
unfolding account_issue
account_issue-none a h = record {
  short = ground arith;
  digits = ground arith;
  named = ground arith;
}

account_issue-IsAccount :
    (a : Accounts) → IsAccount a.account_number a.account_name → account_issue a ≡ none
unfolding account_issue
account_issue-IsAccount a h = ground (arith, h.short, h.digits, h.named)

submit-sends :
    (a : Accounts)
    → account_issue a ≡ none
    → handle_submit a ≡ record a { requests = a.requests ++ update_payment (payment_info a) ∷ [] }
unfolding handle_submit
submit-sends a h = rw (handle_submit, h) refl

-- A submission either shows one notice and changes nothing else, or it shows none and sends one update
-- of the account that is edited, if any, with the fields as they are shown and the bank's label, where
-- the number has one to fourteen digits and the name is not empty.
pub handle_submit_lem :
    (a : Accounts)
    → ((message : String) × handle_submit a
          ≡ record a { toasts = a.toasts ++ account_refused message ∷ [] })
      ⊎ (IsAccount a.account_number a.account_name
          × handle_submit a
            ≡ record a { requests = a.requests ++ update_payment (payment_info a) ∷ [] })
unfolding handle_submit
handle_submit_lem a = elim (Option-cases (account_issue a)) [
  | inl e ↦ inr (account_issue-none a e, submit-sends a e)
  | inr (message, e) ↦ inl (message, rw (handle_submit, e) refl)
]

-- Each value's label is the one beside it.
abbrev labelled : List (String × String) → Bool
labelled [] = true
labelled ((value, label) ∷ os) = str_eq (bank_label value) label && labelled os

bank_label-bank_value :
    (name value : String) (os : List (String × String))
    → labelled os ≡ true
    → bank_value name os ≡ some value
    → bank_label value ≡ name
bank_label-bank_value name value [] ok h = absurd (ground arith)
bank_label-bank_value name value ((v, label) ∷ os) ok h = elim (Bool-cases (str_eq label name)) [
  | inl e ↦ ground (arith, eq_iff (bank_label v) label, eq_iff label name)
  | inr e ↦ bank_label-bank_value name value os (ground arith) (ground arith)
]

-- The dialog after it is opened on an account.
abbrev pub edited : Option (List SavedPayment) → SavedPayment → Accounts → Accounts
edited saved p a = open_effect saved (handle_edit p a)

-- The bank that is sent for an account that is edited, by its value among the banks.
abbrev bank_of : Option String → SavedPayment → Accounts → String
bank_of none p a = bank_label a.bank
bank_of (some value) p a = p.bank_name

abbrev pub sent_bank : SavedPayment → Accounts → String
sent_bank p a = bank_of (bank_value p.bank_name bank_options) p a

abbrev opened : Option String → SavedPayment → Accounts → Accounts
unfolding handle_edit
opened v p a =
    fill_account p
      (elim v [ none ↦ handle_edit p a | some value ↦ record (handle_edit p a) { bank = value } ])

edited-opened :
    (saved : Option (List SavedPayment)) (p : SavedPayment) (a : Accounts)
    → edited saved p a ≡ opened (bank_value p.bank_name bank_options) p a
unfolding open_effect handle_edit
edited-opened saved p a = refl

opened-fields :
    (v : Option String) (p : SavedPayment) (a : Accounts)
    → bank_value p.bank_name bank_options ≡ v
    → payment_info (opened v p a) ≡ record {
      id = some p.id;
      bank_name = bank_of v p a;
      account_number = p.account_number;
      account_name = p.account_name;
      is_primary = p.is_primary;
    }
unfolding handle_edit
opened-fields none p a e = refl
opened-fields (some value) p a e =
    ap
      (λ name. record {
        id = some p.id;
        bank_name = name;
        account_number = p.account_number;
        account_name = p.account_name;
        is_primary = p.is_primary;
      })
      (bank_label-bank_value p.bank_name value bank_options refl e)

edited-fields :
    (saved : Option (List SavedPayment)) (p : SavedPayment) (a : Accounts)
    → payment_info (edited saved p a) ≡ record {
      id = some p.id;
      bank_name = sent_bank p a;
      account_number = p.account_number;
      account_name = p.account_name;
      is_primary = p.is_primary;
    }
edited-fields saved p a =
    ap payment_info (edited-opened saved p a)
    ∙ opened-fields (bank_value p.bank_name bank_options) p a refl

edited-IsAccount :
    (saved : Option (List SavedPayment)) (p : SavedPayment) (a : Accounts)
    → IsAccount p.account_number p.account_name
    → IsAccount (edited saved p a).account_number (edited saved p a).account_name
unfolding open_effect handle_edit
edited-IsAccount saved p a h = h

-- An account with a number of one to fourteen digits and a name, that is opened in the dialog and
-- submitted, is sent with its own id, number, name and mark; its bank is sent too where the form offers
-- it, and else the bank that the dialog showed before.
pub handle_submit-edited :
    (saved : Option (List SavedPayment)) (p : SavedPayment) (a : Accounts)
    → IsAccount p.account_number p.account_name
    → handle_submit (edited saved p a) ≡ record (edited saved p a) {
      requests =
          (edited saved p a).requests
          ++ update_payment (record {
            id = some p.id;
            bank_name = sent_bank p a;
            account_number = p.account_number;
            account_name = p.account_name;
            is_primary = p.is_primary;
          })
            ∷ [];
    }
handle_submit-edited saved p a h =
    submit-sends (edited saved p a)
      (account_issue-IsAccount (edited saved p a) (edited-IsAccount saved p a h))
    ∙ ap
        (λ info. record (edited saved p a) {
          requests = (edited saved p a).requests ++ update_payment info ∷ [];
        })
        (edited-fields saved p a)
