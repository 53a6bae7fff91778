-- ===== src/Profile/Tests.antt =====
-- The theorems on bank accounts at concrete inputs.
use mmn_tx_explorer.Base.{true, false, none, some, [], ◌∷◌, ◌++◌, ◌≡◌, refl, arith}
use mmn_tx_explorer.P2p.Payment.{SavedPayment}
use mmn_tx_explorer.Profile.{
  update_payment, Accounts, handle_add, handle_bank_change, account_issue, handle_submit,
}
use mmn_tx_explorer.Profile.Submit.{IsAccount, edited, sent_bank, handle_submit-edited}

abbrev shut : Accounts
shut = record {
  is_modal_open = false;
  selected_payment = none;
  is_delete_modal_open = false;
  payment_to_delete = none;
  bank = "ACB";
  account_number = "12a";
  account_name = "ANN";
  is_primary = false;
  requests = [];
  toasts = [];
}

-- An account with a bank that the form does not offer.
abbrev foreign : SavedPayment
foreign = record {
  id = 7;
  bank_name = "Agribank";
  account_number = "0123";
  account_name = "BOB";
  is_primary = true;
}

abbrev techcom : SavedPayment
techcom = record {
  id = 8;
  bank_name = "Techcombank";
  account_number = "55";
  account_name = "BOB";
  is_primary = false;
}

refuses_letters : account_issue shut ≡ some "Account number must contain only digits"
unfolding account_issue
refuses_letters = refl

fills_on_change :
    (handle_bank_change (some (foreign ∷ techcom ∷ [])) "TCB" (handle_add shut)).account_number
    ≡ "55"
unfolding handle_bank_change handle_add
fills_on_change = refl

-- It is sent with the bank of the dialog before.
sends_other_bank : sent_bank foreign shut ≡ "ACB"
sends_other_bank = refl

foreign-IsAccount : IsAccount "0123" "BOB"
foreign-IsAccount = record { short = omega arith; digits = refl; named = refl }

handle_submit-edited_example :
    handle_submit (edited none foreign shut) ≡ record (edited none foreign shut) {
      requests =
          (edited none foreign shut).requests
          ++ update_payment (record {
            id = some 7;
            bank_name = sent_bank foreign shut;
            account_number = "0123";
            account_name = "BOB";
            is_primary = true;
          })
            ∷ [];
    }
handle_submit-edited_example = handle_submit-edited none foreign shut foreign-IsAccount
