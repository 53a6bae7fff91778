-- ===== src/P2p/Purchase/Tests.antt =====
-- The theorems on payments and amounts at concrete inputs.
use mmn_tx_explorer.Base.{
  ℕ, ◌*◌, String, true, false, none, some, List, [], ◌∷◌, ◌≡◌, refl, ◌≤◌, ◌⊎◌,
}
use mmn_tx_explorer.P2p.Payment.{SavedPayment, PaymentForm, handle_bank_change}
use mmn_tx_explorer.P2p.Purchase.{
  Terms, Purchase, none_selected, handle_confirm, handle_final_confirm, is_valid_amount,
  is_disabled, is_range_valid, effective_max, amount_vnd,
}
use mmn_tx_explorer.P2p.Purchase.Limits.{IsWithin, handle_final_confirm-IsWithin}

abbrev saved : List SavedPayment
saved =
    record {
      id = 4;
      bank_name = "ACB";
      account_number = "11";
      account_name = "ANN";
      is_primary = false;
    }
    ∷ record {
      id = 5;
      bank_name = "MB Bank";
      account_number = "22";
      account_name = "ANN";
      is_primary = true;
    }
    ∷ []

abbrev details : PaymentForm
details = record {
  bank = "ACB";
  account_number = "9";
  account_name = "X";
  is_primary = false;
  payment_info_id = none;
}

bank_test : (handle_bank_change saved "MB" details).payment_info_id ≡ some 5
unfolding handle_bank_change
bank_test = refl

abbrev terms : Terms
terms = record {
  available = 100;
  limit_min = 10;
  limit_max = 80;
  price_rate = 3;
  responding_to_buy = true;
  user_balance = 60;
  is_seller = false;
  extra_disabled = false;
}

abbrev purchase : Purchase
purchase = record {
  amount_mzd = 50;
  display_value = "50";
  show_confirm_modal = false;
  selection_type = none_selected;
  has_unsaved_payment_changes = false;
  is_form_valid = true;
}

abbrev raw : String → ℕ
raw s = 50

abbrev format : ℕ → String
format n = "50"

-- The balance and the rate as they are when the modal is confirmed.
abbrev new_terms : Terms
new_terms = record terms { user_balance = 55; price_rate = 4 }

passed :
    (handle_final_confirm raw format new_terms
      (handle_confirm raw format terms false true true purchase)).1
    ≡ some (50, 200)
unfolding handle_final_confirm handle_confirm is_valid_amount is_disabled is_range_valid
    effective_max amount_vnd
passed = refl

handle_final_confirm-IsWithin_example :
    (50 ≡ purchase.amount_mzd) × (200 ≡ 50 * 4) × IsWithin terms 50 × ((true ≡ false) ⊎ (50 ≤ 55))
handle_final_confirm-IsWithin_example =
    handle_final_confirm-IsWithin raw format terms new_terms false true true purchase 50 200 refl
      passed
