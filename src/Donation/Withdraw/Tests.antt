-- ===== src/Donation/Withdraw/Tests.antt =====
-- The theorems on withdrawing at concrete inputs.
use mmn_tx_explorer.Base.{
  ℕ, String, Bool, true, false, Option, none, some, [], ◌∷◌, ◌++◌, ◌≡◌, ◌⊎◌, refl, trim, is_space,
}
use mmn_tx_explorer.Hooks.Transfer.{
  answered, accepted, success, failure, KeyChain, transfer_by_private_key,
}
use mmn_tx_explorer.Donation.Withdraw.{WithdrawDialog, refusal, withdraw, handle_transfer, exceeds}
use mmn_tx_explorer.Donation.Withdraw.Sent.{IsReady, handle_withdraw_lem}

abbrev chain : KeyChain
chain = record {
  get_current_nonce_by_address = λ a. answered 3;
  scale_amount = λ s. s;
  send_by_private_key = λ tx. answered (accepted "0x1");
}

abbrev is_valid : String → Option Bool
is_valid s = some true

abbrev scale_down : ℕ → String
scale_down n = "5"

-- No amount is typed, so the balance is withdrawn whole.
abbrev whole : WithdrawDialog
whole = record {
  form = record { private_key = "key"; recipient_address = "bob"; amount = ""; note = "" };
  is_dialog_open = true;
  current_balance_value = 5000000;
  withdraw_success = false;
  toasts = [];
}

ready : refusal chain is_valid scale_down whole ≡ none
unfolding refusal exceeds trim is_space
ready = refl

paid : (withdraw chain is_valid scale_down "campaign" whole).0 ≡ success "0x1"
unfolding transfer_by_private_key trim is_space
paid = refl

handle_withdraw_lem_example :
    let done =
      handle_transfer chain is_valid scale_down "campaign" (answered (some 0)) none whole in
    let sent = withdraw chain is_valid scale_down "campaign" whole in
    ((toast : String) × (done ≡ (record whole { toasts = [] ++ toast ∷ [] }, [])))
    ⊎ (IsReady chain is_valid scale_down whole
        × (done.1 ≡ sent.1)
        × (((hash : String) × (sent.0 ≡ success hash) × (done.0.withdraw_success ≡ true))
            ⊎ ((e : String) × (sent.0 ≡ failure e)
                × (done.0.withdraw_success ≡ false)
                × (done.0.current_balance_value ≡ 5000000))))
handle_withdraw_lem_example =
    handle_withdraw_lem chain is_valid scale_down "campaign" (answered (some 0)) none whole
