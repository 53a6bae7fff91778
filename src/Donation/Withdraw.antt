-- ===== src/Donation/Withdraw.antt =====
-- Withdrawing from a campaign: frontend/modules/donation-campaign/components/campaign-detail/shared/
-- campaign-info/transfer-dialog.tsx, with formatAndScaleDown of frontend/utils/number.util.ts. The
-- server, the chain, its check of an address, none where it throws, and the text of a number that is
-- divided by a million are parameters. The balance is a whole number of base units.
pub mod Sent
mod Tests
use Prim.Native.Char.{code}
use Prim.Native.String.{[] as empty, ◌∷◌ as cons}
use mmn_tx_explorer.Base.{
  ◌+◌, ◌-◌, ◌*◌, ◌==◌, ltb, ℕ, String, Bool, true, false, not, ◌&&◌, ◌||◌, Option, none, some, List,
  [], ◌∷◌, ◌++◌, if◌then◌else◌, truthy, trim,
}
use mmn_tx_explorer.Hooks.Transfer.{
  Answer, threw, answered, or_default, TransferInput, TransferResult, success, failure,
  KeyTransaction, KeyChain, transfer_by_private_key,
}
use mmn_tx_explorer.Hooks.TransferForm.{limit_amount}

pub record WithdrawForm : Type 0 where
  pub private_key : String
  pub recipient_address : String
  pub amount : String
  pub note : String

pub record WithdrawDialog : Type 0 where
  pub form : WithdrawForm
  pub is_dialog_open : Bool
  pub current_balance_value : ℕ
  pub withdraw_success : Bool
  pub toasts : List String

pub data WithdrawField : Type 0 where
  private_key_field recipient_address_field amount_field note_field : WithdrawField

unfoldable pub handle_input_change : WithdrawField → String → WithdrawForm → WithdrawForm
handle_input_change private_key_field value f = record f { private_key = value }
handle_input_change recipient_address_field value f = record f { recipient_address = value }
handle_input_change amount_field value f = record f { amount = limit_amount value }
handle_input_change note_field value f = record f { note = value }

abbrev pub zero_of : Option ℕ → ℕ
zero_of o = elim o [ none ↦ 0 | some n ↦ n ]

-- `updated?.current_balance ?? currentCampaign.current_balance ?? 0`
unfoldable pub fetch_balance : Answer (Option ℕ) → Option ℕ → WithdrawDialog → WithdrawDialog
fetch_balance (threw message) campaign_balance d = record d {
  current_balance_value = zero_of campaign_balance;
}
fetch_balance (answered none) campaign_balance d = record d {
  current_balance_value = zero_of campaign_balance;
}
fetch_balance (answered (some n)) campaign_balance d = record d { current_balance_value = n }

abbrev pub reset_form : Option String → WithdrawForm
reset_form my_wallet_address = record {
  private_key = "";
  recipient_address = or_default my_wallet_address "";
  amount = "";
  note = "";
}

-- The effect of opening the dialog.
unfoldable pub open_dialog :
    Answer (Option ℕ) → Option ℕ → Option String → WithdrawDialog → WithdrawDialog
unfolding fetch_balance
open_dialog updated campaign_balance my_wallet_address d =
    let opened = fetch_balance updated campaign_balance (record d { is_dialog_open = true }) in
    elim my_wallet_address [
      | none ↦ opened
      | some a ↦
          if truthy a
          then record opened { form = record d.form { recipient_address = a } }
          else opened
    ]

-- Closing what is shown of a withdrawal that succeeded.
unfoldable pub close_complete : Option String → WithdrawDialog → WithdrawDialog
close_complete my_wallet_address d = record d {
  withdraw_success = false;
  is_dialog_open = false;
  form = reset_form my_wallet_address;
}

-- `Number(text)` for a text of digits, which is what the field of the amount holds.
abbrev pub read_digits : ℕ → String → ℕ
read_digits seen empty = seen
read_digits seen (cons c s) = read_digits (seen * 10 + (code c - 48)) s

abbrev pub number_of : String → ℕ
number_of text = read_digits 0 text

-- `Number(amountToSend) > Number(currentBalanceValue)`: the amount that is typed, in tokens, against the
-- balance in base units, of which a token has a million; without one, what is sent is the balance
-- divided by a million, which is never more than the balance.
unfoldable pub exceeds : WithdrawForm → ℕ → Bool
exceeds f balance = truthy f.amount && ltb balance (number_of f.amount)

-- The parameters are the chain, its check of an address, and the text of a number of base units that is
-- divided by a million.
module _ (chain : KeyChain) (validate_address : String → Option Bool)
    (print_scaled : ℕ → String) where
  -- `NumberUtil.formatAndScaleDown`
  abbrev pub format_and_scale_down : ℕ → String
  format_and_scale_down n = if n == 0 then "0" else print_scaled n

  abbrev pub amount_to_send : WithdrawDialog → String
  amount_to_send d =
      if truthy d.form.amount then d.form.amount else format_and_scale_down d.current_balance_value

  abbrev pub safe_validate : String → Bool
  safe_validate s = elim (validate_address s) [ none ↦ false | some b ↦ b ]

  abbrev pub unaddressed : WithdrawForm → Bool
  unaddressed f = not (truthy (trim f.recipient_address)) || not (safe_validate f.recipient_address)

  -- The guards, in their order.
  unfoldable pub refusal : WithdrawDialog → Option String
  unfolding exceeds
  refusal d =
      if not (truthy (trim d.form.private_key))
      then some "Please enter your private key"
      else (if unaddressed d.form
          then some "Please enter a valid destination wallet address"
          else (if truthy d.form.amount && number_of d.form.amount == 0
              then some "Please enter a valid amount"
              else (if exceeds d.form d.current_balance_value
                  then some "Insufficient balance. Please enter a lower amount."
                  else none)))

  abbrev pub withdraw_input : WithdrawDialog → TransferInput
  withdraw_input d = record {
    recipient_address = trim d.form.recipient_address;
    amount = amount_to_send d;
    note = some (trim d.form.note);
    offer_id = none;
    order_id = none;
    red_envelope_id = none;
  }

  -- The transfer from the wallet of the campaign.
  abbrev pub withdraw : String → WithdrawDialog → TransferResult × List KeyTransaction
  withdraw wallet_address d =
      transfer_by_private_key chain (trim d.form.private_key) (withdraw_input d) "withdraw-campaign"
        wallet_address

  unfoldable pub after_withdraw :
      TransferResult → Answer (Option ℕ) → Option ℕ → WithdrawDialog → WithdrawDialog
  unfolding fetch_balance
  after_withdraw (success hash) updated campaign_balance d =
      fetch_balance updated campaign_balance
        (record d { toasts = d.toasts ++ "Transfer successful!" ∷ []; withdraw_success = true })
  after_withdraw (failure error) updated campaign_balance d = record d {
    toasts =
        d.toasts ++ (if truthy error then error else "Transfer failed. Please try again.") ∷ [];
  }

  -- The dialog after `handleTransfer`, and the transactions that were sent.
  unfoldable pub handle_transfer :
      String → Answer (Option ℕ) → Option ℕ → WithdrawDialog → WithdrawDialog × List KeyTransaction
  unfolding refusal after_withdraw
  handle_transfer wallet_address updated campaign_balance d = elim (refusal d) [
    | some toast ↦ (record d { toasts = d.toasts ++ toast ∷ [] }, [])
    | none ↦
        let done = withdraw wallet_address d in
        (after_withdraw done.0 updated campaign_balance d, done.1)
  ]
