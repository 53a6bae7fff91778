-- ===== src/Hooks/TransferForm.antt =====
-- The form of a transfer: frontend/modules/transfer/components/transfer.tsx. The client's check of an
-- address, none where it throws, its comparison of amounts, and `Number(amount) > 0` are parameters, as
-- the chain is.
pub mod Amount
pub mod Guards
use Prim.Native.Char.{Char, code}
use Prim.Native.String.{String, [] as empty, ◌∷◌ as cons}
use mmn_tx_explorer.Base.{
  ℕ, Bool, true, false, not, ◌&&◌, ◌||◌, Option, none, some, List, [], ◌∷◌, ◌++◌, ◌==◌, ltb, leb,
  if◌then◌else◌, truthy, trim, size, slice, Bool-cases, ◌≡◌, ◌⊎◌, inl, inr, refl, arith,
}
use mmn_tx_explorer.Hooks.Transfer.{
  Answer, threw, answered, Chain, Credentials, TransferInput, TransferResult, success, failure,
  Transaction, transfer, or_default,
}

unfoldable pub is_decimal : Char → Bool
is_decimal c = leb 48 (code c) && leb (code c) 57

-- `value.replace(/[^0-9]/g, '')`
abbrev pub keep_decimals : String → String
keep_decimals empty = empty
keep_decimals (cons c s) = if is_decimal c then cons c (keep_decimals s) else keep_decimals s

-- `numeric.replace(/^0+/, '')`
abbrev pub strip_zeros : String → String
strip_zeros empty = empty
strip_zeros (cons c s) = if code c == 48 then strip_zeros s else cons c s

abbrev pub starts_zero : String → Bool
starts_zero empty = false
starts_zero (cons c s) = code c == 48

-- What is kept of an amount that is typed.
unfoldable pub limit_amount : String → String
limit_amount value =
    let numeric = keep_decimals value in
    slice 15 (if ltb 1 (size numeric) && starts_zero numeric then strip_zeros numeric else numeric)

pub record TransferForm : Type 0 where
  pub address : String
  pub note : String
  pub amount : String
  pub is_address_error : Bool
  pub is_amount_error : Bool
  pub sender_balance : String
  pub toasts : List String

pub data Field : Type 0 where
  address_field note_field amount_field : Field

unfoldable pub handle_input_change : Field → String → TransferForm → TransferForm
unfolding limit_amount
handle_input_change address_field value f = record f { address = value; is_address_error = false }
handle_input_change note_field value f = record f { note = value }
handle_input_change amount_field value f = record f {
  amount = limit_amount value;
  is_amount_error = false;
}

unfoldable pub reset_form : TransferForm → TransferForm
reset_form f = record f {
  address = "";
  note = "";
  amount = "";
  is_address_error = false;
  is_amount_error = false;
}

-- `refreshBalance`, with the account's balance as the client answers it.
unfoldable pub refresh_balance : String → Answer String → TransferForm → TransferForm
refresh_balance user_id (threw message) f = f
refresh_balance user_id (answered balance) f =
    if truthy user_id then record f { sender_balance = balance } else f

module _ (chain : Chain) (credentials : Credentials) (validate_address : String → Option Bool)
    (is_positive : String → Bool) (validate_amount : String → String → Bool) where
  -- `safeValidateAddress`
  abbrev pub safe_validate_address : String → Bool
  safe_validate_address s = elim (validate_address s) [ none ↦ false | some b ↦ b ]

  abbrev pub address_wrong : TransferForm → Bool
  address_wrong f = not (truthy (trim f.address)) || not (safe_validate_address (trim f.address))

  abbrev pub amount_wrong : TransferForm → Bool
  amount_wrong f = not (truthy f.amount) || not (is_positive f.amount)

  abbrev pub input_of : TransferForm → TransferInput
  input_of f = record {
    recipient_address = trim f.address;
    amount = f.amount;
    note = some (trim f.note);
    offer_id = none;
    order_id = none;
    red_envelope_id = none;
  }

  unfoldable pub after_transfer : TransferResult → TransferForm → TransferForm
  unfolding reset_form
  after_transfer (success hash) f =
      reset_form (record f { toasts = f.toasts ++ "Transfer successful!" ∷ [] })
  after_transfer (failure error) f = record f {
    toasts =
        f.toasts ++ (if truthy error then error else "Transfer failed. Please try again.") ∷ [];
  }

  -- `handleTransfer`: the form after it, and the transactions that were sent.
  unfoldable pub handle_transfer : TransferForm → TransferForm × List Transaction
  unfolding after_transfer
  handle_transfer f =
      let marked = record f {
        is_address_error = address_wrong f || f.is_address_error;
        is_amount_error = amount_wrong f || f.is_amount_error;
      } in
      let done = transfer chain credentials (input_of f) "dong-give-coffee" in
      if address_wrong f || amount_wrong f
      then (marked, [])
      else (if validate_amount f.sender_balance (chain.scale_amount_to_decimals f.amount)
          then (after_transfer done.0 f, done.1)
          else (record f { toasts = f.toasts ++ "Insufficient balance to proceed." ∷ [] }, []))
