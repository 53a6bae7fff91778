-- ===== src/Hooks/TransferForm/Guards.antt =====
-- What the form of a transfer sends, for Hooks.TransferForm.
use mmn_tx_explorer.Base.{
  String, Bool, true, false, Option, [], truthy, trim, Bool-cases, ◌≡◌, ◌⊎◌, inl, inr, refl, arith,
}
use mmn_tx_explorer.Hooks.Transfer.{Chain, Credentials, TransferResult, success, failure, transfer}
use mmn_tx_explorer.Hooks.TransferForm.{
  TransferForm, safe_validate_address, address_wrong, amount_wrong, input_of, after_transfer,
  handle_transfer,
}

module _ (chain : Chain) (credentials : Credentials) (validate_address : String → Option Bool)
    (is_positive : String → Bool) (validate_amount : String → String → Bool) where
  -- The address is valid, the amount positive and within the balance.
  pub record IsSound (f : TransferForm) : Type 0 where
    pub address :
        (truthy (trim f.address) ≡ true)
        × (safe_validate_address chain credentials validate_address is_positive validate_amount
              (trim f.address)
            ≡ true)
    pub amount : (truthy f.amount ≡ true) × (is_positive f.amount ≡ true)
    pub balance : validate_amount f.sender_balance (chain.scale_amount_to_decimals f.amount) ≡ true

  right-IsSound :
      (f : TransferForm)
      → address_wrong chain credentials validate_address is_positive validate_amount f ≡ false
      → amount_wrong chain credentials validate_address is_positive validate_amount f ≡ false
      → validate_amount f.sender_balance (chain.scale_amount_to_decimals f.amount) ≡ true
      → IsSound f
  right-IsSound f a b c = record {
    address = (ground arith, ground arith);
    amount = (ground arith, ground arith);
    balance = c;
  }

  after_transfer-kept :
      (t : TransferResult) (f : TransferForm)
      → ((after_transfer chain credentials validate_address is_positive validate_amount t f).amount
          ≡ "")
        ⊎ (((after_transfer chain credentials validate_address is_positive validate_amount t
                f).amount
              ≡ f.amount)
            × ((e : String) × (t ≡ failure e)))
  unfolding after_transfer
  after_transfer-kept (success hash) f = inl refl
  after_transfer-kept (failure e) f = inr (refl, (e, refl))

  -- A submission either sends nothing and keeps the address, the note and the amount, or the trimmed
  -- address is valid, the amount positive and within the balance, and what is sent is what the transfer
  -- of the form sends; the amount is then emptied, or the transfer failed and it is kept.
  pub handle_transfer_lem :
      (f : TransferForm)
      → let done =
          handle_transfer chain credentials validate_address is_positive validate_amount f in
        let paid =
          transfer chain credentials
            (input_of chain credentials validate_address is_positive validate_amount f)
            "dong-give-coffee" in
        ((done.1 ≡ [])
          × (done.0.address ≡ f.address)
          × (done.0.note ≡ f.note)
          × (done.0.amount ≡ f.amount))
        ⊎ (IsSound f
            × (done.1 ≡ paid.1)
            × ((done.0.amount ≡ "")
                ⊎ ((done.0.amount ≡ f.amount) × ((e : String) × (paid.0 ≡ failure e)))))
  unfolding handle_transfer
  handle_transfer_lem f =
      let wrong_address =
        address_wrong chain credentials validate_address is_positive validate_amount f in
      let wrong_amount =
        amount_wrong chain credentials validate_address is_positive validate_amount f in
      elim (Bool-cases wrong_address) [
        | inl a ↦ inl (rw (handle_transfer, a) (refl, refl, refl, refl))
        | inr a ↦ elim (Bool-cases wrong_amount) [
          | inl b ↦ inl (rw (handle_transfer, a, b) (refl, refl, refl, refl))
          | inr b ↦
              elim (Bool-cases
                (validate_amount f.sender_balance (chain.scale_amount_to_decimals f.amount))) [
                  | inr c ↦ inl (rw (handle_transfer, a, b, c) (refl, refl, refl, refl))
                  | inl c ↦ inr (
                    right-IsSound f a b c,
                    rw (handle_transfer, a, b, c) refl,
                    rw (handle_transfer, a, b, c) (after_transfer-kept _ f),
                  )
                ]
        ]
      ]
