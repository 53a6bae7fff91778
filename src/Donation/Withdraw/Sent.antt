-- ===== src/Donation/Withdraw/Sent.antt =====
-- What a withdrawal sends and shows, for Donation.Withdraw.
use mmn_tx_explorer.Base.{
  ℕ, String, Bool, true, false, Option, none, some, List, [], ◌∷◌, ◌++◌, truthy, trim, Bool-cases,
  Option-cases, ◌≡◌, ◌⊎◌, inl, inr, refl, ap, ◌∙◌, arith, ◌≤◌,
}
use mmn_tx_explorer.Hooks.Transfer.{
  Answer, threw, answered, TransferResult, success, failure, KeyTransaction, KeyChain,
}
use mmn_tx_explorer.Donation.Withdraw.{
  WithdrawDialog, fetch_balance, amount_to_send, safe_validate, refusal, withdraw_input, withdraw,
  after_withdraw, handle_transfer, number_of, exceeds, format_and_scale_down,
}

fetch_balance-keeps :
    (updated : Answer (Option ℕ)) (campaign_balance : Option ℕ) (d : WithdrawDialog)
    → ((fetch_balance updated campaign_balance d).withdraw_success ≡ d.withdraw_success)
      × ((fetch_balance updated campaign_balance d).form ≡ d.form)
unfolding fetch_balance
fetch_balance-keeps (threw m) campaign_balance d = (refl, refl)
fetch_balance-keeps (answered none) campaign_balance d = (refl, refl)
fetch_balance-keeps (answered (some n)) campaign_balance d = (refl, refl)

module _ (chain : KeyChain) (validate_address : String → Option Bool)
    (print_scaled : ℕ → String) where
  -- A key is given, the address is valid, and no amount is typed, or one of at least a token and of no
  -- more tokens than there are base units.
  pub record IsReady (d : WithdrawDialog) : Type 0 where
    pub key : truthy (trim d.form.private_key) ≡ true
    pub recipient :
        (truthy (trim d.form.recipient_address) ≡ true)
        × (validate_address d.form.recipient_address ≡ some true)
    pub amount :
        (truthy d.form.amount ≡ false)
        ⊎ ((1 ≤ number_of d.form.amount) × (number_of d.form.amount ≤ d.current_balance_value))

  safe_validate-some :
      (s : String)
      → safe_validate chain validate_address print_scaled s ≡ true
      → validate_address s ≡ some true
  safe_validate-some s h = elim (Option-cases (validate_address s)) [
    | inl e ↦ absurd (ground arith)
    | inr (b, e) ↦ ground arith
  ]

  refusal-IsReady :
      (d : WithdrawDialog) → refusal chain validate_address print_scaled d ≡ none → IsReady d
  unfolding refusal exceeds
  refusal-IsReady d h = record {
    key = ground arith;
    recipient = (ground arith, safe_validate-some d.form.recipient_address (ground arith));
    amount = elim (Bool-cases (truthy d.form.amount)) [
      | inl e ↦ inr (ground arith, ground arith)
      | inr e ↦ inl e
    ];
  }

  handle_transfer-withdraws :
      (wallet_address : String) (updated : Answer (Option ℕ)) (campaign_balance : Option ℕ)
      (d : WithdrawDialog)
      → refusal chain validate_address print_scaled d ≡ none
      → let paid = withdraw chain validate_address print_scaled wallet_address d in
        handle_transfer chain validate_address print_scaled wallet_address updated campaign_balance
          d
        ≡ (
          after_withdraw chain validate_address print_scaled paid.0 updated campaign_balance d,
          paid.1,
        )
  unfolding handle_transfer
  handle_transfer-withdraws wallet_address updated campaign_balance d h =
      rw (handle_transfer, h) refl

  handle_transfer-refused :
      (wallet_address : String) (updated : Answer (Option ℕ)) (campaign_balance : Option ℕ)
      (d : WithdrawDialog) (toast : String)
      → refusal chain validate_address print_scaled d ≡ some toast
      → handle_transfer chain validate_address print_scaled wallet_address updated campaign_balance
          d
        ≡ (record d { toasts = d.toasts ++ toast ∷ [] }, [])
  unfolding handle_transfer
  handle_transfer-refused wallet_address updated campaign_balance d toast h =
      rw (handle_transfer, h) refl

  after_withdraw-follows :
      (t : TransferResult) (updated : Answer (Option ℕ)) (campaign_balance : Option ℕ)
      (d : WithdrawDialog)
      → let after =
          after_withdraw chain validate_address print_scaled t updated campaign_balance d in
        ((hash : String) × (t ≡ success hash) × (after.withdraw_success ≡ true))
        ⊎ ((e : String) × (t ≡ failure e)
            × (after.withdraw_success ≡ d.withdraw_success)
            × (after.current_balance_value ≡ d.current_balance_value))
  unfolding after_withdraw
  after_withdraw-follows (success hash) updated campaign_balance d =
      inl (hash, refl, (fetch_balance-keeps updated campaign_balance _).0)
  after_withdraw-follows (failure e) updated campaign_balance d = inr (e, refl, refl, refl)

  -- A submission either shows a notice, sends nothing and changes nothing else, or a key is given, the
  -- address is valid, and no amount is typed or one of at least a token and of no more tokens than the
  -- balance has base units; then the transactions are those of the transfer from the campaign's wallet,
  -- whose result the dialog follows.
  pub handle_withdraw_lem :
      (wallet_address : String) (updated : Answer (Option ℕ)) (campaign_balance : Option ℕ)
      (d : WithdrawDialog)
      → let done =
          handle_transfer chain validate_address print_scaled wallet_address updated
            campaign_balance d in
        let paid = withdraw chain validate_address print_scaled wallet_address d in
        ((toast : String) × (done ≡ (record d { toasts = d.toasts ++ toast ∷ [] }, [])))
        ⊎ (IsReady d
            × (done.1 ≡ paid.1)
            × (((hash : String) × (paid.0 ≡ success hash) × (done.0.withdraw_success ≡ true))
                ⊎ ((e : String) × (paid.0 ≡ failure e)
                    × (done.0.withdraw_success ≡ d.withdraw_success)
                    × (done.0.current_balance_value ≡ d.current_balance_value))))
  handle_withdraw_lem wallet_address updated campaign_balance d =
      let refused = refusal chain validate_address print_scaled d in
      elim (Option-cases refused) [
        | inr (toast, h) ↦
            inl (toast, handle_transfer-refused wallet_address updated campaign_balance d toast h)
        | inl h ↦
            let e = handle_transfer-withdraws wallet_address updated campaign_balance d h in
            inr (
              refusal-IsReady d h,
              ap (λ (r : WithdrawDialog × List KeyTransaction). r.1) e,
              rw e (after_withdraw-follows _ updated campaign_balance d),
            )
      ]

  -- Where no amount is typed and the transfer succeeds, what is sent is the balance before it, but the
  -- amount that is shown as sent is the balance after it, as the server answers it.
  pub handle_transfer-shown :
      (wallet_address : String) (balance : ℕ) (campaign_balance : Option ℕ) (d : WithdrawDialog)
      (hash : String)
      → truthy d.form.amount ≡ false
      → refusal chain validate_address print_scaled d ≡ none
      → (withdraw chain validate_address print_scaled wallet_address d).0 ≡ success hash
      → let done =
          handle_transfer chain validate_address print_scaled wallet_address
            (answered (some balance))
            campaign_balance
            d in
        ((withdraw_input chain validate_address print_scaled d).amount
          ≡ format_and_scale_down chain validate_address print_scaled d.current_balance_value)
        × (amount_to_send chain validate_address print_scaled done.0
            ≡ format_and_scale_down chain validate_address print_scaled balance)
  unfolding after_withdraw fetch_balance
  handle_transfer-shown wallet_address balance campaign_balance d hash empty ready paid =
      let e =
        handle_transfer-withdraws wallet_address (answered (some balance)) campaign_balance d
          ready in
      (
        rw empty refl,
        ap
              (λ (r : WithdrawDialog × List KeyTransaction).
                amount_to_send chain validate_address print_scaled r.0)
              e
            ∙ ap
                (λ t. amount_to_send chain validate_address print_scaled (
                  after_withdraw chain validate_address print_scaled t (answered (some balance))
                    campaign_balance d))
                paid
            ∙ rw (after_withdraw, fetch_balance, empty) refl,
      )
