-- ===== src/P2p/CreateOffer/Outcomes.antt =====
-- What submitting an offer leads to, for P2p.CreateOffer.
use mmn_tx_explorer.Base.{
  ℕ, String, false, Option, none, some, List, [], ◌∷◌, Bool-cases, Option-cases, ◌≡◌, ◌⊎◌, inl, inr,
  refl, ap, ◌∙◌, arith,
}
use mmn_tx_explorer.Hooks.Transfer.{
  Answer, threw, answered, Chain, Credentials, TransferResult, success, failure, Transaction,
}
use mmn_tx_explorer.P2p.Offer.{TradeTypes, sell, buy}
use mmn_tx_explorer.P2p.CreateOffer.{
  PendingOffer, MadeOffer, OfferModal, needs_payment, on_pre_submit, Submitted, deposit,
  settle_deposit, after_offer, handle_final_submit,
}

side-cases : (t : TradeTypes) → (t ≡ buy) ⊎ (t ≡ sell)
side-cases buy = inl refl
side-cases sell = inr refl

Answer-cases {ℓ} :
    {A : Type ℓ} (a : Answer A)
    → ((m : Option String) × (a ≡ threw m)) ⊎ ((x : A) × (a ≡ answered x))
Answer-cases (threw m) = inl (m, refl)
Answer-cases (answered x) = inr (x, refl)

result-cases :
    (t : TransferResult) → ((hash : String) × (t ≡ success hash)) ⊎ ((e : String) × (t ≡ failure e))
result-cases (success hash) = inl (hash, refl)
result-cases (failure e) = inr (e, refl)

-- An offer waits to be confirmed only with a payment, where it is one to sell.
abbrev pub IsPayable : OfferModal → Type 0
IsPayable m =
    (m.pending ≡ none) ⊎ ((p : PendingOffer) × (m.pending ≡ some p) × (needs_payment p ≡ false))

pub on_pre_submit-IsPayable :
    (p : PendingOffer) (m : OfferModal) → IsPayable m → IsPayable (on_pre_submit p m)
unfolding on_pre_submit
on_pre_submit-IsPayable p m h = elim (Bool-cases (needs_payment p)) [
  | inl e ↦ rw (on_pre_submit, e) h
  | inr e ↦ rw (on_pre_submit, e) (inr (p, refl, e))
]

module _ (create : PendingOffer → Answer MadeOffer) (chain : Chain) (credentials : Credentials)
    (json_message : String → Option (Option String)) (show : ℕ → String) where
  settle_deposit-stays :
      (error : String) (m : OfferModal)
      → ((settle_deposit create chain credentials json_message show (failure error) m).open_now
          ≡ m.open_now)
        × ((settle_deposit create chain credentials json_message show (failure error) m).pending
            ≡ m.pending)
  unfolding settle_deposit
  settle_deposit-stays error m = elim (Option-cases (json_message error)) [
    | inl e ↦ (rw (settle_deposit, e) refl, rw (settle_deposit, e) refl)
    | inr (t, e) ↦ (rw (settle_deposit, e) refl, rw (settle_deposit, e) refl)
  ]

  after_offer-unread :
      (p : PendingOffer) (made : MadeOffer) (m : OfferModal) (error : String)
      → p.offer.side ≡ sell
      → (deposit create chain credentials json_message show p made).0 ≡ failure error
      → json_message error ≡ none
      → (after_offer create chain credentials json_message show p made m).0
        ≡ record m { show_confirm = false }
  unfolding after_offer settle_deposit
  after_offer-unread p made m error e failed plain =
      sells p made m e
      ∙ ap (λ t. settle_deposit create chain credentials json_message show t m) failed
      ∙ rw (settle_deposit, plain) refl
    where
      sells :
          (q : PendingOffer) (o : MadeOffer) (n : OfferModal)
          → q.offer.side ≡ sell
          → (after_offer create chain credentials json_message show q o n).0
            ≡ settle_deposit create chain credentials json_message show
                (deposit create chain credentials json_message show q o).0
                n
      sells q o n h = rw (after_offer, h) refl

  handle_final_submit-made :
      (p : PendingOffer) (made : MadeOffer) (m : OfferModal)
      → m.pending ≡ some p
      → create p ≡ answered made
      → let done = after_offer create chain credentials json_message show p made m in
        handle_final_submit create chain credentials json_message show m
        ≡ record { modal = done.0; asked = p ∷ []; transactions = done.1 }
  unfolding handle_final_submit
  handle_final_submit-made p made m h k = ground arith

  -- Where the server makes an offer to sell whose deposit fails with a text that is no JSON, the offer
  -- stands without its deposit, and the modal shows no notice of it: the confirmation is closed, and
  -- the modal stays open with the offer still pending.
  pub handle_final_submit-unread :
      (p : PendingOffer) (made : MadeOffer) (m : OfferModal) (error : String)
      → m.pending ≡ some p
      → p.offer.side ≡ sell
      → create p ≡ answered made
      → (deposit create chain credentials json_message show p made).0 ≡ failure error
      → json_message error ≡ none
      → let done = handle_final_submit create chain credentials json_message show m in
        (done.asked ≡ p ∷ []) × (done.modal ≡ record m { show_confirm = false })
  handle_final_submit-unread p made m error waits sells made_it failed plain =
      let e = handle_final_submit-made p made m waits made_it in
      (
        ap (λ (s : Submitted). s.asked) e,
        ap (λ (s : Submitted). s.modal) e ∙ after_offer-unread p made m error sells failed plain,
      )

  after_offer-bought :
      (p : PendingOffer) (made : MadeOffer) (m : OfferModal)
      → p.offer.side ≡ buy
      → (after_offer create chain credentials json_message show p made m).1 ≡ []
  unfolding after_offer
  after_offer-bought p made m e = rw (after_offer, e) refl

  after_offer-sold :
      (p : PendingOffer) (made : MadeOffer) (m : OfferModal)
      → p.offer.side ≡ sell
      → let paid = deposit create chain credentials json_message show p made in
        after_offer create chain credentials json_message show p made m
        ≡ (settle_deposit create chain credentials json_message show paid.0 m, paid.1)
  unfolding after_offer
  after_offer-sold p made m e = rw (after_offer, e) refl

  -- What a submission that closes the modal has done.
  abbrev pub IsMade : OfferModal → Submitted → Type 0
  IsMade m done =
      (p : PendingOffer) × (made : MadeOffer) × (m.pending ≡ some p)
      × (create p ≡ answered made)
      × (((p.offer.side ≡ buy) × (done.transactions ≡ []))
          ⊎ ((p.offer.side ≡ sell)
              × ((hash : String) × ((deposit create chain credentials json_message show p made).0
                    ≡ success hash))
              × (done.transactions
                  ≡ (deposit create chain credentials json_message show p made).1)))

  made_lem :
      (p : PendingOffer) (made : MadeOffer) (m : OfferModal)
      → m.pending ≡ some p
      → create p ≡ answered made
      → let done = handle_final_submit create chain credentials json_message show m in
        (done.modal.open_now ≡ m.open_now) ⊎ IsMade m done
  made_lem p made m h k =
      let e = handle_final_submit-made p made m h k in
      let sent = ap (λ (s : Submitted). s.transactions) e in
      let paid = deposit create chain credentials json_message show p made in
      elim (side-cases p.offer.side) [
        | inl b ↦ inr (p, made, h, k, inl (b, sent ∙ after_offer-bought p made m b))
        | inr s ↦
            let sold = after_offer-sold p made m s in
            elim (result-cases paid.0) [
              | inl (hash, won) ↦ inr (
                p,
                made,
                h,
                k,
                inr (s, (hash, won), sent ∙ ap (λ (d : OfferModal × List Transaction). d.1) sold),
              )
              | inr (error, lost) ↦ inl (
                  ap (λ (t : Submitted). t.modal.open_now) e
                  ∙ ap (λ (d : OfferModal × List Transaction). d.0.open_now) sold
                  ∙ ap
                      (λ t.
                        (settle_deposit create chain credentials json_message show t m).open_now)
                      lost
                  ∙ (settle_deposit-stays error m).0)
            ]
      ]

  -- Submitting leaves the modal as open as it was, or the server made the pending offer: nothing is
  -- sent for one to buy, and for one to sell the deposit was sent and succeeded.
  pub handle_final_submit_lem :
      (m : OfferModal)
      → let done = handle_final_submit create chain credentials json_message show m in
        (done.modal.open_now ≡ m.open_now) ⊎ IsMade m done
  unfolding handle_final_submit
  handle_final_submit_lem m = elim (Option-cases m.pending) [
    | inl e ↦ inl (ground arith)
    | inr (p, e) ↦ elim (Answer-cases (create p)) [
      | inl (t, f) ↦ inl (ground arith)
      | inr (made, f) ↦ made_lem p made m e f
    ]
  ]
