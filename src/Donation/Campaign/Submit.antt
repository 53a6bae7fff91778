-- ===== src/Donation/Campaign/Submit.antt =====
-- What submitting a campaign asks for, for Donation.Campaign.
use mmn_tx_explorer.Base.{
  String, true, false, Option, none, some, List, [], ◌∷◌, ◌++◌, ◌≡◌, ◌⊎◌, inl, inr, refl, sym, ap,
  arith, truthy, trim, Bool-cases, Option-cases,
}
use mmn_tx_explorer.Donation.Campaign.{
  validate_form, SubmitAction, draft, publish, CampaignCall, edit, Toast, CampaignPage, is_numeric,
  campaign_data, call, choose, handle_submit,
}

module _ (answer : CampaignCall → Option String) where
  -- A call that may be made: a campaign is edited under an id, or it is complete.
  abbrev pub IsAllowed : CampaignPage → CampaignCall → Type 0
  IsAllowed p c =
      ((id : String) × (truthy id ≡ true) × (c ≡ edit id (campaign_data answer p.form)))
      ⊎ ((validate_form p.form p.is_wallet_downloaded).is_all_complete ≡ true)

  -- The pages that are opened after a call.
  abbrev pub opened : CampaignCall → List String
  opened c = elim (answer c) [ none ↦ [] | some target ↦ target ∷ [] ]

  choose-IsAllowed :
      (id : Option String) (action : SubmitAction) (p : CampaignPage) (c : CampaignCall)
      (done : Toast)
      → choose answer id action p ≡ some (c, done)
      → IsAllowed p c
  unfolding choose
  choose-IsAllowed id draft p c done h = inr (ground arith)
  choose-IsAllowed none publish p c done h = inr (ground arith)
  choose-IsAllowed (some id) publish p c done h = elim (Bool-cases (truthy id)) [
    | inl e ↦ inl (id, e, ground arith)
    | inr e ↦ inr (ground arith)
  ]

  append-nil-right : (xs : List String) → xs ++ [] ≡ xs
  append-nil-right [] = refl
  append-nil-right (x ∷ xs) = ap (λ ys. x ∷ ys) (append-nil-right xs)

  call_lem :
      (c : CampaignCall) (done : Toast) (p : CampaignPage)
      → ((call answer c done p).calls ≡ p.calls ++ c ∷ [])
        × ((call answer c done p).pushed ≡ p.pushed ++ opened c)
        × ((call answer c done p).form ≡ p.form)
  unfolding call
  call_lem c done p = elim (Option-cases (answer c)) [
    | inl e ↦ (
      rw (call, e) refl,
      rw (call, opened, e) (sym (append-nil-right p.pushed)),
      rw (call, e) refl,
    )
    | inr (t, e) ↦ (rw (call, e) refl, rw (call, opened, e) refl, rw (call, e) refl)
  ]

  -- Submitting leaves the form as it is and nothing saving, where nothing was; either it asks for
  -- nothing and opens no page, or it makes one call, of a campaign that is edited under an id or is
  -- complete, its trimmed name being no number, and opens the page that is answered, if any.
  pub handle_submit_lem :
      (id : Option String) (action : SubmitAction) (p : CampaignPage)
      → p.is_saving ≡ false
      → let q = handle_submit answer id action p in
        (q.is_saving ≡ false)
        × (q.form ≡ p.form)
        × (((q.calls ≡ p.calls) × (q.pushed ≡ p.pushed))
            ⊎ ((c : CampaignCall) × (q.calls ≡ p.calls ++ c ∷ [])
                × (q.pushed ≡ p.pushed ++ opened c)
                × (is_numeric (trim p.form.name) ≡ false)
                × IsAllowed p c))
  unfolding handle_submit
  handle_submit_lem id action p idle = elim (Bool-cases (is_numeric (trim p.form.name))) [
    | inl e ↦ rw (handle_submit, e) (idle, refl, inl (refl, refl))
    | inr e ↦ elim (Option-cases (choose answer id action p)) [
      | inl f ↦ (
        rw (handle_submit, e, f) refl,
        rw (handle_submit, e, f) refl,
        inl (rw (handle_submit, e, f) refl, rw (handle_submit, e, f) refl),
      )
      | inr ((c, done), f) ↦
          let (a, b, kept) = call_lem c done p in
          (
            rw (handle_submit, e, f) refl,
            rw (handle_submit, e, f) kept,
            inr (
              c,
              rw (handle_submit, e, f) a,
              rw (handle_submit, e, f) b,
              e,
              choose-IsAllowed id action p c done f,
            ),
          )
    ]
  ]
