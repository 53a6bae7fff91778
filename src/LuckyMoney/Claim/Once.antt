-- ===== src/LuckyMoney/Claim/Once.antt =====
-- How often a red envelope's amount and the envelope itself are asked for, for LuckyMoney.Claim.
use mmn_tx_explorer.Base.{
  ℕ, suc, ◌≤◌, true, none, some, List, [], ◌∷◌, ◌++◌, ==_iff, truthy, ◌≡◌, inl, inr, arith, Bool,
  false, String, Option, Bool-cases, not, ◌&&◌, ◌⊎◌, refl, ap, ◌∙◌, subst,
}
use mmn_tx_explorer.LuckyMoney.Claim.{
  idle, success, claim_amount, claim, Claim, is_present, handle_claim_amount, handle_claim,
  render_effect, on_timer, is_shown, is_disabled, click, amount_answered, claim_answered,
  ClaimEvent, rendered, clicked, fired, amount_comes, claim_comes, claim_step, claim_run, signed_in,
}
use mmn_tx_explorer.LuckyMoney.Claim.Steps.{
  amounts_asked, claims_asked, IsClaim, pending-or, on_timer-IsClaim, render_effect-IsClaim,
  handle_claim-IsClaim, amount_answered-IsClaim, claim_answered-IsClaim,
}

-- Whether a render lies between any two clicks, and before the first unless one may come.
abbrev pub spaced : Bool → List ClaimEvent → Bool
spaced may [] = true
spaced may (rendered ∷ es) = spaced true es
spaced may (clicked ∷ es) = may && spaced false es
spaced may (fired n ∷ es) = spaced may es
spaced may (amount_comes answer ∷ es) = spaced may es
spaced may (claim_comes answer ∷ es) = spaced may es
spaced may (signed_in wallet ∷ es) = spaced true es

-- Where a click may come, the button is off or the envelope can be claimed for the first time.
abbrev pub IsFresh : Bool → Claim → Type 0
IsFresh may c =
    (may ≡ false) ⊎ ((c.button ≡ false) ⊎ ((c.amount_status ≡ success) × (c.claim_status ≡ idle)))

IsFresh-kept :
    (may : Bool) (c d : Claim)
    → d.button ≡ c.button
    → (c.amount_status ≡ success → c.claim_status ≡ idle → d ≡ c)
    → IsFresh may c
    → IsFresh may d
IsFresh-kept may c d same still h = elim h [
  | inl e ↦ inl e
  | inr (inl off) ↦ inr (inl (same ∙ off))
  | inr (inr (s, i)) ↦
      let e = still s i in
      inr
        (inr (ap (λ (x : Claim). x.amount_status) e ∙ s, ap (λ (x : Claim). x.claim_status) e ∙ i))
]

render_effect-IsFresh : (c : Claim) → IsFresh true (render_effect c)
unfolding render_effect is_shown is_disabled
render_effect-IsFresh c = elim (Bool-cases (is_shown c && not (is_disabled c))) [
  | inl e ↦ inr (inr (ground arith, ground arith))
  | inr e ↦ inr (inl (ground arith))
]

on_timer-IsFresh :
    (may : Bool) (n : ℕ) (c : Claim) → IsClaim c → IsFresh may c → IsFresh may (on_timer n c)
unfolding on_timer handle_claim_amount
on_timer-IsFresh may n c h = IsFresh-kept may c (on_timer n c) (ground arith) (λ s i. still s)
  where
    still : c.amount_status ≡ success → on_timer n c ≡ c
    still s = elim h.waiting [ inl off ↦ ground arith | inr unasked ↦ absurd (cc) ]

amount_answered-IsFresh :
    (may : Bool) (answer : Option ℕ) (c : Claim)
    → IsFresh may c
    → IsFresh may (amount_answered answer c)
unfolding amount_answered
amount_answered-IsFresh may answer c =
    IsFresh-kept may c (amount_answered answer c)
      (elim (pending-or c.amount_status) [ inl e ↦ ground arith | inr other ↦ ground arith ])
      (λ s i. ground arith)

claim_answered-IsFresh :
    (may : Bool) (answer : Option (Option String × Option String)) (c : Claim)
    → IsFresh may c
    → IsFresh may (claim_answered answer c)
unfolding claim_answered
claim_answered-IsFresh may answer c =
    IsFresh-kept may c (claim_answered answer c)
      (elim (pending-or c.claim_status) [ inl e ↦ ground arith | inr other ↦ ground arith ])
      (λ s i. ground arith)

click-off : (c : Claim) → c.button ≡ false → c ≡ click c
unfolding click
click-off c off = ground arith

click-on : (c : Claim) → c.button ≡ true → handle_claim c ≡ click c
unfolding click
click-on c on = ground arith

click-IsClaim : (c : Claim) → IsClaim c → IsFresh true c → IsClaim (click c)
click-IsClaim c h fresh = elim fresh [
  | inl e ↦ absurd (ground arith)
  | inr (inl off) ↦ subst IsClaim (click-off c off) h
  | inr (inr (s, i)) ↦ elim (Bool-cases c.button) [
    | inl on ↦ subst IsClaim (click-on c on) (handle_claim-IsClaim c h s i)
    | inr off ↦ subst IsClaim (click-off c off) h
  ]
]

signed :
    (wallet : Option String) (c : Claim)
    → IsClaim c
    → IsClaim (record c { wallet_address = wallet })
signed wallet c h = record {
  amounts = h.amounts;
  claims = h.claims;
  waiting = h.waiting;
  order = h.order;
}

claim_run-IsClaim :
    (may : Bool) (es : List ClaimEvent) (c : Claim)
    → spaced may es ≡ true
    → IsClaim c
    → IsFresh may c
    → IsClaim (claim_run es c)
unfolding claim_run claim_step
claim_run-IsClaim may [] c apart h fresh = h
claim_run-IsClaim may (rendered ∷ es) c apart h fresh =
    claim_run-IsClaim true es (render_effect c) apart (render_effect-IsClaim c h)
      (render_effect-IsFresh c)
claim_run-IsClaim true (clicked ∷ es) c apart h fresh =
    claim_run-IsClaim false es (click c) apart (click-IsClaim c h fresh) (inl refl)
claim_run-IsClaim false (clicked ∷ es) c apart h fresh = absurd (ground arith)
claim_run-IsClaim may (fired n ∷ es) c apart h fresh =
    claim_run-IsClaim may es (on_timer n c) apart (on_timer-IsClaim n c h)
      (on_timer-IsFresh may n c h fresh)
claim_run-IsClaim may (amount_comes answer ∷ es) c apart h fresh =
    claim_run-IsClaim may es (amount_answered answer c) apart (amount_answered-IsClaim answer c h)
      (amount_answered-IsFresh may answer c fresh)
claim_run-IsClaim may (claim_comes answer ∷ es) c apart h fresh =
    claim_run-IsClaim may es (claim_answered answer c) apart (claim_answered-IsClaim answer c h)
      (claim_answered-IsFresh may answer c fresh)
claim_run-IsClaim may (signed_in wallet ∷ es) c apart h fresh =
    let signed_c : Claim = record c { wallet_address = wallet } in
    claim_run-IsClaim true es (render_effect signed_c) apart
      (render_effect-IsClaim signed_c (signed wallet c h)) (render_effect-IsFresh signed_c)

claims-le :
    (c : Claim)
    → IsClaim c
    → (claims_asked c.requests ≤ amounts_asked c.requests) × (amounts_asked c.requests ≤ 1)
claims-le c h = elim h.order [
  | inl i ↦ ground (arith, h.amounts, h.claims)
  | inr s ↦ ground (arith, h.amounts, h.claims)
]

-- However renders, timers, clicks, answers and changes of the user interleave, where a render lies
-- between any two clicks and before the first, the amount is asked for once at most, and the envelope
-- is claimed no more often than that; each was asked for exactly where its mutation is no longer idle,
-- where all that held at the start.
pub claim_run-once :
    (es : List ClaimEvent) (c : Claim)
    → spaced false es ≡ true
    → IsClaim c
    → (claims_asked (claim_run es c).requests ≤ amounts_asked (claim_run es c).requests)
      × (amounts_asked (claim_run es c).requests ≤ 1)
      × IsClaim (claim_run es c)
claim_run-once es c apart h =
    let after = claim_run-IsClaim false es c apart h (inl refl) in
    let (some_claims, once) = claims-le (claim_run es c) after in (some_claims, once, after)

-- Where a user with a wallet looks at an envelope, and neither mutation was called, the timer of a
-- render asks for the amount; where that is answered with more than nothing, the button claims the
-- envelope, and an answer without an error ends the claim with success.
pub claim_run-claims :
    (c : Claim) (n : ℕ)
    → is_present c.wallet_address ≡ true
    → truthy c.red_envelope_id ≡ true
    → c.amount_status ≡ idle
    → c.claim_status ≡ idle
    → let es =
        rendered
        ∷ fired c.next_timer
        ∷ rendered
        ∷ amount_comes (some (suc n))
        ∷ rendered
        ∷ clicked
        ∷ claim_comes none
        ∷ [] in
      ((claim_run es c).claim_status ≡ success)
      × ((claim_run es c).requests
          ≡ (c.requests ++ claim_amount c.red_envelope_id ∷ []) ++ claim c.red_envelope_id ∷ [])
unfolding claim_run claim_step render_effect on_timer handle_claim_amount click is_shown is_disabled
    handle_claim amount_answered claim_answered
claim_run-claims c n wallet id unasked unclaimed = ground (arith, ==_iff c.next_timer c.next_timer)

-- Where a user with a wallet clicks twice on the button of one render, before the page is rendered again,
-- the envelope is claimed twice.
pub claim_run-twice :
    (c : Claim)
    → is_present c.wallet_address ≡ true
    → truthy c.red_envelope_id ≡ true
    → (amount : ℕ) → c.amount ≡ some amount
    → c.button ≡ true
    → (claim_run (clicked ∷ clicked ∷ []) c).requests
      ≡ (c.requests ++ claim c.red_envelope_id ∷ []) ++ claim c.red_envelope_id ∷ []
unfolding claim_run claim_step click handle_claim
claim_run-twice c wallet id amount known on = ground arith
