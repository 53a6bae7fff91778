-- ===== src/LuckyMoney/Claim/Steps.antt =====
-- What each event of the claiming keeps, for LuckyMoney.Claim.Once.
use mmn_tx_explorer.Base.{
  ℕ, suc, ◌+◌, String, not, ◌||◌, Option, none, List, [], ◌∷◌, ◌++◌, ◌==◌, if◌then◌else◌, truthy,
  Bool-cases, Option-cases, ◌≡◌, ◌⊎◌, inl, inr, refl, ap, ◌∙◌, arith,
}
use mmn_tx_explorer.LuckyMoney.Claim.{
  MutationStatus, idle, pending, success, failed, ClaimRequest, claim_amount, claim, Claim, is_idle,
  is_present, handle_claim_amount, handle_claim, render_effect, on_timer, amount_answered,
  claim_answered,
}

abbrev pub amounts_asked : List ClaimRequest → ℕ
amounts_asked [] = 0
amounts_asked (claim_amount id ∷ rs) = suc (amounts_asked rs)
amounts_asked (claim id ∷ rs) = amounts_asked rs

abbrev pub claims_asked : List ClaimRequest → ℕ
claims_asked [] = 0
claims_asked (claim_amount id ∷ rs) = claims_asked rs
claims_asked (claim id ∷ rs) = suc (claims_asked rs)

amounts_asked-append :
    (rs ss : List ClaimRequest) → amounts_asked (rs ++ ss) ≡ amounts_asked rs + amounts_asked ss
amounts_asked-append [] ss = omega arith
amounts_asked-append (claim_amount id ∷ rs) ss = omega (arith, amounts_asked-append rs ss)
amounts_asked-append (claim id ∷ rs) ss = amounts_asked-append rs ss

claims_asked-append :
    (rs ss : List ClaimRequest) → claims_asked (rs ++ ss) ≡ claims_asked rs + claims_asked ss
claims_asked-append [] ss = omega arith
claims_asked-append (claim_amount id ∷ rs) ss = claims_asked-append rs ss
claims_asked-append (claim id ∷ rs) ss = omega (arith, claims_asked-append rs ss)

abbrev pub started : MutationStatus → ℕ
started s = if is_idle s then 0 else 1

-- Each mutation was called as often as its status says, which is once at most, the envelope is claimed
-- only where its amount was answered, and a timer is live only where the amount was not asked for.
pub record IsClaim (c : Claim) : Type 0 where
  pub amounts : amounts_asked c.requests ≡ started c.amount_status
  pub claims : claims_asked c.requests ≡ started c.claim_status
  pub waiting : (c.timer ≡ none) ⊎ (c.amount_status ≡ idle)
  pub order : (c.claim_status ≡ idle) ⊎ (c.amount_status ≡ success)

handle_claim_amount-IsClaim :
    (c : Claim)
    → IsClaim c
    → c.amount_status ≡ idle
    → c.timer ≡ none
    → IsClaim (handle_claim_amount c)
unfolding handle_claim_amount
handle_claim_amount-IsClaim c h unasked off =
    elim (Bool-cases (not (is_present c.wallet_address) || not (truthy c.red_envelope_id))) [
      | inl e ↦ rw (handle_claim_amount, e) h
      | inr e ↦
          rw (handle_claim_amount, e)
            (record {
              amounts = ground (
                arith,
                amounts_asked-append c.requests (claim_amount c.red_envelope_id ∷ []),
                h.amounts,
              );
              claims = ground (
                arith,
                claims_asked-append c.requests (claim_amount c.red_envelope_id ∷ []),
                h.claims,
              );
              waiting = inl off;
              order = ground (arith, h.order);
            })
    ]

pub pending-or :
    (s : MutationStatus) → (s ≡ pending) ⊎ ((s ≡ idle) ⊎ ((s ≡ success) ⊎ (s ≡ failed)))
pending-or idle = inr (inl refl)
pending-or pending = inl refl
pending-or success = inr (inr (inl refl))
pending-or failed = inr (inr (inr refl))

stopped : (c : Claim) → IsClaim c → IsClaim (record c { timer = none })
stopped c h = record { amounts = h.amounts; claims = h.claims; waiting = inl refl; order = h.order }

pub on_timer-IsClaim : (n : ℕ) (c : Claim) → IsClaim c → IsClaim (on_timer n c)
unfolding on_timer
on_timer-IsClaim n c h = elim (Option-cases c.timer) [
  | inl e ↦ rw (on_timer, e) h
  | inr (live, e) ↦
      let unasked : c.amount_status ≡ idle = elim h.waiting [ inl off ↦ absurd (cc) | inr i ↦ i ] in
      let off =
        handle_claim_amount-IsClaim (record c { timer = none }) (stopped c h) unasked refl in
      elim (Bool-cases (live == n)) [
        | inl f ↦ rw (on_timer, e, f) off
        | inr f ↦ rw (on_timer, e, f) h
      ]
]

pub render_effect-IsClaim : (c : Claim) → IsClaim c → IsClaim (render_effect c)
unfolding render_effect
render_effect-IsClaim c h = elim (Bool-cases (is_idle c.amount_status)) [
  | inl e ↦
      rw (render_effect, e)
        (record {
          amounts = h.amounts;
          claims = h.claims;
          waiting = inr (ground arith);
          order = h.order;
        })
  | inr e ↦
      rw (render_effect, e)
        (record { amounts = h.amounts; claims = h.claims; waiting = inl refl; order = h.order })
]

pub handle_claim-IsClaim :
    (c : Claim)
    → IsClaim c
    → c.amount_status ≡ success
    → c.claim_status ≡ idle
    → IsClaim (handle_claim c)
unfolding handle_claim
handle_claim-IsClaim c h answered unclaimed = elim (Option-cases c.amount) [
  | inl e ↦ rw (handle_claim, e) h
  | inr (n, e) ↦
      elim (Bool-cases (not (truthy c.red_envelope_id) || not (is_present c.wallet_address))) [
        | inl f ↦ rw (handle_claim, e, f) h
        | inr f ↦
            rw (handle_claim, e, f)
              (record {
                amounts = ground (
                  arith,
                  amounts_asked-append c.requests (claim c.red_envelope_id ∷ []),
                  h.amounts,
                );
                claims = ground (
                  arith,
                  claims_asked-append c.requests (claim c.red_envelope_id ∷ []),
                  h.claims,
                );
                waiting = h.waiting;
                order = inr answered;
              })
      ]
]

pub amount_answered-IsClaim :
    (answer : Option ℕ) (c : Claim) → IsClaim c → IsClaim (amount_answered answer c)
unfolding amount_answered
amount_answered-IsClaim answer c h = elim (pending-or c.amount_status) [
  | inr same ↦ ground arith
  | inl e ↦
      let unclaimed : c.claim_status ≡ idle = elim h.order [ inl i ↦ i | inr s ↦ absurd (cc) ] in
      elim (Option-cases answer) [
        | inl f ↦
            rw (amount_answered, e, f)
              (record {
                amounts = h.amounts ∙ ap started e;
                claims = h.claims;
                waiting = elim h.waiting [ inl off ↦ inl off | inr i ↦ absurd (cc) ];
                order = inl unclaimed;
              })
        | inr (n, f) ↦
            rw (amount_answered, e, f)
              (record {
                amounts = h.amounts ∙ ap started e;
                claims = h.claims;
                waiting = elim h.waiting [ inl off ↦ inl off | inr i ↦ absurd (cc) ];
                order = inr refl;
              })
      ]
]

pub claim_answered-IsClaim :
    (answer : Option (Option String × Option String)) (c : Claim)
    → IsClaim c
    → IsClaim (claim_answered answer c)
unfolding claim_answered
claim_answered-IsClaim answer c h = elim (pending-or c.claim_status) [
  | inr same ↦ ground arith
  | inl e ↦
      let answered : c.amount_status ≡ success = elim h.order [ inl i ↦ absurd (cc) | inr s ↦ s ] in
      elim (Option-cases answer) [
        | inl f ↦
            rw (claim_answered, e, f)
              (record {
                amounts = h.amounts;
                claims = h.claims ∙ ap started e;
                waiting = h.waiting;
                order = inr answered;
              })
        | inr (m, f) ↦
            rw (claim_answered, e, f)
              (record {
                amounts = h.amounts;
                claims = h.claims ∙ ap started e;
                waiting = h.waiting;
                order = inr answered;
              })
      ]
]
