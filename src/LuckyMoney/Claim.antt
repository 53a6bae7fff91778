-- ===== src/LuckyMoney/Claim.antt =====
-- The claiming of a red envelope: frontend/modules/lucky-money/context/ClaimRedEnvelopeContext.tsx and
-- components/claim-red-envelope/claim-red-envelope.tsx. The two mutations are given by their status, as
-- their library reports it: idle, then pending from the call on, then one of the two ends. Timers are
-- numbered, and the timer is held while it is live.
pub mod Steps
pub mod Once
use mmn_tx_explorer.Base.{
  ℕ, ◌+◌, String, Bool, true, false, not, ◌&&◌, ◌||◌, Option, none, some, List, [], ◌∷◌, ◌++◌, ◌==◌,
  if◌then◌else◌, truthy, or_text,
}

pub data MutationStatus : Type 0 where
  idle pending success failed : MutationStatus

pub data ClaimRequest : Type 0 where
  claim_amount claim : String → ClaimRequest

pub record Claim : Type 0 where
  pub wallet_address : Option String
  pub red_envelope_id : String
  pub amount_status : MutationStatus
  -- The amount of the mutation's data, where there are data.
  pub amount : Option ℕ
  pub claim_status : MutationStatus
  -- Whether the last render shows the button, and shows it as one that is on.
  pub button : Bool
  pub timer : Option ℕ
  pub next_timer : ℕ
  pub requests : List ClaimRequest
  pub toasts : List String

abbrev pub is_idle : MutationStatus → Bool
is_idle idle = true
is_idle _ = false

abbrev pub is_present : Option String → Bool
is_present none = false
is_present (some s) = truthy s

unfoldable pub handle_claim_amount : Claim → Claim
handle_claim_amount c =
    if not (is_present c.wallet_address) || not (truthy c.red_envelope_id) then c else record c {
      amount_status = pending;
      amount = none;
      requests = c.requests ++ claim_amount c.red_envelope_id ∷ [];
    }

unfoldable pub handle_claim : Claim → Claim
handle_claim c = elim c.amount [
  | none ↦ c
  | some n ↦
      if not (truthy c.red_envelope_id) || not (is_present c.wallet_address) then c else record c {
        claim_status = pending;
        requests = c.requests ++ claim c.red_envelope_id ∷ [];
      }
]

-- `disabled` of the button, and whether it is shown: an amount of zero shows no button.
abbrev pub is_pending : MutationStatus → Bool
is_pending pending = true
is_pending _ = false

abbrev pub is_success : MutationStatus → Bool
is_success success = true
is_success _ = false

unfoldable pub is_shown : Claim → Bool
is_shown c = is_success c.amount_status && elim c.amount [ none ↦ false | some n ↦ not (n == 0) ]

unfoldable pub is_disabled : Claim → Bool
is_disabled c = is_pending c.amount_status || not (is_idle c.claim_status)

-- The effect of a render, after its cleanup: the handler is a new one in every render, so it runs in
-- every render.
unfoldable pub render_effect : Claim → Claim
unfolding is_shown is_disabled
render_effect c =
    let button = is_shown c && not (is_disabled c) in
    if is_idle c.amount_status
    then record c { button = button; timer = some c.next_timer; next_timer = c.next_timer + 1 }
    else record c { button = button; timer = none }

-- The callback of the timer with the given number, where it is live.
unfoldable pub on_timer : ℕ → Claim → Claim
unfolding handle_claim_amount
on_timer n c = elim c.timer [
  | none ↦ c
  | some live ↦ if live == n then handle_claim_amount (record c { timer = none }) else c
]

-- The button is on or off as it was rendered last: nothing else guards a click.
unfoldable pub click : Claim → Claim
unfolding handle_claim
click c = if c.button then handle_claim c else c

-- The answers to the two mutations, which only come while these are pending. The status of one that is
-- called again is that of the later call.
unfoldable pub amount_answered : Option ℕ → Claim → Claim
amount_answered answer c = elim c.amount_status [
  | pending ↦ elim answer [
    | none ↦ record c { amount_status = failed }
    | some n ↦ record c { amount_status = success; amount = some n }
  ]
  | other ↦ c
]

-- A failure comes with the message of the response and that of the error, and its effect shows one.
unfoldable pub claim_answered : Option (Option String × Option String) → Claim → Claim
claim_answered answer c = elim c.claim_status [
  | pending ↦ elim answer [
    | none ↦ record c { claim_status = success }
    | some (response, error) ↦ record c {
      claim_status = failed;
      toasts =
          c.toasts
          ++ elim (or_text response error) [
            | none ↦ "Claim failed. Please try again."
            | some message ↦ if truthy message then message else "Claim failed. Please try again."
          ]
            ∷ [];
    }
  ]
  | other ↦ c
]

pub data ClaimEvent : Type 0 where
  rendered clicked : ClaimEvent
  fired : ℕ → ClaimEvent
  amount_comes : Option ℕ → ClaimEvent
  claim_comes : Option (Option String × Option String) → ClaimEvent
  signed_in : Option String → ClaimEvent

-- A change of the user renders the page.
unfoldable pub claim_step : ClaimEvent → Claim → Claim
unfolding render_effect on_timer click amount_answered claim_answered
claim_step rendered c = render_effect c
claim_step clicked c = click c
claim_step (fired n) c = on_timer n c
claim_step (amount_comes answer) c = amount_answered answer c
claim_step (claim_comes answer) c = claim_answered answer c
claim_step (signed_in wallet) c = render_effect (record c { wallet_address = wallet })

unfoldable pub claim_run : List ClaimEvent → Claim → Claim
unfolding claim_step
claim_run [] c = c
claim_run (e ∷ es) c = claim_run es (claim_step e c)
