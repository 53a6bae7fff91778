-- ===== src/LuckyMoney/Tests.antt =====
-- The theorems on red envelopes at concrete inputs.
use mmn_tx_explorer.Base.{
  ℕ, ◌≤◌, List, true, false, none, some, [], ◌∷◌, ◌≡◌, ◌↔◌, ◌⊎◌, inl, refl, has,
}
use mmn_tx_explorer.LuckyMoney.Claim.{
  idle, Claim, ClaimEvent, rendered, clicked, fired, amount_comes, claim_comes, claim_run,
  claim_step, render_effect, on_timer, handle_claim_amount, click, is_shown, is_disabled,
  handle_claim, amount_answered, claim_answered,
}
use mmn_tx_explorer.LuckyMoney.Claim.Steps.{amounts_asked, claims_asked, IsClaim}
use mmn_tx_explorer.LuckyMoney.Claim.Once.{claim_run-once}
use mmn_tx_explorer.LuckyMoney.Rules.{is_valid}
use mmn_tx_explorer.LuckyMoney.Rules.Accepted.{IsFilled, IsDistribution, is_valid_iff}
use mmn_tx_explorer.LuckyMoney.Create.{
  CreateRedEnvelopeForm, create_request_from_data, RedEnvelope, Creation, transferred,
  begin_creation, end_creation, timeout, on_red_envelope_status_updated,
}
use mmn_tx_explorer.LuckyMoney.Create.Timeout.{end_creation-falls_back}

abbrev blank : Creation
blank = record {
  generated_envelope = none;
  is_processing = false;
  show_confirm_modal = true;
  is_success = false;
  total_amount = 100;
  user_balance = 500;
  pending_envelope_id = none;
  timeout_id = none;
  live = [];
  next_timer = 1;
}

abbrev gift : RedEnvelope
gift = record { id = "e1"; red_envelope_wallet = "w1" }

abbrev form : CreateRedEnvelopeForm
form = record {
  name = "gift";
  total_amount = 100;
  participant_count = 5;
  amount_min = none;
  amount_max = some 40;
  message = "hi";
  random_distribution = true;
  expiry_hours = none;
}

-- A day is the default.
request_test : (create_request_from_data none 1000 form).end_date ≡ 86401000
unfolding create_request_from_data
request_test = refl

abbrev waiting : Creation
waiting = end_creation (transferred gift) (begin_creation blank)

end_creation-falls_back_example :
    (has 1 waiting.live ≡ true)
    × (((timeout 1 waiting).is_processing ≡ false)
        × ((timeout 1 waiting).pending_envelope_id ≡ none)
        × ((timeout 1 waiting).is_success ≡ false))
    × (((on_red_envelope_status_updated "e1" waiting).is_processing ≡ false)
        × ((on_red_envelope_status_updated "e1" waiting).is_success ≡ true)
        × ((on_red_envelope_status_updated "e1" waiting).pending_envelope_id ≡ none))
    × (timeout 1 (on_red_envelope_status_updated "e1" waiting)
        ≡ on_red_envelope_status_updated "e1" waiting)
    × (on_red_envelope_status_updated "e1" (on_red_envelope_status_updated "e1" waiting)
        ≡ on_red_envelope_status_updated "e1" waiting)
end_creation-falls_back_example = end_creation-falls_back gift blank refl

-- A hundred for five, between ten and forty each.
abbrev fair : CreateRedEnvelopeForm
fair = record form { amount_min = some 10 }

fair_test : is_valid 500 fair ≡ true
unfolding is_valid
fair_test = refl

is_valid_iff_example : (is_valid 500 fair ≡ true) ↔ (
    IsFilled fair
    × (100 ≤ 500)
    × (1 ≤ 5)
    × (5 ≤ 500)
    × ((fair.random_distribution ≡ false) ⊎ (1 ≤ 10))
    × ((xs : List ℕ) × IsDistribution fair xs))
is_valid_iff_example = is_valid_iff 500 fair

abbrev unopened : Claim
unopened = record {
  wallet_address = some "w1";
  red_envelope_id = "e1";
  amount_status = idle;
  amount = none;
  claim_status = idle;
  button = false;
  timer = none;
  next_timer = 1;
  requests = [];
  toasts = [];
}

unopened-IsClaim : IsClaim unopened
unopened-IsClaim = record { amounts = refl; claims = refl; waiting = inl refl; order = inl refl }

-- Three clicks with renders between them, and a timer that was cleared.
abbrev opening : List ClaimEvent
opening =
    rendered
    ∷ rendered
    ∷ fired 1
    ∷ fired 2
    ∷ amount_comes (some 9)
    ∷ rendered
    ∷ clicked
    ∷ rendered
    ∷ clicked
    ∷ claim_comes none
    ∷ rendered
    ∷ clicked
    ∷ []

claim_run-once_example :
    (claims_asked (claim_run opening unopened).requests
      ≤ amounts_asked (claim_run opening unopened).requests)
    × (amounts_asked (claim_run opening unopened).requests ≤ 1)
    × IsClaim (claim_run opening unopened)
claim_run-once_example = claim_run-once opening unopened refl unopened-IsClaim

-- The first click claims the envelope, the others do not.
claims_once : claims_asked (claim_run opening unopened).requests ≡ 1
unfolding claim_run claim_step render_effect on_timer handle_claim_amount click is_shown is_disabled
    handle_claim amount_answered claim_answered
claims_once = refl
