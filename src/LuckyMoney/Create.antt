-- ===== src/LuckyMoney/Create.antt =====
-- The creation of a red envelope: frontend/modules/lucky-money/context/CreateRedEnvelopeContext.tsx.
-- Timers are numbered, and those that the browser still holds are a list. The server is a parameter,
-- and instants are in milliseconds.
pub mod Timeout
use mmn_tx_explorer.Base.{
  ℕ, ◌+◌, ◌*◌, String, Bool, true, false, not, ◌&&◌, Option, none, some, List, [], ◌∷◌, ◌++◌, ◌==◌,
  if◌then◌else◌, str_eq, truthy, has, keep, ◌/◌,
}
use mmn_tx_explorer.Hooks.Transfer.{
  Answer, threw, answered, Chain, Credentials, TransferInput, TransferResult, success, failure,
  Transaction, transfer,
}

pub record CreateRedEnvelopeForm : Type 0 where
  pub name : String
  pub total_amount : ℕ
  pub participant_count : ℕ
  pub amount_min : Option ℕ
  pub amount_max : Option ℕ
  pub message : String
  pub random_distribution : Bool
  pub expiry_hours : Option ℕ

pub record CreateRedEnvelopeRequest : Type 0 where
  pub name : String
  pub total_amount : ℕ
  pub total_claims : ℕ
  pub min_amount : ℕ
  pub max_amount : ℕ
  pub description : String
  pub is_random_distribution : Bool
  pub start_date : ℕ
  pub end_date : ℕ
  pub owner_wallet : Option String

pub record RedEnvelope : Type 0 where
  pub id : String
  pub red_envelope_wallet : String

pub record Creation : Type 0 where
  pub generated_envelope : Option RedEnvelope
  pub is_processing : Bool
  pub show_confirm_modal : Bool
  pub is_success : Bool
  pub total_amount : ℕ
  pub user_balance : ℕ
  pub pending_envelope_id : Option String
  pub timeout_id : Option ℕ
  pub live : List ℕ
  pub next_timer : ℕ

-- `n || d`, for an optional number
abbrev pub or_number : Option ℕ → ℕ → ℕ
or_number none d = d
or_number (some n) d = if n == 0 then d else n

unfoldable pub create_request_from_data :
    Option String → ℕ → CreateRedEnvelopeForm → CreateRedEnvelopeRequest
create_request_from_data wallet now form = record {
  name = form.name;
  total_amount = form.total_amount;
  total_claims = form.participant_count;
  min_amount = or_number form.amount_min 0;
  max_amount = or_number form.amount_max 0;
  description = form.message;
  is_random_distribution = form.random_distribution;
  start_date = now;
  end_date = now + or_number form.expiry_hours 24 * 60 * 60 * 1000;
  owner_wallet = wallet;
}

-- `clearTimeout`
abbrev pub clear : ℕ → List ℕ → List ℕ
clear n live = keep (λ m. not (m == n)) live

-- `clearPendingTimeout` of the render whose timer is given: it clears that timer and sets null.
unfoldable pub clear_pending_timeout : Option ℕ → Creation → Creation
clear_pending_timeout none s = s
clear_pending_timeout (some n) s = record s { live = clear n s.live; timeout_id = none }

-- A change of `timeoutId`, with the cleanups of the effect on it: that of the old timer, and where
-- it sets null over another one, that of the new timer.
unfoldable pub set_timeout_id : Option ℕ → Creation → Creation
unfolding clear_pending_timeout
set_timeout_id new s = elim s.timeout_id [
  | none ↦ record s { timeout_id = new }
  | some old ↦ clear_pending_timeout new (clear_pending_timeout (some old) s)
]

-- `fetchUserBalance`: nothing without a user, else the balance in tokens, whose fraction is dropped here,
-- and 0 where the client fails.
unfoldable pub fetch_user_balance : Option String → Answer ℕ → Creation → Creation
fetch_user_balance none reply s = s
fetch_user_balance (some user) (threw m) s =
    if truthy user then record s { user_balance = 0 } else s
fetch_user_balance (some user) (answered balance) s =
    if truthy user then record s { user_balance = balance / 1000000 } else s

unfoldable pub initiate_creation : ℕ → Creation → Creation
initiate_creation total s = record s {
  generated_envelope = none;
  total_amount = total;
  show_confirm_modal = true;
}

-- `confirmCreation` up to its first await.
unfoldable pub begin_creation : Creation → Creation
begin_creation s = record s { show_confirm_modal = false; is_processing = true }

-- How a call of `confirmCreation` ends: the transfer was made with a hash, it failed and the failure
-- was reported, or something threw.
pub data CreationOutcome : Type 0 where
  transferred : RedEnvelope → CreationOutcome
  reported : CreationOutcome
  failed : CreationOutcome

module _ (create : CreateRedEnvelopeRequest → Answer RedEnvelope)
    (report : RedEnvelope → Answer {0} Unit) (chain : Chain) (credentials : Credentials)
    (show : ℕ → String) where
  abbrev pub envelope_input : CreateRedEnvelopeForm → RedEnvelope → TransferInput
  envelope_input form e = record {
    recipient_address = e.red_envelope_wallet;
    amount = show form.total_amount;
    note = some form.message;
    offer_id = none;
    order_id = none;
    red_envelope_id = some e.id;
  }

  -- After the transfer.
  unfoldable pub judge : RedEnvelope → TransferResult → CreationOutcome
  judge e (success hash) = if truthy hash then transferred e else failed
  judge e (failure error) = elim (report e) [ threw m ↦ failed | answered u ↦ reported ]

  -- What `confirmCreation` asks of the server and the chain, and the transactions that were sent.
  unfoldable pub confirm_creation :
      Option String → ℕ → CreateRedEnvelopeForm → CreationOutcome × List Transaction
  unfolding judge
  confirm_creation wallet now form = elim (create (create_request_from_data wallet now form)) [
    | threw m ↦ (failed, [])
    | answered e ↦
        let paid = transfer chain credentials (envelope_input form e) "lucky-money" in
        (judge e paid.0, paid.1)
  ]

-- The end of `confirmCreation`: the fallback timer is started for a transfer that was made.
unfoldable pub end_creation : CreationOutcome → Creation → Creation
unfolding set_timeout_id
end_creation (transferred e) s = set_timeout_id (some s.next_timer) (record s {
  pending_envelope_id = some e.id;
  generated_envelope = some e;
  live = s.live ++ s.next_timer ∷ [];
  next_timer = s.next_timer + 1;
})
end_creation reported s = record s { is_processing = false }
end_creation failed s = record s { generated_envelope = none; is_processing = false }

-- The callback of a timer that the browser still holds.
unfoldable pub timeout : ℕ → Creation → Creation
timeout n s =
    if has n s.live
    then record s { live = clear n s.live; is_processing = false; pending_envelope_id = none }
    else s

abbrev pub is_pending : Option String → String → Bool
is_pending none id = false
is_pending (some pending) id = str_eq pending id

-- `onRedEnvelopeStatusUpdated`, up to the balance that it asks for.
unfoldable pub on_red_envelope_status_updated : String → Creation → Creation
unfolding set_timeout_id clear_pending_timeout
on_red_envelope_status_updated id s =
    if is_pending s.pending_envelope_id id && s.is_processing
    then record (clear_pending_timeout s.timeout_id s) {
      is_processing = false;
      is_success = true;
      pending_envelope_id = none;
    }
    else s
