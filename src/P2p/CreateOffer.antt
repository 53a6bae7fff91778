-- ===== src/P2p/CreateOffer.antt =====
-- The making of an offer: CreateOfferModal of
-- frontend/modules/p2p/components/p2p-trading/create-offer-form/create-offer-modal.tsx, past its
-- schema. The server's answer, the chain, the reading of an error's text as JSON and the printing of a
-- number are parameters.
pub mod Outcomes
mod Tests
use mmn_tx_explorer.Base.{
  ℕ, String, Bool, true, false, not, ◌&&◌, Option, none, some, List, [], ◌∷◌, ◌++◌, ◌==◌, ltb,
  if◌then◌else◌, truthy,
}
use mmn_tx_explorer.Hooks.Transfer.{
  Answer, threw, answered, or_default, Chain, Credentials, TransferInput, TransferResult, success,
  failure, Transaction, transfer,
}
use mmn_tx_explorer.P2p.Offer.{TradeTypes, sell, buy, OfferForm, accepts}
use mmn_tx_explorer.P2p.Payment.{has_id}

pub record PendingOffer : Type 0 where
  pub offer : OfferForm
  pub payment_info_id : Option ℕ

-- The offer that the server made: its id and the wallet of its escrow.
pub record MadeOffer : Type 0 where
  pub offer_id : String
  pub intermediary_wallet_address : String

pub data OfferNotice : Type 0 where
  payment_required buy_created processed : OfferNotice
  create_fail : String → OfferNotice

pub record OfferModal : Type 0 where
  pub open_now : Bool
  pub show_confirm : Bool
  pub pending : Option PendingOffer
  pub notices : List OfferNotice

-- The schema with the balance, which bounds an offer to sell.
unfoldable pub accepts_within : (String → Option Bool) → ℕ → OfferForm → Bool
accepts_within parse_float balance d =
    accepts parse_float d && elim d.side [ sell ↦ not (ltb balance d.amount) | buy ↦ true ]

-- The effect of opening the modal.
unfoldable pub set_open : Bool → OfferModal → OfferModal
set_open true m = record m { open_now = true; show_confirm = false; pending = none }
set_open false m = record m { open_now = false }

abbrev pub needs_payment : PendingOffer → Bool
needs_payment p = elim p.offer.side [ sell ↦ not (has_id p.payment_info_id) | buy ↦ false ]

unfoldable pub on_pre_submit : PendingOffer → OfferModal → OfferModal
on_pre_submit p m =
    if needs_payment p
    then record m { notices = m.notices ++ payment_required ∷ [] }
    else record m { pending = some p; show_confirm = true }

-- The modal after a submission, the offers asked for and the transactions that were sent.
pub record Submitted : Type 0 where
  pub modal : OfferModal
  pub asked : List PendingOffer
  pub transactions : List Transaction

module _ (create : PendingOffer → Answer MadeOffer) (chain : Chain) (credentials : Credentials)
    (json_message : String → Option (Option String)) (show : ℕ → String) where
  abbrev pub deposit_input : PendingOffer → MadeOffer → TransferInput
  deposit_input p made = record {
    recipient_address = made.intermediary_wallet_address;
    amount = show p.offer.amount;
    note = some "p2p-trading";
    offer_id = some made.offer_id;
    order_id = none;
    red_envelope_id = none;
  }

  abbrev pub deposit : PendingOffer → MadeOffer → TransferResult × List Transaction
  deposit p made = transfer chain credentials (deposit_input p made) "p2p-trading"

  -- After the deposit. The error's text is read as JSON, which throws where it is none.
  unfoldable pub settle_deposit : TransferResult → OfferModal → OfferModal
  settle_deposit (success hash) m = record m {
    notices = m.notices ++ processed ∷ [];
    show_confirm = false;
    open_now = false;
  }
  settle_deposit (failure error) m = elim (json_message error) [
    | none ↦ record m { show_confirm = false }
    | some message ↦ record m {
      notices =
          m.notices ++ create_fail (or_default message "Create offer fail. Please try again.") ∷ [];
      show_confirm = false;
    }
  ]

  -- From the server's offer on.
  unfoldable pub after_offer : PendingOffer → MadeOffer → OfferModal → OfferModal × List Transaction
  unfolding settle_deposit
  after_offer p made m = elim p.offer.side [
    | buy ↦ (
      record m { notices = m.notices ++ buy_created ∷ []; show_confirm = false; open_now = false },
      [],
    )
    | sell ↦ let paid = deposit p made in (settle_deposit paid.0 m, paid.1)
  ]

  unfoldable pub handle_final_submit : OfferModal → Submitted
  unfolding after_offer
  handle_final_submit m = elim m.pending [
    | none ↦ record { modal = m; asked = []; transactions = [] }
    | some p ↦ elim (create p) [
      | threw message ↦ record {
        modal = record m { show_confirm = false };
        asked = p ∷ [];
        transactions = [];
      }
      | answered made ↦
          let done = after_offer p made m in
          record { modal = done.0; asked = p ∷ []; transactions = done.1 }
    ]
  ]
