-- ===== src/P2p/CreateOffer/Tests.antt =====
-- The theorems on the making of offers at concrete inputs.
use mmn_tx_explorer.Base.{ℕ, String, true, false, Option, none, some, [], ◌≡◌, ◌⊎◌, refl}
use mmn_tx_explorer.Hooks.Transfer.{Answer, answered, Chain, Credentials, accepted, transfer}
use mmn_tx_explorer.P2p.Offer.{sell}
use mmn_tx_explorer.P2p.CreateOffer.{PendingOffer, MadeOffer, OfferModal, handle_final_submit}
use mmn_tx_explorer.P2p.CreateOffer.Outcomes.{IsMade, handle_final_submit_lem}

abbrev pending : PendingOffer
pending = record {
  offer = record {
    side = sell;
    amount = 100;
    price_rate = "1.5";
    limit_min = 10;
    limit_max = 50;
    bank = "MB";
    account_number = some "0123";
    account_name = some "ANN";
  };
  payment_info_id = some 7;
}

abbrev made : MadeOffer
made = record { offer_id = "f1"; intermediary_wallet_address = "escrow" }

abbrev modal : OfferModal
modal = record { open_now = true; show_confirm = true; pending = some pending; notices = [] }

abbrev create : PendingOffer → Answer MadeOffer
create p = answered made

abbrev chain : Chain
chain = record {
  get_current_nonce = λ id. answered 4;
  scale_amount_to_decimals = λ s. s;
  send_transaction = λ tx. answered (accepted "0x1");
}

abbrev credentials : Credentials
credentials = record {
  user = some ("u1", "ann", "wa");
  keypair = some ("pk", "sk");
  zk_proof = some ("proof", "input");
}

abbrev json_message : String → Option (Option String)
json_message s = none

abbrev show : ℕ → String
show n = "100"

closed_test :
    (handle_final_submit create chain credentials json_message show modal).modal.open_now ≡ false
unfolding handle_final_submit transfer
closed_test = refl

handle_final_submit_lem_example :
    let done = handle_final_submit create chain credentials json_message show modal in
    (done.modal.open_now ≡ true) ⊎ IsMade create chain credentials json_message show modal done
handle_final_submit_lem_example =
    handle_final_submit_lem create chain credentials json_message show modal
