-- ===== src/P2p/TradingRoom/Tests.antt =====
-- The theorems on the trading room at concrete inputs.
use mmn_tx_explorer.Base.{
  ℕ, String, true, false, Option, none, some, List, [], ◌∷◌, ◌≡◌, ◌≢◌, ◌⊎◌, inl, refl, arith,
  eq_iff,
}
use mmn_tx_explorer.Hooks.Transfer.{
  Answer, answered, Chain, Credentials, accepted, failure, transfer,
}
use mmn_tx_explorer.P2p.Offer.{buy}
use mmn_tx_explorer.P2p.Order.{opened}
use mmn_tx_explorer.P2p.TradingRoom.{buyer, seller, RoomOffer, RoomOrder, TradingRoom, user_role}
use mmn_tx_explorer.P2p.TradingRoom.Roles.{user_role-parties}
use mmn_tx_explorer.P2p.TradingRoom.Confirm.{
  PaymentInfo, OrderRequest, confirm_buy, escrow, find_payment, lacks_payment,
}
use mmn_tx_explorer.P2p.TradingRoom.Outcomes.{IsClosed, IsOpened, confirm_buy_lem}

abbrev offer : RoomOffer
offer = record {
  offer_id = "f1";
  side = buy;
  offer_creator_wallet_address = "wa";
  intermediary_wallet_address = some "escrow";
}

abbrev order : RoomOrder
order = record {
  order_id = "o1";
  status = opened;
  offer_type = none;
  order_creator_wallet_address = "wb";
}

differ : order.order_creator_wallet_address ≢ offer.offer_creator_wallet_address
differ = ground (arith, eq_iff "wb" "wa")

user_role-parties_example :
    (user_role false none (some "wa") (some order) (some offer) ≡ some buyer)
    × (user_role false none (some "wb") (some order) (some offer) ≡ some seller)
    × (user_role false none (some "wb") (some order) (some offer)
        ≡ user_role true none (some "wb") none (some offer))
user_role-parties_example = user_role-parties order offer none (inl refl) refl refl differ

abbrev room : TradingRoom
room = record {
  error = none;
  local_status = none;
  is_expired = false;
  auto_message = none;
  greetings = ("o1", "true") ∷ ("o2", "true") ∷ [];
  pushed = [];
  toasts = [];
}

abbrev create : OrderRequest → Answer (Option RoomOrder)
create r = answered (some order)

abbrev chain : Chain
chain = record {
  get_current_nonce = λ id. answered 4;
  scale_amount_to_decimals = λ s. s;
  send_transaction = λ tx. answered (accepted "0x1");
}

abbrev credentials : Credentials
credentials = record {
  user = some ("u1", "ann", "wb");
  keypair = some ("pk", "sk");
  zk_proof = some ("proof", "input");
}

abbrev json_message : String → Option (Option String)
json_message s = none

abbrev show : ℕ → String
show n = "10"

abbrev saved : List PaymentInfo
saved = record { id = 7; is_primary = false } ∷ record { id = 8; is_primary = true } ∷ []

confirm_buy_lem_example :
    let c =
      confirm_buy create chain credentials json_message show
        (some offer)
        (some "wb")
        saved
        10
        none
        room in
    IsClosed room c.room
    ⊎ ((f : RoomOffer) × (o : RoomOrder) × (some offer ≡ some f)
        × (create (record {
          offer_id = f.offer_id;
          amount = 10;
          payment_info_id = find_payment f.side none saved;
        })
            ≡ answered (some o))
        × IsOpened create chain credentials json_message show f o 10 room c.room c.transactions)
confirm_buy_lem_example =
    confirm_buy_lem create chain credentials json_message show (some offer) (some "wb") saved 10
      none room

-- Without a key the transfer fails with a text that is no JSON.
abbrev keyless : Credentials
keyless = record credentials { keypair = none }

found : lacks_payment buy (find_payment buy none saved) ≡ false
unfolding find_payment
found = refl

failed :
    (escrow create chain keyless json_message show offer order 10).0
    ≡ failure "Missing cryptographic keys. Please log in again."
unfolding transfer
failed = refl
