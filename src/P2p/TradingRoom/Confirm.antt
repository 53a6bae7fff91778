-- ===== src/P2p/TradingRoom/Confirm.antt =====
-- `handleConfirmBuy` of the trading room, with `createOrder` of useCreateOrder and the transfer to the
-- escrow of Hooks.Transfer. The server's answer to a new order, the chain, the reading of an error's
-- text as JSON and the printing of a number are parameters.
use mmn_tx_explorer.Base.{
  ℕ, String, Bool, true, false, Option, none, some, List, [], ◌∷◌, ◌++◌, ◌==◌, if◌then◌else◌,
  truthy, insert,
}
use mmn_tx_explorer.Hooks.Transfer.{
  Answer, threw, answered, or_default, Chain, Credentials, TransferInput, TransferResult, success,
  failure, Transaction, transfer,
}
use mmn_tx_explorer.P2p.Offer.{TradeTypes, sell, buy}
use mmn_tx_explorer.P2p.TradingRoom.{RoomOffer, RoomOrder, TradingRoom}

pub record PaymentInfo : Type 0 where
  pub id : ℕ
  pub is_primary : Bool

-- What the server is asked for.
pub record OrderRequest : Type 0 where
  pub offer_id : String
  pub amount : ℕ
  pub payment_info_id : Option ℕ

abbrev pub create_failed : String
create_failed = "Something went wrong while creating the order. Please try again."

abbrev pub sign_in : String
sign_in = "Please sign in to continue."

abbrev pub save_payment : String
save_payment = "Please save your payment information before creating an order."

-- An id that is there and not zero.
abbrev pub nonzero : Option ℕ → Option ℕ
nonzero none = none
nonzero (some n) = if n == 0 then none else some n

abbrev pub first_primary : List PaymentInfo → Option ℕ
first_primary [] = none
first_primary (p ∷ ps) = if p.is_primary then some p.id else first_primary ps

abbrev pub first_payment : List PaymentInfo → Option ℕ
first_payment [] = none
first_payment (p ∷ ps) = elim (first_primary (p ∷ ps)) [ none ↦ some p.id | some id ↦ some id ]

-- The payment of an offer to buy: the one given, or the first saved; that of one to sell is as given.
unfoldable pub find_payment : TradeTypes → Option ℕ → List PaymentInfo → Option ℕ
find_payment sell given saved = given
find_payment buy given saved = elim (nonzero given) [
  | none ↦ nonzero (first_payment saved)
  | some id ↦ some id
]

-- Whether the payment is missing.
abbrev pub lacks_payment : TradeTypes → Option ℕ → Bool
lacks_payment sell payment = false
lacks_payment buy payment = elim payment [ none ↦ true | some id ↦ false ]

-- The room after a call, with the requests for an order and the transactions that were sent.
pub record Confirmed : Type 0 where
  pub room : TradingRoom
  pub requests : List OrderRequest
  pub transactions : List Transaction

module _ (create : OrderRequest → Answer (Option RoomOrder)) (chain : Chain)
    (credentials : Credentials) (json_message : String → Option (Option String))
    (show : ℕ → String) where
  -- The transfer to the escrow.
  abbrev pub escrow_input : RoomOffer → RoomOrder → ℕ → TransferInput
  escrow_input f o amount = record {
    recipient_address = or_default f.intermediary_wallet_address "";
    amount = show amount;
    note = some "p2p-trading-buy-offer";
    offer_id = some f.offer_id;
    order_id = some o.order_id;
    red_envelope_id = none;
  }

  abbrev pub escrow : RoomOffer → RoomOrder → ℕ → TransferResult × List Transaction
  escrow f o amount = transfer chain credentials (escrow_input f o amount) "p2p-trading-buy-offer"

  -- The greeting is stored and the order's room opened.
  unfoldable pub open_room : RoomOrder → TradingRoom → TradingRoom
  open_room o r = record r {
    greetings = insert o.order_id "true" r.greetings;
    pushed = r.pushed ++ o.order_id ∷ [];
  }

  -- What follows an escrow that failed: the error's text is read as JSON, which throws where it is none.
  unfoldable pub escrow_failed : String → TradingRoom → TradingRoom
  escrow_failed error r = elim (json_message error) [
    | none ↦ record r { error = some create_failed }
    | some message ↦ record r {
      toasts = r.toasts ++ or_default message "Transfer to escrow failed." ∷ [];
    }
  ]

  unfoldable pub settle_escrow : RoomOrder → TransferResult → TradingRoom → TradingRoom
  unfolding open_room escrow_failed
  settle_escrow o (success hash) r = open_room o r
  settle_escrow o (failure error) r = escrow_failed error r

  -- From the new order on.
  unfoldable pub after_order :
      RoomOffer → RoomOrder → ℕ → TradingRoom → TradingRoom × List Transaction
  unfolding settle_escrow open_room
  after_order f o amount r = elim f.side [
    | sell ↦ (open_room o r, [])
    | buy ↦ let paid = escrow f o amount in (settle_escrow o paid.0 r, paid.1)
  ]

  -- The call of `createOrder`, which toasts a failure and throws it on.
  unfoldable pub place_order : RoomOffer → ℕ → Option ℕ → TradingRoom → Confirmed
  unfolding after_order
  place_order f amount payment r =
      let request : OrderRequest = record {
        offer_id = f.offer_id;
        amount = amount;
        payment_info_id = payment;
      } in
      elim (create request) [
        | threw message ↦ record {
          room = record r {
            toasts =
                r.toasts
                ++ or_default message "Failed to create order. Please try again later" ∷ [];
            error = some (or_default message create_failed);
          };
          requests = request ∷ [];
          transactions = [];
        }
        | answered none ↦ record { room = r; requests = request ∷ []; transactions = [] }
        | answered (some o) ↦
            let done = after_order f o amount r in
            record { room = done.0; requests = request ∷ []; transactions = done.1 }
      ]

  unfoldable pub confirm_buy :
      Option RoomOffer → Option String → List PaymentInfo → ℕ → Option ℕ → TradingRoom → Confirmed
  unfolding find_payment place_order
  confirm_buy none wallet saved amount given r = record {
    room = record r { error = some sign_in };
    requests = [];
    transactions = [];
  }
  confirm_buy (some f) wallet saved amount given r =
      let payment = find_payment f.side given saved in
      let started = record r { error = none } in
      if truthy (or_default wallet "")
      then (if lacks_payment f.side payment
          then record {
            room = record started {
              toasts =
                  r.toasts
                  ++ "Seller has not set up payment information. Please choose another offer or wait for the seller to set up their payment info."
                    ∷ [];
              error = some save_payment;
            };
            requests = [];
            transactions = [];
          }
          else place_order f amount payment started)
      else record { room = record r { error = some sign_in }; requests = []; transactions = [] }
