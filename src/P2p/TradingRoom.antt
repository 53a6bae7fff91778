-- ===== src/P2p/TradingRoom.antt =====
-- The trading room: the state and the handlers of
-- frontend/modules/p2p/components/trading-room/trading-room.tsx, with useCreateOrder of
-- frontend/modules/p2p/hooks/useCreateOrder.ts. The entries of the session storage are those under
-- P2P_PENDING_GREETING, by the order's id. Embeds and links of a message are left out.
pub mod Roles
pub mod Confirm
pub mod Greeting
pub mod Outcomes
mod Tests
use mmn_tx_explorer.Base.{
  ℕ, String, Bool, true, false, ◌&&◌, Option, none, some, List, [], ◌∷◌, ◌++◌, leb, if◌then◌else◌,
  str_eq, truthy, lookup, remove,
}
use mmn_tx_explorer.Hooks.Transfer.{Answer, threw, answered, or_default}
use mmn_tx_explorer.P2p.Offer.{TradeTypes, sell, buy}
use mmn_tx_explorer.P2p.Order.{OrderStatus, pending, confirmed}

pub data Role : Type 0 where
  buyer seller : Role

pub record RoomOffer : Type 0 where
  pub offer_id : String
  pub side : TradeTypes
  pub offer_creator_wallet_address : String
  pub intermediary_wallet_address : Option String

pub record RoomOrder : Type 0 where
  pub order_id : String
  pub status : OrderStatus
  -- none where it is missing
  pub offer_type : Option TradeTypes
  pub order_creator_wallet_address : String

pub record AutoMessage : Type 0 where
  pub text : String
  pub title : String
  pub order_id : String
  pub buzz : Bool

pub record TradingRoom : Type 0 where
  pub error : Option String
  pub local_status : Option OrderStatus
  pub is_expired : Bool
  pub auto_message : Option AutoMessage
  -- The session storage, the pages that were pushed, by the order's id, and the errors toasted.
  pub greetings : List (String × String)
  pub pushed : List String
  pub toasts : List String

-- `checkExpiration`
unfoldable pub check_expiration : ℕ → ℕ → TradingRoom → TradingRoom
check_expiration now expires r = record r { is_expired = leb expires now }

-- `order.offer_type || offer?.side`
abbrev pub offer_side : RoomOrder → Option RoomOffer → Option TradeTypes
offer_side o f = elim o.offer_type [
  | some t ↦ some t
  | none ↦ elim f [ none ↦ none | some offer ↦ some offer.side ]
]

-- `side === TradeTypes.BUY`
abbrev pub is_buy : Option TradeTypes → Bool
is_buy none = false
is_buy (some buy) = true
is_buy (some sell) = false

abbrev pub created_offer : Option RoomOffer → String → Bool
created_offer none wallet = false
created_offer (some f) wallet = str_eq f.offer_creator_wallet_address wallet

-- The role of whoever answers an offer on that side.
abbrev pub responder : Bool → Role
responder true = seller
responder false = buyer

-- The role of whoever made an offer on that side.
abbrev pub offerer : Bool → Role
offerer true = buyer
offerer false = seller

abbrev side_of : Option RoomOffer → Option TradeTypes
side_of none = none
side_of (some f) = some f.side

-- The role in an order of a wallet that is there.
unfoldable pub order_role : String → RoomOrder → Option RoomOffer → Role
order_role wallet o f =
    let is_order_creator = str_eq o.order_creator_wallet_address wallet in
    let side = is_buy (offer_side o f) in
    if created_offer f wallet
    then offerer side
    else (if is_order_creator then responder side else seller)

-- `userRole`: whether the room shows an offer, the side of the query, and the wallet's address.
unfoldable pub user_role :
    Bool → Option TradeTypes → Option String → Option RoomOrder → Option RoomOffer → Option Role
unfolding order_role
user_role true (some side) wallet o f = some (responder (is_buy (some side)))
user_role true none wallet o f = some (responder (is_buy (side_of f)))
user_role false side none o f = none
user_role false side (some wallet) none f = none
user_role false side (some wallet) (some o) f =
    if truthy wallet then some (order_role wallet o f) else none

-- The effect of the order's status.
unfoldable pub on_status : Option RoomOrder → TradingRoom → TradingRoom
on_status none r = r
on_status (some o) r = record r { local_status = none }

-- `effectiveOrder`
unfoldable pub effective_order : TradingRoom → RoomOrder → RoomOrder
effective_order r o = elim r.local_status [ none ↦ o | some status ↦ record o { status = status } ]

-- Whether the user, where there is one with a wallet, made the order.
abbrev pub is_creator : Option String → RoomOrder → Bool
is_creator none o = false
is_creator (some wallet) o = truthy wallet && str_eq o.order_creator_wallet_address wallet

-- The message that greets the maker of the offer.
abbrev pub greeting : RoomOrder → Option RoomOffer → AutoMessage
greeting o f = record {
  text = elim (offer_side o f) [
    | some sell ↦
        "Hello, I would like to buy from your offer. Please check the order details below."
    | some buy ↦ "Hello, I would like to sell to your offer. Please check the order details below."
    | none ↦ "Hello, I would like to sell to your offer. Please check the order details below."
  ];
  title = "Order #";
  order_id = o.order_id;
  buzz = true;
}

-- The effect that greets.
unfoldable pub greet :
    Option String → Option RoomOrder → Option RoomOffer → TradingRoom → TradingRoom
greet wallet none f r = r
greet wallet (some o) f r = elim (lookup o.order_id r.greetings) [
  | none ↦ r
  | some flag ↦
      if is_creator wallet o && str_eq flag "true"
      then record r { auto_message = some (greeting o f) }
      else r
]

-- `handleMessageSent`
unfoldable pub handle_message_sent : Option String → Option RoomOrder → TradingRoom → TradingRoom
handle_message_sent wallet none r = record r { auto_message = none }
handle_message_sent wallet (some o) r = record r {
  auto_message = none;
  greetings =
      if is_creator wallet o && truthy (or_default (lookup o.order_id r.greetings) "")
      then remove o.order_id r.greetings
      else r.greetings;
}

-- The symbol of the chain, of the configuration.
module _ (paid released : String) where
  unfoldable pub handle_payment_status_updated : RoomOrder → TradingRoom → TradingRoom
  handle_payment_status_updated o r = record r {
    local_status = some o.status;
    auto_message =
        some (record { text = paid; title = "Payment Sent"; order_id = o.order_id; buzz = false });
  }

  -- `handleSellerConfirm`: the server's answer to the update with its message, and whether it throws.
  unfoldable pub handle_seller_confirm :
      Answer {0} Unit → RoomOrder → TradingRoom → TradingRoom × Bool
  unfolding effective_order
  handle_seller_confirm (answered done) o r = (
    record r {
      local_status = some confirmed;
      auto_message = some (record {
        text = released;
        title = "Order Completed";
        order_id = (effective_order r o).order_id;
        buzz = false;
      });
    },
    false,
  )
  handle_seller_confirm (threw message) o r =
      if truthy (or_default message "")
      then (
        record r {
          toasts = r.toasts ++ or_default message "" ∷ [];
          error = some "Order has expired";
        },
        true,
      )
      else (
        record r { error = some "Something went wrong while updating status. Please try again." },
        true,
      )
