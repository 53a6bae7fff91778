-- ===== src/P2p/TradingRoom/Roles.antt =====
-- The two parties of an order, for P2p.TradingRoom.
use mmn_tx_explorer.Base.{
  Bool, true, false, Option, none, some, ◌≡◌, ◌≢◌, ◌⊎◌, inl, inr, arith, eq_iff, eq_refl, truthy,
  refl, ap, ◌∙◌,
}
use mmn_tx_explorer.P2p.Offer.{TradeTypes}
use mmn_tx_explorer.P2p.TradingRoom.{
  Role, buyer, seller, RoomOffer, RoomOrder, user_role, order_role, offer_side, is_buy, offerer,
  responder,
}

-- The other role.
abbrev pub other : Role → Role
other buyer = seller
other seller = buyer

offer_side-same :
    (o : RoomOrder) (f : RoomOffer)
    → (o.offer_type ≡ none) ⊎ (o.offer_type ≡ some f.side)
    → offer_side o (some f) ≡ some f.side
offer_side-same o f (inl e) = ground arith
offer_side-same o f (inr e) = ground arith

order_role-offerer :
    (o : RoomOrder) (f : RoomOffer)
    → offer_side o (some f) ≡ some f.side
    → order_role f.offer_creator_wallet_address o (some f) ≡ offerer (is_buy (some f.side))
unfolding order_role
order_role-offerer o f e = rw e (ground (arith, eq_refl f.offer_creator_wallet_address))

order_role-responder :
    (o : RoomOrder) (f : RoomOffer)
    → offer_side o (some f) ≡ some f.side
    → o.order_creator_wallet_address ≢ f.offer_creator_wallet_address
    → order_role o.order_creator_wallet_address o (some f) ≡ responder (is_buy (some f.side))
unfolding order_role
order_role-responder o f e differ = rw e (
    ground (
      arith,
      eq_refl o.order_creator_wallet_address,
      eq_iff f.offer_creator_wallet_address o.order_creator_wallet_address,
    ))

responder-other : (b : Bool) → responder b ≡ other (offerer b)
responder-other true = refl
responder-other false = refl

-- Where an offer and an order on it are made by two wallets, neither of them empty, and the order
-- names no side or that of its offer, the two see opposite roles in the order's room, the maker of
-- the offer being the buyer exactly where it is one to buy, and the maker of the order sees the role
-- that the offer's page showed without a side in its query.
pub user_role-parties :
    (o : RoomOrder) (f : RoomOffer) (side : Option TradeTypes)
    → (o.offer_type ≡ none) ⊎ (o.offer_type ≡ some f.side)
    → truthy o.order_creator_wallet_address ≡ true
    → truthy f.offer_creator_wallet_address ≡ true
    → o.order_creator_wallet_address ≢ f.offer_creator_wallet_address
    → (user_role false side (some f.offer_creator_wallet_address) (some o) (some f)
        ≡ some (offerer (is_buy (some f.side))))
      × (user_role false side (some o.order_creator_wallet_address) (some o) (some f)
          ≡ some (other (offerer (is_buy (some f.side)))))
      × (user_role false side (some o.order_creator_wallet_address) (some o) (some f)
          ≡ user_role true none (some o.order_creator_wallet_address) none (some f))
unfolding user_role
user_role-parties o f side t order offer differ =
    let e = offer_side-same o f t in
    let first = order_role-offerer o f e in
    let second = order_role-responder o f e differ in
    (
      rw offer (ap some first),
      rw order (ap some (second ∙ responder-other (is_buy (some f.side)))),
      rw order (ap some second),
    )
