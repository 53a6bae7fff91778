-- ===== src/P2p/TradingRoom/Outcomes.antt =====
-- What confirming a purchase leads to, for P2p.TradingRoom.Confirm.
use mmn_tx_explorer.Base.{
  ℕ, String, true, false, Option, none, some, List, [], ◌∷◌, ◌++◌, ◌≡◌, ◌⊎◌, inl, inr, refl, sym,
  ap, ◌∙◌, subst, arith, truthy, lookup, lookup-insert, eq_refl, Bool-cases, Option-cases,
}
use mmn_tx_explorer.Hooks.Transfer.{
  Answer, threw, answered, or_default, Chain, Credentials, TransferResult, success, failure,
  Transaction,
}
use mmn_tx_explorer.P2p.Offer.{TradeTypes, sell, buy}
use mmn_tx_explorer.P2p.TradingRoom.{RoomOffer, RoomOrder, TradingRoom}
use mmn_tx_explorer.P2p.TradingRoom.Confirm.{
  PaymentInfo, OrderRequest, Confirmed, create_failed, find_payment, lacks_payment, escrow,
  open_room, settle_escrow, escrow_failed, after_order, place_order, confirm_buy,
}

-- The request for an order on an offer.
abbrev request_of : RoomOffer → ℕ → Option ℕ → OrderRequest
request_of f amount payment = record {
  offer_id = f.offer_id;
  amount = amount;
  payment_info_id = payment;
}

side-cases : (t : TradeTypes) → (t ≡ buy) ⊎ (t ≡ sell)
side-cases buy = inl refl
side-cases sell = inr refl

result-cases :
    (t : TransferResult) → ((hash : String) × (t ≡ success hash)) ⊎ ((e : String) × (t ≡ failure e))
result-cases (success hash) = inl (hash, refl)
result-cases (failure e) = inr (e, refl)

Order-cases :
    (a : Answer (Option RoomOrder))
    → ((m : Option String) × (a ≡ threw m))
      ⊎ ((a ≡ answered none) ⊎ ((o : RoomOrder) × (a ≡ answered (some o))))
Order-cases (threw m) = inl (m, refl)
Order-cases (answered none) = inr (inl refl)
Order-cases (answered (some o)) = inr (inr (o, refl))

-- No room is opened and no greeting stored.
abbrev pub IsClosed : TradingRoom → TradingRoom → Type 0
IsClosed r s = (s.pushed ≡ r.pushed) × (s.greetings ≡ r.greetings)

module _ (create : OrderRequest → Answer (Option RoomOrder)) (chain : Chain)
    (credentials : Credentials) (json_message : String → Option (Option String))
    (show : ℕ → String) where
  -- The room of an order is opened with its greeting, the escrow having been paid for an offer to buy.
  pub record IsOpened (f : RoomOffer) (o : RoomOrder) (amount : ℕ) (r s : TradingRoom)
      (sent : List Transaction) : Type 0 where
    pub pushed : s.pushed ≡ r.pushed ++ o.order_id ∷ []
    pub greeting : lookup o.order_id s.greetings ≡ some "true"
    pub paid :
        ((f.side ≡ sell) × (sent ≡ []))
        ⊎ ((f.side ≡ buy)
            × ((hash : String) × ((escrow create chain credentials json_message show f o amount).0
                  ≡ success hash))
            × (sent ≡ (escrow create chain credentials json_message show f o amount).1))

  settle_escrow-IsClosed :
      (o : RoomOrder) (e : String) (r : TradingRoom)
      → IsClosed r (settle_escrow create chain credentials json_message show o (failure e) r)
  unfolding settle_escrow escrow_failed
  settle_escrow-IsClosed o e r = elim (Option-cases (json_message e)) [
    | inl f ↦ (ground arith, ground arith)
    | inr (m, f) ↦ (ground arith, ground arith)
  ]

  open_room_lem :
      (o : RoomOrder) (r : TradingRoom)
      → let s = open_room create chain credentials json_message show o r in
        (s.pushed ≡ r.pushed ++ o.order_id ∷ []) × (lookup o.order_id s.greetings ≡ some "true")
  unfolding open_room
  open_room_lem o r = (
    refl,
    ground (arith, lookup-insert o.order_id o.order_id "true" r.greetings, eq_refl o.order_id),
  )

  abbrev Ends : RoomOffer → RoomOrder → ℕ → TradingRoom → TradingRoom × List Transaction → Type 0
  Ends f o amount r done = IsClosed r done.0 ⊎ IsOpened f o amount r done.0 done.1

  after_order-sell :
      (f : RoomOffer) (o : RoomOrder) (amount : ℕ) (r : TradingRoom)
      → f.side ≡ sell
      → after_order create chain credentials json_message show f o amount r
        ≡ (open_room create chain credentials json_message show o r, [])
  unfolding after_order
  after_order-sell f o amount r e = rw e refl

  after_order-buy :
      (f : RoomOffer) (o : RoomOrder) (amount : ℕ) (r : TradingRoom)
      → f.side ≡ buy
      → let paid = escrow create chain credentials json_message show f o amount in
        after_order create chain credentials json_message show f o amount r
        ≡ (settle_escrow create chain credentials json_message show o paid.0 r, paid.1)
  unfolding after_order
  after_order-buy f o amount r e = rw e refl

  settle_escrow-opens :
      (o : RoomOrder) (hash : String) (r : TradingRoom)
      → settle_escrow create chain credentials json_message show o (success hash) r
        ≡ open_room create chain credentials json_message show o r
  unfolding settle_escrow
  settle_escrow-opens o hash r = refl

  after_order_lem :
      (f : RoomOffer) (o : RoomOrder) (amount : ℕ) (r : TradingRoom)
      → Ends f o amount r (after_order create chain credentials json_message show f o amount r)
  after_order_lem f o amount r =
      let opened = open_room_lem o r in
      let paid = escrow create chain credentials json_message show f o amount in
      elim (side-cases f.side) [
        | inr e ↦
            subst (Ends f o amount r) (sym (after_order-sell f o amount r e))
              (inr (record { pushed = opened.0; greeting = opened.1; paid = inl (e, refl) }))
        | inl e ↦ elim (result-cases paid.0) [
          | inl (hash, g) ↦
              subst (Ends f o amount r)
                (sym (
                  after_order-buy f o amount r e
                  ∙ ap
                      (λ t.
                        (settle_escrow create chain credentials json_message show o t r, paid.1))
                      g
                  ∙ ap (λ s. (s, paid.1)) (settle_escrow-opens o hash r)))
                (inr (record {
                  pushed = opened.0;
                  greeting = opened.1;
                  paid = inr (e, (hash, g), refl);
                }))
          | inr (m, g) ↦
              subst (Ends f o amount r)
                (sym (
                  after_order-buy f o amount r e
                  ∙ ap
                      (λ t.
                        (settle_escrow create chain credentials json_message show o t r, paid.1))
                      g))
                (inl (settle_escrow-IsClosed o m r))
        ]
      ]

  -- What confirming on an offer ends with.
  abbrev pub Placed : RoomOffer → ℕ → Option ℕ → TradingRoom → Confirmed → Type 0
  Placed f amount payment r c =
      IsClosed r c.room
      ⊎ ((o : RoomOrder) × (create (request_of f amount payment) ≡ answered (some o))
          × IsOpened f o amount r c.room c.transactions)

  place_order_lem :
      (f : RoomOffer) (amount : ℕ) (payment : Option ℕ) (r : TradingRoom)
      → Placed f amount payment r
          (place_order create chain credentials json_message show f amount payment r)
  unfolding place_order
  place_order_lem f amount payment r = elim (Order-cases (create (request_of f amount payment))) [
    | inl (m, e) ↦ inl (rw (place_order, e) (refl, refl))
    | inr (inl e) ↦ inl (rw (place_order, e) (refl, refl))
    | inr (inr (o, e)) ↦ elim (after_order_lem f o amount r) [
      | inl closed ↦ inl (rw (place_order, e) closed)
      | inr opened ↦ inr (o, e, rw (place_order, e) opened)
    ]
  ]

  -- Confirming a purchase either opens no room and stores no greeting, or the server gave an order for
  -- the offer, whose room is opened and whose greeting is stored, the escrow having been paid where
  -- the offer is one to buy and nothing sent where it is one to sell.
  pub confirm_buy_lem :
      (offer : Option RoomOffer) (wallet : Option String) (saved : List PaymentInfo) (amount : ℕ)
      (given : Option ℕ) (r : TradingRoom)
      → let c =
          confirm_buy create chain credentials json_message show offer wallet saved amount given
            r in
        IsClosed r c.room
        ⊎ ((f : RoomOffer) × (o : RoomOrder) × (offer ≡ some f)
            × (create (request_of f amount (find_payment f.side given saved)) ≡ answered (some o))
            × IsOpened f o amount r c.room c.transactions)
  unfolding confirm_buy
  confirm_buy_lem none wallet saved amount given r = inl (refl, refl)
  confirm_buy_lem (some f) wallet saved amount given r =
      let payment = find_payment f.side given saved in
      let started = record r { error = none } in
      elim (Bool-cases (truthy (or_default wallet ""))) [
        | inr out ↦ inl (ground arith, ground arith)
        | inl here ↦ elim (Bool-cases (lacks_payment f.side payment)) [
          | inl lacks ↦ inl (ground arith, ground arith)
          | inr has_one ↦ elim (place_order_lem f amount payment started) [
            | inl closed ↦ inl (rw (confirm_buy, here, has_one) closed)
            | inr (o, e, opened) ↦ inr (
              f,
              o,
              refl,
              e,
              rw (confirm_buy, here, has_one)
                  (record {
                    pushed = opened.pushed;
                    greeting = opened.greeting;
                    paid = opened.paid;
                  }),
            )
          ]
        ]
      ]

  after_order-unread :
      (f : RoomOffer) (o : RoomOrder) (amount : ℕ) (r : TradingRoom) (error : String)
      → f.side ≡ buy
      → (escrow create chain credentials json_message show f o amount).0 ≡ failure error
      → json_message error ≡ none
      → (after_order create chain credentials json_message show f o amount r).0
        ≡ record r { error = some create_failed }
  unfolding settle_escrow escrow_failed
  after_order-unread f o amount r error e failed plain =
      ap (λ (d : TradingRoom × List Transaction). d.0) (after_order-buy f o amount r e)
      ∙ ap (λ t. settle_escrow create chain credentials json_message show o t r) failed
      ∙ rw (settle_escrow, escrow_failed, plain) refl

  -- Where the server gives an order on an offer to buy with a payment, and the escrow's transfer fails
  -- with a text that is no JSON, the user is told that creating the order failed, and its room is not
  -- opened, although the order exists.
  pub confirm_buy-unread :
      (f : RoomOffer) (o : RoomOrder) (wallet : Option String) (saved : List PaymentInfo)
      (amount : ℕ) (given : Option ℕ) (r : TradingRoom) (error : String)
      → f.side ≡ buy
      → truthy (or_default wallet "") ≡ true
      → lacks_payment f.side (find_payment f.side given saved) ≡ false
      → create (request_of f amount (find_payment f.side given saved)) ≡ answered (some o)
      → (escrow create chain credentials json_message show f o amount).0 ≡ failure error
      → json_message error ≡ none
      → let c =
          confirm_buy create chain credentials json_message show
            (some f)
            wallet
            saved
            amount
            given
            r in
        (c.room.error ≡ some create_failed)
        × (c.room.pushed ≡ r.pushed)
        × (c.requests ≡ request_of f amount (find_payment f.side given saved) ∷ [])
  unfolding confirm_buy place_order
  confirm_buy-unread f o wallet saved amount given r error e here has_one placed failed plain =
      let done = after_order-unread f o amount (record r { error = none }) error e failed plain in
      (
        rw (confirm_buy, here, has_one, place_order, placed)
            (ap (λ (s : TradingRoom). s.error) done),
        rw (confirm_buy, here, has_one, place_order, placed)
            (ap (λ (s : TradingRoom). s.pushed) done),
        rw (confirm_buy, here, has_one, place_order, placed) refl,
      )
