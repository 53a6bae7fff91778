-- ===== src/P2p/TradingRoom/Greeting.antt =====
-- The greeting of a new order, from its making to its first message, for P2p.TradingRoom.
use mmn_tx_explorer.Base.{
  String, true, Option, none, some, ◌≡◌, refl, str_eq, eq_refl, lookup, lookup-remove, remove, ap,
  ◌∙◌, if◌then◌else◌,
}
use mmn_tx_explorer.P2p.TradingRoom.{
  RoomOffer, RoomOrder, AutoMessage, TradingRoom, is_creator, greeting, greet, handle_message_sent,
}

greet-sets :
    (wallet : String) (o : RoomOrder) (f : Option RoomOffer) (r : TradingRoom)
    → lookup o.order_id r.greetings ≡ some "true"
    → is_creator (some wallet) o ≡ true
    → (m : AutoMessage) × (greet (some wallet) (some o) f r ≡ record r { auto_message = some m })
      × (m.order_id ≡ o.order_id)
      × (m.buzz ≡ true)
unfolding greet
greet-sets wallet o f r h mine = (greeting o f, rw (greet, h, mine) refl, refl, refl)

handle_message_sent-removes :
    (wallet : String) (o : RoomOrder) (r : TradingRoom)
    → lookup o.order_id r.greetings ≡ some "true"
    → is_creator (some wallet) o ≡ true
    → handle_message_sent (some wallet) (some o) r
      ≡ record r { auto_message = none; greetings = remove o.order_id r.greetings }
unfolding handle_message_sent
handle_message_sent-removes wallet o r h mine = rw (handle_message_sent, h, mine) refl

greet-stays :
    (wallet : Option String) (o : RoomOrder) (f : Option RoomOffer) (r : TradingRoom)
    → lookup o.order_id r.greetings ≡ none
    → greet wallet (some o) f r ≡ r
unfolding greet
greet-stays wallet o f r h = rw (greet, h) refl

-- Where a greeting is stored for an order, its maker is greeted with a message on the order that
-- buzzes; once that is sent, no message is left, the greeting of the order is gone, those of all
-- others stay, and the effect greets no more.
pub greet-once :
    (wallet : String) (o : RoomOrder) (f : Option RoomOffer) (r : TradingRoom) (id : String)
    → lookup o.order_id r.greetings ≡ some "true"
    → is_creator (some wallet) o ≡ true
    → let greeted = greet (some wallet) (some o) f r in
      let sent = handle_message_sent (some wallet) (some o) greeted in
      ((m : AutoMessage) × (greeted.auto_message ≡ some m)
        × (m.order_id ≡ o.order_id)
        × (m.buzz ≡ true))
      × (sent.auto_message ≡ none)
      × (lookup id sent.greetings ≡ (if str_eq o.order_id id then none else lookup id r.greetings))
      × (greet (some wallet) (some o) f sent ≡ sent)
greet-once wallet o f r id h mine =
    let (m, e, same, buzzes) = greet-sets wallet o f r h mine in
    let greeted = greet (some wallet) (some o) f r in
    let stored : greeted.greetings ≡ r.greetings = ap (λ (s : TradingRoom). s.greetings) e in
    let after =
      handle_message_sent-removes wallet o greeted (ap (lookup o.order_id) stored ∙ h) mine in
    let left : (handle_message_sent (some wallet) (some o) greeted).greetings
        ≡ remove o.order_id r.greetings =
      ap (λ (s : TradingRoom). s.greetings) after ∙ ap (remove o.order_id) stored in
    (
      (m, ap (λ (s : TradingRoom). s.auto_message) e, same, buzzes),
      ap (λ (s : TradingRoom). s.auto_message) after,
      ap (lookup id) left ∙ lookup-remove o.order_id id r.greetings,
      greet-stays (some wallet) o f (handle_message_sent (some wallet) (some o) greeted)
          (ap (lookup o.order_id) left ∙ gone),
    )
  where
    gone : lookup o.order_id (remove o.order_id r.greetings) ≡ none
    gone = lookup-remove o.order_id o.order_id r.greetings ∙ rw (eq_refl o.order_id) refl
