-- ===== src/Hooks/Tests.antt =====
-- The theorems on the shared hooks at concrete inputs.
use Prim.Native.String.{String}
use mmn_tx_explorer.Base.{
  ℕ, ◌+◌, true, false, none, some, List, [], ◌∷◌, ◌≡◌, ◌⊎◌, refl, arith, truthy,
}
use mmn_tx_explorer.Hooks.Debounce.{DebounceEvent, call, fires, started, debounce_run}
use mmn_tx_explorer.Hooks.Transfer.{
  answered, TransferInput, failure, Credentials, accepted, Chain, settled, id_of, transaction,
  transfer, transfer_lem,
}
use mmn_tx_explorer.Hooks.TransferForm.{is_decimal, limit_amount}
use mmn_tx_explorer.Hooks.Refresh.{my_orders, Refresh, listen, unlisten}
use mmn_tx_explorer.Hooks.Refresh.Burst.{refreshes, fire_all, refreshes-once}
use mmn_tx_explorer.Hooks.Refresh.Mounted.{heard-listen}
use mmn_tx_explorer.WebSocket.Value.{Value, text, object, field, end, event_type}
use mmn_tx_explorer.WebSocket.Manager.{initial, handle_event, listeners_of}
use mmn_tx_explorer.WebSocket.Listeners.{IsSetMap, heard}

abbrev clicks : List DebounceEvent
clicks = call 1 ∷ call 2 ∷ fires 1 ∷ call 3 ∷ []

clicks_test : (debounce_run clicks (started false)).runs ≡ 2
unfolding debounce_run
clicks_test = refl

abbrev chain : Chain
chain = record {
  get_current_nonce = λ id. answered 7;
  scale_amount_to_decimals = λ n. "1000";
  send_transaction = λ tx. answered (accepted "0xab");
}

abbrev credentials : Credentials
credentials = record {
  user = some ("u1", "ann", "wallet");
  keypair = some ("pk", "sk");
  zk_proof = some ("proof", "input");
}

abbrev payment : TransferInput
payment = record {
  recipient_address = "bob";
  amount = "1";
  note = none;
  offer_id = some "5";
  order_id = none;
  red_envelope_id = none;
}

transfer_lem_example :
    ((keys proof : String × String) × (nonce : ℕ) × (truthy (id_of credentials.user) ≡ true)
      × (credentials.keypair ≡ some keys)
      × (truthy keys.0 ≡ true)
      × (truthy keys.1 ≡ true)
      × (credentials.zk_proof ≡ some proof)
      × (truthy proof.0 ≡ true)
      × (truthy proof.1 ≡ true)
      × (chain.get_current_nonce (id_of credentials.user) ≡ answered nonce)
      × (transfer chain credentials payment "p2p" ≡ (
        settled
            (chain.send_transaction (transaction chain credentials keys proof nonce payment "p2p")),
        transaction chain credentials keys proof nonce payment "p2p" ∷ [],
      ))
      × ((transaction chain credentials keys proof nonce payment "p2p").nonce ≡ nonce + 1))
    ⊎ ((message : String) × (transfer chain credentials payment "p2p" ≡ (failure message, [])))
transfer_lem_example = transfer_lem chain credentials payment "p2p"

typed_test : limit_amount "00a12.5" ≡ "125"
unfolding limit_amount is_decimal
typed_test = refl

abbrev quiet : Refresh
quiet = record {
  debounce_timer = none;
  refresh_anim_timer = none;
  next_timer = 1;
  is_ws_refreshing = false;
  invalidated = [];
}

-- Three events; the timers of the first two were cleared.
refreshes-once_example :
    (fire_all my_orders (2 ∷ 6 ∷ 4 ∷ []) (refreshes my_orders 3 quiet)).invalidated
    ≡ "p2p-my-orders" ∷ "p2p-order" ∷ []
refreshes-once_example = refreshes-once my_orders 2 (2 ∷ 6 ∷ 4 ∷ []) quiet

abbrev created : Value
created = object (field "type" (text "ORDER_CREATED") end)

nobody : IsSetMap initial.listeners
unfolding listeners_of
nobody = record { once = λ t c. omega arith }

heard-listen_example :
    (heard 7 (handle_event created (listen my_orders true 7 initial)).trace
      ≡ heard 7 (listen my_orders true 7 initial).trace + 1)
    × (heard 7
          (handle_event created (unlisten my_orders true 7 (listen my_orders true 7 initial))).trace
        ≡ heard 7 (unlisten my_orders true 7 (listen my_orders true 7 initial)).trace)
unfolding event_type listeners_of
heard-listen_example =
    heard-listen my_orders 7 created "ORDER_CREATED" initial nobody refl (λ t. refl)
