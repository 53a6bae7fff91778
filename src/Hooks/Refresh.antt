-- ===== src/Hooks/Refresh.antt =====
-- The hooks that ask for a list again when the web socket says that it changed: useP2POffers.ts,
-- useP2PMyOffers.ts and useMyOrders.ts of frontend/modules/p2p/hooks, and useCreatedRedEnvelops of
-- frontend/modules/lucky-money/hooks/useRedEnvelopes.ts. They share one shape: a handler that restarts
-- a delay, after which queries are invalidated. Timers are numbered, and a field holds a timer while
-- it is live.
pub mod Burst
pub mod Mounted
use mmn_tx_explorer.Base.{
  ℕ, ◌+◌, String, Bool, true, false, ◌||◌, Option, none, some, List, [], ◌∷◌, ◌++◌, ◌==◌,
  if◌then◌else◌,
}
use mmn_tx_explorer.WebSocket.Manager.{State, on, off}

pub data ListHook : Type 0 where
  p2p_offers my_offers my_orders created_envelopes : ListHook

-- The types that the effect registers its handler under, in order.
abbrev pub event_types : ListHook → List String
event_types p2p_offers = "OFFER_LIST_REFRESH" ∷ []
event_types my_offers = "ORDER_CREATED" ∷ "ORDER_CONFIRMED" ∷ "ORDER_COMPLETED" ∷ []
event_types my_orders = "ORDER_CREATED" ∷ "ORDER_CONFIRMED" ∷ "ORDER_COMPLETED" ∷ []
event_types created_envelopes = "RED_ENVELOPE_LIST_REFRESH" ∷ []

-- The queries that the timer invalidates.
abbrev pub query_keys : ListHook → List String
query_keys p2p_offers = "p2p-offers" ∷ []
query_keys my_offers = "p2p-my-offers" ∷ []
query_keys my_orders = "p2p-my-orders" ∷ "p2p-order" ∷ []
query_keys created_envelopes = "created-envelopes" ∷ []

-- Only useP2POffers shows that it refreshes.
abbrev pub is_animated : ListHook → Bool
is_animated p2p_offers = true
is_animated my_offers = false
is_animated my_orders = false
is_animated created_envelopes = false

pub record Refresh : Type 0 where
  pub debounce_timer : Option ℕ
  pub refresh_anim_timer : Option ℕ
  pub next_timer : ℕ
  pub is_ws_refreshing : Bool
  pub invalidated : List String

unfoldable pub handle_refresh : ListHook → Refresh → Refresh
handle_refresh hook s = record s {
  debounce_timer = some (s.next_timer + 1);
  refresh_anim_timer = if is_animated hook then some s.next_timer else s.refresh_anim_timer;
  next_timer = s.next_timer + 2;
  is_ws_refreshing = is_animated hook || s.is_ws_refreshing;
}

-- The callback of the delay with the given number, where it is live.
unfoldable pub on_debounce : ListHook → ℕ → Refresh → Refresh
on_debounce hook n s = elim s.debounce_timer [
  | none ↦ s
  | some live ↦
      if live == n
      then record s { debounce_timer = none; invalidated = s.invalidated ++ query_keys hook }
      else s
]

unfoldable pub on_anim : ℕ → Refresh → Refresh
on_anim n s = elim s.refresh_anim_timer [
  | none ↦ s
  | some live ↦
      if live == n then record s { refresh_anim_timer = none; is_ws_refreshing = false } else s
]

-- A timer fires: it is one of the two, or was cleared.
unfoldable pub fire : ListHook → ℕ → Refresh → Refresh
unfolding on_debounce on_anim
fire hook n s = on_anim n (on_debounce hook n s)

-- What the effect's cleanup does to the timers.
unfoldable pub clean_up : Refresh → Refresh
clean_up s = record s { debounce_timer = none; refresh_anim_timer = none }

-- `wsManager.on` for each type, and `wsManager.off`, for the handler with the given number.
abbrev pub on_all : List String → ℕ → State → State
on_all [] cb m = m
on_all (t ∷ ts) cb m = on_all ts cb (on t cb m)

abbrev pub off_all : List String → ℕ → State → State
off_all [] cb m = m
off_all (t ∷ ts) cb m = off_all ts cb (off t cb m)

-- The effect: it does nothing where it is not enabled.
unfoldable pub listen : ListHook → Bool → ℕ → State → State
listen hook enabled cb m = if enabled then on_all (event_types hook) cb m else m

unfoldable pub unlisten : ListHook → Bool → ℕ → State → State
unlisten hook enabled cb m = if enabled then off_all (event_types hook) cb m else m
