-- ===== src/P2p/Order.antt =====
-- The hook useP2POrder of frontend/modules/p2p/hooks/useP2POrder.ts as a state with steps: the calls
-- of its client, the web socket's events, and the replies of the server in any order. Fields of an
-- order that the hook only passes through are one text.
use mmn_tx_explorer.Base.{
  ℕ, ◌+◌, String, Bool, true, false, ◌&&◌, ◌||◌, Option, none, some, List, [], ◌∷◌, ◌++◌, ◌≡◌, ◌≢◌,
  ◌≤◌, ◌⊎◌, ◌∙◌, ap, refl, arith, ◌==◌, if◌then◌else◌, truthy, str_eq, eq_iff, Bool-cases,
  Option-cases, inl, inr,
}

pub data OrderStatus : Type 0 where
  opened pending confirmed canceled expired failed completed waiting_transfer : OrderStatus

-- `getOrderStatusInfo`
unfoldable pub order_status_info : OrderStatus → String
order_status_info opened = "success"
order_status_info failed = "error"
order_status_info pending = "warning"
order_status_info confirmed = "info"
order_status_info completed = "info"
order_status_info canceled = "brand"
order_status_info waiting_transfer = "primary"
order_status_info expired = "secondary"

pub record P2pOrder : Type 0 where
  pub order_id : String
  pub status : OrderStatus
  pub transfer_code : Option String
  pub details : String

pub record Hook : Type 0 where
  pub order_id : String
  pub order : Option P2pOrder
  pub is_loading : Bool
  pub error : Bool
  -- The number of the effect whose `isMounted` is still true.
  pub effect : ℕ
  -- The requests that were made: `getOrderById` of an id.
  pub requested : List String

unfoldable pub fetch_order : Hook → Hook
fetch_order s =
    if truthy s.order_id
    then record s { is_loading = true; error = false; requested = s.requested ++ s.order_id ∷ [] }
    else record s { is_loading = false; order = none }

-- The effect that runs when the id changes: the cleanup of the last one, then the fetch.
unfoldable pub change_order_id : String → Hook → Hook
unfolding fetch_order
change_order_id id s = fetch_order (record s { order_id = id; effect = s.effect + 1 })

-- The reply to the fetch of the given effect; none is a failure.
unfoldable pub fetched : ℕ → Option P2pOrder → Hook → Hook
fetched effect reply s =
    if effect == s.effect
    then (elim reply [
      | none ↦ record s { order = none; error = true; is_loading = false }
      | some o ↦ record s { order = some o; is_loading = false }
    ])
    else s

-- `refresh` and `refreshOrder` ask without an effect of their own, and their reply is always taken.
unfoldable pub refresh : Hook → Hook
refresh s = if truthy s.order_id then record s { requested = s.requested ++ s.order_id ∷ [] } else s

unfoldable pub refreshed : Option P2pOrder → Hook → Hook
refreshed none s = s
refreshed (some o) s = record s { order = some o }

-- `{ ...order, ...optimisticUpdate }`
abbrev pub optimistic : OrderStatus → Option String → P2pOrder → P2pOrder
optimistic status none o = record o { status = status }
optimistic status (some code) o =
    if truthy code
    then record o { status = status; transfer_code = some code }
    else record o { status = status }

-- `updateOrderStatus` up to its request, on the order of the render that it belongs to.
unfoldable pub begin_update : OrderStatus → Option String → Option P2pOrder → Hook → Hook
begin_update status code none s = s
begin_update status code (some prev) s = record s { order = some (optimistic status code prev) }

-- What the update's request ends with.
pub data Update : Type 0 where
  refused : Update
  updated : Option P2pOrder → Update

-- The rest of `updateOrderStatus`: `prev` is what it began with.
unfoldable pub end_update : P2pOrder → Update → Hook → Hook
end_update prev refused s = record s { order = some prev }
end_update prev (updated none) s = s
end_update prev (updated (some o)) s = record s { order = some o }

-- `handleStatusUpdate`, on the event's type and its payload's `order_id` and `orderId`.
abbrev pub first_id : Option String → Option String → Option String
first_id none b = b
first_id (some a) b = if truthy a then some a else b

unfoldable pub handle_status_update : String → Option String → Option String → Hook → Hook
handle_status_update type id camel_id s = elim (first_id id camel_id) [
  | none ↦ s
  | some k ↦
      if truthy k && str_eq k s.order_id
      then (if str_eq type "ORDER_CONFIRMED" || str_eq type "ORDER_COMPLETED"
          then record s { requested = s.requested ++ s.order_id ∷ [] }
          else s)
      else s
]

pub data HookEvent : Type 0 where
  id_change : String → HookEvent
  fetch_reply : ℕ → Option P2pOrder → HookEvent
  refresh_call : HookEvent
  refresh_reply : Option P2pOrder → HookEvent
  update_call : OrderStatus → Option String → Option P2pOrder → HookEvent
  update_reply : P2pOrder → Update → HookEvent
  socket_event : String → Option String → Option String → HookEvent

unfoldable pub hook_step : HookEvent → Hook → Hook
unfolding change_order_id fetched refresh refreshed begin_update end_update handle_status_update
hook_step (id_change id) s = change_order_id id s
hook_step (fetch_reply effect reply) s = fetched effect reply s
hook_step refresh_call s = refresh s
hook_step (refresh_reply reply) s = refreshed reply s
hook_step (update_call status code seen) s = begin_update status code seen s
hook_step (update_reply prev answer) s = end_update prev answer s
hook_step (socket_event type id camel_id) s = handle_status_update type id camel_id s

unfoldable pub hook_run : List HookEvent → Hook → Hook
unfolding hook_step
hook_run [] s = s
hook_run (e ∷ es) s = hook_run es (hook_step e s)

effect-hook_step : (e : HookEvent) (s : Hook) → s.effect ≤ (hook_step e s).effect
unfolding hook_step
effect-hook_step (id_change id) s = ground arith
effect-hook_step (fetch_reply effect reply) s = ground arith
effect-hook_step refresh_call s = ground arith
effect-hook_step (refresh_reply none) s = omega arith
effect-hook_step (refresh_reply (some o)) s = omega arith
effect-hook_step (update_call status code none) s = omega arith
effect-hook_step (update_call status code (some prev)) s = omega arith
effect-hook_step (update_reply prev refused) s = omega arith
effect-hook_step (update_reply prev (updated none)) s = omega arith
effect-hook_step (update_reply prev (updated (some o))) s = omega arith
effect-hook_step (socket_event type id camel_id) s = ground arith

effect-hook_run : (es : List HookEvent) (s : Hook) → s.effect ≤ (hook_run es s).effect
unfolding hook_run
effect-hook_run [] s = omega arith
effect-hook_run (e ∷ es) s = omega (arith, effect-hook_step e s, effect-hook_run es (hook_step e s))

-- Once another id is shown, the reply to the last fetch before that changes nothing, whatever
-- happens in between.
pub fetched-after_change :
    (id : String) (es : List HookEvent) (s : Hook) (reply : Option P2pOrder)
    → let s' = hook_run es (change_order_id id s) in fetched s.effect reply s' ≡ s'
unfolding fetched change_order_id
fetched-after_change id es s reply =
    let later = effect-hook_run es (change_order_id id s) in ground (arith, later)

-- An update of the order shown that the server refuses puts back the order with which it began:
-- where nothing happens in between, the whole state is as before, and whatever happens in between,
-- also a newer order from the server, the order is the old one.
pub end_update-refused :
    (status : OrderStatus) (code : Option String) (prev : P2pOrder) (es : List HookEvent) (s : Hook)
    → s.order ≡ some prev
    → (end_update prev refused (begin_update status code s.order s) ≡ s)
      × ((end_update prev refused (hook_run es (begin_update status code s.order s))).order
          ≡ some prev)
unfolding end_update begin_update
end_update-refused status code prev es s shown = (ground arith, refl)

asked-type :
    (type : String)
    → (str_eq type "ORDER_CONFIRMED" || str_eq type "ORDER_COMPLETED") ≡ true
    → (type ≡ "ORDER_CONFIRMED") ⊎ (type ≡ "ORDER_COMPLETED")
asked-type type h = elim (Bool-cases (str_eq type "ORDER_CONFIRMED")) [
  | inl e ↦ inl (ground (arith, eq_iff type "ORDER_CONFIRMED"))
  | inr e ↦ inr (ground (arith, eq_iff type "ORDER_COMPLETED"))
]

-- An event of the web socket either asks for the order once, its type then being that of a
-- confirmed or completed order and its payload naming the id shown, which is not empty, or changes
-- nothing.
pub handle_status_update-asks :
    (type : String) (id camel_id : Option String) (s : Hook)
    → ((first_id id camel_id ≡ some s.order_id)
        × (s.order_id ≢ "")
        × ((type ≡ "ORDER_CONFIRMED") ⊎ (type ≡ "ORDER_COMPLETED"))
        × (handle_status_update type id camel_id s
            ≡ record s { requested = s.requested ++ s.order_id ∷ [] }))
      ⊎ (handle_status_update type id camel_id s ≡ s)
unfolding handle_status_update
handle_status_update-asks type id camel_id s = elim (Option-cases (first_id id camel_id)) [
  | inl e ↦ inr (ground arith)
  | inr (k, e) ↦ elim (Bool-cases (truthy k && str_eq k s.order_id)) [
    | inr other ↦ inr (ground arith)
    | inl same ↦
        elim (Bool-cases (str_eq type "ORDER_CONFIRMED" || str_eq type "ORDER_COMPLETED")) [
          | inr quiet ↦ inr (ground arith)
          | inl asks ↦
              let known : k ≡ s.order_id = ground (arith, eq_iff k s.order_id) in
              inl
                (e ∙ ap some known, ground (arith, eq_iff k ""), asked-type type asks, ground arith)
        ]
  ]
]
