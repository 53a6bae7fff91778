-- ===== src/Hooks/Refresh/Mounted.antt =====
-- What the hooks of Hooks.Refresh hear of the manager of the web socket.
use mmn_tx_explorer.Base.{
  ℕ, ◌+◌, String, Bool, true, false, ◌&&◌, some, List, [], ◌∷◌, ◌≡◌, refl, arith, ◌==◌, ==_iff,
  if◌then◌else◌, eq_iff, includes,
}
use mmn_tx_explorer.WebSocket.Value.{Value, event_type}
use mmn_tx_explorer.WebSocket.Manager.{State, on, off, handle_event}
use mmn_tx_explorer.WebSocket.Listeners.{
  subscribed, IsSetMap, subscribed-on, subscribed-off, on-IsSetMap, heard, heard-handle_event,
}
use mmn_tx_explorer.Hooks.Refresh.{
  ListHook, p2p_offers, my_offers, my_orders, created_envelopes, event_types, on_all, off_all,
  listen, unlisten,
}

on_all-IsSetMap :
    (ts : List String) (cb : ℕ) (m : State)
    → IsSetMap m.listeners
    → IsSetMap (on_all ts cb m).listeners
on_all-IsSetMap [] cb m h = h
on_all-IsSetMap (t ∷ ts) cb m h = on_all-IsSetMap ts cb (on t cb m) (on-IsSetMap t cb m h)

subscribed-on_all :
    (ts : List String) (cb : ℕ) (m : State) (s : String) (c : ℕ)
    → IsSetMap m.listeners
    → subscribed s c (on_all ts cb m).listeners
      ≡ (if includes s ts && c == cb then 1 else subscribed s c m.listeners)
subscribed-on_all [] cb m s c h = ground arith
subscribed-on_all (t ∷ ts) cb m s c h = ground (
  arith,
  subscribed-on_all ts cb (on t cb m) s c (on-IsSetMap t cb m h),
  subscribed-on t cb m s c h,
  eq_iff t s,
  eq_iff s t,
)

subscribed-off_all :
    (ts : List String) (cb : ℕ) (m : State) (s : String) (c : ℕ)
    → subscribed s c (off_all ts cb m).listeners
      ≡ (if includes s ts && c == cb then 0 else subscribed s c m.listeners)
subscribed-off_all [] cb m s c = ground arith
subscribed-off_all (t ∷ ts) cb m s c = ground (
  arith,
  subscribed-off_all ts cb (off t cb m) s c,
  subscribed-off t cb m s c,
  eq_iff t s,
  eq_iff s t,
)

-- The types are neither empty nor "*".
named :
    (hook : ListHook)
    → (includes "*" (event_types hook) ≡ false) × (includes "" (event_types hook) ≡ false)
named p2p_offers = (refl, refl)
named my_offers = (refl, refl)
named my_orders = (refl, refl)
named created_envelopes = (refl, refl)

-- Where the handler stands nowhere in the manager before, an event with a type reaches it once while
-- the hook is mounted, if the type is one of the hook's, and else not at all; after unmounting no
-- event with a type reaches it.
pub heard-listen :
    (hook : ListHook) (cb : ℕ) (v : Value) (type : String) (m : State)
    → IsSetMap m.listeners
    → event_type v ≡ some type
    → ((t : String) → subscribed t cb m.listeners ≡ 0)
    → (heard cb (handle_event v (listen hook true cb m)).trace
        ≡ heard cb (listen hook true cb m).trace
          + (if includes type (event_types hook) then 1 else 0))
      × (heard cb (handle_event v (unlisten hook true cb (listen hook true cb m))).trace
          ≡ heard cb (unlisten hook true cb (listen hook true cb m)).trace)
unfolding listen unlisten
heard-listen hook cb v type m h e free =
    let shown = on_all (event_types hook) cb m in
    let gone = off_all (event_types hook) cb shown in
    ground (
      arith,
      heard-handle_event v cb shown,
      heard-handle_event v cb gone,
      subscribed-on_all (event_types hook) cb m type cb h,
      subscribed-on_all (event_types hook) cb m "*" cb h,
      subscribed-off_all (event_types hook) cb shown type cb,
      subscribed-off_all (event_types hook) cb shown "*" cb,
      named hook,
      free type,
      free "*",
      eq_iff type "",
      e,
    )

-- Where the handler stands nowhere in the manager before, unmounting the hook after mounting it
-- leaves every subscription as it was.
pub unlisten-listen :
    (hook : ListHook) (enabled : Bool) (cb : ℕ) (m : State)
    → IsSetMap m.listeners
    → ((t : String) → subscribed t cb m.listeners ≡ 0)
    → (s : String) (c : ℕ)
    → subscribed s c (unlisten hook enabled cb (listen hook enabled cb m)).listeners
      ≡ subscribed s c m.listeners
unfolding listen unlisten
unlisten-listen hook true cb m h free s c = ground (
  arith,
  subscribed-off_all (event_types hook) cb (on_all (event_types hook) cb m) s c,
  subscribed-on_all (event_types hook) cb m s c h,
  free s,
  ==_iff c cb,
)
unlisten-listen hook false cb m h free s c = refl
