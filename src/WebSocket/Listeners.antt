-- ===== src/WebSocket/Listeners.antt =====
-- Registration and dispatch of listeners: `on`, `off` and `handleEvent` of websocket-manager.ts.
pub mod Keeps
pub mod Refine
use mmn_tx_explorer.Base.{
  ℕ, ◌+◌, ◌≤◌, String, true, false, ◌&&◌, Option, none, some, List, [], ◌∷◌, ◌++◌, ◌≡◌, refl, ◌≢◌,
  inl, inr, arith, ◌==◌, ==_iff, if◌then◌else◌, str_eq, eq_iff, has, lookup, insert, lookup-insert,
  Option-cases,
}
use mmn_tx_explorer.WebSocket.Value.{Value, event_type}
use mmn_tx_explorer.WebSocket.Manager.{
  Effect, new_socket, close, send, set_interval, clear_interval, set_reconnect, call, State,
  listeners_of, add, delete, on, off, calls, targets, handle_event,
}

-- How often a callback stands in a list.
abbrev pub count : ℕ → List ℕ → ℕ
count c [] = 0
count c (d ∷ ds) = (if c == d then 1 else 0) + count c ds

count-append : (c : ℕ) (xs ys : List ℕ) → count c (xs ++ ys) ≡ count c xs + count c ys
count-append c [] ys = omega arith
count-append c (x ∷ xs) ys = omega (arith, count-append c xs ys)

pub count_of_not_has : (c : ℕ) (xs : List ℕ) → has c xs ≡ false → count c xs ≡ 0
count_of_not_has c [] h = refl
count_of_not_has c (x ∷ xs) h = ground (arith, count_of_not_has c xs)

pub le-count_of_has : (c : ℕ) (xs : List ℕ) → has c xs ≡ true → 1 ≤ count c xs
le-count_of_has c [] h = ground arith
le-count_of_has c (x ∷ xs) h = ground (arith, le-count_of_has c xs)

count-add :
    (c cb : ℕ) (cbs : List ℕ)
    → count cb cbs ≤ 1
    → count c (add cb cbs) ≡ (if c == cb then 1 else count c cbs)
count-add c cb cbs h = ground (
  arith,
  count-append c cbs (cb ∷ []),
  count_of_not_has cb cbs,
  le-count_of_has cb cbs,
  ==_iff c cb,
)

count-delete :
    (c cb : ℕ) (cbs : List ℕ) → count c (delete cb cbs) ≡ (if c == cb then 0 else count c cbs)
count-delete c cb [] = ground arith
count-delete c cb (d ∷ ds) = ground (arith, count-delete c cb ds)

-- The subscriptions as a function of the key and the callback.
abbrev pub subscribed : String → ℕ → List (String × List ℕ) → ℕ
subscribed t c ls = count c (listeners_of t ls)

-- Each `Set` holds a callback once at most.
pub record IsSetMap (ls : List (String × List ℕ)) : Type 0 where
  pub once : (t : String) (c : ℕ) → subscribed t c ls ≤ 1

listeners_of-insert :
    (k j : String) (cbs : List ℕ) (ls : List (String × List ℕ))
    → listeners_of j (insert k cbs ls) ≡ (if str_eq k j then cbs else listeners_of j ls)
unfolding listeners_of
listeners_of-insert k j cbs ls = ground (arith, lookup-insert k j cbs ls)

-- Registering sets the one subscription and leaves all others.
pub subscribed-on :
    (t : String) (cb : ℕ) (m : State) (s : String) (c : ℕ)
    → IsSetMap m.listeners
    → subscribed s c (on t cb m).listeners
      ≡ (if str_eq t s && c == cb then 1 else subscribed s c m.listeners)
unfolding on
subscribed-on t cb m s c h = ground (
  arith,
  listeners_of-insert t s (add cb (listeners_of t m.listeners)) m.listeners,
  count-add c cb (listeners_of t m.listeners),
  h.once t cb,
  eq_iff t s,
)

-- Removing clears the one subscription and leaves all others.
pub subscribed-off :
    (t : String) (cb : ℕ) (m : State) (s : String) (c : ℕ)
    → subscribed s c (off t cb m).listeners
      ≡ (if str_eq t s && c == cb then 0 else subscribed s c m.listeners)
unfolding off listeners_of
subscribed-off t cb m s c = elim (Option-cases (lookup t m.listeners)) [
  | inl missing ↦ ground (arith, eq_iff t s)
  | inr (cbs, found) ↦
      ground
        (arith, lookup-insert t s (delete cb cbs) m.listeners, count-delete c cb cbs, eq_iff t s)
]

pub on-IsSetMap :
    (t : String) (cb : ℕ) (m : State) → IsSetMap m.listeners → IsSetMap (on t cb m).listeners
on-IsSetMap t cb m h = record {
  once = λ s c. ground (arith, subscribed-on t cb m s c h, h.once s c);
}

pub off-IsSetMap :
    (t : String) (cb : ℕ) (m : State) → IsSetMap m.listeners → IsSetMap (off t cb m).listeners
off-IsSetMap t cb m h = record {
  once = λ s c. ground (arith, subscribed-off t cb m s c, h.once s c);
}

-- How often a callback is called in a trace.
unfoldable pub heard : ℕ → List Effect → ℕ
heard c [] = 0
heard c (new_socket id url ∷ es) = heard c es
heard c (close id ∷ es) = heard c es
heard c (send id msg ∷ es) = heard c es
heard c (set_interval id ms ∷ es) = heard c es
heard c (clear_interval id ∷ es) = heard c es
heard c (set_reconnect ms ∷ es) = heard c es
heard c (call d v ∷ es) = (if c == d then 1 else 0) + heard c es

heard-append : (c : ℕ) (xs ys : List Effect) → heard c (xs ++ ys) ≡ heard c xs + heard c ys
unfolding heard
heard-append c [] ys = omega arith
heard-append c (new_socket id url ∷ es) ys = heard-append c es ys
heard-append c (close id ∷ es) ys = heard-append c es ys
heard-append c (send id msg ∷ es) ys = heard-append c es ys
heard-append c (set_interval id ms ∷ es) ys = heard-append c es ys
heard-append c (clear_interval id ∷ es) ys = heard-append c es ys
heard-append c (set_reconnect ms ∷ es) ys = heard-append c es ys
heard-append c (call d v ∷ es) ys = omega (arith, heard-append c es ys)

heard-calls : (c : ℕ) (v : Value) (cbs : List ℕ) → heard c (calls v cbs) ≡ count c cbs
unfolding heard calls
heard-calls c v [] = refl
heard-calls c v (d ∷ ds) = omega (arith, heard-calls c v ds)

-- How often an event reaches a callback by its own type: not at all without a type, or under the
-- empty one.
abbrev pub by_type : Option String → ℕ → List (String × List ℕ) → ℕ
by_type none c ls = 0
by_type (some t) c ls = if str_eq t "" then 0 else subscribed t c ls

pub count-targets :
    (v : Value) (c : ℕ) (ls : List (String × List ℕ))
    → count c (targets v ls) ≡ by_type (event_type v) c ls + subscribed "*" c ls
unfolding targets
count-targets v c ls = elim (Option-cases (event_type v)) [
  | inl e ↦ rw e (omega arith)
  | inr (t, e) ↦ rw e (ground (arith, count-append c (listeners_of t ls) (listeners_of "*" ls)))
]

-- An event calls each callback as often as it is listed under the event's type and under "*"
-- together, where an event without a type or with the empty one counts under "*" alone, and it
-- leaves the subscriptions as they are.
pub heard-handle_event :
    (v : Value) (c : ℕ) (m : State)
    → (heard c (handle_event v m).trace
        ≡ heard c m.trace + by_type (event_type v) c m.listeners + subscribed "*" c m.listeners)
      × ((handle_event v m).listeners ≡ m.listeners)
unfolding handle_event
heard-handle_event v c m = ground (
  arith,
  heard-append c m.trace (calls v (targets v m.listeners)),
  heard-calls c v (targets v m.listeners),
  count-targets v c m.listeners,
)

-- Where no callback is listed twice under a type, a callback that is registered twice under a type
-- (neither empty nor "*") and not under "*" is called exactly once by an event of that type; once
-- it is removed, such an event no longer calls it.
pub heard-on-off :
    (t : String) (cb : ℕ) (v : Value) (m : State)
    → IsSetMap m.listeners
    → event_type v ≡ some t
    → t ≢ ""
    → t ≢ "*"
    → subscribed "*" cb m.listeners ≡ 0
    → (heard cb (handle_event v (on t cb (on t cb m))).trace
        ≡ heard cb (on t cb (on t cb m)).trace + 1)
      × (heard cb (handle_event v (off t cb (on t cb m))).trace
          ≡ heard cb (off t cb (on t cb m)).trace)
heard-on-off t cb v m h e nonempty nonstar free = ground (
  arith,
  heard-handle_event v cb (on t cb (on t cb m)),
  heard-handle_event v cb (off t cb (on t cb m)),
  subscribed-on t cb (on t cb m) t cb (on-IsSetMap t cb m h),
  subscribed-on t cb (on t cb m) "*" cb (on-IsSetMap t cb m h),
  subscribed-on t cb m "*" cb h,
  subscribed-off t cb (on t cb m) t cb,
  subscribed-off t cb (on t cb m) "*" cb,
  eq_iff t "",
  eq_iff t "*",
  eq_iff t t,
  e,
)
