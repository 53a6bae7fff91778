-- ===== src/WebSocket/Timers.antt =====
-- The interval timers of WebSocketManager: what each part of a method sets and clears.
pub mod Runs
use mmn_tx_explorer.Base.{
  ℕ, ◌+◌, ◌≤◌, String, Bool, true, false, Option, none, some, List, [], ◌∷◌, ◌++◌, ◌≡◌, refl, arith,
  ◌==◌, ◌∙◌, if◌then◌else◌, Option-cases, if_either, ◌&&◌, ltb, lookup, inl, inr,
}
use mmn_tx_explorer.WebSocket.Value.{Value}
use mmn_tx_explorer.WebSocket.Manager.{
  Effect, new_socket, close, send, set_interval, clear_interval, set_reconnect, call, State, Env,
  Outcome, stop_heartbeat, start_heartbeat, stop_deadline_checker, start_deadline_checker, calls,
  targets, handle_event, on, off, send_raw, heartbeat_tick, attempt_reconnect, drop_socket,
  leave_socket, force_reconnect, deadline_tick, retire, open_socket, connect_with, connect, serves,
  on_open, on_close, on_error, disconnect, on_message, or_data, parse_data, parse_payload,
  active_token, is_ack, is_connected, set_token_expired_handler, initial,
}

abbrev pub hit : ℕ → ℕ → ℕ
hit n k = if n == k then 1 else 0

-- How often a timer was set, and how often it was cleared.
unfoldable pub sets : ℕ → List Effect → ℕ
sets n [] = 0
sets n (new_socket id url ∷ es) = sets n es
sets n (close id ∷ es) = sets n es
sets n (send id msg ∷ es) = sets n es
sets n (set_interval id ms ∷ es) = hit n id + sets n es
sets n (clear_interval id ∷ es) = sets n es
sets n (set_reconnect ms ∷ es) = sets n es
sets n (call d v ∷ es) = sets n es

unfoldable pub clears : ℕ → List Effect → ℕ
clears n [] = 0
clears n (new_socket id url ∷ es) = clears n es
clears n (close id ∷ es) = clears n es
clears n (send id msg ∷ es) = clears n es
clears n (set_interval id ms ∷ es) = clears n es
clears n (clear_interval id ∷ es) = hit n id + clears n es
clears n (set_reconnect ms ∷ es) = clears n es
clears n (call d v ∷ es) = clears n es

abbrev pub held_by : ℕ → Option ℕ → ℕ
held_by n none = 0
held_by n (some id) = hit n id

-- The timers that the fields hold.
abbrev pub held : ℕ → State → ℕ
held n m = held_by n m.heartbeat_interval_id + held_by n m.deadline_check_interval_id

-- Every timer that was ever set is cleared, or held by one of the two fields.
pub record IsAccounted (m : State) : Type 0 where
  pub balance : (n : ℕ) → sets n m.trace ≡ clears n m.trace + held n m

pub sets-append : (n : ℕ) (xs ys : List Effect) → sets n (xs ++ ys) ≡ sets n xs + sets n ys
unfolding sets
sets-append n [] ys = omega arith
sets-append n (set_interval id ms ∷ es) ys = omega (arith, sets-append n es ys)
sets-append n (_ ∷ es) ys = sets-append n es ys

pub clears-append : (n : ℕ) (xs ys : List Effect) → clears n (xs ++ ys) ≡ clears n xs + clears n ys
unfolding clears
clears-append n [] ys = omega arith
clears-append n (clear_interval id ∷ es) ys = omega (arith, clears-append n es ys)
clears-append n (_ ∷ es) ys = clears-append n es ys

pub quiet-calls :
    (n : ℕ) (v : Value) (cbs : List ℕ) → (sets n (calls v cbs) ≡ 0) × (clears n (calls v cbs) ≡ 0)
unfolding calls sets clears
quiet-calls n v [] = (refl, refl)
quiet-calls n v (c ∷ cs) = quiet-calls n v cs

-- An effect that is appended changes the balance by what it sets and clears.
sets-emit :
    (n : ℕ) (es : List Effect) (e : Effect) → sets n (es ++ e ∷ []) ≡ sets n es + sets n (e ∷ [])
sets-emit n es e = sets-append n es (e ∷ [])

clears-emit :
    (n : ℕ) (es : List Effect) (e : Effect)
    → clears n (es ++ e ∷ []) ≡ clears n es + clears n (e ∷ [])
clears-emit n es e = clears-append n es (e ∷ [])

pub stop_heartbeat-IsAccounted : (m : State) → IsAccounted m → IsAccounted (stop_heartbeat m)
unfolding stop_heartbeat sets clears
stop_heartbeat-IsAccounted m h = elim (Option-cases m.heartbeat_interval_id) [
  | inl e ↦ record { balance = λ n. ground (arith, h.balance n) }
  | inr (id, e) ↦ record {
    balance = λ n. ground (
      arith,
      h.balance n,
      sets-emit n m.trace (clear_interval id),
      clears-emit n m.trace (clear_interval id),
    );
  }
]

pub stop_deadline_checker-IsAccounted :
    (m : State) → IsAccounted m → IsAccounted (stop_deadline_checker m)
unfolding stop_deadline_checker sets clears
stop_deadline_checker-IsAccounted m h = elim (Option-cases m.deadline_check_interval_id) [
  | inl e ↦ record { balance = λ n. ground (arith, h.balance n) }
  | inr (id, e) ↦ record {
    balance = λ n. ground (
      arith,
      h.balance n,
      sets-emit n m.trace (clear_interval id),
      clears-emit n m.trace (clear_interval id),
    );
  }
]

stop_heartbeat-none : (m : State) → (stop_heartbeat m).heartbeat_interval_id ≡ none
unfolding stop_heartbeat
stop_heartbeat-none m = ground arith

stop_deadline_checker-none :
    (m : State) → (stop_deadline_checker m).deadline_check_interval_id ≡ none
unfolding stop_deadline_checker
stop_deadline_checker-none m = ground arith

-- The second state has the first one's timers, and its trace sets and clears no more of them.
pub record Alike (m m' : State) : Type 0 where
  pub heartbeat : m'.heartbeat_interval_id ≡ m.heartbeat_interval_id
  pub deadline : m'.deadline_check_interval_id ≡ m.deadline_check_interval_id
  pub same_sets : (n : ℕ) → sets n m'.trace ≡ sets n m.trace
  pub same_clears : (n : ℕ) → clears n m'.trace ≡ clears n m.trace

pub Alike-IsAccounted : {m m' : State} → Alike m m' → IsAccounted m → IsAccounted m'
Alike-IsAccounted a h = record {
  balance =
      λ n. ground (arith, h.balance n, a.same_sets n, a.same_clears n, a.heartbeat, a.deadline);
}

pub start_heartbeat-IsAccounted :
    (env : Env) (m : State) → IsAccounted m → IsAccounted (start_heartbeat env m)
unfolding start_heartbeat sets clears
start_heartbeat-IsAccounted env m h = record {
  balance = λ n. ground (
    arith,
    (stop_heartbeat-IsAccounted m h).balance n,
    stop_heartbeat-none m,
    sets-emit n (stop_heartbeat m).trace (set_interval (stop_heartbeat m).next_id 30000),
    clears-emit n (stop_heartbeat m).trace (set_interval (stop_heartbeat m).next_id 30000),
  );
}

pub start_deadline_checker-IsAccounted :
    (m : State) → IsAccounted m → IsAccounted (start_deadline_checker m)
unfolding start_deadline_checker sets clears
start_deadline_checker-IsAccounted m h = record {
  balance = λ n. ground (
    arith,
    (stop_deadline_checker-IsAccounted m h).balance n,
    stop_deadline_checker-none m,
    sets-emit n (stop_deadline_checker m).trace
        (set_interval (stop_deadline_checker m).next_id 1000),
    clears-emit n (stop_deadline_checker m).trace
        (set_interval (stop_deadline_checker m).next_id 1000),
  );
}

pub send_raw-Alike : (env : Env) (msg : String) (m : State) → Alike m (send_raw env msg m).0
unfolding send_raw sets clears
send_raw-Alike env msg m = elim (Option-cases m.ws) [
  | inl e ↦ ground arith
  | inr (id, e) ↦ record {
    heartbeat = ground arith;
    deadline = ground arith;
    same_sets = λ n. ground (arith, sets-emit n m.trace (send id msg));
    same_clears = λ n. ground (arith, clears-emit n m.trace (send id msg));
  }
]

pub drop_socket-Alike : (m : State) → Alike m (drop_socket m)
unfolding drop_socket sets clears
drop_socket-Alike m = elim (Option-cases m.ws) [
  | inl e ↦ ground arith
  | inr (id, e) ↦ record {
    heartbeat = ground arith;
    deadline = ground arith;
    same_sets = λ n. ground (arith, sets-emit n m.trace (close id));
    same_clears = λ n. ground (arith, clears-emit n m.trace (close id));
  }
]

pub attempt_reconnect-Alike : (m : State) → Alike m (attempt_reconnect m)
unfolding attempt_reconnect sets clears
attempt_reconnect-Alike m = record {
  heartbeat = ground arith;
  deadline = ground arith;
  same_sets = λ n. ground (arith, sets-emit n m.trace (set_reconnect 3000));
  same_clears = λ n. ground (arith, clears-emit n m.trace (set_reconnect 3000));
}

pub retire-Alike : (t : String) (m : State) → Alike m (retire t m)
unfolding retire sets clears
retire-Alike t m = elim (Option-cases m.ws) [
  | inl e ↦ ground arith
  | inr (id, e) ↦ record {
    heartbeat = ground arith;
    deadline = ground arith;
    same_sets = λ n. ground (arith, sets-emit n m.trace (close id));
    same_clears = λ n. ground (arith, clears-emit n m.trace (close id));
  }
]

pub open_socket-Alike :
    (url : String → String) (t : String) (m : State) → Alike m (open_socket url t m)
unfolding open_socket sets clears
open_socket-Alike url t m = record {
  heartbeat = refl;
  deadline = refl;
  same_sets = λ n. ground (arith, sets-emit n m.trace (new_socket m.next_id (url t)));
  same_clears = λ n. ground (arith, clears-emit n m.trace (new_socket m.next_id (url t)));
}

pub handle_event-Alike : (v : Value) (m : State) → Alike m (handle_event v m)
unfolding handle_event
handle_event-Alike v m =
    let cbs = targets v m.listeners in
    record {
      heartbeat = refl;
      deadline = refl;
      same_sets = λ n. ground (arith, sets-append n m.trace (calls v cbs), quiet-calls n v cbs);
      same_clears = λ n. ground (arith, clears-append n m.trace (calls v cbs), quiet-calls n v cbs);
    }

pub leave_socket-Alike : (m : State) → Alike m (leave_socket m)
unfolding leave_socket sets clears
leave_socket-Alike m = elim (Option-cases m.ws) [
  | inl e ↦ ground arith
  | inr (id, e) ↦ record {
    heartbeat = ground arith;
    deadline = ground arith;
    same_sets = λ n. ground (arith, sets-emit n m.trace (close id));
    same_clears = λ n. ground (arith, clears-emit n m.trace (close id));
  }
]
