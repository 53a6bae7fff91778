-- ===== src/WebSocket/Listeners/Refine.antt =====
-- The manager's subscriptions as a table: an abstract specification that `on`, `off` and `disconnect`
-- implement, and every other event leaves alone.
use mmn_tx_explorer.Base.{
  ℕ, String, ◌&&◌, Option, List, [], ◌∷◌, ◌≡◌, ◌∙◌, refl, ap, subst, sym, arith, ◌==◌,
  if◌then◌else◌, str_eq,
}
use mmn_tx_explorer.WebSocket.Value.{Value}
use mmn_tx_explorer.WebSocket.Manager.{State, Env, initial, on, off, listeners_of}
use mmn_tx_explorer.WebSocket.Events.{
  Event, connect_call, socket_open, socket_close, socket_error, heartbeat_interval,
  deadline_interval, message, subscribe, unsubscribe, send_call, disconnect_call, set_handler, step,
  run,
}
use mmn_tx_explorer.WebSocket.Listeners.{
  subscribed, IsSetMap, subscribed-on, subscribed-off, on-IsSetMap, off-IsSetMap,
}
use mmn_tx_explorer.WebSocket.Listeners.Keeps.{
  Keeps, connect-Keeps, on_open-Keeps, on_close-Keeps, heartbeat_tick-Keeps, deadline_tick-Keeps,
  on_error-Keeps, set_token_expired_handler-Keeps, on_message-Keeps, send_raw-Keeps,
  disconnect-clears,
}

-- How often an event of a type reaches a callback: once or not at all.
abbrev pub Table : Type 0
Table = String → ℕ → ℕ

-- The table with one entry set.
abbrev pub set_entry : String → ℕ → ℕ → Table → Table
set_entry t cb n f = λ s c. if str_eq t s && c == cb then n else f s c

-- What an event does to the table.
abbrev pub replay_step : Event → Table → Table
replay_step (subscribe t cb) f = set_entry t cb 1 f
replay_step (unsubscribe t cb) f = set_entry t cb 0 f
replay_step disconnect_call f = λ s c. 0
replay_step e f = f

abbrev pub replay : List (Env × Event) → Table → Table
replay [] f = f
replay ((env, e) ∷ es) f = replay es (replay_step e f)

-- The state's listeners are sets and read as the table.
pub record Refines (m : State) (f : Table) : Type 0 where
  pub sets : IsSetMap m.listeners
  pub reads : (s : String) (c : ℕ) → subscribed s c m.listeners ≡ f s c

Keeps-Refines : {m m' : State} (f : Table) → Keeps m m' → Refines m f → Refines m' f
Keeps-Refines f k h = record {
  sets = subst IsSetMap (sym k) h.sets;
  reads = λ s c. ap (subscribed s c) k ∙ h.reads s c;
}

on-Refines :
    (t : String) (cb : ℕ) (m : State) (f : Table)
    → Refines m f
    → Refines (on t cb m) (set_entry t cb 1 f)
on-Refines t cb m f h = record {
  sets = on-IsSetMap t cb m h.sets;
  reads = λ s c.
      subscribed-on t cb m s c h.sets
      ∙ ap (λ n. if str_eq t s && c == cb then 1 else n) (h.reads s c);
}

off-Refines :
    (t : String) (cb : ℕ) (m : State) (f : Table)
    → Refines m f
    → Refines (off t cb m) (set_entry t cb 0 f)
off-Refines t cb m f h = record {
  sets = off-IsSetMap t cb m h.sets;
  reads = λ s c.
      subscribed-off t cb m s c ∙ ap (λ n. if str_eq t s && c == cb then 0 else n) (h.reads s c);
}

nothing-Refines : (m : State) → m.listeners ≡ [] → Refines m (λ s c. 0)
unfolding listeners_of
nothing-Refines m h = record {
  sets = subst IsSetMap (sym h) (record { once = λ s c. omega arith });
  reads = λ s c. ap (subscribed s c) h;
}

pub initial-Refines : Refines initial (λ s c. 0)
initial-Refines = nothing-Refines initial refl

module _ (connect_url : String → String) (json_parse : String → Option Value) where
  step-Refines :
      (env : Env) (e : Event) (m : State) (f : Table)
      → Refines m f
      → Refines (step connect_url json_parse env e m) (replay_step e f)
  unfolding step
  step-Refines env (connect_call token answer stored) m f h =
      Keeps-Refines f (connect-Keeps connect_url env token answer stored m) h
  step-Refines env socket_open m f h = Keeps-Refines f (on_open-Keeps env m) h
  step-Refines env socket_close m f h = Keeps-Refines f (on_close-Keeps m) h
  step-Refines env socket_error m f h = Keeps-Refines f (on_error-Keeps m) h
  step-Refines env heartbeat_interval m f h = Keeps-Refines f (heartbeat_tick-Keeps env m) h
  step-Refines env deadline_interval m f h = Keeps-Refines f (deadline_tick-Keeps env m) h
  step-Refines env (message d) m f h = Keeps-Refines f (on_message-Keeps json_parse env d m) h
  step-Refines env (subscribe t cb) m f h = on-Refines t cb m f h
  step-Refines env (unsubscribe t cb) m f h = off-Refines t cb m f h
  step-Refines env (send_call msg) m f h = Keeps-Refines f (send_raw-Keeps env msg m) h
  step-Refines env disconnect_call m f h = nothing-Refines _ (disconnect-clears m)
  step-Refines env set_handler m f h = Keeps-Refines f (set_token_expired_handler-Keeps m) h

  -- Whatever the browser and the callers do, in whatever order, the manager's listeners read as the
  -- replay of the calls of `on`, `off` and `disconnect` on a table of subscriptions, and they stay
  -- sets, where they did so at the start.
  pub run-Refines :
      (es : List (Env × Event)) (m : State) (f : Table)
      → Refines m f
      → Refines (run connect_url json_parse es m) (replay es f)
  unfolding run
  run-Refines [] m f h = h
  run-Refines ((env, e) ∷ es) m f h =
      run-Refines es (step connect_url json_parse env e m) (replay_step e f)
        (step-Refines env e m f h)
