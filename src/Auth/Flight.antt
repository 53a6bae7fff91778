-- ===== src/Auth/Flight.antt =====
-- `AuthenticationService.refreshLogin` (frontend/modules/auth/api.ts) under concurrent callers: the
-- calls and the settling of the request come in any order. Callers are numbered.
use mmn_tx_explorer.Base.{
  ℕ, ◌+◌, ◌≤◌, String, Bool, true, false, Option, none, some, List, [], ◌∷◌, ◌++◌, ◌≡◌, refl, arith,
  append-nil, length, length-append, append_assoc, sym, ap, ◌∙◌, Option-cases, inl, inr,
}
use mmn_tx_explorer.Auth.Storage.{
  Storage, Tokens, Json, store_tokens, stored_tokens, stored_tokens-store_tokens,
}

-- `refresh_promise` holds the callers that await it.
pub record Flight : Type 0 where
  pub refresh_promise : Option (List ℕ)
  pub posted : List (Option String)
  pub storage : Storage
  -- What each caller got, none for a rejection.
  pub answers : List (ℕ × Option Tokens)

unfoldable pub refresh_login : ℕ → Option String → Flight → Flight
refresh_login caller refresh_token s = elim s.refresh_promise [
  | some waiting ↦ record s { refresh_promise = some (waiting ++ caller ∷ []) }
  | none ↦ record s {
    refresh_promise = some (caller ∷ []);
    posted = s.posted ++ refresh_token ∷ [];
  }
]

-- `!!this.refreshPromise`
unfoldable pub get_is_refreshing : Flight → Bool
get_is_refreshing s = elim s.refresh_promise [ none ↦ false | some waiting ↦ true ]

abbrev answer_all : Option Tokens → List ℕ → List (ℕ × Option Tokens)
answer_all reply [] = []
answer_all reply (c ∷ cs) = (c, reply) ∷ answer_all reply cs

unfoldable pub settle : Json → Option Tokens → Flight → Flight
settle json reply s = elim s.refresh_promise [
  | none ↦ s
  | some waiting ↦ record s {
    refresh_promise = none;
    storage = elim reply [ none ↦ s.storage | some t ↦ store_tokens json t s.storage ];
    answers = s.answers ++ answer_all reply waiting;
  }
]

pub data FlightEvent : Type 0 where
  call : ℕ → Option String → FlightEvent
  reply : Option Tokens → FlightEvent

unfoldable pub flight_step : Json → FlightEvent → Flight → Flight
unfolding refresh_login settle
flight_step json (call caller token) s = refresh_login caller token s
flight_step json (reply r) s = settle json r s

unfoldable pub flight_run : Json → List FlightEvent → Flight → Flight
unfolding flight_step
flight_run json [] s = s
flight_run json (e ∷ es) s = flight_run json es (flight_step json e s)

abbrev pub idle : Storage → Flight
idle storage = record { refresh_promise = none; posted = []; storage = storage; answers = [] }

abbrev pub waiting_of : Option (List ℕ) → List ℕ
waiting_of none = []
waiting_of (some cs) = cs

abbrev pub in_flight : Option (List ℕ) → ℕ
in_flight none = 0
in_flight (some cs) = 1

-- Who calls, and how many requests are answered.
abbrev pub callers_of : List FlightEvent → List ℕ
callers_of [] = []
callers_of (call c t ∷ es) = c ∷ callers_of es
callers_of (reply r ∷ es) = callers_of es

abbrev pub replies_of : List FlightEvent → ℕ
replies_of [] = 0
replies_of (call c t ∷ es) = replies_of es
replies_of (reply r ∷ es) = 1 + replies_of es

-- Who was answered.
abbrev pub answered_of : List (ℕ × Option Tokens) → List ℕ
answered_of [] = []
answered_of ((c, r) ∷ ps) = c ∷ answered_of ps

answered_of-append :
    (ps bs : List (ℕ × Option Tokens)) → answered_of (ps ++ bs) ≡ answered_of ps ++ answered_of bs
answered_of-append [] bs = refl
answered_of-append ((c, r) ∷ ps) bs = ap (λ cs. c ∷ cs) (answered_of-append ps bs)

answered_of-answer_all : (r : Option Tokens) (cs : List ℕ) → answered_of (answer_all r cs) ≡ cs
answered_of-answer_all r [] = refl
answered_of-answer_all r (c ∷ cs) = ap (λ ds. c ∷ ds) (answered_of-answer_all r cs)

-- The callers that were answered, and then those that wait.
abbrev pub served : Flight → List ℕ
served s = answered_of s.answers ++ waiting_of s.refresh_promise

-- A call adds its caller at the end, a reply changes none.
served-call :
    (c : ℕ) (t : Option String) (s : Flight) → served (refresh_login c t s) ≡ served s ++ c ∷ []
unfolding refresh_login
served-call c t s = elim (Option-cases s.refresh_promise) [
  | inl e ↦
      rw (refresh_login, e) (ap (λ cs. cs ++ c ∷ []) (sym (append-nil (answered_of s.answers))))
  | inr (cs, e) ↦ rw (refresh_login, e) (sym (append_assoc (answered_of s.answers) cs (c ∷ [])))
]

served-reply : (json : Json) (r : Option Tokens) (s : Flight) → served (settle json r s) ≡ served s
unfolding settle
served-reply json r s = elim (Option-cases s.refresh_promise) [
  | inl e ↦ let same : settle json r s ≡ s = ground arith in ap served same
  | inr (cs, e) ↦
      rw (settle, e)
        (append-nil (answered_of (s.answers ++ answer_all r cs))
          ∙ answered_of-append s.answers (answer_all r cs)
          ∙ ap (λ ds. answered_of s.answers ++ ds) (answered_of-answer_all r cs))
]

run-served :
    (json : Json) (es : List FlightEvent) (s : Flight)
    → served (flight_run json es s) ≡ served s ++ callers_of es
unfolding flight_run flight_step
run-served json [] s = sym (append-nil (served s))
run-served json (call c t ∷ es) s =
    run-served json es (refresh_login c t s)
    ∙ ap (λ cs. cs ++ callers_of es) (served-call c t s)
    ∙ append_assoc (served s) (c ∷ []) (callers_of es)
run-served json (reply r ∷ es) s =
    run-served json es (settle json r s) ∙ ap (λ cs. cs ++ callers_of es) (served-reply json r s)

step-posted :
    (json : Json) (e : FlightEvent) (s : Flight)
    → let s' = flight_step json e s in
      (length s.posted + in_flight s'.refresh_promise
        ≤ length s'.posted + in_flight s.refresh_promise)
      × (length s'.posted + in_flight s.refresh_promise
          ≤ length s.posted + in_flight s'.refresh_promise + replies_of (e ∷ []))
unfolding flight_step
step-posted json (call c t) s = elim (Option-cases s.refresh_promise) [
  | inl e ↦ ground (arith, length-append s.posted (t ∷ []))
  | inr (cs, e) ↦ ground arith
]
step-posted json (reply r) s = elim (Option-cases s.refresh_promise) [
  | inl e ↦ ground arith
  | inr (cs, e) ↦ ground arith
]

run-posted :
    (json : Json) (es : List FlightEvent) (s : Flight)
    → let s' = flight_run json es s in
      length s'.posted + in_flight s.refresh_promise
      ≤ length s.posted + in_flight s'.refresh_promise + replies_of es
unfolding flight_run
run-posted json [] s = omega arith
run-posted json (call c t ∷ es) s =
    let s' = flight_step json (call c t) s in
    omega (arith, run-posted json es s', step-posted json (call c t) s)
run-posted json (reply r ∷ es) s =
    let s' = flight_step json (reply r) s in
    omega (arith, run-posted json es s', step-posted json (reply r) s)

in_flight-le : (p : Option (List ℕ)) → in_flight p ≤ 1
in_flight-le none = omega arith
in_flight-le (some cs) = omega arith

-- However the calls and the replies interleave, at most one request more is posted than replies came
-- in, and the callers that were answered, each once for each of its calls and in the order of the
-- calls, followed by those that wait for the request in flight, are all the callers.
pub flight_run-shares :
    (json : Json) (es : List FlightEvent) (storage : Storage)
    → let s = flight_run json es (idle storage) in
      (length s.posted ≤ replies_of es + 1)
      × (answered_of s.answers ++ waiting_of s.refresh_promise ≡ callers_of es)
flight_run-shares json es storage =
    let s = flight_run json es (idle storage) in
    (
      omega (arith, run-posted json es (idle storage), in_flight-le s.refresh_promise),
      run-served json es (idle storage),
    )

-- Where no refresh is in flight, two callers in a row post one request; a successful reply goes to
-- both in the order of their calls, ends the flight and stores the new tokens so that they are read
-- back.
pub settle-shares :
    (json : Json) (first second : ℕ) (a b : Option String) (t : Tokens) (s : Flight)
    → s.refresh_promise ≡ none
    → let waiting = refresh_login second b (refresh_login first a s) in
      let done = settle json (some t) waiting in
      (waiting.posted ≡ s.posted ++ a ∷ [])
      × (done.answers ≡ s.answers ++ (first, some t) ∷ (second, some t) ∷ [])
      × (get_is_refreshing waiting ≡ true)
      × (get_is_refreshing done ≡ false)
      × (stored_tokens json done.storage
          ≡ some
              (record { access_token = some t.access_token; refresh_token = some t.refresh_token }))
unfolding refresh_login settle get_is_refreshing
settle-shares json first second a b t s free = (
  ground arith,
  ground arith,
  ground arith,
  ground arith,
  rw free (stored_tokens-store_tokens json t s.storage),
)
