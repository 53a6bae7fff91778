-- ===== src/Auth/Service.antt =====
-- The client apiDongClient with its two interceptors (frontend/service/index.ts) and the refresh
-- that it asks for (frontend/modules/auth/api.ts), for one request at a time. The servers are
-- parameters: how the n-th request and the n-th refresh are answered.
pub mod Retry
use Prim.Native.String.{◌++◌ as concat}
use mmn_tx_explorer.Base.{
  ℕ, zero, suc, ◌+◌, String, Bool, true, false, ◌&&◌, not, Option, none, some, List, [], ◌∷◌, ◌++◌,
  ◌==◌, if◌then◌else◌, length, truthy,
}
use mmn_tx_explorer.Auth.Storage.{
  Storage, Tokens, TokenData, Json, stored_tokens, store_tokens, clear_auth_storage,
}

pub record Request : Type 0 where
  -- `config.meta.authOptional === true`
  pub auth_optional : Bool
  pub retry : Bool
  pub authorization : Option String

pub data Reply : Type 0 where
  success : ℕ → Reply
  -- A failure with the status of its response, if there is one.
  failure : Option ℕ → Reply

pub data Result : Type 0 where
  resolved : ℕ → Result
  rejected : Option ℕ → Result
  session_lost : Result

pub record World : Type 0 where
  pub storage : Storage
  pub sent : List (Option String)
  pub refreshed : List (Option String)
  pub has_handler : Bool
  pub expired : ℕ

unfoldable pub bearer : String → String
bearer token = concat "Bearer " token

-- `${newTokenData.access_token}`: a missing field prints as "undefined".
abbrev pub shown : Option String → String
shown none = "undefined"
shown (some s) = s

-- `if (tokenData?.access_token)`
abbrev pub with_token : Option TokenData → Request → Request
with_token none r = r
with_token (some d) r = elim d.access_token [
  | none ↦ r
  | some t ↦ if truthy t then record r { authorization = some (bearer t) } else r
]

abbrev pub refresh_token_of : Option TokenData → Option String
refresh_token_of none = none
refresh_token_of (some d) = d.refresh_token

abbrev pub is_unauthorized : Option ℕ → Bool
is_unauthorized none = false
is_unauthorized (some status) = status == 401

unfoldable pub request_interceptor : Json → Request → World → Request
request_interceptor json r w =
    if r.auth_optional then r else with_token (stored_tokens json w.storage) r

-- The `catch` of the response interceptor.
unfoldable pub lose_session : World → World
lose_session w = record w {
  storage = clear_auth_storage w.storage;
  expired = if w.has_handler then w.expired + 1 else w.expired;
}

abbrev pub Server : Type 0
Server = ℕ → Option String → Reply

abbrev pub Refresher : Type 0
Refresher = ℕ → Option String → Option Tokens

module _ (json : Json) (serve : Server) (refresh : Refresher) where
  -- `authClient.post(REFRESH, …)` and, on success, the storing of the new tokens.
  unfoldable pub refresh_login : Option String → World → Option Tokens × World
  refresh_login token w =
      let asked : World = record w { refreshed = w.refreshed ++ token ∷ [] } in
      elim (refresh (length w.refreshed) token) [
        | none ↦ (none, asked)
        | some t ↦ (some t, record asked { storage = store_tokens json t w.storage })
      ]

  -- What the response interceptor does about a 401 before it sends again: the request to send, or
  -- none where the `catch` is taken.
  unfoldable pub renew : Request → World → Option Request × World
  unfolding refresh_login lose_session
  renew r w =
      let (tokens, w') = refresh_login (refresh_token_of (stored_tokens json w.storage)) w in
      elim tokens [
        | none ↦ (none, lose_session w')
        | some t ↦ elim (stored_tokens json w'.storage) [
          | none ↦ (none, lose_session w')
          | some d ↦ (
            some (record r { retry = true; authorization = some (bearer (shown d.access_token)) }),
            w',
          )
        ]
      ]

  -- `apiDongClient(request)`, on fuel for the repeated call; none means that the fuel ran out.
  unfoldable pub send : ℕ → Request → World → Option (Result × World)
  unfolding renew request_interceptor
  send zero r w = none
  send (suc fuel) r w =
      let q = request_interceptor json r w in
      let w' : World = record w { sent = w.sent ++ q.authorization ∷ [] } in
      elim (serve (length w.sent) q.authorization) [
        | success body ↦ some (resolved body, w')
        | failure status ↦
            if is_unauthorized status && not q.retry
            then (elim (renew q w').0 [
              | none ↦ some (session_lost, (renew q w').1)
              | some again ↦ send fuel again (renew q w').1
            ])
            else some (rejected status, w')
      ]
