-- ===== src/Auth/Tests.antt =====
-- The theorems on sessions, tokens and routes at concrete inputs.
mod Codec
use mmn_tx_explorer.Base.{
  includes, ℕ, ◌+◌, ◌≤◌, String, Bool, true, false, Option, none, some, List, [], ◌∷◌, ◌++◌, ◌≡◌,
  ◌≢◌, refl, arith, eq_iff, length, if◌then◌else◌, ◌==◌, inl, inr, ◌⊎◌, ◌↔◌, ◌||◌, str_eq, truthy,
  or_text, lookup,
}
use mmn_tx_explorer.Auth.StorageKeys
use mmn_tx_explorer.Auth.Storage.{
  Storage, Tokens, TokenData, get_item, clear_auth_storage, auth_storage_keys, store_tokens,
  stored_tokens, get_item-clear_auth_storage, stored_tokens-store_tokens,
}
use mmn_tx_explorer.Auth.Service.{
  Request, Reply, success, failure, Result, session_lost, World, bearer, send, request_interceptor,
}
use mmn_tx_explorer.Auth.Service.Retry.{
  settled, needs_refresh, asked_token, first_header, send-refreshes, send-loses, send_total,
}
use mmn_tx_explorer.Auth.Flight.{
  Flight, FlightEvent, call, reply, idle, flight_run, waiting_of, replies_of, callers_of,
  answered_of, refresh_login, settle, get_is_refreshing, flight_run-shares, settle-shares,
}
use mmn_tx_explorer.Auth.Session.{
  App, Login, failed, logged_in, Clients, LoginResponse, KeyPair, User, UserInfoResponse,
  user_object, reset_session, handle_authentication, logout, finish_login, handle_token_storage,
}
use mmn_tx_explorer.Auth.Session.Lifecycle.{
  IsReset, handle_authentication-failed, handle_authentication-succeeds, logout_lem, IsStopped,
}
use mmn_tx_explorer.Auth.Oauth.{
  Page, sign_in, provider, login, callback, present, callback-sign_in_iff, callback-login,
}
use mmn_tx_explorer.Auth.Tests.Codec.{codec}
use mmn_tx_explorer.WebSocket.Provider.{Provider, get_latest_token, get_latest_token-refreshes}

abbrev new : Tokens
new = record { access_token = "a2"; refresh_token = "r2" }

abbrev browser : Storage
browser = ("theme", "dark") ∷ ("token", "+a-r") ∷ []

-- The client with the tokens "a" and "r" stored.
abbrev world : World
world = record { storage = browser; sent = []; refreshed = []; has_handler = true; expired = 0 }

abbrev request : Request
request = record { auth_optional = false; retry = false; authorization = none }

-- The first request is refused.
abbrev serve : ℕ → Option String → Reply
serve n header = if n == 0 then failure (some 401) else success 7

abbrev renewing : ℕ → Option String → Option Tokens
renewing n token = some new

abbrev refusing : ℕ → Option String → Option Tokens
refusing n token = none

send-refreshes_example :
    (w' : World) × (send codec serve renewing 2 request world
      ≡ some (settled (serve (length world.sent + 1) (some (bearer "a2"))), w'))
    × (w'.sent
        ≡ (world.sent ++ first_header codec serve renewing request world ∷ [])
          ++ some (bearer "a2") ∷ [])
    × (stored_tokens codec w'.storage
        ≡ some (record { access_token = some "a2"; refresh_token = some "r2" }))
    × (w'.expired ≡ world.expired)
    × (w'.refreshed ≡ world.refreshed ++ asked_token codec serve renewing world ∷ [])
send-refreshes_example = send-refreshes codec serve renewing 0 request world new refl refl refl

send-loses_example :
    (w' : World) × (send codec serve refusing 1 request world ≡ some (session_lost, w'))
    × (w'.sent ≡ world.sent ++ first_header codec serve refusing request world ∷ [])
    × ((key : String)
        → get_item key w'.storage
          ≡ (if includes key auth_storage_keys then none else get_item key world.storage))
    × (w'.expired ≡ (if world.has_handler then world.expired + 1 else world.expired))
    × (w'.refreshed ≡ world.refreshed ++ asked_token codec serve refusing world ∷ [])
send-loses_example = send-loses codec serve refusing 0 request world refl refl refl

send_total_example :
    (res : Result) × (w' : World) × (send codec serve refusing 2 request world ≡ some (res, w'))
    × (length w'.sent ≤ length world.sent + 2)
    × (length w'.refreshed ≤ length world.refreshed + 1)
send_total_example = send_total codec serve refusing 0 request world

abbrev burst : List FlightEvent
burst = call 1 (some "r") ∷ call 2 (some "r") ∷ reply (some new) ∷ call 3 (some "r2") ∷ []

flight_run-shares_example :
    let s = flight_run codec burst (idle browser) in
    (length s.posted ≤ replies_of burst + 1)
    × (answered_of s.answers ++ waiting_of s.refresh_promise ≡ callers_of burst)
flight_run-shares_example = flight_run-shares codec burst browser

abbrev account : UserInfoResponse
account = record {
  avatar = "pic";
  display_name = "Ann";
  email = "a@b";
  sub = "s1";
  user_id = "u1";
  username = "ann";
}

abbrev response : LoginResponse
response = record { access_token = "a2"; auth_token = "id"; refresh_token = "r2"; user = account }

-- Clients that know the code "code" alone.
abbrev clients : Clients
clients = record {
  get_user_info = λ code. if str_eq code "code" then some response else none;
  generate_key_pair = some (record { public_key = "pk"; private_key = "sk" });
  get_address = λ id. some "wallet";
  authenticate = λ id user name. none;
  get_zk_proofs = λ id key jwt address. some "proof";
  print_user = λ u. u.id;
  parse_user = λ t. none;
  print_key_pair = λ k. k.public_key;
  parse_key_pair = λ t. none;
  parse_zk_proof = λ t. some t;
  parse_client = λ t. some t;
  init_client = λ t. some t;
}

abbrev visitor : App
visitor = record {
  is_authenticated = false;
  user = none;
  zk_proof = none;
  keypair = none;
  light_client = none;
  storage = [];
}

-- The state after a login.
abbrev left_by : Login → App
left_by (failed s) = s
left_by (logged_in s t) = s

abbrev member : App
unfolding handle_authentication
member = left_by (handle_authentication codec clients "code" visitor)

handle_authentication-failed_example :
    IsStopped codec clients "bad"
    × IsReset (left_by (handle_authentication codec clients "bad" visitor))
unfolding handle_authentication
handle_authentication-failed_example =
    handle_authentication-failed codec clients "bad" visitor
      (left_by (handle_authentication codec clients "bad" visitor)) refl

handle_authentication-succeeds_example :
    (info : LoginResponse) × (sender : String) × (clients.get_user_info "code" ≡ some info)
    × (clients.get_address info.user.user_id ≡ some sender)
    × (member.is_authenticated ≡ true)
    × (member.user ≡ some (user_object info.user sender))
    × (stored_tokens codec member.storage
        ≡ some (record {
          access_token = some info.access_token;
          refresh_token = some info.refresh_token;
        }))
    × (some "a2" ≡ (if truthy info.access_token then some info.access_token else none))
unfolding handle_authentication
handle_authentication-succeeds_example =
    handle_authentication-succeeds codec clients "code" visitor member (some "a2") refl

logout_lem_example :
    ((logout codec clients member ≡ none)
      × ((text : String) × (get_item StorageKeys.token member.storage ≡ some text)
          × (text ≢ "")
          × ((codec.parse text ≡ none) ⊎ (codec.parse text ≡ some none))))
    ⊎ ((r : Option String) × (logout codec clients member ≡ some (r, reset_session member))
        × IsReset (reset_session member))
logout_lem_example = logout_lem codec clients member

abbrev target : String → Option String
target s = if str_eq s "/home" then some "/home" else none

callback-sign_in_iff_example :
    (callback target (some "c") (some "/home") (some "/home") ≡ sign_in "/home" "c") ↔ (
      (s : String) × (present (some "/home") ≡ some s)
      × (some "/home" ≡ some s)
      × (present (some "c") ≡ some "c")
      × (target s ≡ some "/home"))
callback-sign_in_iff_example =
    callback-sign_in_iff target (some "c") (some "/home") (some "/home") "/home" "c"

callback-login_example :
    (callback target (some "c") (some "/home") (some "/home") ≡ sign_in "/home" "c")
    ↔ ((◌≡◌ {A = String} "/home" "/home") × (target "/home" ≡ some "/home"))
unfolding login
callback-login_example =
    callback-login target (some "/home") "/home" "/home" "c" "/home" "/home" 300 refl refl
