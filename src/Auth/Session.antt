-- ===== src/Auth/Session.antt =====
-- The session of frontend/providers/AppProvider.tsx: what the context holds beside the storage,
-- login with a code, restoring at start, `resetSession` and `logout`; and the helpers of
-- frontend/modules/auth/utils.ts. The servers and the clients are parameters.
pub mod Lifecycle
use mmn_tx_explorer.Base.{
  ℕ, String, Bool, true, false, Option, none, some, List, [], ◌∷◌, ◌≡◌, refl, arith, if◌then◌else◌,
  truthy, or_text,
}
use mmn_tx_explorer.Auth.StorageKeys
use mmn_tx_explorer.Auth.Storage.{
  Storage, Tokens, TokenData, Json, get_item, set_item, safe_json_parse, store_tokens,
  stored_tokens, clear_auth_storage, value_of,
}

pub record UserInfoResponse : Type 0 where
  pub avatar : String
  pub display_name : String
  pub email : String
  pub sub : String
  pub user_id : String
  pub username : String

pub record LoginResponse : Type 0 where
  pub access_token : String
  pub auth_token : String
  pub refresh_token : String
  pub user : UserInfoResponse

pub record User : Type 0 where
  pub id : String
  pub username : String
  pub email : String
  pub avatar : String
  pub wallet_address : String

-- `IEphemeralKeyPair`
pub record KeyPair : Type 0 where
  pub public_key : String
  pub private_key : String

pub record App : Type 0 where
  pub is_authenticated : Bool
  pub user : Option User
  pub zk_proof : Option String
  pub keypair : Option KeyPair
  pub light_client : Option String
  pub storage : Storage

-- `a || b` on texts
abbrev pub or_else : String → String → String
or_else a b = if truthy a then a else b

unfoldable pub reset_session : App → App
reset_session s = record {
  is_authenticated = false;
  user = none;
  zk_proof = none;
  keypair = none;
  light_client = none;
  storage = clear_auth_storage s.storage;
}

-- The clients that the login calls: none where the call fails; and `JSON.stringify` and `JSON.parse`
-- at the types that are stored. A proof and a light client are kept as their printed texts, and
-- `init_client` is `LightClient.initClient` after the parsing of its text: none where that throws.
pub record Clients : Type 0 where
  pub get_user_info : String → Option LoginResponse
  pub generate_key_pair : Option KeyPair
  pub get_address : String → Option String
  pub authenticate : String → String → String → Option String
  pub get_zk_proofs : String → String → String → String → Option String
  pub print_user : User → String
  pub parse_user : String → Option User
  pub print_key_pair : KeyPair → String
  pub parse_key_pair : String → Option KeyPair
  pub parse_zk_proof : String → Option String
  pub parse_client : String → Option String
  pub init_client : String → Option String

unfoldable pub handle_token_storage : Json → LoginResponse → Storage → Storage
handle_token_storage json info s = set_item StorageKeys.auth_token info.auth_token (
    store_tokens json
      (record { access_token = info.access_token; refresh_token = info.refresh_token }) s)

abbrev pub user_object : UserInfoResponse → String → User
user_object u sender = record {
  id = or_else u.user_id u.sub;
  username = or_else u.username u.display_name;
  email = u.email;
  avatar = u.avatar;
  wallet_address = sender;
}

-- `setX(value); localStorage.setItem(key, …)` where there is a value.
abbrev pub store_some : String → Option String → Storage → Storage
store_some key none s = s
store_some key (some v) s = set_item key v s

-- What a login ended with; `connect` is the token for the web socket.
pub data Login : Type 0 where
  failed : App → Login
  logged_in : App → Option String → Login

module _ (json : Json) (c : Clients) where
  open c use {
    get_user_info, generate_key_pair, get_address, authenticate, get_zk_proofs, print_user,
    parse_user, print_key_pair, parse_key_pair, parse_zk_proof, parse_client, init_client,
  }

  -- From the sender's address on nothing throws: the light client and the proof catch their own
  -- failures. The web socket is told to connect; what its token provider then does is a step of its
  -- own, WebSocket.Provider, which may refresh the tokens.
  unfoldable pub finish_login : LoginResponse → KeyPair → String → App → Login
  finish_login info keys sender s =
      let u = info.user in
      let user = user_object u sender in
      let client = authenticate info.auth_token u.user_id u.username in
      let proof = get_zk_proofs (or_else u.user_id u.sub) keys.public_key info.auth_token sender in
      logged_in
        (record s {
          user = some user;
          light_client = elim client [ none ↦ s.light_client | some l ↦ some l ];
          zk_proof = elim proof [ none ↦ s.zk_proof | some z ↦ some z ];
          storage = store_some StorageKeys.zk_proof proof (
              store_some StorageKeys.light_client client
                (set_item StorageKeys.user_info (print_user user) s.storage));
        })
        (if truthy info.access_token then some info.access_token else none)

  -- `handleAuthentication`: the steps that may throw, in order.
  unfoldable pub handle_authentication : String → App → Login
  unfolding finish_login handle_token_storage reset_session
  handle_authentication code s = elim (get_user_info code) [
    | none ↦ failed (reset_session s)
    | some info ↦
        let stored : App = record s {
          is_authenticated = true;
          storage = handle_token_storage json info s.storage;
        } in
        elim generate_key_pair [
          | none ↦ failed (reset_session stored)
          | some keys ↦
              let keyed : App = record stored {
                keypair = some keys;
                storage = set_item StorageKeys.key_pair (print_key_pair keys) stored.storage;
              } in
              elim (get_address info.user.user_id) [
                | none ↦ failed (reset_session keyed)
                | some sender ↦ finish_login info keys sender keyed
              ]
        ]
  ]

  -- `logout`: the refresh token that is revoked, if any. None where `safeJsonParse(token)` is null
  -- and reading its field throws.
  unfoldable pub logout : App → Option (Option String × App)
  unfolding reset_session safe_json_parse
  logout s = elim (get_item StorageKeys.token s.storage) [
    | none ↦ some (none, reset_session s)
    | some text ↦
        if truthy text
        then (elim (safe_json_parse (value_of json) (some text)) [
          | none ↦ none
          | some d ↦ some (or_text d.refresh_token none, reset_session s)
        ])
        else some (none, reset_session s)
  ]

  -- The light client that is restored first; where its initialisation throws, the session is reset.
  unfoldable pub restore_client : App → App
  unfolding reset_session safe_json_parse
  restore_client s =
      elim (safe_json_parse parse_client (get_item StorageKeys.light_client s.storage)) [
        | none ↦ s
        | some l ↦ elim (init_client l) [
          | none ↦ reset_session s
          | some client ↦ record s { light_client = some client }
        ]
      ]

  -- `if (text) setX(safeJsonParse(text))`
  abbrev pub restored {ℓ} : {T : Type ℓ} → (String → Option T) → Option String → Option T → Option T
  restored parse none old = old
  restored parse (some t) old = if truthy t then parse t else old

  -- A text that is there and not empty.
  abbrev pub is_stored : Option String → Bool
  is_stored none = false
  is_stored (some t) = truthy t

  -- The effect at start, where the storage holds a user and tokens that parse; none where it does
  -- not, and a code in the address starts a login. The tokens are read before the light client is
  -- restored, all else after it.
  unfoldable pub restore : App → Option (App × Option String)
  unfolding restore_client stored_tokens
  restore s =
      let s' = restore_client s in
      elim (stored_tokens json s.storage) [
        | none ↦ none
        | some _ ↦
            if is_stored (get_item StorageKeys.user_info s'.storage)
            then some (
              record s' {
                user = restored parse_user (get_item StorageKeys.user_info s'.storage) s'.user;
                is_authenticated = true;
                zk_proof =
                    restored parse_zk_proof (get_item StorageKeys.zk_proof s'.storage) s'.zk_proof;
                keypair =
                    restored parse_key_pair (get_item StorageKeys.key_pair s'.storage) s'.keypair;
              },
              elim (stored_tokens json s'.storage) [
                | none ↦ none
                | some d ↦ or_text d.access_token none
              ],
            )
            else none
      ]
