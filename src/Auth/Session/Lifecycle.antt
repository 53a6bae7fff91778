-- ===== src/Auth/Session/Lifecycle.antt =====
-- What a login, a logout and a start leave in the context and in the storage.
use mmn_tx_explorer.Base.{
  includes, String, Bool, true, false, Option, none, some, ◌≡◌, ◌≢◌, refl, arith, if◌then◌else◌,
  truthy, or_text, lookup-insert, str_eq, eq_iff, Option-cases, Bool-cases, inl, inr, ◌⊎◌, sym, ◌∙◌,
  subst, ap,
}
use mmn_tx_explorer.Auth.StorageKeys
use mmn_tx_explorer.Auth.Storage.{
  Storage, Json, get_item, set_item, stored_tokens, auth_storage_keys, get_item-clear_auth_storage,
  stored_tokens-store_tokens,
}
use mmn_tx_explorer.Auth.Session.{
  App, Login, failed, logged_in, Clients, LoginResponse, KeyPair, User, user_object, or_else,
  store_some, reset_session, handle_token_storage, finish_login, handle_authentication, logout,
}

-- Nothing of a session is left.
pub record IsReset (s : App) : Type 0 where
  pub out : s.is_authenticated ≡ false
  pub no_user : s.user ≡ none
  pub no_proof : s.zk_proof ≡ none
  pub no_keys : s.keypair ≡ none
  pub no_client : s.light_client ≡ none
  pub no_entry :
      (key : String) → includes key auth_storage_keys ≡ true → get_item key s.storage ≡ none

reset_session-IsReset : (s : App) → IsReset (reset_session s)
unfolding reset_session
reset_session-IsReset s = record {
  out = refl;
  no_user = refl;
  no_proof = refl;
  no_keys = refl;
  no_client = refl;
  no_entry = λ key h. ground (arith, get_item-clear_auth_storage key s.storage);
}

failed-IsReset : (x s' : App) → failed (reset_session x) ≡ failed s' → IsReset s'
failed-IsReset x s' e =
    let same : reset_session x ≡ s' = cc in subst IsReset same (reset_session-IsReset x)

-- The parts of a login's end.
abbrev app_of : Login → App
app_of (failed s) = s
app_of (logged_in s t) = s

abbrev app_storage : Login → Storage
app_storage l = (app_of l).storage

abbrev app_authenticated : Login → Bool
app_authenticated l = (app_of l).is_authenticated

abbrev app_user : Login → Option User
app_user l = (app_of l).user

abbrev connects : Login → Option String
connects (failed s) = none
connects (logged_in s t) = t

module _ (json : Json) where
  stored_tokens-set_item :
      (key value : String) (s : Storage)
      → str_eq key "token" ≡ false
      → stored_tokens json (set_item key value s) ≡ stored_tokens json s
  unfolding stored_tokens
  stored_tokens-set_item key value s h = rw (lookup-insert, h) refl

  stored_tokens-store_some :
      (key : String) (value : Option String) (s : Storage)
      → str_eq key "token" ≡ false
      → stored_tokens json (store_some key value s) ≡ stored_tokens json s
  stored_tokens-store_some key none s h = refl
  stored_tokens-store_some key (some v) s h = stored_tokens-set_item key v s h

module _ (json : Json) (c : Clients) where
  open c use {get_user_info, generate_key_pair, get_address, print_user, parse_user}

  -- The state in which `finish_login` starts.
  abbrev keyed : LoginResponse → KeyPair → App → App
  keyed info keys s = record s {
    is_authenticated = true;
    keypair = some keys;
    storage =
        set_item StorageKeys.key_pair (c.print_key_pair keys)
          (handle_token_storage json info s.storage);
  }

  abbrev signed : LoginResponse → App → App
  signed info s = record s {
    is_authenticated = true;
    storage = handle_token_storage json info s.storage;
  }

  -- One of the three steps of a login that may throw fails.
  abbrev pub IsStopped : String → Type 0
  IsStopped code =
      (get_user_info code ≡ none)
      ⊎ ((generate_key_pair ≡ none)
          ⊎ ((info : LoginResponse) × (get_user_info code ≡ some info)
              × (get_address info.user.user_id ≡ none)))

  -- How a login goes: one of the three steps that may throw fails, or it is finished.
  login-cases :
      (code : String) (s : App)
      → ((x : App) × IsStopped code
          × (handle_authentication json c code s ≡ failed (reset_session x)))
        ⊎ ((info : LoginResponse) × (keys : KeyPair) × (sender : String) × (get_user_info code
              ≡ some info)
            × (get_address info.user.user_id ≡ some sender)
            × (handle_authentication json c code s
                ≡ finish_login json c info keys sender (keyed info keys s)))
  unfolding handle_authentication
  login-cases code s = elim (Option-cases (get_user_info code)) [
    | inl e ↦ inl (s, inl e, ground arith)
    | inr (info, e) ↦ elim (Option-cases generate_key_pair) [
      | inl k ↦ inl (signed info s, inr (inl k), ground arith)
      | inr (keys, k) ↦ elim (Option-cases (get_address info.user.user_id)) [
        | inl a ↦ inl (keyed info keys s, inr (inr (info, e, a)), ground arith)
        | inr (sender, a) ↦ inr (info, keys, sender, e, a, ground arith)
      ]
    ]
  ]

  -- A login ends as failed only where the answer to its code, the key pair or the address cannot be had,
  -- and then nothing of a session is left, neither in the context nor in the storage.
  pub handle_authentication-failed :
      (code : String) (s s' : App)
      → handle_authentication json c code s ≡ failed s'
      → IsStopped code × IsReset s'
  unfolding finish_login
  handle_authentication-failed code s s' e = elim (login-cases code s) [
    | inl (x, stopped, f) ↦ (stopped, failed-IsReset x s' (sym f ∙ e))
    | inr (info, keys, sender, _, _, done) ↦ cc
  ]

  -- The storage that a finished login leaves.
  abbrev final_storage : LoginResponse → KeyPair → String → App → Storage
  final_storage info keys sender s =
      let u = info.user in
      store_some StorageKeys.zk_proof
        (c.get_zk_proofs (or_else u.user_id u.sub) keys.public_key info.auth_token sender)
        (store_some StorageKeys.light_client (c.authenticate info.auth_token u.user_id u.username) (
          set_item StorageKeys.user_info (print_user (user_object u sender))
            (keyed info keys s).storage))

  final_storage-stored_tokens :
      (info : LoginResponse) (keys : KeyPair) (sender : String) (s : App)
      → stored_tokens json (final_storage info keys sender s)
        ≡ some (record {
          access_token = some info.access_token;
          refresh_token = some info.refresh_token;
        })
  unfolding handle_token_storage
  final_storage-stored_tokens info keys sender s =
      stored_tokens-store_some json StorageKeys.zk_proof _ _ refl
      ∙ stored_tokens-store_some json StorageKeys.light_client _ _ refl
      ∙ stored_tokens-set_item json StorageKeys.user_info _ _ refl
      ∙ stored_tokens-set_item json StorageKeys.key_pair _ _ refl
      ∙ stored_tokens-set_item json StorageKeys.auth_token _ _ refl
      ∙ stored_tokens-store_tokens json _ s.storage

  -- A login that succeeds signs the user in with the address of the account, stores the tokens of
  -- the response so that they are read back, and connects the web socket with the access token
  -- unless that is empty.
  pub handle_authentication-succeeds :
      (code : String) (s s' : App) (t : Option String)
      → handle_authentication json c code s ≡ logged_in s' t
      → (info : LoginResponse) × (sender : String) × (get_user_info code ≡ some info)
        × (get_address info.user.user_id ≡ some sender)
        × (s'.is_authenticated ≡ true)
        × (s'.user ≡ some (user_object info.user sender))
        × (stored_tokens json s'.storage
            ≡ some (record {
              access_token = some info.access_token;
              refresh_token = some info.refresh_token;
            }))
        × (t ≡ (if truthy info.access_token then some info.access_token else none))
  unfolding finish_login
  handle_authentication-succeeds code s s' t e = elim (login-cases code s) [
    | inl (x, stopped, f) ↦ cc
    | inr (info, keys, sender, found, address, done) ↦
        let both = sym done ∙ e in
        let same : final_storage info keys sender s ≡ s'.storage = ap app_storage both in
        (
          info,
          sender,
          found,
          address,
          sym (ap app_authenticated both),
          sym (ap app_user both),
          ap (stored_tokens json) (sym same) ∙ final_storage-stored_tokens info keys sender s,
          sym (ap connects both),
        )
  ]

  -- A logout throws only where a text that is not empty, and that does not parse or is that of null, is
  -- stored under the token's key. Otherwise it resets the session, and nothing of it is left.
  pub logout_lem :
      (s : App)
      → ((logout json c s ≡ none)
          × ((text : String) × (get_item StorageKeys.token s.storage ≡ some text)
              × (text ≢ "")
              × ((json.parse text ≡ none) ⊎ (json.parse text ≡ some none))))
        ⊎ ((r : Option String) × (logout json c s ≡ some (r, reset_session s))
            × IsReset (reset_session s))
  unfolding logout
  logout_lem s = elim (Option-cases (get_item StorageKeys.token s.storage)) [
    | inl e ↦ inr (none, ground arith, reset_session-IsReset s)
    | inr (text, e) ↦ elim (Bool-cases (str_eq text "")) [
      | inl empty ↦ inr (none, ground arith, reset_session-IsReset s)
      | inr full ↦ elim (Option-cases (json.parse text)) [
        | inl bad ↦ inl (ground arith, (text, e, ground (arith, eq_iff text ""), inl bad))
        | inr (v, good) ↦ elim (Option-cases v) [
          | inl f ↦ inl (
            ground arith,
            (text, e, ground (arith, eq_iff text ""), inr (good ∙ ap (λ x. some x) f)),
          )
          | inr (d, f) ↦ inr (or_text d.refresh_token none, ground arith, reset_session-IsReset s)
        ]
      ]
    ]
  ]
