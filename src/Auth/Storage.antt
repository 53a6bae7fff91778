-- ===== src/Auth/Storage.antt =====
-- The browser's storage as the session code uses it: storage-keys.constant.ts,
-- clear-storage.utils.ts, json-parse.utils.ts and handleTokenStorage of modules/auth/utils.ts.
use mmn_tx_explorer.Auth.StorageKeys
use mmn_tx_explorer.Base.{
  String, Option, none, some, List, [], ◌∷◌, ◌≡◌, ◌≢◌, refl, arith, if◌then◌else◌, eq_iff, truthy,
  lookup, insert, remove, lookup-insert, lookup-remove, includes,
}

-- `localStorage`: texts by keys.
abbrev pub Storage : Type 0
Storage = List (String × String)

-- `localStorage.getItem`, `setItem` and `removeItem`
abbrev pub get_item : String → Storage → Option String
get_item key s = lookup key s

abbrev pub set_item : String → String → Storage → Storage
set_item key value s = insert key value s

abbrev pub remove_item : String → Storage → Storage
remove_item key s = remove key s

abbrev pub auth_storage_keys : List String
auth_storage_keys =
    StorageKeys.token ∷ StorageKeys.auth_token ∷ StorageKeys.user_info ∷ StorageKeys.key_pair
    ∷ StorageKeys.zk_proof ∷ StorageKeys.light_client ∷ []

unfoldable pub remove_storage_keys : List String → Storage → Storage
remove_storage_keys [] s = s
remove_storage_keys (key ∷ keys) s = remove_storage_keys keys (remove_item key s)

unfoldable pub clear_auth_storage : Storage → Storage
unfolding remove_storage_keys
clear_auth_storage s = remove_storage_keys auth_storage_keys s

get_item-remove_storage_keys :
    (key : String) (keys : List String) (s : Storage)
    → get_item key (remove_storage_keys keys s)
      ≡ (if includes key keys then none else get_item key s)
unfolding remove_storage_keys
get_item-remove_storage_keys key [] s = refl
get_item-remove_storage_keys key (k ∷ ks) s = ground (
  arith,
  get_item-remove_storage_keys key ks (remove_item k s),
  lookup-remove k key s,
  eq_iff k key,
)

-- Clearing the session removes exactly the six keys that belong to it: every other entry reads
-- as before.
pub get_item-clear_auth_storage :
    (key : String) (s : Storage)
    → get_item key (clear_auth_storage s)
      ≡ (if includes key auth_storage_keys then none else get_item key s)
unfolding clear_auth_storage
get_item-clear_auth_storage key s = get_item-remove_storage_keys key auth_storage_keys s

-- The tokens of a login response, and what a reader finds in a parsed text.
pub record Tokens : Type 0 where
  pub access_token : String
  pub refresh_token : String

pub record TokenData : Type 0 where
  pub access_token : Option String
  pub refresh_token : Option String

-- `JSON.stringify` and `JSON.parse` on tokens, which gives none where it throws and `some none` for null:
-- parsing what was printed gives it back, and what is printed is not empty.
pub record Json : Type 0 where
  pub stringify : Tokens → String
  pub parse : String → Option (Option TokenData)
  pub stringify-nonempty : (t : Tokens) → stringify t ≢ ""
  pub parse-stringify :
      (t : Tokens)
      → parse (stringify t)
        ≡ some (
            some
              (record { access_token = some t.access_token; refresh_token = some t.refresh_token }))

-- `safeJsonParse`: null for no text, the empty text and a text that does not parse.
unfoldable pub safe_json_parse {ℓ} : {T : Type ℓ} → (String → Option T) → Option String → Option T
safe_json_parse parse none = none
safe_json_parse parse (some s) = if truthy s then parse s else none

-- A value, or null where there is none.
abbrev pub value_of : Json → String → Option TokenData
value_of json s = elim (json.parse s) [ none ↦ none | some v ↦ v ]

unfoldable pub store_tokens : Json → Tokens → Storage → Storage
store_tokens json t s = set_item StorageKeys.token (json.stringify t) s

unfoldable pub stored_tokens : Json → Storage → Option TokenData
unfolding safe_json_parse
stored_tokens json s = safe_json_parse (value_of json) (get_item StorageKeys.token s)

-- Stored tokens are read back.
pub stored_tokens-store_tokens :
    (json : Json) (t : Tokens) (s : Storage)
    → stored_tokens json (store_tokens json t s)
      ≡ some (record { access_token = some t.access_token; refresh_token = some t.refresh_token })
unfolding stored_tokens store_tokens
stored_tokens-store_tokens json t s = ground (
  arith,
  lookup-insert "token" "token" (json.stringify t) s,
  json.parse-stringify t,
  json.stringify-nonempty t,
  eq_iff (json.stringify t) "",
  eq_iff "token" "token",
)
