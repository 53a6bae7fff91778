-- ===== src/WebSocket/Provider.antt =====
-- The token provider that frontend/lib/websocket/useWebSocket.ts gives to the manager: getLatestToken
-- over the storage and refreshLogin, for one call at a time.
use mmn_tx_explorer.Base.{
  ℕ, String, true, Option, none, some, [], ◌∷◌, ◌++◌, ◌≡◌, ◌≢◌, ◌⊎◌, inl, inr, arith, ltb,
  if◌then◌else◌, truthy, length, eq_iff, Option-cases,
}
use mmn_tx_explorer.Auth.Storage.{
  Tokens, TokenData, Json, stored_tokens, stored_tokens-store_tokens,
}
use mmn_tx_explorer.Auth.Service.{World, Server, Refresher, refresh_login}

-- `refreshRetryRef` beside the world of the requests.
pub record Provider : Type 0 where
  pub refresh_retry : ℕ
  pub world : World

abbrev pub access_of : Option TokenData → Option String
access_of none = none
access_of (some d) = d.access_token

-- `if (!text) …`
abbrev pub not_empty : Option String → Option String
not_empty none = none
not_empty (some s) = if truthy s then some s else none

module _ (json : Json) (serve : Server) (refresh : Refresher) where
  -- `await refreshLogin(…)` and what follows; `old` is the token that a failure falls back on. The
  -- counter is up by one only while the request is out.
  unfoldable pub refresh_latest : String → String → Provider → Option String × Provider
  unfolding refresh_login
  refresh_latest old refresh_token p =
      let (reply, w) = refresh_login json serve refresh (some refresh_token) p.world in
      elim reply [
        | none ↦ (some old, record { refresh_retry = 0; world = w })
        | some t ↦
            (access_of (stored_tokens json w.storage), record { refresh_retry = 0; world = w })
      ]

  unfoldable pub get_latest_token : Provider → Option String × Provider
  unfolding refresh_latest
  get_latest_token p = elim (stored_tokens json p.world.storage) [
    | none ↦ (none, p)
    | some d ↦ elim (not_empty d.access_token) [
      | none ↦ (none, p)
      | some old ↦ elim (not_empty d.refresh_token) [
        | none ↦ (some old, p)
        | some refresh_token ↦
            if ltb p.refresh_retry 1 then refresh_latest old refresh_token p else (some old, p)
      ]
    ]
  ]

  -- With both tokens stored and not empty and no refresh of its own out, the provider asks for one
  -- refresh: where that succeeds it gives the new access token, and the new tokens are stored; where
  -- it fails it gives the stored one and leaves the storage; either way it is ready for a next call.
  pub get_latest_token-refreshes :
      (p : Provider) (t : Tokens)
      → stored_tokens json p.world.storage
        ≡ some (record { access_token = some t.access_token; refresh_token = some t.refresh_token })
      → t.access_token ≢ ""
      → t.refresh_token ≢ ""
      → p.refresh_retry ≡ 0
      → let (token, p') = get_latest_token p in
        (p'.world.refreshed ≡ p.world.refreshed ++ some t.refresh_token ∷ [])
        × (p'.refresh_retry ≡ 0)
        × (((u : Tokens) × (refresh (length p.world.refreshed) (some t.refresh_token) ≡ some u)
              × (token ≡ some u.access_token)
              × (stored_tokens json p'.world.storage
                  ≡ some (record {
                    access_token = some u.access_token;
                    refresh_token = some u.refresh_token;
                  })))
            ⊎ ((refresh (length p.world.refreshed) (some t.refresh_token) ≡ none)
                × (token ≡ some t.access_token)
                × (p'.world.storage ≡ p.world.storage)))
  unfolding get_latest_token
  get_latest_token-refreshes p t stored access again free =
      let known : truthy t.access_token ≡ true = ground (arith, eq_iff t.access_token "") in
      let kept : truthy t.refresh_token ≡ true = ground (arith, eq_iff t.refresh_token "") in
      elim (Option-cases (refresh (length p.world.refreshed) (some t.refresh_token))) [
        | inl fails ↦ (ground arith, ground arith, inr (fails, ground arith, ground arith))
        | inr (u, renews) ↦
            let back = stored_tokens-store_tokens json u p.world.storage in
            (
              ground arith,
              ground arith,
              inl (u, renews, ground (arith, back), ground (arith, back)),
            )
      ]
