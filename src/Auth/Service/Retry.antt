-- ===== src/Auth/Service/Retry.antt =====
-- What a request of apiDongClient does at most, and how a 401 is answered.
use mmn_tx_explorer.Base.{
  includes, ℕ, suc, ◌+◌, ◌≤◌, String, Bool, true, false, Option, none, some, [], ◌∷◌, ◌++◌, ◌≡◌,
  refl, arith, if◌then◌else◌, length, length-append, Option-cases, Bool-cases, inl, inr, eq_iff,
  ◌∙◌, ap,
}
use mmn_tx_explorer.Auth.Storage.{
  Tokens, Json, stored_tokens, store_tokens, get_item, auth_storage_keys,
  stored_tokens-store_tokens, get_item-clear_auth_storage,
}
use mmn_tx_explorer.Auth.Service.{
  Request, Reply, success, failure, Result, resolved, rejected, session_lost, World, bearer,
  refresh_token_of, is_unauthorized, request_interceptor, lose_session, Server, Refresher, renew,
  send,
}

-- How the request ends on a reply that is not answered by a refresh.
abbrev pub settled : Reply → Result
settled (success body) = resolved body
settled (failure status) = rejected status

abbrev pub needs_refresh : Reply → Bool
needs_refresh (success body) = false
needs_refresh (failure status) = is_unauthorized status

module _ (json : Json) (serve : Server) (refresh : Refresher) where
  abbrev pub asked_token : World → Option String
  asked_token w = refresh_token_of (stored_tokens json w.storage)

  -- The refresh that fails.
  renew-none :
      (r : Request) (w : World)
      → refresh (length w.refreshed) (asked_token w) ≡ none
      → renew json serve refresh r w
        ≡ (none, lose_session (record w { refreshed = w.refreshed ++ asked_token w ∷ [] }))
  unfolding renew
  renew-none r w e = ground arith

  -- The refresh that succeeds: its token is stored, read back and put on the request.
  renew-some :
      (r : Request) (w : World) (t : Tokens)
      → refresh (length w.refreshed) (asked_token w) ≡ some t
      → renew json serve refresh r w ≡ (
        some (record r { retry = true; authorization = some (bearer t.access_token) }),
        record w {
          refreshed = w.refreshed ++ asked_token w ∷ [];
          storage = store_tokens json t w.storage;
        },
      )
  unfolding renew
  renew-some r w t e = ground (arith, stored_tokens-store_tokens json t w.storage)

  interceptor-retry : (r : Request) (w : World) → (request_interceptor json r w).retry ≡ r.retry
  unfolding request_interceptor
  interceptor-retry r w = elim (Option-cases (stored_tokens json w.storage)) [
    | inl e ↦ ground arith
    | inr (d, e) ↦ ground arith
  ]

  -- The header of the first attempt.
  abbrev pub first_header : Request → World → Option String
  first_header r w = (request_interceptor json r w).authorization

  first_header-retry :
      (f : ℕ) (r : Request) (w : World) (reply : Reply)
      → serve (length w.sent) (first_header r w) ≡ reply
      → r.retry ≡ true
      → send json serve refresh (suc f) r w
        ≡ some (settled reply, record w { sent = w.sent ++ first_header r w ∷ [] })
  unfolding send
  first_header-retry f r w (success b) e again = ground (arith, interceptor-retry r w)
  first_header-retry f r w (failure status) e again = ground (arith, interceptor-retry r w)

  -- A request that is already a retry is sent once, and no refresh is asked for.
  send-retry :
      (f : ℕ) (r : Request) (w : World)
      → r.retry ≡ true
      → send json serve refresh (suc f) r w
        ≡ some (
          settled (serve (length w.sent) (first_header r w)),
          record w { sent = w.sent ++ first_header r w ∷ [] },
        )
  send-retry f r w again =
      first_header-retry f r w (serve (length w.sent) (first_header r w)) refl again

  -- A first attempt that is not answered by 401 ends the request.
  send-settles :
      (f : ℕ) (r : Request) (w : World) (reply : Reply)
      → serve (length w.sent) (first_header r w) ≡ reply
      → needs_refresh reply ≡ false
      → send json serve refresh (suc f) r w
        ≡ some (settled reply, record w { sent = w.sent ++ first_header r w ∷ [] })
  unfolding send
  send-settles f r w (success b) e calm = ground (arith)
  send-settles f r w (failure status) e calm = ground (arith)

  abbrev tried : Request → World → World
  tried r w = record w { sent = w.sent ++ first_header r w ∷ [] }

  abbrev continue : ℕ → Option Request × World → Option (Result × World)
  continue f (none, w) = some (session_lost, w)
  continue f (some again, w) = send json serve refresh f again w

  -- After a 401 the request goes on as `renew` says.
  send-renews :
      (f : ℕ) (r : Request) (w : World) (reply : Reply)
      → serve (length w.sent) (first_header r w) ≡ reply
      → needs_refresh reply ≡ true
      → r.retry ≡ false
      → send json serve refresh (suc f) r w
        ≡ continue f (renew json serve refresh (request_interceptor json r w) (tried r w))
  unfolding send
  send-renews f r w (success b) e calm fresh = cc
  send-renews f r w (failure status) e calm fresh = ground (arith, interceptor-retry r w)

  -- The request that goes out after a refresh, and the world that it finds.
  abbrev pub renewed : Request → Tokens → Request
  renewed r t = record r { retry = true; authorization = some (bearer t.access_token) }

  abbrev pub refreshed_world : Request → World → Tokens → World
  refreshed_world r w t = record w {
    sent = w.sent ++ first_header r w ∷ [];
    refreshed = w.refreshed ++ asked_token w ∷ [];
    storage = store_tokens json t w.storage;
  }

  -- What one attempt with the given header leaves.
  abbrev attempt : World → Option String → Option (Result × World)
  attempt w header =
      some (settled (serve (length w.sent) header), record w { sent = w.sent ++ header ∷ [] })

  second_header :
      (r : Request) (w : World) (t : Tokens)
      → first_header (renewed (request_interceptor json r w) t) (refreshed_world r w t)
        ≡ some (bearer t.access_token)
  unfolding request_interceptor
  second_header r w t =
      ground (arith, stored_tokens-store_tokens json t w.storage, eq_iff t.access_token "")

  -- A first attempt that is answered by 401, on a request that is no retry, followed by a refresh
  -- that succeeds, is repeated once with the new access token; the tokens are stored, and the second reply is final, also a 401. The
  -- refresh is asked for once, with the stored refresh token.
  pub send-refreshes :
      (f : ℕ) (r : Request) (w : World) (t : Tokens)
      → needs_refresh (serve (length w.sent) (first_header r w)) ≡ true
      → r.retry ≡ false
      → refresh (length w.refreshed) (asked_token w) ≡ some t
      → (w' : World) × (send json serve refresh (suc (suc f)) r w
          ≡ some (settled (serve (length w.sent + 1) (some (bearer t.access_token))), w'))
        × (w'.sent ≡ (w.sent ++ first_header r w ∷ []) ++ some (bearer t.access_token) ∷ [])
        × (stored_tokens json w'.storage
            ≡ some (record {
              access_token = some t.access_token;
              refresh_token = some t.refresh_token;
            }))
        × (w'.expired ≡ w.expired)
        × (w'.refreshed ≡ w.refreshed ++ asked_token w ∷ [])
  send-refreshes f r w t refused fresh renews =
      let q = request_interceptor json r w in
      let q2 = renewed q t in
      let w2 = refreshed_world r w t in
      let last : World = record w2 { sent = w2.sent ++ some (bearer t.access_token) ∷ [] } in
      let longer : length w2.sent ≡ length w.sent + 1 =
        length-append w.sent (first_header r w ∷ []) in
      let again : send json serve refresh (suc f) q2 w2
          ≡ some (settled (serve (length w.sent + 1) (some (bearer t.access_token))), last) =
        send-retry f q2 w2 refl
        ∙ ap (attempt w2) (second_header r w t)
        ∙ ap (λ n. some (settled (serve n (some (bearer t.access_token))), last)) longer in
      (
        last,
        send-renews (suc f) r w (serve (length w.sent) (first_header r w)) refl refused fresh
            ∙ ap (continue (suc f)) (renew-some q (tried r w) t renews)
            ∙ again,
        refl,
        stored_tokens-store_tokens json t w.storage,
        refl,
        refl,
      )

  -- A first attempt that is answered by 401, on a request that is no retry, followed by a refresh
  -- that fails, ends in the loss of the session: nothing is sent again, the six keys of the session
  -- are gone and all others stay, the handler for the expired session, where there is one, is called
  -- once, and the refresh is asked for once.
  pub send-loses :
      (f : ℕ) (r : Request) (w : World)
      → needs_refresh (serve (length w.sent) (first_header r w)) ≡ true
      → r.retry ≡ false
      → refresh (length w.refreshed) (asked_token w) ≡ none
      → (w' : World) × (send json serve refresh (suc f) r w ≡ some (session_lost, w'))
        × (w'.sent ≡ w.sent ++ first_header r w ∷ [])
        × ((key : String)
            → get_item key w'.storage
              ≡ (if includes key auth_storage_keys then none else get_item key w.storage))
        × (w'.expired ≡ (if w.has_handler then w.expired + 1 else w.expired))
        × (w'.refreshed ≡ w.refreshed ++ asked_token w ∷ [])
  unfolding lose_session
  send-loses f r w refused fresh fails =
      let q = request_interceptor json r w in
      let asked : World = record (tried r w) { refreshed = w.refreshed ++ asked_token w ∷ [] } in
      (
        lose_session asked,
        send-renews f r w (serve (length w.sent) (first_header r w)) refl refused fresh
            ∙ ap (continue f) (renew-none q (tried r w) fails),
        refl,
        λ key. get_item-clear_auth_storage key w.storage,
        refl,
        refl,
      )

  -- Two rounds of fuel are enough for every request and every server: it ends with a result, after
  -- two attempts and one refresh at most.
  pub send_total :
      (f : ℕ) (r : Request) (w : World)
      → (res : Result) × (w' : World) × (send json serve refresh (suc (suc f)) r w ≡ some (res, w'))
        × (length w'.sent ≤ length w.sent + 2)
        × (length w'.refreshed ≤ length w.refreshed + 1)
  send_total f r w = elim (Bool-cases (needs_refresh (serve (length w.sent) (first_header r w)))) [
    | inr calm ↦ (
      settled (serve (length w.sent) (first_header r w)),
      tried r w,
      send-settles (suc f) r w (serve (length w.sent) (first_header r w)) refl calm,
      omega (arith, length-append w.sent (first_header r w ∷ [])),
      omega arith,
    )
    | inl refused ↦ elim (Bool-cases r.retry) [
      | inl again ↦ (
        settled (serve (length w.sent) (first_header r w)),
        tried r w,
        send-retry (suc f) r w again,
        omega (arith, length-append w.sent (first_header r w ∷ [])),
        omega arith,
      )
      | inr fresh ↦ elim (Option-cases (refresh (length w.refreshed) (asked_token w))) [
        | inl fails ↦
            let (w', done, sent, _, _, asked) = send-loses (suc f) r w refused fresh fails in
            (
              session_lost,
              w',
              done,
              omega (arith, ap length sent, length-append w.sent (first_header r w ∷ [])),
              omega (arith, ap length asked, length-append w.refreshed (asked_token w ∷ [])),
            )
        | inr (t, renews) ↦
            let (w', done, sent, _, _, asked) = send-refreshes f r w t refused fresh renews in
            (
              settled (serve (length w.sent + 1) (some (bearer t.access_token))),
              w',
              done,
              omega (
                arith,
                ap length sent,
                length-append w.sent (first_header r w ∷ []),
                length-append (w.sent ++ first_header r w ∷ []) (some (bearer t.access_token) ∷ []),
              ),
              omega (arith, ap length asked, length-append w.refreshed (asked_token w ∷ [])),
            )
      ]
    ]
  ]
