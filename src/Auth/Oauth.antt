-- ===== src/Auth/Oauth.antt =====
-- The routes of frontend/app/oauth2: login/route.ts sends the browser to the identity provider with
-- a state that it keeps in a cookie, callback/route.ts accepts the answer against that cookie, and
-- userinfo/route.ts exchanges the code.
use mmn_tx_explorer.Base.{
  ℕ, String, Bool, true, false, Option, none, some, ◌≡◌, ◌↔◌, inl, inr, arith, if◌then◌else◌,
  truthy, str_eq, eq_iff, Option-cases, Bool-cases, refl, sym, ap, ◌∙◌, subst,
}

-- `if (!x)` on an optional text
abbrev pub present : Option String → Option String
present none = none
present (some s) = if truthy s then some s else none

pub data Page : Type 0 where
  -- A redirect to an error page of the site, by the error's name.
  error_page : String → Page
  -- A redirect to the path that the state names, with the code under `authCode`.
  sign_in : String → String → Page
  -- A redirect to the provider, with the state; and the cookie that is set: its value and its age.
  provider : String → String → ℕ → Page

-- `GET` of login/route.ts, on the query's `state`
unfoldable pub login : Option String → Page
login state = elim (present state) [ none ↦ error_page "missing_state" | some s ↦ provider s s 300 ]

-- `state !== storeState?.value`
abbrev pub matches : String → Option String → Bool
matches state none = false
matches state (some cookie) = str_eq state cookie

-- `GET` of callback/route.ts, on the query's `code` and `state` and on the cookie. The parameter
-- decodes the state and forms the address that it names, which is within the site where the state
-- names a path, and elsewhere where it names a whole address: none where that throws.
unfoldable pub callback :
    (String → Option String) → Option String → Option String → Option String → Page
callback target code state cookie = elim (present state) [
  | none ↦ error_page "missing_state"
  | some s ↦
      if matches s cookie
      then (elim (present code) [
        | none ↦ error_page "missing_code"
        | some c ↦ elim (target s) [
          | none ↦ error_page "invalid_state_format"
          | some url ↦ sign_in url c
        ]
      ])
      else error_page "missing_CSRF_token_in_storage."
]

-- What the exchange of the code ends with.
pub data Exchange : Type 0 where
  unreachable : Exchange
  status : ℕ → Exchange
  answer : String → Exchange

pub data UserInfo : Type 0 where
  user_error : String → UserInfo
  user_json : String → UserInfo

-- `GET` of userinfo/route.ts: the backend is asked only with a code.
unfoldable pub user_info : (String → Exchange) → Option String → UserInfo
user_info exchange code = elim (present code) [
  | none ↦ user_error "missing_code"
  | some c ↦ elim (exchange c) [
    | unreachable ↦ user_error "oauth_error"
    | status n ↦ user_error "oauth_failed"
    | answer body ↦ user_json body
  ]
]

matches_iff : (s : String) (cookie : Option String) → (matches s cookie ≡ true) ↔ (cookie ≡ some s)
matches_iff s none = ground arith
matches_iff s (some t) = ground (arith, eq_iff s t)

-- The callback signs in exactly when the state of the address is there, is not empty and equals the
-- cookie's, the code is there and not empty, and the state names an address.
pub callback-sign_in_iff :
    (target : String → Option String) (code state cookie : Option String) (url c : String)
    → (callback target code state cookie ≡ sign_in url c) ↔ (
        (s : String) × (present state ≡ some s)
        × (cookie ≡ some s)
        × (present code ≡ some c)
        × (target s ≡ some url))
unfolding callback
callback-sign_in_iff target code state cookie url c = (to, from)
  where
    to :
        callback target code state cookie ≡ sign_in url c
        → (s : String) × (present state ≡ some s)
          × (cookie ≡ some s)
          × (present code ≡ some c)
          × (target s ≡ some url)
    to e = elim (Option-cases (present state)) [
      | inl f ↦ absurd (ground arith)
      | inr (s, f) ↦ elim (Bool-cases (matches s cookie)) [
        | inr m ↦ absurd (ground arith)
        | inl m ↦ elim (Option-cases (present code)) [
          | inl g ↦ absurd (ground arith)
          | inr (d, g) ↦ elim (Option-cases (target s)) [
            | inl h ↦ absurd (ground arith)
            | inr (u, h) ↦ (s, f, (matches_iff s cookie).0 m, ground arith, ground arith)
          ]
        ]
      ]
    ]

    from :
        ((s : String) × (present state ≡ some s)
          × (cookie ≡ some s)
          × (present code ≡ some c)
          × (target s ≡ some url))
        → callback target code state cookie ≡ sign_in url c
    from (s, f, k, g, h) = ground (arith, (matches_iff s cookie).1 k)

-- What a login sets and sends is its own state, which is not empty.
login-provider :
    (state : Option String) (sent cookie : String) (age : ℕ)
    → login state ≡ provider sent cookie age
    → (sent ≡ cookie) × (truthy sent ≡ true)
unfolding login
login-provider none sent cookie age h = absurd (ground arith)
login-provider (some s) sent cookie age h = elim (Bool-cases (truthy s)) [
  | inl e ↦ (ground arith, ground arith)
  | inr e ↦ absurd (ground arith)
]

-- After a login that goes to the provider, a callback with a code and the cookie that was set signs in
-- exactly where the state that comes back is the one that was sent and names an address.
pub callback-login :
    (target : String → Option String) (state : Option String) (sent cookie c r url : String)
    (age : ℕ)
    → login state ≡ provider sent cookie age
    → truthy c ≡ true
    → (callback target (some c) (some r) (some cookie) ≡ sign_in url c)
      ↔ ((r ≡ sent) × (target sent ≡ some url))
callback-login target state sent cookie c r url age h k = (to, from)
  where
    own : (sent ≡ cookie) × (truthy sent ≡ true)
    own = login-provider state sent cookie age h

    to :
        callback target (some c) (some r) (some cookie) ≡ sign_in url c
        → (r ≡ sent) × (target sent ≡ some url)
    to e =
        let (s, shown, kept, _, named) =
          (callback-sign_in_iff target (some c) (some r) (some cookie) url c).0 e in
        let held : cookie ≡ s = cc in
        let there : s ≡ sent = sym held ∙ sym own.0 in
        (came_back s shown ∙ there, subst (λ t. target t ≡ some url) there named)
      where
        came_back : (s : String) → present (some r) ≡ some s → r ≡ s
        came_back s f = elim (Bool-cases (truthy r)) [
          | inl g ↦ ground arith
          | inr g ↦ absurd (ground arith)
        ]

    from :
        (r ≡ sent) × (target sent ≡ some url)
        → callback target (some c) (some r) (some cookie) ≡ sign_in url c
    from (back, named) =
        (callback-sign_in_iff target (some c) (some r) (some cookie) url c).1
          (sent, rw (back, own.1) refl, ap (λ t. some t) (sym own.0), rw k refl, named)
