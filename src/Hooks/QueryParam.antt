-- ===== src/Hooks/QueryParam.antt =====
-- The address's query as state: frontend/hooks/useQueryParam.ts, usePaginationQueryParam.tsx,
-- useDualPaginationQueryParam.ts and useUpdateQueryParams.tsx. A query is a dictionary from names to texts, as URLSearchParams is
-- where no name stands twice; `String(n)`, `Number(s)` and `parseInt(s, 10)` are parameters.
use mmn_tx_explorer.Base.{
  ℕ, String, true, Option, none, some, List, [], ◌∷◌, ◌≡◌, refl, ◌≢◌, arith, ◌==◌, if◌then◌else◌,
  truthy, str_eq, eq_iff, lookup, insert, remove, lookup-insert, lookup-remove, includes,
  Bool-cases, inl, inr, ◌∙◌, ap,
}

abbrev pub Params : Type 0
Params = List (String × String)

-- `raw == null || raw === '' ? defaultValue : read(raw)`
abbrev pub read_or {ℓ} : {T : Type ℓ} → (String → T) → T → Option String → T
read_or read default none = default
read_or read default (some raw) = if truthy raw then read raw else default

unfoldable pub param_value {ℓ} : {T : Type ℓ} → (String → T) → String → T → Params → T
param_value read name default params = read_or read default (lookup name params)

-- `clearParams.forEach((key) => { if (key !== queryParam) params.delete(key) })`
unfoldable pub clear_params : String → List String → Params → Params
clear_params name [] params = params
clear_params name (key ∷ keys) params =
    clear_params name keys (if str_eq key name then params else remove key params)

-- `handleChangeValue`, on the printed value: the query that is pushed.
unfoldable pub handle_change_value : String → List String → String → Params → Params
unfolding clear_params
handle_change_value name cleared value params = insert name value (clear_params name cleared params)

lookup-clear_params :
    (name : String) (keys : List String) (j : String) (params : Params)
    → lookup j (clear_params name keys params) ≡ (
        if str_eq j name
        then lookup j params
        else (if includes j keys then none else lookup j params))
unfolding clear_params
lookup-clear_params name [] j params = ground arith
lookup-clear_params name (key ∷ keys) j params = ground (
  arith,
  lookup-clear_params name keys j (if str_eq key name then params else remove key params),
  lookup-remove key j params,
  eq_iff key name,
  eq_iff key j,
  eq_iff j name,
)

-- A change writes its value under its name and removes the names to clear, except its own; every
-- other name reads as before.
pub lookup-handle_change_value :
    (name : String) (cleared : List String) (value : String) (params : Params) (j : String)
    → lookup j (handle_change_value name cleared value params) ≡ (
        if str_eq name j
        then some value
        else (if includes j cleared then none else lookup j params))
unfolding handle_change_value
lookup-handle_change_value name cleared value params j = ground (
  arith,
  lookup-insert name j value (clear_params name cleared params),
  lookup-clear_params name cleared j params,
  eq_iff name j,
  eq_iff j name,
)

-- `updateParams` of frontend/hooks/useUpdateQueryParams.tsx: each value as its text, and none for
-- undefined, null, the empty text and zero.
unfoldable pub update_params : List (String × Option String) → Params → Params
update_params [] params = params
update_params ((key, none) ∷ rest) params = update_params rest (remove key params)
update_params ((key, some value) ∷ rest) params = update_params rest (insert key value params)

-- What the last entry of a name asks for, where there is one.
unfoldable pub asked_for : String → List (String × Option String) → Option String → Option String
asked_for name [] old = old
asked_for name ((key, value) ∷ rest) old =
    asked_for name rest (if str_eq key name then value else old)

-- After an update a name reads as its last entry asks, and as before where it has none.
pub lookup-update_params :
    (entries : List (String × Option String)) (name : String) (params : Params)
    → lookup name (update_params entries params) ≡ asked_for name entries (lookup name params)
unfolding update_params asked_for
lookup-update_params [] name params = refl
lookup-update_params ((key, none) ∷ rest) name params =
    lookup-update_params rest name (remove key params)
    ∙ ap (asked_for name rest) (lookup-remove key name params)
lookup-update_params ((key, some value) ∷ rest) name params =
    lookup-update_params rest name (insert key value params)
    ∙ ap (asked_for name rest) (lookup-insert key name value params)

abbrev pub default_page : ℕ
default_page = 1

abbrev pub default_limit : ℕ
default_limit = 10

module _ (print : ℕ → String) (read : String → ℕ) where
  -- `usePaginationQueryParam`: the page, and the limit, whose change clears the page.
  unfoldable pub page : Params → ℕ
  unfolding param_value
  page params = param_value read "page" default_page params

  unfoldable pub limit : Params → ℕ
  unfolding param_value
  limit params = param_value read "limit" default_limit params

  unfoldable pub handle_change_page : ℕ → Params → Params
  unfolding handle_change_value
  handle_change_page n params = handle_change_value "page" [] (print n) params

  unfoldable pub handle_change_limit : ℕ → Params → Params
  unfolding handle_change_value
  handle_change_limit n params = handle_change_value "limit" ("page" ∷ []) (print n) params

  -- Where numbers are read back as printed and never printed as the empty text, a new page is shown
  -- with the limit as it was, and a new limit from the first page on.
  pub page-handle_change_limit :
      (n : ℕ) (params : Params)
      → ((k : ℕ) → read (print k) ≡ k)
      → ((k : ℕ) → print k ≢ "")
      → (page (handle_change_page n params) ≡ n)
        × (limit (handle_change_page n params) ≡ limit params)
        × (page (handle_change_limit n params) ≡ default_page)
        × (limit (handle_change_limit n params) ≡ n)
  unfolding page limit handle_change_page handle_change_limit handle_change_value
  page-handle_change_limit n params back nonempty =
      let of_page = lookup-handle_change_value "page" [] (print n) params in
      let of_limit = lookup-handle_change_value "limit" ("page" ∷ []) (print n) params in
      let shown : truthy (print n) ≡ true = ground (arith, eq_iff (print n) "", nonempty n) in
      (
        ap (read_or read default_page) (of_page "page") ∙ rw shown (back n),
        ap (read_or read default_limit) (of_page "limit"),
        ap (read_or read default_page) (of_limit "page"),
        ap (read_or read default_limit) (of_limit "limit") ∙ rw shown (back n),
      )

  -- `parseInt(params.get(name) || text, 10)`, for a text that is read as the default
  unfoldable pub dual_value : String → ℕ → Params → ℕ
  dual_value name default params = elim (lookup name params) [
    | none ↦ default
    | some raw ↦ if truthy raw then read raw else default
  ]

  -- The four handlers of `useDualPaginationQueryParam`, which differ in the name and the default:
  -- the default is not written but removed.
  unfoldable pub change_dual : String → ℕ → ℕ → Params → Params
  change_dual name default n params =
      if n == default then remove name params else insert name (print n) params

  abbrev pub handle_change_verified_page : ℕ → Params → Params
  handle_change_verified_page n params = change_dual "verifiedPage" 1 n params

  abbrev pub handle_change_verified_limit : ℕ → Params → Params
  handle_change_verified_limit n params = change_dual "verifiedLimit" 10 n params

  abbrev pub handle_change_unverified_page : ℕ → Params → Params
  handle_change_unverified_page n params = change_dual "unverifiedPage" 1 n params

  abbrev pub handle_change_unverified_limit : ℕ → Params → Params
  handle_change_unverified_limit n params = change_dual "unverifiedLimit" 10 n params

  -- Where numbers are read back as printed and never printed as the empty text, a change of one of
  -- the values is read back under its name, and every value under another name stays.
  pub dual_value-change_dual :
      (name other : String) (default other_default n : ℕ) (params : Params)
      → ((k : ℕ) → read (print k) ≡ k)
      → ((k : ℕ) → print k ≢ "")
      → other ≢ name
      → (dual_value name default (change_dual name default n params) ≡ n)
        × (dual_value other other_default (change_dual name default n params)
            ≡ dual_value other other_default params)
  unfolding dual_value change_dual
  dual_value-change_dual name other default other_default n params back nonempty apart =
      let full = nonempty n in
      elim (Bool-cases (n == default)) [
        | inl same ↦ (
          ground (arith, lookup-remove name name params, eq_iff name name),
          ground (arith, lookup-remove name other params, eq_iff name other),
        )
        | inr new ↦ (
          ground (
            arith,
            lookup-insert name name (print n) params,
            eq_iff name name,
            back n,
            eq_iff (print n) "",
          ),
          ground (arith, lookup-insert name other (print n) params, eq_iff name other),
        )
      ]
