-- ===== src/Wallet/Filters.antt =====
-- What the transaction history asks for after a change of a filter, for Wallet.
use mmn_tx_explorer.Base.{
  ℕ, String, Bool, true, false, not, ◌&&◌, ◌||◌, none, some, if◌then◌else◌, str_eq, eq_iff, truthy,
  lookup, insert, remove, lookup-insert, lookup-remove, Bool-cases, ◌≡◌, ◌⊎◌, inl, inr, refl, ap,
  ◌∙◌, arith,
}
use mmn_tx_explorer.Hooks.QueryParam.{Params, read_or, param_value, page, default_page}
use mmn_tx_explorer.Wallet.{
  FilterType, from_filter, to_filter, filter_param, other_filter, address_filter, transaction_type,
  handle_address_filter_change, some_text, get_search_params,
}

-- What a change of one filter leaves under the names.
handle_address_filter_change-lookup :
    (t : FilterType) (value : String) (params : Params) (name : String)
    → lookup name (handle_address_filter_change t value params) ≡ (
        if str_eq "page" name
        then some "1"
        else (if str_eq (filter_param t) name
            then some_text value
            else (if str_eq "type" name
                  && not (truthy value)
                  && not (truthy (address_filter (other_filter t) params))
                then none
                else lookup name params)))
unfolding handle_address_filter_change
handle_address_filter_change-lookup t value params name =
    let kept =
      if truthy value
      then insert (filter_param t) value params
      else (if truthy (address_filter (other_filter t) params)
          then remove (filter_param t) params
          else remove "type" (remove (filter_param t) params)) in
    ground (
      arith,
      lookup-insert "page" name "1" kept,
      lookup-insert (filter_param t) name value params,
      lookup-remove (filter_param t) name params,
      lookup-remove "type" name (remove (filter_param t) params),
    )

shown_text : (default s : String) → default ≡ "" → read_or (λ t. t) default (some_text s) ≡ s
shown_text default s e = ground (arith, eq_iff s "")

-- What a change of a filter leaves of the two filters and of the type.
handle_address_filter_change-filters :
    (t : FilterType) (value : String) (params : Params)
    → let after = handle_address_filter_change t value params in
      (address_filter t after ≡ value)
      × (address_filter (other_filter t) after ≡ address_filter (other_filter t) params)
unfolding param_value
handle_address_filter_change-filters from_filter value params =
    let left = handle_address_filter_change-lookup from_filter value params in
    (
      ap (read_or (λ s. s) "") (left "from_filter") ∙ shown_text "" value refl,
      ap (read_or (λ s. s) "") (left "to_filter"),
    )
handle_address_filter_change-filters to_filter value params =
    let left = handle_address_filter_change-lookup to_filter value params in
    (
      ap (read_or (λ s. s) "") (left "to_filter") ∙ shown_text "" value refl,
      ap (read_or (λ s. s) "") (left "from_filter"),
    )

cleared_type :
    (t : FilterType) (value : String) (params : Params)
    → truthy value ≡ false
    → truthy (address_filter (other_filter t) params) ≡ false
    → transaction_type (handle_address_filter_change t value params) ≡ "All Transaction"
unfolding param_value
cleared_type from_filter value params empty none_left =
    let gone : lookup "type" (handle_address_filter_change from_filter value params) ≡ none =
      handle_address_filter_change-lookup from_filter value params "type"
      ∙ rw (empty, none_left) refl in
    ap (read_or (λ s. s) "All Transaction") gone
cleared_type to_filter value params empty none_left =
    let gone : lookup "type" (handle_address_filter_change to_filter value params) ≡ none =
      handle_address_filter_change-lookup to_filter value params "type"
      ∙ rw (empty, none_left) refl in
    ap (read_or (λ s. s) "All Transaction") gone

-- Whether any filter is left.
abbrev any_filter : Params → Bool
any_filter params =
    truthy (address_filter from_filter params) || truthy (address_filter to_filter params)

neither : (a b : Bool) → (a || b) ≡ false → (a ≡ false) × (b ≡ false)
neither a b h = ground arith

or_turned : (a b : Bool) → (a || b) ≡ (b || a)
or_turned true true = refl
or_turned true false = refl
or_turned false true = refl
or_turned false false = refl

any_filter-handle_address_filter_change :
    (t : FilterType) (value : String) (params : Params)
    → any_filter (handle_address_filter_change t value params)
      ≡ (truthy value || truthy (address_filter (other_filter t) params))
any_filter-handle_address_filter_change from_filter value params =
    let e = handle_address_filter_change-filters from_filter value params in
    ap
      (λ a.
        truthy a
        || truthy
            (address_filter to_filter (handle_address_filter_change from_filter value params)))
      e.0
    ∙ ap (λ b. truthy value || truthy b) e.1
any_filter-handle_address_filter_change to_filter value params =
    let e = handle_address_filter_change-filters to_filter value params in
    ap
      (λ b.
        truthy (address_filter from_filter (handle_address_filter_change to_filter value params))
        || truthy b)
      e.0
    ∙ ap (λ a. truthy a || truthy value) e.1
    ∙ or_turned (truthy (address_filter from_filter params)) (truthy value)

module _ (print : ℕ → String) (read : String → ℕ) where
  search-filtered :
      (wallet start_date end_date : String) (params : Params)
      → any_filter params ≡ true
      → let asked = get_search_params print read wallet start_date end_date params in
        (asked.wallet_address ≡ none)
        × (asked.filter_from_address ≡ some_text (address_filter from_filter params))
        × (asked.filter_to_address ≡ some_text (address_filter to_filter params))
  unfolding get_search_params
  search-filtered wallet start_date end_date params h = rw (get_search_params, h) (refl, refl, refl)

  search-all :
      (wallet start_date end_date : String) (params : Params)
      → any_filter params ≡ false
      → transaction_type params ≡ "All Transaction"
      → let asked = get_search_params print read wallet start_date end_date params in
        (asked.wallet_address ≡ some wallet)
        × (asked.filter_from_address ≡ none)
        × (asked.filter_to_address ≡ none)
  unfolding get_search_params
  search-all wallet start_date end_date params h e = rw (get_search_params, h, e) (refl, refl, refl)

  search-page :
      (wallet start_date end_date : String) (params : Params)
      → (get_search_params print read wallet start_date end_date params).page_number
        ≡ page print read params
  unfolding get_search_params
  search-page wallet start_date end_date params = ground (arith)

  first_page :
      (t : FilterType) (value : String) (params : Params)
      → read "1" ≡ 1
      → page print read (handle_address_filter_change t value params) ≡ 1
  unfolding page param_value
  first_page t value params one =
      ap (read_or read default_page) (handle_address_filter_change-lookup t value params "page")
      ∙ one

  -- Where the text "1" reads as one, a change of a filter asks for the first page of what that filter
  -- and the other, as it was, let through; where neither is left, it asks for all of the wallet.
  pub handle_address_filter_change_lem :
      (wallet start_date end_date : String) (t : FilterType) (value : String) (params : Params)
      → read "1" ≡ 1
      → let after = handle_address_filter_change t value params in
        let asked = get_search_params print read wallet start_date end_date after in
        (asked.page_number ≡ 1)
        × (address_filter t after ≡ value)
        × (address_filter (other_filter t) after ≡ address_filter (other_filter t) params)
        × ((((truthy value || truthy (address_filter (other_filter t) params)) ≡ true)
              × (asked.wallet_address ≡ none)
              × (asked.filter_from_address ≡ some_text (address_filter from_filter after))
              × (asked.filter_to_address ≡ some_text (address_filter to_filter after)))
            ⊎ (((truthy value || truthy (address_filter (other_filter t) params)) ≡ false)
                × (asked.wallet_address ≡ some wallet)
                × (asked.filter_from_address ≡ none)
                × (asked.filter_to_address ≡ none)))
  handle_address_filter_change_lem wallet start_date end_date t value params one =
      let after = handle_address_filter_change t value params in
      let filters = handle_address_filter_change-filters t value params in
      let any = any_filter-handle_address_filter_change t value params in
      (
        search-page wallet start_date end_date after ∙ first_page t value params one,
        filters.0,
        filters.1,
        elim (Bool-cases (truthy value || truthy (address_filter (other_filter t) params))) [
          | inl e ↦
              let (a, b, c) = search-filtered wallet start_date end_date after (any ∙ e) in
              inl (e, a, b, c)
          | inr e ↦
              let parts =
                neither (truthy value) (truthy (address_filter (other_filter t) params)) e in
              let (a, b, c) =
                search-all wallet start_date end_date after (any ∙ e)
                  (cleared_type t value params parts.0 parts.1) in
              inr (e, a, b, c)
        ],
      )
