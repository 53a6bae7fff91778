-- ===== src/Wallet/Tests.antt =====
-- The theorems on the transaction history at concrete inputs.
use mmn_tx_explorer.Base.{
  ltb, if◌then◌else◌, ℕ, String, true, false, ◌||◌, none, some, [], ◌∷◌, ◌≡◌, ◌⊎◌, refl, arith,
  truthy, lookup,
}
use mmn_tx_explorer.Hooks.Strokes.{print, read, read-print, print-nonempty}
use mmn_tx_explorer.Hooks.QueryParam.{Params, page}
use mmn_tx_explorer.Wallet.{
  from_filter, to_filter, address_filter, handle_address_filter_change, get_search_params,
  some_text, clamp_page,
}
use mmn_tx_explorer.Wallet.Pages.{clamp_page_lem}
use mmn_tx_explorer.Wallet.Filters.{handle_address_filter_change_lem}

abbrev query : Params
query = ("page", "||||") ∷ ("type", "Sent") ∷ ("from_filter", "bob") ∷ []

clamp_page_lem_example :
    let after = clamp_page print read (some 2) query in
    (page print read after ≡ (if ltb 2 (page print read query) then 2 else page print read query))
    × ((◌≡◌ {A = String} "type" "page") ⊎ (lookup "type" after ≡ some "Sent"))
    × (clamp_page print read (some 2) after ≡ after)
clamp_page_lem_example =
    clamp_page_lem print read 2 query "type" read-print print-nonempty (omega arith)

-- The only filter is emptied; here every text reads as one.
abbrev read_one : String → ℕ
read_one s = 1

handle_address_filter_change_lem_example :
    let after = handle_address_filter_change from_filter "" query in
    let asked = get_search_params print read_one "w1" "2025-01-01" "2025-02-01" after in
    (asked.page_number ≡ 1)
    × (address_filter from_filter after ≡ "")
    × (address_filter to_filter after ≡ address_filter to_filter query)
    × ((((truthy "" || truthy (address_filter to_filter query)) ≡ true)
          × (asked.wallet_address ≡ none)
          × (asked.filter_from_address ≡ some_text (address_filter from_filter after))
          × (asked.filter_to_address ≡ some_text (address_filter to_filter after)))
        ⊎ (((truthy "" || truthy (address_filter to_filter query)) ≡ false)
            × (asked.wallet_address ≡ some "w1")
            × (asked.filter_from_address ≡ none)
            × (asked.filter_to_address ≡ none)))
handle_address_filter_change_lem_example =
    handle_address_filter_change_lem print read_one "w1" "2025-01-01" "2025-02-01" from_filter ""
      query refl
