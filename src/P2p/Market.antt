-- ===== src/P2p/Market.antt =====
-- The page of offers: frontend/modules/p2p/components/p2p-trading/p2p.tsx up to its queries, on the
-- address's query of Hooks.QueryParam. `String(n)` and `Number(s)` are parameters.
pub mod Filters
use mmn_tx_explorer.Base.{
  ℕ, String, Bool, true, false, not, ◌&&◌, ◌||◌, Option, none, some, List, [], ◌∷◌, ◌==◌, ==_iff,
  if◌then◌else◌, truthy, str_eq, eq_iff, lookup, Bool-cases, ◌≡◌, ◌≢◌, ◌⊎◌, inl, inr, refl, sym, ap,
  ◌∙◌, arith,
}
use mmn_tx_explorer.P2p.Offer.{TradeTypes, sell, buy}
use mmn_tx_explorer.Hooks.QueryParam.{
  Params, param_value, handle_change_value, update_params, lookup-handle_change_value,
  lookup-update_params, page, limit, handle_change_page,
}

-- `P2P_TAB.OFFERS`
abbrev pub offers_tab : String
offers_tab = "offers"

abbrev pub trade_text : TradeTypes → String
trade_text sell = "SELL"
trade_text buy = "BUY"

abbrev pub text_of : String → String → Params → String
text_of name default params = param_value (λ s. s) name default params

-- `handleTabChange`
unfoldable pub handle_tab_change : String → Params → Params
handle_tab_change value params =
    if str_eq value (text_of "tab" offers_tab params)
    then params
    else update_params (("tab", some value) ∷ ("min", none) ∷ ("max", none) ∷ ("sort", none) ∷ [])
        params

-- `handleSideChange`
unfoldable pub handle_side_change : TradeTypes → Params → Params
handle_side_change new_side params =
    if str_eq (text_of "tab" offers_tab params) offers_tab
    then update_params (("side", some (trade_text new_side)) ∷ []) params
    else update_params
        (("side", some (trade_text new_side))
          ∷ ("tab", some offers_tab)
          ∷ ("min", none)
          ∷ ("max", none)
          ∷ ("sort", none)
          ∷ [])
        params

-- `handleSortChange`
unfoldable pub handle_sort_change : String → Params → Params
handle_sort_change value params = handle_change_value "sort" [] value params

-- What the effect compares.
pub record Filter : Type 0 where
  pub tab : String
  pub side : String
  pub min : ℕ
  pub max : ℕ
  pub sort : String

unfoldable pub same_filter : Filter → Filter → Bool
same_filter f g =
    str_eq f.tab g.tab
    && str_eq f.side g.side
    && (f.min == g.min)
    && (f.max == g.max)
    && str_eq f.sort g.sort

pub record Market : Type 0 where
  pub params : Params
  pub prev_filter : Filter

module _ (print : ℕ → String) (read : String → ℕ) where
  abbrev pub filter_of : Params → Filter
  filter_of params = record {
    tab = text_of "tab" offers_tab params;
    side = text_of "side" "BUY" params;
    min = param_value read "min" 0 params;
    max = param_value read "max" 0 params;
    sort = text_of "sort" "rate_asc" params;
  }

  -- An amount as `updateParams` writes it: nothing for zero.
  abbrev pub amount_entry : Option ℕ → Option String
  amount_entry o = elim o [ none ↦ none | some n ↦ if n == 0 then none else some (print n) ]

  -- `handleFilterChange`
  unfoldable pub handle_filter_change : Option ℕ → Option ℕ → Params → Params
  handle_filter_change new_min new_max params =
      update_params (("min", amount_entry new_min) ∷ ("max", amount_entry new_max) ∷ []) params

  -- The effect on the filters and the page.
  unfoldable pub filter_effect : Market → Market
  filter_effect m =
      let now = filter_of m.params in
      record {
        params =
            if not (same_filter m.prev_filter now) && not (page print read m.params == 1)
            then handle_change_page print read 1 m.params
            else m.params;
        prev_filter = now;
      }
