-- ===== src/P2p/Market/Filters.antt =====
-- How the page of offers follows its filters, for P2p.Market.
use mmn_tx_explorer.Base.{
  ℕ, String, true, false, not, ◌&&◌, none, some, [], ◌∷◌, ◌==◌, ==_iff, truthy, str_eq, eq_iff,
  lookup, Bool-cases, ◌≡◌, ◌≢◌, ◌⊎◌, inl, inr, refl, ap, ◌∙◌, arith,
}
use mmn_tx_explorer.P2p.Offer.{TradeTypes, sell, buy}
use mmn_tx_explorer.Hooks.QueryParam.{
  Params, read_or, param_value, lookup-handle_change_value, update_params, lookup-update_params,
  asked_for, page, handle_change_page, page-handle_change_limit,
}
use mmn_tx_explorer.P2p.Market.{
  offers_tab, trade_text, text_of, handle_side_change, Filter, same_filter, Market, filter_of,
  filter_effect,
}

same_filter_refl : (f : Filter) → same_filter f f ≡ true
unfolding same_filter
same_filter_refl f = ground (
  arith,
  eq_iff f.tab f.tab,
  eq_iff f.side f.side,
  eq_iff f.sort f.sort,
  ==_iff f.min f.min,
  ==_iff f.max f.max,
)

abbrev pub IsCleared : Params → Type 0
IsCleared params =
    (lookup "min" params ≡ none) × (lookup "max" params ≡ none) × (lookup "sort" params ≡ none)

handle_side_change-offers :
    (side : TradeTypes) (params : Params)
    → str_eq (text_of "tab" offers_tab params) offers_tab ≡ true
    → handle_side_change side params ≡ update_params (("side", some (trade_text side)) ∷ []) params
unfolding handle_side_change
handle_side_change-offers side params h = rw (handle_side_change, h) refl

handle_side_change-elsewhere :
    (side : TradeTypes) (params : Params)
    → str_eq (text_of "tab" offers_tab params) offers_tab ≡ false
    → handle_side_change side params
      ≡ update_params
          (("side", some (trade_text side))
            ∷ ("tab", some offers_tab)
            ∷ ("min", none)
            ∷ ("max", none)
            ∷ ("sort", none)
            ∷ [])
          params
unfolding handle_side_change
handle_side_change-elsewhere side params h = rw (handle_side_change, h) refl

trade_text-shown : (t : TradeTypes) → truthy (trade_text t) ≡ true
trade_text-shown sell = refl
trade_text-shown buy = refl

-- A change of side shows the offers of that side. Where the offers were shown already, their other
-- filters stay; where another list was, the filters of it are cleared.
pub handle_side_change_lem :
    (side : TradeTypes) (params : Params)
    → let after = handle_side_change side params in
      (text_of "tab" offers_tab after ≡ offers_tab)
      × (text_of "side" "BUY" after ≡ trade_text side)
      × (((text_of "tab" offers_tab params ≡ offers_tab)
            × (lookup "min" after ≡ lookup "min" params)
            × (lookup "max" after ≡ lookup "max" params)
            × (lookup "sort" after ≡ lookup "sort" params))
          ⊎ ((text_of "tab" offers_tab params ≢ offers_tab) × IsCleared after))
unfolding param_value asked_for
handle_side_change_lem side params =
    elim (Bool-cases (str_eq (text_of "tab" offers_tab params) offers_tab)) [
      | inl h ↦
          let same : text_of "tab" offers_tab params ≡ offers_tab =
            (eq_iff (text_of "tab" offers_tab params) offers_tab).0 h in
          let e = handle_side_change-offers side params h in
          let reads = lookup-update_params (("side", some (trade_text side)) ∷ []) in
          (
            ap (read_or (λ t. t) offers_tab) (ap (lookup "tab") e ∙ reads "tab" params) ∙ same,
            ap (read_or (λ t. t) "BUY") (ap (lookup "side") e ∙ reads "side" params)
                ∙ rw (trade_text-shown side) refl,
            inl (
              same,
              ap (lookup "min") e ∙ reads "min" params,
              ap (lookup "max") e ∙ reads "max" params,
              ap (lookup "sort") e ∙ reads "sort" params,
            ),
          )
      | inr h ↦
          let e = handle_side_change-elsewhere side params h in
          (
            ap (read_or (λ t. t) offers_tab)
                (ap (lookup "tab") e ∙ lookup-update_params _ "tab" params),
            ap (read_or (λ t. t) "BUY")
                  (ap (lookup "side") e ∙ lookup-update_params _ "side" params)
                ∙ rw (trade_text-shown side) refl,
            inr (
              (λ k. ground (arith, eq_iff (text_of "tab" offers_tab params) offers_tab)),
              (
                ap (lookup "min") e ∙ lookup-update_params _ "min" params,
                ap (lookup "max") e ∙ lookup-update_params _ "max" params,
                ap (lookup "sort") e ∙ lookup-update_params _ "sort" params,
              ),
            ),
          )
    ]

module _ (print : ℕ → String) (read : String → ℕ) where
  filter_of-handle_change_page :
      (n : ℕ) (params : Params)
      → filter_of print read (handle_change_page print read n params) ≡ filter_of print read params
  unfolding handle_change_page param_value
  filter_of-handle_change_page n params =
      let other = lookup-handle_change_value "page" [] (print n) params in
      rw (other "tab", other "side", other "min", other "max", other "sort") refl

  with_filter : Params → Filter → Market
  with_filter params f = record { params = params; prev_filter = f }

  filter_effect-still :
      (m : Market)
      → same_filter m.prev_filter (filter_of print read m.params) ≡ true
      → filter_effect print read m
        ≡ record { params = m.params; prev_filter = filter_of print read m.params }
  unfolding filter_effect
  filter_effect-still m h = rw (filter_effect, h) refl

  filter_effect-keeps :
      (m : Market)
      → filter_of print read (filter_effect print read m).params ≡ filter_of print read m.params
  unfolding filter_effect
  filter_effect-keeps m =
      elim (Bool-cases (
        not (same_filter m.prev_filter (filter_of print read m.params))
        && not (page print read m.params == 1))) [
          | inl e ↦ rw (filter_effect, e) (filter_of-handle_change_page 1 m.params)
          | inr e ↦ rw (filter_effect, e) refl
        ]

  filter_effect-again :
      (m : Market)
      → filter_effect print read (filter_effect print read m) ≡ filter_effect print read m
  unfolding filter_effect with_filter
  filter_effect-again m =
      let after = filter_effect print read m in
      let kept = filter_effect-keeps m in
      let still : same_filter (filter_of print read m.params) (filter_of print read after.params)
          ≡ true =
        rw kept (same_filter_refl (filter_of print read m.params)) in
      filter_effect-still after still ∙ ap (with_filter after.params) kept

  -- Where numbers are read back as printed and never printed as the empty text, the effect keeps the
  -- filters, and running it again changes nothing; either the filters are those before and the query
  -- stays, or the first page is shown.
  pub filter_effect_lem :
      (m : Market)
      → ((k : ℕ) → read (print k) ≡ k)
      → ((k : ℕ) → print k ≢ "")
      → let after = filter_effect print read m in
        (filter_effect print read after ≡ after)
        × (filter_of print read after.params ≡ filter_of print read m.params)
        × (((same_filter m.prev_filter (filter_of print read m.params) ≡ true)
              × (after.params ≡ m.params))
            ⊎ (page print read after.params ≡ 1))
  unfolding filter_effect
  filter_effect_lem m back nonempty = (
    filter_effect-again m,
    filter_effect-keeps m,
    elim (Bool-cases (same_filter m.prev_filter (filter_of print read m.params))) [
      | inl e ↦ inl (e, rw (filter_effect, e) refl)
      | inr e ↦ inr (elim (Bool-cases (page print read m.params == 1)) [
        | inl f ↦ rw (filter_effect, e, f) ((==_iff (page print read m.params) 1).0 f)
        | inr f ↦
            rw (filter_effect, e, f)
              (page-handle_change_limit print read 1 m.params back nonempty).0
      ])
    ],
  )
