-- ===== src/P2p/Offer.antt =====
-- The form of a new offer: createOfferSchema of
-- frontend/modules/p2p/components/p2p-trading/create-offer-form/validation-schema.ts. Amounts are
-- whole numbers: the schema refuses negative ones, and fractions are left out. `parseFloat` is a
-- parameter: none where it gives NaN, else whether the number is greater than zero.
use Prim.Native.Char.{Char, code}
use Prim.Native.String.{String, [] as empty, ◌∷◌ as cons}
use mmn_tx_explorer.Base.{
  ℕ, ◌≤◌, ◌<◌, Bool, true, false, ◌&&◌, Option, none, some, List, [], ◌∷◌, ◌++◌, ◌≡◌, ◌↔◌, ◌⊎◌, inl,
  inr, sym, ap, ◌∙◌, &&_iff, arith, ltb, leb, if◌then◌else◌, truthy, includes, Bool-cases,
  Option-cases,
}

pub data TradeTypes : Type 0 where
  sell buy : TradeTypes

pub record OfferForm : Type 0 where
  pub side : TradeTypes
  pub amount : ℕ
  pub price_rate : String
  pub limit_min : ℕ
  pub limit_max : ℕ
  pub bank : String
  pub account_number : Option String
  pub account_name : Option String

pub data Issue : Type 0 where
  account_number_missing account_number_digits account_name_missing : Issue
  min_missing min_over_amount max_missing max_over_amount max_below_min : Issue

abbrev pub banks : List String
banks = "MB" ∷ "VCB" ∷ "TCB" ∷ "ACB" ∷ "TPBANK" ∷ "VIETCOMBANK" ∷ []

abbrev pub is_digit : Char → Bool
is_digit c = leb 48 (code c) && leb (code c) 57

abbrev pub all_digits : String → Bool
all_digits empty = true
all_digits (cons c s) = is_digit c && all_digits s

-- `/^\d+$/.test(s)`
abbrev pub is_number : String → Bool
is_number s = truthy s && all_digits s

-- The text, where it is there and not empty.
abbrev pub filled : Option String → Bool
filled none = false
filled (some s) = truthy s

abbrev pub number_issues : Option String → List Issue
number_issues none = account_number_missing ∷ []
number_issues (some s) =
    if truthy s
    then (if is_number s then [] else account_number_digits ∷ [])
    else account_number_missing ∷ []

unfoldable pub account_issues : OfferForm → List Issue
account_issues d = elim d.side [
  | buy ↦ []
  | sell ↦
      number_issues d.account_number
      ++ (if filled d.account_name then [] else account_name_missing ∷ [])
]

unfoldable pub min_issues : OfferForm → List Issue
min_issues d =
    if leb d.limit_min 0
    then min_missing ∷ []
    else (if ltb d.amount d.limit_min then min_over_amount ∷ [] else [])

unfoldable pub max_issues : OfferForm → List Issue
max_issues d =
    if leb d.limit_max 0
    then max_missing ∷ []
    else (if ltb d.amount d.limit_max
        then max_over_amount ∷ []
        else (if ltb d.limit_max d.limit_min then max_below_min ∷ [] else []))

-- What `superRefine` adds.
unfoldable pub refine_offer : OfferForm → List Issue
unfolding account_issues min_issues max_issues
refine_offer d = account_issues d ++ (if ltb 0 d.amount then min_issues d ++ max_issues d else [])

abbrev pub positive : Option Bool → Bool
positive none = false
positive (some b) = b

abbrev pub is_none : List Issue → Bool
is_none [] = true
is_none (i ∷ is) = false

module _ (parse_float : String → Option Bool) where
  -- The conditions of the object itself.
  unfoldable pub base_accepts : OfferForm → Bool
  base_accepts d =
      ltb 0 d.amount
      && ((truthy d.price_rate && positive (parse_float d.price_rate)) && includes d.bank banks)

  -- `createOfferSchema.safeParse(d).success`
  unfoldable pub accepts : OfferForm → Bool
  unfolding base_accepts refine_offer
  accepts d = base_accepts d && is_none (refine_offer d)

-- The account of an offer: a buyer needs none, a seller has a name and a number of digits.
abbrev pub IsAccount : OfferForm → Type 0
IsAccount d =
    (d.side ≡ buy)
    ⊎ ((number : String) × (d.account_number ≡ some number)
        × (is_number number ≡ true)
        × (filled d.account_name ≡ true))

account_issues_iff : (d : OfferForm) → (account_issues d ≡ []) ↔ IsAccount d
unfolding account_issues
account_issues_iff d = (to, from)
  where
    to : account_issues d ≡ [] → IsAccount d
    to e = elim (Option-cases d.account_number) [
      | inl f ↦ inl (ground arith)
      | inr (s, f) ↦ elim (Bool-cases (is_number s)) [
        | inl digits ↦ elim (Bool-cases (filled d.account_name)) [
          | inl named ↦ inr (s, f, digits, named)
          | inr blank ↦ inl (ground arith)
        ]
        | inr other ↦ inl (ground arith)
      ]
    ]

    from : IsAccount d → account_issues d ≡ []
    from (inl b) = ground arith
    from (inr (number, given, digits, named)) = ground arith

limit_issues_iff :
    (d : OfferForm)
    → 0 < d.amount
    → (min_issues d ++ max_issues d ≡ [])
      ↔ ((0 < d.limit_min) × (d.limit_min ≤ d.limit_max) × (d.limit_max ≤ d.amount))
unfolding min_issues max_issues
limit_issues_iff d h = elim (Bool-cases (leb d.limit_min 0)) [
  | inl a ↦ ground arith
  | inr a ↦ elim (Bool-cases (ltb d.amount d.limit_min)) [
    | inl b ↦ ground arith
    | inr b ↦ elim (Bool-cases (leb d.limit_max 0)) [
      | inl c ↦ ground arith
      | inr c ↦ elim (Bool-cases (ltb d.amount d.limit_max)) [
        | inl e ↦ ground arith
        | inr e ↦ elim (Bool-cases (ltb d.limit_max d.limit_min)) [
          | inl f ↦ ground arith
          | inr f ↦ ground arith
        ]
      ]
    ]
  ]
]

-- What an accepted offer has.
pub record IsOffer (parse_float : String → Option Bool) (d : OfferForm) : Type 0 where
  pub amount : 0 < d.amount
  pub rate : positive (parse_float d.price_rate) ≡ true
  pub rate_text : truthy d.price_rate ≡ true
  pub bank : includes d.bank banks ≡ true
  pub min : 0 < d.limit_min
  pub max : d.limit_min ≤ d.limit_max
  pub within : d.limit_max ≤ d.amount
  pub account : IsAccount d

is_none_iff : (xs : List Issue) → (is_none xs ≡ true) ↔ (xs ≡ [])
is_none_iff [] = ground arith
is_none_iff (x ∷ xs) = ground arith

append-nil_iff : (xs ys : List Issue) → (xs ++ ys ≡ []) ↔ ((xs ≡ []) × (ys ≡ []))
append-nil_iff [] ys = ground arith
append-nil_iff (x ∷ xs) ys = ground arith

ltb-true : (a b : ℕ) → a < b → ltb a b ≡ true
ltb-true a b h = ground arith

refine_offer-limits :
    (d : OfferForm)
    → 0 < d.amount
    → refine_offer d ≡ account_issues d ++ (min_issues d ++ max_issues d)
unfolding refine_offer
refine_offer-limits d h =
    let on : ltb 0 d.amount ≡ true = ground arith in
    ap (λ b. account_issues d ++ (if b then min_issues d ++ max_issues d else [])) on

refine_offer_iff :
    (d : OfferForm)
    → 0 < d.amount
    → (refine_offer d ≡ [])
      ↔ (IsAccount d × (0 < d.limit_min) × (d.limit_min ≤ d.limit_max) × (d.limit_max ≤ d.amount))
refine_offer_iff d h =
    let parts = append-nil_iff (account_issues d) (min_issues d ++ max_issues d) in
    let all = refine_offer-limits d h in
    (
      λ e.
          let (a, l) = parts.0 (sym all ∙ e) in
          let (low, order, high) = (limit_issues_iff d h).0 l in
          ((account_issues_iff d).0 a, low, order, high),
      λ k. all ∙ parts.1 ((account_issues_iff d).1 k.0, (limit_issues_iff d h).1 (k.1, k.2, k.3)),
    )

-- The schema accepts an offer exactly when its amount is positive, its limits are positive, in order
-- and within the amount, its rate is a positive number, its bank is listed, and a seller's account is
-- named and numbered by digits.
pub accepts_iff :
    (parse_float : String → Option Bool) (d : OfferForm)
    → (accepts parse_float d ≡ true) ↔ IsOffer parse_float d
unfolding accepts base_accepts
accepts_iff parse_float d = (to, from)
  where
    to : accepts parse_float d ≡ true → IsOffer parse_float d
    to e =
        let (base, clean) = (&&_iff (base_accepts parse_float d) (is_none (refine_offer d))).0 e in
        let (pos, more) = (&&_iff (ltb 0 d.amount) _).0 base in
        let (rates, bank) = (&&_iff _ (includes d.bank banks)).0 more in
        let (rate_text, rate) = (&&_iff (truthy d.price_rate) _).0 rates in
        let positive_amount : 0 < d.amount = ground arith in
        let none_left = (is_none_iff (refine_offer d)).0 clean in
        let (account, low, order, high) = (refine_offer_iff d positive_amount).0 none_left in
        record {
          amount = positive_amount;
          rate = rate;
          rate_text = rate_text;
          bank = bank;
          min = low;
          max = order;
          within = high;
          account = account;
        }

    from : IsOffer parse_float d → accepts parse_float d ≡ true
    from k =
        let clean = (refine_offer_iff d k.amount).1 (k.account, k.min, k.max, k.within) in
        let pos : ltb 0 d.amount ≡ true = ltb-true 0 d.amount k.amount in
        (&&_iff (base_accepts parse_float d) (is_none (refine_offer d))).1 (
          (&&_iff (ltb 0 d.amount) _).1 (
            pos,
            (&&_iff _ (includes d.bank banks)).1
                ((&&_iff (truthy d.price_rate) _).1 (k.rate_text, k.rate), k.bank),
          ),
          (is_none_iff (refine_offer d)).1 clean,
        )
