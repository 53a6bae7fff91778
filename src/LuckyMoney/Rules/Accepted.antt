-- ===== src/LuckyMoney/Rules/Accepted.antt =====
-- Which forms the rules accept, for LuckyMoney.Rules.
use mmn_tx_explorer.Base.{
  ℕ, ◌*◌, ◌≤◌, Bool, true, false, not, ◌&&◌, ◌||◌, List, ◌≡◌, ◌⊎◌, ◌↔◌, inl, inr, ap, arith, truthy,
  size, length, All, Bool-cases,
}
use mmn_tx_explorer.LuckyMoney.Create.{CreateRedEnvelopeForm}
use mmn_tx_explorer.LuckyMoney.Rules.{
  max_participant_count, min_number, max_number, name_issue, message_issue, validate_total,
  total_issue, count_issue, amount_min_issue, amount_max_issue, no_issue, is_valid,
}
use mmn_tx_explorer.LuckyMoney.Rules.Shares.{
  sum, distribute, le-mul, mul-le-sum, sum-le-mul, All-weaken, All-some,
}

-- The texts are there, and the name is short.
pub record IsFilled (f : CreateRedEnvelopeForm) : Type 0 where
  pub name : truthy f.name ≡ true
  pub short : size f.name ≤ 200
  pub message : truthy f.message ≡ true

-- The amounts that each person may get.
abbrev pub IsShare : CreateRedEnvelopeForm → ℕ → Type 0
IsShare f s =
    (1 ≤ s) × ((f.random_distribution ≡ false) ⊎ ((min_number f ≤ s) × (s ≤ max_number f)))

-- The total amount, given whole to as many people as the form says.
pub record IsDistribution (f : CreateRedEnvelopeForm) (xs : List ℕ) : Type 0 where
  pub people : length xs ≡ f.participant_count
  pub whole : sum xs ≡ f.total_amount
  pub shares : All (IsShare f) xs

-- The amounts of a random distribution.
pub record IsRange (f : CreateRedEnvelopeForm) : Type 0 where
  pub least : 1 ≤ min_number f
  pub order : min_number f ≤ max_number f
  pub enough : min_number f * f.participant_count ≤ f.total_amount
  pub used : f.total_amount ≤ max_number f * f.participant_count

-- What the numbers of an accepted form are.
pub record IsNumbers (user_balance : ℕ) (f : CreateRedEnvelopeForm) : Type 0 where
  pub balance : f.total_amount ≤ user_balance
  pub some_people : 1 ≤ f.participant_count
  pub few_people : f.participant_count ≤ max_participant_count
  pub enough : f.participant_count ≤ f.total_amount
  pub range : (f.random_distribution ≡ false) ⊎ IsRange f

texts_iff :
    (f : CreateRedEnvelopeForm)
    → ((no_issue (name_issue f) && no_issue (message_issue f)) ≡ true) ↔ IsFilled f
unfolding name_issue message_issue
texts_iff f = (
  λ h. record { name = ground arith; short = ground arith; message = ground arith },
  λ h. ground (arith, h.name, h.short, h.message),
)

-- The rules on the numbers.
numbers_valid : ℕ → CreateRedEnvelopeForm → Bool
numbers_valid user_balance f =
    no_issue (total_issue user_balance f)
    && no_issue (count_issue f)
    && (not f.random_distribution
        || (no_issue (amount_min_issue f) && no_issue (amount_max_issue f)))

numbers_valid-IsNumbers :
    (user_balance : ℕ) (f : CreateRedEnvelopeForm)
    → numbers_valid user_balance f ≡ true
    → IsNumbers user_balance f
unfolding numbers_valid total_issue validate_total count_issue amount_min_issue amount_max_issue
numbers_valid-IsNumbers user_balance f h = record {
  balance = ground arith;
  some_people = ground arith;
  few_people = ground arith;
  enough = ground arith;
  range = elim (Bool-cases f.random_distribution) [
    | inr equal ↦ inl equal
    | inl random ↦ inr (record {
      least = ground arith;
      order = ground arith;
      enough = ground arith;
      used = ground arith;
    })
  ];
}

IsNumbers-numbers_valid :
    (user_balance : ℕ) (f : CreateRedEnvelopeForm)
    → IsNumbers user_balance f
    → numbers_valid user_balance f ≡ true
unfolding numbers_valid total_issue validate_total count_issue amount_min_issue amount_max_issue
IsNumbers-numbers_valid user_balance f h = elim h.range [
  | inl equal ↦ ground (arith, h.balance, h.some_people, h.few_people, h.enough)
  | inr r ↦
      ground (
        arith, h.balance, h.some_people, h.few_people, h.enough, r.least, r.order, r.enough, r.used,
      )
]

-- Numbers within the rules can be given out whole.
IsNumbers-IsDistribution :
    (user_balance : ℕ) (f : CreateRedEnvelopeForm)
    → IsNumbers user_balance f
    → (xs : List ℕ) × IsDistribution f xs
IsNumbers-IsDistribution user_balance f h = elim h.range [
  | inl equal ↦
      let (xs, people, whole, within) =
        distribute f.participant_count 1 f.total_amount f.total_amount
          (omega (arith, h.some_people, h.enough)) (omega (arith, h.enough))
          (le-mul f.participant_count f.total_amount h.some_people) in
      (
        xs,
        record {
          people = people;
          whole = whole;
          shares = All-weaken _ (IsShare f) xs (λ s k. (k.0, inl equal)) within;
        },
      )
  | inr r ↦
      let (xs, people, whole, within) =
        distribute f.participant_count (min_number f) (max_number f) f.total_amount r.order r.enough
          r.used in
      (
        xs,
        record {
          people = people;
          whole = whole;
          shares = All-weaken _ (IsShare f) xs (λ s k. (omega (arith, k.0, r.least), inr k)) within;
        },
      )
]

distribution-enough :
    (f : CreateRedEnvelopeForm) (xs : List ℕ)
    → IsDistribution f xs
    → f.participant_count ≤ f.total_amount
distribution-enough f xs d =
    let ones = All-weaken (IsShare f) (λ s. 1 ≤ s) xs (λ s k. k.0) d.shares in
    omega (arith, mul-le-sum 1 xs ones, d.people, d.whole)

distribution-IsRange :
    (f : CreateRedEnvelopeForm) (xs : List ℕ)
    → IsDistribution f xs
    → 1 ≤ f.participant_count
    → 1 ≤ min_number f
    → (f.random_distribution ≡ false) ⊎ IsRange f
distribution-IsRange f xs d people one = elim (Bool-cases f.random_distribution) [
  | inr equal ↦ inl equal
  | inl random ↦
      let both : (s : ℕ) → IsShare f s → (min_number f ≤ s) × (s ≤ max_number f) =
        λ s k. elim k.1 [ inl equal ↦ absurd (cc) | inr b ↦ b ] in
      let within = All-weaken (IsShare f) _ xs both d.shares in
      let (s, (a, b)) = All-some _ xs (omega (arith, d.people, people)) within in
      let low =
        mul-le-sum (min_number f) xs
          (All-weaken _ (λ t. min_number f ≤ t) xs (λ t k. k.0) within) in
      let high =
        sum-le-mul (max_number f) xs
          (All-weaken _ (λ t. t ≤ max_number f) xs (λ t k. k.1) within) in
      inr (record {
        least = one;
        order = omega (arith, a, b);
        enough = omega (arith, low, d.whole, ap (λ n. min_number f * n) d.people);
        used = omega (arith, high, d.whole, ap (λ n. max_number f * n) d.people);
      })
]

-- What is given out whole is within the rules.
distribution-IsNumbers :
    (user_balance : ℕ) (f : CreateRedEnvelopeForm) (xs : List ℕ)
    → IsDistribution f xs
    → f.total_amount ≤ user_balance
    → 1 ≤ f.participant_count
    → f.participant_count ≤ max_participant_count
    → (f.random_distribution ≡ false) ⊎ (1 ≤ min_number f)
    → IsNumbers user_balance f
distribution-IsNumbers user_balance f xs d within people few least = record {
  balance = within;
  some_people = people;
  few_people = few;
  enough = distribution-enough f xs d;
  range = elim least [ inl equal ↦ inl equal | inr one ↦ distribution-IsRange f xs d people one ];
}

five_parts :
    (a b c d e : Bool)
    → ((a && b && c && d && e) ≡ true) ↔ (((a && b) ≡ true) × ((c && d && e) ≡ true))
five_parts true true c d e = ground arith
five_parts true false c d e = ground arith
five_parts false b c d e = ground arith

is_valid_parts :
    (user_balance : ℕ) (f : CreateRedEnvelopeForm)
    → (is_valid user_balance f ≡ true) ↔ (
        ((no_issue (name_issue f) && no_issue (message_issue f)) ≡ true)
        × (numbers_valid user_balance f ≡ true))
unfolding is_valid numbers_valid
is_valid_parts user_balance f =
    five_parts (no_issue (name_issue f)) (no_issue (message_issue f))
      (no_issue (total_issue user_balance f)) (no_issue (count_issue f)) _

least_of :
    (f : CreateRedEnvelopeForm)
    → (f.random_distribution ≡ false) ⊎ IsRange f
    → (f.random_distribution ≡ false) ⊎ (1 ≤ min_number f)
least_of f (inl equal) = inl equal
least_of f (inr r) = inr r.least

-- The form is valid exactly when its texts are there, its name has at most 200 characters, there are
-- one to 500 people, the total amount is within the balance, a random distribution gives at least
-- one to each, and the total amount can be given out whole, at least one to each, and between the
-- two amounts where the distribution is random.
pub is_valid_iff :
    (user_balance : ℕ) (f : CreateRedEnvelopeForm)
    → (is_valid user_balance f ≡ true) ↔ (
        IsFilled f
        × (f.total_amount ≤ user_balance)
        × (1 ≤ f.participant_count)
        × (f.participant_count ≤ max_participant_count)
        × ((f.random_distribution ≡ false) ⊎ (1 ≤ min_number f))
        × ((xs : List ℕ) × IsDistribution f xs))
is_valid_iff user_balance f = (
  λ h.
      let both = (is_valid_parts user_balance f).0 h in
      let numbers = numbers_valid-IsNumbers user_balance f both.1 in
      (
        (texts_iff f).0 both.0,
        numbers.balance,
        numbers.some_people,
        numbers.few_people,
        least_of f numbers.range,
        IsNumbers-IsDistribution user_balance f numbers,
      ),
  λ (filled, within, people, few, least, (xs, d)). (is_valid_parts user_balance f).1 (
    (texts_iff f).1 filled,
    IsNumbers-numbers_valid user_balance f
        (distribution-IsNumbers user_balance f xs d within people few least),
  ),
)
