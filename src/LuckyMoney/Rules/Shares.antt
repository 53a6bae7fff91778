-- ===== src/LuckyMoney/Rules/Shares.antt =====
-- The shares of a sum: how an amount is given to a number of people within bounds.
use native.Mathlib.Nat.{suc-mul, zero-mul, mul-suc, mul-zero, mul-add, mul_comm}
use mmn_tx_explorer.Base.{
  ℕ, zero, suc, ◌+◌, ◌-◌, ◌*◌, ◌≤◌, ◌<◌, List, [], ◌∷◌, ◌≡◌, refl, ap, sym, ◌∙◌, arith, leb,
  if◌then◌else◌, length, All, Bool-cases, inl, inr,
}

abbrev pub sum : List ℕ → ℕ
sum [] = 0
sum (x ∷ xs) = x + sum xs

-- `shares n lo d extra`: to each of `n` people at least `lo`, and what is over first come first
-- served, at most `d` to each.
abbrev pub shares : ℕ → ℕ → ℕ → ℕ → List ℕ
shares zero lo d extra = []
shares (suc n) lo d extra =
    if leb extra d then (lo + extra) ∷ shares n lo d 0 else (lo + d) ∷ shares n lo d (extra - d)

pub length-shares : (n lo d extra : ℕ) → length (shares n lo d extra) ≡ n
length-shares zero lo d extra = refl
length-shares (suc n) lo d extra =
    ground (arith, length-shares n lo d 0, length-shares n lo d (extra - d))

pub sum-shares : (n lo d extra : ℕ) → extra ≤ n * d → sum (shares n lo d extra) ≡ n * lo + extra
sum-shares zero lo d extra h = omega (arith, zero-mul lo, zero-mul d)
sum-shares (suc n) lo d extra h =
    let of_lo = suc-mul n lo in
    let of_d = suc-mul n d in
    elim (Bool-cases (leb extra d)) [
      | inl e ↦ rw e (omega (arith, of_lo, sum-shares n lo d 0 (omega arith)))
      | inr e ↦
          let more : d < extra = ground arith in
          rw e (omega (arith, of_lo, sum-shares n lo d (extra - d) (omega (arith, of_d))))
    ]

pub shares-within : (n lo d extra : ℕ) → All (λ s. (lo ≤ s) × (s ≤ lo + d)) (shares n lo d extra)
shares-within zero lo d extra = tt
shares-within (suc n) lo d extra = elim (Bool-cases (leb extra d)) [
  | inl e ↦ rw e ((omega arith, ground arith), shares-within n lo d 0)
  | inr e ↦ rw e ((omega arith, omega arith), shares-within n lo d (extra - d))
]

pub All-weaken {ℓ κ₁ κ₂} :
    {A : Type ℓ} (P : A → Type κ₁) (Q : A → Type κ₂) (xs : List A)
    → ((x : A) → P x → Q x)
    → All P xs
    → All Q xs
All-weaken P Q [] h k = tt
All-weaken P Q (x ∷ xs) h (p, k) = (h x p, All-weaken P Q xs h k)

-- What holds of all shares holds of one, where there is one.
pub All-some {ℓ} :
    {A : Type ℓ} (P : A → Type 0) (xs : List A) → 1 ≤ length xs → All P xs → (x : A) × P x
All-some P [] h k = absurd (omega arith)
All-some P (x ∷ xs) h (p, k) = (x, p)

pub mul-le-sum : (lo : ℕ) (xs : List ℕ) → All (λ s. lo ≤ s) xs → lo * length xs ≤ sum xs
mul-le-sum lo [] h = omega (arith, mul-zero lo)
mul-le-sum lo (x ∷ xs) (a, h) = omega (arith, mul-suc lo (length xs), mul-le-sum lo xs h)

pub sum-le-mul : (hi : ℕ) (xs : List ℕ) → All (λ s. s ≤ hi) xs → sum xs ≤ hi * length xs
sum-le-mul hi [] h = omega arith
sum-le-mul hi (x ∷ xs) (a, h) = omega (arith, mul-suc hi (length xs), sum-le-mul hi xs h)

-- An amount between the bounds times the people can be given out whole within the bounds.
pub distribute :
    (n lo hi total : ℕ)
    → lo ≤ hi
    → lo * n ≤ total
    → total ≤ hi * n
    → (xs : List ℕ) × (length xs ≡ n) × (sum xs ≡ total) × All (λ s. (lo ≤ s) × (s ≤ hi)) xs
distribute n lo hi total order enough used =
    let d = hi - lo in
    let top : lo + d ≡ hi = omega arith in
    let extra = total - n * lo in
    let turned : n * lo ≡ lo * n = mul_comm n lo in
    let split : n * hi ≡ n * lo + n * d = ap (λ t. n * t) (sym top) ∙ mul-add n lo d in
    let turned_hi : n * hi ≡ hi * n = mul_comm n hi in
    (
      shares n lo d extra,
      length-shares n lo d extra,
      omega (arith, sum-shares n lo d extra (omega (arith, turned, split, turned_hi)), turned),
      All-weaken (λ s. (lo ≤ s) × (s ≤ lo + d)) (λ s. (lo ≤ s) × (s ≤ hi)) (shares n lo d extra)
          (λ s h. (h.0, omega (arith, h.1))) (shares-within n lo d extra),
    )

pub le-mul : (n t : ℕ) → 1 ≤ n → t ≤ t * n
le-mul zero t h = absurd (omega arith)
le-mul (suc n) t h = omega (arith, mul-suc t n)
