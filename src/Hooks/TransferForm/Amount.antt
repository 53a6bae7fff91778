-- ===== src/Hooks/TransferForm/Amount.antt =====
-- What the amount of the form holds, for Hooks.TransferForm.
use Prim.Native.Nat.{zero, suc}
use Prim.Native.Char.{code}
use Prim.Native.String.{String, [] as empty, ◌∷◌ as cons}
use mmn_tx_explorer.Base.{
  ℕ, ◌≤◌, Bool, true, false, ◌&&◌, ◌==◌, ltb, size, slice, size-slice, Bool-cases, ◌≡◌, ◌⊎◌, inl,
  inr, refl, ap, arith,
}
use mmn_tx_explorer.Hooks.TransferForm.{
  is_decimal, keep_decimals, strip_zeros, starts_zero, limit_amount,
}

-- Each character is a digit.
unfoldable pub all_decimals : String → Bool
all_decimals empty = true
all_decimals (cons c s) = is_decimal c && all_decimals s

keep_decimals-decimals : (s : String) → all_decimals (keep_decimals s) ≡ true
unfolding all_decimals
keep_decimals-decimals empty = refl
keep_decimals-decimals (cons c s) = ground (arith, keep_decimals-decimals s)

keep_decimals-same : (s : String) → all_decimals s ≡ true → keep_decimals s ≡ s
unfolding all_decimals
keep_decimals-same empty h = refl
keep_decimals-same (cons c s) h = ground (arith, keep_decimals-same s)

strip_zeros-decimals : (s : String) → all_decimals s ≡ true → all_decimals (strip_zeros s) ≡ true
unfolding all_decimals
strip_zeros-decimals empty h = refl
strip_zeros-decimals (cons c s) h = ground (arith, strip_zeros-decimals s)

slice-decimals : (n : ℕ) (s : String) → all_decimals s ≡ true → all_decimals (slice n s) ≡ true
unfolding all_decimals
slice-decimals zero s h = refl
slice-decimals (suc n) empty h = refl
slice-decimals (suc n) (cons c s) h = ground (arith, slice-decimals n s)

slice-same : (n : ℕ) (s : String) → size s ≤ n → slice n s ≡ s
slice-same zero empty h = refl
slice-same zero (cons c s) h = absurd (omega arith)
slice-same (suc n) empty h = refl
slice-same (suc n) (cons c s) h = ap (cons c) (slice-same n s (omega arith))

starts_zero-strip_zeros : (s : String) → starts_zero (strip_zeros s) ≡ false
starts_zero-strip_zeros empty = refl
starts_zero-strip_zeros (cons c s) = elim (Bool-cases (code c == 48)) [
  | inl e ↦ rw e (starts_zero-strip_zeros s)
  | inr e ↦ rw e e
]

starts_zero-slice : (n : ℕ) (s : String) → starts_zero s ≡ false → starts_zero (slice n s) ≡ false
starts_zero-slice zero s h = refl
starts_zero-slice (suc n) empty h = refl
starts_zero-slice (suc n) (cons c s) h = h

size-slice-le : (n : ℕ) (s : String) → size (slice n s) ≤ size s
size-slice-le zero s = omega arith
size-slice-le (suc n) empty = omega arith
size-slice-le (suc n) (cons c s) = omega (arith, size-slice-le n s)

-- An amount of digits, at most fifteen, that begins with a zero only where it is that alone.
pub record IsAmount (s : String) : Type 0 where
  pub decimals : all_decimals s ≡ true
  pub short : size s ≤ 15
  pub leading : (starts_zero s ≡ false) ⊎ (size s ≤ 1)

le_of_ltb : (n : ℕ) → ltb 1 n ≡ false → n ≤ 1
le_of_ltb n h = ground arith

limit_amount-IsAmount : (value : String) → IsAmount (limit_amount value)
unfolding limit_amount
limit_amount-IsAmount value =
    let numeric = keep_decimals value in
    let digits = keep_decimals-decimals value in
    elim (Bool-cases (ltb 1 (size numeric) && starts_zero numeric)) [
      | inl e ↦
          rw (limit_amount, e)
            (record {
              decimals =
                  slice-decimals 15 (strip_zeros numeric) (strip_zeros-decimals numeric digits);
              short = size-slice 15 (strip_zeros numeric);
              leading =
                  inl
                    (starts_zero-slice 15 (strip_zeros numeric) (starts_zero-strip_zeros numeric));
            })
      | inr e ↦
          rw (limit_amount, e)
            (record {
              decimals = slice-decimals 15 numeric digits;
              short = size-slice 15 numeric;
              leading = plain numeric e;
            })
    ]
  where
    plain :
        (s : String)
        → (ltb 1 (size s) && starts_zero s) ≡ false
        → (starts_zero (slice 15 s) ≡ false) ⊎ (size (slice 15 s) ≤ 1)
    plain s h = elim (Bool-cases (starts_zero s)) [
      | inr k ↦ inl (starts_zero-slice 15 s k)
      | inl k ↦ inr (omega (arith, size-slice-le 15 s, le_of_ltb (size s) (ground arith)))
    ]

limit_amount-same : (s : String) → IsAmount s → limit_amount s ≡ s
unfolding limit_amount
limit_amount-same s h =
    let same = keep_decimals-same s h.decimals in
    let unstripped = alone s h.leading in
    rw (limit_amount, same, unstripped) (slice-same 15 s h.short)
  where
    alone :
        (t : String)
        → (starts_zero t ≡ false) ⊎ (size t ≤ 1)
        → (ltb 1 (size t) && starts_zero t) ≡ false
    alone t (inl k) = ground arith
    alone t (inr k) = ground arith

-- Whatever is typed as an amount, what is kept of it has at most fifteen characters, all of them
-- digits, and begins with a zero only where it is that alone; and what is kept would be kept as it is.
pub limit_amount_lem :
    (value : String)
    → IsAmount (limit_amount value) × (limit_amount (limit_amount value) ≡ limit_amount value)
limit_amount_lem value = (
  limit_amount-IsAmount value,
  limit_amount-same (limit_amount value) (limit_amount-IsAmount value),
)
