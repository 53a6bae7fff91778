-- ===== src/Hooks/Strokes.antt =====
-- A codec of numbers, for the tests: strokes, which are read back by counting them.
use Prim.Native.String.{String, [] as empty, ◌∷◌ as cons}
use mmn_tx_explorer.Base.{ℕ, zero, suc, ◌≡◌, ◌≢◌, refl, ap, arith}

-- As many strokes as the number and one more.
abbrev pub print : ℕ → String
print zero = "|"
print (suc n) = cons "|" (print n)

abbrev pub strokes : String → ℕ
strokes empty = 0
strokes (cons c s) = suc (strokes s)

abbrev pub read : String → ℕ
read empty = 0
read (cons c s) = strokes s

strokes-print : (n : ℕ) → strokes (print n) ≡ suc n
strokes-print zero = refl
strokes-print (suc n) = ap (λ k. suc k) (strokes-print n)

pub read-print : (n : ℕ) → read (print n) ≡ n
read-print zero = refl
read-print (suc n) = strokes-print n

pub print-nonempty : (n : ℕ) → print n ≢ ""
print-nonempty n e = omega (arith, ap strokes e, strokes-print n)
