-- ===== src/Base/Trim.antt =====
-- Texts by their characters: `trim`, the length and what starts a text.
use Prim.Native.Nat.{ℕ, zero, suc, ◌≤◌}
use Prim.Native.Char.{Char, code}
use Prim.Native.String.{String, [] as empty, ◌∷◌ as cons}
use mathlib.Core.Bool.{Bool, true, false, not, ◌||◌, ◌&&◌}
use native.Mathlib.Omega.{arith}
use mmn_tx_explorer.Base.Tests.{leb, ◌==◌, if◌then◌else◌, if_either}
use mmn_tx_explorer.Base.Text.{truthy}

-- White space, as `trim` and `\s` read it.
unfoldable pub is_space : Char → Bool
is_space c =
    let n = code c in
    (leb 9 n && leb n 13)
    || (n == 32
        || (n == 160
            || (n == 5760
                || ((leb 8192 n && leb n 8202)
                    || (n == 8232
                        || (n == 8233
                            || (n == 8239 || (n == 8287 || (n == 12288 || n == 65279)))))))))

-- The number of characters.
abbrev pub size : String → ℕ
size empty = 0
size (cons c s) = suc (size s)

-- `s.slice(0, n)`
abbrev pub slice : ℕ → String → String
slice zero s = empty
slice (suc n) empty = empty
slice (suc n) (cons c s) = cons c (slice n s)

abbrev pub trim_start : String → String
trim_start empty = empty
trim_start (cons c s) = if is_space c then trim_start s else cons c s

abbrev pub trim_end : String → String
trim_end empty = empty
trim_end (cons c s) =
    let rest = trim_end s in if is_space c && not (truthy rest) then empty else cons c rest

-- `s.trim()`
unfoldable pub trim : String → String
trim s = trim_end (trim_start s)

-- `s.startsWith(prefix)`
abbrev pub starts_with : String → String → Bool
starts_with empty s = true
starts_with (cons p ps) empty = false
starts_with (cons p ps) (cons c s) = code p == code c && starts_with ps s

pub size-slice : (n : ℕ) (s : String) → size (slice n s) ≤ n
size-slice zero s = omega arith
size-slice (suc n) empty = omega arith
size-slice (suc n) (cons c s) = omega (arith, size-slice n s)

size-trim_start : (s : String) → size (trim_start s) ≤ size s
size-trim_start empty = omega arith
size-trim_start (cons c s) = ground (arith, size-trim_start s)

size-trim_end : (s : String) → size (trim_end s) ≤ size s
size-trim_end empty = omega arith
size-trim_end (cons c s) =
    if_either (λ t. size t ≤ suc (size s)) (is_space c && not (truthy (trim_end s))) (omega arith)
      (omega (arith, size-trim_end s))

pub size-trim : (s : String) → size (trim s) ≤ size s
unfolding trim
size-trim s = omega (arith, size-trim_start s, size-trim_end (trim_start s))
