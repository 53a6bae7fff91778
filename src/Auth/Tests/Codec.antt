-- ===== src/Auth/Tests/Codec.antt =====
-- A codec for tokens, by which the theorems on sessions are applied: each character of the access
-- token after a plus sign, then a minus sign and the refresh token.
use Prim.Native.Char.{Char, code}
use Prim.Native.String.{String, [], ◌∷◌}
use mmn_tx_explorer.Base.{
  ℕ, Bool, Option, none, some, ◌==◌, if◌then◌else◌, ◌≡◌, ◌≢◌, refl, ap, arith,
}
use mmn_tx_explorer.Auth.Storage.{TokenData, Json}

abbrev print : String → String → String
print [] r = "-" ∷ r
print (c ∷ s) r = "+" ∷ c ∷ print s r

abbrev push : Char → Option (String × String) → Option (String × String)
push c none = none
push c (some (s, r)) = some (c ∷ s, r)

abbrev is_plus : Char → Bool
is_plus c = code c == 43

abbrev read : String → Option (String × String)
read [] = none
read (x ∷ []) = if is_plus x then none else some ("", "")
read (x ∷ c ∷ s) = if is_plus x then push c (read s) else some ("", c ∷ s)

pub read-print : (s r : String) → read (print s r) ≡ some (s, r)
read-print [] [] = refl
read-print [] (c ∷ r) = refl
read-print (c ∷ s) r = ap (push c) (read-print s r)

abbrev both_tokens : Option (String × String) → Option TokenData
both_tokens none = none
both_tokens (some (s, r)) = some (record { access_token = some s; refresh_token = some r })

-- A text that does not read has no value.
abbrev parsed : Option (String × String) → Option (Option TokenData)
parsed none = none
parsed (some p) = some (both_tokens (some p))

abbrev tag : String → ℕ
tag [] = 0
tag (c ∷ s) = 1

pub print-nonempty : (s r : String) → print s r ≢ ""
print-nonempty [] r e = omega (arith, ap tag e)
print-nonempty (c ∷ s) r e = omega (arith, ap tag e)

abbrev pub codec : Json
codec = record {
  stringify = λ t. print t.access_token t.refresh_token;
  parse = λ s. parsed (read s);
  stringify-nonempty = λ t. print-nonempty t.access_token t.refresh_token;
  parse-stringify = λ t. ap parsed (read-print t.access_token t.refresh_token);
}
