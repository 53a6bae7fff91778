-- ===== src/Donation/References/Distinct.antt =====
-- Which hashes an update refers to, for Donation.References.
use mmn_tx_explorer.Base.{
  ◌≤◌, String, Bool, true, false, not, ◌&&◌, ◌||◌, List, [], ◌∷◌, ◌++◌, str_eq, eq_iff, eq_refl,
  length, keep, Bool-cases, ◌≡◌, inl, inr, refl, ◌∙◌, arith,
}
use mmn_tx_explorer.Donation.References.{References, max_hashes, is_tx_hash, without, dedupe}

abbrev pub has_hash : String → List String → Bool
has_hash h [] = false
has_hash h (k ∷ ks) = str_eq h k || has_hash h ks

abbrev pub distinct : List String → Bool
distinct [] = true
distinct (h ∷ hs) = not (has_hash h hs) && distinct hs

abbrev pub all_valid : List String → Bool
all_valid [] = true
all_valid (h ∷ hs) = is_tx_hash h && all_valid hs

pub has_hash-append :
    (h : String) (ks ls : List String) → has_hash h (ks ++ ls) ≡ (has_hash h ks || has_hash h ls)
has_hash-append h [] ls = refl
has_hash-append h (k ∷ ks) ls = ground (arith, has_hash-append h ks ls)

has_hash-without :
    (h k : String) (ks : List String)
    → has_hash h (without k ks) ≡ (not (str_eq h k) && has_hash h ks)
has_hash-without h k [] = ground arith
has_hash-without h k (l ∷ ls) = elim (Bool-cases (str_eq l k)) [
  | inl e ↦ let same = (eq_iff l k).0 e in rw e (has_hash-without h k ls ∙ ground (arith, same))
  | inr e ↦ ground (arith, has_hash-without h k ls, eq_iff h k, eq_iff h l, e)
]

pub has_hash-dedupe : (h : String) (ks : List String) → has_hash h (dedupe ks) ≡ has_hash h ks
has_hash-dedupe h [] = refl
has_hash-dedupe h (k ∷ ks) = ground (arith, has_hash-without h k (dedupe ks), has_hash-dedupe h ks)

pub distinct-without :
    (h : String) (ks : List String) → distinct ks ≡ true → distinct (without h ks) ≡ true
distinct-without h [] d = refl
distinct-without h (k ∷ ks) d = ground (arith, distinct-without h ks, has_hash-without k h ks)

pub distinct-dedupe : (ks : List String) → distinct (dedupe ks) ≡ true
distinct-dedupe [] = refl
distinct-dedupe (k ∷ ks) = ground (
  arith,
  distinct-without k (dedupe ks) (distinct-dedupe ks),
  has_hash-without k k (dedupe ks),
  eq_refl k,
)

pub length-without : (h : String) (ks : List String) → length (without h ks) ≤ length ks
length-without h [] = omega arith
length-without h (k ∷ ks) = ground (arith, length-without h ks)

pub length-dedupe : (ks : List String) → length (dedupe ks) ≤ length ks
length-dedupe [] = omega arith
length-dedupe (k ∷ ks) = omega (arith, length-without k (dedupe ks), length-dedupe ks)

pub valid-without :
    (h : String) (ks : List String) → all_valid ks ≡ true → all_valid (without h ks) ≡ true
valid-without h [] v = refl
valid-without h (k ∷ ks) v = ground (arith, valid-without h ks)

pub valid-dedupe : (ks : List String) → all_valid ks ≡ true → all_valid (dedupe ks) ≡ true
valid-dedupe [] v = refl
valid-dedupe (k ∷ ks) v = ground (arith, valid-without k (dedupe ks), valid-dedupe ks)

pub valid-append :
    (ks ls : List String) → all_valid ks ≡ true → all_valid ls ≡ true → all_valid (ks ++ ls) ≡ true
valid-append [] ls v w = w
valid-append (k ∷ ks) ls v w = ground (arith, valid-append ks ls)

pub valid-keep : (ks : List String) → all_valid (keep is_tx_hash ks) ≡ true
valid-keep [] = refl
valid-keep (k ∷ ks) = ground (arith, valid-keep ks)

-- Ten hashes at most, all valid, no two the same.
pub record IsReferences (r : References) : Type 0 where
  pub few : length r.hashes ≤ max_hashes
  pub valid : all_valid r.hashes ≡ true
  pub different : distinct r.hashes ≡ true
