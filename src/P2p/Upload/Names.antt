-- ===== src/P2p/Upload/Names.antt =====
-- Names of uploaded files, for P2p.Upload.
use Prim.Native.Char.{Char}
use Prim.Native.String.{String, [] as empty, ◌∷◌ as cons}
use mmn_tx_explorer.Base.{Bool, true, false, ◌&&◌, ◌≡◌, refl, ap, ◌∙◌, arith, is_space}
use mmn_tx_explorer.P2p.Upload.{
  is_accent, is_safe, remove_accents, join_spaces, keep_safe, Network, normalize_filename,
}

-- Each character is one of `[a-zA-Z0-9._-]`.
unfoldable pub all_safe : String → Bool
all_safe empty = true
all_safe (cons c s) = is_safe c && all_safe s

keep_safe-safe : (s : String) → all_safe (keep_safe s) ≡ true
unfolding all_safe
keep_safe-safe empty = refl
keep_safe-safe (cons c s) = ground (arith, keep_safe-safe s)

-- A safe character is neither white space nor an accent.
is_safe-plain : (c : Char) → is_safe c ≡ true → (is_space c ≡ false) × (is_accent c ≡ false)
unfolding is_safe is_space is_accent
is_safe-plain c h = ground arith

keep_safe-same : (s : String) → all_safe s ≡ true → keep_safe s ≡ s
unfolding all_safe
keep_safe-same empty h = refl
keep_safe-same (cons c s) h = ground (arith, keep_safe-same s)

remove_accents-same : (s : String) → all_safe s ≡ true → remove_accents s ≡ s
unfolding all_safe
remove_accents-same empty h = refl
remove_accents-same (cons c s) h = ground (arith, remove_accents-same s, is_safe-plain c)

join_spaces-same : (b : Bool) (s : String) → all_safe s ≡ true → join_spaces b s ≡ s
unfolding all_safe
join_spaces-same b empty h = refl
join_spaces-same b (cons c s) h = ground (arith, join_spaces-same false s, is_safe-plain c)

-- Where decomposing leaves a text of the letters a to z and A to Z, digits, dots, underscores and dashes as it
-- is, a normalised name holds these only, and normalising it again changes nothing.
pub normalize_filename-safe :
    (net : Network) (name : String)
    → ((s : String) → all_safe s ≡ true → net.decompose s ≡ s)
    → (all_safe (normalize_filename net name) ≡ true)
      × (normalize_filename net (normalize_filename net name) ≡ normalize_filename net name)
unfolding normalize_filename
normalize_filename-safe net name plain =
    let once = keep_safe (join_spaces false (remove_accents (net.decompose name))) in
    let safe = keep_safe-safe (join_spaces false (remove_accents (net.decompose name))) in
    (
      safe,
      ap (λ s. keep_safe (join_spaces false (remove_accents s))) (plain once safe)
          ∙ (ap (λ s. keep_safe (join_spaces false s)) (remove_accents-same once safe)
              ∙ (ap keep_safe (join_spaces-same false once safe) ∙ keep_safe-same once safe)),
    )
