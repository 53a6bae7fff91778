-- ===== src/P2p/Upload/Retry.antt =====
-- The end of the loops of uploads, for P2p.Upload.
use Prim.Native.Nat.{suc}
use mmn_tx_explorer.Base.{
  ℕ, zero, String, ◌+◌, ◌*◌, ◌≤◌, ◌<◌, true, false, Option, none, some, List, [], ◌∷◌, ◌≡◌, ◌≢◌,
  refl, ◌⊎◌, inl, inr, ◌∙◌, ap, arith, ltb, length, Bool-cases, Option-cases,
}
use mmn_tx_explorer.Hooks.Transfer.{Answer, threw, answered}
use mmn_tx_explorer.P2p.Upload.{
  File, UploadResult, Network, max_file_size, upload_attachment_file, attempt_upload, max_retries,
  upload_all,
}

-- What an attempt may answer.
abbrev pub AttemptOutcome : Answer (Option UploadResult) → Type 0
AttemptOutcome a =
    ((message : Option String) × (a ≡ threw message))
    ⊎ ((a ≡ answered none) ⊎ ((result : UploadResult) × (a ≡ answered (some result))))

outcome : (a : Answer (Option UploadResult)) → AttemptOutcome a
outcome (threw message) = inl (message, refl)
outcome (answered none) = inr (inl refl)
outcome (answered (some result)) = inr (inr (result, refl))

module _ (net : Network) where
  attempt_upload-threw :
      (fuel left n : ℕ) (file : File) (message : Option String)
      → upload_attachment_file net n file ≡ threw message
      → attempt_upload net (suc fuel) (suc left) n file ≡ attempt_upload net fuel left (n + 1) file
  unfolding attempt_upload
  attempt_upload-threw fuel left n file message e = ground arith

  attempt_upload-again :
      (fuel left n : ℕ) (file : File)
      → upload_attachment_file net n file ≡ answered none
      → attempt_upload net (suc fuel) (suc left) n file
        ≡ attempt_upload net fuel (suc left) (n + 1) file
  unfolding attempt_upload
  attempt_upload-again fuel left n file e = ground arith

  attempt_upload-done :
      (fuel left n : ℕ) (file : File) (result : UploadResult)
      → upload_attachment_file net n file ≡ answered (some result)
      → attempt_upload net (suc fuel) (suc left) n file ≡ some (some result, n + 1)
  unfolding attempt_upload
  attempt_upload-done fuel left n file result e = ground arith

  -- Where no attempt is answered without an upload, the attempts end.
  attempt_upload-ends :
      (file : File)
      → ((n : ℕ) → upload_attachment_file net n file ≢ answered none)
      → (fuel left n : ℕ) → left < fuel
      → (o : Option UploadResult) × (m : ℕ) × (attempt_upload net fuel left n file ≡ some (o, m))
        × (m ≤ n + left)
  unfolding attempt_upload
  attempt_upload-ends file h zero left n k = absurd (omega arith)
  attempt_upload-ends file h (suc fuel) zero n k = (none, n, refl, omega arith)
  attempt_upload-ends file h (suc fuel) (suc left) n k =
      elim (outcome (upload_attachment_file net n file)) [
        | inl (message, e) ↦
            let (o, m, p, q) = attempt_upload-ends file h fuel left (n + 1) (omega arith) in
            (o, m, attempt_upload-threw fuel left n file message e ∙ p, omega arith)
        | inr (inl e) ↦ elim (h n e) [ ]
        | inr (inr (result, e)) ↦
            (some result, n + 1, attempt_upload-done fuel left n file result e, omega arith)
      ]

  -- A file whose every attempt is answered without an upload and without an error is attempted without
  -- end: no fuel is enough.
  pub attempt_upload-endless :
      (file : File)
      → ((n : ℕ) → upload_attachment_file net n file ≡ answered none)
      → (fuel n : ℕ) → attempt_upload net fuel max_retries n file ≡ none
  unfolding attempt_upload
  attempt_upload-endless file h zero n = refl
  attempt_upload-endless file h (suc fuel) n =
      attempt_upload-again fuel 2 n file (h n) ∙ attempt_upload-endless file h fuel (n + 1)

  upload_all-nil : (fuel n : ℕ) → upload_all net fuel n [] ≡ some ([], n)
  unfolding upload_all
  upload_all-nil fuel n = refl

  upload_all-skips :
      (fuel n : ℕ) (file : File) (files : List File)
      → ltb max_file_size file.size ≡ true
      → upload_all net fuel n (file ∷ files) ≡ upload_all net fuel n files
  unfolding upload_all
  upload_all-skips fuel n file files e = ground arith

  upload_all-fails :
      (fuel n m : ℕ) (file : File) (files : List File)
      → ltb max_file_size file.size ≡ false
      → attempt_upload net fuel max_retries n file ≡ some (none, m)
      → upload_all net fuel n (file ∷ files) ≡ upload_all net fuel m files
  unfolding upload_all
  upload_all-fails fuel n m file files e k = ground arith

  upload_all-adds :
      (fuel n m k : ℕ) (file : File) (files : List File) (r : UploadResult) (rs : List UploadResult)
      → ltb max_file_size file.size ≡ false
      → attempt_upload net fuel max_retries n file ≡ some (some r, m)
      → upload_all net fuel m files ≡ some (rs, k)
      → upload_all net fuel n (file ∷ files) ≡ some (r ∷ rs, k)
  unfolding upload_all
  upload_all-adds fuel n m k file files r rs e p q = ground arith

  -- Where no attempt at a file is answered without an upload and without an error, the uploads of a
  -- list of files end, four steps being enough for each file: at most as many files are uploaded as
  -- were chosen, with at most three attempts for each.
  pub upload_all-ends :
      ((n : ℕ) (file : File) → upload_attachment_file net n file ≢ answered none)
      → (fuel : ℕ) → 3 < fuel
      → (n : ℕ) (files : List File)
      → (results : List UploadResult) × (k : ℕ) × (upload_all net fuel n files ≡ some (results, k))
        × (length results ≤ length files)
        × (k ≤ n + 3 * length files)
  upload_all-ends h fuel enough n [] = ([], n, upload_all-nil fuel n, omega arith, omega arith)
  upload_all-ends h fuel enough n (file ∷ files) = elim (Bool-cases (ltb max_file_size file.size)) [
    | inl e ↦
        let (rs, k, p, q, r) = upload_all-ends h fuel enough n files in
        (rs, k, upload_all-skips fuel n file files e ∙ p, omega arith, omega arith)
    | inr e ↦
        let (o, m, a, b) = attempt_upload-ends file (λ i. h i file) fuel 3 n enough in
        let (rs, k, p, q, r) = upload_all-ends h fuel enough m files in
        elim (Option-cases o) [
          | inl none_left ↦ (
            rs,
            k,
            upload_all-fails fuel n m file files e (a ∙ ap (λ x. some (x, m)) none_left) ∙ p,
            omega arith,
            omega arith,
          )
          | inr (result, found) ↦ (
            result ∷ rs,
            k,
            upload_all-adds fuel n m k file files result rs e (a ∙ ap (λ x. some (x, m)) found) p,
            omega arith,
            omega arith,
          )
        ]
  ]
