-- ===== src/Wallet/Pages.antt =====
-- Which page the transaction history shows, for Wallet.
use mmn_tx_explorer.Base.{
  ℕ, ◌≤◌, String, true, false, some, ltb, str_eq, eq_iff, truthy, lookup, insert, lookup-insert,
  Bool-cases, ◌≡◌, ◌≢◌, ◌⊎◌, inl, inr, refl, sym, ap, ◌∙◌, arith, if◌then◌else◌,
}
use mmn_tx_explorer.Hooks.QueryParam.{Params, read_or, param_value, page, default_page}
use mmn_tx_explorer.Wallet.{clamp_page}

module _ (print : ℕ → String) (read : String → ℕ) where
  page-insert :
      (n : ℕ) (params : Params)
      → ((k : ℕ) → read (print k) ≡ k)
      → ((k : ℕ) → print k ≢ "")
      → page print read (insert "page" (print n) params) ≡ n
  unfolding page param_value
  page-insert n params back nonempty =
      let shown : truthy (print n) ≡ true = ground (arith, eq_iff (print n) "", nonempty n) in
      ap (read_or read default_page) (lookup-insert "page" "page" (print n) params)
      ∙ rw shown (back n)

  clamp_page-kept :
      (total_pages : ℕ) (params : Params)
      → ltb total_pages (page print read params) ≡ false
      → clamp_page print read (some total_pages) params ≡ params
  unfolding clamp_page
  clamp_page-kept total_pages params h = ground arith

  clamp_page-moved :
      (total_pages : ℕ) (params : Params)
      → 1 ≤ total_pages
      → ltb total_pages (page print read params) ≡ true
      → clamp_page print read (some total_pages) params ≡ insert "page" (print total_pages) params
  unfolding clamp_page
  clamp_page-moved total_pages params pages h = ground arith

  -- Where numbers are read back as printed and never printed as the empty text, and there is a page, the
  -- effect on the pages shows the last page where the address names a later one, and else the page that
  -- the address names, keeps every other parameter, and changes nothing when it runs again.
  pub clamp_page_lem :
      (total_pages : ℕ) (params : Params) (name : String)
      → ((k : ℕ) → read (print k) ≡ k)
      → ((k : ℕ) → print k ≢ "")
      → 1 ≤ total_pages
      → let shown = page print read params in
        let after = clamp_page print read (some total_pages) params in
        (page print read after ≡ (if ltb total_pages shown then total_pages else shown))
        × ((name ≡ "page") ⊎ (lookup name after ≡ lookup name params))
        × (clamp_page print read (some total_pages) after ≡ after)
  clamp_page_lem total_pages params name back nonempty pages =
      elim (Bool-cases (ltb total_pages (page print read params))) [
        | inr fits ↦
            let e = clamp_page-kept total_pages params fits in rw e (rw fits refl, inr refl, e)
        | inl over ↦
            let e = clamp_page-moved total_pages params pages over in
            let moved = insert "page" (print total_pages) params in
            let there : page print read moved ≡ total_pages =
              page-insert total_pages params back nonempty in
            rw e (
              there ∙ rw over refl,
              others name,
              clamp_page-kept total_pages moved (ground (arith, there)),
            )
      ]
    where
      others :
          (n : String)
          → (n ≡ "page") ⊎ (lookup n (insert "page" (print total_pages) params) ≡ lookup n params)
      others n = elim (Bool-cases (str_eq "page" n)) [
        | inl e ↦ inl (sym ((eq_iff "page" n).0 e))
        | inr e ↦ inr (lookup-insert "page" n (print total_pages) params ∙ rw e refl)
      ]
