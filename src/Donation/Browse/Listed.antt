-- ===== src/Donation/Browse/Listed.antt =====
-- What choosing pages and own campaigns leads to, for Donation.Browse.
use mmn_tx_explorer.Base.{
  ℕ, String, Bool, true, false, not, Option, none, some, List, [], ◌∷◌, if◌then◌else◌, str_eq,
  eq_iff, Bool-cases, lookup, lookup-insert, lookup-remove, All, ◌≡◌, ◌≢◌, refl, ap, ◌∙◌, arith,
}
use mmn_tx_explorer.Hooks.QueryParam.{Params, dual_value-change_dual, handle_change_verified_page}
use mmn_tx_explorer.Donation.Browse.{
  VerifiedFilter, all, verified, unverified, Browse, show_mine_key, restore_mine, toggle_mine,
  verified_page, verified_limit, unverified_page, unverified_limit,
}
use mmn_tx_explorer.Donation.Browse.Requests.{
  build_campaigns_params, DonationCampaign, filtered, paged_verified, paged_unverified,
  change_verified_page, verified_request, unverified_request,
}

module _ (print : ℕ → String) (read : String → ℕ) where
  address-verified_page :
      (n : ℕ) (q : Params)
      → ((k : ℕ) → read (print k) ≡ k)
      → ((k : ℕ) → print k ≢ "")
      → let after = handle_change_verified_page print read n q in
        (verified_page print read after ≡ n)
        × (verified_limit print read after ≡ verified_limit print read q)
        × (unverified_page print read after ≡ unverified_page print read q)
        × (unverified_limit print read after ≡ unverified_limit print read q)
  address-verified_page n q back nonempty =
      let other = λ (name : String) (default : ℕ) (apart : name ≢ "verifiedPage").
        dual_value-change_dual print read "verifiedPage" name 1 default n q back nonempty apart in
      (
        (other "verifiedLimit" 10 (λ e. ground (arith, eq_iff "verifiedLimit" "verifiedPage"))).0,
        (other "verifiedLimit" 10 (λ e. ground (arith, eq_iff "verifiedLimit" "verifiedPage"))).1,
        (other "unverifiedPage" 1 (λ e. ground (arith, eq_iff "unverifiedPage" "verifiedPage"))).1,
        (other "unverifiedLimit" 10
            (λ e. ground (arith, eq_iff "unverifiedLimit" "verifiedPage"))).1,
      )

  -- Where numbers are read back as printed and never printed as the empty text, choosing a page of the
  -- verified campaigns asks for that page with all else as before, and for the same of the others,
  -- whether the own campaigns are shown or all.
  pub change_verified_page_lem :
      (user_id : Option String) (n : ℕ) (b : Browse)
      → ((k : ℕ) → read (print k) ≡ k)
      → ((k : ℕ) → print k ≢ "")
      → let after = change_verified_page print read n b in
        (verified_request print read user_id after
          ≡ record (verified_request print read user_id b) { page = n })
        × (unverified_request print read user_id after ≡ unverified_request print read user_id b)
  unfolding change_verified_page verified_request unverified_request build_campaigns_params
  change_verified_page_lem user_id n b back nonempty =
      ground
        (arith, address-verified_page n b.location back nonempty, Bool-cases b.filters.show_mine)

-- How a stored choice is read.
abbrev stored_mine : Option String → Bool
stored_mine o = elim o [ none ↦ false | some s ↦ str_eq s "true" ]

stored_mine-written :
    (enabling : Bool) → stored_mine (some (if enabling then "true" else "false")) ≡ enabling
stored_mine-written true = refl
stored_mine-written false = refl

-- The choice of own campaigns is taken over by the next load of the page in the session, and no longer
-- by the load after that, which finds the storage as the first one left it.
pub restore_mine-toggle_mine :
    (vl ul : ℕ) (b next third : Browse)
    → next.session ≡ (toggle_mine vl ul b).session
    → third.session ≡ (restore_mine next).session
    → ((restore_mine next).filters.show_mine ≡ not b.filters.show_mine)
      × ((restore_mine third).filters.show_mine ≡ false)
unfolding toggle_mine restore_mine
restore_mine-toggle_mine vl ul b next third kept left =
    let enabling = not b.filters.show_mine in
    let written = if enabling then "true" else "false" in
    (
      ap stored_mine (
            ap (lookup show_mine_key) kept
            ∙ lookup-insert show_mine_key show_mine_key written b.session)
          ∙ stored_mine-written enabling,
      ap stored_mine
          (ap (lookup show_mine_key) left ∙ lookup-remove show_mine_key show_mine_key next.session),
    )

keep_own :
    (u : String) (cs : List DonationCampaign) → All (λ c. c.creator ≡ u) (filtered true (some u) cs)
keep_own u [] = tt
keep_own u (c ∷ cs) = ground (arith, keep_own u cs, eq_iff c.creator u)

filtered-own :
    (show_mine : Bool) (u : String) (cs : List DonationCampaign)
    → show_mine ≡ true
    → All (λ c. c.creator ≡ u) (filtered show_mine (some u) cs)
filtered-own true u cs h = keep_own u cs
filtered-own false u cs h = absurd (cc)

-- Where the own campaigns of a user are shown, each campaign of either list is the user's.
pub paged_lem :
    (u : String) (b : Browse) (cs ds : List DonationCampaign)
    → b.filters.show_mine ≡ true
    → All (λ c. c.creator ≡ u) (paged_verified (some u) b cs)
      × All (λ c. c.creator ≡ u) (paged_unverified (some u) b ds)
unfolding paged_verified paged_unverified
paged_lem u b cs ds mine = split b.filters.verified_filter
  where
    own :
        (xs : List DonationCampaign)
        → All (λ c. c.creator ≡ u) (filtered b.filters.show_mine (some u) xs)
    own xs = filtered-own b.filters.show_mine u xs mine

    split :
        (v : VerifiedFilter)
        → All
            (λ c. c.creator ≡ u)
            (elim v [
              | all ↦ filtered b.filters.show_mine (some u) cs
              | verified ↦ filtered b.filters.show_mine (some u) cs
              | unverified ↦ []
            ])
          × All
              (λ c. c.creator ≡ u)
              (elim v [
                | all ↦ filtered b.filters.show_mine (some u) ds
                | verified ↦ []
                | unverified ↦ filtered b.filters.show_mine (some u) ds
              ])
    split all = (own cs, own ds)
    split verified = (own cs, tt)
    split unverified = (tt, own ds)
