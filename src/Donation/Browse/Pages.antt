-- ===== src/Donation/Browse/Pages.antt =====
-- The pages that the list of campaigns goes to, for Donation.Browse.
use mmn_tx_explorer.Base.{
  ℕ, String, Bool, true, false, ◌&&◌, some, if◌then◌else◌, str_eq, eq_iff, if_either, ◌≡◌, ◌≢◌,
  refl, ap, ◌∙◌, arith,
}
use mmn_tx_explorer.Hooks.QueryParam.{
  Params, handle_change_verified_page, handle_change_unverified_page, dual_value-change_dual,
}
use mmn_tx_explorer.Donation.Browse.{
  Browse, same_filters, restore_mine, mark_search, mark_filter, set_mounted, keep_local, same_bool,
  same_address, reset_pages, first_effects, verified_page, unverified_page,
}

-- Nothing of the address has changed.
pub record IsStill (b c : Browse) : Type 0 where
  pub location : c.location ≡ b.location
  pub has_mounted : c.has_mounted ≡ b.has_mounted

still : (b : Browse) → IsStill b b
still b = record { location = refl; has_mounted = refl }

restore_mine-location : (b : Browse) → (restore_mine b).location ≡ b.location
unfolding restore_mine
restore_mine-location b = refl

mark_search-IsStill : (y : ℕ) (r b : Browse) → IsStill b (mark_search y r b)
unfolding mark_search
mark_search-IsStill y r b =
    if_either (IsStill b) (str_eq b.prev_debounced r.debounced_search) (still b)
      (record { location = refl; has_mounted = refl })

mark_filter-IsStill : (r b : Browse) → IsStill b (mark_filter r b)
unfolding mark_filter
mark_filter-IsStill r b =
    if_either (IsStill b) b.has_mounted (record { location = refl; has_mounted = refl }) (still b)

IsStill-trans : (a b c : Browse) → IsStill a b → IsStill b c → IsStill a c
IsStill-trans a b c h k = record {
  location = k.location ∙ h.location;
  has_mounted = k.has_mounted ∙ h.has_mounted;
}

module _ (print : ℕ → String) (read : String → ℕ) where
  keep_local-IsStill : (r b : Browse) → IsStill b (keep_local print read r b)
  unfolding keep_local
  keep_local-IsStill r b =
      if_either (IsStill b) r.filters.show_mine (still b)
        (record { location = refl; has_mounted = refl })

  -- The first pages are shown, the address's verified page only where the router keeps up.
  pub record IsFirst (at_once : Bool) (b c : Browse) : Type 0 where
    pub unverified : unverified_page print read c.location ≡ 1
    pub verified :
        verified_page print read c.location
        ≡ (if at_once then 1 else verified_page print read b.location)
    pub local_verified : c.verified_local_page ≡ some 1
    pub local_unverified : c.unverified_local_page ≡ some 1

  address_reset :
      (at_once : Bool) (q : Params)
      → ((k : ℕ) → read (print k) ≡ k)
      → ((k : ℕ) → print k ≢ "")
      → let seen = if at_once then handle_change_verified_page print read 1 q else q in
        let after = handle_change_unverified_page print read 1 seen in
        (unverified_page print read after ≡ 1)
        × (verified_page print read after ≡ (if at_once then 1 else verified_page print read q))
  address_reset at_once q back nonempty =
      let seen = if at_once then handle_change_verified_page print read 1 q else q in
      let shown =
        dual_value-change_dual print read "unverifiedPage" "verifiedPage" 1 1 1 seen back nonempty
          (λ e. ground (arith, eq_iff "verifiedPage" "unverifiedPage")) in
      (shown.0, shown.1 ∙ verified_seen at_once)
    where
      verified_seen :
          (now : Bool)
          → verified_page print read (if now then handle_change_verified_page print read 1 q else q)
            ≡ (if now then 1 else verified_page print read q)
      verified_seen true =
          (dual_value-change_dual print read "verifiedPage" "unverifiedPage" 1 1 1 q back nonempty
            (λ e. ground (arith, eq_iff "unverifiedPage" "verifiedPage"))).0
      verified_seen false = refl

  reset_pages-mounted :
      (at_once : Bool) (b : Browse)
      → b.has_mounted ≡ true
      → reset_pages print read at_once b ≡ record b {
        location =
            handle_change_unverified_page print read 1
              (if at_once then handle_change_verified_page print read 1 b.location else b.location);
        verified_local_page = some 1;
        unverified_local_page = some 1;
      }
  unfolding reset_pages
  reset_pages-mounted at_once b mounted =
      let after : Browse = record b {
        location =
            handle_change_unverified_page print read 1
              (if at_once then handle_change_verified_page print read 1 b.location else b.location);
        verified_local_page = some 1;
        unverified_local_page = some 1;
      } in
      ap (λ t. if t then after else b) mounted

  reset_pages-IsFirst :
      (at_once : Bool) (b : Browse)
      → ((k : ℕ) → read (print k) ≡ k)
      → ((k : ℕ) → print k ≢ "")
      → b.has_mounted ≡ true
      → IsFirst at_once b (reset_pages print read at_once b)
  reset_pages-IsFirst at_once b back nonempty mounted =
      let address = address_reset at_once b.location back nonempty in
      rw (reset_pages-mounted at_once b mounted) (record {
        unverified = address.0;
        verified = address.1;
        local_verified = refl;
        local_unverified = refl;
      })

  from_still :
      (at_once : Bool) (b c d : Browse)
      → c.location ≡ b.location
      → IsFirst at_once c d
      → IsFirst at_once b d
  from_still at_once b c d e h = record {
    unverified = h.unverified;
    verified = h.verified ∙ ap (λ q. if at_once then 1 else verified_page print read q) e;
    local_verified = h.local_verified;
    local_unverified = h.local_unverified;
  }

  -- Where numbers are read back as printed and never printed as the empty text, the first render
  -- already goes back to the first pages, whatever page the address names: the list without a
  -- verification is shown from its first page, and the verified one too where the router keeps up.
  pub first_effects-IsFirst :
      (at_once : Bool) (scroll_y : ℕ) (b : Browse)
      → ((k : ℕ) → read (print k) ≡ k)
      → ((k : ℕ) → print k ≢ "")
      → IsFirst at_once b (first_effects print read at_once scroll_y b)
  unfolding first_effects
  first_effects-IsFirst at_once scroll_y b back nonempty =
      let restored = restore_mine b in
      let kept = keep_local print read b restored in
      let searched = mark_search scroll_y b kept in
      let filtered = mark_filter b searched in
      let same = IsStill-trans restored kept filtered (keep_local-IsStill b restored) (
        IsStill-trans kept searched filtered (mark_search-IsStill scroll_y b kept)
          (mark_filter-IsStill b searched)) in
      from_still at_once b (set_mounted filtered) _ (same.location ∙ restore_mine-location b)
        (reset_pages-IsFirst at_once (set_mounted filtered) back nonempty refl)

  -- The state after the effects of a later render but the last.
  abbrev late : ℕ → Browse → Browse → Browse
  late scroll_y before r =
      let same_mine = same_bool before.filters.show_mine r.filters.show_mine in
      let kept =
        if same_mine && same_address print read before.location r.location
        then r
        else keep_local print read r r in
      let searched =
        if str_eq before.debounced_search r.debounced_search
        then kept
        else mark_search scroll_y r kept in
      if same_filters before.filters r.filters then searched else mark_filter r searched
