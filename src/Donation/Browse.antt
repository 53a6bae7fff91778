-- ===== src/Donation/Browse.antt =====
-- The list of campaigns: ActiveCampaign of frontend/modules/donation-campaign/components/
-- campaign-list/active-campaign/active-campaign.tsx. An effect reads the values of the render that it
-- belongs to, which is its first argument, and works on the state and the refs, which is its last.
-- Whether the router has changed the address when the next handler reads it is a parameter.
pub mod Requests
pub mod Pages
pub mod Listed
mod Tests
use mmn_tx_explorer.Base.{
  ℕ, String, Bool, true, false, not, ◌&&◌, ◌||◌, Option, none, some, List, [], ◌∷◌, ◌++◌, ◌==◌,
  if◌then◌else◌, str_eq, truthy, trim, keep, lookup, insert, remove,
}
use mmn_tx_explorer.Hooks.QueryParam.{
  Params, dual_value, handle_change_verified_page, handle_change_verified_limit,
  handle_change_unverified_page, handle_change_unverified_limit,
}

pub data SortBy : Type 0 where
  newest ending_soon most_funded : SortBy

pub data VerifiedFilter : Type 0 where
  all verified unverified : VerifiedFilter

-- The four filters, no status standing for all of them.
pub record Filters : Type 0 where
  pub status_filter : Option ℕ
  pub verified_filter : VerifiedFilter
  pub sort_by : SortBy
  pub show_mine : Bool

abbrev pub sort_code : SortBy → ℕ
sort_code newest = 0
sort_code ending_soon = 1
sort_code most_funded = 2

abbrev pub verified_code : VerifiedFilter → ℕ
verified_code all = 0
verified_code verified = 1
verified_code unverified = 2

abbrev pub same_number : Option ℕ → Option ℕ → Bool
same_number none none = true
same_number (some a) (some b) = a == b
same_number _ _ = false

abbrev pub same_bool : Bool → Bool → Bool
same_bool true b = b
same_bool false b = not b

-- `===` on each of the four.
unfoldable pub same_filters : Filters → Filters → Bool
same_filters f g =
    same_number f.status_filter g.status_filter
    && (verified_code f.verified_filter == verified_code g.verified_filter)
    && (sort_code f.sort_by == sort_code g.sort_by)
    && same_bool f.show_mine g.show_mine

pub record Browse : Type 0 where
  pub debounced_search : String
  pub filters : Filters
  pub verified_local_page : Option ℕ
  pub verified_local_limit : Option ℕ
  pub unverified_local_page : Option ℕ
  pub unverified_local_limit : Option ℕ
  pub search_scroll : Option ℕ
  pub is_searching : Bool
  pub prev_debounced : String
  pub is_filtering : Bool
  pub prev_filters : Filters
  pub has_mounted : Bool
  -- The address's query and the session's storage.
  pub location : Params
  pub session : List (String × String)
  pub scrolled : List ℕ

abbrev pub show_mine_key : String
show_mine_key = "show_mine_campaigns"

-- The effect of the first render that takes over the choice of own campaigns.
unfoldable pub restore_mine : Browse → Browse
restore_mine b =
    let mine : Bool = elim (lookup show_mine_key b.session) [
      | none ↦ false
      | some s ↦ str_eq s "true"
    ] in
    record b {
      filters = record b.filters { show_mine = mine };
      session = remove show_mine_key b.session;
    }

-- The button for own campaigns, whose render is given by the limits that it shows.
unfoldable pub toggle_mine : ℕ → ℕ → Browse → Browse
toggle_mine verified_limit unverified_limit b =
    let enabling = not b.filters.show_mine in
    record b {
      is_filtering = true;
      session = insert show_mine_key (if enabling then "true" else "false") b.session;
      verified_local_page = some 1;
      unverified_local_page = some 1;
      verified_local_limit = some verified_limit;
      unverified_local_limit = some unverified_limit;
      filters = record b.filters { show_mine = enabling };
    }

-- The selections of a status, an order and a verification.
unfoldable pub choose_filters : Filters → Browse → Browse
choose_filters f b = record b { is_filtering = true; filters = f }

-- The effect on the delayed search, at the position to which the window is scrolled.
unfoldable pub mark_search : ℕ → Browse → Browse → Browse
mark_search scroll_y r b = if str_eq b.prev_debounced r.debounced_search then b else record b {
  search_scroll = some scroll_y;
  is_searching = true;
  prev_debounced = r.debounced_search;
}

unfoldable pub mark_filter : Browse → Browse → Browse
mark_filter r b =
    if b.has_mounted
    then record b {
      is_filtering = not (same_filters b.prev_filters r.filters) || b.is_filtering;
      prev_filters = r.filters;
    }
    else b

unfoldable pub set_mounted : Browse → Browse
set_mounted b = record b { has_mounted = true }

-- The effect on the two flags of loading.
unfoldable pub end_loading : Bool → Bool → Browse → Browse
end_loading is_loading_verified is_loading_unverified b =
    if (not b.is_searching && not b.is_filtering) || (is_loading_verified || is_loading_unverified)
    then b
    else record b {
      scrolled = elim b.search_scroll [
        | none ↦ b.scrolled
        | some y ↦ if b.is_searching then b.scrolled ++ y ∷ [] else b.scrolled
      ];
      is_searching = false;
      is_filtering = false;
      search_scroll = none;
    }

module _ (print : ℕ → String) (read : String → ℕ) where
  abbrev pub verified_page : Params → ℕ
  verified_page q = dual_value print read "verifiedPage" 1 q

  abbrev pub verified_limit : Params → ℕ
  verified_limit q = dual_value print read "verifiedLimit" 10 q

  abbrev pub unverified_page : Params → ℕ
  unverified_page q = dual_value print read "unverifiedPage" 1 q

  abbrev pub unverified_limit : Params → ℕ
  unverified_limit q = dual_value print read "unverifiedLimit" 10 q

  -- The effect that copies the address's pages where all campaigns are shown.
  unfoldable pub keep_local : Browse → Browse → Browse
  keep_local r b = if r.filters.show_mine then b else record b {
    verified_local_page = some (verified_page r.location);
    verified_local_limit = some (verified_limit r.location);
    unverified_local_page = some (unverified_page r.location);
    unverified_local_limit = some (unverified_limit r.location);
  }

  -- The effect that goes back to the first pages: two changes of the address, one after the other,
  -- of which the second starts from the address as it then reads.
  unfoldable pub reset_pages : Bool → Browse → Browse
  reset_pages at_once b =
      let first = handle_change_verified_page print read 1 b.location in
      let seen = if at_once then first else b.location in
      if b.has_mounted
      then record b {
        location = handle_change_unverified_page print read 1 seen;
        verified_local_page = some 1;
        unverified_local_page = some 1;
      }
      else b

  -- The effects of the first render, in their order.
  unfoldable pub first_effects : Bool → ℕ → Browse → Browse
  unfolding restore_mine mark_search mark_filter set_mounted keep_local reset_pages
  first_effects at_once scroll_y r =
      reset_pages at_once
        (set_mounted (mark_filter r (mark_search scroll_y r (keep_local r (restore_mine r)))))

  abbrev pub same_address : Params → Params → Bool
  same_address p q =
      (verified_page p == verified_page q)
      && (verified_limit p == verified_limit q)
      && (unverified_page p == unverified_page q)
      && (unverified_limit p == unverified_limit q)

  -- The effects of a later render, whose dependencies changed since the one before.
  unfoldable pub later_effects : Bool → ℕ → Browse → Browse → Browse
  unfolding mark_search mark_filter keep_local reset_pages
  later_effects at_once scroll_y before r =
      let same_search = str_eq before.debounced_search r.debounced_search in
      let same_choice = same_filters before.filters r.filters in
      let same_mine = same_bool before.filters.show_mine r.filters.show_mine in
      let kept =
        if same_mine && same_address before.location r.location then r else keep_local r r in
      let searched = if same_search then kept else mark_search scroll_y r kept in
      let filtered = if same_choice then searched else mark_filter r searched in
      if same_search && same_choice then filtered else reset_pages at_once filtered
