-- ===== src/Donation/Browse/Requests.antt =====
-- What the list of campaigns asks for and shows, and its page controls, for Donation.Browse.
use mmn_tx_explorer.Base.{
  ℕ, String, Bool, true, false, Option, none, some, List, [], if◌then◌else◌, str_eq, truthy, trim,
  keep,
}
use mmn_tx_explorer.Hooks.QueryParam.{
  handle_change_verified_page, handle_change_verified_limit, handle_change_unverified_page,
  handle_change_unverified_limit,
}
use mmn_tx_explorer.Donation.Browse.{
  SortBy, newest, ending_soon, most_funded, all, verified, unverified, Browse, verified_page,
  verified_limit, unverified_page, unverified_limit,
}

pub data OrderBy : Type 0 where
  end_date total_amount created_at : OrderBy

pub data SortOrder : Type 0 where
  asc desc : SortOrder

pub record CampaignParams : Type 0 where
  pub page : ℕ
  pub limit : ℕ
  pub status : Option String
  pub search : Option String
  pub creator : Option String
  pub order : SortOrder
  pub order_by : OrderBy
  pub verified : Bool

pub record DonationCampaign : Type 0 where
  pub id : String
  pub creator : String

abbrev pub order_by_of : SortBy → OrderBy
order_by_of newest = created_at
order_by_of ending_soon = end_date
order_by_of most_funded = total_amount

abbrev pub order_of : SortBy → SortOrder
order_of newest = desc
order_of ending_soon = asc
order_of most_funded = desc

-- `showMine && typeof local === 'number' ? local : shared`
abbrev pub chosen : Bool → Option ℕ → ℕ → ℕ
chosen false local shared = shared
chosen true none shared = shared
chosen true (some n) shared = n

abbrev pub creator_of : Bool → Option String → Option String
creator_of false user_id = none
creator_of true none = none
creator_of true (some u) = if truthy u then some u else none

unfoldable pub build_campaigns_params :
    (ℕ → String) → Option String → Browse → Bool → Option ℕ → Option ℕ → ℕ → ℕ → CampaignParams
build_campaigns_params print user_id b is_verified local_page local_limit page limit = record {
  page = chosen b.filters.show_mine local_page page;
  limit = chosen b.filters.show_mine local_limit limit;
  status = elim b.filters.status_filter [ none ↦ none | some n ↦ some (print n) ];
  search = if truthy (trim b.debounced_search) then some (trim b.debounced_search) else none;
  creator = creator_of b.filters.show_mine user_id;
  order = order_of b.filters.sort_by;
  order_by = order_by_of b.filters.sort_by;
  verified = is_verified;
}

-- `filteredVerifiedCampaigns` and `filteredUnverifiedCampaigns`
abbrev pub filtered : Bool → Option String → List DonationCampaign → List DonationCampaign
filtered show_mine none cs = cs
filtered show_mine (some u) cs = if show_mine then keep (λ c. str_eq c.creator u) cs else cs

unfoldable pub paged_verified :
    Option String → Browse → List DonationCampaign → List DonationCampaign
paged_verified user_id b cs = elim b.filters.verified_filter [
  | all ↦ filtered b.filters.show_mine user_id cs
  | verified ↦ filtered b.filters.show_mine user_id cs
  | unverified ↦ []
]

unfoldable pub paged_unverified :
    Option String → Browse → List DonationCampaign → List DonationCampaign
paged_unverified user_id b cs = elim b.filters.verified_filter [
  | all ↦ filtered b.filters.show_mine user_id cs
  | verified ↦ []
  | unverified ↦ filtered b.filters.show_mine user_id cs
]

module _ (print : ℕ → String) (read : String → ℕ) where
  unfoldable pub change_verified_page : ℕ → Browse → Browse
  change_verified_page p b =
      if b.filters.show_mine
      then record b { verified_local_page = some p }
      else record b { location = handle_change_verified_page print read p b.location }

  unfoldable pub change_verified_limit : ℕ → Browse → Browse
  change_verified_limit l b =
      if b.filters.show_mine
      then record b { verified_local_limit = some l }
      else record b { location = handle_change_verified_limit print read l b.location }

  unfoldable pub change_unverified_page : ℕ → Browse → Browse
  change_unverified_page p b =
      if b.filters.show_mine
      then record b { unverified_local_page = some p }
      else record b { location = handle_change_unverified_page print read p b.location }

  unfoldable pub change_unverified_limit : ℕ → Browse → Browse
  change_unverified_limit l b =
      if b.filters.show_mine
      then record b { unverified_local_limit = some l }
      else record b { location = handle_change_unverified_limit print read l b.location }

  -- What the two lists are asked for with.
  unfoldable pub verified_request : Option String → Browse → CampaignParams
  verified_request user_id b =
      build_campaigns_params print user_id b true b.verified_local_page b.verified_local_limit
        (verified_page print read b.location) (verified_limit print read b.location)

  unfoldable pub unverified_request : Option String → Browse → CampaignParams
  unverified_request user_id b =
      build_campaigns_params print user_id b false b.unverified_local_page b.unverified_local_limit
        (unverified_page print read b.location) (unverified_limit print read b.location)
