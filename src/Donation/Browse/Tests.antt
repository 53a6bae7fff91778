-- ===== src/Donation/Browse/Tests.antt =====
-- The theorems on the list of campaigns at concrete inputs.
use mmn_tx_explorer.Base.{true, false, none, some, [], ◌∷◌}
use mmn_tx_explorer.Hooks.Strokes.{print, read, read-print, print-nonempty}
use mmn_tx_explorer.Hooks.QueryParam.{Params}
use mmn_tx_explorer.Donation.Browse.{newest, most_funded, all, Filters, Browse, first_effects}
use mmn_tx_explorer.Donation.Browse.Pages.{IsFirst, first_effects-IsFirst}

abbrev active : Filters
active = record {
  status_filter = some 1;
  verified_filter = all;
  sort_by = newest;
  show_mine = false;
}

-- A link to the third page of both lists.
abbrev third_pages : Params
third_pages = ("verifiedPage", "||||") ∷ ("unverifiedPage", "||||") ∷ []

abbrev fresh : Browse
fresh = record {
  debounced_search = "";
  filters = active;
  verified_local_page = none;
  verified_local_limit = none;
  unverified_local_page = none;
  unverified_local_limit = none;
  search_scroll = none;
  is_searching = false;
  prev_debounced = "";
  is_filtering = false;
  prev_filters = active;
  has_mounted = false;
  location = third_pages;
  session = [];
  scrolled = [];
}

abbrev shown : Browse
shown = record fresh { has_mounted = true; filters = record active { sort_by = most_funded } }

first_effects-IsFirst_example :
    IsFirst print read false fresh (first_effects print read false 0 fresh)
first_effects-IsFirst_example =
    first_effects-IsFirst print read false 0 fresh read-print print-nonempty
