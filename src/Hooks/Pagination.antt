-- ===== src/Hooks/Pagination.antt =====
-- The paging of tables: frontend/components/ui/pagination.tsx. `Number` of a text is a parameter.
use mmn_tx_explorer.Base.{
  ℕ, ◌+◌, ◌-◌, ◌≤◌, String, Bool, true, false, ◌&&◌, Option, none, some, List, [], ◌∷◌, ◌≡◌, ◌↔◌,
  arith, ltb, leb, if◌then◌else◌, has,
}

abbrev pub min_page : ℕ
min_page = 1

abbrev pub limits : List ℕ
limits = 10 ∷ 20 ∷ 50 ∷ 100 ∷ []

unfoldable pub normalize_page : ℕ → ℕ → ℕ
normalize_page page total_pages =
    if leb page min_page then min_page else (if leb total_pages page then total_pages else page)

unfoldable pub is_valid_page_change : ℕ → ℕ → Bool
is_valid_page_change target total_pages = leb min_page target && leb target total_pages

pub record PaginationState : Type 0 where
  pub current_page : ℕ
  pub can_go_previous : Bool
  pub can_go_next : Bool
  pub show_previous_ellipsis : Bool
  pub show_next_ellipsis : Bool
  pub show_previous_page : Bool
  pub show_next_page : Bool

-- `currentPage < totalPages - 1` is written without the subtraction, which may be negative.
unfoldable pub calculate_pagination_state : ℕ → ℕ → PaginationState
unfolding normalize_page
calculate_pagination_state page total_pages =
    let current = normalize_page page total_pages in
    record {
      current_page = current;
      can_go_previous = ltb min_page current;
      can_go_next = ltb current total_pages;
      show_previous_ellipsis = ltb (min_page + 1) current;
      show_next_ellipsis = ltb (current + 1) total_pages;
      show_previous_page = ltb min_page current;
      show_next_page = ltb current total_pages;
    }

-- `handleChangePage`: the page that `onChangePage` is called with.
unfoldable pub handle_change_page : Bool → ℕ → ℕ → Option ℕ
unfolding is_valid_page_change
handle_change_page is_loading target total_pages =
    if is_loading
    then none
    else (if is_valid_page_change target total_pages then some target else none)

-- `handleChangeLimit`: the limit that `onChangeLimit` is called with.
unfoldable pub handle_change_limit : (String → ℕ) → Bool → String → Option ℕ
handle_change_limit number is_loading text =
    if is_loading then none else (if has (number text) limits then some (number text) else none)

-- Where there is a page, the current page is one of them, the button to the next page is on exactly
-- where a change to that page is passed on while nothing loads, and so is the one to the page before.
pub calculate_pagination_state_lem :
    (page total_pages : ℕ)
    → 1 ≤ total_pages
    → let s = calculate_pagination_state page total_pages in
      (1 ≤ s.current_page)
      × (s.current_page ≤ total_pages)
      × ((s.can_go_next ≡ true)
          ↔ (handle_change_page false (s.current_page + 1) total_pages ≡ some (s.current_page + 1)))
      × ((s.can_go_previous ≡ true)
          ↔ (handle_change_page false (s.current_page - 1) total_pages ≡ some (s.current_page - 1)))
unfolding calculate_pagination_state normalize_page handle_change_page is_valid_page_change
calculate_pagination_state_lem page total h =
    (ground arith, ground arith, ground arith, ground arith)
