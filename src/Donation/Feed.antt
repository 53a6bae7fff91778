-- ===== src/Donation/Feed.antt =====
-- The feed of a campaign, page by page: frontend/modules/donation-campaign/hooks/useDonationFeed.ts.
-- The server is a parameter: it takes the number before which the items must be. A date is the
-- number of its instant.
pub mod Pages
use mmn_tx_explorer.Base.{
  ℕ, zero, suc, ◌+◌, ◌≤◌, ◌<◌, String, Option, none, some, List, [], ◌∷◌, ◌++◌, ◌≡◌, refl, sym, ap,
  ◌∙◌, arith, ltb, leb, ◌==◌, if◌then◌else◌, length, keep, leb→le, All, Bool-cases, Option-cases,
  inl, inr, append-nil,
}

pub record FeedItem : Type 0 where
  pub root_created_at : ℕ
  pub tx_hash : String

-- `params?.limit || 10`
unfoldable pub feed_limit : Option ℕ → ℕ
feed_limit none = 10
feed_limit (some n) = if n == 0 then 10 else n

-- `feeds[feeds.length - 1].root_created_at`, where there is one
unfoldable pub last_created_at : List FeedItem → Option ℕ
last_created_at [] = none
last_created_at (x ∷ []) = some x.root_created_at
last_created_at (x ∷ y ∷ ys) = last_created_at (y ∷ ys)

-- `getNextPageParam`
unfoldable pub next_page_param : ℕ → List FeedItem → Option ℕ
unfolding last_created_at
next_page_param limit feeds = if length feeds == limit then last_created_at feeds else none

module _ (serve : Option ℕ → List FeedItem) where
  -- `fetchNextPage` for as long as `hasNextPage`, and the pages in one list, on fuel for the pages.
  unfoldable pub fetch_pages : ℕ → ℕ → Option ℕ → List FeedItem
  unfolding next_page_param
  fetch_pages limit zero page_param = []
  fetch_pages limit (suc fuel) page_param =
      serve page_param ++ (elim (next_page_param limit (serve page_param)) [
        | none ↦ []
        | some t ↦ fetch_pages limit fuel (some t)
      ])
