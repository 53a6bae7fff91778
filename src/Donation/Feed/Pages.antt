-- ===== src/Donation/Feed/Pages.antt =====
-- What fetching the feed page after page shows: useDonationFeed.ts.
use mmn_tx_explorer.Base.{
  ℕ, zero, suc, ◌+◌, ◌≤◌, ◌<◌, Option, none, some, List, [], ◌∷◌, ◌++◌, ◌≡◌, refl, sym, ap, ◌∙◌,
  arith, ltb, leb, length, keep, leb→le, All, Bool-cases, Option-cases, inl, inr, append-nil,
}
use mmn_tx_explorer.Donation.Feed.{
  FeedItem, feed_limit, last_created_at, next_page_param, fetch_pages,
}

-- The first items, and what follows them.
abbrev pub take : ℕ → List FeedItem → List FeedItem
take zero xs = []
take (suc n) [] = []
take (suc n) (x ∷ xs) = x ∷ take n xs

abbrev pub drop : ℕ → List FeedItem → List FeedItem
drop zero xs = xs
drop (suc n) [] = []
drop (suc n) (x ∷ xs) = drop n xs

abbrev pub before : ℕ → List FeedItem → List FeedItem
before t items = keep (λ x. ltb x.root_created_at t) items

abbrev pub older : Option ℕ → List FeedItem → List FeedItem
older none items = items
older (some t) items = before t items

-- The server gives the first items that are older than it was asked for.
pub record IsServer (serve : Option ℕ → List FeedItem) (limit : ℕ) (items : List FeedItem)
    : Type 0 where
  pub page : (t : Option ℕ) → serve t ≡ take limit (older t items)

-- Newest first, no two at the same instant.
abbrev pub Descending : List FeedItem → Type 0
Descending [] = Unit
Descending (x ∷ xs) = All (λ y. y.root_created_at < x.root_created_at) xs × Descending xs

take-drop : (n : ℕ) (xs : List FeedItem) → take n xs ++ drop n xs ≡ xs
take-drop zero xs = refl
take-drop (suc n) [] = refl
take-drop (suc n) (x ∷ xs) = ap (λ ys. x ∷ ys) (take-drop n xs)

take-short : (n : ℕ) (xs : List FeedItem) → length xs ≤ n → take n xs ≡ xs
take-short zero [] h = refl
take-short zero (x ∷ xs) h = absurd (omega arith)
take-short (suc n) [] h = refl
take-short (suc n) (x ∷ xs) h = ap (λ ys. x ∷ ys) (take-short n xs (omega arith))

length-take : (n : ℕ) (xs : List FeedItem) → n ≤ length xs → length (take n xs) ≡ n
length-take zero xs h = refl
length-take (suc n) [] h = absurd (omega arith)
length-take (suc n) (x ∷ xs) h = omega (arith, length-take n xs (omega arith))

length-take-le : (n : ℕ) (xs : List FeedItem) → length (take n xs) ≤ length xs
length-take-le zero xs = omega arith
length-take-le (suc n) [] = omega arith
length-take-le (suc n) (x ∷ xs) = omega (arith, length-take-le n xs)

length-drop : (n : ℕ) (xs : List FeedItem) → n ≤ length xs → length (drop n xs) + n ≡ length xs
length-drop zero xs h = omega arith
length-drop (suc n) [] h = absurd (omega arith)
length-drop (suc n) (x ∷ xs) h = omega (arith, length-drop n xs (omega arith))

-- A list of items that are all older is kept whole.
before-All : (t : ℕ) (xs : List FeedItem) → All (λ y. y.root_created_at < t) xs → before t xs ≡ xs
before-All t [] h = refl
before-All t (x ∷ xs) (h, hs) = ground (arith, before-All t xs hs)

before-before : (t u : ℕ) (xs : List FeedItem) → t ≤ u → before t (before u xs) ≡ before t xs
before-before t u [] h = refl
before-before t u (x ∷ xs) h = ground (arith, before-before t u xs h)

-- The last of the first items is among them, so it is older than any bound on all.
last_created_at-below :
    (n t bound : ℕ) (xs : List FeedItem)
    → All (λ y. y.root_created_at < bound) xs
    → last_created_at (take n xs) ≡ some t
    → t < bound
unfolding last_created_at
last_created_at-below zero t bound xs h e = absurd (ground arith)
last_created_at-below (suc n) t bound [] h e = absurd (ground arith)
last_created_at-below (suc zero) t bound (x ∷ xs) (h, hs) e = ground arith
last_created_at-below (suc (suc n)) t bound (x ∷ []) (h, hs) e = ground arith
last_created_at-below (suc (suc n)) t bound (x ∷ y ∷ ys) (h, hs) e =
    last_created_at-below (suc n) t bound (y ∷ ys) hs e

-- What is older than the last of the first items is what follows them.
before-last_created_at :
    (n t : ℕ) (xs : List FeedItem)
    → Descending xs
    → n ≤ length xs
    → last_created_at (take n xs) ≡ some t
    → before t xs ≡ drop n xs
unfolding last_created_at
before-last_created_at zero t xs d h e = absurd (ground arith)
before-last_created_at (suc n) t [] d h e = absurd (omega arith)
before-last_created_at (suc zero) t (x ∷ xs) (below, d) h e =
    ground (arith, before-All x.root_created_at xs below)
before-last_created_at (suc (suc n)) t (x ∷ []) d h e = absurd (omega arith)
before-last_created_at (suc (suc n)) t (x ∷ y ∷ ys) (below, d) h e = ground (
  arith,
  before-last_created_at (suc n) t (y ∷ ys) d (omega arith) e,
  last_created_at-below (suc n) t x.root_created_at (y ∷ ys) below e,
)

All-before : (P : FeedItem → Type 0) (t : ℕ) (xs : List FeedItem) → All P xs → All P (before t xs)
All-before P t [] h = tt
All-before P t (x ∷ xs) (h, hs) = elim (Bool-cases (ltb x.root_created_at t)) [
  | inl e ↦ rw e (h, All-before P t xs hs)
  | inr e ↦ rw e (All-before P t xs hs)
]

before-below : (t : ℕ) (xs : List FeedItem) → All (λ y. y.root_created_at < t) (before t xs)
before-below t [] = tt
before-below t (x ∷ xs) = elim (Bool-cases (ltb x.root_created_at t)) [
  | inl e ↦ rw e (ground arith, before-below t xs)
  | inr e ↦ rw e (before-below t xs)
]

before-Descending : (t : ℕ) (xs : List FeedItem) → Descending xs → Descending (before t xs)
before-Descending t [] d = tt
before-Descending t (x ∷ xs) (below, d) = elim (Bool-cases (ltb x.root_created_at t)) [
  | inl e ↦ rw e (All-before _ t xs below, before-Descending t xs d)
  | inr e ↦ rw e (before-Descending t xs d)
]

older-Descending : (p : Option ℕ) (xs : List FeedItem) → Descending xs → Descending (older p xs)
older-Descending none xs d = d
older-Descending (some t) xs d = before-Descending t xs d

-- Asking for what is older than the last item of a page gives what follows the page.
older-next :
    (n t : ℕ) (p : Option ℕ) (items : List FeedItem)
    → Descending items
    → n ≤ length (older p items)
    → last_created_at (take n (older p items)) ≡ some t
    → older (some t) items ≡ drop n (older p items)
older-next n t none items d h e = before-last_created_at n t items d h e
older-next n t (some u) items d h e =
    let low = last_created_at-below n t u (before u items) (before-below u items) e in
    sym (before-before t u items (omega arith))
    ∙ before-last_created_at n t (before u items) (before-Descending u items d) h e

last_created_at-some :
    (n : ℕ) (xs : List FeedItem)
    → 1 ≤ n
    → 1 ≤ length xs
    → (t : ℕ) × (last_created_at (take n xs) ≡ some t)
unfolding last_created_at
last_created_at-some zero xs h k = absurd (omega arith)
last_created_at-some (suc n) [] h k = absurd (omega arith)
last_created_at-some (suc zero) (x ∷ xs) h k = (x.root_created_at, refl)
last_created_at-some (suc (suc n)) (x ∷ []) h k = (x.root_created_at, refl)
last_created_at-some (suc (suc n)) (x ∷ y ∷ ys) h k =
    last_created_at-some (suc n) (y ∷ ys) (omega arith) (omega arith)

-- What follows a page, by what the hook asks for next.
abbrev following : (Option ℕ → List FeedItem) → ℕ → ℕ → Option ℕ → List FeedItem
following serve limit fuel none = []
following serve limit fuel (some t) = fetch_pages serve limit fuel (some t)

fetch_pages-page :
    (serve : Option ℕ → List FeedItem) (limit fuel : ℕ) (p : Option ℕ) (page : List FeedItem)
    → serve p ≡ page
    → fetch_pages serve limit (suc fuel) p
      ≡ page ++ following serve limit fuel (next_page_param limit page)
unfolding fetch_pages
fetch_pages-page serve limit fuel p page e = elim (Option-cases (next_page_param limit page)) [
  | inl f ↦ ground arith
  | inr (t, f) ↦ ground arith
]

next_page_param-short :
    (limit : ℕ) (page : List FeedItem) → length page < limit → next_page_param limit page ≡ none
unfolding next_page_param
next_page_param-short limit page h = ground arith

next_page_param-full :
    (limit t : ℕ) (page : List FeedItem)
    → length page ≡ limit
    → last_created_at page ≡ some t
    → next_page_param limit page ≡ some t
unfolding next_page_param
next_page_param-full limit t page h e = ground arith

module _ (serve : Option ℕ → List FeedItem) (limit : ℕ) (items : List FeedItem)
    (server : IsServer serve limit items) (positive : 1 ≤ limit) (d : Descending items) where
  fetch_pages-older :
      (fuel : ℕ) (p : Option ℕ)
      → length (older p items) < fuel
      → fetch_pages serve limit fuel p ≡ older p items
  fetch_pages-older zero p h = absurd (omega arith)
  fetch_pages-older (suc fuel) p h =
      let rest = older p items in
      let first = fetch_pages-page serve limit fuel p (take limit rest) (server.page p) in
      elim (Bool-cases (leb limit (length rest))) [
        | inr last ↦
            first
            ∙ ap (λ pg. pg ++ following serve limit fuel (next_page_param limit pg))
                (take-short limit rest (ground arith))
            ∙ ap (λ q. rest ++ following serve limit fuel q)
                (next_page_param-short limit rest (ground arith))
            ∙ append-nil rest
        | inl more ↦
            let full : limit ≤ length rest = leb→le limit (length rest) more in
            let (t, found) = last_created_at-some limit rest positive (omega arith) in
            let next = older-next limit t p items d full found in
            let shorter : length (older (some t) items) < fuel =
              omega (arith, ap length next, length-drop limit rest full) in
            first
            ∙ ap (λ q. take limit rest ++ following serve limit fuel q)
                (next_page_param-full limit t (take limit rest) (length-take limit rest full) found)
            ∙ ap (λ ys. take limit rest ++ ys) (fetch_pages-older fuel (some t) shorter ∙ next)
            ∙ take-drop limit rest
      ]

-- Where the server gives, page by page, the first items older than it was asked for, and no two
-- items have the same instant, fetching page after page shows every item once, newest first; one
-- page more than there are items is enough.
pub fetch_pages_lem :
    (serve : Option ℕ → List FeedItem) (limit : Option ℕ) (items : List FeedItem)
    → IsServer serve (feed_limit limit) items
    → Descending items
    → fetch_pages serve (feed_limit limit) (length items + 1) none ≡ items
unfolding feed_limit
fetch_pages_lem serve limit items server d =
    fetch_pages-older serve (feed_limit limit) items server positive d (length items + 1) none
      (omega arith)
  where
    positive : 1 ≤ feed_limit limit
    positive = elim (Option-cases limit) [ inl e ↦ ground arith | inr (n, e) ↦ ground arith ]
