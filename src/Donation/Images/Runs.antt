-- ===== src/Donation/Images/Runs.antt =====
-- Uploads that take their time: handleImageChange of frontend/modules/donation-campaign/services/
-- UploadDonationImage.ts goes on, while files are detected and compressed, with the state of the
-- render in which it began, and images can be removed meanwhile.
use mmn_tx_explorer.Base.{
  ℕ, zero, suc, Option, none, some, List, [], ◌∷◌, ◌++◌, All, All-append, ◌≡◌, inl, inr, arith,
  Option-cases, subst,
}
use mmn_tx_explorer.Donation.Images.{
  File, Images, Tools, remove_at, handle_image_change, handle_remove_image, handle_remove_all,
}
use mmn_tx_explorer.Donation.Images.Limits.{
  IsWithin, Follows, Follows-refl, Follows-trans, handle_image_change-IsWithin,
  handle_image_change-Follows, handle_remove_image-IsWithin, handle_remove_image-Follows,
  handle_remove_all-IsWithin, handle_remove_all-Follows,
}

-- A call of the handler that is out: what it saw, and the files.
pub record Upload : Type 0 where
  pub seen : Images
  pub files : List File

pub record Uploads : Type 0 where
  pub now : Images
  pub out : List Upload

pub data Action : Type 0 where
  -- Files are chosen, and the handling of the upload with a number among those out ends.
  begin_change : List File → Action
  end_change : ℕ → Action
  remove_image : ℕ → Action
  remove_all : Action

abbrev pub upload_at : ℕ → List Upload → Option Upload
upload_at n [] = none
upload_at zero (x ∷ xs) = some x
upload_at (suc n) (x ∷ xs) = upload_at n xs

unfoldable pub act : Tools → Action → Uploads → Uploads
act tools (begin_change files) u = record u {
  out = u.out ++ record { seen = u.now; files = files } ∷ [];
}
act tools (end_change n) u = elim (upload_at n u.out) [
  | none ↦ u
  | some x ↦ record {
    now = handle_image_change tools x.seen x.files u.now;
    out = remove_at n u.out;
  }
]
act tools (remove_image idx) u = record u { now = handle_remove_image tools idx u.now }
act tools remove_all u = record u { now = handle_remove_all u.now }

unfoldable pub act_all : Tools → List Action → Uploads → Uploads
unfolding act
act_all tools [] u = u
act_all tools (a ∷ actions) u = act_all tools actions (act tools a u)

module _ (P : Upload → Type 0) where
  pub All-remove_at : (n : ℕ) (xs : List Upload) → All P xs → All P (remove_at n xs)
  unfolding remove_at
  All-remove_at n [] h = h
  All-remove_at zero (x ∷ xs) (p, h) = h
  All-remove_at (suc n) (x ∷ xs) (p, h) = (p, All-remove_at n xs h)

  pub All-upload_at :
      (n : ℕ) (xs : List Upload) (x : Upload) → All P xs → upload_at n xs ≡ some x → P x
  All-upload_at n [] x h e = absurd (ground arith)
  All-upload_at zero (y ∷ xs) x (p, h) e = let same : y ≡ x = ground arith in subst P same p
  All-upload_at (suc n) (y ∷ xs) x (p, h) e = All-upload_at n xs x h e

pub All-mono :
    (P Q : Upload → Type 0) (xs : List Upload) → ((x : Upload) → P x → Q x) → All P xs → All Q xs
All-mono P Q [] f h = h
All-mono P Q (x ∷ xs) f (p, h) = (f x p, All-mono P Q xs f h)

-- The images are within the limits, and an upload that is out saw no fewer existing ones.
pub record AreWithin (u : Uploads) : Type 0 where
  pub within : IsWithin u.now
  pub followed : All (λ (x : Upload). Follows x.seen u.now) u.out

-- Only the state changes, as the uploads that are out can follow.
now-AreWithin :
    (s : Images) (u : Uploads)
    → Follows u.now s
    → IsWithin s
    → AreWithin u
    → AreWithin (record u { now = s })
now-AreWithin s u f w h = record {
  within = w;
  followed =
      All-mono (λ (x : Upload). Follows x.seen u.now) (λ (x : Upload). Follows x.seen s) u.out
        (λ x g. Follows-trans x.seen u.now s g f) h.followed;
}

act-AreWithin : (tools : Tools) (a : Action) (u : Uploads) → AreWithin u → AreWithin (act tools a u)
unfolding act
act-AreWithin tools (begin_change files) u h = record {
  within = h.within;
  followed =
      All-append (λ (x : Upload). Follows x.seen u.now) u.out
        (record { seen = u.now; files = files } ∷ []) h.followed (Follows-refl u.now, tt);
}
act-AreWithin tools (end_change n) u h = elim (Option-cases (upload_at n u.out)) [
  | inl e ↦ rw (act, e) h
  | inr (x, e) ↦
      let f = All-upload_at (λ (y : Upload). Follows y.seen u.now) n u.out x h.followed e in
      let left : Uploads = record u { out = remove_at n u.out } in
      rw (act, e)
        (now-AreWithin (handle_image_change tools x.seen x.files u.now) left
          (handle_image_change-Follows tools x.seen x.files u.now)
          (handle_image_change-IsWithin tools x.seen x.files u.now f h.within)
          (record {
            within = h.within;
            followed = All-remove_at (λ (y : Upload). Follows y.seen u.now) n u.out h.followed;
          }))
]
act-AreWithin tools (remove_image idx) u h =
    now-AreWithin (handle_remove_image tools idx u.now) u
      (handle_remove_image-Follows tools idx u.now)
      (handle_remove_image-IsWithin tools idx u.now h.within) h
act-AreWithin tools remove_all u h =
    now-AreWithin (handle_remove_all u.now) u (handle_remove_all-Follows u.now)
      (handle_remove_all-IsWithin u.now h.within) h

-- However uploads begin and end, and whatever is removed before or while they are handled, the images
-- stay within the total size and the count, where they were, and where every upload that was out saw
-- the size of the existing images and no fewer of them.
pub act_all-AreWithin :
    (tools : Tools) (actions : List Action) (u : Uploads)
    → AreWithin u
    → AreWithin (act_all tools actions u)
unfolding act_all
act_all-AreWithin tools [] u h = h
act_all-AreWithin tools (a ∷ actions) u h =
    act_all-AreWithin tools actions (act tools a u) (act-AreWithin tools a u h)
