-- ===== src/Donation/Images/Shown.antt =====
-- What the previews show while uploads go on, for Donation.Images.Runs.
use mmn_tx_explorer.Base.{
  Bool, true, not, ◌&&◌, ◌||◌, List, [], ◌∷◌, All, All-append, ◌≡◌, inl, inr, refl, ◌∙◌, arith, ltb,
  length, Bool-cases, Option-cases, &&_iff, ◌==◌,
}
use mmn_tx_explorer.Donation.Images.{
  Images, Tools, remove_at, handle_image_change, handle_remove_image, handle_remove_all,
}
use mmn_tx_explorer.Donation.Images.Previews.{
  IsShown, handle_image_change-IsShown, handle_image_change-cids, handle_remove_image-IsShown,
  handle_remove_image-cids,
}
use mmn_tx_explorer.Donation.Images.Runs.{
  Upload, Uploads, Action, begin_change, end_change, remove_image, remove_all, upload_at, act,
  act_all, All-remove_at, All-upload_at, All-mono,
}

-- Whether an action removes no existing image while an upload is out.
abbrev pub is_quiet : Action → Uploads → Bool
is_quiet (begin_change files) u = true
is_quiet (end_change n) u = true
is_quiet (remove_image idx) u =
    length u.out == 0 || not (ltb idx (length u.now.existing_image_cids))
is_quiet remove_all u = length u.out == 0

abbrev pub all_quiet : Tools → List Action → Uploads → Bool
all_quiet tools [] u = true
all_quiet tools (a ∷ actions) u = is_quiet a u && all_quiet tools actions (act tools a u)

-- The previews are right, and every upload that is out saw the existing images as they are.
pub record AreShown (u : Uploads) : Type 0 where
  pub shown : IsShown u.now
  pub seen : All (λ (x : Upload). u.now.existing_image_cids ≡ x.seen.existing_image_cids) u.out

now-AreShown :
    (s : Images) (u : Uploads)
    → s.existing_image_cids ≡ u.now.existing_image_cids
    → IsShown s
    → AreShown u
    → AreShown (record u { now = s })
now-AreShown s u same w h = record {
  shown = w;
  seen =
      All-mono (λ (x : Upload). u.now.existing_image_cids ≡ x.seen.existing_image_cids)
        (λ (x : Upload). s.existing_image_cids ≡ x.seen.existing_image_cids) u.out (λ x e. same ∙ e)
        h.seen;
}

-- Where no upload is out, any state with the right previews will do.
alone-AreShown :
    (s : Images) (u : Uploads)
    → (length u.out == 0) ≡ true
    → IsShown s
    → AreShown (record u { now = s })
alone-AreShown s u none_out w = record { shown = w; seen = nothing u.out none_out }
  where
    nothing :
        (xs : List Upload)
        → (length xs == 0) ≡ true
        → All (λ (x : Upload). s.existing_image_cids ≡ x.seen.existing_image_cids) xs
    nothing [] e = tt
    nothing (x ∷ xs) e = absurd (ground arith)

act-AreShown :
    (tools : Tools) (a : Action) (u : Uploads)
    → is_quiet a u ≡ true
    → AreShown u
    → AreShown (act tools a u)
unfolding act handle_remove_all
act-AreShown tools (begin_change files) u q h = record {
  shown = h.shown;
  seen =
      All-append (λ (x : Upload). u.now.existing_image_cids ≡ x.seen.existing_image_cids) u.out
        (record { seen = u.now; files = files } ∷ []) h.seen (refl, tt);
}
act-AreShown tools (end_change n) u q h = elim (Option-cases (upload_at n u.out)) [
  | inl e ↦ rw (act, e) h
  | inr (x, e) ↦
      let Saw = λ (y : Upload). u.now.existing_image_cids ≡ y.seen.existing_image_cids in
      let left : Uploads = record u { out = remove_at n u.out } in
      rw (act, e)
        (now-AreShown (handle_image_change tools x.seen x.files u.now) left
          (handle_image_change-cids tools x.seen x.files u.now)
          (handle_image_change-IsShown tools x.seen x.files u.now
            (All-upload_at Saw n u.out x h.seen e) h.shown)
          (record { shown = h.shown; seen = All-remove_at Saw n u.out h.seen }))
]
act-AreShown tools (remove_image idx) u q h =
    let right = handle_remove_image-IsShown tools idx u.now h.shown in
    elim (Bool-cases (length u.out == 0)) [
      | inl off ↦ alone-AreShown (handle_remove_image tools idx u.now) u off right
      | inr on ↦
          now-AreShown (handle_remove_image tools idx u.now) u
            (handle_remove_image-cids tools idx u.now (ground arith)) right h
    ]
act-AreShown tools remove_all u q h = alone-AreShown (handle_remove_all u.now) u q refl

-- Where no existing image is removed while an upload is handled, the previews show the existing images
-- and then the new ones after all, where they did and every upload that was out saw the existing
-- images as they are.
pub act_all-AreShown :
    (tools : Tools) (actions : List Action) (u : Uploads)
    → all_quiet tools actions u ≡ true
    → AreShown u
    → AreShown (act_all tools actions u)
unfolding act_all
act_all-AreShown tools [] u q h = h
act_all-AreShown tools (a ∷ actions) u q h =
    let parts = (&&_iff (is_quiet a u) (all_quiet tools actions (act tools a u))).0 q in
    act_all-AreShown tools actions (act tools a u) parts.1 (act-AreShown tools a u parts.0 h)
