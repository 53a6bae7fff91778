-- ===== src/Donation/Images/Previews.antt =====
-- The previews beside the images of an update, under each of its handlers.
use mmn_tx_explorer.Base.{
  ℕ, ◌+◌, ◌-◌, ◌≤◌, ◌<◌, String, List, ◌∷◌, ◌++◌, map, ◌≡◌, sym, ap, ◌∙◌, arith, ltb, length,
  Bool-cases, subst, inl, inr, if_either, false,
}
use mmn_tx_explorer.Donation.Images.{
  File, Preview, ipfs, object_url, Images, Tools, max_total_size, max_images_allowed, sum_sizes,
  remove_at, place, handle_image_change, handle_remove_image,
}
use mmn_tx_explorer.Donation.Images.Limits.{
  remove_at-append-left, remove_at-append-right, remove_at-map, length-map,
  handle_image_change-cases,
}

-- The previews of some existing and some new images.
abbrev pub previews_of : List String → List File → List Preview
previews_of cids images = map ipfs cids ++ map object_url images

remove_at-previews_of-old :
    (idx : ℕ) (cids : List String) (images : List File)
    → idx < length cids
    → remove_at idx (previews_of cids images) ≡ previews_of (remove_at idx cids) images
remove_at-previews_of-old idx cids images h =
    remove_at-append-left idx (map ipfs cids) (map object_url images)
      (omega (arith, length-map ipfs cids))
    ∙ ap (λ xs. xs ++ map object_url images) (remove_at-map ipfs idx cids)

remove_at-previews_of-new :
    (idx : ℕ) (cids : List String) (images : List File)
    → length cids ≤ idx
    → remove_at idx (previews_of cids images)
      ≡ previews_of cids (remove_at (idx - length cids) images)
remove_at-previews_of-new idx cids images h =
    remove_at-append-right idx (map ipfs cids) (map object_url images)
      (omega (arith, length-map ipfs cids))
    ∙ ap (λ k. map ipfs cids ++ remove_at (idx - k) (map object_url images)) (length-map ipfs cids)
    ∙ ap (λ xs. map ipfs cids ++ xs) (remove_at-map object_url (idx - length cids) images)

-- The previews show the existing images and then the new ones.
abbrev pub IsShown : Images → Type 0
IsShown s = s.previews ≡ previews_of s.existing_image_cids s.images

place-IsShown :
    (tools : Tools) (seen : Images) (valid : List File) (s : Images)
    → s.existing_image_cids ≡ seen.existing_image_cids
    → IsShown s
    → IsShown (place tools seen valid s)
unfolding place
place-IsShown tools seen valid s same h =
    if_either IsShown
      (ltb max_total_size (sum_sizes (seen.images ++ valid) + seen.existing_images_size)) h
      (if_either IsShown
        (ltb max_images_allowed (length (seen.images ++ valid) + length seen.existing_image_cids)) h
        (ap (λ cids. previews_of cids (seen.images ++ valid)) (sym same)))

-- The handler leaves the existing images, and the previews as they should be.
pub handle_image_change-IsShown :
    (tools : Tools) (seen : Images) (files : List File) (s : Images)
    → s.existing_image_cids ≡ seen.existing_image_cids
    → IsShown s
    → IsShown (handle_image_change tools seen files s)
handle_image_change-IsShown tools seen files s same h =
    elim (handle_image_change-cases tools seen s files) [
      | inl (n, e) ↦ subst IsShown (sym e) h
      | inr (inl e) ↦ subst IsShown (sym e) h
      | inr (inr (g, fs, _, _, e)) ↦
          subst IsShown (sym e) (place-IsShown tools seen (g ∷ fs) s same h)
    ]

place-cids :
    (tools : Tools) (seen : Images) (valid : List File) (s : Images)
    → (place tools seen valid s).existing_image_cids ≡ s.existing_image_cids
unfolding place
place-cids tools seen valid s = ground arith

pub handle_image_change-cids :
    (tools : Tools) (seen : Images) (files : List File) (s : Images)
    → (handle_image_change tools seen files s).existing_image_cids ≡ s.existing_image_cids
handle_image_change-cids tools seen files s = elim (handle_image_change-cases tools seen s files) [
  | inl (n, e) ↦ ap (λ (t : Images). t.existing_image_cids) e
  | inr (inl e) ↦ ap (λ (t : Images). t.existing_image_cids) e
  | inr (inr (g, fs, _, _, e)) ↦
      ap (λ (t : Images). t.existing_image_cids) e ∙ place-cids tools seen (g ∷ fs) s
]

pub handle_remove_image-IsShown :
    (tools : Tools) (idx : ℕ) (s : Images) → IsShown s → IsShown (handle_remove_image tools idx s)
unfolding handle_remove_image
handle_remove_image-IsShown tools idx s h =
    let cids = s.existing_image_cids in
    elim (Bool-cases (ltb idx (length cids))) [
      | inl old ↦
          ground (
            arith,
            ap (remove_at idx) h,
            remove_at-previews_of-old idx cids s.images (ground arith),
          )
      | inr new ↦
          ground (
            arith,
            ap (remove_at idx) h,
            remove_at-previews_of-new idx cids s.images (ground arith),
          )
    ]

-- The removal of a new image leaves the existing ones.
pub handle_remove_image-cids :
    (tools : Tools) (idx : ℕ) (s : Images)
    → ltb idx (length s.existing_image_cids) ≡ false
    → (handle_remove_image tools idx s).existing_image_cids ≡ s.existing_image_cids
unfolding handle_remove_image
handle_remove_image-cids tools idx s new = ground arith
