-- ===== src/Donation/Images/Form.antt =====
-- What the form of an update holds after each action on its images.
use mmn_tx_explorer.Base.{
  ℕ, ◌+◌, ◌-◌, ◌≤◌, ◌<◌, some, List, [], ◌∷◌, ◌++◌, map, ◌≡◌, ◌≢◌, refl, sym, arith, ltb, length,
  All, Bool-cases, Option-cases, List-cases, if_either, inl, inr, subst, ◌⊎◌,
}
use mmn_tx_explorer.Donation.Images.{
  File, Images, Tools, max_total_size, max_images_allowed, sum_sizes, total_size, keep_some,
  process, to_compress, place, handle_image_change, handle_remove_image, remove_at,
}
use mmn_tx_explorer.Donation.Images.Limits.{handle_image_change-cases}

-- A file comes out of the processing no larger than the room that was left.
process-size :
    (tools : Tools) (available : ℕ) (f g : File)
    → process tools available f ≡ some g
    → g.size ≤ available
unfolding process
process-size tools available f g e = elim (Option-cases (to_compress tools f)) [
  | inl none_left ↦ cc
  | inr (p, found) ↦ elim (Option-cases (tools.compress p)) [
    | inl failed ↦ cc
    | inr (h, compressed) ↦ elim (Bool-cases (ltb available h.size)) [
      | inl big ↦ absurd (ground arith)
      | inr fits ↦ ground arith
    ]
  ]
]

keep_some-process :
    (tools : Tools) (available : ℕ) (fs : List File)
    → All (λ g. g.size ≤ available) (keep_some (map (process tools available) fs))
unfolding keep_some
keep_some-process tools available [] = tt
keep_some-process tools available (f ∷ fs) = elim (Option-cases (process tools available f)) [
  | inl e ↦ rw e (keep_some-process tools available fs)
  | inr (g, e) ↦ rw e (process-size tools available f g e, keep_some-process tools available fs)
]

length-keep_some :
    (tools : Tools) (available : ℕ) (fs : List File)
    → length (keep_some (map (process tools available) fs)) ≤ length fs
unfolding keep_some
length-keep_some tools available [] = omega arith
length-keep_some tools available (f ∷ fs) = elim (Option-cases (process tools available f)) [
  | inl e ↦ rw e (omega (arith, length-keep_some tools available fs))
  | inr (g, e) ↦ rw e (omega (arith, length-keep_some tools available fs))
]

-- Either nothing of the images, the previews and the form changed, or files were appended, each
-- within the room that was left, and the form holds the data of all new images.
abbrev pub IsAllOrNone : Tools → List File → Images → Images → Type 0
IsAllOrNone tools files s s' =
    ((s'.images ≡ s.images) × (s'.reported ≡ s.reported) × (s'.previews ≡ s.previews))
    ⊎ ((valid : List File) × (s'.images ≡ s.images ++ valid)
        × (length valid ≤ length files)
        × All (λ g. g.size ≤ max_total_size - total_size s) valid
        × (s'.reported ≡ (map tools.data_url s'.images, s'.existing_image_cids)))

place-IsAllOrNone :
    (tools : Tools) (files valid : List File) (s : Images)
    → length valid ≤ length files
    → All (λ g. g.size ≤ max_total_size - total_size s) valid
    → IsAllOrNone tools files s (place tools s valid s)
unfolding place
place-IsAllOrNone tools files valid s few fit =
    if_either (IsAllOrNone tools files s)
      (ltb max_total_size (sum_sizes (s.images ++ valid) + s.existing_images_size))
      (inl (refl, refl, refl))
      (if_either (IsAllOrNone tools files s)
        (ltb max_images_allowed (length (s.images ++ valid) + length s.existing_image_cids))
        (inl (refl, refl, refl)) (inr (valid, refl, few, fit, refl)))

-- An upload adds the files that were processed or none: either the images, the previews and the
-- form stay as they were, or new images are appended, no more than were chosen and each no larger
-- than the room that was left, and the form then holds the data of all new images.
pub handle_image_change-IsAllOrNone :
    (tools : Tools) (files : List File) (s : Images)
    → IsAllOrNone tools files s (handle_image_change tools s files s)
handle_image_change-IsAllOrNone tools files s = elim (handle_image_change-cases tools s s files) [
  | inl (n, e) ↦ subst (IsAllOrNone tools files s) (sym e) (inl (refl, refl, refl))
  | inr (inl e) ↦ subst (IsAllOrNone tools files s) (sym e) (inl (refl, refl, refl))
  | inr (inr (f, fs, k, _, e)) ↦
      let room = max_total_size - total_size s in
      subst (IsAllOrNone tools files s) (sym e) (
        place-IsAllOrNone tools files (f ∷ fs) s
          (subst (λ v. length v ≤ length files) k (length-keep_some tools room files))
          (subst (All (λ g. g.size ≤ room)) k (keep_some-process tools room files)))
]

-- The removal of an existing image reports no new image to the form, although all of the new ones
-- stay on show: where there are some, the form no longer holds what is shown.
pub handle_remove_image-forgets :
    (tools : Tools) (idx : ℕ) (s : Images)
    → idx < length s.existing_image_cids
    → s.images ≢ []
    → let s' = handle_remove_image tools idx s in
      (s'.images ≡ s.images)
      × (s'.reported ≡ ([], remove_at idx s.existing_image_cids))
      × (s'.reported ≢ (map tools.data_url s'.images, s'.existing_image_cids))
unfolding handle_remove_image
handle_remove_image-forgets tools idx s h some_new = (
  ground arith,
  ground arith,
  λ e. elim (List-cases s.images) [
    | inl empty ↦ some_new empty
    | inr (f, fs, full) ↦ absurd (ground arith)
  ],
)
