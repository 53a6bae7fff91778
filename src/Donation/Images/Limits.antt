-- ===== src/Donation/Images/Limits.antt =====
-- The limits on the images of an update, under each of its handlers.
use mmn_tx_explorer.Base.{
  ℕ, zero, suc, ◌+◌, ◌-◌, ◌≤◌, ◌<◌, List, [], ◌∷◌, ◌++◌, map, ◌≡◌, refl, sym, ap, ◌∙◌, arith, ltb,
  leb, length, Bool-cases, List-cases, subst, ◌⊎◌, inl, inr, if_either,
}
use mmn_tx_explorer.Donation.Images.{
  File, Images, Tools, max_total_size, max_images_allowed, sum_sizes, total_size, remove_at,
  keep_some, process, invalid_names, place, handle_image_change, handle_remove_image,
  handle_remove_all, Notice, notify, invalid_files, limit_reached,
}

module _ {ℓ} {A : Type ℓ} where
  length-remove_at : (n : ℕ) (xs : List A) → length (remove_at n xs) ≤ length xs
  unfolding remove_at
  length-remove_at n [] = omega arith
  length-remove_at zero (x ∷ xs) = omega arith
  length-remove_at (suc n) (x ∷ xs) = omega (arith, length-remove_at n xs)

  pub remove_at-append-left :
      (n : ℕ) (xs ys : List A) → n < length xs → remove_at n (xs ++ ys) ≡ remove_at n xs ++ ys
  unfolding remove_at
  remove_at-append-left n [] ys h = absurd (omega arith)
  remove_at-append-left zero (x ∷ xs) ys h = refl
  remove_at-append-left (suc n) (x ∷ xs) ys h =
      ap (λ zs. x ∷ zs) (remove_at-append-left n xs ys (omega arith))

  pub remove_at-append-right :
      (n : ℕ) (xs ys : List A)
      → length xs ≤ n
      → remove_at n (xs ++ ys) ≡ xs ++ remove_at (n - length xs) ys
  unfolding remove_at
  remove_at-append-right n [] ys h = ap (λ k. remove_at k ys) (omega arith)
  remove_at-append-right zero (x ∷ xs) ys h = absurd (omega arith)
  remove_at-append-right (suc n) (x ∷ xs) ys h =
      let shift : n - length xs ≡ suc n - length (x ∷ xs) = omega arith in
      ap (λ zs. x ∷ zs)
        (remove_at-append-right n xs ys (omega arith) ∙ ap (λ k. xs ++ remove_at k ys) shift)

pub remove_at-map {ℓ κ} :
    {A : Type ℓ} {B : Type κ} (f : A → B) (n : ℕ) (xs : List A)
    → remove_at n (map f xs) ≡ map f (remove_at n xs)
unfolding remove_at
remove_at-map f n [] = refl
remove_at-map f zero (x ∷ xs) = refl
remove_at-map f (suc n) (x ∷ xs) = ap (λ zs. f x ∷ zs) (remove_at-map f n xs)

pub length-map {ℓ κ} :
    {A : Type ℓ} {B : Type κ} (f : A → B) (xs : List A) → length (map f xs) ≡ length xs
length-map f [] = refl
length-map f (x ∷ xs) = omega (arith, length-map f xs)

sum_sizes-remove_at : (n : ℕ) (fs : List File) → sum_sizes (remove_at n fs) ≤ sum_sizes fs
unfolding remove_at sum_sizes
sum_sizes-remove_at n [] = omega arith
sum_sizes-remove_at zero (f ∷ fs) = omega arith
sum_sizes-remove_at (suc n) (f ∷ fs) = omega (arith, sum_sizes-remove_at n fs)

-- The images are within both limits.
pub record IsWithin (s : Images) : Type 0 where
  pub size : total_size s ≤ max_total_size
  pub count : length s.images + length s.existing_image_cids ≤ max_images_allowed

-- What was there of existing images is still their size, and no image was added to them.
pub record Follows (seen s : Images) : Type 0 where
  pub same_size : s.existing_images_size ≡ seen.existing_images_size
  pub fewer : length s.existing_image_cids ≤ length seen.existing_image_cids

pub Follows-refl : (s : Images) → Follows s s
Follows-refl s = record { same_size = refl; fewer = omega arith }

pub Follows-trans : (a b c : Images) → Follows a b → Follows b c → Follows a c
Follows-trans a b c h k = record {
  same_size = k.same_size ∙ h.same_size;
  fewer = omega (arith, h.fewer, k.fewer);
}

place-IsWithin :
    (tools : Tools) (seen : Images) (valid : List File) (s : Images)
    → Follows seen s
    → IsWithin s
    → IsWithin (place tools seen valid s)
unfolding place
place-IsWithin tools seen valid s f h =
    elim (Bool-cases
      (ltb max_total_size (sum_sizes (seen.images ++ valid) + seen.existing_images_size))) [
        | inl big ↦ record { size = ground (arith, h.size); count = ground (arith, h.count) }
        | inr fits ↦
            elim (Bool-cases (
              ltb max_images_allowed
                (length (seen.images ++ valid) + length seen.existing_image_cids))) [
                  | inl many ↦ record {
                    size = ground (arith, h.size);
                    count = ground (arith, h.count);
                  }
                  | inr few ↦ record {
                    size = ground (arith, f.same_size);
                    count = ground (arith, f.fewer);
                  }
                ]
      ]

place-Follows :
    (tools : Tools) (seen : Images) (valid : List File) (s : Images)
    → Follows s (place tools seen valid s)
unfolding place
place-Follows tools seen valid s =
    if_either (Follows s)
      (ltb max_total_size (sum_sizes (seen.images ++ valid) + seen.existing_images_size))
      (record { same_size = refl; fewer = omega arith })
      (if_either (Follows s)
        (ltb max_images_allowed (length (seen.images ++ valid) + length seen.existing_image_cids))
        (record { same_size = refl; fewer = omega arith })
        (record { same_size = refl; fewer = omega arith }))

-- How the handler ends: with a notice, with nothing, or by placing files that all fit.
pub handle_image_change-cases :
    (tools : Tools) (seen s : Images) (files : List File)
    → ((n : Notice) × (handle_image_change tools seen files s ≡ notify n s))
      ⊎ (handle_image_change tools seen files s ≡ s)
      ⊎ ((f : File) × (fs : List File) × (keep_some
              (map (process tools (max_total_size - total_size seen)) files)
            ≡ f ∷ fs)
          × (invalid_names tools files ≡ [])
          × (handle_image_change tools seen files s ≡ place tools seen (f ∷ fs) s))
unfolding handle_image_change
handle_image_change-cases tools seen s files = elim (List-cases (invalid_names tools files)) [
  | inr (name, names, e) ↦ inl (invalid_files (name ∷ names), ground arith)
  | inl e ↦ elim (Bool-cases (leb max_total_size (total_size seen))) [
    | inl full ↦ inl (limit_reached, ground arith)
    | inr free ↦
        elim (List-cases
          (keep_some (map (process tools (max_total_size - total_size seen)) files))) [
            | inl k ↦ inr (inl (ground arith))
            | inr (f, fs, k) ↦ inr (inr (f, fs, k, e, ground arith))
          ]
  ]
]

notify-IsWithin : (n : Notice) (s : Images) → IsWithin s → IsWithin (notify n s)
notify-IsWithin n s h = record { size = h.size; count = h.count }

notify-Follows : (n : Notice) (s : Images) → Follows s (notify n s)
notify-Follows n s = record { same_size = refl; fewer = omega arith }

pub handle_image_change-IsWithin :
    (tools : Tools) (seen : Images) (files : List File) (s : Images)
    → Follows seen s
    → IsWithin s
    → IsWithin (handle_image_change tools seen files s)
handle_image_change-IsWithin tools seen files s f h =
    elim (handle_image_change-cases tools seen s files) [
      | inl (n, e) ↦ subst IsWithin (sym e) (notify-IsWithin n s h)
      | inr (inl e) ↦ subst IsWithin (sym e) h
      | inr (inr (g, fs, _, _, e)) ↦
          subst IsWithin (sym e) (place-IsWithin tools seen (g ∷ fs) s f h)
    ]

pub handle_image_change-Follows :
    (tools : Tools) (seen : Images) (files : List File) (s : Images)
    → Follows s (handle_image_change tools seen files s)
handle_image_change-Follows tools seen files s =
    elim (handle_image_change-cases tools seen s files) [
      | inl (n, e) ↦ subst (Follows s) (sym e) (notify-Follows n s)
      | inr (inl e) ↦ subst (Follows s) (sym e) (Follows-refl s)
      | inr (inr (g, fs, _, _, e)) ↦ subst (Follows s) (sym e) (place-Follows tools seen (g ∷ fs) s)
    ]

pub handle_remove_all-IsWithin : (s : Images) → IsWithin s → IsWithin (handle_remove_all s)
unfolding handle_remove_all sum_sizes
handle_remove_all-IsWithin s h = record { size = omega (arith, h.size); count = omega arith }

pub handle_remove_all-Follows : (s : Images) → Follows s (handle_remove_all s)
unfolding handle_remove_all
handle_remove_all-Follows s = record { same_size = refl; fewer = omega arith }

pub handle_remove_image-IsWithin :
    (tools : Tools) (idx : ℕ) (s : Images) → IsWithin s → IsWithin (handle_remove_image tools idx s)
unfolding handle_remove_image
handle_remove_image-IsWithin tools idx s h =
    let cids = s.existing_image_cids in
    let count = length cids in
    elim (Bool-cases (ltb idx count)) [
      | inl old ↦ record {
        size = ground (arith, h.size);
        count = ground (arith, h.count, length-remove_at idx cids);
      }
      | inr new ↦ record {
        size = ground (arith, h.size, sum_sizes-remove_at (idx - count) s.images);
        count = ground (arith, h.count, length-remove_at (idx - count) s.images);
      }
    ]

pub handle_remove_image-Follows :
    (tools : Tools) (idx : ℕ) (s : Images) → Follows s (handle_remove_image tools idx s)
unfolding handle_remove_image
handle_remove_image-Follows tools idx s =
    elim (Bool-cases (ltb idx (length s.existing_image_cids))) [
      | inl old ↦ record {
        same_size = ground arith;
        fewer = ground (arith, length-remove_at idx s.existing_image_cids);
      }
      | inr new ↦ record { same_size = ground arith; fewer = ground arith }
    ]
