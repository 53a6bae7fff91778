-- ===== src/Donation/Images.antt =====
-- The images of a campaign's update: frontend/modules/donation-campaign/services/
-- UploadDonationImage.ts with IMAGE_CONSTRAINTS of ../constants.ts. The detection of a file's type,
-- the conversion from HEIC, the compression and the reading as a data URL are parameters. The
-- notices that single files raise while they are compressed, and the flag that is set meanwhile,
-- are left out.
pub mod Limits
pub mod Previews
pub mod Runs
pub mod Shown
pub mod Form
use mmn_tx_explorer.Base.{
  ℕ, zero, suc, ◌+◌, ◌-◌, ◌*◌, String, Bool, true, false, ◌||◌, not, Option, none, some, List, [],
  ◌∷◌, ◌++◌, map, ltb, leb, if◌then◌else◌, length, truthy, includes, str_eq,
}

pub record File : Type 0 where
  pub name : String
  pub type : String
  pub size : ℕ
  pub content : String

abbrev pub max_images_size : ℕ
max_images_size = 20

abbrev pub max_images_allowed : ℕ
max_images_allowed = 50

abbrev pub allowed_image_types : List String
allowed_image_types =
    "image/jpeg" ∷ "image/jpg" ∷ "image/png" ∷ "image/heic" ∷ "image/heif" ∷ "image/heic-sequence"
    ∷ "image/heif-sequence" ∷ []

-- A preview's address: at the IPFS service, or an object URL of a file.
pub data Preview : Type 0 where
  ipfs : String → Preview
  object_url : File → Preview

pub data Notice : Type 0 where
  invalid_files : List String → Notice
  limit_reached would_exceed too_many all_removed : Notice
  uploaded : ℕ → Notice

pub record Images : Type 0 where
  pub images : List File
  pub previews : List Preview
  pub existing_image_cids : List String
  pub existing_images_size : ℕ
  -- What `onImagesUpdate` was last called with.
  pub reported : List String × List String
  pub notices : List Notice

pub record Tools : Type 0 where
  -- `fileTypeFromBlob(file)?.mime`, none where it throws too.
  pub detect : File → Option String
  pub convert : File → Option File
  pub compress : File → Option File
  pub data_url : File → String

-- `images.reduce((sum, img) => sum + img.size, 0)`
unfoldable pub sum_sizes : List File → ℕ
sum_sizes [] = 0
sum_sizes (f ∷ fs) = f.size + sum_sizes fs

abbrev pub total_size : Images → ℕ
total_size s = sum_sizes s.images + s.existing_images_size

abbrev pub max_total_size : ℕ
max_total_size = max_images_size * 1024 * 1024

-- `list.filter((_, i) => i !== idx)`
unfoldable pub remove_at {ℓ} : {A : Type ℓ} → ℕ → List A → List A
remove_at n [] = []
remove_at zero (x ∷ xs) = xs
remove_at (suc n) (x ∷ xs) = x ∷ remove_at n xs

-- `list.filter((file) => file !== null)`
unfoldable pub keep_some {ℓ} : {A : Type ℓ} → List (Option A) → List A
keep_some [] = []
keep_some (none ∷ xs) = keep_some xs
keep_some (some x ∷ xs) = x ∷ keep_some xs

abbrev pub notify : Notice → Images → Images
notify n s = record s { notices = s.notices ++ n ∷ [] }

module _ (tools : Tools) where
  open tools use {detect, convert, compress, data_url}

  unfoldable pub mime_of : File → String
  mime_of f = elim (detect f) [ none ↦ f.type | some m ↦ if truthy m then m else f.type ]

  -- The names of the files whose type is not allowed.
  unfoldable pub invalid_names : List File → List String
  unfolding mime_of
  invalid_names [] = []
  invalid_names (f ∷ fs) =
      if includes (mime_of f) allowed_image_types
      then invalid_names fs
      else f.name ∷ invalid_names fs

  abbrev pub is_heic : String → Bool
  is_heic mime = str_eq mime "image/heic" || str_eq mime "image/heif"

  -- The file that is compressed.
  unfoldable pub to_compress : File → Option File
  unfolding mime_of
  to_compress f = if is_heic (mime_of f) then convert f else some f

  -- One file's way to what is uploaded.
  unfoldable pub process : ℕ → File → Option File
  unfolding to_compress
  process available f = elim (to_compress f) [
    | none ↦ none
    | some g ↦ elim (compress g) [
      | none ↦ none
      | some h ↦ if ltb available h.size then none else some h
    ]
  ]

  -- The end of the handler, on the files that were processed. `seen` is the state of the render
  -- that the handler belongs to.
  unfoldable pub place : Images → List File → Images → Images
  unfolding sum_sizes
  place seen valid s =
      let new_images = seen.images ++ valid in
      if ltb max_total_size (sum_sizes new_images + seen.existing_images_size)
      then notify would_exceed s
      else (if ltb max_images_allowed (length new_images + length seen.existing_image_cids)
          then notify too_many s
          else record s {
            images = new_images;
            previews = map ipfs seen.existing_image_cids ++ map object_url new_images;
            reported = (map data_url new_images, seen.existing_image_cids);
            notices = s.notices ++ uploaded (length valid) ∷ [];
          })

  unfoldable pub handle_image_change : Images → List File → Images → Images
  unfolding place sum_sizes process keep_some invalid_names
  handle_image_change seen files s = elim (invalid_names files) [
    | name ∷ names ↦ notify (invalid_files (name ∷ names)) s
    | [] ↦
        if leb max_total_size (total_size seen)
        then notify limit_reached s
        else (elim (keep_some (map (process (max_total_size - total_size seen)) files)) [
          | [] ↦ s
          | f ∷ fs ↦ place seen (f ∷ fs) s
        ])
  ]

  unfoldable pub handle_remove_image : ℕ → Images → Images
  unfolding remove_at
  handle_remove_image idx s =
      let count = length s.existing_image_cids in
      let cids = remove_at idx s.existing_image_cids in
      let new_images = remove_at (idx - count) s.images in
      let rest : Images = record s { previews = remove_at idx s.previews } in
      if ltb idx count
      then record rest { existing_image_cids = cids; reported = ([], cids) }
      else record rest {
        images = new_images;
        reported = (map data_url new_images, s.existing_image_cids);
      }

unfoldable pub handle_remove_all : Images → Images
handle_remove_all s = record s {
  images = [];
  previews = [];
  existing_image_cids = [];
  reported = ([], []);
  notices = s.notices ++ all_removed ∷ [];
}

unfoldable pub set_existing_size : ℕ → Images → Images
set_existing_size size s = record s { existing_images_size = size }

unfoldable pub initialize_existing_images : List String → Images → Images
initialize_existing_images cids s = record s {
  existing_image_cids = cids;
  previews = map ipfs cids;
}
