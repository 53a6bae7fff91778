-- ===== src/Donation/Tests.antt =====
-- The theorems on the images of an update and on the feed at concrete inputs.
use mmn_tx_explorer.Base.{◌+◌, ℕ, Option, length, none, some, List, [], ◌∷◌, ◌≡◌, refl, arith}
use mmn_tx_explorer.Donation.Images.{
  File, ipfs, object_url, Images, Tools, sum_sizes, handle_image_change, handle_remove_image,
}
use mmn_tx_explorer.Donation.Images.Limits.{IsWithin}
use mmn_tx_explorer.Donation.Images.Runs.{
  Uploads, Action, begin_change, end_change, remove_image, remove_all, act, act_all, AreWithin,
  act_all-AreWithin,
}
use mmn_tx_explorer.Donation.Images.Shown.{AreShown, act_all-AreShown}
use mmn_tx_explorer.Donation.Feed.{FeedItem, feed_limit, fetch_pages}
use mmn_tx_explorer.Donation.Feed.Pages.{take, older, IsServer, fetch_pages_lem}

abbrev photo : File
photo = record { name = "a.jpg"; type = "image/jpeg"; size = 3000; content = "abc" }

abbrev script : File
script = record { name = "a.js"; type = "text/javascript"; size = 10; content = "x" }

-- The browser's type is kept, and compression halves nothing.
abbrev tools : Tools
tools = record {
  detect = λ f. none;
  convert = λ f. none;
  compress = λ f. some f;
  data_url = λ f. f.content;
}

-- An update with one existing and one new image.
abbrev staged : Images
staged = record {
  images = photo ∷ [];
  previews = ipfs "cid" ∷ object_url photo ∷ [];
  existing_image_cids = "cid" ∷ [];
  existing_images_size = 100;
  reported = ("abc" ∷ [], "cid" ∷ []);
  notices = [];
}

staged-IsWithin : IsWithin staged
unfolding sum_sizes
staged-IsWithin = record { size = omega arith; count = omega arith }

abbrev quiet : Uploads
quiet = record { now = staged; out = [] }

quiet-AreWithin : AreWithin quiet
quiet-AreWithin = record { within = staged-IsWithin; followed = tt }

quiet-AreShown : AreShown quiet
quiet-AreShown = record { shown = refl; seen = tt }

-- Two uploads at once, the later one handled first, and the existing image is removed meanwhile.
abbrev hasty : List Action
hasty =
    begin_change (photo ∷ [])
    ∷ begin_change (script ∷ photo ∷ [])
    ∷ remove_image 0
    ∷ end_change 1
    ∷ end_change 0
    ∷ []

-- A new image is removed while an upload is handled, and the existing one before.
abbrev patient : List Action
patient =
    remove_image 0 ∷ begin_change (photo ∷ []) ∷ remove_image 0 ∷ end_change 0 ∷ remove_all ∷ []

-- The existing image was removed while the upload was handled, and its preview is back.
shows_removed :
    let after = act_all tools hasty quiet in
    (after.now.existing_image_cids ≡ [])
    × (after.now.previews ≡ ipfs "cid" ∷ object_url photo ∷ object_url photo ∷ [])
unfolding act_all act handle_image_change handle_remove_image
shows_removed = (refl, refl)

-- A script is refused, and the photo beside it too.
refused_test : (handle_image_change tools staged (photo ∷ script ∷ []) staged).images ≡ photo ∷ []
unfolding handle_image_change
refused_test = refl

act_all-AreWithin_example : AreWithin (act_all tools hasty quiet)
act_all-AreWithin_example = act_all-AreWithin tools hasty quiet quiet-AreWithin

act_all-AreShown_example : AreShown (act_all tools patient quiet)
unfolding act handle_image_change handle_remove_image
act_all-AreShown_example = act_all-AreShown tools patient quiet refl quiet-AreShown

abbrev feed : List FeedItem
feed =
    record { root_created_at = 30; tx_hash = "c" }
    ∷ record { root_created_at = 20; tx_hash = "b" }
    ∷ record { root_created_at = 10; tx_hash = "a" }
    ∷ []

abbrev feed_server : Option ℕ → List FeedItem
feed_server t = take 2 (older t feed)

feed-IsServer : IsServer feed_server (feed_limit (some 2)) feed
unfolding feed_limit
feed-IsServer = record { page = λ t. refl }

fetch_pages_lem_example :
    fetch_pages feed_server (feed_limit (some 2)) (length feed + 1) none ≡ feed
fetch_pages_lem_example =
    fetch_pages_lem feed_server (some 2) feed feed-IsServer
      ((omega arith, (omega arith, tt)), ((omega arith, tt), (tt, tt)))
