-- ===== src/Donation/Campaign/Tests.antt =====
-- The theorems on the submission of campaigns and updates at concrete inputs.
use mmn_tx_explorer.Base.{String, true, false, Option, none, some, [], ◌∷◌, ◌≡◌, ◌⊎◌, refl, trim}
use mmn_tx_explorer.Hooks.Transfer.{answered, Credentials}
use mmn_tx_explorer.Donation.Campaign.{
  publish, CampaignCall, CampaignPage, handle_submit, is_numeric,
}
use mmn_tx_explorer.Donation.Campaign.Submit.{IsAllowed, handle_submit_lem}
use mmn_tx_explorer.Donation.Update.{
  DonationUpdateForm, UpdatePost, UpdatePage, FeedServer, submit_update,
}

abbrev answer : CampaignCall → Option String
answer c = some "slug"

abbrev campaign_page : CampaignPage
campaign_page = record {
  form = record {
    name = "Wells";
    short_description = "Water";
    fundraising_goal = some 100;
    banner_image_url = "";
    wallet_address = "w";
    wallet_private_key = "k";
    owner = " ann ";
    end_date = "2026-01-01";
  };
  is_saving = false;
  is_wallet_downloaded = true;
  calls = [];
  toasts = [];
  pushed = [];
}

handle_submit_lem_example :
    let q = handle_submit answer none publish campaign_page in
    (q.is_saving ≡ false)
    × (q.form ≡ campaign_page.form)
    × (((q.calls ≡ []) × (q.pushed ≡ []))
        ⊎ ((c : CampaignCall) × (q.calls ≡ c ∷ [])
            × (q.pushed ≡ "slug" ∷ [])
            × (is_numeric (trim "Wells") ≡ false)
            × IsAllowed answer campaign_page c))
handle_submit_lem_example = handle_submit_lem answer none publish campaign_page refl

abbrev server : FeedServer
server = record {
  upload_images = λ images. answered ("cid2" ∷ []);
  current_nonce = λ id. answered 3;
  post_feed = λ post. answered true;
}

abbrev credentials : Credentials
credentials = record {
  user = some ("u1", "ann", "wa");
  keypair = some ("pk", "sk");
  zk_proof = some ("proof", "input");
}

abbrev update : DonationUpdateForm
update = record {
  title = "News";
  description = "Done";
  reference_tx_hashes = [];
  images = "data:image/png;base64,x" ∷ [];
  existing_image_cids = "cid1" ∷ [];
}

abbrev edited_post : UpdatePost
edited_post = record { tx_hash = "t2"; root_hash = some "t1" }

abbrev update_page : UpdatePage
update_page = record { is_saving = true; toasts = []; pushed = []; posted = [] }

submit_update_test :
    (submit_update server credentials "dw" "slug" update (some edited_post) update_page).pushed
    ≡ "slug" ∷ []
unfolding submit_update
submit_update_test = refl
