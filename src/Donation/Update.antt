-- ===== src/Donation/Update.antt =====
-- The submission of an update: frontend/modules/donation-campaign/context/UpdateDonationContext.tsx,
-- with the guards of frontend/modules/donation-campaign/hooks/useUpdateForm.ts left to its callers. The
-- server and the client are a parameter: each call answers or throws.
use mmn_tx_explorer.Base.{
  ℕ, ◌+◌, String, Bool, true, false, not, ◌&&◌, Option, none, some, List, [], ◌∷◌, ◌++◌, ◌≡◌, ◌⊎◌,
  inl, inr, refl, truthy, trim,
}
use mmn_tx_explorer.Hooks.Transfer.{
  Answer, threw, answered, or_default, Credentials, id_of, address_of,
}
use mmn_tx_explorer.Donation.Campaign.{is_numeric}

pub record DonationUpdateForm : Type 0 where
  pub title : String
  pub description : String
  pub reference_tx_hashes : List String
  -- Data URLs of new images, and the ids of those that are there.
  pub images : List String
  pub existing_image_cids : List String

-- The update that is edited.
pub record UpdatePost : Type 0 where
  pub tx_hash : String
  pub root_hash : Option String

-- `validateForm`: the title and the description.
unfoldable pub validate_update : DonationUpdateForm → Bool × Bool
validate_update form =
    let title = trim form.title in
    (truthy title && not (is_numeric title), truthy (trim form.description))

pub record FeedPost : Type 0 where
  pub sender : String
  pub recipient : String
  pub amount : String
  pub nonce : ℕ
  pub public_key : String
  pub private_key : String
  pub zk_proof : String
  pub zk_pub : String
  pub title : String
  pub description : String
  pub image_cids : List String
  pub reference_tx_hashes : List String
  -- Parent and root, of an update that is edited.
  pub hashes : Option (String × String)

pub record UpdatePage : Type 0 where
  pub is_saving : Bool
  -- Whether each toast is one of success.
  pub toasts : List Bool
  pub pushed : List String
  pub posted : List FeedPost

pub record FeedServer : Type 0 where
  -- The data URL as a file, then the upload of all.
  pub upload_images : List String → Answer (List String)
  pub current_nonce : String → Answer ℕ
  -- Whether the post is `ok`.
  pub post_feed : FeedPost → Answer Bool

abbrev pub first_of : Option (String × String) → String
first_of none = ""
first_of (some (a, b)) = a

abbrev pub second_of : Option (String × String) → String
second_of none = ""
second_of (some (a, b)) = b

-- `root_hash || tx_hash`
unfoldable pub hashes_of : Option UpdatePost → Option (String × String)
hashes_of none = none
hashes_of (some post) = some (post.tx_hash, or_default post.root_hash post.tx_hash)

module _ (server : FeedServer) (c : Credentials) (donation_wallet slug : String) where
  open server use {upload_images, current_nonce, post_feed}

  -- The ids of the new images; none are asked for where there is no new image.
  unfoldable pub new_cids : List String → Answer (List String)
  new_cids [] = answered []
  new_cids (image ∷ images) = upload_images (image ∷ images)

  unfoldable pub feed_post : DonationUpdateForm → Option UpdatePost → List String → ℕ → FeedPost
  unfolding hashes_of
  feed_post form post cids nonce = record {
    sender = address_of c.user;
    recipient = donation_wallet;
    amount = "0";
    nonce = nonce + 1;
    public_key = first_of c.keypair;
    private_key = second_of c.keypair;
    zk_proof = first_of c.zk_proof;
    zk_pub = second_of c.zk_proof;
    title = form.title;
    description = form.description;
    image_cids = form.existing_image_cids ++ cids;
    reference_tx_hashes = form.reference_tx_hashes;
    hashes = hashes_of post;
  }

  -- After the post.
  unfoldable pub settle_post : Answer Bool → UpdatePage → UpdatePage
  settle_post (threw m) p = record p { toasts = p.toasts ++ false ∷ []; is_saving = false }
  settle_post (answered false) p = record p { toasts = p.toasts ++ false ∷ []; is_saving = false }
  settle_post (answered true) p = record p {
    toasts = p.toasts ++ true ∷ [];
    pushed = p.pushed ++ slug ∷ [];
    is_saving = false;
  }

  -- `handleSubmit` whole.
  unfoldable pub submit_update : DonationUpdateForm → Option UpdatePost → UpdatePage → UpdatePage
  unfolding new_cids feed_post settle_post
  submit_update form post p =
      let refused = record p { toasts = p.toasts ++ false ∷ []; is_saving = false } in
      elim (new_cids form.images) [
        | threw m ↦ refused
        | answered cids ↦ elim (current_nonce (id_of c.user)) [
          | threw m ↦ refused
          | answered nonce ↦
              let sent = feed_post form post cids nonce in
              settle_post (post_feed sent) (record p { posted = p.posted ++ sent ∷ [] })
        ]
      ]

  Answer-cases {ℓ} :
      {A : Type ℓ} (a : Answer A)
      → ((m : Option String) × (a ≡ threw m)) ⊎ ((x : A) × (a ≡ answered x))
  Answer-cases (threw m) = inl (m, refl)
  Answer-cases (answered x) = inr (x, refl)

  settle_post-kept :
      (a : Answer Bool) (p : UpdatePage)
      → ((settle_post a p).posted ≡ p.posted)
        × ((settle_post a p).is_saving ≡ false)
        × (((settle_post a p).pushed ≡ p.pushed) ⊎ (a ≡ answered true))
  unfolding settle_post
  settle_post-kept (threw m) p = (refl, refl, inl refl)
  settle_post-kept (answered false) p = (refl, refl, inl refl)
  settle_post-kept (answered true) p = (refl, refl, inr refl)

  -- A submission leaves nothing saving. Either it posts nothing and opens no page, or it posts one
  -- update, formed with the nonce that was read and the images that were uploaded; a page is opened
  -- only for a post that is accepted.
  pub submit_update_lem :
      (form : DonationUpdateForm) (post : Option UpdatePost) (p : UpdatePage)
      → let q = submit_update form post p in
        (q.is_saving ≡ false)
        × (((q.posted ≡ p.posted) × (q.pushed ≡ p.pushed))
            ⊎ ((cids : List String) × (nonce : ℕ) × (new_cids form.images ≡ answered cids)
                × (current_nonce (id_of c.user) ≡ answered nonce)
                × (q.posted ≡ p.posted ++ feed_post form post cids nonce ∷ [])
                × ((q.pushed ≡ p.pushed)
                    ⊎ (post_feed (feed_post form post cids nonce) ≡ answered true))))
  unfolding submit_update
  submit_update_lem form post p = elim (Answer-cases (new_cids form.images)) [
    | inl (m, e) ↦
        (rw (submit_update, e) refl, inl (rw (submit_update, e) refl, rw (submit_update, e) refl))
    | inr (cids, e) ↦ elim (Answer-cases (current_nonce (id_of c.user))) [
      | inl (m, f) ↦ (
        rw (submit_update, e, f) refl,
        inl (rw (submit_update, e, f) refl, rw (submit_update, e, f) refl),
      )
      | inr (nonce, f) ↦
          let sent = feed_post form post cids nonce in
          let (a, b, d) =
            settle_post-kept (post_feed sent) (record p { posted = p.posted ++ sent ∷ [] }) in
          (
            rw (submit_update, e, f) b,
            inr (cids, nonce, e, f, rw (submit_update, e, f) a, rw (submit_update, e, f) d),
          )
    ]
  ]
