-- ===== src/Donation/Campaign.antt =====
-- The form of a campaign: frontend/modules/donation-campaign/context/CreateCampaignContext.tsx. The
-- server's answers are a parameter, none for a call that throws. The full description is not sent.
pub mod Submit
mod Tests
use Prim.Native.Char.{Char, code}
use Prim.Native.String.{String, [] as empty, ◌∷◌ as cons}
use mmn_tx_explorer.Base.{
  ℕ, Bool, true, false, not, ◌&&◌, ◌||◌, Option, none, some, List, [], ◌∷◌, ◌++◌, ◌≡◌, ◌≢◌, ◌⊎◌,
  inl, inr, refl, arith, leb, if◌then◌else◌, truthy, trim, Bool-cases, Option-cases,
}

-- `/^\d+$/.test(s)`
abbrev pub digits_only : String → Bool
digits_only empty = true
digits_only (cons c s) = (leb 48 (code c) && leb (code c) 57) && digits_only s

abbrev pub is_numeric : String → Bool
is_numeric s = truthy s && digits_only s

pub record CreateCampaignForm : Type 0 where
  pub name : String
  pub short_description : String
  pub fundraising_goal : Option ℕ
  pub banner_image_url : String
  pub wallet_address : String
  pub wallet_private_key : String
  pub owner : String
  pub end_date : String

pub record CreateCampaignValidation : Type 0 where
  pub is_basics_complete : Bool
  pub is_goals_complete : Bool
  pub is_wallet_complete : Bool
  pub is_description_complete : Bool
  pub is_all_complete : Bool

unfoldable pub validate_form : CreateCampaignForm → Bool → CreateCampaignValidation
validate_form form is_wallet_downloaded =
    let name = trim form.name in
    let basics = (truthy name && not (is_numeric name)) && truthy form.short_description in
    let wallet =
      truthy form.wallet_address && (truthy form.wallet_private_key && is_wallet_downloaded) in
    record {
      is_basics_complete = basics;
      is_goals_complete = true;
      is_wallet_complete = wallet;
      is_description_complete = true;
      is_all_complete = basics && wallet;
    }

pub record CampaignData : Type 0 where
  pub name : String
  pub description : String
  pub goal : ℕ
  pub url : String
  pub donation_wallet : String
  pub owner : String
  pub end_date : String

pub data SubmitAction : Type 0 where
  draft publish : SubmitAction

-- What is asked of the server.
pub data CampaignCall : Type 0 where
  create_draft create_and_publish : CampaignData → CampaignCall
  edit : String → CampaignData → CampaignCall

pub data Toast : Type 0 where
  only_numbers incomplete saved edited published failed generated not_generated : Toast

pub record CampaignPage : Type 0 where
  pub form : CreateCampaignForm
  pub is_saving : Bool
  pub is_wallet_downloaded : Bool
  pub calls : List CampaignCall
  pub toasts : List Toast
  pub pushed : List String

-- `generateWallet` with the keys that the client gives, and what it returns.
unfoldable pub generate_wallet : Option (String × String) → CampaignPage → CampaignPage × Bool
generate_wallet none p =
    (record p { is_saving = false; toasts = p.toasts ++ not_generated ∷ [] }, false)
generate_wallet (some (public_key, private_key)) p = (
  record p {
    form = record p.form { wallet_address = public_key; wallet_private_key = private_key };
    is_saving = false;
    toasts = p.toasts ++ generated ∷ [];
  },
  true,
)

module _ (answer : CampaignCall → Option String) where
  unfoldable pub campaign_data : CreateCampaignForm → CampaignData
  campaign_data form = record {
    name = form.name;
    description = form.short_description;
    goal = elim form.fundraising_goal [ none ↦ 0 | some n ↦ n ];
    url = form.banner_image_url;
    donation_wallet = form.wallet_address;
    owner = trim form.owner;
    end_date = form.end_date;
  }

  -- A call with the toast of its success: the page that is pushed is that of the answer.
  unfoldable pub call : CampaignCall → Toast → CampaignPage → CampaignPage
  call c done p = elim (answer c) [
    | none ↦ record p { calls = p.calls ++ c ∷ []; toasts = p.toasts ++ failed ∷ [] }
    | some target ↦ record p {
      calls = p.calls ++ c ∷ [];
      toasts = p.toasts ++ done ∷ [];
      pushed = p.pushed ++ target ∷ [];
    }
  ]

  -- What a submission asks for, and the toast of its success; none where it is refused.
  unfoldable pub choose :
      Option String → SubmitAction → CampaignPage → Option (CampaignCall × Toast)
  unfolding campaign_data validate_form
  choose id draft p =
      if (validate_form p.form p.is_wallet_downloaded).is_all_complete
      then some (create_draft (campaign_data p.form), saved)
      else none
  choose none publish p =
      if (validate_form p.form p.is_wallet_downloaded).is_all_complete
      then some (create_and_publish (campaign_data p.form), published)
      else none
  choose (some id) publish p =
      if truthy id
      then some (edit id (campaign_data p.form), edited)
      else (if (validate_form p.form p.is_wallet_downloaded).is_all_complete
          then some (create_and_publish (campaign_data p.form), published)
          else none)

  -- `handleSubmit` whole: the mark of saving is reset at its end.
  unfoldable pub handle_submit : Option String → SubmitAction → CampaignPage → CampaignPage
  unfolding choose call
  handle_submit id action p =
      if is_numeric (trim p.form.name)
      then record p { toasts = p.toasts ++ only_numbers ∷ [] }
      else (elim (choose id action p) [
        | none ↦ record p { toasts = p.toasts ++ incomplete ∷ []; is_saving = false }
        | some (c, done) ↦ record (call c done p) { is_saving = false }
      ])
