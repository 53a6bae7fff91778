-- ===== src/P2p/Tests.antt =====
-- The theorems on offers and orders at concrete inputs.
use mmn_tx_explorer.Base.{String, Bool, true, Option, some, [], ◌∷◌, ◌≡◌, ◌↔◌, refl}
use mmn_tx_explorer.P2p.Offer.{
  OfferForm, sell, accepts, IsOffer, accepts_iff, refine_offer, max_below_min,
  account_number_digits,
}

abbrev parse_float : String → Option Bool
parse_float s = some true

abbrev offer_form : OfferForm
offer_form = record {
  side = sell;
  amount = 100;
  price_rate = "1.5";
  limit_min = 10;
  limit_max = 50;
  bank = "MB";
  account_number = some "0123";
  account_name = some "ANN";
}

accepts_test : accepts parse_float offer_form ≡ true
unfolding accepts
accepts_test = refl

refused_test :
    refine_offer (record offer_form { limit_min = 60; account_number = some "12a" })
    ≡ account_number_digits ∷ max_below_min ∷ []
unfolding refine_offer
refused_test = refl

accepts_iff_example : (accepts parse_float offer_form ≡ true) ↔ IsOffer parse_float offer_form
accepts_iff_example = accepts_iff parse_float offer_form
