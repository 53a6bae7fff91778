-- ===== src/P2p/Purchase.antt =====
-- The amount of a purchase: BuyAmountSection of
-- frontend/modules/p2p/components/trading-room/buy-amount-section.tsx. Amounts, and
-- the rate, are whole numbers of the chain's unit, as they are scaled down: fractions of them, which
-- the program has, are not modelled. What is typed is read by `getRawValue`, a parameter with
-- the printing of numbers. The form of the payment is Payment.
pub mod Limits
mod Tests
use mmn_tx_explorer.Base.{
  ℕ, ◌*◌, ◌<◌, ◌≤◌, String, Bool, true, false, not, ◌&&◌, ◌||◌, Option, none, some, List, [], ◌∷◌,
  ◌==◌, ◌≡◌, ◌⊎◌, inl, inr, refl, ◌↔◌, sym, ap, ◌∙◌, arith, ltb, leb, if◌then◌else◌, truthy,
  Bool-cases, &&_iff,
}

pub record Terms : Type 0 where
  pub available : ℕ
  pub limit_min : ℕ
  pub limit_max : ℕ
  pub price_rate : ℕ
  -- Whether the offer is one to buy.
  pub responding_to_buy : Bool
  pub user_balance : ℕ
  pub is_seller : Bool
  pub extra_disabled : Bool

pub data Selection : Type 0 where
  min_selected max_selected none_selected : Selection

pub record Purchase : Type 0 where
  pub amount_mzd : ℕ
  pub display_value : String
  pub show_confirm_modal : Bool
  pub selection_type : Selection
  pub has_unsaved_payment_changes : Bool
  pub is_form_valid : Bool

abbrev pub min_of : ℕ → ℕ → ℕ
min_of a b = if leb a b then a else b

unfoldable pub effective_max : Terms → ℕ
effective_max t =
    let most = min_of t.limit_max t.available in
    if t.responding_to_buy then min_of most t.user_balance else most

unfoldable pub is_disabled : Terms → Bool
is_disabled t =
    (t.is_seller || t.extra_disabled) || (t.available == 0 || ltb t.available t.limit_min)

-- The price, 0 without an amount or a rate.
unfoldable pub amount_vnd : Terms → Purchase → ℕ
amount_vnd t p = if ltb 0 p.amount_mzd && ltb 0 t.price_rate then p.amount_mzd * t.price_rate else 0

unfoldable pub is_range_valid : Terms → Purchase → Bool
unfolding effective_max
is_range_valid t p = leb t.limit_min p.amount_mzd && leb p.amount_mzd (effective_max t)

unfoldable pub is_valid_amount : Terms → Purchase → Bool
unfolding is_range_valid is_disabled
is_valid_amount t p =
    is_range_valid t p
    && ((not t.responding_to_buy || leb p.amount_mzd t.user_balance)
        && ((not t.responding_to_buy || (p.is_form_valid && not p.has_unsaved_payment_changes))
            && (not t.extra_disabled && not (is_disabled t))))

module _ (get_raw_value : String → ℕ) (format : ℕ → String) where
  unfoldable pub handle_input_change : String → Purchase → Purchase
  handle_input_change text p =
      let raw = get_raw_value text in
      record p {
        selection_type = none_selected;
        display_value = if raw == 0 then "" else format raw;
        amount_mzd = raw;
      }

  unfoldable pub press_min : Terms → Purchase → Purchase
  press_min t p = if is_disabled t then p else record p {
    amount_mzd = t.limit_min;
    display_value = format t.limit_min;
    selection_type = min_selected;
  }

  unfoldable pub press_max : Terms → Purchase → Purchase
  press_max t p = if is_disabled t then p else record p {
    amount_mzd = effective_max t;
    display_value = format (effective_max t);
    selection_type = max_selected;
  }

  -- The button for an amount, which is on where that is valid and nothing loads, and `handleConfirm`:
  -- whether the bank's details are valid, and whether the number and the name are there.
  unfoldable pub handle_confirm : Terms → Bool → Bool → Bool → Purchase → Purchase
  handle_confirm t is_loading bank_valid details p =
      if is_valid_amount t p && not is_loading
      then (if not t.responding_to_buy || (bank_valid && details)
          then record p { show_confirm_modal = true }
          else p)
      else p

  -- `handleFinalConfirm` in the modal: the amount and the price that are passed on.
  unfoldable pub handle_final_confirm : Terms → Purchase → Purchase × Option (ℕ × ℕ)
  handle_final_confirm t p =
      let closed = record p { show_confirm_modal = false } in
      if p.show_confirm_modal
      then (if t.responding_to_buy && ltb t.user_balance p.amount_mzd
          then (closed, none)
          else (closed, some (p.amount_mzd, amount_vnd t p)))
      else (p, none)
