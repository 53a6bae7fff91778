-- ===== src/P2p/Purchase/Limits.antt =====
-- The bounds of an amount that is confirmed, for P2p.Purchase.
use mmn_tx_explorer.Base.{
  ℕ, ◌*◌, ◌≤◌, String, Bool, true, false, ◌&&◌, some, ◌≡◌, ◌⊎◌, inl, inr, ◌↔◌, sym, subst, ap, ◌∙◌,
  arith, ltb, leb, if◌then◌else◌, Bool-cases, &&_iff, leb→le, zero, suc,
}
use mmn_tx_explorer.P2p.Purchase.{
  Terms, Purchase, min_of, effective_max, is_disabled, amount_vnd, is_range_valid, is_valid_amount,
  press_min, press_max, handle_confirm, handle_final_confirm,
}

-- The bounds that the terms of an offer set.
pub record IsWithin (t : Terms) (amount : ℕ) : Type 0 where
  pub least : t.limit_min ≤ amount
  pub most : amount ≤ t.limit_max
  pub available : amount ≤ t.available
  pub balance : (t.responding_to_buy ≡ false) ⊎ (amount ≤ t.user_balance)

min_of-le : (a b c : ℕ) → c ≤ min_of a b → (c ≤ a) × (c ≤ b)
min_of-le a b c h = ground arith

effective_max-IsWithin : (t : Terms) (n : ℕ) → t.limit_min ≤ n → n ≤ effective_max t → IsWithin t n
unfolding effective_max
effective_max-IsWithin t n low high = elim (Bool-cases t.responding_to_buy) [
  | inl e ↦
      let h = min_of-le (min_of t.limit_max t.available) t.user_balance n (rw e at high) in
      let k = min_of-le t.limit_max t.available n h.0 in
      record { least = low; most = k.0; available = k.1; balance = inr h.1 }
  | inr e ↦
      let k = min_of-le t.limit_max t.available n (rw e at high) in
      record { least = low; most = k.0; available = k.1; balance = inl e }
]

is_valid_amount-IsWithin :
    (t : Terms) (p : Purchase) → is_valid_amount t p ≡ true → IsWithin t p.amount_mzd
unfolding is_valid_amount is_range_valid
is_valid_amount-IsWithin t p h =
    let inside = (&&_iff (is_range_valid t p) _).0 h in
    effective_max-IsWithin t p.amount_mzd
      (omega (
        arith,
        leb→le t.limit_min p.amount_mzd ((&&_iff (leb t.limit_min p.amount_mzd) _).0 inside.0).0,
      ))
      (leb→le p.amount_mzd (effective_max t)
        ((&&_iff (leb t.limit_min p.amount_mzd) _).0 inside.0).1)

price_of : (a r : ℕ) → (if ltb 0 a && ltb 0 r then a * r else 0) ≡ a * r
price_of zero r = omega arith
price_of (suc a) zero = ground arith
price_of (suc a) (suc r) = ground arith

module _ (get_raw_value : String → ℕ) (format : ℕ → String) (t : Terms) where
  handle_confirm-opens :
      (is_loading bank_valid details : Bool) (p : Purchase)
      → p.show_confirm_modal ≡ false
      → let q = handle_confirm get_raw_value format t is_loading bank_valid details p in
        (q.amount_mzd ≡ p.amount_mzd)
        × ((q.show_confirm_modal ≡ false) ⊎ (is_valid_amount t p ≡ true))
  unfolding handle_confirm
  handle_confirm-opens loading valid details p shut = elim (Bool-cases (is_valid_amount t p)) [
    | inl e ↦ (ground arith, inr e)
    | inr e ↦ (ground arith, inl (ground arith))
  ]

  -- What the confirmation in the modal passes on under the terms of its own render.
  handle_final_confirm-passes :
      (u : Terms) (q : Purchase) (amount price : ℕ)
      → (handle_final_confirm get_raw_value format u q).1 ≡ some (amount, price)
      → (q.show_confirm_modal ≡ true)
        × (amount ≡ q.amount_mzd)
        × (price ≡ amount_vnd u q)
        × ((u.responding_to_buy ≡ false) ⊎ (q.amount_mzd ≤ u.user_balance))
  unfolding handle_final_confirm
  handle_final_confirm-passes u q amount price h = (
    ground arith,
    ground arith,
    ground arith,
    elim (Bool-cases u.responding_to_buy) [ inl e ↦ inr (ground arith) | inr e ↦ inl e ],
  )

  -- Where the modal is not shown, and the button is pressed under some terms, a confirmation in it under
  -- terms that may have changed since passes on, if it passes anything, the amount shown with its price
  -- by the new rate. The amount is within the limits of the offer and what was available when the button
  -- was pressed, and, for an offer to buy, within the balance both then and at the confirmation.
  pub handle_final_confirm-IsWithin :
      (u : Terms) (is_loading bank_valid details : Bool) (p : Purchase) (amount price : ℕ)
      → p.show_confirm_modal ≡ false
      → (handle_final_confirm get_raw_value format u
          (handle_confirm get_raw_value format t is_loading bank_valid details p)).1
        ≡ some (amount, price)
      → (amount ≡ p.amount_mzd)
        × (price ≡ amount * u.price_rate)
        × IsWithin t amount
        × ((u.responding_to_buy ≡ false) ⊎ (amount ≤ u.user_balance))
  unfolding amount_vnd
  handle_final_confirm-IsWithin u loading valid details p amount price shut h =
      let q = handle_confirm get_raw_value format t loading valid details p in
      let (shown, same, cost, covered) = handle_final_confirm-passes u q amount price h in
      let (kept, opened) = handle_confirm-opens loading valid details p shut in
      (
        same ∙ kept,
        cost ∙ price_of q.amount_mzd u.price_rate ∙ ap (λ n. n * u.price_rate) (sym same),
        elim opened [
          | inl off ↦ absurd (ground arith)
          | inr valid_now ↦
              subst (IsWithin t) (sym (same ∙ kept)) (is_valid_amount-IsWithin t p valid_now)
        ],
        elim covered [ inl e ↦ inl e | inr le ↦ inr (omega (arith, same, le)) ],
      )

-- Where the buttons are on, each of them gives an amount within the range exactly where there is one.
pub press_max_iff :
    (get_raw_value : String → ℕ) (format : ℕ → String) (t : Terms) (p : Purchase)
    → is_disabled t ≡ false
    → ((is_range_valid t (press_max get_raw_value format t p) ≡ true)
        ↔ (t.limit_min ≤ effective_max t))
      × ((is_range_valid t (press_min get_raw_value format t p) ≡ true)
          ↔ (t.limit_min ≤ effective_max t))
unfolding is_range_valid press_max press_min
press_max_iff raw format t p on = (ground arith, ground arith)
