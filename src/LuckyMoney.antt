-- ===== src/LuckyMoney.antt =====
-- Red envelopes: the states that frontend/modules/lucky-money/utils.ts and
-- hooks/useRedEnvelopeDetail.ts show. `toLowerCase` and the capitalising of an unknown status are
-- parameters.
pub mod Create
pub mod Rules
pub mod Claim
mod Tests
use mmn_tx_explorer.Base.{
  String, Bool, true, Option, none, some, ◌≡◌, ◌↔◌, arith, if◌then◌else◌, str_eq, truthy,
  Bool-cases, inl, inr,
}

pub data VisualStatus : Type 0 where
  live pending closed failed : VisualStatus

-- The style of a badge, by its colour.
pub data Palette : Type 0 where
  green yellow amber red gray : Palette

module _ (to_lower_case : String → String) (capitalize : String → String) where
  unfoldable pub get_visual_status : String → VisualStatus
  get_visual_status api_status =
      let s = to_lower_case api_status in
      if str_eq s "published"
      then live
      else (if str_eq s "pending" then pending else (if str_eq s "failed" then failed else closed))

  -- `getStatusDisplay`: the text and the style.
  unfoldable pub get_status_display : Option String → String × Palette
  get_status_display none = ("", gray)
  get_status_display (some status) =
      let s = to_lower_case status in
      if str_eq s "published"
      then ("Live", green)
      else (if str_eq s "pending"
          then ("Pending", yellow)
          else (if str_eq s "expired"
              then ("Expired", amber)
              else (if str_eq s "closed"
                  then ("Closed", amber)
                  else (if str_eq s "failed"
                      then ("Failed", red)
                      else (if truthy status then capitalize status else "", gray)))))

  -- `stats.status.toLocaleLowerCase() === 'published'`
  unfoldable pub is_closable : String → Bool
  is_closable status = str_eq (to_lower_case status) "published"

  -- A session can be closed exactly when its status is shown as live, which is when its badge is
  -- green.
  pub is_closable_iff :
      (status : String)
      → ((is_closable status ≡ true) ↔ (get_visual_status status ≡ live))
        × ((is_closable status ≡ true) ↔ ((get_status_display (some status)).1 ≡ green))
  unfolding is_closable get_visual_status get_status_display
  is_closable_iff status = elim (Bool-cases (str_eq (to_lower_case status) "published")) [
    | inl e ↦ (ground arith, ground arith)
    | inr e ↦ (ground arith, ground arith)
  ]
