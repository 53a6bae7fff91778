-- ===== src/Wallet.antt =====
-- The transaction history of a wallet: frontend/modules/wallet/components/wallet-details/
-- wallet-detail-tabs/shared/transaction-history-card/transaction-history-card.tsx, on the address's
-- query of Hooks.QueryParam. Dates are given as the client prints them.
pub mod Pages
pub mod Filters
mod Tests
use mmn_tx_explorer.Base.{
  ℕ, String, Bool, true, false, not, ◌&&◌, ◌||◌, Option, none, some, List, [], ◌∷◌, ◌++◌, ◌==◌, ltb,
  if◌then◌else◌, str_eq, truthy, insert, remove,
}
use mmn_tx_explorer.Hooks.QueryParam.{Params, param_value, page, limit}

pub data FilterType : Type 0 where
  from_filter to_filter : FilterType

-- `URL_PARAM`
abbrev pub filter_param : FilterType → String
filter_param from_filter = "from_filter"
filter_param to_filter = "to_filter"

abbrev pub other_filter : FilterType → FilterType
other_filter from_filter = to_filter
other_filter to_filter = from_filter

-- `fromAddressFilter` and `toAddressFilter`
abbrev pub address_filter : FilterType → Params → String
address_filter t params = param_value (λ s. s) (filter_param t) "" params

-- `transactionType`
abbrev pub transaction_type : Params → String
transaction_type params = param_value (λ s. s) "type" "All Transaction" params

unfoldable pub handle_address_filter_change : FilterType → String → Params → Params
handle_address_filter_change t value params =
    let kept =
      if truthy value
      then insert (filter_param t) value params
      else (if truthy (address_filter (other_filter t) params)
          then remove (filter_param t) params
          else remove "type" (remove (filter_param t) params)) in
    insert "page" "1" kept

pub record TransactionListParams : Type 0 where
  pub page_number : ℕ
  pub page_limit : ℕ
  pub sort_by : String
  pub sort_order : String
  pub start_time : String
  pub end_time : String
  pub filter_from_address : Option String
  pub filter_to_address : Option String
  pub wallet_address : Option String

abbrev pub some_text : String → Option String
some_text s = if truthy s then some s else none

pub data ExportToast : Type 0 where
  export_failed : String → ExportToast

pub record Exporting : Type 0 where
  pub show_export_modal : Bool
  pub is_exporting : Bool
  pub exported : List String
  pub toasts : List ExportToast

-- `handleExportWithRange` up to its first wait, with the name of the file that is used without one.
unfoldable pub begin_export : String → Option String → Exporting → Exporting
begin_export range_name filename s = if s.is_exporting then s else record s {
  is_exporting = true;
  exported =
      s.exported
      ++ elim filename [ none ↦ range_name | some f ↦ if truthy f then f else range_name ] ∷ [];
}

-- Its end, with the text of the error where there is one.
unfoldable pub end_export : Option String → Exporting → Exporting
end_export none s = record s { show_export_modal = false; is_exporting = false }
end_export (some error) s = record s {
  toasts = s.toasts ++ export_failed error ∷ [];
  is_exporting = false;
}

module _ (print : ℕ → String) (read : String → ℕ) where
  unfoldable pub get_search_params : String → String → String → Params → TransactionListParams
  get_search_params wallet start_date end_date params =
      let from_address = address_filter from_filter params in
      let to_address = address_filter to_filter params in
      let base : TransactionListParams = record {
        page_number = page print read params;
        page_limit = limit print read params;
        sort_by = "transaction_timestamp";
        sort_order = "desc";
        start_time = start_date;
        end_time = end_date;
        filter_from_address = none;
        filter_to_address = none;
        wallet_address = none;
      } in
      if truthy from_address || truthy to_address
      then record base {
        filter_from_address = some_text from_address;
        filter_to_address = some_text to_address;
      }
      else (if str_eq (transaction_type params) "Sent"
          then record base { filter_from_address = some wallet }
          else (if str_eq (transaction_type params) "Received"
              then record base { filter_to_address = some wallet }
              else record base { wallet_address = some wallet }))

  -- The effect on the pages that there are, none while they load.
  unfoldable pub clamp_page : Option ℕ → Params → Params
  clamp_page none params = params
  clamp_page (some total_pages) params =
      if ltb 0 total_pages && ltb total_pages (page print read params)
      then insert "page" (print total_pages) params
      else params
