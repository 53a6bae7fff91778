-- ===== src/LuckyMoney/Rules.antt =====
-- The rules of the form of a red envelope: frontend/modules/lucky-money/components/
-- create-red-envelope/red-envelope-form/red-envelope-basic-info.tsx. The form's library runs the
-- rules of the fields that are shown; a number that is left out reads as zero, which `required` and
-- `min` both refuse.
pub mod Shares
pub mod Accepted
use mmn_tx_explorer.Base.{
  ℕ, ◌*◌, String, Bool, true, false, not, ◌&&◌, ◌||◌, Option, none, some, ◌==◌, ltb, leb,
  if◌then◌else◌, truthy, size,
}
use mmn_tx_explorer.LuckyMoney.Create.{CreateRedEnvelopeForm, or_number}

pub data FieldIssue : Type 0 where
  required too_long below_one too_many : FieldIssue
  insufficient_balance not_enough left_over too_small_to_share : FieldIssue
  insufficient_total : FieldIssue
  min_above_max min_too_high max_below_min max_too_low : FieldIssue

-- `MAX_PARTICIPANT_COUNT`
abbrev pub max_participant_count : ℕ
max_participant_count = 500

-- `getNum('amountMin')` and `getNum('amountMax')`
abbrev pub min_number : CreateRedEnvelopeForm → ℕ
min_number f = or_number f.amount_min 0

abbrev pub max_number : CreateRedEnvelopeForm → ℕ
max_number f = or_number f.amount_max 0

unfoldable pub name_issue : CreateRedEnvelopeForm → Option FieldIssue
name_issue f =
    if truthy f.name then (if ltb 200 (size f.name) then some too_long else none) else some required

unfoldable pub message_issue : CreateRedEnvelopeForm → Option FieldIssue
message_issue f = if truthy f.message then none else some required

-- `validate` of the total amount.
unfoldable pub validate_total : ℕ → CreateRedEnvelopeForm → Option FieldIssue
validate_total user_balance f =
    let value = f.total_amount in
    let count = f.participant_count in
    if ltb user_balance value
    then some insufficient_balance
    else (if f.random_distribution
        then (if ltb 0 count && ltb 0 (min_number f) && ltb value (min_number f * count)
            then some not_enough
            else (if ltb 0 count && ltb 0 (max_number f) && ltb (max_number f * count) value
                then some left_over
                else none))
        else (if ltb 0 count && ltb value count then some too_small_to_share else none))

unfoldable pub total_issue : ℕ → CreateRedEnvelopeForm → Option FieldIssue
unfolding validate_total
total_issue user_balance f =
    if ltb f.total_amount 1 then some below_one else validate_total user_balance f

unfoldable pub count_issue : CreateRedEnvelopeForm → Option FieldIssue
count_issue f =
    let value = f.participant_count in
    if ltb value 1
    then some below_one
    else (if ltb max_participant_count value
        then some too_many
        else (if ltb 0 f.total_amount && ltb 0 value && ltb f.total_amount value
            then some insufficient_total
            else none))

unfoldable pub amount_min_issue : CreateRedEnvelopeForm → Option FieldIssue
amount_min_issue f =
    let value = min_number f in
    let count = f.participant_count in
    if ltb value 1
    then some below_one
    else (if ltb 0 (max_number f) && ltb (max_number f) value
        then some min_above_max
        else (if ltb 0 count && ltb 0 f.total_amount && ltb f.total_amount (value * count)
            then some min_too_high
            else none))

unfoldable pub amount_max_issue : CreateRedEnvelopeForm → Option FieldIssue
amount_max_issue f =
    let value = max_number f in
    let count = f.participant_count in
    if ltb value 1
    then some below_one
    else (if ltb value (min_number f)
        then some max_below_min
        else (if ltb 0 count && ltb 0 f.total_amount && ltb (value * count) f.total_amount
            then some max_too_low
            else none))

abbrev pub no_issue : Option FieldIssue → Bool
no_issue none = true
no_issue (some i) = false

-- `isValid`: the two amounts are shown, and their rules run, where the distribution is random.
unfoldable pub is_valid : ℕ → CreateRedEnvelopeForm → Bool
unfolding name_issue message_issue total_issue count_issue amount_min_issue amount_max_issue
is_valid user_balance f =
    no_issue (name_issue f)
    && no_issue (message_issue f)
    && no_issue (total_issue user_balance f)
    && no_issue (count_issue f)
    && (not f.random_distribution
        || (no_issue (amount_min_issue f) && no_issue (amount_max_issue f)))
