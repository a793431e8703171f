-- ===== src/Policy/Property.antt =====
-- `Reference` and `PolicyProperty` of src/policy/src/v2/policy.rs: how one property of a policy
-- judges a value.
pub mod TcbStatusRule
pub mod IntegerRule
pub mod StringRule
use mig_td.Base.{
  ℕ, ◌≡◌, refl, Bool, true, false, not, ◌&&◌, ◌||◌, Option, none, some, List, [], ◌∷◌, ◌++◌, ltb,
  leb, ◌==◌, if◌then◌else◌, length, bytes_eq,
}
use mig_td.Policy.Fallible.{
  PolicyError, Fallible, ok, err, return, ◌>>=◌, ◌>>◌, ok_or, invalid_operation, invalid_reference,
}
use mig_td.Policy.Text.{Text, text, text_ge, two_parts, parse_u32}
use mig_td.Policy.Status.{
  TcbStatus, up_to_date, sw_hardening_needed, configuration_needed,
  configuration_and_sw_hardening_needed, out_of_date, out_of_date_configuration_needed, revoked,
  tcb_status, status_eq, status_ge, contains,
}
use mig_td.Policy.ServtdStatus

pub data Reference : Type 0 where
  integer : ℕ → Reference
  string : Text → Reference
  integer_list : List ℕ → Reference
  string_list : List Text → Reference

pub record PolicyProperty : Type 0 where
  pub operation : Text
  pub reference : Reference

-- `reference == "self" || reference == "init"`
unfoldable pub is_relative : Text → Bool
is_relative reference = bytes_eq reference (text "self") || bytes_eq reference (text "init")

-- `items.contains(&value)` on integers.
unfoldable pub has_integer : List ℕ → ℕ → Bool
has_integer [] value = false
has_integer (x ∷ xs) value = (x == value) || has_integer xs value

-- `reference.iter().any(|item| item == value)`
unfoldable pub has_text : List Text → Text → Bool
has_text [] value = false
has_text (x ∷ xs) value = bytes_eq x value || has_text xs value

-- "equal" and "greater-or-equal", and an error for any other operation.
abbrev pub compare_op : Text → Bool → Bool → Fallible Bool
compare_op operation equal greater =
    if bytes_eq operation (text "equal")
    then ok equal
    else if bytes_eq operation (text "greater-or-equal")
    then ok greater
    else err invalid_operation

-- The closure `is_in_range` of `evaluate_integer`.
unfoldable pub is_in_range : ℕ → Text → Fallible Bool
is_in_range value range = do
  parts ← ok_or (two_parts range) invalid_operation
  start ← ok_or (parse_u32 parts.0) invalid_reference
  end ← ok_or (parse_u32 parts.1) invalid_reference
  return (leb start value && leb value end)

evaluate_integer_on : Reference → Text → ℕ → Option ℕ → Fallible Bool
unfolding is_relative is_in_range has_integer
evaluate_integer_on (integer reference) operation value relative =
    compare_op operation (value == reference) (leb reference value)
evaluate_integer_on (string reference) operation value relative =
    if is_relative reference
    then (do
      relative_reference ← ok_or relative invalid_reference
      compare_op operation (value == relative_reference) (leb relative_reference value))
    else if bytes_eq operation (text "in-range") || bytes_eq operation (text "in-time-range")
    then is_in_range value reference
    else err invalid_operation
evaluate_integer_on (integer_list items) operation value relative =
    if bytes_eq operation (text "subset")
    then ok (has_integer items value)
    else err invalid_operation
evaluate_integer_on (string_list items) operation value relative = err invalid_reference

unfoldable pub evaluate_integer : PolicyProperty → ℕ → Option ℕ → Fallible Bool
unfolding evaluate_integer_on
evaluate_integer property value relative =
    evaluate_integer_on property.reference property.operation value relative

-- The loops of the closure `integer_list_op`, over arrays of the same length.
unfoldable pub all_equal : List ℕ → List ℕ → Bool
all_equal (v ∷ vs) (r ∷ rs) = if not (v == r) then false else all_equal vs rs
all_equal [] rs = true
all_equal (v ∷ vs) [] = true

unfoldable pub all_greater : List ℕ → List ℕ → Bool
all_greater (v ∷ vs) (r ∷ rs) = if ltb v r then false else all_greater vs rs
all_greater [] rs = true
all_greater (v ∷ vs) [] = true

unfoldable pub integer_list_op : Text → List ℕ → List ℕ → Fallible Bool
unfolding all_equal all_greater
integer_list_op operation values reference =
    if not (length values == length reference)
    then ok false
    else if bytes_eq operation (text "array-equal")
    then ok (all_equal values reference)
    else if bytes_eq operation (text "array-greater-or-equal")
    then ok (all_greater values reference)
    else err invalid_operation

evaluate_integer_list_on : Reference → Text → List ℕ → Option (List ℕ) → Fallible Bool
unfolding is_relative integer_list_op
evaluate_integer_list_on (integer_list reference) operation values relative =
    integer_list_op operation values reference
evaluate_integer_list_on (string reference) operation values relative =
    if not (is_relative reference) then err invalid_reference else do
      relative_reference ← ok_or relative invalid_reference
      integer_list_op operation values relative_reference
evaluate_integer_list_on (integer n) operation values relative = err invalid_reference
evaluate_integer_list_on (string_list items) operation values relative = err invalid_reference

unfoldable pub evaluate_integer_list : PolicyProperty → List ℕ → Option (List ℕ) → Fallible Bool
unfolding evaluate_integer_list_on
evaluate_integer_list property values relative =
    evaluate_integer_list_on property.reference property.operation values relative

evaluate_string_on : Reference → Text → Text → Option Text → Fallible Bool
unfolding is_relative has_text
evaluate_string_on (string reference) operation value relative = do
  reference_value ← if is_relative reference then ok_or relative invalid_reference else ok reference
  compare_op operation (bytes_eq value reference_value) (text_ge value reference_value)
evaluate_string_on (string_list items) operation value relative =
    if bytes_eq operation (text "allow-list")
    then ok (has_text items value)
    else if bytes_eq operation (text "deny-list")
    then ok (not (has_text items value))
    else err invalid_operation
evaluate_string_on (integer n) operation value relative = err invalid_reference
evaluate_string_on (integer_list items) operation value relative = err invalid_reference

unfoldable pub evaluate_string : PolicyProperty → Text → Option Text → Fallible Bool
unfolding evaluate_string_on
evaluate_string property value relative =
    evaluate_string_on property.reference property.operation value relative

-- `ALWAYS_ALLOW` and `ALWAYS_DENY` of `evaluate_tcb_status`.
abbrev pub always_allow : List TcbStatus
always_allow = up_to_date ∷ out_of_date ∷ sw_hardening_needed ∷ []

abbrev pub always_deny : List TcbStatus
always_deny = revoked ∷ []

-- The statuses that the items of an allow list add, when every item names a status.
unfoldable pub policy_allow : List Text → Fallible (List TcbStatus)
policy_allow [] = ok []
policy_allow (item ∷ items) = do
  parsed ← tcb_status item
  rest ← policy_allow items
  return (
      if bytes_eq item (text "ConfigurationNeeded")
      then configuration_needed ∷ configuration_and_sw_hardening_needed
        ∷ out_of_date_configuration_needed ∷ rest
      else rest)

-- `.map(TcbStatus::try_from).collect::<Result<Vec<_>, _>>()`
unfoldable pub all_statuses : List Text → Fallible (List TcbStatus)
all_statuses [] = ok []
all_statuses (item ∷ items) = do
  parsed ← tcb_status item
  rest ← all_statuses items
  return (parsed ∷ rest)

tcb_status_on : Reference → Text → TcbStatus → Option TcbStatus → Fallible Bool
unfolding is_relative policy_allow all_statuses
tcb_status_on (string reference) operation value relative = do
  reference_value ←
      if is_relative reference then ok_or relative invalid_reference else tcb_status reference
  compare_op operation (status_eq value reference_value) (status_ge value reference_value)
tcb_status_on (string_list items) operation value relative =
    if bytes_eq operation (text "allow-list")
    then (do allowed ← policy_allow items; return (contains allowed value))
    else if bytes_eq operation (text "deny-list")
    then (do parsed ← all_statuses items; return (contains [] value))
    else err invalid_operation
tcb_status_on (integer n) operation value relative = err invalid_reference
tcb_status_on (integer_list items) operation value relative = err invalid_reference

unfoldable pub evaluate_tcb_status : PolicyProperty → TcbStatus → Option TcbStatus → Fallible Bool
unfolding tcb_status_on
evaluate_tcb_status property value relative =
    if contains always_deny value
    then ok false
    else if contains always_allow value
    then ok true
    else tcb_status_on property.reference property.operation value relative

unfoldable pub evaluate_servtd_tcb_status :
    PolicyProperty
    → ServtdStatus.ServtdTcbStatus
    → Option ServtdStatus.ServtdTcbStatus
    → Fallible Bool
evaluate_servtd_tcb_status property value relative =
    if ServtdStatus.contains (ServtdStatus.revoked ∷ []) value
    then ok false
    else if ServtdStatus.contains (ServtdStatus.up_to_date ∷ ServtdStatus.out_of_date ∷ []) value
    then ok true
    else ok false
