-- ===== src/Policy/Status.antt =====
-- `TcbStatus` of src/policy/src/v2/policy.rs.
pub mod Names
use mig_td.Base.{
  ℕ, ◌≡◌, refl, ◌↔◌, Bool, true, false, Option, none, some, List, [], ◌∷◌, ◌||◌, arith, leb, ◌==◌,
  if◌then◌else◌, bytes_eq, bytes_eq_iff,
}
use mig_td.Policy.Fallible.{PolicyError, Fallible, ok, err, invalid_parameter}
use mig_td.Policy.Text.{Text, text}

pub data TcbStatus : Type 0 where
  up_to_date : TcbStatus
  sw_hardening_needed : TcbStatus
  configuration_needed : TcbStatus
  configuration_and_sw_hardening_needed : TcbStatus
  out_of_date : TcbStatus
  out_of_date_configuration_needed : TcbStatus
  revoked : TcbStatus

unfoldable pub as_str : TcbStatus → Text
as_str up_to_date = text "UpToDate"
as_str sw_hardening_needed = text "SWHardeningNeeded"
as_str configuration_needed = text "ConfigurationNeeded"
as_str configuration_and_sw_hardening_needed = text "ConfigurationAndSWHardeningNeeded"
as_str out_of_date = text "OutOfDate"
as_str out_of_date_configuration_needed = text "OutOfDateConfigurationNeeded"
as_str revoked = text "Revoked"

unfoldable pub rank : TcbStatus → ℕ
rank up_to_date = 2
rank sw_hardening_needed = 2
rank out_of_date = 2
rank configuration_needed = 1
rank configuration_and_sw_hardening_needed = 1
rank out_of_date_configuration_needed = 1
rank revoked = 0

-- `TcbStatus::try_from(value: &str)`
unfoldable pub tcb_status : Text → Fallible TcbStatus
tcb_status value =
    if bytes_eq value (text "UpToDate")
    then ok up_to_date
    else if bytes_eq value (text "SWHardeningNeeded")
    then ok sw_hardening_needed
    else if bytes_eq value (text "ConfigurationNeeded")
    then ok configuration_needed
    else if bytes_eq value (text "ConfigurationAndSWHardeningNeeded")
    then ok configuration_and_sw_hardening_needed
    else if bytes_eq value (text "OutOfDate")
    then ok out_of_date
    else if bytes_eq value (text "OutOfDateConfigurationNeeded")
    then ok out_of_date_configuration_needed
    else if bytes_eq value (text "Revoked")
    then ok revoked
    else err invalid_parameter

-- `==` and `>=` compare the ranks.
unfoldable pub status_eq : TcbStatus → TcbStatus → Bool
unfolding rank
status_eq a b = rank a == rank b

unfoldable pub status_ge : TcbStatus → TcbStatus → Bool
unfolding rank
status_ge a b = leb (rank b) (rank a)

-- `contains` on a slice of statuses.
unfoldable pub contains : List TcbStatus → TcbStatus → Bool
unfolding status_eq
contains [] s = false
contains (x ∷ xs) s = status_eq x s || contains xs s
