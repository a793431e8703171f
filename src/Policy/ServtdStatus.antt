-- ===== src/Policy/ServtdStatus.antt =====
-- `ServtdTcbStatus` of src/policy/src/v2/policy.rs.
use mig_td.Base.{ℕ, Bool, false, List, [], ◌∷◌, ◌||◌, ◌==◌, if◌then◌else◌, bytes_eq}
use mig_td.Policy.Fallible.{Fallible, ok, err, invalid_parameter}
use mig_td.Policy.Text.{Text, text}

pub data ServtdTcbStatus : Type 0 where
  up_to_date : ServtdTcbStatus
  out_of_date : ServtdTcbStatus
  revoked : ServtdTcbStatus

unfoldable pub rank : ServtdTcbStatus → ℕ
rank up_to_date = 2
rank out_of_date = 2
rank revoked = 0

-- `ServtdTcbStatus::as_str`
unfoldable pub as_str : ServtdTcbStatus → Text
as_str up_to_date = text "UpToDate"
as_str out_of_date = text "OutOfDate"
as_str revoked = text "Revoked"

-- `ServtdTcbStatus::try_from(value: &str)`
unfoldable pub servtd_tcb_status : Text → Fallible ServtdTcbStatus
servtd_tcb_status value =
    if bytes_eq value (text "UpToDate")
    then ok up_to_date
    else if bytes_eq value (text "OutOfDate")
    then ok out_of_date
    else if bytes_eq value (text "Revoked")
    then ok revoked
    else err invalid_parameter

unfoldable pub contains : List ServtdTcbStatus → ServtdTcbStatus → Bool
unfolding rank
contains [] s = false
contains (x ∷ xs) s = (rank x == rank s) || contains xs s
