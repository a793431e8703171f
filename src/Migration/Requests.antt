-- ===== src/Migration/Requests.antt =====
-- The host's requests: `parse_request` and its helpers of src/migtd/src/migration/session.rs, in
-- the build with the features main, vmcall-raw and policy_v2, and without AzCVMEmu.
pub mod Outcome
use mig_td.Base.{
  ℕ, ◌+◌, ◌/◌, ◌%◌, ◌<◌, ◌≡◌, Bool, true, false, not, ◌&&◌, ◌||◌, Option, none, some, List, [], ◌∷◌,
  ltb, ◌==◌, if◌then◌else◌, length, take, drop, slice?, from_le, checked_add,
}
use mig_td.Base.OptionDo.{◌>>=◌}
use mig_td.Migration.Status.{
  MigrationResult, Result, ok, err, stuck, invalid_parameter, vmm_internal_error,
  unsupported_operation_error,
}
use mig_td.Migration.Info.{
  MigtdMigrationInformation, MigtdDataInfo, EnableLogAreaInfo, Pread, InfoPread, DataPread,
  LogPread, info_read_from_bytes, data_read_from_bytes, log_read_from_bytes,
}

pub data DataStatusOperation : Type 0 where
  start_migration : DataStatusOperation
  start_rebinding : DataStatusOperation
  get_td_report : DataStatusOperation
  enable_log_area : DataStatusOperation
  get_migtd_data : DataStatusOperation

-- `DataStatusOperation::try_from(value: u8)`
unfoldable pub operation_try_from : ℕ → Option DataStatusOperation
operation_try_from value =
    if value == 1
    then some start_migration
    else if value == 2
    then some start_rebinding
    else if value == 3
    then some get_td_report
    else if value == 4
    then some enable_log_area
    else if value == 5
    then some get_migtd_data
    else none

pub data WaitForRequestResponse : Type 0 where
  start_migration : MigtdMigrationInformation → WaitForRequestResponse
  start_rebinding : MigtdMigrationInformation → WaitForRequestResponse
  enable_log_area : EnableLogAreaInfo → WaitForRequestResponse
  get_migtd_data : MigtdDataInfo → WaitForRequestResponse

-- `Poll<Result<WaitForRequestResponse>>`
pub data Poll : Type 0 where
  pending : Poll
  ready : Result WaitForRequestResponse → Poll

pub record RequestDataBufferHeader : Type 0 where
  pub datastatus : ℕ
  pub length : ℕ

-- `size_of::<RequestDataBufferHeader>()`; the struct is packed.
abbrev pub header_length : ℕ
header_length = 12

-- The static `REQUESTS`, and the local variable `pending_error_report` of `wait_for_request`.
pub record RequestState : Type 0 where
  pub requests : List ℕ
  pub pending_error_report : Option (ℕ × MigrationResult)

unfoldable pub process_buffer : List ℕ → RequestDataBufferHeader
process_buffer buffer =
    if ltb (length buffer) header_length
    then record { datastatus = 0; length = 0 }
    else record { datastatus = from_le (take 8 buffer); length = from_le (take 4 (drop 8 buffer)) }

-- `BTreeSet::contains`
unfoldable pub contains : List ℕ → ℕ → Bool
contains [] id = false
contains (x ∷ xs) id = (x == id) || contains xs id

unfoldable pub try_accept_request : ℕ → WaitForRequestResponse → RequestState → Poll × RequestState
try_accept_request mig_request_id response st =
    if contains st.requests mig_request_id
    then (pending, st)
    else (ready (ok response), record st { requests = mig_request_id ∷ st.requests })

unfoldable pub get_request_payload : List ℕ → ℕ → ℕ → Result (List ℕ)
get_request_payload data_buffer reqbufferhdrlen data_length =
    elim (checked_add reqbufferhdrlen data_length) [
      | none ↦ err invalid_parameter
      | some end ↦ elim (slice? data_buffer reqbufferhdrlen end) [
        | none ↦ err invalid_parameter
        | some payload ↦ ok payload
      ]
    ]

unfoldable pub read_request_id : List ℕ → ℕ → Option ℕ
read_request_id data_buffer reqbufferhdrlen = do
  end ← checked_add reqbufferhdrlen 8
  bytes ← slice? data_buffer reqbufferhdrlen end
  some (from_le bytes)

-- The report is left as it is where no request id can be read.
unfoldable pub reject_request : Option ℕ → MigrationResult → RequestState → Poll × RequestState
reject_request none status st = (ready (err status), st)
reject_request (some request_id) status st =
    (ready (err status), record st { pending_error_report = some (request_id, status) })

-- `decode_and_dispatch!`
abbrev decode_and_dispatch :
    {A : Type 0}
    → Result A
    → (A → ℕ)
    → (A → WaitForRequestResponse)
    → Option ℕ
    → RequestState
    → Poll × RequestState
decode_and_dispatch (ok info) id respond request_id st =
    try_accept_request (id info) (respond info) st
decode_and_dispatch (err status) id respond request_id st = reject_request request_id status st
decode_and_dispatch stuck id respond request_id st = (ready stuck, st)

module _ (info_pread : InfoPread) (data_pread : DataPread) (u64_pread : Pread ℕ (λ i. i) 8)
    (log_pread : LogPread) where
  -- `match op { … }`
  dispatch : DataStatusOperation → ℕ → List ℕ → Option ℕ → RequestState → Poll × RequestState
  dispatch start_migration data_length slice request_id st =
      decode_and_dispatch (info_read_from_bytes info_pread data_length slice)
        (λ i. i.mig_request_id) start_migration request_id st
  dispatch start_rebinding data_length slice request_id st =
      decode_and_dispatch (info_read_from_bytes info_pread data_length slice)
        (λ i. i.mig_request_id) start_rebinding request_id st
  dispatch get_td_report data_length slice request_id st =
      reject_request request_id unsupported_operation_error st
  dispatch enable_log_area data_length slice request_id st =
      decode_and_dispatch (log_read_from_bytes log_pread data_length slice) (λ i. i.mig_request_id)
        enable_log_area request_id st
  dispatch get_migtd_data data_length slice request_id st =
      decode_and_dispatch (data_read_from_bytes data_pread u64_pread data_length slice)
        (λ i. i.mig_request_id) get_migtd_data request_id st

  -- Step 3 of `parse_request`, after the payload was taken.
  with_payload :
      Result (List ℕ) → DataStatusOperation → ℕ → Option ℕ → RequestState → Poll × RequestState
  with_payload (ok slice) op data_length request_id st = dispatch op data_length slice request_id st
  with_payload (err status) op data_length request_id st = reject_request request_id status st
  with_payload stuck op data_length request_id st = (ready stuck, st)

  -- Steps 1 and 2: the operation byte, and the payload.
  with_operation :
      Option DataStatusOperation → List ℕ → ℕ → ℕ → Option ℕ → RequestState → Poll × RequestState
  with_operation none data_buffer reqbufferhdrlen data_length request_id st =
      reject_request request_id unsupported_operation_error st
  with_operation (some op) data_buffer reqbufferhdrlen data_length request_id st =
      with_payload (get_request_payload data_buffer reqbufferhdrlen data_length) op data_length
        request_id st

  -- The bytes 0 and 1 of the status are `% 256` and `/ 256 % 256`.
  unfoldable pub parse_request : List ℕ → ℕ → RequestState → Poll × RequestState
  unfolding with_operation with_payload dispatch
  parse_request data_buffer reqbufferhdrlen st =
      let hdr = process_buffer data_buffer in
      let request_id = read_request_id data_buffer reqbufferhdrlen in
      if (hdr.datastatus == 0) && (hdr.length == 0)
      then (pending, st)
      else if not (hdr.datastatus % 256 == 1)
      then reject_request request_id vmm_internal_error st
      else with_operation (operation_try_from (hdr.datastatus / 256 % 256)) data_buffer
          reqbufferhdrlen hdr.length request_id st
