-- ===== src/Migration/Requests/Outcome.antt =====
-- `parse_request` of src/migtd/src/migration/session.rs, case by case.
use mig_td.Base.{
  ℕ, ◌+◌, ◌-◌, ◌^◌, ◌%◌, ◌<◌, ◌≤◌, ◌≡◌, ◌≢◌, ◌⊎◌, inl, inr, refl, sym, ap, ◌∙◌, Bool, true, false,
  not, ◌&&◌, Option, none, some, List, ◌∷◌, ◌==◌, if◌then◌else◌, Bool-cases, length, take, drop,
  from_le, checked_add, arith, length-take, length-drop, take-take,
}
use mig_td.Migration.Status.{
  MigrationResult, Result, ok, err, stuck, invalid_parameter, vmm_internal_error,
  unsupported_operation_error,
}
use mig_td.Migration.Info.{
  Pread, InfoPread, DataPread, LogPread, info_read_from_bytes, data_read_from_bytes,
  log_read_from_bytes,
}
use mig_td.Migration.Info.Decode.{
  IsDecoded, IsDecoded-error, info-IsDecoded, data-IsDecoded, log-IsDecoded,
  info_read_from_bytes_sound, data_read_first, log_read_first,
}
use mig_td.Migration.Requests.{
  DataStatusOperation, WaitForRequestResponse, Poll, pending, ready, RequestState, process_buffer,
  contains, try_accept_request, get_request_payload, read_request_id, reject_request,
  decode_and_dispatch, dispatch, with_payload, with_operation, parse_request,
}

abbrev pub response_id : WaitForRequestResponse → ℕ
response_id (WaitForRequestResponse.start_migration i) = i.mig_request_id
response_id (WaitForRequestResponse.start_rebinding i) = i.mig_request_id
response_id (WaitForRequestResponse.enable_log_area i) = i.mig_request_id
response_id (WaitForRequestResponse.get_migtd_data i) = i.mig_request_id

abbrev pub IsRejection : MigrationResult → Type 0
IsRejection e =
    (e ≡ vmm_internal_error) ⊎ (e ≡ unsupported_operation_error) ⊎ (e ≡ invalid_parameter)

-- How the handling of one buffer may end, with `rid` the request id that stands in the buffer:
-- nothing happens; a request with that id, which was not accepted before, is answered and recorded;
-- or the request is rejected, which is left to be reported to the host under that id.
pub data Outcome (rid : Option ℕ) (st : RequestState) (r : Poll × RequestState) : Type 0 where
  idle : r ≡ (pending, st) → Outcome rid st r
  accepted :
      (resp : WaitForRequestResponse)
      → rid ≡ some (response_id resp)
      → contains st.requests (response_id resp) ≡ false
      → r ≡ (ready (ok resp), record st { requests = response_id resp ∷ st.requests })
      → Outcome rid st r
  rejected_id :
      (e : MigrationResult) (id : ℕ)
      → IsRejection e
      → rid ≡ some id
      → r ≡ (ready (err e), record st { pending_error_report = some (id, e) })
      → Outcome rid st r
  rejected :
      (e : MigrationResult)
      → IsRejection e
      → rid ≡ none
      → r ≡ (ready (err e), st)
      → Outcome rid st r

reject_request-Outcome :
    (rid : Option ℕ) (e : MigrationResult) (st : RequestState)
    → IsRejection e
    → Outcome rid st (reject_request rid e st)
unfolding reject_request
reject_request-Outcome none e st h = rejected e h refl refl
reject_request-Outcome (some id) e st h = rejected_id e id h refl refl

try_accept_request-Outcome :
    (resp : WaitForRequestResponse) (rid : Option ℕ) (st : RequestState)
    → rid ≡ some (response_id resp)
    → Outcome rid st (try_accept_request (response_id resp) resp st)
unfolding try_accept_request
try_accept_request-Outcome resp rid st e =
    elim (Bool-cases (contains st.requests (response_id resp))) [
      | inl c ↦ idle (rw c)
      | inr c ↦ accepted resp e c (rw c)
    ]

-- The id at the front of the payload is the id that is read for an error report.
payload_inv :
    (buffer payload : List ℕ) (h n : ℕ)
    → get_request_payload buffer h n ≡ ok payload
    → (h + n < 2 ^ 64) × (h + n ≤ length buffer) × (payload ≡ take (h + n - h) (drop h buffer))
unfolding get_request_payload checked_add
payload_inv buffer payload h n e = (ground arith, ground arith, ground arith)

request_id_inv :
    (buffer : List ℕ) (h : ℕ)
    → h + 8 < 2 ^ 64
    → h + 8 ≤ length buffer
    → read_request_id buffer h ≡ some (from_le (take (h + 8 - h) (drop h buffer)))
unfolding read_request_id checked_add
request_id_inv buffer h a b = ground arith

request_id_of_payload :
    (buffer payload : List ℕ) (h n : ℕ)
    → get_request_payload buffer h n ≡ ok payload
    → 8 ≤ n
    → read_request_id buffer h ≡ some (from_le (take 8 payload))
request_id_of_payload buffer payload h n e k =
    let (a, b, c) = payload_inv buffer payload h n e in
    let d : h + 8 - h ≡ 8 = omega arith in
    request_id_inv buffer h (omega arith) (omega arith)
    ∙ rw (c, d, take-take 8 (h + n - h) (drop h buffer) (omega arith)) refl

length-payload :
    (buffer payload : List ℕ) (h n : ℕ)
    → get_request_payload buffer h n ≡ ok payload
    → length payload ≡ n
length-payload buffer payload h n e =
    let (a, b, c) = payload_inv buffer payload h n e in
    rw c (omega (arith, length-take (h + n - h) (drop h buffer), length-drop h buffer))

decode_and_dispatch-Outcome :
    {A : Type 0} (r : Result A) (id : A → ℕ) (respond : A → WaitForRequestResponse) (rid : Option ℕ)
    (st : RequestState)
    → IsDecoded r
    → ((a : A) → response_id (respond a) ≡ id a)
    → ((a : A) → r ≡ ok a → rid ≡ some (id a))
    → Outcome rid st (decode_and_dispatch r id respond rid st)
decode_and_dispatch-Outcome (ok a) id respond rid st d same known =
    rw (← same a)
      (try_accept_request-Outcome (respond a) rid st (known a refl ∙ ap some (sym (same a))))
decode_and_dispatch-Outcome (err e) id respond rid st d same known =
    reject_request-Outcome rid e st (inr (inr (IsDecoded-error e d)))
decode_and_dispatch-Outcome stuck id respond rid st d same known = elim d [ ]

if-Outcome :
    (b : Bool) (rid : Option ℕ) (st : RequestState) (r r' : Poll × RequestState)
    → Outcome rid st r
    → Outcome rid st r'
    → Outcome rid st (if b then r else r')
if-Outcome true rid st r r' h h' = h
if-Outcome false rid st r r' h h' = h'

payload_error :
    (buffer : List ℕ) (h n : ℕ) (e : MigrationResult)
    → get_request_payload buffer h n ≡ err e
    → e ≡ invalid_parameter
unfolding get_request_payload checked_add
payload_error buffer h n e p = ground arith

payload_no_stuck : (buffer : List ℕ) (h n : ℕ) → get_request_payload buffer h n ≢ stuck
unfolding get_request_payload checked_add
payload_no_stuck buffer h n e = ground arith

module _ (info_pread : InfoPread) (data_pread : DataPread) (u64_pread : Pread ℕ (λ i. i) 8)
    (log_pread : LogPread) where
  dispatch-Outcome :
      (op : DataStatusOperation) (buffer slice : List ℕ) (h n : ℕ) (st : RequestState)
      → get_request_payload buffer h n ≡ ok slice
      → Outcome (read_request_id buffer h) st (
          dispatch info_pread data_pread u64_pread log_pread op n slice
            (read_request_id buffer h)
            st)
  unfolding dispatch
  dispatch-Outcome DataStatusOperation.start_migration buffer slice h n st e =
      decode_and_dispatch-Outcome (info_read_from_bytes info_pread n slice) _
        WaitForRequestResponse.start_migration _ st (info-IsDecoded info_pread n slice) (λ a. refl)
        λ a r.
          let f = info_read_from_bytes_sound info_pread n slice a r in
          rw f.5 (request_id_of_payload buffer slice h n e (omega (arith, f.0)))
  dispatch-Outcome DataStatusOperation.start_rebinding buffer slice h n st e =
      decode_and_dispatch-Outcome (info_read_from_bytes info_pread n slice) _
        WaitForRequestResponse.start_rebinding _ st (info-IsDecoded info_pread n slice) (λ a. refl)
        λ a r.
          let f = info_read_from_bytes_sound info_pread n slice a r in
          rw f.5 (request_id_of_payload buffer slice h n e (omega (arith, f.0)))
  dispatch-Outcome DataStatusOperation.get_td_report buffer slice h n st e =
      reject_request-Outcome _ unsupported_operation_error st (inr (inl refl))
  dispatch-Outcome DataStatusOperation.enable_log_area buffer slice h n st e =
      decode_and_dispatch-Outcome (log_read_from_bytes log_pread n slice) _
        WaitForRequestResponse.enable_log_area _ st (log-IsDecoded log_pread n slice) (λ a. refl)
        λ a r.
          let f = log_read_first log_pread n slice a r in
          rw f.1 (request_id_of_payload buffer slice h n e f.0)
  dispatch-Outcome DataStatusOperation.get_migtd_data buffer slice h n st e =
      decode_and_dispatch-Outcome (data_read_from_bytes data_pread u64_pread n slice) _
        WaitForRequestResponse.get_migtd_data _ st (data-IsDecoded data_pread u64_pread n slice)
        (λ a. refl)
        λ a r.
          let f = data_read_first data_pread u64_pread n slice a r in
          rw f.1 (request_id_of_payload buffer slice h n e f.0)

  with_payload-Outcome :
      (r : Result (List ℕ)) (op : DataStatusOperation) (buffer : List ℕ) (h n : ℕ)
      (st : RequestState)
      → get_request_payload buffer h n ≡ r
      → Outcome (read_request_id buffer h) st (
          with_payload info_pread data_pread u64_pread log_pread r op n
            (read_request_id buffer h)
            st)
  unfolding with_payload
  with_payload-Outcome (ok slice) op buffer h n st e = dispatch-Outcome op buffer slice h n st e
  with_payload-Outcome (err status) op buffer h n st e =
      reject_request-Outcome _ status st (inr (inr (payload_error buffer h n status e)))
  with_payload-Outcome stuck op buffer h n st e = absurd (payload_no_stuck buffer h n e)

  with_operation-Outcome :
      (o : Option DataStatusOperation) (buffer : List ℕ) (h n : ℕ) (st : RequestState)
      → Outcome (read_request_id buffer h) st (
          with_operation info_pread data_pread u64_pread log_pread o buffer h n
            (read_request_id buffer h)
            st)
  unfolding with_operation
  with_operation-Outcome none buffer h n st =
      reject_request-Outcome _ unsupported_operation_error st (inr (inl refl))
  with_operation-Outcome (some op) buffer h n st = with_payload-Outcome _ op buffer h n st refl

  -- Every call of `parse_request` ends in one of the four ways of `Outcome`, for the request id that
  -- stands behind the header of the buffer: it does nothing; or it answers and records a request
  -- with this id, which was not recorded before; or it rejects the request, which leaves the recorded
  -- requests as they are and puts the error up for a report under this id; or, with no id in the
  -- buffer, it rejects the request and changes nothing.
  pub parse_request-Outcome :
      (buffer : List ℕ) (h : ℕ) (st : RequestState)
      → Outcome
          (read_request_id buffer h)
          st
          (parse_request info_pread data_pread u64_pread log_pread buffer h st)
  unfolding parse_request
  parse_request-Outcome buffer h st =
      let hdr = process_buffer buffer in
      if-Outcome ((hdr.datastatus == 0) && (hdr.length == 0)) _ st _ _ (idle refl) (
        if-Outcome (not (hdr.datastatus % 256 == 1)) _ st _ _
          (reject_request-Outcome _ vmm_internal_error st (inl refl))
          (with_operation-Outcome _ buffer h _ st))
