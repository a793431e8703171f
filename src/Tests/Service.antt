-- ===== src/Tests/Service.antt =====
-- A run of the service: it waits, takes a request to enable the log area, starts its task, and ends it.
use mig_td.Base.{
  ◌≡◌, refl, subst, true, false, none, some, [], ◌∷◌, from_le, checked_add, replicate,
}
use mig_td.Migration.Info.{log_read_from_bytes, any_nonzero}
use mig_td.Migration.Requests.{
  WaitForRequestResponse, parse_request, process_buffer, read_request_id, operation_try_from,
  get_request_payload, try_accept_request, contains,
}
use mig_td.Migration.Service.{
  Service, initial, may_wait, poll_buffer, begin, poll, start, Reaches, here, then_step,
}
use mig_td.Migration.Service.Concurrency.{Healthy, Reaches-Healthy}
use mig_td.Tests.Readers.{info_reader, data_reader, u64_reader, log_reader}
use mig_td.Tests.Session.{log_request}

abbrev request : WaitForRequestResponse
request =
    WaitForRequestResponse.enable_log_area
      (record { mig_request_id = 5; log_max_level = 2; reserved = replicate 7 0 })

abbrev waiting : Service
waiting = record initial { waiting = true }

abbrev asked : Service
asked = record { requests = 5 ∷ []; pending_request = some request; waiting = false; tasks = [] }

abbrev running : Service
running = record {
  requests = 5 ∷ [];
  pending_request = none;
  waiting = false;
  tasks = request ∷ [];
}

may_wait-initial : may_wait initial ≡ true
unfolding may_wait
may_wait-initial = refl

poll_buffer-request :
    poll_buffer info_reader data_reader u64_reader log_reader log_request waiting ≡ asked
unfolding poll_buffer parse_request process_buffer read_request_id operation_try_from
    get_request_payload try_accept_request contains from_le checked_add log_read_from_bytes
    any_nonzero
poll_buffer-request = refl

Reaches-running : Reaches info_reader data_reader u64_reader log_reader initial running
Reaches-running =
    then_step asked running
      (subst (Reaches info_reader data_reader u64_reader log_reader initial) poll_buffer-request (
        then_step waiting _ (then_step initial waiting here (begin initial refl may_wait-initial))
          (poll waiting log_request refl)))
      (start asked request refl)

Reaches-Healthy_example : Healthy running
Reaches-Healthy_example =
    Reaches-Healthy info_reader data_reader u64_reader log_reader running Reaches-running
