-- ===== src/Migration/Service.antt =====
-- `handle_pre_mig` of src/migtd/src/bin/migtd/main.rs: the task that waits for requests, and the loop
-- that starts a task for each, in the build with the features vmcall-raw and policy_v2.
pub mod Concurrency
use mig_td.Base.{
  ℕ, ◌<◌, ◌≡◌, Bool, true, false, ◌&&◌, Option, none, some, List, [], ◌∷◌, ◌++◌, ltb, ◌==◌,
  if◌then◌else◌, length,
}
use mig_td.Migration.Status.{Result, ok, err, stuck}
use mig_td.Migration.Info.{Pread, InfoPread, DataPread, LogPread}
use mig_td.Migration.Requests.{
  WaitForRequestResponse, Poll, pending, ready, RequestState, header_length, parse_request,
}
use mig_td.Migration.Requests.Outcome.{response_id}

abbrev pub max_concurrency_requests : ℕ
max_concurrency_requests = 12

-- The statics `REQUESTS` and `PENDING_REQUEST`; whether the waiting task is inside
-- `wait_for_request`; and the requests whose tasks have been added and are not finished.
pub record Service : Type 0 where
  pub requests : List ℕ
  pub pending_request : Option WaitForRequestResponse
  pub waiting : Bool
  pub tasks : List WaitForRequestResponse

abbrev pub is_none : {A : Type 0} → Option A → Bool
is_none none = true
is_none (some a) = false

-- The condition that the waiting task polls before it waits for a request.
unfoldable pub may_wait : Service → Bool
may_wait s = is_none s.pending_request && ltb (length s.requests) max_concurrency_requests

-- `BTreeSet::remove`
unfoldable pub remove : ℕ → List ℕ → List ℕ
remove id [] = []
remove id (x ∷ xs) = let rest = remove id xs in if x == id then rest else x ∷ rest

-- What the waiting task makes of the outcome of one poll.
abbrev pub polled : Poll → Service → Service
polled pending s = s
polled (ready (ok request)) s = record s { pending_request = some request; waiting = false }
polled (ready (err e)) s = record s { waiting = false }
polled (ready stuck) s = record s { waiting = false }

module _ (info_pread : InfoPread) (data_pread : DataPread) (u64_pread : Pread ℕ (λ i. i) 8)
    (log_pread : LogPread) where
  -- The event flag is set while the host has put `buffer` into the shared memory.
  unfoldable pub poll_buffer : List ℕ → Service → Service
  poll_buffer buffer s =
      let r =
        parse_request info_pread data_pread u64_pread log_pread buffer header_length
          (record { requests = s.requests; pending_error_report = none }) in
      polled r.0 (record s { requests = r.1.requests })

  -- One step of the service. The executor is cooperative: each step runs between two points at
  -- which a task yields, and the tasks take turns in any order.
  pub data Step : Service → Service → Type 0 where
    begin :
        (s : Service) → s.waiting ≡ false → may_wait s ≡ true → Step s (record s { waiting = true })
    -- `wait_for_request` fails outside of `parse_request`.
    abandon : (s : Service) → s.waiting ≡ true → Step s (record s { waiting = false })
    poll : (s : Service) (buffer : List ℕ) → s.waiting ≡ true → Step s (poll_buffer buffer s)
    -- The loop takes the pending request and adds a task for it.
    start :
        (s : Service) (request : WaitForRequestResponse)
        → s.pending_request ≡ some request
        → Step s (record s { pending_request = none; tasks = request ∷ s.tasks })
    -- A task ends, whatever its status was and whether or not that could be reported.
    finish :
        (s : Service) (front : List WaitForRequestResponse) (request : WaitForRequestResponse)
        (back : List WaitForRequestResponse)
        → s.tasks ≡ front ++ (request ∷ back)
        → Step s
            (record s { tasks = front ++ back; requests = remove (response_id request) s.requests })

  pub data Reaches (s : Service) : Service → Type 0 where
    here : Reaches s s
    then_step : (s' s'' : Service) → Reaches s s' → Step s' s'' → Reaches s s''

abbrev pub initial : Service
initial = record { requests = []; pending_request = none; waiting = false; tasks = [] }
