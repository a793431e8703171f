-- ===== src/Migration/Service/Concurrency.antt =====
-- What holds of the service of src/migtd/src/bin/migtd/main.rs in every state that it reaches.
use mig_td.Base.{
  ℕ, ◌≤◌, ◌<◌, ◌≡◌, refl, sym, ap, subst, ◌∙◌, true, false, Option, none, some, List, [], ◌∷◌, ◌++◌,
  arith, ◌==◌, ==_iff, length, Bool-cases, inl, inr,
}
use mig_td.Migration.Info.{Pread, InfoPread, DataPread, LogPread}
use mig_td.Migration.Requests.{
  WaitForRequestResponse, Poll, RequestState, header_length, contains, read_request_id,
}
use mig_td.Migration.Requests.Outcome.{
  response_id, Outcome, idle, accepted, rejected_id, rejected, parse_request-Outcome,
}
use mig_td.Migration.Service.{
  max_concurrency_requests, Service, is_none, may_wait, remove, polled, poll_buffer, Step, begin,
  abandon, poll, start, finish, Reaches, here, then_step, initial,
}

-- No id stands twice in the list.
abbrev pub IsDistinct : List ℕ → Type 0
IsDistinct [] = Unit {0}
IsDistinct (x ∷ xs) = (contains xs x ≡ false) × IsDistinct xs

abbrev pub pending_ids : Option WaitForRequestResponse → List ℕ
pending_ids none = []
pending_ids (some request) = response_id request ∷ []

abbrev pub ids : List WaitForRequestResponse → List ℕ
ids [] = []
ids (request ∷ requests) = response_id request ∷ ids requests

-- The ids in `REQUESTS` are those of the pending request and of the running tasks, each once; there are at most
-- twelve of them; and a task that waits for a request has room for it.
pub record Healthy (s : Service) : Type 0 where
  pub tracked : s.requests ≡ pending_ids s.pending_request ++ ids s.tasks
  pub distinct : IsDistinct s.requests
  pub bounded : length s.requests ≤ max_concurrency_requests
  pub room :
      s.waiting ≡ true → (length s.requests < max_concurrency_requests) × (s.pending_request ≡ none)

remove_absent : (id : ℕ) (xs : List ℕ) → contains xs id ≡ false → remove id xs ≡ xs
unfolding remove contains
remove_absent id [] h = refl
remove_absent id (x ∷ xs) h = ground (arith, remove_absent id xs)

-- The id of a task stands in the list of ids where the task stands.
remove-ids :
    (front : List WaitForRequestResponse) (request : WaitForRequestResponse)
    (back : List WaitForRequestResponse)
    → IsDistinct (ids (front ++ (request ∷ back)))
    → (remove (response_id request) (ids (front ++ (request ∷ back))) ≡ ids (front ++ back))
      × (contains (ids (front ++ (request ∷ back))) (response_id request) ≡ true)
unfolding remove contains
remove-ids [] request back (h, d) =
    let e : (response_id request == response_id request) ≡ true =
      (==_iff (response_id request) (response_id request)).1 refl in
    (rw e (remove_absent (response_id request) (ids back) h), rw e refl)
remove-ids (x ∷ front) request back (h, d) =
    let r = remove-ids front request back d in
    elim (Bool-cases (response_id x == response_id request)) [
      | inl e ↦
          let q : response_id x ≡ response_id request =
            (==_iff (response_id x) (response_id request)).0 e in
          let z : contains (ids (front ++ (request ∷ back))) (response_id request) ≡ false =
            subst (λ i. contains (ids (front ++ (request ∷ back))) i ≡ false) q h in
          absurd (let w = sym z ∙ r.1 in cc)
      | inr e ↦ (rw e (ap (λ l. response_id x ∷ l) r.0), rw e r.1)
    ]

length-remove : (id : ℕ) (xs : List ℕ) → length (remove id xs) ≤ length xs
unfolding remove
length-remove id [] = omega arith
length-remove id (x ∷ xs) = ground (arith, length-remove id xs)

contains-remove :
    (a id : ℕ) (xs : List ℕ) → contains xs a ≡ false → contains (remove id xs) a ≡ false
unfolding remove contains
contains-remove a id [] h = refl
contains-remove a id (x ∷ xs) h = ground (arith, contains-remove a id xs)

remove-IsDistinct : (id : ℕ) (xs : List ℕ) → IsDistinct xs → IsDistinct (remove id xs)
unfolding remove
remove-IsDistinct id [] d = tt
remove-IsDistinct id (x ∷ xs) (h, d) = elim (Bool-cases (x == id)) [
  | inl e ↦ rw e (remove-IsDistinct id xs d)
  | inr e ↦ rw e (contains-remove x id xs h, remove-IsDistinct id xs d)
]

-- A pending request is not one of the tasks.
remove_pending :
    (o : Option WaitForRequestResponse) (id : ℕ) (xs : List ℕ)
    → IsDistinct (pending_ids o ++ xs)
    → contains xs id ≡ true
    → remove id (pending_ids o ++ xs) ≡ pending_ids o ++ remove id xs
unfolding remove
remove_pending none id xs d h = refl
remove_pending (some request) id xs (a, d) h = elim (Bool-cases (response_id request == id)) [
  | inl e ↦
      let q : response_id request ≡ id = (==_iff (response_id request) id).0 e in
      let z : contains xs id ≡ false = subst (λ i. contains xs i ≡ false) q a in
      absurd (let w = sym z ∙ h in cc)
  | inr e ↦ rw e refl
]

tasks-IsDistinct :
    (o : Option WaitForRequestResponse) (xs : List ℕ)
    → IsDistinct (pending_ids o ++ xs)
    → IsDistinct xs
tasks-IsDistinct none xs d = d
tasks-IsDistinct (some request) xs (a, d) = d

finish-Healthy :
    (s : Service) (front : List WaitForRequestResponse) (request : WaitForRequestResponse)
    (back : List WaitForRequestResponse)
    → s.tasks ≡ front ++ (request ∷ back)
    → Healthy s
    → Healthy
        (record s { tasks = front ++ back; requests = remove (response_id request) s.requests })
finish-Healthy s front request back e h =
    let all = ids (front ++ (request ∷ back)) in
    let t : s.requests ≡ pending_ids s.pending_request ++ all =
      h.tracked ∙ ap (λ x. pending_ids s.pending_request ++ ids x) e in
    let d : IsDistinct (pending_ids s.pending_request ++ all) = subst IsDistinct t h.distinct in
    let r = remove-ids front request back (tasks-IsDistinct s.pending_request all d) in
    let short = length-remove (response_id request) s.requests in
    record {
      tracked =
          ap (remove (response_id request)) t
          ∙ remove_pending s.pending_request (response_id request) all d r.1
          ∙ ap (λ x. pending_ids s.pending_request ++ x) r.0;
      distinct = remove-IsDistinct (response_id request) s.requests h.distinct;
      bounded = omega (arith, h.bounded);
      room = λ w. let q = h.room w in (omega (arith, q.0), q.1);
    }

may_wait_inv :
    (s : Service)
    → may_wait s ≡ true
    → (length s.requests < max_concurrency_requests) × (s.pending_request ≡ none)
unfolding may_wait
may_wait_inv s h = (ground arith, no_pending s.pending_request (ground arith))
  where
    no_pending : (o : Option WaitForRequestResponse) → is_none o ≡ true → o ≡ none
    no_pending none e = refl
    no_pending (some r) e = absurd cc

start-Healthy :
    (s : Service) (request : WaitForRequestResponse)
    → s.pending_request ≡ some request
    → Healthy s
    → Healthy (record s { pending_request = none; tasks = request ∷ s.tasks })
start-Healthy s request e h = record {
  tracked = h.tracked ∙ ap (λ o. pending_ids o ++ ids s.tasks) e;
  distinct = h.distinct;
  bounded = h.bounded;
  room = λ w. ((h.room w).0, refl);
}

-- What a poll makes of a healthy service that waits.
polled-Healthy :
    (s : Service) (rid : Option ℕ) (r : Poll × RequestState)
    → s.waiting ≡ true
    → Healthy s
    → Outcome rid (record { requests = s.requests; pending_error_report = none }) r
    → Healthy (polled r.0 (record s { requests = r.1.requests }))
polled-Healthy s rid r w h (idle e) = rw e h
polled-Healthy s rid r w h (accepted resp i c e) =
    let q = h.room w in
    rw e (record {
      tracked =
          ap (λ x. response_id resp ∷ x) (h.tracked ∙ ap (λ o. pending_ids o ++ ids s.tasks) q.1);
      distinct = (c, h.distinct);
      bounded = omega (arith, q.0);
      room = λ z. absurd cc;
    })
polled-Healthy s rid r w h (rejected_id e id x i q) = rw q (record {
  tracked = h.tracked;
  distinct = h.distinct;
  bounded = h.bounded;
  room = λ z. absurd cc;
})
polled-Healthy s rid r w h (rejected e x i q) = rw q (record {
  tracked = h.tracked;
  distinct = h.distinct;
  bounded = h.bounded;
  room = λ z. absurd cc;
})

module _ (info_pread : InfoPread) (data_pread : DataPread) (u64_pread : Pread ℕ (λ i. i) 8)
    (log_pread : LogPread) where
  Step-Healthy :
      (s s' : Service)
      → Step info_pread data_pread u64_pread log_pread s s'
      → Healthy s
      → Healthy s'
  unfolding poll_buffer
  Step-Healthy _ _ (begin s w m) h = record {
    tracked = h.tracked;
    distinct = h.distinct;
    bounded = h.bounded;
    room = λ _. may_wait_inv s m;
  }
  Step-Healthy _ _ (abandon s w) h = record {
    tracked = h.tracked;
    distinct = h.distinct;
    bounded = h.bounded;
    room = λ z. absurd cc;
  }
  Step-Healthy _ _ (poll s buffer w) h =
      polled-Healthy s (read_request_id buffer header_length) _ w h (
        parse_request-Outcome info_pread data_pread u64_pread log_pread buffer header_length
          (record { requests = s.requests; pending_error_report = none }))
  Step-Healthy _ _ (start s request e) h = start-Healthy s request e h
  Step-Healthy _ _ (finish s front request back e) h = finish-Healthy s front request back e h

  -- In every state that the service reaches, however its tasks are interleaved and whatever the host
  -- presents, the ids in `REQUESTS` are exactly those of the pending request and of the running tasks,
  -- no id stands there twice, and there are at most twelve. So the tasks of two running requests never have the same
  -- id, and a finished request leaves nothing behind that would use up the limit.
  pub Reaches-Healthy :
      (s : Service) → Reaches info_pread data_pread u64_pread log_pread initial s → Healthy s
  Reaches-Healthy _ here = record {
    tracked = refl;
    distinct = tt;
    bounded = omega arith;
    room = λ z. absurd cc;
  }
  Reaches-Healthy s (then_step s' _ r p) = Step-Healthy s' s p (Reaches-Healthy s' r)
