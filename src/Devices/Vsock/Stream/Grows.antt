-- ===== src/Devices/Vsock/Stream/Grows.antt =====
-- What the steps of src/devices/vsock/src/stream.rs do to the queue of data: it only grows.
use mig_td.Base.{
  ℕ, zero, suc, ◌+◌, ◌%◌, ◌^◌, ◌≤◌, ◌≡◌, refl, sym, ap, ◌∙◌, Bool, true, false, not, Option, none,
  some, List, [], ◌∷◌, ◌++◌, ltb, leb, ◌==◌, if◌then◌else◌, length, take, is_empty, append_assoc,
  append-nil, arith, subst, ◌&&◌, ◌||◌, length-take, length-append,
}
use mig_td.Devices.Vsock.Packet
use mig_td.Devices.Vsock.Packet.{
  ByteOrder, op, data_len, type, buf_alloc, fwd_cnt, dst_cid, dst_port, src_cid, src_port,
}
use mig_td.Devices.Vsock.Stream.{
  dequeue, new_checked, packet_of, send_vsock_pkt, send_credit_update, reset, shutdown, queue_data,
  recv_packet_connected, wait_for_data, free_space,
}
use mig_td.Devices.Vsock.Connection.{
  Answer, ok, err, waiting, Link, World, Action, continue, done, fail, illegal, modify, set_state,
  checked, closing, answered, is_established, is_listening, is_closing, remove_from_connection_map,
  remove_from_binding_map, op_credit_update, op_shutdown, op_rst, op_rw, op_credit_request,
}
use mig_td.Devices.Vsock.Stream.Incoming.{
  Incoming, nothing, payload, control, ending, Incoming-append, Dequeued, got, lost, Reports,
}
use mig_td.Devices.Vsock.Stream.Queue.{concat, concat-append_one}

abbrev pub is_ok : {A : Type 0} → Answer A → Bool
is_ok (ok a) = true
is_ok (err e) = false
is_ok waiting = false

-- What a step does to the buffers that the transport has handed over, seen from when these were `base`.
-- The bytes `fresh` come in behind the others, from the buffers `complete`; only an error leaves
-- others, at most two, without effect.
module _ {S : Type 0} (order : ByteOrder) (log : S → List (List ℕ)) where
  -- The queue and the count of received bytes stay as they are, and at most `n` buffers are taken.
  abbrev Same : {A : Type 0} → ℕ → Answer A × World S → World S → Type 0
  Same n o w =
      (o.1.stream.data_queue ≡ w.stream.data_queue)
      × (o.1.stream.rx_cnt ≡ w.stream.rx_cnt)
      × (ps : List (List ℕ)) × (log o.1.link ≡ log w.link ++ ps)
      × (length ps ≤ n)

  Same-bind :
      {A B : Type 0} (n m : ℕ) (o : Answer A × World S) (f : A → Action S B) (w : World S)
      → Same n o w
      → ((a : A) (w' : World S) → Same m (f a w') w')
      → Same (n + m) (continue o f) w
  Same-bind n m (ok a, w') f w (p, q, ps, e, b) k =
      let (p', q', ps', e', b') = k a w' in
      (
        p' ∙ p,
        q' ∙ q,
        ps ++ ps',
        e' ∙ ap (λ l. l ++ ps') e ∙ append_assoc (log w.link) ps ps',
        omega (arith, length-append ps ps'),
      )
  Same-bind n m (err x, w') f w (p, q, ps, e, b) k = (p, q, ps, e, omega arith)
  Same-bind n m (waiting, w') f w (p, q, ps, e, b) k = (p, q, ps, e, omega arith)

  pub record Grows {A : Type 0} (base : List (List ℕ)) (o : Answer A × World S) (w : World S)
      : Type 0 where
    pub complete : List (List ℕ)
    pub dropped : List (List ℕ)
    pub fresh : List ℕ
    pub logged : log o.1.link ≡ base ++ (complete ++ dropped)
    pub carried : Incoming order complete fresh
    pub few_dropped : length dropped ≤ 2
    pub none_dropped : is_ok o.0 ≡ true → dropped ≡ []
    pub queued : concat o.1.stream.data_queue ≡ concat w.stream.data_queue ++ fresh
    pub counted :
        is_ok o.0 ≡ true → o.1.stream.rx_cnt % 2 ^ 32 ≡ (w.stream.rx_cnt + length fresh) % 2 ^ 32

  -- Seen from another world with the same queue and count.
  Grows-from :
      {A : Type 0} (base : List (List ℕ)) (o : Answer A × World S) (w w' : World S)
      → w'.stream.data_queue ≡ w.stream.data_queue
      → w'.stream.rx_cnt ≡ w.stream.rx_cnt
      → Grows base o w'
      → Grows base o w
  Grows-from base o w w' p q g = record {
    complete = g.complete;
    dropped = g.dropped;
    fresh = g.fresh;
    logged = g.logged;
    carried = g.carried;
    few_dropped = g.few_dropped;
    none_dropped = g.none_dropped;
    queued = g.queued ∙ ap (λ l. concat l ++ g.fresh) p;
    counted = λ e. g.counted e ∙ ap (λ n. (n + length g.fresh) % 2 ^ 32) q;
  }

  -- A step that brings no bytes, where the buffers that it takes carry none.
  Same-Grows :
      {A : Type 0} (base complete : List (List ℕ)) (o : Answer A × World S) (w : World S)
      → o.1.stream.data_queue ≡ w.stream.data_queue
      → o.1.stream.rx_cnt ≡ w.stream.rx_cnt
      → log o.1.link ≡ base ++ complete
      → Incoming order complete []
      → Grows base o w
  Same-Grows base complete o w p q e i = record {
    complete = complete;
    dropped = [];
    fresh = [];
    logged = e ∙ ap (λ l. base ++ l) (sym (append-nil complete));
    carried = i;
    few_dropped = omega arith;
    none_dropped = λ h. refl;
    queued = ap concat p ∙ sym (append-nil (concat w.stream.data_queue));
    counted = λ h. omega arith;
  }

  -- An error that brings no bytes.
  error-Grows :
      {A : Type 0} (base dropped : List (List ℕ)) (o : Answer A × World S) (w : World S)
      → is_ok o.0 ≡ false
      → o.1.stream.data_queue ≡ w.stream.data_queue
      → log o.1.link ≡ base ++ dropped
      → length dropped ≤ 2
      → Grows base o w
  error-Grows base dropped o w f p e n = record {
    complete = [];
    dropped = dropped;
    fresh = [];
    logged = e;
    carried = nothing;
    few_dropped = n;
    none_dropped = λ h. absurd (ground arith);
    queued = ap concat p ∙ sym (append-nil (concat w.stream.data_queue));
    counted = λ h. absurd (ground arith);
  }

  -- One step after another.
  Grows-bind :
      {A B : Type 0} (o : Answer A × World S) (f : A → Action S B) (w : World S)
      → Grows (log w.link) o w
      → ((a : A) (w' : World S) → Grows (log w'.link) (f a w') w')
      → Grows (log w.link) (continue o f) w
  Grows-bind (ok a, w') f w h k =
      let g = k a w' in
      record {
        complete = h.complete ++ g.complete;
        dropped = g.dropped;
        fresh = h.fresh ++ g.fresh;
        logged =
            g.logged
            ∙ ap (λ l. l ++ (g.complete ++ g.dropped))
                (h.logged
                  ∙ ap (λ l. log w.link ++ (h.complete ++ l)) (h.none_dropped refl)
                  ∙ ap (λ l. log w.link ++ l) (append-nil h.complete))
            ∙ append_assoc (log w.link) h.complete (g.complete ++ g.dropped)
            ∙ ap (λ l. log w.link ++ l) (sym (append_assoc h.complete g.complete g.dropped));
        carried = Incoming-append order h.complete g.complete h.fresh g.fresh h.carried g.carried;
        few_dropped = g.few_dropped;
        none_dropped = g.none_dropped;
        queued =
            g.queued
            ∙ ap (λ l. l ++ g.fresh) h.queued
            ∙ append_assoc (concat w.stream.data_queue) h.fresh g.fresh;
        counted = λ e. omega (arith, g.counted e, h.counted refl, length-append h.fresh g.fresh);
      }
  Grows-bind (err e, w') f w h k = record {
    complete = h.complete;
    dropped = h.dropped;
    fresh = h.fresh;
    logged = h.logged;
    carried = h.carried;
    few_dropped = h.few_dropped;
    none_dropped = λ e. absurd (ground arith);
    queued = h.queued;
    counted = λ e. absurd (ground arith);
  }
  Grows-bind (waiting, w') f w h k = record {
    complete = h.complete;
    dropped = h.dropped;
    fresh = h.fresh;
    logged = h.logged;
    carried = h.carried;
    few_dropped = h.few_dropped;
    none_dropped = λ e. absurd (ground arith);
    queued = h.queued;
    counted = λ e. absurd (ground arith);
  }

  pub nothing-Grows : {A : Type 0} (a : Answer A) (w : World S) → Grows (log w.link) (a, w) w
  nothing-Grows a w =
      Same-Grows (log w.link) [] (a, w) w refl refl (sym (append-nil (log w.link))) nothing

  checked-Same : (c : Packet.Checked) (bytes : List ℕ) (w : World S) → Same 0 (checked c bytes w) w
  checked-Same Packet.ok bytes w = (refl, refl, [], sym (append-nil (log w.link)), omega arith)
  checked-Same (Packet.err e) bytes w = (refl, refl, [], sym (append-nil (log w.link)), omega arith)

  if-Same :
      {A : Type 0} (n : ℕ) (c : Bool) (m k : Action S A) (w : World S)
      → Same n (m w) w
      → Same n (k w) w
      → Same n ((if c then m else k) w) w
  if-Same n true m k w h g = h
  if-Same n false m k w h g = g

  answered-Same :
      {A : Type 0} (r : Option A × S) (w : World S) → log r.1 ≡ log w.link → Same 0 (answered r w) w
  answered-Same (none, l) w h = (refl, refl, [], h ∙ sym (append-nil (log w.link)), omega arith)
  answered-Same (some a, l) w h = (refl, refl, [], h ∙ sym (append-nil (log w.link)), omega arith)

  Dequeued-Same :
      (r : Option (List ℕ) × S) (w : World S) → Dequeued log w.link r → Same 1 (answered r w) w
  Dequeued-Same r w (got bytes l h) = (refl, refl, bytes ∷ [], h, omega arith)
  Dequeued-Same r w (lost l h) = (refl, refl, [], h ∙ sym (append-nil (log w.link)), omega arith)

  none_left : (ps : List (List ℕ)) → length ps ≤ 0 → ps ≡ []
  none_left [] h = refl
  none_left (p ∷ ps) h = absurd (omega arith)

  -- The bytes of a packet go to the queue, if the acknowledgement succeeds.
  pushed-Grows :
      (base : List (List ℕ)) (h bytes : List ℕ) (w : World S) (o : Answer (Unit {0}) × World S)
      → (op order h == op_rw) ≡ true
      → data_len order h ≤ length bytes
      → log w.link ≡ base ++ (h ∷ (bytes ∷ []))
      → Same 0 o (record w {
        stream = record w.stream { rx_cnt = (w.stream.rx_cnt + data_len order h) % 2 ^ 32 };
      })
      → Grows base
          (continue o (λ u.
            modify (λ s. record s {
              data_queue = s.data_queue ++ (take (data_len order h) bytes ∷ []);
            })))
          w
  pushed-Grows base h bytes w (ok u, w') r le e (p, q, ps, t, z) =
      let len = data_len order h in
      record {
        complete = h ∷ (bytes ∷ []);
        dropped = [];
        fresh = take len bytes;
        logged = t ∙ ap (λ l. log w.link ++ l) (none_left ps z) ∙ append-nil (log w.link) ∙ e;
        carried =
            subst (Incoming order (h ∷ (bytes ∷ []))) (append-nil (take len bytes))
              (payload h bytes [] [] r le nothing);
        few_dropped = omega arith;
        none_dropped = λ x. refl;
        queued =
            concat-append_one w'.stream.data_queue (take len bytes)
            ∙ ap (λ l. concat l ++ take len bytes) p;
        counted = λ x. let l = length-take len bytes in omega arith;
      }
  pushed-Grows base h bytes w (err x, w') r le e (p, q, ps, t, z) =
      error-Grows base (h ∷ (bytes ∷ [])) (err x, w') w refl p
        (t ∙ ap (λ l. log w.link ++ l) (none_left ps z) ∙ append-nil (log w.link) ∙ e) (omega arith)
  pushed-Grows base h bytes w (waiting, w') r le e (p, q, ps, t, z) =
      error-Grows base (h ∷ (bytes ∷ [])) (waiting, w') w refl p
        (t ∙ ap (λ l. log w.link ++ l) (none_left ps z) ∙ append-nil (log w.link) ∙ e) (omega arith)

  module _ (link : Link S) (reports : Reports link log) (limit : ℕ) where
    dequeue-Same : (w : World S) → Same 1 (dequeue order link limit w) w
    unfolding dequeue
    dequeue-Same w =
        Dequeued-Same (link.dequeue w.stream w.link) w (reports.dequeued w.stream w.link)

    new_checked-Same :
        (bytes : List ℕ) (w : World S) → Same 0 (new_checked order link limit bytes w) w
    unfolding new_checked
    new_checked-Same bytes w = checked-Same (Packet.check order bytes) bytes w

    send-Same :
        (h bytes : List ℕ) (w : World S) → Same 0 (send_vsock_pkt order link limit h bytes w) w
    unfolding send_vsock_pkt
    send-Same h bytes w = answered-Same _ _ (reports.enqueued _ h bytes w.link)

    send_credit_update-Same : (w : World S) → Same 0 (send_credit_update order link limit w) w
    unfolding send_credit_update
    send_credit_update-Same w =
        Same-bind 0 0
          (send_vsock_pkt order link limit
            (packet_of order link limit w.stream op_credit_update 0 0 w.stream.rx_cnt) [] w)
          _ w (send-Same _ [] w)
          (λ n w'. (refl, refl, [], sym (append-nil (log w'.link)), omega arith))

    reset-Same : (w : World S) → Same 1 (reset order link limit w) w
    unfolding reset remove_from_connection_map
    reset-Same w =
        if-Same 1 (not (is_closing w.stream.state)) (fail illegal) _ w
          (refl, refl, [], sym (append-nil (log w.link)), omega arith)
          (Same-bind 1 0 (dequeue order link limit w) _ w (dequeue-Same w) (λ bytes w1.
            Same-bind 0 0 (new_checked order link limit bytes w1) _ w1 (new_checked-Same bytes w1)
              (λ packet w2.
                if-Same 0 (op order packet == op_rst) _ (set_state closing) w2
                  (Same-bind 0 0
                    (send_vsock_pkt order link limit
                      (packet_of order link limit w.stream op_rst 0 0 w.stream.rx_cnt) [] w2)
                    _ w2 (send-Same _ [] w2)
                    (λ n w3. (refl, refl, [], sym (append-nil (log w3.link)), omega arith)))
                  (refl, refl, [], sym (append-nil (log w2.link)), omega arith))))

    shutdown-Same : (w : World S) → Same 1 (shutdown order link limit w) w
    unfolding shutdown remove_from_binding_map
    shutdown-Same w =
        if-Same 1 (is_listening w.stream.state) _ _ w
          (refl, refl, [], sym (append-nil (log w.link)), omega arith)
          (if-Same 1 (is_established w.stream.state) _ (fail illegal) w
            (Same-bind 0 1
              (send_vsock_pkt order link limit
                (packet_of order link limit w.stream op_shutdown 0 3 w.stream.rx_cnt) [] w)
              _ w (send-Same _ [] w)
              (λ n w1. reset-Same (record w1 { stream = record w1.stream { state = closing } })))
            (refl, refl, [], sym (append-nil (log w.link)), omega arith))

    queue_data-Grows :
        (base : List (List ℕ)) (h bytes : List ℕ) (w : World S)
        → (op order h == op_rw) ≡ true
        → data_len order h ≤ length bytes
        → log w.link ≡ base ++ (h ∷ (bytes ∷ []))
        → Grows base (queue_data order link limit (data_len order h) bytes w) w
    unfolding queue_data
    queue_data-Grows base h bytes w r le e =
        let w1 = record w {
          stream = record w.stream { rx_cnt = (w.stream.rx_cnt + data_len order h) % 2 ^ 32 };
        } in
        pushed-Grows base h bytes w
          ((if ltb (free_space w1.stream) limit
              then send_credit_update order link limit
              else done tt)
            w1)
          r le e
          (if-Same 0 (ltb (free_space w1.stream) limit) (send_credit_update order link limit)
            (done tt) w1 (send_credit_update-Same w1)
            (refl, refl, [], sym (append-nil (log w1.link)), omega arith))

    dequeue-Grows :
        {A : Type 0} (base before : List (List ℕ)) (f : List ℕ → Action S A) (w : World S)
        → log w.link ≡ base ++ before
        → length before ≤ 1
        → ((bytes : List ℕ) (w' : World S)
            → log w'.link ≡ base ++ (before ++ (bytes ∷ []))
            → Grows base (f bytes w') w')
        → Grows base (continue (dequeue order link limit w) f) w
    unfolding dequeue
    dequeue-Grows base before f w e n k =
        after (link.dequeue w.stream w.link) (reports.dequeued w.stream w.link)
      where
        after :
            (r : Option (List ℕ) × S)
            → Dequeued log w.link r
            → Grows base (continue (answered r w) f) w
        after r (got bytes l h) =
            Grows-from base _ w (record w { link = l }) refl refl
              (k bytes (record w { link = l })
                (h ∙ ap (λ x. x ++ (bytes ∷ [])) e ∙ append_assoc base before (bytes ∷ [])))
        after r (lost l h) = error-Grows base before _ w refl refl (h ∙ e) (omega arith)

    checked-Grows :
        {A : Type 0} (base : List (List ℕ)) (h : List ℕ) (f : List ℕ → Action S A) (w : World S)
        → log w.link ≡ base ++ (h ∷ [])
        → Grows base (f h w) w
        → Grows base (continue (new_checked order link limit h w) f) w
    unfolding new_checked
    checked-Grows base h f w e k = after (Packet.check order h)
      where
        after : (c : Packet.Checked) → Grows base (continue (checked c h w) f) w
        after Packet.ok = k
        after (Packet.err x) = error-Grows base (h ∷ []) _ w refl refl e (omega arith)

    if-Grows :
        {A : Type 0} (base : List (List ℕ)) (c : Bool) (m k : Action S A) (w : World S)
        → (c ≡ true → Grows base (m w) w)
        → (c ≡ false → Grows base (k w) w)
        → Grows base ((if c then m else k) w) w
    if-Grows base true m k w h g = h refl
    if-Grows base false m k w h g = g refl

    control-Grows :
        {A : Type 0} (base : List (List ℕ)) (h : List ℕ) (o : Answer A × World S) (w : World S)
        → log w.link ≡ base ++ (h ∷ [])
        → ((op order h == op_rw) && ltb 0 (data_len order h)) ≡ false
        → Same 0 o w
        → Grows base o w
    control-Grows base h o w e c (p, q, ps, t, z) =
        Same-Grows base (h ∷ []) o w p q
          (t ∙ ap (λ l. log w.link ++ l) (none_left ps z) ∙ append-nil (log w.link) ∙ e)
          (control h [] [] c nothing)

    ending-Grows :
        {A : Type 0} (base : List (List ℕ)) (h : List ℕ) (o : Answer A × World S) (w : World S)
        → log w.link ≡ base ++ (h ∷ [])
        → ((op order h == op_shutdown) || (op order h == op_rst)) ≡ true
        → Same 1 o w
        → Grows base o w
    ending-Grows base h o w e c (p, q, ps, t, z) =
        Same-Grows base (h ∷ ps) o w p q (t ∙ ap (λ l. l ++ ps) e ∙ append_assoc base (h ∷ []) ps)
          (subst (λ l. Incoming order (h ∷ l) []) (append-nil ps) (ending h ps [] [] c z nothing))

    data-Grows :
        (base : List (List ℕ)) (h bytes : List ℕ) (w : World S)
        → (op order h == op_rw) ≡ true
        → log w.link ≡ base ++ (h ∷ (bytes ∷ []))
        → Grows base
            ((if leb (data_len order h) (length bytes)
                then queue_data order link limit (data_len order h) bytes
                else fail illegal)
              w)
            w
    data-Grows base h bytes w r e =
        if-Grows base (leb (data_len order h) (length bytes)) _ _ w
          (λ t. queue_data-Grows base h bytes w r (ground arith) e)
          (λ t. error-Grows base (h ∷ (bytes ∷ [])) _ w refl refl e (omega arith))

    pub recv_packet_connected-Grows :
        (w : World S) → Grows (log w.link) (recv_packet_connected order link limit w) w
    unfolding recv_packet_connected
    recv_packet_connected-Grows w =
        let base = log w.link in
        dequeue-Grows base [] _ w (sym (append-nil base)) (omega arith) (λ h w1 e.
          checked-Grows base h _ w1 e (
            let w2 = record w1 {
              stream = record w1.stream {
                peer_buf_alloc = buf_alloc order h;
                peer_fwd_cnt = fwd_cnt order h;
              };
            } in
            Grows-from base _ w1 w2 refl refl (
              if-Grows base (op order h == op_shutdown) _ _ w2
                (λ t. ending-Grows base h _ w2 e (ground arith) (shutdown-Same w2))
                (λ f1.
                  if-Grows base (op order h == op_rst) _ _ w2
                    (λ t. ending-Grows base h _ w2 e (ground arith) (
                      Same-bind 1 0 (reset order link limit w2) _ w2 (reset-Same w2)
                        (λ u w3. (refl, refl, [], sym (append-nil (log w3.link)), omega arith))))
                    (λ f2.
                      if-Grows base (op order h == op_rw) _ _ w2
                        (λ r.
                          if-Grows base (ltb 0 (data_len order h)) _ (done tt) w2
                            (λ t.
                              dequeue-Grows base (h ∷ []) _ w2 e (omega arith)
                                (λ bytes w3 e3. data-Grows base h bytes w3 r e3))
                            (λ z.
                              control-Grows base h _ w2 e (ground arith)
                                (refl, refl, [], sym (append-nil (log w2.link)), omega arith)))
                        (λ f3.
                          if-Grows base (op order h == op_credit_update) _ _ w2
                            (λ t.
                              control-Grows base h _ w2 e (ground arith)
                                (refl, refl, [], sym (append-nil (log w2.link)), omega arith))
                            (λ f4.
                              if-Grows base (op order h == op_credit_request) _ _ w2
                                (λ t.
                                  control-Grows base h _ w2 e (ground arith)
                                    (send_credit_update-Same w2))
                                (λ f5. control-Grows base h _ w2 e (ground arith) (
                                  refl,
                                  refl,
                                  [],
                                  sym (append-nil (log w2.link)),
                                  omega arith,
                                )))))))))

    pub wait_for_data-Grows :
        (patience : ℕ) (w : World S)
        → Grows (log w.link) (wait_for_data order link limit patience w) w
    unfolding wait_for_data
    wait_for_data-Grows zero w =
        if-Grows (log w.link) (is_empty w.stream.data_queue) (λ w. (waiting, w)) (done tt) w
          (λ t. nothing-Grows waiting w) (λ t. nothing-Grows (ok tt) w)
    wait_for_data-Grows (suc patience) w =
        if-Grows (log w.link) (is_empty w.stream.data_queue) _ (done tt) w
          (λ t.
            Grows-bind (recv_packet_connected order link limit w) _ w
              (recv_packet_connected-Grows w) (λ u w1. wait_for_data-Grows patience w1))
          (λ t. nothing-Grows (ok tt) w)
