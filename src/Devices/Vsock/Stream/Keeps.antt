-- ===== src/Devices/Vsock/Stream/Keeps.antt =====
-- What the steps of src/devices/vsock/src/stream.rs other than `send` hand to the transport: no data.
use mig_td.Base.{
  ℕ, ◌+◌, ◌%◌, ◌^◌, ◌≡◌, ◌≤◌, refl, ◌∙◌, Bool, true, false, not, Option, none, some, List, [], ◌++◌,
  ltb, leb, ◌==◌, if◌then◌else◌, length, append-nil, arith,
}
use mig_td.Devices.Vsock.Packet
use mig_td.Devices.Vsock.Packet.{ByteOrder, op, data_len, buf_alloc, fwd_cnt}
use mig_td.Devices.Vsock.Stream.{
  dequeue, new_checked, packet_of, send_vsock_pkt, send_credit_update, reset, shutdown, queue_data,
  recv_packet_connected, free_space,
}
use mig_td.Devices.Vsock.Connection.{
  VsockStream, Answer, ok, err, waiting, Link, World, Action, continue, done, fail, illegal,
  set_state, closing, checked, answered, is_closing, is_listening, is_established,
  remove_from_connection_map, remove_from_binding_map, op_credit_update, op_shutdown, op_rst, op_rw,
  op_credit_request,
}

-- How the transport takes these bytes, where `sent` reads off what it has taken since its start.
pub data Enqueued {S : Type 0} (sent : S → List ℕ) (bytes : List ℕ) (l : S)
    : Option ℕ × S → Type 0 where
  taken : (l' : S) → sent l' ≡ sent l ++ bytes → Enqueued sent bytes l (some (length bytes), l')
  refused : (l' : S) → sent l' ≡ sent l → Enqueued sent bytes l (none, l')

-- A transport takes all the bytes of a packet of at most `limit` bytes, or none of them.
pub record Delivers {S : Type 0} (link : Link S) (limit : ℕ) (sent : S → List ℕ) : Type 0 where
  pub enqueued :
      (s : VsockStream) (h bytes : List ℕ) (l : S)
      → length bytes ≤ limit
      → Enqueued sent bytes l (link.enqueue s h bytes l)
  pub dequeued : (s : VsockStream) (l : S) → sent (link.dequeue s l).1 ≡ sent l

module _ {S : Type 0} (sent : S → List ℕ) where
  -- The step ends, and has handed over nothing.
  abbrev pub KeepsLink : {A : Type 0} → Answer A × World S → S → Type 0
  KeepsLink (ok a, w) l = sent w.link ≡ sent l
  KeepsLink (err e, w) l = sent w.link ≡ sent l
  KeepsLink (waiting, w) l = ⊥

  abbrev pub Keeps : {A : Type 0} → Answer A × World S → World S → Type 0
  Keeps o w = KeepsLink o w.link

  Keeps-later :
      {A : Type 0} (o : Answer A × World S) (w w' : World S)
      → sent w'.link ≡ sent w.link
      → Keeps o w'
      → Keeps o w
  Keeps-later (ok a, w2) w w' h k = k ∙ h
  Keeps-later (err e, w2) w w' h k = k ∙ h
  Keeps-later (waiting, w2) w w' h k = absurd k

  Keeps-bind :
      {A B : Type 0} (o : Answer A × World S) (f : A → Action S B) (w : World S)
      → Keeps o w
      → ((a : A) (w' : World S) → Keeps (f a w') w')
      → Keeps (continue o f) w
  Keeps-bind (ok a, w') f w h k = Keeps-later (f a w') w w' h (k a w')
  Keeps-bind (err e, w') f w h k = h
  Keeps-bind (waiting, w') f w h k = absurd h

  if-Keeps :
      {A : Type 0} (c : Bool) (m k : Action S A) (w : World S)
      → Keeps (m w) w
      → Keeps (k w) w
      → Keeps ((if c then m else k) w) w
  if-Keeps true m k w h i = h
  if-Keeps false m k w h i = i

  answered-Keeps :
      {A : Type 0} (r : Option A × S) (w : World S)
      → sent r.1 ≡ sent w.link
      → Keeps (answered r w) w
  answered-Keeps (none, l) w h = h
  answered-Keeps (some a, l) w h = h

  checked-Keeps : (c : Packet.Checked) (bytes : List ℕ) (w : World S) → Keeps (checked c bytes w) w
  checked-Keeps Packet.ok bytes w = refl
  checked-Keeps (Packet.err e) bytes w = refl

  no_bytes : (l : S) (r : Option ℕ × S) → Enqueued sent [] l r → sent r.1 ≡ sent l
  no_bytes l r (taken l' h) = h ∙ append-nil (sent l)
  no_bytes l r (refused l' h) = h

  module _ (order : ByteOrder) (link : Link S) (limit : ℕ)
      (delivers : Delivers link limit sent) where
    dequeue-Keeps : (w : World S) → Keeps (dequeue order link limit w) w
    unfolding dequeue
    dequeue-Keeps w =
        answered-Keeps (link.dequeue w.stream w.link) w (delivers.dequeued w.stream w.link)

    new_checked-Keeps :
        (bytes : List ℕ) (w : World S) → Keeps (new_checked order link limit bytes w) w
    unfolding new_checked
    new_checked-Keeps bytes w = checked-Keeps (Packet.check order bytes) bytes w

    send-Keeps : (h : List ℕ) (w : World S) → Keeps (send_vsock_pkt order link limit h [] w) w
    unfolding send_vsock_pkt
    send-Keeps h w =
        answered-Keeps _ _ (no_bytes w.link _ (delivers.enqueued _ h [] w.link (omega arith)))

    send_credit_update-Keeps : (w : World S) → Keeps (send_credit_update order link limit w) w
    unfolding send_credit_update
    send_credit_update-Keeps w =
        Keeps-bind
          (send_vsock_pkt order link limit
            (packet_of order link limit w.stream op_credit_update 0 0 w.stream.rx_cnt) [] w)
          _ w (send-Keeps _ w) (λ n w'. refl)

    reset-Keeps : (w : World S) → Keeps (reset order link limit w) w
    unfolding reset remove_from_connection_map
    reset-Keeps w = if-Keeps (not (is_closing w.stream.state)) (fail illegal) _ w refl (
        Keeps-bind (dequeue order link limit w) _ w (dequeue-Keeps w) (λ bytes w1.
          Keeps-bind (new_checked order link limit bytes w1) _ w1 (new_checked-Keeps bytes w1)
            (λ packet w2.
              if-Keeps (op order packet == op_rst) _ (set_state closing) w2
                (Keeps-bind
                  (send_vsock_pkt order link limit
                    (packet_of order link limit w.stream op_rst 0 0 w.stream.rx_cnt) [] w2)
                  _ w2 (send-Keeps _ w2) (λ n w3. refl))
                refl)))

    shutdown-Keeps : (w : World S) → Keeps (shutdown order link limit w) w
    unfolding shutdown remove_from_binding_map
    shutdown-Keeps w = if-Keeps (is_listening w.stream.state) _ _ w refl (
        if-Keeps (is_established w.stream.state) _ (fail illegal) w
          (Keeps-bind
            (send_vsock_pkt order link limit
              (packet_of order link limit w.stream op_shutdown 0 3 w.stream.rx_cnt) [] w)
            _ w (send-Keeps _ w)
            (λ n w1. reset-Keeps (record w1 { stream = record w1.stream { state = closing } })))
          refl)

    queue_data-Keeps :
        (len : ℕ) (bytes : List ℕ) (w : World S) → Keeps (queue_data order link limit len bytes w) w
    unfolding queue_data
    queue_data-Keeps len bytes w =
        let w1 = record w {
          stream = record w.stream { rx_cnt = (w.stream.rx_cnt + len) % 2 ^ 32 };
        } in
        Keeps-bind
          ((if ltb (free_space w1.stream) limit
              then send_credit_update order link limit
              else done tt)
            w1)
          _ w
          (if-Keeps (ltb (free_space w1.stream) limit) (send_credit_update order link limit)
            (done tt) w1 (send_credit_update-Keeps w1) refl)
          (λ u w'. refl)

    pub recv_packet_connected-Keeps :
        (w : World S) → Keeps (recv_packet_connected order link limit w) w
    unfolding recv_packet_connected
    recv_packet_connected-Keeps w =
        Keeps-bind (dequeue order link limit w) _ w (dequeue-Keeps w) (λ bytes w1.
          Keeps-bind (new_checked order link limit bytes w1) _ w1 (new_checked-Keeps bytes w1)
            (λ packet w2.
              let w3 = record w2 {
                stream = record w2.stream {
                  peer_buf_alloc = buf_alloc order packet;
                  peer_fwd_cnt = fwd_cnt order packet;
                };
              } in
              if-Keeps (op order packet == op_shutdown) _ _ w3 (shutdown-Keeps w3) (
                if-Keeps (op order packet == op_rst) _ _ w3
                  (Keeps-bind (reset order link limit w3) _ w3 (reset-Keeps w3) (λ u w4. refl))
                  (if-Keeps (op order packet == op_rw) _ _ w3
                    (if-Keeps (ltb 0 (data_len order packet)) _ (done tt) w3
                      (Keeps-bind (dequeue order link limit w3) _ w3 (dequeue-Keeps w3) (λ bytes w4.
                        if-Keeps (leb (data_len order packet) (length bytes)) _ _ w4
                          (queue_data-Keeps (data_len order packet) bytes w4) refl))
                      refl)
                    (if-Keeps (op order packet == op_credit_update) _ _ w3 refl (
                      if-Keeps (op order packet == op_credit_request) _ _ w3
                        (send_credit_update-Keeps w3) refl))))))
