-- ===== src/Devices/Vsock/Stream.antt =====
-- `VsockStream` of src/devices/vsock/src/stream.rs, over the transport
-- under it. `send` stands in Stream/Send.
pub mod Grows
pub mod Incoming
pub mod Keeps
pub mod Queue
pub mod Receive
pub mod Send
pub mod Sent
use mig_td.Base.{
  ℕ, zero, suc, ◌+◌, ◌-◌, ◌%◌, ◌^◌, Bool, true, false, not, ◌&&◌, ◌||◌, Option, none, some, List,
  [], ◌∷◌, ◌++◌, ltb, leb, ◌==◌, if◌then◌else◌, length, take, drop, replicate, is_empty,
}
use mig_td.Devices.Vsock.Packet
use mig_td.Devices.Vsock.Packet.{
  ByteOrder, VsockError, header_len, type_stream, data_len, type, op, src_cid, dst_cid, src_port,
  dst_port, buf_alloc, fwd_cnt, set_src_cid, set_dst_cid, set_src_port, set_dst_port, set_type,
  set_op, set_data_len, set_flags, set_fwd_cnt, set_buf_alloc,
}
use mig_td.Devices.Vsock.Connection.{
  vsock_buf_alloc, op_request, op_response, op_rst, op_shutdown, op_rw, op_credit_update,
  op_credit_request, closed, listening, request_send, established, closing, VsockAddr, cid_u32,
  VsockStream, illegal, refused, waiting, Link, Action, ◌>>=◌, ◌>>◌, done, fail, get, modify,
  set_state, answered, checked, add_to_connection_map, remove_from_connection_map,
  add_to_binding_map, remove_from_binding_map, is_established, is_listening, is_closed, is_closing,
}

unfoldable pub listen : {S : Type 0} → ℕ → Action S (Unit {0})
listen backlog = do
  s ← get
  if is_closed s.state
      then (do
        modify (λ s. record s { listen_backlog = backlog; state = listening })
        add_to_binding_map)
      else fail illegal

unfoldable pub peer_free_space : VsockStream → ℕ
peer_free_space s = s.peer_buf_alloc - (s.tx_cnt - s.peer_fwd_cnt)

unfoldable pub free_space : VsockStream → ℕ
free_space s = vsock_buf_alloc - (s.rx_cnt - s.last_fwd_cnt)

-- `recv`'s loop over the packets of the queue: the bytes that fit a buffer of `n` bytes, and what is
-- left of the queue.
unfoldable pub copy_out : ℕ → List (List ℕ) → List ℕ × List (List ℕ)
copy_out n [] = ([], [])
copy_out n (head ∷ queue) =
    let rest = copy_out (n - length head) queue in
    if n == 0
    then ([], head ∷ queue)
    else if leb (length head) n
    then (head ++ rest.0, rest.1)
    else (take n head, drop n head ∷ queue)

module _ {S : Type 0} (order : ByteOrder) (link : Link S) (max_vsock_pkt_data_len : ℕ) where
  -- The header of a packet with `len` bytes of data.
  unfoldable pub packet_of : VsockStream → ℕ → ℕ → ℕ → ℕ → List ℕ
  packet_of s operation len flags fwd = set_buf_alloc order vsock_buf_alloc (
      set_fwd_cnt order fwd (
        set_flags order flags (
          set_data_len order len (
            set_op order operation (
              set_type order type_stream (
                set_dst_port order s.addr.remote.port (
                  set_src_port order s.addr.local.port (
                    set_dst_cid order (cid_u32 s.addr.remote)
                      (set_src_cid order (cid_u32 s.addr.local) (replicate header_len 0))))))))))

  -- `vsock_transport_dequeue(...).await?`
  unfoldable pub dequeue : Action S (List ℕ)
  dequeue w = answered (link.dequeue w.stream w.link) w

  -- `Packet::new_checked(...)?`
  unfoldable pub new_checked : List ℕ → Action S (List ℕ)
  new_checked bytes w = checked (Packet.check order bytes) bytes w

  unfoldable pub send_vsock_pkt : List ℕ → List ℕ → Action S ℕ
  send_vsock_pkt packet_header bytes = do
    modify (λ s. record s { last_fwd_cnt = s.rx_cnt })
    (λ w. answered (link.enqueue w.stream packet_header bytes w.link) w)

  unfoldable pub send_credit_update : Action S (Unit {0})
  send_credit_update = do
    s ← get
    n ← send_vsock_pkt (packet_of s op_credit_update 0 0 s.rx_cnt) []
    done tt

  unfoldable pub reset : Action S (Unit {0})
  reset = do
    s ← get
    if not (is_closing s.state) then fail illegal else (do
      recv ← dequeue
      received ← new_checked recv
      if op order received == op_rst
          then (do
            n ← send_vsock_pkt (packet_of s op_rst 0 0 s.rx_cnt) []
            set_state closed
            remove_from_connection_map)
          else set_state closing)

  unfoldable pub shutdown : Action S (Unit {0})
  shutdown = do
    s ← get
    if is_listening s.state
        then (do set_state closed; remove_from_binding_map)
        else if is_established s.state
        then (do
          n ← send_vsock_pkt (packet_of s op_shutdown 0 3 s.rx_cnt) []
          set_state closing
          reset)
        else fail illegal

  -- Bytes that have come in are counted, acknowledged where space is short, and queued.
  unfoldable pub queue_data : ℕ → List ℕ → Action S (Unit {0})
  queue_data len bytes = do
    modify (λ s. record s { rx_cnt = (s.rx_cnt + len) % 2 ^ 32 })
    s ← get
    (if ltb (free_space s) max_vsock_pkt_data_len then send_credit_update else done tt)
    modify (λ s. record s { data_queue = s.data_queue ++ (take len bytes ∷ []) })

  unfoldable pub recv_packet_connected : Action S (Unit {0})
  recv_packet_connected = do
    recv ← dequeue
    received ← new_checked recv
    modify (λ s. record s {
      peer_buf_alloc = buf_alloc order received;
      peer_fwd_cnt = fwd_cnt order received;
    })
    if op order received == op_shutdown
        then shutdown
        else if op order received == op_rst
        then (do reset; fail illegal)
        else if op order received == op_rw
        then (if ltb 0 (data_len order received)
            then (do
              bytes ← dequeue
              if leb (data_len order received) (length bytes)
                  then queue_data (data_len order received) bytes
                  else fail illegal)
            else done tt)
        else if op order received == op_credit_update
        then modify (λ s. record s {
          peer_fwd_cnt = fwd_cnt order received;
          peer_buf_alloc = buf_alloc order received;
        })
        else if op order received == op_credit_request
        then send_credit_update
        else fail illegal

  -- `recv` into a buffer of `n` bytes, which waits for at most `patience` packets.
  unfoldable pub wait_for_data : ℕ → Action S (Unit {0})
  wait_for_data zero = do s ← get; if is_empty s.data_queue then (λ w. (waiting, w)) else done tt
  wait_for_data (suc patience) = do
    s ← get
    if is_empty s.data_queue then (do recv_packet_connected; wait_for_data patience) else done tt

  unfoldable pub recv : ℕ → ℕ → Action S (List ℕ)
  recv patience n = do
    s ← get
    if not (is_established s.state) then fail illegal else (do
      wait_for_data patience
      ready ← get
      modify (λ s. record s { data_queue = (copy_out n ready.data_queue).1 })
      done (copy_out n ready.data_queue).0)

  unfoldable pub connect : VsockAddr → Action S (Unit {0})
  connect remote = do
    s ← get
    if not (is_closed s.state) then fail illegal else (do
      modify (λ s. record s { addr = record s.addr { remote = remote } })
      called ← get
      add_to_connection_map called.addr
      n ← send_vsock_pkt (packet_of called op_request 0 0 0) []
      set_state request_send
      bytes ← dequeue
      reply ← new_checked bytes
      if (type order reply == type_stream)
            && ((dst_cid order reply == cid_u32 called.addr.local)
                && ((dst_port order reply == called.addr.local.port)
                    && ((op order reply == op_response)
                        && ((src_port order reply == called.addr.remote.port)
                            && (src_cid order reply == cid_u32 called.addr.remote)))))
          then modify (λ s. record s {
            state = established;
            peer_buf_alloc = buf_alloc order reply;
            peer_fwd_cnt = fwd_cnt order reply;
          })
          else fail refused)
