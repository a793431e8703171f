-- ===== src/Devices/Vsock/Stream/Send.antt =====
-- `send` of src/devices/vsock/src/stream.rs, in a build without overflow checks.
use mig_td.Base.{
  ℕ, zero, suc, ◌+◌, ◌%◌, ◌^◌, min, not, List, ◌==◌, if◌then◌else◌, length, is_empty, take, drop,
}
use mig_td.Devices.Vsock.Packet.{ByteOrder}
use mig_td.Devices.Vsock.Connection.{
  VsockStream, waiting, illegal, Link, Action, ◌>>=◌, ◌>>◌, done, fail, get, modify, is_established,
  op_rw,
}
use mig_td.Devices.Vsock.Stream.{packet_of, send_vsock_pkt, recv_packet_connected, peer_free_space}

-- The size of the next packet of the bytes that are left.
unfoldable pub chunk_size : ℕ → List ℕ → VsockStream → ℕ
chunk_size limit rest s = min (min (length rest) limit) (peer_free_space s)

module _ {S : Type 0} (order : ByteOrder) (link : Link S) (max_vsock_pkt_data_len : ℕ) where
  -- The inner loop, for at most `patience` packets.
  unfoldable pub wait_for_space : ℕ → Action S (Unit {0})
  wait_for_space zero = do s ← get; if peer_free_space s == 0 then (λ w. (waiting, w)) else done tt
  wait_for_space (suc patience) = do
    s ← get
    if peer_free_space s == 0
        then (do recv_packet_connected order link max_vsock_pkt_data_len; wait_for_space patience)
        else done tt

  unfoldable pub send_chunk : List ℕ → Action S ℕ
  send_chunk rest = do
    s ← get
    n ←
        send_vsock_pkt order link max_vsock_pkt_data_len
          (packet_of order link max_vsock_pkt_data_len s op_rw
            (chunk_size max_vsock_pkt_data_len rest s) 0 s.rx_cnt)
          (take (chunk_size max_vsock_pkt_data_len rest s) rest)
    modify (λ s. record s { tx_cnt = (s.tx_cnt + n) % 2 ^ 32 })
    done n

  -- The outer loop over the bytes that are left, for at most `rounds` packets.
  unfoldable pub send_loop : ℕ → ℕ → List ℕ → Action S (Unit {0})
  send_loop zero patience rest = if is_empty rest then done tt else (λ w. (waiting, w))
  send_loop (suc rounds) patience rest = if is_empty rest then done tt else (do
    wait_for_space patience
    n ← send_chunk rest
    send_loop rounds patience (drop n rest))

  unfoldable pub send : ℕ → List ℕ → Action S ℕ
  send patience buf = do
    s ← get
    if not (is_established s.state)
        then fail illegal
        else (do send_loop (length buf) patience buf; done (length buf))
