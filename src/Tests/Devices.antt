-- ===== src/Tests/Devices.antt =====
-- Vsock packets on a small buffer.
use mig_td.Base.{
  ℕ, ◌+◌, ◌≤◌, ◌≡◌, ◌↔◌, refl, Option, none, some, List, [], ◌∷◌, ◌++◌, length, replicate, to_le,
  from_le,
}
use mig_td.Devices.Vsock.Packet.{
  ByteOrder, get_field, check, type, op, data_len, ok, header_len, type_stream,
}
use mig_td.Devices.Vsock.Packet
use mig_td.Devices.Vsock.Stream.{
  send_vsock_pkt, peer_free_space, dequeue, recv, wait_for_data, recv_packet_connected, queue_data,
  new_checked, copy_out, free_space,
}
use mig_td.Devices.Vsock.Connection
use mig_td.Devices.Vsock.Connection.{Link, World, established}
use mig_td.Devices.Vsock.Stream.Send.{send, send_loop, wait_for_space, send_chunk, chunk_size}
use mig_td.Devices.Vsock.Stream.Sent.{Sent}
use mig_td.Devices.Vsock.Packet.Fields.{check_iff}

abbrev order : ByteOrder
order = record {
  read = λ w bs. from_le bs;
  write = λ w bs n. to_le w n;
  read_le = λ w bs h. refl;
  write_le = λ w bs n h k. refl;
}

-- A packet with the operation OP_RW and two bytes of data.
abbrev buffer : List ℕ
buffer = replicate 24 0 ++ (2 ∷ 0 ∷ 0 ∷ 0 ∷ 1 ∷ 0 ∷ 5 ∷ 0 ∷ replicate 12 0 ++ (7 ∷ 8 ∷ []))

check_iff_example : (check order buffer ≡ ok) ↔ (
    (header_len + data_len order buffer ≤ length buffer)
    × (type order buffer ≡ type_stream)
    × (1 ≤ op order buffer)
    × (op order buffer ≤ 7))
check_iff_example = check_iff order buffer

-- A transport with these buffers to come, which takes whatever is sent, and those that have come.
abbrev link : Link (List (List ℕ) × List (List ℕ))
link = record {
  enqueue = λ s packet_header bytes l. (some (length bytes), l);
  dequeue = λ s l. next_packet l.0 l.1;
}
  where
    next_packet : List (List ℕ) → List (List ℕ) → Option (List ℕ) × (List (List ℕ) × List (List ℕ))
    next_packet [] seen = (none, ([], seen))
    next_packet (p ∷ ps) seen = (some p, (ps, seen ++ (p ∷ [])))

abbrev seen : List (List ℕ) × List (List ℕ) → List (List ℕ)
seen l = l.1

-- An established stream; the packet above is to come, and its data.
abbrev world : World (List (List ℕ) × List (List ℕ))
world = record {
  stream = record {
    state = established;
    transport_context = 0;
    listen_backlog = 0;
    addr = record {
      local = record { cid = 33; port = 1234 };
      remote = record { cid = 2; port = 1235 };
    };
    data_queue = [];
    rx_cnt = 0;
    tx_cnt = 0;
    last_fwd_cnt = 0;
    peer_fwd_cnt = 0;
    peer_buf_alloc = 4096;
  };
  link = (buffer ∷ (7 ∷ 8 ∷ []) ∷ [], []);
  connections = [];
  bindings = [];
}

-- One byte is handed over, and the other stays.
recv_one : (recv order link 0x10000 3 1 world).0 ≡ Connection.ok (7 ∷ [])
unfolding recv wait_for_data recv_packet_connected queue_data dequeue new_checked copy_out
    Packet.check get_field free_space from_le
recv_one = refl

-- A transport that collects what is sent, with nothing to come.
abbrev collect : Link (List ℕ)
collect = record {
  enqueue = λ s packet_header bytes l. (some (length bytes), l ++ bytes);
  dequeue = λ s l. (none, l);
}

abbrev sending : World (List ℕ)
sending = record { stream = world.stream; link = []; connections = []; bindings = [] }

-- Three bytes go out as two packets.
send_three : (send order collect 2 3 (1 ∷ 2 ∷ 3 ∷ []) sending).1.link ≡ 1 ∷ 2 ∷ 3 ∷ []
unfolding send send_loop wait_for_space send_chunk send_vsock_pkt chunk_size peer_free_space
send_three = refl
