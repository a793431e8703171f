-- ===== src/Devices/Vsock/Connection.antt =====
-- The state of a `VsockStream` of src/devices/vsock/src/stream.rs, the maps of streams and the transport below,
-- with the actions on them. Async functions are functions of this state to a result and a state.
use mig_td.Base.{
  ℕ, ◌%◌, ◌^◌, Bool, true, false, ◌&&◌, Option, none, some, List, [], ◌∷◌, ◌==◌, if◌then◌else◌,
}
use mig_td.Devices.Vsock.Packet
use mig_td.Devices.Vsock.Packet.{
  ByteOrder, VsockError, header_len, type_stream, data_len, type, op, src_cid, dst_cid, src_port,
  dst_port, buf_alloc, fwd_cnt, set_src_cid, set_dst_cid, set_src_port, set_dst_port, set_type,
  set_op, set_data_len, set_flags, set_fwd_cnt, set_buf_alloc,
}

abbrev pub vsock_buf_alloc : ℕ
vsock_buf_alloc = 0x40000

abbrev pub op_request : ℕ
op_request = 1

abbrev pub op_response : ℕ
op_response = 2

abbrev pub op_rst : ℕ
op_rst = 3

abbrev pub op_shutdown : ℕ
op_shutdown = 4

abbrev pub op_rw : ℕ
op_rw = 5

abbrev pub op_credit_update : ℕ
op_credit_update = 6

abbrev pub op_credit_request : ℕ
op_credit_request = 7

pub data State : Type 0 where
  closed : State
  listening : State
  request_send : State
  established : State
  closing : State

pub record VsockAddr : Type 0 where
  pub cid : ℕ
  pub port : ℕ

-- `VsockAddr::cid`
unfoldable pub cid_u32 : VsockAddr → ℕ
cid_u32 a = a.cid % 2 ^ 32

pub record VsockAddrPair : Type 0 where
  pub local : VsockAddr
  pub remote : VsockAddr

pub record VsockStream : Type 0 where
  pub state : State
  pub transport_context : ℕ
  pub listen_backlog : ℕ
  pub addr : VsockAddrPair
  pub data_queue : List (List ℕ)
  pub rx_cnt : ℕ
  pub tx_cnt : ℕ
  pub last_fwd_cnt : ℕ
  pub peer_fwd_cnt : ℕ
  pub peer_buf_alloc : ℕ

-- The errors of a stream; `bad_packet` is that of a packet's check, `transport` one of the transport.
pub data StreamError : Type 0 where
  bad_packet : VsockError → StreamError
  transport : StreamError
  illegal : StreamError
  refused : StreamError

-- A `Result`; `waiting` stands for a loop that has waited for more packets than the model lets it.
pub data Answer (A : Type 0) : Type 0 where
  ok : A → Answer A
  err : StreamError → Answer A
  waiting : Answer A

-- The transport's part: `enqueue` answers how many bytes it took, `dequeue` a packet; `none` is an
-- error.
pub record Link (S : Type 0) : Type 0 where
  pub enqueue : VsockStream → List ℕ → List ℕ → S → Option ℕ × S
  pub dequeue : VsockStream → S → Option (List ℕ) × S

-- The stream, the transport, and the keys of CONNECTION_PKT_QUEUES and BINDING_PKT_QUEUES, whose
-- queues belong to the transport.
pub record World (S : Type 0) : Type 0 where
  pub stream : VsockStream
  pub link : S
  pub connections : List VsockAddrPair
  pub bindings : List VsockAddr

abbrev pub Action : Type 0 → Type 0 → Type 0
Action S A = World S → Answer A × World S

abbrev pub continue : {S A B : Type 0} → Answer A × World S → (A → Action S B) → Answer B × World S
continue (ok a, w) f = f a w
continue (err e, w) f = (err e, w)
continue (waiting, w) f = (waiting, w)

infixl 5 ◌>>=◌ ◌>>◌
abbrev pub ◌>>=◌ : {S A B : Type 0} → Action S A → (A → Action S B) → Action S B
(m >>= f) w = continue (m w) f

abbrev pub ◌>>◌ : {S B : Type 0} → Action S (Unit {0}) → Action S B → Action S B
(m >> k) w = continue (m w) (λ u. k)

abbrev pub done : {S A : Type 0} → A → Action S A
done a w = (ok a, w)

abbrev pub fail : {S A : Type 0} → StreamError → Action S A
fail e w = (err e, w)

-- The stream as it is, and a change of it.
abbrev pub get : {S : Type 0} → Action S VsockStream
get w = (ok w.stream, w)

abbrev pub modify : {S : Type 0} → (VsockStream → VsockStream) → Action S (Unit {0})
modify f w = (ok tt, record w { stream = f w.stream })

abbrev pub set_state : {S : Type 0} → State → Action S (Unit {0})
set_state state = modify (λ s. record s { state = state })

-- The answer of a call of the transport.
abbrev pub answered : {S A : Type 0} → Option A × S → Action S A
answered (none, l) w = (err transport, record w { link = l })
answered (some a, l) w = (ok a, record w { link = l })

abbrev pub checked : {S : Type 0} → Packet.Checked → List ℕ → Action S (List ℕ)
checked Packet.ok bytes w = (ok bytes, w)
checked (Packet.err e) bytes w = (err (bad_packet e), w)

-- `==` on addresses, and BTreeMap's `insert` and `remove` on keys.
abbrev pub addr_eq : VsockAddr → VsockAddr → Bool
addr_eq a b = (a.cid == b.cid) && (a.port == b.port)

abbrev pub pair_eq : VsockAddrPair → VsockAddrPair → Bool
pair_eq a b = addr_eq a.local b.local && addr_eq a.remote b.remote

abbrev pub remove_key : {A : Type 0} → (A → A → Bool) → A → List A → List A
remove_key eq k [] = []
remove_key eq k (x ∷ xs) = let rest = remove_key eq k xs in if eq x k then rest else x ∷ rest

unfoldable pub add_to_connection_map : {S : Type 0} → VsockAddrPair → Action S (Unit {0})
add_to_connection_map addr w =
    (ok tt, record w { connections = addr ∷ remove_key pair_eq addr w.connections })

unfoldable pub remove_from_connection_map : {S : Type 0} → Action S (Unit {0})
remove_from_connection_map w =
    (ok tt, record w { connections = remove_key pair_eq w.stream.addr w.connections })

unfoldable pub add_to_binding_map : {S : Type 0} → Action S (Unit {0})
add_to_binding_map w =
    let local = w.stream.addr.local in
    (ok tt, record w { bindings = local ∷ remove_key addr_eq local w.bindings })

unfoldable pub remove_from_binding_map : {S : Type 0} → Action S (Unit {0})
remove_from_binding_map w =
    (ok tt, record w { bindings = remove_key addr_eq w.stream.addr.local w.bindings })

abbrev pub is_established : State → Bool
is_established established = true
is_established _ = false

abbrev pub is_listening : State → Bool
is_listening listening = true
is_listening _ = false

abbrev pub is_closed : State → Bool
is_closed closed = true
is_closed _ = false

abbrev pub is_closing : State → Bool
is_closing closing = true
is_closing _ = false
