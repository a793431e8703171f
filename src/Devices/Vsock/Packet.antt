-- ===== src/Devices/Vsock/Packet.antt =====
-- The packets of src/devices/vsock/src/protocol.rs. A packet is its buffer; the accessors are given
-- a buffer that holds a header, as their callers see to: they panic on a shorter one.
pub mod Fields
use mig_td.Base.{
  ℕ, ◌+◌, ◌-◌, ◌^◌, ◌<◌, ◌≤◌, ◌≡◌, Bool, true, false, not, ◌||◌, List, [], ◌∷◌, ◌++◌, ltb, ◌==◌,
  if◌then◌else◌, length, take, drop, to_le, from_le,
}

-- `LittleEndian` of the byteorder crate: `read w` and `write w` are `read_u…` and `write_u…` of `w` bytes, on a
-- slice of this length.
pub record ByteOrder : Type 0 where
  pub read : ℕ → List ℕ → ℕ
  pub write : ℕ → List ℕ → ℕ → List ℕ
  pub read_le : (w : ℕ) (bs : List ℕ) → length bs ≡ w → read w bs ≡ from_le bs
  pub write_le :
      (w : ℕ) (bs : List ℕ) (n : ℕ) → length bs ≡ w → n < 256 ^ w → write w bs n ≡ to_le w n

-- `field::Field`: where a field starts, and how many bytes it has.
pub record Field : Type 0 where
  pub start : ℕ
  pub width : ℕ

abbrev pub src_cid_field : Field
src_cid_field = record { start = 0; width = 8 }

abbrev pub dst_cid_field : Field
dst_cid_field = record { start = 8; width = 8 }

abbrev pub src_port_field : Field
src_port_field = record { start = 16; width = 4 }

abbrev pub dst_port_field : Field
dst_port_field = record { start = 20; width = 4 }

abbrev pub len_field : Field
len_field = record { start = 24; width = 4 }

abbrev pub type_field : Field
type_field = record { start = 28; width = 2 }

abbrev pub op_field : Field
op_field = record { start = 30; width = 2 }

abbrev pub flags_field : Field
flags_field = record { start = 32; width = 4 }

abbrev pub buf_alloc_field : Field
buf_alloc_field = record { start = 36; width = 4 }

abbrev pub fwd_cnt_field : Field
fwd_cnt_field = record { start = 40; width = 4 }

abbrev pub type_stream : ℕ
type_stream = 1

abbrev pub header_len : ℕ
header_len = 44

-- The errors of the check.
pub data VsockError : Type 0 where
  truncated : VsockError
  malformed : VsockError

pub data Checked : Type 0 where
  ok : Checked
  err : VsockError → Checked

module _ (order : ByteOrder) where
  -- `LittleEndian::read_u…(&buf[field])`
  unfoldable pub get_field : Field → List ℕ → ℕ
  get_field f buf = order.read f.width (take f.width (drop f.start buf))

  -- `LittleEndian::write_u…(&mut buf[field], n)`
  unfoldable pub set_field : Field → ℕ → List ℕ → List ℕ
  set_field f n buf =
      take f.start buf
      ++ (order.write f.width (take f.width (drop f.start buf)) n ++ drop (f.start + f.width) buf)

  abbrev pub src_cid : List ℕ → ℕ
  src_cid buf = get_field src_cid_field buf

  abbrev pub dst_cid : List ℕ → ℕ
  dst_cid buf = get_field dst_cid_field buf

  abbrev pub src_port : List ℕ → ℕ
  src_port buf = get_field src_port_field buf

  abbrev pub dst_port : List ℕ → ℕ
  dst_port buf = get_field dst_port_field buf

  abbrev pub data_len : List ℕ → ℕ
  data_len buf = get_field len_field buf

  abbrev pub type : List ℕ → ℕ
  type buf = get_field type_field buf

  abbrev pub op : List ℕ → ℕ
  op buf = get_field op_field buf

  abbrev pub flags : List ℕ → ℕ
  flags buf = get_field flags_field buf

  abbrev pub buf_alloc : List ℕ → ℕ
  buf_alloc buf = get_field buf_alloc_field buf

  abbrev pub fwd_cnt : List ℕ → ℕ
  fwd_cnt buf = get_field fwd_cnt_field buf

  abbrev pub set_src_cid : ℕ → List ℕ → List ℕ
  set_src_cid n buf = set_field src_cid_field n buf

  abbrev pub set_dst_cid : ℕ → List ℕ → List ℕ
  set_dst_cid n buf = set_field dst_cid_field n buf

  abbrev pub set_src_port : ℕ → List ℕ → List ℕ
  set_src_port n buf = set_field src_port_field n buf

  abbrev pub set_dst_port : ℕ → List ℕ → List ℕ
  set_dst_port n buf = set_field dst_port_field n buf

  abbrev pub set_data_len : ℕ → List ℕ → List ℕ
  set_data_len n buf = set_field len_field n buf

  abbrev pub set_type : ℕ → List ℕ → List ℕ
  set_type n buf = set_field type_field n buf

  abbrev pub set_op : ℕ → List ℕ → List ℕ
  set_op n buf = set_field op_field n buf

  abbrev pub set_flags : ℕ → List ℕ → List ℕ
  set_flags n buf = set_field flags_field n buf

  abbrev pub set_buf_alloc : ℕ → List ℕ → List ℕ
  set_buf_alloc n buf = set_field buf_alloc_field n buf

  abbrev pub set_fwd_cnt : ℕ → List ℕ → List ℕ
  set_fwd_cnt n buf = set_field fwd_cnt_field n buf

  -- `Packet::check`; a 64-bit `usize` holds the sum.
  unfoldable pub check : List ℕ → Checked
  check buf =
      if ltb (length buf) header_len
      then err truncated
      else if not (type buf == type_stream)
      then err malformed
      else if (op buf == 0) || ltb 7 (op buf)
      then err malformed
      else if ltb (length buf) (header_len + data_len buf)
      then err truncated
      else ok

  -- `Packet::payload`
  unfoldable pub payload : List ℕ → List ℕ
  payload buf = drop header_len buf
