-- ===== src/Devices/Vsock/Packet/Fields.antt =====
-- The fields of a vsock packet, of src/devices/vsock/src/protocol.rs, do not overlap and hold what is
-- written to them, and what the check accepts.
use mig_td.Base.{ℕ, ◌+◌, All, ◌≤◌, ◌≡◌, ◌↔◌, ◌⊎◌, List, [], ◌∷◌, ◌++◌, arith, length, take, drop}
use mig_td.Devices.Vsock.Packet.{
  src_cid_field, dst_cid_field, src_port_field, dst_port_field, len_field, type_field, op_field,
  flags_field, buf_alloc_field, fwd_cnt_field, ByteOrder, Field, header_len, type_stream, check,
  type, op, data_len, ok,
}

-- The field lies in a buffer.
abbrev pub In : Field → List ℕ → Type 0
In f buf = f.start + f.width ≤ length buf

-- Two fields without a common byte.
abbrev pub Apart : Field → Field → Type 0
Apart f g = (f.start + f.width ≤ g.start) ⊎ (g.start + g.width ≤ f.start)

-- The fields of the header, in order.
abbrev pub header_fields : List Field
header_fields =
    src_cid_field ∷ dst_cid_field ∷ src_port_field ∷ dst_port_field ∷ len_field ∷ type_field
    ∷ op_field ∷ flags_field ∷ buf_alloc_field ∷ fwd_cnt_field ∷ []

abbrev pub Separate : List Field → Type 0
Separate [] = Unit {0}
Separate (f ∷ fs) = All (Apart f) fs × Separate fs

-- The fields of the header have no byte in common, and all lie in a buffer of the header's length.
pub header_fields-Separate :
    Separate header_fields × All (λ f. f.start + f.width ≤ header_len) header_fields
header_fields-Separate = ground arith

module _ (order : ByteOrder) where
  -- A buffer with `bytes` in the place of a field.
  abbrev replaced : Field → List ℕ → List ℕ → List ℕ
  replaced f bytes buf = take f.start buf ++ (bytes ++ drop (f.start + f.width) buf)

  -- The check accepts exactly the buffers that hold a header of the stream type with one of the seven operations,
  -- and behind it the number of bytes that the header states.
  pub check_iff :
      (buf : List ℕ)
      → (check order buf ≡ ok) ↔ (
          (header_len + data_len order buf ≤ length buf)
          × (type order buf ≡ type_stream)
          × (1 ≤ op order buf)
          × (op order buf ≤ 7))
  unfolding check
  check_iff buf = (λ e. (ground arith, ground arith, ground arith, ground arith), λ e. ground arith)
