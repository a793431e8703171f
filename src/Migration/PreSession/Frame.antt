-- ===== src/Migration/PreSession/Frame.antt =====
-- `PreSessionMessage` and `HelloPacketPayload` of src/migtd/src/migration/pre_session_data.rs.
-- Both are `repr(C)` without padding on x86-64, so their bytes are their fields in order,
-- little-endian.
use mig_td.Base.{
  ℕ, ◌≤◌, max, min, ◌≡◌, ◌↔◌, Option, none, some, List, [], ◌∷◌, ◌++◌, arith, ltb, if◌then◌else◌,
  length, take, drop, to_le, from_le, bytes_eq,
}

pub record PreSessionMessage : Type 0 where
  pub type : ℕ
  pub reserved : List ℕ
  pub length : ℕ

abbrev pub pre_session_data_type : ℕ
pre_session_data_type = 1

abbrev pub start_session_type : ℕ
start_session_type = 2

abbrev pub hello_packet_type : ℕ
hello_packet_type = 0xff

-- `PreSessionMessage::as_bytes`
unfoldable pub message_as_bytes : PreSessionMessage → List ℕ
message_as_bytes m = m.type ∷ (m.reserved ++ to_le 4 m.length)

abbrev head_or_zero : List ℕ → ℕ
head_or_zero [] = 0
head_or_zero (b ∷ bs) = b

-- `PreSessionMessage::read_from_bytes`
unfoldable pub message_read_from_bytes : List ℕ → Option PreSessionMessage
message_read_from_bytes bytes =
    if ltb (length bytes) 8
    then none
    else some (record {
      type = head_or_zero bytes;
      reserved = take 3 (drop 1 bytes);
      length = from_le (take 4 (drop 4 bytes));
    })

pub record HelloPacketPayload : Type 0 where
  pub magic_word : List ℕ
  pub lowest_supported_version : ℕ
  pub highest_supported_version : ℕ

abbrev pub hello_packet_payload_size : ℕ
hello_packet_payload_size = 8

abbrev pub hello_packet_magic_word : List ℕ
hello_packet_magic_word = b'M' ∷ b'G' ∷ b'T' ∷ b'D' ∷ []

abbrev pub lowest_version : ℕ
lowest_version = 0x0100

abbrev pub highest_version : ℕ
highest_version = 0x0100

-- `HelloPacketPayload::new`
abbrev pub hello_new : HelloPacketPayload
hello_new = record {
  magic_word = hello_packet_magic_word;
  lowest_supported_version = lowest_version;
  highest_supported_version = highest_version;
}

-- `HelloPacketPayload::as_bytes`
unfoldable pub hello_as_bytes : HelloPacketPayload → List ℕ
hello_as_bytes h =
    h.magic_word ++ (to_le 2 h.lowest_supported_version ++ to_le 2 h.highest_supported_version)

-- `HelloPacketPayload::read_from_bytes`
unfoldable pub hello_read_from_bytes : List ℕ → Option HelloPacketPayload
hello_read_from_bytes bytes =
    if ltb (length bytes) 8
    then none
    else if bytes_eq (take 4 bytes) hello_packet_magic_word
    then some (record {
      magic_word = take 4 bytes;
      lowest_supported_version = from_le (take 2 (drop 4 bytes));
      highest_supported_version = from_le (take 2 (drop 6 bytes));
    })
    else none

-- `HelloPacketPayload::negotiate_supported_version`
unfoldable pub negotiate_supported_version : HelloPacketPayload → Option ℕ
negotiate_supported_version h =
    let low = max lowest_version h.lowest_supported_version in
    let high = min highest_version h.highest_supported_version in
    if ltb high low then none else some high

-- A version is agreed exactly if both sides support it, and it is then the highest such version.
pub negotiate_iff :
    (h : HelloPacketPayload) (v : ℕ)
    → (negotiate_supported_version h ≡ some v) ↔ (
        (lowest_version ≤ v)
        × (v ≤ highest_version)
        × (h.lowest_supported_version ≤ v)
        × (v ≤ h.highest_supported_version)
        × ((u : ℕ) → u ≤ highest_version → u ≤ h.highest_supported_version → u ≤ v))
unfolding negotiate_supported_version
negotiate_iff h v = (
  λ e. (ground arith, ground arith, ground arith, ground arith, λ u a b. ground arith),
  λ e. ground (arith, e.4 highest_version, e.4 h.highest_supported_version),
)
