-- ===== src/Migration/Info.antt =====
-- The payloads of the host's requests and their decoding: src/migtd/src/migration/mod.rs, in the
-- build with the features vmcall-raw and policy_v2.
pub mod Decode
use mig_td.Base.{
  ℕ, ◌+◌, ◌-◌, ◌^◌, ◌%◌, ◌<◌, ◌≤◌, ◌≡◌, Bool, true, false, not, ◌&&◌, ◌||◌, Option, none, some,
  List, [], ◌∷◌, ◌++◌, ltb, ◌==◌, if◌then◌else◌, length, take, drop, replicate, from_le, bytes_eq,
  arith,
}
use mig_td.Migration.Status.{MigrationResult, Result, ok, err, stuck, invalid_parameter}

-- `size_of::<TdInfo>()`, checked at compile time.
abbrev pub td_info_size : ℕ
td_info_size = 512

pub record MigtdMigrationInformation : Type 0 where
  pub mig_request_id : ℕ
  pub migration_source : ℕ
  pub has_init_data : ℕ
  pub reserved : List ℕ
  pub target_td_uuid : List ℕ
  pub binding_handle : ℕ
  pub init_td_info : List ℕ

-- `ReportInfo` and `MigtdDataInfo` have these fields.
pub record MigtdDataInfo : Type 0 where
  pub mig_request_id : ℕ
  pub reportdata : List ℕ

pub record EnableLogAreaInfo : Type 0 where
  pub mig_request_id : ℕ
  pub log_max_level : ℕ
  pub reserved : List ℕ

-- `pread(0)` of the scroll crate, as its derive macro gives it for a `repr(C)` struct of `size`
-- bytes: it answers exactly if the source holds that many bytes, and looks at no other byte. All
-- the structs here begin with their request id, a little-endian u64.
pub record Pread (A : Type 0) (id : A → ℕ) (size : ℕ) : Type 0 where
  pub read : List ℕ → Option A
  pub short : (bs : List ℕ) → length bs < size → read bs ≡ none
  pub enough : (bs : List ℕ) → size ≤ length bs → (a : A) × (read bs ≡ some a)
  pub front : (bs : List ℕ) → read bs ≡ read (take size bs)
  pub first : (bs : List ℕ) (a : A) → read bs ≡ some a → id a ≡ from_le (take 8 bs)

-- 56 bytes of header and the TDINFO_STRUCT.
abbrev pub mig_info_header_size : ℕ
mig_info_header_size = 56

abbrev pub mig_info_size : ℕ
mig_info_size = mig_info_header_size + td_info_size

abbrev pub InfoPread : Type 0
InfoPread = Pread MigtdMigrationInformation (λ i. i.mig_request_id) mig_info_size

abbrev pub DataPread : Type 0
DataPread = Pread MigtdDataInfo (λ i. i.mig_request_id) 72

abbrev pub LogPread : Type 0
LogPread = Pread EnableLogAreaInfo (λ i. i.mig_request_id) 16

-- `MigtdMigrationInformation::init_td_info_if_present`
unfoldable pub init_td_info_if_present : MigtdMigrationInformation → Option (List ℕ)
init_td_info_if_present i = if i.has_init_data == 1 then some i.init_td_info else none

abbrev pub or_invalid {ℓ} : {A : Type ℓ} → Option A → Result A
or_invalid none = err invalid_parameter
or_invalid (some a) = ok a

-- `==` on `bool`.
abbrev bool_eq : Bool → Bool → Bool
bool_eq true b = b
bool_eq false b = not b

-- The checks of `MigtdMigrationInformation::read_from_bytes` on what was read.
abbrev check_info : ℕ → MigtdMigrationInformation → Result MigtdMigrationInformation
check_info data_length parsed =
    if not (bytes_eq parsed.reserved (replicate 6 0))
    then err invalid_parameter
    else if ltb 1 parsed.has_init_data
    then err invalid_parameter
    else if not (bool_eq (parsed.has_init_data == 1) (data_length == mig_info_size))
    then err invalid_parameter
    else ok parsed

abbrev check_read : ℕ → Option MigtdMigrationInformation → Result MigtdMigrationInformation
check_read data_length none = err invalid_parameter
check_read data_length (some parsed) = check_info data_length parsed

-- `MigtdMigrationInformation::read_from_bytes`; `payload.len() as u32` keeps 32 bits, and the slice
-- of the short form is in range where it is taken.
unfoldable pub info_read_from_bytes : InfoPread → ℕ → List ℕ → Result MigtdMigrationInformation
info_read_from_bytes pread data_length payload =
    if not (data_length == mig_info_header_size) && not (data_length == mig_info_size)
    then err invalid_parameter
    else if ltb (length payload % 2 ^ 32) data_length
    then err invalid_parameter
    else check_read data_length (
        if data_length == mig_info_size
        then pread.read payload
        else pread.read (take mig_info_header_size payload ++ replicate td_info_size 0))

-- `MigtdDataInfo::read_from_bytes` of the macro `impl_read_from_bytes_with_optional`; the u64 is
-- read by scroll too, here through `u64_pread`.
unfoldable pub data_read_from_bytes :
    DataPread → Pread ℕ (λ i. i) 8 → ℕ → List ℕ → Result MigtdDataInfo
data_read_from_bytes pread u64_pread data_length payload =
    if not (data_length == 8) && not (data_length == 72)
    then err invalid_parameter
    else if data_length == 72
    then or_invalid (pread.read payload)
    else elim (u64_pread.read payload) [
      | none ↦ err invalid_parameter
      | some id ↦ ok (record { mig_request_id = id; reportdata = replicate 64 0 })
    ]

-- `reserved.iter().any(|&b| b != 0)`
unfoldable pub any_nonzero : List ℕ → Bool
any_nonzero [] = false
any_nonzero (b ∷ bs) = not (b == 0) || any_nonzero bs

-- `EnableLogAreaInfo::read_from_bytes`
unfoldable pub log_read_from_bytes : LogPread → ℕ → List ℕ → Result EnableLogAreaInfo
log_read_from_bytes pread data_length payload =
    if not (data_length == 16) then err invalid_parameter else elim (pread.read payload) [
      | none ↦ err invalid_parameter
      | some info ↦ if any_nonzero info.reserved then err invalid_parameter else ok info
    ]
