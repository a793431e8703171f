-- ===== src/Migration/KeyExchange.antt =====
-- `exchange_msk` and the functions that it calls, of src/migtd/src/migration/session.rs and
-- servtd_ext.rs, in the build with the features main, vmcall-raw and policy_v2 and without
-- spdm_attestation.
pub mod Log
pub mod Prepare
pub mod Writes
use mig_td.Base.{
  ℕ, zero, suc, ◌+◌, ◌^◌, ◌≡◌, Bool, true, false, not, ◌&&◌, ◌||◌, Option, none, some, List, [],
  ◌∷◌, ltb, ◌==◌, if◌then◌else◌, length,
}
use mig_td.Migration.Status.{
  MigrationResult, Result, ok, err, stuck, invalid_parameter, network_error, tdx_module_error,
  policy_unsatisfied_error,
}
use mig_td.Migration.Transport.{Async, return, fail, ensure, resume, ◌>>=◌, ◌>>◌}
use mig_td.Migration.Info.{MigtdMigrationInformation, init_td_info_if_present}
use mig_td.Migration.Version.{
  MigrationSessionKey, ExchangeInformation, exchange_information_size, exchange_as_bytes,
  exchange_from_bytes, validate, cal_mig_version,
}

abbrev pub tdcs_field_mig_dec_key : ℕ
tdcs_field_mig_dec_key = 0x9810_0003_0000_0010

abbrev pub tdcs_field_mig_enc_key : ℕ
tdcs_field_mig_enc_key = 0x9810_0003_0000_0018

abbrev pub tdcs_field_mig_version : ℕ
tdcs_field_mig_version = 0x9810_0001_0000_0020

abbrev pub gsm_field_min_export_version : ℕ
gsm_field_min_export_version = 0x2000000100000001

abbrev pub gsm_field_max_export_version : ℕ
gsm_field_max_export_version = 0x2000000100000002

abbrev pub gsm_field_min_import_version : ℕ
gsm_field_min_import_version = 0x2000000100000003

abbrev pub gsm_field_max_import_version : ℕ
gsm_field_max_import_version = 0x2000000100000004

abbrev pub tdcs_field_servtd_attr : ℕ
tdcs_field_servtd_attr = 0x1910000300000202

abbrev pub expected_servtd_attr : ℕ
expected_servtd_attr = 0

-- What the exchange calls and does not define, over a state `S` of the machine. The TDX module:
-- `servtd_rd` and `servtd_wr` take the binding handle, the field and the UUID (and the value), and
-- answer `none` for a `TdCallError`; `sys_rd` is the content of a global field. The rest are the
-- steps of the other parts of the program: the check of the initial TD info against the policy, the
-- transport, the exchange of `PreSession` under its timeout, and RA-TLS under its timeout, where the
-- flag says whether this end is the source, that is the TLS client.
pub record Machine (S : Type 0) : Type 0 where
  pub servtd_rd : ℕ → ℕ → List ℕ → S → Option ℕ × S
  pub servtd_wr : ℕ → ℕ → ℕ → List ℕ → S → Option (Unit {0}) × S
  pub sys_rd : ℕ → S → Option ℕ × S
  pub verify_init_migtd_data_policy_binding : List ℕ → S → Bool × S
  pub setup_transport : ℕ → Async S (Unit {0})
  pub pre_session_data_exchange : Async S (List ℕ)
  pub ratls_setup : Bool → List ℕ → Async S (Unit {0})
  pub ratls_write : List ℕ → Async S ℕ
  pub ratls_read : ℕ → Async S (List ℕ)
  pub shutdown_transport : ℕ → Async S (Unit {0})

-- `.map_err(…)?` on what a call of the TDX module answers.
abbrev pub tdx_ok : {S A : Type 0} → Option A × S → Result A × S
tdx_ok (none, s) = (err tdx_module_error, s)
tdx_ok (some a, s) = (ok a, s)

-- A pure result inside a function of the session.
abbrev pub lift : {S A : Type 0} → Result A → Async S A
lift r s = (r, s)

module _ {S : Type 0} (m : Machine S) where
  -- The rounds `idx..idx + n` of `read_msk`, and what they put into `msk.fields`.
  read_fields : ℕ → ℕ → MigtdMigrationInformation → Async S (List ℕ)
  read_fields zero idx info = return []
  read_fields (suc n) idx info = do
    content ← λ s.
        tdx_ok
          (m.servtd_rd info.binding_handle (tdcs_field_mig_enc_key + idx) info.target_td_uuid s)
    rest ← read_fields n (idx + 1) info
    return (content ∷ rest)

  read_msk : MigtdMigrationInformation → Async S MigrationSessionKey
  unfolding read_fields
  read_msk info = do fields ← read_fields 4 0 info; return (record { fields = fields })

  -- The rounds of `write_msk` from `idx` on.
  write_fields : ℕ → List ℕ → MigtdMigrationInformation → Async S (Unit {0})
  write_fields idx [] info = return tt
  write_fields idx (x ∷ xs) info = do
    λ s.
        tdx_ok
          (m.servtd_wr info.binding_handle (tdcs_field_mig_dec_key + idx) x info.target_td_uuid s)
    write_fields (idx + 1) xs info

  pub write_msk : MigtdMigrationInformation → MigrationSessionKey → Async S (Unit {0})
  unfolding write_fields
  write_msk info msk = write_fields 0 msk.fields info

  pub set_mig_version : MigtdMigrationInformation → ℕ → Async S (Unit {0})
  set_mig_version info mig_ver s =
      tdx_ok (m.servtd_wr info.binding_handle tdcs_field_mig_version mig_ver info.target_td_uuid s)

  -- `exchange_info`; the casts to `u16` come after the test that the versions fit.
  pub exchange_info : MigtdMigrationInformation → Bool → Async S ExchangeInformation
  unfolding read_msk
  exchange_info info is_src = do
    key ← read_msk info
    min_version ← λ s.
        tdx_ok (
          m.sys_rd (if is_src then gsm_field_min_export_version else gsm_field_min_import_version)
            s)
    max_version ← λ s.
        tdx_ok (
          m.sys_rd (if is_src then gsm_field_max_export_version else gsm_field_max_import_version)
            s)
    ensure (not (ltb 0xffff min_version || ltb 0xffff max_version)) invalid_parameter
    return (record {
      key = key;
      min_ver = min_version;
      max_ver = max_version;
      reserved = 0 ∷ 0 ∷ 0 ∷ 0 ∷ [];
    })

  -- `verify_servtd_attr` of src/migtd/src/migration/servtd_ext.rs
  pub verify_servtd_attr : ℕ → List ℕ → Async S (Unit {0})
  verify_servtd_attr binding_handle target_td_uuid = do
    actual_attr ← λ s. tdx_ok (m.servtd_rd binding_handle tdcs_field_servtd_attr target_td_uuid s)
    ensure (actual_attr == expected_servtd_attr) invalid_parameter

  -- `migration_src_exchange_msk` and `migration_dst_exchange_msk`, which differ in the end of the TLS
  -- session that they open. The number of bytes that the write took is not looked at.
  pub migration_exchange_msk :
      Bool → MigtdMigrationInformation → ExchangeInformation → List ℕ → Async S ExchangeInformation
  migration_exchange_msk is_src info exchange_information peer_data = do
    m.ratls_setup is_src peer_data
    written ← m.ratls_write (exchange_as_bytes exchange_information)
    bytes ← m.ratls_read exchange_information_size
    ensure (not (ltb (length bytes) exchange_information_size)) network_error
    let remote_information = exchange_from_bytes bytes
    lift (validate remote_information)
    m.shutdown_transport info.mig_request_id
    return remote_information

  -- `if let Some(init_td_info) = …`
  check_init : Option (List ℕ) → Async S (Unit {0})
  check_init none s = (ok tt, s)
  check_init (some init_td_info) s =
      let r = m.verify_init_migtd_data_policy_binding init_td_info s in
      (if r.0 then ok tt else err policy_unsatisfied_error, r.1)

  -- What `exchange_msk` does before it writes to the target TD: the agreed version and the peer's
  -- exchange information.
  pub prepare : MigtdMigrationInformation → Async S (ℕ × ExchangeInformation)
  unfolding check_init
  prepare info = do
    let is_src = info.migration_source == 1
    check_init (init_td_info_if_present info)
    m.setup_transport info.mig_request_id
    peer_data ← m.pre_session_data_exchange
    exchange_information ← exchange_info info is_src
    remote_information ← migration_exchange_msk is_src info exchange_information peer_data
    mig_ver ← lift (cal_mig_version is_src exchange_information remote_information)
    verify_servtd_attr info.binding_handle info.target_td_uuid
    return (mig_ver, remote_information)

  -- What it does then.
  commit : MigtdMigrationInformation → ℕ × ExchangeInformation → Async S (Unit {0})
  commit info (mig_ver, remote_information) = do
    set_mig_version info mig_ver
    write_msk info remote_information.key

  unfoldable pub exchange_msk : MigtdMigrationInformation → Async S (Unit {0})
  unfolding prepare commit
  exchange_msk info = do agreed ← prepare info; commit info agreed
