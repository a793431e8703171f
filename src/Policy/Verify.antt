-- ===== src/Policy/Verify.antt =====
-- The signatures of a policy: `RawPolicyData::verify` of src/policy/src/v2/policy.rs, and
-- `verify_signature` of src/policy/src/v2/servtd_collateral.rs.
pub mod Signed
use mig_td.Base.{
  ℕ, ◌≡◌, Bool, true, false, not, ◌&&◌, Option, none, some, List, [], ◌∷◌, leb, ltb, ◌==◌,
  if◌then◌else◌, is_empty, bytes_eq,
}
use mig_td.Policy.Fallible.{
  PolicyError, Fallible, ok, err, return, ◌>>=◌, ◌>>◌, ok_or, ensure, invalid_parameter,
  invalid_policy, signature_verification_failed, invalid_servtd_identity,
  invalid_servtd_tcb_mapping,
}
use mig_td.Policy.Text.{Text, text, hex_string_to_bytes}
use mig_td.Policy.Evaluate.{PolicyData}
use mig_td.Policy.Measurements.{SvnMapping}

-- `TcbLevel`, with the field of its `Tcb`.
pub record TcbLevel : Type 0 where
  pub isvsvn : ℕ
  pub tcb_date : Text
  pub tcb_status : Text

pub record TdIdentity : Type 0 where
  pub id : Text
  pub version : ℕ
  pub issue_date : Text
  pub next_update : Text
  pub tcb_evaluation_number : ℕ
  pub xfam : Text
  pub attributes : Text
  pub mr_config_id : Text
  pub mr_owner : Text
  pub mr_owner_config : Text
  pub mrsigner : Text
  pub isv_prod_id : ℕ
  pub tcb_levels : List TcbLevel

pub record TdTcbMapping : Type 0 where
  pub id : Text
  pub version : ℕ
  pub issue_date : Text
  pub next_update : Text
  pub mr_signer : Text
  pub isv_prod_id : ℕ
  pub svn_mappings : List SvnMapping

-- `RawPolicyData`, `RawServtdIdentity` and `RawServtdTcbMapping`: JSON text that stays as it was
-- received, and the signature over it.
pub record Raw : Type 0 where
  pub value : Text
  pub signature : Text

pub record ServtdCollateral : Type 0 where
  pub major_version : ℕ
  pub minor_version : ℕ
  pub servtd_identity_issuer_chain : Text
  pub servtd_identity : Raw
  pub servtd_tcb_mapping_issuer_chain : Text
  pub servtd_tcb_mapping : Raw

-- `PolicyData` with its `servtd_collateral`.
pub record PolicyDocument : Type 0 where
  pub body : PolicyData
  pub servtd_collateral : ServtdCollateral

pub record VerifiedPolicy : Type 0 where
  pub policy_data : PolicyDocument
  pub servtd_identity : TdIdentity
  pub servtd_identity_issuer_chain : Text
  pub servtd_tcb_mapping : TdTcbMapping
  pub servtd_tcb_mapping_issuer_chain : Text
  pub policy_issuer_chain : Text

-- `serde_json::from_str` at the three types, and `verify_cert_chain_and_signature` of the crypto
-- crate: chain, data, signature, and whether it returns without an error.
pub record External : Type 0 where
  pub parse_policy : Text → Option PolicyDocument
  pub parse_identity : Text → Option TdIdentity
  pub parse_tcb_mapping : Text → Option TdTcbMapping
  pub verify_cert_chain_and_signature : Text → Text → List ℕ → Bool

-- The ranges of the bytes that must follow a first byte of a character in UTF-8.
unfoldable pub follow : ℕ → Option (List (ℕ × ℕ))
follow b =
    if leb b 0x7f
    then some []
    else if leb 0xc2 b && leb b 0xdf
    then some ((0x80, 0xbf) ∷ [])
    else if b == 0xe0
    then some ((0xa0, 0xbf) ∷ (0x80, 0xbf) ∷ [])
    else if b == 0xed
    then some ((0x80, 0x9f) ∷ (0x80, 0xbf) ∷ [])
    else if leb 0xe1 b && leb b 0xef
    then some ((0x80, 0xbf) ∷ (0x80, 0xbf) ∷ [])
    else if b == 0xf0
    then some ((0x90, 0xbf) ∷ (0x80, 0xbf) ∷ (0x80, 0xbf) ∷ [])
    else if leb 0xf1 b && leb b 0xf3
    then some ((0x80, 0xbf) ∷ (0x80, 0xbf) ∷ (0x80, 0xbf) ∷ [])
    else if b == 0xf4
    then some ((0x80, 0x8f) ∷ (0x80, 0xbf) ∷ (0x80, 0xbf) ∷ [])
    else none

-- The bytes are UTF-8, after those that the ranges stand for.
unfoldable pub utf8_after : List (ℕ × ℕ) → List ℕ → Bool
unfolding follow
utf8_after [] [] = true
utf8_after ((lo, hi) ∷ ranges) [] = false
utf8_after [] (b ∷ bs) = elim (follow b) [ none ↦ false | some ranges ↦ utf8_after ranges bs ]
utf8_after ((lo, hi) ∷ ranges) (b ∷ bs) =
    let rest = utf8_after ranges bs in (leb lo b && leb b hi) && rest

-- `core::str::from_utf8` keeps the bytes.
unfoldable pub from_utf8 : List ℕ → Option Text
unfolding utf8_after
from_utf8 bytes = if utf8_after [] bytes then some bytes else none

-- `PolicyData::validate`
unfoldable pub validate_policy : PolicyData → Bool
validate_policy body = not (is_empty body.id) && bytes_eq body.version (text "2.0")

module _ (external : External) where
  open external use {
    parse_policy, parse_identity, parse_tcb_mapping, verify_cert_chain_and_signature,
  }

  -- The signature of a raw value under a chain, and then its content: the body that
  -- `verify_policy_data_signature` and the two `verify_signature` share.
  unfoldable pub verify_raw :
      {A : Type 0} → (Text → Option A) → PolicyError → Raw → Text → Fallible A
  verify_raw parse invalid raw issuer_chain = do
    signature ← hex_string_to_bytes raw.signature
    ensure (verify_cert_chain_and_signature issuer_chain raw.value signature)
        signature_verification_failed
    ok_or (parse raw.value) invalid

  -- `RawServtdIdentity::verify_signature`
  unfoldable pub verify_identity : Raw → Text → Fallible TdIdentity
  unfolding verify_raw
  verify_identity raw issuer_chain =
      verify_raw parse_identity invalid_servtd_identity raw issuer_chain

  -- `RawServtdTcbMapping::verify_signature`
  unfoldable pub verify_tcb_mapping : Raw → Text → Fallible TdTcbMapping
  unfolding verify_raw
  verify_tcb_mapping raw issuer_chain =
      verify_raw parse_tcb_mapping invalid_servtd_tcb_mapping raw issuer_chain

  -- `RawPolicyData::verify_policy_data_signature`
  unfoldable pub verify_policy_data_signature : Raw → Text → Fallible PolicyDocument
  unfolding verify_raw
  verify_policy_data_signature raw issuer_chain =
      verify_raw parse_policy invalid_policy raw issuer_chain

  -- `RawPolicyData::verify`
  unfoldable pub verify : Raw → List ℕ → Fallible VerifiedPolicy
  verify raw issuer_chain = do
    policy_issuer_chain ← ok_or (from_utf8 issuer_chain) invalid_policy
    policy_data ← verify_policy_data_signature raw issuer_chain
    let collateral = policy_data.servtd_collateral
    identity ← verify_identity collateral.servtd_identity collateral.servtd_identity_issuer_chain
    tcb_mapping ←
        verify_tcb_mapping collateral.servtd_tcb_mapping collateral.servtd_tcb_mapping_issuer_chain
    ensure (validate_policy policy_data.body) invalid_parameter
    return (record {
      policy_data = policy_data;
      servtd_identity = identity;
      servtd_identity_issuer_chain = collateral.servtd_identity_issuer_chain;
      servtd_tcb_mapping = tcb_mapping;
      servtd_tcb_mapping_issuer_chain = collateral.servtd_tcb_mapping_issuer_chain;
      policy_issuer_chain = policy_issuer_chain;
    })

-- `TdIdentity::get_tcb_level_by_svn`
find_level : List TcbLevel → ℕ → Option TcbLevel
find_level [] svn = none
find_level (level ∷ levels) svn =
    let rest = find_level levels svn in if level.isvsvn == svn then some level else rest

unfoldable pub get_tcb_level_by_svn : TdIdentity → ℕ → Option TcbLevel
unfolding find_level
get_tcb_level_by_svn identity svn = find_level identity.tcb_levels svn
