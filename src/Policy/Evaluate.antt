-- ===== src/Policy/Evaluate.antt =====
-- The policies of src/policy/src/v2/policy.rs and their evaluation.
pub mod Accepted
use mig_td.Base.{
  ℕ, ◌≡◌, refl, Bool, true, false, not, ◌&&◌, ◌||◌, Option, none, some, List, [], ◌∷◌, ltb,
  if◌then◌else◌,
}
use mig_td.Policy.Fallible.{
  PolicyError, Fallible, ok, err, return, ◌>>=◌, ◌>>◌, ok_or, to_option, ensure,
  unqualified_mig_td_info, svn_mismatch, tcb_evaluation, crl_evaluation,
}
use mig_td.Policy.Text.{Text, bytes_to_hex_string}
use mig_td.Policy.Status.{TcbStatus, tcb_status}
use mig_td.Policy.ServtdStatus.{ServtdTcbStatus, servtd_tcb_status}
use mig_td.Policy.Property.{
  PolicyProperty, evaluate_integer, evaluate_string, evaluate_tcb_status,
  evaluate_servtd_tcb_status,
}

pub record PolicyEvaluationInfo : Type 0 where
  pub tee_tcb_svn : Option (List ℕ)
  pub tcb_date : Option Text
  pub tcb_status : Option Text
  pub tcb_evaluation_number : Option ℕ
  pub fmspc : Option (List ℕ)
  pub migtd_isvsvn : Option ℕ
  pub migtd_tcb_status : Option Text
  pub migtd_tcb_date : Option Text
  pub pck_crl_num : Option ℕ
  pub root_ca_crl_num : Option ℕ

pub record TcbPolicy : Type 0 where
  pub tcb_date : Option PolicyProperty
  pub tcb_status_accepted : Option PolicyProperty
  pub tcb_evaluation_data_number : Option PolicyProperty

pub record PlatformPolicy : Type 0 where
  pub fmspc : Option PolicyProperty

pub record CrlPolicy : Type 0 where
  pub pck_crl_num : Option PolicyProperty
  pub root_ca_crl_num : Option PolicyProperty

pub record GlobalPolicy : Type 0 where
  pub tcb : Option TcbPolicy
  pub platform : Option PlatformPolicy
  pub crl : Option CrlPolicy

pub record MigTdIdentityPolicy : Type 0 where
  pub isvsvn : Option PolicyProperty
  pub tcb_date : Option PolicyProperty
  pub tcb_status_accepted : Option PolicyProperty

pub record ServtdPolicy : Type 0 where
  pub migtd_identity : MigTdIdentityPolicy

pub data PolicyTypes : Type 0 where
  global : GlobalPolicy → PolicyTypes
  servtd : ServtdPolicy → PolicyTypes

-- `PolicyData`, without the collaterals, which its evaluation does not read.
pub record PolicyData : Type 0 where
  pub id : Text
  pub version : Text
  pub policy_svn : ℕ
  pub policy : Option (List PolicyTypes)
  pub forward_policy : Option (List PolicyTypes)
  pub backward_policy : Option (List PolicyTypes)

-- One property of a policy: when it is there, the value must be known (else `missing`) and satisfy
-- the property (else `failed`).
unfoldable pub judge :
    {A : Type 0}
    → (PolicyProperty → A → Option A → Fallible Bool)
    → PolicyError
    → PolicyError
    → Option PolicyProperty
    → Option A
    → Option A
    → Fallible (Unit {0})
judge evaluate missing failed none value relative = ok tt
judge evaluate missing failed (some property) value relative = do
  v ← ok_or value missing
  accepted ← evaluate property v relative
  ensure accepted failed

-- `.as_deref().and_then(|s| s.try_into().ok())`
abbrev parse_with : {A : Type 0} → (Text → Fallible A) → Option Text → Option A
parse_with parse none = none
parse_with parse (some s) = to_option (parse s)

abbrev hex_of : Option (List ℕ) → Option Text
hex_of none = none
hex_of (some bytes) = some (bytes_to_hex_string bytes)

-- `TcbPolicy::evaluate`
unfoldable pub tcb_evaluate :
    TcbPolicy → PolicyEvaluationInfo → PolicyEvaluationInfo → Fallible (Unit {0})
unfolding judge
tcb_evaluate p value relative = do
  judge evaluate_integer tcb_evaluation tcb_evaluation p.tcb_evaluation_data_number
      value.tcb_evaluation_number relative.tcb_evaluation_number
  judge evaluate_tcb_status tcb_evaluation tcb_evaluation p.tcb_status_accepted
      (parse_with tcb_status value.tcb_status) (parse_with tcb_status relative.tcb_status)
  judge evaluate_string tcb_evaluation tcb_evaluation p.tcb_date value.tcb_date relative.tcb_date

-- `PlatformPolicy::evaluate`
unfoldable pub platform_evaluate :
    PlatformPolicy → PolicyEvaluationInfo → PolicyEvaluationInfo → Fallible (Unit {0})
unfolding judge
platform_evaluate p value relative =
    judge evaluate_string tcb_evaluation tcb_evaluation p.fmspc (hex_of value.fmspc)
      (hex_of relative.fmspc)

-- `CrlPolicy::evaluate`
unfoldable pub crl_evaluate :
    CrlPolicy → PolicyEvaluationInfo → PolicyEvaluationInfo → Fallible (Unit {0})
unfolding judge
crl_evaluate p value relative = do
  judge evaluate_integer crl_evaluation crl_evaluation p.pck_crl_num value.pck_crl_num
      relative.pck_crl_num
  judge evaluate_integer crl_evaluation crl_evaluation p.root_ca_crl_num value.root_ca_crl_num
      relative.root_ca_crl_num

-- `if let Some(policy) = … { policy.evaluate(value, relative_reference)?; }`
abbrev pub when_some :
    {P : Type 0}
    → (P → PolicyEvaluationInfo → PolicyEvaluationInfo → Fallible (Unit {0}))
    → Option P
    → PolicyEvaluationInfo
    → PolicyEvaluationInfo
    → Fallible (Unit {0})
when_some evaluate none value relative = ok tt
when_some evaluate (some p) value relative = evaluate p value relative

-- `GlobalPolicy::evaluate`
unfoldable pub global_evaluate :
    GlobalPolicy → PolicyEvaluationInfo → PolicyEvaluationInfo → Fallible (Unit {0})
global_evaluate p value relative = do
  when_some tcb_evaluate p.tcb value relative
  when_some platform_evaluate p.platform value relative
  when_some crl_evaluate p.crl value relative

-- `ServtdPolicy::evaluate`; a `u16` is a `u32` of the same value.
unfoldable pub servtd_evaluate :
    ServtdPolicy → PolicyEvaluationInfo → PolicyEvaluationInfo → Fallible (Unit {0})
unfolding judge
servtd_evaluate p value relative = do
  judge evaluate_integer unqualified_mig_td_info svn_mismatch p.migtd_identity.isvsvn
      value.migtd_isvsvn relative.migtd_isvsvn
  judge evaluate_string unqualified_mig_td_info svn_mismatch p.migtd_identity.tcb_date
      value.migtd_tcb_date relative.migtd_tcb_date
  judge evaluate_servtd_tcb_status unqualified_mig_td_info svn_mismatch
      p.migtd_identity.tcb_status_accepted (parse_with servtd_tcb_status value.migtd_tcb_status)
      (parse_with servtd_tcb_status relative.migtd_tcb_status)

-- One round of the loop of `evaluate_policy_block`.
unfoldable pub evaluate_policy_type :
    PolicyTypes → PolicyEvaluationInfo → PolicyEvaluationInfo → Bool → Fallible (Unit {0})
evaluate_policy_type (global p) value relative skip_global =
    if not skip_global then global_evaluate p value relative else ok tt
evaluate_policy_type (servtd p) value relative skip_global = servtd_evaluate p value relative

unfoldable pub evaluate_policy_block :
    List PolicyTypes → PolicyEvaluationInfo → PolicyEvaluationInfo → Bool → Fallible (Unit {0})
unfolding evaluate_policy_type
evaluate_policy_block [] value relative skip_global = ok tt
evaluate_policy_block (p ∷ ps) value relative skip_global = do
  evaluate_policy_type p value relative skip_global
  evaluate_policy_block ps value relative skip_global

-- `match self.….as_ref() { Some(policy) => …, None => Ok(()) }`
abbrev evaluate_policy :
    Option (List PolicyTypes)
    → PolicyEvaluationInfo
    → PolicyEvaluationInfo
    → Bool
    → Fallible (Unit {0})
evaluate_policy none value relative skip_global = ok tt
evaluate_policy (some block) value relative skip_global =
    evaluate_policy_block block value relative skip_global

unfoldable pub evaluate_policy_common :
    PolicyData → PolicyEvaluationInfo → PolicyEvaluationInfo → Bool → Fallible (Unit {0})
evaluate_policy_common p value relative skip_global =
    evaluate_policy p.policy value relative skip_global

unfoldable pub evaluate_policy_forward :
    PolicyData → PolicyEvaluationInfo → PolicyEvaluationInfo → Bool → Fallible (Unit {0})
evaluate_policy_forward p value relative skip_global =
    evaluate_policy p.forward_policy value relative skip_global

unfoldable pub evaluate_policy_backward :
    PolicyData → PolicyEvaluationInfo → PolicyEvaluationInfo → Bool → Fallible (Unit {0})
evaluate_policy_backward p value relative skip_global =
    evaluate_policy p.backward_policy value relative skip_global

unfoldable pub evaluate_against_policy : PolicyData → PolicyData → Fallible (Unit {0})
evaluate_against_policy p other =
    if ltb p.policy_svn other.policy_svn then err svn_mismatch else ok tt
