-- ===== src/Policy/Evaluate/Accepted.antt =====
-- What a policy accepts, and that the evaluation of a block of policies decides it.
use mig_td.Base.{◌≡◌, refl, ◌↔◌, Bool, true, false, Option, none, some, List, [], ◌∷◌, All, ap, ◌∙◌}
use mig_td.Policy.Fallible.{
  PolicyError, Fallible, ok, err, ◌>>=◌, ◌>>◌, ensure, unqualified_mig_td_info, svn_mismatch,
  tcb_evaluation, crl_evaluation,
}
use mig_td.Policy.Status.{tcb_status}
use mig_td.Policy.ServtdStatus.{servtd_tcb_status}
use mig_td.Policy.Property.{
  PolicyProperty, evaluate_integer, evaluate_string, evaluate_tcb_status,
  evaluate_servtd_tcb_status,
}
use mig_td.Policy.Evaluate.{
  PolicyEvaluationInfo, TcbPolicy, PlatformPolicy, CrlPolicy, GlobalPolicy, ServtdPolicy,
  PolicyTypes, global, servtd, judge, tcb_evaluate, platform_evaluate, crl_evaluate, when_some,
  global_evaluate, servtd_evaluate, evaluate_policy_type, evaluate_policy_block, parse_with, hex_of,
}

-- A property that the policy does not have is satisfied; one that it has, by a known value that
-- the property judges well.
pub data Satisfied {A : Type 0} (evaluate : PolicyProperty → A → Option A → Fallible Bool)
    (relative : Option A) : Option PolicyProperty → Option A → Type 0 where
  absent : (value : Option A) → Satisfied evaluate relative none value
  met :
      (p : PolicyProperty) (v : A)
      → evaluate p v relative ≡ ok true
      → Satisfied evaluate relative (some p) (some v)

-- The same for a part of a policy that may be missing.
abbrev pub IfPresent : {P : Type 0} → (P → Type 0) → Option P → Type 0
IfPresent Q none = Unit {0}
IfPresent Q (some p) = Q p

module _ (value relative : PolicyEvaluationInfo) where
  abbrev pub TcbAccepts : TcbPolicy → Type 0
  TcbAccepts p =
      Satisfied evaluate_integer relative.tcb_evaluation_number p.tcb_evaluation_data_number
        value.tcb_evaluation_number
      × (Satisfied evaluate_tcb_status (parse_with tcb_status relative.tcb_status)
            p.tcb_status_accepted (parse_with tcb_status value.tcb_status)
          × Satisfied evaluate_string relative.tcb_date p.tcb_date value.tcb_date)

  abbrev pub PlatformAccepts : PlatformPolicy → Type 0
  PlatformAccepts p = Satisfied evaluate_string (hex_of relative.fmspc) p.fmspc (hex_of value.fmspc)

  abbrev pub CrlAccepts : CrlPolicy → Type 0
  CrlAccepts p =
      Satisfied evaluate_integer relative.pck_crl_num p.pck_crl_num value.pck_crl_num
      × Satisfied evaluate_integer relative.root_ca_crl_num p.root_ca_crl_num value.root_ca_crl_num

  abbrev pub GlobalAccepts : GlobalPolicy → Type 0
  GlobalAccepts p =
      IfPresent TcbAccepts p.tcb
      × (IfPresent PlatformAccepts p.platform × IfPresent CrlAccepts p.crl)

  abbrev pub ServtdAccepts : ServtdPolicy → Type 0
  ServtdAccepts p =
      Satisfied evaluate_integer relative.migtd_isvsvn p.migtd_identity.isvsvn value.migtd_isvsvn
      × (Satisfied evaluate_string relative.migtd_tcb_date p.migtd_identity.tcb_date
            value.migtd_tcb_date
          × Satisfied evaluate_servtd_tcb_status
              (parse_with servtd_tcb_status relative.migtd_tcb_status)
              p.migtd_identity.tcb_status_accepted
              (parse_with servtd_tcb_status value.migtd_tcb_status))

  -- A global entry counts only when the caller does not skip these.
  abbrev pub Accepts : Bool → PolicyTypes → Type 0
  Accepts false (global p) = GlobalAccepts p
  Accepts true (global p) = Unit {0}
  Accepts skip_global (servtd p) = ServtdAccepts p

ensure_inv : (b : Bool) (e : PolicyError) → ensure b e ≡ ok tt → b ≡ true
ensure_inv true e h = refl
ensure_inv false e h = cc

-- A sequence succeeds exactly when both of its parts do.
both :
    {x y : Fallible (Unit {0})} {P Q : Type 0}
    → (x ≡ ok tt) ↔ P
    → (y ≡ ok tt) ↔ Q
    → ((x >> y) ≡ ok tt) ↔ (P × Q)
both {x = ok tt} p q = (λ h. (p.0 refl, q.0 h), λ h. q.1 h.1)
both {x = err e} p q = (λ h. absurd cc, λ h. absurd (let z = p.1 h.0 in cc))

module _ {A : Type 0} (evaluate : PolicyProperty → A → Option A → Fallible Bool) where
  judged :
      {r : Option A} (failed : PolicyError) (p : PolicyProperty) (v : A) (x : Fallible Bool)
      → evaluate p v r ≡ x
      → (x >>= λ b. ensure b failed) ≡ ok tt
      → Satisfied evaluate r (some p) (some v)
  judged failed p v (ok b) e h = met p v (e ∙ ap ok (ensure_inv b failed h))
  judged failed p v (err x) e h = absurd cc

  judge_sound :
      (missing failed : PolicyError) (p : Option PolicyProperty) (value relative : Option A)
      → judge evaluate missing failed p value relative ≡ ok tt
      → Satisfied evaluate relative p value
  unfolding judge
  judge_sound missing failed none value relative h = absent value
  judge_sound missing failed (some p) none relative h = absurd cc
  judge_sound missing failed (some p) (some v) relative h =
      judged failed p v (evaluate p v relative) refl h

  judge_complete :
      (missing failed : PolicyError) (p : Option PolicyProperty) (value relative : Option A)
      → Satisfied evaluate relative p value
      → judge evaluate missing failed p value relative ≡ ok tt
  unfolding judge
  judge_complete missing failed _ _ relative (absent value) = refl
  judge_complete missing failed _ _ relative (met p v e) = rw e refl

  judge_iff :
      (missing failed : PolicyError) (p : Option PolicyProperty) (value relative : Option A)
      → (judge evaluate missing failed p value relative ≡ ok tt)
        ↔ Satisfied evaluate relative p value
  judge_iff missing failed p value relative =
      (judge_sound missing failed p value relative, judge_complete missing failed p value relative)

when_some_iff :
    {P : Type 0} (f : P → PolicyEvaluationInfo → PolicyEvaluationInfo → Fallible (Unit {0}))
    (Q : P → Type 0) (o : Option P) (value relative : PolicyEvaluationInfo)
    → ((p : P) → (f p value relative ≡ ok tt) ↔ Q p)
    → (when_some f o value relative ≡ ok tt) ↔ IfPresent Q o
when_some_iff f Q none value relative h = (λ _. tt, λ _. refl)
when_some_iff f Q (some p) value relative h = h p

module _ (value relative : PolicyEvaluationInfo) where
  tcb_iff : (p : TcbPolicy) → (tcb_evaluate p value relative ≡ ok tt) ↔ TcbAccepts value relative p
  unfolding tcb_evaluate
  tcb_iff p =
      both
        (judge_iff evaluate_integer tcb_evaluation tcb_evaluation p.tcb_evaluation_data_number
          value.tcb_evaluation_number relative.tcb_evaluation_number)
        (both
          (judge_iff evaluate_tcb_status tcb_evaluation tcb_evaluation p.tcb_status_accepted
            (parse_with tcb_status value.tcb_status) (parse_with tcb_status relative.tcb_status))
          (judge_iff evaluate_string tcb_evaluation tcb_evaluation p.tcb_date value.tcb_date
            relative.tcb_date))

  platform_iff :
      (p : PlatformPolicy)
      → (platform_evaluate p value relative ≡ ok tt) ↔ PlatformAccepts value relative p
  unfolding platform_evaluate
  platform_iff p =
      judge_iff evaluate_string tcb_evaluation tcb_evaluation p.fmspc (hex_of value.fmspc)
        (hex_of relative.fmspc)

  crl_iff : (p : CrlPolicy) → (crl_evaluate p value relative ≡ ok tt) ↔ CrlAccepts value relative p
  unfolding crl_evaluate
  crl_iff p =
      both
        (judge_iff evaluate_integer crl_evaluation crl_evaluation p.pck_crl_num value.pck_crl_num
          relative.pck_crl_num)
        (judge_iff evaluate_integer crl_evaluation crl_evaluation p.root_ca_crl_num
          value.root_ca_crl_num relative.root_ca_crl_num)

  global_iff :
      (p : GlobalPolicy)
      → (global_evaluate p value relative ≡ ok tt) ↔ GlobalAccepts value relative p
  unfolding global_evaluate
  global_iff p =
      both (when_some_iff tcb_evaluate (TcbAccepts value relative) p.tcb value relative tcb_iff) (
        both
          (when_some_iff platform_evaluate (PlatformAccepts value relative) p.platform value
            relative platform_iff)
          (when_some_iff crl_evaluate (CrlAccepts value relative) p.crl value relative crl_iff))

  servtd_iff :
      (p : ServtdPolicy)
      → (servtd_evaluate p value relative ≡ ok tt) ↔ ServtdAccepts value relative p
  unfolding servtd_evaluate
  servtd_iff p =
      let q = p.migtd_identity in
      both
        (judge_iff evaluate_integer unqualified_mig_td_info svn_mismatch q.isvsvn value.migtd_isvsvn
          relative.migtd_isvsvn)
        (both
          (judge_iff evaluate_string unqualified_mig_td_info svn_mismatch q.tcb_date
            value.migtd_tcb_date relative.migtd_tcb_date)
          (judge_iff evaluate_servtd_tcb_status unqualified_mig_td_info svn_mismatch
            q.tcb_status_accepted (parse_with servtd_tcb_status value.migtd_tcb_status)
            (parse_with servtd_tcb_status relative.migtd_tcb_status)))

  type_iff :
      (p : PolicyTypes) (skip_global : Bool)
      → (evaluate_policy_type p value relative skip_global ≡ ok tt)
        ↔ Accepts value relative skip_global p
  unfolding evaluate_policy_type
  type_iff (global p) false = global_iff p
  type_iff (global p) true = (λ _. tt, λ _. refl)
  type_iff (servtd p) false = servtd_iff p
  type_iff (servtd p) true = servtd_iff p

  -- The evaluation of a block of policies succeeds exactly when every entry of the block accepts the
  -- value: every property of the entry and of its parts, that is there, is given a known value and holds of it.
  -- Global entries do not count when they are skipped.
  pub evaluate_policy_block_iff :
      (block : List PolicyTypes) (skip_global : Bool)
      → (evaluate_policy_block block value relative skip_global ≡ ok tt)
        ↔ All (Accepts value relative skip_global) block
  unfolding evaluate_policy_block
  evaluate_policy_block_iff [] skip_global = (λ _. tt, λ _. refl)
  evaluate_policy_block_iff (p ∷ ps) skip_global =
      both (type_iff p skip_global) (evaluate_policy_block_iff ps skip_global)
