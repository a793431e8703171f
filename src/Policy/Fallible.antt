-- ===== src/Policy/Fallible.antt =====
-- `PolicyError` of src/policy/src/lib.rs and `Result<_, PolicyError>`.
use mig_td.Base.{Bool, true, false, Option, none, some}

-- The errors that the functions modelled here return.
pub data PolicyError : Type 0 where
  invalid_parameter : PolicyError
  invalid_policy : PolicyError
  unqualified_mig_td_info : PolicyError
  signature_verification_failed : PolicyError
  invalid_operation : PolicyError
  invalid_reference : PolicyError
  invalid_servtd_identity : PolicyError
  invalid_servtd_tcb_mapping : PolicyError
  svn_mismatch : PolicyError
  tcb_evaluation : PolicyError
  crl_evaluation : PolicyError

pub data Fallible {ℓ} (A : Type ℓ) : Type ℓ where
  ok : A → Fallible A
  err : PolicyError → Fallible A

abbrev pub return : {A : Type 0} → A → Fallible A
return a = ok a

infixl 5 ◌>>=◌ ◌>>◌
abbrev pub ◌>>=◌ : {A B : Type 0} → Fallible A → (A → Fallible B) → Fallible B
ok a >>= f = f a
err e >>= f = err e

abbrev pub ◌>>◌ : {B : Type 0} → Fallible (Unit {0}) → Fallible B → Fallible B
ok a >> k = k
err e >> k = err e

-- `.ok_or(e)`
abbrev pub ok_or : {A : Type 0} → Option A → PolicyError → Fallible A
ok_or none e = err e
ok_or (some a) e = ok a

-- `.ok()`
abbrev pub to_option : {A : Type 0} → Fallible A → Option A
to_option (ok a) = some a
to_option (err e) = none

-- `if !test { return Err(e); }`
abbrev pub ensure : Bool → PolicyError → Fallible (Unit {0})
ensure true e = ok tt
ensure false e = err e
