-- ===== src/Migration/Status.antt =====
-- `MigrationResult` (src/migtd/src/migration/mod.rs) and the results of fallible steps.
use mig_td.Base.{ℕ, ◌≡◌, refl, ◌↔◌, Option, none, some, arith, ◌==◌, if◌then◌else◌}

pub data MigrationResult : Type 0 where
  success : MigrationResult
  invalid_parameter : MigrationResult
  unsupported : MigrationResult
  out_of_resource : MigrationResult
  tdx_module_error : MigrationResult
  network_error : MigrationResult
  secure_session_error : MigrationResult
  mutual_attestation_error : MigrationResult
  policy_unsatisfied_error : MigrationResult
  invalid_policy_error : MigrationResult
  vmm_canceled : MigrationResult
  vmm_internal_error : MigrationResult
  unsupported_operation_error : MigrationResult
  initialization_error : MigrationResult

-- `status as u8`
unfoldable pub code : MigrationResult → ℕ
code success = 0
code invalid_parameter = 1
code unsupported = 2
code out_of_resource = 3
code tdx_module_error = 4
code network_error = 5
code secure_session_error = 6
code mutual_attestation_error = 7
code policy_unsatisfied_error = 8
code invalid_policy_error = 9
code vmm_canceled = 10
code vmm_internal_error = 11
code unsupported_operation_error = 12
code initialization_error = 0xff

-- `MigrationResult::try_from(value: u8)`
unfoldable pub try_from : ℕ → Option MigrationResult
try_from value =
    if value == 0
    then some success
    else if value == 1
    then some invalid_parameter
    else if value == 2
    then some unsupported
    else if value == 3
    then some out_of_resource
    else if value == 4
    then some tdx_module_error
    else if value == 5
    then some network_error
    else if value == 6
    then some secure_session_error
    else if value == 7
    then some mutual_attestation_error
    else if value == 8
    then some policy_unsatisfied_error
    else if value == 9
    then some invalid_policy_error
    else if value == 10
    then some vmm_canceled
    else if value == 11
    then some vmm_internal_error
    else if value == 12
    then some unsupported_operation_error
    else if value == 0xff
    then some initialization_error
    else none

-- Rust's `Result<A, MigrationResult>`. `stuck` is no Rust value: a loop of the model ran out of
-- fuel.
pub data Result {ℓ} (A : Type ℓ) : Type ℓ where
  ok : A → Result A
  err : MigrationResult → Result A
  stuck : Result A

try_from-code : (r : MigrationResult) → try_from (code r) ≡ some r
unfolding try_from code
try_from-code success = refl
try_from-code _ = refl

code_of_try_from : (v : ℕ) (r : MigrationResult) → try_from v ≡ some r → v ≡ code r
unfolding try_from code
code_of_try_from v r h = ground arith

-- The status byte and the enum stand for one another: `try_from` accepts exactly the bytes that
-- `status as u8` writes, and gives back the status that was written.
pub try_from_iff : (v : ℕ) (r : MigrationResult) → (try_from v ≡ some r) ↔ (v ≡ code r)
try_from_iff v r = (code_of_try_from v r, λ e. rw e (try_from-code r))
