-- ===== src/Policy/Status/Names.antt =====
-- The names of the TCB statuses.
use mig_td.Base.{
  ◌≡◌, refl, sym, ◌↔◌, ◌⊎◌, inl, inr, Bool-cases, arith, if◌then◌else◌, bytes_eq, bytes_eq_iff,
}
use mig_td.Policy.Fallible.{Fallible, ok}
use mig_td.Policy.Text.{Text}
use mig_td.Policy.Status.{
  TcbStatus, up_to_date, sw_hardening_needed, configuration_needed,
  configuration_and_sw_hardening_needed, out_of_date, out_of_date_configuration_needed, revoked,
  tcb_status, as_str,
}

-- What one test of a chain says when the chain answers `s`.
test_inv :
    {A : Type 0} (t name : Text) (a s : A) (rest : Fallible A)
    → (if bytes_eq t name then ok a else rest) ≡ ok s
    → ((t ≡ name) × (a ≡ s)) ⊎ (rest ≡ ok s)
test_inv t name a s rest h = elim (Bool-cases (bytes_eq t name)) [
  | inl e ↦ inl ((bytes_eq_iff t name).0 e, ground arith)
  | inr e ↦ inr (ground arith)
]

tcb_status-as_str : (s : TcbStatus) → tcb_status (as_str s) ≡ ok s
unfolding tcb_status as_str bytes_eq
tcb_status-as_str up_to_date = refl
tcb_status-as_str sw_hardening_needed = refl
tcb_status-as_str configuration_needed = refl
tcb_status-as_str configuration_and_sw_hardening_needed = refl
tcb_status-as_str out_of_date = refl
tcb_status-as_str out_of_date_configuration_needed = refl
tcb_status-as_str revoked = refl

-- The literals of the chain, and the statuses that they stand for, in order.
named :
    {t : Text} {s : TcbStatus} (a : TcbStatus) (rest : Fallible TcbStatus)
    → (rest ≡ ok s → t ≡ as_str s)
    → (if bytes_eq t (as_str a) then ok a else rest) ≡ ok s
    → t ≡ as_str s
named {t} {s} a rest k h = elim (test_inv t (as_str a) a s rest h) [
  | inl (e, p) ↦ rw (sym p) e
  | inr e ↦ k e
]

name_of : (t : Text) (s : TcbStatus) → tcb_status t ≡ ok s → t ≡ as_str s
unfolding tcb_status as_str
name_of t s h =
    named up_to_date _
      (named sw_hardening_needed _ (
        named configuration_needed _ (
          named configuration_and_sw_hardening_needed _ (
            named out_of_date _
              (named out_of_date_configuration_needed _ (named revoked _ (λ e. absurd cc)))))))
      h

-- A text is read as a status exactly when it is the name of this status.
pub tcb_status_iff : (t : Text) (s : TcbStatus) → (tcb_status t ≡ ok s) ↔ (t ≡ as_str s)
tcb_status_iff t s = (name_of t s, λ e. rw e (tcb_status-as_str s))
