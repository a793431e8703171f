-- ===== src/Policy/Property/TcbStatusRule.antt =====
-- Which TCB statuses a property tolerates.
pub mod Allowed
use mig_td.Base.{
  ◌≤◌, ◌≡◌, refl, ap, sym, ◌∙◌, ◌↔◌, Bool, true, false, List, [], ◌∷◌, ◌||◌, Option, none, some,
  ◌⊎◌, inl, inr, All, Bool-cases, arith, if◌then◌else◌, leb, ◌==◌, ==_iff, bytes_eq, bytes_eq_iff,
}
use mig_td.Policy.Fallible.{PolicyError, Fallible, ok, err, ◌>>=◌, ok_or, invalid_reference}
use mig_td.Policy.Text.{Text, text}
use mig_td.Policy.Status.{
  TcbStatus, up_to_date, sw_hardening_needed, configuration_needed,
  configuration_and_sw_hardening_needed, out_of_date, out_of_date_configuration_needed, revoked,
  tcb_status, as_str, rank, status_eq, status_ge, contains,
}
use mig_td.Policy.Status.Names.{tcb_status_iff}
use mig_td.Policy.Property.{
  Reference, integer, string, integer_list, string_list, PolicyProperty, is_relative, has_text,
  compare_op, policy_allow, all_statuses, tcb_status_on, evaluate_tcb_status,
}
use mig_td.Policy.Property.TcbStatusRule.Allowed.{IsName, policy_allow_sound, policy_allow_complete}

-- The status that a text refers to: that of the other side for "self" and "init", or the one named.
pub data RefersTo (relative : Option TcbStatus) (t : Text) (r : TcbStatus) : Type 0 where
  theirs : is_relative t ≡ true → relative ≡ some r → RefersTo relative t r
  constant : is_relative t ≡ false → t ≡ as_str r → RefersTo relative t r

-- What the reference and the operation of a property demand of a status that is neither always
-- allowed nor always denied.
pub data Configured (operation : Text) (s : TcbStatus) (relative : Option TcbStatus)
    : Reference → Type 0 where
  listed :
      (items : List Text)
      → operation ≡ text "allow-list"
      → All IsName items
      → has_text items (text "ConfigurationNeeded") ≡ true
      → Configured operation s relative (string_list items)
  same :
      (t : Text) (r : TcbStatus)
      → RefersTo relative t r
      → operation ≡ text "equal"
      → rank s ≡ rank r
      → Configured operation s relative (string t)
  above :
      (t : Text) (r : TcbStatus)
      → RefersTo relative t r
      → operation ≡ text "greater-or-equal"
      → rank r ≤ rank s
      → Configured operation s relative (string t)

abbrev pub Tolerated : PolicyProperty → TcbStatus → Option TcbStatus → Type 0
Tolerated p s relative =
    (rank s ≡ 2) ⊎ ((rank s ≡ 1) × Configured p.operation s relative p.reference)

-- Parsing a text either gives a status that it names, or no status at all.
pub compare_op_sound :
    (operation : Text) (a b : Bool)
    → compare_op operation a b ≡ ok true
    → ((operation ≡ text "equal") × (a ≡ true))
      ⊎ ((operation ≡ text "greater-or-equal") × (b ≡ true))
compare_op_sound operation a b h = elim (Bool-cases (bytes_eq operation (text "equal"))) [
  | inl e ↦ inl ((bytes_eq_iff operation (text "equal")).0 e, ground arith)
  | inr e ↦ elim (Bool-cases (bytes_eq operation (text "greater-or-equal"))) [
    | inl f ↦ inr ((bytes_eq_iff operation (text "greater-or-equal")).0 f, ground arith)
    | inr f ↦ absurd (ground arith)
  ]
]

refers_sound :
    (t : Text) (relative : Option TcbStatus) (r : TcbStatus)
    → (if is_relative t then ok_or relative invalid_reference else tcb_status t) ≡ ok r
    → RefersTo relative t r
refers_sound t relative r h = elim (Bool-cases (is_relative t)) [
  | inl e ↦ theirs e (known relative (ground arith))
  | inr e ↦ constant e ((tcb_status_iff t r).0 (ground arith))
]
  where
    known : (o : Option TcbStatus) → ok_or o invalid_reference ≡ ok r → o ≡ some r
    known none p = absurd cc
    known (some x) p = ap some cc

refers_complete :
    (t : Text) (relative : Option TcbStatus) (r : TcbStatus)
    → RefersTo relative t r
    → (if is_relative t then ok_or relative invalid_reference else tcb_status t) ≡ ok r
refers_complete t relative r (theirs e p) = rw (e, p) refl
refers_complete t relative r (constant e p) = rw e ((tcb_status_iff t r).1 p)

compared :
    (t operation : Text) (s : TcbStatus) (relative : Option TcbStatus) (x : Fallible TcbStatus)
    → (if is_relative t then ok_or relative invalid_reference else tcb_status t) ≡ x
    → (x >>= λ r. compare_op operation (status_eq s r) (status_ge s r)) ≡ ok true
    → Configured operation s relative (string t)
unfolding status_eq status_ge
compared t operation s relative (err e) p h = absurd cc
compared t operation s relative (ok r) p h =
    elim (compare_op_sound operation (rank s == rank r) (leb (rank r) (rank s)) h) [
      | inl (o, q) ↦ same t r (refers_sound t relative r p) o ((==_iff (rank s) (rank r)).0 q)
      | inr (o, q) ↦ above t r (refers_sound t relative r p) o (ground arith)
    ]

listed_sound :
    (operation : Text) (items : List Text) (s : TcbStatus) (relative : Option TcbStatus)
    → rank s ≡ 1
    → tcb_status_on (string_list items) operation s relative ≡ ok true
    → Configured operation s relative (string_list items)
unfolding tcb_status_on contains
listed_sound operation items s relative h p =
    elim (Bool-cases (bytes_eq operation (text "allow-list"))) [
      | inl e ↦
          allowed ((bytes_eq_iff operation (text "allow-list")).0 e) (policy_allow items) refl
            (ground arith)
      | inr e ↦ elim (Bool-cases (bytes_eq operation (text "deny-list"))) [
        | inl f ↦ absurd (denied (all_statuses items) (ground arith))
        | inr f ↦ absurd (ground arith)
      ]
    ]
  where
    allowed :
        operation ≡ text "allow-list"
        → (x : Fallible (List TcbStatus)) → policy_allow items ≡ x
        → (x >>= λ l. ok (contains l s)) ≡ ok true
        → Configured operation s relative (string_list items)
    allowed o (err e) q r = absurd cc
    allowed o (ok l) q r =
        let a = policy_allow_sound items l s h q in listed items o a.0 (sym a.1 ∙ cc)

    denied : (x : Fallible (List TcbStatus)) → (x >>= λ _. ok false) ≡ ok true → ⊥
    denied (ok l) q = cc
    denied (err e) q = cc

asked_sound :
    (reference : Reference) (operation : Text) (s : TcbStatus) (relative : Option TcbStatus)
    → rank s ≡ 1
    → tcb_status_on reference operation s relative ≡ ok true
    → Configured operation s relative reference
asked_sound (string t) operation s relative h p =
    compared t operation s relative _ refl (unfold tcb_status_on in p)
asked_sound (string_list items) operation s relative h p =
    listed_sound operation items s relative h p
asked_sound (integer n) operation s relative h p = absurd (unfold tcb_status_on in cc)
asked_sound (integer_list n) operation s relative h p = absurd (unfold tcb_status_on in cc)

asked_complete :
    (reference : Reference) (operation : Text) (s : TcbStatus) (relative : Option TcbStatus)
    → rank s ≡ 1
    → Configured operation s relative reference
    → tcb_status_on reference operation s relative ≡ ok true
unfolding tcb_status_on bytes_eq status_eq status_ge
asked_complete _ operation s relative h (listed items o n c) =
    let r = policy_allow_complete items n in
    rw (o, r.1) (ap ok ((policy_allow_sound items r.0 s h r.1).1 ∙ c))
asked_complete _ operation s relative h (same t r f o e) =
    rw (refers_complete t relative r f, o) (ap ok ((==_iff (rank s) (rank r)).1 e))
asked_complete _ operation s relative h (above t r f o e) =
    rw (refers_complete t relative r f, o) (ap ok (ground arith))

tolerated :
    (p : PolicyProperty) (s : TcbStatus) (relative : Option TcbStatus)
    → rank s ≡ 1
    → (tcb_status_on p.reference p.operation s relative ≡ ok true) ↔ Tolerated p s relative
tolerated p s relative h = (
  λ e. inr (h, asked_sound p.reference p.operation s relative h e),
  λ t. elim t [
    | inl e ↦ absurd (omega arith)
    | inr (e, c) ↦ asked_complete p.reference p.operation s relative h c
  ],
)

-- A property accepts a TCB status exactly when the status is `UpToDate`, `OutOfDate` or `SWHardeningNeeded`
-- (rank 2), or it is one of the three that need configuration (rank 1) and the property asks for it: by an
-- allow list whose items all name statuses, `ConfigurationNeeded` among them, or by a comparison of its
-- rank with that of the status that the property names or refers to. `Revoked` (rank 0) is never accepted.
pub evaluate_tcb_status_iff :
    (p : PolicyProperty) (s : TcbStatus) (relative : Option TcbStatus)
    → (evaluate_tcb_status p s relative ≡ ok true) ↔ Tolerated p s relative
unfolding evaluate_tcb_status contains status_eq rank
evaluate_tcb_status_iff p up_to_date relative = (λ _. inl refl, λ _. refl)
evaluate_tcb_status_iff p sw_hardening_needed relative = (λ _. inl refl, λ _. refl)
evaluate_tcb_status_iff p out_of_date relative = (λ _. inl refl, λ _. refl)
evaluate_tcb_status_iff p configuration_needed relative =
    tolerated p configuration_needed relative refl
evaluate_tcb_status_iff p configuration_and_sw_hardening_needed relative =
    tolerated p configuration_and_sw_hardening_needed relative refl
evaluate_tcb_status_iff p out_of_date_configuration_needed relative =
    tolerated p out_of_date_configuration_needed relative refl
evaluate_tcb_status_iff p revoked relative = (
  λ e. absurd cc,
  λ t. elim t [ inl e ↦ absurd (omega arith) | inr (e, c) ↦ absurd (omega arith) ],
)
