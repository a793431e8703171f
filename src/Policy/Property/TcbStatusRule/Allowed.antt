-- ===== src/Policy/Property/TcbStatusRule/Allowed.antt =====
-- The list of TCB statuses that a property allows, of src/policy/src/v2/policy.rs.
use mig_td.Base.{
  ◌≡◌, refl, sym, Bool, true, false, List, [], ◌∷◌, ◌||◌, ◌⊎◌, inl, inr, All, arith, if◌then◌else◌,
  bytes_eq,
}
use mig_td.Policy.Fallible.{PolicyError, Fallible, ok, err, ◌>>=◌}
use mig_td.Policy.Text.{Text, text}
use mig_td.Policy.Status.{
  TcbStatus, configuration_needed, configuration_and_sw_hardening_needed,
  out_of_date_configuration_needed, tcb_status, as_str, rank, status_eq, contains,
}
use mig_td.Policy.Status.Names.{tcb_status_iff}
use mig_td.Policy.Property.{has_text, policy_allow}

-- A text that names a status.
abbrev pub IsName : Text → Type 0
IsName t = (s : TcbStatus) × (t ≡ as_str s)

tcb_status-cases :
    (t : Text)
    → ((s : TcbStatus) × (tcb_status t ≡ ok s)) ⊎ ((e : PolicyError) × (tcb_status t ≡ err e))
tcb_status-cases t = split (tcb_status t) refl
  where
    split :
        (x : Fallible TcbStatus)
        → tcb_status t ≡ x
        → ((s : TcbStatus) × (tcb_status t ≡ ok s)) ⊎ ((e : PolicyError) × (tcb_status t ≡ err e))
    split (ok s) e = inl (s, e)
    split (err x) e = inr (x, e)

-- One item of an allow list, before the items of which the rest is known.
allow_step :
    (b : Bool) (items : List Text) (rest : Fallible (List TcbStatus)) (allowed : List TcbStatus)
    (s : TcbStatus)
    → rank s ≡ 1
    → ((l : List TcbStatus)
        → rest ≡ ok l
        → All IsName items × (contains l s ≡ has_text items (text "ConfigurationNeeded")))
    → (rest >>= λ l. ok (
        if b
        then configuration_needed ∷ configuration_and_sw_hardening_needed
          ∷ out_of_date_configuration_needed ∷ l
        else l))
      ≡ ok allowed
    → All IsName items × (contains allowed s ≡ (b || has_text items (text "ConfigurationNeeded")))
unfolding contains status_eq rank
allow_step b items (err e) allowed s h k p = absurd cc
allow_step true items (ok l) allowed s h k p =
    let q : (configuration_needed ∷ configuration_and_sw_hardening_needed
          ∷ out_of_date_configuration_needed ∷ l)
        ≡ allowed =
      cc in
    ((k l refl).0, rw (sym q, h) refl)
allow_step false items (ok l) allowed s h k p =
    let q : l ≡ allowed = cc in ((k l refl).0, rw (sym q) (k l refl).1)

pub policy_allow_sound :
    (items : List Text) (allowed : List TcbStatus) (s : TcbStatus)
    → rank s ≡ 1
    → policy_allow items ≡ ok allowed
    → All IsName items × (contains allowed s ≡ has_text items (text "ConfigurationNeeded"))
unfolding policy_allow has_text
policy_allow_sound [] allowed s h e = (tt, unfold contains has_text in ground arith)
policy_allow_sound (item ∷ items) allowed s h e = elim (tcb_status-cases item) [
  | inl (x, p) ↦
      let r =
        allow_step (bytes_eq item (text "ConfigurationNeeded")) items (policy_allow items) allowed s
          h (λ l q. policy_allow_sound items l s h q) (ground arith) in
      (((x, (tcb_status_iff item x).0 p), r.0), r.1)
  | inr (x, p) ↦ absurd (ground arith)
]

pub policy_allow_complete :
    (items : List Text)
    → All IsName items
    → (allowed : List TcbStatus) × (policy_allow items ≡ ok allowed)
unfolding policy_allow
policy_allow_complete [] h = ([], refl)
policy_allow_complete (item ∷ items) ((s, p), h) =
    let r = policy_allow_complete items h in rw ((tcb_status_iff item s).1 p, r.1) (_, refl)
