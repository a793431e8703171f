-- ===== src/Policy/Property/IntegerRule.antt =====
-- Which numbers a property of src/policy/src/v2/policy.rs accepts.
use mig_td.Base.{
  ℕ, ◌≤◌, ◌≡◌, refl, ap, ◌↔◌, true, false, List, ◌||◌, Option, none, some, ◌⊎◌, inl, inr,
  Bool-cases, Option-cases, arith, if◌then◌else◌, leb, ◌==◌, ==_iff, bytes_eq, bytes_eq_iff,
}
use mig_td.Policy.Fallible.{ok, err, ◌>>=◌, ok_or, invalid_operation, invalid_reference}
use mig_td.Policy.Text.{Text, text, two_parts, parse_u32}
use mig_td.Policy.Property.{
  Reference, integer, string, integer_list, string_list, PolicyProperty, is_relative, has_integer,
  is_in_range, compare_op, evaluate_integer_on, evaluate_integer,
}
use mig_td.Policy.Property.TcbStatusRule.{compare_op_sound}

-- A comparison that holds between the value and the number that it is compared with.
pub data Compares (operation : Text) (value n : ℕ) : Type 0 where
  same : operation ≡ text "equal" → value ≡ n → Compares operation value n
  above : operation ≡ text "greater-or-equal" → n ≤ value → Compares operation value n

-- The text is `start..end`, and the value lies between the two numbers.
pub record Within (value : ℕ) (range : Text) : Type 0 where
  pub first : Text
  pub second : Text
  pub start : ℕ
  pub end : ℕ
  pub parts : two_parts range ≡ some (first, second)
  pub start_reads : parse_u32 first ≡ some start
  pub end_reads : parse_u32 second ≡ some end
  pub lower : start ≤ value
  pub upper : value ≤ end

pub data Fits (operation : Text) (value : ℕ) (relative : Option ℕ) : Reference → Type 0 where
  compared : (n : ℕ) → Compares operation value n → Fits operation value relative (integer n)
  theirs :
      (t : Text) (n : ℕ)
      → is_relative t ≡ true
      → relative ≡ some n
      → Compares operation value n
      → Fits operation value relative (string t)
  ranged :
      (t : Text)
      → is_relative t ≡ false
      → (operation ≡ text "in-range") ⊎ (operation ≡ text "in-time-range")
      → Within value t
      → Fits operation value relative (string t)
  listed :
      (items : List ℕ)
      → operation ≡ text "subset"
      → has_integer items value ≡ true
      → Fits operation value relative (integer_list items)

Compares-sound :
    (operation : Text) (value n : ℕ)
    → compare_op operation (value == n) (leb n value) ≡ ok true
    → Compares operation value n
Compares-sound operation value n h =
    elim (compare_op_sound operation (value == n) (leb n value) h) [
      | inl (o, e) ↦ same o ((==_iff value n).0 e)
      | inr (o, e) ↦ above o (ground arith)
    ]

Compares-complete :
    (operation : Text) (value n : ℕ)
    → Compares operation value n
    → compare_op operation (value == n) (leb n value) ≡ ok true
unfolding bytes_eq
Compares-complete operation value n (same o e) = rw o (ap ok ((==_iff value n).1 e))
Compares-complete operation value n (above o e) = rw o (ap ok (ground arith))

range_sound : (value : ℕ) (t : Text) → is_in_range value t ≡ ok true → Within value t
unfolding is_in_range
range_sound value t h = elim (Option-cases (two_parts t)) [
  | inl e ↦ absurd (ground arith)
  | inr ((a, b), e) ↦ elim (Option-cases (parse_u32 a)) [
    | inl f ↦ absurd (ground arith)
    | inr (start, f) ↦ elim (Option-cases (parse_u32 b)) [
      | inl g ↦ absurd (ground arith)
      | inr (end, g) ↦ record {
        first = a;
        second = b;
        start = start;
        end = end;
        parts = e;
        start_reads = f;
        end_reads = g;
        lower = ground arith;
        upper = ground arith;
      }
    ]
  ]
]

range_complete : (value : ℕ) (t : Text) → Within value t → is_in_range value t ≡ ok true
unfolding is_in_range
range_complete value t w =
    rw (w.parts, w.start_reads, w.end_reads) (let l = w.lower in let u = w.upper in ground arith)

relative_sound :
    (operation t : Text) (value : ℕ) (relative : Option ℕ)
    → is_relative t ≡ true
    → (ok_or relative invalid_reference >>= λ r. compare_op operation (value == r) (leb r value))
      ≡ ok true
    → Fits operation value relative (string t)
relative_sound operation t value none e h = absurd cc
relative_sound operation t value (some n) e h =
    theirs t n e refl (Compares-sound operation value n h)

ranged_sound :
    (operation t : Text) (value : ℕ) (relative : Option ℕ)
    → is_relative t ≡ false
    → (if bytes_eq operation (text "in-range") || bytes_eq operation (text "in-time-range")
        then is_in_range value t
        else err invalid_operation)
      ≡ ok true
    → Fits operation value relative (string t)
ranged_sound operation t value relative e h =
    elim (Bool-cases (bytes_eq operation (text "in-range"))) [
      | inl f ↦
          ranged t e (inl ((bytes_eq_iff operation (text "in-range")).0 f))
            (range_sound value t (ground arith))
      | inr f ↦ elim (Bool-cases (bytes_eq operation (text "in-time-range"))) [
        | inl g ↦
            ranged t e (inr ((bytes_eq_iff operation (text "in-time-range")).0 g))
              (range_sound value t (ground arith))
        | inr g ↦ absurd (ground arith)
      ]
    ]

Fits-sound :
    (reference : Reference) (operation : Text) (value : ℕ) (relative : Option ℕ)
    → evaluate_integer_on reference operation value relative ≡ ok true
    → Fits operation value relative reference
unfolding evaluate_integer_on
Fits-sound (integer n) operation value relative h = compared n (Compares-sound operation value n h)
Fits-sound (string t) operation value relative h = elim (Bool-cases (is_relative t)) [
  | inl e ↦ relative_sound operation t value relative e (ground arith)
  | inr e ↦ ranged_sound operation t value relative e (ground arith)
]
Fits-sound (integer_list items) operation value relative h =
    elim (Bool-cases (bytes_eq operation (text "subset"))) [
      | inl e ↦ listed items ((bytes_eq_iff operation (text "subset")).0 e) (ground arith)
      | inr e ↦ absurd (ground arith)
    ]
Fits-sound (string_list items) operation value relative h = absurd cc

Fits-complete :
    (reference : Reference) (operation : Text) (value : ℕ) (relative : Option ℕ)
    → Fits operation value relative reference
    → evaluate_integer_on reference operation value relative ≡ ok true
unfolding evaluate_integer_on bytes_eq
Fits-complete _ operation value relative (compared n c) = Compares-complete operation value n c
Fits-complete _ operation value relative (theirs t n e r c) =
    rw (e, r) (Compares-complete operation value n c)
Fits-complete _ operation value relative (ranged t e (inl o) w) =
    rw (e, o) (range_complete value t w)
Fits-complete _ operation value relative (ranged t e (inr o) w) =
    rw (e, o) (range_complete value t w)
Fits-complete _ operation value relative (listed items o h) = rw o (ap ok h)

-- A property accepts a number exactly when it compares with the number that the property states, or with
-- that of the other side; or it lies in a range of two numbers; or it is in a list. Every other
-- combination of a reference and an operation accepts no number.
pub evaluate_integer_iff :
    (p : PolicyProperty) (value : ℕ) (relative : Option ℕ)
    → (evaluate_integer p value relative ≡ ok true) ↔ Fits p.operation value relative p.reference
unfolding evaluate_integer
evaluate_integer_iff p value relative = (
  Fits-sound p.reference p.operation value relative,
  Fits-complete p.reference p.operation value relative,
)
