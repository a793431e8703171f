-- ===== src/Policy/Property/StringRule.antt =====
-- Which texts a property of src/policy/src/v2/policy.rs accepts, and the order of the texts.
use mig_td.Base.{
  ℕ, ◌<◌, ◌≡◌, refl, ap, ◌↔◌, Bool, true, false, not, List, [], ◌∷◌, ◌++◌, Option, none, some, inl,
  inr, Bool-cases, arith, if◌then◌else◌, ltb, bytes_eq, bytes_eq_iff,
}
use mig_td.Policy.Fallible.{Fallible, ok, err, ◌>>=◌, ok_or, invalid_reference}
use mig_td.Policy.Text.{Text, text, text_ge}
use mig_td.Policy.Property.{
  Reference, integer, string, integer_list, string_list, PolicyProperty, is_relative, has_text,
  compare_op, evaluate_string_on, evaluate_string,
}
use mig_td.Policy.Property.TcbStatusRule.{compare_op_sound}

-- The order of texts: `ys` is a front part of `xs`, or at the first byte where they differ `xs` has
-- the larger one.
pub data AtLeast : Text → Text → Type 0 where
  longer : (ys rest : Text) → AtLeast (ys ++ rest) ys
  larger :
      (front : Text) (x y : ℕ) (xs ys : Text)
      → y < x
      → AtLeast (front ++ (x ∷ xs)) (front ++ (y ∷ ys))

AtLeast-cons : (b : ℕ) (xs ys : Text) → AtLeast xs ys → AtLeast (b ∷ xs) (b ∷ ys)
AtLeast-cons b _ _ (longer ys rest) = longer (b ∷ ys) rest
AtLeast-cons b _ _ (larger front x y xs ys h) = larger (b ∷ front) x y xs ys h

text_ge_sound : (xs ys : Text) → text_ge xs ys ≡ true → AtLeast xs ys
unfolding text_ge
text_ge_sound xs [] h = longer [] xs
text_ge_sound [] (y ∷ ys) h = absurd cc
text_ge_sound (x ∷ xs) (y ∷ ys) h = elim (Bool-cases (ltb y x)) [
  | inl e ↦ larger [] x y xs ys (ground arith)
  | inr e ↦
      let q : x ≡ y = ground arith in
      rw q (AtLeast-cons y xs ys (text_ge_sound xs ys (ground arith)))
]

text_ge-longer : (ys rest : Text) → text_ge (ys ++ rest) ys ≡ true
unfolding text_ge
text_ge-longer [] rest = refl
text_ge-longer (y ∷ ys) rest = ground (arith, text_ge-longer ys rest)

text_ge-larger :
    (front : Text) (x y : ℕ) (xs ys : Text)
    → y < x
    → text_ge (front ++ (x ∷ xs)) (front ++ (y ∷ ys)) ≡ true
unfolding text_ge
text_ge-larger [] x y xs ys h = ground arith
text_ge-larger (b ∷ front) x y xs ys h = ground (arith, text_ge-larger front x y xs ys h)

text_ge_complete : (xs ys : Text) → AtLeast xs ys → text_ge xs ys ≡ true
text_ge_complete _ _ (longer ys rest) = text_ge-longer ys rest
text_ge_complete _ _ (larger front x y xs ys h) = text_ge-larger front x y xs ys h

-- The text that a reference stands for: the other side's for "self" and "init", or itself.
pub data StandsFor (relative : Option Text) (t r : Text) : Type 0 where
  theirs : is_relative t ≡ true → relative ≡ some r → StandsFor relative t r
  itself : is_relative t ≡ false → t ≡ r → StandsFor relative t r

pub data Permits (operation value : Text) (relative : Option Text) : Reference → Type 0 where
  same :
      (t : Text)
      → StandsFor relative t value
      → operation ≡ text "equal"
      → Permits operation value relative (string t)
  above :
      (t r : Text)
      → StandsFor relative t r
      → operation ≡ text "greater-or-equal"
      → AtLeast value r
      → Permits operation value relative (string t)
  allowed :
      (items : List Text)
      → operation ≡ text "allow-list"
      → has_text items value ≡ true
      → Permits operation value relative (string_list items)
  undenied :
      (items : List Text)
      → operation ≡ text "deny-list"
      → has_text items value ≡ false
      → Permits operation value relative (string_list items)

StandsFor-sound :
    (t : Text) (relative : Option Text) (r : Text)
    → (if is_relative t then ok_or relative invalid_reference else ok t) ≡ ok r
    → StandsFor relative t r
StandsFor-sound t relative r h = elim (Bool-cases (is_relative t)) [
  | inl e ↦ theirs e (known relative (ground arith))
  | inr e ↦ itself e (ground arith)
]
  where
    known : (o : Option Text) → ok_or o invalid_reference ≡ ok r → o ≡ some r
    known none p = absurd cc
    known (some x) p = ap some cc

StandsFor-complete :
    (t : Text) (relative : Option Text) (r : Text)
    → StandsFor relative t r
    → (if is_relative t then ok_or relative invalid_reference else ok t) ≡ ok r
StandsFor-complete t relative r (theirs e p) = rw (e, p) refl
StandsFor-complete t relative r (itself e p) = rw e (ap ok p)

compared :
    (t operation value : Text) (relative : Option Text) (x : Fallible Text)
    → (if is_relative t then ok_or relative invalid_reference else ok t) ≡ x
    → (x >>= λ r. compare_op operation (bytes_eq value r) (text_ge value r)) ≡ ok true
    → Permits operation value relative (string t)
compared t operation value relative (err e) p h = absurd cc
compared t operation value relative (ok r) p h =
    elim (compare_op_sound operation (bytes_eq value r) (text_ge value r) h) [
      | inl (o, q) ↦ same t (rw ((bytes_eq_iff value r).0 q) (StandsFor-sound t relative r p)) o
      | inr (o, q) ↦ above t r (StandsFor-sound t relative r p) o (text_ge_sound value r q)
    ]

negated : (b : Bool) → not b ≡ true → b ≡ false
negated true h = cc
negated false h = refl

Permits-sound :
    (reference : Reference) (operation value : Text) (relative : Option Text)
    → evaluate_string_on reference operation value relative ≡ ok true
    → Permits operation value relative reference
unfolding evaluate_string_on
Permits-sound (string t) operation value relative h = compared t operation value relative _ refl h
Permits-sound (string_list items) operation value relative h =
    elim (Bool-cases (bytes_eq operation (text "allow-list"))) [
      | inl e ↦ allowed items ((bytes_eq_iff operation (text "allow-list")).0 e) (ground arith)
      | inr e ↦ elim (Bool-cases (bytes_eq operation (text "deny-list"))) [
        | inl f ↦
            undenied items ((bytes_eq_iff operation (text "deny-list")).0 f)
              (negated (has_text items value) (ground arith))
        | inr f ↦ absurd (ground arith)
      ]
    ]
Permits-sound (integer n) operation value relative h = absurd cc
Permits-sound (integer_list n) operation value relative h = absurd cc

Permits-complete :
    (reference : Reference) (operation value : Text) (relative : Option Text)
    → Permits operation value relative reference
    → evaluate_string_on reference operation value relative ≡ ok true
unfolding evaluate_string_on bytes_eq
Permits-complete _ operation value relative (same t s o) =
    rw (StandsFor-complete t relative value s, o) (ap ok ((bytes_eq_iff value value).1 refl))
Permits-complete _ operation value relative (above t r s o a) =
    rw (StandsFor-complete t relative r s, o) (ap ok (text_ge_complete value r a))
Permits-complete _ operation value relative (allowed items o h) = rw o (ap ok h)
Permits-complete _ operation value relative (undenied items o h) = rw o (ap (λ b. ok (not b)) h)

-- A property accepts a text exactly when it equals the text that the reference stands for, or is at least that
-- text in the order of their bytes; or it is in an allow list; or it is not in a deny list. Every other combination of
-- a reference and an operation accepts no text.
pub evaluate_string_iff :
    (p : PolicyProperty) (value : Text) (relative : Option Text)
    → (evaluate_string p value relative ≡ ok true) ↔ Permits p.operation value relative p.reference
unfolding evaluate_string
evaluate_string_iff p value relative = (
  Permits-sound p.reference p.operation value relative,
  Permits-complete p.reference p.operation value relative,
)
