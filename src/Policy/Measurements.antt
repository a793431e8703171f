-- ===== src/Policy/Measurements.antt =====
-- The search for a TD's security version by its measurements, of
-- src/policy/src/v2/servtd_collateral.rs.
use mig_td.Base.{
  ℕ, ◌≡◌, refl, ap, ◌∙◌, ◌↔◌, Bool, true, false, not, ◌||◌, Option, none, some, List, [], ◌∷◌, ◌++◌,
  All, Bool-cases, arith, inl, inr, if◌then◌else◌, bytes_eq, bytes_eq_iff,
}
use mig_td.Policy.Text.{Text, to_ascii_uppercase}

pub record Measurements : Type 0 where
  pub mrtd : Text
  pub rtmr0 : Text
  pub rtmr1 : Text
  pub rtmr2 : Option Text
  pub rtmr3 : Option Text

pub record SvnMapping : Type 0 where
  pub td_measurements : Measurements
  pub isvsvn : ℕ

abbrev map_upper : Option Text → Option Text
map_upper none = none
map_upper (some v) = some (to_ascii_uppercase v)

-- `Measurements::to_ascii_uppercase`
unfoldable pub upper_measurements : Measurements → Measurements
upper_measurements m = record {
  mrtd = to_ascii_uppercase m.mrtd;
  rtmr0 = to_ascii_uppercase m.rtmr0;
  rtmr1 = to_ascii_uppercase m.rtmr1;
  rtmr2 = map_upper m.rtmr2;
  rtmr3 = map_upper m.rtmr3;
}

-- The check of an optional register: without a pattern it passes.
unfoldable pub register_passes : Option Text → Option Text → Bool
register_passes none target = true
register_passes (some p) (some t) = if not (bytes_eq p t) then false else true
register_passes (some p) none = false

unfoldable pub compare_measurements : Measurements → Measurements → Bool
unfolding upper_measurements register_passes
compare_measurements pattern target =
    let p = upper_measurements pattern in
    let t = upper_measurements target in
    if not (bytes_eq p.mrtd t.mrtd)
      || (not (bytes_eq p.rtmr0 t.rtmr0) || not (bytes_eq p.rtmr1 t.rtmr1))
    then false
    else if not (register_passes p.rtmr2 t.rtmr2)
    then false
    else if not (register_passes p.rtmr3 t.rtmr3)
    then false
    else true

unfoldable pub get_engine_svn_by_measurements : List SvnMapping → Measurements → Option ℕ
unfolding compare_measurements
get_engine_svn_by_measurements [] measurements = none
get_engine_svn_by_measurements (mapping ∷ mappings) measurements =
    let rest = get_engine_svn_by_measurements mappings measurements in
    if compare_measurements mapping.td_measurements measurements then some mapping.isvsvn else rest

-- Equality of texts up to the case of ASCII letters.
abbrev pub EqualUpToCase : Text → Text → Type 0
EqualUpToCase a b = to_ascii_uppercase a ≡ to_ascii_uppercase b

-- A register that the pattern leaves open takes anything; one that it gives must be there and equal.
abbrev pub RegisterMatches : Option Text → Option Text → Type 0
RegisterMatches none target = Unit {0}
RegisterMatches (some p) target = (t : Text) × ((target ≡ some t) × EqualUpToCase p t)

pub record Matches (p t : Measurements) : Type 0 where
  pub mrtd_equal : EqualUpToCase p.mrtd t.mrtd
  pub rtmr0_equal : EqualUpToCase p.rtmr0 t.rtmr0
  pub rtmr1_equal : EqualUpToCase p.rtmr1 t.rtmr1
  pub rtmr2_passes : RegisterMatches p.rtmr2 t.rtmr2
  pub rtmr3_passes : RegisterMatches p.rtmr3 t.rtmr3

register_sound :
    (p t : Option Text) → register_passes (map_upper p) (map_upper t) ≡ true → RegisterMatches p t
unfolding register_passes
register_sound none t h = tt
register_sound (some p) none h = absurd cc
register_sound (some p) (some t) h =
    (t, (refl, (bytes_eq_iff (to_ascii_uppercase p) (to_ascii_uppercase t)).0 (ground arith)))

register_complete :
    (p t : Option Text) → RegisterMatches p t → register_passes (map_upper p) (map_upper t) ≡ true
unfolding register_passes
register_complete none t h = refl
register_complete (some p) t (x, (e, h)) =
    rw (e, (bytes_eq_iff (to_ascii_uppercase p) (to_ascii_uppercase x)).1 h) refl

compare_measurements_iff : (p t : Measurements) → (compare_measurements p t ≡ true) ↔ Matches p t
unfolding compare_measurements upper_measurements
compare_measurements_iff p t = (
  λ h. record {
    mrtd_equal =
        ground (arith, bytes_eq_iff (to_ascii_uppercase p.mrtd) (to_ascii_uppercase t.mrtd));
    rtmr0_equal =
        ground (arith, bytes_eq_iff (to_ascii_uppercase p.rtmr0) (to_ascii_uppercase t.rtmr0));
    rtmr1_equal =
        ground (arith, bytes_eq_iff (to_ascii_uppercase p.rtmr1) (to_ascii_uppercase t.rtmr1));
    rtmr2_passes = register_sound p.rtmr2 t.rtmr2 (ground arith);
    rtmr3_passes = register_sound p.rtmr3 t.rtmr3 (ground arith);
  },
  λ m.
      rw
        (
          (bytes_eq_iff _ _).1 m.mrtd_equal,
          (bytes_eq_iff _ _).1 m.rtmr0_equal,
          (bytes_eq_iff _ _).1 m.rtmr1_equal,
          register_complete p.rtmr2 t.rtmr2 m.rtmr2_passes,
          register_complete p.rtmr3 t.rtmr3 m.rtmr3_passes,
        )
        refl,
)

-- The number `n` stands in the first mapping that matches.
pub record FirstMatch (ms : List SvnMapping) (t : Measurements) (n : ℕ) : Type 0 where
  pub front : List SvnMapping
  pub mapping : SvnMapping
  pub back : List SvnMapping
  pub whole : ms ≡ front ++ (mapping ∷ back)
  pub earlier : All (λ m. ¬ Matches m.td_measurements t) front
  pub here : Matches mapping.td_measurements t
  pub number : mapping.isvsvn ≡ n

first_sound :
    (ms : List SvnMapping) (t : Measurements) (n : ℕ)
    → get_engine_svn_by_measurements ms t ≡ some n
    → FirstMatch ms t n
unfolding get_engine_svn_by_measurements
first_sound [] t n h = absurd cc
first_sound (m ∷ ms) t n h = elim (Bool-cases (compare_measurements m.td_measurements t)) [
  | inl e ↦ record {
    front = [];
    mapping = m;
    back = ms;
    whole = refl;
    earlier = tt;
    here = (compare_measurements_iff m.td_measurements t).0 e;
    number = ground arith;
  }
  | inr e ↦
      let r = first_sound ms t n (ground arith) in
      record {
        front = m ∷ r.front;
        mapping = r.mapping;
        back = r.back;
        whole = ap (λ x. m ∷ x) r.whole;
        earlier =
            (λ k. let z = (compare_measurements_iff m.td_measurements t).1 k in cc, r.earlier);
        here = r.here;
        number = r.number;
      }
]

first_complete :
    (front : List SvnMapping) (m : SvnMapping) (back : List SvnMapping) (t : Measurements)
    → All (λ m. ¬ Matches m.td_measurements t) front
    → Matches m.td_measurements t
    → get_engine_svn_by_measurements (front ++ (m ∷ back)) t ≡ some m.isvsvn
unfolding get_engine_svn_by_measurements
first_complete [] m back t e h = rw ((compare_measurements_iff m.td_measurements t).1 h) refl
first_complete (x ∷ front) m back t (e, es) h =
    elim (Bool-cases (compare_measurements x.td_measurements t)) [
      | inl q ↦ absurd (e ((compare_measurements_iff x.td_measurements t).0 q))
      | inr q ↦ rw q (first_complete front m back t es h)
    ]

-- The search answers `n` exactly when `n` is the version of the first mapping whose measurements match those of
-- the TD: the three required ones equal up to case, and each optional one that the mapping gives present and equal up to case.
pub get_engine_svn_iff :
    (ms : List SvnMapping) (t : Measurements) (n : ℕ)
    → (get_engine_svn_by_measurements ms t ≡ some n) ↔ FirstMatch ms t n
get_engine_svn_iff ms t n = (
  first_sound ms t n,
  λ f. rw f.whole (first_complete f.front f.mapping f.back t f.earlier f.here ∙ ap some f.number),
)
