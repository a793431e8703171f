-- ===== src/Migration/Logging/Areas.antt =====
-- All the pages of a log area: src/migtd/src/migration/logging.rs.
use mig_td.Base.{
  ℕ, zero, suc, ◌+◌, ◌<◌, ◌≡◌, refl, ap, subst, some, List, [], ◌∷◌, ◌++◌, arith, length, get_elem?,
  set,
}
use mig_td.Migration.Logging.Entry.{LogEntry}
use mig_td.Migration.Logging.Append.{Shows}

-- Page after page, from the processor `v` on, shows these entries.
abbrev pub ShowAll : ℕ → List (List LogEntry) → List (List ℕ) → Type 0
ShowAll v [] [] = Unit {0}
ShowAll v [] (p ∷ ps) = ⊥
ShowAll v (es ∷ ess) [] = ⊥
ShowAll v (es ∷ ess) (p ∷ ps) = Shows v es p × ShowAll (suc v) ess ps

-- The entries of a processor.
abbrev pub entries_of : List (List LogEntry) → ℕ → List LogEntry
entries_of [] i = []
entries_of (es ∷ ess) zero = es
entries_of (es ∷ ess) (suc i) = entries_of ess i

pub ShowAll-length :
    (v : ℕ) (ess : List (List LogEntry)) (ps : List (List ℕ))
    → ShowAll v ess ps
    → length ps ≡ length ess
ShowAll-length v [] [] h = refl
ShowAll-length v [] (p ∷ ps) h = elim h [ ]
ShowAll-length v (es ∷ ess) [] h = elim h [ ]
ShowAll-length v (es ∷ ess) (p ∷ ps) h = ap suc (ShowAll-length (suc v) ess ps h.1)

pub ShowAll-page :
    (v : ℕ) (ess : List (List LogEntry)) (ps : List (List ℕ)) (i : ℕ)
    → ShowAll v ess ps
    → i < length ess
    → (p : List ℕ) × (get_elem? ps i ≡ some p) × Shows (v + i) (entries_of ess i) p
ShowAll-page v [] ps i h lt = absurd (omega arith)
ShowAll-page v (es ∷ ess) [] i h lt = elim h [ ]
ShowAll-page v (es ∷ ess) (p ∷ ps) zero h lt =
    let e : v ≡ v + 0 = omega arith in (p, refl, subst (λ n. Shows n es p) e h.0)
ShowAll-page v (es ∷ ess) (p ∷ ps) (suc i) h lt =
    let (q, g, k) = ShowAll-page (suc v) ess ps i h.1 (omega arith) in
    let e : suc v + i ≡ v + suc i = omega arith in
    (q, g, subst (λ n. Shows n (entries_of ess i) q) e k)

pub ShowAll-set :
    (v : ℕ) (ess : List (List LogEntry)) (ps : List (List ℕ)) (i : ℕ) (es : List LogEntry)
    (p : List ℕ)
    → ShowAll v ess ps
    → Shows (v + i) es p
    → ShowAll v (set ess i es) (set ps i p)
ShowAll-set v [] [] i es p h k = tt
ShowAll-set v [] (q ∷ ps) i es p h k = elim h [ ]
ShowAll-set v (fs ∷ ess) [] i es p h k = elim h [ ]
ShowAll-set v (fs ∷ ess) (q ∷ ps) zero es p h k =
    let e : v + 0 ≡ v = omega arith in (subst (λ n. Shows n es p) e k, h.1)
ShowAll-set v (fs ∷ ess) (q ∷ ps) (suc i) es p h k =
    let e : v + suc i ≡ suc v + i = omega arith in
    (h.0, ShowAll-set (suc v) ess ps i es p h.1 (subst (λ n. Shows n es p) e k))

pub ShowAll-append_one :
    (v : ℕ) (ess : List (List LogEntry)) (ps : List (List ℕ)) (es : List LogEntry) (p : List ℕ)
    → ShowAll v ess ps
    → Shows (v + length ess) es p
    → ShowAll v (ess ++ (es ∷ [])) (ps ++ (p ∷ []))
ShowAll-append_one v [] [] es p h k =
    let e : v + 0 ≡ v = omega arith in (subst (λ n. Shows n es p) e k, tt)
ShowAll-append_one v [] (q ∷ ps) es p h k = elim h [ ]
ShowAll-append_one v (fs ∷ ess) [] es p h k = elim h [ ]
ShowAll-append_one v (fs ∷ ess) (q ∷ ps) es p h k =
    let e : v + suc (length ess) ≡ suc v + length ess = omega arith in
    (h.0, ShowAll-append_one (suc v) ess ps es p h.1 (subst (λ n. Shows n es p) e k))
