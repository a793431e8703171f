-- ===== src/Migration/Logging/Runs.antt =====
-- Runs of the log of a release build: src/migtd/src/migration/logging.rs.
use mig_td.Base.{
  ℕ, ◌<◌, ◌≤◌, ◌≡◌, refl, sym, ap, subst, ◌∙◌, Bool, false, Option, none, some, List, [], ◌∷◌, ◌++◌,
  arith, length, All, inl, inr, Bool-cases, Option-cases,
}
use mig_td.Base.OptionDo.{◌>>=◌}
use mig_td.Migration.Status.{Result, ok, err, invalid_parameter}
use mig_td.Migration.Logging.Level.{Level, LevelFilter, info, error, loglevel_to_u8, u8_to_loglevel}
use mig_td.Migration.Logging.Entry.{LogEntry}
use mig_td.Migration.Logging.Area.{Logging, entrylog}
use mig_td.Migration.Logging.Areas.{ShowAll}
use mig_td.Migration.Logging.Publish.{announced}
use mig_td.Migration.Logging.Backend.{log_macro, capped, enable_logarea}
use mig_td.Migration.Logging.Health.{Healthy, Quiet, Keeps, entrylog-Healthy, empty-Quiet}
use mig_td.Migration.Logging.Enable.{
  log_macro-Healthy, enabled_state, area_info, finish, capped_low, enable_logarea_first,
  enable_logarea_again,
}

module _ (s : Logging) (healthy : Healthy s) (n : ℕ) (low : n ≤ 3) where
  -- The shared pages are those of the provisional entries, or those of before.
  enabled-Healthy :
      (pages : List (List ℕ)) (ess : List (List LogEntry))
      → ShowAll 0 ess pages
      → All Quiet ess
      → length ess ≡ s.information.num_vcpus
      → Healthy (enabled_state n pages s)
  enabled-Healthy pages ess shown quiet count =
      elim (Bool-cases s.information.provisional_logs_enabled) [
        | inl p ↦ record {
          shared = ess;
          private = [];
          shared_shown = shown;
          private_shown = rw p tt;
          shared_quiet = quiet;
          private_quiet = tt;
          shared_count = count;
          private_count = λ q. absurd (ground arith);
          address_count = healthy.address_count;
          few = healthy.few;
          created = healthy.created;
          mode = refl;
          low = low;
          hidden = λ q. absurd (ground arith);
        }
        | inr p ↦ record {
          shared = ess;
          private = healthy.private;
          shared_shown = shown;
          private_shown = rw p healthy.private_shown;
          shared_quiet = quiet;
          private_quiet = healthy.private_quiet;
          shared_count = count;
          private_count = λ q. absurd (ground arith);
          address_count = healthy.address_count;
          few = healthy.few;
          created = healthy.created;
          mode = refl;
          low = low;
          hidden = λ q. absurd (ground arith);
        }
      ]

-- A call answers, and keeps the area healthy and its processors.
abbrev pub Answers : Option (Result (Unit {0}) × List ℕ × Logging) → Logging → Type 0
Answers o s =
    (r : Result (Unit {0})) × (answer : List ℕ) × (s' : Logging) × (o ≡ some (r, answer, s'))
    × Healthy s'
    × (s'.information.num_vcpus ≡ s.information.num_vcpus)

Keeps-Answers :
    (o : Option Logging) (s s1 : Logging) (r : Result (Unit {0})) (answer : List ℕ)
    → Keeps o s1
    → s1.information.num_vcpus ≡ s.information.num_vcpus
    → Answers (o >>= λ s'. some (r, answer, s')) s
Keeps-Answers o s s1 r answer (s', eq, h, n) m =
    (r, answer, s', ap (λ o. o >>= λ s'. some (r, answer, s')) eq, h, n ∙ m)

-- What the rest of the program does with the log: the macros of the crate log, `entrylog` at the
-- level info, as the rebinding calls it, and `enable_logarea`, each on a processor. And what the host does: it
-- can write any bytes to the shared pages.
pub data Event : Type 0 where
  message : ℕ → Level → List ℕ → Option ℕ → Event
  entry : ℕ → List ℕ → ℕ → Event
  enable : ℕ → ℕ → ℕ → Event
  host_writes : List (List ℕ) → Event

-- On `n` processors: what the program does runs on one of them, and what the host writes are pages
-- whose headers are intact and which show no entries.
abbrev pub Allowed : ℕ → Event → Type 0
Allowed n (message i level args request) = i < n
Allowed n (entry i msg request_id) = i < n
Allowed n (enable i requested request_id) = i < n
Allowed n (host_writes pages) =
    (ess : List (List LogEntry)) × ShowAll 0 ess pages × All (λ es. es ≡ []) ess × (length ess ≡ n)

-- With such pages from the host the area is healthy.
overwritten-Healthy :
    (pages : List (List ℕ)) (s : Logging)
    → Healthy s
    → Allowed s.information.num_vcpus (host_writes pages)
    → Healthy (record s { logarea = pages })
overwritten-Healthy pages s h (ess, shown, none_yet, count) = record {
  shared = ess;
  private = h.private;
  shared_shown = shown;
  private_shown = h.private_shown;
  shared_quiet = empty-Quiet ess none_yet;
  private_quiet = h.private_quiet;
  shared_count = count;
  private_count = h.private_count;
  address_count = h.address_count;
  few = h.few;
  created = h.created;
  mode = h.mode;
  low = h.low;
  hidden = λ p. none_yet;
}

module _ (checks : Bool) (passes : Level → LevelFilter → Bool) (not_created : List ℕ)
    (invalid_level enabled_text rejected_text : ℕ → List ℕ) where
  module _ (i requested request_id : ℕ) (answer : List ℕ) (s : Logging) (healthy : Healthy s)
      (is_vcpu : i < s.information.num_vcpus) where
    abbrev call : Option (Result (Unit {0}) × List ℕ × Logging)
    call =
        enable_logarea false checks passes not_created invalid_level enabled_text rejected_text
          (some i) requested request_id answer s

    -- With such pages published, the last message keeps the area healthy.
    published-Healthy :
        (level : Level) (valid : u8_to_loglevel (capped false requested) ≡ some level)
        (pages : List (List ℕ)) (ess : List (List LogEntry))
        → ShowAll 0 ess pages
        → All Quiet ess
        → length ess ≡ s.information.num_vcpus
        → call
          ≡ finish checks passes s healthy not_created invalid_level enabled_text rejected_text
              (some i)
              requested
              request_id
              answer
              level
              valid
              pages
        → Answers call s
    published-Healthy level valid pages ess shown quiet count eq =
        let limit = capped false requested in
        let s1 = enabled_state limit pages s in
        let h =
          enabled-Healthy s healthy limit (capped_low requested) pages ess shown quiet count in
        let k =
          log_macro-Healthy checks passes i info (enabled_text limit) (some request_id) s1 h
            is_vcpu in
        let told = answer ++ area_info s ++ announced s.logareaptr in
        subst (λ o. Answers o s) (sym eq)
          (Keeps-Answers
            (log_macro false checks passes (some i) info (enabled_text limit) (some request_id) s1)
            s s1 (ok tt) told k refl)

    enable_valid-Healthy :
        (level : Level) → u8_to_loglevel (capped false requested) ≡ some level → Answers call s
    enable_valid-Healthy level valid = elim (Bool-cases s.information.provisional_logs_enabled) [
      | inl p ↦
          let (pages, shown, eq) =
            enable_logarea_first checks passes s healthy not_created invalid_level enabled_text
              rejected_text (some i) requested request_id answer level valid p in
          published-Healthy level valid pages healthy.private shown healthy.private_quiet
            (healthy.private_count p) eq
      | inr p ↦
          published-Healthy level valid s.logarea healthy.shared healthy.shared_shown
            healthy.shared_quiet healthy.shared_count
            (enable_logarea_again checks passes s healthy not_created invalid_level enabled_text
              rejected_text (some i) requested request_id answer level valid p)
    ]

    enable_invalid-Healthy : u8_to_loglevel (capped false requested) ≡ none → Answers call s
    unfolding enable_logarea
    enable_invalid-Healthy bad =
        let limit = capped false requested in
        let logged =
          log_macro false checks passes (some i) error (rejected_text limit) (some request_id) s in
        let more = answer ++ invalid_level limit in
        let eq : call ≡ (logged >>= λ s'. some (err invalid_parameter, more, s')) =
          simp (healthy.created, bad) refl in
        subst (λ o. Answers o s) (sym eq)
          (Keeps-Answers logged s s (err invalid_parameter) more
            (log_macro-Healthy checks passes i error (rejected_text limit) (some request_id) s
              healthy is_vcpu)
            refl)

    pub enable_logarea-Healthy : Answers call s
    enable_logarea-Healthy = elim (Option-cases (u8_to_loglevel (capped false requested))) [
      | inl bad ↦ enable_invalid-Healthy bad
      | inr (level, valid) ↦ enable_valid-Healthy level valid
    ]

  unfoldable pub step : Event → Logging → Option Logging
  step (message i level args request) s =
      log_macro false checks passes (some i) level args request s
  step (entry i msg request_id) s = entrylog checks (some i) msg info request_id s
  step (enable i requested request_id) s = do
    (result, answer, s') ←
        enable_logarea false checks passes not_created invalid_level enabled_text rejected_text
          (some i) requested request_id [] s
    some s'
  step (host_writes pages) s = some (record s { logarea = pages })

  unfoldable pub run : List Event → Logging → Option Logging
  run [] s = some s
  run (e ∷ es) s = do s' ← step e s; run es s'

  step-Healthy :
      (e : Event) (s : Logging) → Healthy s → Allowed s.information.num_vcpus e → Keeps (step e s) s
  unfolding step loglevel_to_u8
  step-Healthy (message i level args request) s h lt =
      log_macro-Healthy checks passes i level args request s h lt
  step-Healthy (entry i msg request_id) s h lt =
      entrylog-Healthy checks i msg info request_id s h lt (omega arith)
  step-Healthy (enable i requested request_id) s h lt =
      let (r, answer, s', eq, k, n) = enable_logarea-Healthy i requested request_id [] s h lt in
      (s', rw eq refl, k, n)
  step-Healthy (host_writes pages) s h k =
      (record s { logarea = pages }, refl, overwritten-Healthy pages s h k, refl)

  -- Whatever a release build logs and the host asks for, on processors that have a page, and as long
  -- as all that the host writes to the shared pages are intact pages without entries, no step panics and
  -- the log areas stay healthy: each page shows entries one behind the other, all of the levels error,
  -- warn and info, and the shared pages show none before the host has enabled them.
  pub run-Healthy :
      (es : List Event) (s : Logging)
      → Healthy s
      → All (Allowed s.information.num_vcpus) es
      → Keeps (run es s) s
  unfolding run
  run-Healthy [] s h k = (s, refl, h, refl)
  run-Healthy (e ∷ es) s h (lt, k) =
      let (s1, eq1, h1, n1) = step-Healthy e s h lt in
      let (s2, eq2, h2, n2) = run-Healthy es s1 h1 (subst (λ n. All (Allowed n) es) (sym n1) k) in
      (s2, rw eq1 eq2, h2, n2 ∙ n1)
