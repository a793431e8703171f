-- ===== src/Migration/Logging/Enable.antt =====
-- `enable_logarea` and the backend of src/migtd/src/migration/logging.rs in a release build.
use mig_td.Base.{
  ℕ, ◌-◌, ◌<◌, ◌≤◌, ◌≡◌, refl, ap, ◌∙◌, Bool, length, true, false, not, Option, some, List, [], ◌∷◌,
  ◌++◌, arith, inl, inr, Bool-cases, if◌then◌else◌, to_le,
}
use mig_td.Base.OptionDo.{◌>>=◌}
use mig_td.Migration.Status.{Result, ok}
use mig_td.Migration.Logging.Level.{
  Level, info, LevelFilter, u8_to_levelfilter, u8_to_loglevel, loglevel_to_u8, filter_rank,
  level_le,
}
use mig_td.Migration.Logging.Area.{Logging, free_provisional_logarea}
use mig_td.Migration.Logging.Areas.{ShowAll}
use mig_td.Migration.Logging.Publish.{announced, publish-ShowAll, publish_again}
use mig_td.Migration.Logging.Backend.{
  backend_level, enabled, request_id_or_sentinel, log, log_macro, capped, publish, enable_valid,
  enable_logarea, enable_published,
}
use mig_td.Migration.Logging.Health.{Healthy, Keeps, entrylog-Healthy}

filter_le : (n : ℕ) → n ≤ 3 → filter_rank (u8_to_levelfilter n) ≤ 3
unfolding filter_rank u8_to_levelfilter loglevel_to_u8
filter_le n h = ground arith

backend_level_low : (s : Logging) → Healthy s → filter_rank (backend_level false s) ≤ 3
unfolding backend_level filter_rank loglevel_to_u8
backend_level_low s h = elim (Bool-cases s.information.provisional_logs_enabled) [
  | inl p ↦
      let off : s.information.logarea_initialized ≡ false = h.mode ∙ ap not p in
      rw off (rw p (omega arith))
  | inr p ↦
      let on : s.information.logarea_initialized ≡ true = h.mode ∙ ap not p in
      rw on (filter_le s.information.maxloglevel h.low)
]

-- A release build records no message of a level above info.
enabled_quiet :
    (level : Level) (s : Logging)
    → Healthy s
    → enabled false level s ≡ true
    → loglevel_to_u8 level ≤ 3
unfolding enabled level_le
enabled_quiet level s h e = let k = backend_level_low s h in ground arith

module _ (checks : Bool) (passes : Level → LevelFilter → Bool) (i : ℕ) (level : Level)
    (args : List ℕ) (request : Option ℕ) (s : Logging) (healthy : Healthy s)
    (is_vcpu : i < s.information.num_vcpus) where
  pub log-Healthy : Keeps (log false checks (some i) level args request s) s
  unfolding log
  log-Healthy = elim (Bool-cases (enabled false level s)) [
    | inl e ↦ rw e (
        entrylog-Healthy checks i (args ++ (10 ∷ [])) level (request_id_or_sentinel request) s
          healthy is_vcpu (enabled_quiet level s healthy e))
    | inr e ↦ rw e (s, refl, healthy, refl)
  ]

  pub log_macro-Healthy : Keeps (log_macro false checks passes (some i) level args request s) s
  unfolding log_macro
  log_macro-Healthy = elim (Bool-cases (passes level s.max_level)) [
    | inl e ↦ rw e log-Healthy
    | inr e ↦ rw e (s, refl, healthy, refl)
  ]

-- The state that `enable_logarea` leaves before it logs its success.
abbrev pub enabled_state : ℕ → List (List ℕ) → Logging → Logging
enabled_state level pages s = record {
  information = record s.information {
    maxloglevel = level;
    provisional_logs_enabled = false;
    logarea_initialized = true;
  };
  logareaptr = s.logareaptr;
  logarea = pages;
  provisional_logarea =
      if s.information.provisional_logs_enabled then [] else s.provisional_logarea;
  shared_pages = s.shared_pages;
  boxes =
      if s.information.provisional_logs_enabled
      then s.boxes - length s.provisional_logarea
      else s.boxes;
  max_level = u8_to_levelfilter level;
}

-- The number of processors, four bytes of padding, and the pages.
abbrev pub area_info : Logging → List ℕ
area_info s = to_le 4 s.information.num_vcpus ++ to_le 4 0

pub capped_low : (n : ℕ) → capped false n ≤ 3
unfolding capped
capped_low n = omega arith

module _ (checks : Bool) (passes : Level → LevelFilter → Bool) (s : Logging) (healthy : Healthy s)
    (not_created : List ℕ) (invalid_level enabled_text rejected_text : ℕ → List ℕ)
    (cpuid : Option ℕ) (requested request_id : ℕ) (answer : List ℕ) (level : Level)
    (valid : u8_to_loglevel (capped false requested) ≡ some level) where
  open healthy use {
    shared, private, shared_shown, private_shown, shared_quiet, private_quiet, shared_count,
    private_count, address_count, few, created, mode, low, hidden,
  }

  abbrev limit : ℕ
  limit = capped false requested

  -- What is left of a call once the pages are published.
  abbrev pub finish : List (List ℕ) → Option (Result (Unit {0}) × List ℕ × Logging)
  finish pages = do
    logged ←
        log_macro false checks passes cpuid info (enabled_text limit) (some request_id)
          (enabled_state limit pages s)
    some (ok tt, answer ++ area_info s ++ announced s.logareaptr, logged)

  abbrev start : Logging
  start = record s { information = record s.information { maxloglevel = limit } }

  abbrev published : List (List ℕ) → List ℕ × Logging
  published pages =
      (answer ++ area_info s ++ announced s.logareaptr, record start { logarea = pages })

  published-finish :
      (pages : List (List ℕ))
      → enable_published false checks passes not_created invalid_level enabled_text rejected_text
          cpuid limit request_id
          (published pages)
        ≡ finish pages
  unfolding enable_published free_provisional_logarea
  published-finish pages = elim (Bool-cases s.information.provisional_logs_enabled) [
    | inl p ↦ rw p refl
    | inr p ↦ rw p refl
  ]

  enable_is_valid :
      enable_logarea false checks passes not_created invalid_level enabled_text rejected_text cpuid
        requested request_id answer s
      ≡ enable_valid false checks passes not_created invalid_level enabled_text rejected_text cpuid
          limit request_id answer s
  unfolding enable_logarea
  enable_is_valid = simp (created, valid) refl

  enable_pages :
      (pages : List (List ℕ))
      → publish s.information.num_vcpus 0 s.information.provisional_logs_enabled
          (answer ++ area_info s)
          start
        ≡ some (published pages)
      → enable_logarea false checks passes not_created invalid_level enabled_text rejected_text
          cpuid requested request_id answer s
        ≡ finish pages
  unfolding enable_valid
  enable_pages pages eq =
      enable_is_valid
      ∙ ap
          (λ o.
            o
            >>= enable_published false checks passes not_created invalid_level enabled_text
                rejected_text cpuid limit request_id)
          eq
      ∙ published-finish pages

  -- The first time that a healthy log area is enabled at a valid level, there is no panic before the
  -- message about it is logged: the shared pages then show the entries of the provisional ones,
  -- which are freed, and the host is told how many there are and where.
  pub enable_logarea_first :
      s.information.provisional_logs_enabled ≡ true
      → (pages : List (List ℕ)) × ShowAll 0 private pages
        × (enable_logarea false checks passes not_created invalid_level enabled_text rejected_text
              cpuid requested request_id answer s
            ≡ finish pages)
  enable_logarea_first p =
      let (pages, eq, shown) =
        publish-ShowAll s.information.num_vcpus [] shared private (answer ++ area_info s) start
          shared_count (private_count p) (omega arith) shared_shown private_shown in
      (
        pages,
        shown,
        enable_pages pages
            (ap (λ b. publish s.information.num_vcpus 0 b (answer ++ area_info s) start) p ∙ eq),
      )

  -- After that they stay as they are.
  pub enable_logarea_again :
      s.information.provisional_logs_enabled ≡ false
      → enable_logarea false checks passes not_created invalid_level enabled_text rejected_text
          cpuid requested request_id answer s
        ≡ finish s.logarea
  enable_logarea_again p =
      let eq =
        publish_again s.information.num_vcpus [] shared (answer ++ area_info s) start shared_count
          (omega arith) shared_shown in
      enable_pages s.logarea
        (ap (λ b. publish s.information.num_vcpus 0 b (answer ++ area_info s) start) p ∙ eq)
