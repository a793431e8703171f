-- ===== src/Migration/Logging/Backend.antt =====
-- The logger backend and `enable_logarea` of src/migtd/src/migration/logging.rs. `none` is a panic;
-- the output to the debug console is left out.
use mig_td.Base.{
  ℕ, zero, suc, min, Bool, true, Option, none, some, List, [], ◌∷◌, ◌++◌, if◌then◌else◌, get_elem?,
  set, to_le,
}
use mig_td.Base.OptionDo.{◌>>=◌}
use mig_td.Migration.Status.{Result, ok, err, unsupported_operation_error, invalid_parameter}
use mig_td.Migration.Logging.Level.{
  Level, info, error, trace, LevelFilter, up_to, u8_to_levelfilter, u8_to_loglevel, level_le,
}
use mig_td.Migration.Logging.Entry.{page_size}
use mig_td.Migration.Logging.Area.{
  Logging, migration_request_id_sentinel, entrylog, free_provisional_logarea,
}

-- `init_vmm_logger`, where `set_logger` succeeds.
unfoldable pub init_vmm_logger : Logging → Logging
init_vmm_logger s = record s { max_level = up_to trace }

-- The level up to which the backend records, in a build with or without debug assertions.
unfoldable pub backend_level : Bool → Logging → LevelFilter
backend_level debug_assertions s =
    if s.information.logarea_initialized
    then u8_to_levelfilter s.information.maxloglevel
    else if s.information.provisional_logs_enabled
    then (if debug_assertions then up_to trace else up_to info)
    else s.max_level

unfoldable pub enabled : Bool → Level → Logging → Bool
enabled debug_assertions level s = level_le level (backend_level debug_assertions s)

-- `unwrap_or(MIGRATION_REQUEST_ID_SENTINEL)`
unfoldable pub request_id_or_sentinel : Option ℕ → ℕ
request_id_or_sentinel none = migration_request_id_sentinel
request_id_or_sentinel (some id) = id

-- `core::cmp::min(log_max_level, 3)` in a release build.
unfoldable pub capped : Bool → ℕ → ℕ
capped debug_assertions log_max_level =
    if debug_assertions then log_max_level else min log_max_level 3

-- The loop of `enable_logarea` over the pages: it publishes the provisional ones and answers
-- addresses and sizes.
unfoldable pub publish : ℕ → ℕ → Bool → List ℕ → Logging → Option (List ℕ × Logging)
publish zero index provisional answer s = some (answer, s)
publish (suc n) index provisional answer s = do
  page ← get_elem? s.logarea index
  address ← get_elem? s.logareaptr index
  source ← (if provisional then get_elem? s.provisional_logarea index else some page)
  publish n (suc index) provisional (answer ++ (to_le 8 address ++ to_le 8 page_size))
      (record s { logarea = set s.logarea index source })

-- Both are choices of the build.
module _ (debug_assertions checks : Bool) where
  -- `VmmLoggerBackend::log` of a record whose arguments are formatted as `args`, with the value of
  -- its key migration_request_id.
  unfoldable pub log : Option ℕ → Level → List ℕ → Option ℕ → Logging → Option Logging
  log cpuid level args request s =
      if enabled debug_assertions level s
      then entrylog checks cpuid (args ++ (10 ∷ [])) level (request_id_or_sentinel request) s
      else some s

  -- `passes` is how the crate log holds a message against its own maximum.
  module _ (passes : Level → LevelFilter → Bool) where
    -- The macros of the crate log.
    unfoldable pub log_macro : Option ℕ → Level → List ℕ → Option ℕ → Logging → Option Logging
    log_macro cpuid level args request s =
        if passes level s.max_level then log cpuid level args request s else some s

    -- The texts that `format!` makes.
    module _ (not_created : List ℕ) (invalid_level enabled_text rejected_text : ℕ → List ℕ) where
      -- What follows the loop over the pages.
      unfoldable pub enable_published :
          Option ℕ → ℕ → ℕ → List ℕ × Logging → Option (Result (Unit {0}) × List ℕ × Logging)
      enable_published cpuid log_max_level request_id published = do
        let freed = free_provisional_logarea published.1
        logged ← log_macro cpuid info (enabled_text log_max_level) (some request_id) (record freed {
          information = record freed.information { logarea_initialized = true };
          max_level = u8_to_levelfilter log_max_level;
        })
        some (ok tt, published.0, logged)

      -- What is done for a valid level.
      unfoldable pub enable_valid :
          Option ℕ → ℕ → ℕ → List ℕ → Logging → Option (Result (Unit {0}) × List ℕ × Logging)
      enable_valid cpuid log_max_level request_id answer s = do
        published ←
            publish s.information.num_vcpus 0 s.information.provisional_logs_enabled
              (answer ++ (to_le 4 s.information.num_vcpus ++ to_le 4 0))
              (record s { information = record s.information { maxloglevel = log_max_level } })
        enable_published cpuid log_max_level request_id published

      -- The requested level comes from the host. The bytes answered are for the host.
      unfoldable pub enable_logarea :
          Option ℕ → ℕ → ℕ → List ℕ → Logging → Option (Result (Unit {0}) × List ℕ × Logging)
      enable_logarea cpuid requested request_id answer s =
          let log_max_level = capped debug_assertions requested in
          if s.information.logarea_created
          then elim (u8_to_loglevel log_max_level) [
            | some level ↦ enable_valid cpuid log_max_level request_id answer s
            | none ↦ (do
              logged ← log_macro cpuid error (rejected_text log_max_level) (some request_id) s
              some (err invalid_parameter, answer ++ invalid_level log_max_level, logged))
          ]
          else some (err unsupported_operation_error, answer ++ not_created, s)
