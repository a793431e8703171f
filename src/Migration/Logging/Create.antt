-- ===== src/Migration/Logging/Create.antt =====
-- `create_logarea` of src/migtd/src/migration/logging.rs.
use mig_td.Base.{ℕ, ◌≡◌, true, false, Option, some, List, [], length, All}
use mig_td.Migration.Status.{Result, ok, err, out_of_resource}
use mig_td.Migration.Logging.Level.{up_to, trace}
use mig_td.Migration.Logging.Entry.{LogEntry, area_header_as_bytes}
use mig_td.Migration.Logging.Area.{Logging, new_header}
use mig_td.Migration.Logging.Areas.{ShowAll}
use mig_td.Migration.Logging.Health.{Healthy}

abbrev header_bytes : ℕ → List ℕ
header_bytes v = area_header_as_bytes (new_header v)

-- Both areas have a page without entries for each of `n` processors.
record Fresh (n : ℕ) (s : Logging) : Type 0 where
  entries : List (List LogEntry)
  shared_shown : ShowAll 0 entries s.logarea
  private_shown : ShowAll 0 entries s.provisional_logarea
  count : length entries ≡ n
  address_count : length s.logareaptr ≡ n
  none_yet : All (λ es. es ≡ []) entries
  live : s.shared_pages ≡ s.logareaptr
  boxed : s.boxes ≡ length s.provisional_logarea

-- What a failed allocation leaves of the state.
abbrev emptied : Logging → Logging
emptied s = record s {
  shared_pages = [];
  boxes = 0;
  logareaptr = [];
  logarea = [];
  provisional_logarea = [];
}

-- The statics as the program starts, after `init_vmm_logger`.
abbrev pub at_start : Logging
at_start = record {
  information = record {
    num_vcpus = 0;
    logarea_created = false;
    logarea_initialized = false;
    logentry_id = 0;
    provisional_logs_enabled = false;
    maxloglevel = 0;
  };
  logareaptr = [];
  logarea = [];
  provisional_logarea = [];
  shared_pages = [];
  boxes = 0;
  max_level = up_to trace;
}

-- How `create_logarea` ends at the start of the program, on `n` processors.
pub data Created (n : ℕ) : Option (Result (Unit {0}) × Logging) → Type 0 where
  all_pages :
      (s : Logging)
      → Healthy s
      → s.information.num_vcpus ≡ n
      → s.shared_pages ≡ s.logareaptr
      → s.boxes ≡ n
      → Created n (some (ok tt, s))
  no_page : Created n (some (err out_of_resource, at_start))

-- The statics once there are `n` pages.
abbrev filled : ℕ → Logging → Logging
filled n s = record s {
  information = record s.information {
    num_vcpus = n;
    logarea_created = true;
    provisional_logs_enabled = true;
  };
}
