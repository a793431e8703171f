-- ===== src/Tests/Logging.antt =====
-- The log areas of one processor.
use mig_td.Base.{
  to_le, from_le, add_usize, checked_add, fill, ℕ, ◌≡◌, refl, true, false, Option, none, some, List,
  [], ◌∷◌, ◌++◌, arith, length, replicate, length-replicate,
}
use mig_td.Base.OptionDo.{◌>>=◌}
use mig_td.Migration.Status.{ok}
use mig_td.Migration.Logging.Level.{
  loglevel_to_u8, info, debug, warn, up_to, trace, u8_to_loglevel, level_le,
}
use mig_td.Migration.Logging.Entry.{
  LogEntryHeader, page_size, entry_header_from_bytes, entry_header_as_bytes, write_entry, make_room,
  rewind, entry_end,
}
use mig_td.Migration.Logging.Headers.{entry_header_from-as_bytes}
use mig_td.Migration.Logging.Page.{page_of, front}
use mig_td.Migration.Logging.Append.{Shows}
use mig_td.Migration.Logging.Area.{Logging, active, records, entrylog, entrylog_on}
use mig_td.Migration.Logging.Areas.{ShowAll}
use mig_td.Migration.Logging.Record.{Log, record_entry, written, entrylog-record_entry}
use mig_td.Migration.Logging.Health.{Healthy, Keeps}
use mig_td.Migration.Logging.Backend.{enable_logarea, capped, log_macro}
use mig_td.Migration.Logging.Enable.{enabled_state, area_info, enable_logarea_first}
use mig_td.Migration.Logging.Publish.{announced}
use mig_td.Migration.Logging.Runs.{
  Event, Allowed, host_writes, message, entry, enable, run, run-Healthy,
}

abbrev no_bytes : List ℕ
no_bytes = replicate 4056 0

abbrev fresh_page : List ℕ
fresh_page = page_of 0 40 40 no_bytes

fresh_page-Shows : Shows 0 [] fresh_page
fresh_page-Shows = record {
  rest = no_bytes;
  is_page = refl;
  size = omega (arith, length-replicate {A = ℕ} 4056 0);
}

-- The areas of one processor, after their creation.
abbrev areas : Logging
areas = record {
  information = record {
    num_vcpus = 1;
    logarea_created = true;
    logarea_initialized = false;
    logentry_id = 0;
    provisional_logs_enabled = true;
    maxloglevel = 0;
  };
  logareaptr = 0x1000 ∷ [];
  logarea = fresh_page ∷ [];
  provisional_logarea = fresh_page ∷ [];
  shared_pages = 0x1000 ∷ [];
  boxes = 1;
  max_level = up_to trace;
}

areas-Healthy : Healthy areas
areas-Healthy = record {
  shared = [] ∷ [];
  private = [] ∷ [];
  shared_shown = (fresh_page-Shows, tt);
  private_shown = (fresh_page-Shows, tt);
  shared_quiet = (tt, tt);
  private_quiet = (tt, tt);
  shared_count = refl;
  private_count = λ p. refl;
  address_count = refl;
  few = omega arith;
  created = refl;
  mode = refl;
  low = omega arith;
  hidden = λ p. (refl, tt);
}

abbrev hello : List ℕ
hello = 104 ∷ 105 ∷ []

abbrev hello_log : Log
hello_log = record_entry 0 hello info 5 areas (record { entries = [] ∷ []; last_id = 0 })

entrylog-record_entry_example :
    (pages : List (List ℕ)) × (entrylog true (some 0) hello info 5 areas
      ≡ some (written pages hello_log.last_id areas))
    × ShowAll 0 hello_log.entries pages
unfolding active
entrylog-record_entry_example =
    entrylog-record_entry true 0 hello info 5 areas ([] ∷ []) (fresh_page-Shows, tt) (omega arith)
      (omega arith)

abbrev text : ℕ → List ℕ
text n = n ∷ []

abbrev events : List Event
events =
    message 0 info hello (some 5)
    ∷ message 0 debug hello none
    ∷ enable 0 5 7
    ∷ message 0 warn hello none
    ∷ entry 0 hello 5
    ∷ host_writes (fresh_page ∷ [])
    ∷ message 0 warn hello none
    ∷ []

wiped : Allowed 1 (host_writes (fresh_page ∷ []))
wiped = ([] ∷ [], (fresh_page-Shows, tt), (refl, tt), refl)

run-Healthy_example : Keeps (run true level_le hello text text text events areas) areas
run-Healthy_example = run-Healthy true level_le hello text text text events areas areas-Healthy (
  omega arith,
  (omega arith, (omega arith, (omega arith, (omega arith, (wiped, (omega arith, tt)))))),
)

abbrev one_page : ℕ → Option (ℕ × List ℕ)
one_page i = some (0x1000, replicate page_size 0)

abbrev allocated : Option (ℕ × List ℕ) → ℕ
allocated none = 0
allocated (some (a, p)) = length p

valid : u8_to_loglevel (capped false 5) ≡ some info
unfolding u8_to_loglevel capped
valid = refl

enable_logarea_first_example :
    (pages : List (List ℕ)) × ShowAll 0 ([] ∷ []) pages
    × (enable_logarea false true level_le hello text text text (some 0) 5 7 [] areas ≡ (do
      logged ←
          log_macro false true level_le
            (some 0)
            info
            (text (capped false 5))
            (some 7)
            (enabled_state (capped false 5) pages areas)
      some (ok tt, [] ++ area_info areas ++ announced (0x1000 ∷ []), logged)))
unfolding areas-Healthy
enable_logarea_first_example =
    enable_logarea_first true level_le areas areas-Healthy hello text text text (some 0) 5 7 [] info
      valid refl

abbrev hello_header : LogEntryHeader
hello_header = record {
  log_entry_id = 7;
  mig_request_id = 5;
  loglevel = 3;
  reserved = 0 ∷ 0 ∷ 0 ∷ [];
  length = 2;
}

entry_header_from-as_bytes_example :
    entry_header_from_bytes (entry_header_as_bytes hello_header) ≡ hello_header
entry_header_from-as_bytes_example =
    entry_header_from-as_bytes hello_header (omega arith) (omega arith) refl (omega arith)

-- The areas once the host has enabled them and written an end offset behind the end of the page.
abbrev corrupted : Logging
corrupted = record areas {
  information = record areas.information {
    logarea_initialized = true;
    provisional_logs_enabled = false;
    maxloglevel = 3;
  };
  logarea = page_of 0 40 5000 no_bytes ∷ [];
}

-- The next entry panics.
corrupted_panics : entrylog true (some 0) hello info 5 corrupted ≡ none
unfolding entrylog entrylog_on write_entry make_room rewind entry_end records active loglevel_to_u8
    page_of front to_le from_le add_usize checked_add fill
corrupted_panics = refl
