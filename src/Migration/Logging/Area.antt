-- ===== src/Migration/Logging/Area.antt =====
-- The statics of src/migtd/src/migration/logging.rs and the operations on them, outside of the test
-- build. Memory is a list of the pages' bytes, and `none` is a panic.
use mig_td.Base.{
  ℕ, zero, suc, ◌+◌, ◌-◌, ◌^◌, Bool, true, false, ◌&&◌, ◌||◌, Option, none, some, List, [], ◌∷◌,
  ◌++◌, ltb, leb, ◌==◌, if◌then◌else◌, length, get_elem?, set, slice?, replicate, from_le, copy,
}
use mig_td.Base.OptionDo.{◌>>=◌}
use mig_td.Migration.Status.{Result, ok, err, out_of_resource, tdx_module_error}
use mig_td.Migration.Logging.Level.{Level, trace, LevelFilter, loglevel_to_u8}
use mig_td.Migration.Logging.Entry.{
  page_size, area_header_size, entry_header_size, logarea_signature, LogAreaBufferHeader,
  LogEntryHeader, area_header_as_bytes, write_entry,
}

abbrev pub migration_request_id_sentinel : ℕ
migration_request_id_sentinel = 0xFFFFFFFFFFFFFFFF

pub record LoggingInformation : Type 0 where
  pub num_vcpus : ℕ
  pub logarea_created : Bool
  pub logarea_initialized : Bool
  pub logentry_id : ℕ
  pub provisional_logs_enabled : Bool
  pub maxloglevel : ℕ

-- LOGGING_INFORMATION; the addresses in LOGAREAPTR and the pages at them; the pages of
-- PROVISIONAL_LOGAREAPTR; the allocator's part, that is the addresses of the shared pages and the number of the
-- private ones that are allocated and not freed; and `log::max_level()`.
pub record Logging : Type 0 where
  pub information : LoggingInformation
  pub logareaptr : List ℕ
  pub logarea : List (List ℕ)
  pub provisional_logarea : List (List ℕ)
  pub shared_pages : List ℕ
  pub boxes : ℕ
  pub max_level : LevelFilter

-- `free_shared_pages` on each of these addresses.
unfoldable pub free_each : List ℕ → List ℕ → List ℕ
free_each [] live = live
free_each (a ∷ ptrs) live = free_each ptrs (remove_first a live)
  where
    remove_first : ℕ → List ℕ → List ℕ
    remove_first a [] = []
    remove_first a (x ∷ xs) = let rest = remove_first a xs in if x == a then xs else x ∷ rest

-- The header of a new page.
unfoldable pub new_header : ℕ → LogAreaBufferHeader
new_header index = record {
  signature = logarea_signature;
  vcpuindex = index;
  reserved = 0;
  startoffset = area_header_size;
  endoffset = area_header_size;
}

-- `checks` is the build's choice on overflow. `alloc_shared_pages` answers the address and the bytes
-- of the page for a processor's number.
module _ (checks : Bool) (alloc_shared_pages : ℕ → Option (ℕ × List ℕ)) where
  -- The loop of `create_logarea` from `index` on; `none` stands for a panic. A failed
  -- allocation of a private page aborts, and is not modelled.
  unfoldable pub create_pages : ℕ → ℕ → Logging → Option (Result (Unit {0}) × Logging)
  create_pages zero index s = some (ok tt, s)
  create_pages (suc n) index s = elim (alloc_shared_pages index) [
    | none ↦ some (
      err out_of_resource,
      record s {
        shared_pages = free_each s.logareaptr s.shared_pages;
        boxes = s.boxes - length s.provisional_logarea;
        logareaptr = [];
        logarea = [];
        provisional_logarea = [];
      },
    )
    | some page ↦ (do
      let header = area_header_as_bytes (new_header index)
      shared ← copy checks page.1 0 header
      provisional ← copy checks (replicate page_size 0) 0 header
      create_pages n (suc index) (record s {
        logareaptr = s.logareaptr ++ (page.0 ∷ []);
        shared_pages = s.shared_pages ++ (page.0 ∷ []);
        boxes = s.boxes + 1;
        logarea = s.logarea ++ (shared ∷ []);
        provisional_logarea = s.provisional_logarea ++ (provisional ∷ []);
      }))
  ]

  -- `td_info` is the number of processors that the TDCALL answers, unless it fails.
  unfoldable pub create_logarea : Option ℕ → Logging → Option (Result (Unit {0}) × Logging)
  create_logarea none s = some (err tdx_module_error, s)
  create_logarea (some num_vcpus) s = do r ← create_pages num_vcpus 0 s; some (created num_vcpus r)
    where
      created : ℕ → Result (Unit {0}) × Logging → Result (Unit {0}) × Logging
      created num_vcpus (ok u, s) = (
        ok u,
        record s {
          information = record s.information {
            num_vcpus = num_vcpus;
            provisional_logs_enabled = true;
            logarea_created = true;
          };
        },
      )
      created num_vcpus (err e, s) = (err e, s)
      created num_vcpus (r, s) = (r, s)

unfoldable pub free_provisional_logarea : Logging → Logging
free_provisional_logarea s =
    if s.information.provisional_logs_enabled
    then record s {
      information = record s.information { provisional_logs_enabled = false };
      boxes = s.boxes - length s.provisional_logarea;
      provisional_logarea = [];
    }
    else s

-- What `fetch_update` stores.
unfoldable pub next_id : ℕ → ℕ
next_id v = if v == 2 ^ 64 - 1 then 1 else v + 1

-- Whether `entrylog` records an entry of this level.
unfoldable pub records : Level → LoggingInformation → Bool
records l i =
    (i.logarea_initialized && leb (loglevel_to_u8 l) i.maxloglevel)
    || (i.provisional_logs_enabled && leb (loglevel_to_u8 l) (loglevel_to_u8 trace))

-- The pages that `entrylog` writes to, and the state with others in their place.
unfoldable pub active : Logging → List (List ℕ)
active s = if s.information.provisional_logs_enabled then s.provisional_logarea else s.logarea

unfoldable pub set_active : List (List ℕ) → Logging → Logging
set_active pages s =
    if s.information.provisional_logs_enabled
    then record s { provisional_logarea = pages }
    else record s { logarea = pages }

unfoldable pub entry_header : ℕ → List ℕ → Level → ℕ → LogEntryHeader
entry_header id msg l request_id = record {
  log_entry_id = id;
  mig_request_id = request_id;
  loglevel = loglevel_to_u8 l;
  reserved = 0 ∷ 0 ∷ 0 ∷ [];
  length = length msg;
}

module _ (checks : Bool) where
  -- The entry goes to the page of the processor, if this is its page.
  unfoldable pub entrylog_on : ℕ → List ℕ → Level → ℕ → Logging → Option Logging
  entrylog_on currvcpuindex msg l request_id s = do
    page ← get_elem? (active s) currvcpuindex
    bytes ← slice? page 16 20
    if currvcpuindex == from_le bytes
        then (do
          let id = next_id s.information.logentry_id
          page' ← write_entry checks (entry_header id msg l request_id) msg page
          some (
              set_active (set (active s) currvcpuindex page')
                (record s { information = record s.information { logentry_id = id } })))
        else some s

  -- `cpuid` is the number of the processor that runs, where CPUID tells it.
  unfoldable pub entrylog : Option ℕ → List ℕ → Level → ℕ → Logging → Option Logging
  entrylog cpuid msg l request_id s =
      if records l s.information
      then if ltb (page_size - (area_header_size + entry_header_size)) (length msg)
        then some s
        else elim cpuid [ none ↦ some s | some i ↦ entrylog_on i msg l request_id s ]
      else some s
