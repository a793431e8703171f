-- ===== src/Migration/Logging/Health.antt =====
-- What a log area keeps to in a release build: src/migtd/src/migration/logging.rs.
use mig_td.Base.{
  ℕ, zero, suc, ◌+◌, ◌^◌, ◌<◌, ◌≤◌, ◌≡◌, refl, sym, ap, subst, ◌∙◌, Bool, true, false, not, Option,
  some, List, [], ◌∷◌, arith, length, set, All, All-append, inl, inr, Bool-cases, length-set, leb,
}
use mig_td.Migration.Logging.Level.{Level, loglevel_to_u8}
use mig_td.Migration.Logging.Entry.{LogEntry}
use mig_td.Migration.Logging.Append.{push}
use mig_td.Migration.Logging.Page.{entries_bytes}
use mig_td.Migration.Logging.Area.{Logging, active, set_active, entrylog, entry_header}
use mig_td.Migration.Logging.Areas.{ShowAll, entries_of}
use mig_td.Migration.Logging.Record.{
  Log, record_entry, recorded, new_entry, written, takes, entrylog-record_entry,
}

-- Entries of the levels error, warn and info only.
abbrev pub Quiet : List LogEntry → Type 0
Quiet es = All (λ e. e.header.loglevel ≤ 3) es

-- The shared pages and the provisional ones show entries of quiet levels, one page for each
-- processor; one of the two is in use; and the shared pages are empty until the host has enabled
-- them.
pub record Healthy (s : Logging) : Type 0 where
  pub shared : List (List LogEntry)
  pub private : List (List LogEntry)
  pub shared_shown : ShowAll 0 shared s.logarea
  pub private_shown : ShowAll 0 private s.provisional_logarea
  pub shared_quiet : All Quiet shared
  pub private_quiet : All Quiet private
  pub shared_count : length shared ≡ s.information.num_vcpus
  pub private_count :
      s.information.provisional_logs_enabled ≡ true → length private ≡ s.information.num_vcpus
  pub address_count : length s.logareaptr ≡ s.information.num_vcpus
  pub few : s.information.num_vcpus ≤ 2 ^ 32
  pub created : s.information.logarea_created ≡ true
  pub mode : s.information.logarea_initialized ≡ not s.information.provisional_logs_enabled
  pub low : s.information.maxloglevel ≤ 3
  pub hidden : s.information.logarea_initialized ≡ false → All (λ es. es ≡ []) shared

pub empty-Quiet : (ess : List (List LogEntry)) → All (λ es. es ≡ []) ess → All Quiet ess
empty-Quiet [] h = tt
empty-Quiet (es ∷ ess) (e, h) = (rw e tt, empty-Quiet ess h)

All-set :
    {A : Type 0} (P : A → Type 0) (xs : List A) (i : ℕ) (x : A)
    → All P xs
    → P x
    → All P (set xs i x)
All-set P [] i x h k = tt
All-set P (y ∷ xs) zero x h k = (k, h.1)
All-set P (y ∷ xs) (suc i) x h k = (h.0, All-set P xs i x h.1 k)

entries_of-Quiet : (ess : List (List LogEntry)) (i : ℕ) → All Quiet ess → Quiet (entries_of ess i)
entries_of-Quiet [] i h = tt
entries_of-Quiet (es ∷ ess) zero h = h.0
entries_of-Quiet (es ∷ ess) (suc i) h = entries_of-Quiet ess i h.1

push-Quiet :
    (es : List LogEntry) (e : LogEntry) → Quiet es → e.header.loglevel ≤ 3 → Quiet (push es e)
unfolding push
push-Quiet es e h k =
    elim (Bool-cases (leb (length (entries_bytes es) + (24 + length e.value)) 4056)) [
      | inl t ↦ rw t (All-append (λ e. e.header.loglevel ≤ 3) es (e ∷ []) h (k, tt))
      | inr t ↦ rw t (k, tt)
    ]

module _ (i : ℕ) (msg : List ℕ) (l : Level) (request_id : ℕ) (s : Logging) (log : Log) where
  record_entry-Quiet :
      All Quiet log.entries
      → loglevel_to_u8 l ≤ 3
      → All Quiet (record_entry i msg l request_id s log).entries
  unfolding record_entry recorded new_entry entry_header
  record_entry-Quiet h k = elim (Bool-cases (takes msg l s)) [
    | inl t ↦ rw t (
        All-set Quiet log.entries i _ h
          (push-Quiet (entries_of log.entries i) _ (entries_of-Quiet log.entries i h) k))
    | inr t ↦ rw t h
  ]

  length-record_entry : length (record_entry i msg l request_id s log).entries ≡ length log.entries
  unfolding record_entry recorded
  length-record_entry = elim (Bool-cases (takes msg l s)) [
    | inl t ↦ rw t (length-set log.entries i _)
    | inr t ↦ rw t refl
  ]

-- The state with other provisional pages, or other shared ones, and another id.
abbrev with_private : List (List ℕ) → ℕ → Logging → Logging
with_private pages id s = record s {
  provisional_logarea = pages;
  information = record s.information { logentry_id = id };
}

abbrev with_shared : List (List ℕ) → ℕ → Logging → Logging
with_shared pages id s = record s {
  logarea = pages;
  information = record s.information { logentry_id = id };
}

module _ (pages : List (List ℕ)) (id : ℕ) (s : Logging) where
  written_private :
      s.information.provisional_logs_enabled ≡ true → written pages id s ≡ with_private pages id s
  unfolding written set_active
  written_private p = rw p refl

  written_shared :
      s.information.provisional_logs_enabled ≡ false → written pages id s ≡ with_shared pages id s
  unfolding written set_active
  written_shared p = rw p refl

active_private :
    (s : Logging) → s.information.provisional_logs_enabled ≡ true → active s ≡ s.provisional_logarea
unfolding active
active_private s p = rw p refl

active_shared :
    (s : Logging) → s.information.provisional_logs_enabled ≡ false → active s ≡ s.logarea
unfolding active
active_shared s p = rw p refl

-- What an operation has to do: it does not panic, and keeps the area healthy and its processors.
abbrev pub Keeps : Option Logging → Logging → Type 0
Keeps o s =
    (s' : Logging) × (o ≡ some s')
    × Healthy s'
    × (s'.information.num_vcpus ≡ s.information.num_vcpus)

module _ (checks : Bool) (i : ℕ) (msg : List ℕ) (l : Level) (request_id : ℕ) (s : Logging)
    (healthy : Healthy s) (is_vcpu : i < s.information.num_vcpus)
    (quiet : loglevel_to_u8 l ≤ 3) where
  open healthy use {
    shared, private, shared_shown, private_shown, shared_quiet, private_quiet, shared_count,
    private_count, address_count, few, created, mode, low, hidden,
  }

  entrylog_private :
      s.information.provisional_logs_enabled ≡ true
      → Keeps (entrylog checks (some i) msg l request_id s) s
  entrylog_private p =
      let c = private_count p in
      let log : Log = record { entries = private; last_id = s.information.logentry_id } in
      let (pages, eq, shows) =
        entrylog-record_entry checks i msg l request_id s private
          (subst (ShowAll 0 private) (sym (active_private s p)) private_shown) (omega arith)
          (omega arith) in
      let after = record_entry i msg l request_id s log in
      let n = length-record_entry i msg l request_id s log in
      (
        with_private pages after.last_id s,
        eq ∙ ap (λ t. some t) (written_private pages after.last_id s p),
        record {
          shared = shared;
          private = after.entries;
          shared_shown = shared_shown;
          private_shown = shows;
          shared_quiet = shared_quiet;
          private_quiet = record_entry-Quiet i msg l request_id s log private_quiet quiet;
          shared_count = shared_count;
          private_count = λ q. n ∙ c;
          address_count = address_count;
          few = few;
          created = created;
          mode = mode;
          low = low;
          hidden = hidden;
        },
        refl,
      )

  entrylog_shared :
      s.information.provisional_logs_enabled ≡ false
      → Keeps (entrylog checks (some i) msg l request_id s) s
  entrylog_shared p =
      let log : Log = record { entries = shared; last_id = s.information.logentry_id } in
      let (pages, eq, shows) =
        entrylog-record_entry checks i msg l request_id s shared
          (subst (ShowAll 0 shared) (sym (active_shared s p)) shared_shown) (omega arith)
          (omega arith) in
      let after = record_entry i msg l request_id s log in
      let n = length-record_entry i msg l request_id s log in
      let on : s.information.logarea_initialized ≡ true = mode ∙ ap not p in
      (
        with_shared pages after.last_id s,
        eq ∙ ap (λ t. some t) (written_shared pages after.last_id s p),
        record {
          shared = after.entries;
          private = private;
          shared_shown = shows;
          private_shown = private_shown;
          shared_quiet = record_entry-Quiet i msg l request_id s log shared_quiet quiet;
          private_quiet = private_quiet;
          shared_count = n ∙ shared_count;
          private_count = private_count;
          address_count = address_count;
          few = few;
          created = created;
          mode = mode;
          low = low;
          hidden = λ q. absurd (ground arith);
        },
        refl,
      )

  pub entrylog-Healthy : Keeps (entrylog checks (some i) msg l request_id s) s
  entrylog-Healthy = elim (Bool-cases s.information.provisional_logs_enabled) [
    | inl p ↦ entrylog_private p
    | inr p ↦ entrylog_shared p
  ]
