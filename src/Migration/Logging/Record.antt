-- ===== src/Migration/Logging/Record.antt =====
-- `entrylog` of src/migtd/src/migration/logging.rs against the entries that the pages show.
use mig_td.Base.{
  ℕ, ◌+◌, ◌^◌, ◌<◌, ◌≤◌, ◌≡◌, refl, sym, ap, subst, ◌∙◌, Bool, true, false, ◌&&◌, some, List, ◌++◌,
  arith, ltb, leb, ◌==◌, ==_iff, if◌then◌else◌, length, set, slice?, from_le, to_le, from_le-to_le,
  inl, inr, Bool-cases,
}
use mig_td.Migration.Logging.Level.{Level}
use mig_td.Migration.Logging.Entry.{LogEntry}
use mig_td.Migration.Logging.Append.{Shows, push, write_entry-push}
use mig_td.Migration.Logging.Page.{slice_vcpu, entries_bytes}
use mig_td.Migration.Logging.Area.{
  Logging, active, set_active, entrylog, entrylog_on, entry_header, next_id, records,
}
use mig_td.Migration.Logging.Areas.{ShowAll, entries_of, ShowAll-page, ShowAll-set}

-- The state after an entry is written: other pages, and another id.
unfoldable pub written : List (List ℕ) → ℕ → Logging → Logging
written pages id s =
    set_active pages (record s { information = record s.information { logentry_id = id } })

pub active-written :
    (pages : List (List ℕ)) (id : ℕ) (s : Logging) → active (written pages id s) ≡ pages
unfolding active written set_active
active-written pages id s = ground arith

written_same : (s : Logging) → s ≡ written (active s) s.information.logentry_id s
unfolding active written set_active
written_same s = elim (Bool-cases s.information.provisional_logs_enabled) [
  | inl h ↦ rw h refl
  | inr h ↦ rw h refl
]

-- The entries after one more on a processor.
unfoldable pub recorded : List (List LogEntry) → ℕ → LogEntry → List (List LogEntry)
recorded ess i e = set ess i (push (entries_of ess i) e)

-- The entry that `entrylog` makes.
unfoldable pub new_entry : List ℕ → Level → ℕ → Logging → LogEntry
new_entry msg l request_id s = record {
  header = entry_header (next_id s.information.logentry_id) msg l request_id;
  value = msg;
}

module _ (checks : Bool) (i : ℕ) (msg : List ℕ) (l : Level) (request_id : ℕ) (s : Logging)
    (ess : List (List LogEntry)) (shown : ShowAll 0 ess (active s)) (is_vcpu : i < length ess)
    (few : length ess ≤ 2 ^ 32) where
  entrylog_on_lem :
      length msg ≤ 4032
      → (pages : List (List ℕ)) × (entrylog_on checks i msg l request_id s
          ≡ some (written pages (next_id s.information.logentry_id) s))
        × ShowAll 0 (recorded ess i (new_entry msg l request_id s)) pages
  unfolding entrylog_on written recorded new_entry entry_header
  entrylog_on_lem h =
      let (page, found, shows) = ShowAll-page 0 ess (active s) i shown is_vcpu in
      let z : 0 + i ≡ i = omega arith in
      let e = new_entry msg l request_id s in
      let shows_i = subst (λ n. Shows n (entries_of ess i) page) z shows in
      let (page', eq, shows') =
        write_entry-push checks i e refl (entries_of ess i) page shows_i (omega arith) in
      let sliced =
        ap (λ p. slice? p 16 20) shows_i.is_page
        ∙ slice_vcpu i 40 (40 + length (entries_bytes (entries_of ess i)))
            (entries_bytes (entries_of ess i) ++ shows_i.rest) in
      let v : from_le (to_le 4 i) ≡ i = from_le-to_le 4 i (omega arith) in
      let t : (i == from_le (to_le 4 i)) ≡ true = (==_iff i (from_le (to_le 4 i))).1 (sym v) in
      (
        set (active s) i page',
        rw found (rw sliced (rw t (rw eq refl))),
        ShowAll-set 0 ess (active s) i (push (entries_of ess i) e) page' shown
            (subst (λ n. Shows n (push (entries_of ess i) e) page') (sym z) shows'),
      )

-- Whether `entrylog` records a message.
unfoldable pub takes : List ℕ → Level → Logging → Bool
takes msg l s = records l s.information && leb (length msg) 4032

-- The log as the pages show it: the entries of each processor, and the last id.
pub record Log : Type 0 where
  pub entries : List (List LogEntry)
  pub last_id : ℕ

unfoldable pub record_entry : ℕ → List ℕ → Level → ℕ → Logging → Log → Log
record_entry i msg l request_id s log =
    if takes msg l s
    then record {
      entries = recorded log.entries i (new_entry msg l request_id s);
      last_id = next_id log.last_id;
    }
    else log

module _ (checks : Bool) (i : ℕ) (msg : List ℕ) (l : Level) (request_id : ℕ) (s : Logging)
    (ess : List (List LogEntry)) (shown : ShowAll 0 ess (active s)) (is_vcpu : i < length ess)
    (few : length ess ≤ 2 ^ 32) where
  abbrev log_before : Log
  log_before = record { entries = ess; last_id = s.information.logentry_id }

  abbrev log_after : Log
  log_after = record_entry i msg l request_id s log_before

  -- On pages that are intact, that is that show a log, and on a processor with a page, `entrylog` does
  -- not panic. It writes the pages in use and the last id, and these show the log with one more entry:
  -- behind the others of its processor where it fits, and else in the place of all of them. A message
  -- that is too long, or of a level that is not recorded, changes nothing.
  pub entrylog-record_entry :
      (pages : List (List ℕ)) × (entrylog checks (some i) msg l request_id s
        ≡ some (written pages log_after.last_id s))
      × ShowAll 0 log_after.entries pages
  unfolding entrylog record_entry takes
  entrylog-record_entry = elim (Bool-cases (records l s.information)) [
    | inl h ↦ elim (Bool-cases (ltb 4032 (length msg))) [
      | inl k ↦
          let n : leb (length msg) 4032 ≡ false = ground arith in
          rw h (rw k (rw n (active s, ap (λ t. some t) (written_same s), shown)))
      | inr k ↦
          let n : leb (length msg) 4032 ≡ true = ground arith in
          rw h (
            rw k (
              rw n
                (entrylog_on_lem checks i msg l request_id s ess shown is_vcpu few (ground arith))))
    ]
    | inr h ↦ rw h (active s, ap (λ t. some t) (written_same s), shown)
  ]
