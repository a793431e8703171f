-- ===== src/Migration/Logging/Append.antt =====
-- What `write_entry` does to a page: src/migtd/src/migration/logging.rs, `entrylog`.
pub mod Steps
use mig_td.Base.{
  ℕ, ◌+◌, ◌-◌, ◌^◌, ◌<◌, ◌≤◌, ◌≡◌, refl, sym, ap, ap₂, ◌∙◌, Bool, some, List, [], ◌∷◌, ◌++◌,
  append_assoc, append-nil, arith, length, drop, replicate, to_le, length-append, length-drop,
  length-replicate, copy, leb, if◌then◌else◌, inl, inr, Bool-cases, add_usize_lem, from_le,
  from_le-to_le,
}
use mig_td.Migration.Logging.Entry.{
  page_size, area_header_size, entry_header_size, LogEntry, LogEntryHeader, entry_header_as_bytes,
  Cursor, put_entry, entry_end, make_room, rewind, evict_front, reset_at_end, reset_invalid,
  write_entry,
}
use mig_td.Migration.Logging.Page.{
  page_of, entry_bytes, entries_bytes, length-entry_header_as_bytes, copy-page_of, fill-page_of,
  copy_start, copy_stop, slice_start, slice_stop,
}
use mig_td.Migration.Logging.Append.Steps.{
  put_entry_lem, at_front, make_room_fits, make_room_full, start_entry,
}

-- The entries that a page shows after one more: behind the others if it fits there, and else alone.
unfoldable pub push : List LogEntry → LogEntry → List LogEntry
push es e =
    if leb (length (entries_bytes es) + (entry_header_size + length e.value))
      (page_size - area_header_size)
    then es ++ (e ∷ [])
    else e ∷ []

-- header, whose offsets are those of the first and of the end of the last.
pub record Shows (v : ℕ) (es : List LogEntry) (page : List ℕ) : Type 0 where
  pub rest : List ℕ
  pub is_page : page ≡ page_of v 40 (40 + length (entries_bytes es)) (entries_bytes es ++ rest)
  pub size : 40 + (length (entries_bytes es) + length rest) ≡ page_size

entries_bytes-append_one :
    (es : List LogEntry) (e : LogEntry)
    → entries_bytes (es ++ (e ∷ [])) ≡ entries_bytes es ++ entry_bytes e
entries_bytes-append_one [] e = append-nil (entry_bytes e)
entries_bytes-append_one (x ∷ es) e =
    ap (λ l. entry_bytes x ++ l) (entries_bytes-append_one es e)
    ∙ sym (append_assoc (entry_bytes x) (entries_bytes es) (entry_bytes e))

module _ (checks : Bool) (v : ℕ) (e : LogEntry) (reserved : length e.header.reserved ≡ 3) where
  length-entry_bytes : length (entry_bytes e) ≡ 24 + length e.value
  length-entry_bytes = omega (
    arith,
    length-append (entry_header_as_bytes e.header) e.value,
    length-entry_header_as_bytes e.header reserved,
  )

  -- A page with the entries `es` and room behind them, whatever the end offset in its header.
  put_entry-Shows :
      (stop : ℕ) (es : List LogEntry) (ys : List ℕ)
      → 24 + length e.value ≤ length ys
      → 40 + (length (entries_bytes es) + length ys) ≡ page_size
      → (page : List ℕ) × (put_entry checks e.header e.value
            (at_front checks v stop (entries_bytes es ++ ys) (length (entries_bytes es)))
          ≡ some page)
        × Shows v (es ++ (e ∷ [])) page
  put_entry-Shows stop es ys room size =
      let xs = entries_bytes es in
      let hb = entry_header_as_bytes e.header in
      let (rest, eq, len) =
        put_entry_lem checks v 40 stop e.header e.value reserved xs ys room size in
      let more = entries_bytes-append_one es e in
      let m = ap (λ l. length l) more ∙ length-append xs (entry_bytes e) in
      let n = length-entry_bytes in
      let f : 40 + length xs + 24 + length e.value ≡ 40 + length (entries_bytes (es ++ (e ∷ []))) =
        omega arith in
      let g : xs ++ (hb ++ (e.value ++ rest)) ≡ entries_bytes (es ++ (e ∷ [])) ++ rest =
        ap (λ l. xs ++ l) (sym (append_assoc hb e.value rest))
        ∙ sym (append_assoc xs (entry_bytes e) rest)
        ∙ ap (λ l. l ++ rest) (sym more) in
      (
        page_of v 40 (40 + length xs + 24 + length e.value) (xs ++ (hb ++ (e.value ++ rest))),
        eq,
        record { rest = rest; is_page = ap₂ (page_of v 40) f g; size = omega arith },
      )

  module _ (es : List LogEntry) (page : List ℕ) (shown : Shows v es page) where
    open shown use {rest, is_page, size}

    write_entry_fits :
        length (entries_bytes es) + (24 + length e.value) ≤ 4056
        → (page' : List ℕ) × (write_entry checks e.header e.value page ≡ some page')
          × Shows v (es ++ (e ∷ [])) page'
    write_entry_fits h =
        let n = length (entries_bytes es) in
        let body = entries_bytes es ++ rest in
        let (page', eq, s) = put_entry-Shows (40 + n) es rest (omega arith) size in
        let room = make_room_fits checks v (40 + n) body n (length e.value) (omega arith) in
        (
          page',
          ap (write_entry checks e.header e.value) is_page
              ∙ start_entry checks v (40 + n) body n e.header e.value body n refl (omega arith) room
              ∙ eq,
          s,
        )

    write_entry_full :
        4056 < length (entries_bytes es) + (24 + length e.value)
        → 24 + length e.value ≤ 4056
        → (page' : List ℕ) × (write_entry checks e.header e.value page ≡ some page')
          × Shows v (e ∷ []) page'
    write_entry_full h k =
        let n = length (entries_bytes es) in
        let body = entries_bytes es ++ rest in
        let body' = entries_bytes es ++ (replicate (length rest) 0 ++ drop (length rest) rest) in
        let lb : length body' ≡ 4056 = omega (
          arith,
          length-append (entries_bytes es) (replicate (length rest) 0 ++ drop (length rest) rest),
          length-append (replicate (length rest) 0) (drop (length rest) rest),
          length-replicate {A = ℕ} (length rest) 0,
          length-drop (length rest) rest,
        ) in
        let (page', eq, s) = put_entry-Shows (40 + n) [] body' (omega arith) (omega arith) in
        let room =
          make_room_full checks v (40 + n) (entries_bytes es) rest (length e.value) (omega arith)
            (omega arith) size in
        (
          page',
          ap (write_entry checks e.header e.value) is_page
              ∙ start_entry checks v (40 + n) body n e.header e.value body' 0 refl (omega arith)
                  room
              ∙ eq,
          s,
        )

    -- An entry that a page can hold is written without a panic, and the page then shows `push`.
    pub write_entry-push :
        24 + length e.value ≤ 4056
        → (page' : List ℕ) × (write_entry checks e.header e.value page ≡ some page')
          × Shows v (push es e) page'
    unfolding push
    write_entry-push k =
        elim (Bool-cases (leb (length (entries_bytes es) + (24 + length e.value)) 4056)) [
          | inl h ↦ rw h (write_entry_fits (ground arith))
          | inr h ↦ rw h (write_entry_full (ground arith) k)
        ]
