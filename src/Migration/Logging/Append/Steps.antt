-- ===== src/Migration/Logging/Append/Steps.antt =====
-- The steps of `entrylog` of src/migtd/src/migration/logging.rs on the bytes of a page.
use mig_td.Base.{
  ℕ, ◌+◌, ◌^◌, ◌<◌, ◌≤◌, ◌≡◌, refl, sym, ap, ◌∙◌, Bool, some, List, ◌++◌, append_assoc, arith,
  length, drop, replicate, to_le, length-append, length-drop, length-replicate, copy, add_usize_lem,
  from_le, from_le-to_le,
}
use mig_td.Migration.Logging.Entry.{
  page_size, LogEntryHeader, entry_header_as_bytes, Cursor, put_entry, entry_end, make_room, rewind,
  evict_front, reset_at_end, reset_invalid, write_entry,
}
use mig_td.Migration.Logging.Page.{
  page_of, length-entry_header_as_bytes, copy-page_of, fill-page_of, copy_start, copy_stop,
  slice_start, slice_stop,
}

entry_end_lem :
    (checks : Bool) (at len : ℕ)
    → at + 24 + len < 2 ^ 64
    → entry_end checks at len ≡ some (at + 24 + len)
unfolding entry_end
entry_end_lem checks at len h =
    rw (add_usize_lem checks at 24 (omega arith)) (add_usize_lem checks (at + 24) len h)

module _ (checks : Bool) (v start stop : ℕ) (hdr : LogEntryHeader) (msg : List ℕ)
    (reserved : length hdr.reserved ≡ 3) where
  -- Where there is room behind the first bytes of a page, the entry goes there.
  pub put_entry_lem :
      (xs ys : List ℕ)
      → 24 + length msg ≤ length ys
      → 40 + (length xs + length ys) ≡ page_size
      → (rest : List ℕ) × (put_entry checks hdr msg (record {
        data_buffer = page_of v start stop (xs ++ ys);
        currentstartoffset = 40;
        currentendoffset = 40 + length xs;
      })
          ≡ some (
              page_of v 40
                (40 + length xs + 24 + length msg)
                (xs ++ (entry_header_as_bytes hdr ++ (msg ++ rest)))))
        × (length xs + (24 + length msg + length rest) + 40 ≡ page_size)
  unfolding put_entry
  put_entry_lem xs ys room size =
      let n = 24 + length msg in
      let hb = entry_header_as_bytes hdr in
      let zs = replicate n 0 ++ drop n ys in
      let lz : length zs ≡ length ys = omega (
        arith,
        length-append (replicate n 0) (drop n ys),
        length-replicate {A = ℕ} n 0,
        length-drop n ys,
      ) in
      let lh = length-entry_header_as_bytes hdr reserved in
      let d1 = drop (length hb) zs in
      let ld1 = length-drop (length hb) zs in
      let lx = length-append xs hb in
      let rest = drop (length msg) d1 in
      let lr = length-drop (length msg) d1 in
      let e1 = entry_end_lem checks (40 + length xs) (length msg) (omega arith) in
      let e2 =
        fill-page_of v start stop xs ys (40 + length xs) (40 + length xs + 24 + length msg) n refl
          (omega arith) room size in
      let e3 =
        copy-page_of v start stop checks xs zs (40 + length xs) hb refl (omega arith)
          (omega arith) in
      let e4 = add_usize_lem checks (40 + length xs) 24 (omega arith) in
      let e5 =
        ap (λ b. copy checks (page_of v start stop b) (40 + length xs + 24) msg)
          (sym (append_assoc xs hb d1))
        ∙ copy-page_of v start stop checks (xs ++ hb) d1 (40 + length xs + 24) msg (omega arith)
            (omega arith) (omega arith) in
      let e6 = add_usize_lem checks (40 + length xs + 24) (length msg) (omega arith) in
      let e7 =
        copy_start v start stop checks (xs ++ hb ++ (msg ++ rest)) 40
          (omega (arith, length-append (xs ++ hb) (msg ++ rest), length-append msg rest)) in
      let e8 =
        copy_stop v 40 stop checks (xs ++ hb ++ (msg ++ rest)) (40 + length xs + 24 + length msg)
          (omega (arith, length-append (xs ++ hb) (msg ++ rest), length-append msg rest)) in
      let e9 = append_assoc xs hb (msg ++ rest) in
      (
        rest,
        rw e1 (rw e2 (rw e3 (rw e4 (rw e5 (rw e6 (rw e7 (rw e8 (rw e9 refl)))))))),
        omega arith,
      )

module _ (checks : Bool) (v stop : ℕ) where
  -- The cursor that `write_entry` reads from a page whose entries begin right behind the header.
  abbrev pub at_front : List ℕ → ℕ → Cursor
  at_front body n = record {
    data_buffer = page_of v 40 stop body;
    currentstartoffset = 40;
    currentendoffset = 40 + n;
  }

  pub make_room_fits :
      (body : List ℕ) (n len : ℕ)
      → 40 + n + 24 + len ≤ page_size
      → make_room checks len (at_front body n) ≡ some (at_front body n)
  unfolding make_room
  make_room_fits body n len h = rw (entry_end_lem checks (40 + n) len (omega arith)) (ground arith)

  -- Nothing is evicted: the start offset is not behind the front.
  pub make_room_full :
      (xs ys : List ℕ) (len : ℕ)
      → page_size < 40 + length xs + 24 + len
      → 24 + len ≤ page_size
      → 40 + (length xs + length ys) ≡ page_size
      → make_room checks len (at_front (xs ++ ys) (length xs))
        ≡ some (at_front (xs ++ (replicate (length ys) 0 ++ drop (length ys) ys)) 0)
  unfolding make_room rewind evict_front
  make_room_full xs ys len h k size =
      let e1 = entry_end_lem checks (40 + length xs) len (omega arith) in
      let e2 =
        fill-page_of v 40 stop xs ys (40 + length xs) page_size (length ys) refl (omega arith)
          (omega arith) size in
      rw e1 (ground (arith, e2))

  resets :
      (body : List ℕ) (n : ℕ)
      → (reset_at_end checks (at_front body n) ≡ some (at_front body n))
        × (reset_invalid checks (at_front body n) ≡ some (at_front body n))
  unfolding reset_at_end reset_invalid
  resets body n = (rw (add_usize_lem checks 40 24 (omega arith)) refl, refl)

  pub start_entry :
      (body : List ℕ) (n : ℕ) (hdr : LogEntryHeader) (msg : List ℕ) (body' : List ℕ) (n' : ℕ)
      → stop ≡ 40 + n
      → stop < 256 ^ 8
      → make_room checks (length msg) (at_front body n) ≡ some (at_front body' n')
      → write_entry checks hdr msg (page_of v 40 stop body)
        ≡ put_entry checks hdr msg (at_front body' n')
  unfolding write_entry
  start_entry body n hdr msg body' n' hs lt room =
      let e1 = slice_start v 40 stop body in
      let e2 = slice_stop v 40 stop body in
      let e3 : from_le (to_le 8 40) ≡ 40 = from_le-to_le 8 40 (omega arith) in
      let e4 : from_le (to_le 8 stop) ≡ 40 + n = from_le-to_le 8 stop lt ∙ hs in
      let (e5, e6) = resets body' n' in rw e1 (rw e2 (rw e3 (rw e4 (rw room (rw e5 (rw e6 refl))))))

-- The page of a processor shows these entries: they stand one behind the other right behind the
