-- ===== src/Migration/Logging/Entry.antt =====
-- The 4 KiB page of one processor: its header, and one entry written behind the others, as
-- `entrylog` of src/migtd/src/migration/logging.rs does. `none` is a panic.
use mig_td.Base.{
  ℕ, zero, suc, ◌-◌, Bool, ◌&&◌, ◌||◌, Option, none, some, List, [], ◌∷◌, ◌++◌, ltb, leb, ◌==◌,
  if◌then◌else◌, length, slice?, to_le, from_le, add_usize, fill, copy, drop, take,
}
use mig_td.Base.OptionDo.{◌>>=◌}

abbrev pub page_size : ℕ
page_size = 4096

-- `size_of::<LogAreaBufferHeader>()` and `size_of::<LogEntryHeader>()`
abbrev pub area_header_size : ℕ
area_header_size = 40

abbrev pub entry_header_size : ℕ
entry_header_size = 24

abbrev pub logarea_signature : List ℕ
logarea_signature =
    0x4d ∷ 0x69 ∷ 0x67 ∷ 0x54 ∷ 0x44 ∷ 0x20 ∷ 0x4c ∷ 0x6f ∷ 0x67 ∷ 0x41 ∷ 0x72 ∷ 0x65 ∷ 0x61 ∷ 0x20
    ∷ 0x31 ∷ 0x00 ∷ []

pub record LogAreaBufferHeader : Type 0 where
  pub signature : List ℕ
  pub vcpuindex : ℕ
  pub reserved : ℕ
  pub startoffset : ℕ
  pub endoffset : ℕ

pub record LogEntryHeader : Type 0 where
  pub log_entry_id : ℕ
  pub mig_request_id : ℕ
  pub loglevel : ℕ
  pub reserved : List ℕ
  pub length : ℕ

pub record LogEntry : Type 0 where
  pub header : LogEntryHeader
  pub value : List ℕ

unfoldable pub area_header_as_bytes : LogAreaBufferHeader → List ℕ
area_header_as_bytes h =
    h.signature
    ++ (to_le 4 h.vcpuindex
        ++ (to_le 4 h.reserved ++ (to_le 8 h.startoffset ++ to_le 8 h.endoffset)))

unfoldable pub entry_header_as_bytes : LogEntryHeader → List ℕ
entry_header_as_bytes h =
    to_le 8 h.log_entry_id
    ++ (to_le 8 h.mig_request_id ++ (h.loglevel ∷ (h.reserved ++ to_le 4 h.length)))

-- `transmute_ref!` of 24 bytes
unfoldable pub entry_header_from_bytes : List ℕ → LogEntryHeader
entry_header_from_bytes bs = record {
  log_entry_id = from_le (take 8 bs);
  mig_request_id = from_le (take 8 (drop 8 bs));
  loglevel = from_le (take 1 (drop 16 bs));
  reserved = take 3 (drop 17 bs);
  length = from_le (take 4 (drop 20 bs));
}

-- The local variables of `entrylog`.
pub record Cursor : Type 0 where
  pub data_buffer : List ℕ
  pub currentstartoffset : ℕ
  pub currentendoffset : ℕ

-- `checks` tells whether the build checks additions for overflow.
module _ (checks : Bool) where
  -- `at + LOGENTRYHEADERSIZE + msg.len()`
  unfoldable pub entry_end : ℕ → ℕ → Option ℕ
  entry_end at len = do a ← add_usize checks at entry_header_size; add_usize checks a len

  -- The entry header at an offset.
  unfoldable pub read_entry_header : List ℕ → ℕ → Option LogEntryHeader
  read_entry_header buffer at = do
    b ← add_usize checks at entry_header_size
    bs ← slice? buffer at b
    some (entry_header_from_bytes bs)

  -- Where the next entry to evict starts.
  unfoldable pub evict_at : ℕ → Option ℕ
  evict_at start = do
    e ← add_usize checks start entry_header_size
    some (if leb page_size e then area_header_size else start)

  -- One round of the loop that evicts: the buffer with one more entry cleared, the offset behind
  -- it, and its length.
  unfoldable pub evict_one : List ℕ → ℕ → Option (List ℕ × ℕ × ℕ)
  evict_one buffer start = do
    at ← evict_at start
    hdr ← read_entry_header buffer at
    totallength ← add_usize checks hdr.length entry_header_size
    next ← add_usize checks at totallength
    cleared ← fill buffer at next
    some (cleared, next, totallength)

  -- The loop that clears entries from the start offset on until `reqdatasize` bytes are free, on
  -- fuel. It answers the buffer and the start offset.
  unfoldable pub evict : ℕ → List ℕ → ℕ → ℕ → Option (List ℕ × ℕ)
  evict n buffer start zero = some (buffer, start)
  evict zero buffer start (suc reqdatasize) = none
  evict (suc n) buffer start (suc reqdatasize) = do
    (cleared, next, totallength) ← evict_one buffer start
    evict n cleared next (suc reqdatasize - totallength)

  -- The offset goes to the front of the page if the entry does not fit behind it.
  unfoldable pub rewind : ℕ → Cursor → Option Cursor
  rewind required c =
      if ltb page_size required
      then (do
        cleared ← fill c.data_buffer c.currentendoffset page_size
        some (record c { data_buffer = cleared; currentendoffset = area_header_size }))
      else some c

  -- The entries that the new one would overwrite are evicted.
  unfoldable pub evict_front : ℕ → Cursor → Option Cursor
  evict_front len c =
      if ltb c.currentendoffset c.currentstartoffset
      then (do
        cleared ← fill c.data_buffer c.currentendoffset c.currentstartoffset
        required ← entry_end c.currentendoffset len
        needed ← add_usize checks entry_header_size len
        let req = needed - (c.currentstartoffset - c.currentendoffset)
        if ltb c.currentstartoffset required
            then (do
              r ← evict req cleared c.currentstartoffset req
              some (record c { data_buffer = r.0; currentstartoffset = r.1 }))
            else some (record c { data_buffer = cleared }))
      else some c

  unfoldable pub make_room : ℕ → Cursor → Option Cursor
  make_room len c = do
    required ← entry_end c.currentendoffset len
    if ltb page_size required || ltb c.currentendoffset c.currentstartoffset
        then (do rewound ← rewind required c; evict_front len rewound)
        else some c

  -- "Reset startoffset if no message is available at the end of buffer"
  unfoldable pub reset_at_end : Cursor → Option Cursor
  reset_at_end c = do
    e ← add_usize checks c.currentstartoffset entry_header_size
    if leb page_size e
        then (do
          cleared ← fill c.data_buffer c.currentstartoffset page_size
          some (record c { data_buffer = cleared; currentstartoffset = area_header_size }))
        else some c

  -- "Reset startoffset if no valid message is available"
  unfoldable pub reset_invalid : Cursor → Option Cursor
  reset_invalid c = if c.currentstartoffset == area_header_size then some c else (do
    hdr ← read_entry_header c.data_buffer c.currentstartoffset
    some (
        if (hdr.length == 0) && (hdr.log_entry_id == 0)
        then record c { currentstartoffset = area_header_size }
        else c))

  -- The entry and the two offsets are written.
  unfoldable pub put_entry : LogEntryHeader → List ℕ → Cursor → Option (List ℕ)
  put_entry hdr msg c = do
    e ← entry_end c.currentendoffset (length msg)
    cleared ← fill c.data_buffer c.currentendoffset e
    with_header ← copy checks cleared c.currentendoffset (entry_header_as_bytes hdr)
    at ← add_usize checks c.currentendoffset entry_header_size
    with_msg ← copy checks with_header at msg
    last ← add_usize checks at (length msg)
    with_start ← copy checks with_msg 24 (to_le 8 c.currentstartoffset)
    copy checks with_start 32 (to_le 8 last)

  -- What `entrylog` does to the page of its processor.
  unfoldable pub write_entry : LogEntryHeader → List ℕ → List ℕ → Option (List ℕ)
  write_entry hdr msg buffer = do
    start ← slice? buffer 24 32
    last ← slice? buffer 32 40
    roomy ← make_room (length msg) (record {
      data_buffer = buffer;
      currentstartoffset = from_le start;
      currentendoffset = from_le last;
    })
    at_end ← reset_at_end roomy
    valid ← reset_invalid at_end
    put_entry hdr msg valid
