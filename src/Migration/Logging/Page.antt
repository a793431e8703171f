-- ===== src/Migration/Logging/Page.antt =====
-- The shape of the pages that src/migtd/src/migration/logging.rs keeps: a header, entries one behind
-- the other, and bytes that belong to no entry.
use mig_td.Base.{
  ℕ, ◌+◌, ◌-◌, ◌≤◌, ◌≡◌, refl, sym, ap, ◌∙◌, Bool, some, List, [], ◌∷◌, ◌++◌, append_assoc, arith,
  length, drop, replicate, to_le, length-append, length-to_le, length-replicate, overwrite, fill,
  copy, overwrite-behind, overwrite_next, fill_lem, copy_lem, slice?, slice_next,
  drop-append_length,
}
use mig_td.Migration.Logging.Entry.{
  page_size, LogEntry, LogEntryHeader, logarea_signature, entry_header_as_bytes,
}

-- The header up to the start offset.
unfoldable pub front : ℕ → List ℕ
front v = logarea_signature ++ (to_le 4 v ++ to_le 4 0)

-- A page with a processor's number, two offsets, and what follows the header.
unfoldable pub page_of : ℕ → ℕ → ℕ → List ℕ → List ℕ
page_of v start stop body = front v ++ (to_le 8 start ++ (to_le 8 stop ++ body))

abbrev pub entry_bytes : LogEntry → List ℕ
entry_bytes e = entry_header_as_bytes e.header ++ e.value

abbrev pub entries_bytes : List LogEntry → List ℕ
entries_bytes [] = []
entries_bytes (e ∷ es) = entry_bytes e ++ entries_bytes es

length-front : (v : ℕ) → length (front v) ≡ 24
unfolding front
length-front v = omega (
  arith,
  length-append logarea_signature (to_le 4 v ++ to_le 4 0),
  length-append (to_le 4 v) (to_le 4 0),
  length-to_le 4 v,
  length-to_le 4 0,
)

pub length-entry_header_as_bytes :
    (h : LogEntryHeader) → length h.reserved ≡ 3 → length (entry_header_as_bytes h) ≡ 24
unfolding entry_header_as_bytes
length-entry_header_as_bytes h r = omega (
  arith,
  length-append (to_le 8 h.log_entry_id)
      (to_le 8 h.mig_request_id ++ (h.loglevel ∷ (h.reserved ++ to_le 4 h.length))),
  length-append (to_le 8 h.mig_request_id) (h.loglevel ∷ (h.reserved ++ to_le 4 h.length)),
  length-append h.reserved (to_le 4 h.length),
  length-to_le 8 h.log_entry_id,
  length-to_le 8 h.mig_request_id,
  length-to_le 4 h.length,
)

-- What a new offset of eight bytes stands in front of.
drop-to_le : (m n : ℕ) (xs : List ℕ) → drop (length (to_le 8 m)) (to_le 8 n ++ xs) ≡ xs
drop-to_le m n xs =
    drop-append_length (length (to_le 8 m)) (to_le 8 n) xs
      (omega (arith, length-to_le 8 m, length-to_le 8 n))

module _ (v start stop : ℕ) where
  pub length-page_of : (body : List ℕ) → length (page_of v start stop body) ≡ 40 + length body
  unfolding page_of
  length-page_of body = omega (
    arith,
    length-front v,
    length-append (front v) (to_le 8 start ++ (to_le 8 stop ++ body)),
    length-append (to_le 8 start) (to_le 8 stop ++ body),
    length-append (to_le 8 stop) body,
    length-to_le 8 start,
    length-to_le 8 stop,
  )

  overwrite-body :
      (body : List ℕ) (a c : ℕ) (bs : List ℕ)
      → c ≡ 40 + a
      → overwrite (page_of v start stop body) c bs ≡ page_of v start stop (overwrite body a bs)
  unfolding page_of
  overwrite-body body a c bs h =
      overwrite-behind (front v) (to_le 8 start ++ (to_le 8 stop ++ body)) (16 + a) c bs
        (omega (arith, length-front v))
      ∙ ap (λ l. front v ++ l)
          (overwrite-behind (to_le 8 start) (to_le 8 stop ++ body) (8 + a) (16 + a) bs
              (omega (arith, length-to_le 8 start))
            ∙ ap (λ l. to_le 8 start ++ l)
                (overwrite-behind (to_le 8 stop) body a (8 + a) bs
                  (omega (arith, length-to_le 8 stop))))

  -- A write behind the first bytes of what follows the header.
  overwrite-page_of :
      (xs ys : List ℕ) (c : ℕ) (bs : List ℕ)
      → c ≡ 40 + length xs
      → overwrite (page_of v start stop (xs ++ ys)) c bs
        ≡ page_of v start stop (xs ++ (bs ++ drop (length bs) ys))
  overwrite-page_of xs ys c bs h =
      overwrite-body (xs ++ ys) (length xs) c bs h
      ∙ ap (page_of v start stop) (overwrite_next xs ys (length xs) bs refl)

  pub copy-page_of :
      (checks : Bool) (xs ys : List ℕ) (c : ℕ) (bs : List ℕ)
      → c ≡ 40 + length xs
      → length bs ≤ length ys
      → 40 + (length xs + length ys) ≡ page_size
      → copy checks (page_of v start stop (xs ++ ys)) c bs
        ≡ some (page_of v start stop (xs ++ (bs ++ drop (length bs) ys)))
  copy-page_of checks xs ys c bs h k l =
      let m = length-page_of (xs ++ ys) in
      let n = length-append xs ys in
      copy_lem checks (page_of v start stop (xs ++ ys)) c bs (omega arith) (omega arith)
      ∙ ap (λ p. some p) (overwrite-page_of xs ys c bs h)

  pub fill-page_of :
      (xs ys : List ℕ) (a b n : ℕ)
      → a ≡ 40 + length xs
      → b ≡ a + n
      → n ≤ length ys
      → 40 + (length xs + length ys) ≡ page_size
      → fill (page_of v start stop (xs ++ ys)) a b
        ≡ some (page_of v start stop (xs ++ (replicate n 0 ++ drop n ys)))
  fill-page_of xs ys a b n ha hb k l =
      let m = length-page_of (xs ++ ys) in
      let p = length-append xs ys in
      let e : b - a ≡ n = omega arith in
      let w = overwrite-page_of xs ys a (replicate n 0) ha in
      fill_lem (page_of v start stop (xs ++ ys)) a b (omega arith) (omega arith)
      ∙ ap (λ i. some (overwrite (page_of v start stop (xs ++ ys)) a (replicate i 0))) e
      ∙ ap (λ p. some p) w
      ∙ ap (λ i. some (page_of v start stop (xs ++ (replicate n 0 ++ drop i ys))))
          (length-replicate n 0)

  pub copy_start :
      (checks : Bool) (body : List ℕ) (s : ℕ)
      → 40 + length body ≡ page_size
      → copy checks (page_of v start stop body) 24 (to_le 8 s) ≡ some (page_of v s stop body)
  unfolding page_of
  copy_start checks body s h =
      let m = length-page_of body in
      let n = length-to_le 8 s in
      copy_lem checks (page_of v start stop body) 24 (to_le 8 s) (omega arith) (omega arith)
      ∙ ap (λ p. some p)
          (overwrite_next (front v) (to_le 8 start ++ (to_le 8 stop ++ body)) 24 (to_le 8 s)
              (sym (length-front v))
            ∙ ap (λ l. front v ++ (to_le 8 s ++ l)) (drop-to_le s start (to_le 8 stop ++ body)))

  pub copy_stop :
      (checks : Bool) (body : List ℕ) (s : ℕ)
      → 40 + length body ≡ page_size
      → copy checks (page_of v start stop body) 32 (to_le 8 s) ≡ some (page_of v start s body)
  unfolding page_of
  copy_stop checks body s h =
      let m = length-page_of body in
      let n = length-to_le 8 s in
      copy_lem checks (page_of v start stop body) 32 (to_le 8 s) (omega arith) (omega arith)
      ∙ ap (λ p. some p)
          (overwrite-behind (front v) (to_le 8 start ++ (to_le 8 stop ++ body)) 8 32 (to_le 8 s)
              (omega (arith, length-front v))
            ∙ ap (λ l. front v ++ l)
                (overwrite_next (to_le 8 start) (to_le 8 stop ++ body) 8 (to_le 8 s)
                    (sym (length-to_le 8 start))
                  ∙ ap (λ l. to_le 8 start ++ (to_le 8 s ++ l)) (drop-to_le s stop body)))

  -- The two offsets are read back.
  pub slice_start :
      (body : List ℕ) → slice? (page_of v start stop body) 24 32 ≡ some (to_le 8 start)
  unfolding page_of
  slice_start body =
      slice_next (front v) (to_le 8 start) (to_le 8 stop ++ body) 24 32 (sym (length-front v))
        (omega (arith, length-front v, length-to_le 8 start))

  pub slice_stop : (body : List ℕ) → slice? (page_of v start stop body) 32 40 ≡ some (to_le 8 stop)
  unfolding page_of
  slice_stop body =
      ap (λ l. slice? l 32 40) (sym (append_assoc (front v) (to_le 8 start) (to_le 8 stop ++ body)))
      ∙ slice_next (front v ++ to_le 8 start) (to_le 8 stop) body 32 40
          (omega
            (arith, length-append (front v) (to_le 8 start), length-front v, length-to_le 8 start))
          (omega (
            arith,
            length-append (front v) (to_le 8 start),
            length-front v,
            length-to_le 8 start,
            length-to_le 8 stop,
          ))

  -- So is the processor's number.
  pub slice_vcpu : (body : List ℕ) → slice? (page_of v start stop body) 16 20 ≡ some (to_le 4 v)
  unfolding page_of front
  slice_vcpu body =
      let tail = to_le 8 start ++ (to_le 8 stop ++ body) in
      ap (λ l. slice? (logarea_signature ++ l) 16 20) (append_assoc (to_le 4 v) (to_le 4 0) tail)
      ∙ slice_next logarea_signature (to_le 4 v) (to_le 4 0 ++ tail) 16 20 refl
          (omega (arith, length-to_le 4 v))
