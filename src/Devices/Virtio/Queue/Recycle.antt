-- ===== src/Devices/Virtio/Queue/Recycle.antt =====
-- `recycle_descriptors` of src/devices/virtio/src/virtqueue.rs on a chain.
use mig_td.Base.{
  append_assoc, append-nil, ℕ, zero, suc, ◌+◌, ◌-◌, ◌^◌, min, ◌<◌, ◌≤◌, ◌≡◌, ◌≢◌, refl, sym, ap,
  ◌∙◌, Bool, true, false, List, [], ◌∷◌, ◌++◌, arith, ltb, leb, ◌==◌, if◌then◌else◌, length, All,
  inl, inr, Bool-cases,
}
use mig_td.Devices.Virtio.Queue.{
  VirtQueue, VirtqueueBuf, Descriptor, ok, Recycling, put, consume, link, recycle,
}
use mig_td.Devices.Virtio.Queue.Chains.{
  count, count_self, Slot, indices, HoldsSlot, Holds, Linked, Linked-agree, put_self, put_other,
}

-- What recycling a chain does.
unfoldable pub recycled : List Slot → ℕ → Recycling → Recycling
recycled [] origin r = r
recycled (s ∷ []) origin r =
    let c = consume s.index r in record c { queue = link s.index origin c.queue }
recycled (s ∷ (t ∷ ss)) origin r = recycled (t ∷ ss) origin (consume s.index r)

-- The sum of the lengths, as far as it fits a u32.
unfoldable pub total_len : List Slot → ℕ → ℕ
total_len [] recorded = recorded
total_len (s ∷ ss) recorded = total_len ss (min (recorded + s.buf.len) (2 ^ 32 - 1))

-- The descriptors are in the table and in use.
abbrev pub InUse : VirtQueue → List Slot → Type 0
InUse q c = All (λ s. (s.index < q.queue_size) × (q.in_use s.index ≡ true)) c

consume_same :
    (index : ℕ) (r : Recycling)
    → ((consume index r).queue.queue_size ≡ r.queue.queue_size)
      × ((consume index r).queue.desc_shadow ≡ r.queue.desc_shadow)
unfolding consume
consume_same index r = (refl, refl)

consume-InUse :
    (i : ℕ) (r : Recycling) (c : List Slot)
    → count i (indices c) ≡ 0
    → InUse r.queue c
    → InUse (consume i r).queue c
unfolding consume
consume-InUse i r [] h k = tt
consume-InUse i r (s ∷ ss) h ((lt, u), k) =
    let ne : i ≢ s.index = λ e.
      absurd
        (omega (arith, count_self s.index (indices ss), ap (λ j. count j (indices (s ∷ ss))) e)) in
    ((lt, put_other i s.index false r.queue.in_use ne ∙ u), consume-InUse i r ss (omega arith) k)

consume-Holds :
    (i : ℕ) (r : Recycling) (c : List Slot)
    → Holds r.queue.desc_shadow c
    → Holds (consume i r).queue.desc_shadow c
unfolding consume
consume-Holds i r c h = h

-- The loop recycles a chain of descriptors in use, each of which occurs once.
pub recycle-recycled :
    (c : List Slot) (s : Slot) (n origin recorded : ℕ) (r : Recycling)
    → Holds r.queue.desc_shadow (s ∷ c)
    → InUse r.queue (s ∷ c)
    → ((i : ℕ) → count i (indices (s ∷ c)) ≤ 1)
    → length c < n
    → recycle n origin s.index recorded r
      ≡ (ok (total_len (s ∷ c) recorded), recycled (s ∷ c) origin r)
unfolding recycle recycled total_len
recycle-recycled c s zero origin recorded r h u o l = absurd (omega arith)
recycle-recycled [] s (suc n) origin recorded r h ((lt, u), us) o l =
    let a : leb r.queue.queue_size s.index ≡ false = ground arith in
    rw a (rw u (rw h.next (rw h.len refl)))
recycle-recycled (t ∷ ss) s (suc n) origin recorded r (h, e, hs) ((lt, u), us) o l =
    let a : leb r.queue.queue_size s.index ≡ false = ground arith in
    let z : (n == 0) ≡ false = ground arith in
    let none_left : count s.index (indices (t ∷ ss)) ≡ 0 =
      omega (arith, o s.index, count_self s.index (indices (t ∷ ss))) in
    let rest =
      recycle-recycled ss t n origin (min (recorded + s.buf.len) (2 ^ 32 - 1)) (consume s.index r)
        (consume-Holds s.index r (t ∷ ss) hs) (consume-InUse s.index r (t ∷ ss) none_left us)
        (λ i. omega (arith, o i)) (omega arith) in
    rw a (rw u (rw h.next (rw z (rw h.len (rw e rest)))))

-- The buffers of a chain that the device reads, and those that it writes.
unfoldable pub bufs : Bool → List Slot → List VirtqueueBuf
bufs w [] = []
bufs w (s ∷ ss) =
    let rest = bufs w ss in
    if s.writable then (if w then s.buf ∷ rest else rest) else (if w then rest else s.buf ∷ rest)

-- What is left of a bitmap without the descriptors of a chain.
unfoldable pub cleared : List Slot → (ℕ → Bool) → ℕ → Bool
cleared c bits i = if ltb 0 (count i (indices c)) then false else bits i

-- What recycling a chain leaves in the queue.
pub record Recycled (c : List Slot) (origin : ℕ) (r r' : Recycling) : Type 0 where
  pub queue_size : r'.queue.queue_size ≡ r.queue.queue_size
  pub free_head : r'.queue.free_head ≡ r.queue.free_head
  pub last_used_idx : r'.queue.last_used_idx ≡ r.queue.last_used_idx
  pub num_used : r'.queue.num_used ≡ r.queue.num_used - length c
  pub in_use : (i : ℕ) → r'.queue.in_use i ≡ cleared c r.queue.in_use i
  pub is_head : (i : ℕ) → r'.queue.is_head i ≡ cleared c r.queue.is_head i
  pub others : (i : ℕ) → count i (indices c) ≡ 0 → r'.queue.desc_shadow i ≡ r.queue.desc_shadow i
  pub g2h : r'.g2h ≡ r.g2h ++ bufs false c
  pub h2g : r'.h2g ≡ r.h2g ++ bufs true c

cleared-put :
    (c : List Slot) (s : Slot) (bits : ℕ → Bool) (i : ℕ)
    → cleared c (put s.index false bits) i ≡ cleared (s ∷ c) bits i
unfolding cleared put
cleared-put c s bits i = ground arith

bufs_cons : (w : Bool) (s : Slot) (c : List Slot) → bufs w (s ∷ c) ≡ bufs w (s ∷ []) ++ bufs w c
unfolding bufs
bufs_cons true s c = ground arith
bufs_cons false s c = ground arith

consume-bufs :
    (s : Slot) (b : Bool) (r : Recycling)
    → HoldsSlot r.queue.desc_shadow s b
    → ((consume s.index r).g2h ≡ r.g2h ++ bufs false (s ∷ []))
      × ((consume s.index r).h2g ≡ r.h2g ++ bufs true (s ∷ []))
unfolding consume bufs
consume-bufs s b r h = elim (Bool-cases s.writable) [
  | inl w ↦ rw w (rw (h.write ∙ w) (rw h.addr (rw h.len (sym (append-nil r.g2h), refl))))
  | inr w ↦ rw w (rw (h.write ∙ w) (rw h.addr (rw h.len (refl, sym (append-nil r.h2g)))))
]

pub recycled-Recycled :
    (c : List Slot) (s : Slot) (origin : ℕ) (r : Recycling)
    → Holds r.queue.desc_shadow (s ∷ c)
    → Recycled (s ∷ c) origin r (recycled (s ∷ c) origin r)
unfolding recycled consume link cleared
recycled-Recycled [] s origin r h = record {
  queue_size = refl;
  free_head = refl;
  last_used_idx = refl;
  num_used = omega arith;
  in_use = λ i. cleared-put [] s r.queue.in_use i;
  is_head = λ i. cleared-put [] s r.queue.is_head i;
  others = λ i e.
      put_other s.index i (record (r.queue.desc_shadow s.index) { next = origin })
        r.queue.desc_shadow
        (λ j. absurd (omega (arith, count_self s.index [], ap (λ k. count k (s.index ∷ [])) j)));
  g2h = (consume-bufs s false r h).0;
  h2g = (consume-bufs s false r h).1;
}
recycled-Recycled (t ∷ ss) s origin r (h, e, hs) =
    let k =
      recycled-Recycled ss t origin (consume s.index r) (consume-Holds s.index r (t ∷ ss) hs) in
    let (g, w) = consume-bufs s true r h in
    record {
      queue_size = k.queue_size;
      free_head = k.free_head;
      last_used_idx = k.last_used_idx;
      num_used = omega (arith, k.num_used);
      in_use = λ i. k.in_use i ∙ cleared-put (t ∷ ss) s r.queue.in_use i;
      is_head = λ i. k.is_head i ∙ cleared-put (t ∷ ss) s r.queue.is_head i;
      others = λ i e. k.others i (omega arith);
      g2h =
          k.g2h
          ∙ ap (λ l. l ++ bufs false (t ∷ ss)) g
          ∙ append_assoc r.g2h (bufs false (s ∷ [])) (bufs false (t ∷ ss))
          ∙ ap (λ l. r.g2h ++ l) (sym (bufs_cons false s (t ∷ ss)));
      h2g =
          k.h2g
          ∙ ap (λ l. l ++ bufs true (t ∷ ss)) w
          ∙ append_assoc r.h2g (bufs true (s ∷ [])) (bufs true (t ∷ ss))
          ∙ ap (λ l. r.h2g ++ l) (sym (bufs_cons true s (t ∷ ss)));
    }

-- The chain stands before the other free descriptors.
pub recycled-Linked :
    (c : List Slot) (s : Slot) (origin : ℕ) (r : Recycling) (free : List ℕ)
    → Holds r.queue.desc_shadow (s ∷ c)
    → Linked r.queue.desc_shadow origin free
    → ((i : ℕ) → count i (indices (s ∷ c)) + count i free ≤ 1)
    → Linked (recycled (s ∷ c) origin r).queue.desc_shadow s.index (indices (s ∷ c) ++ free)
unfolding recycled consume link
recycled-Linked [] s origin r free h l o =
    let old = r.queue.desc_shadow in
    let d : Descriptor = record (old s.index) { next = origin } in
    let e : put s.index d old s.index ≡ d = put_self s.index d old in
    (
      refl,
      rw e (
          Linked-agree old (put s.index d old) origin free
            (λ x m. sym (
              put_other s.index x d old (λ j.
                absurd
                  (omega (arith, o x, count_self s.index [], ap (λ k. count k (s.index ∷ [])) j)))))
            l),
    )
recycled-Linked (t ∷ ss) s origin r free (h, e, hs) l o =
    let r1 = consume s.index r in
    let hs1 = consume-Holds s.index r (t ∷ ss) hs in
    let k = recycled-Recycled ss t origin r1 hs1 in
    let z : count s.index (indices (t ∷ ss)) ≡ 0 =
      omega (arith, o s.index, count_self s.index (indices (t ∷ ss))) in
    let rest = recycled-Linked ss t origin r1 free hs1 l (λ i. omega (arith, o i)) in
    (refl, (ap (λ d. d.next) (k.others s.index z) ∙ e, rest.1))
