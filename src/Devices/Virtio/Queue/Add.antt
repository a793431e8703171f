-- ===== src/Devices/Virtio/Queue/Add.antt =====
-- `VirtQueue::add` of src/devices/virtio/src/virtqueue.rs.
use mig_td.Base.{
  ℕ, ◌+◌, ◌%◌, ◌<◌, ◌≤◌, ◌≡◌, refl, sym, ap, subst, ◌∙◌, true, false, ◌&&◌, List, [], ◌∷◌, ◌++◌,
  arith, ltb, length, length-append, is_empty, All, All-append, inl, inr, Bool-cases, ◌==◌, ==_iff,
  ◌^◌, ◌≢◌,
}
use native.Mathlib.Nat.{mod-lt}
use mig_td.Devices.Virtio.Queue.{
  VirtQueue, VirtqueueBuf, DescFlags, Descriptor, Outcome, ok, err, invalid_parameter,
  buffer_too_small, put, without_next, publish_chain, flagged, add,
}
use mig_td.Devices.Virtio.Queue.Chains.{
  count, count-append, Slot, indices, used, heads, Holds, Linked, Linked-agree, All-Holds-agree,
  Sound, length-indices, put_other, put_self,
}
use mig_td.Devices.Virtio.Queue.Recycle.{bufs}
use mig_td.Devices.Virtio.Queue.Program.{last_of, Programmed, add_descriptors-Programmed}
use mig_td.Devices.Virtio.Queue.Closing.{
  last_of_in, closed-Holds, flagged-has_next, length-flagged, length-StandsFor, bufs-StandsFor,
  both_empty, some_buffers, in_use_counts, put_counts,
}

-- What the device can read of a new chain: its descriptors in the shared table have the addresses,
-- lengths and flags of the private copy, and no other descriptor has changed, nor the field `next` of any; the
-- next place of the available ring names the head, and the index of the ring is one further.
pub record Visible (q q' : VirtQueue) (s : Slot) (c : List Slot) : Type 0 where
  pub descriptors :
      (i : ℕ)
      → 1 ≤ count i (indices (s ∷ c))
      → q'.desc i ≡ record (q'.desc_shadow i) { next = (q.desc i).next }
  pub others : (i : ℕ) → count i (indices (s ∷ c)) ≡ 0 → q'.desc i ≡ q.desc i
  pub ring : q'.avail_ring ≡ put (q.avail_idx % q.queue_size) s.index q.avail_ring
  pub index : q'.avail_ring_idx ≡ (q.avail_idx + 1) % 2 ^ 16
  pub private_index : q'.avail_idx ≡ (q.avail_idx + 1) % 2 ^ 16
  pub event : q'.used_event ≡ (q.avail_idx + 1) % 2 ^ 16

-- How `add` ends.
pub data Added (g2h h2g : List VirtqueueBuf) (q : VirtQueue) (free : List ℕ)
    (chains : List (List Slot)) : Outcome ℕ × VirtQueue → Type 0 where
  no_buffers : length g2h + length h2g ≡ 0 → Added g2h h2g q free chains (err invalid_parameter, q)
  too_many :
      length free < length g2h + length h2g → Added g2h h2g q free chains (err buffer_too_small, q)
  added :
      (s : Slot) (c : List Slot) (left : List ℕ) (q' : VirtQueue)
      → free ≡ indices (s ∷ c) ++ left
      → Sound q' left ((s ∷ c) ∷ chains)
      → bufs false (s ∷ c) ≡ g2h
      → bufs true (s ∷ c) ≡ h2g
      → Visible q q' s c
      → Added g2h h2g q free chains (ok s.index, q')

module _ (q : VirtQueue) (free : List ℕ) (chains : List (List Slot))
    (sound : Sound q free chains) where
  -- The queue once a chain of slots is programmed and published.
  module _ (bs : List (VirtqueueBuf × DescFlags)) (s : Slot) (c : List Slot) (q1 : VirtQueue)
      (p : Programmed bs free q q1 (s ∷ c)) where
    last : ℕ
    last = last_of s.index c

    counts : (i : ℕ) → count i free ≡ count i (indices (s ∷ c)) + count i p.left
    counts i = omega (arith, ap (count i) p.taken, count-append i (indices (s ∷ c)) p.left)

    lengths : length free ≡ length (s ∷ c) + length p.left
    lengths = omega (
      arith,
      ap (λ l. length l) p.taken,
      length-append (indices (s ∷ c)) p.left,
      length-indices (s ∷ c),
    )

    last_taken : 1 ≤ count last (indices (s ∷ c))
    unfolding last
    last_taken = last_of_in s.index c

    abbrev table : ℕ → Descriptor
    table = put last (without_next (q1.desc_shadow last)) q1.desc_shadow

    -- Nothing but the new chain has changed.
    table_others : (i : ℕ) → count i (indices (s ∷ c)) ≡ 0 → table i ≡ q.desc_shadow i
    table_others i z =
        put_other last i (without_next (q1.desc_shadow last)) q1.desc_shadow
          (λ j. absurd (omega (arith, last_taken, ap (λ y. count y (indices (s ∷ c))) j)))
        ∙ p.others i z

    linked : Linked table q1.free_head p.left
    linked =
        Linked-agree q1.desc_shadow table q1.free_head p.left
          (λ x n. sym (
            put_other last x (without_next (q1.desc_shadow last)) q1.desc_shadow (λ j. absurd (
              omega
                (arith, last_taken, sound.once last, counts last, ap (λ y. count y p.left) j)))))
          p.free_linked

    chain_held : Holds table (s ∷ c)
    unfolding last
    chain_held =
        closed-Holds q1.desc_shadow s c q1.free_head p.holds
          (λ i. omega (arith, sound.once i, counts i))

    others_held : All (Holds table) chains
    others_held =
        All-Holds-agree q.desc_shadow table chains
          (λ x n. sym (table_others x (omega (arith, sound.once x, counts x)))) sound.held

    published-Sound :
        (n : ℕ) (q2 : VirtQueue)
        → n ≡ length (s ∷ c)
        → q2.queue_size ≡ q.queue_size
        → q2.num_used ≡ q.num_used + n
        → q2.free_head ≡ q1.free_head
        → q2.desc_shadow ≡ table
        → q2.in_use ≡ q1.in_use
        → q2.is_head ≡ put s.index true q.is_head
        → Sound q2 p.left ((s ∷ c) ∷ chains)
    published-Sound n q2 hn hs hu hf ht hi hh = record {
      size_pos = omega (arith, hs, sound.size_pos);
      size_max = omega (arith, hs, sound.size_max);
      num_used = omega (
        arith,
        sound.num_used,
        length-append (indices (s ∷ c)) (used chains),
        length-indices (s ∷ c),
      );
      num_free = omega (arith, sound.num_free, lengths);
      free_linked =
          subst (λ t. Linked t q2.free_head p.left) (sym ht)
            (subst (λ h. Linked table h p.left) (sym hf) linked);
      held = subst (λ t. All (Holds t) ((s ∷ c) ∷ chains)) (sym ht) (chain_held, others_held);
      once = λ i.
          omega (arith, sound.once i, counts i, count-append i (indices (s ∷ c)) (used chains));
      bounded = λ i l. omega (
        arith,
        hs,
        sound.bounded i
            (omega (arith, l, counts i, count-append i (indices (s ∷ c)) (used chains))),
      );
      in_use_iff = λ i.
          ap (λ t. t i) hi
          ∙ p.in_use i
          ∙ in_use_counts (count i (indices (s ∷ c))) (count i (used chains)) (q.in_use i)
              (sound.in_use_iff i)
          ∙ ap (ltb 0) (sym (count-append i (indices (s ∷ c)) (used chains)));
      is_head_iff = λ i.
          ap (λ t. t i) hh
          ∙ put_counts s.index i (count i (heads chains)) q.is_head (sound.is_head_iff i);
    }

    abbrev shared_table : ℕ → Descriptor
    shared_table =
        put last (record (q1.desc last) { flags = (without_next (q1.desc_shadow last)).flags })
          q1.desc

    shared_chain :
        (i : ℕ)
        → 1 ≤ count i (indices (s ∷ c))
        → shared_table i ≡ record (table i) { next = (q.desc i).next }
    shared_chain i n = elim (Bool-cases (i == last)) [
      | inl t ↦
          subst (λ y. shared_table y ≡ record (table y) { next = (q.desc y).next })
            (sym ((==_iff i last).0 t))
            (put_self last
                (record (q1.desc last) { flags = (without_next (q1.desc_shadow last)).flags })
                q1.desc
              ∙ ap {A = Descriptor} {B = Descriptor}
                  (λ d. record d { flags = (without_next (q1.desc_shadow last)).flags })
                  (p.shared last last_taken)
              ∙ ap {A = Descriptor} {B = Descriptor} (λ d. record d { next = (q.desc last).next })
                  (sym (put_self last (without_next (q1.desc_shadow last)) q1.desc_shadow)))
      | inr t ↦
          let ne : last ≢ i = λ j. absurd (ground (arith, (==_iff i last).1 (sym j))) in
          put_other last i
            (record (q1.desc last) { flags = (without_next (q1.desc_shadow last)).flags }) q1.desc
            ne
          ∙ p.shared i n
          ∙ ap {A = Descriptor} {B = Descriptor} (λ d. record d { next = (q.desc i).next })
              (sym (put_other last i (without_next (q1.desc_shadow last)) q1.desc_shadow ne))
    ]

    shared_unchanged : (i : ℕ) → count i (indices (s ∷ c)) ≡ 0 → shared_table i ≡ q.desc i
    shared_unchanged i z =
        put_other last i
          (record (q1.desc last) { flags = (without_next (q1.desc_shadow last)).flags }) q1.desc
          (λ j. absurd (omega (arith, last_taken, ap (λ y. count y (indices (s ∷ c))) j)))
        ∙ p.shared_others i z

    next_index : (q1.avail_idx + 1) % 2 ^ 16 ≡ (q.avail_idx + 1) % 2 ^ 16
    next_index = ap (λ k. (k + 1) % 2 ^ 16) p.avail_idx

    ring_lem :
        put (q1.avail_idx % q1.queue_size) s.index q1.avail_ring
        ≡ put (q.avail_idx % q.queue_size) s.index q.avail_ring
    ring_lem =
        ap (λ k. put (k % q1.queue_size) s.index q1.avail_ring) p.avail_idx
        ∙ ap (λ k. put (q.avail_idx % k) s.index q1.avail_ring) p.queue_size
        ∙ ap (put (q.avail_idx % q.queue_size) s.index) p.avail_ring

    published-Visible :
        (q2 : VirtQueue)
        → q2.desc ≡ shared_table
        → q2.desc_shadow ≡ table
        → q2.avail_ring ≡ put (q1.avail_idx % q1.queue_size) s.index q1.avail_ring
        → q2.avail_ring_idx ≡ (q1.avail_idx + 1) % 2 ^ 16
        → q2.avail_idx ≡ (q1.avail_idx + 1) % 2 ^ 16
        → q2.used_event ≡ (q1.avail_idx + 1) % 2 ^ 16
        → Visible q q2 s c
    published-Visible q2 hd ht hr ha hp he = record {
      descriptors = λ i n.
          ap (λ t. t i) hd
          ∙ shared_chain i n
          ∙ ap {A = Descriptor} {B = Descriptor} (λ d. record d { next = (q.desc i).next })
              (sym (ap (λ t. t i) ht));
      others = λ i z. ap (λ t. t i) hd ∙ shared_unchanged i z;
      ring = hr ∙ ring_lem;
      index = ha ∙ next_index;
      private_index = hp ∙ next_index;
      event = he ∙ next_index;
    }

  module _ (g2h h2g : List VirtqueueBuf) where
    abbrev all_bufs : List (VirtqueueBuf × DescFlags)
    all_bufs = flagged false g2h ++ flagged true h2g

    abbrev number : ℕ
    number = length g2h + length h2g

    length-all_bufs : length all_bufs ≡ number
    length-all_bufs = omega (
      arith,
      length-append (flagged false g2h) (flagged true h2g),
      length-flagged false g2h,
      length-flagged true h2g,
    )

    published :
        (slots : List Slot) (q1 : VirtQueue)
        → 1 ≤ number
        → Programmed all_bufs free q q1 slots
        → Added g2h h2g q free chains
            (publish_chain number q.free_head (last_of q.free_head slots) q1)
    unfolding publish_chain last
    published [] q1 some_bufs p =
        absurd (omega (arith, length-all_bufs, length-StandsFor all_bufs [] p.stands_for))
    published (s ∷ c) q1 some_bufs p =
        let l = last_of s.index c in
        let n : number ≡ length (s ∷ c) =
          omega (arith, length-all_bufs, length-StandsFor all_bufs (s ∷ c) p.stands_for) in
        let lt : l < q.queue_size =
          sound.bounded l (omega (arith, last_of_in s.index c, counts all_bufs s c q1 p l)) in
        let in_copy : ltb l 32 ≡ true = let m = sound.size_max in ground arith in
        let in_table : ltb l q1.queue_size ≡ true = let m = p.queue_size in ground arith in
        let slot_lt =
          mod-lt q1.avail_idx {m = q1.queue_size} (omega (arith, p.queue_size, sound.size_pos)) in
        let in_ring : ltb (q1.avail_idx % q1.queue_size) 32 ≡ true =
          let m = p.queue_size in let k = sound.size_max in ground arith in
        let (a, b) = bufs-StandsFor g2h h2g (s ∷ c) p.stands_for in
        subst (λ h. Added g2h h2g q free chains (publish_chain number h (last_of h (s ∷ c)) q1))
          p.first
          (rw in_copy (
            rw in_table (
              rw in_ring (
                added s c p.left _ p.taken
                  (published-Sound all_bufs s c q1 p number _ n p.queue_size
                    (ap (λ k. k + number) p.num_used) refl refl refl
                    (ap (put s.index true) p.is_head))
                  a b (published-Visible all_bufs s c q1 p _ refl refl refl refl refl refl)))))

    -- `add` on a sound queue does not panic. Without buffers, or with more than there are free
    -- descriptors, it is an error and changes nothing. Else it answers the head of a new chain of
    -- exactly these buffers, taken from the free descriptors, and the queue is sound with it. The device
    -- finds their addresses, lengths and flags in the shared table, and the head in the available ring.
    pub add-Added : Added g2h h2g q free chains (add g2h h2g q)
    unfolding add
    add-Added = elim (Bool-cases (is_empty g2h && is_empty h2g)) [
      | inl e ↦ rw e (no_buffers (both_empty g2h h2g e))
      | inr e ↦ elim (Bool-cases (ltb q.queue_size (number + q.num_used))) [
        | inl f ↦ rw e (rw f (too_many (let m = sound.num_free in ground arith)))
        | inr f ↦
            let m = sound.num_free in
            let k : length all_bufs ≤ length free = let l = length-all_bufs in ground arith in
            let (slots, q1, eq, p) =
              add_descriptors-Programmed all_bufs free q.free_head q sound.size_max
                (All-append (λ b. b.1.has_next ≡ true) (flagged false g2h) (flagged true h2g)
                  (flagged-has_next false g2h) (flagged-has_next true h2g))
                sound.free_linked (λ i. omega (arith, sound.once i))
                (λ i l. sound.bounded i (omega arith)) k in
            rw e (rw f (rw eq (published slots q1 (some_buffers g2h h2g e) p)))
      ]
    ]
