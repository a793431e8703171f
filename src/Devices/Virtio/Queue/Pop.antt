-- ===== src/Devices/Virtio/Queue/Pop.antt =====
-- `pop_used` of src/devices/virtio/src/virtqueue.rs, whatever the device writes.
use mig_td.Base.{
  ℕ, ◌+◌, ◌%◌, ◌^◌, min, ◌<◌, ◌≤◌, ◌≡◌, refl, sym, ap, subst, ◌∙◌, true, false, not, ◌||◌, List, [],
  ◌∷◌, ◌++◌, arith, ltb, leb, inl, inr, Bool-cases,
}
use native.Mathlib.Nat.{mod-lt}
use mig_td.Devices.Virtio.Queue.{
  VirtQueue, not_ready, invalid_descriptor, UsedRing, Outcome, ok, err, Recycling, can_pop,
  recycle_descriptors, pop_used,
}
use mig_td.Devices.Virtio.Queue.Chains.{
  count, count_self, Slot, indices, heads, Sound, count-heads_le, heads-split,
}
use mig_td.Devices.Virtio.Queue.Recycle.{total_len, bufs}
use mig_td.Devices.Virtio.Queue.Freed.{head_counts, done, what_is_done, recycle_chain, done-Sound}

-- The queue of a caller has a chain between others.
-- The id that the device gives back.
abbrev pub used_id : UsedRing → VirtQueue → ℕ
used_id u q = (u.ring (q.last_used_idx % q.queue_size)).0 % 2 ^ 16

-- How `pop_used` ends on a queue with these free descriptors and chains.
pub data Popped (u : UsedRing) (r : Recycling) (free : List ℕ) (chains : List (List Slot))
    : Outcome ℕ × Recycling → Type 0 where
  not_yet : can_pop u r.queue ≡ false → Popped u r free chains (err not_ready, r)
  forged :
      can_pop u r.queue ≡ true
      → count (used_id u r.queue) (heads chains) ≡ 0
      → Popped u r free chains (err invalid_descriptor, r)
  popped :
      (front : List (List Slot)) (s : Slot) (c : List Slot) (back : List (List Slot))
      (r' : Recycling)
      → chains ≡ front ++ ((s ∷ c) ∷ back)
      → s.index ≡ used_id u r.queue
      → Sound r'.queue (indices (s ∷ c) ++ free) (front ++ back)
      → r'.g2h ≡ r.g2h ++ bufs false (s ∷ c)
      → r'.h2g ≡ r.h2g ++ bufs true (s ∷ c)
      → r'.queue.last_used_idx ≡ (r.queue.last_used_idx + 1) % 2 ^ 16
      → Popped u r free chains (
        ok (min (u.ring (r.queue.last_used_idx % r.queue.queue_size)).1 (total_len (s ∷ c) 0)),
        r',
      )

Sound-last_used_idx :
    (q : VirtQueue) (free : List ℕ) (chains : List (List Slot)) (n : ℕ)
    → Sound q free chains
    → Sound (record q { last_used_idx = n }) free chains
Sound-last_used_idx q free chains n h = record {
  size_pos = h.size_pos;
  size_max = h.size_max;
  num_used = h.num_used;
  num_free = h.num_free;
  free_linked = h.free_linked;
  held = h.held;
  once = h.once;
  bounded = h.bounded;
  in_use_iff = h.in_use_iff;
  is_head_iff = h.is_head_iff;
}

slot_lt :
    (q : VirtQueue) (free : List ℕ) (chains : List (List Slot))
    → Sound q free chains
    → ltb (q.last_used_idx % q.queue_size) 32 ≡ true
slot_lt q free chains h =
    let l = mod-lt q.last_used_idx {m = q.queue_size} h.size_pos in
    let k = h.size_max in ground arith

module _ (u : UsedRing) (r : Recycling) (free : List ℕ) where
  pop_chain :
      (front : List (List Slot)) (s : Slot) (c : List Slot) (back : List (List Slot))
      → Sound r.queue free (front ++ ((s ∷ c) ∷ back))
      → can_pop u r.queue ≡ true
      → s.index ≡ used_id u r.queue
      → Popped u r free (front ++ ((s ∷ c) ∷ back)) (pop_used u r)
  unfolding pop_used
  pop_chain front s c back sound can e =
      let id = used_id u r.queue in
      let slot = slot_lt r.queue free (front ++ ((s ∷ c) ∷ back)) sound in
      let n : 1 ≤ count s.index (heads (front ++ ((s ∷ c) ∷ back))) =
        omega (arith, head_counts r free front s c back sound s.index, count_self s.index []) in
      let m = count-heads_le s.index (front ++ ((s ∷ c) ∷ back)) in
      let lt : s.index < r.queue.queue_size = sound.bounded s.index (omega arith) in
      let used_in : r.queue.in_use s.index ≡ true = sound.in_use_iff s.index ∙ ground arith in
      let head_in : r.queue.is_head s.index ≡ true = sound.is_head_iff s.index ∙ ground arith in
      let accepted : (leb r.queue.queue_size id
            || (not (r.queue.in_use id) || not (r.queue.is_head id)))
          ≡ false =
        subst
          (λ i.
            (leb r.queue.queue_size i || (not (r.queue.in_use i) || not (r.queue.is_head i)))
            ≡ false)
          e (ground arith) in
      let w = what_is_done r free front s c back sound in
      let eq =
        subst
          (λ i.
            recycle_descriptors i r ≡ (ok (total_len (s ∷ c) 0), done r free front s c back sound))
          e (recycle_chain r free front s c back sound) in
      let d = done r free front s c back sound in
      rw can (
        rw slot (
          rw accepted (
            rw eq (
              popped front s c back
                (record d {
                  queue = record d.queue { last_used_idx = (d.queue.last_used_idx + 1) % 2 ^ 16 };
                })
                refl e
                (Sound-last_used_idx d.queue (indices (s ∷ c) ++ free) (front ++ back) _
                  (done-Sound r free front s c back sound))
                w.g2h w.h2g (ap (λ n. (n + 1) % 2 ^ 16) w.last_used_idx)))))

  pub pop_used-Popped :
      (chains : List (List Slot))
      → Sound r.queue free chains
      → Popped u r free chains (pop_used u r)
  unfolding pop_used
  pop_used-Popped chains sound =
      let id = used_id u r.queue in
      elim (Bool-cases (can_pop u r.queue)) [
        | inr idle ↦ rw idle (not_yet idle)
        | inl can ↦ elim (Bool-cases (r.queue.is_head id)) [
          | inr other ↦
              let slot = slot_lt r.queue free chains sound in
              let refused : (leb r.queue.queue_size id
                    || (not (r.queue.in_use id) || not (r.queue.is_head id)))
                  ≡ true =
                ground arith in
              let e = sound.is_head_iff id in
              rw can (rw slot (rw refused (forged can (ground arith))))
          | inl head ↦
              let e = sound.is_head_iff id in
              let (front, s, c, back, split, at) = heads-split id chains (ground arith) in
              subst (λ cs. Popped u r free cs (pop_used u r)) (sym split)
                (pop_chain front s c back (subst (λ cs. Sound r.queue free cs) split sound) can at)
        ]
      ]
