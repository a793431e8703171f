-- ===== src/Devices/Virtio/Queue/Freed.antt =====
-- The queue after `recycle_descriptors` of src/devices/virtio/src/virtqueue.rs has freed a whole chain.
use mig_td.Base.{
  ℕ, ◌+◌, ◌≤◌, ◌≡◌, sym, ap, ◌∙◌, List, [], ◌∷◌, ◌++◌, arith, length, length-append, All,
  All-append, All-append_left, All-append_right,
}
use mig_td.Devices.Virtio.Queue.{ok, Recycling, recycle_descriptors}
use mig_td.Devices.Virtio.Queue.Chains.{
  count, count-append, count_self, Slot, indices, used, heads, Holds, Sound, length-indices,
  used-append, heads-append, count-heads_le, All-Holds-agree,
}
use mig_td.Devices.Virtio.Queue.Recycle.{
  recycled, total_len, cleared, Recycled, InUse, recycle-recycled, recycled-Recycled,
  recycled-Linked,
}

module _ (r : Recycling) (free : List ℕ) (front : List (List Slot)) (s : Slot) (c : List Slot)
    (back : List (List Slot)) (sound : Sound r.queue free (front ++ ((s ∷ c) ∷ back))) where
  counts :
      (i : ℕ)
      → count i (used (front ++ ((s ∷ c) ∷ back)))
        ≡ count i (indices (s ∷ c)) + count i (used (front ++ back))
  counts i = omega (
    arith,
    ap (count i) (used-append front ((s ∷ c) ∷ back)),
    ap (count i) (used-append front back),
    count-append i (used front) (used ((s ∷ c) ∷ back)),
    count-append i (used front) (used back),
    count-append i (indices (s ∷ c)) (used back),
  )

  pub head_counts :
      (i : ℕ)
      → count i (heads (front ++ ((s ∷ c) ∷ back)))
        ≡ count i (s.index ∷ []) + count i (heads (front ++ back))
  head_counts i = omega (
    arith,
    ap (count i) (heads-append front ((s ∷ c) ∷ back)),
    ap (count i) (heads-append front back),
    count-append i (heads front) (heads ((s ∷ c) ∷ back)),
    count-append i (heads front) (heads back),
  )

  lengths :
      length (used (front ++ ((s ∷ c) ∷ back))) ≡ length (s ∷ c) + length (used (front ++ back))
  lengths = omega (
    arith,
    ap (λ l. length l) (used-append front ((s ∷ c) ∷ back)),
    ap (λ l. length l) (used-append front back),
    length-append (used front) (used ((s ∷ c) ∷ back)),
    length-append (used front) (used back),
    length-append (indices (s ∷ c)) (used back),
    length-indices (s ∷ c),
  )

  chain-InUse :
      (d : List Slot)
      → ((i : ℕ) → 1 ≤ count i (indices d) → 1 ≤ count i (indices (s ∷ c)))
      → InUse r.queue d
  chain-InUse [] h = tt
  chain-InUse (t ∷ ts) h =
      let k = h t.index (omega (arith, count_self t.index (indices ts))) in
      let n = counts t.index in
      (
        (sound.bounded t.index (omega arith), sound.in_use_iff t.index ∙ ground arith),
        chain-InUse ts (λ i l. h i (omega arith)),
      )

  held_chain : Holds r.queue.desc_shadow (s ∷ c)
  held_chain = (All-append_right (Holds r.queue.desc_shadow) front ((s ∷ c) ∷ back) sound.held).0

  held_others : All (Holds r.queue.desc_shadow) (front ++ back)
  held_others =
      let P = Holds r.queue.desc_shadow in
      All-append P front back (All-append_left P front ((s ∷ c) ∷ back) sound.held)
        (All-append_right P front ((s ∷ c) ∷ back) sound.held).1

  -- The caller once the queue's free list begins at the chain.
  abbrev begun : Recycling
  begun = record r { queue = record r.queue { free_head = s.index } }

  abbrev pub done : Recycling
  done = recycled (s ∷ c) r.queue.free_head begun

  pub what_is_done : Recycled (s ∷ c) r.queue.free_head begun done
  what_is_done = recycled-Recycled c s r.queue.free_head begun held_chain

  pub recycle_chain : recycle_descriptors s.index r ≡ (ok (total_len (s ∷ c) 0), done)
  unfolding recycle_descriptors
  recycle_chain =
      recycle-recycled c s r.queue.num_used r.queue.free_head 0 begun held_chain
        (chain-InUse (s ∷ c) (λ i l. l)) (λ i. omega (arith, sound.once i, counts i))
        (omega (arith, sound.num_used, lengths))

  -- The queue stays sound without the chain, whose descriptors are free again.
  pub done-Sound : Sound done.queue (indices (s ∷ c) ++ free) (front ++ back)
  unfolding cleared
  done-Sound =
      let w = what_is_done in
      record {
        size_pos = omega (arith, w.queue_size, sound.size_pos);
        size_max = omega (arith, w.queue_size, sound.size_max);
        num_used = omega (arith, w.num_used, sound.num_used, lengths);
        num_free = omega (
          arith,
          w.num_used,
          w.queue_size,
          sound.num_used,
          sound.num_free,
          lengths,
          length-append (indices (s ∷ c)) free,
          length-indices (s ∷ c),
        );
        free_linked = rw w.free_head (
            recycled-Linked c s r.queue.free_head begun free held_chain sound.free_linked
              (λ i. omega (arith, sound.once i, counts i)));
        held =
            All-Holds-agree r.queue.desc_shadow done.queue.desc_shadow (front ++ back)
              (λ x l. sym (w.others x (omega (arith, sound.once x, counts x)))) held_others;
        once = λ i. omega (arith, sound.once i, counts i, count-append i (indices (s ∷ c)) free);
        bounded = λ i l. omega (
          arith,
          w.queue_size,
          sound.bounded i (omega (arith, l, counts i, count-append i (indices (s ∷ c)) free)),
        );
        in_use_iff = λ i.
            w.in_use i
            ∙ (let e = sound.in_use_iff i in
                let o = sound.once i in let n = counts i in ground arith);
        is_head_iff = λ i.
            w.is_head i
            ∙ (let e = sound.is_head_iff i in
                let o = sound.once i in
                let n = counts i in
                let m = head_counts i in let k = count-heads_le i (front ++ back) in ground arith);
      }
