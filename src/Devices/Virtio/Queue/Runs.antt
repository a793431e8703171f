-- ===== src/Devices/Virtio/Queue/Runs.antt =====
-- A `VirtQueue` of src/devices/virtio/src/virtqueue.rs between a driver and a host that writes to the
-- shared memory as it likes.
use mig_td.Base.{ℕ, List, ◌∷◌, ◌++◌}
use mig_td.Devices.Virtio.Queue.{
  VirtQueue, VirtqueueBuf, Descriptor, UsedRing, Outcome, Recycling, add, pop_used,
}
use mig_td.Devices.Virtio.Queue.Chains.{Slot, indices, Sound}
use mig_td.Devices.Virtio.Queue.Add.{Added, no_buffers, too_many, added, add-Added}
use mig_td.Devices.Virtio.Queue.Pop.{Popped, not_yet, forged, popped, pop_used-Popped}

-- The queue is sound, with some free descriptors and some chains.
pub record IsSound (q : VirtQueue) : Type 0 where
  pub free : List ℕ
  pub chains : List (List Slot)
  pub sound : Sound q free chains

-- The driver adds buffers, or takes back what the ring says is used; or the host writes.
pub data Step (q : VirtQueue) : VirtQueue → Type 0 where
  add_buffers : (g2h h2g : List VirtqueueBuf) → Step q (add g2h h2g q).1
  pop :
      (u : UsedRing) (g2h h2g : List VirtqueueBuf)
      → Step q (pop_used u (record { queue = q; g2h = g2h; h2g = h2g })).1.queue
  host_writes :
      (desc : ℕ → Descriptor) (avail_ring : ℕ → ℕ) (avail_ring_idx used_event : ℕ)
      → Step q (record q {
        desc = desc;
        avail_ring = avail_ring;
        avail_ring_idx = avail_ring_idx;
        used_event = used_event;
      })

pub data Reaches (q : VirtQueue) : VirtQueue → Type 0 where
  here : Reaches q q
  then_step : (q' q'' : VirtQueue) → Reaches q q' → Step q' q'' → Reaches q q''

Added-IsSound :
    (g2h h2g : List VirtqueueBuf) (q : VirtQueue) (free : List ℕ) (chains : List (List Slot))
    (o : Outcome ℕ × VirtQueue)
    → Sound q free chains
    → Added g2h h2g q free chains o
    → IsSound o.1
Added-IsSound g2h h2g q free chains o h (no_buffers e) = record {
  free = free;
  chains = chains;
  sound = h;
}
Added-IsSound g2h h2g q free chains o h (too_many e) = record {
  free = free;
  chains = chains;
  sound = h;
}
Added-IsSound g2h h2g q free chains o h (added s c left q' taken k a b v) = record {
  free = left;
  chains = (s ∷ c) ∷ chains;
  sound = k;
}

Popped-IsSound :
    (u : UsedRing) (r : Recycling) (free : List ℕ) (chains : List (List Slot))
    (o : Outcome ℕ × Recycling)
    → Sound r.queue free chains
    → Popped u r free chains o
    → IsSound o.1.queue
Popped-IsSound u r free chains o h (not_yet e) = record { free = free; chains = chains; sound = h }
Popped-IsSound u r free chains o h (forged e f) = record { free = free; chains = chains; sound = h }
Popped-IsSound u r free chains o h (popped front s c back r' e f k a b d) = record {
  free = indices (s ∷ c) ++ free;
  chains = front ++ back;
  sound = k;
}

Step-IsSound : (q q' : VirtQueue) → IsSound q → Step q q' → IsSound q'
Step-IsSound q q' h (add_buffers g2h h2g) =
    Added-IsSound g2h h2g q h.free h.chains (add g2h h2g q) h.sound
      (add-Added q h.free h.chains h.sound g2h h2g)
Step-IsSound q q' h (pop u g2h h2g) =
    let r : Recycling = record { queue = q; g2h = g2h; h2g = h2g } in
    Popped-IsSound u r h.free h.chains (pop_used u r) h.sound
      (pop_used-Popped u r h.free h.chains h.sound)
Step-IsSound q q' h (host_writes desc avail_ring avail_ring_idx used_event) = record {
  free = h.free;
  chains = h.chains;
  sound = record {
    size_pos = h.sound.size_pos;
    size_max = h.sound.size_max;
    num_used = h.sound.num_used;
    num_free = h.sound.num_free;
    free_linked = h.sound.free_linked;
    held = h.sound.held;
    once = h.sound.once;
    bounded = h.sound.bounded;
    in_use_iff = h.sound.in_use_iff;
    is_head_iff = h.sound.is_head_iff;
  };
}

-- From a sound queue, such as a new one, every sequence of calls of the driver and writes of the host
-- leads to a sound queue: each descriptor is free or in exactly one chain, the free list and the
-- chains are linked in the private copy, and the bitmaps and the count say which is which.
pub Reaches-IsSound : (q q' : VirtQueue) → IsSound q → Reaches q q' → IsSound q'
Reaches-IsSound q q' h here = h
Reaches-IsSound q q' h (then_step q1 q2 p step) = Step-IsSound q1 q2 (Reaches-IsSound q q1 h p) step
