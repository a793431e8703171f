-- ===== src/Tests/Virtio.antt =====
-- A queue of two descriptors, one of which holds a buffer that the device writes.
use mig_td.Base.{ℕ, ◌≡◌, refl, true, false, some, [], ◌∷◌, arith, ◌==◌, if◌then◌else◌}
use mig_td.Devices.Virtio.Queue.{
  VirtQueue, VirtqueueBuf, Descriptor, UsedRing, Recycling, ok, add, pop_used,
}
use mig_td.Devices.Virtio.Queue.Chains.{Slot, Sound}
use mig_td.Devices.Virtio.Queue.Add.{Added, add-Added}
use mig_td.Devices.Virtio.Queue.New.{VirtioTransport, default_descriptor, Made, new, new-Made}
use mig_td.Devices.Virtio.Queue.Layout.{
  VirtQueueLayout, layout, is_power_of_two, align_up, desc_size, avail_size, used_size, Disjoint,
  layout-Disjoint,
}
use mig_td.Devices.Virtio.Queue.Runs.{
  IsSound, add_buffers, pop, host_writes, here, then_step, Reaches-IsSound,
}

abbrev buf : VirtqueueBuf
buf = record { addr = 0x2000; len = 8 }

abbrev slot : Slot
slot = record { index = 0; buf = buf; writable = true }

abbrev table : ℕ → Descriptor
table i =
    if i == 0
    then record {
      addr = 0x2000;
      len = 8;
      flags = record { has_next = false; has_write = true };
      next = 1;
    }
    else default_descriptor

abbrev queue : VirtQueue
queue = record {
  desc = table;
  avail_ring_idx = 1;
  avail_ring = λ i. 0;
  used_event = 1;
  queue_size = 2;
  num_used = 1;
  free_head = 1;
  avail_idx = 1;
  last_used_idx = 0;
  desc_shadow = table;
  in_use = λ i. i == 0;
  is_head = λ i. i == 0;
}

queue-Sound : Sound queue (1 ∷ []) ((slot ∷ []) ∷ [])
queue-Sound = record {
  size_pos = omega arith;
  size_max = omega arith;
  num_used = refl;
  num_free = refl;
  free_linked = (refl, tt);
  held = (record { addr = refl; len = refl; write = refl; next = refl }, tt);
  once = λ i. ground arith;
  bounded = λ i l. ground arith;
  in_use_iff = λ i. ground arith;
  is_head_iff = λ i. ground arith;
}

-- The device says that it has written 12 bytes to the chain at 0.
abbrev used_ring : UsedRing
used_ring = record { idx = 1; ring = λ i. (0, 12) }

abbrev caller : Recycling
caller = record { queue = queue; g2h = []; h2g = [] }

add-Added_example : Added (buf ∷ []) [] queue (1 ∷ []) ((slot ∷ []) ∷ []) (add (buf ∷ []) [] queue)
add-Added_example = add-Added queue (1 ∷ []) ((slot ∷ []) ∷ []) queue-Sound (buf ∷ []) []

abbrev transport : VirtioTransport
transport = record {
  get_queue_max_size = ok 256;
  set_descriptors_address = λ a. ok tt;
  set_avail_ring = λ a. ok tt;
  set_used_ring = λ a. ok tt;
}

new-Made_example : Made 256 16 (new transport 0x8000 16 (λ i. default_descriptor) (λ i. 0) 0 0)
new-Made_example =
    new-Made transport 256 refl (λ a. refl) (λ a. refl) (λ a. refl) 0x8000 16
      (λ i. default_descriptor) (λ i. 0) 0 0

abbrev layout_16 : VirtQueueLayout
layout_16 = record { avail_offset = 256; used_offset = 4096; size = 8192 }

layout_of_16 : layout 16 ≡ some layout_16
unfolding layout is_power_of_two align_up desc_size avail_size used_size
layout_of_16 = refl

layout-Disjoint_example : Disjoint 16 layout_16
layout-Disjoint_example = layout-Disjoint 16 layout_16 layout_of_16

-- The driver adds a buffer, the host overwrites what is shared, and the driver takes the other back.
abbrev after_add : VirtQueue
after_add = (add (buf ∷ []) [] queue).1

abbrev after_host : VirtQueue
after_host = record after_add {
  desc = λ i. default_descriptor;
  avail_ring = λ i. 9;
  avail_ring_idx = 7;
  used_event = 0;
}

abbrev after_pop : VirtQueue
after_pop = (pop_used used_ring (record { queue = after_host; g2h = []; h2g = [] })).1.queue

Reaches-IsSound_example : IsSound after_pop
Reaches-IsSound_example =
    Reaches-IsSound queue after_pop
      (record { free = 1 ∷ []; chains = (slot ∷ []) ∷ []; sound = queue-Sound })
      (then_step after_host after_pop
        (then_step after_add after_host (then_step queue after_add here (add_buffers (buf ∷ []) []))
          (host_writes (λ i. default_descriptor) (λ i. 9) 7 0))
        (pop used_ring [] []))
