-- ===== src/Devices/Virtio/Queue.antt =====
-- `VirtQueue` of src/devices/virtio/src/virtqueue.rs. Tables are functions of the index, with the
-- tests of their lengths written out; a bitmap is a function to Bool.
pub mod Closing
pub mod Freed
pub mod Layout
pub mod Chains
pub mod Recycle
pub mod Pop
pub mod Program
pub mod Add
pub mod New
pub mod Runs
use mig_td.Base.{
  ℕ, zero, suc, ◌+◌, ◌-◌, ◌*◌, ◌/◌, ◌%◌, ◌^◌, min, Bool, true, false, not, ◌&&◌, ◌||◌, Option, none,
  some, List, [], ◌∷◌, ◌++◌, ltb, leb, ◌==◌, if◌then◌else◌, length, is_empty,
}

abbrev pub max_queue_size : ℕ
max_queue_size = 32

-- Those with a value of another type, `InvalidOffset` and `Pci`, are `other`.
pub data VirtioError : Type 0 where
  virtio_unsupported_device : VirtioError
  virtio_legacy_only : VirtioError
  virtio_feature_negotiation_failed : VirtioError
  already_used : VirtioError
  io_error : VirtioError
  bad_ring : VirtioError
  set_device_notification : VirtioError
  other : VirtioError
  create_virtio_queue : VirtioError
  buffer_too_small : VirtioError
  not_ready : VirtioError
  invalid_parameter : VirtioError
  invalid_descriptor_index : VirtioError
  invalid_ring_index : VirtioError
  invalid_descriptor : VirtioError

-- A `Result`, or a panic.
pub data Outcome (A : Type 0) : Type 0 where
  ok : A → Outcome A
  err : VirtioError → Outcome A
  panic : Outcome A

-- `?` after a call on a state.
abbrev pub and_then : {A B S : Type 0} → Outcome A × S → (A → S → Outcome B × S) → Outcome B × S
and_then (ok a, s) k = k a s
and_then (err e, s) k = (err e, s)
and_then (panic, s) k = (panic, s)

pub record VirtqueueBuf : Type 0 where
  pub addr : ℕ
  pub len : ℕ

-- NEXT and WRITE; INDIRECT is never set.
pub record DescFlags : Type 0 where
  pub has_next : Bool
  pub has_write : Bool

-- A descriptor of the table that is shared with the host, or of the driver's private copy.
pub record Descriptor : Type 0 where
  pub addr : ℕ
  pub len : ℕ
  pub flags : DescFlags
  pub next : ℕ

-- What the device writes: the index and the ring of ids and lengths.
pub record UsedRing : Type 0 where
  pub idx : ℕ
  pub ring : ℕ → ℕ × ℕ

pub record VirtQueue : Type 0 where
  pub desc : ℕ → Descriptor
  pub avail_ring_idx : ℕ
  pub avail_ring : ℕ → ℕ
  pub used_event : ℕ
  pub queue_size : ℕ
  pub num_used : ℕ
  pub free_head : ℕ
  pub avail_idx : ℕ
  pub last_used_idx : ℕ
  pub desc_shadow : ℕ → Descriptor
  pub in_use : ℕ → Bool
  pub is_head : ℕ → Bool

-- `table[i] = v`
unfoldable pub put : {A : Type 0} → ℕ → A → (ℕ → A) → ℕ → A
put i v table j = if j == i then v else table j

-- The descriptor is programmed in the shared table and in the private copy.
unfoldable pub programmed : ℕ → VirtqueueBuf → DescFlags → VirtQueue → VirtQueue
programmed index buf flag q = record q {
  desc =
      put index
        (record { addr = buf.addr; len = buf.len; flags = flag; next = (q.desc index).next })
        q.desc;
  desc_shadow =
      put index
        (record { addr = buf.addr; len = buf.len; flags = flag; next = (q.desc_shadow index).next })
        q.desc_shadow;
  free_head = (q.desc_shadow index).next;
  in_use = put index true q.in_use;
}

unfoldable pub add_descriptor : VirtqueueBuf → DescFlags → VirtQueue → Outcome ℕ × VirtQueue
add_descriptor buf flag q =
    if not (ltb q.free_head q.queue_size)
    then (err invalid_descriptor_index, q)
    else if not (ltb q.free_head max_queue_size)
    then (panic, q)
    else (ok q.free_head, programmed q.free_head buf flag q)

-- A loop of `add` over buffers with their flags, from the value of `last` on.
unfoldable pub add_descriptors :
    List (VirtqueueBuf × DescFlags) → ℕ → VirtQueue → Outcome ℕ × VirtQueue
add_descriptors [] last q = (ok last, q)
add_descriptors ((buf, flag) ∷ bufs) last q =
    and_then (add_descriptor buf flag q) (λ index q'. add_descriptors bufs index q')

abbrev pub without_next : Descriptor → Descriptor
without_next d = record d { flags = record d.flags { has_next = false } }

-- The rest of `add`, for a chain of `n` descriptors from `head` to `last`.
unfoldable pub publish_chain : ℕ → ℕ → ℕ → VirtQueue → Outcome ℕ × VirtQueue
publish_chain n head last q =
    if not (ltb last max_queue_size)
    then (err invalid_descriptor_index, q)
    else let shadow = without_next (q.desc_shadow last) in
      let q' = record q { desc_shadow = put last shadow q.desc_shadow } in
      if not (ltb last q.queue_size)
      then (err invalid_descriptor_index, q')
      else let slot = q.avail_idx % q.queue_size in
        let linked = record q' {
          desc = put last (record (q.desc last) { flags = shadow.flags }) q.desc;
          num_used = q.num_used + n;
          is_head = put head true q.is_head;
        } in
        if not (ltb slot max_queue_size)
        then (err invalid_descriptor_index, linked)
        else let avail_idx = (q.avail_idx + 1) % 2 ^ 16 in
          (
            ok head,
            record linked {
              avail_ring = put slot head q.avail_ring;
              avail_idx = avail_idx;
              avail_ring_idx = avail_idx;
              used_event = avail_idx;
            },
          )

unfoldable pub flagged : Bool → List VirtqueueBuf → List (VirtqueueBuf × DescFlags)
flagged write [] = []
flagged write (buf ∷ bufs) =
    (buf, record { has_next = true; has_write = write }) ∷ flagged write bufs

unfoldable pub add : List VirtqueueBuf → List VirtqueueBuf → VirtQueue → Outcome ℕ × VirtQueue
add g2h h2g q =
    if is_empty g2h && is_empty h2g
    then (err invalid_parameter, q)
    else if ltb q.queue_size (length g2h + length h2g + q.num_used)
    then (err buffer_too_small, q)
    else and_then (add_descriptors (flagged false g2h ++ flagged true h2g) q.free_head q)
        (λ last q'. publish_chain (length g2h + length h2g) q.free_head last q')

unfoldable pub can_pop : UsedRing → VirtQueue → Bool
can_pop used q = not (q.last_used_idx == used.idx)

unfoldable pub available_desc : VirtQueue → ℕ
available_desc q = q.queue_size - q.num_used

-- The queue, and the two vectors of the caller.
pub record Recycling : Type 0 where
  pub queue : VirtQueue
  pub g2h : List VirtqueueBuf
  pub h2g : List VirtqueueBuf

-- A descriptor leaves the used ones and is handed to the caller.
unfoldable pub consume : ℕ → Recycling → Recycling
consume index r =
    let shadow = r.queue.desc_shadow index in
    let buf : VirtqueueBuf = record { addr = shadow.addr; len = shadow.len } in
    record {
      queue = record r.queue {
        in_use = put index false r.queue.in_use;
        is_head = put index false r.queue.is_head;
        num_used = r.queue.num_used - 1;
      };
      g2h = if shadow.flags.has_write then r.g2h else r.g2h ++ (buf ∷ []);
      h2g = if shadow.flags.has_write then r.h2g ++ (buf ∷ []) else r.h2g;
    }

-- The end of a chain is linked to what was free before.
unfoldable pub link : ℕ → ℕ → VirtQueue → VirtQueue
link index origin q = record q {
  desc_shadow = put index (record (q.desc_shadow index) { next = origin }) q.desc_shadow;
  desc = put index (record (q.desc index) { next = origin }) q.desc;
}

-- The loop of `recycle_descriptors`, on the number of used descriptors.
unfoldable pub recycle : ℕ → ℕ → ℕ → ℕ → Recycling → Outcome ℕ × Recycling
recycle zero origin head recorded r = (ok recorded, r)
recycle (suc n) origin head recorded r =
    if leb r.queue.queue_size head || not (r.queue.in_use head)
    then (err invalid_descriptor, r)
    else let shadow = r.queue.desc_shadow head in
      let total = min (recorded + shadow.len) (2 ^ 32 - 1) in
      let consumed = consume head r in
      let rest = recycle n origin shadow.next total consumed in
      if shadow.flags.has_next
      then (if n == 0 then (err invalid_descriptor, consumed) else rest)
      else (ok total, record consumed { queue = link head origin consumed.queue })

unfoldable pub recycle_descriptors : ℕ → Recycling → Outcome ℕ × Recycling
recycle_descriptors head r =
    recycle r.queue.num_used r.queue.free_head head 0
      (record r { queue = record r.queue { free_head = head } })

unfoldable pub pop_used : UsedRing → Recycling → Outcome ℕ × Recycling
pop_used used r =
    let q = r.queue in
    if not (can_pop used q)
    then (err not_ready, r)
    else let slot = q.last_used_idx % q.queue_size in
      if not (ltb slot max_queue_size)
      then (err invalid_ring_index, r)
      else let index = (used.ring slot).0 % 2 ^ 16 in
        if leb q.queue_size index || (not (q.in_use index) || not (q.is_head index))
        then (err invalid_descriptor, r)
        else and_then (recycle_descriptors index r) (λ recorded r'. (
          ok (min (used.ring slot).1 recorded),
          record r' {
            queue = record r'.queue { last_used_idx = (r'.queue.last_used_idx + 1) % 2 ^ 16 };
          },
        ))
