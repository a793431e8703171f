-- ===== src/Devices/Virtio/Queue/Layout.antt =====
-- `VirtQueueLayout` of src/devices/virtio/src/virtqueue.rs: where the parts of a queue stand in its
-- memory.
use mig_td.Base.{
  ℕ, ◌+◌, ◌*◌, ◌/◌, ◌%◌, ◌<◌, ◌≤◌, ◌≡◌, subst, Bool, not, ◌||◌, Option, none, some, arith, ltb,
  ◌==◌, if◌then◌else◌,
}
use mig_td.Base.OptionDo.{else_some}

-- `is_power_of_two` on `u16` and on what is converted from it.
unfoldable pub is_power_of_two : ℕ → Bool
is_power_of_two n =
    (n == 1)
    || ((n == 2)
        || ((n == 4)
            || ((n == 8)
                || ((n == 16)
                    || ((n == 32)
                        || ((n == 64)
                            || ((n == 128)
                                || ((n == 256)
                                    || ((n == 512)
                                        || ((n == 1024)
                                            || ((n == 2048)
                                                || ((n == 4096)
                                                    || ((n == 8192)
                                                        || ((n == 16384)
                                                            || (n == 32768)))))))))))))))

pub record VirtQueueLayout : Type 0 where
  pub avail_offset : ℕ
  pub used_offset : ℕ
  pub size : ℕ

-- With PAGE_SIZE = 0x1000, `& !(PAGE_SIZE - 1)` clears the lowest twelve bits.
unfoldable pub align_up : ℕ → ℕ
align_up size = (size + 0x1000) / 0x1000 * 0x1000

-- The sizes of `Descriptor`, `u16` and `UsedElem` are 16, 2 and 8.
unfoldable pub desc_size : ℕ → ℕ
desc_size queue_size = 16 * queue_size

unfoldable pub avail_size : ℕ → ℕ
avail_size queue_size = 2 * (3 + queue_size)

unfoldable pub used_size : ℕ → ℕ
used_size queue_size = 2 * 3 + 8 * queue_size

unfoldable pub layout : ℕ → Option VirtQueueLayout
layout queue_size =
    if not (is_power_of_two queue_size) || ltb 32768 queue_size
    then none
    else some (record {
      avail_offset = desc_size queue_size;
      used_offset = align_up (desc_size queue_size + avail_size queue_size);
      size =
          align_up (desc_size queue_size + avail_size queue_size) + align_up (used_size queue_size);
    })

abbrev layout_of : ℕ → VirtQueueLayout
layout_of queue_size = record {
  avail_offset = desc_size queue_size;
  used_offset = align_up (desc_size queue_size + avail_size queue_size);
  size = align_up (desc_size queue_size + avail_size queue_size) + align_up (used_size queue_size);
}

-- The parts do not overlap, and the used ring and the whole are whole pages, less than 0xdb000 bytes.
pub record Disjoint (queue_size : ℕ) (l : VirtQueueLayout) : Type 0 where
  pub desc_fits : desc_size queue_size ≤ l.avail_offset
  pub avail_fits : l.avail_offset + avail_size queue_size ≤ l.used_offset
  pub used_fits : l.used_offset + used_size queue_size ≤ l.size
  pub used_page : l.used_offset % 0x1000 ≡ 0
  pub whole_pages : l.size % 0x1000 ≡ 0
  pub below : l.size < 0xdb000

layout_of-Disjoint :
    (queue_size : ℕ) → queue_size ≤ 32768 → Disjoint queue_size (layout_of queue_size)
unfolding align_up desc_size avail_size used_size
layout_of-Disjoint queue_size h = record {
  desc_fits = omega arith;
  avail_fits = omega arith;
  used_fits = omega arith;
  used_page = omega arith;
  whole_pages = omega arith;
  below = omega arith;
}

-- In the memory of a queue the descriptors, the available ring and the used ring do not overlap; the
-- used ring begins at a page, and the size is that of whole pages, below 0xdb000.
pub layout-Disjoint :
    (queue_size : ℕ) (l : VirtQueueLayout) → layout queue_size ≡ some l → Disjoint queue_size l
unfolding layout
layout-Disjoint queue_size l h =
    let (t, e) =
      else_some (not (is_power_of_two queue_size) || ltb 32768 queue_size) (layout_of queue_size) l
        h in
    subst (Disjoint queue_size) e (layout_of-Disjoint queue_size (ground arith))
