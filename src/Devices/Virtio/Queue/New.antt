-- ===== src/Devices/Virtio/Queue/New.antt =====
-- `VirtQueue::new` and `VirtQueueLayout::new` of src/devices/virtio/src/virtqueue.rs.
use mig_td.Base.{
  ℕ, zero, suc, ◌+◌, ◌-◌, ◌<◌, ◌≤◌, ◌≡◌, ◌≢◌, ==_iff, refl, sym, ap, subst, ◌∙◌, Bool, true, false,
  not, ◌&&◌, ◌||◌, none, some, List, [], ◌∷◌, arith, ltb, ◌==◌, if◌then◌else◌, length, inl, inr,
  Bool-cases,
}
use mig_td.Devices.Virtio.Queue.{
  VirtQueue, Descriptor, Outcome, ok, err, panic, invalid_parameter, create_virtio_queue, put,
  max_queue_size,
}
use mig_td.Devices.Virtio.Queue.Chains.{count, Linked, Sound, put_self, put_other}
use mig_td.Devices.Virtio.Queue.Layout.{is_power_of_two, VirtQueueLayout, layout}

abbrev pub default_descriptor : Descriptor
default_descriptor = record {
  addr = 0;
  len = 0;
  flags = record { has_next = false; has_write = false };
  next = 0;
}

-- The loop that links the first `n` descriptors.
unfoldable pub link_all : ℕ → (ℕ → Descriptor) → ℕ → Descriptor
link_all zero table = table
link_all (suc n) table =
    let linked = link_all n table in put n (record (linked n) { next = n + 1 }) linked

-- The calls of a `VirtioTransport` that `new` makes.
pub record VirtioTransport : Type 0 where
  pub get_queue_max_size : Outcome ℕ
  pub set_descriptors_address : ℕ → Outcome (Unit {0})
  pub set_avail_ring : ℕ → Outcome (Unit {0})
  pub set_used_ring : ℕ → Outcome (Unit {0})

infixl 5 ◌>>=◌ ◌>>◌
abbrev pub ◌>>=◌ : {A B : Type 0} → Outcome A → (A → Outcome B) → Outcome B
ok a >>= f = f a
err e >>= f = err e
panic >>= f = panic

abbrev pub ◌>>◌ : {B : Type 0} → Outcome (Unit {0}) → Outcome B → Outcome B
ok a >> k = k
err e >> k = err e
panic >> k = panic

-- The private part of a new queue, over the memory that is at the DMA address.
unfoldable pub fresh_queue : ℕ → (ℕ → Descriptor) → (ℕ → ℕ) → ℕ → ℕ → VirtQueue
fresh_queue queue_size desc avail_ring avail_ring_idx used_event = record {
  desc = link_all (queue_size - 1) desc;
  avail_ring_idx = avail_ring_idx;
  avail_ring = avail_ring;
  used_event = used_event;
  queue_size = queue_size;
  num_used = 0;
  free_head = 0;
  avail_idx = 0;
  last_used_idx = 0;
  desc_shadow = link_all (queue_size - 1) (λ i. default_descriptor);
  in_use = λ i. false;
  is_head = λ i. false;
}

-- `desc`, `avail_ring`, `avail_ring_idx` and `used_event` are what stands in the memory.
unfoldable pub new :
    VirtioTransport → ℕ → ℕ → (ℕ → Descriptor) → (ℕ → ℕ) → ℕ → ℕ → Outcome VirtQueue
new header dma_addr queue_size desc avail_ring avail_ring_idx used_event =
    if not (is_power_of_two queue_size) then err invalid_parameter else (do
      max_size ← header.get_queue_max_size
      if ltb max_size queue_size || ltb max_queue_size queue_size
          then err invalid_parameter
          else elim (layout queue_size) [
            | none ↦ err create_virtio_queue
            | some l ↦ (do
              header.set_descriptors_address dma_addr
              header.set_avail_ring (dma_addr + l.avail_offset)
              header.set_used_ring (dma_addr + l.used_offset)
              ok (fresh_queue queue_size desc avail_ring avail_ring_idx used_event))
          ])

-- The numbers from `k` on.
abbrev pub from : ℕ → ℕ → List ℕ
from k zero = []
from k (suc n) = k ∷ from (suc k) n

length-from : (k n : ℕ) → length (from k n) ≡ n
length-from k zero = refl
length-from k (suc n) = ap suc (length-from (suc k) n)

count-from :
    (i k n : ℕ)
    → (count i (from k n) ≤ 1)
      × (1 ≤ count i (from k n) → i < k + n)
      × (i < k → count i (from k n) ≡ 0)
count-from i k zero = ground arith
count-from i k (suc n) =
    let (a, b, c) = count-from i (suc k) n in
    elim (Bool-cases (k == i)) [
      | inl t ↦
          let e = (==_iff k i).0 t in
          let z = c (omega arith) in (ground arith, λ h. omega arith, λ h. absurd (omega arith))
      | inr t ↦ (ground arith, λ h. ground arith, λ h. let z = c (ground arith) in ground arith)
    ]

link_all_lem : (n i : ℕ) (table : ℕ → Descriptor) → i < n → (link_all n table i).next ≡ i + 1
unfolding link_all
link_all_lem zero i table h = absurd (omega arith)
link_all_lem (suc n) i table h =
    let linked = link_all n table in
    let d : Descriptor = record (linked n) { next = n + 1 } in
    elim (Bool-cases (n == i)) [
      | inl t ↦
          let e = (==_iff n i).0 t in
          ap (λ j. (put n d linked j).next) (sym e)
          ∙ ap (λ v. v.next) (put_self n d linked)
          ∙ ap (λ j. j + 1) e
      | inr t ↦
          let ne : n ≢ i = λ e. absurd (ground (arith, (==_iff n i).1 e)) in
          ap (λ v. v.next) (put_other n i d linked ne) ∙ link_all_lem n i table (ground arith)
    ]

from-Linked :
    (table : ℕ → Descriptor) (k n : ℕ)
    → ((i : ℕ) → i + 1 < k + n → (table i).next ≡ i + 1)
    → Linked table k (from k n)
from-Linked table k zero h = tt
from-Linked table k (suc zero) h = (refl, tt)
from-Linked table k (suc (suc n)) h =
    let e : (table k).next ≡ suc k = h k (omega arith) ∙ omega arith in
    (
      refl,
      subst (λ j. Linked table j (from (suc k) (suc n))) (sym e)
          (from-Linked table (suc k) (suc n) (λ i l. h i (omega arith))),
    )

-- A new queue of 1 to 32 descriptors is sound: all of them are free.
pub fresh_queue-Sound :
    (queue_size : ℕ) (desc : ℕ → Descriptor) (avail_ring : ℕ → ℕ) (avail_ring_idx used_event : ℕ)
    → 1 ≤ queue_size
    → queue_size ≤ 32
    → Sound
        (fresh_queue queue_size desc avail_ring avail_ring_idx used_event)
        (from 0 queue_size)
        []
unfolding fresh_queue
fresh_queue-Sound queue_size desc avail_ring avail_ring_idx used_event lo hi = record {
  size_pos = lo;
  size_max = hi;
  num_used = refl;
  num_free = omega (arith, length-from 0 queue_size);
  free_linked =
      from-Linked (link_all (queue_size - 1) (λ i. default_descriptor)) 0 queue_size
        (λ i l. link_all_lem (queue_size - 1) i (λ i. default_descriptor) (omega arith));
  held = tt;
  once = λ i. let (a, b, c) = count-from i 0 queue_size in omega arith;
  bounded = λ i l. let (a, b, c) = count-from i 0 queue_size in omega (arith, b (omega arith));
  in_use_iff = λ i. refl;
  is_head_iff = λ i. refl;
}

-- A size that `new` accepts, on a device with this maximum.
abbrev pub fits : ℕ → ℕ → Bool
fits max_size queue_size =
    is_power_of_two queue_size && not (ltb max_size queue_size || ltb max_queue_size queue_size)

-- How `new` ends.
pub data Made (max_size queue_size : ℕ) : Outcome VirtQueue → Type 0 where
  made :
      (q : VirtQueue)
      → fits max_size queue_size ≡ true
      → q.queue_size ≡ queue_size
      → Sound q (from 0 queue_size) []
      → Made max_size queue_size (ok q)
  refused : fits max_size queue_size ≡ false → Made max_size queue_size (err invalid_parameter)

power_of_two_pos : (n : ℕ) → is_power_of_two n ≡ true → 1 ≤ n
unfolding is_power_of_two
power_of_two_pos zero h = absurd (ground arith)
power_of_two_pos (suc n) h = omega arith

small_layout :
    (n : ℕ) → is_power_of_two n ≡ true → n ≤ 32 → (l : VirtQueueLayout) × (layout n ≡ some l)
unfolding layout
small_layout n h k = let a : ltb 32768 n ≡ false = ground arith in rw h (rw a (_, refl))

module _ (header : VirtioTransport) (max_size : ℕ)
    (answers_max : header.get_queue_max_size ≡ ok max_size)
    (descriptors : (a : ℕ) → header.set_descriptors_address a ≡ ok tt)
    (avail : (a : ℕ) → header.set_avail_ring a ≡ ok tt)
    (used_ring : (a : ℕ) → header.set_used_ring a ≡ ok tt) where
  -- On a transport whose calls succeed, `new` makes a queue exactly for the sizes that are powers of
  -- two, at most 32 and at most the device's maximum. All its descriptors are free.
  pub new-Made :
      (dma_addr queue_size : ℕ) (desc : ℕ → Descriptor) (avail_ring : ℕ → ℕ)
      (avail_ring_idx used_event : ℕ)
      → Made max_size queue_size
          (new header dma_addr queue_size desc avail_ring avail_ring_idx used_event)
  unfolding new fresh_queue
  new-Made dma_addr queue_size desc avail_ring avail_ring_idx used_event =
      elim (Bool-cases (is_power_of_two queue_size)) [
        | inr p ↦ rw p (refused (rw p refl))
        | inl p ↦ elim (Bool-cases (ltb max_size queue_size || ltb max_queue_size queue_size)) [
          | inl t ↦ rw p (rw answers_max (rw t (refused (rw p (rw t refl)))))
          | inr t ↦
              let hi : queue_size ≤ 32 = ground arith in
              let (l, e) = small_layout queue_size p hi in
              rw p (
                rw answers_max (
                  rw t (
                    rw e (
                      rw (descriptors dma_addr) (
                        rw (avail (dma_addr + l.avail_offset)) (
                          rw (used_ring (dma_addr + l.used_offset)) (
                            made _ (rw p (rw t refl)) refl (
                              fresh_queue-Sound queue_size desc avail_ring avail_ring_idx used_event
                                (power_of_two_pos queue_size p) hi))))))))
        ]
      ]
