-- ===== src/Devices/Virtio/Queue/Program.antt =====
-- The loops of `VirtQueue::add` (src/devices/virtio/src/virtqueue.rs) over the buffers.
use mig_td.Base.{
  ℕ, ◌<◌, ◌≤◌, ◌≡◌, ◌≢◌, refl, sym, ap, ◌∙◌, true, List, [], ◌∷◌, ◌++◌, arith, ltb, if◌then◌else◌,
  length, All, ◌==◌, ==_iff, subst, inl, inr, Bool-cases,
}
use mig_td.Devices.Virtio.Queue.{
  VirtQueue, VirtqueueBuf, DescFlags, Descriptor, ok, put, programmed, add_descriptor,
  add_descriptors,
}
use mig_td.Devices.Virtio.Queue.Chains.{
  count, count-append, count_self, Slot, indices, HoldsSlot, Linked, Linked-agree, put_self,
  put_other,
}

-- The first of these descriptors, or else what follows them.
abbrev pub first_of : List Slot → ℕ → ℕ
first_of [] n = n
first_of (s ∷ ss) n = s.index

abbrev pub last_of : ℕ → List Slot → ℕ
last_of n [] = n
last_of n (s ∷ ss) = last_of s.index ss

-- A chain in the making: all its descriptors have the flag NEXT, and the last one names `n`.
abbrev pub HoldsOpen : (ℕ → Descriptor) → List Slot → ℕ → Type 0
HoldsOpen table [] n = Unit {0}
HoldsOpen table (s ∷ ss) n =
    HoldsSlot table s true × ((table s.index).next ≡ first_of ss n) × HoldsOpen table ss n

-- The slots stand for these buffers.
abbrev pub StandsFor : List (VirtqueueBuf × DescFlags) → List Slot → Type 0
StandsFor [] [] = Unit {0}
StandsFor [] (s ∷ ss) = ⊥
StandsFor (b ∷ bs) [] = ⊥
StandsFor (b ∷ bs) (s ∷ ss) = (s.buf ≡ b.0) × (s.writable ≡ b.1.has_write) × StandsFor bs ss

-- What the loops leave: these slots are taken from the front of the free ones.
pub record Programmed (bufs : List (VirtqueueBuf × DescFlags)) (free : List ℕ) (q q' : VirtQueue)
    (slots : List Slot) : Type 0 where
  pub left : List ℕ
  pub taken : free ≡ indices slots ++ left
  pub stands_for : StandsFor bufs slots
  pub holds : HoldsOpen q'.desc_shadow slots q'.free_head
  pub free_linked : Linked q'.desc_shadow q'.free_head left
  pub others : (i : ℕ) → count i (indices slots) ≡ 0 → q'.desc_shadow i ≡ q.desc_shadow i
  pub in_use :
      (i : ℕ) → q'.in_use i ≡ (if ltb 0 (count i (indices slots)) then true else q.in_use i)
  pub is_head : q'.is_head ≡ q.is_head
  pub queue_size : q'.queue_size ≡ q.queue_size
  pub num_used : q'.num_used ≡ q.num_used
  pub first : first_of slots q'.free_head ≡ q.free_head
  pub shared :
      (i : ℕ)
      → 1 ≤ count i (indices slots)
      → q'.desc i ≡ record (q'.desc_shadow i) { next = (q.desc i).next }
  pub shared_others : (i : ℕ) → count i (indices slots) ≡ 0 → q'.desc i ≡ q.desc i
  pub avail_ring : q'.avail_ring ≡ q.avail_ring
  pub avail_idx : q'.avail_idx ≡ q.avail_idx

-- The descriptor that is programmed.
abbrev descriptor : ℕ → VirtqueueBuf → DescFlags → VirtQueue → Descriptor
descriptor i buf flag q = record {
  addr = buf.addr;
  len = buf.len;
  flags = flag;
  next = (q.desc_shadow i).next;
}

add_descriptor_lem :
    (buf : VirtqueueBuf) (flag : DescFlags) (q : VirtQueue) (i : ℕ)
    → q.free_head ≡ i
    → i < q.queue_size
    → q.queue_size ≤ 32
    → add_descriptor buf flag q ≡ (ok i, programmed i buf flag q)
unfolding add_descriptor
add_descriptor_lem buf flag q i e h k =
    let a : ltb q.free_head q.queue_size ≡ true = ground arith in
    let b : ltb q.free_head 32 ≡ true = ground arith in
    let f : add_descriptor buf flag q ≡ (ok q.free_head, programmed q.free_head buf flag q) =
      rw a (rw b refl) in
    f ∙ ap (λ j. (ok j, programmed j buf flag q)) e

in_use_cons :
    (i : ℕ) (ss : List Slot) (q : VirtQueue) (x : ℕ)
    → (if ltb 0 (count x (indices ss)) then true else put i true q.in_use x)
      ≡ (if ltb 0 (count x (i ∷ indices ss)) then true else q.in_use x)
unfolding put
in_use_cons i ss q x = ground arith

count_tail : (x i : ℕ) (xs : List ℕ) → i ≢ x → 1 ≤ count x (i ∷ xs) → 1 ≤ count x xs
count_tail x i xs ne n = elim (Bool-cases (i == x)) [
  | inl t ↦ absurd (ne ((==_iff i x).0 t))
  | inr t ↦ ground arith
]

pub add_descriptors-Programmed :
    (bs : List (VirtqueueBuf × DescFlags)) (free : List ℕ) (last : ℕ) (q : VirtQueue)
    → q.queue_size ≤ 32
    → All (λ b. b.1.has_next ≡ true) bs
    → Linked q.desc_shadow q.free_head free
    → ((i : ℕ) → count i free ≤ 1)
    → ((i : ℕ) → 1 ≤ count i free → i < q.queue_size)
    → length bs ≤ length free
    → (slots : List Slot) × (q' : VirtQueue) × (add_descriptors bs last q
        ≡ (ok (last_of last slots), q'))
      × Programmed bs free q q' slots
unfolding add_descriptors programmed
add_descriptors-Programmed [] free last q m h l o b k = (
  [],
  q,
  refl,
  record {
    left = free;
    taken = refl;
    stands_for = tt;
    holds = tt;
    free_linked = l;
    others = λ i e. refl;
    in_use = λ i. refl;
    is_head = refl;
    queue_size = refl;
    num_used = refl;
    first = refl;
    shared = λ i n. absurd (omega arith);
    shared_others = λ i e. refl;
    avail_ring = refl;
    avail_idx = refl;
  },
)
add_descriptors-Programmed (d ∷ bs) [] last q m h l o b k = absurd (omega arith)
add_descriptors-Programmed (d ∷ bs) (i ∷ free) last q m (hd, h) (e, l) o b k =
    let old = q.desc_shadow in
    let d1 = descriptor i d.0 d.1 q in
    let q1 = programmed i d.0 d.1 q in
    let apart : (x : ℕ) → 1 ≤ count x free → i ≢ x =
      λ x n j. absurd (omega (arith, o x, count_self x free, ap (λ y. count x (y ∷ free)) j)) in
    let l1 : Linked (put i d1 old) (old i).next free =
      Linked-agree old (put i d1 old) (old i).next free
        (λ x n. sym (put_other i x d1 old (apart x n))) l in
    let (ss, q', eq, p) =
      add_descriptors-Programmed bs free i q1 m h l1 (λ x. omega (arith, o x))
        (λ x n. b x (omega arith)) (omega arith) in
    let first_step = add_descriptor_lem d.0 d.1 q i e (b i (omega (arith, count_self i free))) m in
    let z : count i (indices ss) ≡ 0 =
      omega
        (arith, o i, count_self i free, ap (count i) p.taken, count-append i (indices ss) p.left) in
    let same : q'.desc_shadow i ≡ d1 = p.others i z ∙ put_self i d1 old in
    (
      record { index = i; buf = d.0; writable = d.1.has_write } ∷ ss,
      q',
      rw first_step eq,
      record {
        left = p.left;
        taken = ap (λ t. i ∷ t) p.taken;
        stands_for = (refl, refl, p.stands_for);
        holds = (
          record {
            addr = ap (λ t. t.addr) same;
            len = ap (λ t. t.len) same;
            write = ap (λ t. t.flags.has_write) same;
            next = ap (λ t. t.flags.has_next) same ∙ hd;
          },
          ap (λ t. t.next) same ∙ sym p.first,
          p.holds,
        );
        free_linked = p.free_linked;
        others = λ x n.
            p.others x (omega arith)
            ∙ put_other i x d1 old (λ j.
              absurd
                (omega (arith, count_self i (indices ss), ap (λ y. count y (i ∷ indices ss)) j)));
        in_use = λ x. p.in_use x ∙ in_use_cons i ss q x;
        is_head = p.is_head;
        queue_size = p.queue_size;
        num_used = p.num_used;
        first = sym e;
        shared = λ x n. elim (Bool-cases (x == i)) [
          | inl t ↦
              let x_i = (==_iff x i).0 t in
              subst (λ y. q'.desc y ≡ record (q'.desc_shadow y) { next = (q.desc y).next })
                (sym x_i)
                (p.shared_others i z
                  ∙ put_self i (record d1 { next = (q.desc i).next }) q.desc
                  ∙ ap {A = Descriptor} {B = Descriptor} (λ t. record t { next = (q.desc i).next })
                      (sym same))
          | inr t ↦
              let ne : i ≢ x = λ j. absurd (ground (arith, (==_iff x i).1 (sym j))) in
              p.shared x (count_tail x i (indices ss) ne n)
              ∙ ap {A = Descriptor} {B = Descriptor}
                  (λ t. record (q'.desc_shadow x) { next = t.next })
                  (put_other i x (record d1 { next = (q.desc i).next }) q.desc ne)
        ];
        shared_others = λ x n.
            p.shared_others x (omega arith)
            ∙ put_other i x (record d1 { next = (q.desc i).next }) q.desc
                (λ j.
                  absurd (
                    omega
                      (arith, count_self i (indices ss), ap (λ y. count y (i ∷ indices ss)) j)));
        avail_ring = p.avail_ring;
        avail_idx = p.avail_idx;
      },
    )
