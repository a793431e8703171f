-- ===== src/Devices/Virtio/Queue/Chains.antt =====
-- Which descriptors of a `VirtQueue` (src/devices/virtio/src/virtqueue.rs) are free, and which are in
-- which chain.
use mig_td.Base.{
  ℕ, suc, ◌+◌, ◌<◌, ◌≤◌, ◌≡◌, ◌≢◌, refl, sym, ap, ◌∙◌, ==_iff, append_assoc, Bool, true, false,
  List, [], ◌∷◌, ◌++◌, arith, ltb, ◌==◌, if◌then◌else◌, length, All, inl, inr, Bool-cases,
}
use mig_td.Devices.Virtio.Queue.{VirtQueue, VirtqueueBuf, Descriptor, put}

-- How often a number stands in a list.
abbrev pub count : ℕ → List ℕ → ℕ
count i [] = 0
count i (x ∷ xs) = (if x == i then 1 else 0) + count i xs

pub count-append : (i : ℕ) (xs ys : List ℕ) → count i (xs ++ ys) ≡ count i xs + count i ys
count-append i [] ys = omega arith
count-append i (x ∷ xs) ys = omega (arith, count-append i xs ys)

pub count_self : (i : ℕ) (xs : List ℕ) → count i (i ∷ xs) ≡ 1 + count i xs
count_self i xs = ground arith

-- A descriptor in use: its number, its buffer, and whether the device writes to it.
pub record Slot : Type 0 where
  pub index : ℕ
  pub buf : VirtqueueBuf
  pub writable : Bool

abbrev pub indices : List Slot → List ℕ
indices [] = []
indices (s ∷ ss) = s.index ∷ indices ss

-- All the descriptors in chains, and the heads of the chains.
abbrev pub used : List (List Slot) → List ℕ
used [] = []
used (c ∷ cs) = indices c ++ used cs

abbrev pub heads : List (List Slot) → List ℕ
heads [] = []
heads ([] ∷ cs) = heads cs
heads ((s ∷ ss) ∷ cs) = s.index ∷ heads cs

-- The numbers follow one another from the first one on.
abbrev pub Linked : (ℕ → Descriptor) → ℕ → List ℕ → Type 0
Linked table i [] = Unit {0}
Linked table i (x ∷ xs) = (i ≡ x) × Linked table (table x).next xs

-- The descriptor of a slot holds its buffer.
pub record HoldsSlot (table : ℕ → Descriptor) (s : Slot) (has_next : Bool) : Type 0 where
  pub addr : (table s.index).addr ≡ s.buf.addr
  pub len : (table s.index).len ≡ s.buf.len
  pub write : (table s.index).flags.has_write ≡ s.writable
  pub next : (table s.index).flags.has_next ≡ has_next

-- The descriptors hold a chain: all but the last have the flag NEXT and name the next one.
abbrev pub Holds : (ℕ → Descriptor) → List Slot → Type 0
Holds table [] = ⊥
Holds table (s ∷ []) = HoldsSlot table s false
Holds table (s ∷ (t ∷ ss)) =
    HoldsSlot table s true × ((table s.index).next ≡ t.index) × Holds table (t ∷ ss)

-- The queue has these free descriptors and these chains.
pub record Sound (q : VirtQueue) (free : List ℕ) (chains : List (List Slot)) : Type 0 where
  pub size_pos : 1 ≤ q.queue_size
  pub size_max : q.queue_size ≤ 32
  pub num_used : q.num_used ≡ length (used chains)
  pub num_free : length free + q.num_used ≡ q.queue_size
  pub free_linked : Linked q.desc_shadow q.free_head free
  pub held : All (Holds q.desc_shadow) chains
  pub once : (i : ℕ) → count i free + count i (used chains) ≤ 1
  pub bounded : (i : ℕ) → 1 ≤ count i free + count i (used chains) → i < q.queue_size
  pub in_use_iff : (i : ℕ) → q.in_use i ≡ ltb 0 (count i (used chains))
  pub is_head_iff : (i : ℕ) → q.is_head i ≡ ltb 0 (count i (heads chains))

pub put_self : {A : Type 0} (i : ℕ) (v : A) (f : ℕ → A) → put i v f i ≡ v
unfolding put
put_self i v f = ground arith

pub put_other : {A : Type 0} (i j : ℕ) (v : A) (f : ℕ → A) → i ≢ j → put i v f j ≡ f j
unfolding put
put_other i j v f h = ground arith

-- Tables that agree on a list's numbers link it alike.
pub Linked-agree :
    (f g : ℕ → Descriptor) (i : ℕ) (xs : List ℕ)
    → ((x : ℕ) → 1 ≤ count x xs → f x ≡ g x)
    → Linked f i xs
    → Linked g i xs
Linked-agree f g i [] h k = tt
Linked-agree f g i (x ∷ xs) h (e, k) =
    let a : f x ≡ g x = h x (omega (arith, count_self x xs)) in
    (e, rw⁻¹ a (Linked-agree f g (f x).next xs (λ y l. h y (omega arith)) k))

HoldsSlot-agree :
    (f g : ℕ → Descriptor) (s : Slot) (b : Bool)
    → f s.index ≡ g s.index
    → HoldsSlot f s b
    → HoldsSlot g s b
HoldsSlot-agree f g s b e h = record {
  addr = rw⁻¹ e h.addr;
  len = rw⁻¹ e h.len;
  write = rw⁻¹ e h.write;
  next = rw⁻¹ e h.next;
}

pub Holds-agree :
    (f g : ℕ → Descriptor) (c : List Slot)
    → ((x : ℕ) → 1 ≤ count x (indices c) → f x ≡ g x)
    → Holds f c
    → Holds g c
Holds-agree f g [] h k = k
Holds-agree f g (s ∷ []) h k =
    HoldsSlot-agree f g s false (h s.index (omega (arith, count_self s.index []))) k
Holds-agree f g (s ∷ (t ∷ ss)) h (k, n, r) =
    let a : f s.index ≡ g s.index =
      h s.index (omega (arith, count_self s.index (indices (t ∷ ss)))) in
    (
      HoldsSlot-agree f g s true a k,
      rw⁻¹ a n,
      Holds-agree f g (t ∷ ss) (λ y l. h y (omega arith)) r,
    )

pub length-indices : (c : List Slot) → length (indices c) ≡ length c
length-indices [] = refl
length-indices (s ∷ ss) = ap suc (length-indices ss)

pub used-append : (cs ds : List (List Slot)) → used (cs ++ ds) ≡ used cs ++ used ds
used-append [] ds = refl
used-append (c ∷ cs) ds =
    ap (λ l. indices c ++ l) (used-append cs ds)
    ∙ sym (append_assoc (indices c) (used cs) (used ds))

pub heads-append : (cs ds : List (List Slot)) → heads (cs ++ ds) ≡ heads cs ++ heads ds
heads-append [] ds = refl
heads-append ([] ∷ cs) ds = heads-append cs ds
heads-append ((s ∷ ss) ∷ cs) ds = ap (λ l. s.index ∷ l) (heads-append cs ds)

pub count-heads_le : (i : ℕ) (cs : List (List Slot)) → count i (heads cs) ≤ count i (used cs)
count-heads_le i [] = omega arith
count-heads_le i ([] ∷ cs) = count-heads_le i cs
count-heads_le i ((s ∷ ss) ∷ cs) =
    omega (arith, count-append i (indices (s ∷ ss)) (used cs), count-heads_le i cs)

-- A head is the head of some chain.
pub heads-split :
    (i : ℕ) (cs : List (List Slot))
    → 1 ≤ count i (heads cs)
    → (front : List (List Slot)) × (s : Slot) × (c : List Slot) × (back : List (List Slot)) × (cs
        ≡ front ++ ((s ∷ c) ∷ back))
      × (s.index ≡ i)
heads-split i [] h = absurd (omega arith)
heads-split i ([] ∷ cs) h =
    let (front, s, c, back, e, k) = heads-split i cs h in
    ([] ∷ front, s, c, back, ap (λ l. [] ∷ l) e, k)
heads-split i ((s ∷ ss) ∷ cs) h = elim (Bool-cases (s.index == i)) [
  | inl t ↦ ([], s, ss, cs, refl, (==_iff s.index i).0 t)
  | inr t ↦
      let (front, u, c, back, e, k) = heads-split i cs (ground arith) in
      ((s ∷ ss) ∷ front, u, c, back, ap (λ l. (s ∷ ss) ∷ l) e, k)
]

pub All-Holds-agree :
    (f g : ℕ → Descriptor) (cs : List (List Slot))
    → ((x : ℕ) → 1 ≤ count x (used cs) → f x ≡ g x)
    → All (Holds f) cs
    → All (Holds g) cs
All-Holds-agree f g [] h k = tt
All-Holds-agree f g (c ∷ cs) h (k, ks) = (
  Holds-agree f g c (λ x l. h x (omega (arith, count-append x (indices c) (used cs)))) k,
  All-Holds-agree f g cs (λ x l. h x (omega (arith, count-append x (indices c) (used cs)))) ks,
)
