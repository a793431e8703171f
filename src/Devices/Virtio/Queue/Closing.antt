-- ===== src/Devices/Virtio/Queue/Closing.antt =====
-- The last descriptor of a chain that `add` of src/devices/virtio/src/virtqueue.rs makes, and the buffers
-- that the chain stands for.
use mig_td.Base.{
  ℕ, suc, ◌+◌, ◌≤◌, ◌≡◌, refl, ap, ap₂, ◌∙◌, Bool, true, false, ◌&&◌, List, [], ◌∷◌, ◌++◌, arith,
  ltb, ◌==◌, if◌then◌else◌, length, is_empty, All,
}
use mig_td.Devices.Virtio.Queue.{VirtqueueBuf, DescFlags, Descriptor, put, without_next, flagged}
use mig_td.Devices.Virtio.Queue.Chains.{
  count, count_self, Slot, indices, Holds, put_self, put_other,
}
use mig_td.Devices.Virtio.Queue.Recycle.{bufs}
use mig_td.Devices.Virtio.Queue.Program.{last_of, HoldsOpen, StandsFor}

pub last_of_in : (n : ℕ) (ss : List Slot) → 1 ≤ count (last_of n ss) (n ∷ indices ss)
last_of_in n [] = omega (arith, count_self n [])
last_of_in n (s ∷ ss) = omega (arith, last_of_in s.index ss)

-- A chain in the making is a chain once the last descriptor has no flag NEXT.
pub closed-Holds :
    (table : ℕ → Descriptor) (s : Slot) (ss : List Slot) (n : ℕ)
    → HoldsOpen table (s ∷ ss) n
    → ((i : ℕ) → count i (indices (s ∷ ss)) ≤ 1)
    → Holds (put (last_of s.index ss) (without_next (table (last_of s.index ss))) table) (s ∷ ss)
closed-Holds table s [] n (h, e, t) o =
    let p = put_self s.index (without_next (table s.index)) table in
    record {
      addr = ap (λ d. d.addr) p ∙ h.addr;
      len = ap (λ d. d.len) p ∙ h.len;
      write = ap (λ d. d.flags.has_write) p ∙ h.write;
      next = ap (λ d. d.flags.has_next) p;
    }
closed-Holds table s (t ∷ ss) n (h, e, k) o =
    let l = last_of t.index ss in
    let p = put_other l s.index (without_next (table l)) table (λ j. absurd (
      omega (
        arith,
        o s.index,
        count_self s.index (indices (t ∷ ss)),
        last_of_in t.index ss,
        ap (λ y. count y (indices (t ∷ ss))) j,
      ))) in
    (
      record {
        addr = ap (λ d. d.addr) p ∙ h.addr;
        len = ap (λ d. d.len) p ∙ h.len;
        write = ap (λ d. d.flags.has_write) p ∙ h.write;
        next = ap (λ d. d.flags.has_next) p ∙ h.next;
      },
      ap (λ d. d.next) p ∙ e,
      closed-Holds table t ss n k (λ i. omega (arith, o i)),
    )

pub flagged-has_next :
    (w : Bool) (bs : List VirtqueueBuf) → All (λ b. b.1.has_next ≡ true) (flagged w bs)
unfolding flagged
flagged-has_next w [] = tt
flagged-has_next w (b ∷ bs) = (refl, flagged-has_next w bs)

pub length-flagged : (w : Bool) (bs : List VirtqueueBuf) → length (flagged w bs) ≡ length bs
unfolding flagged
length-flagged w [] = refl
length-flagged w (b ∷ bs) = ap suc (length-flagged w bs)

pub length-StandsFor :
    (bs : List (VirtqueueBuf × DescFlags)) (ss : List Slot)
    → StandsFor bs ss
    → length ss ≡ length bs
length-StandsFor [] [] h = refl
length-StandsFor [] (s ∷ ss) h = elim h [ ]
length-StandsFor (b ∷ bs) [] h = elim h [ ]
length-StandsFor (b ∷ bs) (s ∷ ss) (e, f, h) = ap suc (length-StandsFor bs ss h)

-- The buffers of the slots are those that were handed over.
bufs_written :
    (h2g : List VirtqueueBuf) (ss : List Slot)
    → StandsFor (flagged true h2g) ss
    → (bufs false ss ≡ []) × (bufs true ss ≡ h2g)
unfolding flagged bufs
bufs_written [] [] h = (refl, refl)
bufs_written [] (s ∷ ss) h = elim h [ ]
bufs_written (b ∷ bs) [] h = elim h [ ]
bufs_written (b ∷ bs) (s ∷ ss) (e, f, h) =
    let (x, y) = bufs_written bs ss h in rw f (x, ap₂ (λ u v. u ∷ v) e y)

pub bufs-StandsFor :
    (g2h h2g : List VirtqueueBuf) (ss : List Slot)
    → StandsFor (flagged false g2h ++ flagged true h2g) ss
    → (bufs false ss ≡ g2h) × (bufs true ss ≡ h2g)
unfolding flagged bufs
bufs-StandsFor [] h2g ss h = bufs_written h2g ss h
bufs-StandsFor (b ∷ bs) h2g [] h = elim h [ ]
bufs-StandsFor (b ∷ bs) h2g (s ∷ ss) (e, f, h) =
    let (x, y) = bufs-StandsFor bs h2g ss h in rw f (ap₂ (λ u v. u ∷ v) e x, y)

pub both_empty :
    {A : Type 0} (xs ys : List A) → (is_empty xs && is_empty ys) ≡ true → length xs + length ys ≡ 0
both_empty [] [] h = refl
both_empty [] (y ∷ ys) h = absurd (ground arith)
both_empty (x ∷ xs) ys h = absurd (ground arith)

pub some_buffers :
    {A : Type 0} (xs ys : List A) → (is_empty xs && is_empty ys) ≡ false → 1 ≤ length xs + length ys
some_buffers [] [] h = absurd (ground arith)
some_buffers [] (y ∷ ys) h = omega arith
some_buffers (x ∷ xs) ys h = omega arith

pub in_use_counts :
    (a b : ℕ) (u : Bool) → u ≡ ltb 0 b → (if ltb 0 a then true else u) ≡ ltb 0 (a + b)
in_use_counts a b u h = ground arith

pub put_counts :
    (k i b : ℕ) (f : ℕ → Bool)
    → f i ≡ ltb 0 b
    → put k true f i ≡ ltb 0 ((if k == i then 1 else 0) + b)
unfolding put
put_counts k i b f h = ground arith
