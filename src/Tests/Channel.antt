-- ===== src/Tests/Channel.antt =====
-- A channel that moves one byte at a time and fails when there is nothing to read.
use mig_td.Base.{
  ℕ, zero, suc, ◌≤◌, ◌<◌, ◌≡◌, refl, Option, none, some, List, [], ◌∷◌, ◌++◌, arith, length, take,
}
use mig_td.Migration.Transport.{Transport, Wire}

pub record Chan : Type 0 where
  pub out : List ℕ
  pub inp : List ℕ

abbrev pub chan_write : List ℕ → Chan → Option ℕ × Chan
chan_write [] c = (some 0, c)
chan_write (b ∷ bs) c = (some 1, record c { out = c.out ++ (b ∷ []) })

abbrev read_from : List ℕ → Chan → Option (List ℕ) × Chan
read_from [] c = (none, c)
read_from (b ∷ bs) c = (some (b ∷ []), record c { inp = bs })

abbrev pub chan_read : ℕ → Chan → Option (List ℕ) × Chan
chan_read zero c = (some [], c)
chan_read (suc n) c = read_from c.inp c

abbrev pub chan : Transport Chan
chan = record { write = chan_write; read = chan_read }

abbrev ReadSome : ℕ → Chan → List ℕ → Option (List ℕ) × Chan → Type 0
ReadSome n c bs r = (0 < length bs) × (length bs ≤ n) × (c.inp ≡ bs ++ r.1.inp) × (r.1.out ≡ c.out)

read_from-some :
    (n : ℕ) (c : Chan) (bs xs : List ℕ)
    → c.inp ≡ xs
    → (read_from xs c).0 ≡ some bs
    → ReadSome (suc n) c bs (read_from xs c)
read_from-some n c bs [] e h = absurd cc
read_from-some n c bs (x ∷ xs) e h =
    let p : (x ∷ []) ≡ bs = cc in rw (← p) (omega arith, omega arith, e, refl)

pub chan_read-some :
    (n : ℕ) (c : Chan) (bs : List ℕ)
    → 0 < n
    → (chan_read n c).0 ≡ some bs
    → ReadSome n c bs (chan_read n c)
chan_read-some zero c bs p h = absurd (omega arith)
chan_read-some (suc n) c bs p h = read_from-some n c bs c.inp refl h

pub chan_write-some :
    (b : ℕ) (bs : List ℕ) (c : Chan) (n : ℕ)
    → (chan_write (b ∷ bs) c).0 ≡ some n
    → (0 < n)
      × (n ≤ length (b ∷ bs))
      × ((chan_write (b ∷ bs) c).1.out ≡ c.out ++ take n (b ∷ bs))
      × ((chan_write (b ∷ bs) c).1.inp ≡ c.inp)
chan_write-some b bs c n h = let p : 1 ≡ n = cc in rw (← p) (omega arith, omega arith, refl, refl)

abbrev pub chan_wire : Wire chan
chan_wire = record {
  sent = λ c. c.out;
  pending = λ c. c.inp;
  write_some = λ b bs c n h. chan_write-some b bs c n h;
  read_some = λ n c bs p h. chan_read-some n c bs p h;
}
