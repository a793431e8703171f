-- ===== src/Base/Buffers.antt =====
-- Machine addition and writes into byte slices, as Rust has them: `none` is a panic.
use Prim.Native.Nat.{ℕ, zero, suc, ◌+◌, ◌-◌, ◌%◌, ◌^◌, ◌≤◌, ◌<◌}
use mathlib.Core.Path.{◌≡◌, ap, ◌∙◌}
use mathlib.Core.Bool.{Bool, true, false, ◌&&◌}
use mathlib.Core.List.{List, [], ◌∷◌, ◌++◌}
use mathlib.Core.Option.{Option, none, some}
use native.Mathlib.Omega.{arith}
use mig_td.Base.Tests.{leb, if◌then◌else◌}
use mig_td.Base.OptionDo.{◌>>=◌}
use mig_td.Base.Lists.{
  length, take, drop, replicate, slice?, length-append, length-take, length-drop, length-replicate,
  take-append_length, drop-append_length,
}
use mig_td.Base.Bytes.{checked_add}

-- `a + b` on `usize`: with overflow checks it panics, without them it wraps.
unfoldable pub add_usize : Bool → ℕ → ℕ → Option ℕ
add_usize true a b = checked_add a b
add_usize false a b = some ((a + b) % 2 ^ 64)

-- The bytes with `bs` from `a` on.
unfoldable pub overwrite : List ℕ → ℕ → List ℕ → List ℕ
overwrite xs a bs = take a xs ++ (bs ++ drop (a + length bs) xs)

-- `buffer[a..b].fill(0)`
unfoldable pub fill : List ℕ → ℕ → ℕ → Option (List ℕ)
fill buffer a b =
    if leb a b && leb b (length buffer)
    then some (overwrite buffer a (replicate (b - a) 0))
    else none

-- `buffer[a..a + bs.len()].copy_from_slice(bs)`
unfoldable pub copy : Bool → List ℕ → ℕ → List ℕ → Option (List ℕ)
copy checks buffer a bs = do
  b ← add_usize checks a (length bs)
  if leb a b && leb b (length buffer) then some (overwrite buffer a bs) else none

pub add_usize_lem : (checks : Bool) (a b : ℕ) → a + b < 2 ^ 64 → add_usize checks a b ≡ some (a + b)
unfolding add_usize checked_add
add_usize_lem true a b h = ground arith
add_usize_lem false a b h = ap (λ n. some n) (omega arith)

pub length-overwrite :
    (xs : List ℕ) (a : ℕ) (bs : List ℕ)
    → a + length bs ≤ length xs
    → length (overwrite xs a bs) ≡ length xs
unfolding overwrite
length-overwrite xs a bs h = omega (
  arith,
  length-append (take a xs) (bs ++ drop (a + length bs) xs),
  length-append bs (drop (a + length bs) xs),
  length-take a xs,
  length-drop (a + length bs) xs,
)

pub fill_lem :
    (buffer : List ℕ) (a b : ℕ)
    → a ≤ b
    → b ≤ length buffer
    → fill buffer a b ≡ some (overwrite buffer a (replicate (b - a) 0))
unfolding fill
fill_lem buffer a b h k = ground arith

pub length-fill :
    (buffer : List ℕ) (a b : ℕ)
    → a ≤ b
    → b ≤ length buffer
    → length (overwrite buffer a (replicate (b - a) 0)) ≡ length buffer
length-fill buffer a b h k =
    length-overwrite buffer a (replicate (b - a) 0)
      (omega (arith, length-replicate {A = ℕ} (b - a) 0))

pub copy_lem :
    (checks : Bool) (buffer : List ℕ) (a : ℕ) (bs : List ℕ)
    → a + length bs ≤ length buffer
    → length buffer < 2 ^ 64
    → copy checks buffer a bs ≡ some (overwrite buffer a bs)
unfolding copy
copy_lem checks buffer a bs h k =
    rw (add_usize_lem checks a (length bs) (omega arith)) (ground arith)

-- A write behind a prefix leaves the prefix.
pub overwrite-behind :
    (xs ys : List ℕ) (a c : ℕ) (bs : List ℕ)
    → c ≡ length xs + a
    → overwrite (xs ++ ys) c bs ≡ xs ++ overwrite ys a bs
unfolding overwrite
overwrite-behind [] ys a c bs h =
    let e : c ≡ a = omega arith in ap (λ n. take n ys ++ (bs ++ drop (n + length bs) ys)) e
overwrite-behind (x ∷ xs) ys a zero bs h = absurd (omega arith)
overwrite-behind (x ∷ xs) ys a (suc c) bs h =
    let e : suc c + length bs ≡ suc (c + length bs) = omega arith in
    rw e (ap (λ l. x ∷ l) (overwrite-behind xs ys a c bs (omega arith)))

-- A write right behind a prefix replaces what follows.
pub overwrite_next :
    (xs ys : List ℕ) (c : ℕ) (bs : List ℕ)
    → c ≡ length xs
    → overwrite (xs ++ ys) c bs ≡ xs ++ (bs ++ drop (length bs) ys)
unfolding overwrite
overwrite_next xs ys c bs h =
    let e : 0 + length bs ≡ length bs = omega arith in
    overwrite-behind xs ys 0 c bs (omega arith) ∙ ap (λ n. xs ++ (bs ++ drop n ys)) e

pub slice_next :
    (xs ys zs : List ℕ) (a b : ℕ)
    → a ≡ length xs
    → b ≡ length xs + length ys
    → slice? (xs ++ (ys ++ zs)) a b ≡ some ys
slice_next xs ys zs a b ha hb =
    let e : drop a (xs ++ (ys ++ zs)) ≡ ys ++ zs = drop-append_length a xs (ys ++ zs) ha in
    let f : take (b - a) (ys ++ zs) ≡ ys = take-append_length (b - a) ys zs (omega arith) in
    let l = length-append xs (ys ++ zs) in let m = length-append ys zs in ground arith
