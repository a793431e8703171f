-- ===== src/Base/Bytes.antt =====
-- Bytes and little-endian integers, as `to_le_bytes`, `from_le_bytes` and `checked_add` of Rust's
-- core library gives them.
use Prim.Native.Nat.{ℕ, zero, suc, ◌+◌, ◌*◌, ◌/◌, ◌%◌, ◌^◌, ◌<◌}
use native.Mathlib.Nat.{pow-suc}
use mathlib.Core.Path.{◌≡◌, refl, ap, ap₂}
use mathlib.Core.List.{List, [], ◌∷◌}
use mathlib.Core.Option.{Option, none, some}
use mathlib.Core.Bool.{Bool, true, false, ◌&&◌}
use mathlib.Core.Logic.{◌↔◌}
use native.Mathlib.Omega.{arith}
use mig_td.Base.Tests.{ltb, ◌==◌, if◌then◌else◌}
use mig_td.Base.Lists.{length, All}

abbrev pub IsByte : ℕ → Type 0
IsByte b = b < 256

abbrev pub IsBytes : List ℕ → Type 0
IsBytes bs = All IsByte bs

-- `to_le_bytes` of an integer of `w` bytes.
unfoldable pub to_le : ℕ → ℕ → List ℕ
to_le zero n = []
to_le (suc w) n = (n % 256) ∷ to_le w (n / 256)

-- `from_le_bytes`.
unfoldable pub from_le : List ℕ → ℕ
from_le [] = 0
from_le (b ∷ bs) = b + 256 * from_le bs

-- `usize::checked_add` on a 64-bit target.
unfoldable pub checked_add : ℕ → ℕ → Option ℕ
checked_add a b = if ltb (a + b) (2 ^ 64) then some (a + b) else none

-- `==` on byte slices.
unfoldable pub bytes_eq : List ℕ → List ℕ → Bool
bytes_eq [] [] = true
bytes_eq [] (y ∷ ys) = false
bytes_eq (x ∷ xs) [] = false
bytes_eq (x ∷ xs) (y ∷ ys) = (x == y) && bytes_eq xs ys

pub length-to_le : (w n : ℕ) → length (to_le w n) ≡ w
unfolding to_le
length-to_le zero n = refl
length-to_le (suc w) n = ap suc (length-to_le w (n / 256))

pub to_le-IsBytes : (w n : ℕ) → IsBytes (to_le w n)
unfolding to_le
to_le-IsBytes zero n = tt
to_le-IsBytes (suc w) n = (omega arith, to_le-IsBytes w (n / 256))

div_lt : (n p : ℕ) → n < p * 256 → n / 256 < p
div_lt n p h = omega arith

pub from_le-to_le : (w n : ℕ) → n < 256 ^ w → from_le (to_le w n) ≡ n
unfolding to_le from_le
from_le-to_le zero n h = omega arith
from_le-to_le (suc w) n h =
    omega (arith, from_le-to_le w (n / 256) (div_lt n (256 ^ w) (omega (arith, pow-suc 256 w))))

pub to_le-from_le : (bs : List ℕ) → IsBytes bs → to_le (length bs) (from_le bs) ≡ bs
unfolding to_le from_le
to_le-from_le [] h = refl
to_le-from_le (b ∷ bs) (hb, hbs) =
    ap₂ ◌∷◌ (omega arith) (
      let e : (b + 256 * from_le bs) / 256 ≡ from_le bs = omega arith in
      rw e (to_le-from_le bs hbs))

pub from_le-lt : (bs : List ℕ) → IsBytes bs → from_le bs < 256 ^ length bs
unfolding from_le
from_le-lt [] h = omega arith
from_le-lt (b ∷ bs) (hb, hbs) = omega (arith, from_le-lt bs hbs, pow-suc 256 (length bs))

pub bytes_eq_iff : (xs ys : List ℕ) → (bytes_eq xs ys ≡ true) ↔ (xs ≡ ys)
unfolding bytes_eq
bytes_eq_iff [] [] = ground arith
bytes_eq_iff [] (y ∷ ys) = ground arith
bytes_eq_iff (x ∷ xs) [] = ground arith
bytes_eq_iff (x ∷ xs) (y ∷ ys) = ground (arith, bytes_eq_iff xs ys)
