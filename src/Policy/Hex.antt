-- ===== src/Policy/Hex.antt =====
-- The hexadecimal coding of src/policy/src/v2/mod.rs is lossless.
use mig_td.Base.{
  ℕ, ◌+◌, ◌*◌, ◌/◌, ◌%◌, ◌<◌, ◌≡◌, ◌≢◌, refl, true, false, some, List, [], ◌∷◌, arith, ◌==◌, length,
  IsBytes, is_empty,
}
use mig_td.Policy.Fallible.{ok}
use mig_td.Policy.Text.{
  hex_digit, hex_value, hex_pair, hex_chunks, bytes_to_hex_string, is_ascii, hex_string_to_bytes,
}

hex_value-hex_digit : (n : ℕ) → n < 16 → hex_value (hex_digit n) ≡ some n
unfolding hex_value hex_digit
hex_value-hex_digit n h = ground arith

hex_digit_lt : (n : ℕ) → n < 16 → (hex_digit n < 128) × (hex_digit n ≢ b'+')
unfolding hex_digit
hex_digit_lt n h = (ground arith, ground arith)

hex_pair_digits : (b : ℕ) → b < 256 → hex_pair (hex_digit (b / 16)) (hex_digit (b % 16)) ≡ some b
unfolding hex_pair
hex_pair_digits b h =
    let p = hex_value-hex_digit (b / 16) (omega arith) in
    let q = hex_value-hex_digit (b % 16) (omega arith) in
    let d = hex_digit_lt (b / 16) (omega arith) in
    let e : (hex_digit (b / 16) == b'+') ≡ false = ground arith in
    let s : (b / 16) * 16 + b % 16 ≡ b = omega arith in rw (e, p, q, s) refl

hex_chunks-bytes : (bs : List ℕ) → IsBytes bs → hex_chunks (bytes_to_hex_string bs) ≡ some bs
unfolding hex_chunks bytes_to_hex_string
hex_chunks-bytes [] h = refl
hex_chunks-bytes (b ∷ bs) (h, hs) = rw (hex_pair_digits b h, hex_chunks-bytes bs hs) refl

is_ascii-hex : (bs : List ℕ) → IsBytes bs → is_ascii (bytes_to_hex_string bs) ≡ true
unfolding is_ascii bytes_to_hex_string
is_ascii-hex [] h = refl
is_ascii-hex (b ∷ bs) (h, hs) = ground (
  arith,
  hex_digit_lt (b / 16) (omega arith),
  hex_digit_lt (b % 16) (omega arith),
  is_ascii-hex bs hs,
)

length-hex : (bs : List ℕ) → length (bytes_to_hex_string bs) ≡ 2 * length bs
unfolding bytes_to_hex_string
length-hex [] = refl
length-hex (b ∷ bs) = omega (arith, length-hex bs)

-- The text of any bytes but the empty string is read back as these bytes.
pub hex_string_to_bytes-bytes_to_hex_string :
    (b : ℕ) (bs : List ℕ)
    → IsBytes (b ∷ bs)
    → hex_string_to_bytes (bytes_to_hex_string (b ∷ bs)) ≡ ok (b ∷ bs)
unfolding hex_string_to_bytes
hex_string_to_bytes-bytes_to_hex_string b bs h =
    let e : is_empty (bytes_to_hex_string (b ∷ bs)) ≡ false = unfold bytes_to_hex_string in refl in
    let l : (length (bytes_to_hex_string (b ∷ bs)) % 2 == 0) ≡ true =
      ground (arith, length-hex (b ∷ bs)) in
    rw (e, l, is_ascii-hex (b ∷ bs) h, hex_chunks-bytes (b ∷ bs) h) refl
