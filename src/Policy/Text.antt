-- ===== src/Policy/Text.antt =====
-- Text as the bytes of its UTF-8, with the operations of Rust's core library that the policy
-- evaluation uses, and the hexadecimal coding of src/policy/src/v2/mod.rs.
use Prim.Native.String.{String}
use Prim.Native.Char.{code}
use mig_td.Base.{
  ℕ, ◌+◌, ◌-◌, ◌*◌, ◌/◌, ◌%◌, ◌^◌, Bool, true, false, not, ◌&&◌, ◌||◌, Option, none, some, List, [],
  ◌∷◌, map, ltb, leb, ◌==◌, if◌then◌else◌, length, is_empty,
}
use mig_td.Base.OptionDo.{◌>>=◌}
use mig_td.Policy.Fallible.{Fallible, ok, err, invalid_parameter}

abbrev pub Text : Type 0
Text = List ℕ

-- A literal of ASCII characters.
abbrev pub text : String → Text
text String.[] = []
text (String.◌∷◌ c s) = code c ∷ text s

-- `x >= y` on `str`: the order of the bytes.
unfoldable pub text_ge : Text → Text → Bool
text_ge xs [] = true
text_ge [] (y ∷ ys) = false
text_ge (x ∷ xs) (y ∷ ys) =
    let rest = text_ge xs ys in if ltb y x then true else if ltb x y then false else rest

-- The first part of `split("..")`, and what follows the first `..` if there is one.
unfoldable pub split_dots : Text → Text × Option Text
split_dots [] = ([], none)
split_dots (x ∷ []) = (x ∷ [], none)
split_dots (x ∷ y ∷ rest) =
    let tail = split_dots (y ∷ rest) in
    if (x == b'.') && (y == b'.') then ([], some rest) else (x ∷ tail.0, tail.1)

-- The two parts of `split("..")` when there are exactly two.
unfoldable pub two_parts : Text → Option (Text × Text)
unfolding split_dots
two_parts t = do
  rest ← (split_dots t).1
  let second = split_dots rest
  elim second.1 [ none ↦ some ((split_dots t).0, second.0) | some _ ↦ none ]

unfoldable pub is_digit : ℕ → Bool
is_digit c = leb b'0' c && leb c b'9'

-- The digits of a `u32` after those that gave `acc`, as `checked_mul` and `checked_add` read them.
unfoldable pub parse_digits : ℕ → Text → Option ℕ
unfolding is_digit
parse_digits acc [] = some acc
parse_digits acc (c ∷ cs) =
    let rest = parse_digits (acc * 10 + (c - b'0')) cs in
    if not (is_digit c) then none else if ltb (acc * 10 + (c - b'0')) (2 ^ 32) then rest else none

-- `str::parse::<u32>`: an optional plus sign and at least one digit.
unfoldable pub parse_u32 : Text → Option ℕ
unfolding parse_digits
parse_u32 [] = none
parse_u32 (c ∷ cs) =
    if c == b'+' then (if is_empty cs then none else parse_digits 0 cs) else parse_digits 0 (c ∷ cs)

unfoldable pub to_upper : ℕ → ℕ
to_upper c = if leb b'a' c && leb c b'z' then c - 32 else c

-- `str::to_ascii_uppercase`
unfoldable pub to_ascii_uppercase : Text → Text
unfolding to_upper
to_ascii_uppercase t = map to_upper t

-- One digit of `{:X}`.
unfoldable pub hex_digit : ℕ → ℕ
hex_digit n = if ltb n 10 then b'0' + n else b'A' + (n - 10)

-- `bytes_to_hex_string`: `format!("{b:02X}")` of each byte.
unfoldable pub bytes_to_hex_string : List ℕ → Text
unfolding hex_digit
bytes_to_hex_string [] = []
bytes_to_hex_string (b ∷ bs) = hex_digit (b / 16) ∷ hex_digit (b % 16) ∷ bytes_to_hex_string bs

-- The value of a digit in radix 16, of either case.
unfoldable pub hex_value : ℕ → Option ℕ
hex_value c =
    if leb b'0' c && leb c b'9'
    then some (c - b'0')
    else if leb b'a' c && leb c b'f'
    then some (c - b'a' + 10)
    else if leb b'A' c && leb c b'F'
    then some (c - b'A' + 10)
    else none

-- `u8::from_str_radix(_, 16)` on two ASCII characters, of which the first may be a plus sign.
unfoldable pub hex_pair : ℕ → ℕ → Option ℕ
unfolding hex_value
hex_pair c d =
    if c == b'+'
    then hex_value d
    else do high ← hex_value c; low ← hex_value d; some (high * 16 + low)

-- The loop of `hex_string_to_bytes` over chunks of exactly two bytes.
unfoldable pub hex_chunks : Text → Option (List ℕ)
unfolding hex_pair
hex_chunks [] = some []
hex_chunks (c ∷ []) = some []
hex_chunks (c ∷ d ∷ rest) = do byte ← hex_pair c d; bytes ← hex_chunks rest; some (byte ∷ bytes)

unfoldable pub is_ascii : Text → Bool
is_ascii [] = true
is_ascii (c ∷ cs) = ltb c 128 && is_ascii cs

unfoldable pub hex_string_to_bytes : Text → Fallible (List ℕ)
unfolding hex_chunks is_ascii
hex_string_to_bytes hex =
    if is_empty hex || (not (length hex % 2 == 0) || not (is_ascii hex))
    then err invalid_parameter
    else elim (hex_chunks hex) [ none ↦ err invalid_parameter | some bytes ↦ ok bytes ]
