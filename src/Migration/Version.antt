-- ===== src/Migration/Version.antt =====
-- `ExchangeInformation` and the negotiation of the migration version:
-- src/migtd/src/migration/session.rs and data.rs.
use mig_td.Base.{
  ℕ, ◌^◌, ◌<◌, ◌≤◌, ◌≡◌, ◌↔◌, ◌∙◌, refl, Bool, true, false, not, ◌||◌, List, [], ◌∷◌, ◌++◌, arith,
  min, ltb, if◌then◌else◌, length, take, drop, take_all, All, ap, from_le-to_le, to_le, from_le,
  bytes_eq, replicate,
}
use mig_td.Migration.Status.{Result, ok, err, invalid_parameter}

-- `MigrationSessionKey { fields: [u64; 4] }`; the list has four elements.
pub record MigrationSessionKey : Type 0 where
  pub fields : List ℕ

pub record ExchangeInformation : Type 0 where
  pub key : MigrationSessionKey
  pub min_ver : ℕ
  pub max_ver : ℕ
  pub reserved : List ℕ

-- `size_of::<ExchangeInformation>()`
abbrev pub exchange_information_size : ℕ
exchange_information_size = 40

-- The bytes of an array of u64.
abbrev words_as_bytes : List ℕ → List ℕ
words_as_bytes [] = []
words_as_bytes (x ∷ xs) = to_le 8 x ++ words_as_bytes xs

-- `ExchangeInformation::as_bytes`, a `repr(C)` struct without padding.
unfoldable pub exchange_as_bytes : ExchangeInformation → List ℕ
exchange_as_bytes i =
    words_as_bytes i.key.fields ++ (to_le 2 i.min_ver ++ (to_le 2 i.max_ver ++ i.reserved))

-- What the struct holds after its 40 bytes were overwritten through `as_bytes_mut`.
unfoldable pub exchange_from_bytes : List ℕ → ExchangeInformation
exchange_from_bytes bytes = record {
  key = record {
    fields =
        from_le (take 8 bytes)
        ∷ from_le (take 8 (drop 8 bytes))
        ∷ from_le (take 8 (drop 16 bytes))
        ∷ from_le (take 8 (drop 24 bytes))
        ∷ [];
  };
  min_ver = from_le (take 2 (drop 32 bytes));
  max_ver = from_le (take 2 (drop 34 bytes));
  reserved = take 4 (drop 36 bytes);
}

-- `ExchangeInformation::validate`
unfoldable pub validate : ExchangeInformation → Result (Unit {0})
validate i = if not (bytes_eq i.reserved (replicate 4 0)) then err invalid_parameter else ok tt

-- The test and the result of `cal_mig_version` on the four bounds.
abbrev common_version : ℕ → ℕ → ℕ → ℕ → Result ℕ
common_version min_export max_export min_import max_import =
    if ltb max_export min_export
      || (ltb max_import min_import || (ltb max_export min_import || ltb max_import min_export))
    then err invalid_parameter
    else ok (min max_export max_import)

unfoldable pub cal_mig_version : Bool → ExchangeInformation → ExchangeInformation → Result ℕ
cal_mig_version is_src local remote =
    if is_src
    then common_version local.min_ver local.max_ver remote.min_ver remote.max_ver
    else common_version remote.min_ver remote.max_ver local.min_ver local.max_ver

-- The two ends of a migration compute the same version, or both find none.
pub cal_mig_version_agree :
    (src dst : ExchangeInformation) → cal_mig_version true src dst ≡ cal_mig_version false dst src
unfolding cal_mig_version
cal_mig_version_agree src dst = refl

-- The version is the highest that lies in both ranges: it is found exactly if the ranges share a
-- version.
pub cal_mig_version_iff :
    (is_src : Bool) (local remote : ExchangeInformation) (v : ℕ)
    → (cal_mig_version is_src local remote ≡ ok v) ↔ (
        (local.min_ver ≤ v)
        × (v ≤ local.max_ver)
        × (remote.min_ver ≤ v)
        × (v ≤ remote.max_ver)
        × ((u : ℕ) → u ≤ local.max_ver → u ≤ remote.max_ver → u ≤ v))
unfolding cal_mig_version
cal_mig_version_iff true local remote v = (
  λ e. (ground arith, ground arith, ground arith, ground arith, λ u a b. ground arith),
  λ e. ground (arith, e.4 local.max_ver, e.4 remote.max_ver),
)
cal_mig_version_iff false local remote v = (
  λ e. (ground arith, ground arith, ground arith, ground arith, λ u a b. ground arith),
  λ e. ground (arith, e.4 local.max_ver, e.4 remote.max_ver),
)

-- The fields fit their widths.
pub record IsExchange (i : ExchangeInformation) : Type 0 where
  pub words : All (λ x. x < 2 ^ 64) i.key.fields
  pub four : length i.key.fields ≡ 4
  pub min_fits : i.min_ver < 2 ^ 16
  pub max_fits : i.max_ver < 2 ^ 16
  pub reserved_four : length i.reserved ≡ 4

from_bytes_of_parts :
    (a b c d lo hi : ℕ) (reserved : List ℕ)
    → length reserved ≡ 4
    → exchange_from_bytes (
        exchange_as_bytes (record {
          key = record { fields = a ∷ b ∷ c ∷ d ∷ [] };
          min_ver = lo;
          max_ver = hi;
          reserved = reserved;
        }))
      ≡ record {
        key = record {
          fields =
              from_le (to_le 8 a)
              ∷ from_le (to_le 8 b)
              ∷ from_le (to_le 8 c)
              ∷ from_le (to_le 8 d)
              ∷ [];
        };
        min_ver = from_le (to_le 2 lo);
        max_ver = from_le (to_le 2 hi);
        reserved = reserved;
      }
unfolding exchange_from_bytes exchange_as_bytes to_le
from_bytes_of_parts a b c d lo hi reserved h =
    ap
      (λ r. record {
        key = record {
          fields =
              from_le (to_le 8 a)
              ∷ from_le (to_le 8 b)
              ∷ from_le (to_le 8 c)
              ∷ from_le (to_le 8 d)
              ∷ [];
        };
        min_ver = from_le (to_le 2 lo);
        max_ver = from_le (to_le 2 hi);
        reserved = r;
      })
      (take_all 4 reserved (omega arith))

round_trip :
    (fs : List ℕ) (lo hi : ℕ) (reserved : List ℕ)
    → All (λ x. x < 2 ^ 64) fs
    → length fs ≡ 4
    → lo < 2 ^ 16
    → hi < 2 ^ 16
    → length reserved ≡ 4
    → exchange_from_bytes (
        exchange_as_bytes (record {
          key = record { fields = fs };
          min_ver = lo;
          max_ver = hi;
          reserved = reserved;
        }))
      ≡ record { key = record { fields = fs }; min_ver = lo; max_ver = hi; reserved = reserved }
round_trip (a ∷ b ∷ c ∷ d ∷ []) lo hi reserved (ha, (hb, (hc, (hd, _)))) four hlo hhi h =
    from_bytes_of_parts a b c d lo hi reserved h
    ∙ rw
        (
          from_le-to_le 8 a ha,
          from_le-to_le 8 b hb,
          from_le-to_le 8 c hc,
          from_le-to_le 8 d hd,
          from_le-to_le 2 lo hlo,
          from_le-to_le 2 hi hhi,
        )
        refl
round_trip [] lo hi reserved w four hlo hhi h = absurd (omega arith)
round_trip (a ∷ []) lo hi reserved w four hlo hhi h = absurd (omega arith)
round_trip (a ∷ b ∷ []) lo hi reserved w four hlo hhi h = absurd (omega arith)
round_trip (a ∷ b ∷ c ∷ []) lo hi reserved w four hlo hhi h = absurd (omega arith)
round_trip (a ∷ b ∷ c ∷ d ∷ e ∷ fs) lo hi reserved w four hlo hhi h = absurd (omega arith)

-- The exchange information that one end writes, over a channel that delivers its 40 bytes, is what
-- the other end then holds.
pub exchange_from-as_bytes :
    (i : ExchangeInformation) → IsExchange i → exchange_from_bytes (exchange_as_bytes i) ≡ i
exchange_from-as_bytes i h =
    round_trip i.key.fields i.min_ver i.max_ver i.reserved h.words h.four h.min_fits h.max_fits
      h.reserved_four
