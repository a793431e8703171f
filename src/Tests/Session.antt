-- ===== src/Tests/Session.antt =====
-- The session's requests, versions and key exchange on small inputs.
use mig_td.Base.{
  ℕ, ◌≤◌, ◌≡◌, ◌↔◌, ◌⊎◌, refl, true, none, some, List, [], ◌∷◌, ◌++◌, arith, length, take,
  replicate, from_le, bytes_eq,
}
use mig_td.Migration.Status.{ok}
use mig_td.Migration.Info.{
  MigtdMigrationInformation, mig_info_header_size, mig_info_size, init_td_info_if_present,
  info_read_from_bytes,
}
use mig_td.Migration.Info.Decode.{info_read_from_bytes_sound}
use mig_td.Migration.Requests.{RequestState, header_length, parse_request, read_request_id}
use mig_td.Migration.Requests.Outcome.{Outcome, parse_request-Outcome}
use mig_td.Migration.Version.{
  exchange_as_bytes, exchange_from_bytes, cal_mig_version, cal_mig_version_iff, IsExchange,
  exchange_from-as_bytes,
}
use mig_td.Tests.Readers.{info_reader, data_reader, u64_reader, log_reader, make_info}
use mig_td.Tests.Machines.{peer_exchange}

-- A request of the host to enable the log area, with id 5.
abbrev pub log_request : List ℕ
log_request =
    1
    ∷ 4
    ∷ 0
    ∷ 0
    ∷ 0
    ∷ 0
    ∷ 0
    ∷ 0
    ∷ 16
    ∷ 0
    ∷ 0
    ∷ 0
    ∷ 5
    ∷ 0
    ∷ 0
    ∷ 0
    ∷ 0
    ∷ 0
    ∷ 0
    ∷ 0
    ∷ 2
    ∷ replicate 7 0

abbrev fresh : RequestState
fresh = record { requests = []; pending_error_report = none }

parse_request-Outcome_example :
    Outcome
      (read_request_id log_request header_length)
      fresh
      (parse_request info_reader data_reader u64_reader log_reader log_request header_length fresh)
parse_request-Outcome_example =
    parse_request-Outcome info_reader data_reader u64_reader log_reader log_request header_length
      fresh

cal_mig_version_iff_example :
    (cal_mig_version true peer_exchange peer_exchange ≡ ok 1)
    ↔ ((1 ≤ 1) × (1 ≤ 1) × (1 ≤ 1) × (1 ≤ 1) × ((u : ℕ) → u ≤ 1 → u ≤ 1 → u ≤ 1))
cal_mig_version_iff_example = cal_mig_version_iff true peer_exchange peer_exchange 1

peer_exchange-IsExchange : IsExchange peer_exchange
peer_exchange-IsExchange = record {
  words = (omega arith, (omega arith, (omega arith, (omega arith, tt))));
  four = refl;
  min_fits = omega arith;
  max_fits = omega arith;
  reserved_four = refl;
}

exchange_from-as_bytes_example :
    exchange_from_bytes (exchange_as_bytes peer_exchange) ≡ peer_exchange
exchange_from-as_bytes_example = exchange_from-as_bytes peer_exchange peer_exchange-IsExchange

-- The short form of a migration request, with id 7.
abbrev short_request : List ℕ
short_request = 7 ∷ 0 ∷ 0 ∷ 0 ∷ 0 ∷ 0 ∷ 0 ∷ 0 ∷ 1 ∷ replicate 47 0

abbrev short_info : MigtdMigrationInformation
short_info = make_info (short_request ++ replicate 512 0)

short_info_read : info_read_from_bytes info_reader 56 short_request ≡ ok short_info
unfolding info_read_from_bytes bytes_eq from_le
short_info_read = refl

info_read_from_bytes_sound_example :
    ((56 ≡ mig_info_header_size) ⊎ (56 ≡ mig_info_size))
    × (56 ≤ length short_request)
    × (short_info.reserved ≡ replicate 6 0)
    × ((init_td_info_if_present short_info ≡ some short_info.init_td_info) ↔ (56 ≡ mig_info_size))
    × ((init_td_info_if_present short_info ≡ none) ↔ (56 ≡ mig_info_header_size))
    × (short_info.mig_request_id ≡ from_le (take 8 short_request))
info_read_from_bytes_sound_example =
    info_read_from_bytes_sound info_reader 56 short_request short_info short_info_read
