-- ===== src/Tests/PreSession.antt =====
-- The exchange of src/migtd/src/migration/pre_session_data.rs on small inputs.
use mig_td.Base.{
  ℕ, ◌≤◌, ◌≡◌, ◌↔◌, refl, some, List, [], ◌∷◌, arith, length, IsBytes, from_le, checked_add,
}
use mig_td.Migration.Status.{MigrationResult, Result, ok, err, try_from, code}
use mig_td.Migration.Status
use mig_td.Migration.PreSession.Frame.{
  hello_new, negotiate_supported_version, negotiate_iff, lowest_version, highest_version,
}
use mig_td.Migration.PreSession.PeerData.{peer_blob, encode_peer_data, decode_peer_data}
use mig_td.Migration.PreSession.PeerData.RoundTrip.{decode-encode, encode-decode}
use mig_td.Migration.PreSession.Channel.{send_pre_session_data, receive_pre_session_data}
use mig_td.Migration.PreSession.Channel.Delivery.{IsNetwork, Ends, send-Ends, receive-Ends}
use mig_td.Migration.PreSession.Exchange.{local_peer_data, pre_session_data_exchange}
use mig_td.Migration.PreSession.Exchange.Packets.{IsReceiveError}
use mig_td.Migration.PreSession.Exchange.Protocol.{Accepted, transcript, exchange_sound}
use mig_td.Tests.Channel.{Chan, chan, chan_wire}

abbrev policy_a : List ℕ
policy_a = 1 ∷ 2 ∷ []

abbrev chain_a : List ℕ
chain_a = 3 ∷ []

abbrev policy_b : List ℕ
policy_b = 7 ∷ []

abbrev chain_b : List ℕ
chain_b = 8 ∷ 9 ∷ []

-- A channel on which the other side has sent all of its messages.
abbrev ready : Chan
ready = record { out = []; inp = transcript (peer_blob policy_b chain_b) }

local_a : local_peer_data (some policy_a) (some chain_a) ≡ some (peer_blob policy_a chain_a)
unfolding local_peer_data encode_peer_data
local_a = refl

exchange_sound_example :
    Ends chan_wire IsReceiveError ready
      (pre_session_data_exchange chan (some policy_a) (some chain_a) ready)
      Accepted
      (transcript (peer_blob policy_a chain_a))
exchange_sound_example =
    exchange_sound chan_wire (some policy_a) (some chain_a) (peer_blob policy_a chain_a) ready
      local_a

decode-encode_example :
    (encode_peer_data policy_a chain_a ≡ some (peer_blob policy_a chain_a))
    × (decode_peer_data (peer_blob policy_a chain_a) ≡ some (policy_a, chain_a))
decode-encode_example = decode-encode policy_a chain_a (omega arith) (omega arith)

blob_a : List ℕ
blob_a = 2 ∷ 0 ∷ 0 ∷ 0 ∷ 1 ∷ 2 ∷ 1 ∷ 0 ∷ 0 ∷ 0 ∷ 3 ∷ []

blob_a-IsBytes : IsBytes blob_a
unfolding blob_a
blob_a-IsBytes = ground arith

blob_a_decodes : decode_peer_data blob_a ≡ some (policy_a, chain_a)
unfolding blob_a decode_peer_data checked_add from_le
blob_a_decodes = refl

encode-decode_example : encode_peer_data policy_a chain_a ≡ some blob_a
encode-decode_example = encode-decode blob_a policy_a chain_a blob_a-IsBytes blob_a_decodes

send-Ends_example :
    Ends chan_wire IsNetwork ready
      (send_pre_session_data chan policy_a ready)
      (λ _ inp. inp ≡ [])
      policy_a
send-Ends_example = send-Ends chan_wire policy_a ready

receive-Ends_example :
    Ends chan_wire IsNetwork ready
      (receive_pre_session_data chan 8 ready)
      (λ a inp. (a ≡ inp) × (length inp ≡ 8))
      []
receive-Ends_example = receive-Ends chan_wire 8 ready

negotiate_iff_example : (negotiate_supported_version hello_new ≡ some 0x0100) ↔ (
    (lowest_version ≤ 0x0100)
    × (0x0100 ≤ highest_version)
    × (lowest_version ≤ 0x0100)
    × (0x0100 ≤ highest_version)
    × ((u : ℕ) → u ≤ highest_version → u ≤ highest_version → u ≤ 0x0100))
negotiate_iff_example = negotiate_iff hello_new 0x0100

try_from_iff_example :
    (try_from 8 ≡ some Status.policy_unsatisfied_error) ↔ (8 ≡ code Status.policy_unsatisfied_error)
try_from_iff_example = Status.try_from_iff 8 Status.policy_unsatisfied_error
