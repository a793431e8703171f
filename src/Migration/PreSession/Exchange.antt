-- ===== src/Migration/PreSession/Exchange.antt =====
-- The packets and the exchange of src/migtd/src/migration/pre_session_data.rs.
pub mod Packets
pub mod Receive
pub mod Protocol
pub mod Honest
use mig_td.Base.{
  ℕ, ◌%◌, ◌^◌, ◌≡◌, Bool, true, false, not, ◌&&◌, Option, none, some, List, [], ◌∷◌, ◌++◌, ◌==◌,
  length, is_empty,
}
use mig_td.Base.OptionDo
use mig_td.Migration.Status.{Result, ok, err, invalid_parameter}
use mig_td.Migration.Transport.{Transport, Async, return, ok_or, ensure, resume, ◌>>=◌, ◌>>◌}
use mig_td.Migration.PreSession.Frame.{
  PreSessionMessage, pre_session_data_type, start_session_type, hello_packet_type, message_as_bytes,
  message_read_from_bytes, HelloPacketPayload, hello_packet_payload_size, hello_new, hello_as_bytes,
  hello_read_from_bytes, negotiate_supported_version,
}
use mig_td.Migration.PreSession.PeerData.{encode_peer_data, decode_peer_data}
use mig_td.Migration.PreSession.Channel.{send_pre_session_data, receive_pre_session_data}

abbrev zero_reserved : List ℕ
zero_reserved = 0 ∷ 0 ∷ 0 ∷ []

-- The header of a data packet; `as u32` keeps the low 32 bits of the length.
abbrev pub data_header : List ℕ → List ℕ
data_header payload = message_as_bytes (record {
  type = pre_session_data_type;
  reserved = zero_reserved;
  length = length payload % 2 ^ 32;
})

abbrev pub start_header : List ℕ
start_header =
    message_as_bytes (record { type = start_session_type; reserved = zero_reserved; length = 0 })

abbrev pub hello_header : List ℕ
hello_header =
    message_as_bytes (record { type = hello_packet_type; reserved = zero_reserved; length = 8 })

-- `local_peer_data`, given what `get_policy` and `get_policy_issuer_chain` of
-- src/migtd/src/config.rs find in the configuration volume.
unfoldable pub local_peer_data : Option (List ℕ) → Option (List ℕ) → Option (List ℕ)
local_peer_data policy issuer_chain =
    OptionDo.◌>>=◌ policy (λ p. OptionDo.◌>>=◌ issuer_chain (λ c. encode_peer_data p c))

module _ {S : Type 0} (t : Transport S) where
  pub send_pre_session_data_packet : List ℕ → Async S (Unit {0})
  send_pre_session_data_packet payload = do
    send_pre_session_data t (data_header payload)
    send_pre_session_data t payload

  pub receive_header : Async S PreSessionMessage
  receive_header = do
    header_buffer ← receive_pre_session_data t 8
    ok_or (message_read_from_bytes header_buffer) invalid_parameter

  pub receive_pre_session_data_packet : Async S (List ℕ)
  unfolding receive_header
  receive_pre_session_data_packet = do
    header ← receive_header
    ensure (header.type == pre_session_data_type) invalid_parameter
    receive_pre_session_data t header.length

  pub send_start_session_packet : Async S (Unit {0})
  send_start_session_packet = send_pre_session_data t start_header

  pub receive_start_session_packet : Async S (Unit {0})
  unfolding receive_header
  receive_start_session_packet = do
    packet ← receive_header
    ensure (packet.type == start_session_type) invalid_parameter
    ensure (packet.length == 0) invalid_parameter

  pub send_hello_packet : Async S (Unit {0})
  send_hello_packet = do
    send_pre_session_data t hello_header
    send_pre_session_data t (hello_as_bytes hello_new)

  pub receive_hello_packet : Async S HelloPacketPayload
  unfolding receive_header
  receive_hello_packet = do
    header ← receive_header
    ensure (header.type == hello_packet_type) invalid_parameter
    ensure (header.length == hello_packet_payload_size) invalid_parameter
    hello_payload ← receive_pre_session_data t hello_packet_payload_size
    ok_or (hello_read_from_bytes hello_payload) invalid_parameter

  pub exchange_hello_packet : Async S ℕ
  exchange_hello_packet = do
    send_hello_packet
    remote ← receive_hello_packet
    ok_or (negotiate_supported_version remote) invalid_parameter

  -- `pre_session_data_exchange`, given the configured policy and issuer chain.
  pub pre_session_data_exchange : Option (List ℕ) → Option (List ℕ) → Async S (List ℕ)
  pre_session_data_exchange policy issuer_chain = do
    version ← exchange_hello_packet
    local_blob ← ok_or (local_peer_data policy issuer_chain) invalid_parameter
    send_pre_session_data_packet local_blob
    peer_blob ← receive_pre_session_data_packet
    (peer_policy, peer_issuer_chain) ← ok_or (decode_peer_data peer_blob) invalid_parameter
    ensure (not (is_empty peer_policy) && not (is_empty peer_issuer_chain)) invalid_parameter
    send_start_session_packet
    receive_start_session_packet
    return peer_blob
