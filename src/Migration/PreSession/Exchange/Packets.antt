-- ===== src/Migration/PreSession/Exchange/Packets.antt =====
-- Each packet of src/migtd/src/migration/pre_session_data.rs over a reliable stream.
use mig_td.Base.{
  ℕ, ◌^◌, ◌<◌, ◌≡◌, sym, ◌∙◌, ◌⊎◌, none, some, List, [], ◌++◌, arith, append-nil, length, ◌≢◌,
  take-append_length, drop-append_length, take_all, length-append, to_le, length-to_le,
  from_le-to_le,
}
use mig_td.Migration.Status.{MigrationResult, network_error, invalid_parameter}
use mig_td.Migration.Transport.{Transport, Wire, ok_or}
use mig_td.Migration.PreSession.Frame.{
  PreSessionMessage, pre_session_data_type, start_session_type, hello_packet_type, message_as_bytes,
  message_read_from_bytes, HelloPacketPayload, hello_new, hello_as_bytes, hello_read_from_bytes,
}
use mig_td.Migration.PreSession.Channel.{send_pre_session_data}
use mig_td.Migration.PreSession.Channel.Delivery.{IsNetwork, Ends, send-Ends, receive-Ends}
use mig_td.Migration.PreSession.Channel.Rules.{Ends-bind, Ends-answer, known_input, ok_or-Ends}
use mig_td.Migration.PreSession.Exchange.{
  data_header, start_header, hello_header, send_pre_session_data_packet, receive_header,
  send_start_session_packet, send_hello_packet,
}

-- The errors of a receiver: the channel failed, or the peer sent something else.
abbrev pub IsReceiveError : MigrationResult → Type 0
IsReceiveError e = (e ≡ network_error) ⊎ (e ≡ invalid_parameter)

pub message_read-as_bytes :
    (m : PreSessionMessage)
    → length m.reserved ≡ 3
    → m.length < 2 ^ 32
    → message_read_from_bytes (message_as_bytes m) ≡ some m
unfolding message_read_from_bytes message_as_bytes
message_read-as_bytes m hr hl = ground (
  arith,
  length-append m.reserved (to_le 4 m.length),
  length-to_le 4 m.length,
  from_le-to_le 4 m.length,
  take-append_length 3 m.reserved (to_le 4 m.length),
  drop-append_length 3 m.reserved (to_le 4 m.length),
  take_all 4 (to_le 4 m.length),
)

pub length-message_as_bytes :
    (m : PreSessionMessage) → length m.reserved ≡ 3 → length (message_as_bytes m) ≡ 8
unfolding message_as_bytes
length-message_as_bytes m h =
    omega (arith, length-append m.reserved (to_le 4 m.length), length-to_le 4 m.length)

message_read-eight : (bs : List ℕ) → length bs ≡ 8 → message_read_from_bytes bs ≢ none
unfolding message_read_from_bytes
message_read-eight bs h e = ground arith

-- What stands before a received payload.
pub record DataFrame (payload inp : List ℕ) : Type 0 where
  pub head : List ℕ
  pub header : PreSessionMessage
  pub whole : inp ≡ head ++ payload
  pub reads : message_read_from_bytes head ≡ some header
  pub eight : length head ≡ 8
  pub kind : header.type ≡ pre_session_data_type
  pub size : header.length ≡ length payload

pub record StartFrame (inp : List ℕ) : Type 0 where
  pub header : PreSessionMessage
  pub reads : message_read_from_bytes inp ≡ some header
  pub eight : length inp ≡ 8
  pub kind : header.type ≡ start_session_type
  pub size : header.length ≡ 0

pub record HelloFrame (remote : HelloPacketPayload) (inp : List ℕ) : Type 0 where
  pub head : List ℕ
  pub body : List ℕ
  pub header : PreSessionMessage
  pub whole : inp ≡ head ++ body
  pub reads : message_read_from_bytes head ≡ some header
  pub eight : length head ≡ 8
  pub kind : header.type ≡ hello_packet_type
  pub size : header.length ≡ 8
  pub eight_body : length body ≡ 8
  pub payload : hello_read_from_bytes body ≡ some remote

module _ {S : Type 0} {t : Transport S} (w : Wire t) where
  pub send_packet-Ends :
      (payload : List ℕ) (s : S)
      → Ends w IsNetwork s
          (send_pre_session_data_packet t payload s)
          (λ _ inp. inp ≡ [])
          (data_header payload ++ payload)
  unfolding send_pre_session_data_packet
  send_packet-Ends payload s =
      Ends-bind w (λ _. send_pre_session_data t payload) (send-Ends w (data_header payload) s)
        λ a inp p m. Ends-answer w (λ a i h m'. rw p h) (send-Ends w payload _)

  pub send_hello-Ends :
      (s : S)
      → Ends w IsNetwork s
          (send_hello_packet t s)
          (λ _ inp. inp ≡ [])
          (hello_header ++ hello_as_bytes hello_new)
  unfolding send_hello_packet
  send_hello-Ends s =
      Ends-bind w (λ _. send_pre_session_data t (hello_as_bytes hello_new))
        (send-Ends w hello_header s)
        λ a inp p m. Ends-answer w (λ a i h m'. rw p h) (send-Ends w (hello_as_bytes hello_new) _)

  pub send_start-Ends :
      (s : S) → Ends w IsNetwork s (send_start_session_packet t s) (λ _ inp. inp ≡ []) start_header
  unfolding send_start_session_packet
  send_start-Ends s = send-Ends w start_header s

  -- A header is always read, as the eight bytes that it is read from are enough.
  pub receive_header-Ends :
      (s : S)
      → Ends w IsNetwork s
          (receive_header t s)
          (λ m inp. (message_read_from_bytes inp ≡ some m) × (length inp ≡ 8))
          []
  unfolding receive_header
  receive_header-Ends s =
      Ends-bind w (λ b. ok_or (message_read_from_bytes b) invalid_parameter) (receive-Ends w 8 s)
        λ a inp p m.
          Ends-answer w (λ m' i h m''. rw (h.1, append-nil) (rw p.0 at h.0, p.1))
            (ok_or-Ends w (message_read_from_bytes a) invalid_parameter _
              (λ e. absurd (message_read-eight a (rw p.0 p.1) e)))

  pub receive_known_header :
      (m : PreSessionMessage) (rest : List ℕ) (s : S)
      → length m.reserved ≡ 3
      → m.length < 2 ^ 32
      → w.pending s ≡ message_as_bytes m ++ rest
      → Ends w IsNetwork s (receive_header t s) (λ m' inp. (m' ≡ m) × (inp ≡ message_as_bytes m)) []
  receive_known_header m rest s hr hl e =
      Ends-answer w
        (λ m' i h mv.
          let k =
            known_input w s (receive_header t s).1 [] i (message_as_bytes m) rest e
              (h.1 ∙ sym (length-message_as_bytes m hr)) mv in
          (cc (h.0, k.0, message_read-as_bytes m hr hl), k.0))
        (receive_header-Ends s)
