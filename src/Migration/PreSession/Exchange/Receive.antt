-- ===== src/Migration/PreSession/Exchange/Receive.antt =====
-- The receivers of src/migtd/src/migration/pre_session_data.rs: what an accepted packet looked
-- like, and that the packet of an honest peer is accepted.
use mig_td.Base.{
  ℕ, ◌^◌, ◌%◌, ◌<◌, ◌≡◌, refl, sym, ap, ap₂, ◌∙◌, inl, inr, some, List, [], ◌∷◌, ◌++◌, ◌==◌, ==_iff,
  arith, append-nil, length, to_le, from_le, bytes_eq,
}
use mig_td.Migration.Status.{invalid_parameter}
use mig_td.Migration.Transport.{Transport, Wire}
use mig_td.Migration.PreSession.Frame.{
  pre_session_data_type, start_session_type, hello_packet_type, message_read_from_bytes,
  hello_packet_payload_size, hello_new, hello_as_bytes, hello_read_from_bytes,
}
use mig_td.Migration.PreSession.Channel.Delivery.{IsNetwork, Ends, receive-Ends}
use mig_td.Migration.PreSession.Channel.Rules.{
  Ends-bind, Ends-return, Ends-answer, Ends-errors, known_input, ensure-Ends, ok_or-Ends,
}
use mig_td.Migration.PreSession.Exchange.{
  data_header, start_header, hello_header, receive_header, receive_pre_session_data_packet,
  receive_start_session_packet, receive_hello_packet,
}
use mig_td.Migration.PreSession.Exchange.Packets.{
  IsReceiveError, DataFrame, StartFrame, HelloFrame, receive_header-Ends, receive_known_header,
}

module _ {S : Type 0} {t : Transport S} (w : Wire t) where
  receive_header_any :
      (s : S)
      → Ends w IsReceiveError s
          (receive_header t s)
          (λ m inp. (message_read_from_bytes inp ≡ some m) × (length inp ≡ 8))
          []
  receive_header_any s = Ends-errors w (λ e h. inl h) (receive_header-Ends w s)

  -- Receiving a data packet ends, and what it answers was announced as a data packet whose header
  -- states the length of the payload.
  pub receive_packet_sound :
      (s : S) → Ends w IsReceiveError s (receive_pre_session_data_packet t s) DataFrame []
  unfolding receive_pre_session_data_packet
  receive_packet_sound s = Ends-bind w _ (receive_header_any s) λ m inp p mv.
      Ends-bind w _
        (ensure-Ends w (m.type == pre_session_data_type) invalid_parameter _ (λ _. inr refl))
        λ a inp' q mv'.
          Ends-answer w
            (λ payload i h mv''. record {
              head = inp;
              header = m;
              whole = rw (q.1, h.0);
              reads = p.0;
              eight = p.1;
              kind = (==_iff m.type pre_session_data_type).0 q.0;
              size = sym (ap length h.0 ∙ h.1);
            })
            (Ends-errors w (λ e h. inl h) (receive-Ends w m.length _))

  -- Receiving a start packet ends, and what is accepted is a start header of length 0.
  pub receive_start_sound :
      (s : S)
      → Ends w IsReceiveError s (receive_start_session_packet t s) (λ _ inp. StartFrame inp) []
  unfolding receive_start_session_packet
  receive_start_sound s = Ends-bind w _ (receive_header_any s) λ m inp p mv.
      Ends-bind w _
        (ensure-Ends w (m.type == start_session_type) invalid_parameter _ (λ _. inr refl))
        λ a inp' q mv'.
          Ends-answer w
            (λ _ i h mv''.
              rw (q.1, h.1, append-nil)
                (record {
                  header = m;
                  reads = p.0;
                  eight = p.1;
                  kind = (==_iff m.type start_session_type).0 q.0;
                  size = (==_iff m.length 0).0 h.0;
                }))
            (ensure-Ends w (m.length == 0) invalid_parameter _ (λ _. inr refl))

  -- Receiving a hello packet ends, and what is accepted is a hello header of length 8 and a payload
  -- with the magic word.
  pub receive_hello_sound :
      (s : S) → Ends w IsReceiveError s (receive_hello_packet t s) HelloFrame []
  unfolding receive_hello_packet
  receive_hello_sound s = Ends-bind w _ (receive_header_any s) λ m inp p mv.
      Ends-bind w _
        (ensure-Ends w (m.type == hello_packet_type) invalid_parameter _ (λ _. inr refl))
        λ a inp' q mv'.
          Ends-bind w _
            (ensure-Ends w (m.length == hello_packet_payload_size) invalid_parameter _
              (λ _. inr refl))
            λ a' inp'' q' mv''.
              Ends-bind w _ (Ends-errors w (λ e h. inl h) (receive-Ends w 8 _)) λ body i b mv'''.
                Ends-answer w
                  (λ remote j h mv''''. record {
                    head = inp;
                    body = body;
                    header = m;
                    whole = rw (q.1, q'.1, h.1, append-nil) (ap (λ x. inp ++ x) (sym b.0));
                    reads = p.0;
                    eight = p.1;
                    kind = (==_iff m.type hello_packet_type).0 q.0;
                    size = (==_iff m.length hello_packet_payload_size).0 q'.0;
                    eight_body = rw b.0 b.1;
                    payload = h.0;
                  })
                  (ok_or-Ends w (hello_read_from_bytes body) invalid_parameter _ (λ _. inr refl))

  -- If the next bytes are a packet that `send_pre_session_data_packet` writes, its payload is
  -- received, unless the channel fails.
  pub receive_packet_complete :
      (payload rest : List ℕ) (s : S)
      → length payload < 2 ^ 32
      → w.pending s ≡ data_header payload ++ (payload ++ rest)
      → Ends w IsNetwork s
          (receive_pre_session_data_packet t s)
          (λ p inp. (p ≡ payload) × (inp ≡ data_header payload ++ payload))
          []
  unfolding receive_pre_session_data_packet
  receive_packet_complete payload rest s hl e =
      Ends-bind w _
        (receive_known_header w
          (record {
            type = pre_session_data_type;
            reserved = 0 ∷ 0 ∷ 0 ∷ [];
            length = length payload % 2 ^ 32;
          })
          (payload ++ rest) s refl (omega arith) e)
        λ m inp p mv. rw p.0 (
          Ends-answer w
            (λ x i h mv'.
              let e' =
                (known_input w s (receive_header t s).1 [] inp (data_header payload)
                  (payload ++ rest) e (ap length p.1) mv).1 in
              let k =
                known_input w (receive_header t s).1 _ [] i payload rest e' (omega (arith, h.1))
                  mv' in
              (h.0 ∙ k.0, ap₂ ◌++◌ p.1 k.0))
            (receive-Ends w (length payload % 2 ^ 32) _))

  -- If the next bytes are what `send_start_session_packet` writes, they are accepted, unless the
  -- channel fails.
  pub receive_start_complete :
      (rest : List ℕ) (s : S)
      → w.pending s ≡ start_header ++ rest
      → Ends w IsNetwork s (receive_start_session_packet t s) (λ _ inp. inp ≡ start_header) []
  unfolding receive_start_session_packet
  receive_start_complete rest s e =
      Ends-bind w _
        (receive_known_header w
          (record { type = start_session_type; reserved = 0 ∷ 0 ∷ 0 ∷ []; length = 0 }) rest s refl
          (omega arith) e)
        λ m inp p mv. rw (p.0, p.1) (Ends-return w tt _ (append-nil start_header))

  -- If the next bytes are the hello packet of this version of the code, its payload is received,
  -- unless the channel fails.
  pub receive_hello_complete :
      (rest : List ℕ) (s : S)
      → w.pending s ≡ hello_header ++ (hello_as_bytes hello_new ++ rest)
      → Ends w IsNetwork s
          (receive_hello_packet t s)
          (λ h inp. (h ≡ hello_new) × (inp ≡ hello_header ++ hello_as_bytes hello_new))
          []
  unfolding receive_hello_packet hello_read_from_bytes hello_as_bytes to_le bytes_eq from_le
  receive_hello_complete rest s e =
      Ends-bind w _
        (receive_known_header w
          (record { type = hello_packet_type; reserved = 0 ∷ 0 ∷ 0 ∷ []; length = 8 })
          (hello_as_bytes hello_new ++ rest) s refl (omega arith) e)
        λ m inp p mv. rw p.0 (
          Ends-bind w _ (receive-Ends w 8 _) λ x i h mv'.
            let e' =
              (known_input w s (receive_header t s).1 [] inp hello_header
                (hello_as_bytes hello_new ++ rest) e (ap length p.1) mv).1 in
            let k : i ≡ hello_as_bytes hello_new =
              (known_input w (receive_header t s).1 _ [] i (hello_as_bytes hello_new) rest e'
                (unfold hello_as_bytes to_le in h.1) mv').0 in
            rw (h.0, k)
              (Ends-return w hello_new _
                (refl, ap₂ ◌++◌ p.1 (append-nil (hello_as_bytes hello_new)))))
