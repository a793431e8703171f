-- ===== src/Migration/PreSession/Exchange/Protocol.antt =====
-- `pre_session_data_exchange` of src/migtd/src/migration/pre_session_data.rs as a whole: what a
-- peer must have sent for it to succeed, and that two honest peers succeed.
use mig_td.Base.{
  ℕ, ◌≡◌, ◌≢◌, refl, ap, subst, inl, inr, true, not, ◌&&◌, Option, some, List, [], ◌∷◌, ◌++◌,
  append-nil, is_empty,
}
use mig_td.Migration.Status.{invalid_parameter}
use mig_td.Migration.Transport.{Transport, Wire}
use mig_td.Migration.PreSession.Frame.{
  HelloPacketPayload, hello_new, hello_as_bytes, negotiate_supported_version,
}
use mig_td.Migration.PreSession.PeerData.{decode_peer_data}
use mig_td.Migration.PreSession.Channel.Delivery.{Ends}
use mig_td.Migration.PreSession.Channel.Rules.{
  Ends-bind, Ends-return, Ends-answer, Ends-errors, ensure-Ends, ok_or-Ends,
}
use mig_td.Migration.PreSession.Exchange.{
  data_header, start_header, hello_header, local_peer_data, exchange_hello_packet,
  pre_session_data_exchange,
}
use mig_td.Migration.PreSession.Exchange.Packets.{
  IsReceiveError, DataFrame, StartFrame, HelloFrame, send_packet-Ends, send_hello-Ends,
  send_start-Ends,
}
use mig_td.Migration.PreSession.Exchange.Receive.{
  receive_packet_sound, receive_start_sound, receive_hello_sound,
}

-- All that one side sends, given its own blob.
abbrev pub hello_frame : List ℕ
hello_frame = hello_header ++ hello_as_bytes hello_new

abbrev pub data_frame : List ℕ → List ℕ
data_frame blob = data_header blob ++ blob

abbrev pub transcript : List ℕ → List ℕ
transcript blob = hello_frame ++ (data_frame blob ++ start_header)

-- What the peer's side of an exchange that answered `blob` looked like.
pub record Accepted (blob inp : List ℕ) : Type 0 where
  pub hello_part : List ℕ
  pub data_part : List ℕ
  pub start_part : List ℕ
  pub whole : inp ≡ hello_part ++ (data_part ++ start_part)
  pub remote : HelloPacketPayload
  pub version : ℕ
  pub hello : HelloFrame remote hello_part
  pub agreed : negotiate_supported_version remote ≡ some version
  pub packet : DataFrame blob data_part
  pub start : StartFrame start_part
  pub policy : List ℕ
  pub issuer_chain : List ℕ
  pub decoded : decode_peer_data blob ≡ some (policy, issuer_chain)
  pub policy_given : policy ≢ []
  pub chain_given : issuer_chain ≢ []

nonempty : (p c : List ℕ) → (not (is_empty p) && not (is_empty c)) ≡ true → (p ≢ []) × (c ≢ [])
nonempty [] c h = cc
nonempty (x ∷ p) [] h = cc
nonempty (x ∷ p) (y ∷ c) h = (λ e. cc, λ e. cc)

module _ {S : Type 0} {t : Transport S} (w : Wire t) where
  exchange_hello_sound :
      (s : S)
      → Ends w IsReceiveError s
          (exchange_hello_packet t s)
          (λ v inp.
            (r : HelloPacketPayload) × HelloFrame r inp × (negotiate_supported_version r ≡ some v))
          hello_frame
  unfolding exchange_hello_packet
  exchange_hello_sound s =
      subst (Ends w IsReceiveError s (exchange_hello_packet t s) _) (append-nil hello_frame) (
        Ends-bind w _ (Ends-errors w (λ e h. inl h) (send_hello-Ends w s)) λ a inp p m.
          Ends-bind w _ (receive_hello_sound w _) λ r i f m'.
            Ends-answer w (λ v j h m''. (r, rw (p, h.1, append-nil) f, h.0))
              (ok_or-Ends w (negotiate_supported_version r) invalid_parameter _ (λ _. inr refl)))

  -- The exchange of a side with a blob of its own ends. It fails with a network error or an
  -- invalid-parameter error, or it has sent exactly its hello, its blob and the start of the
  -- session, in this order, and the peer has sent a hello with a common version, a data packet with
  -- the blob that is answered, which holds a policy and an issuer chain that are not empty, and the
  -- start of the session.
  pub exchange_sound :
      (policy issuer_chain : Option (List ℕ)) (blob : List ℕ) (s : S)
      → local_peer_data policy issuer_chain ≡ some blob
      → Ends w IsReceiveError s
          (pre_session_data_exchange t policy issuer_chain s)
          Accepted
          (transcript blob)
  unfolding pre_session_data_exchange
  exchange_sound policy issuer_chain blob s e = rw e (
      subst (Ends w IsReceiveError s _ Accepted)
        (ap (λ x. hello_frame ++ (data_frame blob ++ x)) (append-nil start_header))
        (Ends-bind w _ (exchange_hello_sound s) λ v i1 hello m1.
          Ends-bind w _ (Ends-errors w (λ e h. inl h) (send_packet-Ends w blob _)) λ _ i2 h2 m2.
            Ends-bind w _ (receive_packet_sound w _) λ peer i3 frame m3.
              Ends-bind w _
                (ok_or-Ends w (decode_peer_data peer) invalid_parameter _ (λ _. inr refl))
                λ pc i4 h4 m4.
                  Ends-bind w _
                    (ensure-Ends w (not (is_empty pc.0) && not (is_empty pc.1)) invalid_parameter _
                      (λ _. inr refl))
                    λ _ i5 h5 m5.
                      Ends-bind w _ (Ends-errors w (λ e h. inl h) (send_start-Ends w _))
                        λ _ i6 h6 m6. Ends-bind w _ (receive_start_sound w _) λ _ i7 start m7.
                          Ends-return w peer _ (record {
                            hello_part = i1;
                            data_part = i3;
                            start_part = i7;
                            whole = rw (h2, h4.1, h5.1, h6, append-nil);
                            remote = hello.0;
                            version = v;
                            hello = hello.1;
                            agreed = hello.2;
                            packet = frame;
                            start = start;
                            policy = pc.0;
                            issuer_chain = pc.1;
                            decoded = h4.0;
                            policy_given = (nonempty pc.0 pc.1 h5.0).0;
                            chain_given = (nonempty pc.0 pc.1 h5.0).1;
                          })))
