-- ===== src/Migration/PreSession/PeerData/RoundTrip.antt =====
-- The peer-data blob of src/migtd/src/migration/pre_session_data.rs is read back as it was written,
-- and nothing else is read.
use mig_td.Base.{
  ℕ, ◌+◌, ◌^◌, ◌<◌, ◌≡◌, refl, sym, ap, ◌∙◌, some, List, ◌++◌, arith, append_assoc, length, take,
  drop, length-append, take-append_length, drop-append_length, take-append-drop, drop-drop,
  length-take, length-drop, take_all, IsBytes, to_le, from_le, from_le-lt, All-append_left,
  All-append_right, checked_add, length-to_le, from_le-to_le, to_le-from_le,
}
use mig_td.Migration.PreSession.PeerData.{peer_blob, encode_peer_data, decode_peer_data}

-- A blob with the two length fields `a` and `c`, each right for what follows it.
blob : List ℕ → List ℕ → List ℕ → List ℕ → List ℕ
blob a p c k = a ++ (p ++ (c ++ k))

module _ (a p c k : List ℕ) (ha : length a ≡ 4) (hc : length c ≡ 4) where
  at_chain : blob a p c k ≡ (a ++ p) ++ (c ++ k)
  unfolding blob
  at_chain = sym (append_assoc a p (c ++ k))

  at_end : blob a p c k ≡ ((a ++ p) ++ c) ++ k
  at_end = at_chain ∙ sym (append_assoc (a ++ p) c k)

  take-blob : take 4 (blob a p c k) ≡ a
  unfolding blob
  take-blob = take-append_length 4 a _ (sym ha)

  policy-blob : take (length p) (drop 4 (blob a p c k)) ≡ p
  unfolding blob
  policy-blob = rw (drop-append_length 4 a (p ++ (c ++ k)) (sym ha)) (take-append_length _ p _ refl)

  chain_len-blob : take 4 (drop (4 + length p) (blob a p c k)) ≡ c
  chain_len-blob =
      rw
        (
          at_chain,
          drop-append_length (4 + length p) (a ++ p) (c ++ k) (omega (arith, length-append a p)),
        )
        (take-append_length 4 c k (sym hc))

  chain-blob : drop (4 + length p + 4) (blob a p c k) ≡ k
  chain-blob = rw at_end (
      drop-append_length (4 + length p + 4) ((a ++ p) ++ c) k
        (omega (arith, length-append (a ++ p) c, length-append a p)))

  length-blob : length (blob a p c k) ≡ 8 + length p + length k
  unfolding blob
  length-blob =
      omega (arith, length-append a (p ++ (c ++ k)), length-append p (c ++ k), length-append c k)

  decode-blob :
      from_le a ≡ length p
      → from_le c ≡ length k
      → length p < 2 ^ 32
      → length k < 2 ^ 32
      → decode_peer_data (blob a p c k) ≡ some (p, k)
  unfolding decode_peer_data checked_add
  decode-blob np nk hp hk = ground (
    arith,
    take-blob,
    policy-blob,
    chain_len-blob,
    chain-blob,
    length-blob,
    take_all (length k) k,
  )

-- Any two texts shorter than 2^32 bytes are encoded, and decoding the blob gives back exactly them.
pub decode-encode :
    (policy chain : List ℕ)
    → length policy < 2 ^ 32
    → length chain < 2 ^ 32
    → (encode_peer_data policy chain ≡ some (peer_blob policy chain))
      × (decode_peer_data (peer_blob policy chain) ≡ some (policy, chain))
unfolding encode_peer_data blob
decode-encode policy chain hp hc = (
  ground arith,
  decode-blob (to_le 4 (length policy)) policy (to_le 4 (length chain)) chain (length-to_le 4 _)
      (length-to_le 4 _) (from_le-to_le 4 _ hp) (from_le-to_le 4 _ hc) hp hc,
)

-- What a successful decoding says of its input: four parts, of the lengths that two of them state.
record Parsed (bytes policy chain : List ℕ) : Type 0 where
  a : List ℕ
  c : List ℕ
  whole : bytes ≡ blob a policy c chain
  four_a : length a ≡ 4
  four_c : length c ≡ 4
  len_a : from_le a ≡ length policy
  len_c : from_le c ≡ length chain

Parsed-of_split :
    (bytes : List ℕ) (n m : ℕ)
    → n ≡ from_le (take 4 bytes)
    → m ≡ from_le (take 4 (drop (4 + n) bytes))
    → length bytes ≡ 8 + n + m
    → Parsed bytes (take n (drop 4 bytes)) (take m (drop (8 + n) bytes))
unfolding blob
Parsed-of_split bytes n m hn hm hl = record {
  a = take 4 bytes;
  c = take 4 (drop (4 + n) bytes);
  whole =
      sym (take-append-drop 4 bytes)
      ∙ ap (λ t. take 4 bytes ++ t)
          (sym (take-append-drop n (drop 4 bytes))
            ∙ ap (λ t. take n (drop 4 bytes) ++ t)
                (drop-drop 4 n (4 + n) bytes refl
                  ∙ sym (take-append-drop 4 (drop (4 + n) bytes))
                  ∙ ap (λ t. take 4 (drop (4 + n) bytes) ++ t)
                      (drop-drop (4 + n) 4 (8 + n) bytes (omega arith)
                        ∙ sym (
                            take_all m (drop (8 + n) bytes)
                              (omega (arith, length-drop (8 + n) bytes))))));
  four_a = omega (arith, length-take 4 bytes);
  four_c = omega (arith, length-take 4 (drop (4 + n) bytes), length-drop (4 + n) bytes);
  len_a = omega (arith, length-take n (drop 4 bytes), length-drop 4 bytes);
  len_c = omega (arith, length-take m (drop (8 + n) bytes), length-drop (8 + n) bytes);
}

-- A successful decoding bounds every offset that the code computes from the input.
decode-split :
    (bytes policy chain : List ℕ)
    → decode_peer_data bytes ≡ some (policy, chain)
    → (n : ℕ) × (m : ℕ) × (n ≡ from_le (take 4 bytes))
      × (m ≡ from_le (take 4 (drop (4 + n) bytes)))
      × (length bytes ≡ 8 + n + m)
      × (policy ≡ take n (drop 4 bytes))
      × (chain ≡ take m (drop (8 + n) bytes))
unfolding decode_peer_data checked_add
decode-split bytes policy chain h =
    let n : ℕ = from_le (take 4 bytes) in
    (n, from_le (take 4 (drop (4 + n) bytes)), refl, refl, ground arith, ground arith, ground arith)

Parsed-of_decode :
    (bytes policy chain : List ℕ)
    → decode_peer_data bytes ≡ some (policy, chain)
    → Parsed bytes policy chain
Parsed-of_decode bytes policy chain h =
    let (n, m, hn, hm, hl, hp, hc) = decode-split bytes policy chain h in
    rw (hp, hc) (Parsed-of_split bytes n m hn hm hl)

encode-of_Parsed :
    (bytes policy chain : List ℕ)
    → IsBytes bytes
    → Parsed bytes policy chain
    → encode_peer_data policy chain ≡ some bytes
unfolding encode_peer_data blob
encode-of_Parsed bytes policy chain hb r = ground (
  arith,
  to_le-from_le r.a ba,
  to_le-from_le r.c bc,
  from_le-lt r.a ba,
  from_le-lt r.c bc,
  ap (λ w. to_le w (length policy)) r.four_a,
  ap (λ w. to_le w (length chain)) r.four_c,
)
  where
    whole_bytes : IsBytes (r.a ++ (policy ++ (r.c ++ chain)))
    whole_bytes = rw r.whole at hb

    ba : IsBytes r.a
    ba = All-append_left _ r.a _ whole_bytes

    bc : IsBytes r.c
    bc =
        All-append_left _ r.c chain
          (All-append_right _ policy _ (All-append_right _ r.a _ whole_bytes))

-- A blob is accepted only if it is the encoding of the policy and chain that come out of it: no
-- trailing byte, no padding and no second spelling is accepted.
pub encode-decode :
    (bytes policy chain : List ℕ)
    → IsBytes bytes
    → decode_peer_data bytes ≡ some (policy, chain)
    → encode_peer_data policy chain ≡ some bytes
encode-decode bytes policy chain hb h =
    encode-of_Parsed bytes policy chain hb (Parsed-of_decode bytes policy chain h)
