-- ===== src/Migration/PreSession/PeerData.antt =====
-- `encode_peer_data` and `decode_peer_data` of src/migtd/src/migration/pre_session_data.rs.
pub mod RoundTrip
use mig_td.Base.{
  ℕ, ◌+◌, ◌-◌, ◌^◌, ◌≤◌, ◌<◌, ◌≡◌, refl, sym, ap, ◌∙◌, Bool, true, false, ◌&&◌, Option, none, some,
  List, [], ◌∷◌, ◌++◌, arith, append_assoc, append-nil, ltb, leb, ◌==◌, if◌then◌else◌, Bool-cases,
  length, take, drop, length-append, take-append_length, drop-append_length, take-append-drop,
  length-take, length-drop, take_all, IsBytes, to_le, from_le, checked_add, length-to_le,
  from_le-to_le, to_le-from_le,
}
use mig_td.Base.OptionDo.{◌>>=◌}

-- `u32::try_from(n).ok()`
u32_try_from : ℕ → Option ℕ
u32_try_from n = if ltb n (2 ^ 32) then some n else none

-- The blob of two lengths that fit: `[policy_len][policy][chain_len][issuer_chain]`.
abbrev pub peer_blob : List ℕ → List ℕ → List ℕ
peer_blob policy chain = to_le 4 (length policy) ++ (policy ++ (to_le 4 (length chain) ++ chain))

unfoldable pub encode_peer_data : List ℕ → List ℕ → Option (List ℕ)
unfolding u32_try_from
encode_peer_data policy issuer_chain = do
  policy_len ← u32_try_from (length policy)
  chain_len ← u32_try_from (length issuer_chain)
  some (to_le 4 policy_len ++ (policy ++ (to_le 4 chain_len ++ issuer_chain)))

-- The part of `decode_peer_data` after both offsets are known.
decode_chain : List ℕ → ℕ → Option (List ℕ × List ℕ)
decode_chain bytes chain_len_offset = do
  let policy = take (chain_len_offset - 4) (drop 4 bytes)
  let chain_len = from_le (take 4 (drop chain_len_offset bytes))
  let chain_offset = chain_len_offset + 4
  end ← checked_add chain_offset chain_len
  if length bytes == end
      then some (policy, take (end - chain_offset) (drop chain_offset bytes))
      else none

unfoldable pub decode_peer_data : List ℕ → Option (List ℕ × List ℕ)
unfolding decode_chain
decode_peer_data bytes = if ltb (length bytes) 4 then none else do
  chain_len_offset ← checked_add 4 (from_le (take 4 bytes))
  needed ← checked_add chain_len_offset 4
  if ltb (length bytes) needed then none else decode_chain bytes chain_len_offset
