-- ===== src/Migration/Logging/Headers.antt =====
-- Levels and entry headers as bytes: src/migtd/src/migration/logging.rs.
use mig_td.Base.{
  ℕ, ◌^◌, ◌<◌, ◌≡◌, ◌↔◌, refl, sym, ap, ◌∙◌, some, [], ◌∷◌, ◌++◌, arith, length, take, drop, to_le,
  from_le, from_le-to_le, length-to_le, take-append_length, drop-append_length, drop-drop, take_all,
}
use mig_td.Migration.Logging.Level.{Level, error, u8_to_loglevel, loglevel_to_u8}
use mig_td.Migration.Logging.Entry.{LogEntryHeader, entry_header_as_bytes, entry_header_from_bytes}

level_of_byte : (v : ℕ) (l : Level) → u8_to_loglevel v ≡ some l → v ≡ loglevel_to_u8 l
unfolding u8_to_loglevel loglevel_to_u8
level_of_byte v l h = ground arith

byte_of_level : (l : Level) → u8_to_loglevel (loglevel_to_u8 l) ≡ some l
unfolding u8_to_loglevel loglevel_to_u8
byte_of_level error = refl
byte_of_level _ = refl

-- A byte is read as a level exactly when it is the byte of this level.
pub u8_to_loglevel_iff : (v : ℕ) (l : Level) → (u8_to_loglevel v ≡ some l) ↔ (v ≡ loglevel_to_u8 l)
u8_to_loglevel_iff v l = (level_of_byte v l, λ e. rw e (byte_of_level l))

one_byte : (b : ℕ) → from_le (b ∷ []) ≡ b
unfolding from_le
one_byte b = omega arith

module _ (h : LogEntryHeader) (id_lt : h.log_entry_id < 256 ^ 8)
    (request_lt : h.mig_request_id < 256 ^ 8) (reserved : length h.reserved ≡ 3)
    (length_lt : h.length < 256 ^ 4) where
  -- The 24 bytes of an entry header with fields of their widths are read back as this header.
  pub entry_header_from-as_bytes : entry_header_from_bytes (entry_header_as_bytes h) ≡ h
  unfolding entry_header_from_bytes entry_header_as_bytes
  entry_header_from-as_bytes =
      let bs =
        to_le 8 h.log_entry_id
        ++ (to_le 8 h.mig_request_id ++ (h.loglevel ∷ (h.reserved ++ to_le 4 h.length))) in
      let r1 = to_le 8 h.mig_request_id ++ (h.loglevel ∷ (h.reserved ++ to_le 4 h.length)) in
      let t1 : take 8 bs ≡ to_le 8 h.log_entry_id =
        take-append_length 8 (to_le 8 h.log_entry_id) r1 (sym (length-to_le 8 h.log_entry_id)) in
      let d8 : drop 8 bs ≡ r1 =
        drop-append_length 8 (to_le 8 h.log_entry_id) r1 (sym (length-to_le 8 h.log_entry_id)) in
      let t2 : take 8 r1 ≡ to_le 8 h.mig_request_id =
        take-append_length 8 (to_le 8 h.mig_request_id) _ (sym (length-to_le 8 h.mig_request_id)) in
      let d16 : drop 16 bs ≡ h.loglevel ∷ (h.reserved ++ to_le 4 h.length) =
        sym (drop-drop 8 8 16 bs refl)
        ∙ ap (drop 8) d8
        ∙ drop-append_length 8 (to_le 8 h.mig_request_id) _
            (sym (length-to_le 8 h.mig_request_id)) in
      let d17 : drop 17 bs ≡ h.reserved ++ to_le 4 h.length =
        sym (drop-drop 16 1 17 bs refl) ∙ ap (drop 1) d16 in
      let d20 : drop 20 bs ≡ to_le 4 h.length =
        sym (drop-drop 17 3 20 bs refl)
        ∙ ap (drop 3) d17
        ∙ drop-append_length 3 h.reserved (to_le 4 h.length) (sym reserved) in
      let t3 : take 3 (h.reserved ++ to_le 4 h.length) ≡ h.reserved =
        take-append_length 3 h.reserved (to_le 4 h.length) (sym reserved) in
      let t4 : take 4 (to_le 4 h.length) ≡ to_le 4 h.length =
        take_all 4 (to_le 4 h.length) (omega (arith, length-to_le 4 h.length)) in
      let f1 = from_le-to_le 8 h.log_entry_id id_lt in
      let f2 = from_le-to_le 8 h.mig_request_id request_lt in
      let f4 = from_le-to_le 4 h.length length_lt in
      let f3 : from_le (h.loglevel ∷ []) ≡ h.loglevel = one_byte h.loglevel in
      rw t1 (
        rw d8
          (rw t2 (rw d16 (rw d17 (rw d20 (rw t3 (rw t4 (rw f1 (rw f2 (rw f3 (rw f4 refl)))))))))))
