-- ===== src/Migration/Info/Decode.antt =====
-- What the decoders of src/migtd/src/migration/mod.rs accept.
use mig_td.Base.{
  ℕ, zero, suc, ◌^◌, ◌%◌, ◌≤◌, ◌≡◌, ◌⊎◌, ◌↔◌, inl, inr, refl, sym, ap, ◌∙◌, Bool, true, false, not,
  ◌&&◌, Option, none, some, List, [], ◌∷◌, ◌++◌, ltb, ◌==◌, if◌then◌else◌, Option-cases, length,
  take, replicate, from_le, bytes_eq, bytes_eq_iff, arith,
}
use mig_td.Migration.Status.{MigrationResult, Result, ok, err, invalid_parameter}
use mig_td.Migration.Info.{
  MigtdMigrationInformation, MigtdDataInfo, EnableLogAreaInfo, Pread, InfoPread, DataPread,
  LogPread, td_info_size, mig_info_header_size, mig_info_size, info_read_from_bytes,
  data_read_from_bytes, log_read_from_bytes, init_td_info_if_present, check_info, check_read,
  bool_eq, any_nonzero, or_invalid,
}

take-take_append :
    (n m : ℕ) (xs ys : List ℕ) → n ≤ m → m ≤ length xs → take n (take m xs ++ ys) ≡ take n xs
take-take_append zero m xs ys h k = refl
take-take_append (suc n) zero xs ys h k = absurd (omega arith)
take-take_append (suc n) (suc m) [] ys h k = absurd (omega arith)
take-take_append (suc n) (suc m) (x ∷ xs) ys h k =
    ap (λ t. x ∷ t) (take-take_append n m xs ys (omega arith) (omega arith))

check_info_inv :
    (n : ℕ) (p i : MigtdMigrationInformation)
    → check_info n p ≡ ok i
    → (i ≡ p)
      × (p.reserved ≡ replicate 6 0)
      × (p.has_init_data ≤ 1)
      × ((p.has_init_data ≡ 1 → n ≡ mig_info_size) × (n ≡ mig_info_size → p.has_init_data ≡ 1))
check_info_inv n p i h = ground (arith, bytes_eq_iff p.reserved (replicate 6 0))

-- What is read in the two forms of a migration request.
read_info : InfoPread → ℕ → List ℕ → Option MigtdMigrationInformation
read_info pread n payload =
    if n == mig_info_size
    then pread.read payload
    else pread.read (take mig_info_header_size payload ++ replicate td_info_size 0)

check_read_inv :
    (n : ℕ) (o : Option MigtdMigrationInformation) (i : MigtdMigrationInformation)
    → check_read n o ≡ ok i
    → (o ≡ some i) × (check_info n i ≡ ok i)
check_read_inv n none i h = cc
check_read_inv n (some p) i h =
    let e = (check_info_inv n p i h).0 in (ap some (sym e), rw (← e) at h)

info_read_inv :
    (pread : InfoPread) (n : ℕ) (payload : List ℕ) (i : MigtdMigrationInformation)
    → info_read_from_bytes pread n payload ≡ ok i
    → ((n ≡ mig_info_header_size) ⊎ (n ≡ mig_info_size))
      × (n ≤ length payload % 2 ^ 32)
      × (read_info pread n payload ≡ some i)
      × (check_info n i ≡ ok i)
unfolding info_read_from_bytes read_info
info_read_inv pread n payload i h =
    let e : check_read n (read_info pread n payload) ≡ ok i = ground arith in
    let c = check_read_inv n (read_info pread n payload) i e in
    (ground arith, ground arith, c.0, c.1)

read_info_first :
    (pread : InfoPread) (n : ℕ) (payload : List ℕ) (i : MigtdMigrationInformation)
    → ((n ≡ mig_info_header_size) ⊎ (n ≡ mig_info_size))
    → n ≤ length payload
    → read_info pread n payload ≡ some i
    → i.mig_request_id ≡ from_le (take 8 payload)
unfolding read_info
read_info_first pread n payload i (inl s) hl e =
    pread.first (take 56 payload ++ replicate 512 0) i (ground arith)
    ∙ ap from_le (take-take_append 8 56 payload (replicate 512 0) (omega arith) (omega arith))
read_info_first pread n payload i (inr f) hl e = pread.first payload i (ground arith)

present_iff :
    (n : ℕ) (i : MigtdMigrationInformation)
    → ((n ≡ mig_info_header_size) ⊎ (n ≡ mig_info_size))
    → i.has_init_data ≤ 1
    → (i.has_init_data ≡ 1 → n ≡ mig_info_size)
    → (n ≡ mig_info_size → i.has_init_data ≡ 1)
    → ((init_td_info_if_present i ≡ some i.init_td_info) ↔ (n ≡ mig_info_size))
      × ((init_td_info_if_present i ≡ none) ↔ (n ≡ mig_info_header_size))
unfolding init_td_info_if_present
present_iff n i size le f g =
    ((λ h. ground arith, λ h. ground arith), (λ h. ground arith, λ h. ground arith))

-- A migration request that is accepted has one of the two lengths of the format, its reserved bytes
-- are zero, it carries the initial TDINFO_STRUCT exactly if it has the long form, and its request
-- id is the first eight bytes of the payload.
pub info_read_from_bytes_sound :
    (pread : InfoPread) (n : ℕ) (payload : List ℕ) (i : MigtdMigrationInformation)
    → info_read_from_bytes pread n payload ≡ ok i
    → ((n ≡ mig_info_header_size) ⊎ (n ≡ mig_info_size))
      × (n ≤ length payload)
      × (i.reserved ≡ replicate 6 0)
      × ((init_td_info_if_present i ≡ some i.init_td_info) ↔ (n ≡ mig_info_size))
      × ((init_td_info_if_present i ≡ none) ↔ (n ≡ mig_info_header_size))
      × (i.mig_request_id ≡ from_le (take 8 payload))
info_read_from_bytes_sound pread n payload i h =
    let (size, long, reads, checked) = info_read_inv pread n payload i h in
    let c = check_info_inv n i i checked in
    let p = present_iff n i size c.2 c.3.0 c.3.1 in
    (size, omega arith, c.1, p.0, p.1, read_info_first pread n payload i size (omega arith) reads)

-- The other two decoders take the request id from the same place.
pub data_read_first :
    (pread : DataPread) (u64 : Pread ℕ (λ i. i) 8) (n : ℕ) (payload : List ℕ) (i : MigtdDataInfo)
    → data_read_from_bytes pread u64 n payload ≡ ok i
    → (8 ≤ n) × (i.mig_request_id ≡ from_le (take 8 payload))
unfolding data_read_from_bytes
data_read_first pread u64 n payload i h = elim (Option-cases (pread.read payload)) [
  | inl e ↦ elim (Option-cases (u64.read payload)) [
    | inl e' ↦ ground arith
    | inr (b, e') ↦ ground (arith, u64.first payload b e')
  ]
  | inr (a, e) ↦ elim (Option-cases (u64.read payload)) [
    | inl e' ↦ ground (arith, pread.first payload a e)
    | inr (b, e') ↦ ground (arith, pread.first payload a e, u64.first payload b e')
  ]
]

pub log_read_first :
    (pread : LogPread) (n : ℕ) (payload : List ℕ) (i : EnableLogAreaInfo)
    → log_read_from_bytes pread n payload ≡ ok i
    → (8 ≤ n) × (i.mig_request_id ≡ from_le (take 8 payload))
unfolding log_read_from_bytes
log_read_first pread n payload i h = elim (Option-cases (pread.read payload)) [
  | inl e ↦ ground arith
  | inr (a, e) ↦ ground (arith, pread.first payload a e)
]

-- A decoder answers, or fails with an invalid parameter.
pub data IsDecoded {A : Type 0} : Result A → Type 0 where
  answers : (a : A) → IsDecoded (ok a)
  invalid : IsDecoded (err invalid_parameter)

if-IsDecoded :
    {A : Type 0} (b : Bool) (r r' : Result A)
    → IsDecoded r
    → IsDecoded r'
    → IsDecoded (if b then r else r')
if-IsDecoded true r r' h h' = h
if-IsDecoded false r r' h h' = h'

check_read-IsDecoded : (n : ℕ) (o : Option MigtdMigrationInformation) → IsDecoded (check_read n o)
check_read-IsDecoded n none = invalid
check_read-IsDecoded n (some p) =
    if-IsDecoded (not (bytes_eq p.reserved (replicate 6 0))) _ _ invalid (
      if-IsDecoded (ltb 1 p.has_init_data) _ _ invalid (
        if-IsDecoded (not (bool_eq (p.has_init_data == 1) (n == mig_info_size))) _ _ invalid
          (answers p)))

or_invalid-IsDecoded : {A : Type 0} (o : Option A) → IsDecoded (or_invalid o)
or_invalid-IsDecoded none = invalid
or_invalid-IsDecoded (some a) = answers a

pub info-IsDecoded :
    (pread : InfoPread) (n : ℕ) (p : List ℕ) → IsDecoded (info_read_from_bytes pread n p)
unfolding info_read_from_bytes
info-IsDecoded pread n p =
    if-IsDecoded (not (n == mig_info_header_size) && not (n == mig_info_size)) _ _ invalid
      (if-IsDecoded (ltb (length p % 2 ^ 32) n) _ _ invalid (check_read-IsDecoded n _))

pub data-IsDecoded :
    (pread : DataPread) (u64 : Pread ℕ (λ i. i) 8) (n : ℕ) (p : List ℕ)
    → IsDecoded (data_read_from_bytes pread u64 n p)
unfolding data_read_from_bytes
data-IsDecoded pread u64 n p = if-IsDecoded (not (n == 8) && not (n == 72)) _ _ invalid (
    if-IsDecoded (n == 72) _ _ (or_invalid-IsDecoded (pread.read p))
      (elim (Option-cases (u64.read p)) [ inl e ↦ rw e invalid | inr (id, e) ↦ rw e (answers _) ]))

pub log-IsDecoded :
    (pread : LogPread) (n : ℕ) (p : List ℕ) → IsDecoded (log_read_from_bytes pread n p)
unfolding log_read_from_bytes
log-IsDecoded pread n p =
    if-IsDecoded (not (n == 16)) _ _ invalid (elim (Option-cases (pread.read p)) [
      | inl e ↦ rw e invalid
      | inr (info, e) ↦ rw e (if-IsDecoded (any_nonzero info.reserved) _ _ invalid (answers info))
    ])

pub IsDecoded-error :
    {A : Type 0} (e : MigrationResult) → IsDecoded {A = A} (err e) → e ≡ invalid_parameter
IsDecoded-error _ invalid = refl
