-- ===== src/Tests/Readers.antt =====
-- Readers of the payload formats, in the place of the scroll crate.
use mig_td.Base.{
  ℕ, ◌≤◌, ◌<◌, ◌≡◌, refl, ap, ◌∙◌, Option, none, some, List, [], ◌∷◌, arith, ltb, if◌then◌else◌,
  length, take, drop, from_le, take-take, length-take,
}
use mig_td.Migration.Info.{
  MigtdMigrationInformation, Pread, InfoPread, DataPread, LogPread, mig_info_size,
}

-- A reader of `size` bytes, of which `make` is given no others.
abbrev pub read_sized : {A : Type 0} → ℕ → (List ℕ → A) → List ℕ → Option A
read_sized size make bs = if ltb (length bs) size then none else some (make (take size bs))

pub read_sized_enough :
    {A : Type 0} (size : ℕ) (make : List ℕ → A) (bs : List ℕ)
    → size ≤ length bs
    → (a : A) × (read_sized size make bs ≡ some a)
read_sized_enough size make bs h = (make (take size bs), ground arith)

pub read_sized_front :
    {A : Type 0} (size : ℕ) (make : List ℕ → A) (bs : List ℕ)
    → read_sized size make bs ≡ read_sized size make (take size bs)
read_sized_front size make bs =
    ground (arith, length-take size bs, take-take size size bs (omega arith))

pub read_sized_short :
    {A : Type 0} (size : ℕ) (make : List ℕ → A) (bs : List ℕ)
    → length bs < size
    → read_sized size make bs ≡ none
read_sized_short size make bs h = ground arith

pub read_sized_first :
    {A : Type 0} (size : ℕ) (make : List ℕ → A) (id : A → ℕ) (bs : List ℕ) (a : A)
    → 8 ≤ size
    → ((xs : List ℕ) → id (make xs) ≡ from_le (take 8 xs))
    → read_sized size make bs ≡ some a
    → id a ≡ from_le (take 8 bs)
read_sized_first size make id bs a h k e =
    let p : make (take size bs) ≡ a = ground arith in
    rw (← p) (k (take size bs) ∙ ap from_le (take-take 8 size bs h))

-- Only reads the request id and the fields that the checks look at.
abbrev pub reader :
    {A : Type 0} (size : ℕ) (make : List ℕ → A) (id : A → ℕ)
    → 8 ≤ size
    → ((xs : List ℕ) → id (make xs) ≡ from_le (take 8 xs))
    → Pread A id size
reader size make id h k = record {
  read = read_sized size make;
  short = read_sized_short size make;
  enough = read_sized_enough size make;
  front = read_sized_front size make;
  first = λ bs a e. read_sized_first size make id bs a h k e;
}

abbrev pub make_info : List ℕ → MigtdMigrationInformation
make_info bs = record {
  mig_request_id = from_le (take 8 bs);
  migration_source = from_le (take 1 (drop 8 bs));
  has_init_data = from_le (take 1 (drop 9 bs));
  reserved = take 6 (drop 10 bs);
  target_td_uuid =
      from_le (take 8 (drop 16 bs))
      ∷ from_le (take 8 (drop 24 bs))
      ∷ from_le (take 8 (drop 32 bs))
      ∷ from_le (take 8 (drop 40 bs))
      ∷ [];
  binding_handle = from_le (take 8 (drop 48 bs));
  init_td_info = take 512 (drop 56 bs);
}

abbrev pub info_reader : InfoPread
info_reader = reader mig_info_size make_info (λ i. i.mig_request_id) (omega arith) (λ xs. refl)

abbrev pub data_reader : DataPread
data_reader =
    reader 72 (λ bs. record { mig_request_id = from_le (take 8 bs); reportdata = drop 8 bs })
      (λ i. i.mig_request_id) (omega arith) (λ xs. refl)

abbrev pub u64_reader : Pread ℕ (λ i. i) 8
u64_reader = reader 8 (λ bs. from_le (take 8 bs)) (λ i. i) (omega arith) (λ xs. refl)

abbrev pub log_reader : LogPread
log_reader =
    reader 16
      (λ bs. record {
        mig_request_id = from_le (take 8 bs);
        log_max_level = from_le (take 1 (drop 8 bs));
        reserved = take 7 (drop 9 bs);
      })
      (λ i. i.mig_request_id) (omega arith) (λ xs. refl)
