-- ===== src/Migration/Transport.antt =====
-- The byte stream under a session: `AsyncRead` and `AsyncWrite`
-- (src/async/async_io/src/lib.rs), which vsock, virtio-serial and vmcall-raw implement.
use mig_td.Base.{
  ℕ, ◌≤◌, ◌<◌, ◌≡◌, Bool, true, false, Option, none, some, List, ◌∷◌, ◌++◌, length, take,
}
use mig_td.Migration.Status.{MigrationResult, Result, ok, err, stuck}

-- One connection, with the state `S` of the channel passed along. `write buf` answers how many
-- bytes of `buf` were taken; `read n` answers the bytes that were put at the front of a buffer of
-- `n` bytes. `none` is an `io::Error`, whose kind the callers drop.
pub record Transport (S : Type 0) : Type 0 where
  pub write : List ℕ → S → Option ℕ × S
  pub read : ℕ → S → Option (List ℕ) × S

-- What a reliable stream promises. `sent` is what has been handed to the peer, and `pending` is
-- what the peer has sent or will send and was not read yet. A write takes a front part of its
-- buffer and a read fills a front part of its own, never an empty part of a buffer that is not
-- empty: the channel blocks until there is data, or reports an error.
pub record Wire {S : Type 0} (t : Transport S) : Type 0 where
  pub sent : S → List ℕ
  pub pending : S → List ℕ
  pub write_some :
      (b : ℕ) (bs : List ℕ) (s : S) (n : ℕ)
      → (t.write (b ∷ bs) s).0 ≡ some n
      → (0 < n)
        × (n ≤ length (b ∷ bs))
        × (sent (t.write (b ∷ bs) s).1 ≡ sent s ++ take n (b ∷ bs))
        × (pending (t.write (b ∷ bs) s).1 ≡ pending s)
  pub read_some :
      (n : ℕ) (s : S) (bs : List ℕ)
      → 0 < n
      → (t.read n s).0 ≡ some bs
      → (0 < length bs)
        × (length bs ≤ n)
        × (pending s ≡ bs ++ pending (t.read n s).1)
        × (sent (t.read n s).1 ≡ sent s)

-- An async function over a connection: its result, and the channel after it.
abbrev pub Async : Type 0 → Type 0 → Type 0
Async S A = S → Result A × S

module _ {S : Type 0} where
  abbrev pub return : {A : Type 0} → A → Async S A
  return a s = (ok a, s)

  abbrev pub fail : {A : Type 0} → MigrationResult → Async S A
  fail e s = (err e, s)

-- `then` of `e.await?`: an error ends the function.
abbrev pub resume : {S A B : Type 0} → (A → Async S B) → Result A → S → Result B × S
resume f (ok a) s = f a s
resume f (err e) s = (err e, s)
resume f stuck s = (stuck, s)

infixl 5 ◌>>=◌ ◌>>◌
abbrev pub ◌>>=◌ : {S A B : Type 0} → Async S A → (A → Async S B) → Async S B
◌>>=◌ m f s = resume f (m s).0 (m s).1

abbrev pub ◌>>◌ : {S B : Type 0} → Async S (Unit {0}) → Async S B → Async S B
◌>>◌ m k s = resume (λ _. k) (m s).0 (m s).1

-- `.ok_or(e)?`
abbrev pub ok_or : {S A : Type 0} → Option A → MigrationResult → Async S A
ok_or none e s = (err e, s)
ok_or (some a) e s = (ok a, s)

-- `if !test { return Err(e); }`
abbrev pub ensure : {S : Type 0} → Bool → MigrationResult → Async S (Unit {0})
ensure true e s = (ok tt, s)
ensure false e s = (err e, s)
