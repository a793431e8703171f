-- ===== src/Migration/PreSession/Channel.antt =====
-- `send_pre_session_data` and `receive_pre_session_data` of
-- src/migtd/src/migration/pre_session_data.rs: the loops that move a whole buffer.
pub mod Delivery
pub mod Rules
use mig_td.Base.{ℕ, zero, suc, ◌-◌, Option, none, some, List, [], ◌∷◌, ◌++◌, length, drop}
use mig_td.Migration.Status.{Result, ok, err, stuck, network_error}
use mig_td.Migration.Transport.{Transport, Async}

module _ {S : Type 0} (t : Transport S) where
  -- `while sent < data.len()`; the list is `data[sent..]`.
  send_loop : ℕ → List ℕ → Async S (Unit {0})
  send_loop fuel [] s = (ok tt, s)
  send_loop zero (b ∷ bs) s = (stuck, s)
  send_loop (suc fuel) (b ∷ bs) s =
      let a = t.write (b ∷ bs) s in
      elim a.0 [ none ↦ (err network_error, a.1) | some n ↦ send_loop fuel (drop n (b ∷ bs)) a.1 ]

  -- Each round sends a byte at least.
  pub send_pre_session_data : List ℕ → Async S (Unit {0})
  send_pre_session_data bytes s = send_loop (length bytes) bytes s

  -- `while recvd < data.len()`; the second argument is `data.len() - recvd`, the third is
  -- `data[..recvd]`.
  receive_loop : ℕ → ℕ → List ℕ → Async S (List ℕ)
  receive_loop fuel zero got s = (ok got, s)
  receive_loop zero (suc n) got s = (stuck, s)
  receive_loop (suc fuel) (suc n) got s =
      let a = t.read (suc n) s in
      elim a.0 [
        | none ↦ (err network_error, a.1)
        | some bs ↦ receive_loop fuel (suc n - length bs) (got ++ bs) a.1
      ]

  -- Fills a buffer of the given length; each round receives a byte at least.
  pub receive_pre_session_data : ℕ → Async S (List ℕ)
  receive_pre_session_data n s = receive_loop n n [] s
