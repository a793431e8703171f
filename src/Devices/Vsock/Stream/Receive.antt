-- ===== src/Devices/Vsock/Stream/Receive.antt =====
-- `recv` of src/devices/vsock/src/stream.rs: the bytes come out in the order in which they came in.
use mig_td.Base.{◌≤◌, ℕ, ◌+◌, ◌%◌, ◌^◌, min, ◌≡◌, true, false, List, ◌++◌, length, is_empty}
use mig_td.Devices.Vsock.Stream.Incoming.{Incoming, Reports}
use mig_td.Devices.Vsock.Packet.{ByteOrder}
use mig_td.Devices.Vsock.Stream.{copy_out}
use mig_td.Devices.Vsock.Connection.{
  Answer, ok, err, waiting, StreamError, illegal, Link, World, Action, ◌>>=◌, ◌>>◌, done, get,
  modify, is_established,
}
use mig_td.Devices.Vsock.Stream.Queue.{concat}
use mig_td.Devices.Vsock.Stream.Grows.{Grows}

-- The bytes that are queued in a stream.
abbrev pub bytes_of : {S : Type 0} → World S → List ℕ
bytes_of w = concat w.stream.data_queue

-- Buffers that the transport handed over while the log went from `before` to `after`: `complete` carry
-- the bytes `fresh`, and at most two are left without effect.
pub record Arrived (order : ByteOrder) (before after : List (List ℕ)) (fresh : List ℕ)
    : Type 0 where
  pub complete : List (List ℕ)
  pub dropped : List (List ℕ)
  pub logged : after ≡ before ++ (complete ++ dropped)
  pub carried : Incoming order complete fresh
  pub few_dropped : length dropped ≤ 2

-- How `recv` into a buffer of `n` bytes ends.
pub data Received {S : Type 0} (order : ByteOrder) (log : S → List (List ℕ)) (n : ℕ) (w : World S)
    : Answer (List ℕ) × World S → Type 0 where
  not_established : is_established w.stream.state ≡ false → Received order log n w (err illegal, w)
  failed :
      (e : StreamError) (w' : World S) (fresh : List ℕ)
      → is_empty w.stream.data_queue ≡ true
      → Arrived order (log w.link) (log w'.link) fresh
      → bytes_of w' ≡ bytes_of w ++ fresh
      → Received order log n w (err e, w')
  waits :
      (w' : World S) (fresh : List ℕ)
      → is_empty w.stream.data_queue ≡ true
      → Arrived order (log w.link) (log w'.link) fresh
      → bytes_of w' ≡ bytes_of w ++ fresh
      → Received order log n w (waiting, w')
  received :
      (out fresh : List ℕ) (packets : List (List ℕ)) (w' : World S)
      → log w'.link ≡ log w.link ++ packets
      → Incoming order packets fresh
      → out ++ bytes_of w' ≡ bytes_of w ++ fresh
      → length out ≡ min n (length (bytes_of w ++ fresh))
      → w'.stream.rx_cnt % 2 ^ 32 ≡ (w.stream.rx_cnt + length fresh) % 2 ^ 32
      → Received order log n w (ok out, w')

module _ {S : Type 0} (order : ByteOrder) (log : S → List (List ℕ)) (link : Link S)
    (reports : Reports link log) (limit : ℕ) where
  -- The rest of `recv`.
  abbrev take_out : ℕ → Action S (List ℕ)
  take_out n = do
    ready ← get
    modify (λ s. record s { data_queue = (copy_out n ready.data_queue).1 })
    done (copy_out n ready.data_queue).0
