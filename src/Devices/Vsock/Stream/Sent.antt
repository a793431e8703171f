-- ===== src/Devices/Vsock/Stream/Sent.antt =====
-- `send` of src/devices/vsock/src/stream.rs: which bytes reach the transport.
use mig_td.Base.{ℕ, ◌≤◌, ◌≡◌, false, List, ◌++◌, length, take}
use mig_td.Devices.Vsock.Stream.{peer_free_space}
use mig_td.Devices.Vsock.Connection.{
  Answer, ok, err, waiting, StreamError, illegal, World, ◌>>◌, is_established,
}
use mig_td.Devices.Vsock.Stream.Keeps.{Keeps}

-- How `send` ends: all of `buf` has gone out, or a part at its front.
pub data Sent {S : Type 0} (sent : S → List ℕ) (buf : List ℕ) (w : World S)
    : Answer ℕ × World S → Type 0 where
  not_established : is_established w.stream.state ≡ false → Sent sent buf w (err illegal, w)
  complete :
      (w' : World S) → sent w'.link ≡ sent w.link ++ buf → Sent sent buf w (ok (length buf), w')
  failed :
      (e : StreamError) (w' : World S) (out left : List ℕ)
      → out ++ left ≡ buf
      → sent w'.link ≡ sent w.link ++ out
      → Sent sent buf w (err e, w')
  no_credit :
      (w' : World S) (out left : List ℕ)
      → peer_free_space w'.stream ≡ 0
      → out ++ left ≡ buf
      → sent w'.link ≡ sent w.link ++ out
      → Sent sent buf w (waiting, w')

module _ {S : Type 0} (sent : S → List ℕ) where
  -- How the loop ends on the bytes that are left.
  data Looped (rest : List ℕ) (w : World S) : Answer (Unit {0}) × World S → Type 0 where
    all_sent : (w' : World S) → sent w'.link ≡ sent w.link ++ rest → Looped rest w (ok tt, w')
    stopped :
        (e : StreamError) (w' : World S) (out left : List ℕ)
        → out ++ left ≡ rest
        → sent w'.link ≡ sent w.link ++ out
        → Looped rest w (err e, w')
    stuck :
        (w' : World S) (out left : List ℕ)
        → peer_free_space w'.stream ≡ 0
        → out ++ left ≡ rest
        → sent w'.link ≡ sent w.link ++ out
        → Looped rest w (waiting, w')

  data Waited (w : World S) : Answer (Unit {0}) × World S → Type 0 where
    space :
        (w' : World S)
        → 1 ≤ peer_free_space w'.stream
        → sent w'.link ≡ sent w.link
        → Waited w (ok tt, w')
    lost : (e : StreamError) (w' : World S) → sent w'.link ≡ sent w.link → Waited w (err e, w')
    no_space :
        (w' : World S)
        → peer_free_space w'.stream ≡ 0
        → sent w'.link ≡ sent w.link
        → Waited w (waiting, w')

  data Chunk (rest : List ℕ) (w : World S) : Answer ℕ × World S → Type 0 where
    chunk :
        (n : ℕ) (w' : World S)
        → 1 ≤ n
        → sent w'.link ≡ sent w.link ++ take n rest
        → Chunk rest w (ok n, w')
    not_taken :
        (e : StreamError) (w' : World S) → sent w'.link ≡ sent w.link → Chunk rest w (err e, w')
