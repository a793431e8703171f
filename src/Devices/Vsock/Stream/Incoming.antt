-- ===== src/Devices/Vsock/Stream/Incoming.antt =====
-- Which bytes the packets of a stream carry, as src/devices/vsock/src/stream.rs takes them from the
-- transport: the header of a packet and its data are two buffers.
use mig_td.Base.{
  ℕ, ◌≤◌, ◌≡◌, true, false, ◌&&◌, ◌||◌, Option, none, some, List, [], ◌∷◌, ◌++◌, append_assoc, ltb,
  ◌==◌, length, take, subst, sym,
}
use mig_td.Devices.Vsock.Packet.{ByteOrder, op, data_len}
use mig_td.Devices.Vsock.Connection.{VsockStream, Link, op_rw, op_shutdown, op_rst}

-- These buffers carry these bytes.
pub data Incoming (order : ByteOrder) : List (List ℕ) → List ℕ → Type 0 where
  -- Nothing came in.
  nothing : Incoming order [] []
  -- A header that announces data, and a buffer whose front the data is.
  payload :
      (h bytes : List ℕ) (rest : List (List ℕ)) (fresh : List ℕ)
      → (op order h == op_rw) ≡ true
      → data_len order h ≤ length bytes
      → Incoming order rest fresh
      → Incoming order (h ∷ (bytes ∷ rest)) (take (data_len order h) bytes ++ fresh)
  -- A header without data.
  control :
      (h : List ℕ) (rest : List (List ℕ)) (fresh : List ℕ)
      → ((op order h == op_rw) && ltb 0 (data_len order h)) ≡ false
      → Incoming order rest fresh
      → Incoming order (h ∷ rest) fresh
  -- The end of the stream, and at most one buffer that is taken as the answer.
  ending :
      (h : List ℕ) (answer rest : List (List ℕ)) (fresh : List ℕ)
      → ((op order h == op_shutdown) || (op order h == op_rst)) ≡ true
      → length answer ≤ 1
      → Incoming order rest fresh
      → Incoming order (h ∷ (answer ++ rest)) fresh

-- What `dequeue` adds to the log of the buffers that the transport has handed over.
pub data Dequeued {S : Type 0} (log : S → List (List ℕ)) (l : S)
    : Option (List ℕ) × S → Type 0 where
  got : (bytes : List ℕ) (l' : S) → log l' ≡ log l ++ (bytes ∷ []) → Dequeued log l (some bytes, l')
  lost : (l' : S) → log l' ≡ log l → Dequeued log l (none, l')

-- `log` reads off all the buffers that the transport has handed over.
pub record Reports {S : Type 0} (link : Link S) (log : S → List (List ℕ)) : Type 0 where
  pub dequeued : (s : VsockStream) (l : S) → Dequeued log l (link.dequeue s l)
  pub enqueued :
      (s : VsockStream) (h bytes : List ℕ) (l : S) → log (link.enqueue s h bytes l).1 ≡ log l

pub Incoming-append :
    (order : ByteOrder) (ps qs : List (List ℕ)) (xs ys : List ℕ)
    → Incoming order ps xs
    → Incoming order qs ys
    → Incoming order (ps ++ qs) (xs ++ ys)
Incoming-append order _ qs _ ys nothing k = k
Incoming-append order _ qs _ ys (payload h bytes rest fresh r d i) k =
    subst (Incoming order (h ∷ (bytes ∷ (rest ++ qs))))
      (sym (append_assoc (take (data_len order h) bytes) fresh ys))
      (payload h bytes (rest ++ qs) (fresh ++ ys) r d (Incoming-append order rest qs fresh ys i k))
Incoming-append order _ qs _ ys (control h rest fresh c i) k =
    control h (rest ++ qs) (fresh ++ ys) c (Incoming-append order rest qs fresh ys i k)
Incoming-append order _ qs _ ys (ending h answer rest fresh c n i) k =
    subst (λ l. Incoming order (h ∷ l) (fresh ++ ys)) (sym (append_assoc answer rest qs))
      (ending h answer (rest ++ qs) (fresh ++ ys) c n (Incoming-append order rest qs fresh ys i k))
