-- ===== src/Migration/PreSession/Channel/Delivery.antt =====
-- Over a reliable stream both loops end, and move exactly the bytes that they were asked for.
use mig_td.Base.{
  ℕ, zero, suc, ◌-◌, ◌≤◌, ◌<◌, ◌≡◌, refl, sym, ap, subst, ◌∙◌, inl, inr, none, some, List, [], ◌∷◌,
  ◌++◌, arith, length, take, drop, length-append, length-drop, take-append-drop, append_assoc,
  append-nil, Option-cases,
}
use mig_td.Migration.Status.{MigrationResult, Result, ok, err, network_error}
use mig_td.Migration.Transport.{Transport, Wire}
use mig_td.Migration.PreSession.Channel.{
  send_loop, send_pre_session_data, receive_loop, receive_pre_session_data,
}

-- The error that the loops make of any `io::Error`.
abbrev pub IsNetwork : MigrationResult → Type 0
IsNetwork e = e ≡ network_error

module _ {S : Type 0} {t : Transport S} (w : Wire t) where
  open w use {sent, pending, write_some, read_some}

  -- Between two states the channel has taken `out` and delivered `inp`.
  pub record Moves (s s' : S) (out inp : List ℕ) : Type 0 where
    pub sends : sent s' ≡ sent s ++ out
    pub takes : pending s ≡ inp ++ pending s'

  pub Moves-refl : (s : S) → Moves s s [] []
  Moves-refl s = record { sends = sym (append-nil (sent s)); takes = refl }

  pub Moves-trans :
      (s s' s'' : S) (out inp out' inp' : List ℕ)
      → Moves s s' out inp
      → Moves s' s'' out' inp'
      → Moves s s'' (out ++ out') (inp ++ inp')
  Moves-trans s s' s'' out inp out' inp' p q = record {
    sends = q.sends ∙ ap (λ x. x ++ out') p.sends ∙ append_assoc (sent s) out out';
    takes = p.takes ∙ ap (λ x. inp ++ x) q.takes ∙ sym (append_assoc inp inp' (pending s''));
  }

  -- How a step that should hand over `out` may end: by an error that `E` allows, or by an answer
  -- and an input that satisfy `P`. It never runs out of fuel.
  pub data Ends {A : Type 0} (E : MigrationResult → Type 0) (s : S) (r : Result A × S)
      (P : A → List ℕ → Type 0) (out : List ℕ) : Type 0 where
    broke : (e : MigrationResult) → r.0 ≡ err e → E e → Ends E s r P out
    done : (a : A) (inp : List ℕ) → r.0 ≡ ok a → P a inp → Moves s r.1 out inp → Ends E s r P out

  pub Ends-cons :
      {A : Type 0} {E : MigrationResult → Type 0} {P Q : A → List ℕ → Type 0} {s s' : S}
      {out out' inp : List ℕ} {r : Result A × S}
      → Moves s s' out inp
      → ((a : A) (i : List ℕ) → P a i → Q a (inp ++ i))
      → Ends E s' r P out'
      → Ends E s r Q (out ++ out')
  Ends-cons m f (broke e p q) = broke e p q
  Ends-cons {s = s} {s' = s'} {out = out} {out' = out'} {inp = inp} {r = r} m f (done a i e p m') =
      done a (inp ++ i) e (f a i p) (Moves-trans s s' r.1 out inp out' i m m')

  write_Moves :
      (b : ℕ) (bs : List ℕ) (s : S) (n : ℕ)
      → (t.write (b ∷ bs) s).0 ≡ some n
      → Moves s (t.write (b ∷ bs) s).1 (take n (b ∷ bs)) []
  write_Moves b bs s n e = let h = write_some b bs s n e in record { sends = h.2; takes = sym h.3 }

  read_Moves :
      (n : ℕ) (s : S) (bs : List ℕ)
      → 0 < n
      → (t.read n s).0 ≡ some bs
      → Moves s (t.read n s).1 [] bs
  read_Moves n s bs p e =
      let h = read_some n s bs p e in
      record { sends = h.3 ∙ sym (append-nil (sent s)); takes = h.2 }

  send_loop-some :
      (fuel b : ℕ) (bs : List ℕ) (s : S) (n : ℕ)
      → (t.write (b ∷ bs) s).0 ≡ some n
      → send_loop t (suc fuel) (b ∷ bs) s
        ≡ send_loop t fuel (drop n (b ∷ bs)) (t.write (b ∷ bs) s).1
  unfolding send_loop
  send_loop-some fuel b bs s n e = ground arith

  send_loop-none :
      (fuel b : ℕ) (bs : List ℕ) (s : S)
      → (t.write (b ∷ bs) s).0 ≡ none
      → (send_loop t (suc fuel) (b ∷ bs) s).0 ≡ err network_error
  unfolding send_loop
  send_loop-none fuel b bs s e = ground arith

  send_loop-Ends :
      (fuel : ℕ) (bytes : List ℕ) (s : S)
      → length bytes ≤ fuel
      → Ends IsNetwork s (send_loop t fuel bytes s) (λ _ inp. inp ≡ []) bytes
  send_loop-Ends fuel [] s h =
      done tt [] (unfold send_loop in refl) refl (unfold send_loop in Moves-refl s)
  send_loop-Ends zero (b ∷ bs) s h = absurd (omega arith)
  send_loop-Ends (suc fuel) (b ∷ bs) s h = elim (Option-cases (t.write (b ∷ bs) s).0) [
    | inl e ↦ broke network_error (send_loop-none fuel b bs s e) refl
    | inr (n, e) ↦ rw (send_loop-some fuel b bs s n e) (
        subst
          (Ends IsNetwork s (send_loop t fuel (drop n (b ∷ bs)) (t.write (b ∷ bs) s).1)
            (λ _ inp. inp ≡ []))
          (take-append-drop n (b ∷ bs))
          (Ends-cons (write_Moves b bs s n e) (λ a i p. p)
            (send_loop-Ends fuel (drop n (b ∷ bs)) (t.write (b ∷ bs) s).1
              (omega (arith, length-drop n (b ∷ bs), write_some b bs s n e)))))
  ]

  receive_loop-some :
      (fuel n : ℕ) (got : List ℕ) (s : S) (bs : List ℕ)
      → (t.read (suc n) s).0 ≡ some bs
      → receive_loop t (suc fuel) (suc n) got s
        ≡ receive_loop t fuel (suc n - length bs) (got ++ bs) (t.read (suc n) s).1
  unfolding receive_loop
  receive_loop-some fuel n got s bs e = ground arith

  receive_loop-none :
      (fuel n : ℕ) (got : List ℕ) (s : S)
      → (t.read (suc n) s).0 ≡ none
      → (receive_loop t (suc fuel) (suc n) got s).0 ≡ err network_error
  unfolding receive_loop
  receive_loop-none fuel n got s e = ground arith

  receive_loop-Ends :
      (fuel n : ℕ) (got : List ℕ) (s : S)
      → n ≤ fuel
      → Ends IsNetwork s
          (receive_loop t fuel n got s)
          (λ a inp. (a ≡ got ++ inp) × (length inp ≡ n))
          []
  receive_loop-Ends fuel zero got s h =
      done got [] (unfold receive_loop in refl) (sym (append-nil got), refl)
        (unfold receive_loop in Moves-refl s)
  receive_loop-Ends zero (suc n) got s h = absurd (omega arith)
  receive_loop-Ends (suc fuel) (suc n) got s h = elim (Option-cases (t.read (suc n) s).0) [
    | inl e ↦ broke network_error (receive_loop-none fuel n got s e) refl
    | inr (bs, e) ↦
        let r = read_some (suc n) s bs (omega arith) e in
        rw (receive_loop-some fuel n got s bs e) (
          Ends-cons (read_Moves (suc n) s bs (omega arith) e)
            (λ a i p. (p.0 ∙ append_assoc got bs i, omega (arith, p.1, length-append bs i, r.1)))
            (receive_loop-Ends fuel (suc n - length bs) (got ++ bs) (t.read (suc n) s).1
              (omega (arith, r.0))))
  ]

  -- Sending ends, whatever the channel does: it reports a network error, or the peer is given
  -- exactly the bytes of the buffer, and nothing was received meanwhile.
  pub send-Ends :
      (bytes : List ℕ) (s : S)
      → Ends IsNetwork s (send_pre_session_data t bytes s) (λ _ inp. inp ≡ []) bytes
  unfolding send_pre_session_data
  send-Ends bytes s = send_loop-Ends (length bytes) bytes s (omega arith)

  -- Receiving `n` bytes ends: it reports a network error, or it answers exactly the next `n` bytes
  -- of the stream, takes these alone and sends nothing.
  pub receive-Ends :
      (n : ℕ) (s : S)
      → Ends IsNetwork s (receive_pre_session_data t n s) (λ a inp. (a ≡ inp) × (length inp ≡ n)) []
  unfolding receive_pre_session_data
  receive-Ends n s = receive_loop-Ends n n [] s (omega arith)
