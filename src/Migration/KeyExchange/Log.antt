-- ===== src/Migration/KeyExchange/Log.antt =====
-- Logs of the writes to the target TD, and rules for steps that write nothing and for sequences of
-- writes, for `exchange_msk` of src/migtd/src/migration/session.rs.
use mig_td.Base.{
  ℕ, suc, ◌<◌, ◌≡◌, refl, sym, ap, ◌∙◌, Bool, true, false, Option, none, some, List, [], ◌∷◌, ◌++◌,
  append_assoc, append-nil, length, take, arith,
}
use mig_td.Migration.Status.{MigrationResult, Result, ok, err, stuck, tdx_module_error}
use mig_td.Migration.Transport.{Async, ensure, resume}
use mig_td.Migration.KeyExchange.{Machine, tdx_ok}

-- The fields of the target TD that were written, in order, with their values. Only a `servtd_wr`
-- that succeeds writes one.
pub record WriteLog {S : Type 0} (m : Machine S) : Type 0 where
  pub writes : S → List (ℕ × ℕ)
  pub wr_some :
      (h f v : ℕ) (u : List ℕ) (s : S)
      → (m.servtd_wr h f v u s).0 ≡ some tt
      → writes (m.servtd_wr h f v u s).1 ≡ writes s ++ ((f, v) ∷ [])
  pub wr_none :
      (h f v : ℕ) (u : List ℕ) (s : S)
      → (m.servtd_wr h f v u s).0 ≡ none
      → writes (m.servtd_wr h f v u s).1 ≡ writes s
  pub rd_same : (h f : ℕ) (u : List ℕ) (s : S) → writes (m.servtd_rd h f u s).1 ≡ writes s
  pub sys_same : (f : ℕ) (s : S) → writes (m.sys_rd f s).1 ≡ writes s
  pub init_same :
      (i : List ℕ) (s : S) → writes (m.verify_init_migtd_data_policy_binding i s).1 ≡ writes s
  pub setup_same : (id : ℕ) (s : S) → writes (m.setup_transport id s).1 ≡ writes s
  pub pre_session_same : (s : S) → writes (m.pre_session_data_exchange s).1 ≡ writes s
  pub ratls_setup_same : (b : Bool) (d : List ℕ) (s : S) → writes (m.ratls_setup b d s).1 ≡ writes s
  pub ratls_write_same : (d : List ℕ) (s : S) → writes (m.ratls_write d s).1 ≡ writes s
  pub ratls_read_same : (n : ℕ) (s : S) → writes (m.ratls_read n s).1 ≡ writes s
  pub shutdown_same : (id : ℕ) (s : S) → writes (m.shutdown_transport id s).1 ≡ writes s

module _ {S : Type 0} {m : Machine S} (l : WriteLog m) where
  open l use {writes}

  -- A step that writes no field: it ends without an answer, or with one of which `P` is known.
  pub data Quiet {A : Type 0} (s : S) (r : Result A × S) (P : A → Type 0) : Type 0 where
    refused : (e : MigrationResult) → r.0 ≡ err e → writes r.1 ≡ writes s → Quiet s r P
    halted : r.0 ≡ stuck → writes r.1 ≡ writes s → Quiet s r P
    answered : (a : A) → r.0 ≡ ok a → P a → writes r.1 ≡ writes s → Quiet s r P

  pub Quiet-bind :
      {A B : Type 0} {P : A → Type 0} {Q : B → Type 0} {s : S} {r : Result A × S}
      (f : A → Async S B)
      → Quiet s r P
      → ((a : A) → P a → Quiet r.1 (f a r.1) Q)
      → Quiet s (resume f r.0 r.1) Q
  Quiet-bind f (refused e p q) k = refused e (rw p refl) (rw p q)
  Quiet-bind f (halted p q) k = halted (rw p refl) (rw p q)
  Quiet-bind {Q = Q} {s = s} {r = r} f (answered a p h q) k = rw p (after (k a h))
    where
      after : {x : Result _ × S} → Quiet r.1 x Q → Quiet s x Q
      after (refused e u v) = refused e u (v ∙ q)
      after (halted u v) = halted u (v ∙ q)
      after (answered b u z v) = answered b u z (v ∙ q)

  pub result-Quiet :
      {A : Type 0} (x : Result A) (s s' : S)
      → writes s' ≡ writes s
      → Quiet s (x, s') (λ a. x ≡ ok a)
  result-Quiet (ok a) s s' e = answered a refl refl e
  result-Quiet (err x) s s' e = refused x refl e
  result-Quiet stuck s s' e = halted refl e

  pub tdx-Quiet :
      {A : Type 0} (x : Option A) (s s' : S)
      → writes s' ≡ writes s
      → Quiet s (tdx_ok (x, s')) (λ a. x ≡ some a)
  tdx-Quiet none s s' e = refused tdx_module_error refl e
  tdx-Quiet (some a) s s' e = answered a refl refl e

  pub ok-Quiet : {A : Type 0} {P : A → Type 0} (a : A) (s : S) → P a → Quiet s (ok a, s) P
  ok-Quiet a s p = answered a refl p refl

  pub ensure-Quiet :
      (b : Bool) (e : MigrationResult) (s : S) → Quiet s (ensure b e s) (λ _. b ≡ true)
  ensure-Quiet true e s = ok-Quiet tt s refl
  ensure-Quiet false e s = refused e refl refl

  -- Writing `ws` in order: all of them, or a front part until the TDX module refuses one.
  pub data Puts (s : S) (r : Result (Unit {0}) × S) (ws : List (ℕ × ℕ)) : Type 0 where
    cut :
        (n : ℕ)
        → n < length ws
        → r.0 ≡ err tdx_module_error
        → writes r.1 ≡ writes s ++ take n ws
        → Puts s r ws
    full : r.0 ≡ ok tt → writes r.1 ≡ writes s ++ ws → Puts s r ws

  put_first :
      {s s' : S} {r : Result (Unit {0}) × S} {ws : List (ℕ × ℕ)} (w : ℕ × ℕ)
      → writes s' ≡ writes s ++ (w ∷ [])
      → Puts s' r ws
      → Puts s r (w ∷ ws)
  put_first {s} {ws = ws} w e (cut n p q t) =
      cut (suc n) (omega arith) q
        (t ∙ ap (λ x. x ++ take n ws) e ∙ append_assoc (writes s) (w ∷ []) (take n ws))
  put_first {s} {ws = ws} w e (full q t) =
      full q (t ∙ ap (λ x. x ++ ws) e ∙ append_assoc (writes s) (w ∷ []) ws)

  put_step :
      {s : S} {ws : List (ℕ × ℕ)} (w : ℕ × ℕ) (x : Option (Unit {0})) (s' : S)
      (k : Async S (Unit {0}))
      → (x ≡ some tt → writes s' ≡ writes s ++ (w ∷ []))
      → (x ≡ none → writes s' ≡ writes s)
      → Puts s' (k s') ws
      → Puts s (resume (λ _. k) (tdx_ok (x, s')).0 (tdx_ok (x, s')).1) (w ∷ ws)
  put_step {s} w none s' k p q next =
      cut 0 (omega arith) refl (q refl ∙ sym (append-nil (writes s)))
  put_step w (some tt) s' k p q next = put_first w (p refl) next

  pub Puts-from :
      {s s' : S} {r : Result (Unit {0}) × S} {ws : List (ℕ × ℕ)}
      → writes s' ≡ writes s
      → Puts s' r ws
      → Puts s r ws
  Puts-from {ws = ws} e (cut n p q t) = cut n p q (t ∙ ap (λ x. x ++ take n ws) e)
  Puts-from {ws = ws} e (full q t) = full q (t ∙ ap (λ x. x ++ ws) e)

  -- `put_step` for a call of the TDX module.
  pub wr-Puts :
      {s : S} {ws : List (ℕ × ℕ)} (h f v : ℕ) (u : List ℕ) (k : Async S (Unit {0}))
      → ((s' : S) → Puts s' (k s') ws)
      → Puts s
          (resume (λ _. k) (tdx_ok (m.servtd_wr h f v u s)).0 (tdx_ok (m.servtd_wr h f v u s)).1)
          ((f, v) ∷ ws)
  wr-Puts {s} h f v u k next =
      let r = m.servtd_wr h f v u s in
      put_step (f, v) r.0 r.1 k (l.wr_some h f v u s) (l.wr_none h f v u s) (next r.1)
