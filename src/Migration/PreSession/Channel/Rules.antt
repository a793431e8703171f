-- ===== src/Migration/PreSession/Channel/Rules.antt =====
-- Rules for `do` blocks over a reliable stream: how a sequence of steps ends.
use mig_td.Base.{
  ℕ, ◌≡◌, refl, sym, ◌∙◌, Bool, true, false, Option, none, some, List, [], ◌∷◌, ◌++◌, arith, length,
}
use mig_td.Migration.Status.{MigrationResult, Result, ok}
use mig_td.Migration.Transport.{Transport, Wire, Async, resume, ok_or, ensure}
use mig_td.Migration.PreSession.Channel.Delivery.{Moves, Moves-refl, Ends, Ends-cons, broke, done}

pub append-injective :
    (xs ys : List ℕ) (zs ws : List ℕ)
    → length xs ≡ length ys
    → xs ++ zs ≡ ys ++ ws
    → (xs ≡ ys) × (zs ≡ ws)
append-injective [] [] zs ws h e = (refl, e)
append-injective [] (y ∷ ys) zs ws h e = absurd (omega arith)
append-injective (x ∷ xs) [] zs ws h e = absurd (omega arith)
append-injective (x ∷ xs) (y ∷ ys) zs ws h e = ground (arith, append-injective xs ys zs ws)

module _ {S : Type 0} {t : Transport S} (w : Wire t) where
  -- A step and what follows it. The rest of the block starts where the step left the channel.
  pub Ends-bind :
      {A B : Type 0} {E : MigrationResult → Type 0} {P : A → List ℕ → Type 0}
      {Q : B → List ℕ → Type 0} {out out' : List ℕ} {s : S} {r : Result A × S} (f : A → Async S B)
      → Ends w E s r P out
      → ((a : A) (inp : List ℕ)
          → P a inp
          → Moves w s r.1 out inp
          → Ends w E r.1 (f a r.1) (λ b i. Q b (inp ++ i)) out')
      → Ends w E s (resume f r.0 r.1) Q (out ++ out')
  Ends-bind f (broke e p q) k = broke e (rw p refl) q
  Ends-bind {out = out} {out' = out'} {s = s} {r = r} f (done a inp p q m) k =
      rw p (Ends-cons w m (λ b i z. z) (k a inp q m))

  pub Ends-return :
      {A : Type 0} {E : MigrationResult → Type 0} {P : A → List ℕ → Type 0} (a : A) (s : S)
      → P a []
      → Ends w E s (ok a, s) P []
  Ends-return a s p = done a [] refl p (Moves-refl w s)

  -- What is known of an answer follows from what the step promises and from how the channel moved.
  pub Ends-answer :
      {A : Type 0} {E : MigrationResult → Type 0} {P Q : A → List ℕ → Type 0} {out : List ℕ} {s : S}
      {r : Result A × S}
      → ((a : A) (i : List ℕ) → P a i → Moves w s r.1 out i → Q a i)
      → Ends w E s r P out
      → Ends w E s r Q out
  Ends-answer f (broke e p q) = broke e p q
  Ends-answer f (done a i p q m) = done a i p (f a i q m) m

  pub Ends-errors :
      {A : Type 0} {E E' : MigrationResult → Type 0} {P : A → List ℕ → Type 0} {out : List ℕ}
      {s : S} {r : Result A × S}
      → ((e : MigrationResult) → E e → E' e)
      → Ends w E s r P out
      → Ends w E' s r P out
  Ends-errors g (broke e p q) = broke e p (g e q)
  Ends-errors g (done a i p q m) = done a i p q m

  -- Where the next bytes of the stream are known, they are what a step of that length takes.
  pub known_input :
      (s s' : S) (out inp front rest : List ℕ)
      → w.pending s ≡ front ++ rest
      → length inp ≡ length front
      → Moves w s s' out inp
      → (inp ≡ front) × (w.pending s' ≡ rest)
  known_input s s' out inp front rest e h m =
      append-injective inp front (w.pending s') rest h (sym m.takes ∙ e)

  pub ensure-Ends :
      {E : MigrationResult → Type 0} (b : Bool) (e : MigrationResult) (s : S)
      → (b ≡ false → E e)
      → Ends w E s (ensure b e s) (λ _ inp. (b ≡ true) × (inp ≡ [])) []
  ensure-Ends true e s h = Ends-return tt s (refl, refl)
  ensure-Ends false e s h = broke e refl (h refl)

  pub ok_or-Ends :
      {A : Type 0} {E : MigrationResult → Type 0} (o : Option A) (e : MigrationResult) (s : S)
      → (o ≡ none → E e)
      → Ends w E s (ok_or o e s) (λ a inp. (o ≡ some a) × (inp ≡ [])) []
  ok_or-Ends none e s h = broke e refl (h refl)
  ok_or-Ends (some a) e s h = Ends-return a s (refl, refl)
