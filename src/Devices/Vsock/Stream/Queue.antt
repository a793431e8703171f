-- ===== src/Devices/Vsock/Stream/Queue.antt =====
-- The bytes that a `VsockStream` (src/devices/vsock/src/stream.rs) has queued, and what `recv` makes
-- of them.
use mig_td.Base.{
  ℕ, zero, suc, ◌-◌, ◌≤◌, ◌≡◌, refl, sym, ap, ◌∙◌, false, List, [], ◌∷◌, ◌++◌, leb, ◌==◌, length,
  take, drop, append_assoc, append-nil, arith, inl, inr, Bool-cases,
}
use mig_td.Devices.Vsock.Stream.{copy_out}

abbrev pub concat : List (List ℕ) → List ℕ
concat [] = []
concat (x ∷ xs) = x ++ concat xs

pub concat-append_one : (xs : List (List ℕ)) (x : List ℕ) → concat (xs ++ (x ∷ [])) ≡ concat xs ++ x
concat-append_one [] x = append-nil x
concat-append_one (y ∷ xs) x =
    ap (λ l. y ++ l) (concat-append_one xs x) ∙ sym (append_assoc y (concat xs) x)

take-append_behind :
    (n : ℕ) (xs ys : List ℕ) → length xs ≤ n → take n (xs ++ ys) ≡ xs ++ take (n - length xs) ys
take-append_behind n [] ys h = let e : n ≡ n - 0 = omega arith in ap (λ k. take k ys) e
take-append_behind zero (x ∷ xs) ys h = absurd (omega arith)
take-append_behind (suc n) (x ∷ xs) ys h =
    let e : n - length xs ≡ suc n - suc (length xs) = omega arith in
    ap (λ l. x ∷ l) (take-append_behind n xs ys (omega arith) ∙ ap (λ k. xs ++ take k ys) e)

drop-append_behind :
    (n : ℕ) (xs ys : List ℕ) → length xs ≤ n → drop n (xs ++ ys) ≡ drop (n - length xs) ys
drop-append_behind n [] ys h = let e : n ≡ n - 0 = omega arith in ap (λ k. drop k ys) e
drop-append_behind zero (x ∷ xs) ys h = absurd (omega arith)
drop-append_behind (suc n) (x ∷ xs) ys h =
    let e : n - length xs ≡ suc n - suc (length xs) = omega arith in
    drop-append_behind n xs ys (omega arith) ∙ ap (λ k. drop k ys) e

take-append_before : (n : ℕ) (xs ys : List ℕ) → n ≤ length xs → take n (xs ++ ys) ≡ take n xs
take-append_before zero xs ys h = refl
take-append_before (suc n) [] ys h = absurd (omega arith)
take-append_before (suc n) (x ∷ xs) ys h =
    ap (λ l. x ∷ l) (take-append_before n xs ys (omega arith))

drop-append_before : (n : ℕ) (xs ys : List ℕ) → n ≤ length xs → drop n (xs ++ ys) ≡ drop n xs ++ ys
drop-append_before zero xs ys h = refl
drop-append_before (suc n) [] ys h = absurd (omega arith)
drop-append_before (suc n) (x ∷ xs) ys h = drop-append_before n xs ys (omega arith)

-- `recv` copies out the first bytes of the queue, as many as fit and as there are, and the rest stays.
pub copy_out_lem :
    (n : ℕ) (queue : List (List ℕ))
    → ((copy_out n queue).0 ≡ take n (concat queue))
      × (concat (copy_out n queue).1 ≡ drop n (concat queue))
unfolding copy_out
copy_out_lem zero [] = (refl, refl)
copy_out_lem (suc n) [] = (refl, refl)
copy_out_lem zero (x ∷ queue) = (refl, refl)
copy_out_lem (suc n) (x ∷ queue) =
    let (a, b) = copy_out_lem (suc n - length x) queue in
    let z : (suc n == 0) ≡ false = ground arith in
    elim (Bool-cases (leb (length x) (suc n))) [
      | inl t ↦ rw z (
          rw t (
            ap (λ l. x ++ l) a ∙ sym (take-append_behind (suc n) x (concat queue) (ground arith)),
            b ∙ sym (drop-append_behind (suc n) x (concat queue) (ground arith)),
          ))
      | inr t ↦ rw z (
          rw t (
            sym (take-append_before (suc n) x (concat queue) (ground arith)),
            sym (drop-append_before (suc n) x (concat queue) (ground arith)),
          ))
    ]
