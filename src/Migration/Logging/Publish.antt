-- ===== src/Migration/Logging/Publish.antt =====
-- The loop of `enable_logarea` (src/migtd/src/migration/logging.rs) over the pages.
use mig_td.Base.{
  ℕ, zero, suc, ◌+◌, ◌≡◌, refl, sym, ap, subst, true, false, some, List, [], ◌∷◌, ◌++◌,
  append_assoc, append-nil, drop_all, arith, length, get_elem?, set, drop, to_le, length-append,
}
use mig_td.Migration.Logging.Entry.{page_size, LogEntry}
use mig_td.Migration.Logging.Append.{Shows}
use mig_td.Migration.Logging.Area.{Logging}
use mig_td.Migration.Logging.Areas.{ShowAll, entries_of, ShowAll-page, ShowAll-set}
use mig_td.Migration.Logging.Backend.{publish}

-- What the host is told about pages at these addresses.
unfoldable pub announced : List ℕ → List ℕ
announced [] = []
announced (a ∷ ptrs) = (to_le 8 a ++ to_le 8 page_size) ++ announced ptrs

drop-get :
    (ptrs : List ℕ) (i n : ℕ)
    → length ptrs ≡ i + suc n
    → (a : ℕ) × (get_elem? ptrs i ≡ some a) × (drop i ptrs ≡ a ∷ drop (suc i) ptrs)
drop-get [] i n h = absurd (omega arith)
drop-get (a ∷ ptrs) zero n h = (a, refl, refl)
drop-get (a ∷ ptrs) (suc i) n h = drop-get ptrs i n (omega arith)

set_same : {A : Type 0} (xs : List A) (i : ℕ) (x : A) → get_elem? xs i ≡ some x → set xs i x ≡ xs
set_same [] i x h = refl
set_same (y ∷ xs) zero x h = ground arith
set_same (y ∷ xs) (suc i) x h = ap (λ l. y ∷ l) (set_same xs i x h)

set-append_length :
    {A : Type 0} (xs ys : List A) (y z : A)
    → set (xs ++ (y ∷ ys)) (length xs) z ≡ (xs ++ (z ∷ [])) ++ ys
set-append_length [] ys y z = refl
set-append_length (x ∷ xs) ys y z = ap (λ l. x ∷ l) (set-append_length xs ys y z)

entries_of-append :
    (xs ys : List (List LogEntry)) (y : List LogEntry) → entries_of (xs ++ (y ∷ ys)) (length xs) ≡ y
entries_of-append [] ys y = refl
entries_of-append (x ∷ xs) ys y = entries_of-append xs ys y

-- The provisional pages replace the others.
pub publish-ShowAll :
    (n : ℕ) (done xs ys : List (List LogEntry)) (answer : List ℕ) (s : Logging)
    → length xs ≡ n
    → length ys ≡ n
    → length s.logareaptr ≡ length done + n
    → ShowAll 0 (done ++ xs) s.logarea
    → ShowAll 0 (done ++ ys) s.provisional_logarea
    → (pages : List (List ℕ)) × (publish n (length done) true answer s
        ≡ some
            (answer ++ announced (drop (length done) s.logareaptr), record s { logarea = pages }))
      × ShowAll 0 (done ++ ys) pages
unfolding publish announced
publish-ShowAll zero done [] [] answer s hx hy hp h k =
    let e = drop_all (length done) s.logareaptr (omega arith) in
    (s.logarea, rw e (rw (append-nil answer) refl), h)
publish-ShowAll zero done (x ∷ xs) ys answer s hx hy hp h k = absurd (omega arith)
publish-ShowAll zero done [] (y ∷ ys) answer s hx hy hp h k = absurd (omega arith)
publish-ShowAll (suc n) done [] ys answer s hx hy hp h k = absurd (omega arith)
publish-ShowAll (suc n) done (x ∷ xs) [] answer s hx hy hp h k = absurd (omega arith)
publish-ShowAll (suc n) done (x ∷ xs) (y ∷ ys) answer s hx hy hp h k =
    let i = length done in
    let lx = length-append done (x ∷ xs) in
    let ly = length-append done (y ∷ ys) in
    let (p, gp, sp) = ShowAll-page 0 (done ++ (x ∷ xs)) s.logarea i h (omega arith) in
    let (q, gq, sq) = ShowAll-page 0 (done ++ (y ∷ ys)) s.provisional_logarea i k (omega arith) in
    let (a, ga, da) = drop-get s.logareaptr i n hp in
    let s' = record s { logarea = set s.logarea i q } in
    let more : List ℕ = answer ++ (to_le 8 a ++ to_le 8 page_size) in
    let e : length (done ++ (y ∷ [])) ≡ suc i = omega (arith, length-append done (y ∷ [])) in
    let sy : Shows (0 + i) y q = subst (λ l. Shows (0 + i) l q) (entries_of-append done ys y) sq in
    let h' =
      subst (λ l. ShowAll 0 l s'.logarea) (set-append_length done xs x y)
        (ShowAll-set 0 (done ++ (x ∷ xs)) s.logarea i y q h sy) in
    let k' =
      subst (λ l. ShowAll 0 l s.provisional_logarea) (sym (append_assoc done (y ∷ []) ys)) k in
    let (pages, eq, shown) =
      publish-ShowAll n (done ++ (y ∷ [])) xs ys more s' (omega arith) (omega arith) (omega arith)
        h' k' in
    let f : publish n (suc i) true more s'
        ≡ some (more ++ announced (drop (suc i) s.logareaptr), record s { logarea = pages }) =
      subst
        (λ m.
          publish n m true more s'
          ≡ some (more ++ announced (drop m s.logareaptr), record s { logarea = pages }))
        e eq in
    (
      pages,
      rw gp (
          rw ga (
            rw gq (
              rw da (
                rw
                  (sym (
                    append_assoc answer (to_le 8 a ++ to_le 8 page_size)
                      (announced (drop (suc i) s.logareaptr))))
                  f)))),
      subst (λ l. ShowAll 0 l pages) (append_assoc done (y ∷ []) ys) shown,
    )

-- Without provisional pages nothing changes.
pub publish_again :
    (n : ℕ) (done xs : List (List LogEntry)) (answer : List ℕ) (s : Logging)
    → length xs ≡ n
    → length s.logareaptr ≡ length done + n
    → ShowAll 0 (done ++ xs) s.logarea
    → publish n (length done) false answer s
      ≡ some (answer ++ announced (drop (length done) s.logareaptr), s)
unfolding publish announced
publish_again zero done xs answer s hx hp h =
    let e = drop_all (length done) s.logareaptr (omega arith) in rw e (rw (append-nil answer) refl)
publish_again (suc n) done [] answer s hx hp h = absurd (omega arith)
publish_again (suc n) done (x ∷ xs) answer s hx hp h =
    let i = length done in
    let lx = length-append done (x ∷ xs) in
    let (p, gp, sp) = ShowAll-page 0 (done ++ (x ∷ xs)) s.logarea i h (omega arith) in
    let (a, ga, da) = drop-get s.logareaptr i n hp in
    let more : List ℕ = answer ++ (to_le 8 a ++ to_le 8 page_size) in
    let e : length (done ++ (x ∷ [])) ≡ suc i = omega (arith, length-append done (x ∷ [])) in
    let same = set_same s.logarea i p gp in
    let h' = subst (λ l. ShowAll 0 l s.logarea) (sym (append_assoc done (x ∷ []) xs)) h in
    let eq = publish_again n (done ++ (x ∷ [])) xs more s (omega arith) (omega arith) h' in
    let f : publish n (suc i) false more s
        ≡ some (more ++ announced (drop (suc i) s.logareaptr), s) =
      subst (λ m. publish n m false more s ≡ some (more ++ announced (drop m s.logareaptr), s)) e
        eq in
    rw gp (
      rw ga (
        rw same (
          rw da (
            rw
              (sym (
                append_assoc answer (to_le 8 a ++ to_le 8 page_size)
                  (announced (drop (suc i) s.logareaptr))))
              f))))
