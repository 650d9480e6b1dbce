-- ===== src/Sched/Chain.antt =====
-- Linked lists of ready threads in the store, and how writes act on them.
use m.Prelude.{ℕ, ◌≡◌, ◌≢◌, refl, sym, ◌∙◌, ap, subst, List, [], ◌∷◌, ◌++◌, arith}
use native.Mathlib.Decide.{ℕ_discrete}
use m.Sched.Types.{thread_magic, ready, Thread, Threads, write}

pub write_self : (t : Threads) (p : ℕ) (v : Thread) → write t p v p ≡ v
unfolding write
write_self t p v = ground arith

pub write_ne : (t : Threads) (p q : ℕ) (v : Thread) → q ≢ p → write t p v q ≡ t q
unfolding write
write_ne t p q v h = ground arith

-- A write that keeps a field keeps it everywhere.
pub write_keeps :
    {A : Type 0} (f : Thread → A) (t : Threads) (q p : ℕ) (v : Thread)
    → f v ≡ f (t q)
    → f (write t q v p) ≡ f (t p)
write_keeps f t q p v h = elim (ℕ_discrete p q) [
  | yes e ↦ ap (λ k. f (write t q v k)) e ∙ ap f (write_self t q v) ∙ h ∙ ap (λ k. f (t k)) (sym e)
  | no ne ↦ ap f (write_ne t q p v ne)
]

abbrev pub NotIn : ℕ → List ℕ → Type 0
NotIn p [] = Unit {0}
NotIn p (x ∷ xs) = (p ≢ x) × NotIn p xs

abbrev pub Distinct : List ℕ → Type 0
Distinct [] = Unit {0}
Distinct (x ∷ xs) = NotIn x xs × Distinct xs

-- what the queue asks of a thread in it
pub record IsReadyThread (p : ℕ) (t : Thread) : Type 0 where
  pub non_null : p ≢ 0
  pub magic : t.magic ≡ thread_magic
  pub state : t.state ≡ ready

-- From `p` the `next` fields lead through the ready threads `xs` to null.
abbrev pub Chain : Threads → ℕ → List ℕ → Type 0
Chain t p [] = p ≡ 0
Chain t p (x ∷ xs) = (p ≡ x) × IsReadyThread x (t x) × Chain t (t x).next xs

abbrev pub last_or : ℕ → List ℕ → ℕ
last_or d [] = d
last_or d (x ∷ xs) = last_or x xs

pub NotIn-last_or : (p x : ℕ) (xs : List ℕ) → NotIn p (x ∷ xs) → p ≢ last_or x xs
NotIn-last_or p x [] h = h.0
NotIn-last_or p x (y ∷ ys) h = NotIn-last_or p y ys h.1

pub NotIn-append : (p q : ℕ) (xs : List ℕ) → NotIn p xs → p ≢ q → NotIn p (xs ++ (q ∷ []))
NotIn-append p q [] h ne = (ne, tt)
NotIn-append p q (x ∷ xs) h ne = (h.0, NotIn-append p q xs h.1 ne)

pub Distinct-append : (q : ℕ) (xs : List ℕ) → Distinct xs → NotIn q xs → Distinct (xs ++ (q ∷ []))
Distinct-append q [] d h = (tt, tt)
Distinct-append q (x ∷ xs) d h =
    (NotIn-append x q xs d.0 (λ e. h.0 (sym e)), Distinct-append q xs d.1 h.1)

pub last_or-append : (d q : ℕ) (xs : List ℕ) → last_or d (xs ++ (q ∷ [])) ≡ q
last_or-append d q [] = refl
last_or-append d q (x ∷ xs) = last_or-append x q xs

-- a list whose first thread reads `u`
pub Chain-at :
    (t : Threads) (p x : ℕ) (u : Thread) (xs : List ℕ)
    → p ≡ x
    → t x ≡ u
    → IsReadyThread x u
    → Chain t u.next xs
    → Chain t p (x ∷ xs)
Chain-at t p x u xs hp ht v c = rw ht (hp, v, c)

-- A write to a thread outside the list leaves it.
pub Chain-write_out :
    (t : Threads) (q : ℕ) (v : Thread) (p : ℕ) (xs : List ℕ)
    → NotIn q xs
    → Chain t p xs
    → Chain (write t q v) p xs
Chain-write_out t q v p [] out c = c
Chain-write_out t q v p (x ∷ xs) out c =
    rw (write_ne t q x v (λ e. out.0 (sym e)))
      (c.0, c.1, Chain-write_out t q v (t x).next xs out.1 c.2)

-- A write that keeps the magic, the state and the link leaves every list.
pub Chain-write_same :
    (t : Threads) (q : ℕ) (v : Thread) (p : ℕ) (xs : List ℕ)
    → v.magic ≡ (t q).magic
    → v.state ≡ (t q).state
    → v.next ≡ (t q).next
    → Chain t p xs
    → Chain (write t q v) p xs
Chain-write_same t q v p [] hm hs hn c = c
Chain-write_same t q v p (x ∷ xs) hm hs hn c =
    let rest : Chain (write t q v) (t x).next xs =
      Chain-write_same t q v (t x).next xs hm hs hn c.2 in
    elim (ℕ_discrete x q) [
      | no ne ↦ Chain-at (write t q v) p x (t x) xs c.0 (write_ne t q x v ne) c.1 rest
      | yes e ↦
          let old : t q ≡ t x = ap t (sym e) in
          Chain-at (write t q v) p x v xs c.0 (ap (write t q v) e ∙ write_self t q v)
            (record {
              non_null = c.1.non_null;
              magic = hm ∙ ap (λ (k : Thread). k.magic) old ∙ c.1.magic;
              state = hs ∙ ap (λ (k : Thread). k.state) old ∙ c.1.state;
            })
            (subst (λ k. Chain (write t q v) k xs) (sym (hn ∙ ap (λ (k : Thread). k.next) old))
              rest)
    ]

abbrev pub link_at : Threads → ℕ → ℕ → Threads
link_at t l q = write t l (record (t l) { next = q })

-- Linking a ready thread that ends its list behind the last thread.
pub Chain-link :
    (t : Threads) (q p x : ℕ) (xs : List ℕ)
    → Chain t p (x ∷ xs)
    → Distinct (x ∷ xs)
    → NotIn q (x ∷ xs)
    → IsReadyThread q (t q)
    → (t q).next ≡ 0
    → Chain (link_at t (last_or x xs) q) p ((x ∷ xs) ++ (q ∷ []))
Chain-link t q p x [] c d out v hn =
    let linked : Thread = record (t x) { next = q } in
    Chain-at (link_at t x q) p x linked (q ∷ []) c.0 (write_self t x linked)
      (record { non_null = c.1.non_null; magic = c.1.magic; state = c.1.state })
      (Chain-at (link_at t x q) q q (t q) [] refl (write_ne t x q linked out.0) v hn)
Chain-link t q p x (y ∷ ys) c d out v hn =
    let l = last_or y ys in
    Chain-at (link_at t l q) p x (t x) (y ∷ ys ++ (q ∷ [])) c.0
      (write_ne t l x (record (t l) { next = q }) (NotIn-last_or x y ys d.0)) c.1
      (Chain-link t q (t x).next y ys c.2 d.1 out.1 v hn)

pub Chain-last_or : (t : Threads) (p x : ℕ) (xs : List ℕ) → Chain t p (x ∷ xs) → last_or x xs ≢ 0
Chain-last_or t p x [] c = c.1.non_null
Chain-last_or t p x (y ∷ ys) c = Chain-last_or t (t x).next y ys c.2
