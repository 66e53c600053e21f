-- ===== src/Sched/Queue.antt =====
-- What a run queue stands for: the list of its nodes, first to be popped first.
use tpa.Base.{ℕ, ◌≡◌, ◌≢◌, refl, true, false, List, [], ◌∷◌, ◌++◌, arith, elem, elem-append, last}
use tpa.State.{null, SchedNode, World}

-- From `p` the `next` pointers lead through the nodes of the list and then to null.
abbrev pub Chain : (ℕ → SchedNode) → ℕ → List ℕ → Type 0
Chain f p [] = p ≡ null
Chain f p (n ∷ ns) = (p ≡ n) × (n ≢ null) × Chain f (f n).next ns

abbrev pub Distinct : List ℕ → Type 0
Distinct [] = Unit
Distinct (n ∷ ns) = (elem n ns ≡ false) × Distinct ns

pub record IsQueue (w : World) (h : ℕ) (ns : List ℕ) : Type 0 where
  pub chain : Chain w.nodes (w.runq h).head ns
  pub tail : (w.runq h).tail ≡ last ns
  pub distinct : Distinct ns
  pub free : (w.runq h).lock ≡ 0

pub elem-last : (x : ℕ) (xs : List ℕ) → elem (last (x ∷ xs)) (x ∷ xs) ≡ true
elem-last x [] = ground arith
elem-last x (y ∷ ys) = ground (arith, elem-last y ys)

pub last-append : (xs : List ℕ) (n : ℕ) → last (xs ++ n ∷ []) ≡ n
last-append [] n = refl
last-append (x ∷ []) n = refl
last-append (x ∷ y ∷ ys) n = last-append (y ∷ ys) n

pub Distinct-append :
    (xs : List ℕ) (n : ℕ) → Distinct xs → elem n xs ≡ false → Distinct (xs ++ n ∷ [])
Distinct-append [] n d e = ground arith
Distinct-append (x ∷ xs) n d e =
    (ground (arith, elem-append x xs (n ∷ [])), Distinct-append xs n d.1 (ground arith))

-- A chain sees nothing of the table but the `next` fields of its own nodes.
pub Chain-frame :
    (f g : ℕ → SchedNode) (p : ℕ) (ns : List ℕ)
    → ((a : ℕ) → elem a ns ≡ true → (g a).next ≡ (f a).next)
    → Chain f p ns
    → Chain g p ns
Chain-frame f g p [] same c = c
Chain-frame f g p (n ∷ ns) same c =
    let e : (g n).next ≡ (f n).next = same n (ground arith) in
    let rest = Chain-frame f g (f n).next ns (λ a i. same a (ground arith)) c.2 in
    (c.0, c.1, rw e rest)

pub Chain-append :
    (f g : ℕ → SchedNode) (p n m : ℕ) (ms : List ℕ)
    → Chain f p (m ∷ ms)
    → Distinct (m ∷ ms)
    → n ≢ null
    → elem n (m ∷ ms) ≡ false
    → (g n).next ≡ null
    → (g (last (m ∷ ms))).next ≡ n
    → ((a : ℕ) → a ≢ n → a ≢ last (m ∷ ms) → (g a).next ≡ (f a).next)
    → Chain g p (m ∷ ms ++ n ∷ [])
Chain-append f g p n m [] c d ne out end link same = (c.0, c.1, (link, ne, end))
Chain-append f g p n m (x ∷ xs) c d ne out end link same =
    let off : m ≢ last (x ∷ xs) = λ q. ground (arith, elem-last x xs) in
    let e : (g m).next ≡ (f m).next = same m (ground arith) off in
    let rest = Chain-append f g (f m).next n x xs c.2 d.1 ne (ground arith) end link same in
    (c.0, c.1, rw e rest)
