-- ===== src/CList/Ring.antt =====
-- What a circular list stands for: its nodes in order from the head, linked both ways.
use tinu.Prelude.{
  ℕ, ◌≡◌, refl, ◌≢◌, Bool, true, false, ◌||◌, Option, none, some, List, [], ◌∷◌, ◌++◌, ◌==◌, arith,
  ap, ◌∙◌, ok,
}
use mathlib.Core.List.{append_assoc, append-nil}
use tinu.CList.Heap.{Ptr, null, Node, node, Store, write, put, load, set_next, set_prev, release}

-- Address and data of each node.
abbrev pub Cells : Type 0
Cells = List (Ptr × ℕ)

-- The address of the first node, or `a` if there is none.
abbrev pub first : Cells → Ptr → Ptr
first [] a = a
first ((p, _) ∷ xs) a = p

-- The address of the last node, or `b` if there is none.
abbrev pub last : Cells → Ptr → Ptr
last [] b = b
last ((p, _) ∷ xs) b = last xs p

abbrev pub has : Ptr → Cells → Bool
has a [] = false
has a ((p, _) ∷ xs) = (a == p) || has a xs

-- The addresses differ.
abbrev pub Apart : Cells → Type 0
Apart [] = Unit {0}
Apart ((p, _) ∷ xs) = (has p xs ≡ false) × Apart xs

-- The nodes `xs` are linked both ways, the first one back to `b` and the last one on to `a`.
abbrev pub Chain : (Ptr → Option Node) → Ptr → Cells → Ptr → Type 0
Chain c b [] a = Unit {0}
Chain c b ((p, v) ∷ xs) a = (p ≢ null) × (c p ≡ some (node v (first xs a) b)) × Chain c p xs a

-- The nodes `xs` form a circle; without one the head is `NULL`.
pub record IsRing (c : Ptr → Option Node) (xs : Cells) : Type 0 where
  pub linked : Chain c (last xs null) xs (first xs null)
  pub apart : Apart xs

pub has-append : (a : Ptr) (xs ys : Cells) → has a (xs ++ ys) ≡ (has a xs || has a ys)
has-append a [] ys = refl
has-append a ((p, _) ∷ xs) ys = ground (arith, has-append a xs ys)

pub first-append : (xs ys : Cells) (a : Ptr) → first (xs ++ ys) a ≡ first xs (first ys a)
first-append [] ys a = refl
first-append ((p, _) ∷ xs) ys a = refl

pub last-append : (xs ys : Cells) (b : Ptr) → last (xs ++ ys) b ≡ last ys (last xs b)
last-append [] ys b = refl
last-append ((p, _) ∷ xs) ys b = last-append xs ys p

pub Chain-append :
    (c : Ptr → Option Node) (xs ys : Cells) (b a : Ptr)
    → Chain c b xs (first ys a)
    → Chain c (last xs b) ys a
    → Chain c b (xs ++ ys) a
Chain-append c [] ys b a h k = k
Chain-append c ((p, v) ∷ xs) ys b a h k =
    (h.0, rw (first-append xs ys a) (h.1), Chain-append c xs ys p a h.2 k)

pub Chain-split :
    (c : Ptr → Option Node) (xs ys : Cells) (b a : Ptr)
    → Chain c b (xs ++ ys) a
    → Chain c b xs (first ys a) × Chain c (last xs b) ys a
Chain-split c [] ys b a h = (tt, h)
Chain-split c ((p, v) ∷ xs) ys b a h =
    let (front, back) = Chain-split c xs ys p a h.2 in
    ((h.0, rw (← first-append xs ys a) (h.1), front), back)

-- A chain survives any change that spares its own addresses.
pub Chain-frame :
    (c d : Ptr → Option Node) (xs : Cells) (b a : Ptr)
    → ((p : Ptr) → has p xs ≡ true → d p ≡ c p)
    → Chain c b xs a
    → Chain d b xs a
Chain-frame c d [] b a same h = tt
Chain-frame c d ((p, v) ∷ xs) b a same h =
    (h.0, same p (ground arith) ∙ h.1, Chain-frame c d xs p a (λ q m. same q (ground arith)) h.2)

pub Chain-write :
    (c : Ptr → Option Node) (q : Ptr) (n : Option Node) (xs : Cells) (b a : Ptr)
    → has q xs ≡ false
    → Chain c b xs a
    → Chain (write c q n) b xs a
unfolding write
Chain-write c q n xs b a out h = Chain-frame c (write c q n) xs b a (λ p m. ground arith) h

pub Apart-snoc : (xs : Cells) (p v : ℕ) → Apart xs → has p xs ≡ false → Apart (xs ++ (p, v) ∷ [])
Apart-snoc [] p v a out = (refl, tt)
Apart-snoc ((q, w) ∷ xs) p v a out =
    (rw (has-append q xs ((p, v) ∷ [])) (ground arith), Apart-snoc xs p v a.1 (ground arith))

rotate_one :
    (c : Ptr → Option Node) (p v : ℕ) (xs : Cells)
    → IsRing c ((p, v) ∷ xs)
    → IsRing c (xs ++ (p, v) ∷ [])
rotate_one c p v [] ring = ring
rotate_one c p v ((r, u) ∷ xs) ring = record {
  linked = rw (last-append xs ((p, v) ∷ []) r) (
      Chain-append c ((r, u) ∷ xs) ((p, v) ∷ []) p r ring.linked.2
        (ring.linked.0, ring.linked.1, tt));
  apart = Apart-snoc ((r, u) ∷ xs) p v ring.apart.1 ring.apart.0;
}

-- Every node of a ring is a head of it.
pub rotate : (c : Ptr → Option Node) (xs ys : Cells) → IsRing c (xs ++ ys) → IsRing c (ys ++ xs)
rotate c [] ys ring = rw append-nil ring
rotate c ((p, v) ∷ xs) ys ring =
    rw (← append_assoc ys ((p, v) ∷ []) xs)
      (rotate c xs (ys ++ (p, v) ∷ []) (rw append_assoc at (rotate_one c p v (xs ++ ys) ring)))

-- Every list but the empty one has a last node.
pub snoc_view :
    (p : Ptr) (v : ℕ) (xs : Cells)
    → (ys : Cells) × (q : Ptr) × (w : ℕ) × ((p, v) ∷ xs ≡ ys ++ (q, w) ∷ [])
snoc_view p v [] = ([], p, v, refl)
snoc_view p v ((r, u) ∷ xs) =
    let (ys, q, w, e) = snoc_view r u xs in ((p, v) ∷ ys, q, w, ap (◌∷◌ (p, v)) e)

module _ (s : Store) (p : Ptr) {n : Node} (valid : p ≢ null) (at : s.cell p ≡ some n) where
  pub load-ok : load p s ≡ ok (n, s)
  unfolding load
  load-ok = ground arith

  pub set_next-ok : (q : Ptr) → set_next p q s ≡ ok (tt, put p (some (record n { next = q })) s)
  unfolding set_next
  set_next-ok q = rw load-ok

  pub set_prev-ok : (q : Ptr) → set_prev p q s ≡ ok (tt, put p (some (record n { prev = q })) s)
  unfolding set_prev
  set_prev-ok q = rw load-ok

  pub release-ok : release p s ≡ ok (tt, put p none s)
  unfolding release
  release-ok = rw load-ok

pub write_self : (c : Ptr → Option Node) (p : Ptr) (n : Option Node) → write c p n p ≡ n
unfolding write
write_self c p n = ground arith

pub write_ne : (c : Ptr → Option Node) (p q : Ptr) (n : Option Node) → q ≢ p → write c p n q ≡ c q
unfolding write
write_ne c p q n h = ground arith

-- The head of a ring points to the last node.
pub load_head :
    (s : Store) (p v : ℕ) (xs : Cells)
    → IsRing s.cell ((p, v) ∷ xs)
    → load p s ≡ ok (node v (first xs p) (last xs p), s)
load_head s p v xs ring = load-ok s p ring.linked.0 ring.linked.1
