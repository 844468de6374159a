-- ===== src/CList/Grow.antt =====
-- Appending and prepending to a ring.
use tinu.Prelude.{
  ℕ, ◌≡◌, refl, ◌≢◌, true, false, Option, some, [], ◌∷◌, ◌++◌, arith, sym, subst, ok,
}
use tinu.CList.{clist_append, clist_prepend}
use tinu.CList.Heap.{
  Ptr, null, Node, node, Store, write, put, load, set_next, set_prev, allocate, and_then, pure,
}
use tinu.CList.Ring.{
  Cells, first, last, has, Apart, Chain, IsRing, has-append, first-append, last-append,
  Chain-append, Chain-split, Chain-frame, snoc_view, load_head, Apart-snoc, rotate,
}

-- The store after a node has been put behind the only node `p`.
after_one : Store → Ptr → ℕ → Ptr → ℕ → Store
after_one s fresh v p w = put p (some (node w fresh fresh)) (
    put p (some (node w fresh p)) (
      put fresh (some (node v p p))
        (put fresh (some (node v p null)) (put fresh (some (node v null null)) s))))

append_one :
    (s : Store) (fresh v : ℕ) (p w : ℕ)
    → fresh ≢ null
    → p ≢ null
    → fresh ≢ p
    → s.cell p ≡ some (node w p p)
    → clist_append fresh p v s ≡ ok (p, after_one s fresh v p w)
unfolding clist_append allocate after_one load set_next set_prev write
append_one s fresh v p w f n d at = ground arith

-- The store after a node has been put between the last node `q` and the first node `p`.
after_many : Store → Ptr → ℕ → Node → Ptr → Node → Ptr → Store
after_many s fresh v np p nq q = put p (some (record np { prev = fresh })) (
    put q (some (record nq { next = fresh })) (
      put fresh (some (node v p q))
        (put fresh (some (node v p null)) (put fresh (some (node v null null)) s))))

append_many :
    (s : Store) (fresh v p q : ℕ) (np nq : Node)
    → fresh ≢ null
    → p ≢ null
    → q ≢ null
    → fresh ≢ p
    → fresh ≢ q
    → p ≢ q
    → s.cell p ≡ some np
    → np.prev ≡ q
    → s.cell q ≡ some nq
    → clist_append fresh p v s ≡ ok (p, after_many s fresh v np p nq q)
unfolding clist_append allocate after_many load set_next set_prev write
append_many s fresh v p q np nq f n m d d' d'' at back at' = ground arith

-- The store `s'` holds the ring of `xs` and a new last node, and is `s` everywhere else.
pub record Appended (s s' : Store) (xs : Cells) (fresh v : ℕ) : Type 0 where
  pub ring : IsRing s'.cell (xs ++ (fresh, v) ∷ [])
  pub same : (a : Ptr) → has a (xs ++ (fresh, v) ∷ []) ≡ false → s'.cell a ≡ s.cell a
  pub calls : s'.destroyed ≡ s.destroyed

pub Apart-out : (ys : Cells) (q u : ℕ) → Apart (ys ++ (q, u) ∷ []) → has q ys ≡ false
Apart-out [] q u a = refl
Apart-out ((p, w) ∷ ys) q u a = ground (arith, has-append p ys ((q, u) ∷ []), Apart-out ys q u a.1)

-- The circle that the new links make.
after_many-linked :
    (c d : Ptr → Option Node) (fresh v p w : ℕ) (ys : Cells) (q u : ℕ)
    → fresh ≢ null
    → Chain c q ((p, w) ∷ ys ++ (q, u) ∷ []) p
    → ((a : Ptr) → has a ys ≡ true → d a ≡ c a)
    → d p ≡ some (node w (first (ys ++ (q, u) ∷ []) p) fresh)
    → d q ≡ some (node u fresh (last ys p))
    → d fresh ≡ some (node v p q)
    → Chain d fresh (((p, w) ∷ ys ++ (q, u) ∷ []) ++ (fresh, v) ∷ []) p
after_many-linked c d fresh v p w ys q u f h same at_p at_q at_f =
    let (mid, back) = Chain-split c ys ((q, u) ∷ []) p p h.2 in
    let inner : Chain d p (ys ++ (q, u) ∷ []) fresh =
      Chain-append d ys ((q, u) ∷ []) p fresh (Chain-frame c d ys p q same mid)
        (back.0, at_q, tt) in
    let end : d fresh ≡ some (node v p (last (ys ++ (q, u) ∷ []) p)) =
      rw (last-append ys ((q, u) ∷ []) p) at_f in
    let head : first ((ys ++ (q, u) ∷ []) ++ (fresh, v) ∷ []) p ≡ first (ys ++ (q, u) ∷ []) p = rw (
      first-append (ys ++ (q, u) ∷ []) ((fresh, v) ∷ []) p,
      first-append ys ((q, u) ∷ []) fresh,
      first-append ys ((q, u) ∷ []) p,
    ) in
    (h.0, rw head at_p, Chain-append d (ys ++ (q, u) ∷ []) ((fresh, v) ∷ []) p p inner (f, end, tt))

after_many-ring :
    (s : Store) (fresh v p w : ℕ) (ys : Cells) (q u : ℕ)
    → fresh ≢ null
    → has fresh ((p, w) ∷ ys ++ (q, u) ∷ []) ≡ false
    → IsRing s.cell ((p, w) ∷ ys ++ (q, u) ∷ [])
    → (s' : Store) × (clist_append fresh p v s ≡ ok (p, s'))
      × Appended s s' ((p, w) ∷ ys ++ (q, u) ∷ []) fresh v
unfolding after_many write
after_many-ring s fresh v p w ys q u f out ring =
    let end : last (ys ++ (q, u) ∷ []) p ≡ q = last-append ys ((q, u) ∷ []) p in
    let linked : Chain s.cell q ((p, w) ∷ ys ++ (q, u) ∷ []) p = rw end at ring.linked in
    let (mid, back) = Chain-split s.cell ys ((q, u) ∷ []) p p linked.2 in
    let np = node w (first (ys ++ (q, u) ∷ []) p) q in
    let nq = node u p (last ys p) in
    let fresh_out = has-append fresh ys ((q, u) ∷ []) in
    let p_out = has-append p ys ((q, u) ∷ []) in
    let q_out = Apart-out ys q u ring.apart.1 in
    let s' = after_many s fresh v np p nq q in
    (
      s',
      append_many s fresh v p q np nq f linked.0 back.0 (ground arith) (ground arith) (ground arith)
          linked.1 refl back.1,
      record {
        ring = record {
          linked = rw (last-append (ys ++ (q, u) ∷ []) ((fresh, v) ∷ []) p) (
              after_many-linked s.cell s'.cell fresh v p w ys q u f linked (λ a m. ground arith)
                (ground arith) (ground arith) (ground arith));
          apart = Apart-snoc ((p, w) ∷ ys ++ (q, u) ∷ []) fresh v ring.apart out;
        };
        same = λ a o. ground (
          arith,
          has-append a (ys ++ (q, u) ∷ []) ((fresh, v) ∷ []),
          has-append a ys ((q, u) ∷ []),
        );
        calls = refl;
      },
    )

-- `clist_append` on a ring puts the new node behind the last one: the head stays (or is the new
-- node if the list was empty), the nodes with the new one form a ring again, no callback is made
-- and no other address changes. `fresh` is an address that no node of the ring has.
pub clist_append-ring :
    (s : Store) (fresh v : ℕ) (xs : Cells)
    → fresh ≢ null
    → has fresh xs ≡ false
    → IsRing s.cell xs
    → (s' : Store) × (clist_append fresh (first xs null) v s
        ≡ ok (first (xs ++ (fresh, v) ∷ []) null, s'))
      × Appended s s' xs fresh v
unfolding after_one clist_append allocate load set_next set_prev write
clist_append-ring s fresh v [] f out ring = (
  put fresh (some (node v fresh fresh))
      (put fresh (some (node v fresh null)) (put fresh (some (node v null null)) s)),
  ground arith,
  record {
    ring = record { linked = (f, ground arith, tt); apart = (refl, tt) };
    same = λ a o. ground arith;
    calls = refl;
  },
)
clist_append-ring s fresh v ((p, w) ∷ []) f out ring = (
  after_one s fresh v p w,
  append_one s fresh v p w f ring.linked.0 (ground arith) ring.linked.1,
  record {
    ring = record {
      linked = (ring.linked.0, ground arith, (f, ground arith, tt));
      apart = (ground arith, (refl, tt));
    };
    same = λ a o. ground arith;
    calls = refl;
  },
)
clist_append-ring s fresh v ((p, w) ∷ (r, u) ∷ xs) f out ring =
    let (ys, q, t, e) = snoc_view r u xs in
    subst
      (λ zs.
        has fresh ((p, w) ∷ zs) ≡ false
        → IsRing s.cell ((p, w) ∷ zs)
        → (s' : Store) × (clist_append fresh p v s ≡ ok (p, s'))
          × Appended s s' ((p, w) ∷ zs) fresh v)
      (sym e) (after_many-ring s fresh v p w ys q t f) out ring

load_prev :
    (s : Store) (fresh v : ℕ) (xs : Cells)
    → IsRing s.cell (xs ++ (fresh, v) ∷ [])
    → and_then (load (first (xs ++ (fresh, v) ∷ []) null) s) (λ n. pure n.prev) ≡ ok (fresh, s)
load_prev s fresh v [] ring = rw (load_head s fresh v [] ring)
load_prev s fresh v ((p, w) ∷ xs) ring =
    rw (load_head s p w (xs ++ (fresh, v) ∷ []) ring, last-append xs ((fresh, v) ∷ []) p)

-- `clist_prepend` makes the same ring and returns the new node as its head, so that the list
-- reads as the new data followed by the old.
pub clist_prepend-IsRing :
    (s : Store) (fresh v : ℕ) (xs : Cells)
    → fresh ≢ null
    → has fresh xs ≡ false
    → IsRing s.cell xs
    → (s' : Store) × (clist_prepend fresh (first xs null) v s ≡ ok (fresh, s'))
      × IsRing s'.cell ((fresh, v) ∷ xs)
unfolding clist_prepend
clist_prepend-IsRing s fresh v xs f out ring =
    let (s', run, done) = clist_append-ring s fresh v xs f out ring in
    (s', rw run (load_prev s' fresh v xs done.ring), rotate s'.cell xs ((fresh, v) ∷ []) done.ring)
