-- ===== src/CList/Shrink.antt =====
-- Removing the head of a ring, and what `clist_destroy` frees.
use tinu.Prelude.{
  ℕ, suc, ◌≡◌, refl, ◌≢◌, Bool, true, false, Option, none, some, List, [], ◌∷◌, ◌++◌, arith, ap,
  sym, subst, ◌∙◌, ok, if◌then◌else◌,
}
use tinu.CList.{clist_remove, destroy_loop, clist_destroy}
use tinu.CList.Heap.{
  Ptr, null, Node, node, Store, write, load, set_next, set_prev, release, call_destroy,
}
use tinu.CList.Ring.{
  Cells, first, last, has, Chain, IsRing, has-append, first-append, last-append, Chain-append,
  Chain-split, Chain-frame, snoc_view, write_ne,
}
use tinu.CList.Grow.{Apart-out}

-- The calls of the destroy callback with one more.
abbrev pub called : Bool → ℕ → List ℕ → List ℕ
called has_destroy v calls = if has_destroy then v ∷ calls else calls

-- Removing a node whose neighbours are `n` and `q`.
remove_inner :
    (s : Store) (p v n q : ℕ) (nn nq : Node) (has_destroy : Bool)
    → p ≢ null
    → n ≢ null
    → q ≢ null
    → n ≢ p
    → q ≢ p
    → n ≢ q
    → s.cell p ≡ some (node v n q)
    → s.cell n ≡ some nn
    → s.cell q ≡ some nq
    → clist_remove p has_destroy s
      ≡ ok (
        n,
        record {
          cell =
              write
                (write
                  (write s.cell n (some (record nn { prev = q })))
                  q
                  (some (record nq { next = n })))
                p
                none;
          destroyed = called has_destroy v s.destroyed;
        },
      )
unfolding clist_remove load set_next set_prev write release call_destroy
remove_inner s p v n q nn nq has_destroy a b c d e f at at' at'' = ground arith

-- Removing a node with one neighbour.
remove_pair :
    (s : Store) (p v n u : ℕ) (has_destroy : Bool)
    → p ≢ null
    → n ≢ null
    → n ≢ p
    → s.cell p ≡ some (node v n n)
    → s.cell n ≡ some (node u p p)
    → clist_remove p has_destroy s
      ≡ ok (
        n,
        record {
          cell = write (write (write s.cell n (some (node u p n))) n (some (node u n n))) p none;
          destroyed = called has_destroy v s.destroyed;
        },
      )
unfolding clist_remove load set_next set_prev write release call_destroy
remove_pair s p v n u has_destroy a b d at at' = ground arith

remove_only :
    (s : Store) (p v : ℕ) (has_destroy : Bool)
    → p ≢ null
    → s.cell p ≡ some (node v p p)
    → clist_remove p has_destroy s
      ≡ ok (
        null,
        record { cell = write s.cell p none; destroyed = called has_destroy v s.destroyed },
      )
unfolding clist_remove load set_next set_prev write release call_destroy
remove_only s p v has_destroy a at = ground arith

-- The store `s'` is `s` without the node `p`, and the others form a ring.
pub record Removed (s s' : Store) (p v : ℕ) (xs : Cells) (has_destroy : Bool) : Type 0 where
  pub ring : IsRing s'.cell xs
  pub freed : s'.cell p ≡ none
  pub same : (a : Ptr) → has a ((p, v) ∷ xs) ≡ false → s'.cell a ≡ s.cell a
  pub calls : s'.destroyed ≡ called has_destroy v s.destroyed

remove_inner-linked :
    (c d : Ptr → Option Node) (p v n u : ℕ) (ys : Cells) (q t : ℕ)
    → Chain c q ((p, v) ∷ (n, u) ∷ ys ++ (q, t) ∷ []) p
    → ((a : Ptr) → has a ys ≡ true → d a ≡ c a)
    → d n ≡ some (node u (first (ys ++ (q, t) ∷ []) p) q)
    → d q ≡ some (node t n (last ys n))
    → Chain d q ((n, u) ∷ ys ++ (q, t) ∷ []) n
remove_inner-linked c d p v n u ys q t h same at_n at_q =
    let (mid, back) = Chain-split c ys ((q, t) ∷ []) n p h.2.2 in
    let head : first (ys ++ (q, t) ∷ []) n ≡ first (ys ++ (q, t) ∷ []) p =
      rw (first-append ys ((q, t) ∷ []) n, first-append ys ((q, t) ∷ []) p) in
    (
      h.2.0,
      rw head at_n,
      Chain-append d ys ((q, t) ∷ []) n n (Chain-frame c d ys n q same mid) (back.0, at_q, tt),
    )

remove_inner-ring :
    (s : Store) (p v n u : ℕ) (ys : Cells) (q t : ℕ) (has_destroy : Bool)
    → IsRing s.cell ((p, v) ∷ (n, u) ∷ ys ++ (q, t) ∷ [])
    → (s' : Store) × (clist_remove p has_destroy s ≡ ok (n, s'))
      × Removed s s' p v ((n, u) ∷ ys ++ (q, t) ∷ []) has_destroy
unfolding write
remove_inner-ring s p v n u ys q t has_destroy ring =
    let end : last (ys ++ (q, t) ∷ []) n ≡ q = last-append ys ((q, t) ∷ []) n in
    let linked : Chain s.cell q ((p, v) ∷ (n, u) ∷ ys ++ (q, t) ∷ []) p = rw end at ring.linked in
    let (mid, back) = Chain-split s.cell ys ((q, t) ∷ []) n p linked.2.2 in
    let nn = node u (first (ys ++ (q, t) ∷ []) p) p in
    let nq = node t p (last ys n) in
    let p_out = has-append p ys ((q, t) ∷ []) in
    let n_out = has-append n ys ((q, t) ∷ []) in
    let q_out = Apart-out ys q t ring.apart.1.1 in
    (
      _,
      remove_inner s p v n q nn nq has_destroy linked.0 linked.2.0 back.0 (ground arith)
          (ground arith) (ground arith) linked.1 linked.2.1 back.1,
      record {
        ring = record {
          linked = rw end (
              remove_inner-linked s.cell _ p v n u ys q t linked (λ a m. ground arith)
                (ground arith) (ground arith));
          apart = ring.apart.1;
        };
        freed = ground arith;
        same = λ a o. ground (arith, has-append a ys ((q, t) ∷ []));
        calls = refl;
      },
    )

-- `clist_remove` takes the head out of a ring and frees it: the result is the node behind it,
-- `NULL` if there is none, the other nodes form a ring from there, the callback, if there is
-- one, is called once, with the data of the node, and no address outside the ring changes.
pub clist_remove-ring :
    (s : Store) (p v : ℕ) (xs : Cells) (has_destroy : Bool)
    → IsRing s.cell ((p, v) ∷ xs)
    → (s' : Store) × (clist_remove p has_destroy s ≡ ok (first xs null, s'))
      × Removed s s' p v xs has_destroy
unfolding write
clist_remove-ring s p v [] has_destroy ring = (
  _,
  remove_only s p v has_destroy ring.linked.0 ring.linked.1,
  record {
    ring = record { linked = tt; apart = tt };
    freed = ground arith;
    same = λ a o. ground arith;
    calls = refl;
  },
)
clist_remove-ring s p v ((n, u) ∷ []) has_destroy ring = (
  _,
  remove_pair s p v n u has_destroy ring.linked.0 ring.linked.2.0 (ground arith) ring.linked.1
      ring.linked.2.1,
  record {
    ring = record { linked = (ring.linked.2.0, ground arith, tt); apart = (refl, tt) };
    freed = ground arith;
    same = λ a o. ground arith;
    calls = refl;
  },
)
clist_remove-ring s p v ((n, u) ∷ (r, w) ∷ xs) has_destroy ring =
    let (ys, q, t, e) = snoc_view r w xs in
    subst
      (λ zs.
        IsRing s.cell ((p, v) ∷ (n, u) ∷ zs)
        → (s' : Store) × (clist_remove p has_destroy s ≡ ok (n, s'))
          × Removed s s' p v ((n, u) ∷ zs) has_destroy)
      (sym e) (remove_inner-ring s p v n u ys q t has_destroy) ring

Chain-allocated :
    (c : Ptr → Option Node) (xs : Cells) (b a q : Ptr)
    → Chain c b xs a
    → has q xs ≡ true
    → c q ≢ none
Chain-allocated c [] b a q h m = cc
Chain-allocated c ((p, v) ∷ xs) b a q h m = ground (arith, h.1, Chain-allocated c xs p a q h.2)

-- `clist_destroy` frees the head of a ring and calls the callback for it alone: every other node
-- stays allocated, as it was.
pub clist_destroy_leaks :
    (s : Store) (fuel p v : ℕ) (xs : Cells) (has_destroy : Bool)
    → IsRing s.cell ((p, v) ∷ xs)
    → (s' : Store) × (clist_destroy (suc fuel) p has_destroy s ≡ ok (tt, s'))
      × (s'.destroyed ≡ called has_destroy v s.destroyed)
      × (s'.cell p ≡ none)
      × ((a : Ptr) → has a xs ≡ true → (s'.cell a ≡ s.cell a) × (s'.cell a ≢ none))
unfolding clist_destroy destroy_loop load release call_destroy write
clist_destroy_leaks s fuel p v xs has_destroy ring = (
  record { cell = write s.cell p none; destroyed = called has_destroy v s.destroyed },
  ground (arith, ring.linked.1),
  refl,
  ground arith,
  λ a m.
      let ne : a ≢ p = λ e. ground (arith, ap (λ q. has q xs) e) in
      let kept = write_ne s.cell p a none ne in
      (kept, λ e. Chain-allocated s.cell xs p p a ring.linked.2 m (sym kept ∙ e)),
)
