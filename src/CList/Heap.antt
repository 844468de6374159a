-- ===== src/CList/Heap.antt =====
-- Nodes at addresses, and the commands that read and write them.
use tinu.Prelude.{
  ℕ, Bool, true, false, Option, none, some, List, ◌∷◌, ◌==◌, if◌then◌else◌, Outcome, ok, abort,
  crash,
}

abbrev pub Ptr : Type 0
Ptr = ℕ

abbrev pub null : Ptr
null = 0

pub record Node : Type 0 where
  pub value : ℕ
  pub next : Ptr
  pub prev : Ptr

abbrev pub node : ℕ → Ptr → Ptr → Node
node v n p = record { value = v; next = n; prev = p }

-- The nodes, and the data pointers that the destroy callback was called with, the last first.
pub record Store : Type 0 where
  pub cell : Ptr → Option Node
  pub destroyed : List ℕ

abbrev pub Cmd : Type 0 → Type 0
Cmd A = Store → Outcome (A × Store)

abbrev pub pure : {A : Type 0} → A → Cmd A
pure a s = ok (a, s)

module _ {A B : Type 0} where
  abbrev pub and_then : Outcome (A × Store) → (A → Cmd B) → Outcome (B × Store)
  and_then (ok (a, s)) k = k a s
  and_then abort k = abort
  and_then crash k = crash

  infixl 5 ◌>>=◌ ◌>>◌
  abbrev pub ◌>>=◌ : Cmd A → (A → Cmd B) → Cmd B
  m >>= k = λ s. and_then (m s) k

  abbrev pub ◌>>◌ : Cmd A → Cmd B → Cmd B
  m >> n = m >>= λ _. n

-- `g_assert`
abbrev pub guard : Bool → Cmd (Unit {0})
guard true s = ok (tt, s)
guard false s = abort

unfoldable pub write : (Ptr → Option Node) → Ptr → Option Node → Ptr → Option Node
write cell p c a = if a == p then c else cell a

abbrev pub put : Ptr → Option Node → Store → Store
put p c s = record s { cell = write s.cell p c }

-- `*p`: a fault at `NULL` and at an address that holds no node.
unfoldable pub load : Ptr → Cmd Node
load p s = if p == null then crash else elim (s.cell p) [ none ↦ crash | some n ↦ ok (n, s) ]

abbrev pub poke : Ptr → Option Node → Cmd (Unit {0})
poke p c s = ok (tt, put p c s)

unfoldable pub set_next : Ptr → Ptr → Cmd (Unit {0})
set_next p q = do n ← load p; poke p (some (record n { next = q }))

unfoldable pub set_prev : Ptr → Ptr → Cmd (Unit {0})
set_prev p q = do n ← load p; poke p (some (record n { prev = q }))

-- A new node, cleared but for its data.
unfoldable pub allocate : Ptr → ℕ → Cmd (Unit {0})
allocate p v = poke p (some (node v null null))

unfoldable pub release : Ptr → Cmd (Unit {0})
release p = do load p; poke p none

unfoldable pub call_destroy : Bool → ℕ → Cmd (Unit {0})
call_destroy false v s = ok (tt, s)
call_destroy true v s = ok (tt, record s { destroyed = v ∷ s.destroyed })
