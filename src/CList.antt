-- ===== src/CList.antt =====
-- lib/clist.c and lib/tinu/clist.h: circular doubly linked lists, over an explicit heap.
pub mod Heap
pub mod Ring
pub mod Grow
pub mod Shrink
pub mod Walk
use tinu.Prelude.{
  ℕ, zero, suc, ◌≡◌, Bool, true, false, ◌&&◌, not, Option, none, some, List, [], ◌∷◌, ◌++◌, ◌==◌,
  if◌then◌else◌, Outcome, ok, abort, crash,
}
use Heap.{
  Ptr, null, Node, Store, Cmd, pure, ◌>>=◌, ◌>>◌, guard, load, set_next, set_prev, allocate,
  release, call_destroy,
}

-- `fresh` is what `g_slice_new0` returns.
unfoldable pub clist_append : Ptr → Ptr → ℕ → Cmd Ptr
clist_append fresh self value = do
  allocate fresh value
  if self == null then (do set_next fresh fresh; set_prev fresh fresh; pure fresh) else (do
    set_next fresh self
    n ← load self
    set_prev fresh n.prev
    n ← load self
    set_next n.prev fresh
    set_prev self fresh
    pure self)

unfoldable pub clist_prepend : Ptr → Ptr → ℕ → Cmd Ptr
clist_prepend fresh self value = do
  nlist ← clist_append fresh self value
  n ← load nlist
  pure n.prev

-- Unlinks `self` from its neighbours; the result is the item behind it.
unfoldable pub unlink : Ptr → Cmd Ptr
unlink self = do
  n ← load self
  if n.next == self then pure null else (do
    set_prev n.next n.prev
    n ← load self
    set_next n.prev n.next
    n ← load self
    pure n.next)

-- `has_destroy` says whether a callback for the data was given.
unfoldable pub clist_remove : Ptr → Bool → Cmd Ptr
unfolding unlink
clist_remove self has_destroy = if self == null then pure null else (do
  res ← unlink self
  n ← load self
  call_destroy has_destroy n.value
  release self
  pure res)

-- The loop of `clist_destroy`, as it stands: `next` is read and never becomes `act`.
unfoldable pub destroy_loop : ℕ → Ptr → Ptr → Bool → Cmd (Unit {0})
destroy_loop zero act self has_destroy = λ s. abort
destroy_loop (suc fuel) act self has_destroy = do
  n ← load act
  call_destroy has_destroy n.value
  release act
  if not (act == self) then destroy_loop fuel act self has_destroy else pure tt

unfoldable pub clist_destroy : ℕ → Ptr → Bool → Cmd (Unit {0})
unfolding destroy_loop
clist_destroy fuel self has_destroy =
    if self == null then pure tt else destroy_loop fuel self self has_destroy

-- The loop of `clist_foreach`: the world after the calls, and whether all returned TRUE.
unfoldable pub foreach_loop : {W : Type 0} → ℕ → Ptr → Ptr → (ℕ → W → W × Bool) → W → Cmd (W × Bool)
foreach_loop zero act self list_cb w = λ s. abort
foreach_loop (suc fuel) act self list_cb w = do
  n ← load act
  let r = list_cb n.value w
  let more = foreach_loop fuel n.next self list_cb r.0
  if not r.1 then pure (r.0, false) else if n.next == self then pure (r.0, true) else more

unfoldable pub clist_foreach : {W : Type 0} → ℕ → Ptr → (ℕ → W → W × Bool) → W → Cmd (W × Bool)
unfolding foreach_loop
clist_foreach fuel self list_cb w =
    if self == null then pure (w, true) else foreach_loop fuel self self list_cb w

pub record CListIterator : Type 0 where
  pub start : Ptr
  pub act : Ptr

unfoldable pub clist_iter_new : Ptr → CListIterator
clist_iter_new list = record { start = list; act = null }

unfoldable pub clist_iter_valid : CListIterator → Bool
clist_iter_valid iter = not (iter.start == null) && not (iter.act == null)

unfoldable pub clist_iter_set_step : CListIterator → Ptr → CListIterator × Bool
clist_iter_set_step iter next =
    if iter.start == null
    then (iter, false)
    else if iter.act == null
    then (record iter { act = iter.start }, true)
    else if next == iter.start
    then (record iter { act = null }, false)
    else (record iter { act = next }, true)

unfoldable pub clist_iter_next : CListIterator → Cmd (CListIterator × Bool)
unfolding clist_iter_set_step
clist_iter_next iter =
    if iter.act == null
    then pure (clist_iter_set_step iter null)
    else (do n ← load iter.act; pure (clist_iter_set_step iter n.next))

unfoldable pub clist_iter_prev : CListIterator → Cmd (CListIterator × Bool)
unfolding clist_iter_set_step
clist_iter_prev iter =
    if iter.act == null
    then pure (clist_iter_set_step iter null)
    else (do n ← load iter.act; pure (clist_iter_set_step iter n.prev))

unfoldable pub clist_iter_data : CListIterator → Cmd ℕ
unfolding clist_iter_valid
clist_iter_data iter = do
  guard (not (iter.act == null))
  guard (clist_iter_valid iter)
  n ← load iter.act
  pure n.value

unfoldable pub clist_iter_remove : CListIterator → Bool → Cmd CListIterator
unfolding clist_remove
clist_iter_remove iter has_destroy = do
  guard (not (iter.act == null))
  act ← clist_remove iter.act has_destroy
  pure (record { start = if iter.act == iter.start then act else iter.start; act = act })

-- The loop `for (iter = clist_iter_new(list); clist_iter_next(iter); )` over the data of a list,
-- as `_test_run_hooks` and others write it, with its body as a function on a world.
unfoldable pub walk_loop : {W : Type 0} → ℕ → CListIterator → (ℕ → W → W) → W → Cmd W
walk_loop zero iter body w = λ s. abort
walk_loop (suc fuel) iter body w = do
  (iter', more) ← clist_iter_next iter
  if more
      then (do value ← clist_iter_data iter'; walk_loop fuel iter' body (body value w))
      else pure w

unfoldable pub walk : {W : Type 0} → ℕ → Ptr → (ℕ → W → W) → W → Cmd W
walk fuel list body w = walk_loop fuel (clist_iter_new list) body w
