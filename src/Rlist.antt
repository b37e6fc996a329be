-- ===== src/Rlist.antt =====
-- util.h, the intrusive doubly linked lists (`rlnode` and the `rlist_` functions). A node is known
-- by its address; the memory of all nodes is a record of three maps, one for each field of the
-- struct, and a function that writes nodes returns the new memory.
pub mod Links
pub mod Splice
pub mod Insert
pub mod Walk
pub mod Remove
mod Tests
use tiny_os_project.Prelude.{
  ℕ, zero, suc, ◌+◌, ◌%◌, ◌^◌, Bool, true, false, Option, none, some, ◌==◌, if◌then◌else◌, update,
}

abbrev pub Ptr : Type 0
Ptr = ℕ

-- `obj` stands for the union of the key.
pub record Heap : Type 0 where
  pub obj : Ptr → ℕ
  pub prev : Ptr → Ptr
  pub next : Ptr → Ptr

pub rlnode_new : Ptr → Heap → Heap
rlnode_new p h = record h { prev = update h.prev p p; next = update h.next p p }

pub rlnode_init : Ptr → ℕ → Heap → Heap
unfolding rlnode_new
rlnode_init p ptr h = let g = rlnode_new p h in record g { obj = update g.obj p ptr }

-- Swap the values of one field at two nodes.
abbrev pub rlnode_swap : (Ptr → Ptr) → Ptr → Ptr → Ptr → Ptr
rlnode_swap f p q = let temp = f p in update (update f p (f q)) q temp

-- The node that the C function returns is its argument `b`.
pub rl_splice : Ptr → Ptr → Heap → Heap
rl_splice a b h =
    let g = record h { prev = rlnode_swap h.prev (h.next a) (h.next b) } in
    record g { next = rlnode_swap g.next a b }

pub rlist_remove : Ptr → Heap → Heap
rlist_remove a h = rl_splice a (h.prev a) h

pub is_rlist_empty : Ptr → Heap → Bool
is_rlist_empty a h = a == h.next a

pub rlist_push_front : Ptr → Ptr → Heap → Heap
rlist_push_front list node h = rl_splice list node h

pub rlist_push_back : Ptr → Ptr → Heap → Heap
rlist_push_back list node h = rl_splice (h.prev list) node h

pub rlist_pop_front : Ptr → Heap → Ptr × Heap
rlist_pop_front list h = (h.next list, rl_splice list (h.next list) h)

pub rlist_pop_back : Ptr → Heap → Ptr × Heap
rlist_pop_back list h = (h.prev list, rl_splice list (h.prev list) h)

-- The loop of `rlist_len`, on fuel, with its `unsigned int` counter. `none`: the fuel ran out.
pub len_loop : ℕ → Ptr → Ptr → ℕ → Heap → Option ℕ
len_loop zero list p count h = none
len_loop (suc fuel) list p count h =
    let rest = len_loop fuel list (h.next p) ((count + 1) % 2 ^ 32) h in
    if p == list then some count else rest

pub rlist_len : ℕ → Ptr → Heap → Option ℕ
rlist_len fuel list h = len_loop fuel list (h.next list) 0 h

pub rlist_append : Ptr → Ptr → Heap → Heap
rlist_append ldest lsrc h = rlist_remove lsrc (rlist_push_back ldest lsrc h)

pub rlist_prepend : Ptr → Ptr → Heap → Heap
rlist_prepend ldest lsrc h = rlist_remove lsrc (rlist_push_front ldest lsrc h)

-- The loop of `rlist_find`, on fuel; the result is the node found, or `fail`.
pub find_loop : ℕ → Ptr → Ptr → ℕ → Ptr → Heap → Option Ptr
find_loop zero list i key fail h = none
find_loop (suc fuel) list i key fail h =
    let rest = find_loop fuel list (h.next i) key fail h in
    if i == list then some fail else if h.obj i == key then some i else rest

pub rlist_find : ℕ → Ptr → ℕ → Ptr → Heap → Option Ptr
rlist_find fuel list key fail h = find_loop fuel list (h.next list) key fail h
