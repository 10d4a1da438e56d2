-- ===== src/Dll.antt =====
-- The doubly linked list of src/components/general/dll.c on a heap of its elements.
pub mod Operations
pub mod Nodes
pub mod Lists
pub mod Pop
pub mod Stack
mod Tests
use saffire.Prelude.{ℕ, ◌+◌, Option, none, some, Run, ok, undefined, ◌>>=◌, ◌==◌, if◌then◌else◌}

-- A `t_dll_element *`, `none` for `NULL`.
abbrev pub Ptr : Type 0
Ptr = Option ℕ

-- `t_dll_element`. The `void *` data are known by their bits.
pub record Element : Type 0 where
  pub prev : Ptr
  pub next : Ptr
  pub datum : ℕ

-- `t_dll`
pub record Dll : Type 0 where
  pub size : ℕ
  pub head : Ptr
  pub tail : Ptr

-- The elements that are allocated. Addresses from `fresh` on have not been handed out.
pub record Heap : Type 0 where
  pub cells : ℕ → Option Element
  pub fresh : ℕ

unfoldable pub write : Heap → ℕ → Option Element → Heap
write h a e = record h { cells = λ b. if b == a then e else h.cells b }

-- `smm_malloc` of an element, and its first assignments.
unfoldable pub alloc : Heap → Element → Heap
alloc h e = record (write h h.fresh (some e)) { fresh = h.fresh + 1 }

-- `*p`
unfoldable pub read : Heap → Ptr → Run Element
read h none = undefined
read h (some a) = elim (h.cells a) [ none ↦ undefined | some e ↦ ok e ]

-- `p->next = q` and `p->prev = q`
unfoldable pub set_next : Heap → Ptr → Ptr → Run Heap
set_next h none q = undefined
set_next h (some a) q = do e ← read h (some a); ok (write h a (some (record e { next = q })))

unfoldable pub set_prev : Heap → Ptr → Ptr → Run Heap
set_prev h none q = undefined
set_prev h (some a) q = do e ← read h (some a); ok (write h a (some (record e { prev = q })))

-- `smm_free`
unfoldable pub free : Heap → ℕ → Heap
free h a = write h a none
