-- ===== src/Dll/Operations.antt =====
-- The operations of src/components/general/dll.c and of src/components/general/stack.c.
use saffire.Prelude.{
  ℕ, ◌+◌, ◌-◌, ◌^◌, Bool, true, false, Option, none, some, Run, ok, undefined, fatal_error, ◌>>=◌,
  pop_from_empty_stack, leb, ◌==◌, ◌||◌, if◌then◌else◌,
}
use saffire.Dll.{Ptr, Dll, Heap, alloc, read, set_next, set_prev, free}

-- A list on its heap.
abbrev pub State : Type 0
State = Heap × Dll

unfoldable pub dll_init : Heap → State
dll_init h = (h, record { size = 0; head = none; tail = none })

-- `p == q`
abbrev pub ptr_eq : Ptr → Ptr → Bool
ptr_eq none none = true
ptr_eq (some a) (some b) = a == b
ptr_eq none (some b) = false
ptr_eq (some a) none = false

-- `if (p) p->next = q;` and `if (p) p->prev = q;`
unfoldable pub link_next : Heap → Ptr → Ptr → Run Heap
link_next h none q = ok h
link_next h (some a) q = set_next h (some a) q

unfoldable pub link_prev : Heap → Ptr → Ptr → Run Heap
link_prev h none q = ok h
link_prev h (some a) q = set_prev h (some a) q

-- `if (p == NULL) p = e;`
abbrev pub or_else : Ptr → Ptr → Ptr
or_else none e = e
or_else (some a) e = some a

unfoldable pub dll_prepend : State → ℕ → Run (State × ℕ)
dll_prepend (h, dll) datum = do
  let e = h.fresh
  let h₁ = alloc h (record { prev = none; next = dll.head; datum = datum })
  h₂ ← link_prev h₁ dll.head (some e)
  ok ((h₂, record { size = dll.size + 1; head = some e; tail = or_else dll.tail (some e) }), e)

unfoldable pub dll_append : State → ℕ → Run (State × ℕ)
dll_append (h, dll) datum = do
  let e = h.fresh
  let h₁ = alloc h (record { prev = dll.tail; next = none; datum = datum })
  h₂ ← link_next h₁ dll.tail (some e)
  ok ((h₂, record { size = dll.size + 1; head = or_else dll.head (some e); tail = some e }), e)

unfoldable pub dll_insert_before : State → Ptr → ℕ → Run (State × ℕ)
dll_insert_before s none datum = dll_prepend s datum
dll_insert_before (h, dll) (some b) datum = do
  let e = h.fresh
  before ← read h (some b)
  let h₁ = alloc h (record { prev = before.prev; next = some b; datum = datum })
  h₂ ← link_next h₁ before.prev (some e)
  h₃ ← set_prev h₂ (some b) (some e)
  let head = if ptr_eq (some b) dll.head then some e else dll.head
  ok ((h₃, record dll { size = dll.size + 1; head = head }), e)

unfoldable pub dll_insert_after : State → Ptr → ℕ → Run (State × ℕ)
dll_insert_after s none datum = dll_append s datum
dll_insert_after (h, dll) (some b) datum = do
  let e = h.fresh
  after ← read h (some b)
  let h₁ = alloc h (record { prev = some b; next = after.next; datum = datum })
  h₂ ← link_prev h₁ after.next (some e)
  h₃ ← set_next h₂ (some b) (some e)
  let tail = if ptr_eq (some b) dll.tail then some e else dll.tail
  ok ((h₃, record dll { size = dll.size + 1; tail = tail }), e)

-- The branches of `dll_remove`, with the size counted down.
unfoldable pub remove_head : Heap → Dll → Run State
remove_head h dll = do
  first ← read h dll.head
  h₁ ← set_prev h first.next none
  ok (h₁, record dll { head = first.next })

unfoldable pub remove_tail : Heap → Dll → Run State
remove_tail h dll = do
  last ← read h dll.tail
  h₁ ← set_next h last.prev none
  ok (h₁, record dll { tail = last.prev })

unfoldable pub remove_inner : Heap → Dll → ℕ → Run State
remove_inner h dll a = do
  e ← read h (some a)
  h₁ ← set_next h e.prev e.next
  e' ← read h₁ (some a)
  h₂ ← set_prev h₁ e'.next e'.prev
  ok (h₂, dll)

-- The size is a `long`: -1 is its bit pattern.
unfoldable pub dll_remove : State → ℕ → Run State
dll_remove (h, dll) a = do
  let dll₁ = record dll { size = if dll.size == 0 then 2 ^ 64 - 1 else dll.size - 1 }
  (h₁, dll₂) ←
      if dll₁.size == 0
      then ok (h, record dll₁ { head = none; tail = none })
      else if ptr_eq (some a) dll₁.head
      then remove_head h dll₁
      else if ptr_eq (some a) dll₁.tail
      then remove_tail h dll₁
      else remove_inner h dll₁ a
  ok (free h₁ a, dll₂)

unfoldable pub dll_push : State → ℕ → Run State
dll_push s datum = do (s', _) ← dll_insert_after s none datum; ok s'

-- The data of an element that is then removed.
unfoldable pub take_off : State → ℕ → Run (State × ℕ)
take_off (h, dll) a = do e ← read h (some a); s ← dll_remove (h, dll) a; ok (s, e.datum)

-- `NULL` from an empty list is `none`.
unfoldable pub dll_pop : State → Run (State × Option ℕ)
dll_pop (h, dll) = elim dll.tail [
  | none ↦ ok ((h, dll), none)
  | some a ↦ do (s, datum) ← take_off (h, dll) a; ok (s, some datum)
]

unfoldable pub stack_push : State → ℕ → Run State
stack_push s datum = do (s', _) ← dll_append s datum; ok s'

unfoldable pub stack_pop : State → Run (State × ℕ)
stack_pop (h, dll) =
    if leb (2 ^ 63) dll.size || dll.size == 0
    then fatal_error pop_from_empty_stack
    else elim dll.tail [ none ↦ undefined | some a ↦ take_off (h, dll) a ]

unfoldable pub stack_peek : State → Run (Option ℕ)
stack_peek (h, dll) = elim dll.tail [
  | none ↦ ok none
  | some a ↦ do e ← read h (some a); ok (some e.datum)
]
