-- ===== src/Dll/Stack.antt =====
-- `dll_pop` of src/components/general/dll.c and the stack of src/components/general/stack.c.
use saffire.Prelude.{
  ℕ, ◌+◌, ◌^◌, ◌<◌, ◌≡◌, ◌∙◌, false, ◌||◌, none, some, [], ◌∷◌, ◌++◌, arith, ok, length,
  length-append, leb, ◌==◌,
}
use saffire.Dll.{Element, Dll, Heap, read}
use saffire.Dll.Nodes.{Cells, final, nodes, Linked-split, read_lem}
use saffire.Dll.Operations.{State, dll_append, dll_remove, take_off, dll_pop, stack_push, stack_pop}
use saffire.Dll.Lists.{IsList, dll_append-IsList, final-append}
use saffire.Dll.Pop.{dll_remove_last}

take_off_run :
    (h : Heap) (dll : Dll) (a : ℕ) (e : Element) (s : State)
    → read h (some a) ≡ ok e
    → dll_remove (h, dll) a ≡ ok s
    → take_off (h, dll) a ≡ ok (s, e.datum)
unfolding take_off
take_off_run h dll a e s at run = rw at (rw run)

take_off_last :
    (h : Heap) (dll : Dll) (xs : Cells) (a d : ℕ)
    → IsList (h, dll) (xs ++ (a, d) ∷ [])
    → (s : State) × (take_off (h, dll) a ≡ ok (s, d)) × IsList s xs
unfolding nodes
take_off_last h dll xs a d i =
    let (s, run, left, fresh) = dll_remove_last h dll xs a d i in
    let last = (Linked-split h none xs ((a, d) ∷ []) none i.linked).1 in
    let e : Element = record { prev = final none xs; next = none; datum = d } in
    (s, take_off_run h dll a e s (read_lem h a e last.0) run, left)

pop_run :
    (h : Heap) (dll : Dll) (a d : ℕ) (s : State)
    → dll.tail ≡ some a
    → take_off (h, dll) a ≡ ok (s, d)
    → dll_pop (h, dll) ≡ ok (s, some d)
unfolding dll_pop
pop_run h dll a d s e run = rw (e, dll_pop) (rw run)

-- A pop from a list that represents a sequence with a last element gives the data of that element,
-- and the list then represents the sequence before it.
pub dll_pop-IsList :
    (h : Heap) (dll : Dll) (xs : Cells) (a d : ℕ)
    → IsList (h, dll) (xs ++ (a, d) ∷ [])
    → (s : State) × (dll_pop (h, dll) ≡ ok (s, some d)) × IsList s xs
dll_pop-IsList h dll xs a d i =
    let (s, run, left) = take_off_last h dll xs a d i in
    (s, pop_run h dll a d s (i.tail ∙ final-append none xs a d) run, left)

stack_pop_run :
    (h : Heap) (dll : Dll) (a d n : ℕ) (s : State)
    → dll.size ≡ n + 1
    → n + 1 < 2 ^ 63
    → dll.tail ≡ some a
    → take_off (h, dll) a ≡ ok (s, d)
    → stack_pop (h, dll) ≡ ok (s, d)
unfolding stack_pop
stack_pop_run h dll a d n s size small e run =
    let filled : (leb (2 ^ 63) (n + 1) || n + 1 == 0) ≡ false = ground arith in
    rw size (rw filled (rw (e, stack_pop) run))

push_run : (s s' : State) (v a : ℕ) → dll_append s v ≡ ok (s', a) → stack_push s v ≡ ok s'
unfolding stack_push
push_run s s' v a run = rw run

-- On a stack that represents a sequence, a push and then a pop succeed: the pop gives what was
-- pushed, and the stack represents the same sequence, if its length and one more fit a `long`.
pub stack_pop-push :
    (s : State) (cs : Cells) (v : ℕ)
    → IsList s cs
    → length cs + 1 < 2 ^ 63
    → (s₁ s₂ : State) × (stack_push s v ≡ ok s₁) × (stack_pop s₁ ≡ ok (s₂, v)) × IsList s₂ cs
stack_pop-push (h, dll) cs v i small =
    let (s₁, run, j) = dll_append-IsList h dll cs v i in
    let (s₂, off, left) = take_off_last s₁.0 s₁.1 cs h.fresh v j in
    (
      s₁,
      s₂,
      push_run (h, dll) s₁ v h.fresh run,
      stack_pop_run s₁.0 s₁.1 h.fresh v (length cs) s₂
          (j.size ∙ length-append cs ((h.fresh, v) ∷ [])) small
          (j.tail ∙ final-append none cs h.fresh v) off,
      left,
    )
