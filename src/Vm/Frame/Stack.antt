-- ===== src/Vm/Frame/Stack.antt =====
-- The variable stack of src/components/vm/stackframe.c: the slots from `sp` on, the top first.
use saffire.Prelude.{
  ℕ, zero, suc, ◌+◌, ◌-◌, ◌^◌, ◌≤◌, ◌<◌, ◌≡◌, refl, ap, ◌∙◌, true, false, none, some, List, [], ◌∷◌,
  arith, ok, fatal_error, undefined, trying_to_pop, length, get_elem?, set, drop, length-set,
  replicate, length-replicate, lt→ltb, leb, le→leb, ◌==◌,
}
use saffire.Vm.{Object, ObjectPtr, CodeFrame, StackFrame}
use saffire.Vm.Frame.{
  vm_stackframe_new, read_slot, write_slot, vm_frame_stack_pop_attrib, attribute_data,
  vm_frame_stack_pop, vm_frame_stack_push,
}

-- The stack pointer is inside the allocated stack, whose size fits an `unsigned int`.
pub record IsValid (frame : StackFrame) : Type 0 where
  pub allocated : length frame.stack ≡ frame.codeframe.stack_size
  pub inside : frame.sp ≤ frame.codeframe.stack_size
  pub small : frame.codeframe.stack_size < 2 ^ 32

-- What is on the stack, the top first.
abbrev pub contents : StackFrame → List ObjectPtr
contents frame = drop frame.sp frame.stack

module _ {ℓ} {A : Type ℓ} where
  pub drop_cons :
      (n : ℕ) (xs : List A) (x : A) (rest : List A)
      → drop n xs ≡ x ∷ rest
      → (get_elem? xs n ≡ some x) × (drop (suc n) xs ≡ rest) × (n < length xs)
  drop_cons zero [] x rest h = cc
  drop_cons zero (y ∷ xs) x rest h = (cc, cc, omega arith)
  drop_cons (suc n) [] x rest h = cc
  drop_cons (suc n) (y ∷ xs) x rest h =
      let (a, b, c) = drop_cons n xs x rest h in (a, b, omega arith)

  drop-set_self :
      (n : ℕ) (xs : List A) (v : A) → n < length xs → drop n (set xs n v) ≡ v ∷ drop (suc n) xs
  drop-set_self zero [] v h = elim h [ ]
  drop-set_self zero (x ∷ xs) v h = refl
  drop-set_self (suc n) [] v h = absurd (omega arith)
  drop-set_self (suc n) (x ∷ xs) v h = drop-set_self n xs v (omega arith)

  drop-set_below : (n : ℕ) (xs : List A) (v : A) → drop (suc n) (set xs n v) ≡ drop (suc n) xs
  drop-set_below zero [] v = refl
  drop-set_below zero (x ∷ xs) v = refl
  drop-set_below (suc n) [] v = refl
  drop-set_below (suc n) (x ∷ xs) v = drop-set_below n xs v

  pub length-drop : (n : ℕ) (xs : List A) → length (drop n xs) ≡ length xs - n
  length-drop zero xs = omega arith
  length-drop (suc n) [] = omega arith
  length-drop (suc n) (x ∷ xs) = omega (arith, length-drop n xs)

  drop-replicate : (n : ℕ) (a : A) → drop n (replicate n a) ≡ []
  drop-replicate zero a = refl
  drop-replicate (suc n) a = drop-replicate n a

read_slot_lem :
    (f : StackFrame) (i : ℕ) (p : ObjectPtr) → get_elem? f.stack i ≡ some p → read_slot f i ≡ ok p
unfolding read_slot
read_slot_lem f i p h = rw (h, read_slot)

write_slot_lem :
    (f : StackFrame) (i : ℕ) (p : ObjectPtr)
    → i < length f.stack
    → write_slot f i p ≡ ok (record f { stack = set f.stack i p })
unfolding write_slot
write_slot_lem f i p h = rw (lt→ltb i (length f.stack) h)

-- `f'` is a valid frame that differs from `f` in its stack only, which holds `xs`.
pub record Holds (xs : List ObjectPtr) (f f' : StackFrame) : Type 0 where
  pub valid : IsValid f'
  pub holds : contents f' ≡ xs
  pub same_codeframe : f'.codeframe ≡ f.codeframe
  pub same_ip : f'.ip ≡ f.ip
  pub same_blocks : f'.blocks ≡ f.blocks

-- A new frame has a valid, empty stack.
pub vm_stackframe_new-IsValid :
    (c : CodeFrame)
    → c.stack_size < 2 ^ 32
    → IsValid (vm_stackframe_new c) × (contents (vm_stackframe_new c) ≡ [])
unfolding vm_stackframe_new
vm_stackframe_new-IsValid c h = (
  record { allocated = length-replicate c.stack_size none; inside = omega arith; small = h },
  drop-replicate c.stack_size none,
)

module _ (frame : StackFrame) (valid : IsValid frame) where
  -- A push on a stack with room succeeds, and puts the object on top.
  pub push-contents :
      (obj : ObjectPtr)
      → 0 < frame.sp
      → (f' : StackFrame) × (vm_frame_stack_push frame obj ≡ ok f')
        × Holds (obj ∷ contents frame) frame f'
  unfolding vm_frame_stack_push
  push-contents obj h =
      let k = frame.sp - 1 in
      let room : (frame.sp == 0) ≡ false = ground arith in
      let fits : k < length frame.stack = omega arith in
      let next : suc k ≡ frame.sp = omega arith in
      (
        record frame { sp = k; stack = set frame.stack k obj },
        rw (room, write_slot_lem (record frame { sp = k }) k obj fits),
        record {
          valid = record {
            allocated = length-set frame.stack k obj ∙ valid.allocated;
            inside = omega arith;
            small = valid.small;
          };
          holds = drop-set_self k frame.stack obj fits ∙ ap (λ n. obj ∷ drop n frame.stack) next;
          same_codeframe = refl;
          same_ip = refl;
          same_blocks = refl;
        },
      )

  -- A push on a full stack writes outside of it: the test that should stop it never holds.
  pub push_full : (obj : ObjectPtr) → frame.sp ≡ 0 → vm_frame_stack_push frame obj ≡ undefined
  unfolding vm_frame_stack_push write_slot
  push_full obj h = ground arith

  -- A pop takes the top object off, and gives the data of an attribute object.
  pub pop-contents :
      (o : Object) (rest : List ObjectPtr)
      → contents frame ≡ some o ∷ rest
      → (f' : StackFrame) × (vm_frame_stack_pop frame ≡ ok (f', attribute_data o))
        × Holds rest frame f'
  unfolding vm_frame_stack_pop vm_frame_stack_pop_attrib
  pop-contents o rest h =
      let (top, below, fits) = drop_cons frame.sp frame.stack (some o) rest h in
      let some_left : leb frame.codeframe.stack_size frame.sp ≡ false = ground arith in
      let next : frame.sp + 1 ≡ suc frame.sp = omega arith in
      (
        record frame { sp = frame.sp + 1; stack = set frame.stack frame.sp none },
        rw (
          some_left,
          read_slot_lem frame frame.sp (some o) top,
          write_slot_lem frame frame.sp none fits,
        ),
        record {
          valid = record {
            allocated = length-set frame.stack frame.sp none ∙ valid.allocated;
            inside = omega arith;
            small = valid.small;
          };
          holds = rw next (drop-set_below frame.sp frame.stack none ∙ below);
          same_codeframe = refl;
          same_ip = refl;
          same_blocks = refl;
        },
      )

  -- A pop from an empty stack ends the process.
  pub pop_empty : contents frame ≡ [] → vm_frame_stack_pop frame ≡ fatal_error trying_to_pop
  unfolding vm_frame_stack_pop vm_frame_stack_pop_attrib
  pop_empty h =
      let none_left : leb frame.codeframe.stack_size frame.sp ≡ true =
        le→leb _ _ (omega (arith, length-drop frame.sp frame.stack, ap length h)) in
      rw none_left
