-- ===== src/Vm/Execute.antt =====
-- The dispatch loop of `_vm_execute` of src/components/vm/vm.c, for the opcodes that move the stack,
-- the instruction pointer and the blocks.
use saffire.Prelude.{
  ℕ, zero, suc, ◌+◌, Bool, ◌&&◌, ◌||◌, not, none, some, List, [], ◌∷◌, Run, ok, undefined, ◌>>=◌,
  ◌==◌, if◌then◌else◌,
}
use saffire.Vm.{Object, numerical, boolean, exception, ObjectPtr, FrameBlock, StackFrame}
use saffire.Vm.Frame.{
  vm_frame_stack_pop, vm_frame_stack_push, vm_frame_stack_fetch_top, vm_frame_get_constant,
}
use saffire.Vm.Block.{vm_push_block_exception}
use saffire.Vm.Unwind.{
  reason_return, reason_continue, reason_exception, reason_reraise, reason_finally,
}

-- The locals `frame`, `reason` and `ret`, and the exception of the thread.
pub record Machine : Type 0 where
  pub frame : StackFrame
  pub reason : ℕ
  pub ret : ObjectPtr
  pub thrown : ObjectPtr

-- Where an opcode leaves to: `goto dispatch`, `goto block_end`, out of the loop with the value of
-- `ret`, or into code that is not modelled.
pub data Control : Type 0 where
  dispatch : Machine → Control
  block_end : Machine → Control
  stopped : ObjectPtr → Control
  outside : Control

unfoldable pub rot_two : StackFrame → Run StackFrame
rot_two frame = do
  (f₁, obj1) ← vm_frame_stack_pop frame
  (f₂, obj2) ← vm_frame_stack_pop f₁
  f₃ ← vm_frame_stack_push f₂ (some obj1)
  vm_frame_stack_push f₃ (some obj2)

unfoldable pub rot_three : StackFrame → Run StackFrame
rot_three frame = do
  (f₁, obj1) ← vm_frame_stack_pop frame
  (f₂, obj2) ← vm_frame_stack_pop f₁
  (f₃, obj3) ← vm_frame_stack_pop f₂
  f₄ ← vm_frame_stack_push f₃ (some obj1)
  f₅ ← vm_frame_stack_push f₄ (some obj2)
  vm_frame_stack_push f₅ (some obj3)

unfoldable pub rot_four : StackFrame → Run StackFrame
rot_four frame = do
  (f₁, obj1) ← vm_frame_stack_pop frame
  (f₂, obj2) ← vm_frame_stack_pop f₁
  (f₃, obj3) ← vm_frame_stack_pop f₂
  (f₄, obj4) ← vm_frame_stack_pop f₃
  f₅ ← vm_frame_stack_push f₄ (some obj1)
  f₆ ← vm_frame_stack_push f₅ (some obj2)
  f₇ ← vm_frame_stack_push f₆ (some obj3)
  vm_frame_stack_push f₇ (some obj4)

-- `for (int i=0; i!=oparg1; i++) vm_frame_stack_push(frame, dst);`
unfoldable pub push_times : ℕ → ObjectPtr → StackFrame → Run StackFrame
push_times zero dst frame = ok frame
push_times (suc n) dst frame = do f ← vm_frame_stack_push frame dst; push_times n dst f

unfoldable pub dup_topx : ℕ → StackFrame → Run StackFrame
dup_topx oparg1 frame = do dst ← vm_frame_stack_fetch_top frame; push_times oparg1 dst frame

unfoldable pub load_const : ℕ → StackFrame → Run StackFrame
load_const oparg1 frame = do
  dst ← vm_frame_get_constant frame oparg1
  vm_frame_stack_push frame (some dst)

unfoldable pub setup_except : (oparg1 oparg2 oparg3 : ℕ) → StackFrame → Run StackFrame
setup_except oparg1 oparg2 oparg3 frame = do
  f ←
      vm_push_block_exception frame frame.sp (frame.ip + oparg1) (frame.ip + oparg2)
        (frame.ip + oparg3)
  vm_frame_stack_push f (some (numerical reason_finally))

unfoldable pub dup_top : StackFrame → Run StackFrame
dup_top frame = do obj1 ← vm_frame_stack_fetch_top frame; vm_frame_stack_push frame obj1

-- The opcodes that end in `goto dispatch` whatever they find.
unfoldable pub continue_with : Machine → Run StackFrame → Run Control
continue_with m run = do f ← run; ok (dispatch (record m { frame = f }))

unfoldable pub pop_frame {ℓ} : {A : Type ℓ} → Run (StackFrame × A) → Run StackFrame
pop_frame run = do (f, _) ← run; ok f

unfoldable pub jump : Bool → ℕ → StackFrame → StackFrame
jump taken oparg1 frame = if taken then record frame { ip = frame.ip + oparg1 } else frame

-- A conditional jump on an object that is not a boolean calls its method `__boolean`.
unfoldable pub jump_on : Bool → ℕ → Machine → ObjectPtr → Run Control
jump_on wanted oparg1 m none = undefined
jump_on wanted oparg1 m (some (boolean b)) =
    ok (dispatch (record m { frame = jump (if wanted then b else not b) oparg1 m.frame }))
jump_on wanted oparg1 m (some _) = ok outside

unfoldable pub jump_if : Bool → ℕ → Machine → Run Control
jump_if wanted oparg1 m = vm_frame_stack_fetch_top m.frame >>= jump_on wanted oparg1 m

-- The block that the jump is the first to visit. Without a block it is read out of bounds.
unfoldable pub visit : Bool → ℕ → List FrameBlock → StackFrame → Run StackFrame
visit taken oparg1 [] frame = undefined
visit taken oparg1 (b ∷ bs) frame = ok (record (jump (taken && b.visited == 0) oparg1 frame) {
  blocks = record b { visited = 1 } ∷ bs;
})

unfoldable pub jump_on_first : Bool → ℕ → Machine → ObjectPtr → Run Control
jump_on_first wanted oparg1 m none = undefined
jump_on_first wanted oparg1 m (some (boolean b)) =
    continue_with m (visit (if wanted then b else not b) oparg1 m.frame.blocks m.frame)
jump_on_first wanted oparg1 m (some _) = ok outside

unfoldable pub jump_if_first : Bool → ℕ → Machine → Run Control
jump_if_first wanted oparg1 m = vm_frame_stack_fetch_top m.frame >>= jump_on_first wanted oparg1 m

unfoldable pub return_op : Machine → Run Control
return_op m = do
  (f, ret) ← vm_frame_stack_pop m.frame
  ok (block_end (record m { frame = f; ret = some ret; reason = reason_return }))

-- An exception object that `thread_create_exception` makes, by a number for its class.
abbrev pub system_exception : Object
system_exception = exception 0

abbrev pub extend_exception : Object
extend_exception = exception 1

unfoldable pub end_finally_on : Machine → StackFrame → Object → Run Control
end_finally_on m f (numerical n) =
    if n == reason_return || n == reason_continue
    then (do
      (f', ret) ← vm_frame_stack_pop f
      ok (block_end (record m { frame = f'; ret = some ret; reason = n })))
    else ok (block_end (record m { frame = f; ret = some (numerical n); reason = n }))
end_finally_on m f (exception e) =
    ok (block_end (record m { frame = f; ret = none; reason = reason_reraise }))
end_finally_on m f o = ok (
    block_end (record m {
      frame = f;
      ret = some o;
      reason = reason_exception;
      thrown = some system_exception;
    }))

unfoldable pub end_finally : Machine → Run Control
end_finally m = do (f, ret) ← vm_frame_stack_pop m.frame; end_finally_on m f ret

-- Numbers and booleans do not extend the exception class; other objects are looked up.
unfoldable pub throw_on : Machine → StackFrame → Object → Run Control
throw_on m f (exception e) =
    ok (block_end (record m { frame = f; reason = reason_exception; thrown = some (exception e) }))
throw_on m f (numerical n) =
    ok (
      block_end (record m { frame = f; reason = reason_exception; thrown = some extend_exception }))
throw_on m f (boolean b) =
    ok (
      block_end (record m { frame = f; reason = reason_exception; thrown = some extend_exception }))
throw_on m f _ = ok outside

unfoldable pub throw : Machine → Run Control
throw m = do (f, obj) ← vm_frame_stack_pop m.frame; throw_on m f obj
