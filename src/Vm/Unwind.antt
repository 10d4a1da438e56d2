-- ===== src/Vm/Unwind.antt =====
-- `unwind_blocks` of src/components/vm/vm.c.
pub mod Pops
pub mod Exceptions
pub mod Stuck
use saffire.Prelude.{
  ℕ, zero, suc, ◌+◌, ◌-◌, ◌%◌, ◌^◌, Bool, true, false, ◌&&◌, not, Option, none, some, List, [], ◌∷◌,
  Run, ok, undefined, out_of_fuel, ◌>>=◌, leb, ◌==◌, if◌then◌else◌,
}
use saffire.Vm.{Object, numerical, ObjectPtr, Handlers, loop, exceptions, FrameBlock, StackFrame}
use saffire.Vm.Frame.{vm_frame_stack_pop, vm_frame_stack_push}
use saffire.Vm.Block.{vm_pop_block}

-- `REASON_*`. A reason is a `long` that `END_FINALLY` may take from the stack.
abbrev pub reason_none : ℕ
reason_none = 0

abbrev pub reason_return : ℕ
reason_return = 1

abbrev pub reason_continue : ℕ
reason_continue = 2

abbrev pub reason_break : ℕ
reason_break = 3

abbrev pub reason_breakelse : ℕ
reason_breakelse = 4

abbrev pub reason_exception : ℕ
reason_exception = 5

abbrev pub reason_reraise : ℕ
reason_reraise = 6

abbrev pub reason_finally : ℕ
reason_finally = 7

-- `OBJ2NUM(ret)` where `ret` is a numerical object
unfoldable pub obj2num : ObjectPtr → Run ℕ
obj2num (some (numerical n)) = ok n
obj2num _ = undefined

-- The loops `while (frame->sp < sp) vm_frame_stack_pop(frame);`, by the number of pops.
unfoldable pub pop_times : ℕ → StackFrame → Run StackFrame
pop_times zero frame = ok frame
pop_times (suc n) frame = do (frame', _) ← vm_frame_stack_pop frame; pop_times n frame'

unfoldable pub pop_to : ℕ → StackFrame → Run StackFrame
pop_to sp frame = pop_times (sp - frame.sp) frame

-- How a pass over the innermost block ends: out of the loop with a reason, or in a further pass.
pub data Pass : Type 0 where
  leave : ℕ → StackFrame → Pass
  again : StackFrame → Pass

-- Case 2: the return value and the reason are pushed for `END_FINALLY`.
unfoldable pub return_in_try : ℕ → ℕ → ObjectPtr → StackFrame → Run Pass
return_in_try ip_finally ip_end_finally ret frame = do
  f₁ ← vm_frame_stack_push frame ret
  f₂ ← vm_frame_stack_push f₁ (some (numerical reason_return))
  if leb f₂.ip ip_finally
      then ok (leave reason_none (record f₂ { ip = ip_finally }))
      else if leb f₂.ip ip_end_finally
      then ok (leave reason_finally (record f₂ { ip = ip_end_finally }))
      else ok (leave reason_finally f₂)

-- Case 3: the stack is cut to the reason that `SETUP_EXCEPT` pushed, and the exception is pushed.
unfoldable pub exception_in_try : ℕ → ℕ → ObjectPtr → StackFrame → Run Pass
exception_in_try sp ip_catch thrown frame = do
  f₁ ← pop_to ((sp + 2 ^ 32 - 1) % 2 ^ 32) frame
  f₂ ← vm_frame_stack_push f₁ thrown
  ok (leave reason_none (record f₂ { ip = ip_catch }))

-- A pass with a loop block innermost, its handlers given. `OBJ2NUM` gives a `long`, of which the
-- instruction pointer takes the low 32 bits.
unfoldable pub unwind_loop : (ip ip_else sp : ℕ) → ℕ → ObjectPtr → StackFrame → Run Pass
unwind_loop ip ip_else sp reason ret frame =
    if reason == reason_continue
    then (do n ← obj2num ret; ok (leave reason_none (record frame { ip = n % 2 ^ 32 })))
    else do
      f ← pop_to sp frame
      if reason == reason_exception
          then (do (f', _) ← vm_pop_block f; ok (again f'))
          else if reason == reason_breakelse
          then ok (leave reason_none (record f { ip = ip_else }))
          else if reason == reason_break
          then ok (leave reason_none (record f { ip = ip }))
          else ok (again f)

-- A pass with an exception block innermost.
unfoldable pub unwind_exceptions :
    (ip_catch ip_finally ip_end_finally sp : ℕ) → ℕ → ObjectPtr → ObjectPtr → StackFrame → Run Pass
unwind_exceptions ip_catch ip_finally ip_end_finally sp reason ret thrown frame =
    if reason == reason_return
    then return_in_try ip_finally ip_end_finally ret frame
    else if reason == reason_exception
    then exception_in_try sp ip_catch thrown frame
    else do
      f ← pop_to sp frame
      if reason == reason_finally
          then (do (f', _) ← vm_pop_block f; ok (leave reason_none f'))
          else ok (again f)

unfoldable pub unwind_pass : FrameBlock → ℕ → ObjectPtr → ObjectPtr → StackFrame → Run Pass
unwind_pass block reason ret thrown frame = elim block.handlers [
  | loop ip ip_else ↦ unwind_loop ip ip_else block.sp reason ret frame
  | exceptions ip_catch ip_finally ip_end_finally ↦
      unwind_exceptions ip_catch ip_finally ip_end_finally block.sp reason ret thrown frame
]

-- The rest of the loop behind a pass.
unfoldable pub after_pass : (StackFrame → Run (StackFrame × ℕ)) → Pass → Run (StackFrame × ℕ)
after_pass continue (leave reason frame) = ok (frame, reason)
after_pass continue (again frame) = continue frame

unfoldable pub innermost : List FrameBlock → Option FrameBlock
innermost [] = none
innermost (b ∷ bs) = some b

-- `thrown` is `thread_get_exception()`. The result is the frame with the reason that is left.
unfoldable pub unwind_blocks : ℕ → ℕ → ObjectPtr → ObjectPtr → StackFrame → Run (StackFrame × ℕ)
unwind_blocks zero reason ret thrown frame = out_of_fuel
unwind_blocks (suc fuel) reason ret thrown frame = elim (reason == reason_none) [
  | true ↦ ok (frame, reason)
  | false ↦ elim (innermost frame.blocks) [
    | none ↦ ok (frame, reason)
    | some block ↦
        unwind_pass block reason ret thrown frame
        >>= after_pass (unwind_blocks fuel reason ret thrown)
  ]
]
