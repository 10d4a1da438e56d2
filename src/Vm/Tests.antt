-- ===== src/Vm/Tests.antt =====
-- Frames of the VM, and the theorems about it at them.
use saffire.Prelude.{
  ℕ, ◌+◌, ◌≡◌, refl, true, some, none, [], ◌∷◌, List, ok, out_of_fuel, ◌>>=◌, arith, drop, leb,
  if◌then◌else◌,
}
use saffire.Vm.{
  numerical, boolean, exception, attrib, ObjectPtr, loop, exceptions, FrameBlock, CodeFrame,
  StackFrame,
}
use saffire.Vm.Frame.{
  attribute_data, vm_frame_get_next_opcode, vm_frame_get_operand, masked_operand, fetch,
  vm_frame_stack_push, vm_frame_stack_pop,
}
use saffire.Vm.Frame.Stack.{IsValid, contents, Holds}
use saffire.Vm.Block.{create_block, vm_pop_block}
use saffire.Vm.LineNumber.{read_delta}
use saffire.Vm.Unwind.{reason_none, reason_return, unwind_blocks}
use saffire.Vm.Unwind.Pops.{AreObjects}
use saffire.Vm.Unwind.Exceptions.{Unwinds, unwind_exception_lem}
use saffire.Vm.Unwind.Stuck.{handles, unwind_blocks_stuck}
use saffire.Vm.Execute.{
  Machine, dispatch, stopped, jump, setup_except, end_finally, throw, rot_three,
}
use saffire.Vm.Dispatch.{operand_opcode, execute, finish, step}
use saffire.Vm.Invariant.{IsSound}
use saffire.Vm.Invariant.Opcodes.{IsSoundControl}
use saffire.Vm.Invariant.Steps.{step_sound}
use saffire.Vm.RoundTrip.{pop-push, pop-push_block, rot_three_lem}
use saffire.Vm.Try.{try_balanced}
use saffire.Vm.Uncaught.{uncaught_keeps_ret}
use saffire.Vm.Jump.{jump-patch_value}
use saffire.Vm.Deltas.{read_delta-delta_bytes}
use saffire.Vm.LoopExit.{to_end, unwind_loop_exit}
use saffire.Asm.Assemble.{delta_bytes, operand_size, patch_value}

-- `JUMP_FORWARD 5` and a line table with a delta of 200
abbrev code_5 : CodeFrame
code_5 = record {
  stack_size = 5;
  code = 0x83 ∷ (5 ∷ (0 ∷ (0x00 ∷ [])));
  constants_objects = [];
  identifiers = [];
  lino = 1 ∷ (255 ∷ (73 ∷ (0 ∷ [])));
}

abbrev frame_of : List ObjectPtr → ℕ → List FrameBlock → StackFrame
frame_of stack sp blocks = record {
  codeframe = code_5;
  ip = 0;
  lineno_lowerbound = 0;
  lineno_upperbound = 0;
  lineno_current_line = 0;
  lineno_current_lino_offset = 1;
  stack = stack;
  sp = sp;
  blocks = blocks;
}

abbrev five_slots : List ObjectPtr
five_slots =
    none
    ∷ (some (exception 8)
        ∷ (some (numerical 1) ∷ (some (numerical 7) ∷ (some (boolean true) ∷ []))))

abbrev loop_block : FrameBlock
loop_block = record { handlers = loop 40 50; sp = 2; visited = 0 }

abbrev try_block : FrameBlock
try_block = record { handlers = exceptions 60 70 80; sp = 4; visited = 0 }

-- In a loop in a try block.
abbrev nested : StackFrame
nested = frame_of five_slots 1 (loop_block ∷ (try_block ∷ []))

abbrev plain : StackFrame
plain = frame_of five_slots 1 []

nested-IsValid : IsValid nested
nested-IsValid = record { allocated = refl; inside = omega arith; small = omega arith }

nested-AreObjects : AreObjects (contents nested)
nested-AreObjects =
    ((exception 8, refl), ((numerical 1, refl), ((numerical 7, refl), ((boolean true, refl), tt))))

plain-IsValid : IsValid plain
plain-IsValid = record { allocated = refl; inside = omega arith; small = omega arith }

plain-IsSound : IsSound plain
plain-IsSound = record { valid = plain-IsValid; depth = omega arith; saved = tt }

abbrev plain_machine : Machine
plain_machine = record { frame = plain; reason = 0; ret = some (numerical 3); thrown = none }

unwind_exception_lem_example :
    Unwinds 3 none (some (exception 9)) (loop_block ∷ (try_block ∷ [])) nested
unwind_exception_lem_example =
    unwind_exception_lem 3 none (some (exception 9)) (loop_block ∷ (try_block ∷ [])) nested refl
      (omega arith) nested-IsValid nested-AreObjects
      ((omega arith, tt), ((omega arith, omega arith), tt))

-- A return out of a loop is not handled.
unwind_blocks_stuck_example :
    unwind_blocks 1000 reason_return (some (numerical 3)) none nested ≡ out_of_fuel
unfolding handles
unwind_blocks_stuck_example =
    unwind_blocks_stuck 1000 reason_return (some (numerical 3)) none nested loop_block
      (try_block ∷ []) refl refl refl nested-IsValid nested-AreObjects (omega arith)

step_runs :
    step 1 plain_machine ≡ ok (dispatch (record plain_machine { frame = record plain { ip = 8 } }))
unfolding step fetch vm_frame_get_next_opcode masked_operand vm_frame_get_operand execute
    operand_opcode jump finish
step_runs = refl

step_sound_example :
    IsSoundControl (dispatch (record plain_machine { frame = record plain { ip = 8 } }))
step_sound_example = step_sound 1 plain_machine _ plain-IsSound step_runs

try_balanced_example :
    (f₁ : StackFrame) × (m' : Machine) × (setup_except 10 20 30 plain ≡ ok f₁)
    × (end_finally (record plain_machine { frame = record f₁ { ip = 12 } }) >>= finish 1
        ≡ ok (dispatch m'))
    × (contents m'.frame ≡ contents plain)
    × (m'.frame.blocks ≡ plain.blocks)
    × (m'.frame.ip ≡ 12)
try_balanced_example =
    try_balanced 0 plain_machine 10 20 30 12 plain-IsValid (omega arith) (omega arith)

uncaught_keeps_ret_example : throw plain_machine >>= finish 1 ≡ ok (stopped (some (numerical 3)))
uncaught_keeps_ret_example = uncaught_keeps_ret 0 plain_machine 8 _ plain-IsValid refl refl

unwind_loop_exit_example :
    (f' : StackFrame) × (unwind_blocks 1 3 (some (numerical 30)) none nested ≡ ok (f', reason_none))
    × (f'.ip ≡ 40)
    × (f'.blocks ≡ nested.blocks)
    × (contents f' ≡ drop 1 (contents nested))
unwind_loop_exit_example =
    unwind_loop_exit 0 to_end 30 40 50 2 0 none nested (try_block ∷ []) refl nested-IsValid
      nested-AreObjects (omega arith) (omega arith)

jump-patch_value_example :
    (jump true (patch_value 0x83 10 40) (record plain { ip = 13 })).ip
    ≡ (if leb 13 40 then 40 else 40 + 65536)
unfolding operand_size
jump-patch_value_example =
    jump-patch_value (record plain { ip = 13 }) 0x83 10 40 refl refl (omega arith) (omega arith)
      (omega arith) (omega arith)

-- 200 is read as 127.
read_delta-delta_bytes_example :
    read_delta plain ≡ ok (record plain { lineno_current_lino_offset = 2 }, 127)
unfolding delta_bytes
read_delta-delta_bytes_example = read_delta-delta_bytes plain (1 ∷ []) (0 ∷ []) 200 refl refl

pop-push_example :
    (f₁ f₂ : StackFrame) × (vm_frame_stack_push plain (some (attrib (numerical 4))) ≡ ok f₁)
    × (vm_frame_stack_pop f₁ ≡ ok (f₂, attribute_data (attrib (numerical 4))))
    × (contents f₂ ≡ contents plain)
    × (f₂.sp ≡ plain.sp)
    × (f₂.ip ≡ plain.ip)
    × (f₂.blocks ≡ plain.blocks)
pop-push_example = pop-push plain (attrib (numerical 4)) plain-IsValid (omega arith)

block_popped :
    (f₁ : StackFrame) × (create_block nested (loop 1 2) 1 ≡ ok f₁)
    × (vm_pop_block f₁ ≡ ok (nested, record { handlers = loop 1 2; sp = 1; visited = 0 }))
block_popped = pop-push_block nested (loop 1 2) 1 (omega arith)

three_rotated :
    (f' : StackFrame) × (rot_three plain ≡ ok f')
    × Holds
        (some (attribute_data (numerical 7))
          ∷ (some (attribute_data (numerical 1))
              ∷ (some (attribute_data (exception 8)) ∷ (some (boolean true) ∷ []))))
        plain
        f'
three_rotated =
    rot_three_lem plain (exception 8) (numerical 1) (numerical 7) (some (boolean true) ∷ [])
      plain-IsValid refl
