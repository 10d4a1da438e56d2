-- ===== src/Vm/Dispatch.antt =====
-- The switch over the opcodes of `_vm_execute` of src/components/vm/vm.c, and a round of its loop.
use saffire.Prelude.{
  ℕ, ◌+◌, Bool, true, false, ◌||◌, some, List, [], ◌∷◌, Run, ok, fatal_error, ◌>>=◌,
  reserved_opcode, ◌==◌, if◌then◌else◌,
}
use saffire.Vm.{numerical}
use saffire.Vm.Frame.{vm_stop, vm_frame_stack_pop, Instruction, fetch}
use saffire.Vm.Block.{vm_push_block_loop, vm_pop_block}
use saffire.Vm.Unwind.{reason_none, reason_continue, reason_break, reason_breakelse, unwind_blocks}
use saffire.Vm.Execute.{
  Machine, Control, dispatch, block_end, stopped, outside, rot_two, rot_three, rot_four, dup_top,
  dup_topx, load_const, setup_except, continue_with, pop_frame, jump, jump_if, jump_if_first,
  return_op, end_finally, throw,
}

-- `VM_*` of vm_opcodes.dat
abbrev pub vm_reserved : ℕ
vm_reserved = 0xFF

abbrev pub vm_jump_forward : ℕ
vm_jump_forward = 0x83

-- Opcodes whose cases call objects or look names up.
abbrev pub left_out : List ℕ
left_out =
    0x7B ∷ 0x7F ∷ 0x80 ∷ 0x82 ∷ 0x93 ∷ 0x94 ∷ 0x95 ∷ 0xA6 ∷ 0xA7 ∷ 0xA8 ∷ 0xAA ∷ 0xAB ∷ 0xAC ∷ 0xB1
    ∷ 0xB8 ∷ 0xBD ∷ 0xBF ∷ 0xC2 ∷ 0xC3 ∷ []

abbrev pub is_one_of : ℕ → List ℕ → Bool
is_one_of n [] = false
is_one_of n (m ∷ ms) = n == m || is_one_of n ms

-- An opcode that no case names reaches `block_end` as it is.
unfoldable pub other_opcode : ℕ → Machine → Run Control
other_opcode op m = if is_one_of op left_out then ok outside else ok (block_end m)

-- The opcodes with operands.
unfoldable pub operand_opcode : Instruction → Machine → Run Control
operand_opcode i m =
    if i.opcode == 0x81
    then continue_with m (load_const i.oparg1 m.frame)
    else if i.opcode == vm_jump_forward
    then ok (dispatch (record m { frame = jump true i.oparg1 m.frame }))
    else if i.opcode == 0x84
    then jump_if true i.oparg1 m
    else if i.opcode == 0x85
    then jump_if false i.oparg1 m
    else if i.opcode == 0x86
    then ok (dispatch (record m { frame = record (m.frame) { ip = i.oparg1 } }))
    else if i.opcode == 0x87
    then continue_with m (dup_topx i.oparg1 m.frame)
    else if i.opcode == 0x90
    then continue_with m (vm_push_block_loop m.frame m.frame.sp (m.frame.ip + i.oparg1) 0)
    else if i.opcode == 0x92
    then ok (block_end (record m { ret = some (numerical i.oparg1); reason = reason_continue }))
    else if i.opcode == 0xA0
    then jump_if_first false i.oparg1 m
    else if i.opcode == 0xA1
    then jump_if_first true i.oparg1 m
    else if i.opcode == 0xC1
    then continue_with m
        (vm_push_block_loop m.frame m.frame.sp (m.frame.ip + i.oparg1) (m.frame.ip + i.oparg2))
    else if i.opcode == 0xE0
    then continue_with m (setup_except i.oparg1 i.oparg2 i.oparg3 m.frame)
    else other_opcode i.opcode m

-- The switch, with the tests for `VM_STOP` and `VM_RESERVED` in front of it.
unfoldable pub execute : Instruction → Machine → Run Control
execute i m =
    if i.opcode == vm_stop
    then ok (stopped m.ret)
    else if i.opcode == vm_reserved
    then fatal_error reserved_opcode
    else if i.opcode == 0x01
    then continue_with m (pop_frame (vm_frame_stack_pop m.frame))
    else if i.opcode == 0x02
    then continue_with m (rot_two m.frame)
    else if i.opcode == 0x03
    then continue_with m (rot_three m.frame)
    else if i.opcode == 0x04
    then continue_with m (dup_top m.frame)
    else if i.opcode == 0x05
    then continue_with m (rot_four m.frame)
    else if i.opcode == 0x09
    then ok (dispatch m)
    else if i.opcode == 0x10
    then throw m
    else if i.opcode == 0x72
    then continue_with m (pop_frame (vm_pop_block m.frame))
    else if i.opcode == 0x73
    then return_op m
    else if i.opcode == 0x74
    then ok (block_end (record m { reason = reason_break }))
    else if i.opcode == 0x75
    then ok (block_end (record m { reason = reason_breakelse }))
    else if i.opcode == 0x7A
    then end_finally m
    else operand_opcode i m

-- `block_end`: the frame is left unless the unwinding clears the reason. The rounds of the
-- unwinding are on fuel.
unfoldable pub finish : ℕ → Control → Run Control
finish fuel (dispatch m) = ok (dispatch m)
finish fuel (stopped ret) = ok (stopped ret)
finish fuel outside = ok outside
finish fuel (block_end m) = do
  (f, reason) ← unwind_blocks fuel m.reason m.ret m.thrown m.frame
  if reason == reason_none
      then ok (dispatch (record m { frame = f; reason = reason }))
      else ok (stopped m.ret)

-- A round of the loop, from `dispatch` on.
unfoldable pub step : ℕ → Machine → Run Control
step fuel m = do
  (f, i) ← fetch m.frame
  control ← execute i (record m { frame = f })
  finish fuel control
