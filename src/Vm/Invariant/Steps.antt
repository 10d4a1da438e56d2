-- ===== src/Vm/Invariant/Steps.antt =====
-- Well-formed frames and the dispatch loop of src/components/vm/vm.c.
use saffire.Prelude.{
  ℕ, ◌+◌, ◌≡◌, Run, ok, Ends, Ends-bind, Ends-eq, Ends-if, ◌==◌, if◌then◌else◌, true, false,
}
use saffire.Vm.{loop}
use saffire.Vm.Frame.{vm_stop, vm_frame_stack_pop, Instruction, fetch}
use saffire.Vm.Block.{vm_push_block_loop, vm_pop_block}
use saffire.Vm.Unwind.{reason_none, unwind_blocks}
use saffire.Vm.Execute.{Machine, Control, dispatch, block_end, stopped, outside, continue_with}
use saffire.Vm.Dispatch.{
  vm_reserved, vm_jump_forward, left_out, is_one_of, other_opcode, operand_opcode, execute, finish,
  step,
}
use saffire.Vm.Invariant.{IsSound, IsSound-ip}
use saffire.Vm.Invariant.Stacks.{
  pop-IsSound, create_block-IsSound, pop_block-IsSound, fetch-IsSound,
}
use saffire.Vm.Invariant.Unwinding.{unwind_blocks-IsSound}
use saffire.Vm.Invariant.Opcodes.{
  IsSoundControl, rot_two-IsSound, rot_three-IsSound, rot_four-IsSound, dup_top-IsSound,
  dup_topx-IsSound, load_const-IsSound, setup_except-IsSound, continue_sound, pop_frame-IsSound,
  jump-IsSound, jump_if_sound, jump_if_first_sound, return_op_sound, end_finally_sound, throw_sound,
}

loop_block_sound :
    (m : Machine) (ip ip_else : ℕ)
    → IsSound m.frame
    → Ends IsSoundControl (continue_with m (vm_push_block_loop m.frame m.frame.sp ip ip_else))
unfolding vm_push_block_loop
loop_block_sound m ip ip_else s =
    continue_sound m _ (create_block-IsSound m.frame (loop ip ip_else) m.frame.sp s s.valid.inside)

other_sound : (op : ℕ) (m : Machine) → IsSound m.frame → Ends IsSoundControl (other_opcode op m)
unfolding other_opcode
other_sound op m s =
    Ends-if IsSoundControl (is_one_of op left_out) (ok outside) (ok (block_end m)) tt s

-- A test in a chain of tests.
case_sound :
    (i : Instruction) (op : ℕ) (this rest : Run Control)
    → Ends IsSoundControl this
    → Ends IsSoundControl rest
    → Ends IsSoundControl (if i.opcode == op then this else rest)
case_sound i op this rest h k = Ends-if IsSoundControl (i.opcode == op) this rest h k

operand_opcode_sound :
    (i : Instruction) (m : Machine) → IsSound m.frame → Ends IsSoundControl (operand_opcode i m)
unfolding operand_opcode
operand_opcode_sound i m s =
    case_sound i 0x81 _ _ (continue_sound m _ (load_const-IsSound i.oparg1 m.frame s)) (
      case_sound i vm_jump_forward _ _ (jump-IsSound true i.oparg1 m.frame s) (
        case_sound i 0x84 _ _ (jump_if_sound true i.oparg1 m s) (
          case_sound i 0x85 _ _ (jump_if_sound false i.oparg1 m s) (
            case_sound i 0x86 _ _ (IsSound-ip m.frame i.oparg1 s) (
              case_sound i 0x87 _ _ (continue_sound m _ (dup_topx-IsSound i.oparg1 m.frame s)) (
                case_sound i 0x90 _ _ (loop_block_sound m (m.frame.ip + i.oparg1) 0 s) (
                  case_sound i 0x92 _ _ s (
                    case_sound i 0xA0 _ _ (jump_if_first_sound false i.oparg1 m s) (
                      case_sound i 0xA1 _ _ (jump_if_first_sound true i.oparg1 m s) (
                        case_sound i 0xC1 _ _
                          (loop_block_sound m (m.frame.ip + i.oparg1) (m.frame.ip + i.oparg2) s)
                          (case_sound i 0xE0 _ _
                            (continue_sound m _
                              (setup_except-IsSound i.oparg1 i.oparg2 i.oparg3 m.frame s))
                            (other_sound i.opcode m s))))))))))))

execute_sound :
    (i : Instruction) (m : Machine) → IsSound m.frame → Ends IsSoundControl (execute i m)
unfolding execute
execute_sound i m s = case_sound i vm_stop _ _ tt (
    case_sound i vm_reserved _ _ tt (
      case_sound i 0x01 _ _
        (continue_sound m _
          (pop_frame-IsSound (vm_frame_stack_pop m.frame) (pop-IsSound m.frame s)))
        (case_sound i 0x02 _ _ (continue_sound m _ (rot_two-IsSound m.frame s)) (
          case_sound i 0x03 _ _ (continue_sound m _ (rot_three-IsSound m.frame s)) (
            case_sound i 0x04 _ _ (continue_sound m _ (dup_top-IsSound m.frame s)) (
              case_sound i 0x05 _ _ (continue_sound m _ (rot_four-IsSound m.frame s)) (
                case_sound i 0x09 _ _ s (
                  case_sound i 0x10 _ _ (throw_sound m s) (
                    case_sound i 0x72 _ _
                      (continue_sound m _
                        (pop_frame-IsSound (vm_pop_block m.frame) (pop_block-IsSound m.frame s)))
                      (case_sound i 0x73 _ _ (return_op_sound m s) (
                        case_sound i 0x74 _ _ s (
                          case_sound i 0x75 _ _ s (
                            case_sound i 0x7A _ _ (end_finally_sound m s)
                              (operand_opcode_sound i m s))))))))))))))

finish_sound : (fuel : ℕ) (c : Control) → IsSoundControl c → Ends IsSoundControl (finish fuel c)
unfolding finish
finish_sound fuel (dispatch m) s = s
finish_sound fuel (stopped ret) s = tt
finish_sound fuel outside s = tt
finish_sound fuel (block_end m) s =
    Ends-bind _ _ (unwind_blocks fuel m.reason m.ret m.thrown m.frame) _
      (unwind_blocks-IsSound fuel m.reason m.ret m.thrown m.frame s)
      (λ r h. Ends-if _ (r.1 == reason_none) _ _ h tt)

-- A round of the loop from a well-formed frame: where it goes on at `dispatch`, the stack pointer
-- and the saved ones are inside the stack, and there are at most as many blocks as the array
-- holds.
pub step_sound :
    (fuel : ℕ) (m : Machine) (c : Control) → IsSound m.frame → step fuel m ≡ ok c → IsSoundControl c
unfolding step
step_sound fuel m c s run = Ends-eq IsSoundControl (step fuel m) c run (
    Ends-bind _ _ (fetch m.frame) _ (fetch-IsSound m.frame s) (λ r h.
      Ends-bind _ _ (execute r.1 (record m { frame = r.0 })) _
        (execute_sound r.1 (record m { frame = r.0 }) h) (λ d k. finish_sound fuel d k)))
