-- ===== src/Vm/CodeTests.antt =====
-- Assembled code in a frame of the VM, and the theorems about it.
use saffire.Prelude.{ℕ, ◌≡◌, refl, [], ◌∷◌, List, Text, text_eq, lookup, ok, none, arith}
use saffire.Vm.{StackFrame}
use saffire.Vm.Frame.{fetch}
use saffire.Vm.Execute.{Machine, dispatch}
use saffire.Vm.Dispatch.{step}
use saffire.Vm.Decode.{fetch-line_bytes}
use saffire.Vm.JumpLabel.{step-jump_label}
use saffire.Asm.{op_realnum}
use saffire.Asm.Frame.{new_frame}
use saffire.Asm.Assemble.{operand_size, patch_value}
use saffire.Asm.Reference.{patched, operand_value, operand_bytes, line_bytes}

abbrev end_labels : List (Text × ℕ)
end_labels = ((b'e' ∷ []), 9) ∷ []

abbrev frame_with : List ℕ → ℕ → StackFrame
frame_with code ip = record {
  codeframe = record {
    stack_size = 0;
    code = code;
    constants_objects = [];
    identifiers = [];
    lino = [];
  };
  ip = ip;
  lineno_lowerbound = 0;
  lineno_upperbound = 0;
  lineno_current_line = 0;
  lineno_current_lino_offset = 0;
  stack = [];
  sp = 0;
  blocks = [];
}

-- `SETUP_ELSE_LOOP` with two operands, behind a `NOP`.
fetch-line_bytes_example :
    fetch (frame_with (0x09 ∷ (0xC1 ∷ (44 ∷ (1 ∷ (7 ∷ (0 ∷ (0 ∷ []))))))) 1)
    ≡ ok (
      frame_with (0x09 ∷ (0xC1 ∷ (44 ∷ (1 ∷ (7 ∷ (0 ∷ (0 ∷ []))))))) 6,
      record { opcode = 0xC1; oparg1 = 300; oparg2 = 7; oparg3 = 0 },
    )
unfolding line_bytes operand_bytes operand_value operand_size
fetch-line_bytes_example =
    fetch-line_bytes (patched []) new_frame 1 1 0xC1 (op_realnum 300 ∷ (op_realnum 7 ∷ []))
      (frame_with (0x09 ∷ (0xC1 ∷ (44 ∷ (1 ∷ (7 ∷ (0 ∷ (0 ∷ []))))))) 1) (0x09 ∷ []) (0 ∷ [])
      (omega arith) refl refl refl

abbrev jumping : Machine
jumping = record {
  frame = frame_with (0x09 ∷ (0x83 ∷ (5 ∷ (0 ∷ [])))) 1;
  reason = 0;
  ret = none;
  thrown = none;
}

step-jump_label_example :
    step 1 jumping
    ≡ ok (dispatch (record jumping { frame = frame_with (0x09 ∷ (0x83 ∷ (5 ∷ (0 ∷ [])))) 9 }))
unfolding line_bytes operand_bytes operand_value operand_size patch_value lookup text_eq
step-jump_label_example =
    step-jump_label 1 1 9 (b'e' ∷ []) end_labels new_frame jumping (0x09 ∷ []) [] refl refl refl
      (omega arith) (omega arith) (omega arith)
