-- ===== src/Asm.antt =====
-- The assembler of src/components/compiler/output/asm.c: its input lines, from
-- src/include/compiler/output/asm.h, with the passes below.
pub mod Frame
pub mod Assemble
pub mod Tables
pub mod Reference
pub mod Operands
pub mod FirstPass
pub mod SecondPass
pub mod TwoPass
pub mod FirstOutcome
pub mod SecondOutcome
pub mod Interning
pub mod Held
pub mod Outcomes
mod Tests
use saffire.Prelude.{ℕ, List, Text}

-- `t_asm_opr`, by the `ASM_LINE_TYPE_OP_*` of its type. A number is the 32-bit pattern of the `int`
-- that `asm_create_opr` stores.
pub data Opr : Type 0 where
  op_label op_string op_code op_id op_regex : Text → Opr
  op_realnum op_num op_compare op_operator : ℕ → Opr

-- `t_asm_line`: a label, or the line number, the opcode and the operands of an instruction.
pub data Line : Type 0 where
  label_line : Text → Line
  code_line : (lineno opcode : ℕ) → List Opr → Line

-- `t_asm_constant`. A `long` is its 64-bit pattern.
pub data AsmConstant : Type 0 where
  const_string const_code const_regex : Text → AsmConstant
  const_long : ℕ → AsmConstant
