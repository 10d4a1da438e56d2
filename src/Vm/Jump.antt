-- ===== src/Vm/Jump.antt =====
-- Relative operands as src/components/compiler/output/asm.c stores them and src/components/vm/vm.c
-- adds them.
use saffire.Prelude.{
  ℕ, ◌+◌, ◌-◌, ◌%◌, ◌^◌, ◌≤◌, ◌<◌, ◌≡◌, true, false, arith, leb, sym, if◌then◌else◌,
}
use saffire.Vm.{StackFrame}
use saffire.Vm.Execute.{jump}
use saffire.Asm.Assemble.{operand_size, is_absolute, patch_value}

patched_distance :
    (ip label_off : ℕ)
    → label_off < ip + 2 ^ 16
    → ip ≤ label_off + 2 ^ 16
    → label_off < 2 ^ 31
    → ip < 2 ^ 31
    → ip + (label_off + 2 ^ 32 - ip) % 2 ^ 32 % 2 ^ 16
      ≡ (if leb ip label_off then label_off else label_off + 2 ^ 16)
patched_distance ip label_off near back small here = ground arith

-- A jump taken at the end of an instruction with a relative operand, which is a label at or behind
-- that end and less than 2 ^ 16 bytes away, lands at the label. One whose label is before it and
-- at most 2 ^ 16 bytes away lands 2 ^ 16 bytes behind the label. All offsets are below 2 ^ 31.
pub jump-patch_value :
    (f : StackFrame) (opcode off label_off : ℕ)
    → is_absolute opcode ≡ false
    → f.ip ≡ off + 1 + operand_size opcode
    → label_off < f.ip + 2 ^ 16
    → f.ip ≤ label_off + 2 ^ 16
    → label_off < 2 ^ 31
    → f.ip < 2 ^ 31
    → (jump true (patch_value opcode off label_off) f).ip
      ≡ (if leb f.ip label_off then label_off else label_off + 2 ^ 16)
unfolding jump patch_value
jump-patch_value f opcode off label_off relative at near back small here =
    rw (relative, sym at) (patched_distance f.ip label_off near back small here)
