-- ===== src/Vm/Frame.antt =====
-- src/components/vm/stackframe.c: instruction fetch, the variable stack, constants and names.
pub mod Stack
pub mod Moves
use saffire.Prelude.{
  ℕ, ◌+◌, ◌-◌, ◌*◌, ◌^◌, ◌&&◌, Option, none, some, List, [], Text, bit_and, Run, ok, fatal_error,
  undefined, ◌>>=◌, trying_to_pop, outside_stack, outside_constants, outside_identifiers, length,
  get_elem?, set, replicate, leb, ltb, ◌==◌, if◌then◌else◌,
}
use saffire.Vm.{Object, attrib, ObjectPtr, CodeFrame, StackFrame}

-- The part of `vm_stackframe_new` that sets up execution.
unfoldable pub vm_stackframe_new : CodeFrame → StackFrame
vm_stackframe_new codeframe = record {
  codeframe = codeframe;
  ip = 0;
  lineno_lowerbound = 0;
  lineno_upperbound = 0;
  lineno_current_line = 0;
  lineno_current_lino_offset = 0;
  stack = replicate codeframe.stack_size none;
  sp = codeframe.stack_size;
  blocks = [];
}

abbrev pub vm_stop : ℕ
vm_stop = 0x00

-- Running off the code stops the frame.
unfoldable pub vm_frame_get_next_opcode : StackFrame → StackFrame × ℕ
vm_frame_get_next_opcode frame = elim (get_elem? frame.codeframe.code frame.ip) [
  | none ↦ (frame, vm_stop)
  | some op ↦ (record frame { ip = frame.ip + 1 }, op)
]

-- A `uint16_t` of a little-endian machine, unchecked.
unfoldable pub vm_frame_get_operand : StackFrame → Run (StackFrame × ℕ)
vm_frame_get_operand frame = elim (get_elem? frame.codeframe.code frame.ip) [
  | none ↦ undefined
  | some low ↦ elim (get_elem? frame.codeframe.code (frame.ip + 1)) [
    | none ↦ undefined
    | some high ↦ ok (record frame { ip = frame.ip + 2 }, low + 256 * high)
  ]
]

-- `*slot`, undefined outside the allocated stack
unfoldable pub read_slot : StackFrame → ℕ → Run ObjectPtr
read_slot frame i = elim (get_elem? frame.stack i) [ none ↦ undefined | some obj ↦ ok obj ]

unfoldable pub write_slot : StackFrame → ℕ → ObjectPtr → Run StackFrame
write_slot frame i obj =
    if ltb i (length frame.stack)
    then ok (record frame { stack = set frame.stack i obj })
    else undefined

unfoldable pub vm_frame_stack_pop_attrib : StackFrame → Run (StackFrame × ObjectPtr)
vm_frame_stack_pop_attrib frame =
    if leb frame.codeframe.stack_size frame.sp then fatal_error trying_to_pop else do
      ret ← read_slot frame frame.sp
      frame' ← write_slot frame frame.sp none
      ok (record frame' { sp = frame.sp + 1 }, ret)

-- An attribute object is replaced by its data.
unfoldable pub attribute_data : Object → Object
attribute_data (attrib a) = a
attribute_data o = o

-- `obj->type` of `NULL` is undefined.
unfoldable pub vm_frame_stack_pop : StackFrame → Run (StackFrame × Object)
vm_frame_stack_pop frame = do
  (frame', obj) ← vm_frame_stack_pop_attrib frame
  elim obj [ none ↦ undefined | some o ↦ ok (frame', attribute_data o) ]

-- `sp` is unsigned: the test `frame->sp < 0` never holds, and `sp--` wraps below 0.
unfoldable pub vm_frame_stack_push : StackFrame → ObjectPtr → Run StackFrame
vm_frame_stack_push frame obj =
    let sp = if frame.sp == 0 then 2 ^ 32 - 1 else frame.sp - 1 in
    write_slot (record frame { sp = sp }) sp obj

unfoldable pub vm_frame_stack_modify : StackFrame → ℕ → ObjectPtr → Run StackFrame
vm_frame_stack_modify frame idx obj = write_slot frame idx obj

unfoldable pub vm_frame_stack_fetch_top : StackFrame → Run ObjectPtr
vm_frame_stack_fetch_top frame = read_slot frame frame.sp

unfoldable pub vm_frame_stack_fetch : StackFrame → ℕ → Run ObjectPtr
vm_frame_stack_fetch frame idx =
    if leb frame.codeframe.stack_size idx then fatal_error outside_stack else read_slot frame idx

unfoldable pub vm_frame_get_constant : StackFrame → ℕ → Run Object
vm_frame_get_constant frame idx = elim (get_elem? frame.codeframe.constants_objects idx) [
  | none ↦ fatal_error outside_constants
  | some obj ↦ ok obj
]

unfoldable pub vm_frame_get_name : StackFrame → ℕ → Run Text
vm_frame_get_name frame idx = elim (get_elem? frame.codeframe.identifiers idx) [
  | none ↦ fatal_error outside_identifiers
  | some s ↦ ok s
]

-- `((opcode & mask) == mask) ? vm_frame_get_operand(frame) : 0`
unfoldable pub masked_operand : ℕ → ℕ → StackFrame → Run (StackFrame × ℕ)
masked_operand opcode mask frame =
    if bit_and opcode mask == mask then vm_frame_get_operand frame else ok (frame, 0)

-- The head of the dispatch loop: an opcode and its operands, 0 where it has none.
pub record Instruction : Type 0 where
  pub opcode : ℕ
  pub oparg1 : ℕ
  pub oparg2 : ℕ
  pub oparg3 : ℕ

unfoldable pub fetch : StackFrame → Run (StackFrame × Instruction)
fetch frame = do
  let (f₀, op) = vm_frame_get_next_opcode frame
  (f₁, a) ← masked_operand op 0x80 f₀
  (f₂, b) ← masked_operand op 0xC0 f₁
  (f₃, c) ← masked_operand op 0xE0 f₂
  ok (f₃, record { opcode = op; oparg1 = a; oparg2 = b; oparg3 = c })
