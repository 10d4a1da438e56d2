-- ===== src/Asm/Assemble.antt =====
-- `assemble_frame` and `_backpatch_labels` of src/components/compiler/output/asm.c.
use saffire.Prelude.{
  ℕ, zero, suc, ◌+◌, ◌-◌, ◌/◌, ◌%◌, ◌^◌, Bool, none, some, List, [], ◌∷◌, ◌++◌, map, bit_and, Text,
  lookup, Run, ok, fatal_error, undefined, ◌>>=◌, cannot_find_label, label_already_defined, length,
  get_elem?, set, ltb, leb, ◌==◌, if◌then◌else◌, ◌&&◌, ◌||◌, not,
}
use saffire.Asm.{
  Opr, op_label, op_string, op_code, op_id, op_regex, op_realnum, op_num, op_compare, op_operator,
  Line, label_line, code_line,
}
use saffire.Asm.Frame.{
  Backpatch, AsmFrame, new_frame, add_codebyte, convert_constant_string, convert_constant_regex,
  convert_constant_code, convert_constant_numerical, convert_identifier,
}

-- The switch over the type of an operand: the frame, and the value `opr`.
unfoldable pub convert_operand : ℕ → Opr → AsmFrame → AsmFrame × ℕ
convert_operand opcode_off (op_label s) frame =
    let bp : Backpatch = record {
      opcode_offset = opcode_off;
      operand_offset = length frame.code;
      label = s;
    } in
    (record frame { backpatch_offsets = frame.backpatch_offsets ++ bp ∷ [] }, 0xFFFF)
convert_operand opcode_off (op_string s) frame = convert_constant_string frame s
convert_operand opcode_off (op_regex s) frame = convert_constant_regex frame s
convert_operand opcode_off (op_code s) frame = convert_constant_code frame s
convert_operand opcode_off (op_num l) frame = convert_constant_numerical frame l
convert_operand opcode_off (op_realnum l) frame = (frame, l)
convert_operand opcode_off (op_compare l) frame = (frame, l)
convert_operand opcode_off (op_operator l) frame = (frame, l)
convert_operand opcode_off (op_id s) frame = convert_identifier frame s

-- The low 8 bits of an operand, then the next 8.
unfoldable pub add_operand : AsmFrame → ℕ → AsmFrame
add_operand frame opr = add_codebyte (add_codebyte frame (opr % 256)) (opr / 256 % 256)

unfoldable pub assemble_operands : ℕ → List Opr → AsmFrame → AsmFrame
assemble_operands opcode_off [] frame = frame
assemble_operands opcode_off (o ∷ oprs) frame =
    let (frame', opr) = convert_operand opcode_off o frame in
    assemble_operands opcode_off oprs (add_operand frame' opr)

-- The `do … while (delta != 0)` loop that splits a delta into bytes, on fuel.
unfoldable pub delta_bytes : ℕ → ℕ → List ℕ
delta_bytes zero delta = []
delta_bytes (suc fuel) delta =
    let rest = delta_bytes fuel (delta - 127) in if ltb 127 delta then 255 ∷ rest else delta ∷ []

-- A negative `delta_lineno` takes the second branch at once, and `i & 0xFF` of it is stored.
unfoldable pub lineno_bytes : ℕ → ℕ → List ℕ
lineno_bytes old new =
    if ltb new old
    then ((256 - (old - new) % 256) % 256) ∷ []
    else delta_bytes (suc (new - old)) (new - old)

-- The locals `tc`, `old_lineno` and `old_opcode_off` of the loop over the lines.
pub record Progress : Type 0 where
  pub frame : AsmFrame
  pub tc : List ℕ
  pub old_lineno : ℕ
  pub old_opcode_off : ℕ

unfoldable pub note_lineno : ℕ → ℕ → Progress → Progress
note_lineno lineno opcode_off p =
    if not (lineno == 0) && not (lineno == p.old_lineno)
    then record p {
      tc =
          p.tc
          ++ (delta_bytes (suc (opcode_off - p.old_opcode_off)) (opcode_off - p.old_opcode_off)
              ++ lineno_bytes p.old_lineno lineno);
      old_lineno = lineno;
      old_opcode_off = opcode_off;
    }
    else p

-- The body of the loop over the lines.
unfoldable pub assemble_line : Line → Progress → Run Progress
assemble_line (label_line s) p = elim (lookup s p.frame.label_offsets) [
  | some _ ↦ fatal_error label_already_defined
  | none ↦ ok (record p {
    frame = record (p.frame) {
      label_offsets = p.frame.label_offsets ++ (s, length p.frame.code) ∷ [];
    };
  })
]
assemble_line (code_line lineno opcode oprs) p =
    let opcode_off = length p.frame.code in
    let p₁ =
      note_lineno lineno opcode_off (record p { frame = add_codebyte p.frame (opcode % 256) }) in
    ok (record p₁ { frame = assemble_operands opcode_off oprs p₁.frame })

unfoldable pub assemble_lines : List Line → Progress → Run Progress
assemble_lines [] p = ok p
assemble_lines (line ∷ lines) p = assemble_line line p >>= assemble_lines lines

-- An opcode has an operand for each of the masks 0x80, 0xC0 and 0xE0 that it covers.
unfoldable pub operand_size : ℕ → ℕ
operand_size opcode =
    (if bit_and opcode 0x80 == 0x80 then 2 else 0)
    + (if bit_and opcode 0xC0 == 0xC0 then 2 else 0)
    + (if bit_and opcode 0xE0 == 0xE0 then 2 else 0)

-- `VM_BUILD_CLASS`, `VM_CONTINUE_LOOP`, `VM_JUMP_ABSOLUTE`
abbrev pub is_absolute : ℕ → Bool
is_absolute opcode = opcode == 0x93 || (opcode == 0x92 || opcode == 0x86)

-- What is stored for a label: the offset, or its distance from the end of the instruction as an
-- `unsigned int`, and of that the low 16 bits.
unfoldable pub patch_value : ℕ → ℕ → ℕ → ℕ
patch_value opcode opcode_off label_off =
    (if is_absolute opcode
      then label_off
      else (label_off + 2 ^ 32 - (opcode_off + 1 + operand_size opcode)) % 2 ^ 32)
    % 2 ^ 16

-- `*(uint16_t *)(frame->code + offset) = value` on a little-endian machine
unfoldable pub store_u16 : List ℕ → ℕ → ℕ → Run (List ℕ)
store_u16 bytes off v =
    if ltb (off + 1) (length bytes)
    then ok (set (set bytes off (v % 256)) (off + 1) (v / 256))
    else undefined

-- A label that is nowhere declared: the message has it without the 10 characters of `userlabel_`, and
-- of a shorter label what stands behind its end is read.
unfoldable pub missing_label {ℓ} : {A : Type ℓ} → Text → Run A
missing_label label = if leb 10 (length label) then fatal_error cannot_find_label else undefined

unfoldable pub backpatch_labels : List (Text × ℕ) → List Backpatch → List ℕ → Run (List ℕ)
backpatch_labels labels [] code = ok code
backpatch_labels labels (bp ∷ bps) code = elim (lookup bp.label labels) [
  | none ↦ missing_label bp.label
  | some label_off ↦ elim (get_elem? code bp.opcode_offset) [
    | none ↦ undefined
    | some opcode ↦
        store_u16 code bp.operand_offset (patch_value opcode bp.opcode_offset label_off)
        >>= backpatch_labels labels bps
  ]
]

-- The line table: all of `tc` but its first element, and a trailing marker.
unfoldable pub line_table : List ℕ → List ℕ
line_table [] = []
line_table (_ ∷ rest) = map (λ i. i % 256) rest ++ 0 ∷ []

abbrev pub self_name : Text
self_name = b's' ∷ b'e' ∷ b'l' ∷ b'f' ∷ []

-- The frame that the loop starts from: a method has `self` as its first identifier.
unfoldable pub initial_progress : Bool → Progress
initial_progress mainframe = record {
  frame = if mainframe then new_frame else (convert_identifier new_frame self_name).0;
  tc = [];
  old_lineno = 0;
  old_opcode_off = 0;
}

-- `assemble_frame`. `_calculate_maximum_stack_size` is 42.
unfoldable pub assemble_frame : List Line → Bool → Run AsmFrame
assemble_frame lines mainframe = do
  p ← assemble_lines lines (initial_progress mainframe)
  let frame = p.frame
  code ← backpatch_labels frame.label_offsets frame.backpatch_offsets frame.code
  ok (record frame { code = code; stack_size = 42; lino = line_table p.tc })
