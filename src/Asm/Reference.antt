-- ===== src/Asm/Reference.antt =====
-- The two-pass reading of the assembler: the code that a source frame stands for, once all labels
-- and both tables are known.
use saffire.Prelude.{
  ℕ, ◌+◌, ◌*◌, ◌/◌, ◌%◌, none, some, List, [], ◌∷◌, ◌++◌, Text, text_eq, lookup, length,
}
use saffire.Asm.{
  Opr, op_label, op_string, op_code, op_id, op_regex, op_realnum, op_num, op_compare, op_operator,
  Line, label_line, code_line,
}
use saffire.Asm.Frame.{Backpatch, AsmFrame, is_string, is_regex, is_code, is_long, long_of_int}
use saffire.Asm.Assemble.{patch_value}
use saffire.Asm.Tables.{index_of}

-- What a label stands for in an instruction: its opcode, its offset, the label.
abbrev pub LabelValue : Type 0
LabelValue = ℕ → ℕ → Text → ℕ

-- Before the labels are known.
abbrev pub unpatched : LabelValue
unpatched opcode off s = 0xFFFF

abbrev pub patched : List (Text × ℕ) → LabelValue
patched labels opcode off s = elim (lookup s labels) [
  | some label_off ↦ patch_value opcode off label_off
  | none ↦ 0xFFFF
]

unfoldable pub operand_value : LabelValue → AsmFrame → ℕ → ℕ → Opr → ℕ
operand_value lab f opcode off (op_label s) = lab opcode off s
operand_value lab f opcode off (op_string s) = index_of (is_string s) f.constants
operand_value lab f opcode off (op_regex s) = index_of (is_regex s) f.constants
operand_value lab f opcode off (op_code s) = index_of (is_code s) f.constants
operand_value lab f opcode off (op_num l) = index_of (is_long (long_of_int l)) f.constants
operand_value lab f opcode off (op_id s) = index_of (λ t. text_eq t s) f.identifiers
operand_value lab f opcode off (op_realnum l) = l
operand_value lab f opcode off (op_compare l) = l
operand_value lab f opcode off (op_operator l) = l

-- Each operand is stored in two bytes, low byte first.
unfoldable pub operand_bytes : LabelValue → AsmFrame → ℕ → ℕ → List Opr → List ℕ
operand_bytes lab f opcode off [] = []
operand_bytes lab f opcode off (o ∷ oprs) =
    let v = operand_value lab f opcode off o in
    (v % 256) ∷ ((v / 256 % 256) ∷ operand_bytes lab f opcode off oprs)

unfoldable pub code_size : Line → ℕ
code_size (label_line s) = 0
code_size (code_line lineno opcode oprs) = 1 + 2 * length oprs

unfoldable pub line_bytes : LabelValue → AsmFrame → ℕ → Line → List ℕ
line_bytes lab f off (label_line s) = []
line_bytes lab f off (code_line lineno opcode oprs) =
    (opcode % 256) ∷ operand_bytes lab f (opcode % 256) off oprs

unfoldable pub reference_code : LabelValue → AsmFrame → ℕ → List Line → List ℕ
reference_code lab f off [] = []
reference_code lab f off (line ∷ lines) =
    line_bytes lab f off line ++ reference_code lab f (off + code_size line) lines

-- The labels that the lines define, and the operands that use them.
abbrev pub line_definitions : ℕ → Line → List (Text × ℕ)
line_definitions off (label_line s) = (s, off) ∷ []
line_definitions off (code_line lineno opcode oprs) = []

unfoldable pub label_definitions : ℕ → List Line → List (Text × ℕ)
label_definitions off [] = []
label_definitions off (line ∷ lines) =
    line_definitions off line ++ label_definitions (off + code_size line) lines

abbrev pub label_use : ℕ → ℕ → Opr → List Backpatch
label_use off at (op_label s) = record { opcode_offset = off; operand_offset = at; label = s } ∷ []
label_use off at _ = []

unfoldable pub operand_uses : ℕ → ℕ → List Opr → List Backpatch
operand_uses off at [] = []
operand_uses off at (o ∷ oprs) = label_use off at o ++ operand_uses off (at + 2) oprs

abbrev pub line_uses : ℕ → Line → List Backpatch
line_uses off (label_line s) = []
line_uses off (code_line lineno opcode oprs) = operand_uses off (off + 1) oprs

unfoldable pub label_uses : ℕ → List Line → List Backpatch
label_uses off [] = []
label_uses off (line ∷ lines) = line_uses off line ++ label_uses (off + code_size line) lines
