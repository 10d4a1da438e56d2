-- ===== src/Asm/Tests.antt =====
-- Frames that the assembler builds, and the theorems about it at them.
use saffire.Prelude.{
  ◌≡◌, true, [], ◌∷◌, List, Text, text_eq, fatal_error, cannot_find_label, label_already_defined,
}
use saffire.Asm.{op_label, op_string, op_id, Line, label_line, code_line}
use saffire.Asm.Assemble.{missing_label, assemble_frame}
use saffire.Asm.Reference.{label_definitions, label_uses, operand_uses, code_size}
use saffire.Asm.FirstOutcome.{distinct_labels, defined_labels, first_missing}
use saffire.Asm.Outcomes.{AssembleEnds, assemble_frame-outcome}
use saffire.Asm.Interning.{AreDistinct, assemble_frame_distinct}

abbrev top_label : Text
top_label = b't' ∷ b'o' ∷ b'p' ∷ []

abbrev end_label : Text
end_label = b'e' ∷ b'n' ∷ b'd' ∷ []

abbrev long_label : Text
long_label = b'w' ∷ b'h' ∷ b'i' ∷ b'l' ∷ b'e' ∷ b'_' ∷ b'0' ∷ b'0' ∷ b'1' ∷ b'_' ∷ []

-- A loop: a jump to the end, and one back to the start.
abbrev loop_lines : List Line
loop_lines =
    label_line top_label
    ∷ code_line 1 0x81 (op_string (b'x' ∷ []) ∷ [])
    ∷ code_line 1 0x82 (op_id (b'v' ∷ []) ∷ [])
    ∷ code_line 2 0x83 (op_label end_label ∷ [])
    ∷ code_line 2 0x86 (op_label top_label ∷ [])
    ∷ label_line end_label
    ∷ code_line 3 0x73 []
    ∷ []

abbrev loop_run : AssembleEnds true true loop_lines true
unfolding text_eq distinct_labels defined_labels label_definitions label_uses operand_uses code_size
loop_run = assemble_frame-outcome loop_lines true

assemble_frame-outcome_example : AssembleEnds true true loop_lines true
unfolding text_eq distinct_labels defined_labels label_definitions label_uses operand_uses code_size
assemble_frame-outcome_example = assemble_frame-outcome loop_lines true

assemble_frame_distinct_example : AreDistinct loop_run.0
assemble_frame_distinct_example = assemble_frame_distinct loop_lines true loop_run.0 loop_run.1

-- A label declared twice, and a label that is missing.
twice :
    assemble_frame (label_line top_label ∷ (label_line top_label ∷ [])) true
    ≡ fatal_error label_already_defined
unfolding text_eq distinct_labels defined_labels label_definitions label_uses operand_uses code_size
twice = assemble_frame-outcome (label_line top_label ∷ (label_line top_label ∷ [])) true

missing :
    assemble_frame (code_line 1 0x86 (op_label long_label ∷ []) ∷ []) true
    ≡ fatal_error cannot_find_label
unfolding missing_label first_missing text_eq distinct_labels defined_labels label_definitions
    label_uses operand_uses code_size
missing = assemble_frame-outcome (code_line 1 0x86 (op_label long_label ∷ []) ∷ []) true
