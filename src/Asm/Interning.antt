-- ===== src/Asm/Interning.antt =====
-- The tables of constants and identifiers that `assemble_frame`
-- (src/components/compiler/output/asm.c) builds.
use saffire.Prelude.{
  ℕ, ◌%◌, ◌≡◌, sym, subst, ok-injective, Bool, true, false, Option, some, none, inl, inr, List, [],
  ◌∷◌, arith, ok, >>=-returns, Text, text_eq, text_eq_refl, eq_of_text_eq, ap, length, lookup,
  Option-cases,
}
use saffire.Asm.{
  Opr, op_label, op_string, op_code, op_id, op_regex, op_realnum, op_num, op_compare, op_operator,
  Line, label_line, code_line, AsmConstant, const_string, const_code, const_regex, const_long,
}
use saffire.Asm.Frame.{
  AsmFrame, add_codebyte, is_string, is_regex, is_code, is_long, long_of_int, find_or_append,
  convert_constant, convert_constant_string, convert_constant_regex, convert_constant_code,
  convert_constant_numerical, convert_identifier,
}
use saffire.Asm.Assemble.{
  Progress, convert_operand, add_operand, assemble_operands, assemble_line, assemble_lines,
  backpatch_labels, initial_progress, self_name, assemble_frame,
}
use saffire.Asm.Tables.{IsDistinct, Singles, Interned, find_or_append-Interned}
use saffire.Asm.FirstPass.{note_lineno_frame}

pub is_string-Singles : (s : Text) → Singles (is_string s) (const_string s)
is_string-Singles s = (text_eq_refl s, accepted)
  where
    accepted : (b : AsmConstant) → is_string s b ≡ true → b ≡ const_string s
    accepted (const_string t) h = ap const_string (sym (eq_of_text_eq s t h))
    accepted (const_code t) h = cc
    accepted (const_regex t) h = cc
    accepted (const_long l) h = cc

pub is_regex-Singles : (s : Text) → Singles (is_regex s) (const_regex s)
is_regex-Singles s = (text_eq_refl s, accepted)
  where
    accepted : (b : AsmConstant) → is_regex s b ≡ true → b ≡ const_regex s
    accepted (const_regex t) h = ap const_regex (sym (eq_of_text_eq s t h))
    accepted (const_code t) h = cc
    accepted (const_string t) h = cc
    accepted (const_long l) h = cc

pub is_code-Singles : (s : Text) → Singles (is_code s) (const_code s)
is_code-Singles s = (text_eq_refl s, accepted)
  where
    accepted : (b : AsmConstant) → is_code s b ≡ true → b ≡ const_code s
    accepted (const_code t) h = ap const_code (sym (eq_of_text_eq s t h))
    accepted (const_string t) h = cc
    accepted (const_regex t) h = cc
    accepted (const_long l) h = cc

pub is_long-Singles : (l : ℕ) → Singles (is_long l) (const_long l)
is_long-Singles l = (ground arith, accepted)
  where
    accepted : (b : AsmConstant) → is_long l b ≡ true → b ≡ const_long l
    accepted (const_long m) h = ap const_long (ground arith)
    accepted (const_string t) h = cc
    accepted (const_regex t) h = cc
    accepted (const_code t) h = cc

pub is_name-Singles : (s : Text) → Singles (λ t. text_eq t s) s
is_name-Singles s = (text_eq_refl s, λ t h. eq_of_text_eq t s h)

-- The constant that an operand stands for.
abbrev pub constant_of : Opr → Option AsmConstant
constant_of (op_string s) = some (const_string s)
constant_of (op_regex s) = some (const_regex s)
constant_of (op_code s) = some (const_code s)
constant_of (op_num l) = some (const_long (long_of_int l))
constant_of _ = none

at_constant :
    (test : AsmConstant → Bool) (a c : AsmConstant) (frame : AsmFrame)
    → Singles test a
    → some a ≡ some c
    → Interned frame.constants c
        ((convert_constant test a frame).0.constants, (convert_constant test a frame).1)
unfolding convert_constant
at_constant test a c frame single e =
    let same : a ≡ c = ap (λ (o : Option AsmConstant). elim o [ some x ↦ x | none ↦ a ]) e in
    subst (λ b. Interned frame.constants b (find_or_append test a frame.constants)) same
      (find_or_append-Interned test a single frame.constants)

-- An operand that names a constant is converted to a position at which the new table holds that
-- constant; the constants of the table before keep their positions, and if none of them stood
-- twice in it, none does now.
pub convert_operand-Interned :
    (opcode_off : ℕ) (o : Opr) (c : AsmConstant) (frame : AsmFrame)
    → constant_of o ≡ some c
    → Interned frame.constants c
        ((convert_operand opcode_off o frame).0.constants, (convert_operand opcode_off o frame).1)
unfolding convert_operand convert_constant_string convert_constant_regex convert_constant_code
    convert_constant_numerical
convert_operand-Interned off (op_string s) c frame h =
    at_constant _ _ c frame (is_string-Singles s) h
convert_operand-Interned off (op_regex s) c frame h = at_constant _ _ c frame (is_regex-Singles s) h
convert_operand-Interned off (op_code s) c frame h = at_constant _ _ c frame (is_code-Singles s) h
convert_operand-Interned off (op_num l) c frame h =
    at_constant _ _ c frame (is_long-Singles (long_of_int l)) h
convert_operand-Interned off (op_label s) c frame h = cc
convert_operand-Interned off (op_id s) c frame h = cc
convert_operand-Interned off (op_realnum l) c frame h = cc
convert_operand-Interned off (op_compare l) c frame h = cc
convert_operand-Interned off (op_operator l) c frame h = cc

-- Neither table of a frame names anything twice.
abbrev pub AreDistinct : AsmFrame → Type 0
AreDistinct frame = IsDistinct frame.constants × IsDistinct frame.identifiers

convert_constant_distinct :
    (test : AsmConstant → Bool) (a : AsmConstant) (frame : AsmFrame)
    → Singles test a
    → AreDistinct frame
    → AreDistinct (convert_constant test a frame).0
unfolding convert_constant
convert_constant_distinct test a frame single (d, e) =
    ((find_or_append-Interned test a single frame.constants).distinct d, e)

convert_identifier_distinct :
    (s : Text) (frame : AsmFrame) → AreDistinct frame → AreDistinct (convert_identifier frame s).0
unfolding convert_identifier
convert_identifier_distinct s frame (d, e) =
    (d, (find_or_append-Interned _ s (is_name-Singles s) frame.identifiers).distinct e)

convert_operand_distinct :
    (off : ℕ) (o : Opr) (frame : AsmFrame)
    → AreDistinct frame
    → AreDistinct (convert_operand off o frame).0
unfolding convert_operand convert_constant_string convert_constant_regex convert_constant_code
    convert_constant_numerical
convert_operand_distinct off (op_string s) frame h =
    convert_constant_distinct _ _ frame (is_string-Singles s) h
convert_operand_distinct off (op_regex s) frame h =
    convert_constant_distinct _ _ frame (is_regex-Singles s) h
convert_operand_distinct off (op_code s) frame h =
    convert_constant_distinct _ _ frame (is_code-Singles s) h
convert_operand_distinct off (op_num l) frame h =
    convert_constant_distinct _ _ frame (is_long-Singles (long_of_int l)) h
convert_operand_distinct off (op_label s) frame h = h
convert_operand_distinct off (op_id s) frame h = convert_identifier_distinct s frame h
convert_operand_distinct off (op_realnum l) frame h = h
convert_operand_distinct off (op_compare l) frame h = h
convert_operand_distinct off (op_operator l) frame h = h

assemble_operands_distinct :
    (off : ℕ) (oprs : List Opr) (frame : AsmFrame)
    → AreDistinct frame
    → AreDistinct (assemble_operands off oprs frame)
unfolding assemble_operands add_operand add_codebyte
assemble_operands_distinct off [] frame h = h
assemble_operands_distinct off (o ∷ oprs) frame h =
    let (f', v) = convert_operand off o frame in
    assemble_operands_distinct off oprs (add_operand f' v) (convert_operand_distinct off o frame h)

assemble_line_distinct :
    (line : Line) (p q : Progress)
    → assemble_line line p ≡ ok q
    → AreDistinct p.frame
    → AreDistinct q.frame
unfolding assemble_line add_codebyte
assemble_line_distinct (label_line s) p q run h =
    elim (Option-cases (lookup s p.frame.label_offsets)) [
      | inl free ↦
          subst (λ (r : Progress). AreDistinct r.frame)
            (ok-injective (rw (free, assemble_line) at run)) h
      | inr (_, taken) ↦ cc (rw (taken, assemble_line) at run)
    ]
assemble_line_distinct (code_line lineno opcode oprs) p q run h =
    subst (λ (r : Progress). AreDistinct r.frame) (ok-injective run)
      (rw (note_lineno_frame lineno (length p.frame.code)) (
        assemble_operands_distinct (length p.frame.code) oprs (add_codebyte p.frame (opcode % 256))
          h))

assemble_lines_distinct :
    (lines : List Line) (p q : Progress)
    → assemble_lines lines p ≡ ok q
    → AreDistinct p.frame
    → AreDistinct q.frame
unfolding assemble_lines
assemble_lines_distinct [] p q run h =
    subst (λ (r : Progress). AreDistinct r.frame) (ok-injective run) h
assemble_lines_distinct (line ∷ lines) p q run h =
    let (m, first, rest) = >>=-returns (assemble_line line p) (assemble_lines lines) run in
    assemble_lines_distinct lines m q rest (assemble_line_distinct line p m first h)

nothing_twice : AreDistinct (initial_progress true).frame
unfolding initial_progress
nothing_twice = (λ i j a h k. cc, λ i j a h k. cc)

initial_distinct : (main : Bool) → AreDistinct (initial_progress main).frame
unfolding initial_progress
initial_distinct true = nothing_twice
initial_distinct false = convert_identifier_distinct self_name _ nothing_twice

-- In the frame that `assemble_frame` returns no constant stands at two positions, and no
-- identifier does.
pub assemble_frame_distinct :
    (lines : List Line) (main : Bool) (f : AsmFrame)
    → assemble_frame lines main ≡ ok f
    → AreDistinct f
unfolding assemble_frame
assemble_frame_distinct lines main f h =
    let (p, first, rest) = >>=-returns (assemble_lines lines (initial_progress main)) _ h in
    let g = p.frame in
    let (code', second, last) =
      >>=-returns (backpatch_labels g.label_offsets g.backpatch_offsets g.code) _ rest in
    subst AreDistinct (ok-injective last)
      (assemble_lines_distinct lines (initial_progress main) p first (initial_distinct main))
