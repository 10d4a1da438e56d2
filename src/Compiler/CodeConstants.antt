-- ===== src/Compiler/CodeConstants.antt =====
-- The code constants of the frames that src/components/compiler/output/asm.c assembles.
use saffire.Prelude.{
  ℕ, ◌+◌, ◌%◌, ◌≡◌, ◌≤◌, refl, subst, ok-injective, Bool, true, false, inl, inr, List, [], ◌∷◌,
  ◌++◌, arith, ok, >>=-returns, Text, length, lookup, Option-cases,
}
use saffire.Asm.{
  Opr, op_label, op_string, op_code, op_id, op_regex, op_realnum, op_num, op_compare, op_operator,
  Line, label_line, code_line, AsmConstant, const_string, const_code, const_regex, const_long,
}
use saffire.Asm.Frame.{
  AsmFrame, add_codebyte, find_from, convert_constant, convert_constant_string,
  convert_constant_regex, convert_constant_code, convert_constant_numerical, convert_identifier,
}
use saffire.Asm.Assemble.{
  Progress, convert_operand, add_operand, assemble_operands, assemble_line, assemble_lines,
  backpatch_labels, initial_progress, assemble_frame,
}
use saffire.Asm.FirstPass.{note_lineno_frame}
use saffire.Asm.Tables.{find_or_append_hit, find_or_append_miss}
use saffire.Compiler.Hits.{hit, hits}
use saffire.Compiler.Uses.{codes, frames_named}

-- How often constants name a frame.
abbrev pub code_hits : Text → List AsmConstant → ℕ
code_hits t [] = 0
code_hits t (const_code s ∷ cs) = hit t s + code_hits t cs
code_hits t (c ∷ cs) = code_hits t cs

code_hits-append :
    (t : Text) (xs ys : List AsmConstant) → code_hits t (xs ++ ys) ≡ code_hits t xs + code_hits t ys
code_hits-append t [] ys = omega arith
code_hits-append t (const_code s ∷ xs) ys = omega (arith, code_hits-append t xs ys)
code_hits-append t (const_string s ∷ xs) ys = code_hits-append t xs ys
code_hits-append t (const_regex s ∷ xs) ys = code_hits-append t xs ys
code_hits-append t (const_long l ∷ xs) ys = code_hits-append t xs ys

constant_codes :
    (t : Text) (test : AsmConstant → Bool) (c : AsmConstant) (frame : AsmFrame)
    → code_hits t (convert_constant test c frame).0.constants
      ≤ code_hits t frame.constants + code_hits t (c ∷ [])
unfolding convert_constant
constant_codes t test c frame = elim (Option-cases (find_from test 0 frame.constants)) [
  | inl absent ↦
      rw (find_or_append_miss test c frame.constants absent)
        (omega (arith, code_hits-append t frame.constants (c ∷ [])))
  | inr (k, found) ↦ rw (find_or_append_hit test c frame.constants k found) (omega arith)
]

operand_codes :
    (t : Text) (off : ℕ) (o : Opr) (frame : AsmFrame)
    → code_hits t (convert_operand off o frame).0.constants
      ≤ code_hits t frame.constants + hits t (frames_named (o ∷ []))
unfolding convert_operand convert_constant_string convert_constant_regex convert_constant_code
    convert_constant_numerical convert_identifier
operand_codes t off (op_string s) frame = omega (arith, constant_codes t _ (const_string s) frame)
operand_codes t off (op_regex s) frame = omega (arith, constant_codes t _ (const_regex s) frame)
operand_codes t off (op_code s) frame = omega (arith, constant_codes t _ (const_code s) frame)
operand_codes t off (op_num l) frame = omega (arith, constant_codes t _ (const_long _) frame)
operand_codes t off (op_label s) frame = omega arith
operand_codes t off (op_id s) frame = omega arith
operand_codes t off (op_realnum l) frame = omega arith
operand_codes t off (op_compare l) frame = omega arith
operand_codes t off (op_operator l) frame = omega arith

frames_named_cons :
    (t : Text) (o : Opr) (os : List Opr)
    → hits t (frames_named (o ∷ os)) ≡ hits t (frames_named (o ∷ [])) + hits t (frames_named os)
frames_named_cons t (op_code s) os = omega arith
frames_named_cons t (op_string s) os = omega arith
frames_named_cons t (op_regex s) os = omega arith
frames_named_cons t (op_num s) os = omega arith
frames_named_cons t (op_label s) os = omega arith
frames_named_cons t (op_id s) os = omega arith
frames_named_cons t (op_realnum s) os = omega arith
frames_named_cons t (op_compare s) os = omega arith
frames_named_cons t (op_operator s) os = omega arith

operands_codes :
    (t : Text) (off : ℕ) (os : List Opr) (frame : AsmFrame)
    → code_hits t (assemble_operands off os frame).constants
      ≤ code_hits t frame.constants + hits t (frames_named os)
unfolding assemble_operands add_operand add_codebyte
operands_codes t off [] frame = omega arith
operands_codes t off (o ∷ os) frame =
    let (f', v) = convert_operand off o frame in
    omega (
      arith,
      operands_codes t off os (add_operand f' v),
      operand_codes t off o frame,
      frames_named_cons t o os,
    )

line_codes :
    (t : Text) (line : Line) (p q : Progress)
    → assemble_line line p ≡ ok q
    → code_hits t q.frame.constants ≤ code_hits t p.frame.constants + codes t (line ∷ [])
unfolding assemble_line add_codebyte codes
line_codes t (label_line s) p q run = elim (Option-cases (lookup s p.frame.label_offsets)) [
  | inl free ↦
      subst (λ (r : Progress). code_hits t r.frame.constants ≤ code_hits t p.frame.constants + 0)
        (ok-injective (rw (free, assemble_line) at run)) (omega arith)
  | inr (_, taken) ↦ cc (rw (taken, assemble_line) at run)
]
line_codes t (code_line lineno opcode os) p q run =
    subst
      (λ (r : Progress).
        code_hits t r.frame.constants
        ≤ code_hits t p.frame.constants + (hits t (frames_named os) + 0))
      (ok-injective run)
      (rw (note_lineno_frame lineno (length p.frame.code)) (
        omega
          (arith, operands_codes t (length p.frame.code) os (add_codebyte p.frame (opcode % 256)))))

codes_cons :
    (t : Text) (line : Line) (lines : List Line)
    → codes t (line ∷ lines) ≡ codes t (line ∷ []) + codes t lines
unfolding codes
codes_cons t (label_line s) lines = omega arith
codes_cons t (code_line l o os) lines = omega arith

lines_codes :
    (t : Text) (lines : List Line) (p q : Progress)
    → assemble_lines lines p ≡ ok q
    → code_hits t q.frame.constants ≤ code_hits t p.frame.constants + codes t lines
unfolding assemble_lines codes
lines_codes t [] p q run =
    subst (λ (r : Progress). code_hits t r.frame.constants ≤ code_hits t p.frame.constants + 0)
      (ok-injective run) (omega arith)
lines_codes t (line ∷ lines) p q run =
    let (m, first, rest) = >>=-returns (assemble_line line p) (assemble_lines lines) run in
    omega
      (arith, lines_codes t lines m q rest, line_codes t line p m first, codes_cons t line lines)

no_codes : (t : Text) (main : Bool) → code_hits t (initial_progress main).frame.constants ≡ 0
unfolding initial_progress convert_identifier
no_codes t true = refl
no_codes t false = refl

-- The code constants of an assembled frame are named by its lines.
pub frame_codes :
    (t : Text) (lines : List Line) (main : Bool) (f : AsmFrame)
    → assemble_frame lines main ≡ ok f
    → code_hits t f.constants ≤ codes t lines
unfolding assemble_frame
frame_codes t lines main f h =
    let (p, first, rest) = >>=-returns (assemble_lines lines (initial_progress main)) _ h in
    let g = p.frame in
    let (code', second, last) =
      >>=-returns (backpatch_labels g.label_offsets g.backpatch_offsets g.code) _ rest in
    subst (λ (r : AsmFrame). code_hits t r.constants ≤ codes t lines) (ok-injective last)
      (omega (arith, lines_codes t lines (initial_progress main) p first, no_codes t main))
