-- ===== src/Asm/FirstPass.antt =====
-- What one pass over the lines appends to the code, to the labels and to the list of backpatches.
use saffire.Prelude.{
  ℕ, ◌+◌, ◌*◌, ◌%◌, ◌≡◌, refl, sym, subst, ok-injective, ◌∙◌, inl, inr, List, [], ◌∷◌, ◌++◌,
  append-nil, append_assoc, arith, ok, >>=-returns, Text, lookup, length, length-append,
  Option-cases,
}
use saffire.Asm.{Opr, Line, label_line, code_line}
use saffire.Asm.Frame.{AsmFrame, add_codebyte}
use saffire.Asm.Assemble.{assemble_operands, Progress, note_lineno, assemble_line, assemble_lines}
use saffire.Asm.Reference.{
  LabelValue, unpatched, operand_bytes, code_size, line_bytes, reference_code, line_definitions,
  label_definitions, line_uses, label_uses,
}
use saffire.Asm.Operands.{
  Grows, Grows-same, Grows-trans, assemble_operands-Grows, assemble_operands-Appended,
}

module _ (lab : LabelValue) (F : AsmFrame) where
  pub length-operand_bytes :
      (opcode off : ℕ) (oprs : List Opr)
      → length (operand_bytes lab F opcode off oprs) ≡ 2 * length oprs
  unfolding operand_bytes
  length-operand_bytes opcode off [] = refl
  length-operand_bytes opcode off (o ∷ oprs) = omega (arith, length-operand_bytes opcode off oprs)

  pub length-line_bytes :
      (off : ℕ) (line : Line) → length (line_bytes lab F off line) ≡ code_size line
  unfolding line_bytes code_size
  length-line_bytes off (label_line s) = refl
  length-line_bytes off (code_line lineno opcode oprs) =
      omega (arith, length-operand_bytes (opcode % 256) off oprs)

-- The line table apart, noting a line number changes nothing.
pub note_lineno_frame : (lineno off : ℕ) (p : Progress) → (note_lineno lineno off p).frame ≡ p.frame
unfolding note_lineno
note_lineno_frame lineno off p = ground arith

-- What a line does to the frame.
pub record LineDone (line : Line) (f g : AsmFrame) : Type 0 where
  pub grows : Grows f g
  pub code :
      (F : AsmFrame) → Grows g F → g.code ≡ f.code ++ line_bytes unpatched F (length f.code) line
  pub labels : g.label_offsets ≡ f.label_offsets ++ line_definitions (length f.code) line
  pub uses : g.backpatch_offsets ≡ f.backpatch_offsets ++ line_uses (length f.code) line

label_done :
    (s : Text) (p q : Progress)
    → assemble_line (label_line s) p ≡ ok q
    → LineDone (label_line s) p.frame q.frame
unfolding assemble_line line_bytes
label_done s p q h = elim (Option-cases (lookup s p.frame.label_offsets)) [
  | inl free ↦
      subst (λ (r : Progress). LineDone (label_line s) p.frame r.frame)
        (ok-injective (rw (free, assemble_line) at h))
        (record {
          grows = Grows-same p.frame _ refl refl;
          code = λ F g. sym (append-nil p.frame.code);
          labels = refl;
          uses = sym (append-nil p.frame.backpatch_offsets);
        })
  | inr (_, taken) ↦ cc (rw (taken, assemble_line) at h)
]

instruction_done :
    (lineno opcode : ℕ) (oprs : List Opr) (f : AsmFrame)
    → LineDone
        (code_line lineno opcode oprs)
        f
        (assemble_operands (length f.code) oprs (add_codebyte f (opcode % 256)))
unfolding line_bytes add_codebyte
instruction_done lineno opcode oprs f =
    let off = length f.code in
    let g = add_codebyte f (opcode % 256) in
    let size : length (f.code ++ (opcode % 256) ∷ []) ≡ off + 1 = length-append f.code _ in
    let done = assemble_operands off oprs g in
    let r =
      assemble_operands-Appended off (opcode % 256) oprs g done (Grows-same done done refl refl) in
    record {
      grows = Grows-trans f g _ (Grows-same f g refl refl) (assemble_operands-Grows off oprs g);
      code = λ F later.
          (assemble_operands-Appended off (opcode % 256) oprs g F later).code
          ∙ append_assoc f.code _ _;
      labels = r.labels ∙ sym (append-nil f.label_offsets);
      uses = r.uses ∙ rw size;
    }

pub code_done :
    (lineno opcode : ℕ) (oprs : List Opr) (p q : Progress)
    → assemble_line (code_line lineno opcode oprs) p ≡ ok q
    → LineDone (code_line lineno opcode oprs) p.frame q.frame
unfolding assemble_line
code_done lineno opcode oprs p q h =
    subst (λ (r : Progress). LineDone (code_line lineno opcode oprs) p.frame r.frame)
      (ok-injective h)
      (rw (note_lineno_frame lineno (length p.frame.code))
        (instruction_done lineno opcode oprs p.frame))

line_done :
    (line : Line) (p q : Progress) → assemble_line line p ≡ ok q → LineDone line p.frame q.frame
line_done (label_line s) p q h = label_done s p q h
line_done (code_line lineno opcode oprs) p q h = code_done lineno opcode oprs p q h

-- What the lines append, by the tables of any later frame.
pub record LinesDone (lines : List Line) (f g : AsmFrame) : Type 0 where
  pub grows : Grows f g
  pub code :
      (F : AsmFrame)
      → Grows g F
      → g.code ≡ f.code ++ reference_code unpatched F (length f.code) lines
  pub labels : g.label_offsets ≡ f.label_offsets ++ label_definitions (length f.code) lines
  pub uses : g.backpatch_offsets ≡ f.backpatch_offsets ++ label_uses (length f.code) lines

pub lines_done :
    (lines : List Line) (p q : Progress)
    → assemble_lines lines p ≡ ok q
    → LinesDone lines p.frame q.frame
unfolding assemble_lines reference_code label_definitions label_uses
lines_done [] p q h =
    subst (λ (r : Progress). LinesDone [] p.frame r.frame) (ok-injective h)
      (record {
        grows = Grows-same p.frame p.frame refl refl;
        code = λ F g. sym (append-nil p.frame.code);
        labels = sym (append-nil p.frame.label_offsets);
        uses = sym (append-nil p.frame.backpatch_offsets);
      })
lines_done (line ∷ lines) p q h =
    let (m, first, rest) = >>=-returns (assemble_line line p) (assemble_lines lines) h in
    let a = line_done line p m first in
    let b = lines_done lines m q rest in
    let size : length m.frame.code ≡ length p.frame.code + code_size line =
      rw
        (a.code m.frame (Grows-same m.frame m.frame refl refl), length-append, length-line_bytes) in
    record {
      grows = Grows-trans p.frame m.frame q.frame a.grows b.grows;
      code = λ F later.
          b.code F later
          ∙ rw (size, a.code F (Grows-trans m.frame q.frame F b.grows later), append_assoc);
      labels = b.labels ∙ rw (a.labels, size, append_assoc);
      uses = b.uses ∙ rw (a.uses, size, append_assoc);
    }
