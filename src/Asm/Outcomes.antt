-- ===== src/Asm/Outcomes.antt =====
-- How `assemble_frame` (src/components/compiler/output/asm.c) ends.
use saffire.Prelude.{
  ◌≡◌, refl, ap, subst, ◌∙◌, Bool, true, false, Bool-cases, inl, inr, List, [], arith, Run, ok,
  fatal_error, ◌>>=◌, leb, Text, label_already_defined, length, All,
}
use saffire.Asm.{Line}
use saffire.Asm.Frame.{AsmFrame}
use saffire.Asm.Assemble.{
  Progress, assemble_lines, initial_progress, line_table, assemble_frame, missing_label,
  backpatch_labels,
}
use saffire.Asm.Reference.{unpatched, patched, reference_code, label_definitions, label_uses}
use saffire.Asm.Operands.{Grows-same}
use saffire.Asm.FirstPass.{lines_done}
use saffire.Asm.Held.{IsStored, assemble_lines-IsStored}
use saffire.Asm.TwoPass.{initial_code, initial_labels, initial_uses, assemble_frame-reference}
use saffire.Asm.FirstOutcome.{
  distinct_labels, names, defined_labels, first_missing, FirstPassEnds, first_pass_ends,
}
use saffire.Asm.SecondOutcome.{
  SecondPassEnds, second_pass_ends, label_uses_fit, code_sizes, length-reference_code,
}

-- The end that the tests of both passes select.
abbrev pub AssembleEnds : Bool → Bool → List Line → Bool → Type 0
AssembleEnds false defined lines main =
    assemble_frame lines main ≡ fatal_error label_already_defined
AssembleEnds true false lines main =
    assemble_frame lines main
    ≡ missing_label (first_missing (label_definitions 0 lines) (label_uses 0 lines))
AssembleEnds true true lines main =
    (f : AsmFrame) × (assemble_frame lines main ≡ ok f)
    × (f.code ≡ reference_code (patched (label_definitions 0 lines)) f 0 lines)
    × (f.label_offsets ≡ label_definitions 0 lines)
    × All (IsStored f) lines

first_fails :
    (defined : Bool) (lines : List Line) (main : Bool)
    → assemble_lines lines (initial_progress main) ≡ fatal_error label_already_defined
    → AssembleEnds false defined lines main
unfolding assemble_frame
first_fails defined lines main h = rw h

missing_label-bind {ℓ κ} :
    {A : Type ℓ} {B : Type κ} (t : Text) (k : A → Run B) → missing_label t >>= k ≡ missing_label t
unfolding missing_label
missing_label-bind t k = elim (Bool-cases (leb 10 (length t))) [
  | inl long ↦ rw long refl
  | inr short ↦ rw short refl
]

second_fails :
    (lines : List Line) (main : Bool) (q : Progress) (t : Text)
    → assemble_lines lines (initial_progress main) ≡ ok q
    → backpatch_labels q.frame.label_offsets q.frame.backpatch_offsets q.frame.code
      ≡ missing_label t
    → assemble_frame lines main ≡ missing_label t
unfolding assemble_frame
second_fails lines main q t first h = rw first (rw h (missing_label-bind t _))

second_ends :
    (defined : Bool) (lines : List Line) (main : Bool) (q : Progress)
    → assemble_lines lines (initial_progress main) ≡ ok q
    → q.frame.label_offsets ≡ label_definitions 0 lines
    → q.frame.backpatch_offsets ≡ label_uses 0 lines
    → SecondPassEnds defined q.frame.label_offsets q.frame.backpatch_offsets q.frame.code
    → AssembleEnds true defined lines main
unfolding assemble_frame
second_ends false lines main q first l u h =
    let same : first_missing q.frame.label_offsets q.frame.backpatch_offsets
        ≡ first_missing (label_definitions 0 lines) (label_uses 0 lines) =
      rw (l, u) refl in
    second_fails lines main q _ first (h ∙ ap missing_label same)
second_ends true lines main q first l u (code', h) =
    let f = record (q.frame) { code = code'; stack_size = 42; lino = line_table q.tc } in
    let run : assemble_frame lines main ≡ ok f = rw first (rw h) in
    let (code, labels) = assemble_frame-reference lines main f run in
    let stored =
      assemble_lines-IsStored lines (initial_progress main) q f first
        (Grows-same q.frame f refl refl) in
    (f, run, code, labels, stored)

pass_ends :
    (distinct : Bool) (lines : List Line) (main : Bool)
    → FirstPassEnds distinct lines (initial_progress main)
    → AssembleEnds distinct
        (defined_labels (label_definitions 0 lines) (label_uses 0 lines))
        lines
        main
pass_ends false lines main h =
    first_fails (defined_labels (label_definitions 0 lines) (label_uses 0 lines)) lines main h
pass_ends true lines main (q, first) =
    let done = lines_done lines (initial_progress main) q first in
    let c : q.frame.code ≡ reference_code unpatched q.frame 0 lines =
      rw (initial_code main) at (done.code q.frame (Grows-same q.frame q.frame refl refl)) in
    let l : q.frame.label_offsets ≡ label_definitions 0 lines =
      rw (initial_labels main, initial_code main) at done.labels in
    let u : q.frame.backpatch_offsets ≡ label_uses 0 lines =
      rw (initial_uses main, initial_code main) at done.uses in
    let size : length q.frame.code ≡ code_sizes lines =
      ap length c ∙ length-reference_code q.frame 0 lines in
    second_ends _ lines main q first l u (
      rw (l, u)
        (second_pass_ends (label_definitions 0 lines) (label_uses 0 lines) q.frame.code
          (label_uses_fit (length q.frame.code) 0 lines (omega (arith, size)))))

initial_names : (main : Bool) → names (initial_progress main).frame.label_offsets ≡ []
initial_names main = ap names (initial_labels main)

-- `assemble_frame` always ends. Where a label is declared twice it is the fatal error that says so.
-- Where a label that an operand uses is not declared, it is what the first such label gives: the
-- fatal error that says so, or undefined behaviour for a label of less than 10 characters. Otherwise
-- there is a frame, and one pass with backpatching is the two-pass assembler: the code is that of the
-- source lines in order, each operand in its low 16 bits, for a constant or a name the position in
-- the final tables, where that constant or name stands, and for a label the offset, absolute or
-- relative to the end of its instruction, of the line that declares it.
pub assemble_frame-outcome :
    (lines : List Line) (main : Bool)
    → AssembleEnds
        (distinct_labels [] lines)
        (defined_labels (label_definitions 0 lines) (label_uses 0 lines))
        lines
        main
assemble_frame-outcome lines main = pass_ends (distinct_labels [] lines) lines main (
    subst (λ ns. FirstPassEnds (distinct_labels ns lines) lines (initial_progress main))
      (initial_names main) (first_pass_ends lines (initial_progress main)))
