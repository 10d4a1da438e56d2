-- ===== src/Asm/TwoPass.antt =====
-- `assemble_frame` (src/components/compiler/output/asm.c) and the two-pass reading.
use saffire.Prelude.{
  ℕ, ◌≡◌, refl, subst, ok-injective, Bool, true, false, List, [], ok, >>=-returns,
}
use saffire.Asm.{Line}
use saffire.Asm.Frame.{AsmFrame, convert_identifier}
use saffire.Asm.Assemble.{assemble_lines, backpatch_labels, initial_progress, assemble_frame}
use saffire.Asm.Reference.{patched, reference_code, label_definitions, label_uses, unpatched}
use saffire.Asm.Operands.{Grows, Grows-same}
use saffire.Asm.FirstPass.{LinesDone, lines_done}
use saffire.Asm.SecondPass.{patch_lines}

-- The code that backpatching leaves, from a frame that was empty at the start.
second_pass :
    (lines : List Line) (f F : AsmFrame) (g : AsmFrame) (code' : List ℕ)
    → f.code ≡ []
    → f.label_offsets ≡ []
    → f.backpatch_offsets ≡ []
    → LinesDone lines f g
    → Grows g F
    → backpatch_labels g.label_offsets g.backpatch_offsets g.code ≡ ok code'
    → (code' ≡ reference_code (patched (label_definitions 0 lines)) F 0 lines)
      × (g.label_offsets ≡ label_definitions 0 lines)
second_pass lines f F g code' p q r done later h =
    let c : g.code ≡ reference_code unpatched F 0 lines = rw p at (done.code F later) in
    let l : g.label_offsets ≡ label_definitions 0 lines = rw (q, p) at done.labels in
    let u : g.backpatch_offsets ≡ label_uses 0 lines = rw (r, p) at done.uses in
    (patch_lines (label_definitions 0 lines) F lines [] code' (rw (l, u, c) at h), l)

pub initial_code : (main : Bool) → (initial_progress main).frame.code ≡ []
unfolding initial_progress convert_identifier
initial_code true = refl
initial_code false = refl

pub initial_labels : (main : Bool) → (initial_progress main).frame.label_offsets ≡ []
unfolding initial_progress convert_identifier
initial_labels true = refl
initial_labels false = refl

pub initial_uses : (main : Bool) → (initial_progress main).frame.backpatch_offsets ≡ []
unfolding initial_progress convert_identifier
initial_uses true = refl
initial_uses false = refl

-- One pass with backpatching is the two-pass assembler: if `assemble_frame` returns, the code is
-- that of the source lines in order, each operand the position of its constant or name in the
-- final tables, and each label the offset, absolute or relative to the end of its instruction, of
-- the line that declares it.
pub assemble_frame-reference :
    (lines : List Line) (main : Bool) (f : AsmFrame)
    → assemble_frame lines main ≡ ok f
    → (f.code ≡ reference_code (patched (label_definitions 0 lines)) f 0 lines)
      × (f.label_offsets ≡ label_definitions 0 lines)
unfolding assemble_frame
assemble_frame-reference lines main f h =
    let (p, first, rest) = >>=-returns (assemble_lines lines (initial_progress main)) _ h in
    let g = p.frame in
    let (code', second, last) =
      >>=-returns (backpatch_labels g.label_offsets g.backpatch_offsets g.code) _ rest in
    subst
      (λ (r : AsmFrame).
        (r.code ≡ reference_code (patched (label_definitions 0 lines)) r 0 lines)
        × (r.label_offsets ≡ label_definitions 0 lines))
      (ok-injective last)
      (second_pass lines (initial_progress main).frame _ g code' (initial_code main)
        (initial_labels main) (initial_uses main) (lines_done lines (initial_progress main) p first)
        (Grows-same g _ refl refl) second)
