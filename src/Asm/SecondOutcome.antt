-- ===== src/Asm/SecondOutcome.antt =====
-- How `_backpatch_labels` (src/components/compiler/output/asm.c) ends.
use saffire.Prelude.{
  ℕ, ◌+◌, ◌*◌, ◌/◌, ◌%◌, ◌≤◌, ◌<◌, ◌≡◌, refl, sym, subst, ◌∙◌, Bool, true, false, inl, inr, List,
  [], ◌∷◌, ◌++◌, arith, ok, Text, All, length, length-append, length-set, get_elem?_found, set,
  lt→ltb, Bool-cases,
}
use saffire.Asm.{
  Opr, op_label, op_string, op_code, op_id, op_regex, op_realnum, op_num, op_compare, op_operator,
  Line, label_line, code_line,
}
use saffire.Asm.Frame.{Backpatch, AsmFrame}
use saffire.Asm.Assemble.{patch_value, store_u16, missing_label, backpatch_labels}
use saffire.Asm.Reference.{
  unpatched, code_size, line_bytes, reference_code, label_use, operand_uses, line_uses, label_uses,
}
use saffire.Asm.FirstPass.{length-line_bytes}
use saffire.Asm.FirstOutcome.{
  is_listed, names, defined_labels, first_missing, lookup-absent, lookup-present,
}
use saffire.Asm.SecondPass.{backpatch_step, backpatch_done, backpatch_undefined}

-- The second pass, on code of a length that reaches past all uses of labels.
abbrev pub Fits : ℕ → Backpatch → Type 0
Fits n bp = (bp.opcode_offset < n) × (bp.operand_offset + 1 < n)

Fits-append :
    (n : ℕ) (xs ys : List Backpatch) → All (Fits n) xs → All (Fits n) ys → All (Fits n) (xs ++ ys)
Fits-append n [] ys h k = k
Fits-append n (x ∷ xs) ys h k = (h.0, Fits-append n xs ys h.1 k)

operand_uses_fit :
    (n off at : ℕ) (oprs : List Opr)
    → off < n
    → at + 2 * length oprs ≤ n
    → All (Fits n) (operand_uses off at oprs)
unfolding operand_uses
operand_uses_fit n off at [] h k = tt
operand_uses_fit n off at (o ∷ oprs) h k =
    Fits-append n (label_use off at o) (operand_uses off (at + 2) oprs)
      (label_use_fits n off at o h (omega arith))
      (operand_uses_fit n off (at + 2) oprs h (omega arith))
  where
    label_use_fits :
        (n off at : ℕ) (o : Opr) → off < n → at + 1 < n → All (Fits n) (label_use off at o)
    label_use_fits n off at (op_label s) h k = ((h, k), tt)
    label_use_fits n off at (op_string s) h k = tt
    label_use_fits n off at (op_code s) h k = tt
    label_use_fits n off at (op_id s) h k = tt
    label_use_fits n off at (op_regex s) h k = tt
    label_use_fits n off at (op_realnum l) h k = tt
    label_use_fits n off at (op_num l) h k = tt
    label_use_fits n off at (op_compare l) h k = tt
    label_use_fits n off at (op_operator l) h k = tt

unfoldable pub code_sizes : List Line → ℕ
code_sizes [] = 0
code_sizes (line ∷ lines) = code_size line + code_sizes lines

line_uses_fit :
    (n off : ℕ) (line : Line) → off + code_size line ≤ n → All (Fits n) (line_uses off line)
unfolding code_size
line_uses_fit n off (label_line s) h = tt
line_uses_fit n off (code_line lineno opcode oprs) h =
    operand_uses_fit n off (off + 1) oprs (omega arith) (omega arith)

pub label_uses_fit :
    (n off : ℕ) (lines : List Line)
    → off + code_sizes lines ≤ n
    → All (Fits n) (label_uses off lines)
unfolding label_uses code_sizes
label_uses_fit n off [] h = tt
label_uses_fit n off (line ∷ lines) h =
    Fits-append n (line_uses off line) (label_uses (off + code_size line) lines)
      (line_uses_fit n off line (omega arith))
      (label_uses_fit n (off + code_size line) lines (omega arith))

pub length-reference_code :
    (F : AsmFrame) (off : ℕ) (lines : List Line)
    → length (reference_code unpatched F off lines) ≡ code_sizes lines
unfolding reference_code code_sizes
length-reference_code F off [] = refl
length-reference_code F off (line ∷ lines) = omega (
  arith,
  length-append (line_bytes unpatched F off line)
      (reference_code unpatched F (off + code_size line) lines),
  length-line_bytes unpatched F off line,
  length-reference_code F (off + code_size line) lines,
)

abbrev pub SecondPassEnds : Bool → List (Text × ℕ) → List Backpatch → List ℕ → Type 0
SecondPassEnds true labels bps code =
    (code' : List ℕ) × (backpatch_labels labels bps code ≡ ok code')
SecondPassEnds false labels bps code =
    backpatch_labels labels bps code ≡ missing_label (first_missing labels bps)

store_u16_inside :
    (code : List ℕ) (off v : ℕ)
    → off + 1 < length code
    → (code' : List ℕ) × (store_u16 code off v ≡ ok code') × (length code' ≡ length code)
unfolding store_u16
store_u16_inside code off v h = (
  set (set code off (v % 256)) (off + 1) (v / 256),
  rw (lt→ltb (off + 1) (length code) h),
  length-set (set code off (v % 256)) (off + 1) (v / 256) ∙ length-set code off (v % 256),
)

step_uses :
    (b : Bool) (labels : List (Text × ℕ)) (bp : Backpatch) (bps : List Backpatch)
    (code code₁ : List ℕ)
    → is_listed bp.label (names labels) ≡ true
    → backpatch_labels labels (bp ∷ bps) code ≡ backpatch_labels labels bps code₁
    → SecondPassEnds b labels bps code₁
    → SecondPassEnds b labels (bp ∷ bps) code
unfolding first_missing
step_uses true labels bp bps code code₁ known e (code', h) = (code', e ∙ h)
step_uses false labels bp bps code code₁ known e h = rw known (e ∙ h)

step_missing :
    (labels : List (Text × ℕ)) (bp : Backpatch) (bps : List Backpatch) (code : List ℕ)
    → is_listed bp.label (names labels) ≡ false
    → backpatch_labels labels (bp ∷ bps) code ≡ missing_label bp.label
    → SecondPassEnds false labels (bp ∷ bps) code
unfolding first_missing
step_missing labels bp bps code unknown e = rw unknown e

pub second_pass_ends :
    (labels : List (Text × ℕ)) (bps : List Backpatch) (code : List ℕ)
    → All (Fits (length code)) bps
    → SecondPassEnds (defined_labels labels bps) labels bps code
unfolding defined_labels first_missing
second_pass_ends labels [] code h = (code, backpatch_done labels code)
second_pass_ends labels (bp ∷ bps) code ((inside, room), later) =
    elim (Bool-cases (is_listed bp.label (names labels))) [
      | inl known ↦
          let (off, e) = lookup-present bp.label labels known in
          let (opcode, g) = get_elem?_found code bp.opcode_offset inside in
          let (code₁, store, size) =
            store_u16_inside code bp.operand_offset (patch_value opcode bp.opcode_offset off)
              room in
          rw known (
            step_uses _ labels bp bps code code₁ known
              (backpatch_step labels bp bps code off opcode code₁ e g store)
              (second_pass_ends labels bps code₁ (subst (λ n. All (Fits n) bps) (sym size) later)))
      | inr unknown ↦ rw unknown (
          step_missing labels bp bps code unknown
            (backpatch_undefined labels bp bps code (lookup-absent bp.label labels unknown)))
    ]
