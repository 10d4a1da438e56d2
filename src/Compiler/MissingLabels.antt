-- ===== src/Compiler/MissingLabels.antt =====
-- The first label that src/components/compiler/output/asm.c misses in lines of
-- src/components/compiler/ast_to_asm.c.
use saffire.Prelude.{
  ℕ, ◌+◌, ◌<◌, ◌≡◌, refl, sym, subst, ◌⊎◌, inl, inr, true, false, Bool-cases, List, [], ◌∷◌, ◌++◌,
  Text, text_eq_refl, arith,
}
use saffire.Asm.{
  Opr, op_label, op_string, op_code, op_id, op_regex, op_realnum, op_num, op_compare, op_operator,
  Line, code_line, label_line,
}
use saffire.Asm.Frame.{Backpatch}
use saffire.Asm.Reference.{label_uses, operand_uses}
use saffire.Asm.FirstOutcome.{is_listed, names, defined_labels, first_missing}
use saffire.Compiler.Hits.{hit, hits}
use saffire.Compiler.Uses.{named, uses}

pub hit_self : (t : Text) → hit t t ≡ 1
unfolding hit
hit_self t = rw (text_eq_refl t) refl

-- Texts of which one is not in a table, and lists of uses that do.
missing-append :
    (labels : List (Text × ℕ)) (xs ys : List Backpatch)
    → defined_labels labels (xs ++ ys) ≡ false
    → ((defined_labels labels xs ≡ false)
        × (first_missing labels (xs ++ ys) ≡ first_missing labels xs))
      ⊎ ((defined_labels labels ys ≡ false)
          × (first_missing labels (xs ++ ys) ≡ first_missing labels ys))
unfolding defined_labels first_missing
missing-append labels [] ys h = inr (h, refl)
missing-append labels (x ∷ xs) ys h = elim (Bool-cases (is_listed x.label (names labels))) [
  | inl e ↦ rw e (missing-append labels xs ys (rw e at h))
  | inr e ↦ inl (rw e refl, rw e refl)
]

-- The text is one of the labels that are used, and not in the table.
abbrev Misses : List (Text × ℕ) → List Text → Text → Type 0
Misses labels used t = (0 < hits t used) × (is_listed t (names labels) ≡ false)

first_missing_listed :
    (labels : List (Text × ℕ)) (bp : Backpatch) (bps : List Backpatch)
    → is_listed bp.label (names labels) ≡ true
    → first_missing labels (bp ∷ bps) ≡ first_missing labels bps
unfolding first_missing
first_missing_listed labels bp bps e = rw e refl

first_missing_unlisted :
    (labels : List (Text × ℕ)) (bp : Backpatch) (bps : List Backpatch)
    → is_listed bp.label (names labels) ≡ false
    → first_missing labels (bp ∷ bps) ≡ bp.label
unfolding first_missing
first_missing_unlisted labels bp bps e = rw e refl

listed_first :
    (labels : List (Text × ℕ)) (bp : Backpatch) (bps : List Backpatch) (used : List Text)
    → is_listed bp.label (names labels) ≡ true
    → Misses labels used (first_missing labels bps)
    → Misses labels (bp.label ∷ used) (first_missing labels (bp ∷ bps))
listed_first labels bp bps used e (h, missing) =
    subst (Misses labels (bp.label ∷ used)) (sym (first_missing_listed labels bp bps e))
      (omega (arith, h), missing)

missing_first :
    (labels : List (Text × ℕ)) (bp : Backpatch) (bps : List Backpatch) (used : List Text)
    → is_listed bp.label (names labels) ≡ false
    → Misses labels (bp.label ∷ used) (first_missing labels (bp ∷ bps))
missing_first labels bp bps used e =
    subst (Misses labels (bp.label ∷ used)) (sym (first_missing_unlisted labels bp bps e))
      (omega (arith, hit_self bp.label), e)

-- The first label of the operands that is not in the table.
missing_operand :
    (labels : List (Text × ℕ)) (os : List Opr) (off at : ℕ)
    → defined_labels labels (operand_uses off at os) ≡ false
    → Misses labels (named os) (first_missing labels (operand_uses off at os))
unfolding defined_labels operand_uses
missing_operand labels [] off at h = cc
missing_operand labels (op_label x ∷ os) off at h =
    let bp : Backpatch = record { opcode_offset = off; operand_offset = at; label = x } in
    elim (Bool-cases (is_listed x (names labels))) [
      | inl e ↦
          listed_first labels bp (operand_uses off (at + 2) os) (named os) e
            (missing_operand labels os off (at + 2) (rw e at h))
      | inr e ↦ missing_first labels bp (operand_uses off (at + 2) os) (named os) e
    ]
missing_operand labels (op_string x ∷ os) off at h = missing_operand labels os off (at + 2) h
missing_operand labels (op_code x ∷ os) off at h = missing_operand labels os off (at + 2) h
missing_operand labels (op_id x ∷ os) off at h = missing_operand labels os off (at + 2) h
missing_operand labels (op_regex x ∷ os) off at h = missing_operand labels os off (at + 2) h
missing_operand labels (op_realnum x ∷ os) off at h = missing_operand labels os off (at + 2) h
missing_operand labels (op_num x ∷ os) off at h = missing_operand labels os off (at + 2) h
missing_operand labels (op_compare x ∷ os) off at h = missing_operand labels os off (at + 2) h
missing_operand labels (op_operator x ∷ os) off at h = missing_operand labels os off (at + 2) h

-- The first label of the lines that is not in the table.
pub missing_use :
    (labels : List (Text × ℕ)) (lines : List Line) (off : ℕ)
    → defined_labels labels (label_uses off lines) ≡ false
    → (0 < uses (first_missing labels (label_uses off lines)) lines)
      × (is_listed (first_missing labels (label_uses off lines)) (names labels) ≡ false)
unfolding uses label_uses defined_labels
missing_use labels [] off h = cc
missing_use labels (label_line x ∷ ls) off h = missing_use labels ls _ h
missing_use labels (code_line l o os ∷ ls) off h =
    let here = operand_uses off (off + 1) os in
    let P : Text → Type 0 =
      λ t. (0 < hits t (named os) + uses t ls) × (is_listed t (names labels) ≡ false) in
    elim (missing-append labels here _ h) [
      | inl (m, e) ↦
          let (used, missing) = missing_operand labels os off (off + 1) m in
          subst P (sym e) (omega (arith, used), missing)
      | inr (m, e) ↦
          let (used, missing) = missing_use labels ls _ m in
          subst P (sym e) (omega (arith, used), missing)
    ]
