-- ===== src/Asm/SecondPass.antt =====
-- `_backpatch_labels` (src/components/compiler/output/asm.c) on the code of the first pass.
use saffire.Prelude.{
  ℕ, suc, ◌+◌, ◌/◌, ◌%◌, ◌^◌, ◌<◌, ◌≡◌, refl, sym, ap, ◌∙◌, none, some, inl, inr, List, [], ◌∷◌,
  ◌++◌, append-nil, append_assoc, arith, ok, ok-injective, Bool-cases, leb, Text, lookup, length,
  length-append, get_elem?, get_elem?-append_length, set, lt→ltb, Option-cases,
}
use native.Mathlib.Numerals.{add-one}
use native.Mathlib.Nat.{add-zero}
use saffire.Asm.{Opr, op_label, Line, label_line, code_line}
use saffire.Asm.Frame.{Backpatch, AsmFrame}
use saffire.Asm.Assemble.{patch_value, store_u16, missing_label, backpatch_labels}
use saffire.Asm.Reference.{
  unpatched, patched, operand_value, operand_bytes, code_size, line_bytes, reference_code,
  operand_uses, label_uses,
}
use saffire.Asm.FirstPass.{length-line_bytes}

set-append_length : (xs ys : List ℕ) (a v : ℕ) → set (xs ++ a ∷ ys) (length xs) v ≡ xs ++ v ∷ ys
set-append_length [] ys a v = refl
set-append_length (x ∷ xs) ys a v = ap (λ l. x ∷ l) (set-append_length xs ys a v)

set-append_suc :
    (xs ys : List ℕ) (a b v : ℕ) → set (xs ++ a ∷ (b ∷ ys)) (suc (length xs)) v ≡ xs ++ a ∷ (v ∷ ys)
set-append_suc [] ys a b v = refl
set-append_suc (x ∷ xs) ys a b v = ap (λ l. x ∷ l) (set-append_suc xs ys a b v)

-- A store at the seam overwrites the two bytes there.
store_u16_at :
    (xs ys : List ℕ) (a b v : ℕ)
    → store_u16 (xs ++ a ∷ (b ∷ ys)) (length xs) v ≡ ok (xs ++ (v % 256) ∷ ((v / 256) ∷ ys))
unfolding store_u16
store_u16_at xs ys a b v =
    let fits : length xs + 1 < length (xs ++ a ∷ (b ∷ ys)) =
      omega (arith, length-append xs (a ∷ (b ∷ ys))) in
    rw (lt→ltb _ _ fits, add-one (length xs), set-append_length, set-append_suc)

patch_value_bound : (opcode off label_off : ℕ) → patch_value opcode off label_off < 2 ^ 16
unfolding patch_value
patch_value_bound opcode off label_off = omega arith

pub backpatch_step :
    (labels : List (Text × ℕ)) (bp : Backpatch) (bps : List Backpatch) (code : List ℕ)
    (l opcode : ℕ) (code₁ : List ℕ)
    → lookup bp.label labels ≡ some l
    → get_elem? code bp.opcode_offset ≡ some opcode
    → store_u16 code bp.operand_offset (patch_value opcode bp.opcode_offset l) ≡ ok code₁
    → backpatch_labels labels (bp ∷ bps) code ≡ backpatch_labels labels bps code₁
unfolding backpatch_labels
backpatch_step labels bp bps code l opcode code₁ p q r =
    rw (p, backpatch_labels) (rw (q, backpatch_labels) (rw (r, backpatch_labels)))

pub backpatch_done :
    (labels : List (Text × ℕ)) (code : List ℕ) → backpatch_labels labels [] code ≡ ok code
unfolding backpatch_labels
backpatch_done labels code = refl

pub backpatch_undefined :
    (labels : List (Text × ℕ)) (bp : Backpatch) (bps : List Backpatch) (code : List ℕ)
    → lookup bp.label labels ≡ none
    → backpatch_labels labels (bp ∷ bps) code ≡ missing_label bp.label
unfolding backpatch_labels
backpatch_undefined labels bp bps code p = rw (p, backpatch_labels)

missing_label-fails : (t : Text) (code : List ℕ) → missing_label t ≡ ok code → ⊥
unfolding missing_label
missing_label-fails t code h = elim (Bool-cases (leb 10 (length t))) [
  | inl long ↦ cc (rw long at h)
  | inr short ↦ cc (rw short at h)
]

-- An instruction stands behind `pre`: its opcode, the operands `mid` that are done, and `r`.
module _ (labels : List (Text × ℕ)) (F : AsmFrame) (opcode : ℕ) (pre : List ℕ) where
  abbrev split_at : List ℕ → List ℕ → List ℕ
  split_at mid r = (pre ++ opcode ∷ mid) ++ r

  split_at_next :
      (mid r : List ℕ) (a b : ℕ) → split_at mid (a ∷ (b ∷ r)) ≡ split_at (mid ++ a ∷ (b ∷ [])) r
  split_at_next mid r a b = simp append_assoc

  abbrev at_operand : List ℕ → ℕ
  at_operand mid = length pre + 1 + length mid

  -- What patching the operands behind `mid` achieves.
  abbrev Patches : List Opr → List ℕ → List ℕ → List Backpatch → List ℕ → Type 0
  Patches oprs mid post more code' =
      backpatch_labels labels (operand_uses (length pre) (at_operand mid) oprs ++ more)
          (split_at mid (operand_bytes unpatched F opcode (length pre) oprs ++ post))
        ≡ ok code'
      → backpatch_labels labels more
          (split_at mid (operand_bytes (patched labels) F opcode (length pre) oprs ++ post))
        ≡ ok code'

  pass_operand :
      (a b : ℕ) (oprs : List Opr) (mid post : List ℕ) (more : List Backpatch) (code' : List ℕ)
      → Patches oprs (mid ++ a ∷ (b ∷ [])) post more code'
      → backpatch_labels labels
          (operand_uses (length pre) (at_operand mid + 2) oprs ++ more)
          (split_at mid (a ∷ (b ∷ (operand_bytes unpatched F opcode (length pre) oprs ++ post))))
        ≡ ok code'
      → backpatch_labels labels more (
          split_at mid
            (a ∷ (b ∷ (operand_bytes (patched labels) F opcode (length pre) oprs ++ post))))
        ≡ ok code'
  pass_operand a b oprs mid post more code' ih h =
      let here : at_operand (mid ++ a ∷ (b ∷ [])) ≡ at_operand mid + 2 =
        omega (arith, length-append mid (a ∷ (b ∷ []))) in
      rw split_at_next (ih (rw here (rw split_at_next at h)))

  opcode_at : (mid r : List ℕ) → get_elem? (split_at mid r) (length pre) ≡ some opcode
  opcode_at mid r = rw append_assoc (get_elem?-append_length pre (mid ++ r) opcode)

  store_at :
      (mid r : List ℕ) (a b v : ℕ)
      → v < 2 ^ 16
      → store_u16 (split_at mid (a ∷ (b ∷ r))) (at_operand mid) v
        ≡ ok (split_at mid ((v % 256) ∷ ((v / 256 % 256) ∷ r)))
  store_at mid r a b v h =
      let here : at_operand mid ≡ length (pre ++ opcode ∷ mid) =
        omega (arith, length-append pre (opcode ∷ mid)) in
      let high : v / 256 % 256 ≡ v / 256 = omega arith in
      rw (here, high) (store_u16_at (pre ++ opcode ∷ mid) r a b v)

  -- One step of the backpatching, at a label that is defined.
  patch_label :
      (s : Text) (mid r : List ℕ) (bps : List Backpatch) (a b l : ℕ)
      → lookup s labels ≡ some l
      → backpatch_labels labels
          (record { opcode_offset = length pre; operand_offset = at_operand mid; label = s } ∷ bps)
          (split_at mid (a ∷ (b ∷ r)))
        ≡ backpatch_labels labels bps (
            split_at mid (
              (patch_value opcode (length pre) l % 256)
              ∷ ((patch_value opcode (length pre) l / 256 % 256) ∷ r)))
  patch_label s mid r bps a b l e =
      backpatch_step labels _ bps (split_at mid (a ∷ (b ∷ r))) l opcode _ e
        (opcode_at mid (a ∷ (b ∷ r)))
        (store_at mid r a b _ (patch_value_bound opcode (length pre) l))

  patch_operands :
      (oprs : List Opr) (mid post : List ℕ) (more : List Backpatch) (code' : List ℕ)
      → Patches oprs mid post more code'
  unfolding operand_bytes operand_uses operand_value
  patch_operands [] mid post more code' h = h
  patch_operands (op_label s ∷ oprs) mid post more code' h = elim (Option-cases (lookup s labels)) [
    | inl undefined_label ↦
        let bad : missing_label s ≡ ok code' =
          sym (backpatch_undefined labels _ _ _ undefined_label) ∙ h in
        absurd (missing_label-fails s code' bad)
    | inr (l, e) ↦
        let v = patch_value opcode (length pre) l in
        rw (e, patched)
          (pass_operand (v % 256) (v / 256 % 256) oprs mid post more code'
            (patch_operands oprs (mid ++ (v % 256) ∷ ((v / 256 % 256) ∷ [])) post more code')
            (rw (patch_label s mid _ _ 255 255 l e) at h))
  ]
  patch_operands (o ∷ oprs) mid post more code' h =
      let v = operand_value unpatched F opcode (length pre) o in
      pass_operand (v % 256) (v / 256 % 256) oprs mid post more code'
        (patch_operands oprs (mid ++ (v % 256) ∷ ((v / 256 % 256) ∷ [])) post more code') h

module _ (labels : List (Text × ℕ)) (F : AsmFrame) where
  -- The lines from `length pre` on, their code unpatched so far.
  abbrev PatchesLines : List Line → List ℕ → List ℕ → Type 0
  PatchesLines lines pre code' =
      backpatch_labels labels (label_uses (length pre) lines)
          (pre ++ reference_code unpatched F (length pre) lines)
        ≡ ok code'
      → code' ≡ pre ++ reference_code (patched labels) F (length pre) lines

  pass_line :
      (line : Line) (lines : List Line) (pre code' : List ℕ)
      → PatchesLines lines (pre ++ line_bytes (patched labels) F (length pre) line) code'
      → backpatch_labels labels (label_uses (length pre + code_size line) lines) (
          (pre ++ line_bytes (patched labels) F (length pre) line)
          ++ reference_code unpatched F (length pre + code_size line) lines)
        ≡ ok code'
      → code' ≡ pre ++ reference_code (patched labels) F (length pre) (line ∷ lines)
  unfolding reference_code
  pass_line line lines pre code' ih h =
      let bytes = line_bytes (patched labels) F (length pre) line in
      let size : length (pre ++ bytes) ≡ length pre + code_size line =
        rw (length-append pre bytes, length-line_bytes (patched labels) F (length pre) line) in
      ih (rw size h) ∙ rw (size, append_assoc)

  pub patch_lines : (lines : List Line) (pre code' : List ℕ) → PatchesLines lines pre code'
  unfolding reference_code label_uses line_bytes
  patch_lines [] pre code' h = sym (ok-injective (sym (backpatch_done labels _) ∙ h))
  patch_lines (label_line s ∷ lines) pre code' h =
      pass_line (label_line s) lines pre code' (patch_lines lines (pre ++ []) code')
        (rw append-nil h)
  patch_lines (code_line lineno opcode oprs ∷ lines) pre code' h =
      let op = opcode % 256 in
      let off' = length pre + code_size (code_line lineno opcode oprs) in
      let post = reference_code unpatched F off' lines in
      pass_line (code_line lineno opcode oprs) lines pre code'
        (patch_lines lines
          (pre ++ line_bytes (patched labels) F (length pre) (code_line lineno opcode oprs)) code')
        (rw (append_assoc pre (op ∷ operand_bytes (patched labels) F op (length pre) oprs) post) (
          rw
            (append_assoc pre (op ∷ [])
              (operand_bytes (patched labels) F op (length pre) oprs ++ post))
            at
            (patch_operands labels F op pre oprs [] post (label_uses off' lines) code' (
              rw
                (
                  append_assoc pre (op ∷ [])
                      (operand_bytes unpatched F op (length pre) oprs ++ post),
                  add-zero,
                )
                h))))
