-- ===== src/Vm/Decode.antt =====
-- Instruction fetch of `_vm_execute` (src/components/vm/vm.c) on assembled code.
use saffire.Prelude.{
  ℕ, zero, suc, ◌+◌, ◌*◌, ◌/◌, ◌%◌, ◌^◌, ◌≤◌, ◌<◌, ◌≡◌, ap, ◌∙◌, Bool, true, false, List, [], ◌∷◌,
  ◌++◌, arith, Run, ok, length, drop, drop-append_length, bit_and, ◌==◌, ltb, lt→ltb,
}
use saffire.Vm.{StackFrame}
use saffire.Vm.Frame.{vm_frame_get_next_opcode, masked_operand, fetch}
use saffire.Asm.{Opr, code_line}
use saffire.Asm.Frame.{AsmFrame}
use saffire.Asm.Assemble.{operand_size}
use saffire.Asm.Reference.{LabelValue, operand_value, operand_bytes, line_bytes}
use saffire.Vm.Ahead.{ahead, next_ahead, opcode_ahead, operand_ahead, skip_ahead}
use saffire.Vm.Masks.{masks_of, size_bound}

masked_read :
    (op mask : ℕ) (f : StackFrame) (v : ℕ) (bs : List ℕ)
    → (bit_and op mask == mask) ≡ true
    → ahead f ≡ (v % 256) ∷ ((v / 256 % 256) ∷ bs)
    → masked_operand op mask f ≡ ok (record f { ip = f.ip + 2 }, v % 2 ^ 16)
unfolding masked_operand
masked_read op mask f v bs hit e =
    let value : v % 256 + 256 * (v / 256 % 256) ≡ v % 2 ^ 16 = omega arith in
    rw hit (
      operand_ahead f (v % 256) (v / 256 % 256) bs e
      ∙ ap (λ n. ok (record f { ip = f.ip + 2 }, n)) value)

masked_none :
    (op mask : ℕ) (f : StackFrame)
    → (bit_and op mask == mask) ≡ false
    → masked_operand op mask f ≡ ok (f, 0)
unfolding masked_operand
masked_none op mask f miss = rw miss

fetch_run :
    (f f₀ f₁ f₂ f₃ : StackFrame) (op a b c : ℕ)
    → vm_frame_get_next_opcode f ≡ (f₀, op)
    → masked_operand op 0x80 f₀ ≡ ok (f₁, a)
    → masked_operand op 0xC0 f₁ ≡ ok (f₂, b)
    → masked_operand op 0xE0 f₂ ≡ ok (f₃, c)
    → fetch f ≡ ok (f₃, record { opcode = op; oparg1 = a; oparg2 = b; oparg3 = c })
unfolding fetch
fetch_run f f₀ f₁ f₂ f₃ op a b c p q r s = rw p (rw q (rw r (rw s)))

-- The value of an operand by its position, in 16 bits, and 0 where there is none.
abbrev pub operand_at : LabelValue → AsmFrame → ℕ → ℕ → List Opr → ℕ → ℕ
operand_at lab F opcode off [] i = 0
operand_at lab F opcode off (o ∷ oprs) zero = operand_value lab F opcode off o % 2 ^ 16
operand_at lab F opcode off (o ∷ oprs) (suc i) = operand_at lab F opcode off oprs i

-- The rest of the code behind the operands.
abbrev rest_of : LabelValue → AsmFrame → ℕ → ℕ → List Opr → List ℕ → List ℕ
rest_of lab F opcode off oprs post = operand_bytes lab F opcode off oprs ++ post

ltb_of : (a b : ℕ) (t : Bool) → (t ≡ ltb a b) → a < b → t ≡ true
ltb_of a b t e h = e ∙ lt→ltb a b h

not_ltb_of : (a b : ℕ) (t : Bool) → (t ≡ ltb a b) → b ≤ a → t ≡ false
not_ltb_of a b t e h = e ∙ ground arith

moved_to :
    (m : Run (StackFrame × ℕ)) (f : StackFrame) (v i j : ℕ)
    → i ≡ j
    → m ≡ ok (record f { ip = i }, v)
    → m ≡ ok (record f { ip = j }, v)
moved_to m f v i j e h = h ∙ ap (λ k. ok (record f { ip = k }, v)) e

module _ (lab : LabelValue) (F : AsmFrame) (off op : ℕ) (small : op < 256) where
  decode_operands :
      (oprs : List Opr) (f₀ : StackFrame) (post : List ℕ)
      → 2 * length oprs ≡ operand_size op
      → ahead f₀ ≡ rest_of lab F op off oprs post
      → (f₁ f₂ : StackFrame) × (masked_operand op 0x80 f₀ ≡ ok (f₁, operand_at lab F op off oprs 0))
        × (masked_operand op 0xC0 f₁ ≡ ok (f₂, operand_at lab F op off oprs 1))
        × (masked_operand op 0xE0 f₂
            ≡ ok (record f₀ { ip = f₀.ip + 2 * length oprs }, operand_at lab F op off oprs 2))
  unfolding operand_bytes
  decode_operands [] f₀ post n e =
      let (a, b, c) = masks_of op small in
      (
        f₀,
        f₀,
        masked_none op 0x80 f₀ (not_ltb_of _ _ _ a (omega (arith, n))),
        masked_none op 0xC0 f₀ (not_ltb_of _ _ _ b (omega (arith, n))),
        moved_to _ f₀ 0 f₀.ip (f₀.ip + 2 * 0) (omega arith)
            (masked_none op 0xE0 f₀ (not_ltb_of _ _ _ c (omega (arith, n)))),
      )
  decode_operands (o ∷ []) f₀ post n e =
      let (a, b, c) = masks_of op small in
      let f₁ = record f₀ { ip = f₀.ip + 2 } in
      (
        f₁,
        f₁,
        masked_read op 0x80 f₀ _ _ (ltb_of _ _ _ a (omega (arith, n))) e,
        masked_none op 0xC0 f₁ (not_ltb_of _ _ _ b (omega (arith, n))),
        moved_to _ f₀ 0 (f₀.ip + 2) (f₀.ip + 2 * length (o ∷ [])) (omega arith)
            (masked_none op 0xE0 f₁ (not_ltb_of _ _ _ c (omega (arith, n)))),
      )
  decode_operands (o ∷ (p ∷ [])) f₀ post n e =
      let (a, b, c) = masks_of op small in
      let f₁ = record f₀ { ip = f₀.ip + 2 } in
      let f₂ = record f₀ { ip = f₀.ip + 2 + 2 } in
      (
        f₁,
        f₂,
        masked_read op 0x80 f₀ _ _ (ltb_of _ _ _ a (omega (arith, n))) e,
        masked_read op 0xC0 f₁ _ _ (ltb_of _ _ _ b (omega (arith, n))) (skip_ahead f₀ _ _ _ e),
        moved_to _ f₀ 0 (f₀.ip + 2 + 2) (f₀.ip + 2 * length (o ∷ (p ∷ []))) (omega arith)
            (masked_none op 0xE0 f₂ (not_ltb_of _ _ _ c (omega (arith, n)))),
      )
  decode_operands (o ∷ (p ∷ (q ∷ []))) f₀ post n e =
      let (a, b, c) = masks_of op small in
      let f₁ = record f₀ { ip = f₀.ip + 2 } in
      let f₂ = record f₀ { ip = f₀.ip + 2 + 2 } in
      let e₁ = skip_ahead f₀ _ _ _ e in
      (
        f₁,
        f₂,
        masked_read op 0x80 f₀ _ _ (ltb_of _ _ _ a (omega (arith, n))) e,
        masked_read op 0xC0 f₁ _ _ (ltb_of _ _ _ b (omega (arith, n))) e₁,
        moved_to _ f₀ _ (f₀.ip + 2 + 2 + 2) (f₀.ip + 2 * length (o ∷ (p ∷ (q ∷ [])))) (omega arith)
            (masked_read op 0xE0 f₂ _ _ (ltb_of _ _ _ c (omega (arith, n)))
              (skip_ahead f₁ _ _ _ e₁)),
      )
  decode_operands (o ∷ (p ∷ (q ∷ (r ∷ oprs)))) f₀ post n e = absurd (omega (arith, size_bound op))

-- Where the code of a frame continues with the bytes that the assembler makes of an instruction of
-- one byte, with as many operands as its masks ask for, the dispatch loop reads its opcode and its
-- operands, each in 16 bits and 0 for one that it has not, and goes on behind its last operand.
pub fetch-line_bytes :
    (lab : LabelValue) (F : AsmFrame) (off lineno op : ℕ) (oprs : List Opr) (f : StackFrame)
    (pre post : List ℕ)
    → op < 256
    → 2 * length oprs ≡ operand_size op
    → f.codeframe.code ≡ pre ++ (line_bytes lab F off (code_line lineno op oprs) ++ post)
    → f.ip ≡ length pre
    → fetch f
      ≡ ok (
        record f { ip = f.ip + 1 + 2 * length oprs },
        record {
          opcode = op;
          oparg1 = operand_at lab F op off oprs 0;
          oparg2 = operand_at lab F op off oprs 1;
          oparg3 = operand_at lab F op off oprs 2;
        },
      )
unfolding line_bytes
fetch-line_bytes lab F off lineno op oprs f pre post small n code at =
    let byte : op % 256 ≡ op = omega arith in
    let bytes = rest_of lab F op off oprs post in
    let e : ahead f ≡ op ∷ bytes =
      ap (λ k. drop k f.codeframe.code) at
      ∙ ap (drop (length pre)) code
      ∙ drop-append_length pre _
      ∙ ap (λ b. b ∷ rest_of lab F b off oprs post) byte in
    let f₀ = record f { ip = f.ip + 1 } in
    let (f₁, f₂, a, b, c) =
      decode_operands lab F off op small oprs f₀ post n (next_ahead f op bytes e).1 in
    fetch_run f f₀ f₁ f₂ _ op _ _ _ (opcode_ahead f op bytes e) a b c
