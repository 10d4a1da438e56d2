-- ===== src/Vm/JumpLabel.antt =====
-- `VM_JUMP_FORWARD` of src/components/vm/vm.c on assembled code.
use saffire.Prelude.{
  ℕ, ◌+◌, ◌*◌, ◌%◌, ◌^◌, ◌≤◌, ◌<◌, ◌≡◌, refl, ap, ◌∙◌, true, some, List, [], ◌∷◌, ◌++◌, arith, ok,
  Text, lookup, length, leb, le→leb,
}
use saffire.Vm.{StackFrame}
use saffire.Vm.Frame.{fetch}
use saffire.Vm.Execute.{Machine, dispatch, jump}
use saffire.Vm.Dispatch.{operand_opcode, execute, finish, step}
use saffire.Vm.Decode.{fetch-line_bytes}
use saffire.Vm.Jump.{jump-patch_value}
use saffire.Asm.{op_label, code_line}
use saffire.Asm.Frame.{AsmFrame}
use saffire.Asm.Assemble.{operand_size, patch_value}
use saffire.Asm.Reference.{patched, operand_value, line_bytes}

jump_run :
    (fuel : ℕ) (m : Machine) (f : StackFrame) (a b c : ℕ)
    → fetch m.frame ≡ ok (f, record { opcode = 0x83; oparg1 = a; oparg2 = b; oparg3 = c })
    → step fuel m ≡ ok (dispatch (record m { frame = jump true a f }))
unfolding step execute operand_opcode finish
jump_run fuel m f a b c h = rw h

label_operand :
    (labels : List (Text × ℕ)) (F : AsmFrame) (off l : ℕ) (s : Text)
    → lookup s labels ≡ some l
    → operand_value (patched labels) F 0x83 off (op_label s) % 2 ^ 16 ≡ patch_value 0x83 off l
unfolding operand_value patch_value
label_operand labels F off l s h = rw (h, patched) (omega arith)

jump_to : (n l : ℕ) (f : StackFrame) → (jump true n f).ip ≡ l → jump true n f ≡ record f { ip = l }
unfolding jump
jump_to n l f h = ap (λ k. record f { ip = k }) h

-- Where the code of a frame continues with what the assembler makes of `JUMP_FORWARD` to a label,
-- and the offset of the label is below 2 ^ 31, at or behind the end of the instruction and less
-- than 2 ^ 16 bytes away, a round of the dispatch loop goes on at the offset of the label.
pub step-jump_label :
    (fuel lineno l : ℕ) (s : Text) (labels : List (Text × ℕ)) (F : AsmFrame) (m : Machine)
    (pre post : List ℕ)
    → m.frame.codeframe.code
      ≡ pre
        ++ (line_bytes (patched labels) F (length pre) (code_line lineno 0x83 (op_label s ∷ []))
            ++ post)
    → m.frame.ip ≡ length pre
    → lookup s labels ≡ some l
    → length pre + 3 ≤ l
    → l < length pre + 3 + 2 ^ 16
    → l < 2 ^ 31
    → step fuel m ≡ ok (dispatch (record m { frame = record (m.frame) { ip = l } }))
unfolding operand_size
step-jump_label fuel lineno l s labels F m pre post code at found behind near small =
    let run =
      fetch-line_bytes (patched labels) F (length pre) lineno 0x83 (op_label s ∷ []) m.frame pre
        post (omega arith) refl code at in
    let f : StackFrame = record (m.frame) { ip = m.frame.ip + 1 + 2 * 1 } in
    let forward : leb f.ip l ≡ true = le→leb f.ip l (omega arith) in
    let lands : (jump true (patch_value 0x83 (length pre) l) f).ip ≡ l =
      jump-patch_value f 0x83 (length pre) l refl (omega arith) (omega arith) (omega arith) small
        (omega arith)
      ∙ rw forward refl in
    jump_run fuel m f _ _ _ run
    ∙ ap (λ n. ok (dispatch (record m { frame = jump true n f })))
        (label_operand labels F (length pre) l s found)
    ∙ ap (λ g. ok (dispatch (record m { frame = g }))) (jump_to _ l f lands)
