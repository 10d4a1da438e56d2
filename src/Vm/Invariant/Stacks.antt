-- ===== src/Vm/Invariant/Stacks.antt =====
-- Well-formed frames and the operations of src/components/vm/stackframe.c and
-- src/components/vm/block.c.
use saffire.Prelude.{
  ℕ, ◌+◌, ◌≤◌, ◌≡◌, refl, sym, subst, false, some, none, inl, inr, List, [], ◌∷◌, arith, ok,
  undefined, Ends, Ends-bind, Ends-ok, Ends-any, Ends-if, ◌∙◌, All, length, length-set, get_elem?,
  set, leb, ltb, ltb→lt, ◌==◌, Bool-cases, Option-cases, bit_and,
}
use saffire.Vm.{Object, ObjectPtr, Handlers, FrameBlock, StackFrame}
use saffire.Vm.Frame.{
  vm_frame_get_next_opcode, vm_frame_get_operand, read_slot, write_slot, vm_frame_stack_pop_attrib,
  vm_frame_stack_pop, vm_frame_stack_push, masked_operand, Instruction, fetch, attribute_data,
}
use saffire.Vm.Frame.Stack.{push-contents, push_full}
use saffire.Vm.Block.{block_max_depth, create_block, pop_blocks, vm_pop_block}
use saffire.Vm.Invariant.{IsSound, IsSound-ip, IsSound-blocks, IsSound-stack}

pub push-IsSound :
    (f : StackFrame) (obj : ObjectPtr) → IsSound f → Ends IsSound (vm_frame_stack_push f obj)
push-IsSound f obj s = elim (Bool-cases (ltb 0 f.sp)) [
  | inl room ↦
      let (f', run, h) = push-contents f s.valid obj (ltb→lt 0 f.sp room) in
      Ends-ok IsSound _ f' run (IsSound-stack f f' s h.valid h.same_codeframe h.same_blocks)
  | inr full ↦ subst (Ends IsSound) (sym (push_full f s.valid obj (ground arith))) tt
]

write_slot-Ends :
    (f : StackFrame) (i : ℕ) (obj : ObjectPtr)
    → Ends (λ g. g ≡ record f { stack = set f.stack i obj }) (write_slot f i obj)
unfolding write_slot
write_slot-Ends f i obj = Ends-if _ (ltb i (length f.stack)) _ undefined refl tt

popped-IsSound :
    (f g : StackFrame)
    → IsSound f
    → leb f.codeframe.stack_size f.sp ≡ false
    → g ≡ record f { stack = set f.stack f.sp none }
    → IsSound (record g { sp = f.sp + 1 })
popped-IsSound f g s some_left e =
    let f' = record f { sp = f.sp + 1; stack = set f.stack f.sp none } in
    subst (λ (h : StackFrame). IsSound (record h { sp = f.sp + 1 })) (sym e)
      (IsSound-stack f f' s
        (record {
          allocated = length-set f.stack f.sp none ∙ s.valid.allocated;
          inside = ground arith;
          small = s.valid.small;
        })
        refl refl)

pub pop_attrib-IsSound :
    (f : StackFrame)
    → IsSound f
    → Ends (λ (r : StackFrame × ObjectPtr). IsSound r.0) (vm_frame_stack_pop_attrib f)
unfolding vm_frame_stack_pop_attrib
pop_attrib-IsSound f s = elim (Bool-cases (leb f.codeframe.stack_size f.sp)) [
  | inl none_left ↦ rw none_left tt
  | inr some_left ↦ rw some_left (
      Ends-bind _ _ (read_slot f f.sp) _ (Ends-any (read_slot f f.sp)) (λ ret _.
        Ends-bind _ _ (write_slot f f.sp none) _ (write_slot-Ends f f.sp none)
          (λ g e. popped-IsSound f g s some_left e)))
]

object-IsSound :
    (f : StackFrame) (obj : ObjectPtr)
    → IsSound f
    → Ends
        (λ (r : StackFrame × Object). IsSound r.0)
        (elim obj [ none ↦ undefined | some o ↦ ok (f, attribute_data o) ])
object-IsSound f none s = tt
object-IsSound f (some o) s = s

pub pop-IsSound :
    (f : StackFrame)
    → IsSound f
    → Ends (λ (r : StackFrame × Object). IsSound r.0) (vm_frame_stack_pop f)
unfolding vm_frame_stack_pop
pop-IsSound f s =
    Ends-bind _ _ (vm_frame_stack_pop_attrib f) _ (pop_attrib-IsSound f s)
      (λ r h. object-IsSound r.0 r.1 h)

opcode-IsSound : (f : StackFrame) → IsSound f → IsSound (vm_frame_get_next_opcode f).0
unfolding vm_frame_get_next_opcode
opcode-IsSound f s = elim (Option-cases (get_elem? f.codeframe.code f.ip)) [
  | inl absent ↦ rw (absent, vm_frame_get_next_opcode) s
  | inr (op, e) ↦ rw (e, vm_frame_get_next_opcode) (IsSound-ip f (f.ip + 1) s)
]

operand-IsSound :
    (f : StackFrame)
    → IsSound f
    → Ends (λ (r : StackFrame × ℕ). IsSound r.0) (vm_frame_get_operand f)
unfolding vm_frame_get_operand
operand-IsSound f s = elim (Option-cases (get_elem? f.codeframe.code f.ip)) [
  | inl absent ↦ rw (absent, vm_frame_get_operand) tt
  | inr (low, e) ↦ elim (Option-cases (get_elem? f.codeframe.code (f.ip + 1))) [
    | inl absent ↦ rw (e, vm_frame_get_operand) (rw absent tt)
    | inr (high, e') ↦ rw (e, vm_frame_get_operand) (rw e' (IsSound-ip f (f.ip + 2) s))
  ]
]

masked-IsSound :
    (opcode mask : ℕ) (f : StackFrame)
    → IsSound f
    → Ends (λ (r : StackFrame × ℕ). IsSound r.0) (masked_operand opcode mask f)
unfolding masked_operand
masked-IsSound opcode mask f s =
    Ends-if _ (bit_and opcode mask == mask) (vm_frame_get_operand f) _ (operand-IsSound f s) s

pub fetch-IsSound :
    (f : StackFrame) → IsSound f → Ends (λ (r : StackFrame × Instruction). IsSound r.0) (fetch f)
unfolding fetch
fetch-IsSound f s =
    let (f₀, op) = vm_frame_get_next_opcode f in
    Ends-bind _ _ (masked_operand op 0x80 f₀) _ (masked-IsSound op 0x80 f₀ (opcode-IsSound f s))
      (λ a s₁. Ends-bind _ _ (masked_operand op 0xC0 a.0) _ (masked-IsSound op 0xC0 a.0 s₁) (λ b s₂.
        Ends-bind _ _ (masked_operand op 0xE0 b.0) _ (masked-IsSound op 0xE0 b.0 s₂) (λ c s₃. s₃)))

pub create_block-IsSound :
    (f : StackFrame) (h : Handlers) (sp : ℕ)
    → IsSound f
    → sp ≤ f.codeframe.stack_size
    → Ends IsSound (create_block f h sp)
unfolding create_block
create_block-IsSound f h sp s fits = elim (Bool-cases (leb block_max_depth (length f.blocks))) [
  | inl full ↦ rw full tt
  | inr room ↦ rw room (
      IsSound-blocks f (record { handlers = h; sp = sp; visited = 0 } ∷ f.blocks) s.valid
        (ground arith) (fits, s.saved))
]

pop_blocks-IsSound :
    (f : StackFrame) (bs : List FrameBlock)
    → IsSound f
    → length bs ≤ block_max_depth
    → All (λ (b : FrameBlock). b.sp ≤ f.codeframe.stack_size) bs
    → Ends
        (λ (r : FrameBlock × List FrameBlock). IsSound (record f { blocks = r.1 }))
        (pop_blocks bs)
unfolding pop_blocks
pop_blocks-IsSound f [] s d h = tt
pop_blocks-IsSound f (b ∷ bs) s d h = IsSound-blocks f bs s.valid (omega arith) h.1

pub pop_block-IsSound :
    (f : StackFrame)
    → IsSound f
    → Ends (λ (r : StackFrame × FrameBlock). IsSound r.0) (vm_pop_block f)
unfolding vm_pop_block
pop_block-IsSound f s =
    Ends-bind _ _ (pop_blocks f.blocks) _ (pop_blocks-IsSound f f.blocks s s.depth s.saved)
      (λ r h. h)
