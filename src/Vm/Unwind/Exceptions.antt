-- ===== src/Vm/Unwind/Exceptions.antt =====
-- `unwind_blocks` of src/components/vm/vm.c for an exception.
use saffire.Prelude.{
  ℕ, zero, suc, ◌+◌, ◌-◌, ◌%◌, ◌^◌, ◌≤◌, ◌<◌, ◌≡◌, refl, sym, ap, subst, ◌∙◌, false, some, none,
  Option, List, [], ◌∷◌, arith, ok, ◌>>=◌, All, length, drop, ◌==◌,
}
use saffire.Vm.{ObjectPtr, Handlers, loop, exceptions, FrameBlock, CodeFrame, StackFrame}
use saffire.Vm.Frame.{vm_frame_stack_push}
use saffire.Vm.Frame.Stack.{IsValid, contents, push-contents}
use saffire.Vm.Block.{pop_blocks, vm_pop_block}
use saffire.Vm.Unwind.{
  reason_none, reason_exception, pop_to, leave, again, exception_in_try, unwind_loop,
  unwind_exceptions, unwind_pass, after_pass, innermost, unwind_blocks,
}
use saffire.Vm.Unwind.Pops.{AreObjects, AreObjects-drop, pop_to_lem, drop-drop}
use saffire.Vm.Unwind.Stuck.{unwind_step}

-- The saved stack pointer lies inside the stack. That of an exception block has the reason of
-- `SETUP_EXCEPT` and a further slot above it.
abbrev pub IsRoomy : ℕ → FrameBlock → Type 0
IsRoomy size b = (b.sp ≤ size) × elim b.handlers [
  | loop ip ip_else ↦ Unit {0}
  | exceptions ip_catch ip_finally ip_end_finally ↦ 2 ≤ b.sp
]

-- The catch offset of the nearest exception block, with the blocks from it on.
unfoldable pub nearest_try : List FrameBlock → Option (ℕ × List FrameBlock)
nearest_try [] = none
nearest_try (b ∷ bs) = elim b.handlers [
  | loop ip ip_else ↦ nearest_try bs
  | exceptions ip_catch ip_finally ip_end_finally ↦ some (ip_catch, b ∷ bs)
]

-- The stack pointer to which the unwinding cuts the stack: the highest one that a loop block on the
-- way saved, or that of the reason which `SETUP_EXCEPT` pushed.
unfoldable pub cut_level : List FrameBlock → ℕ
cut_level [] = 0
cut_level (b ∷ bs) = elim b.handlers [
  | loop ip ip_else ↦ b.sp + (cut_level bs - b.sp)
  | exceptions ip_catch ip_finally ip_end_finally ↦ b.sp - 1
]

-- The outcome: caught, with the exception on top of what is left of the stack, or not.
abbrev pub Unwound :
    Option (ℕ × List FrameBlock) → ℕ → StackFrame → ObjectPtr → StackFrame → ℕ → Type 0
Unwound none level f thrown f' reason =
    (reason ≡ reason_exception)
    × (f'.blocks ≡ [])
    × (contents f' ≡ drop (level - f.sp) (contents f))
Unwound (some (ip_catch, blocks)) level f thrown f' reason =
    (reason ≡ reason_none)
    × (f'.ip ≡ ip_catch)
    × (f'.blocks ≡ blocks)
    × (contents f' ≡ thrown ∷ drop (level - f.sp) (contents f))

-- A loop block on the way cuts to its own stack pointer first.
Unwound-loop :
    (t : Option (ℕ × List FrameBlock)) (sp level : ℕ) (f g f' : StackFrame) (thrown : ObjectPtr)
    (reason : ℕ)
    → g.sp ≡ f.sp + (sp - f.sp)
    → contents g ≡ drop (sp - f.sp) (contents f)
    → Unwound t level g thrown f' reason
    → Unwound t (sp + (level - sp)) f thrown f' reason
Unwound-loop none sp level f g f' thrown reason moved e (r, b, c) =
    let n : (sp - f.sp) + (level - g.sp) ≡ (sp + (level - sp)) - f.sp = omega arith in
    (
      r,
      b,
      c
          ∙ ap (drop (level - g.sp)) e
          ∙ drop-drop (level - g.sp) (sp - f.sp) (contents f)
          ∙ ap (λ k. drop k (contents f)) n,
    )
Unwound-loop (some (ip, bs)) sp level f g f' thrown reason moved e (r, i, b, c) =
    let n : (sp - f.sp) + (level - g.sp) ≡ (sp + (level - sp)) - f.sp = omega arith in
    (
      r,
      i,
      b,
      c
          ∙ ap (λ xs. thrown ∷ drop (level - g.sp) xs) e
          ∙ ap (λ xs. thrown ∷ xs) (drop-drop (level - g.sp) (sp - f.sp) (contents f))
          ∙ ap (λ k. thrown ∷ drop k (contents f)) n,
    )

loop_pass :
    (ip ip_else sp visited : ℕ) (ret thrown : ObjectPtr) (f f₁ : StackFrame) (bs : List FrameBlock)
    → pop_to sp f ≡ ok f₁
    → f₁.blocks ≡ record { handlers = loop ip ip_else; sp = sp; visited = visited } ∷ bs
    → unwind_pass
        (record { handlers = loop ip ip_else; sp = sp; visited = visited })
        reason_exception
        ret
        thrown
        f
      ≡ ok (again (record f₁ { blocks = bs }))
unfolding unwind_pass unwind_loop vm_pop_block pop_blocks
loop_pass ip ip_else sp visited ret thrown f f₁ bs run e =
    let inner : pop_blocks f₁.blocks
        ≡ ok (record { handlers = loop ip ip_else; sp = sp; visited = visited }, bs) =
      ap pop_blocks e in
    rw run (rw inner)

-- A frame with other blocks has the same stack.
pub IsValid-blocks :
    (f : StackFrame) (bs : List FrameBlock) → IsValid f → IsValid (record f { blocks = bs })
IsValid-blocks f bs v = record { allocated = v.allocated; inside = v.inside; small = v.small }

try_pass_run :
    (ip_catch ip_finally ip_end_finally sp visited : ℕ) (ret thrown : ObjectPtr)
    (f f₁ f₂ : StackFrame)
    → (sp + 2 ^ 32 - 1) % 2 ^ 32 ≡ sp - 1
    → pop_to (sp - 1) f ≡ ok f₁
    → vm_frame_stack_push f₁ thrown ≡ ok f₂
    → unwind_pass
        (record {
          handlers = exceptions ip_catch ip_finally ip_end_finally;
          sp = sp;
          visited = visited;
        })
        reason_exception
        ret
        thrown
        f
      ≡ ok (leave reason_none (record f₂ { ip = ip_catch }))
unfolding unwind_pass unwind_exceptions exception_in_try
try_pass_run ip_catch ip_finally ip_end_finally sp visited ret thrown f f₁ f₂ target run push =
    rw target (rw run (rw push))

-- The unwinding of an exception by `fuel` rounds from a frame with the blocks `bs`.
abbrev pub Unwinds : ℕ → ObjectPtr → ObjectPtr → List FrameBlock → StackFrame → Type 0
Unwinds fuel ret thrown bs f =
    (f' : StackFrame) × (reason : ℕ) × (unwind_blocks fuel reason_exception ret thrown f
      ≡ ok (f', reason))
    × Unwound (nearest_try bs) (cut_level bs) f thrown f' reason

pub unwind_outside :
    (fuel reason : ℕ) (ret thrown : ObjectPtr) (f : StackFrame)
    → (reason == reason_none) ≡ false
    → f.blocks ≡ []
    → unwind_blocks (suc fuel) reason ret thrown f ≡ ok (f, reason)
unfolding unwind_blocks innermost
unwind_outside fuel reason ret thrown f some_reason e =
    let inner : innermost f.blocks ≡ none = ap innermost e in
    rw (some_reason, unwind_blocks) (rw inner)

unwind_round :
    (fuel : ℕ) (ret thrown : ObjectPtr) (h : Handlers) (sp visited : ℕ) (bs : List FrameBlock)
    (f : StackFrame)
    → f.blocks ≡ record { handlers = h; sp = sp; visited = visited } ∷ bs
    → IsValid f
    → AreObjects (contents f)
    → IsRoomy f.codeframe.stack_size (record { handlers = h; sp = sp; visited = visited })
    → ((f₁ : StackFrame)
        → f₁.codeframe ≡ f.codeframe
        → f₁.blocks ≡ bs
        → IsValid f₁
        → AreObjects (contents f₁)
        → Unwinds fuel ret thrown bs f₁)
    → Unwinds (suc fuel) ret thrown (record { handlers = h; sp = sp; visited = visited } ∷ bs) f
unfolding after_pass nearest_try cut_level
unwind_round fuel ret thrown (loop ip ip_else) sp visited bs f e v os roomy next =
    let (f₁, run, c) = pop_to_lem sp f v os roomy.0 in
    let objects : AreObjects (contents f₁) =
      subst AreObjects (sym c.cut.holds) (AreObjects-drop _ (contents f) os) in
    let (f', reason, rest, u) =
      next (record f₁ { blocks = bs }) c.cut.same_codeframe refl (IsValid-blocks f₁ bs c.cut.valid)
        objects in
    (
      f',
      reason,
      unwind_step fuel reason_exception ret thrown f _ bs refl e
          ∙ ap (λ r. r >>= after_pass (unwind_blocks fuel reason_exception ret thrown))
              (loop_pass ip ip_else sp visited ret thrown f f₁ bs run (c.cut.same_blocks ∙ e))
          ∙ rest,
      Unwound-loop (nearest_try bs) sp (cut_level bs) f (record f₁ { blocks = bs }) f' thrown reason
          c.moved c.cut.holds u,
    )
unwind_round fuel ret thrown (exceptions ip_catch ip_finally ip_end_finally) sp visited bs f e v os
      (h, two) next =
    let target : (sp + 2 ^ 32 - 1) % 2 ^ 32 ≡ sp - 1 = omega (arith, v.small) in
    let (f₁, run, c) = pop_to_lem (sp - 1) f v os (omega arith) in
    let (f₂, push, p) = push-contents f₁ c.cut.valid thrown (omega (arith, c.moved)) in
    (
      record f₂ { ip = ip_catch },
      reason_none,
      unwind_step fuel reason_exception ret thrown f _ bs refl e
          ∙ ap (λ r. r >>= after_pass (unwind_blocks fuel reason_exception ret thrown))
              (try_pass_run ip_catch ip_finally ip_end_finally sp visited ret thrown f f₁ f₂ target
                run push),
      (
        refl,
        refl,
        p.same_blocks ∙ c.cut.same_blocks ∙ e,
        p.holds ∙ ap (λ xs. thrown ∷ xs) c.cut.holds,
      ),
    )

-- In a valid frame whose stack holds objects, and whose saved stack pointers are inside the stack,
-- those of exception blocks at least 2, an exception unwinds the loop blocks up to the nearest
-- exception block: its catch clause is entered with the exception on top of the stack, and the
-- block stays. Without one the frame is left without blocks, with the reason still set. In both
-- cases the stack is cut to `cut_level` of the blocks. A round for each block and one more are
-- enough.
pub unwind_exception_lem :
    (fuel : ℕ) (ret thrown : ObjectPtr) (bs : List FrameBlock) (f : StackFrame)
    → f.blocks ≡ bs
    → length bs < fuel
    → IsValid f
    → AreObjects (contents f)
    → All (IsRoomy f.codeframe.stack_size) bs
    → Unwinds fuel ret thrown bs f
unfolding nearest_try cut_level
unwind_exception_lem zero ret thrown bs f e enough v os roomy = absurd (omega arith)
unwind_exception_lem (suc fuel) ret thrown [] f e enough v os roomy =
    let nothing : 0 ≡ 0 - f.sp = omega arith in
    (
      f,
      reason_exception,
      unwind_outside fuel reason_exception ret thrown f refl e,
      (refl, e, ap (λ k. drop k (contents f)) nothing),
    )
unwind_exception_lem (suc fuel) ret thrown (b ∷ bs) f e enough v os roomy =
    unwind_round fuel ret thrown b.handlers b.sp b.visited bs f e v os roomy.0 (λ f₁ same e₁ v₁ os₁.
      unwind_exception_lem fuel ret thrown bs f₁ e₁ (omega arith) v₁ os₁
        (subst (λ (c : CodeFrame). All (IsRoomy c.stack_size) bs) (sym same) roomy.1))
