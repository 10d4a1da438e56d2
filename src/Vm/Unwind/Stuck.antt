-- ===== src/Vm/Unwind/Stuck.antt =====
-- `unwind_blocks` of src/components/vm/vm.c for reasons that the innermost block does not handle.
use saffire.Prelude.{
  ℕ, zero, suc, ◌≤◌, ◌≡◌, refl, sym, ap, subst, ◌∙◌, Bool, false, ◌||◌, some, List, ◌∷◌, arith, ok,
  out_of_fuel, ◌>>=◌, ◌==◌,
}
use saffire.Vm.{ObjectPtr, Handlers, loop, exceptions, FrameBlock, CodeFrame, StackFrame}
use saffire.Vm.Frame.Stack.{IsValid, contents}
use saffire.Vm.Unwind.{
  reason_none, reason_return, reason_continue, reason_break, reason_breakelse, reason_exception,
  reason_finally, pop_to, again, unwind_loop, unwind_exceptions, unwind_pass, after_pass, innermost,
  unwind_blocks,
}
use saffire.Vm.Unwind.Pops.{AreObjects, AreObjects-drop, pop_to_lem}

-- The reasons that a block of a type reacts to.
unfoldable pub handles : Handlers → ℕ → Bool
handles (loop ip ip_else) reason =
    (reason == reason_continue || reason == reason_break)
    || (reason == reason_breakelse || reason == reason_exception)
handles (exceptions ip_catch ip_finally ip_end_finally) reason =
    reason == reason_return || (reason == reason_exception || reason == reason_finally)

pub unwind_step :
    (fuel reason : ℕ) (ret thrown : ObjectPtr) (f : StackFrame) (block : FrameBlock)
    (rest : List FrameBlock)
    → (reason == reason_none) ≡ false
    → f.blocks ≡ block ∷ rest
    → unwind_blocks (suc fuel) reason ret thrown f ≡ (
        unwind_pass block reason ret thrown f >>= after_pass (unwind_blocks fuel reason ret thrown))
unfolding unwind_blocks innermost
unwind_step fuel reason ret thrown f block rest some_reason e =
    let inner : innermost f.blocks ≡ some block = ap innermost e in
    rw (some_reason, unwind_blocks) (rw inner)

pub unwind_no_fuel :
    (reason : ℕ) (ret thrown : ObjectPtr) (f : StackFrame)
    → unwind_blocks 0 reason ret thrown f ≡ out_of_fuel
unfolding unwind_blocks
unwind_no_fuel reason ret thrown f = refl

stuck_pass :
    (h : Handlers) (sp visited reason : ℕ) (ret thrown : ObjectPtr) (f f' : StackFrame)
    → handles h reason ≡ false
    → pop_to sp f ≡ ok f'
    → unwind_pass (record { handlers = h; sp = sp; visited = visited }) reason ret thrown f
      ≡ ok (again f')
unfolding unwind_pass unwind_loop unwind_exceptions handles
stuck_pass (loop ip ip_else) sp visited reason ret thrown f f' no_handler run = ground arith
stuck_pass (exceptions ip_catch ip_finally ip_end_finally) sp visited reason ret thrown f f'
      no_handler run =
    ground arith

-- In a valid frame whose stack holds objects and whose innermost block, with its saved pointer
-- inside the stack, does not handle the reason, no number of rounds ends the unwinding.
pub unwind_blocks_stuck :
    (fuel reason : ℕ) (ret thrown : ObjectPtr) (f : StackFrame) (block : FrameBlock)
    (rest : List FrameBlock)
    → (reason == reason_none) ≡ false
    → f.blocks ≡ block ∷ rest
    → handles block.handlers reason ≡ false
    → IsValid f
    → AreObjects (contents f)
    → block.sp ≤ f.codeframe.stack_size
    → unwind_blocks fuel reason ret thrown f ≡ out_of_fuel
unfolding after_pass
unwind_blocks_stuck zero reason ret thrown f block rest r e no_handler v os h =
    unwind_no_fuel reason ret thrown f
unwind_blocks_stuck (suc fuel) reason ret thrown f block rest r e no_handler v os h =
    let (f', run, c) = pop_to_lem block.sp f v os h in
    rw
      (
        unwind_step fuel reason ret thrown f block rest r e,
        stuck_pass block.handlers block.sp block.visited reason ret thrown f f' no_handler run,
      )
      (unwind_blocks_stuck fuel reason ret thrown f' block rest r (c.cut.same_blocks ∙ e) no_handler
        c.cut.valid (subst AreObjects (sym c.cut.holds) (AreObjects-drop _ (contents f) os))
        (omega (arith, ap (λ (g : CodeFrame). g.stack_size) c.cut.same_codeframe)))
