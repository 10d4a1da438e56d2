-- ===== src/Vm/Uncaught.antt =====
-- `VM_THROW` of src/components/vm/vm.c in a frame without blocks.
use saffire.Prelude.{ℕ, suc, ◌≡◌, refl, ap, subst, ◌∙◌, some, List, [], ◌∷◌, ok, ◌>>=◌}
use saffire.Vm.{exception, ObjectPtr, StackFrame}
use saffire.Vm.Frame.{attribute_data, vm_frame_stack_pop}
use saffire.Vm.Frame.Stack.{IsValid, contents, Holds}
use saffire.Vm.Frame.Moves.{Holds-self, popped}
use saffire.Vm.Unwind.{reason_exception, unwind_blocks}
use saffire.Vm.Unwind.Exceptions.{unwind_outside}
use saffire.Vm.Execute.{Machine, block_end, stopped, throw_on, throw}
use saffire.Vm.Dispatch.{finish}

throw_run :
    (m : Machine) (f : StackFrame) (e : ℕ)
    → vm_frame_stack_pop m.frame ≡ ok (f, exception e)
    → throw m
      ≡ ok (
          block_end
            (record m { frame = f; reason = reason_exception; thrown = some (exception e) }))
unfolding throw throw_on
throw_run m f e pop = rw pop

uncaught_run :
    (fuel : ℕ) (m : Machine) (f : StackFrame)
    → unwind_blocks fuel m.reason m.ret m.thrown m.frame ≡ ok (f, reason_exception)
    → finish fuel (block_end m) ≡ ok (stopped m.ret)
unfolding finish
uncaught_run fuel m f h = rw h

-- An exception object thrown from the top of the stack of a valid frame, outside of all blocks,
-- leaves the frame with the value that `ret` had before.
pub uncaught_keeps_ret :
    (fuel : ℕ) (m : Machine) (e : ℕ) (rest : List ObjectPtr)
    → IsValid m.frame
    → m.frame.blocks ≡ []
    → contents m.frame ≡ some (exception e) ∷ rest
    → throw m >>= finish (suc fuel) ≡ ok (stopped m.ret)
unfolding attribute_data
uncaught_keeps_ret fuel m e rest v none_left c =
    let (f, pop, h) =
      popped m.frame m.frame (exception e) rest
        (subst (λ xs. Holds xs m.frame m.frame) c (Holds-self m.frame v)) in
    let m₁ : Machine = record m {
      frame = f;
      reason = reason_exception;
      thrown = some (exception e);
    } in
    ap (λ r. r >>= finish (suc fuel)) (throw_run m f e pop)
    ∙ uncaught_run (suc fuel) m₁ f (
        unwind_outside fuel reason_exception m.ret (some (exception e)) f refl
          (h.same_blocks ∙ none_left))
