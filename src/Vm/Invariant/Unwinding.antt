-- ===== src/Vm/Invariant/Unwinding.antt =====
-- Well-formed frames and `unwind_blocks` of src/components/vm/vm.c.
use saffire.Prelude.{
  ℕ, zero, suc, ◌+◌, ◌-◌, ◌%◌, ◌^◌, some, inl, inr, Run, ok, ◌>>=◌, Ends, Ends-bind, Ends-any,
  Ends-if, leb, ◌==◌, Bool-cases, Option-cases,
}
use saffire.Vm.{numerical, ObjectPtr, Handlers, loop, exceptions, StackFrame}
use saffire.Vm.Frame.{vm_frame_stack_pop, vm_frame_stack_push}
use saffire.Vm.Block.{vm_pop_block}
use saffire.Vm.Unwind.{
  reason_none, reason_return, reason_continue, reason_break, reason_breakelse, reason_exception,
  reason_finally, obj2num, pop_times, pop_to, Pass, leave, again, return_in_try, exception_in_try,
  unwind_loop, unwind_exceptions, unwind_pass, after_pass, innermost, unwind_blocks,
}
use saffire.Vm.Invariant.{IsSound, IsSound-ip}
use saffire.Vm.Invariant.Stacks.{push-IsSound, pop-IsSound, pop_block-IsSound}

abbrev IsSoundPass : Pass → Type 0
IsSoundPass (leave reason f) = IsSound f
IsSoundPass (again f) = IsSound f

pop_times-IsSound : (n : ℕ) (f : StackFrame) → IsSound f → Ends IsSound (pop_times n f)
unfolding pop_times
pop_times-IsSound zero f s = s
pop_times-IsSound (suc n) f s =
    Ends-bind _ _ (vm_frame_stack_pop f) _ (pop-IsSound f s) (λ r h. pop_times-IsSound n r.0 h)

pop_to-IsSound : (sp : ℕ) (f : StackFrame) → IsSound f → Ends IsSound (pop_to sp f)
unfolding pop_to
pop_to-IsSound sp f s = pop_times-IsSound (sp - f.sp) f s

return_sound :
    (ip_finally ip_end_finally : ℕ) (ret : ObjectPtr) (f : StackFrame)
    → IsSound f
    → Ends IsSoundPass (return_in_try ip_finally ip_end_finally ret f)
unfolding return_in_try
return_sound ip_finally ip_end_finally ret f s =
    Ends-bind _ _ (vm_frame_stack_push f ret) _ (push-IsSound f ret s) (λ f₁ s₁.
      Ends-bind _ _ (vm_frame_stack_push f₁ (some (numerical reason_return))) _
        (push-IsSound f₁ (some (numerical reason_return)) s₁)
        (λ f₂ s₂.
          Ends-if _ (leb f₂.ip ip_finally) _ _ (IsSound-ip f₂ ip_finally s₂)
            (Ends-if _ (leb f₂.ip ip_end_finally) _ _ (IsSound-ip f₂ ip_end_finally s₂) s₂)))

exception_sound :
    (sp ip_catch : ℕ) (thrown : ObjectPtr) (f : StackFrame)
    → IsSound f
    → Ends IsSoundPass (exception_in_try sp ip_catch thrown f)
unfolding exception_in_try
exception_sound sp ip_catch thrown f s =
    Ends-bind _ _ (pop_to ((sp + 2 ^ 32 - 1) % 2 ^ 32) f) _ (pop_to-IsSound _ f s) (λ f₁ s₁.
      Ends-bind _ _ (vm_frame_stack_push f₁ thrown) _ (push-IsSound f₁ thrown s₁)
        (λ f₂ s₂. IsSound-ip f₂ ip_catch s₂))

pop_and_sound :
    (g : StackFrame → Pass) (f : StackFrame)
    → ((f' : StackFrame) → IsSound f' → IsSoundPass (g f'))
    → IsSound f
    → Ends IsSoundPass (vm_pop_block f >>= λ r. ok (g r.0))
pop_and_sound g f keeps s =
    Ends-bind _ _ (vm_pop_block f) _ (pop_block-IsSound f s) (λ r h. keeps r.0 h)

loop_sound :
    (ip ip_else sp reason : ℕ) (ret : ObjectPtr) (f : StackFrame)
    → IsSound f
    → Ends IsSoundPass (unwind_loop ip ip_else sp reason ret f)
unfolding unwind_loop
loop_sound ip ip_else sp reason ret f s =
    Ends-if _ (reason == reason_continue) _ _
      (Ends-bind _ _ (obj2num ret) _ (Ends-any (obj2num ret)) (λ n _. IsSound-ip f (n % 2 ^ 32) s))
      (Ends-bind _ _ (pop_to sp f) _ (pop_to-IsSound sp f s) (λ g h.
        Ends-if _ (reason == reason_exception) _ _ (pop_and_sound again g (λ f' k. k) h) (
          Ends-if _ (reason == reason_breakelse) _ _ (IsSound-ip g ip_else h)
            (Ends-if _ (reason == reason_break) _ _ (IsSound-ip g ip h) h))))

exceptions_sound :
    (ip_catch ip_finally ip_end_finally sp reason : ℕ) (ret thrown : ObjectPtr) (f : StackFrame)
    → IsSound f
    → Ends IsSoundPass (unwind_exceptions ip_catch ip_finally ip_end_finally sp reason ret thrown f)
unfolding unwind_exceptions
exceptions_sound ip_catch ip_finally ip_end_finally sp reason ret thrown f s =
    Ends-if _ (reason == reason_return) _ _ (return_sound ip_finally ip_end_finally ret f s) (
      Ends-if _ (reason == reason_exception) _ _ (exception_sound sp ip_catch thrown f s) (
        Ends-bind _ _ (pop_to sp f) _ (pop_to-IsSound sp f s) (λ g h.
          Ends-if _ (reason == reason_finally) _ _
            (pop_and_sound (leave reason_none) g (λ f' k. k) h) h)))

pass_sound :
    (h : Handlers) (sp visited reason : ℕ) (ret thrown : ObjectPtr) (f : StackFrame)
    → IsSound f
    → Ends IsSoundPass
        (unwind_pass (record { handlers = h; sp = sp; visited = visited }) reason ret thrown f)
unfolding unwind_pass
pass_sound (loop ip ip_else) sp visited reason ret thrown f s =
    loop_sound ip ip_else sp reason ret f s
pass_sound (exceptions ip_catch ip_finally ip_end_finally) sp visited reason ret thrown f s =
    exceptions_sound ip_catch ip_finally ip_end_finally sp reason ret thrown f s

after-IsSound :
    (next : StackFrame → Run (StackFrame × ℕ)) (p : Pass)
    → ((f : StackFrame) → IsSound f → Ends (λ (r : StackFrame × ℕ). IsSound r.0) (next f))
    → IsSoundPass p
    → Ends (λ (r : StackFrame × ℕ). IsSound r.0) (after_pass next p)
unfolding after_pass
after-IsSound next (leave reason f) keeps s = s
after-IsSound next (again f) keeps s = keeps f s

pub unwind_blocks-IsSound :
    (fuel reason : ℕ) (ret thrown : ObjectPtr) (f : StackFrame)
    → IsSound f
    → Ends (λ (r : StackFrame × ℕ). IsSound r.0) (unwind_blocks fuel reason ret thrown f)
unfolding unwind_blocks
unwind_blocks-IsSound zero reason ret thrown f s = tt
unwind_blocks-IsSound (suc fuel) reason ret thrown f s = elim (Bool-cases (reason == reason_none)) [
  | inl no_reason ↦ rw (no_reason, unwind_blocks) s
  | inr some_reason ↦ elim (Option-cases (innermost f.blocks)) [
    | inl outside ↦ rw (some_reason, unwind_blocks) (rw outside s)
    | inr (block, e) ↦
        rw (some_reason, unwind_blocks)
          (rw e (
            Ends-bind _ _ (unwind_pass block reason ret thrown f) _
              (pass_sound block.handlers block.sp block.visited reason ret thrown f s)
              (λ p h.
                after-IsSound _ p (λ g k. unwind_blocks-IsSound fuel reason ret thrown g k) h)))
  ]
]
