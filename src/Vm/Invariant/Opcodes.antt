-- ===== src/Vm/Invariant/Opcodes.antt =====
-- Well-formed frames and the opcodes of src/components/vm/vm.c.
use saffire.Prelude.{
  ℕ, zero, suc, ◌+◌, ◌≤◌, ◌≡◌, Bool, true, false, not, ◌&&◌, ◌||◌, some, none, List, [], ◌∷◌, Run,
  ◌>>=◌, Ends, Ends-bind, Ends-any, Ends-if, refl, ◌∙◌, subst, All, length, ◌==◌, if◌then◌else◌,
}
use saffire.Vm.{
  Object, numerical, boolean, exception, attrib, other, ObjectPtr, exceptions, FrameBlock,
  StackFrame,
}
use saffire.Vm.Frame.{
  vm_frame_stack_pop, vm_frame_stack_push, vm_frame_stack_fetch_top, vm_frame_get_constant,
}
use saffire.Vm.Block.{block_max_depth, vm_push_block_exception}
use saffire.Vm.Unwind.{reason_return, reason_continue, reason_finally}
use saffire.Vm.Execute.{
  Machine, Control, dispatch, block_end, stopped, outside, rot_two, rot_three, rot_four, dup_top,
  push_times, dup_topx, load_const, setup_except, continue_with, pop_frame, jump, jump_on, jump_if,
  visit, jump_on_first, jump_if_first, return_op, end_finally_on, end_finally, throw_on, throw,
}
use saffire.Vm.Invariant.{IsSound, IsSound-ip, IsSound-blocks}
use saffire.Vm.Invariant.Stacks.{push-IsSound, pop-IsSound, create_block-IsSound}

abbrev pub IsSoundControl : Control → Type 0
IsSoundControl (dispatch m) = IsSound m.frame
IsSoundControl (block_end m) = IsSound m.frame
IsSoundControl (stopped ret) = Unit
IsSoundControl outside = Unit

-- A pop, or a push, and what follows it.
pop_then {κ} :
    {B : Type 0} (Q : B → Type κ) (f : StackFrame) (k : StackFrame × Object → Run B)
    → IsSound f
    → ((r : StackFrame × Object) → IsSound r.0 → Ends Q (k r))
    → Ends Q (vm_frame_stack_pop f >>= k)
pop_then Q f k s next = Ends-bind _ Q (vm_frame_stack_pop f) k (pop-IsSound f s) next

push_then :
    (f : StackFrame) (obj : ObjectPtr) (k : StackFrame → Run StackFrame)
    → IsSound f
    → ((g : StackFrame) → IsSound g → Ends IsSound (k g))
    → Ends IsSound (vm_frame_stack_push f obj >>= k)
push_then f obj k s next =
    Ends-bind _ IsSound (vm_frame_stack_push f obj) k (push-IsSound f obj s) next

pub rot_two-IsSound : (f : StackFrame) → IsSound f → Ends IsSound (rot_two f)
unfolding rot_two
rot_two-IsSound f s = pop_then _ f _ s (λ a s₁.
    pop_then _ a.0 _ s₁
      (λ b s₂. push_then b.0 (some a.1) _ s₂ (λ g s₃. push-IsSound g (some b.1) s₃)))

pub rot_three-IsSound : (f : StackFrame) → IsSound f → Ends IsSound (rot_three f)
unfolding rot_three
rot_three-IsSound f s = pop_then _ f _ s (λ a s₁. pop_then _ a.0 _ s₁ (λ b s₂.
    pop_then _ b.0 _ s₂ (λ c s₃.
      push_then c.0 (some a.1) _ s₃
        (λ g s₄. push_then g (some b.1) _ s₄ (λ h s₅. push-IsSound h (some c.1) s₅)))))

pub rot_four-IsSound : (f : StackFrame) → IsSound f → Ends IsSound (rot_four f)
unfolding rot_four
rot_four-IsSound f s = pop_then _ f _ s (λ a s₁. pop_then _ a.0 _ s₁ (λ b s₂.
    pop_then _ b.0 _ s₂ (λ c s₃. pop_then _ c.0 _ s₃ (λ d s₄. push_then d.0 (some a.1) _ s₄ (λ g s₅.
      push_then g (some b.1) _ s₅
        (λ h s₆. push_then h (some c.1) _ s₆ (λ i s₇. push-IsSound i (some d.1) s₇)))))))

pub dup_top-IsSound : (f : StackFrame) → IsSound f → Ends IsSound (dup_top f)
unfolding dup_top
dup_top-IsSound f s =
    Ends-bind _ _ (vm_frame_stack_fetch_top f) _ (Ends-any (vm_frame_stack_fetch_top f))
      (λ obj _. push-IsSound f obj s)

push_times-IsSound :
    (n : ℕ) (dst : ObjectPtr) (f : StackFrame) → IsSound f → Ends IsSound (push_times n dst f)
unfolding push_times
push_times-IsSound zero dst f s = s
push_times-IsSound (suc n) dst f s = push_then f dst _ s (λ g k. push_times-IsSound n dst g k)

pub dup_topx-IsSound : (n : ℕ) (f : StackFrame) → IsSound f → Ends IsSound (dup_topx n f)
unfolding dup_topx
dup_topx-IsSound n f s =
    Ends-bind _ _ (vm_frame_stack_fetch_top f) _ (Ends-any (vm_frame_stack_fetch_top f))
      (λ dst _. push_times-IsSound n dst f s)

pub load_const-IsSound : (n : ℕ) (f : StackFrame) → IsSound f → Ends IsSound (load_const n f)
unfolding load_const
load_const-IsSound n f s =
    Ends-bind _ _ (vm_frame_get_constant f n) _ (Ends-any (vm_frame_get_constant f n))
      (λ dst _. push-IsSound f (some dst) s)

pub setup_except-IsSound :
    (a b c : ℕ) (f : StackFrame) → IsSound f → Ends IsSound (setup_except a b c f)
unfolding setup_except vm_push_block_exception
setup_except-IsSound a b c f s =
    Ends-bind _ _ (vm_push_block_exception f f.sp (f.ip + a) (f.ip + b) (f.ip + c)) _
      (create_block-IsSound f (exceptions (f.ip + a) (f.ip + b) (f.ip + c)) f.sp s s.valid.inside)
      (λ g k. push-IsSound g (some (numerical reason_finally)) k)

pub continue_sound :
    (m : Machine) (run : Run StackFrame)
    → Ends IsSound run
    → Ends IsSoundControl (continue_with m run)
unfolding continue_with
continue_sound m run h = Ends-bind _ _ run _ h (λ f s. s)

pub pop_frame-IsSound :
    {A : Type 0} (run : Run (StackFrame × A))
    → Ends (λ (r : StackFrame × A). IsSound r.0) run
    → Ends IsSound (pop_frame run)
unfolding pop_frame
pop_frame-IsSound run h = Ends-bind _ _ run _ h (λ r s. s)

pub jump-IsSound : (taken : Bool) (n : ℕ) (f : StackFrame) → IsSound f → IsSound (jump taken n f)
unfolding jump
jump-IsSound true n f s = IsSound-ip f (f.ip + n) s
jump-IsSound false n f s = s

jump_on_sound :
    (wanted : Bool) (n : ℕ) (m : Machine) (obj : ObjectPtr)
    → IsSound m.frame
    → Ends IsSoundControl (jump_on wanted n m obj)
unfolding jump_on
jump_on_sound wanted n m none s = tt
jump_on_sound wanted n m (some (boolean b)) s = jump-IsSound _ n m.frame s
jump_on_sound wanted n m (some (numerical l)) s = tt
jump_on_sound wanted n m (some (exception e)) s = tt
jump_on_sound wanted n m (some (attrib o)) s = tt
jump_on_sound wanted n m (some (other o)) s = tt

pub jump_if_sound :
    (wanted : Bool) (n : ℕ) (m : Machine)
    → IsSound m.frame
    → Ends IsSoundControl (jump_if wanted n m)
unfolding jump_if
jump_if_sound wanted n m s =
    Ends-bind _ _ (vm_frame_stack_fetch_top m.frame) _ (Ends-any (vm_frame_stack_fetch_top m.frame))
      (λ obj _. jump_on_sound wanted n m obj s)

jump_blocks : (taken : Bool) (n : ℕ) (f : StackFrame) → (jump taken n f).blocks ≡ f.blocks
unfolding jump
jump_blocks true n f = refl
jump_blocks false n f = refl

mark-IsSound :
    (b : FrameBlock) (bs : List FrameBlock) (f : StackFrame)
    → f.blocks ≡ b ∷ bs
    → IsSound f
    → IsSound (record f { blocks = record b { visited = 1 } ∷ bs })
mark-IsSound b bs f e s =
    IsSound-blocks f (record b { visited = 1 } ∷ bs) s.valid
      (subst (λ (l : List FrameBlock). length l ≤ block_max_depth) e s.depth)
      (subst (λ (l : List FrameBlock). All (λ (c : FrameBlock). c.sp ≤ f.codeframe.stack_size) l) e
        s.saved)

visit-IsSound :
    (taken : Bool) (n : ℕ) (bs : List FrameBlock) (f : StackFrame)
    → f.blocks ≡ bs
    → IsSound f
    → Ends IsSound (visit taken n bs f)
unfolding visit
visit-IsSound taken n [] f e s = tt
visit-IsSound taken n (b ∷ bs) f e s =
    let now = taken && b.visited == 0 in
    mark-IsSound b bs (jump now n f) (jump_blocks now n f ∙ e) (jump-IsSound now n f s)

jump_on_first_sound :
    (wanted : Bool) (n : ℕ) (m : Machine) (obj : ObjectPtr)
    → IsSound m.frame
    → Ends IsSoundControl (jump_on_first wanted n m obj)
unfolding jump_on_first
jump_on_first_sound wanted n m none s = tt
jump_on_first_sound wanted n m (some (boolean b)) s =
    continue_sound m _ (visit-IsSound (if wanted then b else not b) n m.frame.blocks m.frame refl s)
jump_on_first_sound wanted n m (some (numerical l)) s = tt
jump_on_first_sound wanted n m (some (exception e)) s = tt
jump_on_first_sound wanted n m (some (attrib o)) s = tt
jump_on_first_sound wanted n m (some (other o)) s = tt

pub jump_if_first_sound :
    (wanted : Bool) (n : ℕ) (m : Machine)
    → IsSound m.frame
    → Ends IsSoundControl (jump_if_first wanted n m)
unfolding jump_if_first
jump_if_first_sound wanted n m s =
    Ends-bind _ _ (vm_frame_stack_fetch_top m.frame) _ (Ends-any (vm_frame_stack_fetch_top m.frame))
      (λ obj _. jump_on_first_sound wanted n m obj s)

pub return_op_sound : (m : Machine) → IsSound m.frame → Ends IsSoundControl (return_op m)
unfolding return_op
return_op_sound m s = pop_then _ m.frame _ s (λ r h. h)

end_finally_on_sound :
    (m : Machine) (f : StackFrame) (o : Object)
    → IsSound f
    → Ends IsSoundControl (end_finally_on m f o)
unfolding end_finally_on
end_finally_on_sound m f (numerical n) s =
    Ends-if _ (n == reason_return || n == reason_continue) _ _ (pop_then _ f _ s (λ r h. h)) s
end_finally_on_sound m f (exception e) s = s
end_finally_on_sound m f (boolean b) s = s
end_finally_on_sound m f (attrib o) s = s
end_finally_on_sound m f (other o) s = s

pub end_finally_sound : (m : Machine) → IsSound m.frame → Ends IsSoundControl (end_finally m)
unfolding end_finally
end_finally_sound m s = pop_then _ m.frame _ s (λ r h. end_finally_on_sound m r.0 r.1 h)

throw_on_sound :
    (m : Machine) (f : StackFrame) (o : Object) → IsSound f → Ends IsSoundControl (throw_on m f o)
unfolding throw_on
throw_on_sound m f (exception e) s = s
throw_on_sound m f (numerical n) s = s
throw_on_sound m f (boolean b) s = s
throw_on_sound m f (attrib o) s = tt
throw_on_sound m f (other o) s = tt

pub throw_sound : (m : Machine) → IsSound m.frame → Ends IsSoundControl (throw m)
unfolding throw
throw_sound m s = pop_then _ m.frame _ s (λ r h. throw_on_sound m r.0 r.1 h)
