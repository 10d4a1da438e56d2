-- ===== src/Vm/Frame/Moves.antt =====
-- Sequences of pops and pushes, by what the stack of one frame holds on the way.
use saffire.Prelude.{◌-◌, ◌≤◌, ◌<◌, ◌≡◌, refl, ap, ◌∙◌, some, List, ◌∷◌, arith, ok, length}
use saffire.Vm.{Object, ObjectPtr, CodeFrame, StackFrame}
use saffire.Vm.Frame.{attribute_data, vm_frame_stack_pop, vm_frame_stack_push}
use saffire.Vm.Frame.Stack.{IsValid, contents, length-drop, Holds, push-contents, pop-contents}

pub Holds-self : (f : StackFrame) → IsValid f → Holds (contents f) f f
Holds-self f v = record {
  valid = v;
  holds = refl;
  same_codeframe = refl;
  same_ip = refl;
  same_blocks = refl;
}

Holds-trans :
    (xs ys : List ObjectPtr) (f g h : StackFrame) → Holds xs f g → Holds ys g h → Holds ys f h
Holds-trans xs ys f g h p q = record {
  valid = q.valid;
  holds = q.holds;
  same_codeframe = q.same_codeframe ∙ p.same_codeframe;
  same_ip = q.same_ip ∙ p.same_ip;
  same_blocks = q.same_blocks ∙ p.same_blocks;
}

-- The stack pointer follows from the contents.
sp_contents : (f : StackFrame) → IsValid f → f.sp ≡ f.codeframe.stack_size - length (contents f)
sp_contents f v = omega (arith, length-drop f.sp f.stack, v.allocated, v.inside)

pub Holds-sp :
    (xs : List ObjectPtr) (f g : StackFrame)
    → Holds xs f g
    → g.sp ≡ f.codeframe.stack_size - length xs
Holds-sp xs f g h = omega (
  arith,
  sp_contents g h.valid,
  ap length h.holds,
  ap (λ (c : CodeFrame). c.stack_size) h.same_codeframe,
)

pub popped :
    (f g : StackFrame) (o : Object) (rest : List ObjectPtr)
    → Holds (some o ∷ rest) f g
    → (g' : StackFrame) × (vm_frame_stack_pop g ≡ ok (g', attribute_data o)) × Holds rest f g'
popped f g o rest h =
    let (g', run, k) = pop-contents g h.valid o rest h.holds in
    (g', run, Holds-trans _ rest f g g' h k)

pub pushed :
    (f g : StackFrame) (obj : ObjectPtr) (xs : List ObjectPtr)
    → Holds xs f g
    → length xs < f.codeframe.stack_size
    → (g' : StackFrame) × (vm_frame_stack_push g obj ≡ ok g') × Holds (obj ∷ xs) f g'
pushed f g obj xs h room =
    let (g', run, k) = push-contents g h.valid obj (omega (arith, Holds-sp xs f g h)) in
    let k' = Holds-trans _ _ f g g' h k in
    (
      g',
      run,
      record {
        valid = k'.valid;
        holds = k'.holds ∙ ap (λ ys. obj ∷ ys) h.holds;
        same_codeframe = k'.same_codeframe;
        same_ip = k'.same_ip;
        same_blocks = k'.same_blocks;
      },
    )

-- What is on a valid stack fits.
pub contents_fit : (f : StackFrame) → IsValid f → length (contents f) ≤ f.codeframe.stack_size
contents_fit f v = omega (arith, length-drop f.sp f.stack, v.allocated)
