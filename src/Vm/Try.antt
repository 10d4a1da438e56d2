-- ===== src/Vm/Try.antt =====
-- `VM_SETUP_EXCEPT` and `VM_END_FINALLY` of src/components/vm/vm.c, with `block_end`.
use saffire.Prelude.{
  ℕ, suc, ◌+◌, ◌-◌, ◌≤◌, ◌<◌, ◌≡◌, refl, sym, ap, subst, ◌∙◌, false, some, List, ◌∷◌, arith, ok,
  ◌>>=◌, length, leb, ◌==◌,
}
use saffire.Vm.{numerical, ObjectPtr, exceptions, FrameBlock, CodeFrame, StackFrame}
use saffire.Vm.Frame.{attribute_data, vm_frame_stack_pop, vm_frame_stack_push}
use saffire.Vm.Frame.Stack.{IsValid, contents, Holds}
use saffire.Vm.Frame.Moves.{Holds-self, Holds-sp, popped, pushed}
use saffire.Vm.Block.{
  block_max_depth, create_block, pop_blocks, vm_push_block_exception, vm_pop_block,
}
use saffire.Vm.Unwind.{
  reason_none, reason_finally, leave, unwind_exceptions, unwind_pass, after_pass, unwind_blocks,
}
use saffire.Vm.Unwind.Pops.{pop_to_done}
use saffire.Vm.Unwind.Stuck.{unwind_step}
use saffire.Vm.Unwind.Exceptions.{IsValid-blocks}
use saffire.Vm.Execute.{Machine, dispatch, block_end, setup_except, end_finally_on, end_finally}
use saffire.Vm.Dispatch.{finish}

setup_run :
    (f f₁ : StackFrame) (a b c : ℕ)
    → length f.blocks < block_max_depth
    → vm_frame_stack_push
        (record f {
          blocks =
              record {
                handlers = exceptions (f.ip + a) (f.ip + b) (f.ip + c);
                sp = f.sp;
                visited = 0;
              }
              ∷ f.blocks;
        })
        (some (numerical reason_finally))
      ≡ ok f₁
    → setup_except a b c f ≡ ok f₁
unfolding setup_except vm_push_block_exception create_block
setup_run f f₁ a b c room push =
    let free : leb block_max_depth (length f.blocks) ≡ false = ground arith in rw free (rw push)

-- `SETUP_EXCEPT` enters a try block: a block is pushed, and the reason for `END_FINALLY`.
pub setup_except_lem :
    (f : StackFrame) (a b c : ℕ)
    → IsValid f
    → 0 < f.sp
    → length f.blocks < block_max_depth
    → (f₁ : StackFrame) × (setup_except a b c f ≡ ok f₁)
      × (f₁.blocks
          ≡ record {
            handlers = exceptions (f.ip + a) (f.ip + b) (f.ip + c);
            sp = f.sp;
            visited = 0;
          }
            ∷ f.blocks)
      × IsValid f₁
      × (f₁.codeframe ≡ f.codeframe)
      × (contents f₁ ≡ some (numerical reason_finally) ∷ contents f)
setup_except_lem f a b c v room space =
    let g = record f {
      blocks =
          record { handlers = exceptions (f.ip + a) (f.ip + b) (f.ip + c); sp = f.sp; visited = 0 }
          ∷ f.blocks;
    } in
    let w = IsValid-blocks f g.blocks v in
    let (f₁, push, h) =
      pushed g g (some (numerical reason_finally)) (contents f) (Holds-self g w)
        (omega (arith, Holds-sp (contents f) f f (Holds-self f v))) in
    (f₁, setup_run f f₁ a b c space push, h.same_blocks, h.valid, h.same_codeframe, h.holds)

finally_pass :
    (ip_catch ip_finally ip_end_finally sp visited : ℕ) (ret thrown : ObjectPtr) (f : StackFrame)
    (bs : List FrameBlock)
    → f.blocks
      ≡ record {
        handlers = exceptions ip_catch ip_finally ip_end_finally;
        sp = sp;
        visited = visited;
      }
        ∷ bs
    → sp ≤ f.sp
    → unwind_pass
        (record {
          handlers = exceptions ip_catch ip_finally ip_end_finally;
          sp = sp;
          visited = visited;
        })
        reason_finally
        ret
        thrown
        f
      ≡ ok (leave reason_none (record f { blocks = bs }))
unfolding unwind_pass unwind_exceptions vm_pop_block pop_blocks
finally_pass ip_catch ip_finally ip_end_finally sp visited ret thrown f bs e h =
    let inner : pop_blocks f.blocks
        ≡ ok (
          record {
            handlers = exceptions ip_catch ip_finally ip_end_finally;
            sp = sp;
            visited = visited;
          },
          bs,
        ) =
      ap pop_blocks e in
    rw (pop_to_done sp f h) (rw inner)

end_finally_run :
    (m : Machine) (f : StackFrame) (n : ℕ)
    → (n == 1) ≡ false
    → (n == 2) ≡ false
    → vm_frame_stack_pop m.frame ≡ ok (f, numerical n)
    → end_finally m ≡ ok (block_end (record m { frame = f; ret = some (numerical n); reason = n }))
unfolding end_finally end_finally_on
end_finally_run m f n p q pop = rw pop (rw (p, q))

finish_run :
    (fuel : ℕ) (m : Machine) (f : StackFrame)
    → unwind_blocks fuel m.reason m.ret m.thrown m.frame ≡ ok (f, reason_none)
    → finish fuel (block_end m) ≡ ok (dispatch (record m { frame = f; reason = reason_none }))
unfolding finish
finish_run fuel m f h = rw h

-- A try block that ends without an exception leaves no trace: in a valid frame whose innermost
-- block is that of the try, with the reason that `SETUP_EXCEPT` pushed on top of a stack which is
-- then back at the saved pointer, `END_FINALLY` goes on behind it without the reason and the block.
pub end_finally_try :
    (fuel : ℕ) (m : Machine) (ip_catch ip_finally ip_end_finally : ℕ) (bs : List FrameBlock)
    (rest : List ObjectPtr)
    → IsValid m.frame
    → m.frame.blocks
      ≡ record {
        handlers = exceptions ip_catch ip_finally ip_end_finally;
        sp = m.frame.codeframe.stack_size - length rest;
        visited = 0;
      }
        ∷ bs
    → contents m.frame ≡ some (numerical reason_finally) ∷ rest
    → (m' : Machine) × (end_finally m >>= finish (suc fuel) ≡ ok (dispatch m'))
      × (contents m'.frame ≡ rest)
      × (m'.frame.blocks ≡ bs)
      × (m'.frame.ip ≡ m.frame.ip)
unfolding after_pass attribute_data
end_finally_try fuel m ip_catch ip_finally ip_end_finally bs rest v e c =
    let (f, pop, h) =
      popped m.frame m.frame (numerical reason_finally) rest
        (subst (λ xs. Holds xs m.frame m.frame) c (Holds-self m.frame v)) in
    let ret = some (numerical reason_finally) in
    let pass =
      finally_pass ip_catch ip_finally ip_end_finally _ 0 ret m.thrown f bs (h.same_blocks ∙ e)
        (omega (arith, Holds-sp rest m.frame f h)) in
    let unwound =
      unwind_step fuel reason_finally ret m.thrown f _ bs refl (h.same_blocks ∙ e)
      ∙ ap (λ r. r >>= after_pass (unwind_blocks fuel reason_finally ret m.thrown)) pass in
    let m₁ : Machine = record m { frame = f; ret = ret; reason = reason_finally } in
    (
      record m₁ { frame = record f { blocks = bs }; reason = reason_none },
      ap (λ r. r >>= finish (suc fuel)) (end_finally_run m f reason_finally refl refl pop)
          ∙ finish_run (suc fuel) m₁ (record f { blocks = bs }) unwound,
      h.holds,
      refl,
      h.same_ip,
    )

-- A try block is balanced: `SETUP_EXCEPT` in a valid frame with room for a block and an object, and
-- then `END_FINALLY` at an instruction pointer of any value, go on with the stack and the blocks as
-- they were before.
pub try_balanced :
    (fuel : ℕ) (m : Machine) (a b c ip : ℕ)
    → IsValid m.frame
    → 0 < m.frame.sp
    → length m.frame.blocks < block_max_depth
    → (f₁ : StackFrame) × (m' : Machine) × (setup_except a b c m.frame ≡ ok f₁)
      × (end_finally (record m { frame = record f₁ { ip = ip } }) >>= finish (suc fuel)
          ≡ ok (dispatch m'))
      × (contents m'.frame ≡ contents m.frame)
      × (m'.frame.blocks ≡ m.frame.blocks)
      × (m'.frame.ip ≡ ip)
try_balanced fuel m a b c ip v room space =
    let (f₁, run, blocks, w, same, e) = setup_except_lem m.frame a b c v room space in
    let w' : IsValid (record f₁ { ip = ip }) = record {
      allocated = w.allocated;
      inside = w.inside;
      small = w.small;
    } in
    let level : m.frame.sp ≡ f₁.codeframe.stack_size - length (contents m.frame) =
      Holds-sp (contents m.frame) m.frame m.frame (Holds-self m.frame v)
      ∙ ap (λ (g : CodeFrame). g.stack_size - length (contents m.frame)) (sym same) in
    let (m', ran, rest, outer, at) =
      end_finally_try fuel (record m { frame = record f₁ { ip = ip } }) (m.frame.ip + a)
        (m.frame.ip + b) (m.frame.ip + c) m.frame.blocks (contents m.frame) w'
        (blocks
          ∙ ap
              (λ k.
                record {
                  handlers = exceptions (m.frame.ip + a) (m.frame.ip + b) (m.frame.ip + c);
                  sp = k;
                  visited = 0;
                }
                ∷ m.frame.blocks)
              level)
        e in
    (f₁, m', run, ran, rest, outer, at)
