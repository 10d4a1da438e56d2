-- ===== src/Vm/RoundTrip.antt =====
-- Pushes, pops and rotations of the stacks of a frame (src/components/vm).
use saffire.Prelude.{ℕ, ◌<◌, ◌≡◌, refl, ap, false, some, List, ◌∷◌, arith, ok, length, subst, leb}
use saffire.Vm.{Object, ObjectPtr, Handlers, StackFrame}
use saffire.Vm.Frame.{attribute_data, vm_frame_stack_pop, vm_frame_stack_push}
use saffire.Vm.Frame.Stack.{IsValid, contents, Holds, push-contents}
use saffire.Vm.Frame.Moves.{Holds-self, Holds-sp, popped, pushed, contents_fit}
use saffire.Vm.Block.{block_max_depth, create_block, pop_blocks, vm_pop_block}
use saffire.Vm.Execute.{rot_two, rot_three}

-- An object pushed on a valid stack with room is what the next pop gives, the data of an attribute
-- object in its place, and the stack is as before.
pub pop-push :
    (f : StackFrame) (o : Object)
    → IsValid f
    → 0 < f.sp
    → (f₁ f₂ : StackFrame) × (vm_frame_stack_push f (some o) ≡ ok f₁)
      × (vm_frame_stack_pop f₁ ≡ ok (f₂, attribute_data o))
      × (contents f₂ ≡ contents f)
      × (f₂.sp ≡ f.sp)
      × (f₂.ip ≡ f.ip)
      × (f₂.blocks ≡ f.blocks)
pop-push f o v room =
    let (f₁, push, h) = push-contents f v (some o) room in
    let (f₂, pop, k) = popped f f₁ o (contents f) h in
    let back : f₂.sp ≡ f.sp =
      omega (arith, Holds-sp (contents f) f f₂ k, Holds-sp (contents f) f f (Holds-self f v)) in
    (f₁, f₂, push, pop, k.holds, back, k.same_ip, k.same_blocks)

-- A block pushed below the limit is what the next pop gives, with the frame as before.
pub pop-push_block :
    (f : StackFrame) (h : Handlers) (sp : ℕ)
    → length f.blocks < block_max_depth
    → (f₁ : StackFrame) × (create_block f h sp ≡ ok f₁)
      × (vm_pop_block f₁ ≡ ok (f, record { handlers = h; sp = sp; visited = 0 }))
unfolding create_block vm_pop_block pop_blocks
pop-push_block f h sp room =
    let free : leb block_max_depth (length f.blocks) ≡ false = ground arith in
    (record f { blocks = record { handlers = h; sp = sp; visited = 0 } ∷ f.blocks }, rw free, refl)

rot_two_run :
    (f : StackFrame) (a b : Object) (f₁ f₂ f₃ f₄ : StackFrame)
    → vm_frame_stack_pop f ≡ ok (f₁, attribute_data a)
    → vm_frame_stack_pop f₁ ≡ ok (f₂, attribute_data b)
    → vm_frame_stack_push f₂ (some (attribute_data a)) ≡ ok f₃
    → vm_frame_stack_push f₃ (some (attribute_data b)) ≡ ok f₄
    → rot_two f ≡ ok f₄
unfolding rot_two
rot_two_run f a b f₁ f₂ f₃ f₄ p₁ p₂ q₁ q₂ = rw p₁ (rw p₂ (rw q₁ (rw q₂)))

rot_three_run :
    (f : StackFrame) (a b c : Object) (f₁ f₂ f₃ f₄ f₅ f₆ : StackFrame)
    → vm_frame_stack_pop f ≡ ok (f₁, attribute_data a)
    → vm_frame_stack_pop f₁ ≡ ok (f₂, attribute_data b)
    → vm_frame_stack_pop f₂ ≡ ok (f₃, attribute_data c)
    → vm_frame_stack_push f₃ (some (attribute_data a)) ≡ ok f₄
    → vm_frame_stack_push f₄ (some (attribute_data b)) ≡ ok f₅
    → vm_frame_stack_push f₅ (some (attribute_data c)) ≡ ok f₆
    → rot_three f ≡ ok f₆
unfolding rot_three
rot_three_run f a b c f₁ f₂ f₃ f₄ f₅ f₆ p₁ p₂ p₃ q₁ q₂ q₃ =
    rw p₁ (rw p₂ (rw p₃ (rw q₁ (rw q₂ (rw q₃)))))

-- The top two objects of a valid stack, the data of attribute objects in their place, change places.
pub rot_two_lem :
    (f : StackFrame) (a b : Object) (rest : List ObjectPtr)
    → IsValid f
    → contents f ≡ some a ∷ (some b ∷ rest)
    → (f' : StackFrame) × (rot_two f ≡ ok f')
      × Holds (some (attribute_data b) ∷ (some (attribute_data a) ∷ rest)) f f'
rot_two_lem f a b rest v e =
    let fits = contents_fit f v in
    let (f₁, p₁, h₁) = popped f f a _ (subst (λ xs. Holds xs f f) e (Holds-self f v)) in
    let (f₂, p₂, h₂) = popped f f₁ b rest h₁ in
    let (f₃, q₁, k₁) = pushed f f₂ (some (attribute_data a)) rest h₂ (omega (arith, ap length e)) in
    let (f₄, q₂, k₂) = pushed f f₃ (some (attribute_data b)) _ k₁ (omega (arith, ap length e)) in
    (f₄, rot_two_run f a b f₁ f₂ f₃ f₄ p₁ p₂ q₁ q₂, k₂)

-- The top three objects of a valid stack are put back in the reverse order, the data of attribute
-- objects in their place.
pub rot_three_lem :
    (f : StackFrame) (a b c : Object) (rest : List ObjectPtr)
    → IsValid f
    → contents f ≡ some a ∷ (some b ∷ (some c ∷ rest))
    → (f' : StackFrame) × (rot_three f ≡ ok f')
      × Holds
          (some (attribute_data c) ∷ (some (attribute_data b) ∷ (some (attribute_data a) ∷ rest)))
          f
          f'
rot_three_lem f a b c rest v e =
    let fits = contents_fit f v in
    let (f₁, p₁, h₁) = popped f f a _ (subst (λ xs. Holds xs f f) e (Holds-self f v)) in
    let (f₂, p₂, h₂) = popped f f₁ b _ h₁ in
    let (f₃, p₃, h₃) = popped f f₂ c rest h₂ in
    let (f₄, q₁, k₁) = pushed f f₃ (some (attribute_data a)) rest h₃ (omega (arith, ap length e)) in
    let (f₅, q₂, k₂) = pushed f f₄ (some (attribute_data b)) _ k₁ (omega (arith, ap length e)) in
    let (f₆, q₃, k₃) = pushed f f₅ (some (attribute_data c)) _ k₂ (omega (arith, ap length e)) in
    (f₆, rot_three_run f a b c f₁ f₂ f₃ f₄ f₅ f₆ p₁ p₂ p₃ q₁ q₂ q₃, k₃)
