-- ===== src/Vm/Unwind/Pops.antt =====
-- Cutting the variable stack: the loops of `unwind_blocks` that pop up to a saved stack pointer.
use saffire.Prelude.{
  ℕ, zero, suc, ◌+◌, ◌-◌, ◌≤◌, ◌<◌, ◌≡◌, refl, sym, ap, subst, ◌∙◌, some, List, [], ◌∷◌, arith, ok,
  All, length, drop,
}
use saffire.Vm.{Object, ObjectPtr, CodeFrame, StackFrame}
use saffire.Vm.Frame.{attribute_data, vm_frame_stack_pop}
use saffire.Vm.Frame.Stack.{IsValid, contents, Holds, pop-contents, length-drop}
use saffire.Vm.Unwind.{pop_times, pop_to}

-- Every slot of the stack holds an object.
abbrev pub AreObjects : List ObjectPtr → Type 0
AreObjects xs = All (λ p. (o : Object) × (p ≡ some o)) xs

pub AreObjects-drop : (n : ℕ) (xs : List ObjectPtr) → AreObjects xs → AreObjects (drop n xs)
AreObjects-drop zero xs h = h
AreObjects-drop (suc n) [] h = tt
AreObjects-drop (suc n) (x ∷ xs) h = AreObjects-drop n xs h.1

pub length-contents :
    (f : StackFrame) → IsValid f → length (contents f) ≡ f.codeframe.stack_size - f.sp
length-contents f v = omega (arith, length-drop f.sp f.stack, v.allocated)

-- The stack of `f'` is that of `f` without its `n` topmost slots.
pub record Cut (n : ℕ) (f f' : StackFrame) : Type 0 where
  pub cut : Holds (drop n (contents f)) f f'
  pub moved : f'.sp ≡ f.sp + n

module _ {ℓ} {A : Type ℓ} where
  drop_nil : (n : ℕ) → drop {A = A} n [] ≡ []
  drop_nil zero = refl
  drop_nil (suc n) = refl

  drop-drop_one : (n : ℕ) (xs : List A) → drop n (drop 1 xs) ≡ drop (suc n) xs
  drop-drop_one n [] = drop_nil n
  drop-drop_one n (x ∷ xs) = refl

  pub drop-drop : (m n : ℕ) (xs : List A) → drop m (drop n xs) ≡ drop (n + m) xs
  drop-drop m zero xs = ap (λ k. drop k xs) (omega arith)
  drop-drop m (suc n) [] = drop_nil m ∙ sym (drop_nil (suc n + m))
  drop-drop m (suc n) (x ∷ xs) =
      let e : suc (n + m) ≡ suc n + m = omega arith in
      drop-drop m n xs ∙ ap (λ k. drop k (x ∷ xs)) e

pop_once :
    (f : StackFrame) (xs : List ObjectPtr)
    → contents f ≡ xs
    → IsValid f
    → AreObjects xs
    → 0 < length xs
    → (f' : StackFrame) × (o : Object) × (vm_frame_stack_pop f ≡ ok (f', o))
      × Holds (drop 1 xs) f f'
pop_once f [] e v os h = absurd (omega arith)
pop_once f (x ∷ xs) e v os h =
    let (o, is) = os.0 in
    let (f', run, holds) = pop-contents f v o xs (e ∙ ap (λ y. y ∷ xs) is) in
    (f', attribute_data o, run, holds)

pub pop_times_lem :
    (n : ℕ) (f : StackFrame)
    → IsValid f
    → AreObjects (contents f)
    → n ≤ length (contents f)
    → (f' : StackFrame) × (pop_times n f ≡ ok f') × Cut n f f'
unfolding pop_times
pop_times_lem zero f v os h = (
  f,
  refl,
  record {
    cut = record {
      valid = v;
      holds = refl;
      same_codeframe = refl;
      same_ip = refl;
      same_blocks = refl;
    };
    moved = omega arith;
  },
)
pop_times_lem (suc n) f v os h =
    let (f₁, o, run, one) = pop_once f (contents f) refl v os (omega arith) in
    let size : length (contents f₁) ≡ length (contents f) - 1 =
      ap length one.holds ∙ length-drop 1 (contents f) in
    let step : f₁.sp ≡ f.sp + 1 = omega (
      arith,
      size,
      length-contents f v,
      length-contents f₁ one.valid,
      ap (λ (c : CodeFrame). c.stack_size) one.same_codeframe,
    ) in
    let objects : AreObjects (contents f₁) =
      subst AreObjects (sym one.holds) (AreObjects-drop 1 (contents f) os) in
    let (f', rest, c) = pop_times_lem n f₁ one.valid objects (omega (arith, size)) in
    (
      f',
      rw run rest,
      record {
        cut = record {
          valid = c.cut.valid;
          holds = c.cut.holds ∙ ap (drop n) one.holds ∙ drop-drop_one n (contents f);
          same_codeframe = c.cut.same_codeframe ∙ one.same_codeframe;
          same_ip = c.cut.same_ip ∙ one.same_ip;
          same_blocks = c.cut.same_blocks ∙ one.same_blocks;
        };
        moved = omega (arith, c.moved, step);
      },
    )

-- Cutting to a stack pointer inside the stack succeeds.
pub pop_to_lem :
    (sp : ℕ) (f : StackFrame)
    → IsValid f
    → AreObjects (contents f)
    → sp ≤ f.codeframe.stack_size
    → (f' : StackFrame) × (pop_to sp f ≡ ok f') × Cut (sp - f.sp) f f'
unfolding pop_to
pop_to_lem sp f v os h = pop_times_lem (sp - f.sp) f v os (omega (arith, length-contents f v))

-- A stack that is already cut stays.
pub pop_to_done : (sp : ℕ) (f : StackFrame) → sp ≤ f.sp → pop_to sp f ≡ ok f
unfolding pop_to pop_times
pop_to_done sp f h = let none_left : sp - f.sp ≡ 0 = omega arith in rw none_left
