-- ===== src/Prelude/Outcome.antt =====
-- Outcomes of the C code: a value, an exit through `fatal_error`, undefined behaviour (a read or
-- write outside an object, a null dereference), or a loop that has used up its fuel.
use mathlib.Core.Path.{◌≡◌, refl, sym, ap, subst}
use mathlib.Core.Bool.{Bool, true, false}
use mathlib.Core.Logic.{◌⊎◌, inl, inr}
use saffire.Prelude.Tests.{if◌then◌else◌}

-- The messages that the modelled code hands to `fatal_error`.
pub data Fatal : Type 0 where
  unknown_constant cannot_find_label label_already_defined : Fatal
  pop_from_empty_stack trying_to_pop trying_to_push outside_stack : Fatal
  outside_constants outside_identifiers : Fatal
  too_many_blocks not_enough_blocks reserved_opcode : Fatal
  context_without_separator : Fatal
  class_visibility abstract_body no_visibility private_abstract many_visibilities : Fatal
  modifier_twice abstract_final nested_class class_defined outside_class no_active_class : Fatal
  outside_loop default_outside_switch default_twice return_outside_method jump_outside_loop : Fatal
  not_writable : Fatal
  cannot_store_in_parent no_loop_block duplicate_label write_to_range read_from_empty : Fatal
  unknown_ast_operator : Fatal

pub data Run {u} (V : Type u) : Type u where
  undefined out_of_fuel : Run V
  fatal_error : Fatal → Run V
  ok : V → Run V

infixl 5 ◌>>=◌
abbrev pub ◌>>=◌ {u v} : {V : Type u} {W : Type v} → Run V → (V → Run W) → Run W
undefined >>= next = undefined
out_of_fuel >>= next = out_of_fuel
fatal_error message >>= next = fatal_error message
ok value >>= next = next value

-- What returns has come through both of its parts.
pub >>=-returns {u v} :
    {V : Type u} {W : Type v} (first : Run V) (next : V → Run W) {w : W}
    → first >>= next ≡ ok w
    → (value : V) × (first ≡ ok value) × (next value ≡ ok w)
>>=-returns undefined next e = cc
>>=-returns out_of_fuel next e = cc
>>=-returns (fatal_error message) next e = cc
>>=-returns (ok value) next e = (value, refl, e)

pub ok-injective {ℓ} : {A : Type ℓ} {a b : A} → ok a ≡ ok b → a ≡ b
ok-injective {a = a} h = ap (λ r. elim r [ ok x ↦ x | _ ↦ a ]) h

-- What an outcome that returns satisfies.
abbrev pub Ends {ℓ κ} : {A : Type ℓ} → (A → Type κ) → Run A → Type κ
Ends P (ok a) = P a
Ends P (fatal_error e) = Unit
Ends P undefined = Unit
Ends P out_of_fuel = Unit

pub Ends-bind {ℓ κ λ₁ λ₂} :
    {A : Type ℓ} {B : Type κ} (P : A → Type λ₁) (Q : B → Type λ₂) (m : Run A) (f : A → Run B)
    → Ends P m
    → ((a : A) → P a → Ends Q (f a))
    → Ends Q (m >>= f)
Ends-bind P Q (ok a) f h k = k a h
Ends-bind P Q (fatal_error e) f h k = tt
Ends-bind P Q undefined f h k = tt
Ends-bind P Q out_of_fuel f h k = tt

pub Ends-eq {ℓ κ} : {A : Type ℓ} (P : A → Type κ) (m : Run A) (a : A) → m ≡ ok a → Ends P m → P a
Ends-eq P m a e h = subst (Ends P) e h

pub Ends-ok {ℓ κ} : {A : Type ℓ} (P : A → Type κ) (m : Run A) (a : A) → m ≡ ok a → P a → Ends P m
Ends-ok P m a e h = subst (Ends P) (sym e) h

pub Ends-if {ℓ κ} :
    {A : Type ℓ} (P : A → Type κ) (b : Bool) (x y : Run A)
    → Ends P x
    → Ends P y
    → Ends P (if b then x else y)
Ends-if P true x y h k = h
Ends-if P false x y h k = k

-- What an outcome satisfies that takes no fuel.
abbrev pub Settles {ℓ} : {A : Type ℓ} → (A → Type 0) → Run A → Type 0
Settles P (ok a) = P a
Settles P (fatal_error e) = Unit
Settles P undefined = Unit
Settles P out_of_fuel = ⊥

pub Settles-bind {ℓ κ} :
    {A : Type ℓ} {B : Type κ} (P : A → Type 0) (Q : B → Type 0) (m : Run A) (f : A → Run B)
    → Settles P m
    → ((a : A) → P a → Settles Q (f a))
    → Settles Q (m >>= f)
Settles-bind P Q (ok a) f h k = k a h
Settles-bind P Q (fatal_error e) f h k = tt
Settles-bind P Q undefined f h k = tt
Settles-bind P Q out_of_fuel f h k = absurd h

pub Settles-eq {ℓ} :
    {A : Type ℓ} (P : A → Type 0) (m : Run A) (a : A) → m ≡ ok a → Settles P m → P a
Settles-eq P m a e h = subst (Settles P) e h

pub Settles-if {ℓ} :
    {A : Type ℓ} (P : A → Type 0) (b : Bool) (x y : Run A)
    → Settles P x
    → Settles P y
    → Settles P (if b then x else y)
Settles-if P true x y h k = h
Settles-if P false x y h k = k

pub Settles-imp {ℓ} :
    {A : Type ℓ} (P : A → Type 0) (Q : A → Type 0) (m : Run A)
    → ((a : A) → P a → Q a)
    → Settles P m
    → Settles Q m
Settles-imp P Q (ok a) f h = f a h
Settles-imp P Q (fatal_error e) f h = tt
Settles-imp P Q undefined f h = tt
Settles-imp P Q out_of_fuel f h = absurd h

-- The C code ends in a fatal error, or its behaviour is undefined.
abbrev pub Stops {ℓ} : {A : Type ℓ} → Run A → Type ℓ
Stops r = (r ≡ undefined) ⊎ ((e : Fatal) × (r ≡ fatal_error e))

-- What settles and does not return.
pub Settles-Stops {ℓ} :
    {A : Type ℓ} (P : A → Type 0) (m : Run A) → Settles P m → ((a : A) → m ≡ ok a → ⊥) → Stops m
Settles-Stops P (ok a) h never = absurd (never a refl)
Settles-Stops P (fatal_error e) h never = inr (e, refl)
Settles-Stops P undefined h never = inl refl
Settles-Stops P out_of_fuel h never = absurd h

pub Ends-any {ℓ} : {A : Type ℓ} (m : Run A) → Ends (λ _. Unit {0}) m
Ends-any (ok a) = tt
Ends-any (fatal_error e) = tt
Ends-any undefined = tt
Ends-any out_of_fuel = tt

pub Ends-imp {ℓ κ λ₁} :
    {A : Type ℓ} (P : A → Type κ) (Q : A → Type λ₁) (m : Run A)
    → ((a : A) → P a → Q a)
    → Ends P m
    → Ends Q m
Ends-imp P Q (ok a) f h = f a h
Ends-imp P Q (fatal_error e) f h = tt
Ends-imp P Q undefined f h = tt
Ends-imp P Q out_of_fuel f h = tt
