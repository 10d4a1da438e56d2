-- ===== src/Compiler/JumpLabels/Conditions.antt =====
-- The labels that the conditions of src/components/compiler/ast_to_asm.c use and place.
use saffire.Prelude.{
  text_eq, ℕ, zero, suc, Option, none, some, [], ◌∷◌, ◌≡◌, refl, true, Text, arith,
}
use saffire.Compiler.State.{Walk, ctx_load, ctx_store}
use saffire.Compiler.Branches.{
  optional, walk_condition, walk_coalesce, store, pop_times, walk_continue,
}
use saffire.Compiler.Names
use saffire.Compiler.Numbers.{is_plain}
use saffire.Compiler.Hits.{hit, labels_lem}
use saffire.Compiler.Opens.{Opens, ◌▹◌, skip-Opens, emit-Opens}
use saffire.Compiler.Steps.{in_context-Opens, numbered-Opens, continue_loop-Opens}

-- A walk that may be missing.
pub data OpensIf : Option Walk → Type 0 where
  missing : OpensIf none
  there : {w : Walk} → Opens [] [] w → OpensIf (some w)

pub optional-Opens : {o : Option Walk} → OpensIf o → Opens [] [] (optional o)
optional-Opens missing = skip-Opens
optional-Opens (there m) = in_context-Opens ctx_load m

pub store-Opens : {o : Option Walk} → OpensIf o → Opens [] [] (store o)
store-Opens missing = skip-Opens
store-Opens (there m) = in_context-Opens ctx_store m

pub pop_times-Opens : (n : ℕ) → Opens [] [] (pop_times n)
unfolding pop_times
pop_times-Opens zero = skip-Opens
pop_times-Opens (suc n) = emit-Opens _ ▹ pop_times-Opens n

pub walk_condition-Opens :
    {a b : Walk} {o : Option Walk} (t : Text) (l : ℕ)
    → is_plain t ≡ true
    → Opens [] [] a
    → Opens [] [] b
    → OpensIf o
    → Opens [] [] (walk_condition t l a b o)
unfolding walk_condition hit text_eq
walk_condition-Opens t₀ l plain a b o =
    numbered-Opens
      (λ clc.
        (in_context-Opens ctx_load a
          ▹ emit-Opens _
          ▹ emit-Opens _
          ▹ in_context-Opens ctx_load b
          ▹ emit-Opens _
          ▹ emit-Opens _
          ▹ emit-Opens _
          ▹ optional-Opens o
          ▹ emit-Opens _
          ▹ emit-Opens _))
      (λ clc t h. omega (arith, h))
      (λ clc t f.
        omega
          (arith, labels_lem t₀ clc (Names.else_suffix ∷ Names.end_suffix ∷ []) t plain refl refl))

pub walk_coalesce-Opens :
    {a b : Walk} (l : ℕ) → Opens [] [] a → Opens [] [] b → Opens [] [] (walk_coalesce l a b)
unfolding walk_coalesce hit text_eq
walk_coalesce-Opens l a b =
    numbered-Opens
      (λ clc.
        (in_context-Opens ctx_load a
          ▹ emit-Opens _
          ▹ emit-Opens _
          ▹ emit-Opens _
          ▹ emit-Opens _
          ▹ emit-Opens _
          ▹ emit-Opens _
          ▹ emit-Opens _
          ▹ in_context-Opens ctx_load b
          ▹ emit-Opens _
          ▹ emit-Opens _))
      (λ clc t h. omega (arith, h))
      (λ clc t f. omega (
        arith,
        labels_lem Names.coalesce_text clc (Names.default_suffix ∷ Names.end_suffix ∷ []) t refl
            refl refl,
      ))

pub walk_continue-Opens : (l : ℕ) → Opens [] [] (walk_continue l)
unfolding walk_continue
walk_continue-Opens l = continue_loop-Opens 0x92 l
