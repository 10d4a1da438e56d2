-- ===== src/Compiler/JumpLabels/Loops.antt =====
-- The labels that the loops of src/components/compiler/ast_to_asm.c use and place.
use saffire.Prelude.{text_eq, ℕ, Option, [], ◌∷◌, refl, arith}
use saffire.Compiler.State.{Walk, ctx_load, call_stay}
use saffire.Compiler.Branches.{
  walk_do, while_else, walk_while, for_test, walk_for, foreach_else, walk_foreach,
}
use saffire.Compiler.Names
use saffire.Compiler.Hits.{hit, labels_lem}
use saffire.Compiler.Opens.{Opens, ◌▹◌, skip-Opens, emit-Opens}
use saffire.Compiler.Steps.{
  in_context-Opens, in_call-Opens, numbered-Opens, enter_loop-Opens, leave_loop-Opens,
}
use saffire.Compiler.JumpLabels.Conditions.{OpensIf, missing, there, store-Opens, pop_times-Opens}

pub walk_do-Opens :
    {a b : Walk} (l : ℕ) → Opens [] [] a → Opens [] [] b → Opens [] [] (walk_do l a b)
unfolding walk_do hit text_eq
walk_do-Opens l a b =
    numbered-Opens
      (λ clc.
        (enter_loop-Opens _
          ▹ emit-Opens _
          ▹ emit-Opens _
          ▹ in_context-Opens ctx_load a
          ▹ emit-Opens _
          ▹ in_context-Opens ctx_load b
          ▹ emit-Opens _
          ▹ emit-Opens _
          ▹ emit-Opens _
          ▹ emit-Opens _
          ▹ emit-Opens _
          ▹ emit-Opens _
          ▹ emit-Opens _
          ▹ leave_loop-Opens))
      (λ clc t h. omega (arith, h))
      (λ clc t f. omega (
        arith,
        labels_lem Names.dowhile_text clc
            ([] ∷ Names.cmp_suffix ∷ Names.pre_end_suffix ∷ Names.end_suffix ∷ []) t refl refl refl,
      ))

pub walk_while-Opens :
    {a b : Walk} {o : Option Walk}
    → Opens [] [] a
    → Opens [] [] b
    → OpensIf o
    → Opens [] [] (walk_while a b o)
unfolding walk_while while_else hit text_eq
walk_while-Opens a b missing =
    numbered-Opens
      (λ clc.
        (enter_loop-Opens _
          ▹ emit-Opens _
          ▹ emit-Opens _
          ▹ in_context-Opens ctx_load a
          ▹ skip-Opens
          ▹ emit-Opens _
          ▹ emit-Opens _
          ▹ in_context-Opens ctx_load b
          ▹ emit-Opens _
          ▹ skip-Opens
          ▹ emit-Opens _
          ▹ emit-Opens _
          ▹ emit-Opens _
          ▹ emit-Opens _
          ▹ leave_loop-Opens))
      (λ clc t h. omega (arith, h))
      (λ clc t f. omega (
        arith,
        labels_lem Names.while_text clc ([] ∷ Names.pre_end_suffix ∷ Names.end_suffix ∷ []) t refl
            refl refl,
      ))
walk_while-Opens a b (there o) =
    numbered-Opens
      (λ clc.
        (enter_loop-Opens _
          ▹ emit-Opens _
          ▹ emit-Opens _
          ▹ in_context-Opens ctx_load a
          ▹ emit-Opens _
          ▹ emit-Opens _
          ▹ emit-Opens _
          ▹ in_context-Opens ctx_load b
          ▹ emit-Opens _
          ▹ (emit-Opens _
              ▹ emit-Opens _
              ▹ emit-Opens _
              ▹ in_context-Opens ctx_load o
              ▹ emit-Opens _)
          ▹ emit-Opens _
          ▹ emit-Opens _
          ▹ emit-Opens _
          ▹ emit-Opens _
          ▹ leave_loop-Opens))
      (λ clc t h. omega (arith, h))
      (λ clc t f. omega (
        arith,
        labels_lem Names.while_text clc
            ([] ∷ Names.pre_else_suffix ∷ Names.else_suffix ∷ Names.pre_end_suffix
              ∷ Names.end_suffix ∷ [])
            t refl refl refl,
      ))

for_test-Opens : {o : Option Walk} (l : ℕ) → OpensIf o → Opens [] [] (for_test l o)
unfolding for_test
for_test-Opens l missing = emit-Opens _
for_test-Opens l (there m) = m

pub walk_for-Opens :
    {a b c : Walk} {o : Option Walk} (l : ℕ)
    → Opens [] [] a
    → OpensIf o
    → Opens [] [] b
    → Opens [] [] c
    → Opens [] [] (walk_for l a o b c)
unfolding walk_for hit text_eq
walk_for-Opens l a o b c =
    numbered-Opens
      (λ clc.
        (enter_loop-Opens _
          ▹ emit-Opens _
          ▹ in_context-Opens ctx_load a
          ▹ emit-Opens _
          ▹ emit-Opens _
          ▹ in_context-Opens ctx_load (for_test-Opens l o)
          ▹ emit-Opens _
          ▹ emit-Opens _
          ▹ in_context-Opens ctx_load c
          ▹ emit-Opens _
          ▹ in_context-Opens ctx_load b
          ▹ emit-Opens _
          ▹ emit-Opens _
          ▹ emit-Opens _
          ▹ emit-Opens _
          ▹ emit-Opens _
          ▹ leave_loop-Opens))
      (λ clc t h. omega (arith, h))
      (λ clc t f. omega (
        arith,
        labels_lem Names.for_text clc
            (Names.init_suffix ∷ Names.test_suffix ∷ Names.incdec_suffix ∷ Names.pre_end_suffix
              ∷ Names.end_suffix ∷ [])
            t refl refl refl,
      ))

pub walk_foreach-Opens :
    {a b : Walk} {x y z o : Option Walk}
    → Opens [] [] a
    → Opens [] [] b
    → OpensIf x
    → OpensIf y
    → OpensIf z
    → OpensIf o
    → Opens [] [] (walk_foreach a b x y z o)
unfolding walk_foreach foreach_else hit text_eq
walk_foreach-Opens a b x y z missing =
    numbered-Opens
      (λ clc.
        (enter_loop-Opens _
          ▹ in_call-Opens call_stay (in_context-Opens ctx_load a)
          ▹ emit-Opens _
          ▹ emit-Opens _
          ▹ emit-Opens _
          ▹ emit-Opens _
          ▹ emit-Opens _
          ▹ skip-Opens
          ▹ emit-Opens _
          ▹ emit-Opens _
          ▹ store-Opens x
          ▹ store-Opens y
          ▹ store-Opens z
          ▹ in_context-Opens ctx_load b
          ▹ emit-Opens _
          ▹ skip-Opens
          ▹ emit-Opens _
          ▹ emit-Opens _
          ▹ pop_times-Opens _
          ▹ emit-Opens _
          ▹ emit-Opens _
          ▹ leave_loop-Opens))
      (λ clc t h. omega (arith, h))
      (λ clc t f. omega (
        arith,
        labels_lem Names.foreach_text clc
            (Names.loop_suffix ∷ Names.pre_end_suffix ∷ Names.end_suffix ∷ []) t refl refl refl,
      ))
walk_foreach-Opens a b x y z (there o) =
    numbered-Opens
      (λ clc.
        (enter_loop-Opens _
          ▹ in_call-Opens call_stay (in_context-Opens ctx_load a)
          ▹ emit-Opens _
          ▹ emit-Opens _
          ▹ emit-Opens _
          ▹ emit-Opens _
          ▹ emit-Opens _
          ▹ emit-Opens _
          ▹ emit-Opens _
          ▹ emit-Opens _
          ▹ store-Opens x
          ▹ store-Opens y
          ▹ store-Opens z
          ▹ in_context-Opens ctx_load b
          ▹ emit-Opens _
          ▹ (emit-Opens _
              ▹ emit-Opens _
              ▹ pop_times-Opens _
              ▹ emit-Opens _
              ▹ in_context-Opens ctx_load o
              ▹ emit-Opens _)
          ▹ emit-Opens _
          ▹ emit-Opens _
          ▹ pop_times-Opens _
          ▹ emit-Opens _
          ▹ emit-Opens _
          ▹ leave_loop-Opens))
      (λ clc t h. omega (arith, h))
      (λ clc t f. omega (
        arith,
        labels_lem Names.foreach_text clc
            (Names.loop_suffix ∷ Names.pre_else_suffix ∷ Names.else_suffix ∷ Names.pre_end_suffix
              ∷ Names.end_suffix ∷ [])
            t refl refl refl,
      ))
