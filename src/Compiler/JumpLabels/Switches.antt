-- ===== src/Compiler/JumpLabels/Switches.antt =====
-- The labels of switch statements in src/components/compiler/ast_to_asm.c.
use saffire.Prelude.{
  text_eq, text_eq_refl, ℕ, ◌+◌, ◌≡◌, refl, Bool, true, false, none, List, [], ◌∷◌, ◌++◌, Text,
  arith, ◌≤◌, ◌<◌, ◌==◌,
}
use saffire.Compiler.Names
use saffire.Compiler.Names.{label, userlabel_text}
use saffire.Compiler.State.{Walk, ctx_load}
use saffire.Compiler.Branches.{case_label, case_body, walk_case, walk_default, walk_switch}
use saffire.Compiler.Numbers.{number_of-label}
use saffire.Compiler.Hits.{
  hit, hits, hits-append, is_free, is_prefix, family, family_lem, one_if, has_number, free-hit,
}
use saffire.Compiler.Bands.{in_band, band-total, in_band-join, off-Reads, case-Reads, is_clause}
use saffire.Compiler.Opens.{Opens, ◌▹◌, skip-Opens, emit-Opens, weaken}
use saffire.Compiler.Steps.{in_context-Opens, numbered-Opens, enter_loop-Opens}
use saffire.Compiler.SimpleLabels.{Opens-if}

-- A clause of a switch uses the labels of the next one and places its own.
abbrev pub own : ℕ → ℕ → List Text
own clc i = family (case_label clc i) (Names.pre_suffix ∷ [] ∷ Names.body_suffix ∷ [])

pub own_lem :
    (clc i : ℕ) (t : Text) → hits t (own clc i) ≤ one_if (in_band is_clause clc i (i + 1) t)
unfolding hit text_eq
own_lem clc i t =
    family_lem (case-Reads clc i) (Names.pre_suffix ∷ [] ∷ Names.body_suffix ∷ []) t refl refl

abbrev pub default_label : ℕ → Text
default_label clc = label Names.switch_text clc Names.default_suffix

pub walk_case-Opens :
    {a b : Walk} (clc i l : ℕ)
    → Opens [] [] a
    → Opens [] [] b
    → Opens (own clc (i + 1)) (own clc i) (walk_case clc i l a b)
unfolding walk_case case_body
walk_case-Opens clc i l a b =
    weaken (own clc (i + 1)) (own clc i)
      (emit-Opens _
        ▹ Opens-if (i == 0) skip-Opens (emit-Opens _)
        ▹ emit-Opens _
        ▹ emit-Opens _
        ▹ in_context-Opens ctx_load a
        ▹ emit-Opens _
        ▹ emit-Opens _
        ▹ emit-Opens _
        ▹ emit-Opens _
        ▹ in_context-Opens ctx_load b
        ▹ emit-Opens _)
      (λ t h. omega (arith, h)) (λ t h. omega (arith, h)) (λ t f. omega arith)

pub walk_default-Opens :
    {a : Walk} (clc i : ℕ)
    → Opens [] [] a
    → Opens (own clc (i + 1)) (default_label clc ∷ own clc i) (walk_default clc i a)
unfolding walk_default case_body
walk_default-Opens clc i a =
    weaken (own clc (i + 1)) (default_label clc ∷ own clc i)
      (emit-Opens _
        ▹ Opens-if (i == 0) (emit-Opens _) skip-Opens
        ▹ emit-Opens _
        ▹ emit-Opens _
        ▹ emit-Opens _
        ▹ emit-Opens _
        ▹ in_context-Opens ctx_load a
        ▹ emit-Opens _)
      (λ t h. omega (arith, h)) (λ t h. omega (arith, h)) (λ t f. omega arith)

switch_prefix :
    (clc : ℕ)
    → (is_prefix userlabel_text (default_label clc) ≡ false)
      × (is_prefix Names.switch_text (default_label clc) ≡ true)
unfolding label
switch_prefix clc = (refl, refl)

pub default-free : (clc : ℕ) → is_free (default_label clc) ≡ true
unfolding is_free
default-free clc =
    let (a, b) = switch_prefix clc in
    let (c, d) = number_of-label Names.switch_text clc Names.default_suffix refl refl in
    rw a (rw b (rw d (text_eq_refl Names.default_suffix)))

covered : (d p u v : ℕ) → 0 < d + u → (0 < d → 0 < p) → u ≤ v → 0 < p + v
covered d p u v h f g = grind arith

-- The labels around the clauses are of this switch.
switch_total :
    (clc len : ℕ) (t : Text) (p d : ℕ)
    → is_free t ≡ false
    → p ≤ one_if (in_band is_clause clc 0 len t)
    → d ≤ hit t (default_label clc)
    → hit t (label Names.switch_text clc Names.begin_suffix)
        + (p + (hits t (own clc len) + (d + hit t (label Names.switch_text clc Names.end_suffix))))
      ≤ has_number clc t
unfolding hit text_eq
switch_total clc len t p d f b e = omega (
  arith,
  b,
  e,
  free-hit t (default_label clc) f (default-free clc),
  own_lem clc len t,
  in_band-join is_clause clc 0 len (len + 1) t (omega arith) (omega arith),
  band-total is_clause clc 0 (len + 1) t,
  family_lem (off-Reads is_clause Names.switch_text clc refl)
      (Names.begin_suffix ∷ Names.end_suffix ∷ []) t refl refl,
)

-- What stands behind the clauses.
abbrev switch_end : ℕ → ℕ → List Text → List Text
switch_end clc len default =
    own clc len ++ (default ++ label Names.switch_text clc Names.end_suffix ∷ [])

switch_true :
    {a : Walk} {c : ℕ → Walk} (len : ℕ) (pc : ℕ → List Text)
    → Opens [] [] a
    → ((clc : ℕ) → Opens (own clc len) (pc clc) (c clc))
    → ((clc : ℕ) (t : Text)
        → is_free t ≡ false
        → hits t (pc clc) ≤ one_if (in_band is_clause clc 0 len t))
    → ((clc : ℕ) (t : Text) → 0 < hit t (default_label clc) → 0 < hits t (pc clc))
    → Opens [] [] (walk_switch a c len true)
unfolding walk_switch
switch_true len pc a c b told =
    numbered-Opens
      (λ clc.
        (enter_loop-Opens none
          ▹ in_context-Opens ctx_load a
          ▹ emit-Opens _
          ▹ emit-Opens _
          ▹ c clc
          ▹ emit-Opens _
          ▹ emit-Opens _
          ▹ emit-Opens _
          ▹ emit-Opens _
          ▹ emit-Opens _
          ▹ skip-Opens
          ▹ emit-Opens _
          ▹ emit-Opens _
          ▹ emit-Opens _))
      (λ clc t h. omega (
        arith,
        hits-append t (pc clc) (switch_end clc len []),
        covered (hit t (default_label clc)) (hits t (pc clc))
            (hit t (label Names.switch_text clc Names.end_suffix) + hits t (own clc len))
            (hit t (label Names.switch_text clc Names.end_suffix) + hits t (own clc len))
            (omega (arith, h)) (told clc t) (omega arith),
      ))
      (λ clc t f. omega (
        arith,
        hits-append t (pc clc) (switch_end clc len []),
        switch_total clc len t (hits t (pc clc)) 0 f (b clc t f) (omega arith),
      ))

switch_false :
    {a : Walk} {c : ℕ → Walk} (len : ℕ) (pc : ℕ → List Text)
    → Opens [] [] a
    → ((clc : ℕ) → Opens (own clc len) (pc clc) (c clc))
    → ((clc : ℕ) (t : Text)
        → is_free t ≡ false
        → hits t (pc clc) ≤ one_if (in_band is_clause clc 0 len t))
    → Opens [] [] (walk_switch a c len false)
unfolding walk_switch
switch_false len pc a c b =
    numbered-Opens
      (λ clc.
        (enter_loop-Opens none
          ▹ in_context-Opens ctx_load a
          ▹ emit-Opens _
          ▹ emit-Opens _
          ▹ c clc
          ▹ emit-Opens _
          ▹ emit-Opens _
          ▹ emit-Opens _
          ▹ emit-Opens _
          ▹ emit-Opens _
          ▹ emit-Opens _
          ▹ emit-Opens _
          ▹ emit-Opens _
          ▹ emit-Opens _))
      (λ clc t h.
        omega (arith, h, hits-append t (pc clc) (switch_end clc len (default_label clc ∷ []))))
      (λ clc t f. omega (
        arith,
        hits-append t (pc clc) (switch_end clc len (default_label clc ∷ [])),
        switch_total clc len t (hits t (pc clc)) (hit t (default_label clc)) f (b clc t f)
            (omega arith),
      ))

pub walk_switch-Opens :
    {a : Walk} {c : ℕ → Walk} (len : ℕ) (found : Bool) (pc : ℕ → List Text)
    → Opens [] [] a
    → ((clc : ℕ) → Opens (own clc len) (pc clc) (c clc))
    → ((clc : ℕ) (t : Text)
        → is_free t ≡ false
        → hits t (pc clc) ≤ one_if (in_band is_clause clc 0 len t))
    → (found ≡ true → (clc : ℕ) (t : Text) → 0 < hit t (default_label clc) → 0 < hits t (pc clc))
    → Opens [] [] (walk_switch a c len found)
walk_switch-Opens len true pc a c b told = switch_true len pc a c b (told refl)
walk_switch-Opens len false pc a c b told = switch_false len pc a c b
