-- ===== src/Compiler/Clauses.antt =====
-- The labels of the clauses of a switch and of the catches in src/components/compiler/ast_to_asm.c.
use saffire.Prelude.{ℕ, ◌+◌, ◌<◌, ◌≤◌, ◌≡◌, subst, ◌++◌, true, false, List, [], ◌∷◌, Text, arith}
use saffire.Compiler.{Cases, no_cases, a_case, a_default, Catches, no_catches, more_catches}
use saffire.Compiler.State.{Walk, ◌⨾◌}
use saffire.Compiler.Walk.{length_cases, has_default}
use saffire.Compiler.Hits.{hit, hits, hits-append, is_free, one_if, free-hit}
use saffire.Compiler.Bands.{in_band, in_band-join, is_clause, is_catch}
use saffire.Compiler.Opens.{Opens, ◌▹◌, weaken}
use saffire.Compiler.JumpLabels
use saffire.Compiler.JumpLabels.{
  own, own_lem, default_label, default-free, catch_labels, catch_labels_lem,
}
use saffire.Compiler.Branches.{walk_case, walk_default}

-- The labels that the clauses from an index on place.
abbrev pub placed : ℕ → ℕ → Cases → List Text
placed clc i no_cases = []
placed clc i (a_case l v b rest) = own clc i ++ placed clc (i + 1) rest
placed clc i (a_default b rest) = default_label clc ∷ (own clc i ++ placed clc (i + 1) rest)

pub default-placed :
    (cs : Cases) (clc i : ℕ) (t : Text)
    → has_default cs ≡ true
    → 0 < hit t (default_label clc)
    → 0 < hits t (placed clc i cs)
unfolding has_default
default-placed no_cases clc i t e h = cc
default-placed (a_case l v b rest) clc i t e h =
    omega (arith, default-placed rest clc (i + 1) t e h)
default-placed (a_default b rest) clc i t e h = omega (arith, h)

pub placed_lem :
    (cs : Cases) (clc i n : ℕ) (t : Text)
    → i + length_cases cs ≡ n
    → is_free t ≡ false
    → hits t (placed clc i cs) ≤ one_if (in_band is_clause clc i n t)
unfolding length_cases
placed_lem no_cases clc i n t e f = omega arith
placed_lem (a_case l v b rest) clc i n t e f = omega (
  arith,
  own_lem clc i t,
  placed_lem rest clc (i + 1) n t (omega (arith, e)) f,
  in_band-join is_clause clc i (i + 1) n t (omega arith) (omega (arith, e)),
)
placed_lem (a_default b rest) clc i n t e f = omega (
  arith,
  own_lem clc i t,
  placed_lem rest clc (i + 1) n t (omega (arith, e)) f,
  in_band-join is_clause clc i (i + 1) n t (omega arith) (omega (arith, e)),
  free-hit t (default_label clc) f (default-free clc),
)

own-moved : (t : Text) (clc i n : ℕ) → i ≡ n → 0 < hits t (own clc i) → 0 < hits t (own clc n)
own-moved t clc i n e h = subst (λ k. 0 < hits t (own clc k)) e h

own-placed :
    (t : Text) (clc i n : ℕ) (cs : Cases)
    → i + length_cases cs ≡ n
    → 0 < hits t (own clc i)
    → 0 < hits t (own clc n) + hits t (placed clc i cs)
unfolding length_cases
own-placed t clc i n no_cases e h = omega (arith, own-moved t clc i n (omega (arith, e)) h)
own-placed t clc i n (a_case l v b rest) e h = omega (arith, h)
own-placed t clc i n (a_default b rest) e h = omega (arith, h)

passed : (a n r : ℕ) → 0 < a + n → (0 < a → 0 < n + r) → 0 < n + r
passed a n r h f = grind arith

-- A clause, and those behind it.
clause-joins :
    {a w : Walk} (clc i n : ℕ) (rest : Cases) (ps : List Text)
    → i + 1 + length_cases rest ≡ n
    → Opens (own clc (i + 1)) ps a
    → Opens (own clc n) (placed clc (i + 1) rest) w
    → Opens (own clc n) (ps ++ placed clc (i + 1) rest) (a ⨾ w)
clause-joins clc i n rest ps e a m =
    weaken (own clc n) (ps ++ placed clc (i + 1) rest) (a ▹ m)
      (λ t h. omega (
        arith,
        hits-append t ps (placed clc (i + 1) rest),
        passed (hits t (own clc (i + 1))) (hits t (own clc n)) (hits t (placed clc (i + 1) rest))
            (omega (arith, h)) (own-placed t clc (i + 1) n rest e),
      ))
      (λ t h. h) (λ t f. omega arith)

pub case-joins :
    {a b w : Walk} (l clc i n : ℕ) (rest : Cases)
    → i + 1 + length_cases rest ≡ n
    → Opens [] [] a
    → Opens [] [] b
    → Opens (own clc n) (placed clc (i + 1) rest) w
    → Opens (own clc n) (own clc i ++ placed clc (i + 1) rest) (walk_case clc i l a b ⨾ w)
case-joins l clc i n rest e a b m =
    clause-joins clc i n rest (own clc i) e (JumpLabels.walk_case-Opens clc i l a b) m

pub default-joins :
    {a w : Walk} (clc i n : ℕ) (rest : Cases)
    → i + 1 + length_cases rest ≡ n
    → Opens [] [] a
    → Opens (own clc n) (placed clc (i + 1) rest) w
    → Opens
        (own clc n)
        (default_label clc ∷ (own clc i ++ placed clc (i + 1) rest))
        (walk_default clc i a ⨾ w)
default-joins clc i n rest e a m =
    clause-joins clc i n rest (default_label clc ∷ own clc i) e
      (JumpLabels.walk_default-Opens clc i a) m

abbrev pub length_catches : Catches → ℕ
length_catches no_catches = 0
length_catches (more_catches x y b rest) = length_catches rest + 1

-- The labels that the catches from an index on place.
abbrev pub caught : ℕ → ℕ → Catches → List Text
caught clc i no_catches = []
caught clc i (more_catches x y b rest) = catch_labels clc i ++ caught clc (i + 1) rest

pub caught_lem :
    (cs : Catches) (clc i n : ℕ) (t : Text)
    → i + length_catches cs ≡ n
    → hits t (caught clc i cs) ≤ one_if (in_band is_catch clc i n t)
caught_lem no_catches clc i n t e = omega arith
caught_lem (more_catches x y b rest) clc i n t e = omega (
  arith,
  catch_labels_lem clc i t,
  caught_lem rest clc (i + 1) n t (omega (arith, e)),
  in_band-join is_catch clc i (i + 1) n t (omega arith) (omega (arith, e)),
)
