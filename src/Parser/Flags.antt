-- ===== src/Parser/Flags.antt =====
-- The lists of modifiers that src/components/compiler/parser_helpers.c takes.
use saffire.Prelude.{
  ℕ, ◌+◌, ◌==◌, ◌&&◌, ◌||◌, ◌≡◌, refl, subst, Bool, true, false, List, [], ◌∷◌, arith, ok,
  >>=-returns, bit_or, ok-injective,
}
use saffire.Parser.Modifiers.{
  Modifier, public, protected, private, final, abstract, static, value, parser_validate_flags,
  modifier_list,
}

-- At most one visibility, at most one of final and abstract, and static or not.
abbrev allowed : List ℕ
allowed =
    0 ∷ 1 ∷ 2 ∷ 4 ∷ 8 ∷ 9 ∷ 10 ∷ 12 ∷ 16 ∷ 17 ∷ 18 ∷ 20 ∷ 32 ∷ 33 ∷ 34 ∷ 36 ∷ 40 ∷ 41 ∷ 42 ∷ 44 ∷ 48
    ∷ 49 ∷ 50 ∷ 52 ∷ []

abbrev listed : ℕ → List ℕ → Bool
listed f [] = false
listed f (x ∷ xs) = x == f || listed f xs

unfoldable pub are_allowed : ℕ → Bool
are_allowed f = listed f allowed

unfoldable pub total : List Modifier → ℕ
total [] = 0
total (m ∷ ms) = value m + total ms

joins : ℕ → Modifier → Bool
joins f m = elim (parser_validate_flags f (value m)) [
  | ok _ ↦ bit_or f (value m) == f + value m && are_allowed (f + value m)
  | _ ↦ true
]

join_all : ℕ → Bool
join_all f =
    joins f public
    && (joins f protected
        && (joins f private && (joins f final && (joins f abstract && joins f static))))

abbrev all_of : (ℕ → Bool) → List ℕ → Bool
all_of P [] = true
all_of P (x ∷ xs) = P x && all_of P xs

all_of-listed :
    (P : ℕ → Bool) (f : ℕ) (xs : List ℕ) → all_of P xs ≡ true → listed f xs ≡ true → P f ≡ true
all_of-listed P f [] h k = cc
all_of-listed P f (x ∷ xs) h k = ground (arith, all_of-listed P f xs)

all_join : all_of join_all allowed ≡ true
unfolding join_all joins are_allowed parser_validate_flags value
all_join = refl

join_each : (f : ℕ) (m : Modifier) → join_all f ≡ true → joins f m ≡ true
unfolding join_all
join_each f public h = ground arith
join_each f protected h = ground arith
join_each f private h = ground arith
join_each f final h = ground arith
join_each f abstract h = ground arith
join_each f static h = ground arith

joined_lem :
    (f : ℕ) (m : Modifier)
    → are_allowed f ≡ true
    → (u : Unit {0}) → parser_validate_flags f (value m) ≡ ok u
    → (bit_or f (value m) == f + value m && are_allowed (f + value m)) ≡ true
unfolding joins are_allowed
joined_lem f m h u e =
    rw (e, joins) at (join_each f m (all_of-listed join_all f allowed all_join h))

total_of :
    (f g : ℕ) (ms : List Modifier)
    → are_allowed f ≡ true
    → modifier_list f ms ≡ ok g
    → (are_allowed g ≡ true) × (g ≡ f + total ms)
unfolding modifier_list total
total_of f g [] h e =
    (subst (λ k. are_allowed k ≡ true) (ok-injective e) h, omega (arith, ok-injective e))
total_of f g (m ∷ ms) h e =
    let (u, valid, rest) = >>=-returns (parser_validate_flags f (value m)) _ e in
    let j = joined_lem f m h u valid in
    let sum : bit_or f (value m) ≡ f + value m = ground arith in
    let (a, t) = total_of (f + value m) g ms (ground arith) (rw sum at rest) in
    (a, omega (arith, t))

value-allowed : (m : Modifier) → are_allowed (value m) ≡ true
unfolding value are_allowed
value-allowed public = refl
value-allowed protected = refl
value-allowed private = refl
value-allowed final = refl
value-allowed abstract = refl
value-allowed static = refl

-- The flags of a list of modifiers that the parser takes are the sum of the values of its modifiers,
-- and have at most one visibility, at most one of final and abstract, and static at most once.
pub modifier_list-total :
    (m : Modifier) (ms : List Modifier) (f : ℕ)
    → modifier_list (value m) ms ≡ ok f
    → (are_allowed f ≡ true) × (f ≡ total (m ∷ ms))
unfolding total
modifier_list-total m ms f e = total_of (value m) f ms (value-allowed m) e
