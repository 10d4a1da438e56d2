-- ===== src/Compiler/Uses.antt =====
-- The labels that lines of src/components/compiler/ast_to_asm.c use and place, and those that its
-- blocks hold.
use saffire.Prelude.{
  ℕ, zero, suc, ◌+◌, ◌<◌, ◌≤◌, ◌≡◌, false, Option, none, some, List, [], ◌∷◌, ◌++◌, Text, arith,
  get_elem?, set, subst,
}
use mathlib.Core.Option.{some-injective}
use saffire.Asm.{Opr, op_label, op_code, Line, code_line, label_line}
use saffire.Compiler.State.{BlockState}
use saffire.Compiler.Hits.{hit, hits, hits-append, is_free, is_user}

-- The labels that the operands of an instruction name.
abbrev pub named : List Opr → List Text
named [] = []
named (op_label x ∷ os) = x ∷ named os
named (o ∷ os) = named os

-- How often the lines use a label, and place it.
unfoldable pub uses : Text → List Line → ℕ
uses t [] = 0
uses t (label_line x ∷ ls) = uses t ls
uses t (code_line l o os ∷ ls) = hits t (named os) + uses t ls

unfoldable pub places : Text → List Line → ℕ
places t [] = 0
places t (label_line x ∷ ls) = hit t x + places t ls
places t (code_line l o os ∷ ls) = places t ls

-- The frames that the operands of an instruction name, and how often the lines name one.
abbrev pub frames_named : List Opr → List Text
frames_named [] = []
frames_named (op_code x ∷ os) = x ∷ frames_named os
frames_named (o ∷ os) = frames_named os

unfoldable pub codes : Text → List Line → ℕ
codes t [] = 0
codes t (label_line x ∷ ls) = codes t ls
codes t (code_line l o os ∷ ls) = hits t (frames_named os) + codes t ls

pub codes-append : (t : Text) (xs ys : List Line) → codes t (xs ++ ys) ≡ codes t xs + codes t ys
unfolding codes
codes-append t [] ys = omega arith
codes-append t (label_line x ∷ xs) ys = codes-append t xs ys
codes-append t (code_line l o os ∷ xs) ys = omega (arith, codes-append t xs ys)

pub uses-append : (t : Text) (xs ys : List Line) → uses t (xs ++ ys) ≡ uses t xs + uses t ys
unfolding uses
uses-append t [] ys = omega arith
uses-append t (label_line x ∷ xs) ys = uses-append t xs ys
uses-append t (code_line l o os ∷ xs) ys = omega (arith, uses-append t xs ys)

pub places-append : (t : Text) (xs ys : List Line) → places t (xs ++ ys) ≡ places t xs + places t ys
unfolding places
places-append t [] ys = omega arith
places-append t (label_line x ∷ xs) ys = omega (arith, places-append t xs ys)
places-append t (code_line l o os ∷ xs) ys = places-append t xs ys

abbrev pub uses_of : Line → List Text
uses_of (label_line x) = []
uses_of (code_line l o os) = named os

abbrev pub places_of : Line → List Text
places_of (label_line x) = x ∷ []
places_of (code_line l o os) = []

abbrev pub frames_of : Line → List Text
frames_of (label_line x) = []
frames_of (code_line l o os) = frames_named os

-- The labels that are written to the blocks, where a `continue` statement finds them.
abbrev pub label_of : Option Text → List Text
label_of none = []
label_of (some l) = l ∷ []

abbrev pub block_labels : List BlockState → List Text
block_labels [] = []
block_labels (b ∷ bs) = label_of b.label ++ block_labels bs

pub block_labels-set :
    (t : Text) (bs : List BlockState) (i : ℕ) (b : BlockState)
    → hits t (block_labels (set bs i b)) ≤ hits t (block_labels bs) + hits t (label_of b.label)
block_labels-set t [] i b = omega arith
block_labels-set t (x ∷ bs) zero b = omega (
  arith,
  hits-append t (label_of b.label) (block_labels bs),
  hits-append t (label_of x.label) (block_labels bs),
)
block_labels-set t (x ∷ bs) (suc i) b = omega (
  arith,
  hits-append t (label_of x.label) (block_labels bs),
  hits-append t (label_of x.label) (block_labels (set bs i b)),
  block_labels-set t bs i b,
)

pub block_labels-get :
    (t : Text) (bs : List BlockState) (i : ℕ) (b : BlockState)
    → get_elem? bs i ≡ some b
    → hits t (label_of b.label) ≤ hits t (block_labels bs)
block_labels-get t [] i b h = cc
block_labels-get t (x ∷ bs) zero b h =
    subst (λ (y : BlockState). hits t (label_of y.label) ≤ hits t (block_labels (x ∷ bs)))
      (some-injective x b h) (omega (arith, hits-append t (label_of x.label) (block_labels bs)))
block_labels-get t (x ∷ bs) (suc i) b h =
    omega (arith, block_labels-get t bs i b h, hits-append t (label_of x.label) (block_labels bs))

-- Lines that place every label that they use, but for those that the program declares, and none
-- twice, but for the free ones.
pub record Closed (lines : List Line) : Type 0 where
  pub closed : (t : Text) → is_user t ≡ false → 0 < uses t lines → 0 < places t lines
  pub once : (t : Text) → is_free t ≡ false → places t lines ≤ 1

abbrev pub frame_names : List (Text × List Line) → List Text
frame_names [] = []
frame_names ((name, lines) ∷ rest) = name ∷ frame_names rest

pub frame_names-append :
    (t : Text) (xs ys : List (Text × List Line))
    → hits t (frame_names (xs ++ ys)) ≡ hits t (frame_names xs) + hits t (frame_names ys)
frame_names-append t [] ys = omega arith
frame_names-append t ((name, lines) ∷ xs) ys = omega (arith, frame_names-append t xs ys)

-- Each frame is closed and names only frames that stand behind it.
unfoldable pub Whole : List (Text × List Line) → Type 0
Whole [] = Unit {0}
Whole ((name, lines) ∷ rest) =
    Closed lines × (((t : Text) → 0 < codes t lines → 0 < hits t (frame_names rest)) × Whole rest)

pub Whole-append : (xs ys : List (Text × List Line)) → Whole xs → Whole ys → Whole (xs ++ ys)
unfolding Whole
Whole-append [] ys p q = q
Whole-append ((name, lines) ∷ xs) ys (c, (k, p)) q =
    (c, (λ t h. omega (arith, k t h, frame_names-append t xs ys), Whole-append xs ys p q))

pub Whole-get :
    (xs : List (Text × List Line)) (i : ℕ) (name : Text) (lines : List Line)
    → Whole xs
    → get_elem? xs i ≡ some (name, lines)
    → Closed lines
unfolding Whole
Whole-get [] i name lines w h = cc
Whole-get ((n, ls) ∷ xs) zero name lines (c, _) h =
    subst (λ (y : Text × List Line). Closed y.1) (some-injective (n, ls) (name, lines) h) c
Whole-get ((n, ls) ∷ xs) (suc i) name lines (c, (_, w)) h = Whole-get xs i name lines w h
