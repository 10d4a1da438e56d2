-- ===== src/Compiler/Ranks.antt =====
-- The frames that src/components/compiler/ast_to_asm.c gives, assembled and ordered by which names which.
use saffire.Prelude.{
  ℕ, suc, ◌<◌, ◌≡◌, refl, sym, ap, subst, inl, inr, true, false, Bool-cases, some, List, [], ◌∷◌,
  arith, ok, Text, text_eq, eq_of_text_eq, length, lookup, get_elem?, All, if◌then◌else◌,
}
use mathlib.Core.Option.{some-injective}
use saffire.Asm.{Line, AsmConstant, const_string, const_code, const_regex, const_long}
use saffire.Asm.Frame.{AsmFrame}
use saffire.Asm.Assemble.{assemble_frame}
use saffire.Bytecode.Assembler.{main_key}
use saffire.Bytecode.Link.{IsLinked}
use saffire.Compiler.Hits.{hit, hits, hit_refl, distinct}
use saffire.Compiler.Uses.{frame_names, Whole}
use saffire.Compiler.CodeConstants.{code_hits, frame_codes}

-- Frames that are assembled one by one.
pub data Assembled : List (Text × List Line) → List (Text × AsmFrame) → Type 0 where
  none_left : Assembled [] []
  one_more :
      (n : Text) (ls : List Line) (f : AsmFrame) (out : List (Text × List Line))
      (fs : List (Text × AsmFrame))
      → assemble_frame ls (text_eq n main_key) ≡ ok f
      → Assembled out fs
      → Assembled ((n, ls) ∷ out) ((n, f) ∷ fs)

-- The frames behind the first one of a name.
abbrev pub rank : List (Text × List Line) → Text → ℕ
rank [] t = 0
rank ((n, ls) ∷ rest) t = if text_eq n t then length rest else rank rest t

named_hit : (n t : Text) → text_eq n t ≡ true → hit t n ≡ 1
unfolding hit
named_hit n t h = rw h refl

other_hit : (n t : Text) → text_eq n t ≡ false → hit t n ≡ 0
unfolding hit
other_hit n t h = rw h refl

pub rank_bound :
    (out : List (Text × List Line)) (t : Text)
    → 0 < hits t (frame_names out)
    → rank out t < length out
rank_bound [] t h = absurd (omega arith)
rank_bound ((n, ls) ∷ out) t h = elim (Bool-cases (text_eq n t)) [
  | inl e ↦ rw e (omega arith)
  | inr e ↦ rw e (omega (arith, rank_bound out t (omega (arith, h, other_hit n t e))))
]

-- A name that is listed is found.
pub listed-lookup :
    {out : List (Text × List Line)} {fs : List (Text × AsmFrame)} (t : Text)
    → Assembled out fs
    → 0 < hits t (frame_names out)
    → (g : AsmFrame) × (lookup t fs ≡ some g)
unfolding lookup
listed-lookup t none_left h = absurd (omega arith)
listed-lookup t (one_more n ls f out fs run m) h = elim (Bool-cases (text_eq n t)) [
  | inl e ↦ (f, rw e refl)
  | inr e ↦ rw e (listed-lookup t m (omega (arith, h, other_hit n t e)))
]

-- A frame that is found is one of those that were assembled.
pub lookup-listed :
    {out : List (Text × List Line)} {fs : List (Text × AsmFrame)} (t : Text) (g : AsmFrame)
    → Assembled out fs
    → lookup t fs ≡ some g
    → (0 < hits t (frame_names out))
      × ((i : ℕ) × ((lines : List Line) × ((get_elem? out i ≡ some (t, lines))
              × (assemble_frame lines (text_eq t main_key) ≡ ok g))))
unfolding lookup
lookup-listed t g none_left h = cc
lookup-listed t g (one_more n ls f out fs run m) h = elim (Bool-cases (text_eq n t)) [
  | inl e ↦
      let same : n ≡ t = eq_of_text_eq n t e in
      let found : f ≡ g = some-injective f g (rw e at h) in
      (
        omega (arith, named_hit n t e),
        (
          0,
          (
            ls,
            (
              ap (λ x. some (x, ls)) same,
              subst (λ x. assemble_frame ls (text_eq x main_key) ≡ ok g) same
                  (subst (λ x. assemble_frame ls (text_eq n main_key) ≡ ok x) found run),
            ),
          ),
        ),
      )
  | inr e ↦
      let (there, (i, (lines, (at_i, run')))) = lookup-listed t g m (rw e at h) in
      (omega (arith, there), (suc i, (lines, (at_i, run'))))
]

apart : (n t : Text) (names : List Text) → hits n names ≡ 0 → 0 < hits t names → text_eq n t ≡ false
apart n t names h k = elim (Bool-cases (text_eq n t)) [
  | inl e ↦
      let same : n ≡ t = eq_of_text_eq n t e in
      absurd (omega (arith, k, subst (λ x. hits x names ≡ 0) same h))
  | inr e ↦ e
]

-- Each code constant of a frame names a frame of a lower rank.
pub names-rank :
    {out : List (Text × List Line)} {fs : List (Text × AsmFrame)} (n t : Text) (g : AsmFrame)
    → Assembled out fs
    → Whole out
    → distinct (frame_names out) ≡ true
    → lookup n fs ≡ some g
    → 0 < code_hits t g.constants
    → (rank out t < rank out n) × ((x : AsmFrame) × (lookup t fs ≡ some x))
unfolding lookup Whole
names-rank n t g none_left w d h c = cc
names-rank n t g (one_more m ls f out fs run more) (closed, (linked, w)) d h c =
    elim (Bool-cases (text_eq m n)) [
      | inl e ↦
          let found : f ≡ g = some-injective f g (rw e at h) in
          let count = subst (λ (x : AsmFrame). 0 < code_hits t x.constants) (sym found) c in
          let there : 0 < hits t (frame_names out) =
            linked t (omega (arith, count, frame_codes t ls (text_eq m main_key) f run)) in
          let other = apart m t (frame_names out) (ground arith) there in
          rw (e, other) (rank_bound out t there, listed-lookup t more there)
      | inr e ↦
          let (lower, (x, at_t)) = names-rank n t g more w (ground arith) (rw e at h) c in
          let other =
            apart m t (frame_names out) (ground arith) ((lookup-listed t x more at_t).0) in
          rw (e, other) (lower, (x, at_t))
    ]

constants-IsLinked :
    (r : Text → ℕ) (frames : List (Text × AsmFrame)) (n : Text) (cs : List AsmConstant)
    → ((t : Text)
        → 0 < code_hits t cs
        → (r t < r n) × ((x : AsmFrame) × (lookup t frames ≡ some x)))
    → All (IsLinked r frames n) cs
constants-IsLinked r frames n [] f = tt
constants-IsLinked r frames n (const_code s ∷ cs) f = (
  f s (omega (arith, hit_refl s)),
  constants-IsLinked r frames n cs (λ t h. f t (omega (arith, h))),
)
constants-IsLinked r frames n (const_string s ∷ cs) f = (tt, constants-IsLinked r frames n cs f)
constants-IsLinked r frames n (const_regex s ∷ cs) f = (tt, constants-IsLinked r frames n cs f)
constants-IsLinked r frames n (const_long l ∷ cs) f = (tt, constants-IsLinked r frames n cs f)

pub frames-IsLinked :
    {out : List (Text × List Line)} {fs : List (Text × AsmFrame)} (n : Text) (g : AsmFrame)
    → Assembled out fs
    → Whole out
    → distinct (frame_names out) ≡ true
    → lookup n fs ≡ some g
    → All (IsLinked (rank out) fs n) g.constants
frames-IsLinked {out} {fs} n g m w d h =
    constants-IsLinked (rank out) fs n g.constants (λ t c. names-rank n t g m w d h c)
