-- ===== src/Compiler/Assembles.antt =====
-- The assembler of src/components/compiler/output/asm.c on what src/components/compiler/ast_to_asm.c
-- gives it.
use saffire.Prelude.{
  ℕ, ◌+◌, ◌<◌, ◌≡◌, refl, subst, ◌⊎◌, inl, inr, Bool, true, false, Bool-cases, List, [], ◌∷◌, ◌++◌,
  Text, text_eq, >>=-returns, ok-injective, arith, ok, fatal_error, label_already_defined,
  cannot_find_label, some, get_elem?, Ends-eq, ◌∙◌, ◌≤◌, length, le→leb,
}
use saffire.Asm.{Line, code_line, label_line}
use saffire.Asm.Frame.{AsmFrame}
use saffire.Asm.Assemble.{missing_label, assemble_frame}
use saffire.Asm.Reference.{label_definitions, label_uses}
use saffire.Asm.FirstOutcome.{is_listed, names, defined_labels, first_missing, distinct_labels}
use saffire.Asm.Outcomes.{AssembleEnds, assemble_frame-outcome}
use saffire.Compiler.{Ast}
use saffire.Compiler.State.{state_init}
use saffire.Compiler.Walk.{walk}
use saffire.Compiler.Hits.{hit, hits, hits-append, is_free, is_user, is_prefix}
use saffire.Compiler.Uses.{uses, places, Closed, Whole, Whole-get, frame_names}
use saffire.Compiler.ClassLabels.{Written, frame-Written}
use saffire.Compiler.Labels.{opens}
use saffire.Compiler.MissingLabels.{hit_self, missing_use}
use saffire.Compiler.Names.{main_name, userlabel_text}
use saffire.Compiler.Walk.{ast_to_asm}
use saffire.Compiler.Classes.{ast_to_frame}

placed-listed :
    (t : Text) (lines : List Line) (off : ℕ)
    → 0 < places t lines
    → is_listed t (names (label_definitions off lines)) ≡ true
unfolding places hit label_definitions
placed-listed t [] off h = absurd (omega (arith, h))
placed-listed t (label_line x ∷ ls) off h = elim (Bool-cases (text_eq x t)) [
  | inl e ↦ rw e refl
  | inr e ↦ rw e (placed-listed t ls _ (omega (arith, rw e at h)))
]
placed-listed t (code_line l o os ∷ ls) off h = placed-listed t ls _ h

listed-hits : (t : Text) (ts : List Text) → is_listed t ts ≡ true → 0 < hits t ts
unfolding hit
listed-hits t [] h = cc
listed-hits t (x ∷ ts) h = ground (arith, listed-hits t ts)

-- A label that is declared twice.
duplicate :
    (lines : List Line) (declared : List Text)
    → distinct_labels declared lines ≡ false
    → (t : Text) × (1 < hits t declared + places t lines)
unfolding distinct_labels places
duplicate [] declared h = cc
duplicate (code_line l o os ∷ lines) declared h = duplicate lines declared h
duplicate (label_line x ∷ lines) declared h = elim (Bool-cases (is_listed x declared)) [
  | inl e ↦ (x, omega (arith, listed-hits x declared e, hit_self x))
  | inr e ↦
      let (t, twice) = duplicate lines (declared ++ x ∷ []) (rw e at h) in
      (t, omega (arith, twice, hits-append t declared (x ∷ [])))
]

-- A frame is assembled, or a free label is placed twice in it, or a label that the program declares
-- is used in it and nowhere placed.
unfoldable pub Assembles : List Line → Bool → Type 0
Assembles lines main =
    ((f : AsmFrame) × (assemble_frame lines main ≡ ok f))
    ⊎ (((assemble_frame lines main ≡ fatal_error label_already_defined)
          × ((t : Text) × ((is_free t ≡ true) × (1 < places t lines))))
        ⊎ ((assemble_frame lines main ≡ fatal_error cannot_find_label)
            × ((t : Text) × ((is_user t ≡ true) × ((0 < uses t lines) × (places t lines ≡ 0))))))

free_twice :
    (lines : List Line)
    → Closed lines
    → distinct_labels [] lines ≡ false
    → (t : Text) × ((is_free t ≡ true) × (1 < places t lines))
free_twice lines c h =
    let (t, twice) = duplicate lines [] h in
    elim (Bool-cases (is_free t)) [
      | inl f ↦ (t, (f, omega (arith, twice)))
      | inr f ↦ absurd (omega (arith, twice, c.once t f))
    ]

nowhere :
    (t : Text) (lines : List Line) (listed : Bool)
    → (0 < places t lines → listed ≡ true)
    → listed ≡ false
    → places t lines ≡ 0
nowhere t lines listed f h = grind arith

-- A label that the program declares, used and nowhere placed.
abbrev IsMissing : List Line → Text → Type 0
IsMissing lines t = (is_user t ≡ true) × ((0 < uses t lines) × (places t lines ≡ 0))

prefix-length : (p t : Text) → is_prefix p t ≡ true → length p ≤ length t
prefix-length [] t h = omega arith
prefix-length (c ∷ p) [] h = cc
prefix-length (c ∷ p) (d ∷ t) h = ground (arith, prefix-length p t)

user_error {ℓ} :
    {A : Type ℓ} (t : Text)
    → is_user t ≡ true
    → missing_label {A = A} t ≡ fatal_error cannot_find_label
unfolding missing_label is_user
user_error t h = rw (le→leb 10 (length t) (prefix-length userlabel_text t h)) refl

first_missing-IsMissing :
    (lines : List Line)
    → Closed lines
    → defined_labels (label_definitions 0 lines) (label_uses 0 lines) ≡ false
    → IsMissing lines (first_missing (label_definitions 0 lines) (label_uses 0 lines))
first_missing-IsMissing lines c h =
    let t = first_missing (label_definitions 0 lines) (label_uses 0 lines) in
    let (used, missing) = missing_use (label_definitions 0 lines) lines 0 h in
    let none_there = nowhere t lines _ (placed-listed t lines 0) missing in
    elim (Bool-cases (is_user t)) [
      | inl u ↦ (u, (used, none_there))
      | inr u ↦ absurd (omega (arith, c.closed t u used, none_there))
    ]

ends-Assembles :
    (lines : List Line) (main distinct defined : Bool)
    → Closed lines
    → distinct_labels [] lines ≡ distinct
    → defined_labels (label_definitions 0 lines) (label_uses 0 lines) ≡ defined
    → AssembleEnds distinct defined lines main
    → Assembles lines main
unfolding Assembles
ends-Assembles lines main false defined c d e h = inr (inl (h, free_twice lines c d))
ends-Assembles lines main true false c d e h =
    let (user, there) = first_missing-IsMissing lines c e in
    inr (inr (h ∙ user_error _ user, (_, (user, there))))
ends-Assembles lines main true true c d e (f, h, _, _, _) = inl (f, h)

pub Closed-Assembles : (lines : List Line) (main : Bool) → Closed lines → Assembles lines main
Closed-Assembles lines main c =
    ends-Assembles lines main _ _ c refl refl (assemble_frame-outcome lines main)

-- The frames of a program are closed and name only those behind them, and the main one is there.
pub ast_to_asm-Whole :
    (a : Ast) (append : Bool) (output : List (Text × List Line))
    → ast_to_asm a append ≡ ok output
    → Whole output × (0 < hits main_name (frame_names output))
unfolding ast_to_asm state_init Whole
ast_to_asm-Whole a append output run =
    let (s, frame, given) =
      >>=-returns (ast_to_frame append main_name (walk append false a) (state_init 0)) _ run in
    let (r, there) =
      Ends-eq (Written main_name (state_init 0)) _ s frame
        (frame-Written append main_name (opens append false a) (state_init 0)) in
    subst (λ o. Whole o × (0 < hits main_name (frame_names o))) (ok-injective given)
      (r.frames tt, there)

-- Every frame that `ast_to_asm` gives for a program, that of each method as the main one, is
-- assembled, unless a label that the program declares, or that of a default clause, is placed twice
-- in it, or a `goto` of it names a label that the program does not declare there: then assembling it
-- is the fatal error that says so. No other label is missing, and none is placed twice.
pub ast_to_asm-Assembles :
    (a : Ast) (append main : Bool) (output : List (Text × List Line)) (i : ℕ) (name : Text)
    (lines : List Line)
    → ast_to_asm a append ≡ ok output
    → get_elem? output i ≡ some (name, lines)
    → Assembles lines main
ast_to_asm-Assembles a append main output i name lines run there =
    Closed-Assembles lines main
      (Whole-get output i name lines ((ast_to_asm-Whole a append output run).0) there)
