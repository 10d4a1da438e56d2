-- ===== src/Bytecode/LinkTests.antt =====
-- Two frames, and the theorem about linking at them.
use saffire.Prelude.{
  ℕ, ◌≡◌, ◌<◌, refl, sym, ap, subst, ◌∙◌, Option, none, some, List, [], ◌∷◌, true, false,
  Bool-cases, inl, inr, Text, text_eq, lookup, All, arith, if◌then◌else◌,
}
use saffire.Asm.{const_string, const_code}
use saffire.Asm.Frame.{AsmFrame, new_frame}
use saffire.Bytecode.Link.{IsLinked, Linking, convert_frames_to_bytecode_lem}

abbrev main_name : Text
main_name = b'm' ∷ []

abbrev child_name : Text
child_name = b'c' ∷ []

abbrev main_frame : AsmFrame
main_frame = record new_frame { constants = const_string main_name ∷ (const_code child_name ∷ []) }

abbrev frames : List (Text × AsmFrame)
frames = (main_name, main_frame) ∷ ((child_name, new_frame) ∷ [])

abbrev rank : Text → ℕ
rank s = if text_eq main_name s then 1 else 0

some_frame : (f g : AsmFrame) → some f ≡ some g → f ≡ g
some_frame f g e = ap (λ (o : Option AsmFrame). elim o [ some x ↦ x | none ↦ f ]) e

main-IsLinked :
    (s : Text) → text_eq main_name s ≡ true → All (IsLinked rank frames s) main_frame.constants
unfolding lookup text_eq
main-IsLinked s h = let lower : 0 < rank s = rank_main s h in (tt, ((lower, (new_frame, refl)), tt))
  where
    rank_main : (s : Text) → text_eq main_name s ≡ true → 0 < rank s
    rank_main s h = rw h (omega arith)

lookup_main : (s : Text) → text_eq main_name s ≡ true → lookup s frames ≡ some main_frame
unfolding lookup
lookup_main s h = rw h

lookup_child :
    (s : Text)
    → text_eq main_name s ≡ false
    → text_eq child_name s ≡ true
    → lookup s frames ≡ some new_frame
unfolding lookup
lookup_child s h k = rw h (rw k)

lookup_other :
    (s : Text) → text_eq main_name s ≡ false → text_eq child_name s ≡ false → lookup s frames ≡ none
unfolding lookup
lookup_other s h k = rw h (rw k)

frame_constants :
    (s : Text) (f : AsmFrame) → lookup s frames ≡ some f → All (IsLinked rank frames s) f.constants
frame_constants s f e = elim (Bool-cases (text_eq main_name s)) [
  | inl is_main ↦
      subst (λ (g : AsmFrame). All (IsLinked rank frames s) g.constants)
        (some_frame main_frame f (sym (lookup_main s is_main) ∙ e)) (main-IsLinked s is_main)
  | inr other ↦ elim (Bool-cases (text_eq child_name s)) [
    | inl is_child ↦
        subst (λ (g : AsmFrame). All (IsLinked rank frames s) g.constants)
          (some_frame new_frame f (sym (lookup_child s other is_child) ∙ e)) tt
    | inr neither ↦ cc (sym (lookup_other s other neither) ∙ e)
  ]
]

convert_frames_to_bytecode_lem_example : Linking 2 frames main_name 7
unfolding text_eq lookup
convert_frames_to_bytecode_lem_example =
    convert_frames_to_bytecode_lem rank frames 2 main_name 7 main_frame frame_constants refl
      (omega arith)
