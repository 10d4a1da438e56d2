-- ===== src/Compiler/Pipeline.antt =====
-- From the tree to the bytecode: `ast_to_asm` of src/components/compiler/ast_to_asm.c and `assembler`
-- of src/components/compiler/output/asm.c.
use saffire.Prelude.{
  ℕ, suc, ◌<◌, ◌≤◌, ◌≡◌, refl, ◌⊎◌, inl, inr, Bool, true, some, List, [], ◌∷◌, arith, Run, Fatal,
  ok, fatal_error, label_already_defined, cannot_find_label, Text, text_eq, length, get_elem?,
}
use saffire.Asm.{Line}
use saffire.Asm.Frame.{AsmFrame}
use saffire.Asm.Assemble.{assemble_frame}
use saffire.Bytecode.{Bytecode}
use saffire.Bytecode.Link.{IsBytecode, convert_frames_to_bytecode, convert_frames_to_bytecode_lem}
use saffire.Bytecode.Assembler.{main_key, assemble_frames, named_bytecode, assembler}
use saffire.Compiler.{Ast}
use saffire.Compiler.Walk.{ast_to_asm}
use saffire.Compiler.Hits.{hits, is_free, is_user, distinct}
use saffire.Compiler.Uses.{uses, places, frame_names, Whole}
use saffire.Compiler.Assembles.{Assembles, Closed-Assembles, ast_to_asm-Whole}
use saffire.Compiler.Ranks.{
  Assembled, none_left, one_more, rank, rank_bound, listed-lookup, frames-IsLinked,
}

-- The errors of the program that the assembler finds: in one of the frames a free label is placed
-- twice, or a label that the program declares is used and nowhere placed.
pub data LabelFault {ℓ} {A : Type ℓ} (out : List (Text × List Line)) (r : Run A) : Type ℓ where
  twice :
      (i : ℕ) (name : Text) (lines : List Line) (t : Text)
      → get_elem? out i ≡ some (name, lines)
      → is_free t ≡ true
      → 1 < places t lines
      → r ≡ fatal_error label_already_defined
      → LabelFault out r
  nowhere :
      (i : ℕ) (name : Text) (lines : List Line) (t : Text)
      → get_elem? out i ≡ some (name, lines)
      → is_user t ≡ true
      → 0 < uses t lines
      → places t lines ≡ 0
      → r ≡ fatal_error cannot_find_label
      → LabelFault out r

fault-moves {ℓ κ} :
    {A : Type ℓ} {B : Type κ} {out : List (Text × List Line)} (r : Run A) (r' : Run B)
    → ((e : Fatal) → r ≡ fatal_error e → r' ≡ fatal_error e)
    → LabelFault out r
    → LabelFault out r'
fault-moves r r' f (twice i name lines t there free many e) =
    twice i name lines t there free many (f _ e)
fault-moves r r' f (nowhere i name lines t there user used missing e) =
    nowhere i name lines t there user used missing (f _ e)

fault-later {ℓ} :
    {A : Type ℓ} {out : List (Text × List Line)} (x : Text × List Line) (r : Run A)
    → LabelFault out r
    → LabelFault (x ∷ out) r
fault-later x r (twice i name lines t there free many e) =
    twice (suc i) name lines t there free many e
fault-later x r (nowhere i name lines t there user used missing e) =
    nowhere (suc i) name lines t there user used missing e

head_fails :
    (n : Text) (ls : List Line) (out : List (Text × List Line)) (e : Fatal)
    → assemble_frame ls (text_eq n main_key) ≡ fatal_error e
    → assemble_frames ((n, ls) ∷ out) ≡ fatal_error e
unfolding assemble_frames
head_fails n ls out e h = rw h refl

tail_fails :
    (n : Text) (ls : List Line) (out : List (Text × List Line)) (f : AsmFrame) (e : Fatal)
    → assemble_frame ls (text_eq n main_key) ≡ ok f
    → assemble_frames out ≡ fatal_error e
    → assemble_frames ((n, ls) ∷ out) ≡ fatal_error e
unfolding assemble_frames
tail_fails n ls out f e h k = rw h (rw k refl)

both_run :
    (n : Text) (ls : List Line) (out : List (Text × List Line)) (f : AsmFrame)
    (fs : List (Text × AsmFrame))
    → assemble_frame ls (text_eq n main_key) ≡ ok f
    → assemble_frames out ≡ ok fs
    → assemble_frames ((n, ls) ∷ out) ≡ ok ((n, f) ∷ fs)
unfolding assemble_frames
both_run n ls out f fs h k = rw h (rw k refl)

-- The frames are assembled one by one, up to the first with an error.
abbrev FramesEnd : List (Text × List Line) → Type 0
FramesEnd out =
    ((fs : List (Text × AsmFrame)) × ((assemble_frames out ≡ ok fs) × Assembled out fs))
    ⊎ LabelFault out (assemble_frames out)

one_ends :
    (n : Text) (ls : List Line) (out : List (Text × List Line))
    → Assembles ls (text_eq n main_key)
    → FramesEnd out
    → FramesEnd ((n, ls) ∷ out)
unfolding Assembles
one_ends n ls out (inl (f, h)) (inl (fs, (k, m))) =
    inl ((n, f) ∷ fs, (both_run n ls out f fs h k, one_more n ls f out fs h m))
one_ends n ls out (inl (f, h)) (inr fault) = inr (
    fault-later (n, ls) _
      (fault-moves (assemble_frames out) (assemble_frames ((n, ls) ∷ out))
        (λ e k. tail_fails n ls out f e h k) fault))
one_ends n ls out (inr (inl (h, (t, (free, many))))) rest =
    inr (twice 0 n ls t refl free many (head_fails n ls out _ h))
one_ends n ls out (inr (inr (h, (t, (user, (used, missing)))))) rest =
    inr (nowhere 0 n ls t refl user used missing (head_fails n ls out _ h))

frames_end : (out : List (Text × List Line)) → Whole out → FramesEnd out
unfolding Whole assemble_frames
frames_end [] w = inl ([], (refl, none_left))
frames_end ((n, ls) ∷ out) (c, (_, w)) =
    one_ends n ls out (Closed-Assembles ls (text_eq n main_key) c) (frames_end out w)

-- The bytecode of a program: that of its main frame among the frames that are assembled one by one,
-- with the bytecodes of the frames that its constants name inside of it.
pub record Compiled (fuel : ℕ) (out : List (Text × List Line)) : Type 0 where
  pub frames : List (Text × AsmFrame)
  pub assembled : Assembled out frames
  pub bc : Bytecode
  pub run : assembler fuel out ≡ ok bc
  pub linked : IsBytecode fuel frames 1 main_key bc

unfoldable pub Compiles : ℕ → List (Text × List Line) → Type 0
Compiles fuel out = Compiled fuel out ⊎ LabelFault out (assembler fuel out)

assembler_fails :
    (fuel : ℕ) (out : List (Text × List Line)) (e : Fatal)
    → assemble_frames out ≡ fatal_error e
    → assembler fuel out ≡ fatal_error e
unfolding assembler
assembler_fails fuel out e h = rw h refl

assembler_runs :
    (fuel : ℕ) (out : List (Text × List Line)) (fs : List (Text × AsmFrame)) (b : Bytecode)
    → assemble_frames out ≡ ok fs
    → convert_frames_to_bytecode fuel fs main_key 1 ≡ ok (some b)
    → assembler fuel out ≡ ok b
unfolding assembler named_bytecode
assembler_runs fuel out fs b h k = rw h (rw k refl)

links :
    (fuel : ℕ) (out : List (Text × List Line)) (fs : List (Text × AsmFrame))
    → Whole out
    → distinct (frame_names out) ≡ true
    → 0 < hits main_key (frame_names out)
    → length out ≤ fuel
    → assemble_frames out ≡ ok fs
    → Assembled out fs
    → Compiled fuel out
links fuel out fs w d main enough run m =
    let (g, at_main) = listed-lookup main_key m main in
    let (bc, linked, is) =
      convert_frames_to_bytecode_lem (rank out) fs fuel main_key 1 g
        (λ t f h. frames-IsLinked t f m w d h) at_main
        (omega (arith, enough, rank_bound out main_key main)) in
    record {
      frames = fs;
      assembled = m;
      bc = bc;
      run = assembler_runs fuel out fs bc run linked;
      linked = is;
    }

whole-Compiles :
    (fuel : ℕ) (out : List (Text × List Line))
    → Whole out
    → distinct (frame_names out) ≡ true
    → 0 < hits main_key (frame_names out)
    → length out ≤ fuel
    → Compiles fuel out
unfolding Compiles
whole-Compiles fuel out w d main enough = elim (frames_end out w) [
  | inl (fs, (run, m)) ↦ inl (links fuel out fs w d main enough run m)
  | inr fault ↦ inr (fault-moves (assemble_frames out) _ (assembler_fails fuel out) fault)
]

-- A program for which `ast_to_asm` gives frames of different names is compiled: with as many levels of
-- recursion as there are frames, `assembler` gives the bytecode of the main frame, where each frame is
-- assembled alone: its code, its identifiers and its lines, and its constants in their order, each of
-- the same kind and value, one that names a frame being in turn the bytecode of that frame. The one
-- exception is an error of the program: in one of the frames a label that the program declares, or
-- that of a default clause, is placed twice, or one that a `goto` names is nowhere placed; then the
-- result is the fatal error that says so.
pub ast_to_asm-assembler :
    (a : Ast) (append : Bool) (output : List (Text × List Line)) (fuel : ℕ)
    → ast_to_asm a append ≡ ok output
    → distinct (frame_names output) ≡ true
    → length output ≤ fuel
    → Compiles fuel output
ast_to_asm-assembler a append output fuel run different enough =
    let (w, main) = ast_to_asm-Whole a append output run in
    whole-Compiles fuel output w different main enough
