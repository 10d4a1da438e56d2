-- ===== src/Bytecode/Link.antt =====
-- `convert_frames_to_bytecode` of src/components/compiler/bytecode/marshal.c.
use saffire.Prelude.{
  ℕ, zero, suc, ◌<◌, ◌≡◌, refl, Option, none, some, List, [], ◌∷◌, arith, Text, lookup, Run, ok,
  undefined, out_of_fuel, ◌>>=◌, All,
}
use saffire.Bytecode.{
  Bytecode, bytecode, Constants, no_constants, constant, Constant, string, regex, numerical, code,
}
use saffire.Asm.{AsmConstant, const_string, const_code, const_regex, const_long}
use saffire.Asm.Frame.{AsmFrame}

-- A missing child leaves a code constant of `NULL`, which whoever uses it reads through.
unfoldable pub code_constant : Option Bytecode → Run Constant
code_constant none = undefined
code_constant (some child) = ok (code child)

-- The switch over the type of a constant. `link` is the recursive call.
unfoldable pub convert_asm_constant : (Text → Run (Option Bytecode)) → AsmConstant → Run Constant
convert_asm_constant link (const_code s) = link s >>= code_constant
convert_asm_constant link (const_string s) = ok (string s)
convert_asm_constant link (const_regex s) = ok (regex s)
convert_asm_constant link (const_long l) = ok (numerical l)

unfoldable pub convert_constants : (Text → Run (Option Bytecode)) → List AsmConstant → Run Constants
convert_constants link [] = ok no_constants
convert_constants link (c ∷ cs) = do
  c' ← convert_asm_constant link c
  cs' ← convert_constants link cs
  ok (constant c' cs')

-- `frames` is the hash table of frames by name. The recursion is on fuel.
unfoldable pub convert_frames_to_bytecode :
    ℕ → List (Text × AsmFrame) → Text → ℕ → Run (Option Bytecode)
convert_frames_to_bytecode zero frames name startline = out_of_fuel
convert_frames_to_bytecode (suc fuel) frames name startline = elim (lookup name frames) [
  | none ↦ ok none
  | some frame ↦ do
    cs ← convert_constants (λ s. convert_frames_to_bytecode fuel frames s 1) frame.constants
    ok (some (bytecode frame.stack_size frame.code frame.identifiers cs startline frame.lino))
]

-- A code constant names a frame that is there and ranks lower.
abbrev pub IsLinked : (Text → ℕ) → List (Text × AsmFrame) → Text → AsmConstant → Type 0
IsLinked rank frames name (const_code s) =
    (rank s < rank name) × ((f : AsmFrame) × (lookup s frames ≡ some f))
IsLinked rank frames name (const_string s) = Unit
IsLinked rank frames name (const_regex s) = Unit
IsLinked rank frames name (const_long l) = Unit

-- The constants of a bytecode are those of the frame, one by one, with the kind and the value of each;
-- a code constant is a bytecode of the frame that it names.
abbrev pub Matches : (Text → Bytecode → Type 0) → List AsmConstant → Constants → Type 0
Matches of [] no_constants = Unit {0}
Matches of (const_string s ∷ cs) (constant (string t) ks) = (t ≡ s) × Matches of cs ks
Matches of (const_regex s ∷ cs) (constant (regex t) ks) = (t ≡ s) × Matches of cs ks
Matches of (const_long l ∷ cs) (constant (numerical k) ks) = (k ≡ l) × Matches of cs ks
Matches of (const_code s ∷ cs) (constant (code child) ks) = of s child × Matches of cs ks
Matches of cs ks = ⊥

-- A bytecode of a frame: its code and its tables, with the frames that it names inside of it, up to
-- a depth.
abbrev pub IsBytecode : ℕ → List (Text × AsmFrame) → ℕ → Text → Bytecode → Type 0
IsBytecode zero frames startline name bc = ⊥
IsBytecode (suc depth) frames startline name bc =
    (frame : AsmFrame) × (cs : Constants) × (lookup name frames ≡ some frame)
    × (bc ≡ bytecode frame.stack_size frame.code frame.identifiers cs startline frame.lino)
    × Matches (IsBytecode depth frames 1) frame.constants cs

-- What linking the frame `name` is to give.
abbrev pub Linking : ℕ → List (Text × AsmFrame) → Text → ℕ → Type 0
Linking fuel frames name startline =
    (bc : Bytecode) × (convert_frames_to_bytecode fuel frames name startline ≡ ok (some bc))
    × IsBytecode fuel frames startline name bc

module _ (link : Text → Run (Option Bytecode)) (of : Text → Bytecode → Type 0) (rank : Text → ℕ)
    (frames : List (Text × AsmFrame)) (name : Text) where
  convert_code :
      (s : Text) (b : Bytecode)
      → link s ≡ ok (some b)
      → convert_asm_constant link (const_code s) ≡ ok (code b)
  unfolding convert_asm_constant code_constant
  convert_code s b run = rw run refl

  convert-Matches :
      (consts : List AsmConstant)
      → ((s : Text) (f : AsmFrame)
          → rank s < rank name
          → lookup s frames ≡ some f
          → (b : Bytecode) × (link s ≡ ok (some b)) × of s b)
      → All (IsLinked rank frames name) consts
      → (cs : Constants) × (convert_constants link consts ≡ ok cs) × Matches of consts cs
  unfolding convert_constants convert_asm_constant
  convert-Matches [] children h = (no_constants, refl, tt)
  convert-Matches (const_string s ∷ consts) children h =
      let (cs, rest, m) = convert-Matches consts children h.1 in
      (constant (string s) cs, rw rest refl, (refl, m))
  convert-Matches (const_regex s ∷ consts) children h =
      let (cs, rest, m) = convert-Matches consts children h.1 in
      (constant (regex s) cs, rw rest refl, (refl, m))
  convert-Matches (const_long l ∷ consts) children h =
      let (cs, rest, m) = convert-Matches consts children h.1 in
      (constant (numerical l) cs, rw rest refl, (refl, m))
  convert-Matches (const_code s ∷ consts) children ((lower, (f, e)), h) =
      let (b, run, child) = children s f lower e in
      let (cs, rest, m) = convert-Matches consts children h in
      (constant (code b) cs, rw (convert_code s b run) (rw rest refl), (child, m))

link_run :
    (fuel : ℕ) (frames : List (Text × AsmFrame)) (name : Text) (startline : ℕ) (frame : AsmFrame)
    (cs : Constants)
    → lookup name frames ≡ some frame
    → convert_constants (λ s. convert_frames_to_bytecode fuel frames s 1) frame.constants ≡ ok cs
    → convert_frames_to_bytecode (suc fuel) frames name startline
      ≡ ok (some (bytecode frame.stack_size frame.code frame.identifiers cs startline frame.lino))
unfolding convert_frames_to_bytecode
link_run fuel frames name startline frame cs e run = rw (e, convert_frames_to_bytecode) (rw run)

-- Where every code constant of a frame names a frame that is there and ranks lower, linking a frame
-- ends, by as many levels of recursion as its rank and one more: its bytecode has the code, the
-- identifiers and the lines of the frame, and its constants in their order, each of the same kind and
-- value, where a constant that names a frame is in turn a bytecode of that frame.
pub convert_frames_to_bytecode_lem :
    (rank : Text → ℕ) (frames : List (Text × AsmFrame)) (fuel : ℕ) (name : Text) (startline : ℕ)
    (frame : AsmFrame)
    → ((n : Text) (f : AsmFrame)
        → lookup n frames ≡ some f
        → All (IsLinked rank frames n) f.constants)
    → lookup name frames ≡ some frame
    → rank name < fuel
    → Linking fuel frames name startline
convert_frames_to_bytecode_lem rank frames zero name startline frame ranked e enough =
    absurd (omega arith)
convert_frames_to_bytecode_lem rank frames (suc fuel) name startline frame ranked e enough =
    let (cs, run, m) =
      convert-Matches (λ s. convert_frames_to_bytecode fuel frames s 1) (IsBytecode fuel frames 1)
        rank frames name frame.constants
        (λ s f lower at.
          convert_frames_to_bytecode_lem rank frames fuel s 1 f ranked at (omega arith))
        (ranked name frame e) in
    (_, link_run fuel frames name startline frame cs e run, (frame, cs, e, refl, m))
