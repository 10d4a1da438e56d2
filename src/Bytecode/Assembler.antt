-- ===== src/Bytecode/Assembler.antt =====
-- `assembler` of src/components/compiler/output/asm.c. The hash tables from names to frames are lists
-- in the order in which they are iterated.
use saffire.Prelude.{ℕ, Option, none, some, List, [], ◌∷◌, Text, text_eq, Run, ok, undefined, ◌>>=◌}
use saffire.Asm.{Line}
use saffire.Asm.Frame.{AsmFrame}
use saffire.Asm.Assemble.{assemble_frame}
use saffire.Bytecode.{Bytecode}
use saffire.Bytecode.Link.{convert_frames_to_bytecode}

abbrev pub main_key : Text
main_key = b'm' ∷ b'a' ∷ b'i' ∷ b'n' ∷ []

-- The loop over the frames.
unfoldable pub assemble_frames : List (Text × List Line) → Run (List (Text × AsmFrame))
assemble_frames [] = ok []
assemble_frames ((key, frame) ∷ asm_code) = do
  assembled_frame ← assemble_frame frame (text_eq key main_key)
  assembled_frames ← assemble_frames asm_code
  ok ((key, assembled_frame) ∷ assembled_frames)

-- The source filename is written to the bytecode, through `NULL` where there is no main frame.
unfoldable pub named_bytecode : Option Bytecode → Run Bytecode
named_bytecode none = undefined
named_bytecode (some bc) = ok bc

unfoldable pub assembler : ℕ → List (Text × List Line) → Run Bytecode
assembler fuel asm_code = do
  assembled_frames ← assemble_frames asm_code
  bc ← convert_frames_to_bytecode fuel assembled_frames main_key 1
  named_bytecode bc
