-- ===== src/Vm/LineNumber.antt =====
-- `getlineno` of src/components/vm/vm.c.
use saffire.Prelude.{
  ℕ, ◌+◌, ◌%◌, ◌&&◌, not, none, some, Run, ok, undefined, ◌>>=◌, length, get_elem?, leb, ◌==◌,
  if◌then◌else◌,
}
use saffire.Vm.{StackFrame}

-- The `do … while (i > 127)` loops: `i` is masked by 127, so they make one round.
unfoldable pub read_delta : StackFrame → Run (StackFrame × ℕ)
read_delta frame = elim (get_elem? frame.codeframe.lino frame.lineno_current_lino_offset) [
  | none ↦ undefined
  | some i ↦
      ok (
        record frame { lineno_current_lino_offset = frame.lineno_current_lino_offset + 1 },
        i % 128,
      )
]

unfoldable pub getlineno : StackFrame → Run (StackFrame × ℕ)
getlineno frame =
    if not (frame.ip == 0)
      && (leb frame.lineno_lowerbound frame.ip && leb frame.ip frame.lineno_upperbound)
    then ok (frame, frame.lineno_current_line)
    else if leb (length frame.codeframe.lino) frame.lineno_current_lino_offset
    then ok (frame, frame.lineno_current_line)
    else do
      (f₁, delta_line) ← read_delta frame
      (f₂, delta_lino) ← read_delta f₁
      let line = frame.lineno_current_line + delta_line
      ok (
        record f₂ {
          lineno_lowerbound = frame.lineno_upperbound;
          lineno_upperbound = frame.lineno_upperbound + delta_lino;
          lineno_current_line = line;
        },
        line,
      )
