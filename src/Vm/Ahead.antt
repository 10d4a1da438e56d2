-- ===== src/Vm/Ahead.antt =====
-- Reading the code of a frame, by the bytes ahead of its instruction pointer.
use saffire.Prelude.{ℕ, suc, ◌+◌, ◌*◌, ◌≡◌, ap, ◌∙◌, some, List, ◌∷◌, arith, ok, drop, get_elem?}
use saffire.Vm.{StackFrame}
use saffire.Vm.Frame.{vm_frame_get_next_opcode, vm_frame_get_operand}
use saffire.Vm.Frame.Stack.{drop_cons}

-- The bytes of the code from the instruction pointer on.
abbrev pub ahead : StackFrame → List ℕ
ahead f = drop f.ip f.codeframe.code

pub next_ahead :
    (f : StackFrame) (b : ℕ) (bs : List ℕ)
    → ahead f ≡ b ∷ bs
    → (get_elem? f.codeframe.code f.ip ≡ some b) × (ahead (record f { ip = f.ip + 1 }) ≡ bs)
next_ahead f b bs e =
    let (at, later, fits) = drop_cons f.ip f.codeframe.code b bs e in
    let next : f.ip + 1 ≡ suc f.ip = omega arith in
    (at, ap (λ n. drop n f.codeframe.code) next ∙ later)

pub opcode_ahead :
    (f : StackFrame) (b : ℕ) (bs : List ℕ)
    → ahead f ≡ b ∷ bs
    → vm_frame_get_next_opcode f ≡ (record f { ip = f.ip + 1 }, b)
unfolding vm_frame_get_next_opcode
opcode_ahead f b bs e = rw ((next_ahead f b bs e).0, vm_frame_get_next_opcode)

pub operand_ahead :
    (f : StackFrame) (low high : ℕ) (bs : List ℕ)
    → ahead f ≡ low ∷ (high ∷ bs)
    → vm_frame_get_operand f ≡ ok (record f { ip = f.ip + 2 }, low + 256 * high)
unfolding vm_frame_get_operand
operand_ahead f low high bs e =
    let (a, later) = next_ahead f low (high ∷ bs) e in
    let (b, rest) = next_ahead (record f { ip = f.ip + 1 }) high bs later in
    rw (a, vm_frame_get_operand) (rw b)

pub skip_ahead :
    (f : StackFrame) (low high : ℕ) (bs : List ℕ)
    → ahead f ≡ low ∷ (high ∷ bs)
    → ahead (record f { ip = f.ip + 2 }) ≡ bs
skip_ahead f low high bs e =
    let (a, later) = next_ahead f low (high ∷ bs) e in
    let (b, rest) = next_ahead (record f { ip = f.ip + 1 }) high bs later in
    let two : f.ip + 2 ≡ f.ip + 1 + 1 = omega arith in ap (λ n. drop n f.codeframe.code) two ∙ rest
