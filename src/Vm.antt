-- ===== src/Vm.antt =====
-- The virtual machine of src/components/vm: its objects and frames, with the parts below. Reference
-- counts are not modelled: an object lives as long as a slot names it.
pub mod Frame
pub mod Block
pub mod Identifiers
pub mod Scopes
pub mod Imports
pub mod Unwind
pub mod LineNumber
pub mod Execute
pub mod Dispatch
pub mod Invariant
pub mod RoundTrip
pub mod Try
pub mod Uncaught
pub mod Jump
pub mod Deltas
pub mod LoopExit
pub mod Ahead
pub mod Masks
pub mod Decode
pub mod JumpLabel
mod Tests
mod ScopeTests
mod CodeTests
use saffire.Prelude.{ℕ, Bool, Option, List, Text}

-- What the control flow of the VM tells apart of a `t_object`. `numerical` holds the 64-bit pattern
-- of its `long`; `attrib o` is an attribute object whose data are `o`; `other` is any further
-- object, by its identity.
pub data Object : Type 0 where
  numerical : ℕ → Object
  boolean : Bool → Object
  exception : ℕ → Object
  attrib : Object → Object
  other : ℕ → Object

-- A `t_object *`, `none` for `NULL`.
abbrev pub ObjectPtr : Type 0
ObjectPtr = Option Object

-- The `handlers` of a `t_vm_frameblock`, by its type.
pub data Handlers : Type 0 where
  loop : (ip ip_else : ℕ) → Handlers
  exceptions : (ip_catch ip_finally ip_end_finally : ℕ) → Handlers

-- `t_vm_frameblock`
pub record FrameBlock : Type 0 where
  pub handlers : Handlers
  pub sp : ℕ
  pub visited : ℕ

-- The bytecode of a frame, with its constants as objects and its identifiers.
pub record CodeFrame : Type 0 where
  pub stack_size : ℕ
  pub code : List ℕ
  pub constants_objects : List Object
  pub identifiers : List Text
  pub lino : List ℕ

-- `t_vm_stackframe`. Of the array of blocks only those in use are kept, the innermost first;
-- `block_cnt` is their number.
pub record StackFrame : Type 0 where
  pub codeframe : CodeFrame
  pub ip : ℕ
  pub lineno_lowerbound : ℕ
  pub lineno_upperbound : ℕ
  pub lineno_current_line : ℕ
  pub lineno_current_lino_offset : ℕ
  pub stack : List ObjectPtr
  pub sp : ℕ
  pub blocks : List FrameBlock
