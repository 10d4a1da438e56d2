-- ===== src/Lib.antt =====
-- Saffire, a language with a compiler to bytecode and a virtual machine, all in C. A source file
-- is parsed to a tree, src/components/compiler/ast_to_asm.c turns it into assembler lines by
-- frame, src/components/compiler/output/asm.c assembles each frame,
-- src/components/compiler/bytecode/marshal.c writes and reads the bytecode, and src/components/vm
-- executes it.
--
-- The parts of the model:
-- - Prelude: numbers, lists, C strings, and `Run`, the outcomes of C code: a value, `fatal_error`,
--   undefined behaviour, or a loop out of fuel.
-- - Bytecode: `struct _bytecode` of src/include/compiler/bytecode.h. Bytecode/Marshal and
--   Bytecode/Unmarshal are `bytecode_marshal` and `bytecode_unmarshal` of
--   src/components/compiler/bytecode/marshal.c with their buffers; Bytecode/Image is the binary
--   form, and Bytecode/RoundTrip reads it back. Bytecode/Link is `convert_frames_to_bytecode`,
--   which links assembled frames; Bytecode/Assembler is `assembler` of
--   src/components/compiler/output/asm.c, from the lines of all frames to the bytecode. The source
--   filename is left out.
-- - Asm: src/components/compiler/output/asm.c. Asm is the input, from
--   src/include/compiler/output/asm.h; Asm/Frame the code and the tables of a frame; Asm/Assemble
--   `assemble_frame` and `_backpatch_labels`. Asm/Reference is the two-pass reading of the same
--   lines; Asm/Tables, Asm/Operands, Asm/FirstPass, Asm/SecondPass and Asm/TwoPass compare the
--   two, Asm/FirstOutcome, Asm/SecondOutcome and Asm/Outcomes say how assembling ends,
--   Asm/Interning and Asm/Held are about the tables.
-- - Vm: src/components/vm. Vm is `t_vm_stackframe` with its code, and the objects as far as the
--   control flow tells them apart. Vm/Frame is stackframe.c (fetching, the variable stack,
--   constants and names), Vm/Identifiers its identifiers, in the hash tables that frames share,
--   Vm/Block is block.c. Of vm.c, Vm/Unwind is `unwind_blocks`, Vm/LineNumber `getlineno`,
--   Vm/Execute the opcodes and Vm/Dispatch the switch and the loop of `_vm_execute`. The modules
--   below Vm/Frame and Vm/Unwind, and Vm/Scopes, Vm/Imports, Vm/Invariant, Vm/RoundTrip, Vm/Try,
--   Vm/Uncaught, Vm/LoopExit, Vm/Jump, Vm/Deltas, Vm/Decode (with Vm/Ahead and Vm/Masks) and
--   Vm/JumpLabel hold what is shown of them, the last four against the assembler.
-- - Dll: src/components/general/dll.c and src/components/general/stack.c, which the compiler and
--   the VM keep their sequences in. Dll is the heap of elements, Dll/Operations the operations;
--   Dll/Nodes is about linked segments, Dll/Lists, Dll/Pop and Dll/Stack about the sequence that a
--   list represents.
-- - HashTable: src/components/general/hashtable.c with its hash functions. HashTable is
--   `t_hash_table` with the heap of its buckets, HashTable/Functions the hashes and the keys of
--   src/components/general/hash/hash_funcs.c, HashTable/Chained the operations of
--   src/components/general/hash/chained.c, HashTable/Operations the wrappers and iterators.
--   HashTable/Entries, HashTable/Appending and HashTable/Erasing are about the entries in their
--   order, HashTable/Holds says when a table holds them; HashTable/Add, HashTable/Remove,
--   HashTable/Resize, HashTable/Copy, HashTable/Iterate, HashTable/Load, HashTable/Objects and
--   HashTable/Lifetime are about one operation each, HashTable/Laws about the table as a map,
--   HashTable/Hashes about the hash functions. The links of the buckets are sequences of
--   addresses; two tables that share their buckets until one of them writes are not related. The
--   factors are fractions: the floats of the program give the same for the default factors while
--   there are fewer than 2 ^ 21 buckets. Where the program reads the link of a bucket, the model
--   reads the bucket.
-- - Compiler: src/components/compiler/ast_to_asm.c. Compiler is its input, the tree of
--   src/include/compiler/ast_nodes.h in the shapes that the grammar builds; Compiler/State is
--   `t_state` and the steps that push, walk and pop, Compiler/Names the texts and their numbers.
--   Compiler/Walk is `__ast_walker`, one clause for each case of its switch: the cases are in
--   Compiler/Simple, Compiler/Branches (with jumps) and Compiler/Classes (with `_ast_to_frame`).
--   Compiler/Moves, Compiler/BlockMoves, Compiler/Effects, Compiler/JumpEffects,
--   Compiler/ClassEffects, Compiler/SwitchCount and Compiler/Stacks are about the stacks and the
--   blocks of the state. Compiler/Numbers reads the number and the suffix of a label back,
--   Compiler/Hits counts labels and Compiler/Bands those of the clauses of a switch or a try;
--   Compiler/Uses, Compiler/Opens, Compiler/Steps, Compiler/SimpleLabels, Compiler/ClassLabels,
--   Compiler/JumpLabels, Compiler/Clauses and Compiler/Labels are about the labels that a frame
--   uses and places and the frames that it names, Compiler/CodeConstants about the constants it is
--   assembled to, Compiler/Ranks about the order of the frames. Compiler/MissingLabels and
--   Compiler/Assembles put the assembler of a frame behind it, Compiler/Pipeline the one of the
--   program. Nodes that the grammar does not build are left out; one that the walker has no case
--   for is a fatal error, and a number that it reads as a pointer is undefined. Loop numbers stay
--   below 2 ^ 31. A frame goes behind the others also when its name is taken, which no frame of
--   the grammar is, since classes do not stand in methods.
-- - Parser: the checks of src/components/compiler/parser_helpers.c. Parser is `t_parserinfo` and
--   the checks of loops, switches and methods, Parser/Modifiers those of modifiers, Parser/Classes
--   those of classes, constants and stores. Parser/Statements runs them over a statement as the
--   rules of src/components/compiler/saffire.y do. Parser/Errors and Parser/Nesting, and
--   Parser/Flags, say what is taken.
-- - Context: the class paths of src/components/vm/context.c, taken apart and made absolute;
--   Context/Strip relates the two.
--
-- Integers are natural numbers. An `int` or `long` of the program that may be negative is its bit
-- pattern, with the wrap-around written out: the conversions to bytes, the 16-bit operands, the
-- subtraction for a relative jump and the unsigned stack pointer. Instruction pointers stay below
-- the length of the code, an `int`, plus three operands, and do not wrap; one that is taken off
-- the stack is cut to 32 bits. The offsets of a binary form are `int`s, which do not overflow
-- below 2 ^ 31 bytes. The machine is little-endian with a `long` of 64 bits. Allocation does not
-- fail. Memory is freed in Dll and HashTable only.
--
-- Fuel: `bytecode_unmarshal` has one unit for each level of code constants; the depth to which a
-- bytecode nests them is enough for its binary form. `unwind_blocks` has one unit for each round;
-- for an exception one more than the blocks of the frame is enough. `delta_bytes` has one more
-- than the delta. `convert_frames_to_bytecode` has one for each level of frames that name each
-- other, and `assembler` passes it on: as many as there are frames are enough for a program that
-- is compiled. Iterating a table has one more than its entries. Printing n has n + 1 for its
-- digits.
--
-- Not modelled: opcodes that call objects, reach identifiers or build classes and tuples lead
-- outside of the model; reference counts; the assembler's table of constants is a list here; the
-- trees that the parser builds; the listing that asm.c prints; the bytecode files, base64, ini
-- files, the objects, the garbage collector, files, threads, the debugger, fastcgi and the command
-- line.
pub mod Prelude
pub mod Bytecode
pub mod Asm
pub mod Vm
pub mod Dll
pub mod HashTable
pub mod Compiler
pub mod Parser
pub mod Context
