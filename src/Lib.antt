-- ===== src/Lib.antt =====
-- b-jvm, a Java virtual machine in C (vm/): a verification library for the parts of it below.
--
-- The VM loads class files (vm/classfile.c), links them (vm/linkage.c, vm/vtable.c, vm/analysis.c
-- with vm/stackmaptable.c), and interprets or compiles their methods (vm/interpreter2.c,
-- vm/dumb_jit.c) on objects that a collector moves (vm/gc.c). One operating-system thread runs all
-- Java threads in turn (vm/roundrobin_scheduler.c); they exclude each other by the monitors of
-- objects (vm/monitors.c). Names are looked up in string hash tables (vm/adt.c).
--
-- Common: lists as C arrays, Boolean tests and words on the native numbers.
--
-- HashTable: vm/adt.c and vm/adt.h, `string_hash_table`. A table is the array of its slots, a
--   slot the linked list from the inline root on. A step that C leaves undefined is `none`.
--   HashTable has lookup, deletion and the end of the insertion; Hash the hash function; Grow the
--   iterator, rehashing, insertion and `free_hash_table`; Invariant says when a table is well
--   formed; the other files are proofs. `hash_table_insert_impl` and `hash_table_rehash` call one
--   another: the number that bounds how deep they do is 1 in `hash_table_insert`, and that is
--   enough, as a table of twice the capacity never grows while it is filled. A loop over the
--   iterator has as many rounds as the table has nodes. The load factor is a fraction, and its
--   product with a capacity is exact, as it is in C for 0.75 and every capacity below 2^51.
--
-- Descriptor: vm/classfile.c, `parse_field_descriptor` and `parse_method_descriptor`, with the
--   grammar of descriptors and its printer in Print. The loop over the arguments has the length
--   of the text as its bound, and every argument takes at least one character.
--
-- StackMap: vm/stackmaptable.c and vm/stackmaptable.h, the iterator over a StackMapTable, which
--   vm/analysis.c steps from one frame to the next. An access outside a buffer is an outcome of
--   its own, `fault`, beside the errors that the code reports. Encode writes frames by the format
--   of the class file.
--
-- Scheduler: vm/roundrobin_scheduler.c and .h, with the handles of vm/bjvm.c (`make_js_handle`)
--   that it gives out. A pointer to an object, a thread or a record is a number.
--   `call_interpreter` is a parameter, `interpret`: it takes a call as far as it gets, and may
--   change the scheduler's state. So is `raise`, for `raise_vm_exception`. The number in
--   `rr_scheduler_step` bounds how often it calls itself to pass over a thread without calls.
--   Roots passes the vector of the roots by value, as the code does: `arrput` of stb_ds is a
--   parameter that says whether the array stays where it is.
--
-- Monitor: vm/monitors.c, on the threads of Scheduler, which a release wakes. An asynchronous
--   function is a function for its start and one for its continuation after a yield. Owner states
--   the reentrant lock that a monitor stands for; Interleave runs sequences of operations, and
--   Exclusion has what one thread's operations do to a monitor that another holds.
--
-- Strings: vm/objects.c, the conversion of modified UTF-8 to characters, the two coders, and
--   interning over HashTable.
--
-- Layout: vm/linkage.c, the offsets that `link_class` gives to the fields of a class.
--
-- Handles: vm/bjvm.c, the handles that a thread makes for the arguments of a native method.
--
-- Classes: vm/linkage.c and vm/bjvm.c, the array of superclasses and the tests against it.
--
-- Gc: vm/gc.c, `major_gc` behind the enumeration of the roots, which are given: the mark phase (at
--   most one round for each object), the sort, the copying loop, and the relocation of roots,
--   monitors and fields by a binary search. The heap is the list of its objects; Compact adds the
--   memory as a function from addresses to bytes, and after it the objects stand in a list at
--   their new locations (Relocate). The flag IS_REACHABLE is kept with the object, not in the
--   bytes of its header or of its monitor, whichever of them the mark word lies in. The search has one round at most for each pointer of the
--   array; the sort has as many levels of recursion as pointers, and two rounds more than
--   pointers in the loop of a level. Graph says what a collection keeps; Whole puts the parts
--   together.
--
-- ClassFile: vm/classfile.c, the reader over the bytes of a class file, the constant pool, and
--   the instructions of a Code attribute. The constant pool is read in two passes over the same
--   bytes, the second of which links the entries to those of the first. A format error, from
--   which C leaves by `longjmp`, is a result. The switch of `parse_insn_impl` is a table, in
--   Opcodes and Locals, of what the case of each opcode reads, and Parse reads it. The loop over
--   the instructions has one round at most for each byte of the code. An instruction is its kind
--   with an operand; a pointer into the constant pool is an index, and numbers and floats are
--   their bits.
--
-- Wasm: vm/wasm/wasm_utils.c, the encoding of unsigned numbers, signed numbers (their 64 bits)
--   and strings. The loop of the first has one round for each byte of the array that it fills,
--   16, that of the second has 10, which 64 bits need.
--
-- Not modelled: memory management (the arenas, `malloc`, the enumeration of the roots
-- of vm/gc.c), the interpreter, the compilers to WebAssembly and the rest of
-- the module builder, the class loaders, the native methods under natives/, and the parts that
-- only print or talk to a debugger. Allocation does not fail except where a definition says so.
pub mod Common
pub mod HashTable
pub mod Descriptor
pub mod StackMap
pub mod Scheduler
pub mod Monitor
pub mod Strings
pub mod Wasm
pub mod Layout
pub mod Handles
pub mod Classes
pub mod Gc
pub mod ClassFile
