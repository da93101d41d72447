-- ===== src/Lib.antt =====
-- The native core of chromatic (src/core): code hooks, breakpoints, memory access, pattern scanning
-- and disassembly for a script that runs inside another program.
--
-- The program and this library. A class of src/core/bindings is a module here, its operations have
-- the names of its methods in snake_case, and its file-level variables are the fields of a record
-- that the operations take and return. An operation that throws returns `thrown`, with the state
-- that it leaves.
-- - Hex: `toHexAddr` and `parseHexAddr`, of which every file of src/core/bindings has a copy, and
--   the reading of numbers in base 16 by the standard library.
-- - Memory: bytes by address, shared by all. A read or write of unmapped memory ends the program
--   and is outside the model, except in NativeMemory's guarded read.
-- - Scan: `parsePattern` and `bmhScan` of native_memory.cc; NativeMemory: the rest of that file.
-- - Pointer: native_pointer.cc.
-- - Disassembler: native_disassembler.cc. Capstone is a parameter, a function `Disasm` from memory,
--   an address, a number of bytes and a number of instructions to instructions.
-- - Relocator: internal/code_relocator.cc. The assembler's calls are a list of `Emit`, the live
--   blocks of the JIT runtime are a map, and `Host` holds Capstone, `JitRuntime::add` and `mprotect`.
--   Relocator/Execution runs the instructions of a trampoline on a stack of words.
-- - Callbacks: what the dispatch functions do with a callback that returns or throws.
-- - Interceptor: native_interceptor.cc; Breakpoint: native_breakpoint.cc. Both save the bytes that
--   they overwrite; Patches holds what is common to such tables.
-- - HardwareBreakpoint: native_hw_breakpoint.cc on Linux, with PerfEvents for `perf_event_open`;
--   DebugRegisters: the same file on Windows and macOS, with the registers of each thread.
--   DebugRegisters/Breakpoints holds `set`, `remove` and `removeAll`, DebugRegisters/Hits the handler.
-- - AccessMonitor: native_memory_access_monitor.cc. WatchedPages holds its ranges and the calls of
--   `mprotect`, PendingRing the ring between the fault handler and `drainPending`.
-- - Process: the modules and ranges of native_process.cc, from lines that `sscanf` has read;
--   ElfExports: its `enumerateExports`.
-- - Console: console.cc. EmbeddedConfig: src/injectee/config.cc, with the LZMA decoder and the JSON
--   reader as arguments.
-- - Signals: the dispositions of the process; Exceptions: native_exception_handler.cc.
-- - ScriptLifecycle: script_lifecycle.cc. Runtime: src/core/script.cc, whose `cleanup` and `reset`
--   call all of the above on one machine and one exception registry; the engine is an argument.
-- - Injectee: src/injectee/injectee.cc. Injectee/Threads holds the threads and what they share.
-- - CModule: native_cmodule.cc, with TCC as an argument. Ffi: native_ffi.cc, with libffi and the
--   conversions of floating-point numbers as arguments; Decimal holds those of integers.
-- - Base holds the shared names and lemmas; Tests holds tests and the theorems at concrete inputs.
--
-- Choices. The platform is x86-64 Linux, with 64-bit addresses that wrap round where the code
-- adds to them. Every public operation holds its mutex to the end and is one step; the signal
-- handlers run between steps. A `std::unordered_map` is an association list whose order is the
-- order of iteration, and theorems hold for every order; those on DebugRegisters take the two
-- maps to have the same one. An allocation of an entry gives a new address. Reading and writing
-- the debug registers of the calling thread succeeds. A callback is a number, and what it does is
-- a parameter.
--
-- Fuel. `bmhScan` has one round more than the buffer has bytes, since every round moves on by one at
-- least; `findXrefs` has one more than the range has bytes; the relocating loop has one more than
-- the bytes wanted; `drainPending` has as many rounds as the write index is ahead of the read index;
-- decompression has one round more than the chunks that 300 MB hold. The walks through an ELF file
-- take the fuel as an argument. `out_of_fuel` and `none` stand for a loop that would need more.
--
-- Not modelled: ARM64, the vector registers that a trampoline does not save, and the macOS and
-- Windows branches but for the hardware breakpoints, floating-point accesses, texts printed by
-- Capstone, `mmap` and `munmap`, `findExportByName`, what the libraries libffi, TCC and breeze-js
-- do, the generated bindings and the TypeScript layer.
pub mod AccessMonitor
pub mod Base
pub mod Breakpoint
pub mod CModule
pub mod Callbacks
pub mod Console
pub mod DebugRegisters
pub mod Decimal
pub mod Disassembler
pub mod ElfExports
pub mod EmbeddedConfig
pub mod Exceptions
pub mod Ffi
pub mod HardwareBreakpoint
pub mod Hex
pub mod Injectee
pub mod Interceptor
pub mod Memory
pub mod NativeMemory
pub mod Patches
pub mod PendingRing
pub mod PerfEvents
pub mod Pointer
pub mod Process
pub mod Relocator
pub mod Runtime
pub mod Scan
pub mod ScriptLifecycle
pub mod Signals
pub mod Tests
pub mod WatchedPages
