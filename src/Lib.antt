-- ===== src/Lib.antt =====
-- ROUGE-V runs CUDA programs without a CUDA device. A parser and a reference interpreter of PTX
-- (software/rouge-ptx) are what the CUDA layer (software/rouge-cuda) launches kernels on; an
-- ahead-of-time translator (software/rouge-compiler), numerics and a renderer stand beside them.
-- This library models the deterministic core of the interpreter, the parser of PTX, the
-- occupancy calculator, the driver API, the runtime API and the walk over fat binaries.
--
-- Base: shared names, Boolean tests, lists by native numbers (Base/Lists), signed integers
-- (Base/Int), the laws of bit operations (Base/Bits), order and division (Base/Arith), and the
-- evaluation of a test on all numbers below a bound (Base/Table), names (Base/Text), texts by
-- their characters (Base/Chars), association lists (Base/Assoc) and memory (Base/Bytes).
--
-- Occupancy: software/rouge-cuda/src/occupancy.cpp. A kernel is its KernelStats; the functions
-- occ_active_blocks, occ_potential_block_size and occ_available_dynamic_smem keep their names.
-- An `int` that cannot be negative is a number; the cast of the shared memory to `int` is written
-- out. The search for a block size is a recursion on the number of sizes left.
--
--   Occupancy/Liveness is max_live_regs, with the names of the registers in place of their numbers
--   and functions in place of the arrays of bits, and kernel_stats; its loop has the 100000 rounds
--   of the source, which are enough where the bits are fewer. What the memory holds behind the
--   rows, which a branch to the end of the body makes it read, is a parameter, in a Context.
--
-- Driver: software/rouge-cuda/src/driver_api.cpp and rouge_internal.h. A Context is the tables of
-- the layer, the current context and the memory of the process; a call is a function on it that
-- gives a Reply. What malloc, new, the PTX parser, the interpreter and the host answer is a Host.
-- Driver/Alloc has the memory calls, Driver/Modules the modules and their globals, Driver/Launch
-- cuLaunchKernel, Driver/Device the queries, streams and occupancy calls, and Driver/Calls all of
-- them as one type with the forwarding to a real library that is loaded.
--
-- Runtime: software/rouge-cuda/src/runtime_api.cpp and runtime_register.cpp. A State is the tables
-- of the runtime in front of the driver's Context; a call is a function on it. What stands around
-- it, with the driver's own Host, is a World. Runtime/Memory has the memory calls and the last
-- error, Runtime/Device the queries, Runtime/Register the stubs, the modules and the stack of
-- configurations, Runtime/Launch launch_registered, and Runtime/Calls all calls as one type with
-- the theorems on their histories. The loading of fat binaries goes through Fatbin, whose texts go
-- through the parser of the Host.
--
-- Fatbin: software/rouge-cuda/src/fatbin.cpp. Memory is the byte of each address and a size_t sum
-- is taken modulo 2 ^ 64. decompress_zstd is a parameter. The loop has as much fuel as entry
-- headers of 64 bytes fit below its limit, and one more round to end.
--
-- Ptx: software/rouge-ptx/ptx.cpp.
--   Ptx/Words: the integer helpers (width_mask to clz64) on words as numbers.
--   Ptx/Half, Ptx/Narrow: the conversions between binary32 and the smaller formats. A `float` is
--     its bit pattern, since this code moves bits only. The loop that normalises a subnormal
--     number runs on as much fuel as the mantissa has bits, which is enough: one shift more would
--     move its first set bit past the place that ends the loop.
--   Ptx/Alu: the integer logic, shifts, multiplication, division, min/max and bfe of run_thread_step,
--     as functions of the operands to the value stored; a mnemonic is its operation and its type.
--   Ptx/Program: the data of ptx.h. Ptx/Params: the parameters of a signature.
--   Ptx/Layout: parse_shared_decl and parse_local_decl, from the tokens of a declaration on. An
--     `int` is its pattern of 32 bits and wraps around, where C++ leaves an overflow undefined.
--   Ptx/Parse: parse_ptx on the characters of a text: instructions and labels, in
--     Ptx/Parse/Declarations the declarations, which become the tokens of Ptx/Layout, and in
--     Ptx/Parse/Module the loop over the lines. Loops that take characters away have the text as
--     their fuel. A result is a program, the refusal, or the exception of substr.
--   Ptx/Execute: execute_kernel. One instruction, `run_thread_step`, is a parameter, a function
--     from a thread's index and the block to a result and the next block; the theorems hold for
--     every such function. The loop of rounds has the cap on steps plus one as its fuel, since a
--     round that does not end the loop makes a step. Ptx/Execute/Launch runs the blocks of a grid.
--
-- Not modelled: floating-point arithmetic, which the host computes; LLVM, MLIR, dlopen, mmap and
-- the other services of the host; the numerics and the renderer, which are loops over that
-- arithmetic; the texts of messages; the unpacking of fat binaries and the library lookup.
pub mod Base
pub mod Driver
pub mod Fatbin
pub mod Occupancy
pub mod Ptx
pub mod Runtime
