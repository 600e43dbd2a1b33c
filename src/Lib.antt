-- ===== src/Lib.antt =====
-- A model of the RISC-V simulator's core (src/core), with its correctness properties.
--
-- The program is an RV32IMAC simulator with machine, supervisor and user mode. `RiscvCpu` holds the
-- registers and runs the loop: fetch through `Memory`, expand a compressed instruction, dispatch by
-- opcode, then the clock, the pending interrupts and traps. `Memory` is paged RAM with Sv32
-- translation and the devices behind fixed addresses; `CsrUnit` is the array of control and status
-- registers. `AssemblyCompiler` turns text into the same encodings.
--
-- The files, with the paths of the source as they stand below src/ of the repository:
--   Base         shared names, Boolean tests, machine words as natural numbers with their wrap-around
--                written out, bits of words, arrays as lists, the integers behind int32_t
--   State        the records of the state (core/include/core/*.h), and commands: functions from a
--                machine to an outcome, which keeps the state also when an exception leaves
--   Csr          core/CsrUnit.cpp; Csr.Address has the addresses and masks, Csr.Laws the validity of
--                the registers under writes, Csr.Views the views sstatus and sie and the access check
--   Cpu          core/RiscvCpu.cpp without the loop: registers, traps, returns, the reservation
--   Memory       core/Memory.cpp: Pages and Access (RAM, sized loads and stores), Spi (SD card), Uart,
--                Mmio (dispatch by address), Physical (reads of the page walk), Translate (Sv32); the
--                proofs are in Ram, Word, Bytes, Image,
--                Crossing, Block, Driver, WriteBlock, Sv32 and Sv32.Fault
--   Instruction  core/instruction: Decode (fields), Description (the numbers of the dispatch), RType, Atomic,
--                IType, Load, SType, BType, JType, UType, System, Semihosting, CType (compressed), Execute (dispatch);
--                CString has the reading of a text
--   Run          the loop of `RiscvCpu::executeFromBinFile`, one round and many; Run.File (the kernel,
--                the disk image and the calls of cli/main.cpp) and Run.Command (one line of assembly);
--                the proofs are in Interrupt, Image, Mode, Types, Taken and Escapes
--   Range        the C++ types of the members as bounds (Defs), and that the devices (Members, Card,
--                Devices), the RAM (Ram), the CSRs and traps (Traps) and the results of the instructions
--                (Words) stay inside them, and the register numbers of an encoded instruction (Fields)
--   Invariant    0 in x0 together with a predicate on the mode and the CSRs and, where it is asked for,
--                the types of Range, under every instruction and every round, by a lemma per instruction,
--                and under the loading of a file (File);
--                Interface is what such an invariant is asked for, Safe what a command has to show,
--                the exceptions that may leave it included. Zero
--                has the one that asks for nothing more, Run.Mode the one on the mode, Run.Types the
--                one on the types
--   Assembler    core/AssemblyCompiler.cpp: the encoders, Text (texts as lists of bytes, and stoul,
--                stol and stoi), Line (`AssemblyInstruction`), Attempt (what an assembling function
--                ends with), Register, RType, Immediate and System (the assembling functions) and
--                Compile (the table of instructions); Fields, Jumps and Upper have the encoders against
--                the decoder, Ensures, Encoded, Sound and Words what any text can give; Print, RegisterName,
--                Decimal, Mnemonic, Meaning, ImmediateMnemonic and ImmediateMeaning what a printed
--                line means
--   Examples     the theorems at concrete inputs
--
-- An array or map is a function, with an update; the disk is a list. A name of the source in
-- camelCase is the same name in snake_case. The static locals `clock_count` of `handleMMIO` and the
-- count of logs of `setSATP`, which have effects, are fields of `Memory`. Standard input is a list of
-- bytes, standard output a list with the last byte first, and what the keyboard has at a poll is an
-- argument.
--
-- The loop of `executeFromBinFile` has no end of its own: `Run.run` takes the number of rounds, and
-- ends with `next` when the program still runs. `readCStringFromMemory` reads until a byte 0; the model
-- gives it 2 ^ 32 bytes, which is every address.
--
-- What C++ leaves undefined ends the loop: a shift of 32 or more at once, and, before the next round,
-- the overflow of the int index of the loop and the checksum of a block that is read behind the disk,
-- which the field `undefined_read` of `Memory` notes.
--
-- A `long` has 64 bits, as on Linux and macOS; a file is the list of its bytes, or `none` where its
-- path cannot be opened.
--
-- Not modelled: logs, what an executed instruction leaves in `InstructionOutput` (its log and the lists of
-- changed registers and memory cells), the parsing of the command line and the settings of the
-- terminal (cli), and the user interface (gui).
pub mod Base
pub mod State
pub mod Csr
pub mod Cpu
pub mod Memory
pub mod Instruction
pub mod Run
pub mod Range
pub mod Invariant
pub mod Zero
pub mod Assembler
pub mod Examples
