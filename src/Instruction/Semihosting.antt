-- ===== src/Instruction/Semihosting.antt =====
-- core/instruction/SystemInstruction.cpp: the semihosting calls behind EBREAK. Standard output is
-- the field `console`, standard input the field `stdin`, whose end is EOF.
use riscv_sym.Base.{
  ℕ, zero, suc, ◌+◌, ◌^◌, ◌==◌, ltb, if◌then◌else◌, Bool, true, false, Option, none, some, List, [],
  ◌∷◌, u8, u32, ◌&&◌, ◌||◌, sub32,
}
use riscv_sym.State.{Machine, M, pure, throw, out_of_fuel, ok, ◌>>=◌, ◌>>◌, gets, modify}
use riscv_sym.Cpu.{get_register, set_register, set_pc}
use riscv_sym.Memory.Access.{read8, read32, write8}

abbrev pub minus_one : ℕ
minus_one = 0xffff_ffff

-- The marker instructions around an EBREAK.
unfoldable pub is_semihosting_trap : ℕ → M Bool
is_semihosting_trap pc = if ltb pc 4 then pure false else (do
  previous_insn ← read32 (sub32 pc 4) true
  next_insn ← read32 (u32 (pc + 4)) true
  pure (previous_insn == 0x01f0_1013 && next_insn == 0x4070_5013))

-- The loop of `readCStringFromMemory` with fuel; it has no bound of its own.
unfoldable pub read_c_string_loop : ℕ → ℕ → M (List ℕ)
read_c_string_loop zero address = throw out_of_fuel
read_c_string_loop (suc fuel) address = do
  byte ← read8 address
  let rest = read_c_string_loop fuel (u32 (address + 1))
  if byte == 0 then pure [] else (do bytes ← rest; pure (byte ∷ bytes))

unfoldable pub read_c_string : ℕ → M (List ℕ)
read_c_string address = if address == 0 then pure [] else read_c_string_loop (2 ^ 32) address

-- The loop of SYSWRITE that collects the payload, with the bytes left.
unfoldable pub read_payload : ℕ → ℕ → M (List ℕ)
read_payload zero address = pure []
read_payload (suc left) address = do
  byte ← read8 address
  bytes ← read_payload left (u32 (address + 1))
  pure (byte ∷ bytes)

abbrev append_reverse : List ℕ → List ℕ → List ℕ
append_reverse [] out = out
append_reverse (b ∷ bs) out = append_reverse bs (b ∷ out)

abbrev print : List ℕ → Machine → Machine
print bytes m = record m { mem = record (m.mem) { console = append_reverse bytes m.mem.console } }

-- `fgetc(stdin)`.
unfoldable pub fgetc : M (Option ℕ)
fgetc m = elim (m.mem.stdin) [
  | [] ↦ ok none m
  | c ∷ rest ↦ ok (some c) (record m { mem = record (m.mem) { stdin = rest } })
]

-- `path == ":tt"`.
abbrev is_tt : List ℕ → Bool
is_tt (a ∷ b ∷ c ∷ []) = a == b':' && (b == b't' && c == b't')
is_tt _ = false

unfoldable pub sysopen : ℕ → M ℕ
sysopen arg = do
  fname_addr ← read32 arg false
  mode ← read32 (u32 (arg + 4)) false
  path ← read_c_string fname_addr
  pure (if is_tt path then (if mode == 4 then 1 else 0) else minus_one)

unfoldable pub syswritec : ℕ → M ℕ
syswritec arg = if arg == 0 then pure 1 else (do ch ← read8 arg; modify (print (ch ∷ [])); pure 1)

-- What SYSWRITE and SYSREAD have in common: the arguments behind `arg`, the file aside.
unfoldable pub with_buffer : ℕ → (ℕ → ℕ → M ℕ) → M ℕ
with_buffer arg body = do
  fd ← read32 arg false
  data_addr ← read32 (u32 (arg + 4)) false
  len ← read32 (u32 (arg + 8)) false
  if data_addr == 0 || len == 0 then pure 0 else body data_addr len

unfoldable pub syswrite : ℕ → M ℕ
unfolding with_buffer
syswrite arg =
    with_buffer arg
      (λ data_addr len. (do payload ← read_payload len data_addr; modify (print payload); pure 0))

unfoldable pub store_char : ℕ → Option ℕ → M ℕ
store_char data_addr none = pure minus_one
store_char data_addr (some ch) = do write8 data_addr (u8 ch); pure 0

unfoldable pub sysread : ℕ → M ℕ
unfolding with_buffer
sysread arg = with_buffer arg (λ data_addr len. (do ch ← fgetc; store_char data_addr ch))

abbrev pub char_or_eof : Option ℕ → ℕ
char_or_eof none = minus_one
char_or_eof (some ch) = ch

unfoldable pub sysreadc : M ℕ
sysreadc = do ch ← fgetc; pure (char_or_eof ch)

-- The `switch` on the call's number.
unfoldable pub semihosting_result : ℕ → ℕ → M ℕ
semihosting_result sysnum arg =
    if sysnum == 1
    then (if arg == 0 then pure minus_one else sysopen arg)
    else if sysnum == 3
    then syswritec arg
    else if sysnum == 5
    then (if arg == 0 then pure minus_one else syswrite arg)
    else if sysnum == 6
    then (if arg == 0 then pure minus_one else sysread arg)
    else if sysnum == 7
    then sysreadc
    else pure 0

unfoldable pub handle_semihosting_trap : M Bool
handle_semihosting_trap = do
  pc ← gets (λ m. m.pc)
  sysnum ← get_register 10
  arg ← get_register 11
  ret ← semihosting_result sysnum arg
  set_register 10 ret
  modify (set_pc (u32 (pc + 4)))
  pure true
