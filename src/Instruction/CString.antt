-- ===== src/Instruction/CString.antt =====
-- core/instruction/SystemInstruction.cpp, `readCStringFromMemory`: the loop ends at the first byte 0, so
-- that the fuel of the model is enough.
use riscv_sym.Base.{
  ℕ, zero, suc, ◌+◌, ◌^◌, ◌≤◌, ◌<◌, ◌≡◌, ◌≢◌, arith, refl, false, List, [], ◌∷◌, u32, ◌==◌,
}
use riscv_sym.State.{Machine, Memory, ok}
use riscv_sym.Memory.Physical.{ram_byte}
use riscv_sym.Memory.Word.{IsRam}
use riscv_sym.Memory.Bytes.{InMachineMode, read8-ram}
use riscv_sym.Instruction.Semihosting.{read_c_string, read_c_string_loop}

-- The `n` bytes of RAM from an address on.
abbrev pub bytes_at : ℕ → ℕ → Memory → List ℕ
bytes_at zero a mem = []
bytes_at (suc n) a mem = ram_byte a mem ∷ bytes_at n (a + 1) mem

-- RAM from `a` on holds `n` bytes other than 0, and then a 0.
pub record CString (n a : ℕ) (mem : Memory) : Type 0 where
  pub fits : a + n < 2 ^ 32
  pub ram : (k : ℕ) → k ≤ n → IsRam (a + k)
  pub not_zero : (k : ℕ) → k < n → ram_byte (a + k) mem ≢ 0
  pub end : ram_byte (a + n) mem ≡ 0

tail-CString : (n a : ℕ) (mem : Memory) → CString (suc n) a mem → CString n (a + 1) mem
tail-CString n a mem s =
    let shift : (k : ℕ) → a + suc k ≡ a + 1 + k = λ k. omega arith in
    record {
      fits = let f = s.fits in omega arith;
      ram = λ k le. rw (shift k) at (s.ram (suc k) (omega arith));
      not_zero = λ k lt. rw (shift k) at (s.not_zero (suc k) (omega arith));
      end = rw (shift n) at s.end;
    }

read_c_string_loop-CString :
    (fuel n a : ℕ) (m : Machine)
    → n < fuel
    → InMachineMode m
    → CString n a m.mem
    → read_c_string_loop fuel a m ≡ ok (bytes_at n a m.mem) m
unfolding read_c_string_loop
read_c_string_loop-CString zero n a m lt mode s = absurd (omega arith)
read_c_string_loop-CString (suc fuel) zero a m lt mode s =
    let here : a + 0 ≡ a = omega arith in
    let e : ram_byte a m.mem ≡ 0 = rw here at s.end in
    rw (read8-ram a m mode (rw here at (s.ram 0 (omega arith))), e) refl
read_c_string_loop-CString (suc fuel) (suc n) a m lt mode s =
    let here : a + 0 ≡ a = omega arith in
    let ne : ram_byte a m.mem ≢ 0 = rw here at (s.not_zero 0 (omega arith)) in
    let test : (ram_byte a m.mem == 0) ≡ false = ground arith in
    let next : u32 (a + 1) ≡ a + 1 = let f = s.fits in omega arith in
    rw
      (
        read8-ram a m mode (rw here at (s.ram 0 (omega arith))),
        test,
        next,
        read_c_string_loop-CString fuel n (a + 1) m (omega arith) mode (tail-CString n a m.mem s),
      )
      refl

-- In machine mode with MPRV clear, a string in RAM at an address other than 0 that ends before the
-- end of the addresses is read in full, without its 0: the loop ends within the fuel of the model,
-- and changes nothing.
pub read_c_string-CString :
    (n a : ℕ) (m : Machine)
    → a ≢ 0
    → InMachineMode m
    → CString n a m.mem
    → read_c_string a m ≡ ok (bytes_at n a m.mem) m
unfolding read_c_string
read_c_string-CString n a m ne mode s =
    let test : (a == 0) ≡ false = ground arith in
    let enough : n < 2 ^ 32 = let f = s.fits in omega arith in
    rw test (read_c_string_loop-CString (2 ^ 32) n a m enough mode s)
