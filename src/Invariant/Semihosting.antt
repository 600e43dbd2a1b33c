-- ===== src/Invariant/Semihosting.antt =====
-- The semihosting calls keep an invariant.
use riscv_sym.Invariant.Interface.{Invariant}
use riscv_sym.Base.{
  ℕ, zero, suc, ◌+◌, ◌^◌, ◌==◌, ltb, true, false, arith, u8, u32, sub32, ◌||◌, Option, none, some,
  List, [], ◌∷◌,
}
use riscv_sym.State.{Machine, M, ok}
use riscv_sym.Instruction.Semihosting.{
  is_semihosting_trap, read_c_string, read_c_string_loop, read_payload, fgetc, sysopen, syswritec,
  with_buffer, syswrite, store_char, sysread, sysreadc, semihosting_result, handle_semihosting_trap,
  char_or_eof,
}
use riscv_sym.Range.Defs.{Bytes}
use riscv_sym.Range.Members.{streams-InRange}
use riscv_sym.Invariant.Safe.{
  Holds, Word, Any, Safe, done, thrown, Keeps, memory-Holds, jump-Holds, and_then-Keeps, if-Keeps,
  get_register-Keeps, set_register-Keeps,
}
use riscv_sym.Invariant.Commands.{Byte, u32-Word, read8-Keeps, read32-Keeps, write8-Keeps}

module _ ⦃inv : Invariant⦄ where
  pub is_semihosting_trap-Keeps : (pc : ℕ) → Keeps Any (is_semihosting_trap pc)
  unfolding is_semihosting_trap
  is_semihosting_trap-Keeps pc =
      if-Keeps (ltb pc 4) _ _ (λ m h. done tt h)
        (λ m h.
          and_then-Keeps _ (read32-Keeps (sub32 pc 4) true (λ t. omega arith) m h) (λ x hx m h.
            and_then-Keeps _ (read32-Keeps (u32 (pc + 4)) true (u32-Word _) m h)
              (λ y hy m h. done tt h)))

  read_c_string_loop-Keeps : (fuel a : ℕ) → Word a → Keeps Any (read_c_string_loop fuel a)
  unfolding read_c_string_loop
  read_c_string_loop-Keeps zero a ha m h = thrown tt h
  read_c_string_loop-Keeps (suc fuel) a ha m h = and_then-Keeps _ (read8-Keeps a ha m h) (λ x hx.
      if-Keeps (x == 0) _ _ (λ m h. done tt h)
        (λ m h.
          and_then-Keeps _ (read_c_string_loop-Keeps fuel (u32 (a + 1)) (u32-Word _) m h)
            (λ xs hxs m h. done tt h)))

  read_payload-Keeps : (n a : ℕ) → Word a → Keeps Any (read_payload n a)
  unfolding read_payload
  read_payload-Keeps zero a ha m h = done tt h
  read_payload-Keeps (suc n) a ha m h = and_then-Keeps _ (read8-Keeps a ha m h) (λ x hx m h.
      and_then-Keeps _ (read_payload-Keeps n (u32 (a + 1)) (u32-Word _) m h)
        (λ xs hxs m h. done tt h))

  read_c_string-Keeps : (a : ℕ) → Word a → Keeps Any (read_c_string a)
  unfolding read_c_string
  read_c_string-Keeps a ha =
      if-Keeps (a == 0) _ _ (λ m h. done tt h) (read_c_string_loop-Keeps (2 ^ 32) a ha)

  sysopen-Keeps : (a : ℕ) → Word a → Keeps Word (sysopen a)
  unfolding sysopen
  sysopen-Keeps a ha m h = and_then-Keeps _ (read32-Keeps a false ha m h) (λ f hf m h.
      and_then-Keeps _ (read32-Keeps (u32 (a + 4)) false (u32-Word _) m h) (λ mode hm m h.
        and_then-Keeps _ (read_c_string-Keeps f hf m h)
          (λ path hp m h. done (λ t. ground arith) h)))

  -- Standard input and output anew.
  streams-Holds :
      (stdin console : List ℕ) (m : Machine)
      → (inv.Typed → Bytes stdin)
      → Holds m
      → Holds (record m { mem = record (m.mem) { stdin = stdin; console = console } })
  streams-Holds stdin console m hs h =
      memory-Holds _ m (λ t. streams-InRange m.mem ((h.2 t).mem) stdin console (hs t)) h

  printed-Holds :
      (console : List ℕ) (m : Machine)
      → Holds m
      → Holds (record m { mem = record (m.mem) { console = console } })
  printed-Holds console m h = streams-Holds m.mem.stdin console m (λ t. ((h.2 t).mem).stdin) h

  syswritec-Keeps : (a : ℕ) → Word a → Keeps Word (syswritec a)
  unfolding syswritec
  syswritec-Keeps a ha =
      if-Keeps (a == 0) _ _ (λ m h. done (λ t. omega arith) h)
        (λ m h.
          and_then-Keeps _ (read8-Keeps a ha m h)
            (λ x hx m h. done (λ t. omega arith) (printed-Holds _ m h)))

  with_buffer-Keeps :
      (a : ℕ) (body : ℕ → ℕ → M ℕ)
      → Word a
      → ((x y : ℕ) → Word x → Keeps Word (body x y))
      → Keeps Word (with_buffer a body)
  unfolding with_buffer
  with_buffer-Keeps a body ha k m h = and_then-Keeps _ (read32-Keeps a false ha m h) (λ fd hd m h.
      and_then-Keeps _ (read32-Keeps (u32 (a + 4)) false (u32-Word _) m h) (λ from hf m h.
        and_then-Keeps _ (read32-Keeps (u32 (a + 8)) false (u32-Word _) m h) (λ len hl.
          if-Keeps (from == 0 || len == 0) _ _ (λ m h. done (λ t. omega arith) h) (k from len hf))))

  syswrite-Keeps : (a : ℕ) → Word a → Keeps Word (syswrite a)
  unfolding syswrite
  syswrite-Keeps a ha = with_buffer-Keeps a _ ha (λ from len hf m h.
      and_then-Keeps _ (read_payload-Keeps len from hf m h)
        (λ xs hx m h. done (λ t. omega arith) (printed-Holds _ m h)))

  -- A character, or the end of the input.
  abbrev Character : Option ℕ → Type 0
  Character none = Unit
  Character (some c) = Byte c

  fgetc-Keeps : Keeps Character fgetc
  unfolding fgetc
  fgetc-Keeps m h = go (m.mem.stdin) (λ t. ((h.2 t).mem).stdin)
    where
      go :
          (input : List ℕ)
          → (inv.Typed → Bytes input)
          → Safe Character (elim input [
            | [] ↦ ok none m
            | c ∷ rest ↦ ok (some c) (record m { mem = record (m.mem) { stdin = rest } })
          ])
      go [] hi = done tt h
      go (c ∷ rest) hi =
          done (λ t. hi t 0) (streams-Holds rest m.mem.console m (λ t i. hi t (suc i)) h)

  store_char-Keeps : (a : ℕ) (c : Option ℕ) → Word a → Keeps Word (store_char a c)
  unfolding store_char
  store_char-Keeps a none ha m h = done (λ t. omega arith) h
  store_char-Keeps a (some c) ha m h =
      and_then-Keeps _ (write8-Keeps a (u8 c) ha (λ t. omega arith) m h)
        (λ u hu m h. done (λ t. omega arith) h)

  sysread-Keeps : (a : ℕ) → Word a → Keeps Word (sysread a)
  unfolding sysread
  sysread-Keeps a ha = with_buffer-Keeps a _ ha (λ from len hf m h.
      and_then-Keeps _ (fgetc-Keeps m h) (λ c hc m h. store_char-Keeps from c hf m h))

  sysreadc-Keeps : Keeps Word sysreadc
  unfolding sysreadc
  sysreadc-Keeps m h = and_then-Keeps _ (fgetc-Keeps m h) given
    where
      given : (c : Option ℕ) → Character c → Keeps Word (λ m. ok (char_or_eof c) m)
      given none hc m h = done (λ t. omega arith) h
      given (some c) hc m h = done (λ t. let b = hc t in omega arith) h

  semihosting_result-Keeps : (n a : ℕ) → Word a → Keeps Word (semihosting_result n a)
  unfolding semihosting_result
  semihosting_result-Keeps n a ha =
      if-Keeps (n == 1) _ _
        (if-Keeps (a == 0) _ _ (λ m h. done (λ t. omega arith) h) (sysopen-Keeps a ha))
        (if-Keeps (n == 3) _ _ (syswritec-Keeps a ha) (
          if-Keeps (n == 5) _ _
            (if-Keeps (a == 0) _ _ (λ m h. done (λ t. omega arith) h) (syswrite-Keeps a ha))
            (if-Keeps (n == 6) _ _
              (if-Keeps (a == 0) _ _ (λ m h. done (λ t. omega arith) h) (sysread-Keeps a ha))
              (if-Keeps (n == 7) _ _ sysreadc-Keeps (λ m h. done (λ t. omega arith) h)))))

  pub handle_semihosting_trap-Keeps : Keeps Any handle_semihosting_trap
  unfolding handle_semihosting_trap
  handle_semihosting_trap-Keeps m h =
      and_then-Keeps _ (get_register-Keeps 10 (omega arith) m h) (λ n hn m1 h1.
        and_then-Keeps _ (get_register-Keeps 11 (omega arith) m1 h1) (λ a ha m2 h2.
          and_then-Keeps _ (semihosting_result-Keeps n a ha m2 h2) (λ r hr m3 h3.
            and_then-Keeps _ (set_register-Keeps 10 r (omega arith) hr m3 h3) (λ u hu m4 h4.
              done tt (jump-Holds _ m4.next_pc m4 (u32-Word _) (λ t. (h4.2 t).next_pc) h4)))))
