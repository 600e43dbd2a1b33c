-- ===== src/Assembler/Attempt.antt =====
-- What an assembling function of core/AssemblyCompiler.cpp ends with: a value, or a returned 0
-- behind a text in `instructionOutput`.
use riscv_sym.Base.{ℕ, Bool, if◌then◌else◌, Option, none, some, ◌++◌}
use riscv_sym.Base.Int.{ℤ, negsuc}
use riscv_sym.Assembler.Text.{Text, codes}

-- The two fields of `InstructionOutput` that assembling writes.
pub record InstructionOutput : Type 0 where
  pub exit_code : ℤ
  pub console_log : Text

-- `refused` sets `consoleLog` and `exitCode`, `complained` the first alone.
pub data Attempt (A : Type 0) : Type 0 where
  encoded : A → Attempt A
  refused : Text → Attempt A
  complained : Text → Attempt A

module _ {A B : Type 0} where
  infixl 5 ◌>>=◌
  abbrev pub ◌>>=◌ : Attempt A → (A → Attempt B) → Attempt B
  encoded a >>= k = k a
  refused t >>= k = refused t
  complained t >>= k = complained t

infixl 5 ◌>>◌
abbrev pub ◌>>◌ : {B : Type 0} → Attempt (Unit {0}) → Attempt B → Attempt B
c >> k = c >>= λ _. k

-- `if (b) { …; return 0; }`
abbrev pub refuse_when : Bool → Text → Attempt (Unit {0})
refuse_when b message = if b then refused message else encoded tt

-- What `try { … } catch (...)` makes of an exception.
abbrev pub or_refuse : {A : Type 0} → Option A → Text → Attempt A
or_refuse (some a) message = encoded a
or_refuse none message = refused message

-- `validateRegister`, and the register's number behind it.
unfoldable pub validate_register : Option ℕ → Text → Attempt ℕ
validate_register reg name = or_refuse reg (name ++ codes " is not a valid register.")

-- The number that is returned.
unfoldable pub returned : Attempt ℕ → ℕ
returned (encoded word) = word
returned (refused t) = 0
returned (complained t) = 0

-- What is left in the `InstructionOutput`.
unfoldable pub report : Attempt ℕ → InstructionOutput → InstructionOutput
report (encoded word) out = out
report (refused t) out = record { exit_code = negsuc 0; console_log = t }
report (complained t) out = record out { console_log = t }
