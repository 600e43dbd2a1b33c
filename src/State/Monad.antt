-- ===== src/State/Monad.antt =====
-- Commands: code that reads and changes the state and may throw.
use riscv_sym.Base.{ℕ, Bool, if◌then◌else◌}
use riscv_sym.State.Defs.{AccessType, Machine}

-- What leaves a command early: a `PageFaultException`, the `std::out_of_range` of `array::at`, an
-- operation that C++ leaves undefined, or a loop that was given too little fuel.
pub data Exception : Type 0 where
  page_fault : ℕ → AccessType → Exception
  out_of_range : Exception
  undefined_shift : Exception
  undefined_read : Exception
  undefined_overflow : Exception
  out_of_fuel : Exception

-- The state is kept on both ways out: what ran before a throw stays done.
pub data Outcome (A : Type 0) : Type 0 where
  ok : A → Machine → Outcome A
  raise : Exception → Machine → Outcome A

abbrev pub M : Type 0 → Type 0
M A = Machine → Outcome A

abbrev pub pure : {A : Type 0} → A → M A
pure a m = ok a m

abbrev pub throw : {A : Type 0} → Exception → M A
throw e m = raise e m

module _ {A B : Type 0} where
  abbrev pub and_then : Outcome A → (A → M B) → Outcome B
  and_then (ok a m) k = k a m
  and_then (raise e m) k = raise e m

  infixl 5 ◌>>=◌
  abbrev pub ◌>>=◌ : M A → (A → M B) → M B
  (c >>= k) m = and_then (c m) k

infixl 5 ◌>>◌
abbrev pub ◌>>◌ : {B : Type 0} → M (Unit {0}) → M B → M B
(c >> k) m = and_then (c m) (λ _. k)

-- `if (b) c;`
abbrev pub when : Bool → M (Unit {0}) → M (Unit {0})
when b c = if b then c else pure tt

abbrev pub modify : (Machine → Machine) → M (Unit {0})
modify f m = ok tt (f m)

abbrev pub gets : {A : Type 0} → (Machine → A) → M A
gets f m = ok (f m) m

-- The state at the end, on either way out.
abbrev pub final : {A : Type 0} → Outcome A → Machine
final (ok a m) = m
final (raise e m) = m
