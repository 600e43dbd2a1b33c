-- ===== src/Assembler/Ensures.antt =====
-- What holds of every value that an assembling function ends with.
use riscv_sym.Base.{ℕ, ◌<◌, ◌≡◌, Bool, true, false, Option, some, none, List, [], ◌∷◌, arith, refl}
use riscv_sym.Assembler.Text.{Text}
use riscv_sym.Assembler.Attempt.{
  Attempt, encoded, refused, complained, ◌>>=◌, ◌>>◌, refuse_when, or_refuse, validate_register,
}
use riscv_sym.Assembler.Register.{register_name_to_number, with_three, with_two, address_register}

unfoldable pub Ensures : {A : Type 0} → (A → Type 0) → Attempt A → Type 0
Ensures P (encoded a) = P a
Ensures P (refused t) = Unit
Ensures P (complained t) = Unit

abbrev pub Any : {A : Type 0} → A → Type 0
Any a = Unit {0}

module _ {A B : Type 0} (P : A → Type 0) (Q : B → Type 0) where
  pub bind-Ensures :
      (a : Attempt A) (k : A → Attempt B)
      → Ensures P a
      → ((x : A) → P x → Ensures Q (k x))
      → Ensures Q (a >>= k)
  unfolding Ensures
  bind-Ensures (encoded a) k h hk = hk a h
  bind-Ensures (refused t) k h hk = tt
  bind-Ensures (complained t) k h hk = tt

module _ {B : Type 0} (Q : B → Type 0) where
  pub refuse_when-Ensures :
      (b : Bool) (t : Text) (k : Attempt B)
      → (b ≡ false → Ensures Q k)
      → Ensures Q (refuse_when b t >> k)
  unfolding Ensures
  refuse_when-Ensures true t k h = tt
  refuse_when-Ensures false t k h = h refl

unfoldable pub OptionEnsures : {A : Type 0} → (A → Type 0) → Option A → Type 0
OptionEnsures P (some a) = P a
OptionEnsures P none = Unit

module _ {A : Type 0} (P : A → Type 0) where
  pub or_refuse-Ensures : (o : Option A) (t : Text) → OptionEnsures P o → Ensures P (or_refuse o t)
  unfolding OptionEnsures Ensures
  or_refuse-Ensures (some a) t h = h
  or_refuse-Ensures none t h = tt

pub Any-Ensures : {A : Type 0} → (a : Attempt A) → Ensures Any a
unfolding Ensures
Any-Ensures (encoded a) = tt
Any-Ensures (refused t) = tt
Any-Ensures (complained t) = tt

abbrev pub IsRegister : ℕ → Type 0
IsRegister n = n < 32

pub register_name_to_number-IsRegister :
    (reg : Text) → OptionEnsures IsRegister (register_name_to_number reg)
unfolding register_name_to_number OptionEnsures
register_name_to_number-IsRegister reg = ground arith

pub validate_register-IsRegister :
    (reg name : Text) → Ensures IsRegister (validate_register (register_name_to_number reg) name)
unfolding validate_register
validate_register-IsRegister reg name =
    or_refuse-Ensures IsRegister (register_name_to_number reg) _
      (register_name_to_number-IsRegister reg)

pub address_register-IsRegister :
    (t mem_operand : Text) → Ensures IsRegister (address_register t mem_operand)
unfolding address_register
address_register-IsRegister t mem_operand =
    bind-Ensures Any IsRegister _ _ (Any-Ensures _) (λ s _. validate_register-IsRegister s s)

module _ (Q : ℕ → Type 0) where
  pub with_three-Ensures :
      (t : Text) (os : List Text) (k : Text → Text → Text → Attempt ℕ)
      → ((a b c : Text) → Ensures Q (k a b c))
      → Ensures Q (with_three t os k)
  unfolding with_three Ensures
  with_three-Ensures t [] k h = tt
  with_three-Ensures t (a ∷ []) k h = tt
  with_three-Ensures t (a ∷ b ∷ []) k h = tt
  with_three-Ensures t (a ∷ b ∷ c ∷ []) k h = h a b c
  with_three-Ensures t (a ∷ b ∷ c ∷ d ∷ os) k h = tt

  pub with_two-Ensures :
      (t : Text) (os : List Text) (k : Text → Text → Attempt ℕ)
      → ((a b : Text) → Ensures Q (k a b))
      → Ensures Q (with_two t os k)
  unfolding with_two Ensures
  with_two-Ensures t [] k h = tt
  with_two-Ensures t (a ∷ []) k h = tt
  with_two-Ensures t (a ∷ b ∷ []) k h = h a b
  with_two-Ensures t (a ∷ b ∷ c ∷ os) k h = tt

pub encoded-Ensures : {A : Type 0} → (P : A → Type 0) (a : A) → P a → Ensures P (encoded a)
unfolding Ensures
encoded-Ensures P a h = h
