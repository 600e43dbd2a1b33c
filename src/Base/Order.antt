-- ===== src/Base/Order.antt =====
-- `<` on the native numbers is well founded.
use Prim.Native.Nat.{ℕ, zero, suc, ◌<◌, ◌+◌, ◌-◌}
use mathlib.Core.Path.{◌≡◌}
use mathlib.Core.Logic.{◌⊎◌}
use mathlib.Core.WellFounded.{Acc, WellFounded}
use native.Mathlib.Omega.{arith}

Acc-below : (k n : ℕ) → n < k → Acc ◌<◌ n
Acc-below zero n h = elim h [ ]
Acc-below (suc k) n h = Acc.intro n (λ m hm. Acc-below k m (omega arith))

pub lt_wf : WellFounded ◌<◌
lt_wf = record { apply = λ n. Acc-below (suc n) n (omega arith) }

pub trichotomy : (x a : ℕ) → (x < a) ⊎ ((x ≡ a) ⊎ (a < x))
trichotomy x a = ground arith

pub minus_same : (x a : ℕ) → x ≡ a → x - a ≡ 0
minus_same x a h = omega arith

pub minus_suc : (x a : ℕ) → a < x → x - a ≡ suc (x - (a + 1))
minus_suc x a h = omega arith
