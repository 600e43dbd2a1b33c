-- ===== src/Cpu/Reservation.antt =====
-- core/RiscvCpu.cpp: the reservation of LR and SC against the stores between them.
use riscv_sym.Base.{ℕ, ◌+◌, ◌≤◌, ◌<◌, ◌≡◌, true, false, arith, refl, max, ◌↔◌, ◌⊎◌}
use riscv_sym.State.{Machine}
use riscv_sym.Cpu.{notify_store, make_reservation, check_and_clear_reservation}

-- The `size` addresses from `address` on and the four of a reservation have none in common. Both are
-- counted upwards in 64 bits, as in the source: a range that passes 2 ^ 32 does not go on at 0.
abbrev pub Disjoint : ℕ → ℕ → ℕ → Type 0
Disjoint address size reserved =
    (x : ℕ) → address ≤ x → x < address + size → reserved ≤ x → reserved + 4 ≤ x

Disjoint-forward : (a size r : ℕ) → 0 < size → Disjoint a size r → (a + size ≤ r) ⊎ (r + 4 ≤ a)
Disjoint-forward a size r h d = ground (arith, d (max a r))

-- After makeReservation and one notifyStore of at least a byte, checkAndClearReservation succeeds
-- exactly if its address is the reserved one and the four addresses from there on and those of the
-- store, both counted upwards without a wrap at 2 ^ 32, have none in common; a second check fails.
pub check-notify-make :
    (p r address size : ℕ) (m : Machine)
    → 0 < size
    → let after =
        check_and_clear_reservation p (notify_store address size (make_reservation r m)) in
      ((after.0 ≡ true) ↔ ((r ≡ p) × Disjoint address size r))
      × ((q : ℕ) → (check_and_clear_reservation q after.1).0 ≡ false)
unfolding check_and_clear_reservation notify_store make_reservation
check-notify-make p r address size m h = (
  (
    (λ e. (ground arith, λ x. ground arith)),
    (λ d. ground (arith, Disjoint-forward address size r h d.1)),
  ),
  (λ q. refl),
)
