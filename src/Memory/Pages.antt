-- ===== src/Memory/Pages.antt =====
-- core/Memory.cpp: `getMemoryPtr` and the bytes behind the pointer. A `uint8_t*` into a page is the
-- page's index with an offset.
use riscv_sym.Base.{ℕ, ◌+◌, bit_and, if◌then◌else◌, Bool, Option, none, some, ◌>>>◌}
use riscv_sym.State.{Memory, update}

pub record Ptr : Type 0 where
  pub page : ℕ
  pub offset : ℕ

-- A missing page is made and filled with 0 if the caller asks for that.
unfoldable pub get_memory_ptr : ℕ → Bool → Memory → Option Ptr × Memory
get_memory_ptr address allocate_if_needed m =
    let page_index = address >>> 12 in
    let ptr : Ptr = record { page = page_index; offset = bit_and address 0xfff } in
    elim (m.pages page_index) [
      | some p ↦ (some ptr, m)
      | none ↦
          if allocate_if_needed
          then (some ptr, record m { pages = update m.pages page_index (some (λ _. 0)) })
          else (none, m)
    ]

-- `ptr[k]`.
unfoldable pub load_byte : Ptr → ℕ → Memory → ℕ
load_byte ptr k m = elim (m.pages ptr.page) [ some p ↦ p (ptr.offset + k) | none ↦ 0 ]

-- `ptr[k] = v`.
unfoldable pub store_byte : Ptr → ℕ → ℕ → Memory → Memory
store_byte ptr k v m = elim (m.pages ptr.page) [
  | some p ↦ record m { pages = update m.pages ptr.page (some (update p (ptr.offset + k) v)) }
  | none ↦ m
]
