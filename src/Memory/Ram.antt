-- ===== src/Memory/Ram.antt =====
-- core/Memory.cpp: what a load finds in RAM after a store.
use riscv_sym.Base.{
  ℕ, suc, ◌+◌, ◌-◌, ◌/◌, ◌%◌, ◌^◌, ◌≤◌, ◌<◌, ◌≡◌, ltb, leb, if◌then◌else◌, Bool, true, false, ◌&&◌,
  Option, none, some, ◌⊎◌, inl, inr, List, [], ◌∷◌, arith, refl, ap, ◌∙◌, bit_and,
}
use riscv_sym.Base.Lists.{length, get_or}
use riscv_sym.Base.Bits.Field.{bit_and_low}
use riscv_sym.State.{Memory, Page, update}
use riscv_sym.Memory.Pages.{Ptr, get_memory_ptr, load_byte, store_byte}
use riscv_sym.Memory.Physical.{ram_byte}
use riscv_sym.Memory.Access.{store_bytes, ram_write}

-- A page with `bytes` written from offset `o` on.
abbrev written : Page → ℕ → List ℕ → Page
written p o [] = p
written p o (b ∷ bs) = written (update p o b) (o + 1) bs

written_lem :
    (p : Page) (o : ℕ) (bytes : List ℕ) (i : ℕ)
    → written p o bytes i
      ≡ (if leb o i && ltb i (o + length bytes) then get_or bytes (i - o) 0 else p i)
written_lem p o [] i = ground arith
written_lem p o (b ∷ bs) i =
    let rest = written_lem (update p o b) (o + 1) bs i in
    elim (trichotomy i o) [
      | inl lt ↦ rest ∙ ground arith
      | inr (inl e) ↦ rest ∙ rw e (ground (arith, ap (λ (t : ℕ). get_or (b ∷ bs) t 0) (sub_self o)))
      | inr (inr gt) ↦ rest ∙ rw (sub_lt i o gt) (ground arith)
    ]
  where
    trichotomy : (i o : ℕ) → (i < o) ⊎ ((i ≡ o) ⊎ (o < i))
    trichotomy i o = ground arith

    sub_self : (o : ℕ) → o - o ≡ 0
    sub_self o = omega arith

    sub_lt : (i o : ℕ) → o < i → i - o ≡ suc (i - (o + 1))
    sub_lt i o h = omega arith

store_byte-pages :
    (ptr : Ptr) (k b : ℕ) (m : Memory) (p : Page)
    → m.pages ptr.page ≡ some p
    → (j : ℕ)
    → (store_byte ptr k b m).pages j
      ≡ update m.pages ptr.page (some (update p (ptr.offset + k) b)) j
unfolding store_byte
store_byte-pages ptr k b m p e j = ap (λ (o : Option Page). (stored o).pages j) e
  where
    stored : Option Page → Memory
    stored (some p) = record m {
      pages = update m.pages ptr.page (some (update p (ptr.offset + k) b));
    }
    stored none = m

store_bytes-pages :
    (ptr : Ptr) (k : ℕ) (bytes : List ℕ) (m : Memory) (p : Page) (j : ℕ)
    → m.pages ptr.page ≡ some p
    → (store_bytes ptr k bytes m).pages j
      ≡ update m.pages ptr.page (some (written p (ptr.offset + k) bytes)) j
unfolding store_bytes store_byte
store_bytes-pages ptr k [] m p j e = ground arith
store_bytes-pages ptr k (b ∷ bs) m p j e =
    let p' : Page = update p (ptr.offset + k) b in
    let m' : Memory = store_byte ptr k b m in
    let stored = store_byte-pages ptr k b m p e in
    store_bytes-pages ptr (k + 1) bs m' p' j (stored ptr.page ∙ ground arith)
    ∙ rw (add_assoc ptr.offset k) (ground (arith, stored j))
  where
    add_assoc : (x y : ℕ) → x + (y + 1) ≡ x + y + 1
    add_assoc x y = omega arith

-- The page at an index, with 0 for a page that is not there.
abbrev pub page_or : Memory → ℕ → Page
page_or m index = elim (m.pages index) [ some p ↦ p | none ↦ λ _. 0 ]

pub page_or-none : (m : Memory) (i : ℕ) → m.pages i ≡ none → page_or m i ≡ (λ _. 0)
page_or-none m i e = rw (e, page_or) refl

pub page_or-some : (m : Memory) (i : ℕ) (p : Page) → m.pages i ≡ some p → page_or m i ≡ p
page_or-some m i p e = rw (e, page_or) refl

-- The pointer into the page of an address.
abbrev pub pointer : ℕ → Ptr
pointer a = record { page = a / 2 ^ 12; offset = bit_and a 0xfff }

pub get_memory_ptr-none :
    (a : ℕ) (b : Bool) (m : Memory)
    → m.pages (a / 2 ^ 12) ≡ none
    → get_memory_ptr a b m ≡ (
        if b
        then (some (pointer a), record m { pages = update m.pages (a / 2 ^ 12) (some (λ _. 0)) })
        else (none, m))
unfolding get_memory_ptr
get_memory_ptr-none a b m e = rw (e, get_memory_ptr) refl

pub get_memory_ptr-some :
    (a : ℕ) (b : Bool) (m : Memory) (p : Page)
    → m.pages (a / 2 ^ 12) ≡ some p
    → get_memory_ptr a b m ≡ (some (pointer a), m)
unfolding get_memory_ptr
get_memory_ptr-some a b m p e = rw (e, get_memory_ptr) refl

pub ram_write-pages :
    (paddr : ℕ) (bytes : List ℕ) (m : Memory) (j : ℕ)
    → (ram_write paddr bytes m).pages j
      ≡ update m.pages
          (paddr / 2 ^ 12)
          (some (written (page_or m (paddr / 2 ^ 12)) (bit_and paddr 0xfff + 0) bytes))
          j
unfolding ram_write
ram_write-pages paddr bytes m j = go (m.pages (paddr / 2 ^ 12)) refl
  where
    go :
        (o : Option Page)
        → m.pages (paddr / 2 ^ 12) ≡ o
        → (ram_write paddr bytes m).pages j
          ≡ update m.pages
              (paddr / 2 ^ 12)
              (some (written (page_or m (paddr / 2 ^ 12)) (bit_and paddr 0xfff + 0) bytes))
              j
    go none e =
        let m' : Memory = record m { pages = update m.pages (paddr / 2 ^ 12) (some (λ _. 0)) } in
        let stored = store_bytes-pages (pointer paddr) 0 bytes m' (λ _. 0) j in
        rw
          (
            get_memory_ptr-none paddr true m e,
            ram_write,
            get_memory_ptr-none paddr true m e,
            page_or-none m (paddr / 2 ^ 12) e,
          )
          (stored (ground arith) ∙ ground arith)
    go (some p) e =
        rw
          (
            get_memory_ptr-some paddr true m p e,
            ram_write,
            get_memory_ptr-some paddr true m p e,
            page_or-some m (paddr / 2 ^ 12) p e,
          )
          (store_bytes-pages (pointer paddr) 0 bytes m p j e)

pub ram_byte-page_or :
    (a : ℕ) (m : Memory) → ram_byte a m ≡ page_or m (a / 2 ^ 12) (bit_and a 0xfff + 0)
unfolding ram_byte load_byte
ram_byte-page_or a m = go (m.pages (a / 2 ^ 12)) refl
  where
    go :
        (o : Option Page)
        → m.pages (a / 2 ^ 12) ≡ o
        → ram_byte a m ≡ page_or m (a / 2 ^ 12) (bit_and a 0xfff + 0)
    go none e = rw (get_memory_ptr-none a false m e, ram_byte, page_or-none m (a / 2 ^ 12) e) refl
    go (some p) e =
        rw
          (
            get_memory_ptr-some a false m p e,
            ram_byte,
            load_byte,
            e,
            page_or-some m (a / 2 ^ 12) p e,
          )
          refl

-- After a store within a page each byte of RAM is the stored one inside the range, and what it was
-- everywhere else.
pub ram_byte-ram_write :
    (a paddr : ℕ) (bytes : List ℕ) (m : Memory)
    → paddr % 2 ^ 12 + length bytes ≤ 2 ^ 12
    → ram_byte a (ram_write paddr bytes m) ≡ (
        if leb paddr a && ltb a (paddr + length bytes)
        then get_or bytes (a - paddr) 0
        else ram_byte a m)
ram_byte-ram_write a paddr bytes m h = ground (
  arith,
  bit_and_low 12 a,
  bit_and_low 12 paddr,
  ram_byte-page_or a (ram_write paddr bytes m),
  ram_byte-page_or a m,
  ram_write-pages paddr bytes m (a / 2 ^ 12),
  written_lem (page_or m (paddr / 2 ^ 12)) (bit_and paddr 0xfff + 0) bytes (bit_and a 0xfff + 0),
)
