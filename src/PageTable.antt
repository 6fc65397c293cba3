-- ===== src/PageTable.antt =====
-- The page tables of mm/page_table.c, which the kernel and the start of the machine share. The memory
-- of the tables is a map from addresses to 64-bit words. `pg_calloc_func` is a parameter, with the
-- state that it keeps; it gives a page that is zeroed here, as both functions that are passed do.
-- A shift is a division, a mask of low bits a rest.
pub mod Tree
pub mod Draws
pub mod Fill
pub mod Walk
pub mod Setup
pub mod Map
pub mod Range
pub mod Unmap
pub mod PgCalloc
pub mod Sample
mod Tests
use tout_os.Base.{
  ℕ, zero, suc, ◌+◌, ◌-◌, ◌*◌, ◌/◌, ◌%◌, ◌^◌, Bool, true, false, ◌&&◌, ◌||◌, Option, none, some,
  List, [], ◌∷◌, ltb, leb, ◌==◌, if◌then◌else◌, bit_or, add64, sub64,
}

-- with VA_BITS = 39
abbrev pub page_offset : ℕ
page_offset = 2 ^ 64 - 2 ^ 38

-- `layers`
abbrev pub layers : List ℕ
layers = 30 ∷ 21 ∷ 12 ∷ []

-- addr >> layer, with the nine lowest bits
abbrev pub get_pg_entry_index : ℕ → ℕ → ℕ
get_pg_entry_index addr layer = addr / 2 ^ layer % 512

-- the bits from 12 to 47
abbrev pub get_phy_addr : ℕ → ℕ
get_phy_addr descriptor = descriptor / 2 ^ 12 % 2 ^ 36 * 4096

-- the address of a table as the code sees it, from its physical address, and back
abbrev pub to_virt : Bool → ℕ → ℕ
to_virt mmu_on x = if mmu_on then add64 x page_offset else x

abbrev pub to_phys : Bool → ℕ → ℕ
to_phys mmu_on x = if mmu_on then sub64 x page_offset else x

-- new_pt | attrs | PTE_TYPE_TABLE | PTE_BLOCK_AF
abbrev pub descriptor : ℕ → ℕ → ℕ
descriptor addr attrs = bit_or (bit_or (bit_or addr attrs) 3) 1024

pub record PageTables (A : Type 0) : Type 0 where
  pub mem : ℕ → ℕ
  pub pages : A

-- pg_calloc_func (0), `none` for 0
abbrev pub Calloc : Type 0 → Type 0
Calloc A = A → Option ℕ × A

abbrev pub put_word : (ℕ → ℕ) → ℕ → ℕ → ℕ → ℕ
put_word mem a v b = if b == a then v else mem b

abbrev pub zero_page : (ℕ → ℕ) → ℕ → ℕ → ℕ
zero_page mem p b = if leb p b && ltb b (p + 4096) then 0 else mem b

-- &next_layer_pt[index]
abbrev pub entry : ℕ → ℕ → ℕ
entry table index = table + 8 * index

-- the table that an entry leads to
abbrev pub next_table : Bool → (ℕ → ℕ) → ℕ → ℕ
next_table mmu_on mem e = to_virt mmu_on (get_phy_addr (mem e))

module _ {A : Type 0} (calloc : Calloc A) (mmu_on : Bool) (attrs : ℕ) where
  -- A new table is hung into an entry; `none` is a failed assertion.
  unfoldable pub hang_table : ℕ → (ℕ → ℕ) → Option ℕ × A → Option (PageTables A)
  hang_table e mem (none, a) = none
  hang_table e mem (some new_pt, a) = elim (new_pt % 4096 == 0) [
    | false ↦ none
    | true ↦ some (record {
      mem = put_word (zero_page mem new_pt) e (descriptor (to_phys mmu_on new_pt) attrs);
      pages = a;
    })
  ]

  -- an empty entry gets a new table
  unfoldable pub fill_table : ℕ → PageTables A → Option (PageTables A)
  fill_table e s = elim (s.mem e == 0) [
    | false ↦ some s
    | true ↦ hang_table e s.mem (calloc s.pages)
  ]

  -- an empty entry of the last layer gets the address
  unfoldable pub fill_page : ℕ → ℕ → PageTables A → PageTables A
  fill_page phy_addr e s =
      if s.mem e == 0 then record s { mem = put_word s.mem e (descriptor phy_addr attrs) } else s

  -- the loop over the layers that are left, at the table of the first of them
  unfoldable pub setup_loop : List ℕ → ℕ → ℕ → ℕ → PageTables A → Option (PageTables A)
  setup_loop [] phy_addr virt_addr table s = some s
  setup_loop (layer ∷ rest) phy_addr virt_addr table s =
      let e = entry table (get_pg_entry_index virt_addr layer) in
      elim (layer == 12) [
        | true ↦
            let t = fill_page phy_addr e s in
            setup_loop rest phy_addr virt_addr (next_table mmu_on t.mem e) t
        | false ↦ elim (fill_table e s) [
          | none ↦ none
          | some t ↦ setup_loop rest phy_addr virt_addr (next_table mmu_on t.mem e) t
        ]
      ]

  unfoldable pub setup_pg_for_addr : ℕ → ℕ → ℕ → PageTables A → Option (PageTables A)
  setup_pg_for_addr pg_dir phy_addr virt_addr s = setup_loop layers phy_addr virt_addr pg_dir s

  -- The loop of `add_single_map`, with `n` pages left.
  unfoldable pub map_loop : ℕ → ℕ → ℕ → ℕ → PageTables A → Option (PageTables A)
  map_loop zero pg_dir phy_addr virt_addr s = some s
  map_loop (suc n) pg_dir phy_addr virt_addr s =
      elim (setup_pg_for_addr pg_dir phy_addr virt_addr s) [
        | none ↦ none
        | some t ↦ map_loop n pg_dir (phy_addr + 4096) (virt_addr + 4096) t
      ]

  -- The addresses do not wrap; the last page may be a part of one.
  unfoldable pub add_single_map : ℕ → ℕ → ℕ → ℕ → PageTables A → Option (PageTables A)
  add_single_map pg_dir phy_addr virt_addr size s =
      map_loop ((size + 4095) / 4096) pg_dir phy_addr virt_addr s

-- the loop over the layers that are left
unfoldable pub walk_loop : Bool → List ℕ → (ℕ → ℕ) → ℕ → ℕ → ℕ
walk_loop mmu_on [] mem virt_addr table = table
walk_loop mmu_on (layer ∷ rest) mem virt_addr table =
    walk_loop mmu_on rest mem virt_addr
      (next_table mmu_on mem (entry table (get_pg_entry_index virt_addr layer)))

unfoldable pub walk_virt_addr : Bool → (ℕ → ℕ) → ℕ → ℕ → ℕ
walk_virt_addr mmu_on mem pg_dir virt_addr =
    to_phys mmu_on (walk_loop mmu_on layers mem virt_addr pg_dir)

-- What `unmap_one_user_page` does: the tables after it, the page that it hands to `free_pages`, if it
-- does, and the address of which the TLB entry is invalidated.
pub record Unmapped : Type 0 where
  pub tables : ℕ → ℕ
  pub freed : Option ℕ
  pub flushed : ℕ

unfoldable pub unmap_one_user_page : (ℕ → ℕ) → ℕ → ℕ → Unmapped
unmap_one_user_page mem pg_dir virt_addr =
    let e =
      entry (walk_loop true (30 ∷ 21 ∷ []) mem virt_addr pg_dir)
        (get_pg_entry_index virt_addr 12) in
    record {
      tables = put_word mem e 0;
      freed = if mem e == 0 then none else some (to_virt true (get_phy_addr (mem e)));
      flushed = virt_addr;
    }
