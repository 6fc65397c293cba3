-- ===== src/PageTable/Walk.antt =====
-- What `setup_pg_for_addr` of mm/page_table.c leaves behind, as `walk_virt_addr` sees it.
use tout_os.Base.{ℕ, ◌<◌, ◌≡◌, ◌≢◌, refl, ap, ◌∙◌, sym, Bool, Option, some, arith}
use tout_os.PageTable.{
  get_pg_entry_index, get_phy_addr, to_virt, entry, next_table, walk_virt_addr, walk_loop,
}
use tout_os.PageTable.Tree.{Place, root, mid, leaf, IsTree, to_phys-to_virt, get_phy_addr-lt}
use tout_os.PageTable.Fill.{Keeps}

-- the entries that an address goes through
abbrev pub entry1 : ℕ → ℕ → ℕ
entry1 pg_dir w = entry pg_dir (get_pg_entry_index w 30)

abbrev pub entry2 : Bool → (ℕ → ℕ) → ℕ → ℕ → ℕ
entry2 mmu_on mem pg_dir w =
    entry (next_table mmu_on mem (entry1 pg_dir w)) (get_pg_entry_index w 21)

abbrev pub entry3 : Bool → (ℕ → ℕ) → ℕ → ℕ → ℕ
entry3 mmu_on mem pg_dir w =
    entry (next_table mmu_on mem (entry2 mmu_on mem pg_dir w)) (get_pg_entry_index w 12)

-- none of them is empty
pub record IsMapped (mmu_on : Bool) (mem : ℕ → ℕ) (pg_dir w : ℕ) : Type 0 where
  pub full1 : mem (entry1 pg_dir w) ≢ 0
  pub full2 : mem (entry2 mmu_on mem pg_dir w) ≢ 0
  pub full3 : mem (entry3 mmu_on mem pg_dir w) ≢ 0

pub get_pg_entry_index-lt : (w layer : ℕ) → get_pg_entry_index w layer < 512
get_pg_entry_index-lt w layer = omega arith

-- The walk ends at the address in the last entry.
pub walk_virt_addr-entry3 :
    (mmu_on : Bool) (mem : ℕ → ℕ) (pg_dir w : ℕ)
    → walk_virt_addr mmu_on mem pg_dir w ≡ get_phy_addr (mem (entry3 mmu_on mem pg_dir w))
unfolding walk_virt_addr walk_loop
walk_virt_addr-entry3 mmu_on mem pg_dir w =
    to_phys-to_virt mmu_on (get_phy_addr (mem (entry3 mmu_on mem pg_dir w)))
      (get_phy_addr-lt (mem (entry3 mmu_on mem pg_dir w)))

-- A change that keeps the three words of a mapped address keeps its walk.
module _ (mmu_on : Bool) (mem m : ℕ → ℕ) (pg_dir w : ℕ) (is : IsMapped mmu_on mem pg_dir w)
    (word1 : m (entry1 pg_dir w) ≡ mem (entry1 pg_dir w))
    (word2 : m (entry2 mmu_on mem pg_dir w) ≡ mem (entry2 mmu_on mem pg_dir w)) where
  entry2_kept : entry2 mmu_on m pg_dir w ≡ entry2 mmu_on mem pg_dir w
  entry2_kept =
      ap (λ (d : ℕ). entry (to_virt mmu_on (get_phy_addr d)) (get_pg_entry_index w 21)) word1

  word2_kept : m (entry2 mmu_on m pg_dir w) ≡ mem (entry2 mmu_on mem pg_dir w)
  word2_kept = ap m entry2_kept ∙ word2

  pub entry3_kept : entry3 mmu_on m pg_dir w ≡ entry3 mmu_on mem pg_dir w
  entry3_kept =
      ap (λ (d : ℕ). entry (to_virt mmu_on (get_phy_addr d)) (get_pg_entry_index w 12)) word2_kept

  module _ (word3 : m (entry3 mmu_on mem pg_dir w) ≡ mem (entry3 mmu_on mem pg_dir w)) where
    pub words-IsMapped : IsMapped mmu_on m pg_dir w
    words-IsMapped = record {
      full1 = λ e. is.full1 (sym word1 ∙ e);
      full2 = λ e. is.full2 (sym word2_kept ∙ e);
      full3 = λ e. is.full3 (sym (ap m entry3_kept ∙ word3) ∙ e);
    }

    pub words-walk : walk_virt_addr mmu_on m pg_dir w ≡ walk_virt_addr mmu_on mem pg_dir w
    words-walk =
        walk_virt_addr-entry3 mmu_on m pg_dir w
        ∙ ap get_phy_addr (ap m entry3_kept ∙ word3)
        ∙ sym (walk_virt_addr-entry3 mmu_on mem pg_dir w)

module _ (mmu_on : Bool) (free : ℕ → Type 0) (mem : ℕ → ℕ) (pg_dir : ℕ) (owner : ℕ → Option Place)
    (v : IsTree mmu_on free mem pg_dir owner) (w : ℕ) (is : IsMapped mmu_on mem pg_dir w) where
  pub mid_at :
      owner (next_table mmu_on mem (entry1 pg_dir w)) ≡ some (mid (get_pg_entry_index w 30))
  mid_at =
      v.hangs pg_dir root (get_pg_entry_index w 30) (mid (get_pg_entry_index w 30)) v.root_at refl
        (get_pg_entry_index-lt w 30) is.full1

  pub leaf_at :
      owner (next_table mmu_on mem (entry2 mmu_on mem pg_dir w))
      ≡ some (leaf (get_pg_entry_index w 30) (get_pg_entry_index w 21))
  leaf_at =
      v.hangs (next_table mmu_on mem (entry1 pg_dir w)) (mid (get_pg_entry_index w 30))
        (get_pg_entry_index w 21) (leaf (get_pg_entry_index w 30) (get_pg_entry_index w 21)) mid_at
        refl (get_pg_entry_index-lt w 21) is.full2

  -- A change that keeps the full entries of the tree keeps the words of a mapped address.
  module _ (m : ℕ → ℕ) (kept : Keeps owner mem m) where
    kept_word1 : m (entry1 pg_dir w) ≡ mem (entry1 pg_dir w)
    kept_word1 =
        kept pg_dir root (get_pg_entry_index w 30) v.root_at (get_pg_entry_index-lt w 30) is.full1

    kept_word2 : m (entry2 mmu_on mem pg_dir w) ≡ mem (entry2 mmu_on mem pg_dir w)
    kept_word2 =
        kept (next_table mmu_on mem (entry1 pg_dir w)) (mid (get_pg_entry_index w 30))
          (get_pg_entry_index w 21) mid_at (get_pg_entry_index-lt w 21) is.full2

    kept_word3 : m (entry3 mmu_on mem pg_dir w) ≡ mem (entry3 mmu_on mem pg_dir w)
    kept_word3 =
        kept (next_table mmu_on mem (entry2 mmu_on mem pg_dir w))
          (leaf (get_pg_entry_index w 30) (get_pg_entry_index w 21)) (get_pg_entry_index w 12)
          leaf_at (get_pg_entry_index-lt w 12) is.full3

    pub kept-IsMapped : IsMapped mmu_on m pg_dir w
    kept-IsMapped = words-IsMapped mmu_on mem m pg_dir w is kept_word1 kept_word2 kept_word3

    pub kept-walk : walk_virt_addr mmu_on m pg_dir w ≡ walk_virt_addr mmu_on mem pg_dir w
    kept-walk = words-walk mmu_on mem m pg_dir w is kept_word1 kept_word2 kept_word3
