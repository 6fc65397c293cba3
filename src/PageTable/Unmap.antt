-- ===== src/PageTable/Unmap.antt =====
-- What `unmap_one_user_page` of mm/page_table.c takes away, and what it leaves.
use tout_os.Base.{
  ℕ, ◌/◌, ◌%◌, ◌^◌, ◌<◌, ◌≡◌, ◌≢◌, refl, ap, ◌∙◌, sym, true, false, Option, some, ◌==◌,
  if◌then◌else◌, arith,
}
use tout_os.PageTable.{
  get_pg_entry_index, to_virt, entry, next_table, put_word, walk_virt_addr, walk_loop,
  unmap_one_user_page, Unmapped,
}
use tout_os.PageTable.Tree.{
  Place, root, mid, leaf, child, IsTree, entry-injective, put_word_self, put_word_other,
}
use tout_os.PageTable.Setup.{not_leaf, put_leaf-IsTree}
use tout_os.PageTable.Walk.{
  entry1, entry2, entry3, IsMapped, get_pg_entry_index-lt, walk_virt_addr-entry3, mid_at, leaf_at,
  entry3_kept, words-IsMapped, words-walk,
}

-- the addresses are of one page, as the tables see them
abbrev pub SamePage : ℕ → ℕ → Type 0
SamePage w w' = w / 4096 % 2 ^ 27 ≡ w' / 4096 % 2 ^ 27

leaf_inj : (a b c d : ℕ) → some (leaf a b) ≡ some (leaf c d) → (a ≡ c) × (b ≡ d)
leaf_inj a b c d e = (cc, cc)

-- The indices say the page.
indices-SamePage :
    (w w' : ℕ)
    → get_pg_entry_index w 30 ≡ get_pg_entry_index w' 30
    → get_pg_entry_index w 21 ≡ get_pg_entry_index w' 21
    → get_pg_entry_index w 12 ≡ get_pg_entry_index w' 12
    → SamePage w w'
indices-SamePage w w' a b c = omega (arith, a, b, c)

-- What `unmap_one_user_page` does for a page that is mapped: the page goes back to the allocator, its address
-- leads nowhere, the pages that are mapped elsewhere stay, and the tables are a tree.
pub record Unmaps (free : ℕ → Type 0) (mem : ℕ → ℕ) (pg_dir : ℕ) (owner : ℕ → Option Place)
    (virt_addr : ℕ) (u : Unmapped) : Type 0 where
  pub tree : IsTree true free u.tables pg_dir owner
  pub given_back : u.freed ≡ some (to_virt true (walk_virt_addr true mem pg_dir virt_addr))
  pub gone : IsMapped true u.tables pg_dir virt_addr → ⊥
  pub none_new : (w : ℕ) → IsMapped true u.tables pg_dir w → IsMapped true mem pg_dir w
  pub others :
      (w : ℕ)
      → IsMapped true mem pg_dir w
      → (SamePage w virt_addr → ⊥)
      → IsMapped true u.tables pg_dir w
        × (walk_virt_addr true u.tables pg_dir w ≡ walk_virt_addr true mem pg_dir w)

module _ (free : ℕ → Type 0) (mem : ℕ → ℕ) (pg_dir : ℕ) (owner : ℕ → Option Place)
    (v : IsTree true free mem pg_dir owner) where
  -- Pages that are mapped have their own entries.
  entry3_injective :
      (w w' : ℕ)
      → IsMapped true mem pg_dir w
      → IsMapped true mem pg_dir w'
      → entry3 true mem pg_dir w ≡ entry3 true mem pg_dir w'
      → SamePage w w'
  entry3_injective w w' is is' e =
      let at = leaf_at true free mem pg_dir owner v w is in
      let at' = leaf_at true free mem pg_dir owner v w' is' in
      let (tables, last) =
        entry-injective (next_table true mem (entry2 true mem pg_dir w))
          (next_table true mem (entry2 true mem pg_dir w')) (get_pg_entry_index w 12)
          (get_pg_entry_index w' 12) (v.aligned _ _ at) (v.aligned _ _ at')
          (get_pg_entry_index-lt w 12) (get_pg_entry_index-lt w' 12) e in
      let (first, second) =
        leaf_inj (get_pg_entry_index w 30) (get_pg_entry_index w 21) (get_pg_entry_index w' 30)
          (get_pg_entry_index w' 21) (sym at ∙ ap owner tables ∙ at') in
      indices-SamePage w w' first second last

  -- An entry of a table that is not of the last layer is no entry of one that is.
  entry_apart :
      (t u a b i j : ℕ) (q c : Place)
      → owner t ≡ some q
      → child q i ≡ some c
      → owner u ≡ some (leaf a b)
      → i < 512
      → j < 512
      → entry t i ≢ entry u j
  entry_apart t u a b i j q c at is_child at' li lj e =
      let (tables, index) =
        entry-injective t u i j (v.aligned t q at) (v.aligned u (leaf a b) at') li lj e in
      not_leaf q i c a b is_child (sym at ∙ ap owner tables ∙ at')

  module _ (x : ℕ) (is : IsMapped true mem pg_dir x) where
    abbrev cleared : ℕ → ℕ
    cleared = put_word mem (entry3 true mem pg_dir x) 0

    x_at :
        owner (next_table true mem (entry2 true mem pg_dir x))
        ≡ some (leaf (get_pg_entry_index x 30) (get_pg_entry_index x 21))
    x_at = leaf_at true free mem pg_dir owner v x is

    cleared1 : (w : ℕ) → cleared (entry1 pg_dir w) ≡ mem (entry1 pg_dir w)
    cleared1 w = put_word_other mem (entry3 true mem pg_dir x) 0 (entry1 pg_dir w) (
        entry_apart pg_dir _ _ _ (get_pg_entry_index w 30) (get_pg_entry_index x 12) root
          (mid (get_pg_entry_index w 30)) v.root_at refl x_at (get_pg_entry_index-lt w 30)
          (get_pg_entry_index-lt x 12))

    cleared2 :
        (w : ℕ)
        → IsMapped true mem pg_dir w
        → cleared (entry2 true mem pg_dir w) ≡ mem (entry2 true mem pg_dir w)
    cleared2 w is' = put_word_other mem (entry3 true mem pg_dir x) 0 (entry2 true mem pg_dir w) (
        entry_apart (next_table true mem (entry1 pg_dir w)) _ _ _ (get_pg_entry_index w 21)
          (get_pg_entry_index x 12) (mid (get_pg_entry_index w 30))
          (leaf (get_pg_entry_index w 30) (get_pg_entry_index w 21))
          (mid_at true free mem pg_dir owner v w is') refl x_at (get_pg_entry_index-lt w 21)
          (get_pg_entry_index-lt x 12))

    -- a word that is not 0 afterwards is the one before
    set_kept : (b : ℕ) → cleared b ≢ 0 → mem b ≡ cleared b
    set_kept b ne = sym (
        put_word_other mem (entry3 true mem pg_dir x) 0 b
          (λ e. ne (ap cleared e ∙ put_word_self mem (entry3 true mem pg_dir x) 0)))

    cleared3 : entry3 true cleared pg_dir x ≡ entry3 true mem pg_dir x
    cleared3 = entry3_kept true mem cleared pg_dir x is (cleared1 x) (cleared2 x is)

    -- `unmap_one_user_page` of a page that is mapped in a tree gives that page back and removes its mapping:
    -- the tables are a tree, and every other page that is mapped still leads where it did.
    pub unmap_one_user_page-Unmaps :
        Unmaps free mem pg_dir owner x (unmap_one_user_page mem pg_dir x)
    unfolding unmap_one_user_page walk_loop
    unmap_one_user_page-Unmaps = record {
      tree =
          put_leaf-IsTree true free mem pg_dir owner v _ _ _ (get_pg_entry_index x 12) 0 x_at
            (get_pg_entry_index-lt x 12);
      given_back =
          let z : (mem (entry3 true mem pg_dir x) == 0) ≡ false = ground (arith, is.full3) in
          rw (z, if◌then◌else◌)
            (ap (λ (p : ℕ). some (to_virt true p)) (sym (walk_virt_addr-entry3 true mem pg_dir x)));
      gone = λ m. m.full3 (ap cleared cleared3 ∙ put_word_self mem (entry3 true mem pg_dir x) 0);
      none_new = λ w m.
          let word1 = set_kept (entry1 pg_dir w) m.full1 in
          let word2 = set_kept (entry2 true cleared pg_dir w) m.full2 in
          let word3 = set_kept (entry3 true cleared pg_dir w) m.full3 in
          words-IsMapped true cleared mem pg_dir w m word1 word2 word3;
      others = λ w is' apart.
          let word3 : cleared (entry3 true mem pg_dir w) ≡ mem (entry3 true mem pg_dir w) =
            put_word_other mem (entry3 true mem pg_dir x) 0 (entry3 true mem pg_dir w)
              (λ e. apart (entry3_injective w x is' is e)) in
          (
            words-IsMapped true mem cleared pg_dir w is' (cleared1 w) (cleared2 w is') word3,
            words-walk true mem cleared pg_dir w is' (cleared1 w) (cleared2 w is') word3,
          );
    }
