-- ===== src/UserPages/Tests.antt =====
-- The pages of a process at work: pages of the heap are unmapped.
use tout_os.Base.{ℕ, ◌+◌, ◌*◌, ◌<◌, ◌≡◌, subst, true, pos, arith}
use tout_os.PageTable.Walk.{IsMapped}
use tout_os.PageTable.Sample.{dir, FreePage, two_owner, with_page, with_page_tree, page_3-IsMapped}
use tout_os.UserPages.{unmap_user_page_mapping}
use tout_os.UserPages.Range.{UnmapsRange, unmap_user_page_mapping-UnmapsRange}

one_page-IsMapped : (k : ℕ) → k < 1 → IsMapped true with_page dir (0x3000 + 4096 * k)
one_page-IsMapped k lt =
    let same : 0x3000 ≡ 0x3000 + 4096 * k = omega (arith, lt) in
    subst (IsMapped true with_page dir) same page_3-IsMapped

unmap_user_page_mapping-UnmapsRange_example :
    ((unmap_user_page_mapping with_page dir 0x3000 (4096 * 1)).0 ≡ pos 0)
    × UnmapsRange
        (FreePage 3)
        with_page
        dir
        two_owner
        1
        0x3000
        (unmap_user_page_mapping with_page dir 0x3000 (4096 * 1)).1
unmap_user_page_mapping-UnmapsRange_example =
    unmap_user_page_mapping-UnmapsRange 1 (FreePage 3) with_page dir 0x3000 two_owner (omega arith)
      (omega arith) (omega arith) with_page_tree one_page-IsMapped
