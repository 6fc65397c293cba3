-- ===== src/Pages/Tests.antt =====
-- Runs of the page allocator of mm/memory.c, and its theorems at concrete inputs.
use tout_os.Base.{ℕ, ◌+◌, ◌*◌, ◌≡◌, refl, if◌then◌else◌, ltb, ◌==◌}
use tout_os.Pages.{
  Usage, get_free_pages, free_pages, page_pool_start, mark, find_free_pages, scan, done, halted,
}
use tout_os.Pages.Laws.{free_pages-get_free_pages, get_free_pages-Granted, Granted}

-- pages 0, 1 and 3 are held
abbrev some_held : Usage
some_held j = if ltb j 2 then 1 else if j == 3 then 1 else 0

abbrev four_more : Usage
four_more = mark 4 4 some_held

get_free_pages-Granted_example : Granted some_held 4 (get_free_pages 2 some_held)
get_free_pages-Granted_example = get_free_pages-Granted 2 some_held

free_pages-get_free_pages_example :
    (u'' : Usage) × (free_pages (page_pool_start + 4096 * 4) 2 four_more ≡ done u'')
    × ((j : ℕ) → u'' j ≡ some_held j)
    × (free_pages (page_pool_start + 4096 * 4) 2 u'' ≡ halted)
unfolding get_free_pages find_free_pages scan
free_pages-get_free_pages_example =
    free_pages-get_free_pages 2 some_held four_more (page_pool_start + 4096 * 4) refl
