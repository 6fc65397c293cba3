-- ===== src/Pages.antt =====
-- The page allocator of mm/memory.c. `pages_usage` is a map from page numbers to the char stored,
-- meant below `max_num_pages`. The functions take no lock.
pub mod Search
pub mod Laws
mod Tests
use tout_os.Base.{
  ℕ, zero, suc, ◌+◌, ◌-◌, ◌*◌, ◌/◌, ◌%◌, ◌^◌, Bool, true, false, Option, none, some, ltb, leb, ◌==◌,
  ◌||◌, if◌then◌else◌,
}
use tout_os.Kmalloc.{mem_pool_start, mem_pool_size}

abbrev pub page_size : ℕ
page_size = 4096

-- PAGE_POOL_SIZE / PAGE_SIZE
abbrev pub max_num_pages : ℕ
max_num_pages = 65536

-- PAGE_POOL_START = MEM_POOL_END
abbrev pub page_pool_start : ℕ
page_pool_start = mem_pool_start + mem_pool_size

abbrev pub page_pool_end : ℕ
page_pool_end = page_pool_start + 256 * 2 ^ 20

abbrev pub Usage : Type 0
Usage = ℕ → ℕ

abbrev pub store : Usage → ℕ → ℕ → Usage
store u i v j = if j == i then v else u j

-- The loop that looks for `num` free pages in a row, with `k` pages left from `i` on: the last page.
unfoldable pub scan : ℕ → ℕ → ℕ → ℕ → Usage → Option ℕ
scan zero num free_count i u = none
scan (suc k) num free_count i u = elim (u i == 0) [
  | true ↦ elim (free_count + 1 == num) [
    | true ↦ some i
    | false ↦ scan k num (free_count + 1) (i + 1) u
  ]
  | false ↦ scan k num 0 (i + 1) u
]

-- the loop that marks `n` pages from `i` on
unfoldable pub mark : ℕ → ℕ → Usage → Usage
mark zero i u = u
mark (suc n) i u = mark n (i + 1) (store u i 1)

-- the first page, or `none` for -1
unfoldable pub find_free_pages : ℕ → Usage → Option ℕ × Usage
find_free_pages num u = if num == 0 then (none, u) else elim (scan max_num_pages num 0 0 u) [
  | none ↦ (none, u)
  | some last_page ↦
      let first_page = last_page + 1 - num in (some first_page, mark num first_page u)
]

-- 1 << order, for an order below 31
abbrev pub pages_of : ℕ → ℕ
pages_of order = 2 ^ order

-- the address, or `none` for NULL
abbrev pub page_address : Option ℕ × Usage → Option ℕ × Usage
page_address (none, u) = (none, u)
page_address (some first_page, u) = (some (page_pool_start + page_size * first_page), u)

unfoldable pub get_free_pages : ℕ → Usage → Option ℕ × Usage
get_free_pages order u = page_address (find_free_pages (pages_of order) u)

-- `wild` is an access behind the end of `pages_usage`, `halted` the failed assertion.
pub data Release : Type 0 where
  wild : Release
  halted : Release
  done : Usage → Release

-- the loop of `free_pages`, with `n` pages left
unfoldable pub release : ℕ → ℕ → Usage → Release
release zero i u = done u
release (suc n) i u = elim (ltb i max_num_pages) [
  | true ↦ elim (u i == 1) [ true ↦ release n (i + 1) (store u i 0) | false ↦ halted ]
  | false ↦ wild
]

-- `addr & (PAGE_SIZE - 1)` is the rest by `PAGE_SIZE`.
unfoldable pub free_pages : ℕ → ℕ → Usage → Release
free_pages addr order u =
    if ltb addr page_pool_start || leb page_pool_end addr
    then done u
    else if addr % page_size == 0
    then release (pages_of order) ((addr - page_pool_start) / page_size) u
    else done u
