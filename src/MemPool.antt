-- ===== src/MemPool.antt =====
-- mm/mm.c: the block allocator behind kmalloc and malloc. Memory is a map from addresses to the
-- scalars stored at them: a `struct mem_blk` at `p` has its five fields at `p`, `p + 4`, `p + 8`,
-- `p + 16` and `p + 24`, and takes 32 bytes; a `struct mem_blk_tail` takes 8. `sbrk_func` is a
-- parameter. The lock of a pool makes each call one step.
pub mod Blocks
pub mod Format
pub mod Merge
pub mod Search
pub mod Mark
pub mod Pool
pub mod Alloc
pub mod Free
pub mod User
pub mod Client
mod Tests
use tout_os.Base.{
  ℕ, zero, suc, ◌+◌, ◌-◌, ◌*◌, ◌/◌, ◌<◌, ◌%◌, ◌^◌, Bool, true, false, Option, none, some, ltb, leb,
  ◌==◌, if◌then◌else◌, add64, sub64, ◌&&◌, not,
}

abbrev pub Memory : Type 0
Memory = ℕ → ℕ

abbrev pub mem_blk_magic : ℕ
mem_blk_magic = 0xABCD1234

-- sizeof (struct mem_blk)
abbrev pub header_size : ℕ
header_size = 32

-- sizeof (struct mem_blk_tail)
abbrev pub tail_size : ℕ
tail_size = 8

abbrev pub magic_num : Memory → ℕ → ℕ
magic_num mem p = mem p

abbrev pub in_use : Memory → ℕ → ℕ
in_use mem p = mem (p + 4)

abbrev pub blk_len : Memory → ℕ → ℕ
blk_len mem p = mem (p + 8)

abbrev pub user_start : Memory → ℕ → ℕ
user_start mem p = mem (p + 16)

abbrev pub user_len : Memory → ℕ → ℕ
user_len mem p = mem (p + 24)

abbrev pub store : Memory → ℕ → ℕ → Memory
store mem a v x = if x == a then v else mem x

-- `struct mem_pool`, with the memory that it manages and the state of its `sbrk_func`. (The
-- field `end` is `stop` here.)
pub record MemPool (S : Type 0) : Type 0 where
  pub mem : Memory
  pub start : ℕ
  pub stop : ℕ
  pub total_length : ℕ
  pub brk : S

-- An `sbrk_func`: the old break, or `none` for (void *)-1.
abbrev pub Sbrk : Type 0 → Type 0
Sbrk S = S → ℕ → Option ℕ × S

unfoldable pub get_tail : Memory → ℕ → ℕ
get_tail mem p = p + blk_len mem p - tail_size

-- the zeroing loop of `init_free_blk`
unfoldable pub clear : Memory → ℕ → ℕ → Memory
clear mem p zero = mem
clear mem p (suc n) = store (clear mem p n) (p + n) 0

unfoldable pub init_free_blk : Memory → ℕ → ℕ → Memory
unfolding get_tail
init_free_blk mem p size =
    let m = store (store (store (clear mem p size) p mem_blk_magic) (p + 4) 0) (p + 8) size in
    store m (get_tail m p) p

unfoldable pub prev_mem_blk : {S : Type 0} → MemPool S → ℕ → Option ℕ
prev_mem_blk pool p =
    if ltb (p - tail_size) pool.start then none else some (pool.mem (p - tail_size))

unfoldable pub next_mem_blk : {S : Type 0} → MemPool S → ℕ → Option ℕ
next_mem_blk pool p =
    if leb pool.stop (p + blk_len pool.mem p) then none else some (p + blk_len pool.mem p)

unfoldable pub big_mem_blk : Memory → ℕ → ℕ → Bool
big_mem_blk mem p size = leb size (sub64 (sub64 (blk_len mem p) header_size) tail_size)

unfoldable pub is_blk_free : Memory → ℕ → Bool
is_blk_free mem p = in_use mem p == 0

-- Each loop over blocks runs on fuel, and is `none` if it runs out. A pool has fewer blocks than
-- bytes, so the bytes of the pool are enough.
module _ {S : Type 0} where
  unfoldable pub fuel : MemPool S → ℕ
  fuel pool = suc (pool.stop - pool.start)

  -- The loops of `merge_free_blk`: from a block `p` outwards, with the last free block seen.
  unfoldable pub prev_loop : ℕ → MemPool S → Option ℕ → ℕ → Option ℕ
  prev_loop zero pool p most_prev = none
  prev_loop (suc k) pool none most_prev = some most_prev
  prev_loop (suc k) pool (some p) most_prev = elim (is_blk_free pool.mem p) [
    | true ↦ prev_loop k pool (prev_mem_blk pool p) p
    | false ↦ some most_prev
  ]

  unfoldable pub next_loop : ℕ → MemPool S → Option ℕ → ℕ → Option ℕ
  next_loop zero pool p most_next = none
  next_loop (suc k) pool none most_next = some most_next
  next_loop (suc k) pool (some p) most_next = elim (is_blk_free pool.mem p) [
    | true ↦ next_loop k pool (next_mem_blk pool p) p
    | false ↦ some most_next
  ]

  unfoldable pub merge_free_blk : MemPool S → ℕ → Option (MemPool S)
  merge_free_blk pool free = elim (prev_loop (fuel pool) pool (some free) free) [
    | none ↦ none
    | some most_prev ↦ elim (next_loop (fuel pool) pool (some free) free) [
      | none ↦ none
      | some most_next ↦ some (record pool {
        mem = init_free_blk pool.mem most_prev (most_next + blk_len pool.mem most_next - most_prev);
      })
    ]
  ]

  -- the search of `find_a_free_blk` through the blocks of the pool
  unfoldable pub find_loop : ℕ → MemPool S → ℕ → Option ℕ → Option (Option ℕ)
  find_loop zero pool size p = none
  find_loop (suc k) pool size none = some none
  find_loop (suc k) pool size (some p) =
      elim (is_blk_free pool.mem p && big_mem_blk pool.mem p size) [
        | true ↦ some (some p)
        | false ↦ find_loop k pool size (next_mem_blk pool p)
      ]

unfoldable pub should_split : Memory → ℕ → ℕ → Bool
should_split mem p size =
    ltb (add64 (add64 (add64 (add64 header_size size) tail_size) header_size) tail_size)
      (blk_len mem p)

module _ {S : Type 0} where
  -- `next_mem_blk` is not NULL here, as the block reaches past the first part; a NULL would be
  -- dereferenced, which is `none`.
  unfoldable pub split_mem_blk : MemPool S → ℕ → ℕ → Option (MemPool S)
  split_mem_blk pool p size =
      let old_blk_len = blk_len pool.mem p in
      let new_blk_len = add64 (add64 header_size size) tail_size in
      let first = record pool { mem = init_free_blk pool.mem p new_blk_len } in
      elim (next_mem_blk first p) [
        | none ↦ none
        | some next ↦
            some
              (record first { mem = init_free_blk first.mem next (sub64 old_blk_len new_blk_len) })
      ]

  unfoldable pub mark_mem_blk : MemPool S → ℕ → ℕ → Option (MemPool S)
  mark_mem_blk pool p size =
      elim (if should_split pool.mem p size then split_mem_blk pool p size else some pool) [
        | none ↦ none
        | some q ↦ some (record q {
          mem = store (store (store q.mem (p + 4) 1) (p + 16) (p + header_size)) (p + 24) size;
        })
      ]

  module _ (sbrk : Sbrk S) where
    -- The pool and whether the result is 0; `none` if the merge is.
    unfoldable pub enlarge_mem_pool : MemPool S → Option (Bool × MemPool S)
    enlarge_mem_pool p =
        let increment = p.stop - p.start in
        let (ret, brk) = sbrk p.brk increment in
        elim ret [
          | none ↦ some (false, record p { brk = brk })
          | some a ↦
              elim (merge_free_blk
                (record p {
                  stop = p.stop + increment;
                  mem = init_free_blk p.mem a increment;
                  brk = brk;
                })
                a) [ none ↦ none | some q ↦ some (true, q) ]
        ]

    -- It calls itself once more after each enlargement, on fuel of its own.
    unfoldable pub find_a_free_blk : ℕ → MemPool S → ℕ → Option (Option ℕ × MemPool S)
    find_a_free_blk zero pool size = none
    find_a_free_blk (suc k) pool size = elim (find_loop (fuel pool) pool size (some pool.start)) [
      | none ↦ none
      | some (some p) ↦ some (some p, pool)
      | some none ↦ elim (enlarge_mem_pool pool) [
        | none ↦ none
        | some (true, q) ↦ find_a_free_blk k q size
        | some (false, q) ↦ some (none, q)
      ]
    ]

    unfoldable pub get_mem_blk : ℕ → MemPool S → ℕ → Option (Option ℕ × MemPool S)
    get_mem_blk k pool size = elim (find_a_free_blk k pool size) [
      | none ↦ none
      | some (none, q) ↦ some (none, q)
      | some (some p, q) ↦ elim (mark_mem_blk q p size) [ none ↦ none | some r ↦ some (some p, r) ]
    ]

    -- the address that `alloc_mem` returns, or `none` for NULL
    unfoldable pub alloc_mem : ℕ → MemPool S → ℕ → Option (Option ℕ × MemPool S)
    alloc_mem k pool size =
        if size == 0 then some (none, pool) else elim (get_mem_blk k pool (add64 size 7 / 8 * 8)) [
          | none ↦ none
          | some (none, q) ↦ some (none, q)
          | some (some p, q) ↦ some (
            some (user_start q.mem p),
            record q { mem = store q.mem (p + 24) size; total_length = add64 q.total_length size },
          )
        ]

    unfoldable pub init_mm : S → Memory → Option (MemPool S)
    init_mm brk mem =
        let (ret, brk') = sbrk brk (header_size + tail_size) in
        elim ret [
          | none ↦ none
          | some start ↦ some (record {
            mem = init_free_blk mem start (header_size + tail_size);
            start = start;
            stop = start + (header_size + tail_size);
            total_length = 0;
            brk = brk';
          })
        ]

unfoldable pub mem_blk_ok : Memory → ℕ → Bool
mem_blk_ok mem p = (magic_num mem p == mem_blk_magic) && (in_use mem p == 1)

module _ {S : Type 0} where
  unfoldable pub free_mem_blk : MemPool S → ℕ → Option (MemPool S)
  free_mem_blk pool p = merge_free_blk (record pool { mem = store pool.mem (p + 4) 0 }) p

  -- `none` as the argument is NULL.
  unfoldable pub free_mem : MemPool S → Option ℕ → Option (MemPool S)
  unfolding free_mem_blk mem_blk_ok
  free_mem pool none = some pool
  free_mem pool (some user) =
      let p = user - header_size in
      if mem_blk_ok pool.mem p
      then free_mem_blk
          (record pool { total_length = sub64 pool.total_length (user_len pool.mem p) }) p
      else some pool

  -- the loop of `get_pool_malloc_total_length`
  unfoldable pub total_loop : ℕ → MemPool S → Option ℕ → ℕ → Option ℕ
  total_loop zero pool p total = none
  total_loop (suc k) pool none total = some total
  total_loop (suc k) pool (some p) total =
      total_loop k pool (next_mem_blk pool p)
        (if is_blk_free pool.mem p then total else add64 total (user_len pool.mem p))

  -- (size_t)(-1) is 2 ^ 64 - 1.
  unfoldable pub get_pool_malloc_total_length : MemPool S → Option ℕ
  get_pool_malloc_total_length pool = elim (total_loop (fuel pool) pool (some pool.start) 0) [
    | none ↦ none
    | some total ↦ some (if pool.total_length == total then pool.total_length else 2 ^ 64 - 1)
  ]
