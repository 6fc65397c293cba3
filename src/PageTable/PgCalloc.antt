-- ===== src/PageTable/PgCalloc.antt =====
-- `pg_calloc` of mm/mmu.c, which gives the tables while the machine starts, is an allocator that the page
-- tables can rely on.
use tout_os.Base.{
  ℕ, suc, ◌+◌, ◌*◌, ◌%◌, ◌^◌, ◌≤◌, ◌<◌, ◌≡◌, refl, ap, ◌∙◌, sym, false, Option, none, some, leb,
  if◌then◌else◌, arith, Bool-cases, inl, inr,
}
use tout_os.PageTable.{Calloc}
use tout_os.PageTable.Tree.{CallocLaws}

-- for order 0; the static `offset` is counted in pages
unfoldable pub pg_calloc : ℕ → ℕ → Calloc ℕ
pg_calloc pg_mem page_table_ram_size offset =
    if leb page_table_ram_size (4096 * offset + 4096)
    then (none, offset)
    else (some (pg_mem + 4096 * offset), suc offset)

pair_first : {p q : Option ℕ × ℕ} → p ≡ q → p.0 ≡ q.0
pair_first e = ap (λ (r : Option ℕ × ℕ). r.0) e

pair_second : {p q : Option ℕ × ℕ} → p ≡ q → p.1 ≡ q.1
pair_second e = ap (λ (r : Option ℕ × ℕ). r.1) e

none≢some : (p : ℕ) → none ≡ some p → ⊥
none≢some p e = cc

some_injective : (a b : ℕ) → some a ≡ some b → a ≡ b
some_injective a b e = cc

-- A page that `pg_calloc` gives is the next one, which ends below the end of the memory.
pub pg_calloc-next :
    (pg_mem size offset p offset' : ℕ)
    → pg_calloc pg_mem size offset ≡ (some p, offset')
    → (4096 * offset + 4096 < size) × (p ≡ pg_mem + 4096 * offset) × (offset' ≡ suc offset)
unfolding pg_calloc
pg_calloc-next pg_mem size offset p offset' e =
    elim (Bool-cases (leb size (4096 * offset + 4096))) [
      | inl y ↦
          let stop : pg_calloc pg_mem size offset ≡ (none, offset) =
            rw (pg_calloc, y, if◌then◌else◌) refl in
          absurd (none≢some p (pair_first (sym stop ∙ e)))
      | inr z ↦
          let more : pg_calloc pg_mem size offset ≡ (some (pg_mem + 4096 * offset), suc offset) =
            rw (pg_calloc, z, if◌then◌else◌) refl in
          let same = sym more ∙ e in
          (
            ground (arith, z),
            sym (some_injective (pg_mem + 4096 * offset) p (pair_first same)),
            sym (pair_second same),
          )
    ]

-- the laws of an allocator, for the memory from `pg_mem` on
abbrev pub pg_calloc_laws :
    (pg_mem size : ℕ)
    → pg_mem % 4096 ≡ 0
    → pg_mem + size ≤ 2 ^ 48
    → CallocLaws false (pg_calloc pg_mem size)
pg_calloc_laws pg_mem size aligned short = record {
  free = λ offset q. pg_mem + 4096 * offset ≤ q;
  gives = λ offset p offset' e.
      let (room, at, next) = pg_calloc-next pg_mem size offset p offset' e in
      (
        omega (arith, at),
        λ f. omega (arith, f, at, next),
        omega (arith, at, aligned),
        omega (arith, at, room, short),
        omega (arith, at, room, short),
      );
  keeps = λ offset p offset' e q f.
      let (room, at, next) = pg_calloc-next pg_mem size offset p offset' e in
      omega (arith, f, next);
}
