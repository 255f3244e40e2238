-- ===== src/Extent/Fits.antt =====
-- The bounds that the fields and the device put on an extent, and the operations within them.
use lcfs.Prelude.{ℕ, ◌+◌, ◌-◌, ◌≤◌, ◌<◌, ◌^◌, ◌≡◌, false, true, ◌⊎◌, arith, some, none, Option}
use lcfs.Extent.{Extent, ExtentType, space, emap, emap_max, init_extent, incr_start, decr_count}

-- Page numbers lie below 2 ^ 52, since files have less than 2 ^ 64 bytes.
abbrev pub Fits : ℕ → Extent → Type 0
Fits tblocks e =
    (0 < e.ex_count)
    × (e.ex_start + e.ex_count ≤ 2 ^ 52)
    × (((e.ex_type ≡ space) × (e.ex_start + e.ex_count ≤ tblocks))
        ⊎ ((e.ex_type ≡ emap)
            × (0 < e.ex_block)
            × (e.ex_count ≤ emap_max)
            × (e.ex_block + e.ex_count ≤ tblocks)))

-- The extent `e` less its first `k` units.
unfoldable pub drop_front : Extent → ℕ → Extent
drop_front e k = record e {
  ex_start = e.ex_start + k;
  ex_count = e.ex_count - k;
  ex_block = elim e.ex_type [ space ↦ e.ex_block | emap ↦ e.ex_block + k ];
}

unfoldable pub make : ExtentType → (start block count : ℕ) → Extent
make type start block count = record {
  ex_type = type;
  ex_start = start;
  ex_count = count;
  ex_block = elim type [ space ↦ 0 | emap ↦ block ];
}

module _ (tblocks : ℕ) (e : Extent) (k : ℕ) (tb : tblocks < 2 ^ 48) (fits : Fits tblocks e) where
  pub decr_count-eq_some :
      k < e.ex_count
      → decr_count (some tblocks) e k ≡ some (record e { ex_count = e.ex_count - k }, false)
  unfolding decr_count
  decr_count-eq_some h = ground arith

  pub incr_start-eq_some :
      k < e.ex_count
      → incr_start (some tblocks) (record e { ex_count = e.ex_count - k }) k ≡ some (drop_front e k)
  unfolding incr_start drop_front
  incr_start-eq_some h = ground arith

  pub incr_start-none-eq_some :
      k < e.ex_count
      → incr_start none (record e { ex_count = e.ex_count - k }) k ≡ some (drop_front e k)
  unfolding incr_start drop_front
  incr_start-none-eq_some h = ground arith

  pub drop_front-Fits : k < e.ex_count → Fits tblocks (drop_front e k)
  unfolding drop_front
  drop_front-Fits h = ground arith

pub decr_count_all :
    (tblocks : ℕ) (e : Extent) → decr_count (some tblocks) e e.ex_count ≡ some (e, true)
unfolding decr_count
decr_count_all tblocks e = ground arith

pub init_extent-make :
    (gfs : Option ℕ) (tblocks : ℕ) (type : ExtentType) (start block count : ℕ)
    → (gfs ≡ none) ⊎ (gfs ≡ some tblocks)
    → tblocks < 2 ^ 48
    → Fits tblocks (make type start block count)
    → init_extent gfs type start block count ≡ some (make type start block count)
unfolding init_extent make
init_extent-make gfs tblocks space start block count g tb fits = ground arith
init_extent-make gfs tblocks emap start block count g tb fits = ground arith
