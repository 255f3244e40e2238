-- ===== src/Extent.antt =====
-- lcfs/extent.h: one extent, its accessors and the test for adjacent extents.
-- A failed `assert` is `none`. The union is read through `ex_type` only, so its two views of the
-- count are one field, and `ex_block` has a meaning in an emap extent. A `gfs` that may be NULL is
-- an `Option`, which holds `gfs->gfs_super->sb_tblocks`.
pub mod Fits
use lcfs.Prelude.{
  ℕ, ◌+◌, ◌-◌, ◌%◌, ◌^◌, Bool, true, false, not, ◌&&◌, ◌||◌, Option, none, some, ltb, leb, ◌==◌,
  if◌then◌else◌, assert, ◌>>=◌, ◌>>◌,
}
use lcfs.Prelude.Words.{add64, sub64}

pub data ExtentType : Type 0 where
  space emap : ExtentType

-- LC_EXTENT_EMAP_MAX
abbrev pub emap_max : ℕ
emap_max = 65535

pub record Extent : Type 0 where
  pub ex_type : ExtentType
  pub ex_start : ℕ
  pub ex_count : ℕ
  pub ex_block : ℕ

abbrev pub is_space : ExtentType → Bool
is_space space = true
is_space emap = false

abbrev pub get_start : Extent → ℕ
get_start e = e.ex_start

abbrev pub get_block : Extent → ℕ
get_block e = if is_space e.ex_type then 0 else e.ex_block

abbrev pub get_count : Extent → ℕ
get_count e = e.ex_count

abbrev pub in_device : Option ℕ → ℕ → Bool
in_device none end = true
in_device (some tblocks) end = leb end tblocks

unfoldable pub validate : Option ℕ → Extent → Option (Unit {0})
validate gfs e = do
  assert (is_space e.ex_type || ltb 0 e.ex_block)
  assert (ltb 0 (get_count e))
  assert (
      in_device gfs (add64 (if is_space e.ex_type then get_start e else get_block e) (get_count e)))

-- `ex_start` has 63 bits, `ex_block` 48 and the count of an emap extent 16.
abbrev pub set_start : Extent → ℕ → Extent
set_start e start = record e { ex_start = start % 2 ^ 63 }

abbrev pub set_block : Extent → ℕ → Extent
set_block e block = if is_space e.ex_type then e else record e { ex_block = block % 2 ^ 48 }

abbrev pub set_count : Extent → ℕ → Option Extent
set_count e count =
    if is_space e.ex_type
    then some (record e { ex_count = count })
    else (assert (leb count emap_max) >> some (record e { ex_count = count % 2 ^ 16 }))

abbrev fresh : ExtentType → Extent
fresh type = record { ex_type = type; ex_start = 0; ex_count = 0; ex_block = 0 }

unfoldable pub init_extent : Option ℕ → ExtentType → (start block count : ℕ) → Option Extent
unfolding validate
init_extent gfs type start block count = do
  assert (ltb 0 count)
  e ← set_count (set_block (set_start (fresh type) start) block) count
  validate gfs e
  some e

unfoldable pub incr_start : Option ℕ → Extent → ℕ → Option Extent
unfolding validate
incr_start gfs e count =
    let e' = set_block (set_start e (e.ex_start + count)) (e.ex_block + count) in
    validate gfs e' >> some e'

unfoldable pub decr_start : Option ℕ → Extent → ℕ → Option Extent
unfolding validate
decr_start gfs e count =
    let e' = set_block (set_start e (sub64 e.ex_start count)) (sub64 e.ex_block count) in
    validate gfs e' >> some e'

unfoldable pub incr_count : Option ℕ → Extent → ℕ → Option Extent
unfolding validate
incr_count gfs e count = do
  assert (is_space e.ex_type || leb (add64 e.ex_count count) emap_max)
  let e' = record e { ex_count = add64 e.ex_count count }
  validate gfs e'
  some e'

-- The extent, and whether all of it is gone.
unfoldable pub decr_count : Option ℕ → Extent → ℕ → Option (Extent × Bool)
unfolding validate
decr_count gfs e count = if e.ex_count == count then some (e, true) else do
  assert (ltb count e.ex_count)
  let e' = record e { ex_count = e.ex_count - count }
  validate gfs e'
  some (e', false)

unfoldable pub adjacent : (estart eblock count nstart nblock ncount : ℕ) → Option Bool
adjacent estart eblock count nstart nblock ncount =
    if ltb 0 eblock
    then some (
        not (ltb emap_max (add64 ncount count))
        && (add64 estart count == nstart && add64 eblock count == nblock))
    else (assert (nblock == 0) >> some (add64 estart count == nstart))
