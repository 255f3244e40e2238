-- ===== src/Emap/Truncate/Cut.antt =====
-- The last pages of an extent, and what a round of the loop has when they are gone.
use lcfs.Prelude.{
  ℕ, ◌+◌, ◌-◌, ◌≤◌, ◌<◌, ◌^◌, ◌≡◌, refl, sym, ap, ◌∙◌, Bool, true, false, ◌||◌, Option, some, List,
  [], ◌∷◌, ltb, ◌==◌, if◌then◌else◌, assert, ◌>>=◌, ◌>>◌, arith,
}
use lcfs.Prelude.Words.{add64}
use lcfs.Extent.{Extent, emap, validate}
use lcfs.ExtentList.View.{within, covers, total, IsSpaceBag}
use lcfs.ExtentList.Unsorted.{add_extent-unsorted}
use lcfs.Block.{add_space_extent, invalid_block}
use lcfs.Emap.Truncate.{Trimmed, trim_extent, truncate_extent}

-- The pages below this number stay.
abbrev pub keep_below : (pg : ℕ) → (partial : Bool) → ℕ
keep_below pg partial = if partial then pg + 1 else pg

-- How many pages of the extent go
abbrev pub pages_past : (keep : ℕ) → Extent → ℕ
pages_past keep e = e.ex_count - (keep - e.ex_start)

-- The extent less its last pages
abbrev pub shorten : Extent → (n : ℕ) → List Extent
shorten e n = if n == e.ex_count then [] else record e { ex_count = e.ex_count - n } ∷ []

-- The blocks of the pages from `keep` on
abbrev pub blocks_past : (keep : ℕ) → List Extent → ℕ → Bool
blocks_past keep [] b = false
blocks_past keep (e ∷ es) b =
    within (e.ex_block + (e.ex_count - pages_past keep e)) (pages_past keep e) b
    || blocks_past keep es b

-- An extent of an emap in the device
abbrev pub IsEmapExtent : (tblocks : ℕ) → Extent → Type 0
IsEmapExtent tblocks e =
    (e.ex_type ≡ emap)
    × (0 < e.ex_count)
    × (e.ex_count < 2 ^ 16)
    × (e.ex_start + e.ex_count ≤ 2 ^ 52)
    × (0 < e.ex_block)
    × (e.ex_block + e.ex_count ≤ tblocks)

-- Some of the blocks at the end of an extent join the list.
pub add_past :
    (tblocks block n : ℕ) (freed : List Extent)
    → tblocks < invalid_block
    → 0 < block
    → 0 < n
    → block + n ≤ tblocks
    → IsSpaceBag tblocks freed
    → (freed' : List Extent) × (add_space_extent tblocks freed block n false ≡ some freed')
      × IsSpaceBag tblocks freed'
      × ((b : ℕ) → covers freed' b ≡ (within block n b || covers freed b))
      × (total freed' ≡ n + total freed)
unfolding add_space_extent
add_past tblocks block n freed tb p c b bag =
    let (freed', run, bag', _, v, t) =
      add_extent-unsorted tblocks block n freed (omega arith) p c b bag in
    let p' : ltb 0 block ≡ true = ground arith in
    let c' : ltb 0 n ≡ true = ground arith in
    let q : (block == invalid_block) ≡ false = ground arith in
    (freed', rw (p', c', q) run, bag', v, t)

-- The body of the round for an extent of an emap in the device
pub truncate_extent-body :
    (tblocks pg : ℕ) (partial : Bool) (e : Extent) (freed : List Extent) (bcount : ℕ)
    (zero_page : Bool) (r : Option Trimmed)
    → tblocks < invalid_block
    → IsEmapExtent tblocks e
    → (if ltb pg e.ex_start
        then (add_space_extent tblocks freed e.ex_block e.ex_count false >>= λ freed'.
            some (record {
              kept = [];
              freed = freed';
              bcount = add64 bcount e.ex_count;
              zero_page = zero_page;
            }))
        else (if ltb pg (e.ex_start + e.ex_count)
            then (if partial
                then trim_extent tblocks e (e.ex_start + e.ex_count - pg - 1) true freed bcount
                else trim_extent tblocks e (e.ex_start + e.ex_count - pg) zero_page freed bcount)
            else (assert (bcount == 0)
                >> some (record {
                  kept = e ∷ [];
                  freed = freed;
                  bcount = bcount;
                  zero_page = zero_page;
                }))))
      ≡ r
    → truncate_extent tblocks pg partial e freed bcount zero_page ≡ r
unfolding truncate_extent validate
truncate_extent-body tblocks pg partial e freed bcount zero_page r tb ok h = ground (arith, h)

pub shorten-all : (e : Extent) (n : ℕ) → n ≡ e.ex_count → shorten e n ≡ []
shorten-all e n h = let eq : (n == e.ex_count) ≡ true = ground arith in rw eq refl

shorten-part :
    (e : Extent) (n : ℕ)
    → n < e.ex_count
    → shorten e n ≡ record e { ex_count = e.ex_count - n } ∷ []
shorten-part e n h = let eq : (n == e.ex_count) ≡ false = ground arith in rw eq refl

pub shorten-none : (e : Extent) (n : ℕ) → n ≡ 0 → 0 < e.ex_count → shorten e n ≡ e ∷ []
shorten-none e n h c =
    shorten-part e n (omega arith) ∙ ap (λ (k : ℕ). record e { ex_count = k } ∷ []) (omega arith)

abbrev pub trimmed : (kept freed : List Extent) → (bcount : ℕ) → (zero_page : Bool) → Trimmed
trimmed kept freed bcount zero_page = record {
  kept = kept;
  freed = freed;
  bcount = bcount;
  zero_page = zero_page;
}

-- The last `n` pages of an extent go: what the round has afterwards.
pub record Outcome (tblocks : ℕ) (e : Extent) (n : ℕ) (freed : List Extent) (bcount : ℕ)
    (zero_page : Bool) (freed' : List Extent) (t : Trimmed) : Type 0 where
  pub result : t ≡ trimmed (shorten e n) freed' (bcount + n) zero_page
  pub bag : IsSpaceBag tblocks freed'
  pub blocks :
      (b : ℕ) → covers freed' b ≡ (within (e.ex_block + (e.ex_count - n)) n b || covers freed b)
  pub sum : total freed' ≡ n + total freed

within-none : (a b : ℕ) → within a 0 b ≡ false
within-none a b = ground arith

pub trimmed-eq :
    (k k' f : List Extent) (b b' : ℕ) (z : Bool)
    → k ≡ k'
    → b ≡ b'
    → trimmed k f b z ≡ trimmed k' f b' z
trimmed-eq k k' f b b' z h h' = ap (λ l. trimmed l f b z) h ∙ ap (λ n. trimmed k' f n z) h'

pub nothing_cut :
    (tblocks : ℕ) (e : Extent) (n : ℕ) (freed : List Extent) (bcount : ℕ) (zero_page : Bool)
    → n ≡ 0
    → 0 < e.ex_count
    → IsSpaceBag tblocks freed
    → Outcome tblocks e n freed bcount zero_page freed (trimmed (e ∷ []) freed bcount zero_page)
nothing_cut tblocks e n freed bcount zero_page h c bag = record {
  result =
      trimmed-eq (e ∷ []) (shorten e n) freed bcount (bcount + n) zero_page
        (sym (shorten-none e n h c)) (omega arith);
  bag = bag;
  blocks = λ b. rw h (rw (within-none (e.ex_block + (e.ex_count - 0)) b) refl);
  sum = omega arith;
}
