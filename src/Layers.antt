-- ===== src/Layers.antt =====
-- lcfs/fs.c: the layers, their tree and the table of layers.
-- Layers are shared, so a `Node` (`struct fs`) stands in a store and a pointer is an `Option` of its
-- place there. Locks are not modelled: these functions run under `gfs_lock`. The flag that marks a
-- superblock dirty is `dirty`.
pub mod Slots
use lcfs.Prelude.{
  ℕ, zero, suc, ◌+◌, ◌-◌, ◌/◌, ◌%◌, ◌^◌, Bool, true, false, not, ◌&&◌, ◌||◌, Option, none, some,
  ltb, leb, ◌==◌, if◌then◌else◌, assert, ◌>>=◌, ◌>>◌,
}

-- LC_LAYER_MAX
abbrev pub layer_max : ℕ
layer_max = 65535

-- LC_ROOT_INODE
abbrev pub root_handle : ℕ
root_handle = 2

-- `struct fs` with its superblock's flags; `gindex` is `none` for -1
pub record Node : Type 0 where
  pub gindex : Option ℕ
  pub hgindex : ℕ
  pub root : ℕ
  pub rfs : ℕ
  pub parent : Option ℕ
  pub child : Option ℕ
  pub next : Option ℕ
  pub prev : Option ℕ
  pub zfs : Option ℕ
  pub single : Bool
  pub removed : Bool
  pub sb_index : ℕ
  pub sb_zombie : ℕ
  pub sb_rdwr : Bool
  pub sb_init : Bool
  pub sb_is_zombie : Bool
  pub dirty : Bool

-- The store, and `gfs_fs`, `gfs_roots` and `gfs_scount`
pub record Gfs : Type 0 where
  pub nodes : ℕ → Node
  pub table : ℕ → Option ℕ
  pub roots : ℕ → ℕ
  pub scount : ℕ

abbrev pub set_node : Gfs → ℕ → Node → Gfs
set_node g a n = record g { nodes = λ b. if b == a then n else g.nodes b }

-- A pointer equals the address.
abbrev pub points_to : Option ℕ → ℕ → Bool
points_to none a = false
points_to (some b) a = b == a

abbrev pub is_null : Option ℕ → Bool
is_null none = true
is_null (some a) = false

-- The write of a field of the node behind a pointer that may be NULL
abbrev pub set_prev_of : Gfs → Option ℕ → Option ℕ → Gfs
set_prev_of g none p = g
set_prev_of g (some a) p = set_node g a (record (g.nodes a) { prev = p })

abbrev pub set_next_of : Gfs → ℕ → Option ℕ → Gfs
set_next_of g a p = set_node g a (record (g.nodes a) { next = p })

abbrev pub mark_super_dirty : Gfs → ℕ → Gfs
mark_super_dirty g a = set_node g a (record (g.nodes a) { dirty = true })

-- `lc_getFsHandle` and `lc_getInodeHandle`
unfoldable pub get_fs_handle : ℕ → Option ℕ
get_fs_handle handle = do assert (ltb (handle / 2 ^ 48) layer_max); some (handle / 2 ^ 48)

unfoldable pub get_inode_handle : ℕ → ℕ
get_inode_handle handle = if leb handle root_handle then root_handle else handle % 2 ^ 48

-- The two ways of `lc_removeChild` to take a layer out of the list of siblings
unfoldable pub unlink_first : Gfs → (parent fs : ℕ) → Gfs
unlink_first g p fs =
    let next = (g.nodes fs).next in
    let g₁ = set_node g p (record (g.nodes p) { child = next }) in
    mark_super_dirty (set_prev_of g₁ next none) p

unfoldable pub unlink_later : Gfs → (fs : ℕ) → Option Gfs
unlink_later g fs = elim (g.nodes fs).prev [
  | none ↦ none
  | some nfs ↦
      let g₁ = mark_super_dirty (set_next_of g nfs (g.nodes fs).next) nfs in
      some (set_prev_of g₁ (g₁.nodes fs).next (g₁.nodes fs).prev)
]

-- The end of `lc_removeChild`: the parent forgets that the layer is its zombie's child.
unfoldable pub reset_zombie : Gfs → (parent : Option ℕ) → (fs : ℕ) → Gfs
reset_zombie g none fs = g
reset_zombie g (some p) fs =
    if points_to (g.nodes fs).gindex (g.nodes p).sb_zombie
    then mark_super_dirty (set_node g p (record (g.nodes p) { sb_zombie = 0 })) p
    else g

-- `lc_removeChild`
unfoldable pub remove_child : Gfs → (fs : ℕ) → Option Gfs
remove_child g fs = do
  g' ← (elim (g.nodes fs).parent [
    | none ↦ unlink_later g fs
    | some p ↦
        if points_to (g.nodes p).child fs then some (unlink_first g p fs) else unlink_later g fs
  ])
  some (reset_zombie g' (g.nodes fs).parent fs)

-- `lc_removeLayer`
unfoldable pub remove_layer : Gfs → (fs gindex : ℕ) → Option Gfs
remove_layer g fs gindex = do
  let g₁ = set_node g fs (record (g.nodes fs) { removed = true })
  assert (g₁.roots gindex == (g₁.nodes fs).root)
  let g₂ = record g₁ {
    table = λ i. if i == gindex then none else g₁.table i;
    roots = λ i. if i == gindex then 0 else g₁.roots i;
  }
  g₃ ← remove_child g₂ fs
  some (set_node g₃ fs (record (g₃.nodes fs) { gindex = none }))

-- The layer behind a pointer, if any, is a zombie.
unfoldable pub zombie_or_null : Gfs → Option ℕ → Bool
zombie_or_null g none = true
zombie_or_null g (some z) = (g.nodes z).sb_is_zombie

-- The loop of `lc_removeLayers` over zombie parents; `fuel` bounds their number.
unfoldable pub remove_zombies : (fuel : ℕ) → Gfs → Option ℕ → Option Gfs
remove_zombies fuel g none = some g
remove_zombies zero g (some z) = none
remove_zombies (suc fuel) g (some z) = (g.nodes z).gindex >>= λ gindex.
    remove_layer g z gindex >>= λ g'.
    let next = (g'.nodes z).zfs in assert (zombie_or_null g' next) >> remove_zombies fuel g' next

-- The last loop of `lc_removeLayers`: `gfs_scount` is the largest index in use.
unfoldable pub shrink_count : (table : ℕ → Option ℕ) → (scount : ℕ) → Option ℕ
shrink_count table zero = if is_null (table 0) then none else some 0
shrink_count table (suc n) =
    let rest = shrink_count table n in if is_null (table (suc n)) then rest else some (suc n)

-- `lc_removeLayers`. There are at most `layer_max` layers.
unfoldable pub remove_layers : Gfs → (fs gindex : ℕ) → Option Gfs
remove_layers g fs gindex = do
  g₁ ← remove_layer g fs gindex
  let n = g₁.nodes fs
  let with_init = n.sb_rdwr && not n.sb_init
  assert (not with_init || is_null n.zfs)
  let z = if with_init then n.parent else n.zfs
  g₂ ←
      (if with_init
        then (elim z [
          | none ↦ none
          | some p ↦
              (assert (g₁.nodes p).sb_init >> some (set_node g₁ fs (record n { zfs = some p })))
        ])
        else (assert (zombie_or_null g₁ z) >> some g₁))
  g₃ ← remove_zombies layer_max g₂ z
  scount ← shrink_count g₃.table g₃.scount
  some (record g₃ { scount = scount })

-- The errors that `lc_getLayerForRemoval` returns
pub data Errno : Type 0 where
  ebusy einval eexist eoverflow : Errno

-- What it returns: an error, no layer, or the layer that was taken off
pub data Removal : Type 0 where
  error : Errno → Removal
  made_zombie : Removal
  taken : ℕ → Removal

-- The branch for a layer that has a child
unfoldable pub make_zombie : Gfs → (fs child : ℕ) → Option (Removal × Gfs)
make_zombie g fs child =
    if points_to (g.nodes child).gindex (g.nodes fs).sb_zombie && is_null (g.nodes child).next
    then (do
      let g₁ = set_node g fs (record (g.nodes fs) { sb_is_zombie = true; dirty = true })
      assert (is_null (g₁.nodes child).zfs)
      some (made_zombie, set_node g₁ child (record (g₁.nodes child) { zfs = some fs })))
    else some (error eexist, g)

-- `lc_getLayerForRemoval`
unfoldable pub get_layer_for_removal : Gfs → (root : ℕ) → Option (Removal × Gfs)
get_layer_for_removal g root = do
  let ino = get_inode_handle root
  gindex ← get_fs_handle root
  elim (g.table gindex) [
    | none ↦ some (error ebusy, g)
    | some fs ↦ (do
      assert (points_to (g.nodes fs).gindex gindex)
      if not ((g.nodes fs).root == ino) then some (error einval, g) else (elim (g.nodes fs).child [
        | some child ↦ make_zombie g fs child
        | none ↦ (remove_layers g fs gindex >>= λ g'. some (taken fs, g'))
      ]))
  ]

-- The layer joins the list of siblings behind its first one, `child`.
unfoldable pub link_second : Gfs → (child fs : ℕ) → Gfs
link_second g child fs =
    let g₁ = set_node g child (record (g.nodes child) { single = false }) in
    let g₂ = set_node g₁ fs (record (g₁.nodes fs) { prev = some child }) in
    let g₃ = set_prev_of g₂ (g₂.nodes child).next (some fs) in
    let g₄ = set_next_of g₃ fs (g₃.nodes child).next in
    mark_super_dirty (set_next_of g₄ child (some fs)) child

-- `lc_getGlobalFs`
unfoldable pub get_global_fs : Gfs → Option ℕ
get_global_fs g = do fs ← g.table 0; assert ((g.nodes fs).root == root_handle); some fs

-- The first child of a layer
unfoldable pub link_first : Gfs → (parent fs : ℕ) → Gfs
link_first g p fs =
    let g₁ =
      if (g.nodes fs).sb_init then set_node g fs (record (g.nodes fs) { single = true }) else g in
    mark_super_dirty (set_node g₁ p (record (g₁.nodes p) { child = some fs })) p

-- `lc_addChild`
unfoldable pub add_child : Gfs → (pfs : Option ℕ) → (fs : ℕ) → Option Gfs
add_child g none fs = get_global_fs g >>= λ child. some (link_second g child fs)
add_child g (some p) fs = elim (g.nodes p).child [
  | some child ↦ some (link_second g child fs)
  | none ↦ some (link_first g p fs)
]

-- The search for a free slot, over the `n` indices up to LC_LAYER_MAX
unfoldable pub free_slot : (table : ℕ → Option ℕ) → (i n : ℕ) → Option ℕ
free_slot table i zero = none
free_slot table i (suc n) =
    let rest = free_slot table (i + 1) n in if is_null (table i) then some i else rest

-- The layer takes the slot.
unfoldable pub take_slot : Gfs → (fs i : ℕ) → Gfs
take_slot g fs i =
    let n = g.nodes fs in
    let g₁ = set_node g fs (record n { gindex = some i; sb_index = i }) in
    let g₂ = record g₁ {
      table = λ j. if j == i then some fs else g₁.table j;
      roots = λ j. if j == i then n.root else g₁.roots j;
      scount = if ltb g₁.scount i then i else g₁.scount;
    } in
    if fs == n.rfs then g₂ else set_node g₂ n.rfs (record (g₂.nodes n.rfs) { hgindex = i })

-- `lc_addLayer`; `*inval` only tells which pages the kernel drops, and is left out
unfoldable pub add_layer : Gfs → (fs : ℕ) → (pfs : Option ℕ) → Option (Option Errno × Gfs)
add_layer g fs pfs =
    let from = (g.nodes (g.nodes fs).rfs).hgindex + 1 in
    elim (free_slot g.table from (layer_max - from)) [
      | none ↦ some (some eoverflow, g)
      | some i ↦ (add_child (take_slot g fs i) pfs fs >>= λ g'. some (none, g'))
    ]
