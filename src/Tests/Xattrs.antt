-- ===== src/Tests/Xattrs.antt =====
-- The theorems on extended attributes at concrete values: the inode 7 has the attributes "a" and "b".
use lcfs.Prelude.{
  zero, suc, ap, ℕ, ◌≡◌, ◌≤◌, ◌<◌, refl, true, false, not, ◌||◌, List, [], ◌∷◌, length, arith, none,
  some, if◌then◌else◌, ◌==◌, leb,
}
use lcfs.Block.{
  block_alloc_exact, block_alloc, find_free_block, allocate_reserved, first_fit, take_reserved,
  track_allocated, count_blocks, mark_extents_dirty, add_space_extent,
}
use lcfs.ExtentList.{add_extent, add_loop, new_extent}
use lcfs.Extent.{init_extent, decr_count, incr_start, validate}
use lcfs.Block.Release.{replace_freed_extents}
use lcfs.Chain.{pack}
use lcfs.Chain.Flush.{HasRoom}
use lcfs.Dir.{Name, name_eq}
use lcfs.Xattr.{
  Ixattr, XattrInode, XattrLayer, done, failed, size_of, buffer, enodata, erange, create, replace,
  xattr_add, xattr_get, xattr_list, find_value, find_stray, names_buffer,
}
use lcfs.Xattr.Names.{IsIxattr}
use lcfs.Xattr.Strays.{stray_in}
use lcfs.Xattr.Values.{value_in}
use lcfs.Xattr.Change.{IsWritable, Set, xattr_add-Set, Unset, xattr_remove-Unset, allows}
use lcfs.Xattr.Reply.{xattr_list-size_of, xattr_get-xattr_add, xattr_add-refusal, refusal}
use lcfs.Xattr.Disk.RoundTrip.{xattr_pages, AttrsRestored, xattr_read-xattr_flush, xattr_flush-none}
use lcfs.Xattr.Disk.{xattr_flush, xattr_dsize, xattr_block_size}
use lcfs.Tests.{space_extent}
use lcfs.Tests.Dirs.{device, layer, after_alloc}

abbrev attr_a : Name
attr_a = 97 ∷ []

abbrev attr_b : Name
attr_b = 98 ∷ []

abbrev attr_c : Name
attr_c = 99 ∷ []

abbrev value : List ℕ
value = 1 ∷ 2 ∷ 3 ∷ []

abbrev two_attrs : Ixattr
two_attrs = record {
  xattrs =
      record { x_name = attr_b; x_value = value; x_stray = false }
      ∷ record { x_name = attr_a; x_value = []; x_stray = false }
      ∷ [];
  extents = [];
  xsize = 4;
}

abbrev inode : XattrInode
inode = record { xattr_data = some two_attrs; xattr_dirty = false }

abbrev mounted : XattrLayer
mounted = record {
  layer_root = 3;
  gfs_xattr_enabled = true;
  xattr_enabled = true;
  frozen = false;
  inodes = λ i. if i == 7 then some inode else none;
}

two_attrs-IsIxattr : IsIxattr two_attrs
unfolding find_value name_eq
two_attrs-IsIxattr = record { distinct = (refl, (refl, tt)); sized = refl; bounded = omega arith }

mounted-IsWritable : IsWritable mounted 7 inode
mounted-IsWritable = record { live = refl; there = refl; in_order = two_attrs-IsIxattr }

has_b : value_in mounted 7 attr_b ≡ some value
unfolding find_value name_eq
has_b = refl

allows_b : allows replace (value_in mounted 7 attr_b) ≡ true
unfolding find_value name_eq
allows_b = refl

allows_c : allows create (value_in mounted 7 attr_c) ≡ true
unfolding find_value name_eq
allows_c = refl

set_b : stray_in mounted 7 attr_b ≡ false
unfolding find_stray name_eq
set_b = refl

safe_b : (not (stray_in mounted 7 attr_b) || length {A = ℕ} (9 ∷ []) == 0) ≡ true
unfolding find_stray name_eq
safe_b = refl

safe_c : (not (stray_in mounted 7 attr_c) || length value == 0) ≡ true
unfolding find_stray name_eq
safe_c = refl

refused_c : refusal mounted 7 attr_c replace ≡ some enodata
unfolding find_value name_eq
refused_c = refl

xattr_add-Set_example : (l' : XattrLayer) × Set mounted 7 attr_b (9 ∷ []) replace l'
xattr_add-Set_example =
    xattr_add-Set mounted 7 inode attr_b (9 ∷ []) replace refl mounted-IsWritable (omega arith)
      (omega arith) (omega arith) allows_b safe_b

xattr_remove-Unset_example : (l' : XattrLayer) × Unset mounted 7 attr_b l'
xattr_remove-Unset_example =
    xattr_remove-Unset mounted 7 inode attr_b value refl mounted-IsWritable has_b set_b

xattr_get-xattr_add_example :
    (l' : XattrLayer) × (xattr_add mounted 7 attr_c value create ≡ some (done, l'))
    × ((size : ℕ)
        → xattr_get l' 7 attr_c size
          ≡ (if size == 0 then size_of 3 else (if leb 3 size then buffer value else failed erange)))
xattr_get-xattr_add_example =
    xattr_get-xattr_add mounted 7 inode attr_c value create refl mounted-IsWritable (omega arith)
      (omega arith) (omega arith) allows_c safe_c

xattr_list-size_of_example :
    (size : ℕ) × (xattr_list mounted 7 0 ≡ some (size_of size))
    × (xattr_list mounted 7 size ≡ some (buffer (names_buffer two_attrs.xattrs)))
    × (length (names_buffer two_attrs.xattrs) ≡ size)
xattr_list-size_of_example =
    xattr_list-size_of mounted 7 inode two_attrs refl refl refl two_attrs-IsIxattr (omega arith)

xattr_add-refusal_example :
    (l' : XattrLayer) × (xattr_add mounted 7 attr_c value replace ≡ some (failed enodata, l'))
    × ((i : ℕ) (n : Name) → value_in l' i n ≡ value_in mounted i n)
xattr_add-refusal_example = xattr_add-refusal mounted 7 attr_c value replace enodata refused_c

one_page-le : length (xattr_pages two_attrs.xattrs) ≤ 1
unfolding pack
one_page-le = omega arith

device-HasRoom : HasRoom device 2 [] (length (xattr_pages two_attrs.xattrs))
unfolding after_alloc pack block_alloc_exact block_alloc find_free_block allocate_reserved first_fit
    take_reserved track_allocated count_blocks mark_extents_dirty add_space_extent add_extent
    add_loop new_extent init_extent decr_count incr_start replace_freed_extents validate
device-HasRoom = record {
  block = 20;
  allocated = after_alloc;
  recorded = after_alloc;
  extents = space_extent 20 1 ∷ [];
  alloc = refl;
  replace = refl;
  positive = omega arith;
  inside = omega arith;
}

xattr_read-xattr_flush_example :
    AttrsRestored device 2 1000 1 (λ b. none) layer mounted inode two_attrs
xattr_read-xattr_flush_example =
    xattr_read-xattr_flush device 2 1000 1 (λ b. none) layer mounted inode two_attrs
      two_attrs-IsIxattr (omega arith, omega arith, (omega arith, omega arith, tt)) (omega arith)
      (omega arith) (omega arith) one_page-le device-HasRoom

-- A value of 4090 bytes, which lc_xattrAdd accepts
abbrev zeros : (n : ℕ) → List ℕ
zeros zero = []
zeros (suc n) = 0 ∷ zeros n

length-zeros : (n : ℕ) → length (zeros n) ≡ n
length-zeros zero = refl
length-zeros (suc n) = ap suc (length-zeros n)

abbrev large : ℕ → Ixattr
large n = record {
  xattrs = record { x_name = attr_a; x_value = zeros n; x_stray = false } ∷ [];
  extents = [];
  xsize = 2;
}

too_large :
    (n : ℕ)
    → 4080 ≤ n
    → xattr_block_size
      < xattr_dsize (record { x_name = attr_a; x_value = zeros n; x_stray = false })
too_large n h = omega (arith, length-zeros n)

xattr_flush-none_example :
    xattr_flush device 2
      (λ b. none)
      (record { xattr_data = some (large 4090); xattr_dirty = true })
      (large 4090)
    ≡ none
xattr_flush-none_example =
    xattr_flush-none device 2 (λ b. none)
      (record { xattr_data = some (large 4090); xattr_dirty = true }) (large 4090) [] []
      (record { x_name = attr_a; x_value = zeros 4090; x_stray = false }) refl
      (too_large 4090 (omega arith))
