-- ===== src/Hlink/Laws.antt =====
-- `lc_addHlink` and `lc_removeHlink` count the links of an inode in each directory.
use lcfs.Prelude.{
  ℕ, ◌+◌, ◌-◌, ◌<◌, ◌^◌, ◌≡◌, refl, ap, ◌∙◌, true, false, ◌&&◌, ◌==◌, none, some, List, [], ◌∷◌,
  arith, if◌then◌else◌, Bool-cases, inl, inr, not,
}
use lcfs.Hlink.{
  Hldata, Layer, LinkInode, parent_of, incr_record, add_record, add_first_record, add_hlink,
  remove_hlink, remove_from, own_hlinks, copy_hlinks, copy_records, new_record,
}
use lcfs.Hlink.Count.{
  nlinks, IsRecords, one_if, same_link, has_record, set_record, has_record-nlinks,
  nlinks-set_record, set_record-IsRecords, incr_record-set_record, decr_record-set_record,
}

-- The layer with a list of its own.
abbrev pub owned : Layer → List Hldata → Layer
owned fs hs = record fs { hlinks = hs; shared_hlinks = false }

copy_records_id : (hs : List Hldata) → copy_records hs ≡ hs
unfolding copy_records
copy_records_id [] = refl
copy_records_id (h ∷ hs) = ap (λ r. h ∷ r) (copy_records_id hs)

own_hlinks-owned : (fs : Layer) → own_hlinks fs ≡ some (owned fs fs.hlinks)
unfolding own_hlinks copy_hlinks
own_hlinks-owned fs = elim (Bool-cases fs.shared_hlinks) [
  | inl s ↦ rw s (ap (λ hs. some (owned fs hs)) (copy_records_id fs.hlinks))
  | inr o ↦ rw o refl
]

add_record-old :
    (hs : List Hldata) (ino parent : ℕ)
    → nlinks hs ino parent + 1 < 2 ^ 32
    → has_record hs ino parent ≡ true
    → add_record hs ino parent ≡ set_record hs ino parent (nlinks hs ino parent + 1)
unfolding add_record
add_record-old hs ino parent b e =
    let run = incr_record-set_record hs ino parent b in
    let run' : incr_record hs ino parent
        ≡ some (set_record hs ino parent (nlinks hs ino parent + 1)) =
      run
      ∙ ap (λ t. if t then some (set_record hs ino parent (nlinks hs ino parent + 1)) else none)
          e in
    rw (add_record, run') refl

add_record-new :
    (hs : List Hldata) (ino parent : ℕ)
    → nlinks hs ino parent + 1 < 2 ^ 32
    → has_record hs ino parent ≡ false
    → add_record hs ino parent ≡ new_record ino parent 1 ∷ hs
unfolding add_record
add_record-new hs ino parent b e =
    let run = incr_record-set_record hs ino parent b in
    let run' : incr_record hs ino parent ≡ none =
      run
      ∙ ap (λ t. if t then some (set_record hs ino parent (nlinks hs ino parent + 1)) else none)
          e in
    rw (add_record, run') refl

-- The records count the link that was added.
unfoldable AddsLink : (hs hs' : List Hldata) → (ino parent : ℕ) → Type 0
AddsLink hs hs' ino parent =
    IsRecords hs' × ((i q : ℕ) → nlinks hs' i q ≡ nlinks hs i q + one_if (same_link ino parent i q))

new_record-AddsLink :
    (hs : List Hldata) (ino parent : ℕ)
    → IsRecords hs
    → nlinks hs ino parent ≡ 0
    → AddsLink hs (new_record ino parent 1 ∷ hs) ino parent
unfolding AddsLink nlinks
new_record-AddsLink hs ino parent r z = ((omega arith, z, r), λ i q. ground arith)

add_record-AddsLink :
    (hs : List Hldata) (ino parent : ℕ)
    → IsRecords hs
    → nlinks hs ino parent + 1 < 2 ^ 32
    → AddsLink hs (add_record hs ino parent) ino parent
unfolding AddsLink
add_record-AddsLink hs ino parent r b = elim (Bool-cases (has_record hs ino parent)) [
  | inl there ↦ rw (add_record-old hs ino parent b there) (
    set_record-IsRecords hs ino parent (nlinks hs ino parent + 1) r there,
    λ i q. ground (arith, nlinks-set_record hs ino parent (nlinks hs ino parent + 1) i q r there),
  )
  | inr new ↦
      let no_links : nlinks hs ino parent ≡ 0 = ground (arith, has_record-nlinks hs ino parent r) in
      rw (add_record-new hs ino parent b new) (new_record-AddsLink hs ino parent r no_links)
]

-- The records of the first link beyond the one that the inode has.
add_first_record-lem :
    (hs : List Hldata) (ino old parent : ℕ)
    → IsRecords hs
    → ((q : ℕ) → nlinks hs ino q ≡ 0)
    → IsRecords (add_first_record hs ino old parent)
      × ((i q : ℕ)
          → nlinks (add_first_record hs ino old parent) i q
            ≡ nlinks hs i q + one_if (same_link ino old i q) + one_if (same_link ino parent i q))
unfolding nlinks add_first_record
add_first_record-lem hs ino old parent r fresh = elim (Bool-cases (parent == old)) [
  | inl same ↦ rw same ((omega arith, fresh old, r), λ i q. ground (arith, fresh old))
  | inr other ↦ rw other (
    (omega arith, ground (arith, fresh parent), (omega arith, fresh old, r)),
    λ i q. ground (arith, fresh old, fresh parent),
  )
]

remove_from-set_record :
    (fs : Layer) (inode : LinkInode) (parent : ℕ) (hs : List Hldata)
    → IsRecords fs.hlinks
    → has_record fs.hlinks inode.ino (parent_of fs parent) ≡ true
    → has_record hs inode.ino (parent_of fs parent) ≡ true
    → remove_from fs inode parent hs
      ≡ some (
          owned fs (
            set_record fs.hlinks inode.ino
              (parent_of fs parent)
              (nlinks fs.hlinks inode.ino (parent_of fs parent) - 1)))
unfolding remove_from has_record
remove_from-set_record fs inode parent [] r there some_record = cc
remove_from-set_record fs inode parent (h ∷ hs) r there some_record =
    let run = decr_record-set_record fs.hlinks inode.ino (parent_of fs parent) r there in
    rw (own_hlinks-owned fs) (rw run refl)

-- In a layer that tracks hard links (not the global one, no restart and no swap of layers before),
-- whose records are sound and hold fewer than 2^32 - 1 links of the inode in the directory, adding a
-- link of an inode that is no directory stops at no `assert`. Afterwards the layer's records are its
-- own and sound, the inode is marked, and they count one more link of the inode in the directory,
-- and, if it was not marked, which it is once it has records, one in its own parent directory.
pub add_hlink-nlinks :
    (fs : Layer) (inode : LinkInode) (parent : ℕ)
    → fs.swap_layers_for_commit ≡ false
    → fs.restarted ≡ false
    → fs.is_global ≡ false
    → inode.is_dir ≡ false
    → IsRecords fs.hlinks
    → nlinks fs.hlinks inode.ino (parent_of fs parent) + 1 < 2 ^ 32
    → (inode.mlinks ≡ false → (q : ℕ) → nlinks fs.hlinks inode.ino q ≡ 0)
    → (hs : List Hldata) × (add_hlink fs inode parent
        ≡ some (owned fs hs, record inode { mlinks = true }))
      × IsRecords hs
      × ((i q : ℕ)
          → nlinks hs i q
            ≡ nlinks fs.hlinks i q
              + one_if (not inode.mlinks && same_link inode.ino (parent_of fs inode.parent) i q)
              + one_if (same_link inode.ino (parent_of fs parent) i q))
unfolding add_hlink AddsLink
add_hlink-nlinks fs inode parent swap restart global dir r b fresh =
    let p = parent_of fs parent in
    let own = own_hlinks-owned fs in
    elim (Bool-cases inode.mlinks) [
      | inl marked ↦
          let (r', n) = add_record-AddsLink fs.hlinks inode.ino p r b in
          (
            add_record fs.hlinks inode.ino p,
            rw own (rw (swap, restart, global, dir, marked) refl),
            r',
            λ i q. ground (arith, n i q),
          )
      | inr unmarked ↦
          let (r', n) =
            add_first_record-lem fs.hlinks inode.ino (parent_of fs inode.parent) p r
              (fresh unmarked) in
          (
            add_first_record fs.hlinks inode.ino (parent_of fs inode.parent) p,
            rw own (rw (swap, restart, global, dir, unmarked) refl),
            r',
            λ i q. ground (arith, n i q),
          )
    ]

-- In a layer without a restart or a swap of layers before, whose records are sound, removing a link
-- of a marked inode that is no directory from a directory in which it has a link stops at no
-- `assert`. Afterwards the layer's records are its own and sound, and count one link less of the
-- inode in the directory, and all others as before.
pub remove_hlink-nlinks :
    (fs : Layer) (inode : LinkInode) (parent : ℕ)
    → fs.swap_layers_for_commit ≡ false
    → fs.restarted ≡ false
    → inode.is_dir ≡ false
    → inode.mlinks ≡ true
    → IsRecords fs.hlinks
    → 0 < nlinks fs.hlinks inode.ino (parent_of fs parent)
    → (hs : List Hldata) × (remove_hlink fs inode parent ≡ some (owned fs hs))
      × IsRecords hs
      × ((i q : ℕ)
          → nlinks hs i q + one_if (same_link inode.ino (parent_of fs parent) i q)
            ≡ nlinks fs.hlinks i q)
unfolding remove_hlink
remove_hlink-nlinks fs inode parent swap restart dir marked r pos =
    let p = parent_of fs parent in
    let n = nlinks fs.hlinks inode.ino p in
    let there : has_record fs.hlinks inode.ino p ≡ true =
      ground (arith, has_record-nlinks fs.hlinks inode.ino p r) in
    (
      set_record fs.hlinks inode.ino p (n - 1),
      rw (remove_from-set_record fs inode parent fs.hlinks r there there)
          (rw (swap, restart, dir, marked) refl),
      set_record-IsRecords fs.hlinks inode.ino p (n - 1) r there,
      λ i q. ground (arith, nlinks-set_record fs.hlinks inode.ino p (n - 1) i q r there),
    )
