-- ===== src/Tests/Hlinks.antt =====
-- The theorems on hard links at concrete values: the inode 7 has links in the directories 3 and 5.
use lcfs.Prelude.{ℕ, ◌+◌, ◌<◌, ◌^◌, ◌≡◌, refl, true, false, not, ◌&&◌, some, List, [], ◌∷◌, arith}
use lcfs.Hlink.{Hldata, Layer, LinkInode, new_record, parent_of, add_hlink, remove_hlink}
use lcfs.Hlink.Count.{nlinks, IsRecords, one_if, same_link}
use lcfs.Hlink.Laws.{owned, add_hlink-nlinks, remove_hlink-nlinks}

abbrev records : List Hldata
records = new_record 7 5 1 ∷ new_record 7 3 2 ∷ []

abbrev layer : Layer
layer = record {
  root = 9;
  hlinks = records;
  shared_hlinks = true;
  is_global = false;
  restarted = false;
  swap_layers_for_commit = false;
}

abbrev linked : LinkInode
linked = record { ino = 7; parent = 3; is_dir = false; mlinks = true }

abbrev single : LinkInode
single = record { ino = 8; parent = 9; is_dir = false; mlinks = false }

records-IsRecords : IsRecords records
unfolding nlinks
records-IsRecords = (omega arith, refl, (omega arith, refl, tt))

single-nlinks : (q : ℕ) → nlinks records 8 q ≡ 0
unfolding nlinks
single-nlinks q = refl

room : nlinks records 8 5 + 1 < 2 ^ 32
unfolding nlinks
room = omega arith

has_links : 0 < nlinks records 7 3
unfolding nlinks
has_links = omega arith

add_hlink-nlinks_example :
    (hs : List Hldata) × (add_hlink layer single 5
      ≡ some (owned layer hs, record single { mlinks = true }))
    × IsRecords hs
    × ((i q : ℕ)
        → nlinks hs i q
          ≡ nlinks records i q
            + one_if (not single.mlinks && same_link 8 (parent_of layer 9) i q)
            + one_if (same_link 8 (parent_of layer 5) i q))
add_hlink-nlinks_example =
    add_hlink-nlinks layer single 5 refl refl refl refl records-IsRecords room
      (λ unmarked. single-nlinks)

remove_hlink-nlinks_example :
    (hs : List Hldata) × (remove_hlink layer linked 3 ≡ some (owned layer hs))
    × IsRecords hs
    × ((i q : ℕ)
        → nlinks hs i q + one_if (same_link 7 (parent_of layer 3) i q) ≡ nlinks records i q)
remove_hlink-nlinks_example =
    remove_hlink-nlinks layer linked 3 refl refl refl refl records-IsRecords has_links
