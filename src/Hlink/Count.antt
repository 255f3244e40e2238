-- ===== src/Hlink/Count.antt =====
-- How many links of an inode a directory has, by the records.
use lcfs.Prelude.{
  ℕ, ◌+◌, ◌-◌, ◌<◌, ◌^◌, ◌≡◌, refl, Bool, true, false, ◌&&◌, ◌||◌, ◌==◌, none, some, List, [], ◌∷◌,
  arith, ltb, if◌then◌else◌, Bool-cases, inl, inr,
}
use lcfs.Hlink.{Hldata, is_record, incr_record, decr_record}

-- The links of the inode in the directory.
unfoldable pub nlinks : List Hldata → (ino parent : ℕ) → ℕ
nlinks [] ino parent = 0
nlinks (h ∷ hs) ino parent = if is_record ino parent h then h.hl_nlink else nlinks hs ino parent

-- A record has at least one link, and there is one for each inode and directory.
abbrev pub IsRecords : List Hldata → Type 0
IsRecords [] = Unit
IsRecords (h ∷ hs) = (0 < h.hl_nlink) × (nlinks hs h.hl_ino h.hl_parent ≡ 0) × IsRecords hs

abbrev pub one_if : Bool → ℕ
one_if b = if b then 1 else 0

abbrev pub same_link : (ino parent i q : ℕ) → Bool
same_link ino parent i q = ino == i && parent == q

-- A record is there.
unfoldable pub has_record : List Hldata → (ino parent : ℕ) → Bool
has_record [] ino parent = false
has_record (h ∷ hs) ino parent = is_record ino parent h || has_record hs ino parent

-- The count of the first record of a link is set, or the record is dropped if that is 0.
unfoldable pub set_record : List Hldata → (ino parent n : ℕ) → List Hldata
set_record [] ino parent n = []
set_record (h ∷ hs) ino parent n =
    if is_record ino parent h
    then (if n == 0 then hs else record h { hl_nlink = n } ∷ hs)
    else h ∷ set_record hs ino parent n

pub has_record-nlinks :
    (hs : List Hldata) (ino parent : ℕ)
    → IsRecords hs
    → has_record hs ino parent ≡ ltb 0 (nlinks hs ino parent)
unfolding has_record nlinks
has_record-nlinks [] ino parent r = refl
has_record-nlinks (h ∷ hs) ino parent r = ground (arith, has_record-nlinks hs ino parent r.2)

pub nlinks-set_record :
    (hs : List Hldata) (ino parent n i q : ℕ)
    → IsRecords hs
    → has_record hs ino parent ≡ true
    → nlinks (set_record hs ino parent n) i q
      ≡ (if same_link ino parent i q then n else nlinks hs i q)
unfolding nlinks set_record has_record
nlinks-set_record [] ino parent n i q r e = cc
nlinks-set_record (h ∷ hs) ino parent n i q r e = elim (Bool-cases (is_record ino parent h)) [
  | inl here ↦ ground arith
  | inr there ↦ ground (arith, nlinks-set_record hs ino parent n i q r.2)
]

pub set_record-IsRecords :
    (hs : List Hldata) (ino parent n : ℕ)
    → IsRecords hs
    → has_record hs ino parent ≡ true
    → IsRecords (set_record hs ino parent n)
unfolding set_record has_record
set_record-IsRecords [] ino parent n r e = tt
set_record-IsRecords (h ∷ hs) ino parent n r e = elim (Bool-cases (is_record ino parent h)) [
  | inl here ↦ elim (Bool-cases (n == 0)) [
    | inl z ↦ rw (here, z) r.2
    | inr nz ↦ rw (here, nz) (ground arith, r.1, r.2)
  ]
  | inr there ↦
      let tail : has_record hs ino parent ≡ true = ground arith in
      rw there (
        r.0,
        ground (arith, nlinks-set_record hs ino parent n h.hl_ino h.hl_parent r.2 tail),
        set_record-IsRecords hs ino parent n r.2 tail,
      )
]

pub incr_record-set_record :
    (hs : List Hldata) (ino parent : ℕ)
    → nlinks hs ino parent + 1 < 2 ^ 32
    → incr_record hs ino parent ≡ (
        if has_record hs ino parent
        then some (set_record hs ino parent (nlinks hs ino parent + 1))
        else none)
unfolding incr_record set_record has_record nlinks
incr_record-set_record [] ino parent b = refl
incr_record-set_record (h ∷ hs) ino parent b = ground (arith, incr_record-set_record hs ino parent)

pub decr_record-set_record :
    (hs : List Hldata) (ino parent : ℕ)
    → IsRecords hs
    → has_record hs ino parent ≡ true
    → decr_record hs ino parent ≡ some (set_record hs ino parent (nlinks hs ino parent - 1))
unfolding decr_record set_record has_record nlinks
decr_record-set_record [] ino parent r e = cc
decr_record-set_record (h ∷ hs) ino parent r e =
    ground (arith, decr_record-set_record hs ino parent r.2)
