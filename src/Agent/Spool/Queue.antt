-- ===== src/Agent/Spool/Queue.antt =====
-- spool.go: what holds of the queue between two calls. Its books are right and its files are there.
use smotryashchiy.Base.{
  ℕ, ◌+◌, ◌^◌, ◌≤◌, ◌<◌, ◌≡◌, ap, List, [], ◌∷◌, ◌++◌, some, arith, Bytes, bytes_key, length,
}
use smotryashchiy.Assoc.{lookup}
use smotryashchiy.Agent.Disk.{Disk}
use smotryashchiy.Agent.Spool.{Item, Spool, name_of}

abbrev pub total : List Item → ℕ
total [] = 0
total (it ∷ rest) = it.size + total rest

-- Each item has its file, of its size.
abbrev pub IsStored : Disk → Item → Type 0
IsStored d it =
    (content : Bytes) × (lookup it.name d.files ≡ some content) × (length content ≡ it.size)

-- The items are named by rising numbers above `lo` and up to `hi`, and are stored.
abbrev pub Queued : Disk → ℕ → ℕ → List Item → Type 0
Queued d lo hi [] = lo ≤ hi
Queued d lo hi (it ∷ rest) =
    (n : ℕ) × (it.name ≡ name_of n) × (lo < n) × IsStored d it × Queued d n hi rest

pub record Inv (s : Spool) : Type 0 where
  pub tallied : s.bytes ≡ total s.items
  pub queued : Queued s.disk 0 s.last_seq s.items
  pub numbered : s.last_seq < 2 ^ 64

pub Queued-le :
    (d : Disk) (lo lo' hi : ℕ) (items : List Item)
    → lo' ≤ lo
    → Queued d lo hi items
    → Queued d lo' hi items
Queued-le d lo lo' hi [] h q = omega arith
Queued-le d lo lo' hi (it ∷ rest) h (n, e, lt, st, q) = (n, e, omega arith, st, q)

pub Queued-bound : (d : Disk) (lo hi : ℕ) (items : List Item) → Queued d lo hi items → lo ≤ hi
Queued-bound d lo hi [] q = q
Queued-bound d lo hi (it ∷ rest) (n, e, lt, st, q) = omega (arith, Queued-bound d n hi rest q)

-- A change of the disk that leaves the files of the queue alone.
pub Queued-disk :
    (d d' : Disk) (lo hi : ℕ) (items : List Item)
    → ((n : ℕ) → lo < n → n ≤ hi → lookup (name_of n) d'.files ≡ lookup (name_of n) d.files)
    → Queued d lo hi items
    → Queued d' lo hi items
Queued-disk d d' lo hi [] same q = q
Queued-disk d d' lo hi (it ∷ rest) same (n, e, lt, (c, f, sz), q) = (
  n,
  e,
  lt,
  (
    c,
    ground (
      arith,
      same n lt (Queued-bound d n hi rest q),
      ap (λ (k : Bytes). lookup k d'.files) e,
      ap (λ (k : Bytes). lookup k d.files) e,
    ),
    sz,
  ),
  Queued-disk d d' n hi rest (λ m low high. same m (omega arith) high) q,
)

pub Queued-append :
    (d : Disk) (lo hi seq : ℕ) (items : List Item) (it : Item)
    → hi < seq
    → it.name ≡ name_of seq
    → IsStored d it
    → Queued d lo hi items
    → Queued d lo seq (items ++ it ∷ [])
Queued-append d lo hi seq [] it h e st q = (seq, e, omega arith, st, omega arith)
Queued-append d lo hi seq (x ∷ rest) it h e st (n, e', lt, st', q) =
    (n, e', lt, st', Queued-append d n hi seq rest it h e st q)
