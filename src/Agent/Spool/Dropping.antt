-- ===== src/Agent/Spool/Dropping.antt =====
-- spool.go: the loop of `Add` that drops the oldest batches.
use smotryashchiy.Base.{
  ℕ, suc, ◌+◌, ◌-◌, ◌^◌, ◌≤◌, ◌<◌, ◌≡◌, ◌≢◌, ◌⊎◌, refl, sym, ◌∙◌, List, [], ◌∷◌, none, some, Option,
  inl, inr, Bool-cases, arith, Bytes, bytes_key, length, drop,
}
use smotryashchiy.Assoc.{lookup}
use smotryashchiy.Agent.Disk.{Disk, Removal, removed, not_exist, failed, remove_file}
use smotryashchiy.Agent.Disk.Atomic.{lookup-remove_file}
use smotryashchiy.Agent.Spool.{Item, Spool, AddError, drop_failed, is_over, name_of, drop_oldest}
use smotryashchiy.Agent.Spool.Names.{name_of-ne}
use smotryashchiy.Agent.Spool.Queue.{total, Queued, Queued-le, Queued-bound, Queued-disk}

-- Where a spool came from: what dropping the oldest of `items` made of it.
pub record Dropped (s : Spool) (items : List Item) (lo hi dropped : ℕ) (s' : Spool) (n : ℕ)
    (e : Option AddError) : Type 0 where
  pub tallied : s'.bytes ≡ total s'.items
  pub queued : Queued s'.disk lo hi s'.items
  pub kept : s'.items ≡ drop (n - dropped) items
  pub counted : dropped ≤ n
  pub same_batches : s'.max_batches ≡ s.max_batches
  pub same_bytes : s'.max_bytes ≡ s.max_bytes
  pub same_seq : s'.last_seq ≡ s.last_seq
  pub fits :
      ((length s'.items ≤ s.max_batches) × (s'.bytes ≤ s.max_bytes))
      ⊎ (length s'.items ≤ 1)
      ⊎ (e ≡ some drop_failed)

pub Queued-remove :
    (d : Disk) (lo hi : ℕ) (it : Item) (rest : List Item)
    → hi < 2 ^ 64
    → Queued d lo hi (it ∷ rest)
    → Queued (remove_file d it.name).0 lo hi rest
Queued-remove d lo hi it rest fits (n, e, lt, st, q) =
    Queued-le (remove_file d it.name).0 n lo hi rest (omega arith) (
      Queued-disk d (remove_file d it.name).0 n hi rest
        (λ m low high.
          lookup-remove_file d it.name (name_of m)
            (λ p. name_of-ne n m low (omega arith) (sym e ∙ p)))
        q)

pub Queued-failed :
    (d : Disk) (name : Bytes) (lo hi : ℕ) (items : List Item)
    → (remove_file d name).1 ≡ failed
    → Queued d lo hi items
    → Queued (remove_file d name).0 lo hi items
unfolding remove_file
Queued-failed d name lo hi items e q =
    Queued-disk d (remove_file d name).0 lo hi items (λ m low high. ground arith) q

drop-none : (n : ℕ) (items : List Item) → drop (n - n) items ≡ items
drop-none n items = let e : n - n ≡ 0 = omega arith in rw e

-- The loop stops here.
stop-Dropped :
    (s : Spool) (items : List Item) (bytes dropped : ℕ) (d : Disk) (lo hi : ℕ) (e : Option AddError)
    → bytes ≡ total items
    → Queued d lo hi items
    → ((length items ≤ s.max_batches) × (bytes ≤ s.max_bytes))
      ⊎ (length items ≤ 1)
      ⊎ (e ≡ some drop_failed)
    → Dropped s items lo hi dropped (record s { items = items; bytes = bytes; disk = d }) dropped e
stop-Dropped s items bytes dropped d lo hi e t q f = record {
  tallied = t;
  queued = q;
  kept = sym (drop-none dropped items);
  counted = omega arith;
  same_batches = refl;
  same_bytes = refl;
  same_seq = refl;
  fits = f;
}

-- The loop goes on behind the oldest item.
later-Dropped :
    (s s' : Spool) (it : Item) (rest : List Item) (lo hi dropped n : ℕ) (e : Option AddError)
    → Dropped s rest lo hi (dropped + 1) s' n e
    → Dropped s (it ∷ rest) lo hi dropped s' n e
later-Dropped s s' it rest lo hi dropped n e v =
    let one : n - dropped ≡ suc (n - (dropped + 1)) = omega (arith, v.counted) in
    record {
      tallied = v.tallied;
      queued = v.queued;
      kept = rw one v.kept;
      counted = omega (arith, v.counted);
      same_batches = v.same_batches;
      same_bytes = v.same_bytes;
      same_seq = v.same_seq;
      fits = v.fits;
    }

pub Removal-cases : (r : Removal) → (r ≡ failed) ⊎ (r ≡ removed) ⊎ (r ≡ not_exist)
Removal-cases failed = inl refl
Removal-cases removed = inr (inl refl)
Removal-cases not_exist = inr (inr refl)

pub drop_oldest-Dropped :
    (s : Spool) (items : List Item) (bytes dropped : ℕ) (d : Disk) (lo hi : ℕ)
    → hi < 2 ^ 64
    → bytes ≡ total items
    → Queued d lo hi items
    → let r = drop_oldest s items bytes dropped d in Dropped s items lo hi dropped r.0 r.1 r.2
unfolding drop_oldest
drop_oldest-Dropped s [] bytes dropped d lo hi f t q =
    stop-Dropped s [] bytes dropped d lo hi none t q (inr (inl (omega arith)))
drop_oldest-Dropped s (it ∷ []) bytes dropped d lo hi f t q =
    stop-Dropped s (it ∷ []) bytes dropped d lo hi none t q (inr (inl (omega arith)))
drop_oldest-Dropped s (it ∷ next ∷ rest) bytes dropped d lo hi f t q =
    let items = it ∷ next ∷ rest in
    let d' = (remove_file d it.name).0 in
    let more = later-Dropped s _ it (next ∷ rest) lo hi dropped _ _ (
      drop_oldest-Dropped s (next ∷ rest) (bytes - it.size) (dropped + 1) d' lo hi f (omega arith)
        (Queued-remove d lo hi it (next ∷ rest) f q)) in
    elim (Bool-cases (is_over s items bytes)) [
      | inl over ↦ elim (Removal-cases (remove_file d it.name).1) [
        | inl e ↦ rw over (
            rw e (
              stop-Dropped s items bytes dropped d' lo hi (some drop_failed) t
                (Queued-failed d it.name lo hi items e q) (inr (inr refl))))
        | inr (inl e) ↦ rw over (rw e more)
        | inr (inr e) ↦ rw over (rw e more)
      ]
      | inr under ↦
          rw under (stop-Dropped s items bytes dropped d lo hi none t q (inl (ground arith)))
    ]

older-ne :
    (d : Disk) (lo hi : ℕ) (it next : Item) (rest : List Item)
    → hi < 2 ^ 64
    → Queued d lo hi (it ∷ next ∷ rest)
    → it.name ≢ name_of hi
older-ne d lo hi it next rest f (n, e, lt, st, (n', e', lt', st', q)) p =
    name_of-ne n hi (omega (arith, Queued-bound d n' hi rest q)) f (sym e ∙ p)

-- The newest batch is never dropped, and its file stays.
pub drop_oldest-newest :
    (s : Spool) (items : List Item) (bytes dropped : ℕ) (d : Disk) (lo hi : ℕ)
    → hi < 2 ^ 64
    → Queued d lo hi items
    → lookup (name_of hi) (drop_oldest s items bytes dropped d).0.disk.files
      ≡ lookup (name_of hi) d.files
unfolding drop_oldest
drop_oldest-newest s [] bytes dropped d lo hi f q = refl
drop_oldest-newest s (it ∷ []) bytes dropped d lo hi f q = refl
drop_oldest-newest s (it ∷ next ∷ rest) bytes dropped d lo hi f q =
    let d' = (remove_file d it.name).0 in
    let same : lookup (name_of hi) d'.files ≡ lookup (name_of hi) d.files =
      lookup-remove_file d it.name (name_of hi) (older-ne d lo hi it next rest f q) in
    ground (
      arith,
      same,
      drop_oldest-newest s (next ∷ rest) (bytes - it.size) (dropped + 1) d' lo hi f
          (Queued-remove d lo hi it (next ∷ rest) f q),
    )
