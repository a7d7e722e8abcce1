-- ===== src/Agent/Spool/Peeking.antt =====
-- spool.go: `Peek` and `Remove` take batches from the front, and account for each.
use mathlib.Core.Path.{subst}
use smotryashchiy.Base.{
  ℕ, ◌+◌, ◌-◌, ◌^◌, ◌≤◌, ◌<◌, ◌≡◌, inl, inr, refl, ap, List, [], ◌∷◌, Option, none, some, arith,
  Bytes, bytes_key, bytes_eq_iff, if◌then◌else◌, length,
}
use smotryashchiy.Agent.Disk.{Disk, Removal, removed, not_exist, failed, remove_file, read_file}
use smotryashchiy.Agent.Spool.Queue.{total, Queued, Inv, Queued-disk}
use smotryashchiy.Agent.Spool.Dropping.{Queued-remove, Queued-failed, Removal-cases}
use smotryashchiy.Agent.Spool.{
  Codec, Item, Entry, Spool, Peeked, entry, empty, discard_failed, decode, find_item, cut_item,
  peek_from, peek, remove,
}

-- The state of the queue behind what was shown.
abbrev pub Front : Spool → Peeked → Type 0
Front s (entry e) = (it : Item) × (rest : List Item) × (s.items ≡ it ∷ rest) × (it.name ≡ e.name)
Front s empty = s.items ≡ []
Front s discard_failed = Unit

-- The three ways out of one round of `Peek`.
choose :
    (P : Spool × Peeked → Type 0) (read : Option (Bytes × Bytes)) (removal : Removal)
    (found : Bytes × Bytes → Spool × Peeked) (stuck later : Spool × Peeked)
    → ((kb : Bytes × Bytes) → read ≡ some kb → P (found kb))
    → (removal ≡ failed → P stuck)
    → P later
    → P (elim read [ some kb ↦ found kb | none ↦ elim removal [ failed ↦ stuck | _ ↦ later ] ])
choose P (some kb) _ found stuck later f s l = f kb refl
choose P none failed found stuck later f s l = s refl
choose P none removed found stuck later f s l = l
choose P none not_exist found stuck later f s l = l

pub Queued-read :
    (d : Disk) (name : Bytes) (lo hi : ℕ) (items : List Item)
    → Queued d lo hi items
    → Queued (read_file d name).0 lo hi items
unfolding read_file
Queued-read d name lo hi items q =
    Queued-disk d (read_file d name).0 lo hi items (λ m low high. refl) q

module _ (codec : Codec) where
  -- The state in which the loop goes on behind an unreadable file.
  unfoldable pub discarded : Spool → Item → Spool
  discarded s it = record s {
    bytes = s.bytes - it.size;
    corrupt = s.corrupt + 1;
    disk = (remove_file (read_file s.disk it.name).0 it.name).0;
  }

  -- The front is shown, its removal fails, or the loop goes on.
  pub peek_rule :
      (P : Spool × Peeked → Type 0) (s : Spool) (it : Item) (rest : List Item)
      → let (d, raw) = read_file s.disk it.name in
        ((kb : Bytes × Bytes)
          → decode codec raw ≡ some kb
          → P (
            record s { items = it ∷ rest; disk = d },
            entry (record { key = kb.0; batch = kb.1; name = it.name }),
          ))
        → ((remove_file d it.name).1 ≡ failed
            → P (record s { items = it ∷ rest; disk = (remove_file d it.name).0 }, discard_failed))
        → P (peek_from codec (discarded s it) rest)
        → P (peek_from codec s (it ∷ rest))
  unfolding peek_from discarded
  peek_rule P s it rest f g h =
      let d = (read_file s.disk it.name).0 in
      choose P (decode codec (read_file s.disk it.name).1) (remove_file d it.name).1
        (λ kb. (
          record s { items = it ∷ rest; disk = d },
          entry (record { key = kb.0; batch = kb.1; name = it.name }),
        ))
        (record s { items = it ∷ rest; disk = (remove_file d it.name).0 }, discard_failed)
        (peek_from codec (discarded s it) rest) f g h

  peek_from-counts :
      (s : Spool) (items : List Item)
      → (peek_from codec s items).0.corrupt + length (peek_from codec s items).0.items
        ≡ s.corrupt + length items
  unfolding peek_from discarded
  peek_from-counts s [] = omega arith
  peek_from-counts s (it ∷ rest) =
      peek_rule (λ r. r.0.corrupt + length r.0.items ≡ s.corrupt + length (it ∷ rest)) s it rest
        (λ kb g. refl) (λ e. refl) (omega (arith, peek_from-counts (discarded s it) rest))

  peek_from-Front :
      (s : Spool) (items : List Item)
      → Front (peek_from codec s items).0 (peek_from codec s items).1
  unfolding peek_from
  peek_from-Front s [] = refl
  peek_from-Front s (it ∷ rest) =
      peek_rule (λ r. Front r.0 r.1) s it rest (λ kb g. (it, rest, refl, refl)) (λ e. tt)
        (peek_from-Front (discarded s it) rest)

  peek_from-Inv :
      (s : Spool) (items : List Item)
      → s.bytes ≡ total items
      → Queued s.disk 0 s.last_seq items
      → s.last_seq < 2 ^ 64
      → Inv (peek_from codec s items).0
  unfolding peek_from discarded
  peek_from-Inv s [] t q f = record { tallied = t; queued = q; numbered = f }
  peek_from-Inv s (it ∷ rest) t q f =
      let d = (read_file s.disk it.name).0 in
      let q' = Queued-read s.disk it.name 0 s.last_seq (it ∷ rest) q in
      peek_rule (λ r. Inv r.0) s it rest (λ kb g. record { tallied = t; queued = q'; numbered = f })
        (λ e. record {
          tallied = t;
          queued = Queued-failed d it.name 0 s.last_seq (it ∷ rest) e q';
          numbered = f;
        })
        (peek_from-Inv (discarded s it) rest (omega arith)
          (Queued-remove d 0 s.last_seq it rest f q') f)

  peek_from-corrupt-le :
      (s : Spool) (items : List Item) → s.corrupt ≤ (peek_from codec s items).0.corrupt
  unfolding peek_from discarded
  peek_from-corrupt-le s [] = omega arith
  peek_from-corrupt-le s (it ∷ rest) =
      peek_rule (λ r. s.corrupt ≤ r.0.corrupt) s it rest (λ kb g. omega arith) (λ e. omega arith)
        (omega (arith, peek_from-corrupt-le (discarded s it) rest))

  pub peek-corrupt-le : (s : Spool) → s.corrupt ≤ (peek codec s).0.corrupt
  unfolding peek
  peek-corrupt-le s = peek_from-corrupt-le s s.items

  -- Every batch that a look takes off the queue is counted as corrupt.
  pub peek_counts :
      (s : Spool)
      → (peek codec s).0.corrupt + length (peek codec s).0.items ≡ s.corrupt + length s.items
  unfolding peek
  peek_counts s = peek_from-counts s s.items

  pub peek-Front : (s : Spool) → Front (peek codec s).0 (peek codec s).1
  unfolding peek
  peek-Front s = peek_from-Front s s.items

  -- A look at the queue keeps its invariant, whatever it discards and whatever call fails.
  pub peek-Inv : (s : Spool) → Inv s → Inv (peek codec s).0
  unfolding peek
  peek-Inv s v = peek_from-Inv s s.items v.tallied v.queued v.numbered

-- Removing the batch that was shown takes the first item off, or fails and takes none.
pub remove-front :
    (s : Spool) (e : Entry) (it : Item) (rest : List Item)
    → s.items ≡ it ∷ rest
    → it.name ≡ e.name
    → ((remove s e).0.items ≡ (if (remove s e).1 then rest else it ∷ rest))
      × ((remove s e).0.corrupt ≡ s.corrupt)
unfolding remove
remove-front s e it rest h n = ground (arith, bytes_eq_iff it.name e.name)

-- Removing the batch that was shown keeps the invariant of the queue, also when the removal fails.
pub remove-Inv :
    (s : Spool) (e : Entry) (it : Item) (rest : List Item)
    → Inv s
    → s.items ≡ it ∷ rest
    → it.name ≡ e.name
    → Inv (remove s e).0
unfolding remove
remove-Inv s e it rest v h n =
    let found : find_item e.name s.items ≡ some it = ground (arith, bytes_eq_iff it.name e.name) in
    let cut : cut_item e.name s.items ≡ rest = ground (arith, bytes_eq_iff it.name e.name) in
    let q : Queued s.disk 0 s.last_seq (it ∷ rest) =
      subst (Queued s.disk 0 s.last_seq) h v.queued in
    let after : Inv (record s {
      items = cut_item e.name s.items;
      bytes = s.bytes - it.size;
      disk = (remove_file s.disk it.name).0;
    }) =
      record {
        tallied = rw cut (omega (arith, v.tallied, ap total h));
        queued = rw cut (Queued-remove s.disk 0 s.last_seq it rest v.numbered q);
        numbered = v.numbered;
      } in
    elim (Removal-cases (remove_file s.disk it.name).1) [
      | inl r ↦
          rw (found, remove)
            (rw r (record {
              tallied = v.tallied;
              queued = Queued-failed s.disk it.name 0 s.last_seq s.items r v.queued;
              numbered = v.numbered;
            }))
      | inr (inl r) ↦ rw (found, remove) (rw r after)
      | inr (inr r) ↦ rw (found, remove) (rw r after)
    ]
