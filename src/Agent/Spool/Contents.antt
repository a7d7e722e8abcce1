-- ===== src/Agent/Spool/Contents.antt =====
-- spool.go: what the queued files say, and what is left of it behind `Add`, `Peek` and `Remove`.
use mathlib.Core.Path.{subst}
use smotryashchiy.Base.{
  Sublist-refl, ℕ, ◌+◌, ◌-◌, ◌^◌, ◌≤◌, ◌<◌, ◌≡◌, ◌⊎◌, refl, sym, ap, ◌∙◌, Bool, true, false, List,
  [], ◌∷◌, ◌++◌, none, some, Option, inl, inr, Bool-cases, arith, Bytes, bytes_key, bytes_eq,
  bytes_eq_iff, if◌then◌else◌, length, any,
}
use smotryashchiy.Base.{Sublist, done, skip, hold}
use smotryashchiy.Assoc.{lookup}
use smotryashchiy.Agent.Disk.{Disk, failed, remove_file, read_file}
use smotryashchiy.Agent.Disk.Atomic.{lookup-remove_file}
use smotryashchiy.Agent.Spool.{
  Codec, Item, Entry, Spool, drop_failed, name_of, is_over, drop_oldest, decode, Peeked, entry,
  find_item, cut_item, peek_from, peek, remove,
}
use smotryashchiy.Agent.Spool.Names.{name_of-ne}
use smotryashchiy.Agent.Spool.Queue.{Queued, Queued-bound, Inv}
use smotryashchiy.Agent.Spool.Dropping.{Queued-remove, Removal-cases}
use smotryashchiy.Agent.Spool.Peeking.{Queued-read, discarded, peek_rule, remove-front, remove-Inv}

-- What a file says, under its name.
abbrev pub Label : Type 0
Label = Bytes × Option (Bytes × Bytes)

abbrev pub values : List Label → List (Option (Bytes × Bytes))
values [] = []
values (l ∷ ls) = l.1 ∷ values ls

pub values-append : (xs ys : List Label) → values (xs ++ ys) ≡ values xs ++ values ys
values-append [] ys = refl
values-append (x ∷ xs) ys = ap (λ zs. x.1 ∷ zs) (values-append xs ys)

pub values-Sublist : {xs ys : List Label} → Sublist xs ys → Sublist (values xs) (values ys)
values-Sublist done = done
values-Sublist (skip x s) = skip x.1 (values-Sublist s)
values-Sublist (hold x s) = hold x.1 (values-Sublist s)

abbrev pub is_named : Bytes → Label → Bool
is_named name l = bytes_eq l.0 name

module _ (codec : Codec) where
  -- The queue's names and what their files say.
  abbrev pub labels : Disk → List Item → List Label
  labels d [] = []
  labels d (it ∷ rest) = (it.name, decode codec (lookup it.name d.files)) ∷ labels d rest

  pub labels-disk :
      (d d' : Disk) (lo hi : ℕ) (items : List Item)
      → ((n : ℕ) → lo < n → n ≤ hi → lookup (name_of n) d'.files ≡ lookup (name_of n) d.files)
      → Queued d lo hi items
      → labels d' items ≡ labels d items
  labels-disk d d' lo hi [] same q = refl
  labels-disk d d' lo hi (it ∷ rest) same (n, e, lt, st, q) =
      let at : lookup it.name d'.files ≡ lookup it.name d.files = ground (
        arith,
        same n lt (Queued-bound d n hi rest q),
        ap (λ (k : Bytes). lookup k d'.files) e,
        ap (λ (k : Bytes). lookup k d.files) e,
      ) in
      rw at (
        ap (λ ls. (it.name, decode codec (lookup it.name d.files)) ∷ ls)
          (labels-disk d d' n hi rest (λ m low high. same m (omega arith) high) q))

  labels-remove :
      (d : Disk) (lo hi : ℕ) (it : Item) (rest : List Item)
      → hi < 2 ^ 64
      → Queued d lo hi (it ∷ rest)
      → labels (remove_file d it.name).0 rest ≡ labels d rest
  labels-remove d lo hi it rest fits (n, e, lt, st, q) =
      labels-disk d (remove_file d it.name).0 n hi rest
        (λ m low high.
          lookup-remove_file d it.name (name_of m)
            (λ p. name_of-ne n m low (omega arith) (sym e ∙ p)))
        q

  labels-failed :
      (d : Disk) (name : Bytes) (items : List Item)
      → (remove_file d name).1 ≡ failed
      → labels (remove_file d name).0 items ≡ labels d items
  unfolding remove_file
  labels-failed d name [] e = refl
  labels-failed d name (it ∷ rest) e = ground (arith, labels-failed d name rest)

  labels-read :
      (d : Disk) (name : Bytes) (items : List Item)
      → labels (read_file d name).0 items ≡ labels d items
  unfolding read_file
  labels-read d name [] = refl
  labels-read d name (it ∷ rest) =
      ap (λ ls. (it.name, decode codec (lookup it.name d.files)) ∷ ls) (labels-read d name rest)

  pub length-labels :
      (d : Disk) (items : List Item) → length (values (labels d items)) ≡ length items
  length-labels d [] = refl
  length-labels d (it ∷ rest) = omega (arith, length-labels d rest)

  pub labels-append :
      (d : Disk) (xs ys : List Item) → labels d (xs ++ ys) ≡ labels d xs ++ labels d ys
  labels-append d [] ys = refl
  labels-append d (x ∷ xs) ys =
      ap (λ ls. (x.name, decode codec (lookup x.name d.files)) ∷ ls) (labels-append d xs ys)

  -- No later batch has the name of the oldest.
  pub labels-apart :
      (d : Disk) (lo hi n : ℕ) (items : List Item)
      → n ≤ lo
      → hi < 2 ^ 64
      → Queued d lo hi items
      → any (is_named (name_of n)) (labels d items) ≡ false
  labels-apart d lo hi n [] h f q = refl
  labels-apart d lo hi n (it ∷ rest) h f (m, e, lt, st, q) = ground (
    arith,
    labels-apart d m hi n rest (omega arith) f q,
    bytes_eq_iff it.name (name_of n),
    λ (p : it.name ≡ name_of n).
        name_of-ne n m (omega arith) (omega (arith, Queued-bound d m hi rest q)) (sym p ∙ e),
  )

  pub drop_oldest-Sublist :
      (s : Spool) (items : List Item) (bytes dropped : ℕ) (d : Disk) (lo hi : ℕ)
      → hi < 2 ^ 64
      → Queued d lo hi items
      → let s' = (drop_oldest s items bytes dropped d).0 in
        Sublist (labels s'.disk s'.items) (labels d items)
  unfolding drop_oldest
  drop_oldest-Sublist s [] bytes dropped d lo hi f q = done
  drop_oldest-Sublist s (it ∷ []) bytes dropped d lo hi f q = Sublist-refl _
  drop_oldest-Sublist s (it ∷ next ∷ rest) bytes dropped d lo hi f q =
      let items = it ∷ next ∷ rest in
      let d' = (remove_file d it.name).0 in
      let l : Label = (it.name, decode codec (lookup it.name d.files)) in
      let r = drop_oldest s (next ∷ rest) (bytes - it.size) (dropped + 1) d' in
      let later : Sublist (labels r.0.disk r.0.items) (labels d items) = skip l (
        subst (Sublist (labels r.0.disk r.0.items)) (labels-remove d lo hi it (next ∷ rest) f q) (
          drop_oldest-Sublist s (next ∷ rest) (bytes - it.size) (dropped + 1) d' lo hi f
            (Queued-remove d lo hi it (next ∷ rest) f q))) in
      elim (Bool-cases (is_over s items bytes)) [
        | inl over ↦ elim (Removal-cases (remove_file d it.name).1) [
          | inl e ↦ rw over (
              rw e (
                subst (λ ls. Sublist ls (labels d items)) (sym (labels-failed d it.name items e))
                  (Sublist-refl (labels d items))))
          | inr (inl e) ↦ rw over (rw e later)
          | inr (inr e) ↦ rw over (rw e later)
        ]
        | inr under ↦ rw under (Sublist-refl (labels d items))
      ]

pub drop_oldest-counts :
    (s : Spool) (items : List Item) (bytes dropped : ℕ) (d : Disk)
    → let r = drop_oldest s items bytes dropped d in
      (r.1 + length r.0.items ≡ dropped + length items)
      × (r.0.corrupt ≡ s.corrupt)
      × ((r.2 ≡ none) ⊎ (r.2 ≡ some drop_failed))
unfolding drop_oldest
drop_oldest-counts s [] bytes dropped d = (refl, refl, inl refl)
drop_oldest-counts s (it ∷ []) bytes dropped d = (refl, refl, inl refl)
drop_oldest-counts s (it ∷ next ∷ rest) bytes dropped d = ground (
  arith,
  drop_oldest-counts s (next ∷ rest) (bytes - it.size) (dropped + 1) (remove_file d it.name).0,
)

-- What `Peek` shows is what the file of the oldest batch says.
abbrev pub Shown : Codec → Spool → Peeked → Type 0
Shown codec s (entry e) =
    (ls : List Label) × (labels codec s.disk s.items ≡ (e.name, some (e.key, e.batch)) ∷ ls)
Shown codec s _ = Unit

module _ (codec : Codec) where
  decode_read :
      (d : Disk) (name : Bytes) (kb : Bytes × Bytes)
      → decode codec (read_file d name).1 ≡ some kb
      → decode codec (lookup name d.files) ≡ some kb
  unfolding read_file
  decode_read d name kb e = ground arith

  -- The batches that a look leaves are some of those there were, in their order.
  peek_from-Sublist :
      (s : Spool) (items : List Item) (lo : ℕ)
      → s.last_seq < 2 ^ 64
      → Queued s.disk lo s.last_seq items
      → let r = peek_from codec s items in
        Sublist (labels codec r.0.disk r.0.items) (labels codec s.disk items) × Shown codec r.0 r.1
  unfolding peek_from discarded
  peek_from-Sublist s [] lo f q = (done, tt)
  peek_from-Sublist s (it ∷ rest) lo f q =
      let d = (read_file s.disk it.name).0 in
      let d' = (remove_file d it.name).0 in
      let all = labels codec s.disk (it ∷ rest) in
      let same = labels-read codec s.disk it.name (it ∷ rest) in
      let q' : Queued d lo s.last_seq (it ∷ rest) =
        Queued-read s.disk it.name lo s.last_seq (it ∷ rest) q in
      let s' = discarded codec s it in
      let gone : labels codec d' rest ≡ labels codec s.disk rest =
        labels-remove codec d lo s.last_seq it rest f q' ∙ labels-read codec s.disk it.name rest in
      let ih = peek_from-Sublist s' rest lo f (Queued-remove d lo s.last_seq it rest f q') in
      let r = peek_from codec s' rest in
      peek_rule codec (λ r. Sublist (labels codec r.0.disk r.0.items) all × Shown codec r.0 r.1) s
        it rest
        (λ kb g. (
          subst (λ ls. Sublist ls all) (sym same) (Sublist-refl all),
          (
            labels codec s.disk rest,
            same
                ∙ ap (λ v. (it.name, v) ∷ labels codec s.disk rest)
                    (decode_read s.disk it.name kb g),
          ),
        ))
        (λ g. (
          subst (λ ls. Sublist ls all) (sym (labels-failed codec d it.name (it ∷ rest) g ∙ same))
              (Sublist-refl all),
          tt,
        ))
        (
          skip (it.name, decode codec (lookup it.name s.disk.files))
              (subst (Sublist (labels codec r.0.disk r.0.items)) gone ih.0),
          ih.1,
        )

  pub peek-Sublist :
      (s : Spool)
      → Inv s
      → let r = peek codec s in
        Sublist (labels codec r.0.disk r.0.items) (labels codec s.disk s.items)
        × Shown codec r.0 r.1
  unfolding peek
  peek-Sublist s v = peek_from-Sublist s s.items 0 v.numbered v.queued

  peek_from-seq :
      (s : Spool) (items : List Item) → (peek_from codec s items).0.last_seq ≡ s.last_seq
  unfolding peek_from discarded
  peek_from-seq s [] = refl
  peek_from-seq s (it ∷ rest) =
      peek_rule codec (λ r. r.0.last_seq ≡ s.last_seq) s it rest (λ kb g. refl) (λ g. refl)
        (peek_from-seq (discarded codec s it) rest)

  pub peek-seq : (s : Spool) → (peek codec s).0.last_seq ≡ s.last_seq
  unfolding peek
  peek-seq s = peek_from-seq s s.items

  absent :
      (name : Bytes) (d : Disk) (items : List Item)
      → any (is_named name) (labels codec d items) ≡ false
      → find_item name items ≡ none
  absent name d [] h = refl
  absent name d (it ∷ rest) h = ground (arith, absent name d rest)

  pub remove-absent :
      (s : Spool) (e : Entry)
      → any (is_named e.name) (labels codec s.disk s.items) ≡ false
      → remove s e ≡ (s, true)
  unfolding remove
  remove-absent s e h = rw (absent e.name s.disk s.items h, remove) refl

  shown_item :
      (d : Disk) (items : List Item) (l : Label) (ls : List Label)
      → labels codec d items ≡ l ∷ ls
      → (it : Item) × (rest : List Item) × (items ≡ it ∷ rest)
        × (it.name ≡ l.0)
        × (labels codec d rest ≡ ls)
  shown_item d [] l ls h = ground arith
  shown_item d (it ∷ rest) l ls h = (it, rest, refl, ground arith, ground arith)

  -- Removing the oldest batch leaves the others, and a removal that fails leaves all.
  pub remove-labels :
      (s : Spool) (e : Entry) (l : Label) (ls : List Label)
      → Inv s
      → labels codec s.disk s.items ≡ l ∷ ls
      → l.0 ≡ e.name
      → let r = remove s e in
        (labels codec r.0.disk r.0.items ≡ (if r.1 then ls else l ∷ ls))
        × Inv r.0
        × (r.0.corrupt ≡ s.corrupt)
        × (length r.0.items + (if r.1 then 1 else 0) ≡ length s.items)
  unfolding remove
  remove-labels s e l ls v h n =
      let (it, rest, is, m, same) = shown_item s.disk s.items l ls h in
      let front = remove-front s e it rest is (m ∙ n) in
      let found : find_item e.name s.items ≡ some it =
        ground (arith, bytes_eq_iff it.name e.name) in
      let cut : cut_item e.name s.items ≡ rest = ground (arith, bytes_eq_iff it.name e.name) in
      let q : Queued s.disk 0 s.last_seq (it ∷ rest) =
        subst (Queued s.disk 0 s.last_seq) is v.queued in
      let gone = labels-remove codec s.disk 0 s.last_seq it rest v.numbered q in
      let first : labels codec s.disk s.items ≡ l ∷ ls = h in
      let after : labels codec (remove_file s.disk it.name).0 (cut_item e.name s.items) ≡ ls =
        rw cut (gone ∙ same) in
      let left : (labels codec (remove s e).0.disk (remove s e).0.items
          ≡ (if (remove s e).1 then ls else l ∷ ls)) =
        elim (Removal-cases (remove_file s.disk it.name).1) [
          | inl r ↦ rw (found, remove) (rw r (labels-failed codec s.disk it.name s.items r ∙ h))
          | inr (inl r) ↦ rw (found, remove) (rw r after)
          | inr (inr r) ↦ rw (found, remove) (rw r after)
        ] in
      (left, remove-Inv s e it rest v is (m ∙ n), front.1, ground (arith, front.0, is))

pub remove-seq : (s : Spool) (e : Entry) → (remove s e).0.last_seq ≡ s.last_seq
unfolding remove
remove-seq s e = ground arith

-- The oldest batch has a number up to the last one, and no other batch has its name.
pub front_apart :
    (codec : Codec) (s : Spool) (l : Label) (ls : List Label)
    → Inv s
    → labels codec s.disk s.items ≡ l ∷ ls
    → (n : ℕ) × (l.0 ≡ name_of n) × (n ≤ s.last_seq) × (any (is_named l.0) ls ≡ false)
front_apart codec s l ls v h =
    let (it, rest, is, m, same) = shown_item codec s.disk s.items l ls h in
    let (n, e, lt, st, q) = subst (Queued s.disk 0 s.last_seq) is v.queued in
    let name : l.0 ≡ name_of n = sym m ∙ e in
    (
      n,
      name,
      Queued-bound s.disk n s.last_seq rest q,
      subst (λ (x : Bytes). any (is_named x) ls ≡ false) (sym name)
          (subst (λ L. any (is_named (name_of n)) L ≡ false) same
            (labels-apart codec s.disk n s.last_seq n rest (omega arith) v.numbered q)),
    )
