-- ===== src/Agent/Spool/Add.antt =====
-- spool.go: `Add` keeps the invariant whatever fails, and its bounds hold.
use mathlib.Core.Path.{subst}
use smotryashchiy.Base.{
  ℕ, ◌+◌, ◌-◌, ◌^◌, ◌≤◌, ◌<◌, ◌≡◌, ◌⊎◌, refl, sym, ap, ◌∙◌, Bool, true, false, List, [], ◌∷◌, ◌++◌,
  none, some, Option, inl, inr, Bool-cases, Option-cases, arith, Bytes, bytes_key, bytes_eq_iff,
  codes, starts_with, if◌then◌else◌, length, drop, is_empty,
}
use smotryashchiy.Assoc.{lookup}
use smotryashchiy.Agent.Disk.{Disk, write_atomic}
use smotryashchiy.Agent.Disk.Atomic.{write_atomic-others}
use smotryashchiy.Agent.Spool.{
  Codec, Item, Spool, AddError, write_failed, name_of, next_seq, drop_oldest, append_body, add,
}
use smotryashchiy.Agent.Spool.Names.{next_seq-lt, name_of-ne, name_of-ne-tmp}
use smotryashchiy.Agent.Spool.Queue.{total, Queued, Inv, Queued-disk, Queued-append}
use smotryashchiy.Agent.Spool.Dropping.{Dropped, drop_oldest-Dropped, drop_oldest-newest}

total-append : (xs ys : List Item) → total (xs ++ ys) ≡ total xs + total ys
total-append [] ys = omega arith
total-append (x ∷ xs) ys = omega (arith, total-append xs ys)

-- The item of a new batch.
abbrev pub new_item : Spool → ℕ → Bytes → Item
new_item s now body = record { name = name_of (next_seq now s.last_seq); size = length body }

module _ (s : Spool) (body tmp : Bytes) (now : ℕ) (v : Inv s)
    (apart : starts_with (codes ".tmp-") tmp ≡ true) (room : s.last_seq + 1 < 2 ^ 64) where
  unfoldable pub write : Disk × Bool
  write = write_atomic s.disk tmp (name_of (next_seq now s.last_seq)) body

  pub fresh : (s.last_seq < next_seq now s.last_seq) × (next_seq now s.last_seq < 2 ^ 64)
  fresh = next_seq-lt now s.last_seq room

  -- No file of the queue is touched.
  pub other_files :
      (m : ℕ) → m ≤ s.last_seq → lookup (name_of m) write.0.files ≡ lookup (name_of m) s.disk.files
  unfolding write
  other_files m high = ground (
    arith,
    write_atomic-others s.disk tmp (name_of (next_seq now s.last_seq)) body (name_of m)
        (name_of-ne-tmp m tmp apart),
    bytes_eq_iff (name_of (next_seq now s.last_seq)) (name_of m),
    λ (e : name_of (next_seq now s.last_seq) ≡ name_of m).
        name_of-ne m (next_seq now s.last_seq) (omega (arith, fresh)) fresh.1 (sym e),
  )

  pub old_files : Queued write.0 0 s.last_seq s.items
  old_files =
      Queued-disk s.disk write.0 0 s.last_seq s.items (λ m low high. other_files m high) v.queued

  pub new_file :
      write.1 ≡ true → lookup (name_of (next_seq now s.last_seq)) write.0.files ≡ some body
  unfolding write
  new_file w = ground (
    arith,
    write_atomic-others s.disk tmp (name_of (next_seq now s.last_seq)) body
        (name_of (next_seq now s.last_seq)) (name_of-ne-tmp (next_seq now s.last_seq) tmp apart),
    bytes_eq_iff (name_of (next_seq now s.last_seq)) (name_of (next_seq now s.last_seq)),
  )

  pub new_queue :
      write.1 ≡ true
      → Queued write.0 0 (next_seq now s.last_seq) (s.items ++ new_item s now body ∷ [])
  new_queue w =
      Queued-append write.0 0 s.last_seq (next_seq now s.last_seq) s.items (new_item s now body)
        fresh.0 refl (body, new_file w, refl) old_files

  -- The spool that the dropping loop starts from.
  abbrev pub written_spool : Spool
  written_spool = record s { last_seq = next_seq now s.last_seq }

  abbrev pub longer : List Item
  longer = s.items ++ new_item s now body ∷ []

  abbrev pub dropping : Spool × ℕ × Option AddError
  dropping = drop_oldest written_spool longer (s.bytes + length body) 0 write.0

  pub dropping-Dropped :
      write.1 ≡ true
      → Dropped written_spool longer 0 (next_seq now s.last_seq) 0 dropping.0 dropping.1 dropping.2
  dropping-Dropped w =
      drop_oldest-Dropped written_spool longer (s.bytes + length body) 0 write.0 0
        (next_seq now s.last_seq) fresh.1
        (omega (arith, v.tallied, total-append s.items (new_item s now body ∷ []))) (new_queue w)

  pub append_body_lem :
      append_body s body now tmp
      ≡ (if write.1 then dropping else (record s { disk = write.0 }, 0, some write_failed))
  unfolding append_body write
  append_body_lem = ground arith

  pub append_body-Inv : Inv (append_body s body now tmp).0
  append_body-Inv = elim (Bool-cases write.1) [
    | inl w ↦
        let k = dropping-Dropped w in
        rw append_body_lem (
          rw w (record {
            tallied = k.tallied;
            queued = rw k.same_seq k.queued;
            numbered = rw k.same_seq fresh.1;
          }))
    | inr w ↦
        rw append_body_lem
          (rw w (record { tallied = v.tallied; queued = old_files; numbered = v.numbered }))
  ]

  not_written : write.1 ≡ false → (append_body s body now tmp).2 ≡ some write_failed
  not_written w = rw append_body_lem (rw w refl)

  -- What a success means.
  append_body-ok :
      (append_body s body now tmp).2 ≡ none
      → let (s', n, e) = append_body s body now tmp in
        (s'.items ≡ drop n longer)
        × (((length s'.items ≤ s.max_batches) × (s'.bytes ≤ s.max_bytes)) ⊎ (length s'.items ≤ 1))
        × (lookup (name_of (next_seq now s.last_seq)) s'.disk.files ≡ some body)
  append_body-ok ok = elim (Bool-cases write.1) [
    | inl w ↦
        let k = dropping-Dropped w in
        let whole : dropping.1 - 0 ≡ dropping.1 = omega arith in
        let none_failed : dropping.2 ≡ none = ground (arith, append_body_lem) in
        rw append_body_lem (
          rw w (
            k.kept ∙ ap (λ m. drop m longer) whole,
            ground (arith, k.fits),
            drop_oldest-newest written_spool longer (s.bytes + length body) 0 write.0 0
                  (next_seq now s.last_seq) fresh.1 (new_queue w)
                ∙ new_file w,
          ))
    | inr w ↦ cc (not_written w, ok)
  ]

module _ (codec : Codec) where
  -- Whatever fails, adding a batch keeps the invariant of the queue: the byte count is the sum of the
  -- sizes, and every queued batch has its file, named by a rising sequence. The temporary name is one
  -- that the pattern gives, and the sequence numbers have not run out.
  pub add-Inv :
      (s : Spool) (key batch : Bytes) (now : ℕ) (tmp : Bytes)
      → Inv s
      → starts_with (codes ".tmp-") tmp ≡ true
      → s.last_seq + 1 < 2 ^ 64
      → Inv (add codec s key batch now tmp).0
  unfolding add
  add-Inv s key batch now tmp v apart room = elim (Bool-cases (is_empty key)) [
    | inl e ↦ rw e v
    | inr e ↦ rw e (elim (Option-cases (codec.marshal key batch)) [
      | inl m ↦ rw m v
      | inr (body, m) ↦ rw m (append_body-Inv s body tmp now v apart room)
    ])
  ]

  -- A batch that is added without an error is encoded under a non-empty key and stands, with that
  -- content, in the file of a new number; of the old batches followed by the new one exactly the
  -- oldest `n` are gone, where `n` is the number reported; and what is left respects both bounds, or
  -- is a single batch.
  pub add_ok :
      (s s' : Spool) (key batch : Bytes) (now : ℕ) (tmp : Bytes) (n : ℕ)
      → Inv s
      → starts_with (codes ".tmp-") tmp ≡ true
      → s.last_seq + 1 < 2 ^ 64
      → add codec s key batch now tmp ≡ (s', n, none)
      → (body : Bytes) × (codec.marshal key batch ≡ some body)
        × (is_empty key ≡ false)
        × (s'.items ≡ drop n (s.items ++ new_item s now body ∷ []))
        × (((length s'.items ≤ s.max_batches) × (s'.bytes ≤ s.max_bytes)) ⊎ (length s'.items ≤ 1))
        × (lookup (name_of (next_seq now s.last_seq)) s'.disk.files ≡ some body)
  unfolding add
  add_ok s s' key batch now tmp n v apart room h = elim (Bool-cases (is_empty key)) [
    | inl e ↦ ground arith
    | inr e ↦ elim (Option-cases (codec.marshal key batch)) [
      | inl m ↦ ground arith
      | inr (body, m) ↦
          let same : append_body s body now tmp ≡ (s', n, none) = ground arith in
          let (kept, fits, stored) =
            append_body-ok s body tmp now v apart room (ap (λ r. r.2) same) in
          (
            body,
            m,
            e,
            ground (arith, kept, same),
            ground (arith, fits, same),
            subst
                (λ (r : Spool × ℕ × Option AddError).
                  lookup (name_of (next_seq now s.last_seq)) r.0.disk.files ≡ some body)
                same stored,
          )
    ]
  ]
