-- ===== src/Agent/Spool.antt =====
-- internal/agent/spool/spool.go: the bounded queue of batches, one file for each.
-- The clock's reading and the name of a temporary file are given to `add`.
pub mod Names
pub mod Queue
pub mod Dropping
pub mod Add
pub mod Peeking
pub mod Contents
use smotryashchiy.Base.{
  ℕ, zero, suc, ◌+◌, ◌-◌, ◌*◌, ◌/◌, ◌%◌, ◌^◌, Bool, true, false, not, ◌&&◌, ◌||◌, List, [], ◌∷◌,
  ◌++◌, Option, none, some, Bytes, bytes_eq, ltb, leb, if◌then◌else◌, codes, length, is_empty,
}
use smotryashchiy.Agent.Disk.{
  Disk, Removal, removed, not_exist, failed, remove_file, read_file, write_atomic,
}

-- encoding/json for `record{Key, Batch}`. It refuses a batch that is not JSON.
pub record Codec : Type 0 where
  pub marshal : Bytes → Bytes → Option Bytes
  pub unmarshal : Bytes → Option (Bytes × Bytes)

pub record Item : Type 0 where
  pub name : Bytes
  pub size : ℕ

pub record Entry : Type 0 where
  pub key : Bytes
  pub batch : Bytes
  pub name : Bytes

pub record Spool : Type 0 where
  pub max_batches : ℕ
  pub max_bytes : ℕ
  pub items : List Item
  pub bytes : ℕ
  pub last_seq : ℕ
  pub corrupt : ℕ
  pub disk : Disk

-- `n` in `k` decimal digits, as `%020d` prints a uint64 for `k` = 20.
unfoldable pub digits : ℕ → ℕ → Bytes
digits zero n = []
digits (suc k) n = digits k (n / 10) ++ (b'0' + n % 10) ∷ []

unfoldable pub name_of : ℕ → Bytes
name_of seq = digits 20 seq ++ codes ".json"

-- The sequence number of a batch that is added when the clock reads `now` nanoseconds.
unfoldable pub next_seq : ℕ → ℕ → ℕ
next_seq now last_seq =
    let seq = now % 2 ^ 64 in if leb seq last_seq then (last_seq + 1) % 2 ^ 64 else seq

abbrev pub is_over : Spool → List Item → ℕ → Bool
is_over s items bytes = ltb s.max_batches (length items) || ltb s.max_bytes bytes

pub data AddError : Type 0 where
  empty_key encode_failed write_failed drop_failed : AddError

-- The loop of `Add` that drops the oldest batches: the spool, how many were dropped, and the error.
unfoldable pub drop_oldest : Spool → List Item → ℕ → ℕ → Disk → Spool × ℕ × Option AddError
drop_oldest s [] bytes dropped d = (record s { items = []; bytes = bytes; disk = d }, dropped, none)
drop_oldest s (oldest ∷ []) bytes dropped d =
    (record s { items = oldest ∷ []; bytes = bytes; disk = d }, dropped, none)
drop_oldest s (oldest ∷ next ∷ rest) bytes dropped d =
    let (d', removal) = remove_file d oldest.name in
    let later = drop_oldest s (next ∷ rest) (bytes - oldest.size) (dropped + 1) d' in
    if is_over s (oldest ∷ next ∷ rest) bytes
    then (elim removal [
      | failed ↦ (
        record s { items = oldest ∷ next ∷ rest; bytes = bytes; disk = d' },
        dropped,
        some drop_failed,
      )
      | _ ↦ later
    ])
    else (record s { items = oldest ∷ next ∷ rest; bytes = bytes; disk = d }, dropped, none)

-- `Add` behind the encoding of the batch.
unfoldable pub append_body : Spool → Bytes → ℕ → Bytes → Spool × ℕ × Option AddError
append_body s body now tmp =
    let seq = next_seq now s.last_seq in
    let (d, written) = write_atomic s.disk tmp (name_of seq) body in
    if not written
    then (record s { disk = d }, 0, some write_failed)
    else drop_oldest (record s { last_seq = seq })
        (s.items ++ record { name = name_of seq; size = length body } ∷ []) (s.bytes + length body)
        0 d

module _ (codec : Codec) where
  unfoldable pub add : Spool → Bytes → Bytes → ℕ → Bytes → Spool × ℕ × Option AddError
  add s key batch now tmp =
      if is_empty key then (s, 0, some empty_key) else (elim (codec.marshal key batch) [
        | none ↦ (s, 0, some encode_failed)
        | some body ↦ append_body s body now tmp
      ])

  -- A file that does not read as a record with a key is unreadable.
  abbrev pub decode : Option Bytes → Option (Bytes × Bytes)
  decode none = none
  decode (some raw) = elim (codec.unmarshal raw) [
    | none ↦ none
    | some (key, batch) ↦ if is_empty key then none else some (key, batch)
  ]

pub data Peeked : Type 0 where
  entry : Entry → Peeked
  empty discard_failed : Peeked

module _ (codec : Codec) where
  -- The loop of `Peek` over the items, with the state so far.
  unfoldable pub peek_from : Spool → List Item → Spool × Peeked
  peek_from s [] = (record s { items = [] }, empty)
  peek_from s (it ∷ rest) =
      let (d, raw) = read_file s.disk it.name in
      let (d', removal) = remove_file d it.name in
      let later =
        peek_from (record s { bytes = s.bytes - it.size; corrupt = s.corrupt + 1; disk = d' })
          rest in
      elim (decode codec raw) [
        | some (key, batch) ↦ (
          record s { items = it ∷ rest; disk = d },
          entry (record { key = key; batch = batch; name = it.name }),
        )
        | none ↦ elim removal [
          | failed ↦ (record s { items = it ∷ rest; disk = d' }, discard_failed)
          | _ ↦ later
        ]
      ]

  unfoldable pub peek : Spool → Spool × Peeked
  unfolding peek_from
  peek s = peek_from s s.items

-- `append(s.items[:i], s.items[i+1:]...)` at the first item of the name, with its size.
abbrev pub find_item : Bytes → List Item → Option Item
find_item name [] = none
find_item name (it ∷ rest) = if bytes_eq it.name name then some it else find_item name rest

abbrev pub cut_item : Bytes → List Item → List Item
cut_item name [] = []
cut_item name (it ∷ rest) = if bytes_eq it.name name then rest else it ∷ cut_item name rest

-- `Remove`: whether it succeeded.
unfoldable pub remove : Spool → Entry → Spool × Bool
remove s e = elim (find_item e.name s.items) [
  | none ↦ (s, true)
  | some it ↦
      let (d, removal) = remove_file s.disk it.name in
      elim removal [
        | failed ↦ (record s { disk = d }, false)
        | _ ↦ (
          record s { items = cut_item e.name s.items; bytes = s.bytes - it.size; disk = d },
          true,
        )
      ]
]
