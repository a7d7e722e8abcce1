-- ===== src/Agent/Tests.antt =====
-- Runs of the agent's queue and sender, and the theorems at concrete inputs.
use smotryashchiy.Base.{
  lex_lt, ◌≤◌, ◌<◌, ◌≡◌, ◌↔◌, ◌⊎◌, refl, true, false, [], ◌∷◌, ◌++◌, Option, none, some, arith,
  Bytes, bytes_key, bytes_eq, bytes_eq_iff, codes, if◌then◌else◌, ◌&&◌, drop, is_empty,
}
use smotryashchiy.Assoc.{lookup}
use smotryashchiy.Agent.Disk.{Disk, read_file, remove_file, write_atomic}
use smotryashchiy.Agent.Disk.Atomic.{write_atomic-others}
use smotryashchiy.Agent.Spool.{
  Codec, Item, Spool, digits, name_of, next_seq, append_body, drop_oldest, add, peek_from, peek,
  remove,
}
use smotryashchiy.Agent.Spool.Names.{name_of-order}
use smotryashchiy.Agent.Spool.Queue.{Inv}
use smotryashchiy.Agent.Spool.Add.{new_item, add-Inv, add_ok}
use smotryashchiy.Agent.Spool.Peeking.{peek-Inv}
use smotryashchiy.Agent.Sender.{
  accepted, Sender, round, after_peek, settle, link, fail, drain, back_off, adds, links, meanwhile,
}
use smotryashchiy.Agent.Sender.Turns.{delivered, queued}

-- A record of the tests is the one byte of its key, then the batch.
abbrev read_record : Bytes → Option (Bytes × Bytes)
read_record [] = none
read_record (c ∷ raw) = some (c ∷ [], raw)

abbrev codec : Codec
codec = record { marshal = λ key batch. some (key ++ batch); unmarshal = read_record }

abbrev tmp : Bytes
tmp = codes ".tmp-1"

abbrev old : Item
old = record { name = name_of 7; size = 3 }

abbrev disk : Disk
disk = record { files = (name_of 7, 65 ∷ 1 ∷ 2 ∷ []) ∷ []; faults = [] }

abbrev spool : Spool
spool = record {
  max_batches = 1;
  max_bytes = 100;
  items = old ∷ [];
  bytes = 3;
  last_seq = 7;
  corrupt = 0;
  disk = disk;
}

spool-Inv : Inv spool
unfolding name_of digits
spool-Inv = record {
  tallied = refl;
  queued = (7, refl, omega arith, (65 ∷ 1 ∷ 2 ∷ [], refl, refl), omega arith);
  numbered = omega arith;
}

add-Inv_example : Inv (add codec spool (66 ∷ []) (9 ∷ []) 5 tmp).0
add-Inv_example = add-Inv codec spool (66 ∷ []) (9 ∷ []) 5 tmp spool-Inv refl (omega arith)

-- The clock reads 5, the last number is 7: the new batch gets 8, and the old one is dropped.
abbrev spool_after : Spool
spool_after = record {
  max_batches = 1;
  max_bytes = 100;
  items = record { name = name_of 8; size = 2 } ∷ [];
  bytes = 2;
  last_seq = 8;
  corrupt = 0;
  disk = record { files = (name_of 8, 66 ∷ 9 ∷ []) ∷ []; faults = [] };
}

add_run : add codec spool (66 ∷ []) (9 ∷ []) 5 tmp ≡ (spool_after, 1, none)
unfolding add append_body write_atomic drop_oldest name_of next_seq digits
add_run = refl

peek-Inv_example : Inv (peek codec spool).0
peek-Inv_example = peek-Inv codec spool spool-Inv

name_of-order_example : (lex_lt (name_of 9) (name_of 10) ≡ true) ↔ (9 < 10)
name_of-order_example = name_of-order 9 10 (omega arith) (omega arith)

add_ok_example :
    (body : Bytes) × (some ((66 ∷ []) ++ (9 ∷ [])) ≡ some body)
    × (is_empty (66 ∷ []) ≡ false)
    × (spool_after.items ≡ drop 1 (spool.items ++ new_item spool 5 body ∷ []))
    × (((1 ≤ 1) × (2 ≤ 100)) ⊎ (1 ≤ 1))
    × (lookup (name_of (next_seq 5 7)) spool_after.disk.files ≡ some body)
add_ok_example =
    add_ok codec spool spool_after (66 ∷ []) (9 ∷ []) 5 tmp 1 spool-Inv refl (omega arith) add_run

write_atomic-others_example :
    lookup (codes "b") (write_atomic disk tmp (codes "b") (1 ∷ [])).0.files ≡ (
      if (write_atomic disk tmp (codes "b") (1 ∷ [])).1 && bytes_eq (codes "b") (codes "b")
      then some (1 ∷ [])
      else lookup (codes "b") disk.files)
write_atomic-others_example =
    write_atomic-others disk tmp (codes "b") (1 ∷ []) (codes "b")
      (λ e. let same : false ≡ true = (bytes_eq_iff tmp (codes "b")).1 e in cc)

abbrev sender : Sender
sender = record {
  spool = spool;
  others = [] ∷ (adds (66 ∷ []) (9 ∷ []) 5 tmp ∷ links ∷ []) ∷ [];
  dropped = 0;
  refused = 0;
  linked = false;
  fails = 0;
  network = record { dials = true ∷ []; replies = accepted ∷ [] };
  log = [];
}

drain_run :
    let (s', r) = drain codec 5 sender in
    (r ≡ back_off)
    × (delivered s'.log ≡ some (65 ∷ [], 1 ∷ 2 ∷ []) ∷ [])
    × (queued codec s'.spool ≡ some (66 ∷ [], 9 ∷ []) ∷ [])
unfolding drain round after_peek settle link fail peek peek_from remove name_of digits read_file
    remove_file meanwhile add append_body write_atomic drop_oldest next_seq
drain_run = (refl, refl, refl)
