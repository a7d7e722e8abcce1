-- ===== src/Agent/Disk.antt =====
-- What the spool asks of Go's `os`: one directory of files, and a schedule of failing calls.
pub mod Atomic
use smotryashchiy.Base.{
  next_fails, later_faults, Bool, true, false, List, [], ◌∷◌, Option, none, Bytes, bytes_key,
  if◌then◌else◌,
}
use smotryashchiy.Assoc.{is_some, lookup, insert, erase}

-- Each call takes the next mark of the schedule.
pub record Disk : Type 0 where
  pub files : List (Bytes × Bytes)
  pub faults : List Bool

abbrev pub advance : Disk → Disk
advance d = record d { faults = later_faults d.faults }

-- `os.Remove`; an error other than `ErrNotExist` is `failed`.
pub data Removal : Type 0 where
  removed not_exist failed : Removal

unfoldable pub remove_file : Disk → Bytes → Disk × Removal
remove_file d name =
    let d' = advance d in
    if next_fails d.faults
    then (d', failed)
    else if is_some (lookup name d.files)
    then (record d' { files = erase name d.files }, removed)
    else (d', not_exist)

-- `os.ReadFile`
unfoldable pub read_file : Disk → Bytes → Disk × Option Bytes
read_file d name = (advance d, if next_fails d.faults then none else lookup name d.files)

-- Writing all of a file, and renaming one whose content is `body`.
abbrev pub store_file : Disk → Bytes → Bytes → Disk
store_file d name body = record d { files = insert name body d.files }

abbrev pub rename_file : Disk → Bytes → Bytes → Bytes → Disk
rename_file d old new body = record d { files = insert new body (erase old d.files) }

-- `cleanup` of writeAtomic: the removal may fail as well.
abbrev pub cleanup : Disk → Bytes → Disk × Bool
cleanup d tmp = ((remove_file d tmp).0, false)

-- The steps of writeAtomic behind the creation: chmod, write, fsync, close. Each that fails removes
-- the temporary file.
abbrev pub finish_write : Disk → Bytes → Bytes → Bytes → Disk × Bool
finish_write d tmp path body =
    let d1 = advance d in
    let d2 = advance (store_file d1 tmp body) in
    let d3 = advance d2 in
    let d4 = advance d3 in
    let d5 = advance d4 in
    if next_fails d.faults
    then cleanup d1 tmp
    else if next_fails d1.faults
    then cleanup (advance d1) tmp
    else if next_fails d2.faults
    then cleanup d3 tmp
    else if next_fails d3.faults
    then cleanup d4 tmp
    else if next_fails d4.faults
    then cleanup d5 tmp
    else (rename_file d5 tmp path body, true)

-- `writeAtomic`; `tmp` is the name that `os.CreateTemp` chooses.
unfoldable pub write_atomic : Disk → Bytes → Bytes → Bytes → Disk × Bool
unfolding remove_file
write_atomic d tmp path body =
    if next_fails d.faults
    then (advance d, false)
    else finish_write (store_file (advance d) tmp []) tmp path body
