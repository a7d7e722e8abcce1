-- ===== src/Agent/Disk/Atomic.antt =====
-- `writeAtomic` of spool.go: another file never changes, and the target is there whole or as it was.
use smotryashchiy.Base.{
  ◌≡◌, ◌≢◌, ◌&&◌, [], some, arith, Bytes, bytes_key, bytes_eq, bytes_eq_iff, if◌then◌else◌,
}
use smotryashchiy.Assoc.{
  lookup, insert, erase, lookup-insert, lookup-insert_ne, lookup-erase, lookup-erase_ne,
}
use smotryashchiy.Agent.Disk.{Disk, advance, remove_file, store_file, finish_write, write_atomic}

-- A removal deletes the one file or nothing.
pub lookup-remove_file :
    (d : Disk) (name other : Bytes)
    → name ≢ other
    → lookup other (remove_file d name).0.files ≡ lookup other d.files
unfolding remove_file
lookup-remove_file d name other h =
    ground (arith, lookup-erase name other d.files, bytes_eq_iff name other)

finish_write-others :
    (d : Disk) (tmp path body other : Bytes)
    → tmp ≢ other
    → lookup other (finish_write d tmp path body).0.files ≡ (
        if (finish_write d tmp path body).1 && bytes_eq path other
        then some body
        else lookup other d.files)
finish_write-others d tmp path body other h =
    let d1 = advance d in
    let d2 = advance (store_file d1 tmp body) in
    let d3 = advance d2 in
    let d4 = advance d3 in
    let d5 = advance d4 in
    let written = insert tmp body d.files in
    ground (
      arith,
      lookup-remove_file d1 tmp other h,
      lookup-remove_file (advance d1) tmp other h,
      lookup-remove_file d3 tmp other h,
      lookup-remove_file d4 tmp other h,
      lookup-remove_file d5 tmp other h,
      lookup-insert_ne tmp other body d.files h,
      lookup-erase_ne tmp other written h,
      lookup-insert path other body (erase tmp written),
    )

-- Whatever call fails, after an atomic write every file but the temporary one is as it was, except
-- that the target has the whole new content exactly if the write reports success.
pub write_atomic-others :
    (d : Disk) (tmp path body other : Bytes)
    → tmp ≢ other
    → lookup other (write_atomic d tmp path body).0.files ≡ (
        if (write_atomic d tmp path body).1 && bytes_eq path other
        then some body
        else lookup other d.files)
unfolding write_atomic
write_atomic-others d tmp path body other h = ground (
  arith,
  finish_write-others (store_file (advance d) tmp []) tmp path body other h,
  lookup-insert_ne tmp other [] d.files h,
)
