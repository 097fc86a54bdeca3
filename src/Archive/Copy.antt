-- ===== src/Archive/Copy.antt =====
-- archive/archiver.c, `copy_file` (lines 805 to 821).
use os_tasks.Base.{
  ℕ, zero, suc, ◌+◌, ◌-◌, ◌/◌, true, false, ltb, List, take, if◌then◌else◌, Outcome, ok,
  out_of_fuel,
}
use os_tasks.Archive.Format.{buffer_size}
use os_tasks.Archive.Descriptor.{Descriptor, read_bytes, read_on, write_bytes, overwrite, seek_set}

-- The two files and the local buffer.
pub record Copier : Type 0 where
  pub old : Descriptor
  pub new : Descriptor
  pub buf : List ℕ

-- `read (old, buf, n); write (new, buf, n);` writes `n` bytes, however many were read.
unfoldable pub copy_chunk : ℕ → Copier → Copier
copy_chunk n s =
    let buf = overwrite s.buf (read_bytes n s.old) in
    record s { old = read_on n s.old; new = write_bytes (take n buf) s.new; buf = buf }

unfoldable pub copy_loop : ℕ → ℕ → Copier → Outcome Copier
copy_loop zero bytes s = out_of_fuel
copy_loop (suc fuel) bytes s = elim (ltb buffer_size bytes) [
  | true ↦ copy_loop fuel (bytes - buffer_size) (copy_chunk buffer_size s)
  | false ↦ ok (if ltb 0 bytes then copy_chunk bytes s else s)
]

-- A round for each full buffer, and the last.
unfoldable pub copy_file : ℕ → ℕ → Copier → Outcome Copier
copy_file bytes pos s =
    copy_loop (bytes / buffer_size + 1) bytes (record s { old = seek_set pos s.old })
