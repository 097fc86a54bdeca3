-- ===== src/Archive/Descriptor.antt =====
-- An open file of archive/archiver.c: its bytes and the position in it. `read`, `write` and `lseek`
-- do what POSIX says of a regular file, on a device without errors.
use os_tasks.Base.{
  ℕ, ◌+◌, ◌-◌, ◌^◌, List, ◌++◌, take, drop, length, ltb, if◌then◌else◌, Option, none, some,
}

pub record Descriptor : Type 0 where
  pub content : List ℕ
  pub pos : ℕ

abbrev pub opened : List ℕ → Descriptor
opened bytes = record { content = bytes; pos = 0 }

-- What `read (fd, buf, n)` puts into `buf`, and where it leaves the descriptor. At the end of the
-- file it puts nothing.
abbrev pub read_bytes : ℕ → Descriptor → List ℕ
read_bytes n fd = take n (drop fd.pos fd.content)

abbrev pub read_on : ℕ → Descriptor → Descriptor
read_on n fd = record fd { pos = fd.pos + length (read_bytes n fd) }

-- `write (fd, bs, …)` over the bytes at the position.
abbrev pub write_bytes : List ℕ → Descriptor → Descriptor
write_bytes bs fd = record {
  content = take fd.pos fd.content ++ (bs ++ drop (fd.pos + length bs) fd.content);
  pos = fd.pos + length bs;
}

-- A buffer of which the first bytes have been read anew.
abbrev pub overwrite : List ℕ → List ℕ → List ℕ
overwrite buf bs = bs ++ drop (length bs) buf

-- `lseek (fd, -n, SEEK_CUR)`; `none` is the error for a position before the start.
abbrev pub seek_back : ℕ → Descriptor → Option Descriptor
seek_back n fd = if ltb fd.pos n then none else some (record fd { pos = fd.pos - n })

-- `lseek (fd, p, SEEK_SET)` of a `p` that is read as a signed integer of 64 bits; a negative one is
-- an error and moves nothing.
abbrev pub seek_set : ℕ → Descriptor → Descriptor
seek_set p fd = if ltb p (2 ^ 63) then record fd { pos = p } else fd
