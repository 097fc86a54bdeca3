-- ===== src/Shmem/Life.antt =====
-- shmem/writer.c and shmem/reader.c: programs that start and end one after another.
use os_tasks.Base.{
  ℕ, ◌+◌, ◌-◌, ◌<◌, ◌≤◌, ◌==◌, Bool, true, false, not, ◌&&◌, ◌⊎◌, List, [], ◌∷◌, ◌≡◌, refl,
  Bool-cases, inl, inr, arith,
}
use os_tasks.Shmem.Start.{
  Ipc, Calls, Started, refused, running, start, free_at_exit, start_again, ReaderCalls,
  ReaderStarted, attached, start_reader,
}

-- A program starts, or a writer ends: by SIGINT or SIGTERM, which call `free_at_exit`, or by a signal
-- that it does not catch. A reader that ends changes nothing here.
pub data Event : Type 0 where
  writer_starts : Calls → Event
  writer_stopped writer_killed : Event
  reader_starts : ReaderCalls → Event

-- The writers that run, and how each reader has started, the last first.
pub record Life : Type 0 where
  pub ipc : Ipc
  pub writers : ℕ
  pub readers : List ReaderStarted

abbrev pub one_more : Started → ℕ → ℕ
one_more refused n = n
one_more running n = n + 1

unfoldable pub happen : Event → Life → Life
happen (writer_starts calls) l =
    let (started, ipc) = start calls l.ipc in
    record l { ipc = ipc; writers = one_more started l.writers }
happen writer_stopped l = elim (l.writers == 0) [
  | true ↦ l
  | false ↦ record l { ipc = free_at_exit l.ipc; writers = l.writers - 1 }
]
happen writer_killed l = record l { writers = l.writers - 1 }
happen (reader_starts calls) l = record l { readers = start_reader calls l.ipc ∷ l.readers }

unfoldable pub happen_all : List Event → Life → Life
happen_all [] l = l
happen_all (event ∷ events) l = happen_all events (happen event l)

-- At most one writer runs, and what it has made is there.
abbrev Fits : ℕ → Ipc → Type 0
Fits n ipc = (n ≤ 1) × (0 < n → ipc.file ≡ true) × (0 < n → ipc.segment ≡ true)

both : (a b : Bool) → a ≡ true → b ≡ true → (a && b) ≡ true
both a b h k = ground (arith, h, k)

right_true : (a b : Bool) → (a && b) ≡ true → b ≡ true
right_true a b h = ground arith

new_segment : (a b : Bool) → (a && not b) ≡ true → b ≡ false
new_segment a b h = ground arith

-- A writer runs where there was no segment, or changes nothing that matters to another one.
StartsWell : Ipc → Started × Ipc → Type 0
StartsWell ipc (started, ipc') =
    ((started ≡ running)
      × (ipc'.file ≡ true)
      × (ipc'.segment ≡ true)
      × ((ipc.file && ipc.segment) ≡ false))
    ⊎ ((started ≡ refused)
        × (ipc.file ≡ true → ipc'.file ≡ true)
        × ((ipc.file && ipc.segment) ≡ true → ipc'.segment ≡ true))

start-StartsWell : (calls : Calls) (ipc : Ipc) → StartsWell ipc (start calls ipc)
unfolding start StartsWell
start-StartsWell calls ipc = elim (Bool-cases calls.open_ok) [
  | inr closed ↦ rw (closed, start) (inr (refl, (λ e. e), right_true ipc.file ipc.segment))
  | inl opens ↦ elim (Bool-cases calls.ftok_ok) [
    | inr no_key ↦ rw (opens, no_key, start) (inr (refl, (λ e. refl), (λ e. e)))
    | inl key ↦ elim (Bool-cases (calls.shmget_ok && not (ipc.file && ipc.segment))) [
      | inr no_get ↦ rw (opens, key, no_get, start) (inr (refl, (λ e. refl), (λ e. e)))
      | inl get ↦ elim (Bool-cases calls.shmat_ok) [
        | inr no_at ↦ rw (opens, key, get, no_at, start) (inr (refl, (λ e. refl), (λ e. refl)))
        | inl at ↦
            rw (opens, key, get, at, start)
              (inl (refl, refl, refl, new_segment calls.shmget_ok (ipc.file && ipc.segment) get))
      ]
    ]
  ]
]

start-Fits :
    (calls : Calls) (ipc : Ipc) (n : ℕ)
    → Fits n ipc
    → Fits (one_more (start calls ipc).0 n) (start calls ipc).1
unfolding StartsWell
start-Fits calls ipc n (one, file, segment) = elim (start-StartsWell calls ipc) [
  | inl (runs, now_file, now_segment, none_there) ↦
      let nobody : ¬ (0 < n) =
        λ some_writer. cc (both ipc.file ipc.segment (file some_writer) (segment some_writer)) in
      rw runs (omega (arith, nobody), (λ h. now_file), (λ h. now_segment))
  | inr (fails, keeps_file, keeps_segment) ↦ rw fails (
    one,
    (λ h. keeps_file (file h)),
    (λ h. keeps_segment (both ipc.file ipc.segment (file h) (segment h))),
  )
]

happen-Fits :
    (event : Event) (l : Life)
    → Fits l.writers l.ipc
    → Fits (happen event l).writers (happen event l).ipc
unfolding happen
happen-Fits (writer_starts calls) l fits = start-Fits calls l.ipc l.writers fits
happen-Fits writer_stopped l (one, file, segment) = elim (Bool-cases (l.writers == 0)) [
  | inl nobody ↦ rw (nobody, happen) (one, file, segment)
  | inr some_writer ↦
      rw (some_writer, happen)
        (omega arith, (λ h. absurd (omega arith)), (λ h. absurd (omega arith)))
]
happen-Fits writer_killed l (one, file, segment) =
    (omega arith, (λ h. absurd (omega arith)), (λ h. absurd (omega arith)))
happen-Fits (reader_starts calls) l fits = fits

happen_all-Fits :
    (events : List Event) (l : Life)
    → Fits l.writers l.ipc
    → Fits (happen_all events l).writers (happen_all events l).ipc
unfolding happen_all
happen_all-Fits [] l fits = fits
happen_all-Fits (event ∷ events) l fits =
    happen_all-Fits events (happen event l) (happen-Fits event l fits)

abbrev pub nobody : Ipc → Life
nobody ipc = record { ipc = ipc; writers = 0; readers = [] }

-- No writer runs, or just one, every other is refused, and a reader whose calls succeed is attached.
pub OneWriter : Life → Type 0
OneWriter l =
    (l.writers ≡ 0)
    ⊎ ((l.writers ≡ 1)
        × ((calls : Calls) → (start calls l.ipc).0 ≡ refused)
        × (start_reader (record { ftok_ok = true; shmget_ok = true; shmat_ok = true }) l.ipc
            ≡ attached))

-- After any sequence of starts and ends, whatever was there before it, at most one writer runs; while one
-- runs, every other is refused, and a reader is attached whose own calls succeed.
pub happen_all-OneWriter :
    (events : List Event) (ipc : Ipc) → OneWriter (happen_all events (nobody ipc))
unfolding OneWriter start_reader
happen_all-OneWriter events ipc =
    let l = happen_all events (nobody ipc) in
    let (one, file, segment) =
      happen_all-Fits events (nobody ipc)
        (omega arith, (λ h. absurd (omega arith)), (λ h. absurd (omega arith))) in
    elim (Bool-cases (l.writers == 0)) [
      | inl none_runs ↦ inl (ground arith)
      | inr one_runs ↦
          let runs : 0 < l.writers = ground arith in
          inr (
            omega (arith, one, runs),
            (λ calls. (start_again calls l.ipc (file runs) (segment runs)).0),
            rw (file runs, segment runs, start_reader) refl,
          )
    ]
