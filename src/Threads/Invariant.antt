-- ===== src/Threads/Invariant.antt =====
-- pthread_mutex/main.c: the invariant of the threads.
use os_tasks.Base.{
  ℕ, zero, suc, ◌≤◌, ◌<◌, ◌==◌, Bool, true, false, List, [], ◌∷◌, Option, none, some, ◌≡◌, refl,
  arith,
}
use os_tasks.Threads.State.{
  thread_count, worker_text, done_text, Holder, by_writer, by_reader, Shared, WriterPc, ReaderPc,
  MainPc, starting, creating, joining, joining_writer, finished, System, initial,
}
use os_tasks.Threads.Moves.{has_ended}

-- Does the thread hold the mutex where it stands?
abbrev pub writer_holds : WriterPc → Bool
writer_holds WriterPc.absent = false
writer_holds WriterPc.locking = false
writer_holds WriterPc.sleeping = false
writer_holds WriterPc.returned = false
writer_holds WriterPc.incrementing = true
writer_holds WriterPc.writing = true
writer_holds WriterPc.testing = true
writer_holds WriterPc.finishing = true
writer_holds WriterPc.unlocking_last = true
writer_holds WriterPc.unlocking = true

abbrev pub reader_holds : ReaderPc → Bool
reader_holds ReaderPc.absent = false
reader_holds ReaderPc.locking = false
reader_holds ReaderPc.sleeping = false
reader_holds ReaderPc.returned = false
reader_holds ReaderPc.comparing = true
reader_holds ReaderPc.unlocking_last = true
reader_holds ReaderPc.printing = true
reader_holds ReaderPc.unlocking = true

abbrev pub is_writer : Option Holder → Bool
is_writer none = false
is_writer (some by_writer) = true
is_writer (some (by_reader k)) = false

abbrev pub is_reader : ℕ → Option Holder → Bool
is_reader i none = false
is_reader i (some by_writer) = false
is_reader i (some (by_reader k)) = i == k

-- What stands in `str` after `n` whole rounds of the writer.
abbrev pub message : ℕ → List ℕ
message zero = []
message (suc n) = worker_text (suc n)

abbrev pub Whole : Shared → Type 0
Whole m = (m.num ≤ 5) × (m.str ≡ message m.num)

-- `str` and `num` where the writer stands.
abbrev pub WriterAgrees : Shared → WriterPc → Type 0
WriterAgrees m WriterPc.absent = (m.num ≡ 0) × (m.str ≡ [])
WriterAgrees m WriterPc.locking = Whole m
WriterAgrees m WriterPc.incrementing = Whole m
WriterAgrees m WriterPc.writing = (0 < m.num) × (m.num ≤ 6)
WriterAgrees m WriterPc.testing = (0 < m.num) × (m.num ≤ 6) × (m.str ≡ message m.num)
WriterAgrees m WriterPc.finishing = m.num ≡ 6
WriterAgrees m WriterPc.unlocking_last = (m.num ≡ 6) × (m.str ≡ done_text)
WriterAgrees m WriterPc.unlocking = Whole m
WriterAgrees m WriterPc.sleeping = Whole m
WriterAgrees m WriterPc.returned = (m.num ≡ 6) × (m.str ≡ done_text)

-- What a reader knows of the writer where it stands.
abbrev pub has_returned : WriterPc → Bool
has_returned WriterPc.returned = true
has_returned w = false

abbrev pub ReaderAgrees : Bool → ReaderPc → Type 0
ReaderAgrees returned_already ReaderPc.printing = returned_already ≡ false
ReaderAgrees returned_already ReaderPc.unlocking_last = returned_already ≡ true
ReaderAgrees returned_already ReaderPc.returned = returned_already ≡ true
ReaderAgrees returned_already r = Unit

-- Every printed string was whole, and none is younger than the last of the writer.
abbrev pub Printed : ℕ → List (ℕ × List ℕ) → Type 0
Printed n [] = Unit
Printed n ((i, s) ∷ l) = ((k : ℕ) × (k ≤ n) × (k ≤ 5) × (s ≡ message k) × Printed k l)

abbrev pub writer_is_absent : WriterPc → Bool
writer_is_absent WriterPc.absent = true
writer_is_absent w = false

abbrev pub is_absent : ReaderPc → Bool
is_absent ReaderPc.absent = true
is_absent r = false

-- How many readers `main` has created, at most.
abbrev pub created : MainPc → ℕ
created starting = 0
created (creating i) = i
created m = thread_count

abbrev pub is_starting : MainPc → Bool
is_starting starting = true
is_starting m = false

abbrev pub MainAgrees : MainPc → WriterPc → (ℕ → ReaderPc) → Type 0
MainAgrees m w readers =
    (created m ≤ thread_count)
    × (is_starting m ≡ true → writer_is_absent w ≡ true)
    × ((i : ℕ) → created m ≤ i → is_absent (readers i) ≡ true)
    × ((i : ℕ) → has_ended m ≡ false → i < created m → is_absent (readers i) ≡ false)

-- `main` has joined only what has returned.
abbrev pub AllReturned : ℕ → (ℕ → ReaderPc) → Type 0
AllReturned n readers = (i : ℕ) → i < n → readers i ≡ ReaderPc.returned

abbrev pub JoinedAgrees : MainPc → WriterPc → (ℕ → ReaderPc) → Type 0
JoinedAgrees (joining i) w readers = (i ≤ thread_count) × AllReturned i readers
JoinedAgrees joining_writer w readers = AllReturned thread_count readers
JoinedAgrees finished w readers = AllReturned thread_count readers × (w ≡ WriterPc.returned)
JoinedAgrees m w readers = Unit

pub record Inv (s : System) : Type 0 where
  pub writer_owns : writer_holds s.writer ≡ is_writer s.mem.owner
  pub reader_owns : (i : ℕ) → reader_holds (s.reader i) ≡ is_reader i s.mem.owner
  pub writer_agrees : WriterAgrees s.mem s.writer
  pub reader_agrees : (i : ℕ) → ReaderAgrees (has_returned s.writer) (s.reader i)
  pub printed : Printed s.mem.num s.mem.log
  pub main_agrees : MainAgrees s.main s.writer s.reader
  pub joined_agrees : JoinedAgrees s.main s.writer s.reader

pub initial-Inv : Inv initial
initial-Inv = record {
  writer_owns = refl;
  reader_owns = λ i. refl;
  writer_agrees = (refl, refl);
  reader_agrees = λ i. tt;
  printed = tt;
  main_agrees = (omega arith, λ e. refl, λ i h. refl, λ i e h. absurd (omega arith));
  joined_agrees = tt;
}
