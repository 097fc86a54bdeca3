-- ===== src/Threads/State.antt =====
-- pthread_mutex/main.c: the shared string with its mutex, and where the threads stand.
use os_tasks.Base.{ℕ, ◌==◌, List, [], ◌∷◌, ◌++◌, Option, none, digits, if◌then◌else◌}

-- `THREAD_COUNT`
abbrev pub thread_count : ℕ
thread_count = 10

-- The texts that the writer prints into `str`: "worker wrote num=…" and "done".
abbrev pub worker_text : ℕ → List ℕ
worker_text n =
    (b'w' ∷ b'o' ∷ b'r' ∷ b'k' ∷ b'e' ∷ b'r' ∷ b' ' ∷ b'w' ∷ b'r' ∷ b'o' ∷ b't' ∷ b'e' ∷ b' ' ∷ [])
    ++ (b'n' ∷ b'u' ∷ b'm' ∷ b'=' ∷ digits n)

abbrev pub done_text : List ℕ
done_text = b'd' ∷ b'o' ∷ b'n' ∷ b'e' ∷ []

pub data Holder : Type 0 where
  by_writer : Holder
  by_reader : ℕ → Holder

-- `str` up to its 0, the counter `cnt` of `main`, the thread that holds the mutex, and what the
-- readers have printed, the last first: the thread and the string.
pub record Shared : Type 0 where
  pub str : List ℕ
  pub num : ℕ
  pub owner : Option Holder
  pub log : List (ℕ × List ℕ)

-- What the writer does next; `absent` before it is created.
pub data WriterPc : Type 0 where
  absent locking incrementing writing testing finishing unlocking_last unlocking sleeping returned :
      WriterPc

pub data ReaderPc : Type 0 where
  absent locking comparing unlocking_last printing unlocking sleeping returned : ReaderPc

-- `main`: before anything, before the creation of a reader, before the join of one, before the join
-- of the writer, and at its end; `exited` is `exit (EXIT_FAILURE)`.
pub data MainPc : Type 0 where
  starting : MainPc
  creating : ℕ → MainPc
  joining : ℕ → MainPc
  joining_writer finished exited : MainPc

pub record System : Type 0 where
  pub main : MainPc
  pub mem : Shared
  pub writer : WriterPc
  pub reader : ℕ → ReaderPc

abbrev pub set_at {ℓ} : {A : Type ℓ} → ℕ → A → (ℕ → A) → ℕ → A
set_at i a f j = if j == i then a else f j

abbrev pub initial : System
initial = record {
  main = starting;
  mem = record { str = []; num = 0; owner = none; log = [] };
  writer = WriterPc.absent;
  reader = λ i. ReaderPc.absent;
}
