-- ===== src/Threads/KeepReader.antt =====
-- pthread_mutex/main.c: what a step of a reader keeps.
use os_tasks.Base.{ℕ, zero, suc, ◌==◌, true, false, ◌≡◌, ◌≢◌, refl, sym, ap, ◌∙◌, arith}
use os_tasks.Threads.State.{done_text, Shared, WriterPc, ReaderPc}
use os_tasks.Threads.Moves.{ReaderMove}
use os_tasks.Threads.Invariant.{
  writer_holds, reader_holds, is_writer, is_reader, message, Whole, WriterAgrees, has_returned,
  ReaderAgrees, Printed, is_absent,
}
use os_tasks.Threads.Keep.{reader-not-writer, one_reader}

pub ReaderMove-owner :
    {i : ℕ} {m m' : Shared} {r r' : ReaderPc}
    → ReaderMove i m r m' r'
    → reader_holds r ≡ is_reader i m.owner
    → (reader_holds r' ≡ is_reader i m'.owner)
      × (is_writer m'.owner ≡ is_writer m.owner)
      × ((j : ℕ) → (j == i) ≡ false → is_reader j m'.owner ≡ is_reader j m.owner)
ReaderMove-owner (ReaderMove.lock h) e = (ground arith, rw h refl, λ j ne. rw (h, ne) refl)
ReaderMove-owner (ReaderMove.same h) e = (e, refl, λ j ne. refl)
ReaderMove-owner (ReaderMove.other h) e = (e, refl, λ j ne. refl)
ReaderMove-owner {i} {m} ReaderMove.unlock_last e = (
  refl,
  sym (reader-not-writer m.owner i (sym e)),
  λ j ne. sym (one_reader m.owner i j (sym e) ne),
)
ReaderMove-owner ReaderMove.print e = (e, refl, λ j ne. refl)
ReaderMove-owner {i} {m} ReaderMove.unlock e = (
  refl,
  sym (reader-not-writer m.owner i (sym e)),
  λ j ne. sym (one_reader m.owner i j (sym e) ne),
)
ReaderMove-owner ReaderMove.wake e = (e, refl, λ j ne. refl)

pub ReaderMove-WriterAgrees :
    {i : ℕ} {m m' : Shared} {r r' : ReaderPc} (w : WriterPc)
    → ReaderMove i m r m' r'
    → WriterAgrees m w
    → WriterAgrees m' w
ReaderMove-WriterAgrees w (ReaderMove.lock h) a = a
ReaderMove-WriterAgrees w (ReaderMove.same h) a = a
ReaderMove-WriterAgrees w (ReaderMove.other h) a = a
ReaderMove-WriterAgrees w ReaderMove.unlock_last a = a
ReaderMove-WriterAgrees w ReaderMove.print a = a
ReaderMove-WriterAgrees w ReaderMove.unlock a = a
ReaderMove-WriterAgrees w ReaderMove.wake a = a

pub message-ne-done : (n : ℕ) → message n ≢ done_text
message-ne-done zero e = cc
message-ne-done (suc n) e = cc

-- Outside of its critical section the writer has left a whole message or has returned.
pub quiet-Whole :
    (m : Shared) (w : WriterPc)
    → WriterAgrees m w
    → writer_holds w ≡ false
    → has_returned w ≡ false
    → Whole m
quiet-Whole m WriterPc.absent a e e' = (omega (arith, a.0), a.1 ∙ ap message (sym a.0))
quiet-Whole m WriterPc.locking a e e' = a
quiet-Whole m WriterPc.incrementing a e e' = cc
quiet-Whole m WriterPc.writing a e e' = cc
quiet-Whole m WriterPc.testing a e e' = cc
quiet-Whole m WriterPc.finishing a e e' = cc
quiet-Whole m WriterPc.unlocking_last a e e' = cc
quiet-Whole m WriterPc.unlocking a e e' = a
quiet-Whole m WriterPc.sleeping a e e' = a
quiet-Whole m WriterPc.returned a e e' = cc

quiet_done :
    (m : Shared) (w : WriterPc)
    → WriterAgrees m w
    → writer_holds w ≡ false
    → m.str ≡ done_text
    → has_returned w ≡ true
quiet_done m WriterPc.absent a e d = absurd (cc (sym a.1 ∙ d))
quiet_done m WriterPc.locking a e d = absurd (message-ne-done m.num (sym a.1 ∙ d))
quiet_done m WriterPc.incrementing a e d = cc
quiet_done m WriterPc.writing a e d = cc
quiet_done m WriterPc.testing a e d = cc
quiet_done m WriterPc.finishing a e d = cc
quiet_done m WriterPc.unlocking_last a e d = cc
quiet_done m WriterPc.unlocking a e d = cc
quiet_done m WriterPc.sleeping a e d = absurd (message-ne-done m.num (sym a.1 ∙ d))
quiet_done m WriterPc.returned a e d = refl

not_done :
    (m : Shared) (w : WriterPc) → WriterAgrees m w → m.str ≢ done_text → has_returned w ≡ false
not_done m WriterPc.absent a d = refl
not_done m WriterPc.locking a d = refl
not_done m WriterPc.incrementing a d = refl
not_done m WriterPc.writing a d = refl
not_done m WriterPc.testing a d = refl
not_done m WriterPc.finishing a d = refl
not_done m WriterPc.unlocking_last a d = refl
not_done m WriterPc.unlocking a d = refl
not_done m WriterPc.sleeping a d = refl
not_done m WriterPc.returned a d = absurd (d a.1)

pub ReaderMove-ReaderAgrees :
    {i : ℕ} {m m' : Shared} {r r' : ReaderPc} (w : WriterPc)
    → ReaderMove i m r m' r'
    → WriterAgrees m w
    → (reader_holds r ≡ true → writer_holds w ≡ false)
    → ReaderAgrees (has_returned w) r
    → ReaderAgrees (has_returned w) r'
ReaderMove-ReaderAgrees w (ReaderMove.lock h) a free k = tt
ReaderMove-ReaderAgrees {m} w (ReaderMove.same h) a free k = quiet_done m w a (free refl) h
ReaderMove-ReaderAgrees {m} w (ReaderMove.other h) a free k = not_done m w a h
ReaderMove-ReaderAgrees w ReaderMove.unlock_last a free k = k
ReaderMove-ReaderAgrees w ReaderMove.print a free k = tt
ReaderMove-ReaderAgrees w ReaderMove.unlock a free k = tt
ReaderMove-ReaderAgrees w ReaderMove.wake a free k = tt

pub ReaderMove-Printed :
    {i : ℕ} {m m' : Shared} {r r' : ReaderPc} (w : WriterPc)
    → ReaderMove i m r m' r'
    → WriterAgrees m w
    → (reader_holds r ≡ true → writer_holds w ≡ false)
    → ReaderAgrees (has_returned w) r
    → Printed m.num m.log
    → Printed m'.num m'.log
ReaderMove-Printed w (ReaderMove.lock h) a free k p = p
ReaderMove-Printed w (ReaderMove.same h) a free k p = p
ReaderMove-Printed w (ReaderMove.other h) a free k p = p
ReaderMove-Printed w ReaderMove.unlock_last a free k p = p
ReaderMove-Printed {m} w ReaderMove.print a free k p =
    let whole = quiet-Whole m w a (free refl) k in (m.num, omega arith, whole.0, whole.1, p)
ReaderMove-Printed w ReaderMove.unlock a free k p = p
ReaderMove-Printed w ReaderMove.wake a free k p = p

-- A reader that moves is there and has not returned, and is there afterwards.
pub ReaderMove-present :
    {i : ℕ} {m m' : Shared} {r r' : ReaderPc}
    → ReaderMove i m r m' r'
    → (is_absent r ≡ false) × (r ≢ ReaderPc.returned) × (is_absent r' ≡ false)
ReaderMove-present (ReaderMove.lock h) = (refl, λ e. cc, refl)
ReaderMove-present (ReaderMove.same h) = (refl, λ e. cc, refl)
ReaderMove-present (ReaderMove.other h) = (refl, λ e. cc, refl)
ReaderMove-present ReaderMove.unlock_last = (refl, λ e. cc, refl)
ReaderMove-present ReaderMove.print = (refl, λ e. cc, refl)
ReaderMove-present ReaderMove.unlock = (refl, λ e. cc, refl)
ReaderMove-present ReaderMove.wake = (refl, λ e. cc, refl)
