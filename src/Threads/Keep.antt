-- ===== src/Threads/Keep.antt =====
-- pthread_mutex/main.c: every step keeps the invariant.
use os_tasks.Base.{
  ℕ, zero, suc, ◌≤◌, ◌<◌, ◌==◌, true, false, List, [], ◌∷◌, Option, none, some, ◌≡◌, ◌≢◌, refl, sym,
  arith,
}
use os_tasks.Threads.State.{worker_text, Holder, by_writer, by_reader, Shared, WriterPc, ReaderPc}
use os_tasks.Threads.Moves.{WriterMove}
use os_tasks.Threads.Invariant.{
  writer_holds, reader_holds, is_writer, is_reader, message, WriterAgrees, has_returned,
  ReaderAgrees, Printed, writer_is_absent,
}

pub writer-not-reader : (o : Option Holder) (i : ℕ) → is_writer o ≡ true → is_reader i o ≡ false
writer-not-reader none i e = refl
writer-not-reader (some by_writer) i e = refl
writer-not-reader (some (by_reader k)) i e = cc

pub reader-not-writer : (o : Option Holder) (i : ℕ) → is_reader i o ≡ true → is_writer o ≡ false
reader-not-writer none i e = refl
reader-not-writer (some by_writer) i e = cc
reader-not-writer (some (by_reader k)) i e = refl

pub one_reader :
    (o : Option Holder) (i j : ℕ) → is_reader i o ≡ true → (j == i) ≡ false → is_reader j o ≡ false
one_reader none i j e ne = refl
one_reader (some by_writer) i j e ne = refl
one_reader (some (by_reader k)) i j e ne = ground arith

-- A move of the writer
pub WriterMove-owner :
    {m m' : Shared} {w w' : WriterPc}
    → WriterMove m w m' w'
    → writer_holds w ≡ is_writer m.owner
    → (writer_holds w' ≡ is_writer m'.owner)
      × ((i : ℕ) → is_reader i m'.owner ≡ is_reader i m.owner)
WriterMove-owner (WriterMove.lock h) e = (refl, λ i. rw h refl)
WriterMove-owner WriterMove.increment e = (e, λ i. refl)
WriterMove-owner (WriterMove.write_part part) e = (e, λ i. refl)
WriterMove-owner WriterMove.write e = (e, λ i. refl)
WriterMove-owner (WriterMove.go_on h) e = (e, λ i. refl)
WriterMove-owner (WriterMove.last h) e = (e, λ i. refl)
WriterMove-owner (WriterMove.finish_part part) e = (e, λ i. refl)
WriterMove-owner WriterMove.finish e = (e, λ i. refl)
WriterMove-owner {m} WriterMove.unlock_last e =
    (refl, λ i. sym (writer-not-reader m.owner i (sym e)))
WriterMove-owner {m} WriterMove.unlock e = (refl, λ i. sym (writer-not-reader m.owner i (sym e)))
WriterMove-owner WriterMove.wake e = (e, λ i. refl)

worker_text-message : (n : ℕ) → 0 < n → worker_text n ≡ message n
worker_text-message zero h = absurd (omega arith)
worker_text-message (suc n) h = refl

pub WriterMove-WriterAgrees :
    {m m' : Shared} {w w' : WriterPc} → WriterMove m w m' w' → WriterAgrees m w → WriterAgrees m' w'
WriterMove-WriterAgrees (WriterMove.lock h) a = a
WriterMove-WriterAgrees WriterMove.increment a = (omega arith, omega (arith, a.0))
WriterMove-WriterAgrees (WriterMove.write_part part) a = a
WriterMove-WriterAgrees {m} WriterMove.write a = (a.0, a.1, worker_text-message m.num a.0)
WriterMove-WriterAgrees (WriterMove.go_on h) a = (omega (arith, a.1, h), a.2)
WriterMove-WriterAgrees (WriterMove.last h) a = h
WriterMove-WriterAgrees (WriterMove.finish_part part) a = a
WriterMove-WriterAgrees WriterMove.finish a = (a, refl)
WriterMove-WriterAgrees WriterMove.unlock_last a = a
WriterMove-WriterAgrees WriterMove.unlock a = a
WriterMove-WriterAgrees WriterMove.wake a = a

returning : (r : ReaderPc) → reader_holds r ≡ false → ReaderAgrees false r → ReaderAgrees true r
returning ReaderPc.absent e a = tt
returning ReaderPc.locking e a = tt
returning ReaderPc.comparing e a = tt
returning ReaderPc.unlocking_last e a = refl
returning ReaderPc.printing e a = cc
returning ReaderPc.unlocking e a = tt
returning ReaderPc.sleeping e a = tt
returning ReaderPc.returned e a = refl

pub WriterMove-ReaderAgrees :
    {m m' : Shared} {w w' : WriterPc}
    → WriterMove m w m' w'
    → (r : ReaderPc) → (writer_holds w ≡ true → reader_holds r ≡ false)
    → ReaderAgrees (has_returned w) r
    → ReaderAgrees (has_returned w') r
WriterMove-ReaderAgrees (WriterMove.lock h) r e a = a
WriterMove-ReaderAgrees WriterMove.increment r e a = a
WriterMove-ReaderAgrees (WriterMove.write_part part) r e a = a
WriterMove-ReaderAgrees WriterMove.write r e a = a
WriterMove-ReaderAgrees (WriterMove.go_on h) r e a = a
WriterMove-ReaderAgrees (WriterMove.last h) r e a = a
WriterMove-ReaderAgrees (WriterMove.finish_part part) r e a = a
WriterMove-ReaderAgrees WriterMove.finish r e a = a
WriterMove-ReaderAgrees WriterMove.unlock_last r e a = returning r (e refl) a
WriterMove-ReaderAgrees WriterMove.unlock r e a = a
WriterMove-ReaderAgrees WriterMove.wake r e a = a

Printed-weaken : {n n' : ℕ} (l : List (ℕ × List ℕ)) → n ≤ n' → Printed n l → Printed n' l
Printed-weaken [] h p = tt
Printed-weaken ((i, s) ∷ l) h (k, le, five, e, p) = (k, omega arith, five, e, p)

pub WriterMove-Printed :
    {m m' : Shared} {w w' : WriterPc}
    → WriterMove m w m' w'
    → Printed m.num m.log
    → Printed m'.num m'.log
WriterMove-Printed (WriterMove.lock h) p = p
WriterMove-Printed {m} WriterMove.increment p = Printed-weaken m.log (omega arith) p
WriterMove-Printed (WriterMove.write_part part) p = p
WriterMove-Printed WriterMove.write p = p
WriterMove-Printed (WriterMove.go_on h) p = p
WriterMove-Printed (WriterMove.last h) p = p
WriterMove-Printed (WriterMove.finish_part part) p = p
WriterMove-Printed WriterMove.finish p = p
WriterMove-Printed WriterMove.unlock_last p = p
WriterMove-Printed WriterMove.unlock p = p
WriterMove-Printed WriterMove.wake p = p

pub WriterMove-present :
    {m m' : Shared} {w w' : WriterPc}
    → WriterMove m w m' w'
    → (writer_is_absent w ≡ false) × (w ≢ WriterPc.returned) × (writer_is_absent w' ≡ false)
WriterMove-present (WriterMove.lock h) = (refl, λ e. cc, refl)
WriterMove-present WriterMove.increment = (refl, λ e. cc, refl)
WriterMove-present (WriterMove.write_part part) = (refl, λ e. cc, refl)
WriterMove-present WriterMove.write = (refl, λ e. cc, refl)
WriterMove-present (WriterMove.go_on h) = (refl, λ e. cc, refl)
WriterMove-present (WriterMove.last h) = (refl, λ e. cc, refl)
WriterMove-present (WriterMove.finish_part part) = (refl, λ e. cc, refl)
WriterMove-present WriterMove.finish = (refl, λ e. cc, refl)
WriterMove-present WriterMove.unlock_last = (refl, λ e. cc, refl)
WriterMove-present WriterMove.unlock = (refl, λ e. cc, refl)
WriterMove-present WriterMove.wake = (refl, λ e. cc, refl)
