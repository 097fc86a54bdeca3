-- ===== src/Threads/Safety.antt =====
-- pthread_mutex/main.c: what holds in every reachable state, in whatever order the threads go.
use os_tasks.Base.{
  ◌&&◌, Bool, Bool-cases, inl, inr, ℕ, true, false, Option, none, some, ◌≡◌, ◌≢◌, refl, sym, ap,
  subst, ◌∙◌, arith,
}
use os_tasks.Threads.State.{
  thread_count, done_text, Holder, by_writer, by_reader, WriterPc, ReaderPc, finished, System,
}
use os_tasks.Threads.Moves.{
  MainMove, init_failed, writer_created, writer_refused, reader_created, reader_refused,
  all_created, joined, join_failed, all_joined, writer_joined, Step, main_moves, writer_moves,
  reader_moves, Steps, here, later, Reachable,
}
use os_tasks.Threads.Invariant.{
  writer_holds, reader_holds, is_reader, WriterAgrees, ReaderAgrees, has_returned, Printed,
  writer_is_absent, is_starting, AllReturned, JoinedAgrees, Inv, initial-Inv,
}
use os_tasks.Threads.Keep.{writer-not-reader, WriterMove-present}
use os_tasks.Threads.Reach.{Steps-Inv}

Reachable-Inv : {s : System} → Reachable s → Inv s
Reachable-Inv r = Steps-Inv r initial-Inv

same_reader : (o : Option Holder) (i j : ℕ) → is_reader i o ≡ true → is_reader j o ≡ true → i ≡ j
same_reader none i j e e' = cc
same_reader (some by_writer) i j e e' = cc
same_reader (some (by_reader k)) i j e e' = ground arith

not_both : (a b : Bool) → (a ≡ true → b ≡ false) → (a && b) ≡ false
not_both true b h = h refl
not_both false b h = refl

-- In every reachable state no two threads are in their critical sections.
pub mutual_exclusion :
    (s : System)
    → Reachable s
    → (i j : ℕ) → i ≢ j
    → ((writer_holds s.writer && reader_holds (s.reader i)) ≡ false)
      × ((reader_holds (s.reader i) && reader_holds (s.reader j)) ≡ false)
mutual_exclusion s r i j apart =
    let v = Reachable-Inv r in
    (
      not_both (writer_holds s.writer) (reader_holds (s.reader i))
          (λ e. v.reader_owns i ∙ writer-not-reader s.mem.owner i (sym v.writer_owns ∙ e)),
      not_both (reader_holds (s.reader i)) (reader_holds (s.reader j)) (λ e.
          elim (Bool-cases (reader_holds (s.reader j))) [
            | inl e' ↦ absurd (
                apart (
                  same_reader s.mem.owner i j (sym (v.reader_owns i) ∙ e)
                    (sym (v.reader_owns j) ∙ e')))
            | inr e' ↦ e'
          ]),
    )

-- In every reachable state each string that a reader has printed is empty or a whole message of the
-- writer with a number of at most 5, never a part of one and never "done", and the numbers do not
-- fall in the order of printing.
pub Reachable-Printed : (s : System) → Reachable s → Printed s.mem.num s.mem.log
Reachable-Printed s r = (Reachable-Inv r).printed

writer_back : (w : WriterPc) → has_returned w ≡ true → w ≡ WriterPc.returned
writer_back w e = ground arith

-- A reader that has returned has done so behind the writer: the writer has returned, the counter is
-- at 6 and the string is "done".
pub reader_returned :
    (s : System)
    → Reachable s
    → (i : ℕ) → s.reader i ≡ ReaderPc.returned
    → (s.writer ≡ WriterPc.returned) × (s.mem.num ≡ 6) × (s.mem.str ≡ done_text)
reader_returned s r i e =
    let v = Reachable-Inv r in
    let back =
      writer_back s.writer (subst (ReaderAgrees (has_returned s.writer)) e (v.reader_agrees i)) in
    let last = subst (WriterAgrees s.mem) back v.writer_agrees in (back, last.0, last.1)

-- When `main` is at its end, all readers and the writer have returned.
pub finished-AllReturned :
    (s : System)
    → Reachable s
    → s.main ≡ finished
    → AllReturned thread_count s.reader × (s.writer ≡ WriterPc.returned)
finished-AllReturned s r e =
    subst (λ m. JoinedAgrees m s.writer s.reader) e (Reachable-Inv r).joined_agrees

-- `main` has begun, and there is no writer.
abbrev pub WriterRefused : System → Type 0
WriterRefused s = (is_starting s.main ≡ false) × (s.writer ≡ WriterPc.absent)

MainMove-WriterRefused : {s t : System} → MainMove s t → WriterRefused s → WriterRefused t
MainMove-WriterRefused (init_failed e) h = (refl, h.1)
MainMove-WriterRefused (writer_created e) h = absurd (cc (sym (ap is_starting e) ∙ h.0))
MainMove-WriterRefused (writer_refused e) h = (refl, h.1)
MainMove-WriterRefused (reader_created i e lt) h = (refl, h.1)
MainMove-WriterRefused (reader_refused i e lt) h = (refl, h.1)
MainMove-WriterRefused (all_created e) h = (refl, h.1)
MainMove-WriterRefused (joined i e lt back) h = (refl, h.1)
MainMove-WriterRefused (join_failed i e lt) h = (refl, h.1)
MainMove-WriterRefused (all_joined e) h = (refl, h.1)
MainMove-WriterRefused (writer_joined e back) h = absurd (cc (sym back ∙ h.1))

Step-WriterRefused : {s t : System} → Step s t → WriterRefused s → WriterRefused t
Step-WriterRefused (main_moves mv) h = MainMove-WriterRefused mv h
Step-WriterRefused (writer_moves run mv) h =
    absurd (cc (sym (WriterMove-present mv).0 ∙ ap writer_is_absent h.1))
Step-WriterRefused (reader_moves i run mv) h = h

Steps-WriterRefused : {s t : System} → Steps s t → WriterRefused s → WriterRefused t
Steps-WriterRefused here h = h
Steps-WriterRefused (later r st) h = Step-WriterRefused st (Steps-WriterRefused r h)

-- If the creation of the writer was refused, which `main` does not look at, no reader ever returns
-- and `main` never comes to its end.
pub refused_never_ends :
    (s t : System)
    → Reachable s
    → WriterRefused s
    → Steps s t
    → ((i : ℕ) → t.reader i ≢ ReaderPc.returned) × (t.main ≢ finished)
refused_never_ends s t r h steps =
    let v = Steps-Inv steps (Reachable-Inv r) in
    let gone = (Steps-WriterRefused steps h).1 in
    (
      λ i e.
          let back =
            writer_back t.writer
              (subst (ReaderAgrees (has_returned t.writer)) e (v.reader_agrees i)) in
          cc (sym gone ∙ back),
      λ e.
          let ends = subst (λ m. JoinedAgrees m t.writer t.reader) e v.joined_agrees in
          cc (sym gone ∙ ends.1),
    )
