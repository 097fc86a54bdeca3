-- ===== src/Threads/Reach.antt =====
-- pthread_mutex/main.c: every reachable state satisfies the invariant.
use os_tasks.Base.{
  ℕ, ◌+◌, ◌≤◌, ◌<◌, ◌==◌, true, false, Bool-cases, inl, inr, ◌≡◌, refl, sym, ap, subst, ◌∙◌, arith,
}
use os_tasks.Threads.State.{
  thread_count, Shared, WriterPc, ReaderPc, MainPc, starting, creating, joining, joining_writer,
  finished, exited, System, set_at,
}
use os_tasks.Threads.Moves.{
  WriterMove, ReaderMove, MainMove, init_failed, writer_created, writer_refused, reader_created,
  reader_refused, all_created, joined, join_failed, all_joined, writer_joined, has_ended, Step,
  main_moves, writer_moves, reader_moves, Steps, here, later,
}
use os_tasks.Threads.Invariant.{
  writer_holds, reader_holds, is_reader, WriterAgrees, has_returned, ReaderAgrees, writer_is_absent,
  is_absent, created, MainAgrees, JoinedAgrees, Inv, message,
}
use os_tasks.Threads.Keep.{
  writer-not-reader, reader-not-writer, WriterMove-owner, WriterMove-WriterAgrees,
  WriterMove-ReaderAgrees, WriterMove-Printed, WriterMove-present,
}
use os_tasks.Threads.KeepReader.{
  ReaderMove-owner, ReaderMove-WriterAgrees, ReaderMove-ReaderAgrees, ReaderMove-Printed,
  ReaderMove-present,
}

-- What holds of the new value and of the others holds of the family.
pub set_at-all {ℓ} :
    {A : Type ℓ} (P : ℕ → A → Type 0) (i : ℕ) (a : A) (f : ℕ → A)
    → P i a
    → ((j : ℕ) → (j == i) ≡ false → P j (f j))
    → (j : ℕ) → P j (set_at i a f j)
set_at-all P i a f h others j = elim (Bool-cases (j == i)) [
  | inl e ↦ let same : j ≡ i = ground arith in rw same h'
  | inr e ↦ rw e (others j e)
]
  where
    h' : P i (set_at i a f i)
    h' = let e : (i == i) ≡ true = ground arith in rw e h

joined_main :
    (m : MainPc) (w w' : WriterPc) (readers readers' : ℕ → ReaderPc)
    → has_ended m ≡ false
    → ((i : ℕ) → readers i ≡ ReaderPc.returned → readers' i ≡ ReaderPc.returned)
    → JoinedAgrees m w readers
    → JoinedAgrees m w' readers'
joined_main starting w w' readers readers' e h a = tt
joined_main (creating i) w w' readers readers' e h a = tt
joined_main (joining i) w w' readers readers' e h a = (a.0, λ j lt. h j (a.1 j lt))
joined_main joining_writer w w' readers readers' e h a = λ j lt. h j (a j lt)
joined_main finished w w' readers readers' e h a = cc
joined_main exited w w' readers readers' e h a = tt

writer-Inv :
    {s : System} {m : Shared} {w : WriterPc}
    → has_ended s.main ≡ false
    → WriterMove s.mem s.writer m w
    → Inv s
    → Inv (record s { mem = m; writer = w })
writer-Inv {s} {m} {w} run mv v =
    let (own, same) = WriterMove-owner mv v.writer_owns in
    let present = WriterMove-present mv in
    record {
      writer_owns = own;
      reader_owns = λ i. v.reader_owns i ∙ sym (same i);
      writer_agrees = WriterMove-WriterAgrees mv v.writer_agrees;
      reader_agrees = λ i.
          WriterMove-ReaderAgrees mv (s.reader i)
            (λ e. v.reader_owns i ∙ writer-not-reader s.mem.owner i (sym v.writer_owns ∙ e))
            (v.reader_agrees i);
      printed = WriterMove-Printed mv v.printed;
      main_agrees = (
        v.main_agrees.0,
        λ e. absurd (cc (sym present.0 ∙ v.main_agrees.1 e)),
        v.main_agrees.2,
        v.main_agrees.3,
      );
      joined_agrees =
          joined_main s.main s.writer w s.reader s.reader run (λ i e. e) v.joined_agrees;
    }

reader-Inv :
    {s : System} (i : ℕ) {m : Shared} {r : ReaderPc}
    → has_ended s.main ≡ false
    → ReaderMove i s.mem (s.reader i) m r
    → Inv s
    → Inv (record s { mem = m; reader = set_at i r s.reader })
reader-Inv {s} i {m} {r} run mv v =
    let (own, writer_same, same) = ReaderMove-owner mv (v.reader_owns i) in
    let present = ReaderMove-present mv in
    let free : reader_holds (s.reader i) ≡ true → writer_holds s.writer ≡ false =
      λ e. v.writer_owns ∙ reader-not-writer s.mem.owner i (sym (v.reader_owns i) ∙ e) in
    let started : (j : ℕ)
        → has_ended s.main ≡ false
        → j < created s.main
        → is_absent (set_at i r s.reader j) ≡ false =
      set_at-all (λ j p. has_ended s.main ≡ false → j < created s.main → is_absent p ≡ false) i r
        s.reader (λ e lt. present.2) (λ j ne. v.main_agrees.3 j) in
    let unborn : (j : ℕ) → created s.main ≤ j → is_absent (set_at i r s.reader j) ≡ true =
      set_at-all (λ j p. created s.main ≤ j → is_absent p ≡ true) i r s.reader
        (λ le. absurd (cc (sym present.0 ∙ v.main_agrees.2 i le))) (λ j ne. v.main_agrees.2 j) in
    let kept : (j : ℕ)
        → s.reader j ≡ ReaderPc.returned
        → set_at i r s.reader j ≡ ReaderPc.returned =
      set_at-all (λ j p. s.reader j ≡ ReaderPc.returned → p ≡ ReaderPc.returned) i r s.reader
        (λ e. absurd (present.1 e)) (λ j ne e. e) in
    record {
      writer_owns = v.writer_owns ∙ sym writer_same;
      reader_owns =
          set_at-all (λ j p. reader_holds p ≡ is_reader j m.owner) i r s.reader own
            (λ j ne. v.reader_owns j ∙ sym (same j ne));
      writer_agrees = ReaderMove-WriterAgrees s.writer mv v.writer_agrees;
      reader_agrees =
          set_at-all (λ j p. ReaderAgrees (has_returned s.writer) p) i r s.reader
            (ReaderMove-ReaderAgrees s.writer mv v.writer_agrees free (v.reader_agrees i))
            (λ j ne. v.reader_agrees j);
      printed = ReaderMove-Printed s.writer mv v.writer_agrees free (v.reader_agrees i) v.printed;
      main_agrees = (v.main_agrees.0, v.main_agrees.1, unborn, started);
      joined_agrees =
          joined_main s.main s.writer s.writer s.reader (set_at i r s.reader) run kept
            v.joined_agrees;
    }

with_main :
    {s : System}
    → Inv s
    → (m : MainPc) → MainAgrees m s.writer s.reader
    → JoinedAgrees m s.writer s.reader
    → Inv (record s { main = m })
with_main v m a j = record {
  writer_owns = v.writer_owns;
  reader_owns = v.reader_owns;
  writer_agrees = v.writer_agrees;
  reader_agrees = v.reader_agrees;
  printed = v.printed;
  main_agrees = a;
  joined_agrees = j;
}

agrees_at : {s : System} {m : MainPc} → s.main ≡ m → Inv s → MainAgrees m s.writer s.reader
agrees_at {s} e v = subst (λ m. MainAgrees m s.writer s.reader) e v.main_agrees

joined_at : {s : System} {m : MainPc} → s.main ≡ m → Inv s → JoinedAgrees m s.writer s.reader
joined_at {s} e v = subst (λ m. JoinedAgrees m s.writer s.reader) e v.joined_agrees

exited-Inv : {s : System} → Inv s → Inv (record s { main = exited })
exited-Inv {s} v =
    with_main v exited
      (
        omega arith,
        λ e. cc,
        λ i le. v.main_agrees.2 i (omega (arith, v.main_agrees.0, le)),
        λ i e lt. cc,
      )
      tt

writer_absent : (w : WriterPc) → writer_is_absent w ≡ true → w ≡ WriterPc.absent
writer_absent w e = ground arith

reader_absent : (r : ReaderPc) → is_absent r ≡ true → r ≡ ReaderPc.absent
reader_absent r e = ground arith

-- The writer before it is created, and behind its creation.
writer_created-Inv :
    {s : System}
    → s.main ≡ starting
    → Inv s
    → Inv (record s { main = creating 0; writer = WriterPc.locking })
writer_created-Inv {s} e v =
    let a = agrees_at e v in
    let gone = writer_absent s.writer (a.1 refl) in
    let before = subst (WriterAgrees s.mem) gone v.writer_agrees in
    record {
      writer_owns = ap writer_holds (sym gone) ∙ v.writer_owns;
      reader_owns = v.reader_owns;
      writer_agrees = (omega (arith, before.0), before.1 ∙ ap message (sym before.0));
      reader_agrees =
          λ i. subst (λ w. ReaderAgrees (has_returned w) (s.reader i)) gone (v.reader_agrees i);
      printed = v.printed;
      main_agrees = (omega arith, λ e. cc, a.2, λ i e lt. absurd (omega arith));
      joined_agrees = tt;
    }

reader_created-Inv :
    {s : System} (i : ℕ)
    → s.main ≡ creating i
    → i < thread_count
    → Inv s
    → Inv (record s { main = creating (i + 1); reader = set_at i ReaderPc.locking s.reader })
reader_created-Inv {s} i e lt v =
    let a = agrees_at e v in
    let gone = reader_absent (s.reader i) (a.2 i (omega arith)) in
    let new = ReaderPc.locking in
    record {
      writer_owns = v.writer_owns;
      reader_owns =
          set_at-all (λ j p. reader_holds p ≡ is_reader j s.mem.owner) i new s.reader
            (ap reader_holds (sym gone) ∙ v.reader_owns i) (λ j ne. v.reader_owns j);
      writer_agrees = v.writer_agrees;
      reader_agrees =
          set_at-all (λ j p. ReaderAgrees (has_returned s.writer) p) i new s.reader tt
            (λ j ne. v.reader_agrees j);
      printed = v.printed;
      main_agrees = (
        omega arith,
        λ e. cc,
        set_at-all (λ j p. i + 1 ≤ j → is_absent p ≡ true) i new s.reader
            (λ le. absurd (omega arith)) (λ j ne le. a.2 j (omega arith)),
        set_at-all (λ j p. false ≡ false → j < i + 1 → is_absent p ≡ false) i new s.reader
            (λ e lt. refl) (λ j ne e lt. a.3 j refl (ground arith)),
      );
      joined_agrees = tt;
    }

MainMove-Inv : {s t : System} → MainMove s t → Inv s → Inv t
MainMove-Inv (init_failed e) v = exited-Inv v
MainMove-Inv (writer_created e) v = writer_created-Inv e v
MainMove-Inv {s} (writer_refused e) v =
    let a = agrees_at e v in
    with_main v (creating 0) (omega arith, λ e. cc, a.2, λ i e lt. absurd (omega arith)) tt
MainMove-Inv (reader_created i e lt) v = reader_created-Inv i e lt v
MainMove-Inv (reader_refused i e lt) v = exited-Inv v
MainMove-Inv {s} (all_created e) v =
    let a = agrees_at e v in
    with_main v (joining 0) (omega arith, λ e. cc, a.2, λ i e lt. a.3 i refl lt)
      (omega arith, λ i lt. absurd (omega arith))
MainMove-Inv {s} (joined i e lt back) v =
    let a = agrees_at e v in
    with_main v (joining (i + 1)) (omega arith, λ e. cc, a.2, λ i e lt. a.3 i refl lt)
      (
        omega arith,
        λ j less. elim (Bool-cases (j == i)) [
          | inl same ↦ let here : j ≡ i = ground arith in rw here back
          | inr ne ↦ (joined_at e v).1 j (ground arith)
        ],
      )
MainMove-Inv (join_failed i e lt) v = exited-Inv v
MainMove-Inv {s} (all_joined e) v =
    let a = agrees_at e v in
    with_main v joining_writer (omega arith, λ e. cc, a.2, λ i e lt. a.3 i refl lt)
      (joined_at e v).1
MainMove-Inv {s} (writer_joined e back) v =
    let a = agrees_at e v in
    with_main v finished (omega arith, λ e. cc, a.2, λ i e lt. cc) (joined_at e v, back)

pub Step-Inv : {s t : System} → Step s t → Inv s → Inv t
Step-Inv (main_moves mv) v = MainMove-Inv mv v
Step-Inv (writer_moves run mv) v = writer-Inv run mv v
Step-Inv (reader_moves i run mv) v = reader-Inv i run mv v

pub Steps-Inv : {s t : System} → Steps s t → Inv s → Inv t
Steps-Inv here v = v
Steps-Inv (later r st) v = Step-Inv st (Steps-Inv r v)
