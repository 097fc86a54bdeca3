-- ===== src/Threads/Progress.antt =====
-- pthread_mutex/main.c: the threads can always come to their end.
use os_tasks.Base.{
  ℕ, zero, suc, ◌+◌, ◌-◌, true, false, Bool-cases, inl, inr, Option, none, some, ◌≡◌, ◌≢◌, refl,
  sym, ap, subst, ◌∙◌, arith,
}
use os_tasks.Threads.State.{
  done_text, by_writer, by_reader, Holder, WriterPc, ReaderPc, MainPc, System,
}
use os_tasks.Threads.Moves.{WriterMove, ReaderMove, has_ended}
use os_tasks.Threads.Invariant.{
  has_returned, writer_holds, reader_holds, is_writer, is_reader, WriterAgrees, writer_is_absent,
  Inv,
}
use os_tasks.Threads.Keep.{reader-not-writer}
use os_tasks.Threads.KeepReader.{message-ne-done, quiet-Whole}
use os_tasks.Threads.Leads.{
  Leads, at_once, and_then, step_then, writer_go, reader_go, set_at_same, runs, Free, Out,
  from_unlocking, from_unlocking_last, from_finishing, from_testing, from_writing,
  from_incrementing, from_locking,
}

returned_writer : (w : WriterPc) → has_returned w ≡ true → w ≡ WriterPc.returned
returned_writer w e = ground arith

pub returned_done :
    (s : System) → Inv s → s.writer ≡ WriterPc.returned → (s.mem.num ≡ 6) × (s.mem.str ≡ done_text)
returned_done s v at = subst (WriterAgrees s.mem) at v.writer_agrees

module _ (p : MainPc) (run : has_ended p ≡ false) where
  -- Nobody holds the mutex, and the writer is there.
  abbrev pub Clear : System → Type 0
  Clear t = Free p run t × (writer_is_absent t.writer ≡ false)

  Out-Clear : (n : ℕ) (t : System) → Inv t → Out p run n t → Leads t Clear
  Out-Clear n t v (free, inl (e, _)) = at_once Clear v (free, ap writer_is_absent e)
  Out-Clear n t v (free, inr e) = at_once Clear v (free, ap writer_is_absent e)

  writer_out :
      (w : WriterPc) (s : System)
      → Inv s
      → s.main ≡ p
      → s.writer ≡ w
      → writer_holds w ≡ true
      → Leads s Clear
  writer_out WriterPc.absent s v e at h = cc
  writer_out WriterPc.locking s v e at h = cc
  writer_out WriterPc.incrementing s v e at h =
      let n = s.mem.num + 1 in
      and_then (Out p run n) Clear (from_incrementing p run s v e at) (Out-Clear n)
  writer_out WriterPc.writing s v e at h =
      let n = s.mem.num in and_then (Out p run n) Clear (from_writing p run s v e at) (Out-Clear n)
  writer_out WriterPc.testing s v e at h =
      let n = s.mem.num in and_then (Out p run n) Clear (from_testing p run s v e at) (Out-Clear n)
  writer_out WriterPc.finishing s v e at h =
      and_then (Out p run 0) Clear (from_finishing p run 0 s v e at) (Out-Clear 0)
  writer_out WriterPc.unlocking_last s v e at h =
      and_then (Out p run 0) Clear (from_unlocking_last p run 0 s v e at) (Out-Clear 0)
  writer_out WriterPc.unlocking s v e at h =
      let n = s.mem.num in
      and_then (Out p run n) Clear (from_unlocking p run s v e at) (Out-Clear n)
  writer_out WriterPc.sleeping s v e at h = cc
  writer_out WriterPc.returned s v e at h = cc

  module _ (i : ℕ) where
    reader_unlocks :
        (s : System)
        → Inv s
        → s.main ≡ p
        → writer_is_absent s.writer ≡ false
        → s.reader i ≡ ReaderPc.unlocking
        → Leads s Clear
    reader_unlocks s v e w at =
        step_then Clear (reader_go s i (runs p run s e) at ReaderMove.unlock) v
          (λ v'. at_once Clear v' ((e, refl), w))

    reader_unlocks_last :
        (s : System)
        → Inv s
        → s.main ≡ p
        → writer_is_absent s.writer ≡ false
        → s.reader i ≡ ReaderPc.unlocking_last
        → Leads s Clear
    reader_unlocks_last s v e w at =
        step_then Clear (reader_go s i (runs p run s e) at ReaderMove.unlock_last) v
          (λ v'. at_once Clear v' ((e, refl), w))

    reader_prints :
        (s : System)
        → Inv s
        → s.main ≡ p
        → writer_is_absent s.writer ≡ false
        → s.reader i ≡ ReaderPc.printing
        → Leads s Clear
    reader_prints s v e w at =
        step_then Clear (reader_go s i (runs p run s e) at ReaderMove.print) v
          (λ v'. reader_unlocks _ v' e w (set_at_same i ReaderPc.unlocking s.reader))

    reader_compares :
        (s : System)
        → Inv s
        → s.main ≡ p
        → writer_is_absent s.writer ≡ false
        → s.reader i ≡ ReaderPc.comparing
        → Leads s Clear
    reader_compares s v e w at = elim (Bool-cases (has_returned s.writer)) [
      | inl back ↦
          let done = (returned_done s v (returned_writer s.writer back)).1 in
          step_then Clear (reader_go s i (runs p run s e) at (ReaderMove.same done)) v
            (λ v'. reader_unlocks_last _ v' e w (set_at_same i ReaderPc.unlocking_last s.reader))
      | inr working ↦
          let mine = sym (v.reader_owns i) ∙ ap reader_holds at in
          let out = v.writer_owns ∙ reader-not-writer s.mem.owner i mine in
          let whole = quiet-Whole s.mem s.writer v.writer_agrees out working in
          let other : s.mem.str ≢ done_text = λ d. message-ne-done s.mem.num (sym whole.1 ∙ d) in
          step_then Clear (reader_go s i (runs p run s e) at (ReaderMove.other other)) v
            (λ v'. reader_prints _ v' e w (set_at_same i ReaderPc.printing s.reader))
    ]

    reader_out :
        (r : ReaderPc) (s : System)
        → Inv s
        → s.main ≡ p
        → writer_is_absent s.writer ≡ false
        → s.reader i ≡ r
        → reader_holds r ≡ true
        → Leads s Clear
    reader_out ReaderPc.absent s v e w at h = cc
    reader_out ReaderPc.locking s v e w at h = cc
    reader_out ReaderPc.comparing s v e w at h = reader_compares s v e w at
    reader_out ReaderPc.unlocking_last s v e w at h = reader_unlocks_last s v e w at
    reader_out ReaderPc.printing s v e w at h = reader_prints s v e w at
    reader_out ReaderPc.unlocking s v e w at h = reader_unlocks s v e w at
    reader_out ReaderPc.sleeping s v e w at h = cc
    reader_out ReaderPc.returned s v e w at h = cc

  -- Whoever holds the mutex lets it go.
  pub freed_from :
      (o : Option Holder) (s : System)
      → Inv s
      → s.main ≡ p
      → writer_is_absent s.writer ≡ false
      → s.mem.owner ≡ o
      → Leads s Clear
  freed_from none s v e w h = at_once Clear v ((e, h), w)
  freed_from (some by_writer) s v e w h =
      writer_out s.writer s v e refl (v.writer_owns ∙ ap is_writer h)
  freed_from (some (by_reader i)) s v e w h =
      let mine : is_reader i (some (by_reader i)) ≡ true = ground arith in
      reader_out i (s.reader i) s v e w refl (v.reader_owns i ∙ ap (is_reader i) h ∙ mine)

  -- The writer has returned, and nobody holds the mutex.
  abbrev pub Over : System → Type 0
  Over t = Free p run t × (t.writer ≡ WriterPc.returned)

  -- The writer goes its rounds, `k` of them are left.
  rounds :
      (k : ℕ) (s : System)
      → Inv s
      → Free p run s
      → s.writer ≡ WriterPc.sleeping
      → s.mem.num + k ≡ 6
      → Leads s Over
  rounds zero s v free at left =
      let few = (subst (WriterAgrees s.mem) at v.writer_agrees).0 in absurd (omega arith)
  rounds (suc k) s v (e, free) at left =
      step_then Over (writer_go s (runs p run s e) at WriterMove.wake) v (λ v'.
        and_then (Out p run (s.mem.num + 1)) Over (from_locking p run _ v' e free refl)
          (λ t v'' out. elim out.1 [
            | inl (asleep, count) ↦ rounds k t v'' out.0 asleep (omega (arith, count, left))
            | inr back ↦ at_once Over v'' (out.0, back)
          ]))

  pub finished_from :
      (w : WriterPc) (s : System)
      → Inv s
      → Free p run s
      → s.writer ≡ w
      → writer_is_absent w ≡ false
      → Leads s Over
  finished_from WriterPc.absent s v free at h = cc
  finished_from WriterPc.locking s v (e, free) at h =
      and_then (Out p run (s.mem.num + 1)) Over (from_locking p run s v e free at) (λ t v' out.
        elim out.1 [
          | inl (asleep, count) ↦
              let few = (subst (WriterAgrees t.mem) asleep v'.writer_agrees).0 in
              rounds (6 - t.mem.num) t v' out.0 asleep (omega arith)
          | inr back ↦ at_once Over v' (out.0, back)
        ])
  finished_from WriterPc.sleeping s v free at h =
      let few = (subst (WriterAgrees s.mem) at v.writer_agrees).0 in
      rounds (6 - s.mem.num) s v free at (omega arith)
  finished_from WriterPc.returned s v free at h = at_once Over v (free, at)
  finished_from w s v (e, free) at h =
      absurd (cc (sym (ap writer_holds at) ∙ v.writer_owns ∙ ap is_writer free))
