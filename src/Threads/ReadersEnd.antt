-- ===== src/Threads/ReadersEnd.antt =====
-- pthread_mutex/main.c: the readers go to their ends, one after another, where the writer has ended.
use os_tasks.Base.{
  ℕ, zero, suc, ◌<◌, ◌==◌, false, Bool-cases, inl, inr, ◌≡◌, refl, sym, ap, ◌∙◌, arith,
}
use os_tasks.Threads.State.{WriterPc, ReaderPc, MainPc, System, set_at}
use os_tasks.Threads.Moves.{ReaderMove, has_ended}
use os_tasks.Threads.Invariant.{reader_holds, is_reader, is_absent, AllReturned, Inv}
use os_tasks.Threads.Leads.{Leads, at_once, and_then, step_then, reader_go, set_at_same, runs}
use os_tasks.Threads.Progress.{Over, returned_done}

module _ (p : MainPc) (run : has_ended p ≡ false) where
  -- A reader goes to its end, and the others stay where they are.
  abbrev Ended : ℕ → (ℕ → ReaderPc) → System → Type 0
  Ended i readers t =
      Over p run t
      × (t.reader i ≡ ReaderPc.returned)
      × ((j : ℕ) → (j == i) ≡ false → t.reader j ≡ readers j)

  module _ (i : ℕ) where
    set_at_other :
        (r : ReaderPc) (f : ℕ → ReaderPc) (j : ℕ) → (j == i) ≡ false → set_at i r f j ≡ f j
    set_at_other r f j ne = rw ne refl

    ended_unlocking :
        (readers : ℕ → ReaderPc) (s : System)
        → Inv s
        → s.main ≡ p
        → s.writer ≡ WriterPc.returned
        → s.reader i ≡ ReaderPc.unlocking_last
        → ((j : ℕ) → (j == i) ≡ false → s.reader j ≡ readers j)
        → Leads s (Ended i readers)
    ended_unlocking readers s v e w at others =
        step_then (Ended i readers) (reader_go s i (runs p run s e) at ReaderMove.unlock_last) v
          (λ v'. at_once (Ended i readers) v' (
            ((e, refl), w),
            set_at_same i ReaderPc.returned s.reader,
            λ j ne. set_at_other ReaderPc.returned s.reader j ne ∙ others j ne,
          ))

    ended_comparing :
        (readers : ℕ → ReaderPc) (s : System)
        → Inv s
        → s.main ≡ p
        → s.writer ≡ WriterPc.returned
        → s.reader i ≡ ReaderPc.comparing
        → ((j : ℕ) → (j == i) ≡ false → s.reader j ≡ readers j)
        → Leads s (Ended i readers)
    ended_comparing readers s v e w at others =
        step_then (Ended i readers)
          (reader_go s i (runs p run s e) at (ReaderMove.same (returned_done s v w).1)) v
          (λ v'.
            ended_unlocking readers _ v' e w (set_at_same i ReaderPc.unlocking_last s.reader)
              (λ j ne. set_at_other ReaderPc.unlocking_last s.reader j ne ∙ others j ne))

    ended_locking :
        (readers : ℕ → ReaderPc) (s : System)
        → Inv s
        → Over p run s
        → s.reader i ≡ ReaderPc.locking
        → ((j : ℕ) → (j == i) ≡ false → s.reader j ≡ readers j)
        → Leads s (Ended i readers)
    ended_locking readers s v ((e, free), w) at others =
        step_then (Ended i readers) (reader_go s i (runs p run s e) at (ReaderMove.lock free)) v
          (λ v'.
            ended_comparing readers _ v' e w (set_at_same i ReaderPc.comparing s.reader)
              (λ j ne. set_at_other ReaderPc.comparing s.reader j ne ∙ others j ne))

    ended_from :
        (r : ReaderPc) (s : System)
        → Inv s
        → Over p run s
        → s.reader i ≡ r
        → is_absent r ≡ false
        → Leads s (Ended i s.reader)
    ended_from ReaderPc.absent s v o at h = cc
    ended_from ReaderPc.locking s v o at h = ended_locking s.reader s v o at (λ j ne. refl)
    ended_from ReaderPc.sleeping s v ((e, free), w) at h =
        step_then (Ended i s.reader) (reader_go s i (runs p run s e) at ReaderMove.wake) v (λ v'.
          ended_locking s.reader _ v' ((e, free), w) (set_at_same i ReaderPc.locking s.reader)
            (λ j ne. set_at_other ReaderPc.locking s.reader j ne))
    ended_from ReaderPc.returned s v o at h = at_once (Ended i s.reader) v (o, at, λ j ne. refl)
    ended_from r s v ((e, free), w) at h =
        absurd (cc (sym (ap reader_holds at) ∙ v.reader_owns i ∙ ap (is_reader i) free))

  -- The readers go to their ends, one after another.
  abbrev pub AllEnded : ℕ → System → Type 0
  AllEnded n t = Over p run t × AllReturned n t.reader

  pub readers_ended :
      (n : ℕ) (s : System)
      → Inv s
      → Over p run s
      → ((t : System) → Inv t → Over p run t → (i : ℕ) → i < n → is_absent (t.reader i) ≡ false)
      → Leads s (AllEnded n)
  readers_ended zero s v o there = at_once (AllEnded 0) v (o, λ i lt. absurd (omega arith))
  readers_ended (suc n) s v o there =
      and_then (AllEnded n) (AllEnded (suc n))
        (readers_ended n s v o (λ t v' o' i lt. there t v' o' i (omega arith)))
        (λ t v' done.
          and_then (Ended n t.reader) (AllEnded (suc n))
            (ended_from n (t.reader n) t v' done.0 refl (there t v' done.0 n (omega arith)))
            (λ u v'' end. at_once (AllEnded (suc n)) v'' (
              end.0,
              λ j lt. elim (Bool-cases (j == n)) [
                | inl same ↦ let e : j ≡ n = ground arith in rw e end.1
                | inr ne ↦ end.2 j ne ∙ done.1 j (ground arith)
              ],
            )))
