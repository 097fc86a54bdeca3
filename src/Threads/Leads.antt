-- ===== src/Threads/Leads.antt =====
-- pthread_mutex/main.c: which states can be brought about by steps, and how a thread gets out of its
-- critical section.
use os_tasks.Base.{
  ℕ, ◌+◌, ◌==◌, true, false, Bool-cases, inl, inr, ◌⊎◌, none, ◌≡◌, refl, sym, ap, subst, ◌∙◌, arith,
}
use os_tasks.Threads.State.{Shared, WriterPc, ReaderPc, MainPc, System, set_at}
use os_tasks.Threads.Moves.{
  WriterMove, ReaderMove, has_ended, Step, writer_moves, reader_moves, Steps, here, later,
}
use os_tasks.Threads.Invariant.{Inv}
use os_tasks.Threads.Reach.{Step-Inv}

pub Steps-trans : {s t u : System} → Steps s t → Steps t u → Steps s u
Steps-trans r here = r
Steps-trans r (later q st) = later (Steps-trans r q) st

-- Steps lead from the state to one where `Q` holds.
abbrev pub Leads : System → (System → Type 0) → Type 0
Leads s Q = (t : System) × Steps s t × Inv t × Q t

pub at_once : {s : System} (Q : System → Type 0) → Inv s → Q s → Leads s Q
at_once {s} Q v q = (s, here, v, q)

pub and_then :
    {s : System} (P Q : System → Type 0)
    → Leads s P
    → ((t : System) → Inv t → P t → Leads t Q)
    → Leads s Q
and_then P Q (t, r, v, p) next = let (u, r', v', q) = next t v p in (u, Steps-trans r r', v', q)

pub step_then :
    {s t : System} (Q : System → Type 0) → Step s t → Inv s → (Inv t → Leads t Q) → Leads s Q
step_then Q st v next =
    let v' = Step-Inv st v in
    let (u, r, v'', q) = next v' in (u, Steps-trans (later here st) r, v'', q)

-- A step of a thread that is known to stand somewhere.
pub writer_go :
    (s : System) {w w' : WriterPc} {m : Shared}
    → has_ended s.main ≡ false
    → s.writer ≡ w
    → WriterMove s.mem w m w'
    → Step s (record s { mem = m; writer = w' })
writer_go s {w' = w'} {m = m} run e mv =
    writer_moves run (subst (λ x. WriterMove s.mem x m w') (sym e) mv)

pub reader_go :
    (s : System) (i : ℕ) {r r' : ReaderPc} {m : Shared}
    → has_ended s.main ≡ false
    → s.reader i ≡ r
    → ReaderMove i s.mem r m r'
    → Step s (record s { mem = m; reader = set_at i r' s.reader })
reader_go s i {r' = r'} {m = m} run e mv =
    reader_moves i run (subst (λ x. ReaderMove i s.mem x m r') (sym e) mv)

pub set_at_same {ℓ} : {A : Type ℓ} (i : ℕ) (a : A) (f : ℕ → A) → set_at i a f i ≡ a
set_at_same i a f = let e : (i == i) ≡ true = ground arith in rw e refl

module _ (p : MainPc) (run : has_ended p ≡ false) where
  -- `main` still stands at `p`, and nobody holds the mutex.
  abbrev pub Free : System → Type 0
  Free t = (t.main ≡ p) × (t.mem.owner ≡ none)

  -- The writer behind its critical section: after `n` rounds, or at its end.
  abbrev pub Out : ℕ → System → Type 0
  Out n t =
      Free t × (((t.writer ≡ WriterPc.sleeping) × (t.mem.num ≡ n)) ⊎ (t.writer ≡ WriterPc.returned))

  pub runs : (s : System) → s.main ≡ p → has_ended s.main ≡ false
  runs s e = ap has_ended e ∙ run

  pub from_unlocking :
      (s : System) → Inv s → s.main ≡ p → s.writer ≡ WriterPc.unlocking → Leads s (Out s.mem.num)
  from_unlocking s v e at =
      step_then (Out s.mem.num) (writer_go s (runs s e) at WriterMove.unlock) v
        (λ v'. at_once (Out s.mem.num) v' ((e, refl), inl (refl, refl)))

  pub from_unlocking_last :
      (n : ℕ) (s : System)
      → Inv s
      → s.main ≡ p
      → s.writer ≡ WriterPc.unlocking_last
      → Leads s (Out n)
  from_unlocking_last n s v e at =
      step_then (Out n) (writer_go s (runs s e) at WriterMove.unlock_last) v
        (λ v'. at_once (Out n) v' ((e, refl), inr refl))

  pub from_finishing :
      (n : ℕ) (s : System) → Inv s → s.main ≡ p → s.writer ≡ WriterPc.finishing → Leads s (Out n)
  from_finishing n s v e at =
      step_then (Out n) (writer_go s (runs s e) at WriterMove.finish) v
        (λ v'. from_unlocking_last n _ v' e refl)

  pub from_testing :
      (s : System) → Inv s → s.main ≡ p → s.writer ≡ WriterPc.testing → Leads s (Out s.mem.num)
  from_testing s v e at = elim (Bool-cases (s.mem.num == 6)) [
    | inl six ↦
        step_then (Out s.mem.num) (writer_go s (runs s e) at (WriterMove.last (ground arith))) v
          (λ v'. from_finishing s.mem.num _ v' e refl)
    | inr other ↦
        step_then (Out s.mem.num) (writer_go s (runs s e) at (WriterMove.go_on (ground arith))) v
          (λ v'. from_unlocking _ v' e refl)
  ]

  pub from_writing :
      (s : System) → Inv s → s.main ≡ p → s.writer ≡ WriterPc.writing → Leads s (Out s.mem.num)
  from_writing s v e at =
      step_then (Out s.mem.num) (writer_go s (runs s e) at WriterMove.write) v
        (λ v'. from_testing _ v' e refl)

  pub from_incrementing :
      (s : System)
      → Inv s
      → s.main ≡ p
      → s.writer ≡ WriterPc.incrementing
      → Leads s (Out (s.mem.num + 1))
  from_incrementing s v e at =
      step_then (Out (s.mem.num + 1)) (writer_go s (runs s e) at WriterMove.increment) v
        (λ v'. from_writing _ v' e refl)

  -- A whole round, from the lock on.
  pub from_locking :
      (s : System)
      → Inv s
      → s.main ≡ p
      → s.mem.owner ≡ none
      → s.writer ≡ WriterPc.locking
      → Leads s (Out (s.mem.num + 1))
  from_locking s v e free at =
      step_then (Out (s.mem.num + 1)) (writer_go s (runs s e) at (WriterMove.lock free)) v
        (λ v'. from_incrementing _ v' e refl)
