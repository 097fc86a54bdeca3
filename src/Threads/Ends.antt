-- ===== src/Threads/Ends.antt =====
-- pthread_mutex/main.c: from every reachable state the program can come to its end.
use os_tasks.Base.{ℕ, zero, suc, ◌+◌, ◌-◌, ◌≤◌, false, ◌≡◌, refl, sym, ap, subst, ◌∙◌, arith}
use os_tasks.Threads.State.{
  thread_count, WriterPc, MainPc, starting, creating, joining, joining_writer, finished, exited,
  System,
}
use os_tasks.Threads.Moves.{
  reader_created, all_created, joined, all_joined, writer_joined, has_ended, main_moves, Steps,
  Reachable,
}
use os_tasks.Threads.Invariant.{
  writer_is_absent, created, AllReturned, MainAgrees, JoinedAgrees, Inv, initial-Inv,
}
use os_tasks.Threads.Reach.{Steps-Inv}
use os_tasks.Threads.Leads.{Leads, at_once, and_then, step_then}
use os_tasks.Threads.Progress.{Clear, Over, freed_from, finished_from}
use os_tasks.Threads.ReadersEnd.{AllEnded, readers_ended}

abbrev AtEnd : System → Type 0
AtEnd t = t.main ≡ finished

-- The joins of `main`, `k` of them are left.
joins_writer :
    (s : System) → Inv s → s.main ≡ joining_writer → s.writer ≡ WriterPc.returned → Leads s AtEnd
joins_writer s v e back =
    step_then AtEnd (main_moves (writer_joined e back)) v (λ v'. at_once AtEnd v' refl)

joins :
    (k i : ℕ) (s : System)
    → Inv s
    → s.main ≡ joining i
    → i + k ≡ thread_count
    → AllReturned thread_count s.reader
    → s.writer ≡ WriterPc.returned
    → Leads s AtEnd
joins zero i s v e count all back =
    let here : s.main ≡ joining thread_count = e ∙ ap joining (omega arith) in
    step_then AtEnd (main_moves (all_joined here)) v (λ v'. joins_writer _ v' refl back)
joins (suc k) i s v e count all back =
    step_then AtEnd (main_moves (joined i e (omega arith) (all i (omega arith)))) v
      (λ v'. joins k (i + 1) _ v' refl (omega arith) all back)

-- With all readers created, every thread goes to its end and `main` stays where it is.
threads_end :
    (p : MainPc) (run : has_ended p ≡ false)
    → created p ≡ thread_count
    → (s : System) → Inv s
    → s.main ≡ p
    → writer_is_absent s.writer ≡ false
    → Leads s (AllEnded p run thread_count)
threads_end p run full s v e w =
    and_then (Clear p run) (AllEnded p run thread_count) (freed_from p run s.mem.owner s v e w refl)
      (λ t v' clear.
        and_then (Over p run) (AllEnded p run thread_count)
          (finished_from p run t.writer t v' clear.0 refl clear.1)
          (λ u v'' over. readers_ended p run thread_count u v'' over (λ x vx o i lt.
            (subst (λ m. MainAgrees m x.writer x.reader) o.0.0 vx.main_agrees).3 i run
              (omega (arith, full, lt)))))

from_joining :
    (i : ℕ) (s : System)
    → Inv s
    → s.main ≡ joining i
    → i ≤ thread_count
    → writer_is_absent s.writer ≡ false
    → Leads s AtEnd
from_joining i s v e le w =
    and_then (AllEnded (joining i) refl thread_count) AtEnd
      (threads_end (joining i) refl refl s v e w)
      (λ t v' end. joins (thread_count - i) i t v' end.0.0.0 (omega arith) end.1 end.0.1)

-- The creations of `main`, `k` of them are left.
from_creating :
    (k i : ℕ) (s : System)
    → Inv s
    → s.main ≡ creating i
    → i + k ≡ thread_count
    → writer_is_absent s.writer ≡ false
    → Leads s AtEnd
from_creating zero i s v e count w =
    let here : s.main ≡ creating thread_count = e ∙ ap creating (omega arith) in
    step_then AtEnd (main_moves (all_created here)) v
      (λ v'. from_joining 0 _ v' refl (omega arith) w)
from_creating (suc k) i s v e count w =
    step_then AtEnd (main_moves (reader_created i e (omega arith))) v
      (λ v'. from_creating k (i + 1) _ v' refl (omega arith) w)

from_main :
    (m : MainPc) (s : System)
    → Inv s
    → s.main ≡ m
    → has_ended m ≡ false
    → writer_is_absent s.writer ≡ false
    → Leads s AtEnd
from_main starting s v e run w =
    absurd (cc (sym w ∙ (subst (λ m. MainAgrees m s.writer s.reader) e v.main_agrees).1 refl))
from_main (creating i) s v e run w =
    let few = (subst (λ m. MainAgrees m s.writer s.reader) e v.main_agrees).0 in
    from_creating (thread_count - i) i s v e (omega arith) w
from_main (joining i) s v e run w =
    let few = (subst (λ m. JoinedAgrees m s.writer s.reader) e v.joined_agrees).0 in
    from_joining i s v e few w
from_main joining_writer s v e run w =
    and_then (AllEnded joining_writer refl thread_count) AtEnd
      (threads_end joining_writer refl refl s v e w)
      (λ t v' end. joins_writer t v' end.0.0.0 end.0.1)
from_main finished s v e run w = cc
from_main exited s v e run w = cc

-- From every reachable state in which the writer has been created and the process has not ended,
-- there are steps to the end of `main`, so that no order of the threads leads into a deadlock.
pub Reachable-finished :
    (s : System)
    → Reachable s
    → has_ended s.main ≡ false
    → writer_is_absent s.writer ≡ false
    → (t : System) × Steps s t × (t.main ≡ finished)
Reachable-finished s r run w =
    let (t, steps, _, at_end) = from_main s.main s (Steps-Inv r initial-Inv) refl run w in
    (t, steps, at_end)
