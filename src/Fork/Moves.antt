-- ===== src/Fork/Moves.antt =====
-- fork/main.c: the steps of `main` (lines 36 to 78) in both processes, and the arrival of a signal (lines
-- 15 to 33) at any place. A handler is taken to run through without another signal.
use os_tasks.Base.{true, false, List, [], ◌++◌, some, ◌≡◌, ◌≢◌}
use os_tasks.Fork.State.{
  Signal, Pid, zero_pid, child_pid, minus_one, returned, failed, killed, handled, setting, forking,
  storing, refusing, hooking, working, ended, Process, System, initial, has_ended, catches,
  handler_sends,
}

-- Steps of one process that the other has no part in, and what it sends.
pub data Move (p : Process) : Process → List (Pid × Signal) → Type 0 where
  sigaction_done : p.pc ≡ setting → Move p (record p { pc = forking }) []
  sigaction_failed : p.pc ≡ setting → Move p (record p { pc = ended failed }) []
  fork_failed : p.pc ≡ forking → Move p (record p { pc = storing minus_one }) []
  store_error : p.pc ≡ storing minus_one → Move p (record { pc = refusing; pid = minus_one }) []
  store :
      {r : Pid} → r ≢ minus_one → p.pc ≡ storing r → Move p (record { pc = hooking; pid = r }) []
  refuse : p.pc ≡ refusing → Move p (record p { pc = ended failed }) []
  hook : p.pc ≡ hooking → Move p (record p { pc = working }) []
  uncaught :
      (sig : Signal)
      → has_ended p.pc ≡ false
      → catches sig p.pc ≡ false
      → Move p (record p { pc = ended (killed sig) }) []
  caught :
      (sig : Signal)
      → has_ended p.pc ≡ false
      → catches sig p.pc ≡ true
      → Move p (record p { pc = ended (handled sig) }) (handler_sends sig p.pid)

pub data Step (s : System) : System → Type 0 where
  parent_moves :
      {p : Process} {out : List (Pid × Signal)}
      → Move s.parent p out
      → Step s (record s { parent = p; sent = out ++ s.sent })
  child_moves :
      {c c' : Process} {out : List (Pid × Signal)}
      → s.child ≡ some c
      → Move c c' out
      → Step s (record s { child = some c'; sent = out ++ s.sent })
  -- The child begins as a copy of the parent, with 0 as the result.
  forked :
      s.parent.pc ≡ forking
      → Step s (record s {
        parent = record s.parent { pc = storing child_pid };
        child = some (record s.parent { pc = storing zero_pid });
      })
  -- The child has slept.
  woken :
      {c : Process}
      → s.child ≡ some c
      → c.pc ≡ working
      → Step s (record s { child = some (record c { pc = ended returned }) })
  -- `wait` returns when the child has ended.
  waited :
      {c : Process}
      → s.parent.pc ≡ working
      → s.child ≡ some c
      → has_ended c.pc ≡ true
      → Step s (record s { parent = record s.parent { pc = ended returned } })

pub data Steps (s : System) : System → Type 0 where
  here : Steps s s
  later : {t u : System} → Steps s t → Step t u → Steps s u

abbrev pub Reachable : System → Type 0
Reachable s = Steps initial s
