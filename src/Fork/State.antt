-- ===== src/Fork/State.antt =====
-- fork/main.c: where the two processes stand, and what they have sent.
use os_tasks.Base.{Bool, true, false, List, [], ◌∷◌, Option, none}

-- SIGINT and SIGTERM
pub data Signal : Type 0 where
  interrupt terminate : Signal

-- The global `pid`: 0, the number of the child, or -1.
pub data Pid : Type 0 where
  zero_pid child_pid minus_one : Pid

-- How a process ends: by its return, with EXIT_FAILURE, by a signal that it does not catch, or by
-- `exit (EXIT_FAILURE)` in the handler of one.
pub data End : Type 0 where
  returned failed : End
  killed handled : Signal → End

-- In front of `sigaction`, of `fork`, of the store of its result in `pid`, of the exit behind an error of
-- it, of `signal (SIGINT, catch_sigint)`, or behind that.
pub data Pc : Type 0 where
  setting forking : Pc
  storing : Pid → Pc
  refusing hooking working : Pc
  ended : End → Pc

pub record Process : Type 0 where
  pub pc : Pc
  pub pid : Pid

-- The calls of `kill`, the last first.
pub record System : Type 0 where
  pub parent : Process
  pub child : Option Process
  pub sent : List (Pid × Signal)

abbrev pub initial : System
initial = record { parent = record { pc = setting; pid = zero_pid }; child = none; sent = [] }

abbrev pub has_ended : Pc → Bool
has_ended (ended e) = true
has_ended pc = false

-- Is the handler of the signal set?
abbrev pub catches : Signal → Pc → Bool
catches interrupt working = true
catches interrupt pc = false
catches terminate setting = false
catches terminate pc = true

-- `catch_sigint` and `catch_sigterm`: what they send, if anything.
unfoldable pub handler_sends : Signal → Pid → List (Pid × Signal)
handler_sends sig zero_pid = []
handler_sends sig child_pid = (child_pid, sig) ∷ []
handler_sends sig minus_one = (minus_one, sig) ∷ []
