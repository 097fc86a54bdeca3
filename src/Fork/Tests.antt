-- ===== src/Fork/Tests.antt =====
-- A run of fork/main.c: the parent is ended by SIGTERM and passes it on.
use os_tasks.Base.{false, ◌&&◌, ◌≡◌, ◌≢◌, refl}
use os_tasks.Fork.State.{terminate, zero_pid, child_pid, minus_one, System}
use os_tasks.Fork.Moves.{
  sigaction_done, store, caught, hook, parent_moves, child_moves, forked, here, later, Reachable,
}
use os_tasks.Fork.Sent.{sent_by, is_minus_one, is_there, Reachable-sent_by}

record Run : Type 0 where
  last : System
  reach : Reachable last

child-apart : child_pid ≢ minus_one
child-apart e = cc

zero-apart : zero_pid ≢ minus_one
zero-apart e = cc

abbrev passed_on : Run
passed_on = record {
  last = _;
  reach =
      later
        (later
          (later
            (later (later (later here (parent_moves (sigaction_done refl))) (forked refl))
              (parent_moves (store child-apart refl)))
            (child_moves refl (store zero-apart refl)))
          (child_moves refl (hook refl)))
        (parent_moves (caught terminate refl refl));
}

Reachable-sent_by_example :
    (passed_on.last.sent ≡ sent_by passed_on.last.parent)
    × ((is_minus_one passed_on.last.parent.pid && is_there passed_on.last.child) ≡ false)
Reachable-sent_by_example = Reachable-sent_by passed_on.last passed_on.reach
