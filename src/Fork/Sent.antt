-- ===== src/Fork/Sent.antt =====
-- fork/main.c: what the handlers send, in every order of the steps.
use os_tasks.Base.{
  Bool, true, false, ◌&&◌, ◌||◌, List, [], ◌∷◌, ◌++◌, append-nil, Option, none, some, ◌≡◌, ◌≢◌,
  refl, ap, subst, ◌∙◌, arith,
}
use os_tasks.Fork.State.{
  Signal, Pid, zero_pid, child_pid, minus_one, handled, Pc, setting, forking, storing, refusing,
  hooking, working, ended, Process, System, initial, has_ended, handler_sends,
}
use os_tasks.Fork.Moves.{
  Move, sigaction_done, sigaction_failed, fork_failed, store_error, store, refuse, hook, uncaught,
  caught, Step, parent_moves, child_moves, forked, woken, waited, Steps, here, later, Reachable,
}

-- What a parent that stands here has sent: in the handler of a signal that signal, to the child or with
-- the -1 of a failed `fork`; in no other place anything.
abbrev pub sent_at : Pc → Pid → List (Pid × Signal)
sent_at (ended (handled sig)) child_pid = (child_pid, sig) ∷ []
sent_at (ended (handled sig)) minus_one = (minus_one, sig) ∷ []
sent_at (ended e) pid = []
sent_at pc pid = []

abbrev pub sent_by : Process → List (Pid × Signal)
sent_by p = sent_at p.pc p.pid

abbrev pub is_minus_one : Pid → Bool
is_minus_one minus_one = true
is_minus_one pid = false

abbrev pub is_there : Option Process → Bool
is_there none = false
is_there (some c) = true

-- Is -1 stored, or about to be?
abbrev has_error : Pc → Pid → Bool
has_error (storing minus_one) pid = true
has_error pc pid = is_minus_one pid

abbrev is_set : Pid → Bool
is_set zero_pid = false
is_set pid = true

abbrev before_fork : Pc → Bool
before_fork setting = true
before_fork forking = true
before_fork pc = false

-- With an error of `fork` there is no child, nor is there one before it.
ParentAgrees : Pc → Pid → Bool → Type 0
ParentAgrees pc pid b =
    ((has_error pc pid && b) ≡ false) × ((before_fork pc && (b || is_set pid)) ≡ false)

-- The child has 0 as its `pid`, or is about to store it.
abbrev ChildPc : Pc → Type 0
ChildPc setting = ⊥
ChildPc forking = ⊥
ChildPc refusing = ⊥
ChildPc (storing r) = r ≡ zero_pid
ChildPc pc = Unit

abbrev ChildAgrees : Option Process → Type 0
ChildAgrees none = Unit
ChildAgrees (some c) = (c.pid ≡ zero_pid) × ChildPc c.pc

record Inv (s : System) : Type 0 where
  sent : s.sent ≡ sent_by s.parent
  parent : ParentAgrees s.parent.pc s.parent.pid (is_there s.child)
  child : ChildAgrees s.child

error-minus_one :
    (pc : Pc) (pid : Pid) (b : Bool)
    → (has_error pc pid && b) ≡ false
    → (is_minus_one pid && b) ≡ false
error-minus_one (storing minus_one) zero_pid b h = refl
error-minus_one (storing minus_one) child_pid b h = refl
error-minus_one (storing minus_one) minus_one b h = h
error-minus_one (storing zero_pid) pid b h = h
error-minus_one (storing child_pid) pid b h = h
error-minus_one setting pid b h = h
error-minus_one forking pid b h = h
error-minus_one refusing pid b h = h
error-minus_one hooking pid b h = h
error-minus_one working pid b h = h
error-minus_one (ended e) pid b h = h

left_false : (a b : Bool) → (a || b) ≡ false → a ≡ false
left_false a b h = ground arith

not_set : (b : Bool) (r : Pid) → (b || is_set r) ≡ false → r ≡ zero_pid
not_set b zero_pid h = refl
not_set true child_pid h = cc
not_set false child_pid h = cc
not_set true minus_one h = cc
not_set false minus_one h = cc

no_error : (r : Pid) (b : Bool) → r ≢ minus_one → (is_minus_one r && b) ≡ false
no_error zero_pid b h = refl
no_error child_pid b h = refl
no_error minus_one b h = absurd (h refl)

-- The parent keeps its part.
Move-ParentAgrees :
    {p p' : Process} {out : List (Pid × Signal)} (b : Bool)
    → Move p p' out
    → ParentAgrees p.pc p.pid b
    → ParentAgrees p'.pc p'.pid b
unfolding ParentAgrees
Move-ParentAgrees {p} b (sigaction_done e) h = subst (λ pc. ParentAgrees pc p.pid b) e h
Move-ParentAgrees {p} b (sigaction_failed e) h =
    ((subst (λ pc. ParentAgrees pc p.pid b) e h).0, refl)
Move-ParentAgrees {p} b (fork_failed e) h =
    (left_false b (is_set p.pid) (subst (λ pc. ParentAgrees pc p.pid b) e h).1, refl)
Move-ParentAgrees {p} b (store_error e) h = ((subst (λ pc. ParentAgrees pc p.pid b) e h).0, refl)
Move-ParentAgrees {p} b (store {r} ne e) h = (no_error r b ne, refl)
Move-ParentAgrees {p} b (refuse e) h = ((subst (λ pc. ParentAgrees pc p.pid b) e h).0, refl)
Move-ParentAgrees {p} b (hook e) h = ((subst (λ pc. ParentAgrees pc p.pid b) e h).0, refl)
Move-ParentAgrees {p} b (uncaught sig run un) h = (error-minus_one p.pc p.pid b h.0, refl)
Move-ParentAgrees {p} b (caught sig run un) h = (error-minus_one p.pc p.pid b h.0, refl)

-- A process that has not ended has sent nothing yet.
running-sent : (pc : Pc) (pid : Pid) → has_ended pc ≡ false → sent_at pc pid ≡ []
running-sent (ended e) pid h = cc
running-sent setting pid h = refl
running-sent forking pid h = refl
running-sent (storing r) pid h = refl
running-sent refusing pid h = refl
running-sent hooking pid h = refl
running-sent working pid h = refl

handler_sends-sent_at :
    (sig : Signal) (pid : Pid) → handler_sends sig pid ≡ sent_at (ended (handled sig)) pid
unfolding handler_sends
handler_sends-sent_at sig zero_pid = refl
handler_sends-sent_at sig child_pid = refl
handler_sends-sent_at sig minus_one = refl

Move-sent :
    {p p' : Process} {out : List (Pid × Signal)} → Move p p' out → out ++ sent_by p ≡ sent_by p'
Move-sent {p} (sigaction_done e) = ap (λ pc. sent_at pc p.pid) e
Move-sent {p} (sigaction_failed e) = ap (λ pc. sent_at pc p.pid) e
Move-sent {p} (fork_failed e) = ap (λ pc. sent_at pc p.pid) e
Move-sent {p} (store_error e) = ap (λ pc. sent_at pc p.pid) e
Move-sent {p} (store ne e) = ap (λ pc. sent_at pc p.pid) e
Move-sent {p} (refuse e) = ap (λ pc. sent_at pc p.pid) e
Move-sent {p} (hook e) = ap (λ pc. sent_at pc p.pid) e
Move-sent {p} (uncaught sig run un) = running-sent p.pc p.pid run
Move-sent {p} (caught sig run un) =
    ap (λ l. handler_sends sig p.pid ++ l) (running-sent p.pc p.pid run)
    ∙ append-nil (handler_sends sig p.pid)
    ∙ handler_sends-sent_at sig p.pid

-- The child sends nothing and keeps its part.
Move-ChildAgrees :
    {c c' : Process} {out : List (Pid × Signal)}
    → Move c c' out
    → ChildAgrees (some c)
    → ChildAgrees (some c') × (out ≡ [])
unfolding handler_sends
Move-ChildAgrees {c} (sigaction_done e) h = absurd (subst ChildPc e h.1)
Move-ChildAgrees {c} (sigaction_failed e) h = absurd (subst ChildPc e h.1)
Move-ChildAgrees {c} (fork_failed e) h = absurd (subst ChildPc e h.1)
Move-ChildAgrees {c} (store_error e) h = cc (subst ChildPc e h.1)
Move-ChildAgrees {c} (store ne e) h = ((subst ChildPc e h.1, tt), refl)
Move-ChildAgrees {c} (refuse e) h = absurd (subst ChildPc e h.1)
Move-ChildAgrees {c} (hook e) h = ((h.0, tt), refl)
Move-ChildAgrees {c} (uncaught sig run un) h = ((h.0, tt), refl)
Move-ChildAgrees {c} (caught sig run un) h = ((h.0, tt), ap (handler_sends sig) h.0)

Step-Inv : {s t : System} → Step s t → Inv s → Inv t
unfolding ParentAgrees
Step-Inv {s} (parent_moves {out = out} mv) v = record {
  sent = ap (λ l. out ++ l) v.sent ∙ Move-sent mv;
  parent = Move-ParentAgrees (is_there s.child) mv v.parent;
  child = v.child;
}
Step-Inv {s} (child_moves {c = c} e mv) v =
    let (agrees, silent) = Move-ChildAgrees mv (subst ChildAgrees e v.child) in
    record {
      sent = ap (λ l. l ++ s.sent) silent ∙ v.sent;
      parent = subst (λ o. ParentAgrees s.parent.pc s.parent.pid (is_there o)) e v.parent;
      child = agrees;
    }
Step-Inv {s} (forked e) v =
    let early = (subst (λ pc. ParentAgrees pc s.parent.pid (is_there s.child)) e v.parent).1 in
    let zero = not_set (is_there s.child) s.parent.pid early in
    record {
      sent = v.sent ∙ ap (λ pc. sent_at pc s.parent.pid) e;
      parent = (ap (λ r. is_minus_one r && true) zero, refl);
      child = (zero, refl);
    }
Step-Inv {s} (woken {c} e at) v =
    let agrees = subst ChildAgrees e v.child in
    record {
      sent = v.sent;
      parent = subst (λ o. ParentAgrees s.parent.pc s.parent.pid (is_there o)) e v.parent;
      child = (agrees.0, tt);
    }
Step-Inv {s} (waited at e done) v = record {
  sent = v.sent ∙ ap (λ pc. sent_at pc s.parent.pid) at;
  parent = (error-minus_one s.parent.pc s.parent.pid (is_there s.child) v.parent.0, refl);
  child = v.child;
}

Steps-Inv : {s t : System} → Steps s t → Inv s → Inv t
Steps-Inv here v = v
Steps-Inv (later r st) v = Step-Inv st (Steps-Inv r v)

initial-Inv : Inv initial
unfolding ParentAgrees
initial-Inv = record { sent = refl; parent = (refl, refl); child = tt }

-- In every reachable state exactly what a parent must send that has ended in the handler of a signal has
-- been sent: that signal, to the child, once the result of `fork` is stored. The child sends nothing, and
-- the parent sends to every process only where `fork` has failed, so that there is no child.
pub Reachable-sent_by :
    (s : System)
    → Reachable s
    → (s.sent ≡ sent_by s.parent) × ((is_minus_one s.parent.pid && is_there s.child) ≡ false)
unfolding ParentAgrees
Reachable-sent_by s r =
    let v = Steps-Inv r initial-Inv in
    (v.sent, error-minus_one s.parent.pc s.parent.pid (is_there s.child) v.parent.0)
