-- ===== src/Pipe/Runs.antt =====
-- Two processes that take turns in any order, and what it means that they come to an end.
use os_tasks.Base.{Bool, true, false, ◌||◌, Option, none, some, ◌≡◌, sym, subst, ◌∙◌}

abbrev is_some {ℓ} : {A : Type ℓ} → Option A → Bool
is_some none = false
is_some (some a) = true

-- What each process does next in a state (`none` if it waits or has ended), and the states to come to.
module _ {S : Type 0} (first second : S → Option S) (Final : S → Type 0) where
  pub data Step (s : S) : S → Type 0 where
    first_runs : {t : S} → first s ≡ some t → Step s t
    second_runs : {t : S} → second s ≡ some t → Step s t

  -- In whatever order the processes run, they do not get stuck, and come to such a state.
  pub data Finishes : S → Type 0 where
    at_end : {s : S} → Final s → Finishes s
    goes_on : {s t : S} → Step s t → ((u : S) → Step s u → Finishes u) → Finishes s

  abbrev pub AllFinish : Option S → Type 0
  AllFinish none = Unit
  AllFinish (some t) = Finishes t

  some_step :
      (s : S) (o q : Option S)
      → first s ≡ o
      → second s ≡ q
      → (is_some o || is_some q) ≡ true
      → (t : S) × Step s t
  some_step s (some t) q e e' h = (t, first_runs e)
  some_step s none (some t) e e' h = (t, second_runs e')
  some_step s none none e e' h = cc

  -- From what each does next.
  pub turns :
      (s : S) (o q : Option S)
      → first s ≡ o
      → second s ≡ q
      → (is_some o || is_some q) ≡ true
      → AllFinish o
      → AllFinish q
      → Finishes s
  turns s o q e e' h f f' = goes_on (some_step s o q e e' h).1 (λ u st. elim st [
    | first_runs r ↦ subst AllFinish (sym e ∙ r) f
    | second_runs r ↦ subst AllFinish (sym e' ∙ r) f'
  ])
