-- ===== src/Shared/Plans.antt =====
-- Plans of calls. A program that goes through a plan stops at the first call that fails.
pub mod Done
use static_distro.Shared.Calls.{
  System, Step, go, stop, M, on_step, ◌>>=◌, ◌>>◌, pure, give_up, must, must_or_exists, just_call,
  follow,
}
use mathlib.Core.List.{List, [], ◌∷◌, ◌++◌}
use mathlib.Core.Path.{◌≡◌, refl, sym, ap, ◌∙◌}

-- A call that has to succeed, one that may also find what it makes, one with an answer that does not
-- matter, one that may find nothing with one that has to succeed otherwise, or an end without a call.
pub data Entry (C : Type 0) : Type 0 where
  need make any : C → Entry C
  found_then : C → C → Entry C
  refuse : Entry C

abbrev pub run_entry : {C : Type 0} → Entry C → M C (Unit {0})
run_entry (need c) = must c
run_entry (make c) = must_or_exists c
run_entry (any c) = just_call c
run_entry (found_then c d) = follow c d
run_entry refuse = give_up

abbrev pub run_plan : {C : Type 0} → List (Entry C) → M C (Unit {0})
run_plan [] = pure tt
run_plan (e ∷ es) = run_entry e >> run_plan es

on_step_assoc :
    {C : Type 0} (s : Step C (Unit {0})) (f g : Unit {0} → List C → Step C (Unit {0}))
    → on_step (on_step s f) g ≡ on_step s (λ a done. on_step (f a done) g)
on_step_assoc (stop done) f g = refl
on_step_assoc (go a done) f g = refl

pub then_assoc : {C : Type 0} (m n k : M C (Unit {0})) → (m >> n) >> k ≡ m >> (n >> k)
then_assoc m n k i sys calls =
    on_step_assoc (m sys calls) (λ _ done. n sys done) (λ _ done. k sys done) i

on_step_pure : {C : Type 0} (s : Step C (Unit {0})) → on_step s (λ _ done. go tt done) ≡ s
on_step_pure (stop done) = refl
on_step_pure (go a done) = refl

pub then_pure : {C : Type 0} (m : M C (Unit {0})) → m >> pure tt ≡ m
then_pure m i sys calls = on_step_pure (m sys calls) i

pub run_plan_append :
    {C : Type 0} (es fs : List (Entry C)) → run_plan (es ++ fs) ≡ run_plan es >> run_plan fs
run_plan_append [] fs = refl
run_plan_append (e ∷ es) fs =
    ap (λ m. run_entry e >> m) (run_plan_append es fs)
    ∙ sym (then_assoc (run_entry e) (run_plan es) (run_plan fs))

-- A program that goes through this plan.
pub data Follows {C : Type 0} (m : M C (Unit {0})) (es : List (Entry C)) : Type 0 where
  follows : m ≡ run_plan es → Follows m es

pub Follows-run_plan :
    {C : Type 0} {m : M C (Unit {0})} {es : List (Entry C)} → Follows m es → m ≡ run_plan es
Follows-run_plan (follows e) = e

-- Programs one after the other go through their plans one after the other.
pub then-Follows :
    {C : Type 0} {m n : M C (Unit {0})} {es fs : List (Entry C)}
    → Follows m es
    → Follows n fs
    → Follows (m >> n) (es ++ fs)
then-Follows {es} {fs} (follows p) (follows q) = follows (rw (p, q) (sym (run_plan_append es fs)))

pub nothing-Follows : {C : Type 0} → Follows {C = C} (pure tt) []
nothing-Follows = follows refl

-- A single call.
pub entry-Follows : {C : Type 0} (e : Entry C) → Follows (run_entry e) (e ∷ [])
entry-Follows e = follows (sym (then_pure (run_entry e)))

-- A call in front of a program.
pub then_entry :
    {C : Type 0} {n : M C (Unit {0})} {fs : List (Entry C)} (e : Entry C)
    → Follows n fs
    → Follows (run_entry e >> n) (e ∷ fs)
then_entry e (follows q) = follows (ap (λ m. run_entry e >> m) q)
