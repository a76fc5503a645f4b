-- ===== src/Shared/Plans/Done.antt =====
-- What a plan has done when it is gone through to its end.
use static_distro.Shared.Calls.{
  Answer, ok, no_entry, exists, error, System, Step, go, stop, on_step, must, if_ok, if_made,
  if_found,
}
use static_distro.Shared.Plans.{Entry, need, make, any, found_then, refuse, run_entry, run_plan}
use mathlib.Core.List.{List, [], ◌∷◌, ◌++◌, Memᴰ}
use mathlib.Core.List.Memᴰ
use mathlib.Core.List.Memᴰ.{head, tail, not-nil}
use mathlib.Core.Path.{◌≡◌, refl, sym, subst}
use mathlib.Core.Logic.{◌≢◌, ◌⊎◌, inl, inr}
use native.Mathlib.Omega.{arith}

-- A call that was made, and succeeded.
pub data Succeeded {C : Type 0} (sys : System C) (c : C) : List C → Type 0 where
  now : {before : List C} → sys before c ≡ ok → Succeeded sys c (c ∷ before)
  earlier : {x : C} {calls : List C} → Succeeded sys c calls → Succeeded sys c (x ∷ calls)

on_step-go :
    {C : Type 0} (s : Step C (Unit {0})) (f : Unit {0} → List C → Step C (Unit {0})) (done : List C)
    → on_step s f ≡ go tt done
    → (mid : List C) × (s ≡ go tt mid) × (f tt mid ≡ go tt done)
on_step-go (stop calls) f done h = absurd (ground arith)
on_step-go (go a mid) f done h = (mid, refl, h)

if_ok-go :
    {C : Type 0} (a : Answer) (calls done : List C)
    → if_ok a calls ≡ go tt done
    → (a ≡ ok) × (done ≡ calls)
if_ok-go ok calls done h = (refl, ground arith)
if_ok-go no_entry calls done h = absurd (ground arith)
if_ok-go exists calls done h = absurd (ground arith)
if_ok-go error calls done h = absurd (ground arith)

if_made-go :
    {C : Type 0} (a : Answer) (calls done : List C) → if_made a calls ≡ go tt done → done ≡ calls
if_made-go ok calls done h = ground arith
if_made-go no_entry calls done h = absurd (ground arith)
if_made-go exists calls done h = ground arith
if_made-go error calls done h = absurd (ground arith)

-- The calls go on from others.
pub data Extends {C : Type 0} (calls : List C) : List C → Type 0 where
  same : Extends calls calls
  more : {x : C} {done : List C} → Extends calls done → Extends calls (x ∷ done)

Extends-trans : {C : Type 0} {a b c : List C} → Extends a b → Extends b c → Extends a c
Extends-trans p same = p
Extends-trans p (more q) = more (Extends-trans p q)

Succeeded-Extends :
    {C : Type 0} {sys : System C} {c : C} {calls done : List C}
    → Extends calls done
    → Succeeded sys c calls
    → Succeeded sys c done
Succeeded-Extends same s = s
Succeeded-Extends (more e) s = earlier (Succeeded-Extends e s)

if_found-Extends :
    {C : Type 0} (a : Answer) (sys : System C) (e : C) (calls done : List C)
    → if_found a (must e) sys calls ≡ go tt done
    → Extends calls done
if_found-Extends ok sys e calls done h =
    let (_, is_done) = if_ok-go (sys calls e) (e ∷ calls) done h in rw (is_done) (more same)
if_found-Extends no_entry sys e calls done h =
    let is_done : done ≡ calls = ground arith in rw (is_done) same
if_found-Extends exists sys e calls done h = absurd (ground arith)
if_found-Extends error sys e calls done h = absurd (ground arith)

run_entry-Extends :
    {C : Type 0} (e : Entry C) (sys : System C) (calls done : List C)
    → run_entry e sys calls ≡ go tt done
    → Extends calls done
run_entry-Extends (need d) sys calls done h =
    let (_, is_done) = if_ok-go (sys calls d) (d ∷ calls) done h in rw (is_done) (more same)
run_entry-Extends (make d) sys calls done h =
    rw (if_made-go (sys calls d) (d ∷ calls) done h) (more same)
run_entry-Extends (any d) sys calls done h =
    let is_done : done ≡ d ∷ calls = ground arith in rw (is_done) (more same)
run_entry-Extends (found_then d e) sys calls done h =
    Extends-trans (more same) (if_found-Extends (sys calls d) sys e (d ∷ calls) done h)
run_entry-Extends refuse sys calls done h = absurd (ground arith)

-- The first entry of a plan that is gone through to its end.
run_plan-cons :
    {C : Type 0} (e : Entry C) (es : List (Entry C)) (sys : System C) (calls done : List C)
    → run_plan (e ∷ es) sys calls ≡ go tt done
    → (mid : List C) × (run_entry e sys calls ≡ go tt mid) × (run_plan es sys mid ≡ go tt done)
run_plan-cons e es sys calls done h =
    on_step-go (run_entry e sys calls) (λ _ calls'. run_plan es sys calls') done h

run_plan-Extends :
    {C : Type 0} (es : List (Entry C)) (sys : System C) (calls done : List C)
    → run_plan es sys calls ≡ go tt done
    → Extends calls done
run_plan-Extends [] sys calls done h =
    let is_done : done ≡ calls = ground arith in rw (is_done) same
run_plan-Extends (e ∷ es) sys calls done h =
    let (mid, first, later) = run_plan-cons e es sys calls done h in
    Extends-trans (run_entry-Extends e sys calls mid first) (run_plan-Extends es sys mid done later)

-- What a needed entry at the front of a plan leaves.
run_plan-need :
    {C : Type 0} (c : C) (e : Entry C) (es : List (Entry C)) (sys : System C) (calls done : List C)
    → need c ≡ e
    → run_plan (e ∷ es) sys calls ≡ go tt done
    → (sys calls c ≡ ok) × (run_plan es sys (c ∷ calls) ≡ go tt done)
run_plan-need c e es sys calls done is_e h =
    let (mid, first, later) =
      run_plan-cons (need c) es sys calls done
        (subst (λ e'. run_plan (e' ∷ es) sys calls ≡ go tt done) (sym is_e) h) in
    let (good, is_mid) = if_ok-go (sys calls c) (c ∷ calls) mid first in
    (good, subst (λ m. run_plan es sys m ≡ go tt done) is_mid later)

-- A plan that is gone through to its end has called what it needs, with success.
pub run_plan-Succeeded :
    {C : Type 0} (es : List (Entry C)) (sys : System C) (c : C) (calls done : List C)
    → Memᴰ (need c) es
    → run_plan es sys calls ≡ go tt done
    → Succeeded sys c done
run_plan-Succeeded [] sys c calls done m h = absurd (not-nil m)
run_plan-Succeeded (e ∷ es) sys c calls done (head is_e) h =
    let (good, later) = run_plan-need c e es sys calls done is_e h in
    Succeeded-Extends (run_plan-Extends es sys (c ∷ calls) done later) (now good)
run_plan-Succeeded (e ∷ es) sys c calls done (tail m) h =
    let (mid, first, later) = run_plan-cons e es sys calls done h in
    run_plan-Succeeded es sys c mid done m later

-- A call that succeeded before another one was made.
pub data SucceededBefore {C : Type 0} (sys : System C) (c d : C) : List C → Type 0 where
  then_now : {before : List C} → Succeeded sys c before → SucceededBefore sys c d (d ∷ before)
  then_earlier :
      {x : C} {calls : List C} → SucceededBefore sys c d calls → SucceededBefore sys c d (x ∷ calls)

SucceededBefore-Extends :
    {C : Type 0} {sys : System C} {c d : C} {calls done : List C}
    → Extends calls done
    → SucceededBefore sys c d calls
    → SucceededBefore sys c d done
SucceededBefore-Extends same s = s
SucceededBefore-Extends (more e) s = then_earlier (SucceededBefore-Extends e s)

run_plan-then :
    {C : Type 0} (fs : List (Entry C)) (sys : System C) (c d : C) (calls done : List C)
    → Succeeded sys c calls
    → Memᴰ (need d) fs
    → run_plan fs sys calls ≡ go tt done
    → SucceededBefore sys c d done
run_plan-then [] sys c d calls done s m h = absurd (not-nil m)
run_plan-then (e ∷ es) sys c d calls done s (head is_e) h =
    let (_, later) = run_plan-need d e es sys calls done is_e h in
    SucceededBefore-Extends (run_plan-Extends es sys (d ∷ calls) done later) (then_now s)
run_plan-then (e ∷ es) sys c d calls done s (tail m) h =
    let (mid, first, later) = run_plan-cons e es sys calls done h in
    run_plan-then es sys c d mid done
      (Succeeded-Extends (run_entry-Extends e sys calls mid first) s) m later

-- A plan that needs one call, and another one behind it.
pub data NeededBefore {C : Type 0} (c d : C) : List (Entry C) → Type 0 where
  at_front : {es : List (Entry C)} → Memᴰ (need d) es → NeededBefore c d (need c ∷ es)
  behind : {e : Entry C} {es : List (Entry C)} → NeededBefore c d es → NeededBefore c d (e ∷ es)

-- The two calls in the two parts of a plan.
pub needed_across :
    {C : Type 0} {c d : C} (es fs : List (Entry C))
    → Memᴰ (need c) es
    → Memᴰ (need d) fs
    → NeededBefore c d (es ++ fs)
needed_across [] fs m n = absurd (not-nil m)
needed_across {c} {d} (e ∷ es) fs (head is_e) n =
    subst (λ e'. NeededBefore c d (e' ∷ (es ++ fs))) is_e (at_front (Memᴰ.append_right es n))
needed_across (e ∷ es) fs (tail m) n = behind (needed_across es fs m n)

pub needed_left :
    {C : Type 0} {c d : C} {es : List (Entry C)} (fs : List (Entry C))
    → NeededBefore c d es
    → NeededBefore c d (es ++ fs)
needed_left fs (at_front m) = at_front (Memᴰ.append_left fs m)
needed_left fs (behind n) = behind (needed_left fs n)

pub needed_right :
    {C : Type 0} {c d : C} (es : List (Entry C)) {fs : List (Entry C)}
    → NeededBefore c d fs
    → NeededBefore c d (es ++ fs)
needed_right [] n = n
needed_right (e ∷ es) n = behind (needed_right es n)

-- In a plan that is gone through to its end, what is needed first succeeds before what is needed
-- behind it.
pub run_plan-NeededBefore :
    {C : Type 0} {c d : C} {es : List (Entry C)} (sys : System C) (calls done : List C)
    → NeededBefore c d es
    → run_plan es sys calls ≡ go tt done
    → SucceededBefore sys c d done
run_plan-NeededBefore {c} {d} sys calls done (at_front {es} m) h =
    let (good, later) = run_plan-need c (need c) es sys calls done refl h in
    run_plan-then es sys c d (c ∷ calls) done (now good) m later
run_plan-NeededBefore sys calls done (behind {e} {es} n) h =
    let (mid, first, later) = run_plan-cons e es sys calls done h in
    run_plan-NeededBefore sys mid done n later

-- The same of the two parts of a plan.
pub run_plan-SucceededBefore :
    {C : Type 0} (es fs : List (Entry C)) (sys : System C) (c d : C) (calls done : List C)
    → Memᴰ (need c) es
    → Memᴰ (need d) fs
    → run_plan (es ++ fs) sys calls ≡ go tt done
    → SucceededBefore sys c d done
run_plan-SucceededBefore es fs sys c d calls done m n h =
    run_plan-NeededBefore sys calls done (needed_across es fs m n) h

-- No plan with a refusal in it is gone through to its end.
pub run_plan_refused :
    {C : Type 0} (es : List (Entry C)) (sys : System C) (calls done : List C)
    → Memᴰ refuse es
    → run_plan es sys calls ≢ go tt done
run_plan_refused [] sys calls done m h = absurd (not-nil m)
run_plan_refused (e ∷ es) sys calls done (head is_e) h =
    let refused : run_plan (refuse ∷ es) sys calls ≡ go tt done =
      subst (λ e'. run_plan (e' ∷ es) sys calls ≡ go tt done) (sym is_e) h in
    absurd (ground arith)
run_plan_refused (e ∷ es) sys calls done (tail m) h =
    let (mid, first, later) = run_plan-cons e es sys calls done h in
    run_plan_refused es sys mid done m later

-- A plan that needs this call, or refuses.
abbrev pub NeedsOrRefuses : {C : Type 0} → C → List (Entry C) → Type 0
NeedsOrRefuses c es = Memᴰ (need c) es ⊎ Memᴰ refuse es

pub needs_left :
    {C : Type 0} (c : C) (es fs : List (Entry C))
    → NeedsOrRefuses c es
    → NeedsOrRefuses c (es ++ fs)
needs_left c es fs (inl m) = inl (Memᴰ.append_left fs m)
needs_left c es fs (inr m) = inr (Memᴰ.append_left fs m)

pub needs_right :
    {C : Type 0} (c : C) (es fs : List (Entry C))
    → NeedsOrRefuses c fs
    → NeedsOrRefuses c (es ++ fs)
needs_right c es fs (inl m) = inl (Memᴰ.append_right es m)
needs_right c es fs (inr m) = inr (Memᴰ.append_right es m)

-- In a plan that is gone through to its end, what is needed is needed, and not refused.
pub run_plan-needs :
    {C : Type 0} (c : C) (es : List (Entry C)) (sys : System C) (calls done : List C)
    → NeedsOrRefuses c es
    → run_plan es sys calls ≡ go tt done
    → Memᴰ (need c) es
run_plan-needs c es sys calls done (inl m) h = m
run_plan-needs c es sys calls done (inr m) h = absurd (run_plan_refused es sys calls done m h)

-- The end of a plan that is gone through to its end is gone through too.
pub run_plan-rest :
    {C : Type 0} (es fs : List (Entry C)) (sys : System C) (calls done : List C)
    → run_plan (es ++ fs) sys calls ≡ go tt done
    → (mid : List C) × (run_plan fs sys mid ≡ go tt done)
run_plan-rest [] fs sys calls done h = (calls, h)
run_plan-rest (e ∷ es) fs sys calls done h =
    let (mid, _, later) = run_plan-cons e (es ++ fs) sys calls done h in
    run_plan-rest es fs sys mid done later
