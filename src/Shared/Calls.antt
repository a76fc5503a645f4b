-- ===== src/Shared/Calls.antt =====
-- Programs that call the system. What the system answers may depend on all calls before, which are
-- kept with the latest one first. A program stops at a call that it cannot go on from.
use mathlib.Core.List.{List, ◌∷◌}

pub data Answer : Type 0 where
  ok no_entry exists error : Answer

abbrev pub System : Type 0 → Type 0
System C = List C → C → Answer

pub data Step (C A : Type 0) : Type 0 where
  go : A → List C → Step C A
  stop : List C → Step C A

abbrev pub M : Type 0 → Type 0 → Type 0
M C A = System C → List C → Step C A

abbrev pub pure : {C A : Type 0} → A → M C A
pure a sys calls = go a calls

abbrev pub on_step : {C A B : Type 0} → Step C A → (A → List C → Step C B) → Step C B
on_step (stop done) k = stop done
on_step (go a done) k = k a done

infixl 5 ◌>>=◌ ◌>>◌
abbrev pub ◌>>=◌ : {C A B : Type 0} → M C A → (A → M C B) → M C B
◌>>=◌ m f sys calls = on_step (m sys calls) (λ a done. f a sys done)

abbrev pub ◌>>◌ : {C B : Type 0} → M C (Unit {0}) → M C B → M C B
m >> k = m >>= λ _. k

abbrev pub give_up : {C A : Type 0} → M C A
give_up sys calls = stop calls

-- A call and its answer.
abbrev pub ask : {C : Type 0} → C → M C Answer
ask c sys calls = go (sys calls c) (c ∷ calls)

-- Goes on if the answer is good.
abbrev pub if_ok : {C : Type 0} → Answer → List C → Step C (Unit {0})
if_ok ok calls = go tt calls
if_ok no_entry calls = stop calls
if_ok exists calls = stop calls
if_ok error calls = stop calls

-- A call that has to succeed.
abbrev pub must : {C : Type 0} → C → M C (Unit {0})
must c sys calls = if_ok (sys calls c) (c ∷ calls)

-- Goes on if the answer is good, or if what is made is there already.
abbrev pub if_made : {C : Type 0} → Answer → List C → Step C (Unit {0})
if_made ok calls = go tt calls
if_made no_entry calls = stop calls
if_made exists calls = go tt calls
if_made error calls = stop calls

abbrev pub must_or_exists : {C : Type 0} → C → M C (Unit {0})
must_or_exists c sys calls = if_made (sys calls c) (c ∷ calls)

-- A call with an answer that does not matter.
abbrev pub just_call : {C : Type 0} → C → M C (Unit {0})
just_call c sys calls = go tt (c ∷ calls)

-- Goes on with a program if something was found, and without it if nothing was.
abbrev pub if_found : {C : Type 0} → Answer → M C (Unit {0}) → M C (Unit {0})
if_found ok m = m
if_found no_entry m = pure tt
if_found exists m = give_up
if_found error m = give_up

-- A call that may find nothing, and one that has to succeed if something was found.
abbrev pub follow : {C : Type 0} → C → C → M C (Unit {0})
follow c d = ask c >>= λ a. if_found a (must d)
