-- ===== src/Solve/Closed.antt =====
-- What `solve_run` of tools/solve.c finds: one version for each package that the constraints need.
use static_distro.Shared.{
  ℕ, zero, suc, ◌≤◌, ◌<◌, ◌≡◌, inl, inr, sym, ap, subst, ◌∙◌, List, [], ◌∷◌, Option, none, some,
  arith, Option-cases, length, get_elem?, Elem, Bytes, get_elem?-lt,
}
use static_distro.Solve.Loop.{
  run_loop_end, run_loop_empty, run_loop_done, run_loop_failed, run_loop_aborted,
}
use static_distro.Solve.Names.{Has, Distinct, Grows, add_deps-Grows}
use static_distro.Solve.Round.{IsPacketSource, Round, run_round-Round, Outcome-cases}
use static_distro.Solve.{
  Version, Package, SolveProblem, not_run, solved, Outcome, done, failed, aborted, GetPkt,
  new_package, solve_init, add_deps, run_round, run_loop, mark, solve_run,
}
use mathlib.Core.Option
use native.Mathlib.Decide.{ℕ_discrete}

-- The names that the constraints `roots` lead to, by the dependencies of the chosen versions.
pub data Needed (roots : List Bytes) (p : SolveProblem) : Bytes → Type 0 where
  root : {n : Bytes} → Elem n roots → Needed roots p n
  dep :
      {n : Bytes} (i : ℕ) (pkg : Package) (v : Version)
      → get_elem? p.packages i ≡ some pkg
      → pkg.chosen ≡ some v
      → Elem n v.dependencies
      → Needed roots p pkg.name
      → Needed roots p n

-- The package has its first available version chosen, and all that it depends on is there.
pub record IsResolved (p : SolveProblem) (pkg : Package) : Type 0 where
  pub version : Version
  pub others : List Version
  pub is_chosen : pkg.chosen ≡ some version
  pub is_first : pkg.available ≡ version ∷ others
  pub deps_in : (d : Bytes) → Elem d version.dependencies → Has p d

-- A solution for the constraints `roots`.
pub record IsSolution (roots : List Bytes) (p : SolveProblem) : Type 0 where
  pub roots_in : (n : Bytes) → Elem n roots → Has p n
  pub resolved : (i : ℕ) (pkg : Package) → get_elem? p.packages i ≡ some pkg → IsResolved p pkg
  pub needed : (i : ℕ) (pkg : Package) → get_elem? p.packages i ≡ some pkg → Needed roots p pkg.name
  pub distinct : Distinct p

-- Between rounds: the packages in front of position `i` are resolved, the others are untouched.
record Inv (roots : List Bytes) (i : ℕ) (p : SolveProblem) : Type 0 where
  roots_in : (n : Bytes) → Elem n roots → Has p n
  resolved : (j : ℕ) (pkg : Package) → get_elem? p.packages j ≡ some pkg → j < i → IsResolved p pkg
  open_yet : (j : ℕ) (pkg : Package) → get_elem? p.packages j ≡ some pkg → i ≤ j → pkg.chosen ≡ none
  needed : (j : ℕ) (pkg : Package) → get_elem? p.packages j ≡ some pkg → Needed roots p pkg.name
  distinct : Distinct p

module _ {roots : List Bytes} (i : ℕ) (pkg : Package) (p r : SolveProblem)
    (at : get_elem? p.packages i ≡ some pkg) (inv : Inv roots i p) (round : Round i pkg p r) where
  Has-round : (n : Bytes) → Has p n → Has r n
  Has-round n (j, a, h, same) = elim (ℕ_discrete j i) [
    | no ne ↦ (j, a, round.elsewhere j a h ne, same)
    | yes e ↦ (i, round.result, round.here, ground arith)
  ]

  Needed-round : {n : Bytes} → Needed roots p n → Needed roots r n
  Needed-round (root elem) = root elem
  Needed-round (dep j a v h chosen elem need) = elim (ℕ_discrete j i) [
    | no ne ↦ dep j a v (round.elsewhere j a h ne) chosen elem (Needed-round need)
    | yes e ↦
        let untouched : a.chosen ≡ none = inv.open_yet j a h (omega arith) in
        let clash : none ≡ some v = sym untouched ∙ chosen in cc clash
  ]

  IsResolved-round : (a : Package) → IsResolved p a → IsResolved r a
  IsResolved-round a s = record {
    version = s.version;
    others = s.others;
    is_chosen = s.is_chosen;
    is_first = s.is_first;
    deps_in = λ d e. Has-round d (s.deps_in d e);
  }

  here-IsResolved : IsResolved r round.result
  here-IsResolved = record {
    version = round.version;
    others = round.others;
    is_chosen = round.is_chosen;
    is_first = round.is_first;
    deps_in = round.deps_in;
  }

  needed_here : Needed roots r round.result.name
  needed_here = rw round.same_name (Needed-round (inv.needed i pkg at))

  result_at : (j : ℕ) (b : Package) → get_elem? r.packages j ≡ some b → j ≡ i → round.result ≡ b
  result_at j b h e =
      let one : some round.result ≡ some b = sym round.here ∙ rw (← e) h in ground arith

  Inv-round : Inv roots (suc i) r
  Inv-round = record {
    roots_in = λ n e. Has-round n (inv.roots_in n e);
    resolved = λ j b h lt. elim (ℕ_discrete j i) [
      | yes e ↦ subst (IsResolved r) (result_at j b h e) here-IsResolved
      | no ne ↦ elim (round.back j b h) [
        | inl e ↦ absurd (ne e)
        | inr (inl before) ↦ IsResolved-round b (inv.resolved j b before (omega arith))
        | inr (inr (far, _, _)) ↦ absurd (omega (arith, get_elem?-lt p.packages i at))
      ]
    ];
    open_yet = λ j b h le. elim (round.back j b h) [
      | inl e ↦ absurd (omega arith)
      | inr (inl before) ↦ inv.open_yet j b before (omega arith)
      | inr (inr (far, is_new, _)) ↦ ap (λ (x : Package). x.chosen) is_new
    ];
    needed = λ j b h. elim (round.back j b h) [
      | inl e ↦ subst (λ (x : Package). Needed roots r x.name) (result_at j b h e) needed_here
      | inr (inl before) ↦ Needed-round (inv.needed j b before)
      | inr (inr (far, _, elem)) ↦
          dep i round.result round.version round.here round.is_chosen elem needed_here
    ];
    distinct = round.distinct;
  }

get_elem?-none {ℓ} : {A : Type ℓ} (xs : List A) (i : ℕ) → get_elem? xs i ≡ none → length xs ≤ i
get_elem?-none [] i h = omega arith
get_elem?-none (x ∷ xs) zero h = cc
get_elem?-none (x ∷ xs) (suc i) h = omega (arith, get_elem?-none xs i h)

Inv-end :
    {roots : List Bytes} (i : ℕ) (p : SolveProblem)
    → get_elem? p.packages i ≡ none
    → Inv roots i p
    → IsSolution roots p
Inv-end i p h inv = record {
  roots_in = inv.roots_in;
  resolved = λ j pkg at.
      inv.resolved j pkg at
        (omega (arith, get_elem?-lt p.packages j at, get_elem?-none p.packages i h));
  needed = inv.needed;
  distinct = inv.distinct;
}

no_elem : (i : ℕ) (a : Package) → get_elem? [] i ≡ some a → ⊥
no_elem i a h = cc

-- Before the loop, with the constraints added to an empty problem.
Inv-start : (roots : List Bytes) → Inv roots 0 (add_deps solve_init roots)
Inv-start roots = record {
  roots_in = grown.named;
  resolved = λ j pkg h lt. absurd (omega arith);
  open_yet = λ j pkg h le. ap (λ (x : Package). x.chosen) (fresh j pkg h).0;
  needed = λ j pkg h. root (fresh j pkg h).1;
  distinct = grown.distinct (λ i j a b x. absurd (no_packages i a x));
}
  where
    grown : Grows roots solve_init (add_deps solve_init roots)
    grown = add_deps-Grows roots solve_init

    no_packages : (i : ℕ) (a : Package) → get_elem? solve_init.packages i ≡ some a → ⊥
    no_packages i a h = no_elem i a (unfold solve_init in h)

    fresh :
        (j : ℕ) (pkg : Package)
        → get_elem? (add_deps solve_init roots).packages j ≡ some pkg
        → (pkg ≡ new_package pkg.name) × Elem pkg.name roots
    fresh j pkg h = elim (grown.new j pkg h) [
      | inl before ↦ absurd (no_packages j pkg before)
      | inr (_, is_new, elem) ↦ (is_new, elem)
    ]

done_injective : {A : Type 0} {a b : A} → some (done a) ≡ some (done b) → a ≡ b
done_injective h = cc

module _ {W : Type 0} (get : Option (GetPkt W)) (source : IsPacketSource get) where
  ended :
      (fuel : ℕ) (roots : List Bytes) (w : W) (p : SolveProblem) (i : ℕ) (w' : W) (q : SolveProblem)
      → Inv roots i p
      → get_elem? p.packages i ≡ none
      → run_loop fuel get w p i ≡ some (done (w', q))
      → IsSolution roots q
  ended fuel roots w p i w' q inv e h =
      let out : some (done (w, p)) ≡ some (done (w', q)) =
        sym (run_loop_end get w p i fuel e) ∙ h in
      let same : p ≡ q = ap (λ (s : W × SolveProblem). s.1) (done_injective out) in
      subst (IsSolution roots) same (Inv-end i p e inv)

  loop-IsSolution :
      (fuel : ℕ) (roots : List Bytes) (w : W) (p : SolveProblem) (i : ℕ) (w' : W) (q : SolveProblem)
      → Inv roots i p
      → run_loop fuel get w p i ≡ some (done (w', q))
      → IsSolution roots q
  loop-IsSolution zero roots w p i w' q inv h = elim (Option-cases (get_elem? p.packages i)) [
    | inl e ↦ ended zero roots w p i w' q inv e h
    | inr (pkg, e) ↦
        let out : none ≡ some (done (w', q)) = sym (run_loop_empty get w p i pkg e) ∙ h in cc out
  ]
  loop-IsSolution (suc fuel) roots w p i w' q inv h = elim (Option-cases (get_elem? p.packages i)) [
    | inl e ↦ ended (suc fuel) roots w p i w' q inv e h
    | inr (pkg, e) ↦ elim (Outcome-cases (run_round get w p i pkg)) [
      | inl ((w1, r), d) ↦
          loop-IsSolution fuel roots w1 r (suc i) w' q
            (Inv-round i pkg p r e inv (run_round-Round get source w p i pkg w1 r e inv.distinct d))
            (sym (run_loop_done get w p i pkg e fuel w1 r d) ∙ h)
      | inr (inl (s, d)) ↦
          let out : some (failed s) ≡ some (done (w', q)) =
            sym (run_loop_failed get w p i pkg e fuel s d) ∙ h in
          absurd (ground arith)
      | inr (inr d) ↦
          let out : some aborted ≡ some (done (w', q)) =
            sym (run_loop_aborted get w p i pkg e fuel d) ∙ h in
          absurd (ground arith)
    ]
  ]

-- The end of `solve_run` changes the mark alone.
marked :
    {W : Type 0} (o : Option (Outcome (W × SolveProblem))) (w' : W) (q : SolveProblem)
    → Option.map mark o ≡ some (done (w', q))
    → (r : SolveProblem) × (o ≡ some (done (w', r))) × (q ≡ record r { solved = solved })
marked none w' q h = cc
marked (some (done (w, p))) w' q h =
    let same = done_injective h in
    (
      p,
      ap (λ (v : _). some (done (v, p))) (ap (λ (s : _ × SolveProblem). s.0) same),
      sym (ap (λ (s : _ × SolveProblem). s.1) same),
    )
marked (some (failed (w, p))) w' q h = absurd (ground arith)
marked (some aborted) w' q h = absurd (ground arith)

pub solve_run-fresh :
    {W : Type 0} (get : Option (GetPkt W)) (fuel : ℕ) (w : W) (p : SolveProblem)
    {o : Option (Outcome (W × SolveProblem))}
    → p.solved ≡ not_run
    → solve_run fuel get w p ≡ o
    → Option.map mark (run_loop fuel get w p 0) ≡ o
unfolding solve_run
solve_run-fresh get fuel w p e h = ground arith

mark-Needed :
    {roots : List Bytes} (r : SolveProblem) {n : Bytes}
    → Needed roots r n
    → Needed roots (record r { solved = solved }) n
mark-Needed r (root e) = root e
mark-Needed r (dep i pkg v h c e need) = dep i pkg v h c e (mark-Needed r need)

mark-IsSolution :
    {roots : List Bytes} (r : SolveProblem)
    → IsSolution roots r
    → IsSolution roots (record r { solved = solved })
mark-IsSolution r s = record {
  roots_in = s.roots_in;
  resolved = λ i pkg h.
      let t = s.resolved i pkg h in
      record {
        version = t.version;
        others = t.others;
        is_chosen = t.is_chosen;
        is_first = t.is_first;
        deps_in = t.deps_in;
      };
  needed = λ i pkg h. mark-Needed r (s.needed i pkg h);
  distinct = s.distinct;
}

-- When `solve_run` returns 0 on a problem that was given the constraints `roots`, every constraint
-- has a package, every package has its first available version chosen and all that this version
-- depends on is there, no name stands twice, and every package is needed: the dependencies of
-- chosen versions lead to it from a constraint.
pub solve_run-IsSolution :
    {W : Type 0} (get : Option (GetPkt W)) (fuel : ℕ) (roots : List Bytes) (w w' : W)
    (q : SolveProblem)
    → IsPacketSource get
    → solve_run fuel get w (add_deps solve_init roots) ≡ some (done (w', q))
    → IsSolution roots q × (q.solved ≡ solved)
unfolding solve_init
solve_run-IsSolution get fuel roots w w' q source h =
    let (r, e, is_q) =
      marked (run_loop fuel get w (add_deps solve_init roots) 0) w' q
        (solve_run-fresh get fuel w _ (add_deps-Grows roots solve_init).same_solved h) in
    (
      subst (IsSolution roots) (sym is_q) (
          mark-IsSolution r (
            loop-IsSolution get source fuel roots w (add_deps solve_init roots) 0 w' r
              (Inv-start roots) e)),
      ap (λ (x : SolveProblem). x.solved) is_q,
    )
