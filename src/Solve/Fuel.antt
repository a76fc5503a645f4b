-- ===== src/Solve/Fuel.antt =====
-- The fuel that the loop of `solve_run` in tools/solve.c needs.
use static_distro.Shared.{
  ℕ, zero, suc, ◌+◌, ◌≤◌, ◌≡◌, ◌≢◌, inl, inr, refl, sym, ap, subst, ◌∙◌, List, Option, none, some,
  arith, Option-cases, List-cases, length, get_elem?, All, Elem, All-Elem, Bytes, get_elem?-lt,
  get_elem?-set,
}
use static_distro.Solve.Closed.{solve_run-fresh}
use static_distro.Solve.Loop.{run_loop_end, run_loop_done, run_loop_failed, run_loop_aborted}
use static_distro.Solve.Names.{Distinct, Grows, add_deps-Grows}
use static_distro.Solve.Pigeonhole.{pigeonhole}
use static_distro.Solve.Round.{
  IsPacketSource, run_round-Round, Outcome-cases, called_done, found_some, choose-done,
}
use static_distro.Solve.{
  not_run, Version, Package, SolveProblem, Outcome, done, GetPkt, call_get_pkt, set_package,
  solve_init, add_deps, choose, run_round, run_loop, mark, solve_run,
}
use mathlib.Core.Option

-- All that a version depends on is in `names`.
abbrev pub DependsIn : List Bytes → Version → Type 0
DependsIn names v = All (λ (d : Bytes). Elem d names) v.dependencies

-- Every package is named in `names`, and so is all that its versions depend on.
pub record Within (names : List Bytes) (p : SolveProblem) : Type 0 where
  pub named : (i : ℕ) (a : Package) → get_elem? p.packages i ≡ some a → Elem a.name names
  pub depends :
      (i : ℕ) (a : Package) → get_elem? p.packages i ≡ some a → All (DependsIn names) a.available

-- What the loop needs of the callback to end: on states that satisfy `Ok`, it offers only versions
-- whose dependencies are in `names`.
pub record StaysWithin {W : Type 0} (names : List Bytes) (Ok : W → Type 0) (get : Option (GetPkt W))
    : Type 0 where
  pub stays :
      (w : W) (p : SolveProblem) (name : Bytes) (w' : W) (q : SolveProblem)
      → Ok w
      → Elem name names
      → Within names p
      → call_get_pkt get w p name ≡ done (w', q)
      → Ok w' × Within names q

pub Within-Grows :
    (names ds : List Bytes) (p q : SolveProblem)
    → Within names p
    → All (λ (d : Bytes). Elem d names) ds
    → Grows ds p q
    → Within names q
Within-Grows names ds p q within all grows = record {
  named = λ i a h. elim (grows.new i a h) [
    | inl old ↦ within.named i a old
    | inr (_, _, elem) ↦ All-Elem (λ d. Elem d names) ds a.name all elem
  ];
  depends = λ i a h. elim (grows.new i a h) [
    | inl old ↦ within.depends i a old
    | inr (_, is_new, _) ↦
        subst (λ vs. All (DependsIn names) vs) (sym (ap (λ (x : Package). x.available) is_new)) tt
  ];
}

-- The choice of a version changes neither names nor what is available.
Within-choice :
    (names : List Bytes) (p : SolveProblem) (i : ℕ) (q : Package) (v : Version)
    → get_elem? p.packages i ≡ some q
    → Within names p
    → Within names (set_package p i (record q { chosen = some v }))
Within-choice names p i q v at within = record {
  named = λ j a h. elim (get_elem?-set p.packages i j (record q { chosen = some v }) h) [
    | inl old ↦ within.named j a old
    | inr is_q ↦ subst (λ n. Elem n names) (ap (λ (x : Package). x.name) is_q) (within.named i q at)
  ];
  depends = λ j a h. elim (get_elem?-set p.packages i j (record q { chosen = some v }) h) [
    | inl old ↦ within.depends j a old
    | inr is_q ↦
        subst (λ vs. All (DependsIn names) vs) (ap (λ (x : Package). x.available) is_q)
          (within.depends i q at)
  ];
}

-- The choice leaves the state behind the callback alone.
choose-state :
    {W : Type 0} (w : W) (p : SolveProblem) (i : ℕ) (q : Package) (w' : W) (r : SolveProblem)
    → choose w p i q ≡ done (w', r)
    → w ≡ w'
unfolding choose
choose-state w p i q w' r h = elim (List-cases q.available) [
  | inl empty ↦ absurd (ground arith)
  | inr (v, rest, e) ↦ ground arith
]

module _ {W : Type 0} (names : List Bytes) (Ok : W → Type 0) (get : Option (GetPkt W))
    (source : IsPacketSource get) (stays : StaysWithin names Ok get) where
  Within-round :
      (w : W) (p : SolveProblem) (i : ℕ) (pkg : Package) (w' : W) (r : SolveProblem)
      → get_elem? p.packages i ≡ some pkg
      → Ok w
      → Within names p
      → run_round get w p i pkg ≡ done (w', r)
      → Ok w' × Within names r
  Within-round w p i pkg w' r at ok within h =
      let (w1, p1, called, h1) = called_done get w p i pkg w' r h in
      let (q, at1, h2) = found_some get p1 i w1 w' r h1 in
      let (v, rest, first, is_r) = choose-done w1 p1 i q w' r h2 in
      let (ok1, within1) =
        stays.stays w p pkg.name w1 p1 ok (within.named i pkg at) within called in
      let (depends, _) = subst (All (DependsIn names)) first (within1.depends i q at1) in
      let chosen_q = set_package p1 i (record q { chosen = some v }) in
      (
        subst Ok (choose-state w1 p1 i q w' r h2) ok1,
        subst (Within names) (sym is_r) (
            Within-Grows names v.dependencies chosen_q (add_deps chosen_q v.dependencies)
              (Within-choice names p1 i q v at1 within1) depends
              (add_deps-Grows v.dependencies chosen_q)),
      )

  loop-ends :
      (fuel : ℕ) (w : W) (p : SolveProblem) (i : ℕ)
      → Ok w
      → Within names p
      → Distinct p
      → length names ≤ fuel + i
      → run_loop fuel get w p i ≢ none
  loop-ends zero w p i ok within distinct le = elim (Option-cases (get_elem? p.packages i)) [
    | inl e ↦ λ out. absurd (ground (arith, run_loop_end get w p i 0 e))
    | inr (pkg, e) ↦ absurd (
        omega
          (arith, get_elem?-lt p.packages i e, pigeonhole p.packages names within.named distinct))
  ]
  loop-ends (suc fuel) w p i ok within distinct le = elim (Option-cases (get_elem? p.packages i)) [
    | inl e ↦ λ out. absurd (ground (arith, run_loop_end get w p i (suc fuel) e))
    | inr (pkg, e) ↦ elim (Outcome-cases (run_round get w p i pkg)) [
      | inl ((w1, r), d) ↦
          let (ok1, within1) = Within-round w p i pkg w1 r e ok within d in
          let round = run_round-Round get source w p i pkg w1 r e distinct d in
          subst (λ o. o ≢ none) (sym (run_loop_done get w p i pkg e fuel w1 r d))
            (loop-ends fuel w1 r (suc i) ok1 within1 round.distinct (omega arith))
      | inr (inl (s, d)) ↦ λ out. absurd (ground (arith, run_loop_failed get w p i pkg e fuel s d))
      | inr (inr d) ↦ λ out. absurd (ground (arith, run_loop_aborted get w p i pkg e fuel d))
    ]
  ]

add_deps-Within :
    (names roots : List Bytes)
    → All (λ (d : Bytes). Elem d names) roots
    → Within names (add_deps solve_init roots)
add_deps-Within names roots all =
    Within-Grows names roots solve_init (add_deps solve_init roots) empty all
      (add_deps-Grows roots solve_init)
  where
    empty : Within names solve_init
    empty = unfold solve_init in record { named = λ i a h. cc h; depends = λ i a h. cc h }

module _ {W : Type 0} where
  map-mark :
      (o : Option (Outcome (W × SolveProblem)))
      → o ≢ none
      → (o' : Outcome (W × SolveProblem)) × (Option.map mark o ≡ some o')
  map-mark none ne = absurd (ne refl)
  map-mark (some o) ne = (mark o, refl)

  fresh_run :
      (get : Option (GetPkt W)) (fuel : ℕ) (w : W) (p : SolveProblem)
      → p.solved ≡ not_run
      → solve_run fuel get w p ≡ Option.map mark (run_loop fuel get w p 0)
  fresh_run get fuel w p e = sym (solve_run-fresh get fuel w p e refl)

-- `solve_run` ends, with fuel for each of the names that the constraints, and the dependencies of
-- what the callback offers, are taken from.
pub solve_run_ends :
    {W : Type 0} (names : List Bytes) (Ok : W → Type 0) (get : Option (GetPkt W)) (fuel : ℕ)
    (roots : List Bytes) (w : W)
    → IsPacketSource get
    → StaysWithin names Ok get
    → Ok w
    → All (λ (d : Bytes). Elem d names) roots
    → length names ≤ fuel
    → (o : Outcome (W × SolveProblem)) × (solve_run fuel get w (add_deps solve_init roots) ≡ some o)
unfolding solve_init
solve_run_ends names Ok get fuel roots w source stays ok all le =
    let p = add_deps solve_init roots in
    let grown = add_deps-Grows roots solve_init in
    let (o, e) = map-mark (run_loop fuel get w p 0) (
      loop-ends names Ok get source stays fuel w p 0 ok (add_deps-Within names roots all)
        (grown.distinct (λ i j a b x. cc x)) (omega arith)) in
    (o, fresh_run get fuel w p grown.same_solved ∙ e)
