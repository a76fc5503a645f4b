-- ===== src/Solve/Results.antt =====
-- The loops over `solve_result_package` of tools/solve.c, as in tools/pkgsolve.c and
-- tools/withpkgs.c, on a solved problem.
use static_distro.Shared.{
  ℕ, zero, suc, ◌-◌, ◌≤◌, ◌≡◌, refl, false, List, [], ◌∷◌, Option, none, some, ◌>>=◌, ◌==◌, arith,
  length, get_elem?, drop, Bytes,
}
use static_distro.Solve.Closed.{IsSolution}
use static_distro.Solve.{
  Version, Package, SolveProblem, ResultPackage, found, no_more, null_deref, result_loop,
  solve_result_package,
}

-- The results from `i` on, up to the call that returns -1. `none`: the fuel runs out, or a call
-- follows a null pointer.
unfoldable pub results : ℕ → SolveProblem → ℕ → Option (List (Bytes × Bytes))
results zero p i = elim (solve_result_package p i) [
  | found name version ↦ none
  | no_more ↦ some []
  | null_deref ↦ none
]
results (suc fuel) p i = elim (solve_result_package p i) [
  | found name version ↦ do rs ← results fuel p (suc i); some ((name, version) ∷ rs)
  | no_more ↦ some []
  | null_deref ↦ none
]

-- The packages that have a version chosen, each with this version.
abbrev pub chosen_versions : List Package → List (Bytes × Bytes)
chosen_versions [] = []
chosen_versions (pkg ∷ pkgs) = elim pkg.chosen [
  | none ↦ chosen_versions pkgs
  | some v ↦ (pkg.name, v.version) ∷ chosen_versions pkgs
]

-- Every package of the list has a version chosen.
abbrev pub AllChosen : List Package → Type 0
AllChosen [] = Unit
AllChosen (pkg ∷ pkgs) = ((v : Version) × (pkg.chosen ≡ some v)) × AllChosen pkgs

get-AllChosen :
    (pkgs : List Package)
    → ((i : ℕ) (pkg : Package)
        → get_elem? pkgs i ≡ some pkg
        → (v : Version) × (pkg.chosen ≡ some v))
    → AllChosen pkgs
get-AllChosen [] h = tt
get-AllChosen (pkg ∷ pkgs) h = (h 0 pkg refl, get-AllChosen pkgs (λ i q e. h (suc i) q e))

pub IsSolution-AllChosen :
    {roots : List Bytes} (p : SolveProblem) → IsSolution roots p → AllChosen p.packages
IsSolution-AllChosen p sol =
    get-AllChosen p.packages (λ i pkg e. let r = sol.resolved i pkg e in (r.version, r.is_chosen))

abbrev head_result : List Package → ResultPackage
head_result [] = no_more
head_result (pkg ∷ pkgs) = elim pkg.chosen [ none ↦ no_more | some v ↦ found pkg.name v.version ]

result_loop-drop :
    (pkgs : List Package) (n : ℕ)
    → AllChosen pkgs
    → result_loop false pkgs n ≡ head_result (drop n pkgs)
unfolding result_loop
result_loop-drop [] zero h = refl
result_loop-drop [] (suc n) h = refl
result_loop-drop (pkg ∷ pkgs) zero ((v, e), h) = rw (e)
result_loop-drop (pkg ∷ pkgs) (suc n) ((v, e), h) =
    rw (e, result_loop, suc_nonzero n, suc_minus n) (result_loop-drop pkgs n h)
  where
    suc_nonzero : (n : ℕ) → (suc n == 0) ≡ false
    suc_nonzero n = ground arith

    suc_minus : (n : ℕ) → suc n - 1 ≡ n
    suc_minus n = omega arith

drop_tail {ℓ} :
    {A : Type ℓ} (xs : List A) (i : ℕ) {x : A} {ys : List A}
    → drop i xs ≡ x ∷ ys
    → drop (suc i) xs ≡ ys
drop_tail [] zero h = absurd (ground arith)
drop_tail [] (suc i) h = absurd (ground arith)
drop_tail (x ∷ xs) zero h = ground arith
drop_tail (x ∷ xs) (suc i) h = drop_tail xs i h

AllChosen-drop : (pkgs : List Package) (i : ℕ) → AllChosen pkgs → AllChosen (drop i pkgs)
AllChosen-drop pkgs zero h = h
AllChosen-drop [] (suc i) h = tt
AllChosen-drop (pkg ∷ pkgs) (suc i) (c, h) = AllChosen-drop pkgs i h

results-drop :
    (fuel : ℕ) (p : SolveProblem) (i : ℕ) (rest : List Package)
    → AllChosen p.packages
    → AllChosen rest
    → drop i p.packages ≡ rest
    → length rest ≤ fuel
    → results fuel p i ≡ some (chosen_versions rest)
unfolding results solve_result_package
results-drop zero p i [] all_p all e le = rw (results, result_loop-drop p.packages i all_p, e)
results-drop zero p i (pkg ∷ pkgs) all_p all e le = absurd (omega arith)
results-drop (suc fuel) p i [] all_p all e le = rw (results, result_loop-drop p.packages i all_p, e)
results-drop (suc fuel) p i (pkg ∷ pkgs) all_p ((v, c), all) e le = rw (
  results,
  result_loop-drop p.packages i all_p,
  e,
  c,
  results-drop fuel p (suc i) pkgs all_p all (drop_tail p.packages i e) (omega arith),
)

-- After a run that found a solution, the loop over the results of the problem ends, follows no null
-- pointer and yields every package with its chosen version, in the order of the packages.
pub results-IsSolution :
    {roots : List Bytes} (fuel : ℕ) (p : SolveProblem)
    → IsSolution roots p
    → length p.packages ≤ fuel
    → results fuel p 0 ≡ some (chosen_versions p.packages)
results-IsSolution fuel p sol le =
    let all = IsSolution-AllChosen p sol in results-drop fuel p 0 p.packages all all refl le
