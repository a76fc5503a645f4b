-- ===== src/Repo/Main.antt =====
-- `main` of tools/pkgsolve.c behind its parameters, and the same steps in tools/withpkgs.c: the
-- constraints are added, the solver runs over the repository, and its result is listed.
use static_distro.Repo.GetPkg.{get_pkg}
use static_distro.Repo.Source.{get_pkg-IsPacketSource}
use static_distro.Repo.{Repo, Disk, repo_init}
use static_distro.Shared.{refl, ℕ, ◌≡◌, List, [], ◌∷◌, Option, some, Bytes}
use static_distro.Solve.Closed.{IsSolution, solve_run-IsSolution}
use static_distro.Solve.{
  SolveProblem, solved, Outcome, done, solve_init, solve_constraint_add, add_deps, solve_run,
}

-- The loop over the constraints.
unfoldable pub add_constraints : SolveProblem → List Bytes → SolveProblem
add_constraints p [] = p
add_constraints p (c ∷ cs) = add_constraints (solve_constraint_add p c) cs

-- The run of the solver on the constraints of the command line.
unfoldable pub solve_constraints : ℕ → Disk → List Bytes → Option (Outcome (Repo × SolveProblem))
solve_constraints fuel disk constraints =
    solve_run fuel (some get_pkg) (repo_init disk) (add_constraints solve_init constraints)

pub add_constraints-add_deps :
    (cs : List Bytes) (p : SolveProblem) → add_constraints p cs ≡ add_deps p cs
unfolding add_constraints add_deps
add_constraints-add_deps [] p = refl
add_constraints-add_deps (c ∷ cs) p = add_constraints-add_deps cs (solve_constraint_add p c)

-- When the solver, run over a repository on the constraints of a command line, returns 0, the problem
-- that it leaves is a solution of these constraints and is marked as solved.
pub solve_constraints-IsSolution :
    (fuel : ℕ) (disk : Disk) (constraints : List Bytes) (repo : Repo) (q : SolveProblem)
    → solve_constraints fuel disk constraints ≡ some (done (repo, q))
    → IsSolution constraints q × (q.solved ≡ solved)
unfolding solve_constraints
solve_constraints-IsSolution fuel disk constraints repo q h =
    solve_run-IsSolution (some get_pkg) fuel constraints (repo_init disk) repo q
      get_pkg-IsPacketSource (rw (add_constraints-add_deps constraints solve_init) at h)
