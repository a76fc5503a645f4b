-- ===== src/Repo/Tests.antt =====
-- Runs of tools/repo.c and of the solver over a repository.
use static_distro.Control.{empty_control}
use static_distro.Repo.Example.{
  disk, constraints, answer, answer-done, solver-done, names, disk-IsClosed,
}
use static_distro.Repo.Cache.{repo_package_get_again}
use static_distro.Repo.Closed.{solve_constraints_ends}
use static_distro.Repo.GetPkg.{get_pkg, add_repo_version}
use static_distro.Repo.Main.{solve_constraints, solve_constraints-IsSolution}
use static_distro.Repo.Source.{get_pkg_first, get_pkg-IsPacketSource, with_repo}
use static_distro.Repo.{Repo, RepoPackage, RepoVersion, repo_init, package_lookup, repo_package_get}
use static_distro.Shared.{none, inl, ◌≡◌, refl, [], ◌∷◌, some, str_eq, Bytes, codes, length, arith}
use static_distro.Solve.Closed.{IsSolution, solve_run-IsSolution}
use static_distro.Solve.Results.{results, chosen_versions, results-IsSolution}
use static_distro.Solve.{Outcome, SolveProblem, solve_init, solved}

solve_constraints-IsSolution_example : IsSolution constraints answer.1 × (answer.1.solved ≡ solved)
solve_constraints-IsSolution_example =
    solve_constraints-IsSolution 3 disk constraints answer.0 answer.1 answer-done

solve_run-IsSolution_example : IsSolution constraints answer.1 × (answer.1.solved ≡ solved)
solve_run-IsSolution_example =
    solve_run-IsSolution (some get_pkg) 3 constraints (repo_init disk) answer.0 answer.1
      get_pkg-IsPacketSource solver-done

-- A package with version 2.0 in front of version 1.0, and another one behind it.
abbrev version_of : Bytes → RepoVersion
version_of version = record { version = version; control = empty_control }

abbrev lib : RepoPackage
lib = record {
  name = codes "lib";
  versions = version_of (codes "2.0") ∷ version_of (codes "1.0") ∷ [];
}

abbrev app : RepoPackage
app = record { name = codes "app"; versions = version_of (codes "3") ∷ [] }

abbrev loaded : Repo
loaded = record { disk = disk; packages = lib ∷ app ∷ [] }

lib-found : repo_package_get loaded (codes "lib") ≡ (loaded, lib ∷ app ∷ [])
unfolding str_eq package_lookup repo_package_get
lib-found = refl

get_pkg_first_example :
    get_pkg loaded solve_init (codes "lib")
    ≡ with_repo loaded (add_repo_version solve_init (codes "lib") (version_of (codes "2.0")))
get_pkg_first_example =
    get_pkg_first loaded loaded solve_init (codes "lib") lib (app ∷ []) (version_of (codes "2.0"))
      (version_of (codes "1.0") ∷ []) lib-found refl

results-IsSolution_example :
    results (length answer.1.packages) answer.1 0 ≡ some (chosen_versions answer.1.packages)
results-IsSolution_example =
    results-IsSolution (length answer.1.packages) answer.1
      (solve_constraints-IsSolution 3 disk constraints answer.0 answer.1 answer-done).0
      (omega arith)

solve_constraints_ends_example :
    (o : Outcome (Repo × SolveProblem)) × (solve_constraints 2 disk constraints ≡ some o)
solve_constraints_ends_example =
    solve_constraints_ends names 2 disk constraints disk-IsClosed (inl refl, tt) (omega arith)

repo_package_get_again_example :
    (codes "lib" ≡ codes "lib")
    × (repo_package_get (record loaded { disk = λ n. none }) (codes "lib")
        ≡ (record loaded { disk = λ n. none }, lib ∷ app ∷ []))
repo_package_get_again_example =
    repo_package_get_again loaded loaded (codes "lib") lib (app ∷ []) (λ n. none) lib-found
