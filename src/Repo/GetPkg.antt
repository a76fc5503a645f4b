-- ===== src/Repo/GetPkg.antt =====
-- `get_pkg` of tools/withpkgs.c, the same text as in tools/pkgsolve.c: the callback by which the
-- solver asks the repository for the versions of a package.
use static_distro.Repo.{Repo, RepoVersion, RepoPackage, repo_package_get}
use static_distro.Shared.{List, [], ◌∷◌, Bytes}
use static_distro.Solve.{
  SolveProblem, Outcome, done, failed, aborted, GetPkt, solve_package_version_add,
}

-- The loop's body: one version with its run dependencies.
abbrev pub add_repo_version : SolveProblem → Bytes → RepoVersion → Outcome SolveProblem
add_repo_version p name ver = solve_package_version_add p name ver.version ver.control.run_depend

-- The loop as it is written: it steps through the packages from `pkg` on, and `ver` stays what it was.
unfoldable pub version_loop :
    Repo → SolveProblem → Bytes → RepoVersion → List RepoPackage → Outcome (Repo × SolveProblem)
version_loop repo p name ver [] = done (repo, p)
version_loop repo p name ver (pkg ∷ pkgs) = elim (add_repo_version p name ver) [
  | done p' ↦ version_loop repo p' name ver pkgs
  | failed p' ↦ failed (repo, p')
  | aborted ↦ aborted
]

-- With the pointer that `repo_package_get` returned. Without a version the loop's body follows the
-- null pointer `ver`.
unfoldable pub add_versions :
    Repo → SolveProblem → Bytes → List RepoPackage → Outcome (Repo × SolveProblem)
add_versions repo p name [] = failed (repo, p)
add_versions repo p name (pkg ∷ pkgs) = elim pkg.versions [
  | [] ↦ aborted
  | ver ∷ _ ↦ version_loop repo p name ver (pkg ∷ pkgs)
]

unfoldable pub get_pkg : GetPkt Repo
get_pkg repo p name =
    let (repo', pkgs) = repo_package_get repo name in add_versions repo' p name pkgs
