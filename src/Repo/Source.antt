-- ===== src/Repo/Source.antt =====
-- `get_pkg` of tools/withpkgs.c and tools/pkgsolve.c as the callback of the solver.
use static_distro.Repo.GetPkg.{version_loop, add_versions, get_pkg, add_repo_version}
use static_distro.Repo.{Repo, RepoVersion, RepoPackage, repo_package_get}
use static_distro.Shared.{◌≡◌, inl, inr, refl, List, [], ◌∷◌, some, arith, List-cases, Bytes}
use static_distro.Solve.Names.{Has}
use static_distro.Solve.Round.{Retains, IsPacketSource, Outcome-cases}
use static_distro.Solve.VersionAdd.{HasVersion, added-HasVersion, add_again, added-Retains}
use static_distro.Solve.{SolveProblem, Outcome, done, failed, aborted}

-- What `version_loop` makes of the outcome of its first round.
abbrev pub with_repo : Repo → Outcome SolveProblem → Outcome (Repo × SolveProblem)
with_repo repo (done p) = done (repo, p)
with_repo repo (failed p) = failed (repo, p)
with_repo repo aborted = aborted

later_rounds :
    (repo : Repo) (p : SolveProblem) (name : Bytes) (ver : RepoVersion) (pkgs : List RepoPackage)
    → HasVersion p name ver.version
    → version_loop repo p name ver pkgs ≡ done (repo, p)
unfolding version_loop
later_rounds repo p name ver [] h = refl
later_rounds repo p name ver (pkg ∷ pkgs) h =
    rw (add_again p name ver.version ver.control.run_depend h, version_loop)
      (later_rounds repo p name ver pkgs h)

-- The loop adds its one version, however many packages it steps through.
pub version_loop_once :
    (repo : Repo) (p : SolveProblem) (name : Bytes) (ver : RepoVersion) (pkg : RepoPackage)
    (pkgs : List RepoPackage)
    → version_loop repo p name ver (pkg ∷ pkgs) ≡ with_repo repo (add_repo_version p name ver)
unfolding version_loop
version_loop_once repo p name ver pkg pkgs = elim (Outcome-cases (add_repo_version p name ver)) [
  | inl (q, e) ↦
      rw (e, version_loop)
        (later_rounds repo q name ver pkgs
          (added-HasVersion p name ver.version ver.control.run_depend q e))
  | inr (inl (q, e)) ↦ rw (e, version_loop)
  | inr (inr e) ↦ rw (e, version_loop)
]

-- `get_pkg` adds to the problem the first version of the package that the repository has, and none
-- of the others.
pub get_pkg_first :
    (repo repo' : Repo) (p : SolveProblem) (name : Bytes) (pkg : RepoPackage)
    (pkgs : List RepoPackage) (ver : RepoVersion) (others : List RepoVersion)
    → repo_package_get repo name ≡ (repo', pkg ∷ pkgs)
    → pkg.versions ≡ ver ∷ others
    → get_pkg repo p name ≡ with_repo repo' (add_repo_version p name ver)
unfolding get_pkg add_versions
get_pkg_first repo repo' p name pkg pkgs ver others found first =
    rw (found, first) (version_loop_once repo' p name ver pkg pkgs)

add_versions-Retains :
    (repo : Repo) (p : SolveProblem) (name : Bytes) (pkgs : List RepoPackage) (repo' : Repo)
    (q : SolveProblem)
    → Has p name
    → add_versions repo p name pkgs ≡ done (repo', q)
    → Retains name p q
unfolding add_versions
add_versions-Retains repo p name [] repo' q has h = absurd (ground arith)
add_versions-Retains repo p name (pkg ∷ pkgs) repo' q has h = elim (List-cases pkg.versions) [
  | inl empty ↦ absurd (ground arith)
  | inr (ver, others, e) ↦ elim (Outcome-cases (add_repo_version p name ver)) [
    | inl (r, d) ↦
        let is_q : r ≡ q = ground (arith, version_loop_once repo p name ver pkg pkgs) in
        rw (← is_q) (added-Retains p name ver.version ver.control.run_depend r has d)
    | inr (inl (r, d)) ↦ absurd (ground (arith, version_loop_once repo p name ver pkg pkgs))
    | inr (inr d) ↦ absurd (ground (arith, version_loop_once repo p name ver pkg pkgs))
  ]
]

pub get_pkg-IsPacketSource : IsPacketSource (some get_pkg)
unfolding get_pkg
get_pkg-IsPacketSource = record {
  retains = λ repo p name repo' q has h.
      let (loaded, pkgs) = repo_package_get repo name in
      add_versions-Retains loaded p name pkgs repo' q has h;
}
