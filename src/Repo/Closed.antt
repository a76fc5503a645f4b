-- ===== src/Repo/Closed.antt =====
-- The names that a run of the solver over a repository can meet.
use static_distro.Control.{Control}
use static_distro.Repo.GetPkg.{add_versions, get_pkg, add_repo_version}
use static_distro.Repo.Main.{solve_constraints, add_constraints-add_deps}
use static_distro.Repo.Source.{get_pkg-IsPacketSource, version_loop_once}
use static_distro.Repo.{
  Disk, Dirent, Repo, RepoPackage, RepoVersion, repo_init, entry_control, package_lookup,
  read_versions, repo_package_load, repo_package_get,
}
use static_distro.Shared.{
  ℕ, ◌≤◌, ◌≡◌, inl, inr, refl, sym, ap, subst, ◌∙◌, List, [], ◌∷◌, some, arith, Bool-cases,
  List-cases, Option-cases, length, get_elem?, All, Elem, Bytes, str_eq, get_elem?-set,
}
use static_distro.Solve.Fuel.{Within, DependsIn, StaysWithin, Within-Grows, solve_run_ends}
use static_distro.Solve.Insert.{Inserted, last, before, after}
use static_distro.Solve.Names.{pkg_add-Grows}
use static_distro.Solve.Round.{Outcome-cases}
use static_distro.Solve.VersionAdd.{add_at, version_add_to-done}
use static_distro.Solve.{
  Version, Package, SolveProblem, Outcome, done, solve_init, push_deps, pkg_add, set_package,
  solve_package_version_add,
}

-- Every name of the list is in `names`.
abbrev pub AllIn : List Bytes → List Bytes → Type 0
AllIn names ds = All (λ (d : Bytes). Elem d names) ds

-- What the directory of a package in `names` holds depends on packages in `names` alone.
pub record IsClosed (names : List Bytes) (disk : Disk) : Type 0 where
  pub closed :
      (n : Bytes)
      → Elem n names
      → (des : List Dirent) → disk n ≡ some des
      → All
          (λ (de : Dirent). (c : Control) → entry_control de ≡ some c → AllIn names c.run_depend)
          des

abbrev pub VersionIn : List Bytes → RepoVersion → Type 0
VersionIn names ver = AllIn names ver.control.run_depend

abbrev pub PackageIn : List Bytes → RepoPackage → Type 0
PackageIn names pkg = All (VersionIn names) pkg.versions

-- The repository over the directory, with what was read from it so far.
pub record IsLoaded (names : List Bytes) (disk : Disk) (repo : Repo) : Type 0 where
  pub same_disk : repo.disk ≡ disk
  pub cached : All (PackageIn names) repo.packages

push_deps-All :
    (names ds es : List Bytes) → AllIn names ds → AllIn names es → AllIn names (push_deps ds es)
unfolding push_deps
push_deps-All names [] es h k = k
push_deps-All names (d ∷ ds) es (x, h) k = push_deps-All names ds (d ∷ es) h (x, k)

Inserted-All :
    (names : List Bytes) {ver : Version} {vs vs' : List Version}
    → Inserted ver vs vs'
    → DependsIn names ver
    → All (DependsIn names) vs
    → All (DependsIn names) vs'
Inserted-All names last h k = (h, tt)
Inserted-All names (before c) h k = (h, k)
Inserted-All names (after c i) h (x, k) = (x, Inserted-All names i h k)

lookup-All :
    (names : List Bytes) (pkgs : List RepoPackage) (name : Bytes)
    → All (PackageIn names) pkgs
    → All (PackageIn names) (package_lookup pkgs name)
unfolding package_lookup
lookup-All names [] name h = tt
lookup-All names (pkg ∷ pkgs) name (x, h) = elim (Bool-cases (str_eq pkg.name name)) [
  | inl same ↦ rw (All, package_lookup, same) (x, h)
  | inr other ↦ rw (All, package_lookup, other) (lookup-All names pkgs name h)
]

read_versions-All :
    (names : List Bytes) (vers : List RepoVersion) (des : List Dirent)
    → All (VersionIn names) vers
    → All
        (λ (de : Dirent). (c : Control) → entry_control de ≡ some c → AllIn names c.run_depend)
        des
    → All (VersionIn names) (read_versions vers des)
unfolding read_versions
read_versions-All names vers [] h k = h
read_versions-All names vers (de ∷ des) h (x, k) = elim (Option-cases (entry_control de)) [
  | inl skipped ↦ rw (read_versions, skipped) (read_versions-All names vers des h k)
  | inr (c, e) ↦
      rw (read_versions, e)
        (read_versions-All names (record { version = de.d_name; control = c } ∷ vers) des (x c e, h)
          k)
]

-- The new versions of a package.
Within-available :
    (names : List Bytes) (p : SolveProblem) (i : ℕ) (pkg : Package) (vs : List Version)
    → get_elem? p.packages i ≡ some pkg
    → Within names p
    → All (DependsIn names) vs
    → Within names (set_package p i (record pkg { available = vs }))
Within-available names p i pkg vs at within all = record {
  named = λ j a h. elim (get_elem?-set p.packages i j (record pkg { available = vs }) h) [
    | inl old ↦ within.named j a old
    | inr is_pkg ↦
        subst (λ n. Elem n names) (ap (λ (x : Package). x.name) is_pkg) (within.named i pkg at)
  ];
  depends = λ j a h. elim (get_elem?-set p.packages i j (record pkg { available = vs }) h) [
    | inl old ↦ within.depends j a old
    | inr is_pkg ↦
        subst (λ us. All (DependsIn names) us) (ap (λ (x : Package). x.available) is_pkg) all
  ];
}

added-Within :
    (names : List Bytes) (p : SolveProblem) (name version : Bytes) (deps : List Bytes)
    (q : SolveProblem)
    → Elem name names
    → AllIn names deps
    → Within names p
    → solve_package_version_add p name version deps ≡ done q
    → Within names q
added-Within names p name version deps q here all within h =
    let (pkg, at, h1) = add_at p name version deps q h in
    let (p1, i) = pkg_add p name in
    let within1 = Within-Grows names (name ∷ []) p p1 within (here, tt) (pkg_add-Grows p name) in
    elim (version_add_to-done p1 i pkg _ q h1) [
      | inl (old, e) ↦ subst (Within names) (sym e) within1
      | inr (vs, inserted, e) ↦ subst (Within names) (sym e) (
          Within-available names p1 i pkg vs at within1 (
            Inserted-All names inserted (push_deps-All names deps [] all tt)
              (within1.depends i pkg at)))
    ]

-- What `repo_package_get` returns and leaves.
get-IsLoaded :
    (names : List Bytes) (disk : Disk) (repo : Repo) (name : Bytes)
    → IsClosed names disk
    → Elem name names
    → IsLoaded names disk repo
    → IsLoaded names disk (repo_package_get repo name).0
      × All (PackageIn names) (repo_package_get repo name).1
unfolding repo_package_get repo_package_load
get-IsLoaded names disk repo name closed here loaded =
    elim (List-cases (package_lookup repo.packages name)) [
      | inr (pkg, pkgs, e) ↦
          rw (repo_package_get, e)
            (
              loaded,
              subst (All (PackageIn names)) e (lookup-All names repo.packages name loaded.cached),
            )
      | inl missing ↦ elim (Option-cases (repo.disk name)) [
        | inl no_dir ↦ rw (repo_package_get, missing, repo_package_load, no_dir) (loaded, tt)
        | inr (des, e) ↦
            let versions = read_versions-All names [] des tt (
              closed.closed name here des (sym (ap (λ (f : Disk). f name) loaded.same_disk) ∙ e)) in
            rw (repo_package_get, missing, repo_package_load, e)
              (
                record { same_disk = loaded.same_disk; cached = (versions, loaded.cached) },
                (versions, loaded.cached),
              )
      ]
    ]

add_versions-Within :
    (names : List Bytes) (repo : Repo) (p : SolveProblem) (name : Bytes) (pkgs : List RepoPackage)
    (repo' : Repo) (q : SolveProblem)
    → Elem name names
    → All (PackageIn names) pkgs
    → Within names p
    → add_versions repo p name pkgs ≡ done (repo', q)
    → (repo ≡ repo') × Within names q
unfolding add_versions
add_versions-Within names repo p name [] repo' q here all within h = absurd (ground arith)
add_versions-Within names repo p name (pkg ∷ pkgs) repo' q here (all, _) within h =
    elim (List-cases pkg.versions) [
      | inl empty ↦ absurd (ground arith)
      | inr (ver, others, e) ↦
          let (first, _) = subst (All (VersionIn names)) e all in
          elim (Outcome-cases (add_repo_version p name ver)) [
            | inl (r, d) ↦
                let is_q : r ≡ q = ground (arith, version_loop_once repo p name ver pkg pkgs) in
                let same : repo ≡ repo' =
                  ground (arith, version_loop_once repo p name ver pkg pkgs) in
                (
                  same,
                  subst (Within names) is_q (
                      added-Within names p name ver.version ver.control.run_depend r here first
                        within d),
                )
            | inr (inl (r, d)) ↦ absurd (ground (arith, version_loop_once repo p name ver pkg pkgs))
            | inr (inr d) ↦ absurd (ground (arith, version_loop_once repo p name ver pkg pkgs))
          ]
    ]

pub get_pkg-StaysWithin :
    (names : List Bytes) (disk : Disk)
    → IsClosed names disk
    → StaysWithin names (IsLoaded names disk) (some get_pkg)
unfolding get_pkg
get_pkg-StaysWithin names disk closed = record {
  stays = λ repo p name repo' q loaded here within h.
      let (loaded1, all) = get-IsLoaded names disk repo name closed here loaded in
      let (repo1, pkgs) = repo_package_get repo name in
      let (same, within1) = add_versions-Within names repo1 p name pkgs repo' q here all within h in
      (subst (IsLoaded names disk) same loaded1, within1);
}

-- The run of the solver over a repository ends, with fuel for each of the names that the constraints
-- and the control files of the repository are closed in.
pub solve_constraints_ends :
    (names : List Bytes) (fuel : ℕ) (disk : Disk) (constraints : List Bytes)
    → IsClosed names disk
    → AllIn names constraints
    → length names ≤ fuel
    → (o : Outcome (Repo × SolveProblem)) × (solve_constraints fuel disk constraints ≡ some o)
unfolding solve_constraints repo_init
solve_constraints_ends names fuel disk constraints closed all le =
    let (o, e) =
      solve_run_ends names (IsLoaded names disk) (some get_pkg) fuel constraints (repo_init disk)
        get_pkg-IsPacketSource (get_pkg-StaysWithin names disk closed)
        (record { same_disk = refl; cached = tt }) all le in
    (o, rw (add_constraints-add_deps constraints solve_init) e)
