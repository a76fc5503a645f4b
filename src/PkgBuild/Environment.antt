-- ===== src/PkgBuild/Environment.antt =====
-- The environment in which tools/pkgbuild.c runs a script with dependencies: what tools/newns.c,
-- tools/withpkgs.c and tools/withenv.c make of each other's command lines.
use static_distro.LibC.Getopt.{arg_of, operand}
use static_distro.PkgBuild.Arguments.{parse_opts-env_argv}
use static_distro.PkgBuild.{env_argv}
use static_distro.Repo.Main.{solve_constraints, solve_constraints-IsSolution}
use static_distro.Repo.{Repo, Disk}
use static_distro.Shared.{
  ℕ, List, [], ◌∷◌, ◌++◌, map, Option, some, ◌≡◌, refl, drop, length, All, Bytes, codes, arith,
}
use static_distro.Solve.Closed.{IsSolution}
use static_distro.Solve.Results.{chosen_versions, results-IsSolution}
use static_distro.Solve.{SolveProblem, done}
use static_distro.WithEnv
use static_distro.WithPkgs.Command.{NoComma, env_package, env_args, parse_opts-build_args}
use static_distro.WithPkgs.Run.{build_args-IsSolution}
use static_distro.WithPkgs.{exec, after_run, exec_args, package_args, withpkgs}
use mathlib.Core.List.{reverse}

-- A script is no option.
arg_of_script : (s : Bytes) → arg_of (b'.' ∷ s) ≡ operand
unfolding arg_of
arg_of_script [] = refl
arg_of_script (c ∷ []) = refl
arg_of_script (c ∷ d ∷ s) = refl

abbrev environment_argv : Bytes → Bytes → Bytes → SolveProblem → List Bytes
environment_argv pkg_dir work_dir script q =
    codes "withenv"
    ∷ codes "-d"
    ∷ pkg_dir
    ∷ (package_args (chosen_versions q.packages) ++ env_args work_dir script)

-- A script that `pkgbuild` runs with dependencies, where the path of the work directory starts
-- with a slash and that of the script with a dot: when the package directory opens, the solver
-- finds a solution of the dependencies there, and no name in the solution has a comma, then
-- `withpkgs`, called with the arguments of `run_exec_env`, starts `withenv` with arguments that it
-- reads as the package directory, exactly the packages of the solution with the versions chosen
-- for them, the work directory, `/work` as the current directory, and the script as the command.
pub run_exec_env-environment :
    (fuel : ℕ) (root : Bytes → Option Disk) (pkg_dir work_dir script : Bytes) (deps : List Bytes)
    (disk : Disk) (repo : Repo) (q : SolveProblem)
    → root pkg_dir ≡ some disk
    → solve_constraints fuel disk (reverse deps) ≡ some (done (repo, q))
    → All NoComma (chosen_versions q.packages)
    → IsSolution (reverse deps) q
      × ((argv : List Bytes) × (withpkgs fuel root
              (drop 2 (env_argv pkg_dir (b'/' ∷ work_dir) deps ((b'.' ∷ script) ∷ [])))
            ≡ some (exec argv))
          × (WithEnv.parse_opts (drop 1 argv)
              ≡ some (
                record {
                  packagedir = pkg_dir;
                  workdir = some (b'/' ∷ work_dir);
                  new_cwdir = some (codes "/work");
                  packages = reverse (map env_package (chosen_versions q.packages));
                  mounts = [];
                },
                (b'.' ∷ script) ∷ [],
              )))
unfolding withpkgs
run_exec_env-environment fuel root pkg_dir work_dir script deps disk repo q opened run names =
    let sol = (solve_constraints-IsSolution fuel disk (reverse deps) repo q run).0 in
    let built = build_args-IsSolution q pkg_dir (env_args (b'/' ∷ work_dir) (b'.' ∷ script)) sol in
    (
      sol,
      (
        environment_argv pkg_dir (b'/' ∷ work_dir) (b'.' ∷ script) q,
        rw (
          withpkgs,
          (parse_opts-env_argv pkg_dir work_dir script deps).1,
          opened,
          run,
          after_run,
          exec_args,
          built,
        ),
        parse_opts-build_args (length q.packages) q pkg_dir (b'/' ∷ work_dir) (b'.' ∷ script)
            (chosen_versions q.packages) _
            (results-IsSolution (length q.packages) q sol (omega arith)) names
            (arg_of_script script) built,
      ),
    )
