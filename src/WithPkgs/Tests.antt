-- ===== src/WithPkgs/Tests.antt =====
-- Runs of tools/withpkgs.c and tools/pkgsolve.c.
use static_distro.Repo.Example.{disk, answer, answer-done, names, disk-IsClosed}
use static_distro.Repo.Closed.{IsClosed, AllIn}
use static_distro.Repo.{Disk}
use static_distro.Shared.{
  inl, false, ℕ, ◌<◌, ◌≤◌, ◌^◌, ◌⊎◌, sym, ◌∙◌, subst, arith, ◌≡◌, refl, suc, List, [], ◌∷◌, ◌++◌,
  Option, none, some, if◌then◌else◌, str_eq, Bytes, codes, length,
}
use static_distro.Solve.Closed.{IsSolution}
use static_distro.Solve.Results.{chosen_versions, results}
use static_distro.Solve.{
  Package, SolveProblem, solved, new_package, result_loop, solve_result_package,
}
use static_distro.WithPkgs.Command.{env_args}
use static_distro.WithPkgs.Options.{Opt, opt_args, last_dir, push_constraints}
use static_distro.WithPkgs.Run.{withpkgs-IsSolution, length-build_args, withpkgs_ends, EndsAs}
use static_distro.WithPkgs.{
  Opts, parse_opts, arg_kind, keep, exec, build_args, build_args_room, package_args, default_dir,
  withpkgs,
}

abbrev options : List Opt
options = Opt.dir (codes "/mnt") ∷ Opt.pkt (codes "app") ∷ []

abbrev command : List Bytes
command = codes "-p" ∷ []

abbrev root : Bytes → Option Disk
root path = if str_eq path (codes "/mnt") then some disk else none

root-opens : root (codes "/mnt") ≡ some disk
unfolding str_eq
root-opens = refl

withpkgs-IsSolution_example :
    IsSolution (push_constraints [] options) answer.1
    × (withpkgs 3 root (opt_args options ++ (codes "--" ∷ codes "ls" ∷ command))
        ≡ some (
            exec (
              codes "withenv"
              ∷ codes "-d"
              ∷ last_dir default_dir options
              ∷ (package_args (chosen_versions answer.1.packages)
                  ++ (codes "--" ∷ codes "ls" ∷ command)))))
withpkgs-IsSolution_example =
    withpkgs-IsSolution 3 root options (codes "ls") command disk answer.0 answer.1 root-opens
      answer-done

abbrev with_chosen : Bytes → Bytes → Package
with_chosen name version = record (new_package name) {
  chosen = some (record { version = version; dependencies = [] });
}

-- A problem with results for two of its three packages.
abbrev listed : SolveProblem
listed = record {
  packages =
      with_chosen (codes "app") (codes "3")
      ∷ new_package (codes "doc")
      ∷ with_chosen (codes "lib") (codes "1.0")
      ∷ [];
  solved = solved;
}

abbrev app_and_lib : List (Bytes × Bytes)
app_and_lib = (codes "app", codes "3") ∷ (codes "lib", codes "1.0") ∷ []

results-runs : results 2 listed 0 ≡ some app_and_lib
unfolding results solve_result_package result_loop
results-runs = refl

abbrev written : List Bytes
written =
    codes "withenv"
    ∷ codes "-d"
    ∷ codes "/mnt"
    ∷ codes "-p"
    ∷ codes "app,3"
    ∷ codes "-p"
    ∷ codes "lib,1.0"
    ∷ command

build_args-runs : build_args 2 listed (codes "/mnt") command ≡ some written
unfolding build_args results solve_result_package result_loop package_args
build_args-runs = refl

length-build_args_example :
    (room : ℕ) × (build_args_room 2 listed command ≡ some room)
    × (((suc (length written) < 2 ^ 32) × (room ≡ suc (length written)))
        ⊎ ((2 ^ 32 ≤ suc (length written)) × (room < suc (length written))))
length-build_args_example =
    length-build_args 2 listed (codes "/mnt") command written build_args-runs

-- Without `--` in front of the command, as pkgbuild calls it.
abbrev without_separator : List Bytes
without_separator = codes "-d" ∷ codes "/mnt" ∷ codes "-p" ∷ codes "app" ∷ codes "./b" ∷ []

abbrev left_opts : Opts
left_opts = record {
  packagedir = codes "/mnt";
  packages = codes "app" ∷ [];
  args = codes "./b" ∷ [];
}

without_separator-read : parse_opts false default_dir [] without_separator ≡ some left_opts
unfolding parse_opts arg_kind keep str_eq
without_separator-read = refl

withpkgs_ends_example : EndsAs 2 root without_separator (withpkgs 2 root without_separator)
withpkgs_ends_example =
    withpkgs_ends names 2 root without_separator
      (λ o e.
        subst Fits (left o (sym without_separator-read ∙ e)) ((inl refl, tt), opened-IsClosed))
      (omega arith)
  where
    Fits : Opts → Type 0
    Fits o = AllIn names o.packages × ((d : Disk) → root o.packagedir ≡ some d → IsClosed names d)

    left : (o : Opts) → some left_opts ≡ some o → left_opts ≡ o
    left o h = cc h

    opened-IsClosed : (d : Disk) → root (codes "/mnt") ≡ some d → IsClosed names d
    opened-IsClosed d e = subst (IsClosed names) (same d (sym root-opens ∙ e)) disk-IsClosed
      where
        same : (d : Disk) → some disk ≡ some d → disk ≡ d
        same d h = cc h

abbrev listed_argv : List Bytes
listed_argv =
    codes "withenv"
    ∷ codes "-d"
    ∷ codes "/mnt"
    ∷ codes "-p"
    ∷ codes "app,3"
    ∷ codes "-p"
    ∷ codes "lib,1.0"
    ∷ env_args (codes "/w") (codes "./b")
