-- ===== src/WithPkgs/Command.antt =====
-- The command line that tools/withpkgs.c makes, as tools/withenv.c reads it.
use static_distro.LibC.Getopt.{
  Event, opt_arg, operand, getopt, getopt_operand, with_events, arg_of, scan_word, kind_of,
  fold_events,
}
use static_distro.LibC.Search.{strchr-append, take-length, drop-suc-length}
use static_distro.LibC.{cut_at}
use static_distro.Shared.{
  ℕ, all, not, ◌==◌, List, [], ◌∷◌, ◌++◌, map, some, ◌≡◌, ◌≢◌, refl, true, drop, All, Bytes, codes,
  arith,
}
use static_distro.Solve.{SolveProblem}
use static_distro.Solve.Results.{results}
use static_distro.WithEnv.{EnvPackage, EnvOpts, default_opts, package_option}
use static_distro.WithEnv
use static_distro.WithPkgs.{package_arg, package_args, build_args}
use mathlib.Core.List.{reverse, reverse_aux}

-- A package of the result, as the environment has it.
abbrev pub env_package : Bytes × Bytes → EnvPackage
env_package (name, version) = record { name = name; version = version }

abbrev package_events : List (Bytes × Bytes) → List Event
package_events [] = []
package_events (r ∷ rs) = opt_arg b'p' (package_arg r) ∷ package_events rs

-- No comma in the name.
abbrev pub NoComma : Bytes × Bytes → Type 0
NoComma (name, version) = All (λ c. c ≢ b',') name

pub no_comma : (s : Bytes) → all (λ c. not (c == b',')) s ≡ true → All (λ c. c ≢ b',') s
no_comma [] h = tt
no_comma (c ∷ s) h = ((λ e. ground arith), no_comma s (ground arith))

abbrev env_letters : Bytes
env_letters = codes "d:w:p:c:m:"

getopt-package_args :
    (rs : List (Bytes × Bytes)) (r w : Bytes) (rest : List Bytes)
    → getopt true env_letters (package_args rs ++ (r ∷ w ∷ rest))
      ≡ with_events (package_events rs) (getopt true env_letters (r ∷ w ∷ rest))
unfolding package_args getopt arg_of scan_word kind_of
getopt-package_args [] r w rest = refl
getopt-package_args (p ∷ ps) r w rest = rw (getopt-package_args ps r w rest)

cut_at_comma :
    (name version : Bytes)
    → All (λ c. c ≢ b',') name
    → cut_at b',' (name ++ (b',' ∷ version)) ≡ some (name, version)
unfolding cut_at
cut_at_comma name version h = rw (
  cut_at,
  strchr-append name version b',' h,
  take-length name (b',' ∷ version),
  drop-suc-length name b',' version,
)

switch_package :
    (o : EnvOpts) (r : Bytes × Bytes)
    → NoComma r
    → WithEnv.option_switch o (opt_arg b'p' (package_arg r))
      ≡ some (record o { packages = env_package r ∷ o.packages })
unfolding WithEnv.option_switch package_option
switch_package o (name, version) h =
    rw (WithEnv.option_switch, package_option, cut_at_comma name version h)

fold_packages :
    (rs : List (Bytes × Bytes)) (o : EnvOpts) (es : List Event)
    → All NoComma rs
    → fold_events WithEnv.option_switch o (package_events rs ++ es)
      ≡ fold_events WithEnv.option_switch
          (record o { packages = reverse_aux (map env_package rs) o.packages })
          es
unfolding fold_events
fold_packages [] o es h = refl
fold_packages (r ∷ rs) o es h =
    rw (fold_events, switch_package o r h.0)
      (fold_packages rs (record o { packages = env_package r ∷ o.packages }) es h.1)

-- The arguments that `pkgbuild` leaves for `withenv`.
abbrev pub env_args : Bytes → Bytes → List Bytes
env_args work_dir script = codes "-w" ∷ work_dir ∷ codes "-c" ∷ codes "/work" ∷ script ∷ []

abbrev env_events : Bytes → Bytes → List (Bytes × Bytes) → List Event
env_events dir work_dir rs =
    opt_arg b'd' dir
    ∷ (package_events rs ++ (opt_arg b'w' work_dir ∷ opt_arg b'c' (codes "/work") ∷ []))

getopt-env_args :
    (dir work_dir script : Bytes) (rs : List (Bytes × Bytes))
    → arg_of script ≡ operand
    → getopt true env_letters (codes "-d" ∷ dir ∷ (package_args rs ++ env_args work_dir script))
      ≡ (env_events dir work_dir rs, script ∷ [])
unfolding getopt arg_of scan_word kind_of
getopt-env_args dir work_dir script rs plain = rw (
  getopt-package_args rs (codes "-w") work_dir (codes "-c" ∷ codes "/work" ∷ script ∷ []),
  getopt_operand env_letters script [] plain,
)

fold-env_events :
    (dir work_dir : Bytes) (rs : List (Bytes × Bytes))
    → All NoComma rs
    → fold_events WithEnv.option_switch default_opts (env_events dir work_dir rs)
      ≡ some (record {
        packagedir = dir;
        workdir = some work_dir;
        new_cwdir = some (codes "/work");
        packages = reverse (map env_package rs);
        mounts = [];
      })
unfolding fold_events WithEnv.option_switch
fold-env_events dir work_dir rs h = rw (
    fold_packages rs (record default_opts { packagedir = dir })
      (opt_arg b'w' work_dir ∷ opt_arg b'c' (codes "/work") ∷ []) h)

-- `withenv` reads back what `withpkgs` gives it for a result whose names have no comma, with the
-- arguments that `pkgbuild` leaves for it: the directory, the packages of the result with their
-- versions, the last one first, the work directory, `/work` as the current directory, and the
-- script as the command, if that does not look like an option.
pub parse_opts-build_args :
    (fuel : ℕ) (sp : SolveProblem) (dir work_dir script : Bytes) (rs : List (Bytes × Bytes))
    (argv : List Bytes)
    → results fuel sp 0 ≡ some rs
    → All NoComma rs
    → arg_of script ≡ operand
    → build_args fuel sp dir (env_args work_dir script) ≡ some argv
    → WithEnv.parse_opts (drop 1 argv)
      ≡ some (
        record {
          packagedir = dir;
          workdir = some work_dir;
          new_cwdir = some (codes "/work");
          packages = reverse (map env_package rs);
          mounts = [];
        },
        script ∷ [],
      )
unfolding WithEnv.parse_opts build_args
parse_opts-build_args fuel sp dir work_dir script rs argv found names plain built =
    let is_argv : argv
        ≡ codes "withenv" ∷ codes "-d" ∷ dir ∷ (package_args rs ++ env_args work_dir script) =
      ground arith in
    rw (
      is_argv,
      WithEnv.parse_opts,
      getopt-env_args dir work_dir script rs plain,
      fold-env_events dir work_dir rs names,
    )
