-- ===== src/WithPkgs.antt =====
-- tools/withpkgs.c: the options, the arguments for `withenv`, and `main`; and `main` of
-- tools/pkgsolve.c behind its parameters. Allocation is taken to succeed.
pub mod Options
pub mod Run
pub mod Command
mod Tests
use static_distro.Repo.Main.{solve_constraints}
use static_distro.Repo.{Disk}
use static_distro.Shared.{
  ℕ, suc, ◌+◌, ◌*◌, ◌%◌, ◌^◌, Bool, true, false, List, [], ◌∷◌, ◌++◌, Option, none, some, ◌>>=◌,
  if◌then◌else◌, length, str_eq, Bytes, codes,
}
use static_distro.Solve.Results.{results}
use static_distro.Solve.{SolveProblem, Outcome, done, failed, aborted}

-- The global variables that the options set, and the arguments that stay behind `argv[0]`.
pub record Opts : Type 0 where
  pub packagedir : Bytes
  pub packages : List Bytes
  pub args : List Bytes

abbrev pub default_dir : Bytes
default_dir = codes "/packages"

-- What an argument is, with the flag `done`.
pub data ArgKind : Type 0 where
  dir_option package_option separator other : ArgKind

unfoldable pub arg_kind : Bool → Bytes → ArgKind
arg_kind true arg = other
arg_kind false arg =
    if str_eq arg (codes "-d")
    then dir_option
    else if str_eq arg (codes "-p")
    then package_option
    else if str_eq arg (codes "--")
    then separator
    else other

-- An argument that is kept in front of those that the rest of the loop keeps.
unfoldable pub keep : Bytes → Option Opts → Option Opts
keep arg none = none
keep arg (some o) = some (record o { args = arg ∷ o.args })

-- The loop of `parse_opts`, from `argv[i]` on; `none` is the return value -1.
unfoldable pub parse_opts : Bool → Bytes → List Bytes → List Bytes → Option Opts
parse_opts finished dir packages [] =
    some (record { packagedir = dir; packages = packages; args = [] })
parse_opts finished dir packages (arg ∷ []) = elim (arg_kind finished arg) [
  | dir_option ↦ none
  | package_option ↦ none
  | separator ↦ keep arg (parse_opts true dir packages [])
  | other ↦ keep arg (parse_opts finished dir packages [])
]
parse_opts finished dir packages (arg ∷ value ∷ more) = elim (arg_kind finished arg) [
  | dir_option ↦ parse_opts finished value packages more
  | package_option ↦ parse_opts finished dir (value ∷ packages) more
  | separator ↦ keep arg (parse_opts true dir packages (value ∷ more))
  | other ↦ keep arg (parse_opts finished dir packages (value ∷ more))
]

abbrev pub package_arg : Bytes × Bytes → Bytes
package_arg (name, version) = name ++ (codes "," ++ version)

-- The arguments for the packages of the result.
unfoldable pub package_args : List (Bytes × Bytes) → List Bytes
package_args [] = []
package_args (r ∷ rs) = codes "-p" ∷ package_arg r ∷ package_args rs

-- `build_args`; the arguments that it writes, in front of the null pointer at their end, where the array
-- for them is allocated with room for all. `none`: the fuel of the loop runs out, or it follows a null
-- pointer.
unfoldable pub build_args : ℕ → SolveProblem → Bytes → List Bytes → Option (List Bytes)
build_args fuel sp dir args = do
  rs ← results fuel sp 0
  some (codes "withenv" ∷ codes "-d" ∷ dir ∷ (package_args rs ++ args))

-- The room that it allocates, counted in `unsigned`, for the arguments and the null pointer at their
-- end: `argc` is one more than the arguments behind `argv[0]`.
abbrev pub nargc : List Bytes → List (Bytes × Bytes) → ℕ
nargc args rs = (suc (length args) + 2 + 2 * length rs) % 2 ^ 32

unfoldable pub build_args_room : ℕ → SolveProblem → List Bytes → Option ℕ
build_args_room fuel sp args = do rs ← results fuel sp 0; some ((nargc args rs + 1) % 2 ^ 32)

-- How `main` ends: it replaces the process by `withenv` with these arguments, prints a text and
-- succeeds, fails, or the process ends by `abort` or by a null pointer.
pub data Ended : Type 0 where
  exec : List Bytes → Ended
  printed : Bytes → Ended
  exit_failure crash : Ended

-- The fuel of the loop over the results is the number of packages, which is enough for them.
abbrev pub exec_args : Opts → SolveProblem → Ended
exec_args o sp = elim (build_args (length sp.packages) sp o.packagedir o.args) [
  | none ↦ crash
  | some argv ↦ exec argv
]

-- What follows `solve_run`; without a result the fuel of the solver ran out.
abbrev pub after_run :
    {W : Type 0} → (SolveProblem → Ended) → Option (Outcome (W × SolveProblem)) → Option Ended
after_run finish none = none
after_run finish (some (done (w, sp))) = some (finish sp)
after_run finish (some (failed s)) = some exit_failure
after_run finish (some aborted) = some crash

-- `main` of withpkgs. The parameter `root` is what `repo_init` finds at a path.
unfoldable pub withpkgs : ℕ → (Bytes → Option Disk) → List Bytes → Option Ended
withpkgs fuel root args = elim (parse_opts false default_dir [] args) [
  | none ↦ some exit_failure
  | some o ↦ elim (root o.packagedir) [
    | none ↦ some exit_failure
    | some disk ↦ after_run (exec_args o) (solve_constraints fuel disk o.packages)
  ]
]

-- The lines that pkgsolve prints.
unfoldable pub result_lines : Bytes → List (Bytes × Bytes) → Bytes
result_lines sep [] = []
result_lines sep ((name, version) ∷ rs) =
    name ++ (sep ++ (version ++ (codes "\n" ++ result_lines sep rs)))

abbrev pub print_results : Bytes → SolveProblem → Ended
print_results sep sp = elim (results (length sp.packages) sp 0) [
  | none ↦ crash
  | some rs ↦ printed (result_lines sep rs)
]

-- `main` of pkgsolve, from the parameters that `getopt` leaves.
unfoldable pub pkgsolve : ℕ → (Bytes → Option Disk) → Bytes → Bytes → List Bytes → Option Ended
pkgsolve fuel root dir sep constraints = elim (root dir) [
  | none ↦ some exit_failure
  | some disk ↦ after_run (print_results sep) (solve_constraints fuel disk constraints)
]
