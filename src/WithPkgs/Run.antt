-- ===== src/WithPkgs/Run.antt =====
-- What tools/withpkgs.c and tools/pkgsolve.c do when the solver finds a solution.
use native.Mathlib.Decide.{dec_lt}
use static_distro.Repo.Main.{solve_constraints, solve_constraints-IsSolution}
use static_distro.Repo.{Repo, Disk}
use static_distro.Repo.Closed.{IsClosed, AllIn, solve_constraints_ends}
use static_distro.Shared.{
  ◌≤◌, ◌<◌, ◌%◌, ◌^◌, ◌⊎◌, sym, ap, inl, inr, Option-cases, ℕ, suc, false, none, ◌+◌, ◌*◌, ◌≡◌,
  refl, List, [], ◌∷◌, ◌++◌, Option, some, arith, length, length-append, Bytes, codes,
}
use static_distro.Solve.Closed.{IsSolution}
use static_distro.Solve.Results.{results, chosen_versions, results-IsSolution}
use static_distro.Solve.{SolveProblem, Outcome, done, failed, aborted}
use static_distro.WithPkgs.Options.{Opt, opt_args, last_dir, push_constraints, parse_opts_lem}
use static_distro.WithPkgs.{
  Ended, exit_failure, crash, Opts, exec, after_run, exec_args, parse_opts, build_args, nargc,
  build_args_room, package_args, default_dir, withpkgs,
}

pub build_args-IsSolution :
    {roots : List Bytes} (q : SolveProblem) (dir : Bytes) (args : List Bytes)
    → IsSolution roots q
    → build_args (length q.packages) q dir args
      ≡ some
          (codes "withenv" ∷ codes "-d" ∷ dir ∷ (package_args (chosen_versions q.packages) ++ args))
unfolding build_args
build_args-IsSolution q dir args sol =
    rw (results-IsSolution (length q.packages) q sol (omega arith))

-- When the solver finds a solution of the constraints of the options, withpkgs starts `withenv` on
-- each package of the solution with the version chosen for it, and on the command behind `--`.
pub withpkgs-IsSolution :
    (fuel : ℕ) (root : Bytes → Option Disk) (os : List Opt) (c : Bytes) (cmd : List Bytes)
    (disk : Disk) (repo : Repo) (q : SolveProblem)
    → root (last_dir default_dir os) ≡ some disk
    → solve_constraints fuel disk (push_constraints [] os) ≡ some (done (repo, q))
    → IsSolution (push_constraints [] os) q
      × (withpkgs fuel root (opt_args os ++ (codes "--" ∷ c ∷ cmd))
          ≡ some (
              exec (
                codes "withenv"
                ∷ codes "-d"
                ∷ last_dir default_dir os
                ∷ (package_args (chosen_versions q.packages) ++ (codes "--" ∷ c ∷ cmd)))))
unfolding withpkgs
withpkgs-IsSolution fuel root os c cmd disk repo q opened run =
    let sol = (solve_constraints-IsSolution fuel disk (push_constraints [] os) repo q run).0 in
    (
      sol,
      rw (
        withpkgs,
        parse_opts_lem os c cmd,
        opened,
        run,
        after_run,
        exec_args,
        build_args-IsSolution q (last_dir default_dir os) (codes "--" ∷ c ∷ cmd) sol,
      ),
    )

length-package_args : (rs : List (Bytes × Bytes)) → length (package_args rs) ≡ 2 * length rs
unfolding package_args
length-package_args [] = refl
length-package_args (r ∷ rs) = omega (arith, length-package_args rs)

build_args-results :
    (fuel : ℕ) (sp : SolveProblem) (dir : Bytes) (args argv : List Bytes)
    → build_args fuel sp dir args ≡ some argv
    → (rs : List (Bytes × Bytes)) × (results fuel sp 0 ≡ some rs)
      × (codes "withenv" ∷ codes "-d" ∷ dir ∷ (package_args rs ++ args) ≡ argv)
unfolding build_args
build_args-results fuel sp dir args argv built = elim (Option-cases (results fuel sp 0)) [
  | inl e ↦ absurd (ground (arith, rw (e) at built))
  | inr (rs, e) ↦ (rs, e, ground (arith, rw (e) at built))
]

-- When `build_args` writes its arguments, and these with the null pointer at their end are fewer than
-- 2^32, the array that it allocates has exactly the room for them; if they are not, the `unsigned` that
-- counts them wraps around, and the array is too small.
pub length-build_args :
    (fuel : ℕ) (sp : SolveProblem) (dir : Bytes) (args argv : List Bytes)
    → build_args fuel sp dir args ≡ some argv
    → (room : ℕ) × (build_args_room fuel sp args ≡ some room)
      × (((suc (length argv) < 2 ^ 32) × (room ≡ suc (length argv)))
          ⊎ ((2 ^ 32 ≤ suc (length argv)) × (room < suc (length argv))))
unfolding build_args_room
length-build_args fuel sp dir args argv built =
    let (rs, found, e) = build_args-results fuel sp dir args argv built in
    let count : length argv ≡ suc (length args) + 2 + 2 * length rs =
      omega (arith, ap length e, length-append (package_args rs) args, length-package_args rs) in
    let counted : nargc args rs ≡ length argv % 2 ^ 32 = ap (λ x. x % 2 ^ 32) (sym count) in
    (
      (nargc args rs + 1) % 2 ^ 32,
      rw (found) refl,
      elim (dec_lt (suc (length argv)) (2 ^ 32)) [
        | yes fits ↦ inl (fits, omega (arith, counted))
        | no over ↦ inr (omega arith, omega (arith, counted))
      ],
    )

-- How `main` of withpkgs ends, for the fuel of the solver: the options are not read, the repository does
-- not open, the solver finds no solution, it finds one, or it ends by `abort`.
pub data EndsAs (fuel : ℕ) (root : Bytes → Option Disk) (args : List Bytes) (r : Option Ended)
    : Type 0 where
  unread :
      parse_opts false default_dir [] args ≡ none → r ≡ some exit_failure → EndsAs fuel root args r
  unopened :
      (o : Opts)
      → parse_opts false default_dir [] args ≡ some o
      → root o.packagedir ≡ none
      → r ≡ some exit_failure
      → EndsAs fuel root args r
  unsolvable :
      (o : Opts) (disk : Disk) (state : Repo × SolveProblem)
      → parse_opts false default_dir [] args ≡ some o
      → root o.packagedir ≡ some disk
      → solve_constraints fuel disk o.packages ≡ some (failed state)
      → r ≡ some exit_failure
      → EndsAs fuel root args r
  started :
      (o : Opts) (disk : Disk) (repo : Repo) (q : SolveProblem)
      → parse_opts false default_dir [] args ≡ some o
      → root o.packagedir ≡ some disk
      → solve_constraints fuel disk o.packages ≡ some (done (repo, q))
      → IsSolution o.packages q
      → r
        ≡ some (
            exec (
              codes "withenv"
              ∷ codes "-d"
              ∷ o.packagedir
              ∷ (package_args (chosen_versions q.packages) ++ o.args)))
      → EndsAs fuel root args r
  crashed :
      (o : Opts) (disk : Disk)
      → parse_opts false default_dir [] args ≡ some o
      → root o.packagedir ≡ some disk
      → solve_constraints fuel disk o.packages ≡ some aborted
      → r ≡ some crash
      → EndsAs fuel root args r

-- What follows the solver.
solver-EndsAs :
    (fuel : ℕ) (root : Bytes → Option Disk) (args : List Bytes) (o : Opts) (disk : Disk)
    (outcome : Outcome (Repo × SolveProblem))
    → parse_opts false default_dir [] args ≡ some o
    → root o.packagedir ≡ some disk
    → solve_constraints fuel disk o.packages ≡ some outcome
    → EndsAs fuel root args (withpkgs fuel root args)
unfolding withpkgs
solver-EndsAs fuel root args o disk (done (repo, q)) read opened run =
    let sol = (solve_constraints-IsSolution fuel disk o.packages repo q run).0 in
    started o disk repo q read opened run sol (
      rw (
        withpkgs,
        read,
        opened,
        run,
        after_run,
        exec_args,
        build_args-IsSolution q o.packagedir o.args sol,
      ))
solver-EndsAs fuel root args o disk (failed state) read opened run =
    unsolvable o disk state read opened run (rw (withpkgs, read, opened, run) refl)
solver-EndsAs fuel root args o disk aborted read opened run =
    crashed o disk read opened run (rw (withpkgs, read, opened, run) refl)

-- For any command line, with fuel for each of the names that its constraints and the control files of its
-- repository are closed in, withpkgs ends. It exits with a failure if it cannot read its options, the
-- repository does not open, or the solver fails; it starts `withenv` on the packages of the solution
-- that the solver finds, with the versions chosen for them, and on the arguments that it leaves; or it
-- crashes, where the solver does.
pub withpkgs_ends :
    (names : List Bytes) (fuel : ℕ) (root : Bytes → Option Disk) (args : List Bytes)
    → ((o : Opts)
        → parse_opts false default_dir [] args ≡ some o
        → AllIn names o.packages
          × ((disk : Disk) → root o.packagedir ≡ some disk → IsClosed names disk))
    → length names ≤ fuel
    → EndsAs fuel root args (withpkgs fuel root args)
unfolding withpkgs
withpkgs_ends names fuel root args closed le =
    elim (Option-cases (parse_opts false default_dir [] args)) [
      | inl bad ↦ unread bad (rw (withpkgs, bad) refl)
      | inr (o, read) ↦ elim (Option-cases (root o.packagedir)) [
        | inl missing ↦ unopened o read missing (rw (withpkgs, read, missing) refl)
        | inr (disk, opened) ↦
            let (all, closed_in) = closed o read in
            let (outcome, run) =
              solve_constraints_ends names fuel disk o.packages (closed_in disk opened) all le in
            solver-EndsAs fuel root args o disk outcome read opened run
      ]
    ]
