-- ===== src/PkgSolve.antt =====
-- tools/pkgsolve.c: `parse_params`, and `main` from the command line on.
mod Tests
use static_distro.LibC.Getopt.{Event, opt, opt_arg, bad, getopt, fold_events}
use static_distro.Repo.{Disk}
use static_distro.Shared.{ℕ, false, List, Option, none, some, ◌==◌, if◌then◌else◌, Bytes, codes}
use static_distro.WithPkgs.{Ended, exit_failure, default_dir, pkgsolve}

-- The global variables that the options set.
pub record SolveOpts : Type 0 where
  pub packagedir : Bytes
  pub nameversep : Bytes

abbrev pub default_opts : SolveOpts
default_opts = record { packagedir = default_dir; nameversep = codes "," }

-- The switch. No other letter than these comes with an argument.
unfoldable pub option_switch : SolveOpts → Event → Option SolveOpts
option_switch o (opt c) = none
option_switch o (bad c) = none
option_switch o (opt_arg c arg) =
    if c == b'd'
    then some (record o { packagedir = arg })
    else if c == b's'
    then some (record o { nameversep = arg })
    else none

-- The options, and the arguments from `optind` on.
unfoldable pub parse_params : List Bytes → Option (SolveOpts × List Bytes)
parse_params args =
    let (events, operands) = getopt false (codes "d:s:") args in
    elim (fold_events option_switch default_opts events) [
      | none ↦ none
      | some o ↦ some (o, operands)
    ]

unfoldable pub pkgsolve_main : ℕ → (Bytes → Option Disk) → List Bytes → Option Ended
pkgsolve_main fuel root args = elim (parse_params args) [
  | none ↦ some exit_failure
  | some (o, constraints) ↦ pkgsolve fuel root o.packagedir o.nameversep constraints
]
