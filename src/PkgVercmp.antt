-- ===== src/PkgVercmp.antt =====
-- tools/pkgvercmp.c: the comparison, the minimum and the maximum of version numbers.
pub mod Best
mod Tests
use static_distro.LibC.Getopt.{Event, opt, opt_arg, bad, getopt, fold_events}
use static_distro.Shared.{
  Bool, true, false, List, [], ◌∷◌, ◌++◌, Option, none, some, ◌>>=◌, ◌==◌, if◌then◌else◌, all,
  Bytes, codes,
}
use static_distro.Version.{
  VercmpResult, ver_lt, ver_eq, ver_gt, ver_failed, version_validate, version_cmp,
}

pub data Mode : Type 0 where
  mode_cmp mode_min mode_max : Mode

-- The text printed, the exit status for a failure, or the end by `abort`.
pub data Printed : Type 0 where
  printed : Bytes → Printed
  exit_failure aborted : Printed

-- The tests at the end of `parse_params`.
unfoldable pub params_ok : Mode → List Bytes → Bool
params_ok mode [] = false
params_ok mode_cmp (v ∷ []) = false
params_ok mode_min (v ∷ []) = true
params_ok mode_max (v ∷ []) = true
params_ok mode (v ∷ w ∷ []) = true
params_ok mode_cmp (v ∷ w ∷ x ∷ vs) = false
params_ok mode_min (v ∷ w ∷ x ∷ vs) = true
params_ok mode_max (v ∷ w ∷ x ∷ vs) = true

abbrev pub is_min : Mode → Bool
is_min mode_cmp = false
is_min mode_min = true
is_min mode_max = false

abbrev pub is_max : Mode → Bool
is_max mode_cmp = false
is_max mode_min = false
is_max mode_max = true

-- The body of the loop: `v` or the best version `b` so far; `none` is the end by `abort`.
unfoldable pub better : Mode → VercmpResult → Bytes → Bytes → Option Bytes
better mode ver_lt v b = some (if is_min mode then v else b)
better mode ver_eq v b = some b
better mode ver_gt v b = some (if is_max mode then v else b)
better mode ver_failed v b = none

unfoldable pub best : Mode → Bytes → List Bytes → Option Bytes
best mode b [] = some b
best mode b (v ∷ vs) = do b' ← better mode (version_cmp v b) v b; best mode b' vs

unfoldable pub print_cmp : VercmpResult → Printed
print_cmp ver_lt = printed (codes "less than\n")
print_cmp ver_eq = printed (codes "equal\n")
print_cmp ver_gt = printed (codes "greater than\n")
print_cmp ver_failed = aborted

abbrev pub print_best : Option Bytes → Printed
print_best none = aborted
print_best (some v) = printed (v ++ codes "\n")

-- `main` behind its tests.
unfoldable pub run_mode : Mode → List Bytes → Printed
run_mode mode [] = exit_failure
run_mode mode_cmp (v ∷ []) = exit_failure
run_mode mode_cmp (v ∷ w ∷ vs) = print_cmp (version_cmp v w)
run_mode mode_min (v ∷ vs) = print_best (best mode_min v vs)
run_mode mode_max (v ∷ vs) = print_best (best mode_max v vs)

unfoldable pub pkgvercmp : Mode → List Bytes → Printed
pkgvercmp mode args =
    if params_ok mode args
    then (if all version_validate args then run_mode mode args else exit_failure)
    else exit_failure

-- The switch of `parse_params`. No other letter than these is an option.
unfoldable pub option_switch : Mode → Event → Option Mode
option_switch mode (bad c) = none
option_switch mode (opt_arg c arg) = none
option_switch mode (opt c) =
    if c == b'm' then some mode_min else if c == b'M' then some mode_max else none

-- The mode, and the arguments from `optind` on.
unfoldable pub parse_params : List Bytes → Option (Mode × List Bytes)
parse_params args =
    let (events, operands) = getopt false (codes "mM") args in
    elim (fold_events option_switch mode_cmp events) [
      | none ↦ none
      | some mode ↦ if params_ok mode operands then some (mode, operands) else none
    ]

-- `main` from the command line on.
unfoldable pub pkgvercmp_main : List Bytes → Printed
pkgvercmp_main args = elim (parse_params args) [
  | none ↦ exit_failure
  | some (mode, versions) ↦ pkgvercmp mode versions
]
