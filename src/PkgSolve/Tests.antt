-- ===== src/PkgSolve/Tests.antt =====
-- Runs of the options of tools/pkgsolve.c.
use static_distro.LibC.Getopt.{arg_of, scan_word, kind_of, fold_events, getopt}
use static_distro.PkgSolve.{option_switch, parse_params}
use static_distro.Shared.{◌≡◌, refl, [], ◌∷◌, some, none, codes}

-- Opens all that a run computes with.
runs : Unit {0}
unfolding kind_of scan_word arg_of getopt fold_events option_switch parse_params
runs = tt

-- Options may stand behind constraints.
parse_params_runs :
    parse_params (codes "gcc" ∷ codes "-d/p" ∷ codes "musl>=1.1" ∷ codes "-s" ∷ codes "-" ∷ [])
    ≡ some (
      record { packagedir = codes "/p"; nameversep = codes "-" },
      codes "gcc" ∷ codes "musl>=1.1" ∷ [],
    )
unfolding runs
parse_params_runs = refl

parse_params_bad : parse_params (codes "-x" ∷ codes "gcc" ∷ []) ≡ none
unfolding runs
parse_params_bad = refl
