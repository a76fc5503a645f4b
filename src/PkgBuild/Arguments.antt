-- ===== src/PkgBuild/Arguments.antt =====
-- The command lines that tools/pkgbuild.c makes, as the tools read them that it calls.
use native.Mathlib.Decide.{dec_lt}
use static_distro.GenControl.CommandLine.{default_opts}
use static_distro.GenControl.{version_override}
use static_distro.LibC.Getopt.{opt_arg, operand, getopt, arg_of, scan_word, kind_of, fold_events}
use static_distro.NewNs
use static_distro.GenControl.CommandLine
use static_distro.PkgBuild.{dependency_args, env_argv, env_argv_room, gencontrol_argv}
use static_distro.Shared.{
  ◌+◌, ◌*◌, ◌^◌, ◌<◌, ◌≤◌, ◌⊎◌, inl, inr, none, List, [], ◌∷◌, ◌++◌, Bool, some, ◌∙◌, ◌≡◌, refl,
  true, false, drop, length, length-append, str_eq, Bytes, codes, arith,
}
use static_distro.WithPkgs
use mathlib.Core.List.{reverse, reverse_aux}

length-dependency_args :
    (deps : List Bytes) → length (dependency_args deps) ≡ length deps + length deps
unfolding dependency_args
length-dependency_args [] = refl
length-dependency_args (d ∷ ds) = omega (arith, length-dependency_args ds)

length-env_argv-sum :
    (pkg_dir work_dir : Bytes) (deps script : List Bytes)
    → length (env_argv pkg_dir work_dir deps script) + 4
      ≡ 2 + 2 + 2 * length deps + 2 + 5 + length script + 1
unfolding env_argv
length-env_argv-sum pkg_dir work_dir deps script = omega (
  arith,
  length-dependency_args deps,
  length-append (dependency_args deps)
      (codes "-w" ∷ work_dir ∷ codes "-c" ∷ codes "/work" ∷ script),
)

-- Either the arguments of `run_exec_env` with four more pointers are fewer than 2^31, and it allocates
-- room for exactly these, the null pointer behind the arguments and three that stay unused; or the
-- `int` that counts them overflows.
pub length-env_argv :
    (pkg_dir work_dir : Bytes) (deps script : List Bytes)
    → ((length (env_argv pkg_dir work_dir deps script) + 4 < 2 ^ 31)
        × (env_argv_room deps script ≡ some (length (env_argv pkg_dir work_dir deps script) + 4)))
      ⊎ ((2 ^ 31 ≤ length (env_argv pkg_dir work_dir deps script) + 4)
          × (env_argv_room deps script ≡ none))
unfolding env_argv_room
length-env_argv pkg_dir work_dir deps script =
    let e = length-env_argv-sum pkg_dir work_dir deps script in
    elim (dec_lt (length (env_argv pkg_dir work_dir deps script) + 4) (2 ^ 31)) [
      | yes fits ↦ inl (fits, ground (arith, e))
      | no over ↦ inr (omega arith, ground (arith, e))
    ]

parse_opts-dependency_args :
    (deps : List Bytes) (dir : Bytes) (cs rest : List Bytes)
    → WithPkgs.parse_opts false dir cs (dependency_args deps ++ rest)
      ≡ WithPkgs.parse_opts false dir (reverse_aux deps cs) rest
unfolding dependency_args WithPkgs.parse_opts WithPkgs.arg_kind str_eq
parse_opts-dependency_args [] dir cs rest = refl
parse_opts-dependency_args (d ∷ ds) dir cs rest = parse_opts-dependency_args ds dir (d ∷ cs) rest

parse_opts-rest :
    (dir work_dir script : Bytes) (cs : List Bytes)
    → WithPkgs.parse_opts false dir cs
        (codes "-w" ∷ (b'/' ∷ work_dir) ∷ codes "-c" ∷ codes "/work" ∷ (b'.' ∷ script) ∷ [])
      ≡ some (record {
        packagedir = dir;
        packages = cs;
        args = codes "-w" ∷ (b'/' ∷ work_dir) ∷ codes "-c" ∷ codes "/work" ∷ (b'.' ∷ script) ∷ [];
      })
unfolding WithPkgs.parse_opts WithPkgs.arg_kind WithPkgs.keep str_eq
parse_opts-rest dir work_dir script cs = refl

-- `newns`, called with the arguments of `run_exec_env`, for a work directory whose path starts
-- with a slash and a script whose path starts with a dot, finds no options of its own in front of
-- `withpkgs`, so it keeps the root user and group. `withpkgs` then takes the package directory and
-- all dependencies as constraints, the last one first, and leaves the options for `withenv` and
-- the script.
pub parse_opts-env_argv :
    (pkg_dir work_dir script : Bytes) (deps : List Bytes)
    → (NewNs.parse_opts (drop 1 (env_argv pkg_dir (b'/' ∷ work_dir) deps ((b'.' ∷ script) ∷ [])))
        ≡ some (
          record { new_uid = 0; new_gid = 0 },
          drop 1 (env_argv pkg_dir (b'/' ∷ work_dir) deps ((b'.' ∷ script) ∷ [])),
        ))
      × (WithPkgs.parse_opts false WithPkgs.default_dir []
            (drop 2 (env_argv pkg_dir (b'/' ∷ work_dir) deps ((b'.' ∷ script) ∷ [])))
          ≡ some (record {
            packagedir = pkg_dir;
            packages = reverse deps;
            args =
                codes "-w" ∷ (b'/' ∷ work_dir) ∷ codes "-c" ∷ codes "/work" ∷ (b'.' ∷ script) ∷ [];
          }))
unfolding env_argv NewNs.parse_opts getopt arg_of fold_events WithPkgs.parse_opts WithPkgs.arg_kind
    str_eq
parse_opts-env_argv pkg_dir work_dir script deps = (
  refl,
  parse_opts-dependency_args deps pkg_dir []
        (codes "-w" ∷ (b'/' ∷ work_dir) ∷ codes "-c" ∷ codes "/work" ∷ (b'.' ∷ script) ∷ [])
      ∙ parse_opts-rest pkg_dir work_dir script (reverse deps),
)

arg_of_path : (s : Bytes) → arg_of (b'/' ∷ s) ≡ operand
unfolding arg_of
arg_of_path [] = refl
arg_of_path (c ∷ []) = refl
arg_of_path (c ∷ d ∷ s) = refl

getopt_last :
    (os name : Bytes) → arg_of name ≡ operand → getopt false os (name ∷ []) ≡ ([], name ∷ [])
unfolding getopt
getopt_last os name plain = rw (getopt, plain)

getopt_operands :
    (os path name : Bytes)
    → arg_of name ≡ operand
    → getopt false os ((b'/' ∷ path) ∷ name ∷ []) ≡ ([], (b'/' ∷ path) ∷ name ∷ [])
unfolding getopt
getopt_operands os path name plain = rw (getopt, arg_of_path path, getopt_last os name plain)

getopt_gencontrol :
    (version out path name : Bytes)
    → arg_of name ≡ operand
    → getopt false
        (codes "v:V:o:b:")
        (codes "-v" ∷ version ∷ codes "-o" ∷ out ∷ (b'/' ∷ path) ∷ name ∷ [])
      ≡ (opt_arg b'v' version ∷ opt_arg b'o' out ∷ [], (b'/' ∷ path) ∷ name ∷ [])
unfolding getopt arg_of scan_word kind_of
getopt_gencontrol version out path name plain =
    rw (getopt_operands (codes "v:V:o:b:") path name plain)

-- `gencontrol` reads what the step of the same name of `pkgbuild` gives it, if its output file
-- opens, the path of the source control file starts with a slash, and the name of the package is
-- no option: the version overrides the one of the source control file, and the output file, the
-- source control file and the package are those that were given.
pub parse_params-gencontrol_argv :
    (fopen : Bytes → Bool) (version out path name : Bytes)
    → fopen out ≡ true
    → arg_of name ≡ operand
    → CommandLine.parse_params fopen (drop 1 (gencontrol_argv version out (b'/' ∷ path) name))
      ≡ some (record {
        opts = record {
          ver_mode = version_override;
          ver_param = version;
          outf = some out;
          bf_extra = [];
        };
        file_name = b'/' ∷ path;
        package_name = name;
      })
unfolding gencontrol_argv CommandLine.parse_params fold_events CommandLine.option_switch
parse_params-gencontrol_argv fopen version out path name opens plain = rw (
  CommandLine.parse_params,
  getopt_gencontrol version out path name plain,
  CommandLine.option_switch,
  fold_events,
  opens,
  getopt_gencontrol version out path name plain,
)
