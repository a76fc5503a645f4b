-- ===== src/PkgBuild.antt =====
-- tools/pkgbuild.c: the steps that build the packages of a source control file. Allocation is taken
-- to succeed, and closing files is left out.
pub mod Arguments
pub mod Environment
pub mod Plan
pub mod Order
mod Tests
use static_distro.Control.{SourceControl, SourceControlBin, source_control_parsefd}
use static_distro.ControlParse.{File}
use static_distro.GenControl.{VersionMode, version_keep, version_override, version_append}
use static_distro.LibC.Getopt.{Event, opt, opt_arg, bad, getopt, fold_events}
use static_distro.Shared.Calls.{M, ◌>>=◌, ◌>>◌, must, pure, give_up}
use static_distro.Shared.{
  ℕ, ◌+◌, ◌*◌, ◌^◌, ltb, Bool, true, false, List, [], ◌∷◌, ◌++◌, map, Option, none, some, ◌==◌,
  if◌then◌else◌, length, Bytes, codes,
}

-- The global variables that the options set.
pub record BuildOpts : Type 0 where
  pub do_build : Bool
  pub do_unpack : Bool
  pub do_gencontrol : Bool
  pub work_dir : Option Bytes
  pub dist_dir : Option Bytes
  pub out_dir : Option Bytes
  pub pkg_dir : Option Bytes
  pub ver_mode : VersionMode
  pub ver_param : Bytes

abbrev pub default_opts : BuildOpts
default_opts = record {
  do_build = true;
  do_unpack = true;
  do_gencontrol = true;
  work_dir = none;
  dist_dir = none;
  out_dir = none;
  pkg_dir = none;
  ver_mode = version_keep;
  ver_param = [];
}

-- The switch on an option without an argument.
unfoldable pub flag_switch : BuildOpts → ℕ → Option BuildOpts
flag_switch o c =
    if c == b'U'
    then some (record o { do_unpack = false })
    else if c == b'B'
    then some (record o { do_build = false })
    else if c == b'C'
    then some (record o { do_gencontrol = false })
    else none

abbrev pub with_dir : (Bytes → BuildOpts) → Option Bytes → Option BuildOpts
with_dir set none = none
with_dir set (some dir) = some (set dir)

-- The switch on an option with an argument, where `realpath` resolves a path.
unfoldable pub arg_switch : (Bytes → Option Bytes) → BuildOpts → ℕ → Bytes → Option BuildOpts
arg_switch realpath o c arg =
    if c == b'o'
    then some (record o { out_dir = some arg })
    else if c == b'w'
    then with_dir (λ dir. record o { work_dir = some dir }) (realpath arg)
    else if c == b'd'
    then with_dir (λ dir. record o { dist_dir = some dir }) (realpath arg)
    else if c == b'p'
    then with_dir (λ dir. record o { pkg_dir = some dir }) (realpath arg)
    else if c == b'v'
    then some (record o { ver_mode = version_override; ver_param = arg })
    else if c == b'V'
    then some (record o { ver_mode = version_append; ver_param = arg })
    else none

unfoldable pub option_switch : (Bytes → Option Bytes) → BuildOpts → Event → Option BuildOpts
option_switch realpath o (bad c) = none
option_switch realpath o (opt c) = flag_switch o c
option_switch realpath o (opt_arg c arg) = arg_switch realpath o c arg

-- What `parse_params` leaves: the options, the working directory, and the control file.
pub record Parsed : Type 0 where
  pub opts : BuildOpts
  pub work_dir : Bytes
  pub control_path : Bytes

abbrev pub with_control : BuildOpts → Bytes → Option Bytes → Option Parsed
with_control o work none = none
with_control o work (some path) = some (record { opts = o; work_dir = work; control_path = path })

-- The tests behind the loop.
unfoldable pub finish_params :
    (Bytes → Option Bytes) → BuildOpts → Option Bytes → List Bytes → Option Parsed
finish_params realpath o none operands = none
finish_params realpath o (some work) [] = none
finish_params realpath o (some work) (file ∷ []) = with_control o work (realpath file)
finish_params realpath o (some work) (file ∷ x ∷ xs) = none

unfoldable pub parse_params : (Bytes → Option Bytes) → List Bytes → Option Parsed
parse_params realpath args =
    let (events, operands) = getopt false (codes "BUCo:w:d:v:V:p:") args in
    elim (fold_events (option_switch realpath) default_opts events) [
      | none ↦ none
      | some o ↦ finish_params realpath o o.work_dir operands
    ]

-- The calls. A `wait` for a command that succeeds says that it exited with status 0; `undefined` stands
-- for a null pointer that is given to a function of the C library.
pub data Call : Type 0 where
  open_file open_dir chdir : Bytes → Call
  setenv : Bytes → Bytes → Call
  linkat : Bytes → Bytes → Bytes → Bytes → Call
  fork_exec wait : List Bytes → Call
  undefined : Call

unfoldable pub run_exec : List Bytes → M Call (Unit {0})
run_exec argv = do must (fork_exec argv); must (wait argv)

unfoldable pub dependency_args : List Bytes → List Bytes
dependency_args [] = []
dependency_args (d ∷ ds) = codes "-p" ∷ d ∷ dependency_args ds

-- The arguments that `run_exec_env` writes, in front of the null pointer at their end.
unfoldable pub env_argv : Bytes → Bytes → List Bytes → List Bytes → List Bytes
env_argv pkg_dir work_dir deps script =
    codes "newns"
    ∷ codes "withpkgs"
    ∷ codes "-d"
    ∷ pkg_dir
    ∷ (dependency_args deps ++ (codes "-w" ∷ work_dir ∷ codes "-c" ∷ codes "/work" ∷ script))

-- The number of pointers that it allocates room for, which it computes as an `int`. The terms are not
-- negative, so that the sum overflows where it does not fit; `none` is this overflow, which C leaves
-- undefined.
unfoldable pub env_argv_room : List Bytes → List Bytes → Option ℕ
env_argv_room deps script =
    let r = 2 + 2 + 2 * length deps + 2 + 5 + length script + 1 in
    if ltb r (2 ^ 31) then some r else none

-- The run with these arguments, where the room for them is counted without an overflow and allocated.
unfoldable pub run_exec_env : Bytes → Bytes → List Bytes → List Bytes → M Call (Unit {0})
run_exec_env pkg_dir work_dir script deps = run_exec (env_argv pkg_dir work_dir deps script)

-- What depends on whether a directory was given.
abbrev pub with_given : {X : Type 0} → Option Bytes → X → (Bytes → X) → X
with_given none x f = x
with_given (some dir) x f = f dir

-- Which of the two runs a script.
unfoldable pub run_script : Parsed → List Bytes → List Bytes → M Call (Unit {0})
run_script p script deps =
    with_given p.opts.pkg_dir (run_exec script)
      (λ pkg_dir. run_exec_env pkg_dir p.work_dir script deps)

unfoldable pub copy_file : Bytes → Bytes → Bytes → Bytes → M Call (Unit {0})
copy_file src_dir src dst_dir dst = must (linkat src_dir src dst_dir dst)

unfoldable pub copy_files : Bytes → Bytes → List Bytes → M Call (Unit {0})
copy_files dist_dir work_dir [] = pure tt
copy_files dist_dir work_dir (s ∷ ss) = do
  copy_file dist_dir s work_dir s
  copy_files dist_dir work_dir ss

unfoldable pub unpack : Parsed → SourceControl → M Call (Unit {0})
unpack p c = with_given p.opts.dist_dir give_up (λ dist_dir. do
  must (open_dir dist_dir)
  must (open_dir p.work_dir)
  copy_files dist_dir p.work_dir c.sources
  run_script p (codes "./unpack.sh" ∷ []) c.unpack_depend)

-- The directory that the script installs into.
abbrev pub install_dir : Parsed → Bytes → Bytes
install_dir p out_dir =
    with_given p.opts.pkg_dir (p.work_dir ++ (codes "/" ++ out_dir))
      (λ pkg_dir. codes "/work/" ++ out_dir)

unfoldable pub build : Parsed → SourceControl → M Call (Unit {0})
build p c = with_given p.opts.out_dir give_up (λ out_dir. do
  must (setenv (codes "PKG_INSTDIR") (install_dir p out_dir))
  run_script p (codes "./build.sh" ∷ []) c.build_depend)

unfoldable pub control_out : Bytes → Bytes → Bytes → Bytes → Bytes
control_out work_dir out_dir name version =
    work_dir
    ++ (codes "/"
        ++ (out_dir
            ++ (codes "/packages/" ++ (name ++ (codes "/" ++ (version ++ codes "/control"))))))

unfoldable pub gencontrol_argv : Bytes → Bytes → Bytes → Bytes → List Bytes
gencontrol_argv version out_control control_path name =
    codes "gencontrol" ∷ codes "-v" ∷ version ∷ codes "-o" ∷ out_control ∷ control_path ∷ name ∷ []

-- The loop of `gencontrol`.
unfoldable pub gencontrol_bins : Parsed → Bytes → Bytes → List SourceControlBin → M Call (Unit {0})
gencontrol_bins p out_dir version [] = pure tt
gencontrol_bins p out_dir version (sb ∷ sbs) =
    with_given sb.package_name (must undefined >> give_up) (λ name. do
      run_exec (
          gencontrol_argv version (control_out p.work_dir out_dir name version) p.control_path name)
      gencontrol_bins p out_dir version sbs)

unfoldable pub gencontrol : Parsed → Bytes → SourceControl → M Call (Unit {0})
gencontrol p version c =
    with_given p.opts.out_dir give_up (λ out_dir. gencontrol_bins p out_dir version c.bins)

-- The version of the binary packages.
unfoldable pub binary_version : VersionMode → Bytes → Bytes → Bytes
binary_version version_keep version param = version
binary_version version_override version param = param
binary_version version_append version param = version ++ param

abbrev pub when : Bool → M Call (Unit {0}) → M Call (Unit {0})
when true m = m
when false m = pure tt

-- `main` behind the source control file, with its source and version. Without one of the two,
-- `setenv` is given a null pointer, if not a function before it.
unfoldable pub build_source : Parsed → SourceControl → Bytes → Bytes → M Call (Unit {0})
build_source p c source src_version =
    let version = binary_version p.opts.ver_mode src_version p.opts.ver_param in
    do
      must (setenv (codes "PKG_NAME") source)
      must (setenv (codes "PKG_SRCVERSION") src_version)
      must (setenv (codes "PKG_VERSION") version)
      must (setenv (codes "PKG_DIR") (codes "/packages/" ++ (source ++ (codes "/" ++ version))))
      must (chdir p.work_dir)
      when p.opts.do_unpack (unpack p c)
      when p.opts.do_build (build p c)
      when p.opts.do_gencontrol (gencontrol p version c)

abbrev pub named_source : Parsed → SourceControl → Option Bytes → Option Bytes → M Call (Unit {0})
named_source p c (some source) (some version) = build_source p c source version
named_source p c (some source) none = must undefined >> give_up
named_source p c none version = must undefined >> give_up

-- `main`, where `files` gives the files for reading.
unfoldable pub pkgbuild :
    (Bytes → Option Bytes) → (Bytes → Option File) → List Bytes → M Call (Unit {0})
pkgbuild realpath files args = elim (parse_params realpath args) [
  | none ↦ give_up
  | some p ↦ (do
    must (open_file p.control_path)
    elim (source_control_parsefd (files p.control_path)) [
      | none ↦ give_up
      | some c ↦ named_source p c c.source c.version
    ])
]
