-- ===== src/PkgBuild/Plan.antt =====
-- The steps of tools/pkgbuild.c in their order.
use static_distro.Control.{SourceControl, SourceControlBin}
use static_distro.PkgBuild.{
  Parsed, Call, open_dir, chdir, setenv, linkat, fork_exec, wait, undefined, run_exec, env_argv,
  run_exec_env, run_script, copy_file, copy_files, unpack, install_dir, build, control_out,
  gencontrol_argv, gencontrol_bins, gencontrol, binary_version, when, build_source, with_given,
}
use static_distro.Shared.Calls.{M}
use static_distro.Shared.Plans.{
  Entry, need, refuse, Follows, then-Follows, nothing-Follows, entry-Follows, then_entry,
}
use static_distro.Shared.{List, [], ◌∷◌, ◌++◌, Option, none, some, Bool, true, false, Bytes, codes}

abbrev pub Plan : Type 0
Plan = List (Entry Call)

abbrev pub exec_plan : List Bytes → Plan
exec_plan argv = need (fork_exec argv) ∷ need (wait argv) ∷ []

-- How a script is run, by itself or in an environment.
abbrev pub script_argv : Parsed → List Bytes → List Bytes → List Bytes
script_argv p script deps =
    with_given p.opts.pkg_dir script (λ pkg_dir. env_argv pkg_dir p.work_dir deps script)

abbrev pub unpack_argv : Parsed → SourceControl → List Bytes
unpack_argv p c = script_argv p (codes "./unpack.sh" ∷ []) c.unpack_depend

abbrev pub build_argv : Parsed → SourceControl → List Bytes
build_argv p c = script_argv p (codes "./build.sh" ∷ []) c.build_depend

abbrev pub bin_argv : Parsed → Bytes → Bytes → Bytes → List Bytes
bin_argv p out_dir version name =
    gencontrol_argv version (control_out p.work_dir out_dir name version) p.control_path name

abbrev pub copy_plan : Bytes → Bytes → List Bytes → Plan
copy_plan dist_dir work_dir [] = []
copy_plan dist_dir work_dir (s ∷ ss) =
    need (linkat dist_dir s work_dir s) ∷ copy_plan dist_dir work_dir ss

abbrev pub unpack_plan : Parsed → SourceControl → Bytes → Plan
unpack_plan p c dist_dir =
    need (open_dir dist_dir)
    ∷ need (open_dir p.work_dir)
    ∷ (copy_plan dist_dir p.work_dir c.sources ++ exec_plan (unpack_argv p c))

abbrev pub build_plan : Parsed → SourceControl → Bytes → Plan
build_plan p c out_dir =
    need (setenv (codes "PKG_INSTDIR") (install_dir p out_dir)) ∷ exec_plan (build_argv p c)

abbrev pub nameless_plan : Plan
nameless_plan = need undefined ∷ refuse ∷ []

abbrev pub bins_plan : Parsed → Bytes → Bytes → List SourceControlBin → Plan
bins_plan p out_dir version [] = []
bins_plan p out_dir version (sb ∷ sbs) =
    with_given sb.package_name nameless_plan
      (λ name. exec_plan (bin_argv p out_dir version name) ++ bins_plan p out_dir version sbs)

abbrev pub given_plan : Option Bytes → (Bytes → Plan) → Plan
given_plan dir f = with_given dir (refuse ∷ []) f

abbrev pub when_plan : Bool → Plan → Plan
when_plan true es = es
when_plan false es = []

abbrev pub source_plan : Parsed → SourceControl → Bytes → Bytes → Bytes → Plan
source_plan p c source src_version version =
    need (setenv (codes "PKG_NAME") source)
    ∷ need (setenv (codes "PKG_SRCVERSION") src_version)
    ∷ need (setenv (codes "PKG_VERSION") version)
    ∷ need (setenv (codes "PKG_DIR") (codes "/packages/" ++ (source ++ (codes "/" ++ version))))
    ∷ need (chdir p.work_dir)
    ∷ (when_plan p.opts.do_unpack (given_plan p.opts.dist_dir (unpack_plan p c))
        ++ (when_plan p.opts.do_build (given_plan p.opts.out_dir (build_plan p c))
            ++ when_plan p.opts.do_gencontrol
                (given_plan p.opts.out_dir (λ out_dir. bins_plan p out_dir version c.bins))))

run_exec-plan : (argv : List Bytes) → Follows (run_exec argv) (exec_plan argv)
unfolding run_exec
run_exec-plan argv = then_entry (need (fork_exec argv)) (entry-Follows (need (wait argv)))

with_given-plan :
    (dir : Option Bytes) {m : M Call (Unit {0})} {f : Bytes → M Call (Unit {0})} {es : Plan}
    {g : Bytes → Plan}
    → Follows m es
    → ((d : Bytes) → Follows (f d) (g d))
    → Follows (with_given dir m f) (with_given dir es g)
with_given-plan none h k = h
with_given-plan (some d) h k = k d

with_given-exec :
    (dir : Option Bytes) (argv : List Bytes) (f : Bytes → List Bytes)
    → Follows
        (with_given dir (run_exec argv) (λ d. run_exec (f d)))
        (exec_plan (with_given dir argv f))
with_given-exec none argv f = run_exec-plan argv
with_given-exec (some d) argv f = run_exec-plan (f d)

run_script-plan :
    (p : Parsed) (script deps : List Bytes)
    → Follows (run_script p script deps) (exec_plan (script_argv p script deps))
unfolding run_script run_exec_env
run_script-plan p script deps =
    with_given-exec p.opts.pkg_dir script (λ pkg_dir. env_argv pkg_dir p.work_dir deps script)

copy_files-plan :
    (dist_dir work_dir : Bytes) (ss : List Bytes)
    → Follows (copy_files dist_dir work_dir ss) (copy_plan dist_dir work_dir ss)
unfolding copy_files copy_file
copy_files-plan dist_dir work_dir [] = nothing-Follows
copy_files-plan dist_dir work_dir (s ∷ ss) =
    then_entry (need (linkat dist_dir s work_dir s)) (copy_files-plan dist_dir work_dir ss)

unpack-plan :
    (p : Parsed) (c : SourceControl)
    → Follows (unpack p c) (given_plan p.opts.dist_dir (unpack_plan p c))
unfolding unpack
unpack-plan p c = with_given-plan p.opts.dist_dir (entry-Follows refuse) (λ dist_dir.
    then_entry (need (open_dir dist_dir)) (
      then_entry (need (open_dir p.work_dir)) (
        then-Follows (copy_files-plan dist_dir p.work_dir c.sources)
          (run_script-plan p (codes "./unpack.sh" ∷ []) c.unpack_depend))))

build-plan :
    (p : Parsed) (c : SourceControl)
    → Follows (build p c) (given_plan p.opts.out_dir (build_plan p c))
unfolding build
build-plan p c = with_given-plan p.opts.out_dir (entry-Follows refuse) (λ out_dir.
    then_entry (need (setenv (codes "PKG_INSTDIR") (install_dir p out_dir)))
      (run_script-plan p (codes "./build.sh" ∷ []) c.build_depend))

gencontrol_bins-plan :
    (p : Parsed) (out_dir version : Bytes) (sbs : List SourceControlBin)
    → Follows (gencontrol_bins p out_dir version sbs) (bins_plan p out_dir version sbs)
unfolding gencontrol_bins
gencontrol_bins-plan p out_dir version [] = nothing-Follows
gencontrol_bins-plan p out_dir version (sb ∷ sbs) =
    with_given-plan sb.package_name (then_entry (need undefined) (entry-Follows refuse)) (λ name.
      then-Follows (run_exec-plan (bin_argv p out_dir version name))
        (gencontrol_bins-plan p out_dir version sbs))

gencontrol-plan :
    (p : Parsed) (version : Bytes) (c : SourceControl)
    → Follows
        (gencontrol p version c)
        (given_plan p.opts.out_dir (λ out_dir. bins_plan p out_dir version c.bins))
unfolding gencontrol
gencontrol-plan p version c =
    with_given-plan p.opts.out_dir (entry-Follows refuse)
      (λ out_dir. gencontrol_bins-plan p out_dir version c.bins)

when-plan :
    (b : Bool) {m : M Call (Unit {0})} {es : Plan}
    → Follows m es
    → Follows (when b m) (when_plan b es)
when-plan true h = h
when-plan false h = nothing-Follows

pub build_source-plan :
    (p : Parsed) (c : SourceControl) (source src_version : Bytes)
    → Follows (build_source p c source src_version) (
        source_plan p c source src_version
          (binary_version p.opts.ver_mode src_version p.opts.ver_param))
unfolding build_source
build_source-plan p c source src_version =
    let version = binary_version p.opts.ver_mode src_version p.opts.ver_param in
    then_entry (need (setenv (codes "PKG_NAME") source)) (
      then_entry (need (setenv (codes "PKG_SRCVERSION") src_version)) (
        then_entry (need (setenv (codes "PKG_VERSION") version)) (
          then_entry
            (need
              (setenv (codes "PKG_DIR") (codes "/packages/" ++ (source ++ (codes "/" ++ version)))))
            (then_entry (need (chdir p.work_dir)) (
              then-Follows (when-plan p.opts.do_unpack (unpack-plan p c)) (
                then-Follows (when-plan p.opts.do_build (build-plan p c))
                  (when-plan p.opts.do_gencontrol (gencontrol-plan p version c))))))))
