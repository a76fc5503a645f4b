-- ===== src/PkgBuild/Tests.antt =====
-- Runs of tools/pkgbuild.c, and of the tools that it calls.
use static_distro.Control.{SourceControl}
use static_distro.GenControl.CommandLine
use static_distro.GenControl.{version_override, version_append, version_keep}
use static_distro.LibC.Getopt.{arg_of, operand, scan_word, kind_of, fold_events, getopt}
use static_distro.PkgBuild.Arguments.{length-env_argv, parse_params-gencontrol_argv}
use static_distro.PkgBuild.Environment.{run_exec_env-environment}
use static_distro.PkgBuild.Order.{build_source-order}
use static_distro.PkgBuild.Plan.{unpack_argv, build_argv, bin_argv}
use static_distro.PkgBuild.{
  Parsed, default_opts, flag_switch, arg_switch, option_switch, finish_params, parse_params, Call,
  linkat, fork_exec, wait, run_exec, dependency_args, env_argv, env_argv_room, run_exec_env,
  run_script, copy_file, copy_files, unpack, build, control_out, gencontrol_argv, gencontrol_bins,
  gencontrol, binary_version, build_source,
}
use static_distro.Repo.Example.{disk, answer, answer-done, answer-chosen}
use static_distro.Repo.{Disk}
use static_distro.Shared.Calls.{System, Step, go, stop, ok}
use static_distro.Shared.Plans.Done.{Succeeded, SucceededBefore}
use static_distro.Shared.{
  ◌+◌, ◌<◌, ◌^◌, ◌⊎◌, none, ◌≤◌, Bool, subst, sym, List, [], ◌∷◌, map, Option, some, none, ◌≡◌,
  refl, true, false, if◌then◌else◌, drop, length, All, str_eq, Bytes, codes,
}
use static_distro.Solve.Closed.{IsSolution}
use static_distro.Solve.Results.{chosen_versions}
use static_distro.WithEnv
use static_distro.WithPkgs.Command.{NoComma, no_comma, env_package}
use static_distro.WithPkgs
use mathlib.Core.List.{reverse}
use mathlib.Core.List.Memᴰ.{head}

-- Opens all that a run computes with.
runs : Unit {0}
unfolding kind_of scan_word arg_of getopt fold_events flag_switch arg_switch option_switch
    finish_params parse_params run_exec dependency_args env_argv run_exec_env run_script copy_file
    copy_files unpack build control_out gencontrol_argv gencontrol_bins gencontrol binary_version
    build_source
runs = tt

abbrev absolute : Bytes → Option Bytes
absolute path = some (b'/' ∷ path)

parse_params_runs :
    parse_params absolute
      (codes "-B" ∷ codes "-w" ∷ codes "work" ∷ codes "zlib" ∷ codes "-V-1" ∷ codes "-oout" ∷ [])
    ≡ some (record {
      opts = record default_opts {
        do_build = false;
        work_dir = some (codes "/work");
        out_dir = some (codes "out");
        ver_mode = version_append;
        ver_param = codes "-1";
      };
      work_dir = codes "/work";
      control_path = codes "/zlib";
    })
unfolding runs
parse_params_runs = refl

-- Without a working directory.
parse_params_no_work : parse_params absolute (codes "zlib" ∷ []) ≡ none
unfolding runs
parse_params_no_work = refl

length-env_argv_example :
    ((length (
            env_argv
              (codes "/p")
              (codes "/w")
              (codes "gcc" ∷ codes "musl" ∷ [])
              (codes "./build.sh" ∷ []))
          + 4
        < 2 ^ 31)
      × (env_argv_room (codes "gcc" ∷ codes "musl" ∷ []) (codes "./build.sh" ∷ [])
          ≡ some (
              length (
                env_argv
                  (codes "/p")
                  (codes "/w")
                  (codes "gcc" ∷ codes "musl" ∷ [])
                  (codes "./build.sh" ∷ []))
              + 4)))
    ⊎ ((2 ^ 31
          ≤ length (
              env_argv
                (codes "/p")
                (codes "/w")
                (codes "gcc" ∷ codes "musl" ∷ [])
                (codes "./build.sh" ∷ []))
            + 4)
        × (env_argv_room (codes "gcc" ∷ codes "musl" ∷ []) (codes "./build.sh" ∷ []) ≡ none))
length-env_argv_example =
    length-env_argv (codes "/p") (codes "/w") (codes "gcc" ∷ codes "musl" ∷ [])
      (codes "./build.sh" ∷ [])

abbrev deps : List Bytes
deps = codes "gcc" ∷ codes "musl>=1.1" ∷ []

abbrev opens_all : Bytes → Bool
opens_all path = true

parse_params-gencontrol_argv_example :
    CommandLine.parse_params opens_all
      (drop 1 (gencontrol_argv (codes "1-1") (codes "/o") (codes "/zlib") (codes "zlib-dev")))
    ≡ some (record {
      opts = record {
        ver_mode = version_override;
        ver_param = codes "1-1";
        outf = some (codes "/o");
        bf_extra = [];
      };
      file_name = codes "/zlib";
      package_name = codes "zlib-dev";
    })
parse_params-gencontrol_argv_example =
    parse_params-gencontrol_argv opens_all (codes "1-1") (codes "/o") (codes "zlib")
      (codes "zlib-dev") refl plain
  where
    plain : arg_of (codes "zlib-dev") ≡ operand
    plain = unfold runs in refl

abbrev root : Bytes → Option Disk
root path = if str_eq path (codes "/mnt") then some disk else none

root-opens : root (codes "/mnt") ≡ some disk
unfolding str_eq
root-opens = refl

abbrev env_args : List Bytes
env_args = env_argv (codes "/mnt") (codes "/w") (codes "app" ∷ []) (codes "./build.sh" ∷ [])

run_exec_env-environment_example :
    IsSolution (reverse (codes "app" ∷ [])) answer.1
    × ((argv : List Bytes) × (WithPkgs.withpkgs 3 root (drop 2 env_args)
          ≡ some (WithPkgs.exec argv))
        × (WithEnv.parse_opts (drop 1 argv)
            ≡ some (
              record {
                packagedir = codes "/mnt";
                workdir = some (codes "/w");
                new_cwdir = some (codes "/work");
                packages = reverse (map env_package (chosen_versions answer.1.packages));
                mounts = [];
              },
              codes "./build.sh" ∷ [],
            )))
run_exec_env-environment_example =
    run_exec_env-environment 3 root (codes "/mnt") (codes "w") (codes "/build.sh")
      (codes "app" ∷ []) disk answer.0 answer.1 root-opens answer-done names
  where
    names : All NoComma (chosen_versions answer.1.packages)
    names =
        subst (All NoComma) (sym answer-chosen)
          (no_comma (codes "app") refl, (no_comma (codes "lib") refl, tt))

-- The control file of a package with two distfiles and one binary package.
abbrev source_control : SourceControl
source_control = record {
  source = some (codes "zlib");
  version = some (codes "1.2");
  unpack_depend = codes "tar" ∷ [];
  build_depend = codes "gcc" ∷ [];
  sources = codes "a.tar" ∷ codes "b.patch" ∷ [];
  bins = record { package_name = some (codes "zlib-dev"); run_depend = [] } ∷ [];
}

abbrev params : Parsed
params = record {
  opts = record default_opts {
    work_dir = some (codes "/w");
    dist_dir = some (codes "/d");
    out_dir = some (codes "out");
    pkg_dir = some (codes "/mnt");
  };
  work_dir = codes "/w";
  control_path = codes "/zlib";
}

abbrev willing : System Call
willing calls c = ok

abbrev calls_of : Step Call (Unit {0}) → List Call
calls_of (go a done) = done
calls_of (stop done) = done

abbrev all_calls : List Call
all_calls = calls_of (build_source params source_control (codes "zlib") (codes "1.2") willing [])

build_source-runs :
    build_source params source_control (codes "zlib") (codes "1.2") willing [] ≡ go tt all_calls
unfolding runs
build_source-runs = refl

build_source_calls : length all_calls ≡ 16
unfolding runs
build_source_calls = refl

abbrev zlib_argv : List Bytes
zlib_argv =
    bin_argv params (codes "out") (binary_version version_keep (codes "1.2") []) (codes "zlib-dev")

build_source-order_example :
    SucceededBefore willing
      (linkat (codes "/d") (codes "a.tar") (codes "/w") (codes "a.tar"))
      (fork_exec (unpack_argv params source_control))
      all_calls
    × SucceededBefore willing
        (wait (unpack_argv params source_control))
        (fork_exec (build_argv params source_control))
        all_calls
    × SucceededBefore willing
        (wait (build_argv params source_control))
        (fork_exec zlib_argv)
        all_calls
    × Succeeded willing (wait zlib_argv) all_calls
build_source-order_example =
    build_source-order params source_control (codes "zlib") (codes "1.2") (codes "/d") (codes "out")
      (codes "a.tar") (codes "zlib-dev")
      (record { package_name = some (codes "zlib-dev"); run_depend = [] }) willing all_calls refl
      refl refl refl refl (head refl) (head refl) refl build_source-runs
