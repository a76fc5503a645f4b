-- ===== src/WithEnv/Tests.antt =====
-- Runs of the options, the paths and the link trees of tools/withenv.c.
use static_distro.LibC.Getopt.{arg_of, scan_word, kind_of, fold_events, getopt}
use static_distro.LibC.{strchr, cut_at}
use static_distro.Shared.{
  ℕ, zero, suc, ◌≤◌, ◌<◌, ◌≡◌, ◌⊎◌, ◌↔◌, refl, true, List, [], ◌∷◌, some, none, length, drop, codes,
  Bytes, arith, if◌then◌else◌, str_eq,
}
use static_distro.Shared.Calls.{System, Answer, Step, go, stop, ok, exists, no_entry}
use static_distro.Shared.Plans.Done.{SucceededBefore}
use static_distro.WithEnv.RunChild.Mounted.{run_child-mounts}
use static_distro.WithEnv.RunChild.{
  Call, umask, mount_tmpfs, remount_ro, chroot, chdir, open_dir, mkdir, mount_bind, symlink,
  mount_proc, exec, mkdir_parts, mkdir_parts_or_exists, mountbind_parts, bind_mounts, bind_packages,
  link_package_tree, link_each, link_packages, create_usr_links, root_dirs, bind_work, run_child,
}
use static_distro.WithEnv.RunChild as RunChild
use mathlib.Core.List.Memᴰ.{head}
use static_distro.WithEnv.LinkTree.Exact.{HasFile, here, deeper, below_all}
use static_distro.WithEnv.LinkTree.Links.{link_tree_exact, link_tree_room}
use static_distro.WithEnv.LinkTree.Lookup.{find_in}
use static_distro.WithEnv.LinkTree.{
  Entries, no_entry, entry, file, dir, Dests, no_dest, dest, link, subdir, linked, failed, lookup,
  put, link_tree,
}
use static_distro.WithEnv.Paths.{
  join, each_fits, path_parts-join, path_parts-within, path_parts_overflow,
}
use static_distro.WithEnv.{
  EnvOpts, package_option, read_only, mount_option, option_switch, parse_opts, path_loop,
  path_parts, path_max,
}

-- Opens all that a run computes with.
runs : Unit {0}
unfolding str_eq strchr kind_of scan_word arg_of getopt fold_events cut_at package_option read_only
    mount_option option_switch parse_opts path_loop path_parts lookup put link_tree find_in
    mkdir_parts mkdir_parts_or_exists mountbind_parts bind_mounts bind_packages link_package_tree
    link_each link_packages create_usr_links root_dirs bind_work run_child
runs = tt

parse_opts_runs :
    parse_opts (
      codes "-w/tmp/w"
      ∷ codes "-p"
      ∷ codes "musl,1.1"
      ∷ codes "-m"
      ∷ codes "src:/usr/src:ro"
      ∷ codes "-p"
      ∷ codes "gcc,9,2"
      ∷ codes "./build.sh"
      ∷ codes "-x"
      ∷ [])
    ≡ some (
      record {
        packagedir = codes "/packages";
        workdir = some (codes "/tmp/w");
        new_cwdir = none;
        packages =
            record { name = codes "gcc"; version = codes "9,2" }
            ∷ record { name = codes "musl"; version = codes "1.1" }
            ∷ [];
        mounts = record { name = codes "src"; hostdir = codes "/usr/src"; ro = true } ∷ [];
      },
      codes "./build.sh" ∷ codes "-x" ∷ [],
    )
unfolding runs
parse_opts_runs = refl

parse_opts_bad_mount : parse_opts (codes "-m" ∷ codes "src:/usr/src:rx" ∷ codes "sh" ∷ []) ≡ none
unfolding runs
parse_opts_bad_mount = refl

path_parts-within_example :
    (path_parts (codes "/tmp/env" ∷ codes "usr" ∷ codes "bin" ∷ [])
      ≡ some (join (codes "/tmp/env" ∷ codes "usr" ∷ codes "bin" ∷ [])))
    × (suc (length (join (codes "/tmp/env" ∷ codes "usr" ∷ codes "bin" ∷ []))) ≤ suc path_max)
path_parts-within_example =
    path_parts-within (codes "/tmp/env") (codes "usr" ∷ codes "bin" ∷ []) (omega arith)

-- A part of this length.
abbrev long : ℕ → Bytes
long zero = []
long (suc n) = b'a' ∷ long n

length-long : (n : ℕ) → length (long n) ≡ n
length-long zero = refl
length-long (suc n) = rw (length-long n)

path_parts_overflow_example :
    (path_parts (long 4000 ∷ long 200 ∷ []) ≡ some (join (long 4000 ∷ long 200 ∷ [])))
    × (suc path_max < suc (length (join (long 4000 ∷ long 200 ∷ []))))
path_parts_overflow_example =
    path_parts_overflow (long 4000) (long 200 ∷ []) refl
      (omega (arith, length-long 4000, length-long 200))

-- A package with a program and a hidden file.
abbrev tree : Entries
tree =
    entry (codes "bin") (dir (entry (codes "sh") file no_entry))
      (entry (codes ".hidden") file (entry (codes "README") file no_entry))

abbrev linked_tree : Dests
linked_tree =
    dest (codes "bin") (subdir (dest (codes "sh") (link (codes "/p/bin/sh")) no_dest))
      (dest (codes "README") (link (codes "/p/README")) no_dest)

link_tree_runs : link_tree (codes "/p") tree no_dest ≡ linked linked_tree
unfolding runs
link_tree_runs = refl

-- A link that is there already is not replaced.
link_tree_exists : link_tree (codes "/q") tree linked_tree ≡ failed linked_tree
unfolding runs
link_tree_exists = refl

link_tree_exact_example :
    (find_in (codes "bin" ∷ codes "sh" ∷ []) (subdir linked_tree) ≡ some (link (codes "/p/bin/sh")))
    ↔ ((find_in (codes "bin" ∷ codes "sh" ∷ []) (subdir no_dest) ≡ some (link (codes "/p/bin/sh")))
        ⊎ (HasFile tree (codes "bin" ∷ codes "sh" ∷ [])
            × (codes "/p/bin/sh" ≡ below_all (codes "/p") (codes "bin" ∷ codes "sh" ∷ []))))
link_tree_exact_example =
    link_tree_exact (codes "/p") tree no_dest linked_tree (codes "bin" ∷ codes "sh" ∷ [])
      (codes "/p/bin/sh") link_tree_runs

link_tree_room_example : length (below_all (codes "/p") (codes "bin" ∷ codes "sh" ∷ [])) ≤ path_max
link_tree_room_example =
    link_tree_room (codes "/p") no_dest linked_tree (deeper refl (here refl)) link_tree_runs

abbrev sh_env : EnvOpts
sh_env = record {
  packagedir = codes "/packages";
  workdir = some (codes "/w");
  new_cwdir = some (codes "/work");
  packages = record { name = codes "musl"; version = codes "1.1" } ∷ [];
  mounts = record { name = codes "src"; hostdir = codes "/usr/src"; ro = true } ∷ [];
}

abbrev sh : List Bytes
sh = codes "sh" ∷ []

-- A system on which no package has a directory `include`.
abbrev answers : Call → Answer
answers (umask m) = ok
answers (mount_tmpfs p) = ok
answers (remount_ro p) = ok
answers (chroot p) = ok
answers (chdir p) = ok
answers (open_dir p) = if str_eq p (codes "/packages/musl/1.1/include") then no_entry else ok
answers (mkdir p m) = if str_eq p (codes "/r/packages/musl") then exists else ok
answers (mount_bind p q) = ok
answers (RunChild.link_tree p q) = ok
answers (symlink p q) = ok
answers mount_proc = ok
answers (exec argv) = ok

abbrev system : System Call
system calls c = answers c

abbrev calls_of : Step Call (Unit {0}) → List Call
calls_of (go a done) = done
calls_of (stop done) = done

abbrev all_calls : List Call
all_calls = calls_of (run_child (codes "/r") sh_env sh system [])

run_child-runs : run_child (codes "/r") sh_env sh system [] ≡ go tt all_calls
unfolding runs
run_child-runs = refl

-- The tree that is not there is not linked.
run_child_links : (length all_calls ≡ 40) × (all_calls ≡ exec sh ∷ drop 1 all_calls)
unfolding runs
run_child_links = (refl, refl)

run_child-mounts_example :
    SucceededBefore system
      (mount_bind
        (join (codes "/packages" ∷ codes "musl" ∷ codes "1.1" ∷ []))
        (join (codes "/r" ∷ codes "packages" ∷ codes "musl" ∷ codes "1.1" ∷ [])))
      (exec sh)
      all_calls
    × SucceededBefore system
        (remount_ro (join (codes "/r" ∷ codes "packages" ∷ codes "musl" ∷ codes "1.1" ∷ [])))
        (exec sh)
        all_calls
run_child-mounts_example =
    run_child-mounts (codes "/r") sh_env sh (record { name = codes "musl"; version = codes "1.1" })
      system [] all_calls (head refl) run_child-runs

path_parts-join_example : path_parts (codes "/tmp/env" ∷ codes "usr" ∷ []) ≡ (
    if each_fits (codes "/tmp/env" ∷ codes "usr" ∷ [])
    then some (join (codes "/tmp/env" ∷ codes "usr" ∷ []))
    else none)
path_parts-join_example = path_parts-join (codes "/tmp/env" ∷ codes "usr" ∷ [])
