-- ===== src/WithEnv/RunChild/Plan.antt =====
-- The calls that tools/withenv.c makes on the way to the command.
use static_distro.Shared.Calls.{M}
use static_distro.Shared.Plans.{
  Entry, need, make, any, found_then, refuse, Follows, then-Follows, nothing-Follows, entry-Follows,
  then_entry,
}
use static_distro.Shared.{
  ℕ, Bool, true, false, List, [], ◌∷◌, ◌++◌, Option, none, some, ◌≡◌, append_assoc, Bytes, codes,
}
use static_distro.WithEnv.RunChild.{
  Call, umask, mount_tmpfs, remount_ro, chroot, chdir, open_dir, mkdir, mount_bind, link_tree,
  symlink, mount_proc, exec, read_mode, write_mode, all_mode, mkdir_parts, mkdir_parts_or_exists,
  mountbind_parts, bind_mounts, bind_packages, link_package_tree, link_each, link_packages,
  create_usr_links, root_dirs, bind_work, change_dir, run_child, on_path, remount,
}
use static_distro.WithEnv.{EnvPackage, Mount, EnvOpts, path_parts}

abbrev pub Plan : Type 0
Plan = List (Entry Call)

abbrev pub path_plan : Option Bytes → (Bytes → Plan) → Plan
path_plan none f = refuse ∷ []
path_plan (some path) f = f path

abbrev pub mkdir_plan : List Bytes → ℕ → Plan
mkdir_plan parts mode = path_plan (path_parts parts) (λ path. need (mkdir path mode) ∷ [])

abbrev pub make_plan : List Bytes → ℕ → Plan
make_plan parts mode = path_plan (path_parts parts) (λ path. make (mkdir path mode) ∷ [])

abbrev remount_plan : Bool → Bytes → Plan
remount_plan true target = need (remount_ro target) ∷ []
remount_plan false target = []

abbrev pub mountbind_plan : List Bytes → List Bytes → Bool → Plan
mountbind_plan src target ro = path_plan (path_parts src) (λ src_path.
    path_plan (path_parts target)
      (λ target_path. need (mount_bind src_path target_path) ∷ remount_plan ro target_path))

abbrev pub package_parts : Bytes → EnvPackage → List Bytes
package_parts root p = root ∷ codes "packages" ∷ p.name ∷ p.version ∷ []

abbrev pub host_parts : Bytes → EnvPackage → List Bytes
host_parts packagedir p = packagedir ∷ p.name ∷ p.version ∷ []

-- Each package is mounted, and mounted again for reading only.
abbrev pub packages_plan : Bytes → Bytes → List EnvPackage → Plan
packages_plan root packagedir [] = []
packages_plan root packagedir (p ∷ ps) =
    make_plan (root ∷ codes "packages" ∷ p.name ∷ []) read_mode
    ++ (mkdir_plan (package_parts root p) read_mode
        ++ (mountbind_plan (host_parts packagedir p) (package_parts root p) true
            ++ packages_plan root packagedir ps))

abbrev mount_parts : Bytes → Mount → List Bytes
mount_parts root m = root ∷ codes "mnt" ∷ m.name ∷ []

abbrev mounts_plan : Bytes → List Mount → Plan
mounts_plan root [] = []
mounts_plan root (m ∷ ms) =
    mkdir_plan (mount_parts root m) read_mode
    ++ (mountbind_plan (m.hostdir ∷ []) (mount_parts root m) m.ro ++ mounts_plan root ms)

abbrev link_plan : EnvPackage → Bytes → Plan
link_plan p tree =
    path_plan (path_parts (codes "/packages" ∷ p.name ∷ p.version ∷ tree ∷ []))
      (λ path. found_then (open_dir path) (link_tree path tree) ∷ [])

abbrev links_plan : List EnvPackage → Plan
links_plan [] = []
links_plan (p ∷ ps) =
    link_plan p (codes "bin")
    ++ (link_plan p (codes "lib") ++ (link_plan p (codes "include") ++ links_plan ps))

abbrev dirs_plan : Bytes → Plan
dirs_plan root =
    mkdir_plan (root ∷ codes "dev" ∷ []) read_mode
    ++ (mkdir_plan (root ∷ codes "proc" ∷ []) read_mode
        ++ (mkdir_plan (root ∷ codes "sys" ∷ []) read_mode
            ++ (mkdir_plan (root ∷ codes "tmp" ∷ []) all_mode
                ++ (mkdir_plan (root ∷ codes "mnt" ∷ []) read_mode
                    ++ (mkdir_plan (root ∷ codes "packages" ∷ []) write_mode
                        ++ (mountbind_plan (codes "/dev" ∷ []) (root ∷ codes "dev" ∷ []) false
                            ++ mountbind_plan (codes "/sys" ∷ []) (root ∷ codes "sys" ∷ [])
                                false))))))

abbrev work_plan : Bytes → Option Bytes → Plan
work_plan root none = []
work_plan root (some workdir) =
    mkdir_plan (root ∷ codes "work" ∷ []) write_mode
    ++ mountbind_plan (workdir ∷ []) (root ∷ codes "work" ∷ []) false

abbrev pub change_plan : Option Bytes → Plan
change_plan none = []
change_plan (some dir) = need (chdir dir) ∷ []

abbrev pub root_plan : List EnvPackage → Plan
root_plan packages =
    need (mkdir (codes "/bin") write_mode)
    ∷ need (mkdir (codes "/lib") write_mode)
    ∷ need (mkdir (codes "/include") write_mode)
    ∷ need (open_dir (codes "/bin"))
    ∷ need (open_dir (codes "/lib"))
    ∷ need (open_dir (codes "/include"))
    ∷ links_plan packages

abbrev pub usr_plan : Plan
usr_plan =
    need (mkdir (codes "/usr") write_mode)
    ∷ need (symlink (codes "/bin") (codes "/usr/bin"))
    ∷ need (symlink (codes "/lib") (codes "/usr/lib"))
    ∷ need (symlink (codes "/include") (codes "/usr/include"))
    ∷ []

-- All that happens behind the mounts of the packages.
abbrev pub late_plan : Bytes → EnvOpts → List Bytes → Plan
late_plan root o cmd =
    need (chroot root)
    ∷ need (chdir (codes "/"))
    ∷ (root_plan o.packages
        ++ (need mount_proc
            ∷ (usr_plan ++ (any (umask 18) ∷ (change_plan o.new_cwdir ++ (need (exec cmd) ∷ []))))))

abbrev pub child_plan : Bytes → EnvOpts → List Bytes → Plan
child_plan root o cmd =
    any (umask 0)
    ∷ need (mount_tmpfs root)
    ∷ (dirs_plan root
        ++ (work_plan root o.workdir
            ++ (mounts_plan root o.mounts
                ++ (packages_plan root o.packagedir o.packages ++ late_plan root o cmd))))

-- The part in front of the packages.
abbrev pub mounts_front : Bytes → EnvOpts → Plan
mounts_front root o =
    any (umask 0)
    ∷ need (mount_tmpfs root)
    ∷ (dirs_plan root ++ (work_plan root o.workdir ++ mounts_plan root o.mounts))

pub child_plan-front :
    (root : Bytes) (o : EnvOpts) (cmd : List Bytes)
    → child_plan root o cmd
      ≡ (mounts_front root o ++ packages_plan root o.packagedir o.packages) ++ late_plan root o cmd
child_plan-front root o cmd = simp (append_assoc)

on_path-path_plan :
    (path : Option Bytes) {m : Bytes → M Call (Unit {0})} {f : Bytes → Plan}
    → ((b : Bytes) → Follows (m b) (f b))
    → Follows (on_path path m) (path_plan path f)
on_path-path_plan none h = entry-Follows refuse
on_path-path_plan (some path) h = h path

mkdir_parts-plan :
    (parts : List Bytes) (mode : ℕ) → Follows (mkdir_parts parts mode) (mkdir_plan parts mode)
unfolding mkdir_parts
mkdir_parts-plan parts mode =
    on_path-path_plan (path_parts parts) (λ path. entry-Follows (need (mkdir path mode)))

make_parts-plan :
    (parts : List Bytes) (mode : ℕ)
    → Follows (mkdir_parts_or_exists parts mode) (make_plan parts mode)
unfolding mkdir_parts_or_exists
make_parts-plan parts mode =
    on_path-path_plan (path_parts parts) (λ path. entry-Follows (make (mkdir path mode)))

remount-plan : (ro : Bool) (target : Bytes) → Follows (remount ro target) (remount_plan ro target)
remount-plan true target = entry-Follows (need (remount_ro target))
remount-plan false target = nothing-Follows

mountbind_parts-plan :
    (src target : List Bytes) (ro : Bool)
    → Follows (mountbind_parts src target ro) (mountbind_plan src target ro)
unfolding mountbind_parts
mountbind_parts-plan src target ro = on_path-path_plan (path_parts src) (λ src_path.
    on_path-path_plan (path_parts target) (λ target_path.
      then_entry (need (mount_bind src_path target_path)) (remount-plan ro target_path)))

bind_mounts-plan :
    (root : Bytes) (ms : List Mount) → Follows (bind_mounts root ms) (mounts_plan root ms)
unfolding bind_mounts
bind_mounts-plan root [] = nothing-Follows
bind_mounts-plan root (m ∷ ms) = then-Follows (mkdir_parts-plan (mount_parts root m) read_mode) (
    then-Follows (mountbind_parts-plan (m.hostdir ∷ []) (mount_parts root m) m.ro)
      (bind_mounts-plan root ms))

bind_packages-plan :
    (root packagedir : Bytes) (ps : List EnvPackage)
    → Follows (bind_packages root packagedir ps) (packages_plan root packagedir ps)
unfolding bind_packages
bind_packages-plan root packagedir [] = nothing-Follows
bind_packages-plan root packagedir (p ∷ ps) =
    then-Follows (make_parts-plan (root ∷ codes "packages" ∷ p.name ∷ []) read_mode) (
      then-Follows (mkdir_parts-plan (package_parts root p) read_mode) (
        then-Follows (mountbind_parts-plan (host_parts packagedir p) (package_parts root p) true)
          (bind_packages-plan root packagedir ps)))

link_package_tree-plan :
    (p : EnvPackage) (tree : Bytes) → Follows (link_package_tree p tree) (link_plan p tree)
unfolding link_package_tree
link_package_tree-plan p tree =
    on_path-path_plan (path_parts (codes "/packages" ∷ p.name ∷ p.version ∷ tree ∷ []))
      (λ path. entry-Follows (found_then (open_dir path) (link_tree path tree)))

link_each-plan : (ps : List EnvPackage) → Follows (link_each ps) (links_plan ps)
unfolding link_each
link_each-plan [] = nothing-Follows
link_each-plan (p ∷ ps) = then-Follows (link_package_tree-plan p (codes "bin")) (
    then-Follows (link_package_tree-plan p (codes "lib"))
      (then-Follows (link_package_tree-plan p (codes "include")) (link_each-plan ps)))

link_packages-plan : (ps : List EnvPackage) → Follows (link_packages ps) (root_plan ps)
unfolding link_packages
link_packages-plan ps = then_entry (need (mkdir (codes "/bin") write_mode)) (
    then_entry (need (mkdir (codes "/lib") write_mode)) (
      then_entry (need (mkdir (codes "/include") write_mode)) (
        then_entry (need (open_dir (codes "/bin"))) (
          then_entry (need (open_dir (codes "/lib")))
            (then_entry (need (open_dir (codes "/include"))) (link_each-plan ps))))))

create_usr_links-plan : Follows create_usr_links usr_plan
unfolding create_usr_links
create_usr_links-plan = then_entry (need (mkdir (codes "/usr") write_mode)) (
    then_entry (need (symlink (codes "/bin") (codes "/usr/bin"))) (
      then_entry (need (symlink (codes "/lib") (codes "/usr/lib")))
        (entry-Follows (need (symlink (codes "/include") (codes "/usr/include"))))))

root_dirs-plan : (root : Bytes) → Follows (root_dirs root) (dirs_plan root)
unfolding root_dirs
root_dirs-plan root = then-Follows (mkdir_parts-plan (root ∷ codes "dev" ∷ []) read_mode) (
    then-Follows (mkdir_parts-plan (root ∷ codes "proc" ∷ []) read_mode) (
      then-Follows (mkdir_parts-plan (root ∷ codes "sys" ∷ []) read_mode) (
        then-Follows (mkdir_parts-plan (root ∷ codes "tmp" ∷ []) all_mode) (
          then-Follows (mkdir_parts-plan (root ∷ codes "mnt" ∷ []) read_mode) (
            then-Follows (mkdir_parts-plan (root ∷ codes "packages" ∷ []) write_mode) (
              then-Follows
                (mountbind_parts-plan (codes "/dev" ∷ []) (root ∷ codes "dev" ∷ []) false)
                (mountbind_parts-plan (codes "/sys" ∷ []) (root ∷ codes "sys" ∷ []) false)))))))

bind_work-plan :
    (root : Bytes) (workdir : Option Bytes)
    → Follows (bind_work root workdir) (work_plan root workdir)
unfolding bind_work
bind_work-plan root none = nothing-Follows
bind_work-plan root (some workdir) =
    then-Follows (mkdir_parts-plan (root ∷ codes "work" ∷ []) write_mode)
      (mountbind_parts-plan (workdir ∷ []) (root ∷ codes "work" ∷ []) false)

change_dir-plan : (dir : Option Bytes) → Follows (change_dir dir) (change_plan dir)
change_dir-plan none = nothing-Follows
change_dir-plan (some dir) = entry-Follows (need (chdir dir))

pub run_child-Follows :
    (root : Bytes) (o : EnvOpts) (cmd : List Bytes)
    → Follows (run_child root o cmd) (child_plan root o cmd)
unfolding run_child
run_child-Follows root o cmd = then_entry (any (umask 0)) (
    then_entry (need (mount_tmpfs root)) (
      then-Follows (root_dirs-plan root) (
        then-Follows (bind_work-plan root o.workdir) (
          then-Follows (bind_mounts-plan root o.mounts) (
            then-Follows (bind_packages-plan root o.packagedir o.packages) (
              then_entry (need (chroot root)) (
                then_entry (need (chdir (codes "/"))) (
                  then-Follows (link_packages-plan o.packages) (
                    then_entry (need mount_proc) (
                      then-Follows create_usr_links-plan (
                        then_entry (any (umask 18)) (
                          then-Follows (change_dir-plan o.new_cwdir)
                            (entry-Follows (need (exec cmd)))))))))))))))
