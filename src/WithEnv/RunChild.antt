-- ===== src/WithEnv/RunChild.antt =====
-- tools/withenv.c: `run_child` and what it calls. Closing files is left out.
pub mod Plan
pub mod Mounted
use static_distro.Shared.Calls.{
  M, ◌>>=◌, ◌>>◌, must, must_or_exists, just_call, follow, pure, give_up,
}
use static_distro.Shared.{ℕ, Bool, true, false, List, [], ◌∷◌, Option, none, some, Bytes, codes}
use static_distro.WithEnv.{EnvPackage, Mount, EnvOpts, parse_opts, path_parts}

-- The calls. The one `link_tree` stands for all that `link_tree` does for a directory, into the
-- directory of the second name.
pub data Call : Type 0 where
  umask : ℕ → Call
  mount_tmpfs remount_ro chroot chdir open_dir : Bytes → Call
  mkdir : Bytes → ℕ → Call
  mount_bind link_tree symlink : Bytes → Bytes → Call
  mount_proc : Call
  exec : List Bytes → Call

-- The modes 0555, 0755 and 0777.
abbrev pub read_mode : ℕ
read_mode = 365

abbrev pub write_mode : ℕ
write_mode = 493

abbrev pub all_mode : ℕ
all_mode = 511

abbrev pub on_path : Option Bytes → (Bytes → M Call (Unit {0})) → M Call (Unit {0})
on_path none m = give_up
on_path (some path) m = m path

unfoldable pub mkdir_parts : List Bytes → ℕ → M Call (Unit {0})
mkdir_parts parts mode = on_path (path_parts parts) (λ path. must (mkdir path mode))

-- `mkdir_parts`, with the error EEXIST left out of account.
unfoldable pub mkdir_parts_or_exists : List Bytes → ℕ → M Call (Unit {0})
mkdir_parts_or_exists parts mode =
    on_path (path_parts parts) (λ path. must_or_exists (mkdir path mode))

abbrev pub remount : Bool → Bytes → M Call (Unit {0})
remount true target = must (remount_ro target)
remount false target = pure tt

unfoldable pub mountbind_parts : List Bytes → List Bytes → Bool → M Call (Unit {0})
mountbind_parts src target ro = on_path (path_parts src) (λ src_path.
    on_path (path_parts target)
      (λ target_path. must (mount_bind src_path target_path) >> remount ro target_path))

unfoldable pub bind_mounts : Bytes → List Mount → M Call (Unit {0})
bind_mounts root [] = pure tt
bind_mounts root (m ∷ ms) =
    let parts = root ∷ codes "mnt" ∷ m.name ∷ [] in
    do mkdir_parts parts read_mode; mountbind_parts (m.hostdir ∷ []) parts m.ro; bind_mounts root ms

unfoldable pub bind_packages : Bytes → Bytes → List EnvPackage → M Call (Unit {0})
bind_packages root packagedir [] = pure tt
bind_packages root packagedir (p ∷ ps) =
    let parts = root ∷ codes "packages" ∷ p.name ∷ p.version ∷ [] in
    do
      mkdir_parts_or_exists (root ∷ codes "packages" ∷ p.name ∷ []) read_mode
      mkdir_parts parts read_mode
      mountbind_parts (packagedir ∷ p.name ∷ p.version ∷ []) parts true
      bind_packages root packagedir ps

unfoldable pub link_package_tree : EnvPackage → Bytes → M Call (Unit {0})
link_package_tree p tree =
    on_path (path_parts (codes "/packages" ∷ p.name ∷ p.version ∷ tree ∷ []))
      (λ path. follow (open_dir path) (link_tree path tree))

-- The loop of `link_packages`.
unfoldable pub link_each : List EnvPackage → M Call (Unit {0})
link_each [] = pure tt
link_each (p ∷ ps) = do
  link_package_tree p (codes "bin")
  link_package_tree p (codes "lib")
  link_package_tree p (codes "include")
  link_each ps

unfoldable pub link_packages : List EnvPackage → M Call (Unit {0})
link_packages packages = do
  must (mkdir (codes "/bin") write_mode)
  must (mkdir (codes "/lib") write_mode)
  must (mkdir (codes "/include") write_mode)
  must (open_dir (codes "/bin"))
  must (open_dir (codes "/lib"))
  must (open_dir (codes "/include"))
  link_each packages

unfoldable pub create_usr_links : M Call (Unit {0})
create_usr_links = do
  must (mkdir (codes "/usr") write_mode)
  must (symlink (codes "/bin") (codes "/usr/bin"))
  must (symlink (codes "/lib") (codes "/usr/lib"))
  must (symlink (codes "/include") (codes "/usr/include"))

-- The directories in the new root, and the mounts of `/dev` and `/sys`.
unfoldable pub root_dirs : Bytes → M Call (Unit {0})
root_dirs root = do
  mkdir_parts (root ∷ codes "dev" ∷ []) read_mode
  mkdir_parts (root ∷ codes "proc" ∷ []) read_mode
  mkdir_parts (root ∷ codes "sys" ∷ []) read_mode
  mkdir_parts (root ∷ codes "tmp" ∷ []) all_mode
  mkdir_parts (root ∷ codes "mnt" ∷ []) read_mode
  mkdir_parts (root ∷ codes "packages" ∷ []) write_mode
  mountbind_parts (codes "/dev" ∷ []) (root ∷ codes "dev" ∷ []) false
  mountbind_parts (codes "/sys" ∷ []) (root ∷ codes "sys" ∷ []) false

unfoldable pub bind_work : Bytes → Option Bytes → M Call (Unit {0})
bind_work root none = pure tt
bind_work root (some workdir) = do
  mkdir_parts (root ∷ codes "work" ∷ []) write_mode
  mountbind_parts (workdir ∷ []) (root ∷ codes "work" ∷ []) false

abbrev pub change_dir : Option Bytes → M Call (Unit {0})
change_dir none = pure tt
change_dir (some dir) = must (chdir dir)

-- `run_child`; the process is replaced if the last call succeeds.
unfoldable pub run_child : Bytes → EnvOpts → List Bytes → M Call (Unit {0})
run_child root o cmd = do
  just_call (umask 0)
  must (mount_tmpfs root)
  root_dirs root
  bind_work root o.workdir
  bind_mounts root o.mounts
  bind_packages root o.packagedir o.packages
  must (chroot root)
  must (chdir (codes "/"))
  link_packages o.packages
  must mount_proc
  create_usr_links
  just_call (umask 18)
  change_dir o.new_cwdir
  must (exec cmd)

-- `main`, where `mkdtemp` makes the directory for the new root.
unfoldable pub withenv : Option Bytes → List Bytes → M Call (Unit {0})
withenv mkdtemp args = elim (parse_opts args) [
  | none ↦ give_up
  | some (o, cmd) ↦ on_path mkdtemp (λ root. run_child root o cmd)
]
