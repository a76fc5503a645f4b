-- ===== src/WithEnv.antt =====
-- tools/withenv.c: the options, and the paths that are built from parts. Allocation is taken to
-- succeed.
pub mod Paths
pub mod LinkTree
pub mod RunChild
mod Tests
use static_distro.LibC.Getopt.{Event, opt, opt_arg, bad, getopt, fold_events}
use static_distro.LibC.{cut_at}
use static_distro.Shared.{
  ℕ, ◌+◌, Bool, true, false, List, [], ◌∷◌, ◌++◌, Option, none, some, ◌>>=◌, ltb, ◌==◌,
  if◌then◌else◌, length, str_eq, Bytes, codes,
}

pub record EnvPackage : Type 0 where
  pub name : Bytes
  pub version : Bytes

pub record Mount : Type 0 where
  pub name : Bytes
  pub hostdir : Bytes
  pub ro : Bool

-- The global variables that the options set.
pub record EnvOpts : Type 0 where
  pub packagedir : Bytes
  pub workdir : Option Bytes
  pub new_cwdir : Option Bytes
  pub packages : List EnvPackage
  pub mounts : List Mount

abbrev pub default_opts : EnvOpts
default_opts = record {
  packagedir = codes "/packages";
  workdir = none;
  new_cwdir = none;
  packages = [];
  mounts = [];
}

-- `case 'p'`
unfoldable pub package_option : EnvOpts → Bytes → Option EnvOpts
package_option o arg = elim (cut_at b',' arg) [
  | none ↦ none
  | some (name, version) ↦
      some (record o { packages = record { name = name; version = version } ∷ o.packages })
]

-- The permissions of `case 'm'`
unfoldable pub read_only : Bytes → Option Bool
read_only perm =
    if str_eq perm (codes "ro")
    then some true
    else if str_eq perm (codes "rw")
    then some false
    else none

-- `case 'm'`
unfoldable pub mount_option : EnvOpts → Bytes → Option EnvOpts
mount_option o arg = do
  (name, dir) ← cut_at b':' arg
  (hostdir, ro) ← elim (cut_at b':' dir) [
    | none ↦ some (dir, false)
    | some (dir', perm) ↦ (do ro ← read_only perm; some (dir', ro))
  ]
  some (record o { mounts = record { name = name; hostdir = hostdir; ro = ro } ∷ o.mounts })

-- The switch of `parse_opts`. No other letter than these comes with an argument.
unfoldable pub option_switch : EnvOpts → Event → Option EnvOpts
option_switch o (opt c) = none
option_switch o (bad c) = none
option_switch o (opt_arg c arg) =
    if c == b'd'
    then some (record o { packagedir = arg })
    else if c == b'w'
    then some (record o { workdir = some arg })
    else if c == b'c'
    then some (record o { new_cwdir = some arg })
    else if c == b'p'
    then package_option o arg
    else if c == b'm'
    then mount_option o arg
    else none

-- With the command at the end; `none` is the return value -1.
abbrev pub with_command : List Bytes → EnvOpts → Option (EnvOpts × List Bytes)
with_command [] o = none
with_command (c ∷ cmd) o = some (o, c ∷ cmd)

unfoldable pub parse_opts : List Bytes → Option (EnvOpts × List Bytes)
parse_opts args =
    let (events, operands) = getopt true (codes "d:w:p:c:m:") args in
    do o ← fold_events option_switch default_opts events; with_command operands o

-- `path_parts`
abbrev pub path_max : ℕ
path_max = 4096

-- The loop, behind the first part if the flag is set: what it writes to the buffer from `cur` on. It
-- compares each part by itself with what is available.
unfoldable pub path_loop : Bool → List Bytes → Option Bytes
path_loop behind [] = some []
path_loop behind (part ∷ parts) =
    if ltb path_max (length part + (if behind then 1 else 0))
    then none
    else elim (path_loop true parts) [
      | none ↦ none
      | some rest ↦ some ((if behind then codes "/" else []) ++ (part ++ rest))
    ]

unfoldable pub path_parts : List Bytes → Option Bytes
path_parts parts = path_loop false parts
