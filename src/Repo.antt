-- ===== src/Repo.antt =====
-- tools/repo.c: the repository of packages, and the control files of their versions.
-- A pointer into the list of packages is the rest of the list. Allocation is taken to succeed.
pub mod GetPkg
pub mod Source
pub mod Main
pub mod Closed
pub mod Cache
pub mod Example
pub mod Destroy
mod Tests
use static_distro.Control.{Control, control_parsefd}
use static_distro.ControlParse.{File}
use static_distro.Shared.{
  ℕ, Bool, true, false, List, [], ◌∷◌, Option, none, some, ◌==◌, if◌then◌else◌, str_eq, Bytes,
}

pub record RepoVersion : Type 0 where
  pub version : Bytes
  pub control : Control

pub record RepoPackage : Type 0 where
  pub name : Bytes
  pub versions : List RepoVersion

-- What `openat` finds under an entry of a package's directory: no directory that can be opened, one
-- without a control file that can be opened, or the control file.
pub data VersionDir : Type 0 where
  no_dir no_control : VersionDir
  control_file : File → VersionDir

pub record Dirent : Type 0 where
  pub d_name : Bytes
  pub dir : VersionDir

-- The file system below `repofd`: the entries of a package's directory, in the order in which
-- `readdir` returns them, or `none` where it cannot be opened.
abbrev pub Disk : Type 0
Disk = Bytes → Option (List Dirent)

pub record Repo : Type 0 where
  pub disk : Disk
  pub packages : List RepoPackage

-- `repo_init` on a path that can be opened
unfoldable pub repo_init : Disk → Repo
repo_init disk = record { disk = disk; packages = [] }

unfoldable pub package_lookup : List RepoPackage → Bytes → List RepoPackage
package_lookup [] name = []
package_lookup (pkg ∷ pkgs) name =
    let rest = package_lookup pkgs name in if str_eq pkg.name name then pkg ∷ pkgs else rest

abbrev pub is_hidden : Bytes → Bool
is_hidden [] = false
is_hidden (c ∷ cs) = c == b'.'

-- The control file of an entry that is a version.
unfoldable pub entry_control : Dirent → Option Control
entry_control de = if is_hidden de.d_name then none else elim de.dir [
  | no_dir ↦ none
  | no_control ↦ none
  | control_file f ↦ control_parsefd (some f)
]

-- The loop over the directory; each version is put in front of those before it.
unfoldable pub read_versions : List RepoVersion → List Dirent → List RepoVersion
read_versions vers [] = vers
read_versions vers (de ∷ des) = elim (entry_control de) [
  | none ↦ read_versions vers des
  | some c ↦ read_versions (record { version = de.d_name; control = c } ∷ vers) des
]

-- The part of `repo_package_get` behind the lookup. `[]` is the null pointer.
unfoldable pub repo_package_load : Repo → Bytes → Repo × List RepoPackage
repo_package_load repo name = elim (repo.disk name) [
  | none ↦ (repo, [])
  | some des ↦
      let pkgs = record { name = name; versions = read_versions [] des } ∷ repo.packages in
      (record repo { packages = pkgs }, pkgs)
]

unfoldable pub repo_package_get : Repo → Bytes → Repo × List RepoPackage
repo_package_get repo name = elim (package_lookup repo.packages name) [
  | [] ↦ repo_package_load repo name
  | pkg ∷ pkgs ↦ (repo, pkg ∷ pkgs)
]
