-- ===== src/Repo/Destroy.antt =====
-- repo_destroy and package_destroy of tools/repo.c, on the memory.
use static_distro.Shared.{ℕ, ◌≤◌, ◌≡◌, List, [], ◌∷◌, ◌++◌, some, refl, length}
use static_distro.Memory.{
  Pointer, Block, deref, Heap, M, done, pure, ◌>>=◌, ◌>>◌, load, free, list_loop, text, RepoBlock,
  repo_version, repo_package, repo_block,
}
use static_distro.Memory.Owned.{parts, rest, Owned, Distinct, without}
use static_distro.Memory.Frees.{
  Releases, Destroys, Destroys-run, load-Destroys, list-Destroys, text-Destroys, free-Destroys,
  last-Destroys, next-Destroys, loop-Releases,
}
use static_distro.Control.Destroy.{control_destroy, control-Releases}

-- The body of the loop over the versions.
unfoldable pub free_version : ℕ → ℕ → M Pointer
free_version n ver = do
  ver_next ← load repo_version ver
  control ← load repo_version ver
  deref control.control (control_destroy n)
  version ← load repo_version ver
  free text version.version
  free repo_version (some ver)
  pure ver_next.next

unfoldable pub package_destroy : ℕ → ℕ → M (Unit {0})
package_destroy n pkg = do
  versions ← load repo_package pkg
  list_loop (free_version n) n versions.versions
  name ← load repo_package pkg
  free text name.name
  free repo_package (some pkg)

-- The body of the loop over the packages.
unfoldable pub free_package : ℕ → ℕ → M Pointer
free_package n pkg = do pkg_next ← load repo_package pkg; package_destroy n pkg; pure pkg_next.next

-- The result is the descriptor that is closed.
unfoldable pub repo_destroy : ℕ → ℕ → M ℕ
repo_destroy n repo = do
  packages ← load repo_block repo
  list_loop (free_package n) n packages.packages
  repofd ← load repo_block repo
  free repo_block (some repo)
  pure repofd.repofd

module _ {n : ℕ} where
  versions-Releases :
      (p : Pointer) → Releases n (list_loop (free_version n) n p) ((repo_version, p) ∷ [])
  unfolding free_version rest parts
  versions-Releases =
      loop-Releases (λ f. refl)
        λ a f. load-Destroys (
          list-Destroys (λ c. c.control) control-Releases
            (text-Destroys (λ c. c.version) next-Destroys))

  package_destroy-Destroys :
      (pkg : ℕ) (f : Block repo_package)
      → Destroys n repo_package pkg f (package_destroy n pkg) tt (parts repo_package f)
  unfolding package_destroy parts
  package_destroy-Destroys pkg f =
      list-Destroys (λ c. c.versions) versions-Releases (text-Destroys (λ c. c.name) free-Destroys)

  packages-Releases :
      (p : Pointer) → Releases n (list_loop (free_package n) n p) ((repo_package, p) ∷ [])
  unfolding free_package rest
  packages-Releases =
      loop-Releases (λ f. refl) λ a f. load-Destroys (last-Destroys (package_destroy-Destroys a f))

  repo_destroy-Destroys :
      (repo : ℕ) (f : Block repo_block)
      → Destroys n repo_block repo f (repo_destroy n repo) f.repofd (parts repo_block f)
  unfolding repo_destroy parts
  repo_destroy-Destroys repo f =
      list-Destroys (λ c. c.packages) packages-Releases
        (load-Destroys (last-Destroys free-Destroys))

-- On a repository in memory, whose blocks are all different, those of its packages, their versions
-- and their control files included, with fuel for as many blocks as these are, repo_destroy
-- frees every one of them once, and no other, reads none that is freed, and closes the descriptor.
pub repo_destroy-without :
    (n repo : ℕ) (f : RepoBlock) (h : Heap) (xs : List ℕ)
    → h repo_block repo ≡ some f
    → Owned h (parts repo_block f) xs
    → Distinct (xs ++ (repo ∷ []))
    → length xs ≤ n
    → repo_destroy n repo h ≡ done f.repofd (without (xs ++ (repo ∷ [])) h)
repo_destroy-without n repo f = Destroys-run (repo_destroy-Destroys repo f)
