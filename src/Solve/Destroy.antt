-- ===== src/Solve/Destroy.antt =====
-- solve_destroy of tools/solve.c, on the memory.
use static_distro.Shared.{ℕ, ◌≤◌, ◌≡◌, List, [], ◌∷◌, some, refl, length}
use static_distro.Memory.{
  Pointer, deref, Heap, M, done, pure, ◌>>=◌, ◌>>◌, load, free, list_loop, text, solve_dependency,
  solve_version, solve_package, solve_problem,
}
use static_distro.Memory.Owned.{parts, rest, nullable, Owned, Distinct, without}
use static_distro.Memory.Frees.{
  Releases, Releases-run, load-Destroys, list-Destroys, text-Destroys, free-Destroys, next-Destroys,
  loop-Releases, block-Releases,
}

-- The bodies of the three loops; the loops inside are bounded by `n`.
unfoldable pub free_dep : ℕ → M Pointer
free_dep dep = do
  dep_next ← load solve_dependency dep
  constraint ← load solve_dependency dep
  free text constraint.constraint
  free solve_dependency (some dep)
  pure dep_next.next

unfoldable pub free_ver : ℕ → ℕ → M Pointer
free_ver n ver = do
  dependencies ← load solve_version ver
  list_loop free_dep n dependencies.dependencies
  ver_next ← load solve_version ver
  version ← load solve_version ver
  free text version.version
  free solve_version (some ver)
  pure ver_next.next

unfoldable pub free_pkg : ℕ → ℕ → M Pointer
free_pkg n pkg = do
  available ← load solve_package pkg
  list_loop (free_ver n) n available.available
  pkg_next ← load solve_package pkg
  name ← load solve_package pkg
  free text name.name
  free solve_package (some pkg)
  pure pkg_next.next

unfoldable pub solve_destroy : ℕ → ℕ → M (Unit {0})
solve_destroy n p = do
  packages_first ← load solve_problem p
  list_loop (free_pkg n) n packages_first.packages_first
  free solve_problem (some p)

module _ {n : ℕ} where
  dependencies-Releases :
      (p : Pointer) → Releases n (list_loop free_dep n p) ((solve_dependency, p) ∷ [])
  unfolding free_dep rest parts
  dependencies-Releases =
      loop-Releases (λ f. refl)
        λ a f. load-Destroys (text-Destroys (λ c. c.constraint) next-Destroys)

  versions-Releases :
      (p : Pointer) → Releases n (list_loop (free_ver n) n p) ((solve_version, p) ∷ [])
  unfolding free_ver rest parts
  versions-Releases =
      loop-Releases (λ f. refl)
        λ a f.
          list-Destroys (λ c. c.dependencies) dependencies-Releases
            (load-Destroys (text-Destroys (λ c. c.version) next-Destroys))

  packages-Releases :
      (p : Pointer) → Releases n (list_loop (free_pkg n) n p) ((solve_package, p) ∷ [])
  unfolding free_pkg rest parts
  packages-Releases =
      loop-Releases (λ f. refl)
        λ a f.
          list-Destroys (λ c. c.available) versions-Releases
            (load-Destroys (text-Destroys (λ c. c.name) next-Destroys))

  problem-Releases :
      (p : Pointer) → Releases n (deref p (solve_destroy n)) ((solve_problem, p) ∷ [])
  unfolding solve_destroy rest parts nullable
  problem-Releases =
      block-Releases refl (λ f. refl)
        λ a f. list-Destroys (λ c. c.packages_first) packages-Releases free-Destroys

-- On a problem in memory, whose blocks are all different, with fuel for as many blocks as these are,
-- solve_destroy frees every one of them once, and no other, and reads none that is freed.
pub solve_destroy-without :
    (n p : ℕ) (h : Heap) (xs : List ℕ)
    → Owned h ((solve_problem, some p) ∷ []) xs
    → Distinct xs
    → length xs ≤ n
    → solve_destroy n p h ≡ done tt (without xs h)
solve_destroy-without n p = Releases-run (problem-Releases (some p))
