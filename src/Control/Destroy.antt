-- ===== src/Control/Destroy.antt =====
-- control_destroy and source_control_destroy of tools/control.c, on the memory.
use static_distro.Shared.{ℕ, ◌≤◌, ◌≡◌, List, [], ◌∷◌, ◌++◌, some, refl, length}
use static_distro.Memory.{
  Pointer, deref, Block, Heap, M, done, pure, ◌>>=◌, ◌>>◌, load, free, list_loop, text,
  control_dependency, control_source, control_built_from, control_block, source_control_block,
  source_control_bin,
}
use static_distro.Memory.Owned.{
  parts, rest, nullable, Owned, Distinct, without, Distinct-left, Distinct-apart, without-apart,
  Owned-frame,
}
use static_distro.Memory.Frees.{
  Releases, Destroys, load-Destroys, free-Destroys, next-Destroys, list-Destroys, text-Destroys,
  Destroys-run, block-Releases, loop-Releases, Releases-run,
}

-- The bodies of the loops over the lists.
unfoldable pub free_dependency : ℕ → M Pointer
free_dependency cdd = do
  cd ← load control_dependency cdd
  package_name ← load control_dependency cdd
  free text package_name.package_name
  free control_dependency (some cdd)
  pure cd.next

unfoldable pub free_built_from : ℕ → M Pointer
free_built_from cbff = do
  cbf ← load control_built_from cbff
  package_name ← load control_built_from cbff
  free text package_name.package_name
  version ← load control_built_from cbff
  free text version.version
  free control_built_from (some cbff)
  pure cbf.next

unfoldable pub free_source : ℕ → M Pointer
free_source css = do
  cs ← load control_source css
  source ← load control_source css
  free text source.source
  free control_source (some css)
  pure cs.next

unfoldable pub control_destroy : ℕ → ℕ → M (Unit {0})
control_destroy n ctrl = do
  run_depend ← load control_block ctrl
  list_loop free_dependency n run_depend.run_depend
  built_froms ← load control_block ctrl
  list_loop free_built_from n built_froms.built_froms
  package_name ← load control_block ctrl
  free text package_name.package_name
  version ← load control_block ctrl
  free text version.version
  src_package ← load control_block ctrl
  free text src_package.src_package
  src_version ← load control_block ctrl
  free text src_version.src_version
  free control_block (some ctrl)

-- The loop over the dependencies inside is bounded by `n`.
unfoldable pub free_bin : ℕ → ℕ → M Pointer
free_bin n sbb = do
  sb ← load source_control_bin sbb
  run_depend ← load source_control_bin sbb
  list_loop free_dependency n run_depend.run_depend
  package_name ← load source_control_bin sbb
  free text package_name.package_name
  free source_control_bin (some sbb)
  pure sb.next

unfoldable pub source_control_destroy : ℕ → ℕ → M (Unit {0})
source_control_destroy n sc = do
  build_depend ← load source_control_block sc
  list_loop free_dependency n build_depend.build_depend
  sources ← load source_control_block sc
  list_loop free_source n sources.sources
  bins ← load source_control_block sc
  list_loop (free_bin n) n bins.bins
  source ← load source_control_block sc
  free text source.source
  version ← load source_control_block sc
  free text version.version
  free source_control_block (some sc)

module _ {n : ℕ} where
  dependencies-Releases :
      (p : Pointer) → Releases n (list_loop free_dependency n p) ((control_dependency, p) ∷ [])
  unfolding free_dependency rest parts
  dependencies-Releases =
      loop-Releases (λ f. refl)
        λ a f. load-Destroys (text-Destroys (λ c. c.package_name) (next-Destroys))

  built_froms-Releases :
      (p : Pointer) → Releases n (list_loop free_built_from n p) ((control_built_from, p) ∷ [])
  unfolding free_built_from rest parts
  built_froms-Releases =
      loop-Releases (λ f. refl)
        λ a f.
          load-Destroys
            (text-Destroys (λ c. c.package_name) (text-Destroys (λ c. c.version) (next-Destroys)))

  sources-Releases :
      (p : Pointer) → Releases n (list_loop free_source n p) ((control_source, p) ∷ [])
  unfolding free_source rest parts
  sources-Releases =
      loop-Releases (λ f. refl) λ a f. load-Destroys (text-Destroys (λ c. c.source) (next-Destroys))

  bins-Releases :
      (p : Pointer) → Releases n (list_loop (free_bin n) n p) ((source_control_bin, p) ∷ [])
  unfolding free_bin rest parts
  bins-Releases =
      loop-Releases (λ f. refl)
        λ a f. load-Destroys (
          list-Destroys (λ c. c.run_depend) dependencies-Releases
            (text-Destroys (λ c. c.package_name) (next-Destroys)))

  control_destroy-Destroys :
      (ctrl : ℕ) (f : Block control_block)
      → Destroys n control_block ctrl f (control_destroy n ctrl) tt (parts control_block f)
  unfolding control_destroy parts
  control_destroy-Destroys ctrl f =
      list-Destroys (λ c. c.run_depend) dependencies-Releases
        (list-Destroys (λ c. c.built_froms) built_froms-Releases
          (text-Destroys (λ c. c.package_name)
            (text-Destroys (λ c. c.version)
              (text-Destroys (λ c. c.src_package)
                (text-Destroys (λ c. c.src_version) (free-Destroys))))))

  pub control-Releases :
      (p : Pointer) → Releases n (deref p (control_destroy n)) ((control_block, p) ∷ [])
  unfolding rest nullable
  control-Releases = block-Releases refl (λ f. refl) control_destroy-Destroys

  source_control_destroy-Destroys :
      (sc : ℕ) (f : Block source_control_block)
      → Destroys n source_control_block sc f
          (source_control_destroy n sc)
          tt
          (parts source_control_block f)
  unfolding source_control_destroy parts
  source_control_destroy-Destroys sc f =
      list-Destroys (λ c. c.build_depend) dependencies-Releases
        (list-Destroys (λ c. c.sources) sources-Releases
          (list-Destroys (λ c. c.bins) bins-Releases
            (text-Destroys (λ c. c.source) (text-Destroys (λ c. c.version) (free-Destroys)))))

-- On a control file in memory, whose blocks are all different, with fuel for as many blocks as these
-- are, control_destroy frees every one of them once, and no other, and reads none that is freed.
pub control_destroy-without :
    (n ctrl : ℕ) (h : Heap) (xs : List ℕ)
    → Owned h ((control_block, some ctrl) ∷ []) xs
    → Distinct xs
    → length xs ≤ n
    → control_destroy n ctrl h ≡ done tt (without xs h)
control_destroy-without n ctrl = Releases-run (control-Releases (some ctrl))

-- On a source control file in memory, whose blocks are all different, with fuel for as many blocks as
-- it frees, source_control_destroy frees the blocks of its other pointers and its own, once each,
-- and no other, and reads none that is freed; the list of `unpack_depend` stays allocated.
pub source_control_destroy-without :
    (n sc : ℕ) (f : Block source_control_block) (h : Heap) (xs us : List ℕ)
    → h source_control_block sc ≡ some f
    → Owned h (parts source_control_block f) xs
    → Owned h ((control_dependency, f.unpack_depend) ∷ []) us
    → Distinct ((xs ++ (sc ∷ [])) ++ us)
    → length xs ≤ n
    → (source_control_destroy n sc h ≡ done tt (without (xs ++ (sc ∷ [])) h))
      × Owned (without (xs ++ (sc ∷ [])) h) ((control_dependency, f.unpack_depend) ∷ []) us
source_control_destroy-without n sc f h xs us e o u d b =
    let freed = xs ++ (sc ∷ []) in
    (
      Destroys-run (source_control_destroy-Destroys sc f) h xs e o (Distinct-left freed us d) b,
      Owned-frame (λ k a w. without-apart freed h k a (Distinct-apart freed us d a w)) u,
    )
