-- ===== src/Control/Allocating.antt =====
-- control_parsefd of tools/control.c on the memory, with allocation that may fail. A `char **` or a
-- pointer to the first block of a list is an argument, and part of the result with what the function
-- leaves there; the Boolean of the result is true for the return value 0.
pub mod Lists
pub mod BuiltFroms
pub mod Texts
pub mod Slots
pub mod OneField
pub mod Fields
pub mod Source
mod Tests
use static_distro.ControlParse.{Field, Para}
use static_distro.Control.{one_line, split_space}
use static_distro.Control.Destroy.{control_destroy}
use static_distro.Memory.{
  Pointer, Block, M, pure, ◌>>=◌, ◌>>◌, load, free, text, control_dependency, control_built_from,
  control_block,
}
use static_distro.Memory.Alloc.{Malloc, alloc, alloc_with, strdup, store, slot, link_last}
use static_distro.Shared.{
  ℕ, Bool, true, false, List, [], ◌∷◌, Option, none, some, if◌then◌else◌, Bytes, codes, str_eq,
}

-- The test for a null pointer.
abbrev pub on_pointer : {A : Type 0} → Pointer → M A → (ℕ → M A) → M A
on_pointer none m f = m
on_pointer (some a) m f = f a

abbrev pub next_dependency : Block control_dependency → Pointer → Block control_dependency
next_dependency cd p = record cd { next = p }

abbrev pub next_built_from : Block control_built_from → Pointer → Block control_built_from
next_built_from bf p = record bf { next = p }

-- One round of the loop, up to the new struct; null if the allocation fails.
unfoldable pub new_dependency : Malloc → Bytes → M Pointer
new_dependency malloc line = do
  p ← alloc malloc control_dependency
  on_pointer p (pure none) λ cd. do
    package_name ← strdup malloc line
    f ← load control_dependency cd
    store control_dependency cd (record f { package_name = package_name })
    on_pointer package_name (free control_dependency (some cd) >> pure none) λ _. do
      f ← load control_dependency cd
      store control_dependency cd (record f { next = none })
      pure (some cd)

-- A new struct at the end of a list.
unfoldable pub add_dependency : ℕ → Pointer → ℕ → M Pointer
add_dependency n pcd cd = on_pointer pcd (pure (some cd)) λ first.
    link_last control_dependency (λ f. f.next) next_dependency n first cd >> pure (some first)

unfoldable pub deplist_loop : Malloc → ℕ → List Bytes → Pointer → M (Bool × Pointer)
deplist_loop malloc n [] pcd = pure (true, pcd)
deplist_loop malloc n ([] ∷ ls) pcd = deplist_loop malloc n ls pcd
deplist_loop malloc n ((c ∷ l) ∷ ls) pcd = do
  p ← new_dependency malloc (c ∷ l)
  on_pointer p (pure (false, pcd)) λ cd. add_dependency n pcd cd >>= deplist_loop malloc n ls

unfoldable pub parse_deplist : Malloc → ℕ → Field → Pointer → M (Bool × Pointer)
parse_deplist malloc n pf pcd =
    on_pointer pcd (deplist_loop malloc n pf.lines none) λ _. pure (false, pcd)

-- What is done when the second or third allocation of a round fails.
unfoldable pub drop_built_from : ℕ → M Pointer
drop_built_from bf = do
  f ← load control_built_from bf
  free text f.package_name
  free control_built_from (some bf)
  pure none

unfoldable pub new_built_from : Malloc → Bytes → Bytes → M Pointer
new_built_from malloc name ver = do
  p ←
      alloc_with malloc control_built_from
        (record { package_name = none; version = none; next = none })
  on_pointer p (pure none) λ bf. do
    package_name ← strdup malloc name
    f ← load control_built_from bf
    store control_built_from bf (record f { package_name = package_name })
    on_pointer package_name (drop_built_from bf) λ _. do
      version ← strdup malloc ver
      f ← load control_built_from bf
      store control_built_from bf (record f { version = version })
      on_pointer version (drop_built_from bf) λ _. do
        f ← load control_built_from bf
        store control_built_from bf (record f { next = none })
        pure (some bf)

unfoldable pub add_built_from : ℕ → Pointer → ℕ → M Pointer
add_built_from n pbf bf = on_pointer pbf (pure (some bf)) λ first.
    link_last control_built_from (λ f. f.next) next_built_from n first bf >> pure (some first)

-- With what comes behind the test for a space.
unfoldable pub builtfromlist_loop : Malloc → ℕ → List Bytes → Pointer → M (Bool × Pointer)
builtfromlist_loop malloc n [] pbf = pure (true, pbf)
builtfromlist_loop malloc n ([] ∷ ls) pbf = builtfromlist_loop malloc n ls pbf
builtfromlist_loop malloc n ((c ∷ l) ∷ ls) pbf = elim (split_space (c ∷ l)) [
  | none ↦ pure (false, pbf)
  | some (name, ver) ↦ do
    p ← new_built_from malloc name ver
    on_pointer p (pure (false, pbf))
        λ bf. add_built_from n pbf bf >>= builtfromlist_loop malloc n ls
]

unfoldable pub parse_builtfromlist : Malloc → ℕ → Field → Pointer → M (Bool × Pointer)
parse_builtfromlist malloc n pf pbf =
    on_pointer pbf (builtfromlist_loop malloc n pf.lines none) λ _. pure (false, pbf)

unfoldable pub parse_singleline : Malloc → Field → Pointer → M (Bool × Pointer)
parse_singleline malloc pf ps =
    on_pointer ps
      (elim (one_line pf.lines) [
        | none ↦ pure (false, none)
        | some l ↦ do
          p ← strdup malloc l
          on_pointer p (pure (false, none)) λ a. pure (true, some a)
      ])
      λ _. pure (false, ps)

-- When the second allocation fails, the text at `*pn` is freed, and `*pn` keeps its address.
unfoldable pub parse_source : Malloc → Field → Pointer → Pointer → M (Bool × Pointer × Pointer)
parse_source malloc pf pn pv =
    on_pointer pn
      (elim (one_line pf.lines) [
        | none ↦ pure (false, none, pv)
        | some l ↦ elim (split_space l) [
          | none ↦ pure (false, none, pv)
          | some (name, ver) ↦ do
            p ← strdup malloc name
            on_pointer p (pure (false, none, pv)) λ a. do
              q ← strdup malloc ver
              on_pointer q (free text (some a) >> pure (false, some a, none))
                  λ b. pure (true, some a, some b)
        ]
      ])
      λ _. pure (false, pn, pv)

abbrev pub set_run_depend : Block control_block → Pointer → Block control_block
set_run_depend f p = record f { run_depend = p }

abbrev pub set_built_froms : Block control_block → Pointer → Block control_block
set_built_froms f p = record f { built_froms = p }

abbrev pub set_package_name : Block control_block → Pointer → Block control_block
set_package_name f p = record f { package_name = p }

abbrev pub set_version : Block control_block → Pointer → Block control_block
set_version f p = record f { version = p }

abbrev pub set_source : Malloc → ℕ → Field → M Bool
set_source malloc c pf = do
  f ← load control_block c
  (ok, p, q) ← parse_source malloc pf f.src_package f.src_version
  g ← load control_block c
  store control_block c (record g { src_package = p; src_version = q })
  pure ok

-- The body of the loop over the fields, on the struct at `c`.
unfoldable pub control_field : Malloc → ℕ → ℕ → Field → M Bool
control_field malloc n c pf =
    if str_eq pf.name (codes "Depends-Run")
    then slot control_block (λ f. f.run_depend) set_run_depend c (parse_deplist malloc n pf)
    else if str_eq pf.name (codes "Built-From")
    then slot control_block (λ f. f.built_froms) set_built_froms c (parse_builtfromlist malloc n pf)
    else if str_eq pf.name (codes "Package")
    then slot control_block (λ f. f.package_name) set_package_name c (parse_singleline malloc pf)
    else if str_eq pf.name (codes "Version")
    then slot control_block (λ f. f.version) set_version c (parse_singleline malloc pf)
    else if str_eq pf.name (codes "Source")
    then set_source malloc c pf
    else pure false

abbrev pub when_ok : Bool → M Bool → M Bool
when_ok true m = m
when_ok false m = pure false

unfoldable pub control_fields : Malloc → ℕ → ℕ → List Field → M Bool
control_fields malloc n c [] = pure true
control_fields malloc n c (pf ∷ pfs) =
    control_field malloc n c pf >>= λ ok. when_ok ok (control_fields malloc n c pfs)

-- The file must have exactly one paragraph.
unfoldable pub control_paras : Malloc → ℕ → ℕ → List Para → M Bool
control_paras malloc n c [] = pure false
control_paras malloc n c (pp ∷ []) = control_fields malloc n c pp.fields
control_paras malloc n c (_ ∷ _ ∷ _) = pure false

abbrev pub empty_block : Block control_block
empty_block = record {
  package_name = none;
  version = none;
  src_package = none;
  src_version = none;
  run_depend = none;
  built_froms = none;
}

abbrev pub finish : ℕ → ℕ → Bool → M Pointer
finish n c true = pure (some c)
finish n c false = control_destroy n c >> pure none

-- From the allocation of the struct on, with the paragraphs that the parser found; the parser's own
-- memory, which is freed in each case, is not in this heap.
unfoldable pub control_parsefd : Malloc → ℕ → List Para → M Pointer
control_parsefd malloc n paras = do
  p ← alloc_with malloc control_block empty_block
  on_pointer p (pure none) λ c. control_paras malloc n c paras >>= finish n c
