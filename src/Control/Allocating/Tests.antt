-- ===== src/Control/Allocating/Tests.antt =====
-- control_parsefd on a memory of a few addresses.
use static_distro.ControlParse.{Field, Para}
use static_distro.Control
use static_distro.Control.Allocating.Texts.{Lists, parse_deplist-Lists}
use static_distro.Control.{one_line, split_space}
use static_distro.Control.Allocating.{
  control_parsefd, control_paras, control_fields, control_field, parse_deplist, deplist_loop,
  new_dependency, add_dependency, parse_builtfromlist, builtfromlist_loop, new_built_from,
  add_built_from, drop_built_from, parse_singleline, parse_source,
}
use static_distro.Control.Destroy.{control_destroy, free_dependency, free_built_from}
use static_distro.Control.Allocating.Fields.{result, control_parsefd-Gives}
use static_distro.Control.Allocating.Slots.{HasRoom}
use static_distro.Control.Allocating.Source.{control_parsefd_double_free}
use static_distro.LibC.{strchr}
use static_distro.Memory.{
  Kind, text, control_dependency, control_source, control_built_from, control_block,
  source_control_block, source_control_bin, controlparse_line, controlparse_field,
  controlparse_para, solve_dependency, solve_version, solve_package, solve_problem, repo_version,
  repo_package, repo_block, Block, Heap, empty, done, fault, out_of_fuel, Result, Pointer,
  list_loop,
}
use static_distro.Memory.Alloc.{Malloc, Fresh, link_last}
use static_distro.Memory.Holds.{Gives, Lacks}
use static_distro.Memory.Room.{
  Distinct-length, Elem-cases, down_from, length-down_from, down_from-Distinct,
}
use static_distro.Shared.{
  ℕ, ◌<◌, Bool, true, false, List, [], ◌∷◌, Bytes, Option, none, some, ◌≡◌, refl, inl, inr, codes,
  if◌then◌else◌, Bool-cases, all, Elem, sym, ap, subst, str_eq, arith, ◌⊎◌,
}

abbrev is_none : {A : Type 0} → Option A → Bool
is_none none = true
is_none (some _) = false

none-is_none : {A : Type 0} (o : Option A) → is_none o ≡ true → o ≡ none
none-is_none none e = refl
none-is_none (some _) e = cc

abbrev blank : (k : Kind) → Block k
blank text = []
blank control_dependency = record { package_name = none; next = none }
blank control_source = record { source = none; next = none }
blank control_built_from = record { package_name = none; version = none; next = none }
blank control_block = record {
  package_name = none;
  version = none;
  src_package = none;
  src_version = none;
  run_depend = none;
  built_froms = none;
}
blank source_control_block = record {
  source = none;
  version = none;
  unpack_depend = none;
  build_depend = none;
  sources = none;
  bins = none;
}
blank source_control_bin = record { package_name = none; run_depend = none; next = none }
blank controlparse_line = record { next = none; line = [] }
blank controlparse_field = record { line_first = none; line_last = none; next = none; name = [] }
blank controlparse_para = record { field_first = none; field_last = none; next = none }
blank solve_dependency = record { constraint = none; next = none }
blank solve_version = record { version = none; dependencies = none; next = none }
blank solve_package = record {
  name = none;
  available = none;
  chosen = none;
  next = none;
  scanned = false;
}
blank solve_problem = record { packages_first = none; packages_last = none }
blank repo_version = record { version = none; control = none; next = none }
blank repo_package = record { name = none; versions = none; next = none }
blank repo_block = record { packages = none; repofd = 0 }

abbrev kinds : List Kind
kinds =
    text ∷ control_dependency ∷ control_source ∷ control_built_from ∷ control_block
    ∷ source_control_block ∷ source_control_bin ∷ controlparse_line ∷ controlparse_field
    ∷ controlparse_para ∷ solve_dependency ∷ solve_version ∷ solve_package ∷ solve_problem
    ∷ repo_version ∷ repo_package ∷ repo_block ∷ []

Elem-kinds : (k : Kind) → Elem k kinds
Elem-kinds text = inl refl
Elem-kinds control_dependency = inr (inl refl)
Elem-kinds control_source = inr (inr (inl refl))
Elem-kinds control_built_from = inr (inr (inr (inl refl)))
Elem-kinds control_block = inr (inr (inr (inr (inl refl))))
Elem-kinds source_control_block = inr (inr (inr (inr (inr (inl refl)))))
Elem-kinds source_control_bin = inr (inr (inr (inr (inr (inr (inl refl))))))
Elem-kinds controlparse_line = inr (inr (inr (inr (inr (inr (inr (inl refl)))))))
Elem-kinds controlparse_field = inr (inr (inr (inr (inr (inr (inr (inr (inl refl))))))))
Elem-kinds controlparse_para = inr (inr (inr (inr (inr (inr (inr (inr (inr (inl refl)))))))))
Elem-kinds solve_dependency = inr (inr (inr (inr (inr (inr (inr (inr (inr (inr (inl refl))))))))))
Elem-kinds solve_version =
    inr (inr (inr (inr (inr (inr (inr (inr (inr (inr (inr (inl refl)))))))))))
Elem-kinds solve_package =
    inr (inr (inr (inr (inr (inr (inr (inr (inr (inr (inr (inr (inl refl))))))))))))
Elem-kinds solve_problem =
    inr (inr (inr (inr (inr (inr (inr (inr (inr (inr (inr (inr (inr (inl refl)))))))))))))
Elem-kinds repo_version =
    inr (inr (inr (inr (inr (inr (inr (inr (inr (inr (inr (inr (inr (inr (inl refl))))))))))))))
Elem-kinds repo_package =
    inr
      (inr (inr (inr (inr (inr (inr (inr (inr (inr (inr (inr (inr (inr (inr (inl refl)))))))))))))))
Elem-kinds repo_block = inr (
    inr (
      inr (inr (inr (inr (inr (inr (inr (inr (inr (inr (inr (inr (inr (inr (inl refl))))))))))))))))

-- No block of any kind is allocated at this address.
abbrev unused : Heap → ℕ → Bool
unused h a = all (λ k. is_none (h k a)) kinds

all-Elem :
    (p : Kind → Bool) (ks : List Kind) → all p ks ≡ true → (k : Kind) → Elem k ks → p k ≡ true
all-Elem p [] e k w = elim w [ ]
all-Elem p (j ∷ ks) e k w = elim (Bool-cases (p j)) [
  | inl here ↦ elim w [
    | inl same ↦ subst (λ x. p x ≡ true) (sym same) here
    | inr later ↦ all-Elem p ks (from here) k later
  ]
  | inr not_here ↦ absurd (nothing not_here)
]
  where
    from : p j ≡ true → all p ks ≡ true
    from here = cc

    nothing : p j ≡ false → ⊥
    nothing n = cc

unused_lem : (h : Heap) (a : ℕ) → unused h a ≡ true → (k : Kind) → h k a ≡ none
unused_lem h a e k = none-is_none (h k a) (all-Elem (λ k. is_none (h k a)) kinds e k (Elem-kinds k))

-- The first of these addresses that is not in use.
abbrev malloc_in : List ℕ → Malloc
malloc_in [] k h = none
malloc_in (a ∷ more) k h =
    let rest = malloc_in more k h in if unused h a then some (a, blank k) else rest

pick-cases :
    (k : Kind) (u : Bool) (b a : ℕ) (f : Block k) (rest : Option (ℕ × Block k))
    → (if u then some (b, blank k) else rest) ≡ some (a, f)
    → ((u ≡ true) × (b ≡ a)) ⊎ (rest ≡ some (a, f))
pick-cases k true b a f rest e = inl (refl, ap (address a) e)
  where
    address : ℕ → Option (ℕ × Block k) → ℕ
    address c none = c
    address c (some (d, g)) = d
pick-cases k false b a f rest e = inr e

malloc_in-Fresh : (room : List ℕ) → Fresh (malloc_in room)
malloc_in-Fresh [] k j h a f e = cc
malloc_in-Fresh (b ∷ more) k j h a f e =
    elim (pick-cases k (unused h b) b a f (malloc_in more k h) e) [
      | inl (free, same) ↦ subst (λ c. h j c ≡ none) same (unused_lem h b free j)
      | inr rest ↦ malloc_in-Fresh more k j h a f rest
    ]

all-true : (p : Kind → Bool) (ks : List Kind) → ((k : Kind) → p k ≡ true) → all p ks ≡ true
all-true p [] h = refl
all-true p (k ∷ ks) h = rw (h k) (all-true p ks h)

malloc_in_full :
    (room : List ℕ) (k : Kind) (h : Heap)
    → malloc_in room k h ≡ none
    → (a : ℕ) → Elem a room
    → unused h a ≡ false
malloc_in_full [] k h e a w = absurd w
malloc_in_full (b ∷ more) k h e a w = elim (Bool-cases (unused h b)) [
  | inl free ↦ absurd (gives_it free e)
  | inr used ↦ elim w [
    | inl same ↦ subst (λ c. unused h c ≡ false) (sym same) used
    | inr later ↦ malloc_in_full more k h (rest_none used e) a later
  ]
]
  where
    gives_it :
        unused h b ≡ true
        → (if unused h b then some (b, blank k) else malloc_in more k h) ≡ none
        → ⊥
    gives_it free e = let at : some (b, blank k) ≡ none = rw (free) at e in cc at

    rest_none :
        unused h b ≡ false
        → (if unused h b then some (b, blank k) else malloc_in more k h) ≡ none
        → malloc_in more k h ≡ none
    rest_none used e = rw (used) at e

-- With more addresses than `size`, there is room for `size` blocks and one text more.
malloc_in-HasRoom : (size n : ℕ) → size < n → HasRoom (malloc_in (down_from n)) empty size
malloc_in-HasRoom size n le h xs ex few lacking = absurd (
    omega
      (arith, length-down_from n, Distinct-length (down_from n) xs (down_from-Distinct n) in_use))
  where
    in_use : (a : ℕ) → Elem a (down_from n) → Elem a xs
    in_use a w = elim (Elem-cases a xs) [
      | inl inside ↦ inside
      | inr outside ↦
          let free : unused h a ≡ true =
            all-true (λ k. is_none (h k a)) kinds (λ k. ap is_none (ex.same k a outside)) in
          let used = malloc_in_full (down_from n) text h lacking a w in absurd (cc (free, used))
    ]

-- A control file with a source field.
abbrev sourced : List Para
sourced =
    record {
      fields =
          record { name = codes "Package"; lines = codes "libgcc" ∷ [] }
          ∷ record { name = codes "Source"; lines = codes "gcc 12" ∷ [] }
          ∷ [];
    }
    ∷ []

-- A control file with a dependency, a package that went into its build, and its name.
abbrev paras : List Para
paras =
    record {
      fields =
          record { name = codes "Package"; lines = codes "gcc" ∷ [] }
          ∷ record { name = codes "Depends-Run"; lines = [] ∷ codes "musl" ∷ codes "zlib" ∷ [] }
          ∷ record { name = codes "Built-From"; lines = codes "gcc 12" ∷ [] }
          ∷ [];
    }
    ∷ []

abbrev returned : Result Pointer → Option Pointer
returned (done p h) = some p
returned fault = none
returned out_of_fuel = none

runs : Unit {0}
unfolding control_parsefd control_paras control_fields control_field parse_deplist deplist_loop
    new_dependency add_dependency parse_builtfromlist builtfromlist_loop new_built_from
    add_built_from drop_built_from parse_singleline parse_source one_line split_space strchr str_eq
    link_last control_destroy free_dependency free_built_from list_loop
runs = tt

-- Nine blocks are enough for this file, and eight are not.
control_parsefd_runs :
    (returned (control_parsefd (malloc_in (1 ∷ 2 ∷ 3 ∷ 4 ∷ 5 ∷ 6 ∷ 7 ∷ 8 ∷ 9 ∷ [])) 20 paras empty)
      ≡ some (some 1))
    × (returned (control_parsefd (malloc_in (1 ∷ 2 ∷ 3 ∷ 4 ∷ 5 ∷ 6 ∷ 7 ∷ 8 ∷ [])) 20 paras empty)
        ≡ some none)
control_parsefd_runs = (nine, eight)
  where
    nine :
        returned
          (control_parsefd (malloc_in (1 ∷ 2 ∷ 3 ∷ 4 ∷ 5 ∷ 6 ∷ 7 ∷ 8 ∷ 9 ∷ [])) 20 paras empty)
        ≡ some (some 1)
    nine = unfold runs in refl

    eight :
        returned (control_parsefd (malloc_in (1 ∷ 2 ∷ 3 ∷ 4 ∷ 5 ∷ 6 ∷ 7 ∷ 8 ∷ [])) 20 paras empty)
        ≡ some none
    eight = unfold runs in refl

-- Room for twelve blocks, of which the file needs four.
sourced_runs :
    returned (control_parsefd (malloc_in (down_from 12)) 20 sourced empty) ≡ some (some 12)
sourced_runs = unfold runs in refl

control_parsefd-Gives_example :
    Gives empty 11 result (control_parsefd (malloc_in (down_from 12)) 11 sourced empty)
control_parsefd-Gives_example =
    control_parsefd-Gives (malloc_in-Fresh (down_from 12)) 11 sourced empty
      (inr (malloc_in-HasRoom 11 12 (omega arith))) (omega arith)

-- Room for the struct and for one text.
control_parsefd_double_free_example :
    control_parsefd
      (malloc_in (1 ∷ 2 ∷ []))
      9
      (record { fields = record { name = codes "Source"; lines = codes "gcc 12" ∷ [] } ∷ [] } ∷ [])
      empty
    ≡ fault
unfolding one_line split_space strchr
control_parsefd_double_free_example =
    control_parsefd_double_free (malloc_in-Fresh (1 ∷ 2 ∷ [])) 9 empty (codes "gcc 12" ∷ []) []
      (codes "gcc 12") (codes "gcc") (codes "12") 1 2 (blank control_block) (blank text) refl refl
      refl refl refl

abbrev dependencies : Field
dependencies = record { name = codes "Depends-Run"; lines = [] ∷ codes "musl" ∷ codes "zlib" ∷ [] }

parse_deplist-Lists_example :
    (b : Bool) × (p : Pointer) × (h' : Heap) × (es : List Bytes) × (parse_deplist
        (malloc_in (1 ∷ 2 ∷ 3 ∷ 4 ∷ []))
        6
        dependencies
        none
        empty
      ≡ done (b, p) h')
    × Lists empty 6 p es h'
    × (((b ≡ true) × (Control.parse_deplist dependencies [] ≡ some es))
        ⊎ ((b ≡ false) × Lacks (malloc_in (1 ∷ 2 ∷ 3 ∷ 4 ∷ [])) empty 6))
parse_deplist-Lists_example =
    parse_deplist-Lists (malloc_in-Fresh (1 ∷ 2 ∷ 3 ∷ 4 ∷ [])) 6 dependencies empty (omega arith)
