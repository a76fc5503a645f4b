-- ===== src/Solve/Names.antt =====
-- `pkg_lookup` and `pkg_add` of tools/solve.c: one package for each name, found at its position.
use static_distro.Shared.{
  ℕ, zero, suc, ◌≤◌, ◌≡◌, ◌≢◌, ◌⊎◌, inl, inr, refl, ◌∙◌, List, [], ◌∷◌, ◌++◌, none, some, arith,
  Bool-cases, Option-cases, length, get_elem?, Elem, length-append, str_eq, str_eq_iff, Bytes,
  get_elem?-append, get_elem?-concat_last, get_elem?-concat,
}
use static_distro.Solve.{
  Package, SolveProblem, pkg_lookup, new_package, pkg_add, solve_constraint_add, add_deps,
}

-- The problem has a package of this name.
abbrev pub Has : SolveProblem → Bytes → Type 0
Has p name = (i : ℕ) × (pkg : Package) × (get_elem? p.packages i ≡ some pkg) × (pkg.name ≡ name)

-- No name stands twice.
abbrev pub Distinct : SolveProblem → Type 0
Distinct p =
    (i j : ℕ) (a b : Package)
    → get_elem? p.packages i ≡ some a
    → get_elem? p.packages j ≡ some b
    → a.name ≡ b.name
    → i ≡ j

pub pkg_lookup-some :
    (pkgs : List Package) (name : Bytes) (i : ℕ)
    → pkg_lookup pkgs name ≡ some i
    → (pkg : Package) × (get_elem? pkgs i ≡ some pkg) × (pkg.name ≡ name)
unfolding pkg_lookup
pkg_lookup-some [] name i h = cc
pkg_lookup-some (pkg ∷ pkgs) name i h = elim (Bool-cases (str_eq pkg.name name)) [
  | inl same ↦ let at : i ≡ 0 = ground arith in (pkg, rw at, (str_eq_iff pkg.name name).0 same)
  | inr other ↦ elim (Option-cases (pkg_lookup pkgs name)) [
    | inl missing ↦ absurd (ground arith)
    | inr (k, e) ↦ let at : i ≡ suc k = ground arith in rw at (pkg_lookup-some pkgs name k e)
  ]
]

pub pkg_lookup-none :
    (pkgs : List Package) (name : Bytes) (i : ℕ) (pkg : Package)
    → pkg_lookup pkgs name ≡ none
    → get_elem? pkgs i ≡ some pkg
    → pkg.name ≢ name
unfolding pkg_lookup
pkg_lookup-none [] name i pkg h e = cc
pkg_lookup-none (q ∷ pkgs) name zero pkg h e =
    ground (arith, str_eq_iff q.name name, Option-cases (pkg_lookup pkgs name))
pkg_lookup-none (q ∷ pkgs) name (suc i) pkg h e =
    pkg_lookup-none pkgs name i pkg (ground (arith, Option-cases (pkg_lookup pkgs name))) e

-- `q` is `p` with new packages behind, which are named in `ds`; all of `ds` have a package.
pub record Grows (ds : List Bytes) (p q : SolveProblem) : Type 0 where
  pub old :
      (i : ℕ) (a : Package) → get_elem? p.packages i ≡ some a → get_elem? q.packages i ≡ some a
  pub new :
      (i : ℕ) (a : Package)
      → get_elem? q.packages i ≡ some a
      → (get_elem? p.packages i ≡ some a)
        ⊎ (length p.packages ≤ i) × (a ≡ new_package a.name) × Elem a.name ds
  pub named : (d : Bytes) → Elem d ds → Has q d
  pub longer : length p.packages ≤ length q.packages
  pub same_solved : q.solved ≡ p.solved
  pub distinct : Distinct p → Distinct q

Grows-refl : (p : SolveProblem) → Grows [] p p
Grows-refl p = record {
  old = λ i a h. h;
  new = λ i a h. inl h;
  named = λ d h. absurd h;
  longer = omega arith;
  same_solved = refl;
  distinct = λ h. h;
}

append_new : SolveProblem → Bytes → SolveProblem
append_new p name = record p { packages = p.packages ++ (new_package name ∷ []) }

found-Grows :
    (p : SolveProblem) (name : Bytes) (i : ℕ)
    → pkg_lookup p.packages name ≡ some i
    → Grows (name ∷ []) p p
found-Grows p name i h =
    let (pkg, at, same) = pkg_lookup-some p.packages name i h in
    record {
      old = λ i a h. h;
      new = λ i a h. inl h;
      named = λ d e. (i, pkg, at, ground arith);
      longer = omega arith;
      same_solved = refl;
      distinct = λ h. h;
    }

append_new-Distinct :
    (p : SolveProblem) (name : Bytes)
    → pkg_lookup p.packages name ≡ none
    → Distinct p
    → Distinct (append_new p name)
unfolding append_new
append_new-Distinct p name h d i j a b x y e = ground (
  arith,
  get_elem?-concat p.packages (new_package name) i x,
  get_elem?-concat p.packages (new_package name) j y,
  d i j a b,
  pkg_lookup-none p.packages name i a h,
  pkg_lookup-none p.packages name j b h,
)

append_new-Grows :
    (p : SolveProblem) (name : Bytes)
    → pkg_lookup p.packages name ≡ none
    → Grows (name ∷ []) p (append_new p name)
append_new-Grows p name h = record {
  old = λ i a e. unfold append_new in get_elem?-append p.packages _ i e;
  new = λ i a e.
      elim (get_elem?-concat p.packages (new_package name) i {a = a} (unfold append_new in e)) [
        | inl before ↦ inl before
        | inr (at, is_new) ↦ inr (omega arith, rw is_new, inl (rw is_new))
      ];
  named = λ d e. (
    length p.packages,
    new_package name,
    unfold append_new in get_elem?-concat_last p.packages (new_package name),
    ground arith,
  );
  longer = unfold append_new in omega (arith, length-append {0} p.packages (new_package name ∷ []));
  same_solved = unfold append_new in refl;
  distinct = append_new-Distinct p name h;
}

-- `pkg_add` changes nothing but that there is a package of that name now.
pub pkg_add-Grows : (p : SolveProblem) (name : Bytes) → Grows (name ∷ []) p (pkg_add p name).0
unfolding pkg_add
pkg_add-Grows p name = elim (Option-cases (pkg_lookup p.packages name)) [
  | inr (i, found) ↦ rw (found, pkg_add) (found-Grows p name i found)
  | inl missing ↦ rw (missing, pkg_add) (unfold append_new in append_new-Grows p name missing)
]

-- The position that `pkg_add` returns is that of a package of the name.
pub pkg_add_position :
    (p : SolveProblem) (name : Bytes)
    → (pkg : Package) × (get_elem? (pkg_add p name).0.packages (pkg_add p name).1 ≡ some pkg)
      × (pkg.name ≡ name)
unfolding pkg_add
pkg_add_position p name = elim (Option-cases (pkg_lookup p.packages name)) [
  | inr (i, found) ↦ rw (found, pkg_add) (pkg_lookup-some p.packages name i found)
  | inl missing ↦
      rw (missing, pkg_add)
        (new_package name, get_elem?-concat_last p.packages (new_package name), refl)
]

pub Has-Grows :
    {ds : List Bytes} {p q : SolveProblem} {n : Bytes} → Grows ds p q → Has p n → Has q n
Has-Grows g (i, pkg, at, same) = (i, pkg, g.old i pkg at, same)

pub Grows-trans :
    {d : Bytes} {ds : List Bytes} {p q r : SolveProblem}
    → Grows (d ∷ []) p q
    → Grows ds q r
    → Grows (d ∷ ds) p r
Grows-trans {d} {ds} {p} {q} {r} g k = record {
  old = λ i a h. k.old i a (g.old i a h);
  new = λ i a h. elim (k.new i a h) [
    | inr (far, is_new, elem) ↦ inr (omega (arith, g.longer), is_new, inr elem)
    | inl mid ↦ elim (g.new i a mid) [
      | inl before ↦ inl before
      | inr (far, is_new, elem) ↦ inr (far, is_new, ground arith)
    ]
  ];
  named =
      λ e h. elim h [ inl same ↦ Has-Grows k (g.named e (inl same)) | inr later ↦ k.named e later ];
  longer = omega (arith, g.longer, k.longer);
  same_solved = k.same_solved ∙ g.same_solved;
  distinct = λ h. k.distinct (g.distinct h);
}

-- The constraints of a version each have a package after the loop that adds them.
pub add_deps-Grows : (ds : List Bytes) (p : SolveProblem) → Grows ds p (add_deps p ds)
unfolding add_deps solve_constraint_add
add_deps-Grows [] p = Grows-refl p
add_deps-Grows (d ∷ ds) p = Grows-trans (pkg_add-Grows p d) (add_deps-Grows ds (pkg_add p d).0)
