-- ===== src/Solve/VersionAdd.antt =====
-- `solve_package_version_add` of tools/solve.c: what a successful call changes.
use static_distro.Shared.{
  ℕ, zero, suc, ◌≡◌, ◌⊎◌, inl, inr, refl, sym, ap, subst, ◌∙◌, true, List, [], ◌∷◌, ◌++◌, none,
  some, arith, Bool-cases, Option-cases, length, get_elem?, set, str_eq_iff, Bytes, get_elem?-lt,
  get_elem?-set_self, get_elem?-set_ne, length-set,
}
use static_distro.Solve.Insert.{Inserted, last, before, after, insert_version-Inserted}
use static_distro.Solve.Names.{Has, pkg_lookup-none, pkg_add_position}
use static_distro.Solve.Round.{Retains, Outcome-cases}
use static_distro.Solve.{
  Version, Package, SolveProblem, done, pkg_lookup, new_package, pkg_add, has_version, push_deps,
  insert_version, set_package, version_add_to, solve_package_version_add,
}
use native.Mathlib.Decide.{ℕ_discrete}

-- The found position, again after the package at it was replaced by one of the same name.
pkg_lookup-set :
    (pkgs : List Package) (name : Bytes) (i : ℕ) (pkg q : Package)
    → get_elem? pkgs i ≡ some pkg
    → q.name ≡ pkg.name
    → pkg_lookup (set pkgs i q) name ≡ pkg_lookup pkgs name
unfolding pkg_lookup
pkg_lookup-set [] name i pkg q h e = refl
pkg_lookup-set (x ∷ pkgs) name zero pkg q h e = ground arith
pkg_lookup-set (x ∷ pkgs) name (suc i) pkg q h e =
    ground (arith, pkg_lookup-set pkgs name i pkg q h e)

pkg_lookup-append_new :
    (pkgs : List Package) (name : Bytes)
    → pkg_lookup pkgs name ≡ none
    → pkg_lookup (pkgs ++ (new_package name ∷ [])) name ≡ some (length pkgs)
unfolding pkg_lookup
pkg_lookup-append_new [] name h = ground (arith, str_eq_iff name name)
pkg_lookup-append_new (x ∷ pkgs) name h =
    ground (arith, Option-cases (pkg_lookup pkgs name), pkg_lookup-append_new pkgs name)

pkg_lookup-pkg_add :
    (p : SolveProblem) (name : Bytes)
    → pkg_lookup (pkg_add p name).0.packages name ≡ some (pkg_add p name).1
unfolding pkg_add
pkg_lookup-pkg_add p name = elim (Option-cases (pkg_lookup p.packages name)) [
  | inr (i, found) ↦ rw (found, pkg_add) found
  | inl missing ↦ rw (missing, pkg_add) (pkg_lookup-append_new p.packages name missing)
]

pub pkg_add_known :
    (p : SolveProblem) (name : Bytes) → Has p name → (i : ℕ) × (pkg_add p name ≡ (p, i))
unfolding pkg_add
pkg_add_known p name (j, pkg, at, same) = elim (Option-cases (pkg_lookup p.packages name)) [
  | inr (i, found) ↦ (i, rw (found, pkg_add))
  | inl missing ↦ absurd (pkg_lookup-none p.packages name j pkg missing at same)
]

-- A version that was inserted is there.
Inserted-has_version :
    {ver : Version} {vs vs' : List Version}
    → Inserted ver vs vs'
    → has_version vs' ver.version ≡ true
unfolding has_version
Inserted-has_version {ver} last = ground (arith, str_eq_iff ver.version ver.version)
Inserted-has_version {ver} (before c) = ground (arith, str_eq_iff ver.version ver.version)
Inserted-has_version {ver} (after {v} c rest) = ground (arith, Inserted-has_version rest)

-- The problem has a package of the name, found at some position, with the version.
pub record HasVersion (p : SolveProblem) (name version : Bytes) : Type 0 where
  pub position : ℕ
  pub pkg : Package
  pub looked_up : pkg_lookup p.packages name ≡ some position
  pub at : get_elem? p.packages position ≡ some pkg
  pub there : has_version pkg.available version ≡ true

-- How a successful call ends: the version was there, or it was inserted.
pub version_add_to-done :
    (p : SolveProblem) (i : ℕ) (pkg : Package) (ver : Version) (q : SolveProblem)
    → version_add_to p i pkg ver ≡ done q
    → (has_version pkg.available ver.version ≡ true) × (q ≡ p)
      ⊎ ((vs : List Version) × Inserted ver pkg.available vs
          × (q ≡ set_package p i (record pkg { available = vs })))
unfolding version_add_to
version_add_to-done p i pkg ver q h = elim (Bool-cases (has_version pkg.available ver.version)) [
  | inl old ↦ inl (old, ground arith)
  | inr new ↦ elim (Outcome-cases (insert_version ver pkg.available)) [
    | inl (vs, e) ↦ inr (vs, insert_version-Inserted ver pkg.available vs e, ground arith)
    | inr (inl (vs, e)) ↦ absurd (ground arith)
    | inr (inr e) ↦ absurd (ground arith)
  ]
]

pub add_at :
    (p : SolveProblem) (name version : Bytes) (deps : List Bytes) (q : SolveProblem)
    → solve_package_version_add p name version deps ≡ done q
    → (pkg : Package) × (get_elem? (pkg_add p name).0.packages (pkg_add p name).1 ≡ some pkg)
      × (version_add_to
            (pkg_add p name).0
            (pkg_add p name).1
            pkg
            (record { version = version; dependencies = push_deps deps [] })
          ≡ done q)
unfolding solve_package_version_add
add_at p name version deps q h =
    let (pkg, at, same) = pkg_add_position p name in (pkg, at, ground arith)

-- After a successful call the version is there.
pub added-HasVersion :
    (p : SolveProblem) (name version : Bytes) (deps : List Bytes) (q : SolveProblem)
    → solve_package_version_add p name version deps ≡ done q
    → HasVersion q name version
added-HasVersion p name version deps q h =
    let (pkg, at, h1) = add_at p name version deps q h in
    let (p1, i) = pkg_add p name in
    let found = pkg_lookup-pkg_add p name in
    elim (version_add_to-done p1 i pkg _ q h1) [
      | inl (old, e) ↦
          rw e (record { position = i; pkg = pkg; looked_up = found; at = at; there = old })
      | inr (vs, ins, e) ↦ rw e (record {
        position = i;
        pkg = record pkg { available = vs };
        looked_up = pkg_lookup-set p1.packages name i pkg _ at refl ∙ found;
        at = get_elem?-set_self p1.packages i _ (get_elem?-lt p1.packages i at);
        there = Inserted-has_version ins;
      })
    ]

-- A version that is there is not added again, whatever its dependencies.
pub add_again :
    (p : SolveProblem) (name version : Bytes) (deps : List Bytes)
    → HasVersion p name version
    → solve_package_version_add p name version deps ≡ done p
unfolding solve_package_version_add pkg_add version_add_to
add_again p name version deps h = ground (arith, h.looked_up, h.at, h.there)

pub Retains-refl : (p : SolveProblem) (name : Bytes) → Retains name p p
Retains-refl p name = record {
  same_length = refl;
  same_solved = refl;
  at = λ i a h. (a, h, refl, refl, λ _. refl);
}

set-Retains :
    (p : SolveProblem) (name : Bytes) (i : ℕ) (pkg : Package) (vs : List Version)
    → get_elem? p.packages i ≡ some pkg
    → pkg.name ≡ name
    → Retains name p (set_package p i (record pkg { available = vs }))
set-Retains p name i pkg vs h same = record {
  same_length = length-set p.packages i _;
  same_solved = refl;
  at = λ j a k. elim (ℕ_discrete j i) [
    | no ne ↦ (a, get_elem?-set_ne p.packages i j _ (λ e. ne (sym e)) ∙ k, refl, refl, λ _. refl)
    | yes e ↦
        let one : some pkg ≡ some a = sym h ∙ rw (← e) k in
        let is_a : pkg ≡ a = ground arith in
        (
          record pkg { available = vs },
          rw e (get_elem?-set_self p.packages i _ (get_elem?-lt p.packages i h)),
          ap (λ (x : Package). x.name) is_a,
          ap (λ (x : Package). x.chosen) is_a,
          λ ne. absurd (ne (ground arith)),
        )
  ];
}

-- A version added to a package that the problem has changes this package alone, and neither its
-- name nor its choice.
pub added-Retains :
    (p : SolveProblem) (name version : Bytes) (deps : List Bytes) (q : SolveProblem)
    → Has p name
    → solve_package_version_add p name version deps ≡ done q
    → Retains name p q
added-Retains p name version deps q has h =
    let (i, known) = pkg_add_known p name has in
    let (pkg, at, h1) = add_at p name version deps q h in
    let (pkg', at', same') = pkg_add_position p name in
    let one : some pkg ≡ some pkg' = sym at ∙ at' in
    let same : pkg.name ≡ name = ground arith in
    let here : get_elem? p.packages i ≡ some pkg =
      subst (λ (s : SolveProblem × ℕ). get_elem? s.0.packages s.1 ≡ some pkg) known at in
    let ver : Version = record { version = version; dependencies = push_deps deps [] } in
    let h2 : version_add_to p i pkg ver ≡ done q =
      subst (λ (s : SolveProblem × ℕ). version_add_to s.0 s.1 pkg ver ≡ done q) known h1 in
    elim (version_add_to-done p i pkg ver q h2) [
      | inl (_, e) ↦ rw e (Retains-refl p name)
      | inr (vs, _, e) ↦ rw e (set-Retains p name i pkg vs here same)
    ]

pub Retains-trans :
    {name : Bytes} {p q r : SolveProblem} → Retains name p q → Retains name q r → Retains name p r
Retains-trans k l = record {
  same_length = l.same_length ∙ k.same_length;
  same_solved = l.same_solved ∙ k.same_solved;
  at = λ i a h.
      let (b, at_b, name_b, chosen_b, same_b) = k.at i a h in
      let (c, at_c, name_c, chosen_c, same_c) = l.at i b at_b in
      (
        c,
        at_c,
        name_c ∙ name_b,
        chosen_c ∙ chosen_b,
        λ ne. same_c (λ e. ne (sym name_b ∙ e)) ∙ same_b ne,
      );
}
