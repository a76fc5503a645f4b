-- ===== src/Solve/Sorted.antt =====
-- The order of the available versions that tools/solve.c keeps.
use static_distro.Shared.{
  ℕ, ◌≡◌, ◌⊎◌, refl, Elem, All-Elem, get_elem?-set_self, get_elem?-lt, inl, inr, sym, ap, subst,
  ◌∙◌, List, [], ◌∷◌, some, get_elem?, get_elem?-set, All, Bytes,
}
use static_distro.Solve.Insert.{Inserted, last, before, after}
use static_distro.Solve.Names.{Grows, pkg_add-Grows, add_deps-Grows}
use static_distro.Solve.Round.{choose-done}
use static_distro.Solve.VersionAdd.{add_at, version_add_to-done}
use static_distro.Solve.{
  Version, Package, SolveProblem, done, pkg_add, set_package, solve_package_version_add, choose,
}
use static_distro.Version.Greater.{IsVersion, version_cmp_gt_trans}
use static_distro.Version.Compare.{vercmp_flip, version_cmp_flipped}
use static_distro.Version.Parse.{IsCString}
use static_distro.Version.{version_cmp, ver_gt}

-- Each version is greater than the next one.
abbrev pub Descending : List Version → Type 0
Descending [] = Unit
Descending (u ∷ []) = Unit
Descending (u ∷ v ∷ vs) = (version_cmp u.version v.version ≡ ver_gt) × Descending (v ∷ vs)

abbrev pub HasCString : Version → Type 0
HasCString v = IsCString v.version

Inserted-HasCString :
    {ver : Version} {vs vs' : List Version}
    → Inserted ver vs vs'
    → HasCString ver
    → All HasCString vs
    → All HasCString vs'
Inserted-HasCString last h k = (h, tt)
Inserted-HasCString (before c) h k = (h, k)
Inserted-HasCString (after c i) h (x, k) = (x, Inserted-HasCString i h k)

-- A version put behind a greater one, in front of the rest or further behind.
Inserted-Descending :
    {ver : Version} {vs vs' : List Version}
    → Inserted ver vs vs'
    → HasCString ver
    → All HasCString vs
    → Descending vs
    → Descending vs'
Inserted-Descending last h k d = tt
Inserted-Descending (before c) h k d = (c, d)
Inserted-Descending {ver} (after {v} c last) h (x, k) d =
    (version_cmp_flipped ver.version v.version h x ∙ ap vercmp_flip c, tt)
Inserted-Descending {ver} (after {v} c (before c')) h (x, k) (g, d) =
    (version_cmp_flipped ver.version v.version h x ∙ ap vercmp_flip c, (c', d))
Inserted-Descending (after c (after {v = w} c' i)) h (x, k) (g, d) =
    (g, Inserted-Descending (after {v = w} c' i) h k d)

-- Every package has its available versions in descending order, as C strings.
pub record IsSorted (p : SolveProblem) : Type 0 where
  pub strings : (i : ℕ) (a : Package) → get_elem? p.packages i ≡ some a → All HasCString a.available
  pub sorted : (i : ℕ) (a : Package) → get_elem? p.packages i ≡ some a → Descending a.available

Grows-IsSorted : (ds : List Bytes) (p q : SolveProblem) → Grows ds p q → IsSorted p → IsSorted q
Grows-IsSorted ds p q grows s = record {
  strings = λ i a h. elim (grows.new i a h) [
    | inl old ↦ s.strings i a old
    | inr (_, is_new, _) ↦
        subst (All HasCString) (sym (ap (λ (x : Package). x.available) is_new)) tt
  ];
  sorted = λ i a h. elim (grows.new i a h) [
    | inl old ↦ s.sorted i a old
    | inr (_, is_new, _) ↦ subst Descending (sym (ap (λ (x : Package). x.available) is_new)) tt
  ];
}

available-IsSorted :
    (p : SolveProblem) (i : ℕ) (pkg : Package) (vs : List Version)
    → IsSorted p
    → All HasCString vs
    → Descending vs
    → IsSorted (set_package p i (record pkg { available = vs }))
available-IsSorted p i pkg vs s strings sorted = record {
  strings = λ j a h. elim (get_elem?-set p.packages i j (record pkg { available = vs }) h) [
    | inl old ↦ s.strings j a old
    | inr is_pkg ↦ subst (All HasCString) (ap (λ (x : Package). x.available) is_pkg) strings
  ];
  sorted = λ j a h. elim (get_elem?-set p.packages i j (record pkg { available = vs }) h) [
    | inl old ↦ s.sorted j a old
    | inr is_pkg ↦ subst Descending (ap (λ (x : Package). x.available) is_pkg) sorted
  ];
}

-- Adding a version keeps the available versions of every package in descending order.
pub solve_package_version_add-IsSorted :
    (p : SolveProblem) (name version : Bytes) (deps : List Bytes) (q : SolveProblem)
    → IsCString version
    → IsSorted p
    → solve_package_version_add p name version deps ≡ done q
    → IsSorted q
solve_package_version_add-IsSorted p name version deps q c s h =
    let (pkg, at, h1) = add_at p name version deps q h in
    let (p1, i) = pkg_add p name in
    let s1 = Grows-IsSorted (name ∷ []) p p1 (pkg_add-Grows p name) s in
    elim (version_add_to-done p1 i pkg _ q h1) [
      | inl (old, e) ↦ subst IsSorted (sym e) s1
      | inr (vs, inserted, e) ↦ subst IsSorted (sym e) (
          available-IsSorted p1 i pkg vs s1 (Inserted-HasCString inserted c (s1.strings i pkg at))
            (Inserted-Descending inserted c (s1.strings i pkg at) (s1.sorted i pkg at)))
    ]

-- The first of the available versions is greater than each of the others.
newest :
    (u : Version) (vs : List Version)
    → IsVersion u.version
    → All (λ (v : Version). IsVersion v.version) vs
    → Descending (u ∷ vs)
    → All (λ (v : Version). version_cmp u.version v.version ≡ ver_gt) vs
newest u [] ok oks d = tt
newest u (v ∷ vs) ok (ok_v, oks) (g, d) =
    (g, greater_all u v vs ok ok_v oks g (newest v vs ok_v oks d))
  where
    greater_all :
        (u v : Version) (vs : List Version)
        → IsVersion u.version
        → IsVersion v.version
        → All (λ (x : Version). IsVersion x.version) vs
        → version_cmp u.version v.version ≡ ver_gt
        → All (λ (x : Version). version_cmp v.version x.version ≡ ver_gt) vs
        → All (λ (x : Version). version_cmp u.version x.version ≡ ver_gt) vs
    greater_all u v [] ok ok_v oks g h = tt
    greater_all u v (x ∷ vs) ok ok_v (ok_x, oks) g (h, hs) = (
      version_cmp_gt_trans u.version v.version x.version ok ok_v ok_x g h,
      greater_all u v vs ok ok_v oks g hs,
    )

abbrev pub HasUpstream : Version → Type 0
HasUpstream v = IsVersion v.version

-- On a sorted problem, where the available versions of the package at position `i` all have an upstream
-- part: when the solver chooses a version for this package, the chosen version that the package has
-- then, behind the constraints that are added too, is one of its available versions, and greater
-- than each of the others.
pub choose-newest :
    {W : Type 0} (w : W) (p : SolveProblem) (i : ℕ) (pkg : Package) (w' : W) (r : SolveProblem)
    → IsSorted p
    → get_elem? p.packages i ≡ some pkg
    → All HasUpstream pkg.available
    → choose w p i pkg ≡ done (w', r)
    → (q : Package) × (u : Version) × (get_elem? r.packages i ≡ some q)
      × (q.name ≡ pkg.name)
      × (q.chosen ≡ some u)
      × Elem u pkg.available
      × ((v : Version)
          → Elem v pkg.available
          → (v ≡ u) ⊎ (version_cmp u.version v.version ≡ ver_gt))
choose-newest w p i pkg w' r s at oks h =
    let (u, vs, e, is_r) = choose-done w p i pkg w' r h in
    let chosen_pkg : Package = record pkg { chosen = some u } in
    let ok = subst (All HasUpstream) e oks in
    let newer = newest u vs ok.0 ok.1 (subst Descending e (s.sorted i pkg at)) in
    let here : get_elem? (set_package p i chosen_pkg).packages i ≡ some chosen_pkg =
      get_elem?-set_self p.packages i chosen_pkg (get_elem?-lt p.packages i at) in
    (
      chosen_pkg,
      u,
      subst (λ (x : SolveProblem). get_elem? x.packages i ≡ some chosen_pkg) (sym is_r)
          ((add_deps-Grows u.dependencies (set_package p i chosen_pkg)).old i chosen_pkg here),
      refl,
      refl,
      subst (Elem u) (sym e) (inl refl),
      λ v w. elim (subst (Elem v) e w) [
        | inl same ↦ inl same
        | inr later ↦
            inr (
              All-Elem (λ (x : Version). version_cmp u.version x.version ≡ ver_gt) vs v newer later)
      ],
    )
