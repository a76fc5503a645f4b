-- ===== src/Solve/Round.antt =====
-- One round of the loop of `solve_run` in tools/solve.c.
use static_distro.Shared.{
  ℕ, zero, suc, ◌≤◌, ◌<◌, ◌≡◌, ◌≢◌, ◌⊎◌, inl, inr, refl, sym, ap, subst, ◌∙◌, List, [], ◌∷◌, Option,
  none, some, arith, Option-cases, List-cases, length, get_elem?, Elem, Bytes, get_elem?-lt,
  get_elem?-set_self, get_elem?-set_ne, length-set,
}
use static_distro.Solve.Names.{Has, Distinct, Grows, add_deps-Grows}
use static_distro.Solve.{
  Version, Package, SolveProblem, Outcome, done, failed, aborted, GetPkt, new_package, set_package,
  call_get_pkt, add_deps, choose, run_round,
}
use native.Mathlib.Decide.{ℕ_discrete}

-- What the solver relies on when it asks for the package `name`: no package comes or goes, is
-- renamed, or gets another choice, and only this one may change at all.
pub record Retains (name : Bytes) (p q : SolveProblem) : Type 0 where
  pub same_length : length q.packages ≡ length p.packages
  pub same_solved : q.solved ≡ p.solved
  pub at :
      (i : ℕ) (a : Package)
      → get_elem? p.packages i ≡ some a
      → (b : Package) × (get_elem? q.packages i ≡ some b)
        × (b.name ≡ a.name)
        × (b.chosen ≡ a.chosen)
        × (a.name ≢ name → b ≡ a)

-- The interface of the callback: `get_pkt` retains the problem in this sense, whenever it is asked
-- for a package that the problem has.
pub record IsPacketSource {W : Type 0} (get : Option (GetPkt W)) : Type 0 where
  pub retains :
      (w : W) (p : SolveProblem) (name : Bytes) (w' : W) (q : SolveProblem)
      → Has p name
      → call_get_pkt get w p name ≡ done (w', q)
      → Retains name p q

get_elem?_total {ℓ} :
    {A : Type ℓ} (xs : List A) (i : ℕ) → i < length xs → (a : A) × (get_elem? xs i ≡ some a)
get_elem?_total [] i h = absurd (omega arith)
get_elem?_total (x ∷ xs) zero h = (x, refl)
get_elem?_total (x ∷ xs) (suc i) h = get_elem?_total xs i (omega arith)

-- A package of the later problem comes from the one at its place.
Retains-back :
    {name : Bytes} {p q : SolveProblem} (i : ℕ) (b : Package)
    → Retains name p q
    → get_elem? q.packages i ≡ some b
    → (a : Package) × (get_elem? p.packages i ≡ some a)
      × (b.name ≡ a.name)
      × (a.name ≢ name → b ≡ a)
Retains-back {name} {p} {q} i b r h =
    let (a, at) =
      get_elem?_total p.packages i (omega (arith, get_elem?-lt q.packages i h, r.same_length)) in
    let (b', at', same, kept, alike) = r.at i a at in
    let one : b ≡ b' = ground arith in (a, at, ground arith, λ ne. one ∙ alike ne)

Retains-Distinct : {name : Bytes} {p q : SolveProblem} → Retains name p q → Distinct p → Distinct q
Retains-Distinct r d i j a b x y e =
    let (a', x', same_a, _) = Retains-back i a r x in
    let (b', y', same_b, _) = Retains-back j b r y in d i j a' b' x' y' (sym same_a ∙ e ∙ same_b)

-- After its round, the package at position `i` has its first available version chosen, each
-- constraint of that version has a package, and all else is as before but for new packages.
pub record Round (i : ℕ) (pkg : Package) (p r : SolveProblem) : Type 0 where
  pub result : Package
  pub version : Version
  pub others : List Version
  pub here : get_elem? r.packages i ≡ some result
  pub same_name : result.name ≡ pkg.name
  pub is_chosen : result.chosen ≡ some version
  pub is_first : result.available ≡ version ∷ others
  pub deps_in : (d : Bytes) → Elem d version.dependencies → Has r d
  pub elsewhere :
      (j : ℕ) (a : Package)
      → get_elem? p.packages j ≡ some a
      → j ≢ i
      → get_elem? r.packages j ≡ some a
  pub back :
      (j : ℕ) (b : Package)
      → get_elem? r.packages j ≡ some b
      → (j ≡ i)
        ⊎ (get_elem? p.packages j ≡ some b)
        ⊎ (length p.packages ≤ j) × (b ≡ new_package b.name) × Elem b.name version.dependencies
  pub distinct : Distinct r
  pub same_solved : r.solved ≡ p.solved

-- The problem with the choice made, before the constraints are added.
chosen_at : SolveProblem → ℕ → Package → Version → SolveProblem
chosen_at p i q v = set_package p i (record q { chosen = some v })

module _ (p : SolveProblem) (i : ℕ) (q : Package) (v : Version)
    (at : get_elem? p.packages i ≡ some q) where
  chosen_at-here : get_elem? (chosen_at p i q v).packages i ≡ some (record q { chosen = some v })
  unfolding chosen_at
  chosen_at-here = get_elem?-set_self p.packages i _ (get_elem?-lt p.packages i at)

  chosen_at-ne : (j : ℕ) → j ≢ i → get_elem? (chosen_at p i q v).packages j ≡ get_elem? p.packages j
  unfolding chosen_at
  chosen_at-ne j ne = get_elem?-set_ne p.packages i j _ (λ e. ne (sym e))

  -- Each package of the new list has the name of the one at its place.
  chosen_at_name :
      (j : ℕ) (b : Package)
      → get_elem? (chosen_at p i q v).packages j ≡ some b
      → (a : Package) × (get_elem? p.packages j ≡ some a) × (b.name ≡ a.name)
  chosen_at_name j b h = elim (ℕ_discrete j i) [
    | yes e ↦ (q, rw e at, ground (arith, chosen_at-here))
    | no ne ↦ (b, sym (chosen_at-ne j ne) ∙ h, refl)
  ]

  chosen_at-Distinct : Distinct p → Distinct (chosen_at p i q v)
  chosen_at-Distinct d j k a b x y e =
      let (a', x', same_a) = chosen_at_name j a x in
      let (b', y', same_b) = chosen_at_name k b y in d j k a' b' x' y' (sym same_a ∙ e ∙ same_b)

  chosen_at-length : length (chosen_at p i q v).packages ≡ length p.packages
  unfolding chosen_at
  chosen_at-length = length-set p.packages i _

module _ (p p1 : SolveProblem) (i : ℕ) (pkg q : Package) (v : Version) (rest : List Version)
    (at : get_elem? p.packages i ≡ some pkg) (distinct : Distinct p) (kept : Retains pkg.name p p1)
    (at1 : get_elem? p1.packages i ≡ some q) (first : q.available ≡ v ∷ rest) where
  after : SolveProblem
  after = add_deps (chosen_at p1 i q v) v.dependencies

  grown : Grows v.dependencies (chosen_at p1 i q v) after
  unfolding after
  grown = add_deps-Grows v.dependencies (chosen_at p1 i q v)

  same_q : q.name ≡ pkg.name
  same_q = let (b, at', same, _, _) = kept.at i pkg at in ground arith

  elsewhere_lem :
      (j : ℕ) (a : Package)
      → get_elem? p.packages j ≡ some a
      → j ≢ i
      → get_elem? after.packages j ≡ some a
  elsewhere_lem j a h ne =
      let (b, at', _, _, alike) = kept.at j a h in
      let same : b ≡ a = alike (λ e. ne (distinct j i a pkg h at e)) in
      grown.old j a (chosen_at-ne p1 i q v at1 j ne ∙ at' ∙ ap some same)

  back_lem :
      (j : ℕ) (b : Package)
      → get_elem? after.packages j ≡ some b
      → (j ≡ i)
        ⊎ (get_elem? p.packages j ≡ some b)
        ⊎ (length p.packages ≤ j) × (b ≡ new_package b.name) × Elem b.name v.dependencies
  back_lem j b h = elim (ℕ_discrete j i) [
    | yes e ↦ inl e
    | no ne ↦ inr (elim (grown.new j b h) [
      | inr (far, is_new, elem) ↦
          inr (omega (arith, chosen_at-length p1 i q v at1, kept.same_length), is_new, elem)
      | inl mid ↦
          let at_p1 = sym (chosen_at-ne p1 i q v at1 j ne) ∙ mid in
          let (a, at_p, _, alike) = Retains-back j b kept at_p1 in
          let same : b ≡ a = alike (λ e. ne (distinct j i a pkg at_p at e)) in
          inl (at_p ∙ ap some (sym same))
    ])
  ]

  after-Round : Round i pkg p after
  after-Round = record {
    result = record q { chosen = some v };
    version = v;
    others = rest;
    here = grown.old i _ (chosen_at-here p1 i q v at1);
    same_name = same_q;
    is_chosen = refl;
    is_first = first;
    deps_in = grown.named;
    elsewhere = elsewhere_lem;
    back = back_lem;
    distinct = grown.distinct (chosen_at-Distinct p1 i q v at1 (Retains-Distinct kept distinct));
    same_solved = grown.same_solved ∙ unfold chosen_at in kept.same_solved;
  }

pub choose-done :
    {W : Type 0} (w : W) (p : SolveProblem) (i : ℕ) (q : Package) (w' : W) (r : SolveProblem)
    → choose w p i q ≡ done (w', r)
    → (v : Version) × (rest : List Version) × (q.available ≡ v ∷ rest)
      × (r ≡ add_deps (set_package p i (record q { chosen = some v })) v.dependencies)
unfolding choose
choose-done w p i q w' r h = elim (List-cases q.available) [
  | inl empty ↦ absurd (ground arith)
  | inr (v, rest, e) ↦ (v, rest, e, ground arith)
]

pub Outcome-cases {ℓ} :
    {A : Type ℓ} (o : Outcome A)
    → ((a : A) × (o ≡ done a)) ⊎ ((a : A) × (o ≡ failed a)) ⊎ (o ≡ aborted)
Outcome-cases (done a) = inl (a, refl)
Outcome-cases (failed a) = inr (inl (a, refl))
Outcome-cases aborted = inr (inr refl)

module _ {W : Type 0} (get : Option (GetPkt W)) where
  abbrev pub found_round : W → SolveProblem → ℕ → Outcome (W × SolveProblem)
  found_round w p i = elim (get_elem? p.packages i) [ none ↦ aborted | some q ↦ choose w p i q ]

  pub called_done :
      (w : W) (p : SolveProblem) (i : ℕ) (pkg : Package) (w' : W) (r : SolveProblem)
      → run_round get w p i pkg ≡ done (w', r)
      → (w1 : W) × (p1 : SolveProblem) × (call_get_pkt get w p pkg.name ≡ done (w1, p1))
        × (found_round w1 p1 i ≡ done (w', r))
  unfolding run_round
  called_done w p i pkg w' r h = elim (Outcome-cases (call_get_pkt get w p pkg.name)) [
    | inl ((w1, p1), e) ↦ (w1, p1, e, ground arith)
    | inr (inl (s, e)) ↦ absurd (ground arith)
    | inr (inr e) ↦ absurd (ground arith)
  ]

  pub found_some :
      (p : SolveProblem) (i : ℕ) (w w' : W) (r : SolveProblem)
      → found_round w p i ≡ done (w', r)
      → (q : Package) × (get_elem? p.packages i ≡ some q) × (choose w p i q ≡ done (w', r))
  found_some p i w w' r h = elim (Option-cases (get_elem? p.packages i)) [
    | inl e ↦ absurd (ground arith)
    | inr (q, e) ↦ (q, e, ground arith)
  ]

module _ {W : Type 0} (get : Option (GetPkt W)) (source : IsPacketSource get) where
  -- A round that succeeds does what `Round` says.
  pub run_round-Round :
      (w : W) (p : SolveProblem) (i : ℕ) (pkg : Package) (w' : W) (r : SolveProblem)
      → get_elem? p.packages i ≡ some pkg
      → Distinct p
      → run_round get w p i pkg ≡ done (w', r)
      → Round i pkg p r
  run_round-Round w p i pkg w' r at d h =
      let (w1, p1, called, h1) = called_done get w p i pkg w' r h in
      let (q, at1, h2) = found_some get p1 i w1 w' r h1 in
      let (v, rest, first, is_r) = choose-done w1 p1 i q w' r h2 in
      subst (Round i pkg p) (sym is_r) (
        unfold after chosen_at in
        after-Round p p1 i pkg q v rest at d
          (source.retains w p pkg.name w1 p1 (i, pkg, at, refl) called) at1 first)
