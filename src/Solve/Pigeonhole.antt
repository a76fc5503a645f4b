-- ===== src/Solve/Pigeonhole.antt =====
-- The number of packages of a problem of tools/solve.c whose names come from a list.
use static_distro.Shared.{
  ℕ, suc, ◌≤◌, ◌≡◌, ◌≢◌, inl, inr, refl, sym, ap, ◌∙◌, List, [], ◌∷◌, some, if◌then◌else◌, arith,
  Bool-cases, length, get_elem?, Elem, Bytes, str_eq, str_eq_iff,
}
use static_distro.Solve.{Package}

-- The list without the first place of a name.
remove : Bytes → List Bytes → List Bytes
remove n [] = []
remove n (u ∷ us) = let rest = u ∷ remove n us in if str_eq n u then us else rest

length-remove : (n : Bytes) (us : List Bytes) → Elem n us → suc (length (remove n us)) ≡ length us
unfolding remove
length-remove n [] h = absurd h
length-remove n (u ∷ us) h = elim (Bool-cases (str_eq n u)) [
  | inl same ↦ rw (same, remove)
  | inr other ↦ elim h [
    | inl e ↦ absurd (ground (arith, str_eq_iff n u))
    | inr later ↦ rw (other, remove) (ap suc (length-remove n us later))
  ]
]

Elem-remove : (n m : Bytes) (us : List Bytes) → Elem m us → m ≢ n → Elem m (remove n us)
unfolding remove
Elem-remove n m [] h ne = absurd h
Elem-remove n m (u ∷ us) h ne = elim (Bool-cases (str_eq n u)) [
  | inl same ↦ elim h [
    | inl e ↦ absurd (ne (e ∙ sym ((str_eq_iff n u).0 same)))
    | inr later ↦ rw (Elem, same, remove) later
  ]
  | inr other ↦ elim h [
    | inl e ↦ rw (Elem, other, remove) (inl e)
    | inr later ↦ rw (Elem, other, remove) (inr (Elem-remove n m us later ne))
  ]
]

-- Packages with different names, all of them in a list, are not more than this list is long.
pub pigeonhole :
    (pkgs : List Package) (us : List Bytes)
    → ((i : ℕ) (a : Package) → get_elem? pkgs i ≡ some a → Elem a.name us)
    → ((i j : ℕ) (a b : Package)
        → get_elem? pkgs i ≡ some a
        → get_elem? pkgs j ≡ some b
        → a.name ≡ b.name
        → i ≡ j)
    → length pkgs ≤ length us
pigeonhole [] us named distinct = omega arith
pigeonhole (p ∷ pkgs) us named distinct =
    let rest : length pkgs ≤ length (remove p.name us) =
      pigeonhole pkgs (remove p.name us)
        (λ i a h.
          Elem-remove p.name a.name us (named (suc i) a h)
            (λ same. absurd (apart i (distinct (suc i) 0 a p h refl same))))
        (λ i j a b x y e. suc_injective (distinct (suc i) (suc j) a b x y e)) in
    omega (arith, length-remove p.name us (named 0 p refl))
  where
    apart : (i : ℕ) → suc i ≢ 0
    apart i e = omega arith

    suc_injective : {i j : ℕ} → suc i ≡ suc j → i ≡ j
    suc_injective e = omega arith
