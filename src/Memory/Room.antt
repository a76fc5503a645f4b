-- ===== src/Memory/Room.antt =====
-- How many of a list of addresses can be in use in a heap.
use native.Mathlib.Decide.{ℕ_discrete}
use static_distro.Memory.Owned.{Distinct}
use static_distro.Shared.{
  ℕ, zero, suc, ◌≤◌, ◌≡◌, ◌⊎◌, refl, sym, ap, ◌∙◌, subst, inl, inr, List, [], ◌∷◌, length, Elem,
  arith,
}

-- A list without one place of an address in it.
without_one :
    (a : ℕ) (ys : List ℕ)
    → Elem a ys
    → (zs : List ℕ) × (length ys ≡ suc (length zs)) × ((b : ℕ) → Elem b ys → ¬ (b ≡ a) → Elem b zs)
without_one a [] w = absurd w
without_one a (y ∷ ys) (inl e) =
    (ys, refl, λ b w ne. elim w [ inl same ↦ absurd (ne (same ∙ sym e)) | inr later ↦ later ])
without_one a (y ∷ ys) (inr w) =
    let (zs, n, keep) = without_one a ys w in
    (y ∷ zs, ap suc n, λ b v ne. elim v [ inl same ↦ inl same | inr later ↦ inr (keep b later ne) ])

-- Different addresses, all of them in a list, are not more than this list is long.
pub Distinct-length :
    (xs ys : List ℕ) → Distinct xs → ((a : ℕ) → Elem a xs → Elem a ys) → length xs ≤ length ys
Distinct-length [] ys d inside = omega arith
Distinct-length (x ∷ xs) ys d inside =
    let (zs, n, keep) = without_one x ys (inside x (inl refl)) in
    omega (
      arith,
      n,
      Distinct-length xs zs d.1
          (λ a w. keep a (inside a (inr w)) (λ same. d.0 (subst (λ z. Elem z xs) same w))),
    )

pub Elem-cases : (a : ℕ) (xs : List ℕ) → Elem a xs ⊎ ¬ Elem a xs
Elem-cases a [] = inr (λ w. w)
Elem-cases a (x ∷ xs) = elim (ℕ_discrete a x) [
  | yes e ↦ inl (inl e)
  | no ne ↦ elim (Elem-cases a xs) [
    | inl later ↦ inl (inr later)
    | inr not_later ↦ inr (λ w. elim w [ inl same ↦ ne same | inr later ↦ not_later later ])
  ]
]

-- The addresses from `n` down to 1.
abbrev pub down_from : ℕ → List ℕ
down_from zero = []
down_from (suc n) = suc n ∷ down_from n

pub length-down_from : (n : ℕ) → length (down_from n) ≡ n
length-down_from zero = refl
length-down_from (suc n) = ap suc (length-down_from n)

down_from_bound : (n a : ℕ) → Elem a (down_from n) → a ≤ n
down_from_bound zero a w = absurd w
down_from_bound (suc n) a (inl e) = omega arith
down_from_bound (suc n) a (inr w) = omega (arith, down_from_bound n a w)

pub down_from-Distinct : (n : ℕ) → Distinct (down_from n)
down_from-Distinct zero = tt
down_from-Distinct (suc n) =
    (λ w. absurd (omega (arith, down_from_bound n (suc n) w)), down_from-Distinct n)
