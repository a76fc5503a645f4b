-- ===== src/Shared/Order.antt =====
-- Total orders given by a comparison function, and the lexicographic order on lists.
use static_distro.Shared.{compare, Ordering, ◌≡◌, refl, List, [], ◌∷◌, arith}

-- What comparing the other way round gives.
abbrev pub flip : Ordering → Ordering
flip Ordering.lt = Ordering.gt
flip Ordering.eq = Ordering.eq
flip Ordering.gt = Ordering.lt

-- The first comparison decides, unless it finds no difference.
abbrev pub then_cmp : Ordering → Ordering → Ordering
then_cmp Ordering.lt _ = Ordering.lt
then_cmp Ordering.gt _ = Ordering.gt
then_cmp Ordering.eq d = d

pub record IsOrder {ℓ} {A : Type ℓ} (cmp : A → A → Ordering) : Type ℓ where
  pub same : (a : A) → cmp a a ≡ Ordering.eq
  pub eq_only : (a b : A) → cmp a b ≡ Ordering.eq → a ≡ b
  pub flipped : (a b : A) → cmp b a ≡ flip (cmp a b)
  pub trans : (a b c : A) → cmp a b ≡ Ordering.lt → cmp b c ≡ Ordering.lt → cmp a c ≡ Ordering.lt

pub compare-IsOrder : IsOrder compare
compare-IsOrder = record {
  same = λ a. ground arith;
  eq_only = λ a b h. ground arith;
  flipped = λ a b. ground arith;
  trans = λ a b c h k. ground arith;
}

-- A proper prefix comes first.
unfoldable pub lex {ℓ} : {A : Type ℓ} → (A → A → Ordering) → List A → List A → Ordering
lex cmp [] [] = Ordering.eq
lex cmp [] (y ∷ ys) = Ordering.lt
lex cmp (x ∷ xs) [] = Ordering.gt
lex cmp (x ∷ xs) (y ∷ ys) = then_cmp (cmp x y) (lex cmp xs ys)

module _ {ℓ} {A : Type ℓ} {cmp : A → A → Ordering} (o : IsOrder cmp) where
  lex_same : (xs : List A) → lex cmp xs xs ≡ Ordering.eq
  unfolding lex
  lex_same [] = refl
  lex_same (x ∷ xs) = rw (o.same x, lex_same xs)

  lex_eq_only : (xs ys : List A) → lex cmp xs ys ≡ Ordering.eq → xs ≡ ys
  unfolding lex
  lex_eq_only [] [] h = refl
  lex_eq_only [] (y ∷ ys) h = cc
  lex_eq_only (x ∷ xs) [] h = cc
  lex_eq_only (x ∷ xs) (y ∷ ys) h = ground (arith, o.eq_only x y, lex_eq_only xs ys)

  lex_flipped : (xs ys : List A) → lex cmp ys xs ≡ flip (lex cmp xs ys)
  unfolding lex
  lex_flipped [] [] = refl
  lex_flipped [] (y ∷ ys) = refl
  lex_flipped (x ∷ xs) [] = refl
  lex_flipped (x ∷ xs) (y ∷ ys) = ground (arith, o.flipped x y, lex_flipped xs ys)

  lex_trans :
      (xs ys zs : List A)
      → lex cmp xs ys ≡ Ordering.lt
      → lex cmp ys zs ≡ Ordering.lt
      → lex cmp xs zs ≡ Ordering.lt
  unfolding lex
  lex_trans [] [] zs h k = cc
  lex_trans [] (y ∷ ys) [] h k = cc
  lex_trans [] (y ∷ ys) (z ∷ zs) h k = refl
  lex_trans (x ∷ xs) [] zs h k = cc
  lex_trans (x ∷ xs) (y ∷ ys) [] h k = cc
  lex_trans (x ∷ xs) (y ∷ ys) (z ∷ zs) h k =
      ground (arith, o.trans x y z, o.eq_only x y, o.eq_only y z, lex_trans xs ys zs)

  pub lex-IsOrder : IsOrder (lex cmp)
  lex-IsOrder = record {
    same = lex_same;
    eq_only = lex_eq_only;
    flipped = lex_flipped;
    trans = lex_trans;
  }
