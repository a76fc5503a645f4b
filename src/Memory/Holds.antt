-- ===== src/Memory/Holds.antt =====
-- Heaps that hold, besides what another heap holds, only what pointers own.
use static_distro.Shared.{
  ℕ, ◌+◌, ◌≤◌, List, [], ◌∷◌, ◌++◌, Option, none, some, ◌≡◌, refl, sym, ap, ◌∙◌, subst, length,
  length-append, Elem, Bool-cases, ◌==◌, inl, inr, arith, ◌⊎◌,
}
use static_distro.Memory.{Kind, Block, Heap, done, Result, erase, put}
use static_distro.Memory.Alloc.{allocated, Malloc, Fresh, alloc, alloc_with, put-apart}
use static_distro.Memory.Owned.{
  Pointers, Owned, nothing, null, block, Distinct, without, Elem-left, Elem-right, Owned-frame,
  regroup,
}

-- These addresses are in use in `h` and not in `h0`, and all others hold the same in both.
pub record Extends (h0 : Heap) (xs : List ℕ) (h : Heap) : Type 0 where
  pub new : (j : Kind) (a : ℕ) → Elem a xs → h0 j a ≡ none
  pub same : (j : Kind) (a : ℕ) → ¬ Elem a xs → h j a ≡ h0 j a

-- `malloc` gives no block for a heap that holds what `h0` holds and at most `m` blocks more.
abbrev pub Lacks : Malloc → Heap → ℕ → Type 0
Lacks malloc h0 m =
    (j : Kind) × (g : Heap) × (xs : List ℕ) × Extends h0 xs g
    × (length xs ≤ m)
    × (malloc j g ≡ none)

-- `h` holds what `h0` holds and at most `m` blocks more, which are all different, and which the pointers
-- own.
pub data Holds (h0 : Heap) (ps : Pointers) (m : ℕ) (h : Heap) : Type 0 where
  holds :
      {xs : List ℕ}
      → Owned h ps xs
      → Distinct xs
      → Extends h0 xs h
      → length xs ≤ m
      → Holds h0 ps m h

pub Elem-append : (a : ℕ) (xs ys : List ℕ) → Elem a (xs ++ ys) → Elem a xs ⊎ Elem a ys
Elem-append a [] ys e = inr e
Elem-append a (x ∷ xs) ys (inl e) = inl (inl e)
Elem-append a (x ∷ xs) ys (inr e) = elim (Elem-append a xs ys e) [
  | inl l ↦ inl (inr l)
  | inr r ↦ inr r
]

pub Distinct-append :
    (xs ys : List ℕ)
    → Distinct xs
    → Distinct ys
    → ((a : ℕ) → Elem a xs → ¬ Elem a ys)
    → Distinct (xs ++ ys)
Distinct-append [] ys d e n = e
Distinct-append (x ∷ xs) ys d e n = (
  λ w. elim (Elem-append x xs ys w) [ inl l ↦ d.0 l | inr r ↦ n x (inl refl) r ],
  Distinct-append xs ys d.1 e (λ a w. n a (inr w)),
)

-- Two heaps one after the other.
pub Extends-append :
    {h0 h1 h2 : Heap} (xs ys : List ℕ)
    → Extends h0 xs h1
    → Extends h1 ys h2
    → ((a : ℕ) → Elem a ys → ¬ Elem a xs)
    → Extends h0 (xs ++ ys) h2
Extends-append xs ys e f n = record {
  new = λ j a w. elim (Elem-append a xs ys w) [
    | inl l ↦ e.new j a l
    | inr r ↦ sym (e.same j a (n a r)) ∙ f.new j a r
  ];
  same = λ j a w.
      f.same j a (λ r. w (Elem-right a xs ys r)) ∙ e.same j a (λ l. w (Elem-left a xs ys l));
}

-- Pointers that own blocks of their own own them together.
pub Owned-join :
    {h : Heap} {ps qs : Pointers} {xs ys : List ℕ}
    → Owned h ps xs
    → Owned h qs ys
    → Owned h (ps ++ qs) (xs ++ ys)
Owned-join nothing q = q
Owned-join (null e o) q = null e (Owned-join o q)
Owned-join {qs = qs} {ys = ys} (block {a = a} {xs = us} {ys = vs} {zs = ws} f e op or os eq) q =
    block f e op or (Owned-join os q) (ap (λ l. l ++ ys) eq ∙ sym (regroup a us vs ws ys))

-- Every address that is owned is that of a block.
pub Owned-Elem :
    {h : Heap} {ps : Pointers} {xs : List ℕ} (b : ℕ)
    → Owned h ps xs
    → Elem b xs
    → ((j : Kind) → h j b ≡ none)
    → ⊥
Owned-Elem b nothing w n = elim w [ ]
Owned-Elem b (null e o) w n = Owned-Elem b o w n
Owned-Elem b (block {k = k} {a = a} {xs = us} {ys = vs} {zs = ws} f e op or os eq) w n =
    elim (Elem-append b us (a ∷ (vs ++ ws)) (subst (Elem b) eq w)) [
      | inl l ↦ Owned-Elem b op l n
      | inr (inl same) ↦ cc (e, n k, same)
      | inr (inr later) ↦ elim (Elem-append b vs ws later) [
        | inl l ↦ Owned-Elem b or l n
        | inr r ↦ Owned-Elem b os r n
      ]
    ]

pub Holds-append :
    {h0 h1 h2 : Heap} {ps qs : Pointers} {m n : ℕ}
    → Holds h0 ps m h1
    → Holds h1 qs n h2
    → Holds h0 (ps ++ qs) (m + n) h2
Holds-append (holds {xs = xs} o d e b) (holds {xs = ys} o' d' e' b') =
    let apart : (a : ℕ) → Elem a ys → ¬ Elem a xs = λ a w v. Owned-Elem a o v (λ j. e'.new j a w) in
    let size = length-append xs ys in
    holds (Owned-join (Owned-frame (λ j a w. e'.same j a (λ r. apart a r w)) o) o')
      (Distinct-append xs ys d d' (λ a v w. apart a w v)) (Extends-append xs ys e e' apart)
      (omega arith)

pub Extends-nothing : {h : Heap} → Extends h [] h
Extends-nothing = record { new = λ j a w. absurd w; same = λ j a n. refl }

-- The order of the addresses does not matter.
pub Extends-reorder :
    {h0 h : Heap} (xs ys : List ℕ)
    → ((a : ℕ) → Elem a xs → Elem a ys)
    → ((a : ℕ) → Elem a ys → Elem a xs)
    → Extends h0 xs h
    → Extends h0 ys h
Extends-reorder xs ys to from e = record {
  new = λ j a w. e.new j a (from a w);
  same = λ j a w. e.same j a (λ v. w (to a v));
}

-- A new block.
pub Extends-grow :
    {h0 h : Heap} {xs : List ℕ} (k : Kind) (a : ℕ) (f : Block k)
    → ((j : Kind) → h j a ≡ none)
    → ¬ Elem a xs
    → Extends h0 xs h
    → Extends h0 (a ∷ xs) (put k a f h)
Extends-grow {h0} {h} {xs} k a f fresh n e = record {
  new = λ j b w. elim w [
    | inl same ↦ subst (λ c. h0 j c ≡ none) (sym same) (sym (e.same j a n) ∙ fresh j)
    | inr later ↦ e.new j b later
  ];
  same =
      λ j b w. put-apart k j a b f h (λ s. w (inl (sym s))) ∙ e.same j b (λ later. w (inr later));
}

-- A write into one of the blocks.
pub Extends-put :
    {h0 h : Heap} {xs : List ℕ} (k : Kind) (a : ℕ) (f : Block k)
    → Elem a xs
    → Extends h0 xs h
    → Extends h0 xs (put k a f h)
Extends-put {h0} {h} {xs} k a f v e = record {
  new = e.new;
  same = λ j b w. put-apart k j a b f h (λ s. w (subst (λ c. Elem c xs) s v)) ∙ e.same j b w;
}

-- The block that is freed was none of `h0`.
pub Extends-erase :
    {h0 h : Heap} {xs : List ℕ} (a : ℕ) → Extends h0 (a ∷ xs) h → Extends h0 xs (erase a h)
Extends-erase {h0} {h} {xs} a e = record { new = λ j b w. e.new j b (inr w); same = erased }
  where
    erased : (j : Kind) (b : ℕ) → ¬ Elem b xs → erase a h j b ≡ h0 j b
    erased j b w = elim (Bool-cases (a == b)) [
      | inl hit ↦ rw (hit) (sym (e.new j b (inl (ground arith))))
      | inr miss ↦
          rw (miss) (e.same j b λ v. elim v [ inl s ↦ absurd (ground arith) | inr v' ↦ w v' ])
    ]

-- A run that ends, and leaves besides what was there at most `m` blocks, those that its result owns.
pub data Gives (h0 : Heap) (m : ℕ) {A : Type 0} (owns : A → Pointers) (r : Result A) : Type 0 where
  gives : (x : A) (h : Heap) → r ≡ done x h → Holds h0 (owns x) m h → Gives h0 m owns r

module _ {malloc : Malloc} (ok : Fresh malloc) (k : Kind) (h : Heap) where
  pub alloc_with-cases :
      (g : Block k)
      → (alloc_with malloc k g h ≡ done none h)
        ⊎ ((a : ℕ) × (alloc_with malloc k g h ≡ done (some a) (put k a g h))
            × ((j : Kind) → h j a ≡ none))
  alloc_with-cases g = at (malloc k h) refl
    where
      at :
          (r : Option (ℕ × Block k))
          → malloc k h ≡ r
          → (alloc_with malloc k g h ≡ done none h)
            ⊎ ((a : ℕ) × (alloc_with malloc k g h ≡ done (some a) (put k a g h))
                × ((j : Kind) → h j a ≡ none))
      at none e = inl (rw (e))
      at (some (a, f)) e = inr (a, rw (e), λ j. ok k j h a f e)

  pub alloc-cases :
      (alloc malloc k h ≡ done none h)
      ⊎ ((a : ℕ) × (f : Block k) × (alloc malloc k h ≡ done (some a) (put k a f h))
          × ((j : Kind) → h j a ≡ none))
  alloc-cases = at (malloc k h) refl
    where
      at :
          (r : Option (ℕ × Block k))
          → malloc k h ≡ r
          → (alloc malloc k h ≡ done none h)
            ⊎ ((a : ℕ) × (f : Block k) × (alloc malloc k h ≡ done (some a) (put k a f h))
                × ((j : Kind) → h j a ≡ none))
      at none e = inl (rw (e))
      at (some (a, f)) e = inr (a, f, rw (e), λ j. ok k j h a f e)

pub Holds-null :
    {h0 h : Heap} {k : Kind} {ps : Pointers} {m : ℕ}
    → Holds h0 ((k, none) ∷ ps) m h
    → Holds h0 ps m h
Holds-null (holds (null e' o) d e b) = holds o d e b

pub Holds-more : {h0 h : Heap} {ps : Pointers} {m n : ℕ} → m ≤ n → Holds h0 ps m h → Holds h0 ps n h
Holds-more le (holds o d e b) = holds o d e (omega arith)

-- All new blocks are freed.
pub Extends-without :
    {h0 : Heap} (xs : List ℕ) (h : Heap) → Extends h0 xs h → Extends h0 [] (without xs h)
Extends-without [] h e = e
Extends-without (x ∷ xs) h e = Extends-without xs (erase x h) (Extends-erase x e)

-- No block is allocated only if `malloc` gives none.
pub alloc-none :
    (malloc : Malloc) (k : Kind) (h h' : Heap) (g : Block k → Block k)
    → allocated k (malloc k h) g h ≡ done none h'
    → malloc k h ≡ none
alloc-none malloc k h h' g e = at (malloc k h) refl e
  where
    at :
        (r : Option (ℕ × Block k))
        → malloc k h ≡ r
        → allocated k r g h ≡ done none h'
        → malloc k h ≡ none
    at none e w = e
    at (some (a, f)) e w = cc
