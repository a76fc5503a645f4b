-- ===== src/Memory/Slot.antt =====
-- A pointer of a block that is set to what a function allocates.
use static_distro.Shared.{
  ℕ, ◌+◌, ◌≤◌, Bool, false, List, [], ◌∷◌, ◌++◌, some, none, ◌≡◌, refl, sym, ap, ◌∙◌, subst, length,
  length-append, Elem, inl, inr, arith, append_assoc, append-nil,
}
use static_distro.Memory.{Result, Kind, Pointer, Block, Heap, M, done, put}
use static_distro.Memory.Alloc.{slot, put-same, put-apart}
use static_distro.Memory.Owned.{
  Pointers, parts, rest, Owned, nothing, null, block, Distinct, Elem-left, Elem-right,
  Distinct-left, Distinct-right, Distinct-apart, Owned-frame, Owned-split,
}
use static_distro.Memory.Holds.{
  Holds, holds, Holds-more, Extends, Extends-append, Extends-put, Extends-reorder, Elem-append,
  Distinct-append, Owned-join, Owned-Elem, Gives, gives,
}

insert-to : (a : ℕ) (xs zs ys : List ℕ) → Elem a ((xs ++ ys) ++ zs) → Elem a (xs ++ (zs ++ ys))
insert-to a xs zs ys w = elim (Elem-append a (xs ++ ys) zs w) [
  | inl l ↦ elim (Elem-append a xs ys l) [
    | inl x ↦ Elem-left a xs (zs ++ ys) x
    | inr y ↦ Elem-right a xs (zs ++ ys) (Elem-right a zs ys y)
  ]
  | inr z ↦ Elem-right a xs (zs ++ ys) (Elem-left a zs ys z)
]

insert-from : (a : ℕ) (xs zs ys : List ℕ) → Elem a (xs ++ (zs ++ ys)) → Elem a ((xs ++ ys) ++ zs)
insert-from a xs zs ys w = elim (Elem-append a xs (zs ++ ys) w) [
  | inl x ↦ Elem-left a (xs ++ ys) zs (Elem-left a xs ys x)
  | inr r ↦ elim (Elem-append a zs ys r) [
    | inl z ↦ Elem-right a (xs ++ ys) zs z
    | inr y ↦ Elem-left a (xs ++ ys) zs (Elem-right a xs ys y)
  ]
]

Distinct-insert :
    (xs zs ys : List ℕ)
    → Distinct (xs ++ ys)
    → Distinct zs
    → ((a : ℕ) → Elem a zs → ¬ Elem a (xs ++ ys))
    → Distinct (xs ++ (zs ++ ys))
Distinct-insert xs zs ys d e n =
    Distinct-append xs (zs ++ ys) (Distinct-left xs ys d)
      (Distinct-append zs ys e (Distinct-right xs ys d) (λ a z y. n a z (Elem-right a xs ys y)))
      (λ a x r. elim (Elem-append a zs ys r) [
        | inl z ↦ n a z (Elem-left a xs ys x)
        | inr y ↦ Distinct-apart xs ys d a y x
      ])

nothing-owned : {h : Heap} {xs : List ℕ} → Owned h [] xs → xs ≡ []
nothing-owned nothing = refl

pub null-owned :
    {h : Heap} {k : Kind} {ps : Pointers} {xs : List ℕ}
    → Owned h ((k, none) ∷ ps) xs
    → Owned h ps xs
null-owned (null e o) = o

-- What a function that sets a pointer leaves to this pointer.
abbrev pub left_to : Kind → Bool × Pointer → Pointers
left_to k (ok, p) = (k, p) ∷ []

regrouped :
    (a : ℕ) (xs zs ys : List ℕ) → (xs ++ (zs ++ ys)) ++ (a ∷ []) ≡ xs ++ (zs ++ (ys ++ (a ∷ [])))
regrouped a xs zs ys = simp (append_assoc)

-- What is known of the block at `a`, and of all that it owns.
abbrev pub Held : (j : Kind) → ℕ → ℕ → Heap → Heap → Block j → List ℕ → Type 0
Held j m a h0 h f us =
    (h j a ≡ some f)
    × Owned h (parts j f) us
    × Owned h ((j, some a) ∷ []) (us ++ (a ∷ []))
    × Distinct (us ++ (a ∷ []))
    × Extends h0 (us ++ (a ∷ [])) h
    × (length (us ++ (a ∷ [])) ≤ m)

pub Holds-Held :
    (j : Kind) (single : (f : Block j) → rest j f ≡ []) (m a : ℕ) (h0 h : Heap)
    → Holds h0 ((j, some a) ∷ []) m h
    → (f : Block j) × (us : List ℕ) × Held j m a h0 h f us
Holds-Held j single m a h0 h
      (holds {xs = all} (block {xs = us} {ys = ys} f e op or nothing eq) d ex b) =
    let no_rest : ys ≡ [] = nothing-owned (subst (λ ps. Owned h ps ys) (single f) or) in
    let alone : all ≡ us ++ (a ∷ []) = eq ∙ ap (λ l. us ++ (a ∷ l)) (append-nil ys ∙ no_rest) in
    (
      f,
      us,
      (
        e,
        op,
        subst (Owned h ((j, some a) ∷ [])) alone (block f e op or nothing eq),
        subst Distinct alone d,
        subst (λ l. Extends h0 l h) alone ex,
        subst (λ l. length l ≤ m) alone b,
      ),
    )

pub kept-block :
    (j : Kind) (m n a : ℕ) (h0 h h1 : Heap) (f : Block j) (us : List ℕ) (ps : Pointers)
    → Held j m a h0 h f us
    → Holds h ps n h1
    → h1 j a ≡ some f
kept-block j m n a h0 h h1 f us ps (e, op, o, d, ex, b) (holds oz dz ez bz) =
    ez.same j a (λ z. Owned-Elem a o (Elem-right a us (a ∷ []) (inl refl)) (λ i. ez.new i a z)) ∙ e

-- A block that is no part of a list is written, with other pointers in the place of some that own
-- nothing: those that own what was allocated since.
pub swap-Holds :
    (j : Kind) (single : (f : Block j) → rest j f ≡ []) (m n a : ℕ) (h0 h h1 : Heap) (f g : Block j)
    (before after olds news : Pointers) (us : List ℕ)
    → parts j f ≡ before ++ (olds ++ after)
    → parts j g ≡ before ++ (news ++ after)
    → ((ys : List ℕ) → Owned h (olds ++ after) ys → Owned h after ys)
    → Held j m a h0 h f us
    → Holds h news n h1
    → Holds h0 ((j, some a) ∷ []) (m + n) (put j a g h1)
swap-Holds j single m n a h0 h h1 f g before after olds news us parts_f parts_g drop_olds
      (e, op, o, d, ex, b) (holds {xs = zs} oz dz ez bz) =
    let h2 = put j a g h1 in
    let (xs, ys, ox, oy, eq) =
      Owned-split before (olds ++ after) (subst (λ ps. Owned h ps us) parts_f op) in
    let last = ys ++ (a ∷ []) in
    let order : us ++ (a ∷ []) ≡ xs ++ last =
      ap (λ l. l ++ (a ∷ [])) eq ∙ append_assoc xs ys (a ∷ []) in
    let apart : (x : ℕ) → Elem x zs → ¬ Elem x (us ++ (a ∷ [])) =
      λ x z w. Owned-Elem x o w (λ i. ez.new i x z) in
    let apart' : (x : ℕ) → Elem x zs → ¬ Elem x (xs ++ last) =
      λ x z w. apart x z (subst (Elem x) (sym order) w) in
    let d' : Distinct (xs ++ last) = subst Distinct order d in
    let old : (i : Kind) (x : ℕ) → Elem x us → h2 i x ≡ h i x = λ i x w.
      put-apart j i a x g h1
        (λ s. Distinct-apart us (a ∷ []) d a (inl refl) (subst (λ c. Elem c us) (sym s) w))
      ∙ ez.same i x (λ z. apart x z (Elem-left x us (a ∷ []) w)) in
    let new : (i : Kind) (x : ℕ) → Elem x zs → h2 i x ≡ h1 i x = λ i x z.
      put-apart j i a x g h1 (λ s.
        apart x z (subst (λ c. Elem c (us ++ (a ∷ []))) s (Elem-right a us (a ∷ []) (inl refl)))) in
    let back : (x : ℕ) → Elem x (xs ++ ys) → Elem x us = λ x w. subst (Elem x) (sym eq) w in
    let owned_parts : Owned h2 (before ++ (news ++ after)) (xs ++ (zs ++ ys)) =
      Owned-join (Owned-frame (λ i x w. old i x (back x (Elem-left x xs ys w))) ox) (
        Owned-join (Owned-frame new oz)
          (Owned-frame (λ i x w. old i x (back x (Elem-right x xs ys w))) (drop_olds ys oy))) in
    let ex' : Extends h0 (xs ++ (zs ++ last)) h1 =
      Extends-reorder ((xs ++ last) ++ zs) (xs ++ (zs ++ last)) (λ x w. insert-to x xs zs last w)
        (λ x w. insert-from x xs zs last w)
        (Extends-append (xs ++ last) zs (subst (λ l. Extends h0 l h) order ex) ez apart') in
    let size = length-append xs (zs ++ last) in
    let size2 = length-append zs last in
    let size3 = length-append xs last in
    let size4 : length (us ++ (a ∷ [])) ≡ length (xs ++ last) = ap length order in
    holds
      (block g (put-same j a g h1)
        (subst (λ ps. Owned h2 ps (xs ++ (zs ++ ys))) (sym parts_g) owned_parts)
        (subst (λ ps. Owned h2 ps []) (sym (single g)) nothing) nothing
        (sym (regrouped a xs zs ys)))
      (Distinct-insert xs zs last d' dz apart')
      (Extends-put j a g
        (Elem-right a xs (zs ++ last) (Elem-right a zs last (Elem-right a ys (a ∷ []) (inl refl))))
        ex')
      (omega arith)

-- A block is written, with the same pointers.
pub keep-Holds :
    (j : Kind) (single : (f : Block j) → rest j f ≡ []) (m a : ℕ) (h0 h : Heap) (f g : Block j)
    (us : List ℕ)
    → parts j g ≡ parts j f
    → Held j m a h0 h f us
    → Holds h0 ((j, some a) ∷ []) m (put j a g h)
keep-Holds j single m a h0 h f g us same (e, op, o, d, ex, b) =
    let h' = put j a g h in
    let kept : Owned h' (parts j f) us =
      Owned-frame
        (λ i x w.
          put-apart j i a x g h
            (λ s. Distinct-apart us (a ∷ []) d a (inl refl) (subst (λ c. Elem c us) (sym s) w)))
        op in
    holds
      (block g (put-same j a g h) (subst (λ ps. Owned h' ps us) (sym same) kept)
        (subst (λ ps. Owned h' ps []) (sym (single g)) nothing) nothing refl)
      d (Extends-put j a g (Elem-right a us (a ∷ []) (inl refl)) ex) b

-- A run that leaves the block at `a` with a pointer set, and what was allocated for it.
pub data Sets (j : Kind) (set : Block j → Pointer → Block j) (m a : ℕ) (h0 h : Heap)
    (r : Result Bool) : Type 0 where
  sets :
      (b : Bool) (h' : Heap) (f : Block j) (p : Pointer)
      → r ≡ done b h'
      → Holds h0 ((j, some a) ∷ []) m h'
      → h j a ≡ some f
      → h' j a ≡ some (set f p)
      → Sets j set m a h0 h r

-- A block that is no part of a list, with a pointer between others that it owns.
module _ (j k : Kind) (get : Block j → Pointer) (set : Block j → Pointer → Block j)
    (before after : Block j → Pointers) (single : (f : Block j) → rest j f ≡ [])
    (parts_get : (f : Block j) → parts j f ≡ before f ++ ((k, get f) ∷ after f))
    (parts_set : (f : Block j) (p : Pointer)
      → parts j (set f p) ≡ before f ++ ((k, p) ∷ after f)) where
  set-Holds :
      (m n a : ℕ) (h0 h h1 : Heap) (f : Block j) (p : Pointer) (us : List ℕ)
      → Held j m a h0 h f us
      → get f ≡ none
      → Holds h ((k, p) ∷ []) n h1
      → Holds h0 ((j, some a) ∷ []) (m + n) (put j a (set f p) h1)
  set-Holds m n a h0 h h1 f p us at is_null new =
      swap-Holds j single m n a h0 h h1 f (set f p) (before f) (after f) ((k, none) ∷ [])
        ((k, p) ∷ []) us (parts_get f ∙ ap (λ q. before f ++ ((k, q) ∷ after f)) is_null)
        (parts_set f p) (λ ys o. null-owned o) at new

  pub slot-Sets :
      (m n a : ℕ) (h0 h : Heap) (run : Pointer → M (Bool × Pointer))
      → ((h : Heap) → Gives h n (left_to k) (run none h))
      → ((b : ℕ) (h : Heap) → run (some b) h ≡ done (false, some b) h)
      → Holds h0 ((j, some a) ∷ []) m h
      → Sets j set (m + n) a h0 h (slot j get set a run h)
  slot-Sets m n a h0 h run on_null on_set held =
      let (f, us, at) = Holds-Held j single m a h0 h held in from f us at (get f) refl
    where
      from :
          (f : Block j) (us : List ℕ)
          → Held j m a h0 h f us
          → (q : Pointer) → get f ≡ q
          → Sets j set (m + n) a h0 h (slot j get set a run h)
      from f us at (some b) is_set =
          sets false (put j a (set f (get f)) h) f (get f)
            (rw (at.0, is_set, on_set b h, at.0, at.0) refl)
            (Holds-more (omega arith) (
              keep-Holds j single m a h0 h f (set f (get f)) us
                (parts_set f (get f) ∙ sym (parts_get f)) at))
            at.0 (put-same j a (set f (get f)) h)
      from f us at none is_null = elim (on_null h) [
        | gives (ok, p) h1 e new ↦
            sets ok (put j a (set f p) h1) f p
              (let still = kept-block j m n a h0 h h1 f us ((k, p) ∷ []) at new in
                rw (at.0, is_null, e, still, still) refl)
              (set-Holds m n a h0 h h1 f p us at is_null new) at.0 (put-same j a (set f p) h1)
      ]
