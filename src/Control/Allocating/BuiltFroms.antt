-- ===== src/Control/Allocating/BuiltFroms.antt =====
-- The list of packages that went into the build, as control_parsefd of tools/control.c allocates it.
use static_distro.Control.{split_space}
use static_distro.Control.Allocating.{
  new_built_from, drop_built_from, add_built_from, builtfromlist_loop, next_built_from,
}
use static_distro.Control.Allocating.Lists.{null-Holds}
use static_distro.Memory.{Kind, Pointer, Block, Heap, erase, put, text, control_built_from}
use static_distro.Memory.Alloc.{Malloc, Fresh, put-new}
use static_distro.Memory.Holds.{
  Holds, holds, Extends, Extends-nothing, Extends-grow, Extends-put, Extends-erase, Extends-reorder,
  Gives, gives, alloc_with-cases, Holds-null, Holds-append, Holds-more,
}
use static_distro.Memory.Link.{link-Holds}
use static_distro.Memory.Slot.{left_to}
use static_distro.Memory.Owned.{parts, rest, nullable, nothing, null, owned}
use static_distro.Shared.{
  ℕ, ◌+◌, ◌*◌, ◌≤◌, true, false, List, [], ◌∷◌, none, some, ◌≡◌, refl, sym, subst, inl, inr, Elem,
  Bytes, length, arith, ◌==◌, Option-cases,
}

-- A struct with these pointers.
abbrev of : Pointer → Pointer → Block control_built_from
of name ver = record { package_name = name; version = ver; next = none }

module _ {malloc : Malloc} (ok : Fresh malloc) (name ver : Bytes) (h : Heap) where
  -- The heaps with the struct, with the name, with its pointer, with the version, and with both.
  abbrev with_struct : ℕ → Heap
  with_struct bf = put control_built_from bf (of none none) h

  abbrev with_name : ℕ → ℕ → Heap
  with_name bf s = put text s name (with_struct bf)

  abbrev named : ℕ → ℕ → Heap
  named bf s = put control_built_from bf (of (some s) none) (with_name bf s)

  abbrev with_version : ℕ → ℕ → ℕ → Heap
  with_version bf s v = put text v ver (named bf s)

  abbrev filled : ℕ → ℕ → ℕ → Heap
  filled bf s v =
      put control_built_from bf (of (some s) (some v))
        (put control_built_from bf (of (some s) (some v)) (with_version bf s v))

  only : (a b : ℕ) → ¬ (a ≡ b) → ¬ Elem a (b ∷ [])
  only a b ne w = elim w [ inl e ↦ ne e | inr v ↦ v ]

  struct-Extends : (bf : ℕ) → ((j : Kind) → h j bf ≡ none) → Extends h (bf ∷ []) (with_struct bf)
  struct-Extends bf fresh =
      Extends-grow control_built_from bf (of none none) fresh (λ w. w) Extends-nothing

  module _ (bf s : ℕ) (fresh : (j : Kind) → h j bf ≡ none)
      (fresh' : (j : Kind) → with_struct bf j s ≡ none) where
    bf≢s : ¬ (bf ≡ s)
    bf≢s = put-new control_built_from bf s (of none none) h fresh'

    named-Extends : Extends h (s ∷ bf ∷ []) (named bf s)
    named-Extends =
        Extends-put control_built_from bf (of (some s) none) (inr (inl refl)) (
          Extends-grow text s name fresh' (only s bf (λ e. bf≢s (sym e))) (struct-Extends bf fresh))

    module _ (v : ℕ) (fresh'' : (j : Kind) → named bf s j v ≡ none) where
      bf≢v : ¬ (bf ≡ v)
      bf≢v = put-new control_built_from bf v (of (some s) none) (with_name bf s) fresh''

      s≢v : ¬ (s ≡ v)
      s≢v e = cc (text-at, subst (λ a. named bf s text a ≡ none) (sym e) (fresh'' text))
        where
          text-at : named bf s text s ≡ some name
          text-at = ground (arith, bf≢s)

      filled-Holds : Holds h ((control_built_from, some bf) ∷ []) 3 (filled bf s v)
      unfolding parts rest nullable
      filled-Holds =
          let new : ¬ Elem v (s ∷ bf ∷ []) =
            λ w. elim w [ inl e ↦ s≢v (sym e) | inr u ↦ only v bf (λ e. bf≢v (sym e)) u ] in
          let ne = bf≢s in
          let ne' = bf≢v in
          let ne'' = s≢v in
          holds {xs = s ∷ v ∷ bf ∷ []}
            (owned (of (some s) (some v)) (ground arith)
              (owned name (ground arith) nothing nothing
                (owned ver (ground arith) nothing nothing nothing))
              (null refl nothing) nothing)
            (ground arith)
            (Extends-reorder (v ∷ s ∷ bf ∷ []) (s ∷ v ∷ bf ∷ []) swap swap' (
              Extends-put control_built_from bf (of (some s) (some v)) (inr (inr (inl refl))) (
                Extends-put control_built_from bf (of (some s) (some v)) (inr (inr (inl refl)))
                  (Extends-grow text v ver fresh'' new (named-Extends)))))
            (omega arith)
        where
          swap : (a : ℕ) → Elem a (v ∷ s ∷ bf ∷ []) → Elem a (s ∷ v ∷ bf ∷ [])
          swap a (inl e) = inr (inl e)
          swap a (inr (inl e)) = inl e
          swap a (inr (inr e)) = inr (inr e)

          swap' : (a : ℕ) → Elem a (s ∷ v ∷ bf ∷ []) → Elem a (v ∷ s ∷ bf ∷ [])
          swap' a (inl e) = inr (inl e)
          swap' a (inr (inl e)) = inl e
          swap' a (inr (inr e)) = inr (inr e)

  hit : (a : ℕ) → (a == a) ≡ true
  hit a = ground arith

  miss :
      (bf s : ℕ) (fresh : (j : Kind) → h j bf ≡ none)
      (fresh' : (j : Kind) → with_struct bf j s ≡ none)
      → (s == bf) ≡ false
  miss bf s fresh fresh' = ground (arith, bf≢s bf s fresh fresh')

  pub new_built_from-Gives :
      Gives h 3 (λ p. (control_built_from, p) ∷ []) (new_built_from malloc name ver h)
  unfolding new_built_from drop_built_from parts rest nullable
  new_built_from-Gives = elim (alloc_with-cases ok control_built_from h (of none none)) [
    | inl e ↦ gives none h (rw (e)) (null-Holds h control_built_from refl)
    | inr (bf, e, fresh) ↦ elim (alloc_with-cases ok text (with_struct bf) name) [
      | inl e' ↦
          gives none (erase bf (put control_built_from bf (of none none) (with_struct bf)))
            (rw (e, e') (ground arith))
            (holds (null refl nothing) tt
              (Extends-erase bf (
                Extends-put control_built_from bf (of none none) (inl refl)
                  (struct-Extends bf fresh)))
              (omega arith))
      | inr (s, e', fresh') ↦ elim (alloc_with-cases ok text (named bf s) ver) [
        | inl e'' ↦
            gives none
              (erase bf (erase s (put control_built_from bf (of (some s) none) (named bf s))))
              (rw (e, e', miss bf s fresh fresh', hit bf, miss bf s fresh fresh', hit bf, e'')
                (ground (arith, bf≢s bf s fresh fresh')))
              (holds (null refl nothing) tt
                (Extends-erase bf (
                  Extends-erase s (
                    Extends-put control_built_from bf (of (some s) none) (inr (inl refl))
                      (named-Extends bf s fresh fresh'))))
                (omega arith))
        | inr (v, e'', fresh'') ↦
            gives (some bf) (filled bf s v)
              (rw (e, e', miss bf s fresh fresh', hit bf, miss bf s fresh fresh', hit bf, e'')
                (ground (arith, bf≢s bf s fresh fresh', bf≢v bf s fresh fresh' v fresh'')))
              (filled-Holds bf s fresh fresh' v fresh'')
      ]
    ]
  ]

pub add_built_from-Gives :
    (n m : ℕ) (h0 h h1 : Heap) (pbf : Pointer) (bf : ℕ)
    → Holds h0 ((control_built_from, pbf) ∷ []) m h
    → Holds h ((control_built_from, some bf) ∷ []) 3 h1
    → m + 3 ≤ n
    → Gives h0 (m + 3) (λ p. (control_built_from, p) ∷ []) (add_built_from n pbf bf h1)
unfolding add_built_from parts rest
add_built_from-Gives n m h0 h h1 none bf old new le =
    gives (some bf) h1 refl (Holds-null (Holds-append old new))
add_built_from-Gives n m h0 h h1 (some a) bf old new le =
    let (h', run, held) =
      link-Holds (λ f. f.next) next_built_from (λ f. refl) (λ f p. refl) (λ f p. refl) n a bf
        (m + 3) h0 h1 (Holds-append old new) le in
    gives (some a) h' (rw (run)) held

pub builtfromlist_loop-Gives :
    {malloc : Malloc} (ok : Fresh malloc) (n m : ℕ) (ls : List Bytes) (pbf : Pointer) (h0 h : Heap)
    → Holds h0 ((control_built_from, pbf) ∷ []) m h
    → m + 3 * length ls ≤ n
    → Gives h0
        (m + 3 * length ls)
        (left_to control_built_from)
        (builtfromlist_loop malloc n ls pbf h)
unfolding builtfromlist_loop
builtfromlist_loop-Gives ok n m [] pbf h0 h held le =
    gives (true, pbf) h refl (Holds-more (omega arith) held)
builtfromlist_loop-Gives ok n m ([] ∷ ls) pbf h0 h held le =
    elim (builtfromlist_loop-Gives ok n m ls pbf h0 h held (omega arith)) [
      | gives r h' e held' ↦ gives r h' e (Holds-more (omega arith) held')
    ]
builtfromlist_loop-Gives ok n m ((c ∷ l) ∷ ls) pbf h0 h held le =
    elim (Option-cases (split_space (c ∷ l))) [
      | inl no_space ↦
          gives (false, pbf) h (rw (builtfromlist_loop, no_space)) (Holds-more (omega arith) held)
      | inr ((name, ver), split) ↦ elim (new_built_from-Gives ok name ver h) [
        | gives none h1 e new ↦
            gives (false, pbf) h1 (rw (builtfromlist_loop, split, e))
              (Holds-more (omega arith) (Holds-append held (Holds-null new)))
        | gives (some bf) h1 e new ↦
            elim (add_built_from-Gives n m h0 h h1 pbf bf held new (omega arith)) [
              | gives p h2 e' held' ↦
                  elim (builtfromlist_loop-Gives ok n (m + 3) ls p h0 h2 held' (omega arith)) [
                    | gives r h' e'' held'' ↦
                        gives r h' (rw (builtfromlist_loop, split, e, e') e'')
                          (Holds-more (omega arith) held'')
                  ]
            ]
      ]
    ]
