-- ===== src/Control/Allocating/Lists.antt =====
-- The lists that control_parsefd of tools/control.c allocates.
use static_distro.Control.Allocating.{new_dependency, add_dependency, deplist_loop, next_dependency}
use static_distro.Memory.{done, Kind, Pointer, Block, Heap, erase, put, text, control_dependency}
use static_distro.Memory.Alloc.{Malloc, Fresh, strdup, put-same, put-new}
use static_distro.Memory.Holds.{
  Extends, Lacks, Holds, holds, Extends-nothing, Extends-grow, Extends-put, Extends-erase, Gives,
  gives, alloc-cases, alloc-none, alloc_with-cases, Holds-null, Holds-append, Holds-more,
}
use static_distro.Memory.Owned.{Distinct, parts, rest, nullable, nothing, null, owned}
use static_distro.Memory.Link.{link-Holds}
use static_distro.Memory.Slot.{left_to}
use static_distro.Shared.{
  ◌+◌, ◌*◌, ◌≤◌, false, length, ℕ, List, [], ◌∷◌, none, some, true, ◌≡◌, refl, sym, inl, inr, Bytes,
  arith,
}

-- A null pointer owns nothing.
pub null-Holds : {m : ℕ} (h : Heap) (k : Kind) → nullable k ≡ true → Holds h ((k, none) ∷ []) m h
null-Holds h k e = holds (null e nothing) tt Extends-nothing (omega arith)

-- A new text.
pub strdup-Gives :
    {malloc : Malloc} (ok : Fresh malloc) (h : Heap) (s : Bytes)
    → Gives h 1 (λ p. (text, p) ∷ []) (strdup malloc s h)
unfolding parts rest nullable
strdup-Gives ok h s = elim (alloc_with-cases ok text h s) [
  | inl e ↦ gives none h e (null-Holds h text refl)
  | inr (a, e, fresh) ↦ gives (some a) (put text a s h) e (
      holds (owned s (put-same text a s h) nothing nothing nothing) (λ w. w, tt)
        (Extends-grow text a s fresh (λ w. w) Extends-nothing) (omega arith))
]

module _ {malloc : Malloc} (ok : Fresh malloc) (line : Bytes) (h : Heap) where
  -- The heaps with the struct, with its text behind it, and with the pointer to the text in it.
  abbrev pub with_struct : ℕ → Block control_dependency → Heap
  with_struct cd f = put control_dependency cd f h

  abbrev with_text : ℕ → ℕ → Block control_dependency → Heap
  with_text cd s f = put text s line (with_struct cd f)

  abbrev named : Pointer → Block control_dependency → Block control_dependency
  named p f = record f { package_name = p }

  abbrev pub filled : ℕ → ℕ → Block control_dependency → Heap
  filled cd s f =
      put control_dependency cd (record { package_name = some s; next = none })
        (put control_dependency cd (named (some s) f) (with_text cd s f))

  module _ (cd s : ℕ) (f : Block control_dependency) (fresh : (j : Kind) → h j cd ≡ none)
      (fresh' : (j : Kind) → with_struct cd f j s ≡ none) where
    cd≢s : ¬ (cd ≡ s)
    cd≢s = put-new control_dependency cd s f h fresh'

    pub two-Distinct : Distinct (s ∷ cd ∷ [])
    two-Distinct = (λ w. elim w [ inl e ↦ cd≢s (sym e) | inr v ↦ v ], ((λ w. w), tt))

    pub filled-Extends : Extends h (s ∷ cd ∷ []) (filled cd s f)
    filled-Extends =
        Extends-put control_dependency cd (record { package_name = some s; next = none })
          (inr (inl refl))
          (Extends-put control_dependency cd (named (some s) f) (inr (inl refl)) (
            Extends-grow text s line fresh' two-Distinct.0
              (Extends-grow control_dependency cd f fresh (λ w. w) Extends-nothing)))

    pub filled_struct :
        filled cd s f control_dependency cd ≡ some (record { package_name = some s; next = none })
    filled_struct =
        put-same control_dependency cd (record { package_name = some s; next = none })
          (put control_dependency cd (named (some s) f) (with_text cd s f))

    pub filled_text : filled cd s f text s ≡ some line
    filled_text = ground (arith, cd≢s)

    dependency-Holds : Holds h ((control_dependency, some cd) ∷ []) 2 (filled cd s f)
    unfolding parts rest nullable
    dependency-Holds =
        holds {xs = s ∷ cd ∷ []}
          (owned (record { package_name = some s; next = none }) filled_struct
            (owned line filled_text nothing nothing nothing) (null refl nothing) nothing)
          two-Distinct filled-Extends (omega arith)

  -- A new dependency in the memory, or the memory as it was.
  pub data NewDependency : Type 0 where
    failed :
        (h1 : Heap)
        → Lacks malloc h 1
        → new_dependency malloc line h ≡ done none h1
        → Extends h [] h1
        → NewDependency
    made :
        (cd s : ℕ) (f : Block control_dependency)
        → new_dependency malloc line h ≡ done (some cd) (filled cd s f)
        → ((j : Kind) → h j cd ≡ none)
        → ((j : Kind) → with_struct cd f j s ≡ none)
        → NewDependency

  pub new_dependency-cases : NewDependency
  unfolding new_dependency
  new_dependency-cases = elim (alloc-cases ok control_dependency h) [
    | inl e ↦
        failed h
          (
            control_dependency,
            h,
            [],
            Extends-nothing,
            omega arith,
            alloc-none malloc control_dependency h h (λ x. x) e,
          )
          (rw (e) refl) Extends-nothing
    | inr (cd, f, e, fresh) ↦ elim (alloc_with-cases ok text (with_struct cd f) line) [
      | inl e' ↦
          failed (erase cd (put control_dependency cd (named none f) (with_struct cd f)))
            (
              text,
              with_struct cd f,
              cd ∷ [],
              Extends-grow control_dependency cd f fresh (λ w. w) Extends-nothing,
              omega arith,
              alloc-none malloc text (with_struct cd f) (with_struct cd f) (λ _. line) e',
            )
            (rw (e, e') (ground arith))
            (Extends-erase cd (
              Extends-put control_dependency cd (named none f) (inl refl)
                (Extends-grow control_dependency cd f fresh (λ w. w) Extends-nothing)))
      | inr (s, e', fresh') ↦
          made cd s f (rw (e, e') (ground (arith, put-new control_dependency cd s f h fresh')))
            fresh fresh'
    ]
  ]

  pub new_dependency-Gives :
      Gives h 2 (λ p. (control_dependency, p) ∷ []) (new_dependency malloc line h)
  unfolding nullable
  new_dependency-Gives = elim new_dependency-cases [
    | failed h1 lacking e ex ↦ gives none h1 e (holds (null refl nothing) tt ex (omega arith))
    | made cd s f e fresh fresh' ↦
        gives (some cd) (filled cd s f) e (dependency-Holds cd s f fresh fresh')
  ]

pub add_dependency-Gives :
    (n m : ℕ) (h0 h h1 : Heap) (pcd : Pointer) (cd : ℕ)
    → Holds h0 ((control_dependency, pcd) ∷ []) m h
    → Holds h ((control_dependency, some cd) ∷ []) 2 h1
    → m + 2 ≤ n
    → Gives h0 (m + 2) (λ p. (control_dependency, p) ∷ []) (add_dependency n pcd cd h1)
unfolding add_dependency parts rest
add_dependency-Gives n m h0 h h1 none cd old new le =
    gives (some cd) h1 refl (Holds-null (Holds-append old new))
add_dependency-Gives n m h0 h h1 (some a) cd old new le =
    let (h', run, held) =
      link-Holds (λ f. f.next) next_dependency (λ f. refl) (λ f p. refl) (λ f p. refl) n a cd
        (m + 2) h0 h1 (Holds-append old new) le in
    gives (some a) h' (rw (run)) held

pub deplist_loop-Gives :
    {malloc : Malloc} (ok : Fresh malloc) (n m : ℕ) (ls : List Bytes) (pcd : Pointer) (h0 h : Heap)
    → Holds h0 ((control_dependency, pcd) ∷ []) m h
    → m + 2 * length ls ≤ n
    → Gives h0 (m + 2 * length ls) (left_to control_dependency) (deplist_loop malloc n ls pcd h)
unfolding deplist_loop
deplist_loop-Gives ok n m [] pcd h0 h held le =
    gives (true, pcd) h refl (Holds-more (omega arith) held)
deplist_loop-Gives ok n m ([] ∷ ls) pcd h0 h held le =
    elim (deplist_loop-Gives ok n m ls pcd h0 h held (omega arith)) [
      | gives r h' e held' ↦ gives r h' e (Holds-more (omega arith) held')
    ]
deplist_loop-Gives ok n m ((c ∷ l) ∷ ls) pcd h0 h held le =
    elim (new_dependency-Gives ok (c ∷ l) h) [
      | gives none h1 e new ↦
          gives (false, pcd) h1 (rw (e))
            (Holds-more (omega arith) (Holds-append held (Holds-null new)))
      | gives (some cd) h1 e new ↦
          elim (add_dependency-Gives n m h0 h h1 pcd cd held new (omega arith)) [
            | gives p h2 e' held' ↦
                elim (deplist_loop-Gives ok n (m + 2) ls p h0 h2 held' (omega arith)) [
                  | gives r h' e'' held'' ↦
                      gives r h' (rw (e, e') e'') (Holds-more (omega arith) held'')
                ]
          ]
    ]
