-- ===== src/Memory/Link.antt =====
-- The loops of tools/control.c that put a new block at the end of a list.
use static_distro.Shared.{
  ℕ, zero, suc, ◌≤◌, List, [], ◌∷◌, ◌++◌, none, some, ◌≡◌, refl, sym, ap, ◌∙◌, subst, length,
  length-append, Elem, inl, inr, arith, append_assoc, append-nil,
}
use static_distro.Memory.{Kind, Pointer, Block, Heap, done, put}
use static_distro.Memory.Owned.{
  parts, rest, Owned, nothing, null, block, Distinct, Elem-left, Elem-right, Distinct-right,
  Distinct-apart, Owned-frame, Owned-split,
}
use static_distro.Memory.Alloc.{link_last, put-same, put-apart}
use static_distro.Memory.Holds.{Holds, holds}

-- The pointer to the rest of a list, in the blocks of a kind.
module _ {k : Kind} (next : Block k → Pointer) (set_next : Block k → Pointer → Block k)
    (rest_next : (f : Block k) → rest k f ≡ (k, next f) ∷ [])
    (rest_set : (f : Block k) (p : Pointer) → rest k (set_next f p) ≡ (k, p) ∷ [])
    (parts_set : (f : Block k) (p : Pointer) → parts k (set_next f p) ≡ parts k f) where
  -- How the loop ends: the first list has the second one behind it, and nothing else is changed.
  Linked : ℕ → ℕ → ℕ → Heap → List ℕ → List ℕ → Type 0
  Linked n a c h xs ys =
      (h' : Heap) × (link_last k next set_next n a c h ≡ done tt h')
      × Owned h' ((k, some a) ∷ []) (xs ++ ys)
      × ((j : Kind) (b : ℕ) → ¬ Elem b xs → h' j b ≡ h j b)

  here :
      (n a c : ℕ) (h : Heap) (f : Block k) (us ys : List ℕ)
      → h k a ≡ some f
      → next f ≡ none
      → Owned h (parts k f) us
      → Owned h ((k, some c) ∷ []) ys
      → Distinct (us ++ (a ∷ ys))
      → Linked (suc n) a c h (us ++ (a ∷ [])) ys
  unfolding Linked link_last
  here n a c h f us ys e is_none o oc d =
      let h' = put k a (set_next f (some c)) h in
      let kept : (j : Kind) (b : ℕ) → ¬ (a ≡ b) → h' j b ≡ h j b =
        λ j b ne. put-apart k j a b (set_next f (some c)) h ne in
      let parts' : Owned h' (parts k f) us =
        Owned-frame
          (λ j b w.
            kept j b λ same.
              Distinct-apart us (a ∷ ys) d a (inl refl) (subst (λ x. Elem x us) (sym same) w))
          o in
      let rest' : Owned h' ((k, some c) ∷ []) ys =
        Owned-frame
          (λ j b w.
            kept j b λ same. (Distinct-right us (a ∷ ys) d).0 (subst (λ x. Elem x ys) (sym same) w))
          oc in
      (
        h',
        rw (e, is_none, e),
        block (set_next f (some c)) (put-same k a (set_next f (some c)) h)
            (subst (λ ps. Owned h' ps us) (sym (parts_set f (some c))) parts')
            (subst (λ ps. Owned h' ps ys) (sym (rest_set f (some c))) rest') nothing
            (append_assoc us (a ∷ []) ys ∙ ap (λ l. us ++ (a ∷ l)) (sym (append-nil ys))),
        λ j b w. kept j b (λ same. w (Elem-right b us (a ∷ []) (inl (sym same)))),
      )

  further :
      (n a b c : ℕ) (h : Heap) (f : Block k) (us vs ys : List ℕ)
      → h k a ≡ some f
      → next f ≡ some b
      → Owned h (parts k f) us
      → Linked n b c h vs ys
      → Distinct (us ++ (a ∷ (vs ++ ys)))
      → Linked (suc n) a c h (us ++ (a ∷ vs)) ys
  unfolding Linked link_last
  further n a b c h f us vs ys e is_some o (h', run, owned, same) d =
      let apart : (x : ℕ) → Elem x vs → ¬ Elem x us =
        λ x w. Distinct-apart us (a ∷ (vs ++ ys)) d x (inr (Elem-left x vs ys w)) in
      let alone : ¬ Elem a vs =
        λ w. (Distinct-right us (a ∷ (vs ++ ys)) d).0 (Elem-left a vs ys w) in
      (
        h',
        rw (e, is_some) run,
        block f (same k a alone ∙ e) (Owned-frame (λ j x w. same j x (λ v. apart x v w)) o)
            (subst (λ ps. Owned h' ps (vs ++ ys))
              (ap (λ q. (k, q) ∷ []) (sym is_some) ∙ sym (rest_next f)) owned)
            nothing
            (append_assoc us (a ∷ vs) ys ∙ ap (λ l. us ++ (a ∷ l)) (sym (append-nil (vs ++ ys)))),
        λ j x w. same j x (λ v. w (Elem-right x us (a ∷ vs) (inr v))),
      )

  at :
      (n a c : ℕ) (h : Heap) (f : Block k) (q : Pointer) (us vs ys : List ℕ)
      → h k a ≡ some f
      → next f ≡ q
      → Owned h (parts k f) us
      → Owned h ((k, q) ∷ []) vs
      → Owned h ((k, some c) ∷ []) ys
      → Distinct ((us ++ (a ∷ vs)) ++ ys)
      → length (us ++ (a ∷ vs)) ≤ suc n
      → ((b : ℕ)
          → Owned h ((k, some b) ∷ []) vs
          → Distinct (vs ++ ys)
          → length vs ≤ n
          → Linked n b c h vs ys)
      → Linked (suc n) a c h (us ++ (a ∷ vs)) ys
  at n a c h f none us vs ys e is_none o (null e' nothing) oc d b loop =
      here n a c h f us ys e is_none o oc (subst Distinct (append_assoc us (a ∷ []) ys) d)
  at n a c h f (some b') us vs ys e is_some o or oc d b loop =
      let d' : Distinct (us ++ (a ∷ (vs ++ ys))) = subst Distinct (append_assoc us (a ∷ vs) ys) d in
      let size = length-append us (a ∷ vs) in
      further n a b' c h f us vs ys e is_some o
        (loop b' or (Distinct-right us (a ∷ (vs ++ ys)) d').1 (omega arith)) d'

  linked :
      (n a c : ℕ) (h : Heap) (xs ys : List ℕ)
      → Owned h ((k, some a) ∷ []) xs
      → Owned h ((k, some c) ∷ []) ys
      → Distinct (xs ++ ys)
      → length xs ≤ n
      → Linked n a c h xs ys
  linked zero a c h xs ys (block {xs = us} {ys = vs} f e op or nothing eq) oc d b =
      let size = length-append us (a ∷ (vs ++ [])) in
      let size' = ap length eq in absurd (omega arith)
  linked (suc n) a c h xs ys (block {xs = us} {ys = vs} f e op or nothing eq) oc d b =
      let order : xs ≡ us ++ (a ∷ vs) = eq ∙ ap (λ l. us ++ (a ∷ l)) (append-nil vs) in
      subst (λ l. Linked (suc n) a c h l ys) (sym order)
        (at n a c h f (next f) us vs ys e refl op (subst (λ ps. Owned h ps vs) (rest_next f) or) oc
          (subst (λ l. Distinct (l ++ ys)) order d) (subst (λ l. length l ≤ suc n) order b)
          (λ b' o d' l. linked n b' c h vs ys o oc d' l))

  -- The blocks of the second list come behind those of the first one.
  pub link-Holds :
      (n a c m : ℕ) (h0 h : Heap)
      → Holds h0 ((k, some a) ∷ (k, some c) ∷ []) m h
      → m ≤ n
      → (h' : Heap) × (link_last k next set_next n a c h ≡ done tt h')
        × Holds h0 ((k, some a) ∷ []) m h'
  unfolding Linked
  link-Holds n a c m h0 h (holds {xs = all} o d e b) le =
      let (xs, ys, o1, o2, eq) = Owned-split ((k, some a) ∷ []) ((k, some c) ∷ []) o in
      let size = length-append xs ys in
      let size' = ap length eq in
      let (h', run, owned, same) = linked n a c h xs ys o1 o2 (subst Distinct eq d) (omega arith) in
      (
        h',
        run,
        holds (subst (Owned h' ((k, some a) ∷ [])) (sym eq) owned) d
            (record {
              new = e.new;
              same = λ j x w.
                  same j x (λ v. w (subst (Elem x) (sym eq) (Elem-left x xs ys v))) ∙ e.same j x w;
            })
            b,
      )
