-- ===== src/Control/Allocating/OneField.antt =====
-- The source field, and any field, of a control file in control_parsefd of tools/control.c, on the memory.
use static_distro.ControlParse.{Field}
use static_distro.Control.{one_line, split_space}
use static_distro.Control.Allocating.{set_source, parse_source, control_field}
use static_distro.Control.Allocating.Lists.{strdup-Gives}
use static_distro.Control.Allocating.Slots.{
  field_blocks, Paired, Builds, builds, HasRoom, HasRoom-Holds, run_depend-slot, built_froms-slot,
  package_name-slot, version-slot,
}
use static_distro.Memory.{
  Block, done, Pointer, Heap, text, control_dependency, control_built_from, control_block, put,
}
use static_distro.Memory.Alloc.{Malloc, Fresh, put-same}
use static_distro.Memory.Holds.{Holds, Holds-append, alloc-none, gives, Holds-more}
use static_distro.Memory.Owned.{Pointers, parts, rest}
use static_distro.Memory.Slot.{Held, Holds-Held, keep-Holds, swap-Holds, kept-block, null-owned}
use static_distro.Shared.{
  ℕ, ◌+◌, ◌≤◌, true, false, List, [], ◌∷◌, none, some, ◌≡◌, ◌⊎◌, refl, sym, ap, ◌∙◌, inl, inr,
  codes, str_eq, arith, Option-cases, Bool-cases,
}

module _ {malloc : Malloc} (ok : Fresh malloc) (n : ℕ) (pf : Field) (le : field_blocks pf ≤ n) where
  set_source-Builds :
      (c m size : ℕ) (h0 h : Heap)
      → HasRoom malloc h0 size
      → m + field_blocks pf ≤ size
      → Holds h0 ((control_block, some c) ∷ []) m h
      → Paired c h
      → Builds h0 (m + field_blocks pf) c (set_source malloc c pf h)
  unfolding parts rest parse_source
  set_source-Builds c m size h0 h room fits held paired =
      let (f, us, at) = Holds-Held control_block (λ f. refl) m c h0 h held in
      from f us at (f.src_package) refl
    where
      others : Block control_block → Pointers
      others f =
          (control_dependency, f.run_depend)
          ∷ (control_built_from, f.built_froms)
          ∷ (text, f.package_name)
          ∷ (text, f.version)
          ∷ []

      -- The block is written with the same pointers, and the function fails.
      fails :
          (f g : Block control_block) (us : List ℕ)
          → Held control_block m c h0 h f us
          → parts control_block g ≡ parts control_block f
          → (g.src_package ≡ none → g.src_version ≡ none)
          → set_source malloc c pf h ≡ done false (put control_block c g h)
          → Builds h0 (m + field_blocks pf) c (set_source malloc c pf h)
      fails f g us at same pair e =
          builds false (put control_block c g h) e
            (Holds-more (omega arith)
              (keep-Holds control_block (λ f. refl) m c h0 h f g us same at))
            (λ x at2 is_null.
              let q : x ≡ g = cc (put-same control_block c g h, at2) in
              ap (λ y. y.src_version) q ∙ pair (ap (λ y. y.src_package) (sym q) ∙ is_null))

      from :
          (f : Block control_block) (us : List ℕ)
          → Held control_block m c h0 h f us
          → (q : Pointer) → f.src_package ≡ q
          → Builds h0 (m + field_blocks pf) c (set_source malloc c pf h)
      from f us at (some b) is_set =
          fails f (record f { src_package = some b }) us at
            (ap (λ q. parts control_block (record f { src_package = q })) (sym is_set)) (λ e. cc)
            (rw (at.0, is_set, at.0, at.0) refl)
      from f us at none is_null = elim (Option-cases (one_line pf.lines)) [
        | inl e1 ↦
            fails f (record f { src_package = none }) us at
              (ap (λ q. parts control_block (record f { src_package = q })) (sym is_null))
              (λ _. paired f at.0 is_null) (rw (at.0, is_null, e1, at.0, at.0) refl)
        | inr (l, e1) ↦ elim (Option-cases (split_space l)) [
          | inl e2 ↦
              fails f (record f { src_package = none }) us at
                (ap (λ q. parts control_block (record f { src_package = q })) (sym is_null))
                (λ _. paired f at.0 is_null) (rw (at.0, is_null, e1, e2, at.0, at.0) refl)
          | inr ((name, ver), e2) ↦ elim (strdup-Gives ok h name) [
            | gives none h1 e3 new ↦ absurd (
                HasRoom-Holds malloc room held (omega arith)
                  (alloc-none malloc text h h1 (λ _. name) e3))
            | gives (some a) h1 e3 new ↦ elim (strdup-Gives ok h1 ver) [
              | gives none h2 e4 new' ↦ absurd (
                  HasRoom-Holds malloc room (Holds-append held new) (omega arith)
                    (alloc-none malloc text h1 h2 (λ _. ver) e4))
              | gives (some b) h2 e4 new' ↦
                  let g = record f { src_package = some a; src_version = some b } in
                  let news = Holds-append new new' in
                  let still =
                    kept-block control_block m 2 c h0 h h2 f us
                      ((text, some a) ∷ (text, some b) ∷ []) at news in
                  builds true (put control_block c g h2)
                    (rw (at.0, is_null, e1, e2, e3, e4, still, still) refl)
                    (Holds-more (omega arith) (
                      swap-Holds control_block (λ f. refl) m 2 c h0 h h2 f g (others f) []
                        ((text, none) ∷ (text, none) ∷ []) ((text, some a) ∷ (text, some b) ∷ []) us
                        (ap (λ q. parts control_block (record f { src_package = q })) is_null
                          ∙ ap
                              (λ q.
                                parts control_block
                                  (record f { src_package = none; src_version = q }))
                              (paired f at.0 is_null))
                        refl (λ ys o. null-owned (null-owned o)) at news))
                    (λ x at2 none_left. cc (put-same control_block c g h2, at2, none_left))
            ]
          ]
        ]
      ]

  pub control_field-Builds :
      (c m size : ℕ) (h0 h : Heap)
      → (str_eq pf.name (codes "Source") ≡ false) ⊎ HasRoom malloc h0 size
      → m + field_blocks pf ≤ size
      → Holds h0 ((control_block, some c) ∷ []) m h
      → Paired c h
      → Builds h0 (m + field_blocks pf) c (control_field malloc n c pf h)
  unfolding control_field
  control_field-Builds c m size h0 h fine fits held paired =
      elim (Bool-cases (str_eq pf.name (codes "Depends-Run"))) [
        | inl e1 ↦ rw (control_field, e1) (run_depend-slot ok n pf le c m h0 h held paired)
        | inr e1 ↦ elim (Bool-cases (str_eq pf.name (codes "Built-From"))) [
          | inl e2 ↦ rw (control_field, e1, e2) (built_froms-slot ok n pf le c m h0 h held paired)
          | inr e2 ↦ elim (Bool-cases (str_eq pf.name (codes "Package"))) [
            | inl e3 ↦
                rw (control_field, e1, e2, e3) (package_name-slot ok n pf le c m h0 h held paired)
            | inr e3 ↦ elim (Bool-cases (str_eq pf.name (codes "Version"))) [
              | inl e4 ↦
                  rw (control_field, e1, e2, e3, e4) (version-slot ok n pf le c m h0 h held paired)
              | inr e4 ↦ elim (Bool-cases (str_eq pf.name (codes "Source"))) [
                | inl e5 ↦ elim fine [
                  | inl no_source ↦ absurd (cc (e5, no_source))
                  | inr room ↦
                      rw (control_field, e1, e2, e3, e4, e5)
                        (set_source-Builds c m size h0 h room fits held paired)
                ]
                | inr e5 ↦
                    rw (control_field, e1, e2, e3, e4, e5)
                      (builds false h refl (Holds-more (omega arith) held) paired)
              ]
            ]
          ]
        ]
      ]
