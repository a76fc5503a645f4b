-- ===== src/Control/Allocating/Slots.antt =====
-- The fields of a control file that control_parsefd of tools/control.c keeps at one pointer of its
-- struct, on the memory.
use static_distro.ControlParse.{Field}
use static_distro.Control.{one_line}
use static_distro.Control.Allocating.{
  parse_deplist, parse_builtfromlist, parse_singleline, set_run_depend, set_built_froms,
  set_package_name, set_version,
}
use static_distro.Control.Allocating.Lists.{null-Holds, strdup-Gives, deplist_loop-Gives}
use static_distro.Control.Allocating.BuiltFroms.{builtfromlist_loop-Gives}
use static_distro.Memory.{
  Block, done, Result, Pointer, Heap, text, control_dependency, control_built_from, control_block,
}
use static_distro.Memory.Alloc.{Malloc, Fresh, slot}
use static_distro.Memory.Holds.{Extends, Holds, holds, Gives, gives, Holds-more}
use static_distro.Memory.Owned.{Pointers, parts, rest, nullable}
use static_distro.Memory.Slot.{left_to, slot-Sets, Sets, sets}
use static_distro.Shared.{
  ℕ, ◌+◌, ◌*◌, ◌≤◌, Bool, true, false, List, [], ◌∷◌, none, some, ◌≡◌, refl, sym, ap, ◌∙◌, inl, inr,
  length, arith, Option-cases,
}

-- At most so many blocks are allocated for a field.
abbrev pub field_blocks : Field → ℕ
field_blocks pf = 2 + 3 * length pf.lines

Gives-more :
    {h0 : Heap} {m n : ℕ} {A : Type 0} {owns : A → Pointers} {r : Result A}
    → m ≤ n
    → Gives h0 m owns r
    → Gives h0 n owns r
Gives-more le (gives x h e held) = gives x h e (Holds-more le held)

-- Without a source package there is no version of it.
abbrev pub Paired : ℕ → Heap → Type 0
Paired c h =
    (f : Block control_block)
    → h control_block c ≡ some f
    → f.src_package ≡ none
    → f.src_version ≡ none

-- A run that leaves the control file, and what was allocated for it.
pub data Builds (h0 : Heap) (m c : ℕ) (r : Result Bool) : Type 0 where
  builds :
      (b : Bool) (h : Heap)
      → r ≡ done b h
      → Holds h0 ((control_block, some c) ∷ []) m h
      → Paired c h
      → Builds h0 m c r

pub Builds-more :
    {h0 : Heap} {m n c : ℕ} {r : Result Bool} → m ≤ n → Builds h0 m c r → Builds h0 n c r
Builds-more le (builds b h e held paired) = builds b h e (Holds-more le held) paired

Sets-Builds :
    {m : ℕ} {r : Result Bool} (c : ℕ) (h0 h : Heap)
    (set : Block control_block → Pointer → Block control_block)
    → ((f : Block control_block) (p : Pointer) → (set f p).src_package ≡ f.src_package)
    → ((f : Block control_block) (p : Pointer) → (set f p).src_version ≡ f.src_version)
    → Paired c h
    → Sets control_block set m c h0 h r
    → Builds h0 m c r
Sets-Builds c h0 h set same same' paired (sets b h' f p e held at at') =
    builds b h' e held λ g at2 is_null.
      let q : g ≡ set f p = cc (at', at2) in
      ap (λ x. x.src_version) q
      ∙ same' f p
      ∙ paired f at (sym (same f p) ∙ ap (λ x. x.src_package) (sym q) ∙ is_null)

-- A text is allocated in each heap that holds what `h0` holds and at most `size` blocks more.
abbrev pub HasRoom : Malloc → Heap → ℕ → Type 0
HasRoom malloc h0 size =
    (h : Heap) (xs : List ℕ) → Extends h0 xs h → length xs ≤ size → ¬ (malloc text h ≡ none)

pub HasRoom-Holds :
    (malloc : Malloc) {h0 h : Heap} {size m : ℕ} {ps : Pointers}
    → HasRoom malloc h0 size
    → Holds h0 ps m h
    → m ≤ size
    → ¬ (malloc text h ≡ none)
HasRoom-Holds malloc {h} room (holds {xs = xs} o d ex b) le = room h xs ex (omega arith)

module _ {malloc : Malloc} (ok : Fresh malloc) (n : ℕ) (pf : Field) (le : field_blocks pf ≤ n) where
  parse_deplist-Gives :
      (h : Heap)
      → Gives h (field_blocks pf) (left_to control_dependency) (parse_deplist malloc n pf none h)
  unfolding parse_deplist nullable
  parse_deplist-Gives h = Gives-more (omega arith) (
      deplist_loop-Gives ok n 0 pf.lines none h h (null-Holds h control_dependency refl)
        (omega arith))

  parse_builtfromlist-Gives :
      (h : Heap)
      → Gives h
          (field_blocks pf)
          (left_to control_built_from)
          (parse_builtfromlist malloc n pf none h)
  unfolding parse_builtfromlist nullable
  parse_builtfromlist-Gives h = Gives-more (omega arith) (
      builtfromlist_loop-Gives ok n 0 pf.lines none h h (null-Holds h control_built_from refl)
        (omega arith))

  parse_singleline-Gives :
      (h : Heap) → Gives h (field_blocks pf) (left_to text) (parse_singleline malloc pf none h)
  unfolding parse_singleline nullable
  parse_singleline-Gives h = elim (Option-cases (one_line pf.lines)) [
    | inl e ↦ gives (false, none) h (rw (e)) (null-Holds h text refl)
    | inr (l, e) ↦ elim (strdup-Gives ok h l) [
      | gives none h1 e' held ↦ gives (false, none) h1 (rw (e, e')) (Holds-more (omega arith) held)
      | gives (some a) h1 e' held ↦
          gives (true, some a) h1 (rw (e, e')) (Holds-more (omega arith) held)
    ]
  ]

  pub run_depend-slot :
      (c m : ℕ) (h0 h : Heap)
      → Holds h0 ((control_block, some c) ∷ []) m h
      → Paired c h
      → Builds h0
          (m + field_blocks pf)
          c
          (slot control_block (λ f. f.run_depend) set_run_depend c (parse_deplist malloc n pf) h)
  unfolding parts rest parse_deplist
  run_depend-slot c m h0 h held paired =
      Sets-Builds c h0 h set_run_depend (λ f p. refl) (λ f p. refl) paired
        (slot-Sets control_block control_dependency (λ f. f.run_depend) set_run_depend (λ f. [])
          (λ f.
            (control_built_from, f.built_froms)
            ∷ (text, f.package_name)
            ∷ (text, f.version)
            ∷ (text, f.src_package)
            ∷ (text, f.src_version)
            ∷ [])
          (λ f. refl) (λ f. refl) (λ f p. refl) m (field_blocks pf) c h0 h
          (parse_deplist malloc n pf) parse_deplist-Gives (λ b h. refl) held)

  pub built_froms-slot :
      (c m : ℕ) (h0 h : Heap)
      → Holds h0 ((control_block, some c) ∷ []) m h
      → Paired c h
      → Builds h0 (m + field_blocks pf) c (
          slot control_block
            (λ f. f.built_froms)
            set_built_froms
            c
            (parse_builtfromlist malloc n pf)
            h)
  unfolding parts rest parse_builtfromlist
  built_froms-slot c m h0 h held paired =
      Sets-Builds c h0 h set_built_froms (λ f p. refl) (λ f p. refl) paired
        (slot-Sets control_block control_built_from (λ f. f.built_froms) set_built_froms
          (λ f. (control_dependency, f.run_depend) ∷ [])
          (λ f.
            (text, f.package_name)
            ∷ (text, f.version)
            ∷ (text, f.src_package)
            ∷ (text, f.src_version)
            ∷ [])
          (λ f. refl) (λ f. refl) (λ f p. refl) m (field_blocks pf) c h0 h
          (parse_builtfromlist malloc n pf) parse_builtfromlist-Gives (λ b h. refl) held)

  pub package_name-slot :
      (c m : ℕ) (h0 h : Heap)
      → Holds h0 ((control_block, some c) ∷ []) m h
      → Paired c h
      → Builds h0 (m + field_blocks pf) c (
          slot control_block
            (λ f. f.package_name)
            set_package_name
            c
            (parse_singleline malloc pf)
            h)
  unfolding parts rest parse_singleline
  package_name-slot c m h0 h held paired =
      Sets-Builds c h0 h set_package_name (λ f p. refl) (λ f p. refl) paired
        (slot-Sets control_block text (λ f. f.package_name) set_package_name
          (λ f. (control_dependency, f.run_depend) ∷ (control_built_from, f.built_froms) ∷ [])
          (λ f. (text, f.version) ∷ (text, f.src_package) ∷ (text, f.src_version) ∷ []) (λ f. refl)
          (λ f. refl) (λ f p. refl) m (field_blocks pf) c h0 h (parse_singleline malloc pf)
          parse_singleline-Gives (λ b h. refl) held)

  pub version-slot :
      (c m : ℕ) (h0 h : Heap)
      → Holds h0 ((control_block, some c) ∷ []) m h
      → Paired c h
      → Builds h0
          (m + field_blocks pf)
          c
          (slot control_block (λ f. f.version) set_version c (parse_singleline malloc pf) h)
  unfolding parts rest parse_singleline
  version-slot c m h0 h held paired =
      Sets-Builds c h0 h set_version (λ f p. refl) (λ f p. refl) paired
        (slot-Sets control_block text (λ f. f.version) set_version
          (λ f.
            (control_dependency, f.run_depend)
            ∷ (control_built_from, f.built_froms)
            ∷ (text, f.package_name)
            ∷ [])
          (λ f. (text, f.src_package) ∷ (text, f.src_version) ∷ []) (λ f. refl) (λ f. refl)
          (λ f p. refl) m (field_blocks pf) c h0 h (parse_singleline malloc pf)
          parse_singleline-Gives (λ b h. refl) held)
