-- ===== src/Control/Allocating/Fields.antt =====
-- The loop of control_parsefd of tools/control.c over the fields of a binary package's control file,
-- and its ends, on the memory.
use static_distro.ControlParse.{Field, Para}
use static_distro.Control.Allocating.{
  control_fields, control_paras, control_parsefd, empty_block, finish,
}
use static_distro.Control.Allocating.Slots.{
  field_blocks, Paired, Builds, builds, Builds-more, HasRoom,
}
use static_distro.Control.Allocating.OneField.{control_field-Builds}
use static_distro.Control.Destroy.{control_destroy-without}
use static_distro.Memory.{Pointer, Heap, control_block, put}
use static_distro.Memory.Alloc.{Malloc, Fresh, put-same}
use static_distro.Memory.Holds.{
  Holds, holds, Extends-nothing, Extends-grow, Extends-without, Gives, gives, alloc_with-cases,
  Holds-more,
}
use static_distro.Memory.Owned.{Pointers, parts, rest, nullable, nothing, null, owned, without}
use static_distro.Shared.{
  ℕ, ◌+◌, ◌≤◌, Bool, true, false, List, [], ◌∷◌, none, some, ◌≡◌, ◌⊎◌, refl, ap, inl, inr, codes,
  str_eq, arith,
}

abbrev pub fields_blocks : List Field → ℕ
fields_blocks [] = 0
fields_blocks (pf ∷ pfs) = field_blocks pf + fields_blocks pfs

-- None of the fields is a source field.
abbrev pub NoSource : List Field → Type 0
NoSource [] = Unit
NoSource (pf ∷ pfs) = (str_eq pf.name (codes "Source") ≡ false) × NoSource pfs

abbrev pub NoSourceIn : List Para → Type 0
NoSourceIn [] = Unit
NoSourceIn (pp ∷ pps) = NoSource pp.fields × NoSourceIn pps

abbrev pub paras_blocks : List Para → ℕ
paras_blocks [] = 0
paras_blocks (pp ∷ pps) = fields_blocks pp.fields + paras_blocks pps

-- What control_parsefd returns: a control file, or a null pointer.
abbrev pub result : Pointer → Pointers
result none = []
result (some c) = (control_block, some c) ∷ []

module _ {malloc : Malloc} (ok : Fresh malloc) (n c size : ℕ) (h0 : Heap) where
  control_fields-Builds :
      (pfs : List Field) (m : ℕ) (h : Heap)
      → NoSource pfs ⊎ HasRoom malloc h0 size
      → m + fields_blocks pfs ≤ n
      → m + fields_blocks pfs ≤ size
      → Holds h0 ((control_block, some c) ∷ []) m h
      → Paired c h
      → Builds h0 (m + fields_blocks pfs) c (control_fields malloc n c pfs h)
  unfolding control_fields
  control_fields-Builds [] m h fine le fits held paired =
      builds true h refl (Holds-more (omega arith) held) paired
  control_fields-Builds (pf ∷ pfs) m h fine le fits held paired =
      elim (control_field-Builds ok n pf (omega arith) c m size h0 h (first_fine fine) (omega arith)
        held paired) [
          | builds true h1 e held' paired' ↦
              elim (control_fields-Builds pfs (m + field_blocks pf) h1 (rest_fine fine)
                (omega arith) (omega arith) held' paired') [
                  | builds b h2 e' held'' paired'' ↦
                      builds b h2 (rw (e) e') (Holds-more (omega arith) held'') paired''
                ]
          | builds false h1 e held' paired' ↦
              builds false h1 (rw (e)) (Holds-more (omega arith) held') paired'
        ]
    where
      first_fine :
          NoSource (pf ∷ pfs) ⊎ HasRoom malloc h0 size
          → (str_eq pf.name (codes "Source") ≡ false) ⊎ HasRoom malloc h0 size
      first_fine (inl none_is) = inl (none_is.0)
      first_fine (inr room) = inr room

      rest_fine :
          NoSource (pf ∷ pfs) ⊎ HasRoom malloc h0 size → NoSource pfs ⊎ HasRoom malloc h0 size
      rest_fine (inl none_is) = inl (none_is.1)
      rest_fine (inr room) = inr room

  control_paras-Builds :
      (pps : List Para) (m : ℕ) (h : Heap)
      → NoSourceIn pps ⊎ HasRoom malloc h0 size
      → m + paras_blocks pps ≤ n
      → m + paras_blocks pps ≤ size
      → Holds h0 ((control_block, some c) ∷ []) m h
      → Paired c h
      → Builds h0 (m + paras_blocks pps) c (control_paras malloc n c pps h)
  unfolding control_paras
  control_paras-Builds [] m h fine le fits held paired =
      builds false h refl (Holds-more (omega arith) held) paired
  control_paras-Builds (pp ∷ []) m h fine le fits held paired =
      Builds-more (omega arith)
        (control_fields-Builds pp.fields m h (of_para fine) (omega arith) (omega arith) held paired)
    where
      of_para :
          NoSourceIn (pp ∷ []) ⊎ HasRoom malloc h0 size
          → NoSource pp.fields ⊎ HasRoom malloc h0 size
      of_para (inl none_is) = inl (none_is.0)
      of_para (inr room) = inr room
  control_paras-Builds (pp ∷ pp' ∷ pps) m h fine le fits held paired =
      builds false h refl (Holds-more (omega arith) held) paired

  finish-Gives :
      (m : ℕ) (b : Bool) (h : Heap)
      → m ≤ n
      → Holds h0 ((control_block, some c) ∷ []) m h
      → Gives h0 m result (finish n c b h)
  finish-Gives m true h le held = gives (some c) h refl held
  finish-Gives m false h le (holds {xs = xs} o d e b) =
      gives none (without xs h) (rw (control_destroy-without n c h xs o d (omega arith)) refl)
        (holds nothing tt (Extends-without xs h e) (omega arith))

-- Whatever `malloc` gives, of new addresses, and whatever the paragraphs are, either without a
-- source field in them or with a `malloc` that gives a block for a text in each heap that holds
-- what the memory held and at most as many more blocks as the struct and the fields may need, and
-- with fuel for these: control_parsefd ends without a fault, and leaves in the memory, besides
-- what was there, only the control file that it returns, and nothing if it fails.
pub control_parsefd-Gives :
    {malloc : Malloc} (ok : Fresh malloc) (n : ℕ) (pps : List Para) (h : Heap)
    → NoSourceIn pps ⊎ HasRoom malloc h (1 + paras_blocks pps)
    → 1 + paras_blocks pps ≤ n
    → Gives h (1 + paras_blocks pps) result (control_parsefd malloc n pps h)
unfolding control_parsefd parts rest nullable
control_parsefd-Gives {malloc} ok n pps h fine le =
    elim (alloc_with-cases ok control_block h empty_block) [
      | inl e ↦ gives none h (rw (e) refl) (holds nothing tt Extends-nothing (omega arith))
      | inr (c, e, fresh) ↦
          let h1 = put control_block c empty_block h in
          let held : Holds h ((control_block, some c) ∷ []) 1 h1 =
            holds {xs = c ∷ []}
              (owned empty_block (put-same control_block c empty_block h)
                (null refl (null refl (null refl (null refl (null refl (null refl nothing))))))
                nothing nothing)
              ((λ w. w), tt)
              (Extends-grow control_block c empty_block fresh (λ w. w) Extends-nothing)
              (omega arith) in
          let new_paired : Paired c h1 = λ f at _.
            let q : f ≡ empty_block = cc (put-same control_block c empty_block h, at) in
            ap (λ x. x.src_version) q in
          elim (control_paras-Builds ok n c (1 + paras_blocks pps) h pps 1 h1 fine (omega arith)
            (omega arith) held new_paired) [
              | builds b h2 e' held' _ ↦
                  elim (finish-Gives ok n c (1 + paras_blocks pps) h (1 + paras_blocks pps) b h2 le
                    held') [ gives p h3 e'' held'' ↦ gives p h3 (rw (e, e') e'') held'' ]
            ]
    ]
