-- ===== src/Control/Allocating/Source.antt =====
-- The source field of a control file in control_parsefd of tools/control.c, when memory runs out.
use static_distro.ControlParse.{Field}
use static_distro.Control.{one_line, split_space}
use static_distro.Control.Allocating.{
  parse_source, control_field, control_fields, control_paras, control_parsefd, empty_block,
}
use static_distro.Control.Destroy.{control_destroy}
use static_distro.Memory.{Block, Heap, fault, done, put, erase, text, control_block, list_loop}
use static_distro.Memory.Alloc.{Malloc, Fresh, put-new}
use static_distro.Shared.{
  ℕ, true, false, List, [], ◌∷◌, none, some, ◌≡◌, refl, Bytes, codes, str_eq, arith, ◌==◌,
}

module _ {malloc : Malloc} (ok : Fresh malloc) (n : ℕ) (h : Heap) (lines : List Bytes)
    (fields : List Field) (l name ver : Bytes) (c a : ℕ) (f : Block control_block) (t : Bytes)
    (one : one_line lines ≡ some l) (split : split_space l ≡ some (name, ver))
    (struct : malloc control_block h ≡ some (c, f))
    (first : malloc text (put control_block c empty_block h) ≡ some (a, t))
    (second : malloc text (put text a name (put control_block c empty_block h)) ≡ none) where
  -- The struct keeps the address of the text that parse_source freed.
  dangling : Block control_block
  dangling = record empty_block { src_package = some a }

  left : Heap
  left =
      put control_block c dangling (erase a (put text a name (put control_block c empty_block h)))

  c≢a : ¬ (c ≡ a)
  c≢a =
      put-new control_block c a empty_block h
        λ j. ok text j (put control_block c empty_block h) a t first

  hit : (c == c) ≡ true
  hit = ground arith

  field-left :
      control_field malloc n c
        (record { name = codes "Source"; lines = lines })
        (put control_block c empty_block h)
      ≡ done false left
  unfolding control_field parse_source str_eq left dangling
  field-left = let ne = c≢a in rw (one, split, hit, first, second) (ground arith)

  destroy-left : control_destroy n c left ≡ fault
  unfolding control_destroy list_loop left dangling
  destroy-left = let ne = c≢a in ground arith

  -- A source field of one line with a space in it, as the first field of a control file: when the
  -- struct and the first text are allocated, and the second text is not, control_parsefd frees the
  -- first text twice, whatever fields come behind the source field.
  pub control_parsefd_double_free :
      control_parsefd malloc n
        (record { fields = record { name = codes "Source"; lines = lines } ∷ fields } ∷ [])
        h
      ≡ fault
  unfolding control_parsefd control_paras control_fields
  control_parsefd_double_free = rw (struct, field-left, destroy-left) refl
