-- ===== src/ControlParse/Destroy.antt =====
-- controlparse_destroy of tools/controlparse.c, on the memory.
use static_distro.Shared.{ℕ, ◌≤◌, ◌≡◌, Bool, true, List, [], ◌∷◌, none, some, refl, length}
use static_distro.Memory.{
  Pointer, Heap, M, done, pure, ◌>>=◌, ◌>>◌, load, free, list_loop, controlparse_line,
  controlparse_field, controlparse_para,
}
use static_distro.Memory.Owned.{parts, rest, Owned, Distinct, without}
use static_distro.Memory.Frees.{
  Releases, Releases-run, load-Destroys, list-Destroys, next-Destroys, loop-Releases,
}

-- `struct controlparse`, which its caller keeps outside of the heap
pub record ControlParseHead : Type 0 where
  pub para_first : Pointer
  pub para_last : Pointer
  pub in_break : Bool

-- The bodies of the three loops; the loops inside are bounded by `n`.
unfoldable pub free_line : ℕ → M Pointer
free_line cl = do
  cl_next ← load controlparse_line cl
  free controlparse_line (some cl)
  pure cl_next.next

unfoldable pub free_field : ℕ → ℕ → M Pointer
free_field n cf = do
  cf_next ← load controlparse_field cf
  line_first ← load controlparse_field cf
  list_loop free_line n line_first.line_first
  free controlparse_field (some cf)
  pure cf_next.next

unfoldable pub free_para : ℕ → ℕ → M Pointer
free_para n cp = do
  cp_next ← load controlparse_para cp
  field_first ← load controlparse_para cp
  list_loop (free_field n) n field_first.field_first
  free controlparse_para (some cp)
  pure cp_next.next

unfoldable pub controlparse_destroy : ℕ → ControlParseHead → M ControlParseHead
controlparse_destroy n c = do
  list_loop (free_para n) n c.para_first
  pure (record { para_first = none; para_last = none; in_break = true })

module _ {n : ℕ} where
  lines-Releases :
      (p : Pointer) → Releases n (list_loop free_line n p) ((controlparse_line, p) ∷ [])
  unfolding free_line rest parts
  lines-Releases = loop-Releases (λ f. refl) λ a f. load-Destroys next-Destroys

  fields-Releases :
      (p : Pointer) → Releases n (list_loop (free_field n) n p) ((controlparse_field, p) ∷ [])
  unfolding free_field rest parts
  fields-Releases =
      loop-Releases (λ f. refl)
        λ a f. load-Destroys (list-Destroys (λ c. c.line_first) lines-Releases next-Destroys)

  paras-Releases :
      (p : Pointer) → Releases n (list_loop (free_para n) n p) ((controlparse_para, p) ∷ [])
  unfolding free_para rest parts
  paras-Releases =
      loop-Releases (λ f. refl)
        λ a f. load-Destroys (list-Destroys (λ c. c.field_first) fields-Releases next-Destroys)

-- On paragraphs in memory, whose blocks are all different, with fuel for as many blocks as these are,
-- controlparse_destroy frees every one of them once, and no other, reads none that is freed, and
-- leaves a parser without paragraphs.
pub controlparse_destroy-without :
    (n : ℕ) (c : ControlParseHead) (h : Heap) (xs : List ℕ)
    → Owned h ((controlparse_para, c.para_first) ∷ []) xs
    → Distinct xs
    → length xs ≤ n
    → controlparse_destroy n c h
      ≡ done (record { para_first = none; para_last = none; in_break = true }) (without xs h)
unfolding controlparse_destroy
controlparse_destroy-without n c h xs o d b =
    rw (Releases-run (paras-Releases c.para_first) h xs o d b)
