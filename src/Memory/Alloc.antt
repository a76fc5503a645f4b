-- ===== src/Memory/Alloc.antt =====
-- Allocation, which may fail, and writes into blocks. What `malloc` gives is a parameter: for a kind
-- of block and a heap, the address of a new block and what it holds, or a null pointer.
use static_distro.Shared.{
  ℕ, zero, suc, Bool, Option, none, some, ◌≡◌, refl, sym, subst, Bytes, arith,
}
use static_distro.Memory.{
  text, control_dependency, control_source, control_built_from, control_block, source_control_block,
  source_control_bin, controlparse_line, controlparse_field, controlparse_para, solve_dependency,
  solve_version, solve_package, solve_problem, repo_version, repo_package, repo_block, Kind,
  Pointer, Block, Heap, M, done, fault, out_of_fuel, pure, ◌>>=◌, ◌>>◌, load, put, cast,
}

abbrev pub Malloc : Type 0
Malloc = (k : Kind) → Heap → Option (ℕ × Block k)

-- `malloc` gives no address at which a block is allocated.
abbrev pub Fresh : Malloc → Type 0
Fresh malloc =
    (k j : Kind) (h : Heap) (a : ℕ) (f : Block k) → malloc k h ≡ some (a, f) → h j a ≡ none

abbrev pub allocated : (k : Kind) → Option (ℕ × Block k) → (Block k → Block k) → M Pointer
allocated k none g h = done none h
allocated k (some (a, f)) g h = done (some a) (put k a (g f) h)

abbrev pub alloc : Malloc → (k : Kind) → M Pointer
alloc malloc k h = allocated k (malloc k h) (λ f. f) h

-- A block that is allocated and filled at once, as by `calloc` and `strdup`.
abbrev pub alloc_with : Malloc → (k : Kind) → Block k → M Pointer
alloc_with malloc k g h = allocated k (malloc k h) (λ _. g) h

abbrev pub strdup : Malloc → Bytes → M Pointer
strdup malloc s = alloc_with malloc text s

abbrev pub stored : (k : Kind) → Option (Block k) → ℕ → Block k → M (Unit {0})
stored k none a f h = fault
stored k (some _) a f h = done tt (put k a f h)

-- A write of a block at an address.
abbrev pub store : (k : Kind) → ℕ → Block k → M (Unit {0})
store k a f h = stored k (h k a) a f h

abbrev pub follow : Pointer → (ℕ → M (Unit {0})) → M (Unit {0}) → M (Unit {0})
follow none m e = e
follow (some b) m e = m b

-- `for (p = first; p->next != NULL; p = p->next); p->next = c;`
unfoldable pub link_last :
    (k : Kind) → (Block k → Pointer) → (Block k → Pointer → Block k) → ℕ → ℕ → ℕ → M (Unit {0})
link_last k next set_next zero a c = λ h. out_of_fuel
link_last k next set_next (suc n) a c = load k a >>= λ f.
    follow (next f) (λ b. link_last k next set_next n b c) (store k a (set_next f (some c)))

-- A function is given a pointer of the block at `a`, and what it leaves there is stored.
abbrev pub slot :
    (j : Kind)
    → (Block j → Pointer)
    → (Block j → Pointer → Block j)
    → ℕ
    → (Pointer → M (Bool × Pointer))
    → M Bool
slot j get set a run = do
  f ← load j a
  (ok, p) ← run (get f)
  g ← load j a
  store j a (set g p)
  pure ok

cast-same : (k : Kind) (f : Block k) → cast k k f ≡ some f
cast-same text f = refl
cast-same control_dependency f = refl
cast-same control_source f = refl
cast-same control_built_from f = refl
cast-same control_block f = refl
cast-same source_control_block f = refl
cast-same source_control_bin f = refl
cast-same controlparse_line f = refl
cast-same controlparse_field f = refl
cast-same controlparse_para f = refl
cast-same solve_dependency f = refl
cast-same solve_version f = refl
cast-same solve_package f = refl
cast-same solve_problem f = refl
cast-same repo_version f = refl
cast-same repo_package f = refl
cast-same repo_block f = refl

pub put-same : (k : Kind) (a : ℕ) (f : Block k) (h : Heap) → put k a f h k a ≡ some f
put-same k a f h = ground (arith, cast-same k f)

pub put-apart :
    (k j : Kind) (a b : ℕ) (f : Block k) (h : Heap) → ¬ (a ≡ b) → put k a f h j b ≡ h j b
put-apart k j a b f h n = ground (arith, n)

-- A new address is another than those of blocks.
pub put-new :
    (k : Kind) (a b : ℕ) (f : Block k) (h : Heap)
    → ((j : Kind) → put k a f h j b ≡ none)
    → ¬ (a ≡ b)
put-new k a b f h fresh e =
    cc (put-same k a f h, subst (λ c. put k a f h k c ≡ none) (sym e) (fresh k))
