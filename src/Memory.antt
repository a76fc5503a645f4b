-- ===== src/Memory.antt =====
-- The memory that the tools allocate, for the functions that free it: tools/control.h,
-- tools/controlparse.h, tools/controlparse.c, tools/solve.c, tools/repo.h and tools/repo.c, whose
-- structs are the blocks of a heap, and programs that read and free blocks.
pub mod Owned
pub mod Frees
pub mod Alloc
pub mod Holds
pub mod Room
pub mod Link
pub mod Slot
mod Tests
use static_distro.Shared.{
  ℕ, zero, suc, Bool, true, false, List, [], ◌∷◌, Option, none, some, ◌==◌, if◌then◌else◌, Bytes,
}

-- A pointer is null or the address of a block.
abbrev pub Pointer : Type 0
Pointer = Option ℕ

-- What a block holds, by the C type that its pointers have.
pub data Kind : Type 0 where
  text : Kind
  control_dependency control_source control_built_from : Kind
  control_block source_control_block source_control_bin : Kind
  controlparse_line controlparse_field controlparse_para : Kind
  solve_dependency solve_version solve_package solve_problem : Kind
  repo_version repo_package repo_block : Kind

pub record ControlDependencyBlock : Type 0 where
  pub package_name : Pointer
  pub next : Pointer

pub record ControlSourceBlock : Type 0 where
  pub source : Pointer
  pub next : Pointer

pub record ControlBuiltFromBlock : Type 0 where
  pub package_name : Pointer
  pub version : Pointer
  pub next : Pointer

pub record ControlBlock : Type 0 where
  pub package_name : Pointer
  pub version : Pointer
  pub src_package : Pointer
  pub src_version : Pointer
  pub run_depend : Pointer
  pub built_froms : Pointer

pub record SourceControlBlock : Type 0 where
  pub source : Pointer
  pub version : Pointer
  pub unpack_depend : Pointer
  pub build_depend : Pointer
  pub sources : Pointer
  pub bins : Pointer

pub record SourceControlBinBlock : Type 0 where
  pub package_name : Pointer
  pub run_depend : Pointer
  pub next : Pointer

-- The text at the end of the block is part of it.
pub record ControlParseLineBlock : Type 0 where
  pub next : Pointer
  pub line : Bytes

pub record ControlParseFieldBlock : Type 0 where
  pub line_first : Pointer
  pub line_last : Pointer
  pub next : Pointer
  pub name : Bytes

pub record ControlParseParaBlock : Type 0 where
  pub field_first : Pointer
  pub field_last : Pointer
  pub next : Pointer

pub record DependencyBlock : Type 0 where
  pub constraint : Pointer
  pub next : Pointer

pub record VersionBlock : Type 0 where
  pub version : Pointer
  pub dependencies : Pointer
  pub next : Pointer

pub record PackageBlock : Type 0 where
  pub name : Pointer
  pub available : Pointer
  pub chosen : Pointer
  pub next : Pointer
  pub scanned : Bool

-- Without `params`, which points to nothing that the problem owns.
pub record ProblemBlock : Type 0 where
  pub packages_first : Pointer
  pub packages_last : Pointer

pub record RepoVersionBlock : Type 0 where
  pub version : Pointer
  pub control : Pointer
  pub next : Pointer

pub record RepoPackageBlock : Type 0 where
  pub name : Pointer
  pub versions : Pointer
  pub next : Pointer

pub record RepoBlock : Type 0 where
  pub packages : Pointer
  pub repofd : ℕ

abbrev pub Block : Kind → Type 0
Block text = Bytes
Block control_dependency = ControlDependencyBlock
Block control_source = ControlSourceBlock
Block control_built_from = ControlBuiltFromBlock
Block control_block = ControlBlock
Block source_control_block = SourceControlBlock
Block source_control_bin = SourceControlBinBlock
Block controlparse_line = ControlParseLineBlock
Block controlparse_field = ControlParseFieldBlock
Block controlparse_para = ControlParseParaBlock
Block solve_dependency = DependencyBlock
Block solve_version = VersionBlock
Block solve_package = PackageBlock
Block solve_problem = ProblemBlock
Block repo_version = RepoVersionBlock
Block repo_package = RepoPackageBlock
Block repo_block = RepoBlock

-- The block at an address, if one of this kind is allocated there.
abbrev pub Heap : Type 0
Heap = (k : Kind) → ℕ → Option (Block k)

-- A run returns, or it faults at a block that is not allocated, or it has no fuel left for a loop.
pub data Result (A : Type 0) : Type 0 where
  done : A → Heap → Result A
  fault out_of_fuel : Result A

abbrev pub M : Type 0 → Type 0
M A = Heap → Result A

abbrev pub pure : {A : Type 0} → A → M A
pure x h = done x h

abbrev pub on_done : {A B : Type 0} → Result A → (A → M B) → Result B
on_done (done x h) f = f x h
on_done fault f = fault
on_done out_of_fuel f = out_of_fuel

infixl 5 ◌>>=◌ ◌>>◌
abbrev pub ◌>>=◌ : {A B : Type 0} → M A → (A → M B) → M B
◌>>=◌ m f h = on_done (m h) f

abbrev pub ◌>>◌ : {B : Type 0} → M (Unit {0}) → M B → M B
m >> n = m >>= λ _. n

-- A heap without the block at an address.
abbrev pub erase : ℕ → Heap → Heap
erase a h k b = if a == b then none else h k b

-- A block, if it is of the kind that is asked for.
abbrev pub cast : (k j : Kind) → Block k → Option (Block j)
cast text text b = some b
cast control_dependency control_dependency b = some b
cast control_source control_source b = some b
cast control_built_from control_built_from b = some b
cast control_block control_block b = some b
cast source_control_block source_control_block b = some b
cast source_control_bin source_control_bin b = some b
cast controlparse_line controlparse_line b = some b
cast controlparse_field controlparse_field b = some b
cast controlparse_para controlparse_para b = some b
cast solve_dependency solve_dependency b = some b
cast solve_version solve_version b = some b
cast solve_package solve_package b = some b
cast solve_problem solve_problem b = some b
cast repo_version repo_version b = some b
cast repo_package repo_package b = some b
cast repo_block repo_block b = some b
cast k j b = none

-- A heap with a block at an address.
abbrev pub put : (k : Kind) → ℕ → Block k → Heap → Heap
put k a f h j b = if a == b then cast k j f else h j b

abbrev pub empty : Heap
empty k a = none

abbrev pub found : {A : Type 0} → Option A → M A
found none h = fault
found (some x) h = done x h

-- A read through a pointer to a block of this kind.
abbrev pub load : (k : Kind) → ℕ → M (Block k)
load k a h = found (h k a) h

-- What is done with the block that a pointer points to, which must not be null.
abbrev pub deref : {A : Type 0} → Pointer → (ℕ → M A) → M A
deref none f h = fault
deref (some a) f h = f a h

abbrev pub erased : {A : Type 0} → Option A → ℕ → M (Unit {0})
erased none a h = fault
erased (some x) a h = done tt (erase a h)

-- `free`, which does nothing at a null pointer, and must not be given a block that is not allocated
abbrev pub free : Kind → Pointer → M (Unit {0})
free k none h = done tt h
free k (some a) h = erased (h k a) a h

-- A loop `for (p = first; p != NULL; p = next)`, whose body gives `next`.
unfoldable pub list_loop : (ℕ → M Pointer) → ℕ → Pointer → M (Unit {0})
list_loop body n none h = done tt h
list_loop body zero (some a) h = out_of_fuel
list_loop body (suc n) (some a) h = on_done (body a h) (list_loop body n)
