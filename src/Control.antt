-- ===== src/Control.antt =====
-- tools/control.c: the control files of binary and of source packages.
-- A null `char *` is `none`, and a null list is `[]`. Allocation is taken to succeed.
pub mod Destroy
pub mod Allocating
use static_distro.ControlParse.{Field, Para, Parsed, File, controlparse_init, controlparse_parsefd}
use static_distro.LibC.{strchr}
use static_distro.Shared.{
  suc, Bool, true, false, List, [], ◌∷◌, ◌++◌, Option, none, some, ◌>>=◌, ◌>>◌, guard,
  if◌then◌else◌, take, drop, str_eq, Bytes, codes,
}
use mathlib.Core.Option

pub record BuiltFrom : Type 0 where
  pub package_name : Bytes
  pub version : Bytes

pub record Control : Type 0 where
  pub package_name : Option Bytes
  pub version : Option Bytes
  pub src_package : Option Bytes
  pub src_version : Option Bytes
  pub run_depend : List Bytes
  pub built_froms : List BuiltFrom

pub record SourceControlBin : Type 0 where
  pub package_name : Option Bytes
  pub run_depend : List Bytes

pub record SourceControl : Type 0 where
  pub source : Option Bytes
  pub version : Option Bytes
  pub unpack_depend : List Bytes
  pub build_depend : List Bytes
  pub sources : List Bytes
  pub bins : List SourceControlBin

abbrev pub is_null {ℓ} : {A : Type ℓ} → List A → Bool
is_null [] = true
is_null (_ ∷ _) = false

-- The lines that are not empty.
unfoldable pub nonempty : List Bytes → List Bytes
nonempty [] = []
nonempty ([] ∷ ls) = nonempty ls
nonempty ((c ∷ l) ∷ ls) = (c ∷ l) ∷ nonempty ls

-- `none` is the return value -1. A list that was set before is refused.
unfoldable pub parse_deplist : Field → List Bytes → Option (List Bytes)
parse_deplist pf old = if is_null old then some (nonempty pf.lines) else none

unfoldable pub parse_sourcelist : Field → List Bytes → Option (List Bytes)
parse_sourcelist pf old = if is_null old then some (nonempty pf.lines) else none

-- A line split at its first space.
unfoldable pub split_space : Bytes → Option (Bytes × Bytes)
split_space line = Option.map (λ i. (take i line, drop (suc i) line)) (strchr line 32)

unfoldable pub builtfroms : List Bytes → Option (List BuiltFrom)
builtfroms [] = some []
builtfroms ([] ∷ ls) = builtfroms ls
builtfroms ((c ∷ l) ∷ ls) =
    let rest = builtfroms ls in
    do
      (package_name, version) ← split_space (c ∷ l)
      bfs ← rest
      some (record { package_name = package_name; version = version } ∷ bfs)

unfoldable pub parse_builtfromlist : Field → List BuiltFrom → Option (List BuiltFrom)
parse_builtfromlist pf old = if is_null old then builtfroms pf.lines else none

-- The one line of a field, if that is what it has and if the line is not empty.
unfoldable pub one_line : List Bytes → Option Bytes
one_line [] = none
one_line ([] ∷ ls) = none
one_line ((c ∷ l) ∷ []) = some (c ∷ l)
one_line ((c ∷ l) ∷ _ ∷ _) = none

abbrev pub is_unset : Option Bytes → Bool
is_unset none = true
is_unset (some _) = false

unfoldable pub parse_source : Field → Option Bytes → Option (Bytes × Bytes)
parse_source pf old = do guard (is_unset old); l ← one_line pf.lines; split_space l

unfoldable pub parse_singleline : Field → Option Bytes → Option Bytes
parse_singleline pf old = do guard (is_unset old); one_line pf.lines

abbrev pub empty_control : Control
empty_control = record {
  package_name = none;
  version = none;
  src_package = none;
  src_version = none;
  run_depend = [];
  built_froms = [];
}

-- The body of the loop over the fields of a binary package's control file.
unfoldable pub control_field : Control → Field → Option Control
control_field c pf =
    if str_eq pf.name (codes "Depends-Run")
    then (do l ← parse_deplist pf c.run_depend; some (record c { run_depend = l }))
    else if str_eq pf.name (codes "Built-From")
    then (do l ← parse_builtfromlist pf c.built_froms; some (record c { built_froms = l }))
    else if str_eq pf.name (codes "Package")
    then (do s ← parse_singleline pf c.package_name; some (record c { package_name = some s }))
    else if str_eq pf.name (codes "Version")
    then (do s ← parse_singleline pf c.version; some (record c { version = some s }))
    else if str_eq pf.name (codes "Source")
    then (do
      (n, v) ← parse_source pf c.src_package
      some (record c { src_package = some n; src_version = some v }))
    else none

unfoldable pub control_fields : Control → List Field → Option Control
control_fields c [] = some c
control_fields c (pf ∷ pfs) = do c' ← control_field c pf; control_fields c' pfs

-- The file must have exactly one paragraph.
unfoldable pub control_paras : List Para → Option Control
control_paras [] = none
control_paras (pp ∷ []) = control_fields empty_control pp.fields
control_paras (_ ∷ _ ∷ _) = none

-- The paragraphs of a file that `controlparse_parsefd` takes, from a fresh parser.
unfoldable pub file_paras : Option File → Option (List Para)
file_paras fd = elim (controlparse_parsefd controlparse_init fd) [
  | Parsed.ok c ↦ some c.paras
  | Parsed.error c ↦ none
  | Parsed.null_deref ↦ none
]

unfoldable pub control_parsefd : Option File → Option Control
control_parsefd fd = do ps ← file_paras fd; control_paras ps

-- The file at a path, if it can be opened, is parsed.
unfoldable pub control_parse : (Bytes → Option File) → Bytes → Option Control
control_parse fs path = elim (fs path) [ none ↦ none | some f ↦ control_parsefd (some f) ]

abbrev pub empty_source : SourceControl
empty_source = record {
  source = none;
  version = none;
  unpack_depend = [];
  build_depend = [];
  sources = [];
  bins = [];
}

-- The body of the loop over the fields of the first paragraph, with `run_deps` beside it.
unfoldable pub source_field :
    SourceControl × List Bytes → Field → Option (SourceControl × List Bytes)
source_field (c, run_deps) pf =
    if str_eq pf.name (codes "Depends-Build")
    then (do l ← parse_deplist pf c.build_depend; some (record c { build_depend = l }, run_deps))
    else if str_eq pf.name (codes "Depends-Unpack")
    then (do l ← parse_deplist pf c.unpack_depend; some (record c { unpack_depend = l }, run_deps))
    else if str_eq pf.name (codes "Depends-Run")
    then (do l ← parse_deplist pf run_deps; some (c, l))
    else if str_eq pf.name (codes "Sources")
    then (do l ← parse_sourcelist pf c.sources; some (record c { sources = l }, run_deps))
    else if str_eq pf.name (codes "Source")
    then (do s ← parse_singleline pf c.source; some (record c { source = some s }, run_deps))
    else if str_eq pf.name (codes "Version")
    then (do s ← parse_singleline pf c.version; some (record c { version = some s }, run_deps))
    else none

unfoldable pub source_fields :
    SourceControl × List Bytes → List Field → Option (SourceControl × List Bytes)
source_fields s [] = some s
source_fields s (pf ∷ pfs) = do s' ← source_field s pf; source_fields s' pfs

-- The body of the loop over the fields of a further paragraph.
unfoldable pub bin_field : SourceControlBin → Field → Option SourceControlBin
bin_field cb pf =
    if str_eq pf.name (codes "Depends-Run")
    then (do l ← parse_deplist pf cb.run_depend; some (record cb { run_depend = l }))
    else if str_eq pf.name (codes "Package")
    then (do s ← parse_singleline pf cb.package_name; some (record cb { package_name = some s }))
    else none

unfoldable pub bin_fields : SourceControlBin → List Field → Option SourceControlBin
bin_fields cb [] = some cb
bin_fields cb (pf ∷ pfs) = do cb' ← bin_field cb pf; bin_fields cb' pfs

-- The loop over the further paragraphs; each binary package gets the global run dependencies behind
-- its own.
unfoldable pub source_bins : List Bytes → List Para → Option (List SourceControlBin)
source_bins run_deps [] = some []
source_bins run_deps (pp ∷ pps) =
    let rest = source_bins run_deps pps in
    do
      cb ← bin_fields (record { package_name = none; run_depend = [] }) pp.fields
      cbs ← rest
      some (record cb { run_depend = cb.run_depend ++ run_deps } ∷ cbs)

unfoldable pub source_paras : List Para → Option SourceControl
source_paras [] = none
source_paras (pp ∷ pps) = do
  (c, run_deps) ← source_fields (empty_source, []) pp.fields
  bins ← source_bins run_deps pps
  some (record c { bins = bins })

unfoldable pub source_control_parsefd : Option File → Option SourceControl
source_control_parsefd fd = do ps ← file_paras fd; source_paras ps
