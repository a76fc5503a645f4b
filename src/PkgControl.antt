-- ===== src/PkgControl.antt =====
-- tools/pkgcontrol.c: a field of the control files of binary packages.
use static_distro.Control.{Control, BuiltFrom, control_parse}
use static_distro.ControlParse.{File}
use static_distro.LibC.Getopt.{Event, opt, opt_arg, bad, getopt, fold_events}
use static_distro.Shared.{
  false, List, [], ◌∷◌, ◌++◌, Option, none, some, ◌>>=◌, ◌==◌, if◌then◌else◌, Bytes, codes,
}

pub data Field : Type 0 where
  unspecified name version source dep_run built_from : Field

-- The switch of `parse_params`.
unfoldable pub param_switch : Field → Event → Option Field
param_switch f (opt_arg c arg) = none
param_switch f (bad c) = none
param_switch f (opt c) =
    if c == b'n'
    then some name
    else if c == b'v'
    then some version
    else if c == b's'
    then some source
    else if c == b'r'
    then some dep_run
    else if c == b'b'
    then some built_from
    else none

abbrev pub specified : Field → Option Field
specified unspecified = none
specified name = some name
specified version = some version
specified source = some source
specified dep_run = some dep_run
specified built_from = some built_from

-- The field and the files; `none` is the return value -1.
unfoldable pub parse_params : List Bytes → Option (Field × List Bytes)
parse_params args =
    let (events, files) = getopt false (codes "nvsrb") args in
    do f ← fold_events param_switch unspecified events; f' ← specified f; some (f', files)

-- What is written before `main` returns 0, before it returns EXIT_FAILURE, or before a null pointer
-- is given to `puts` or `printf`.
pub data Dumped : Type 0 where
  success failure null_deref : Bytes → Dumped

abbrev pub in_front : Bytes → Dumped → Dumped
in_front text (success more) = success (text ++ more)
in_front text (failure more) = failure (text ++ more)
in_front text (null_deref more) = null_deref (text ++ more)

-- `puts`
abbrev pub line : Bytes → Bytes
line text = text ++ codes "\n"

abbrev pub pair : Bytes → Bytes → Bytes
pair a b = a ++ (codes "," ++ line b)

unfoldable pub depend_lines : List Bytes → Bytes
depend_lines [] = []
depend_lines (d ∷ ds) = line d ++ depend_lines ds

unfoldable pub built_from_lines : List BuiltFrom → Bytes
built_from_lines [] = []
built_from_lines (bf ∷ bfs) = pair bf.package_name bf.version ++ built_from_lines bfs

abbrev pub both : Option Bytes → Option Bytes → Option Bytes
both none b = none
both (some a) none = none
both (some a) (some b) = some (pair a b)

abbrev pub a_line : Option Bytes → Option Bytes
a_line none = none
a_line (some text) = some (line text)

-- The switch on the field; `none` follows a null pointer.
unfoldable pub dump_field : Field → Control → Option Bytes
dump_field unspecified c = some []
dump_field name c = a_line c.package_name
dump_field version c = a_line c.version
dump_field source c = both c.src_package c.src_version
dump_field dep_run c = some (depend_lines c.run_depend)
dump_field built_from c = some (built_from_lines c.built_froms)

-- The loop over the files, as `control_parse` opens them: `none` where a file cannot be opened.
unfoldable pub dump_files : (Bytes → Option File) → Field → List Bytes → Dumped
dump_files fs f [] = success []
dump_files fs f (path ∷ paths) = elim (control_parse fs path) [
  | none ↦ failure []
  | some c ↦ elim (dump_field f c) [
    | none ↦ null_deref []
    | some text ↦ in_front text (dump_files fs f paths)
  ]
]

unfoldable pub pkgcontrol : (Bytes → Option File) → List Bytes → Dumped
pkgcontrol fs args = elim (parse_params args) [
  | none ↦ failure []
  | some (f, files) ↦ dump_files fs f files
]
