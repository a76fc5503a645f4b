-- ===== src/SrcControl.antt =====
-- tools/srccontrol.c: a field of source control files.
use static_distro.Control.{SourceControl, SourceControlBin, source_control_parsefd}
use static_distro.ControlParse.{File}
use static_distro.LibC.Getopt.{Event, opt, opt_arg, bad, getopt, fold_events}
use static_distro.PkgControl.{
  Dumped, success, failure, null_deref, in_front, line, a_line, depend_lines,
}
use static_distro.Shared.{
  false, List, [], ◌∷◌, Option, none, some, ◌>>=◌, ◌==◌, if◌then◌else◌, Bytes, codes,
}

pub data Field : Type 0 where
  unspecified name version dep_build dep_unpack srcs pkgs : Field

-- The switch of `parse_params`.
unfoldable pub param_switch : Field → Event → Option Field
param_switch f (opt_arg c arg) = none
param_switch f (bad c) = none
param_switch f (opt c) =
    if c == b'n'
    then some name
    else if c == b'v'
    then some version
    else if c == b'b'
    then some dep_build
    else if c == b'u'
    then some dep_unpack
    else if c == b's'
    then some srcs
    else if c == b'p'
    then some pkgs
    else none

abbrev pub specified : Field → Option Field
specified unspecified = none
specified name = some name
specified version = some version
specified dep_build = some dep_build
specified dep_unpack = some dep_unpack
specified srcs = some srcs
specified pkgs = some pkgs

unfoldable pub parse_params : List Bytes → Option (Field × List Bytes)
parse_params args =
    let (events, files) = getopt false (codes "nvbusp") args in
    do f ← fold_events param_switch unspecified events; f' ← specified f; some (f', files)

-- The lines in front of a binary package without a name, and whether there is one.
unfoldable pub bin_lines : List SourceControlBin → Dumped
bin_lines [] = success []
bin_lines (sb ∷ sbs) = elim sb.package_name [
  | none ↦ null_deref []
  | some package_name ↦ in_front (line package_name) (bin_lines sbs)
]

abbrev pub dumped : Option Bytes → Dumped
dumped none = null_deref []
dumped (some text) = success text

-- The switch on the field.
unfoldable pub dump_field : Field → SourceControl → Dumped
dump_field unspecified c = success []
dump_field name c = dumped (a_line c.source)
dump_field version c = dumped (a_line c.version)
dump_field dep_build c = success (depend_lines c.build_depend)
dump_field dep_unpack c = success (depend_lines c.unpack_depend)
dump_field srcs c = success (depend_lines c.sources)
dump_field pkgs c = bin_lines c.bins

abbrev pub and_then : Dumped → Dumped → Dumped
and_then (success text) more = in_front text more
and_then (failure text) more = failure text
and_then (null_deref text) more = null_deref text

-- The loop over the files. A file that cannot be opened is parsed all the same, and that fails.
unfoldable pub dump_files : (Bytes → Option File) → Field → List Bytes → Dumped
dump_files fs f [] = success []
dump_files fs f (path ∷ paths) = elim (source_control_parsefd (fs path)) [
  | none ↦ failure []
  | some c ↦ and_then (dump_field f c) (dump_files fs f paths)
]

unfoldable pub srccontrol : (Bytes → Option File) → List Bytes → Dumped
srccontrol fs args = elim (parse_params args) [
  | none ↦ failure []
  | some (f, files) ↦ dump_files fs f files
]
