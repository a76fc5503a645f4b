-- ===== src/GenControl/CommandLine.antt =====
-- tools/gencontrol.c: `parse_params`, and `main` with the files. The output file is not the file that
-- is read.
use static_distro.Control.{BuiltFrom}
use static_distro.ControlParse.{File}
use static_distro.GenControl.{
  VersionMode, version_keep, version_override, version_append, Generated, exit_failure, gencontrol,
}
use static_distro.LibC.Getopt.{Event, opt, opt_arg, bad, getopt, fold_events}
use static_distro.LibC.{cut_at}
use static_distro.Shared.{
  Bool, false, List, [], ◌∷◌, ◌++◌, Option, none, some, ◌==◌, if◌then◌else◌, Bytes, codes,
}

-- The global variables that the options set; without a name, `outf` is `stdout`.
pub record GenOpts : Type 0 where
  pub ver_mode : VersionMode
  pub ver_param : Bytes
  pub outf : Option Bytes
  pub bf_extra : List BuiltFrom

abbrev pub default_opts : GenOpts
default_opts = record { ver_mode = version_keep; ver_param = []; outf = none; bf_extra = [] }

-- `case 'b'`: at the end of the list.
unfoldable pub built_from_option : GenOpts → Bytes → Option GenOpts
built_from_option o arg = elim (cut_at b',' arg) [
  | none ↦ none
  | some (name, version) ↦ some (record o {
    bf_extra = o.bf_extra ++ (record { package_name = name; version = version } ∷ []);
  })
]

-- The switch, where `fopen` says whether a file opens for writing. No other letter than these comes
-- with an argument.
unfoldable pub option_switch : (Bytes → Bool) → GenOpts → Event → Option GenOpts
option_switch fopen o (opt c) = none
option_switch fopen o (bad c) = none
option_switch fopen o (opt_arg c arg) =
    if c == b'v'
    then some (record o { ver_mode = version_override; ver_param = arg })
    else if c == b'V'
    then some (record o { ver_mode = version_append; ver_param = arg })
    else if c == b'o'
    then (if fopen arg then some (record o { outf = some arg }) else none)
    else if c == b'b'
    then built_from_option o arg
    else none

-- What `parse_params` leaves; `none` is the return value -1.
pub record Parsed : Type 0 where
  pub opts : GenOpts
  pub file_name : Bytes
  pub package_name : Bytes

abbrev pub with_operands : List Bytes → GenOpts → Option Parsed
with_operands [] o = none
with_operands (f ∷ []) o = none
with_operands (f ∷ p ∷ []) o = some (record { opts = o; file_name = f; package_name = p })
with_operands (f ∷ p ∷ x ∷ xs) o = none

unfoldable pub parse_params : (Bytes → Bool) → List Bytes → Option Parsed
parse_params fopen args =
    let (events, operands) = getopt false (codes "v:V:o:b:") args in
    elim (fold_events (option_switch fopen) default_opts events) [
      | none ↦ none
      | some o ↦ with_operands operands o
    ]

-- `main`: what it generates, and the file it writes it to, where `files` gives those for reading.
unfoldable pub gencontrol_main :
    (Bytes → Bool) → (Bytes → Option File) → List Bytes → Option Bytes × Generated
gencontrol_main fopen files args = elim (parse_params fopen args) [
  | none ↦ (none, exit_failure)
  | some p ↦ (
    p.opts.outf,
    gencontrol (record {
      file = files p.file_name;
      package_name = p.package_name;
      ver_mode = p.opts.ver_mode;
      ver_param = p.opts.ver_param;
      bf_extra = p.opts.bf_extra;
    }),
  )
]
