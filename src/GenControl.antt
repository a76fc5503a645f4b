-- ===== src/GenControl.antt =====
-- tools/gencontrol.c: the control file of a binary package, made from a source control file.
pub mod CommandLine
pub mod Lines
pub mod Fields
pub mod RoundTrip
mod Tests
use static_distro.Control.{BuiltFrom, SourceControl, SourceControlBin, source_control_parsefd}
use static_distro.ControlParse.{File}
use static_distro.Shared.{
  ℕ, Bool, true, false, List, [], ◌∷◌, ◌++◌, Option, none, some, if◌then◌else◌, str_eq, Bytes,
  codes,
}

pub data VersionMode : Type 0 where
  version_keep version_override version_append : VersionMode

-- The global variables that `parse_params` sets, and the file that the path `file_name` leads to.
pub record Params : Type 0 where
  pub file : Option File
  pub package_name : Bytes
  pub ver_mode : VersionMode
  pub ver_param : Bytes
  pub bf_extra : List BuiltFrom

-- The text written, the exit status for a failure, or a null pointer given to `strcmp` or `fprintf`.
pub data Generated : Type 0 where
  wrote : Bytes → Generated
  exit_failure null_deref : Generated

-- The binary package that the loop finds.
pub data Lookup : Type 0 where
  found : SourceControlBin → Bytes → Lookup
  not_found no_name : Lookup

unfoldable pub find_bin : List SourceControlBin → Bytes → Lookup
find_bin [] name = not_found
find_bin (sb ∷ sbs) name =
    let rest = find_bin sbs name in
    elim sb.package_name [
      | none ↦ no_name
      | some pkg ↦ if str_eq pkg name then found sb pkg else rest
    ]

abbrev pub newline : Bytes
newline = b'\n' ∷ []

-- The switch on `ver_mode`.
unfoldable pub version_line : VersionMode → Bytes → Bytes → Bytes
version_line version_keep version param = codes "Version: " ++ (version ++ newline)
version_line version_override version param = codes "Version: " ++ (param ++ newline)
version_line version_append version param = codes "Version: " ++ (version ++ (param ++ newline))

unfoldable pub depend_lines : List Bytes → Bytes
depend_lines [] = []
depend_lines (d ∷ ds) = codes "  " ++ (d ++ (newline ++ depend_lines ds))

unfoldable pub built_from_lines : List BuiltFrom → Bytes
built_from_lines [] = []
built_from_lines (bf ∷ bfs) =
    codes "  "
    ++ (bf.package_name ++ (codes " " ++ (bf.version ++ (newline ++ built_from_lines bfs))))

unfoldable pub built_from_field : List BuiltFrom → Bytes
built_from_field [] = []
built_from_field (bf ∷ bfs) = codes "Built-From:" ++ (newline ++ built_from_lines (bf ∷ bfs))

-- All that is written, for a package that was found.
unfoldable pub control_text :
    Bytes → VersionMode → Bytes → Bytes → Bytes → List Bytes → List BuiltFrom → Bytes
control_text package_name mode param source version depends extra =
    codes "Package: "
    ++ (package_name
        ++ (newline
            ++ (version_line mode version param
                ++ (codes "Source: "
                    ++ (source
                        ++ (codes " "
                            ++ (version
                                ++ (newline
                                    ++ (codes "Depends-Run:"
                                        ++ (newline
                                            ++ (depend_lines depends
                                                ++ built_from_field extra)))))))))))

abbrev pub write_control :
    Params → SourceControlBin → Bytes → Option Bytes → Option Bytes → Generated
write_control p sb package_name (some source) (some version) =
    wrote (control_text package_name p.ver_mode p.ver_param source version sb.run_depend p.bf_extra)
write_control p sb package_name none version = null_deref
write_control p sb package_name (some source) none = null_deref

-- `main`, from the parsed parameters on
unfoldable pub gencontrol : Params → Generated
gencontrol p = elim (source_control_parsefd p.file) [
  | none ↦ exit_failure
  | some c ↦ elim (find_bin c.bins p.package_name) [
    | not_found ↦ exit_failure
    | no_name ↦ null_deref
    | found sb package_name ↦ write_control p sb package_name c.source c.version
  ]
]
