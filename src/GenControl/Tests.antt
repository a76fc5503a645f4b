-- ===== src/GenControl/Tests.antt =====
-- Runs of tools/gencontrol.c, and of the parsers below it.
use static_distro.GenControl.RoundTrip.{control_parsefd-gencontrol}
use static_distro.GenControl.Lines.{IsWord, word}
use static_distro.ControlParse.Lines.{IsText, word-IsText}
use static_distro.Control.{
  SourceControl, SourceControlBin, source_control_parsefd, source_paras, source_bins, bin_fields,
  bin_field, source_fields, source_field, file_paras, control_parsefd, control_paras,
  control_fields, control_field, parse_singleline, parse_source, one_line, parse_builtfromlist,
  builtfroms, split_space, parse_sourcelist, parse_deplist, nonempty,
}
use static_distro.ControlParse.{
  controlparse_parsefd, parse_lines, split_lines, cons_line, controlparse_line, content_line,
  start_field, finish_line, open_para, add_line, add_line_to, add_field, trim_end, c_str,
  controlparse_init,
}
use static_distro.GenControl.{
  gencontrol, control_text, built_from_field, built_from_lines, depend_lines, version_line,
  find_bin, found, Params, version_append, wrote,
}
use static_distro.LibC.{isspace, strchr, span_len}
use static_distro.Shared.{◌≡◌, refl, false, [], ◌∷◌, some, All, str_eq, Bytes, codes}

-- Opens all that a run computes with.
runs : Unit {0}
unfolding str_eq isspace strchr span_len controlparse_init c_str trim_end add_field add_line_to
    add_line open_para finish_line start_field content_line controlparse_line cons_line split_lines
    parse_lines controlparse_parsefd nonempty parse_deplist parse_sourcelist split_space builtfroms
    parse_builtfromlist one_line parse_source parse_singleline control_field control_fields
    control_paras control_parsefd file_paras source_field source_fields bin_field bin_fields
    source_bins source_paras source_control_parsefd find_bin version_line depend_lines
    built_from_lines built_from_field control_text gencontrol
runs = tt

abbrev source_text : Bytes
source_text =
    codes
      "# a comment\nSource: zlib\nVersion: 1.2.11\nDepends-Run: musl\n  make\n\nPackage: zlib-dev\nDepends-Run:\n  gcc\n"

abbrev params : Params
params = record {
  file = some (record { contents = source_text; read_error = false });
  package_name = codes "zlib-dev";
  ver_mode = version_append;
  ver_param = codes "-1";
  bf_extra = [];
}

gencontrol_runs :
    gencontrol params
    ≡ wrote (
        codes
          "Package: zlib-dev\nVersion: 1.2.11-1\nSource: zlib 1.2.11\nDepends-Run:\n  gcc\n  musl\n  make\n")
unfolding runs
gencontrol_runs = refl

abbrev zlib_dev : SourceControlBin
zlib_dev = record {
  package_name = some (codes "zlib-dev");
  run_depend = codes "gcc" ∷ codes "musl" ∷ codes "make" ∷ [];
}

abbrev zlib : SourceControl
zlib = record {
  source = some (codes "zlib");
  version = some (codes "1.2.11");
  unpack_depend = [];
  build_depend = [];
  sources = [];
  bins = zlib_dev ∷ [];
}

source_control_parsefd_runs : source_control_parsefd params.file ≡ some zlib
unfolding runs
source_control_parsefd_runs = refl

find_bin_runs : find_bin zlib.bins params.package_name ≡ found zlib_dev (codes "zlib-dev")
unfolding runs
find_bin_runs = refl

depends-IsText : All IsText zlib_dev.run_depend
unfolding runs
depends-IsText = (
  word-IsText b'g' (codes "cc") refl,
  (word-IsText b'm' (codes "usl") refl, (word-IsText b'm' (codes "ake") refl, tt)),
)

zlib-IsWord : IsWord (codes "zlib")
unfolding runs
zlib-IsWord = word refl

name-IsWord : IsWord (codes "zlib-dev")
unfolding runs
name-IsWord = word refl

version-IsWord : IsWord (codes "1.2.11")
unfolding runs
version-IsWord = word refl

shown-IsWord : IsWord (codes "1.2.11-1")
unfolding runs
shown-IsWord = word refl

control_parsefd-gencontrol_example :
    (written : Bytes) × (gencontrol params ≡ wrote written)
    × (control_parsefd (some (record { contents = written; read_error = false }))
        ≡ some (record {
          package_name = some (codes "zlib-dev");
          version = some (codes "1.2.11-1");
          src_package = some (codes "zlib");
          src_version = some (codes "1.2.11");
          run_depend = codes "gcc" ∷ codes "musl" ∷ codes "make" ∷ [];
          built_froms = [];
        }))
control_parsefd-gencontrol_example =
    control_parsefd-gencontrol params zlib zlib_dev (codes "zlib-dev") (codes "zlib")
      (codes "1.2.11") source_control_parsefd_runs find_bin_runs refl refl name-IsWord shown-IsWord
      zlib-IsWord version-IsWord depends-IsText tt
