-- ===== src/GenControl/RoundTrip.antt =====
-- The control file that tools/gencontrol.c writes, as `control_parsefd` of tools/control.c reads it.
use static_distro.Control.{
  SourceControl, SourceControlBin, source_control_parsefd, BuiltFrom, Control, empty_control,
  control_parsefd, control_paras, control_fields, control_field, file_paras, nonempty,
  parse_deplist, split_space, builtfroms, parse_builtfromlist, one_line, parse_source,
  parse_singleline,
}
use static_distro.ControlParse.Lines.{IsText, text, is_word}
use static_distro.ControlParse.{Field, controlparse_parsefd}
use static_distro.GenControl.Lines.{
  IsWord, word, IsWord-IsText, shown_version, two_words, two_words-IsText, bf_text,
  split-control_text,
}
use static_distro.GenControl.Fields.{front_fields, depends_field, bf_fields, file_lines-parsed}
use static_distro.GenControl.{VersionMode, Params, found, find_bin, wrote, gencontrol, control_text}
use static_distro.LibC.Search.{strchr-append, take-length, drop-suc-length}
use static_distro.LibC.{isspace}
use static_distro.Shared.{
  false, true, List, [], ◌∷◌, ◌++◌, map, some, ◌≡◌, ◌≢◌, refl, all, All, str_eq, Bytes, arith,
}

nonempty-texts : (ts : List Bytes) → All IsText ts → nonempty ts ≡ ts
unfolding nonempty
nonempty-texts [] h = refl
nonempty-texts ((c ∷ s) ∷ ts) (h, hs) = rw (nonempty-texts ts hs)
nonempty-texts ([] ∷ ts) (h, hs) = absurd (no_text h)
  where
    no_text : IsText [] → ⊥
    no_text h = elim h [ ]

one_line-text : (t : Bytes) → IsText t → one_line (t ∷ []) ≡ some t
unfolding one_line
one_line-text t (text w h last) = refl

word_spaces : (s : Bytes) → all is_word s ≡ true → All (λ c. c ≢ 32) s
unfolding isspace
word_spaces [] h = tt
word_spaces (c ∷ s) h = ((λ e. ground arith), word_spaces s (ground arith))

split_space-two_words : (a b : Bytes) → IsWord a → split_space (two_words a b) ≡ some (a, b)
unfolding split_space
split_space-two_words a b (word {c} {s} h) = rw (
  split_space,
  strchr-append (c ∷ s) b 32 (word_spaces (c ∷ s) h),
  take-length (c ∷ s) (32 ∷ b),
  drop-suc-length (c ∷ s) 32 b,
)

builtfroms-two_words :
    (a b : Bytes) (ls : List Bytes) (bfs : List BuiltFrom)
    → IsWord a
    → builtfroms ls ≡ some bfs
    → builtfroms (two_words a b ∷ ls) ≡ some (record { package_name = a; version = b } ∷ bfs)
unfolding builtfroms
builtfroms-two_words a b ls bfs (word {c} {s} h) rest =
    rw (builtfroms, split_space-two_words (c ∷ s) b (word h), rest)

builtfroms-texts :
    (bfs : List BuiltFrom)
    → All (λ bf. IsWord bf.package_name × IsWord bf.version) bfs
    → builtfroms (map bf_text bfs) ≡ some bfs
unfolding builtfroms
builtfroms-texts [] h = refl
builtfroms-texts (bf ∷ bfs) ((name, version), hs) =
    builtfroms-two_words bf.package_name bf.version (map bf_text bfs) bfs name
      (builtfroms-texts bfs hs)

-- What the fields say.
abbrev named : Bytes → Bytes → Bytes → Bytes → List Bytes → Control
named name v source version depends = record {
  package_name = some name;
  version = some v;
  src_package = some source;
  src_version = some version;
  run_depend = depends;
  built_froms = [];
}

bf_fields-read :
    (c : Control) (extra : List BuiltFrom)
    → c.built_froms ≡ []
    → All (λ bf. IsWord bf.package_name × IsWord bf.version) extra
    → control_fields c (bf_fields extra) ≡ some (record c { built_froms = extra })
unfolding control_fields control_field str_eq parse_builtfromlist builtfroms
bf_fields-read c [] empty h = rw (← empty)
bf_fields-read c (bf ∷ bfs) empty h =
    rw (control_fields, control_field, parse_builtfromlist, empty, builtfroms-texts (bf ∷ bfs) h)

front_fields-read :
    (name v source version : Bytes) (depends : List Bytes) (fs : List Field)
    → IsText name
    → IsText v
    → IsWord source
    → IsWord version
    → All IsText depends
    → control_fields empty_control
        (front_fields name v (two_words source version) ++ (depends_field depends ∷ fs))
      ≡ control_fields (named name v source version depends) fs
unfolding control_fields control_field str_eq parse_singleline parse_source parse_deplist nonempty
front_fields-read name v source version depends fs hn hv hs hsv hd = rw (
  control_fields,
  control_field,
  parse_singleline,
  one_line-text name hn,
  one_line-text v hv,
  parse_source,
  one_line-text (two_words source version) (two_words-IsText source version hs hsv),
  split_space-two_words source version hs,
  parse_deplist,
  nonempty-texts depends hd,
)

control_parsefd-control_text :
    (name : Bytes) (mode : VersionMode) (param source version : Bytes) (depends : List Bytes)
    (extra : List BuiltFrom)
    → IsWord name
    → IsWord (shown_version mode version param)
    → IsWord source
    → IsWord version
    → All IsText depends
    → All (λ bf. IsWord bf.package_name × IsWord bf.version) extra
    → control_parsefd (
        some (record {
          contents = control_text name mode param source version depends extra;
          read_error = false;
        }))
      ≡ some (record {
        package_name = some name;
        version = some (shown_version mode version param);
        src_package = some source;
        src_version = some version;
        run_depend = depends;
        built_froms = extra;
      })
unfolding control_parsefd file_paras controlparse_parsefd control_paras
control_parsefd-control_text name mode param source version depends extra hn hv hs hsv hd he =
    let v = shown_version mode version param in
    rw (
      control_parsefd,
      file_paras,
      controlparse_parsefd,
      split-control_text name mode param source version depends extra hn hv hs hsv hd he,
      file_lines-parsed name v (two_words source version) depends extra (IsWord-IsText name hn)
          (IsWord-IsText v hv) (two_words-IsText source version hs hsv) hd he,
      front_fields-read name v source version depends (bf_fields extra) (IsWord-IsText name hn)
          (IsWord-IsText v hv) hs hsv hd,
      bf_fields-read (named name v source version depends) extra refl he,
    )

-- `control_parsefd` reads back what `gencontrol` writes. When the source control file is parsed and
-- has the package, a source and a version, the name, the source, both versions and the packages that went into the
-- build are words, and the dependencies are texts, then `gencontrol` writes a file that is parsed to
-- the package, the version asked for, the source with its version, the dependencies of the package, and the packages
-- that went into the build.
pub control_parsefd-gencontrol :
    (p : Params) (c : SourceControl) (sb : SourceControlBin) (name source version : Bytes)
    → source_control_parsefd p.file ≡ some c
    → find_bin c.bins p.package_name ≡ found sb name
    → c.source ≡ some source
    → c.version ≡ some version
    → IsWord name
    → IsWord (shown_version p.ver_mode version p.ver_param)
    → IsWord source
    → IsWord version
    → All IsText sb.run_depend
    → All (λ bf. IsWord bf.package_name × IsWord bf.version) p.bf_extra
    → (written : Bytes) × (gencontrol p ≡ wrote written)
      × (control_parsefd (some (record { contents = written; read_error = false }))
          ≡ some (record {
            package_name = some name;
            version = some (shown_version p.ver_mode version p.ver_param);
            src_package = some source;
            src_version = some version;
            run_depend = sb.run_depend;
            built_froms = p.bf_extra;
          }))
unfolding gencontrol
control_parsefd-gencontrol p c sb name source version parsed at_sb at_source at_version hn hv hs hsv
      hd he =
    (
      control_text name p.ver_mode p.ver_param source version sb.run_depend p.bf_extra,
      rw (gencontrol, parsed, at_sb, at_source, at_version),
      control_parsefd-control_text name p.ver_mode p.ver_param source version sb.run_depend
          p.bf_extra hn hv hs hsv hd he,
    )
