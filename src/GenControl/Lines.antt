-- ===== src/GenControl/Lines.antt =====
-- The lines of the control file that tools/gencontrol.c writes.
use static_distro.Control.{BuiltFrom}
use static_distro.ControlParse.Lines.{
  IsText, text, is_word, is_text_byte, ends_in_word, word-IsText, word_bytes, word_end,
  split_lines-line,
}
use static_distro.ControlParse.{split_lines}
use static_distro.GenControl.{
  VersionMode, version_keep, version_override, version_append, version_line, depend_lines,
  built_from_lines, built_from_field, control_text, newline,
}
use static_distro.LibC.{isspace}
use static_distro.Shared.{
  ℕ, Bool, true, not, List, [], ◌∷◌, ◌++◌, map, ◌==◌, ◌≡◌, refl, ap, ◌∙◌, all, All, append_assoc,
  Bytes, codes, arith,
}

pub data IsWord : Bytes → Type 0 where
  word : {c : ℕ} {s : Bytes} → all is_word (c ∷ s) ≡ true → IsWord (c ∷ s)

pub IsWord-IsText : (s : Bytes) → IsWord s → IsText s
IsWord-IsText s (word {c} {s = cs} h) = word-IsText c cs h

-- The version that is written.
abbrev pub shown_version : VersionMode → Bytes → Bytes → Bytes
shown_version version_keep version param = version
shown_version version_override version param = param
shown_version version_append version param = version ++ param

-- Two words on a line.
abbrev pub two_words : Bytes → Bytes → Bytes
two_words a b = a ++ (codes " " ++ b)

two_words_bytes :
    (s b : Bytes)
    → all is_word s ≡ true
    → all is_word b ≡ true
    → all is_text_byte (two_words s b) ≡ true
unfolding isspace
two_words_bytes [] b h k = word_bytes b k
two_words_bytes (c ∷ s) b h k = ground (arith, two_words_bytes s b)

two_words_end :
    (c d : ℕ) (s ds : Bytes)
    → all is_word (d ∷ ds) ≡ true
    → ends_in_word c (two_words s (d ∷ ds)) ≡ true
two_words_end c d [] ds h = word_end d ds h
two_words_end c d (x ∷ s) ds h = two_words_end x d s ds h

pub two_words-IsText : (a b : Bytes) → IsWord a → IsWord b → IsText (two_words a b)
two_words-IsText a b (word {c} {s} h) (word {c = d} {s = ds} k) =
    text (ground arith) (two_words_bytes (c ∷ s) (d ∷ ds) h k) (two_words_end c d s ds k)

abbrev no_newline : ℕ → Bool
no_newline c = not (c == b'\n')

text_line : (s : Bytes) → all is_text_byte s ≡ true → all no_newline s ≡ true
text_line [] h = refl
text_line (c ∷ s) h = ground (arith, text_line s)

IsText-no_newline : (t : Bytes) → IsText t → all no_newline t ≡ true
IsText-no_newline t (text {c} {s} w h last) = text_line (c ∷ s) h

-- The lines of the list of dependencies, and of the packages that went into the build.
abbrev pub further_line : Bytes → Bytes
further_line t = codes "  " ++ (t ++ newline)

abbrev pub bf_text : BuiltFrom → Bytes
bf_text bf = two_words bf.package_name bf.version

split-depend_lines :
    (ds : List Bytes) (rest : Bytes)
    → All IsText ds
    → split_lines (depend_lines ds ++ rest) ≡ map further_line ds ++ split_lines rest
unfolding depend_lines
split-depend_lines [] rest h = refl
split-depend_lines (d ∷ ds) rest (h, hs) =
    let plain : all no_newline (codes "  " ++ d) ≡ true = IsText-no_newline d h in
    rw (append_assoc d (b'\n' ∷ depend_lines ds) rest) (
      split_lines-line (codes "  " ++ d) (depend_lines ds ++ rest) plain
      ∙ ap (◌∷◌ (further_line d)) (split-depend_lines ds rest hs))

split-nothing : split_lines [] ≡ []
unfolding split_lines
split-nothing = refl

split-built_from_lines :
    (bfs : List BuiltFrom)
    → All (λ bf. IsWord bf.package_name × IsWord bf.version) bfs
    → split_lines (built_from_lines bfs) ≡ map further_line (map bf_text bfs)
unfolding built_from_lines
split-built_from_lines [] h = split-nothing
split-built_from_lines (bf ∷ bfs) ((name, version), hs) =
    let plain : all no_newline (codes "  " ++ bf_text bf) ≡ true =
      IsText-no_newline (bf_text bf) (two_words-IsText bf.package_name bf.version name version) in
    let line : codes "  "
          ++ (bf.package_name ++ (codes " " ++ (bf.version ++ (b'\n' ∷ built_from_lines bfs))))
        ≡ (codes "  " ++ bf_text bf) ++ (b'\n' ∷ built_from_lines bfs) =
      rw (append_assoc bf.package_name (codes " " ++ bf.version) (b'\n' ∷ built_from_lines bfs)) in
    ap split_lines line
    ∙ (split_lines-line (codes "  " ++ bf_text bf) (built_from_lines bfs) plain
        ∙ ap (◌∷◌ (further_line (bf_text bf))) (split-built_from_lines bfs hs))

abbrev pub bf_lines : List BuiltFrom → List Bytes
bf_lines [] = []
bf_lines (bf ∷ bfs) = codes "Built-From:\n" ∷ map further_line (map bf_text (bf ∷ bfs))

split-built_from_field :
    (bfs : List BuiltFrom)
    → All (λ bf. IsWord bf.package_name × IsWord bf.version) bfs
    → split_lines (built_from_field bfs) ≡ bf_lines bfs
unfolding built_from_field
split-built_from_field [] h = split-nothing
split-built_from_field (bf ∷ bfs) h =
    split_lines-line (codes "Built-From:") (built_from_lines (bf ∷ bfs)) refl
    ∙ ap (◌∷◌ (codes "Built-From:\n")) (split-built_from_lines (bf ∷ bfs) h)

-- The lines of the whole file.
abbrev pub file_lines : Bytes → Bytes → Bytes → List Bytes → List BuiltFrom → List Bytes
file_lines name v source_version depends extra =
    (codes "Package: " ++ (name ++ newline))
    ∷ (codes "Version: " ++ (v ++ newline))
    ∷ (codes "Source: " ++ (source_version ++ newline))
    ∷ codes "Depends-Run:\n"
    ∷ (map further_line depends ++ bf_lines extra)

version_line-shown :
    (mode : VersionMode) (param version rest : Bytes)
    → version_line mode version param ++ rest
      ≡ (codes "Version: " ++ shown_version mode version param) ++ (b'\n' ∷ rest)
unfolding version_line
version_line-shown version_keep param version rest = rw (append_assoc version newline rest)
version_line-shown version_override param version rest = rw (append_assoc param newline rest)
version_line-shown version_append param version rest = rw (
  append_assoc version (param ++ newline) rest,
  append_assoc param newline rest,
  append_assoc version param (b'\n' ∷ rest),
)

pub split-control_text :
    (name : Bytes) (mode : VersionMode) (param source version : Bytes) (depends : List Bytes)
    (extra : List BuiltFrom)
    → IsWord name
    → IsWord (shown_version mode version param)
    → IsWord source
    → IsWord version
    → All IsText depends
    → All (λ bf. IsWord bf.package_name × IsWord bf.version) extra
    → split_lines (control_text name mode param source version depends extra)
      ≡ file_lines name (shown_version mode version param) (two_words source version) depends extra
unfolding control_text
split-control_text name mode param source version depends extra hn hv hs hsv hd he =
    let lists =
      codes "Depends-Run:" ++ (b'\n' ∷ (depend_lines depends ++ built_from_field extra)) in
    let source_line : codes "Source: " ++ (source ++ (codes " " ++ (version ++ (b'\n' ∷ lists))))
        ≡ (codes "Source: " ++ two_words source version) ++ (b'\n' ∷ lists) =
      rw (append_assoc source (codes " " ++ version) (b'\n' ∷ lists)) in
    let later = (codes "Source: " ++ two_words source version) ++ (b'\n' ∷ lists) in
    let v = shown_version mode version param in
    rw (control_text, source_line, version_line-shown mode param version later)
      (split_lines-line (codes "Package: " ++ name) ((codes "Version: " ++ v) ++ (b'\n' ∷ later))
          (IsText-no_newline name (IsWord-IsText name hn))
        ∙ ap (◌∷◌ (codes "Package: " ++ (name ++ newline))) (
            split_lines-line (codes "Version: " ++ v) later
              (IsText-no_newline v (IsWord-IsText v hv))
            ∙ ap (◌∷◌ (codes "Version: " ++ (v ++ newline))) (
                split_lines-line (codes "Source: " ++ two_words source version) lists (
                  IsText-no_newline (two_words source version)
                    (two_words-IsText source version hs hsv))
                ∙ ap (◌∷◌ (codes "Source: " ++ (two_words source version ++ newline))) (
                    split_lines-line (codes "Depends-Run:")
                      (depend_lines depends ++ built_from_field extra) refl
                    ∙ ap (◌∷◌ (codes "Depends-Run:\n")) (
                        split-depend_lines depends (built_from_field extra) hd
                        ∙ ap (λ ls. map further_line depends ++ ls)
                            (split-built_from_field extra he))))))
