-- ===== src/GenControl/Fields.antt =====
-- The fields of the control file that tools/gencontrol.c writes, as tools/controlparse.c reads them.
use static_distro.Control.{BuiltFrom}
use static_distro.ControlParse.Lines.{
  IsText, in_para, with_line, text-trimmed, text-span, controlparse_line-further,
  controlparse_line-field,
}
use static_distro.ControlParse.{
  Field, ControlParse, ok, c_str, trim_end, controlparse_init, controlparse_line, parse_lines,
  content_line, open_para,
}
use static_distro.GenControl.Lines.{
  IsWord, two_words-IsText, bf_text, further_line, bf_lines, file_lines,
}
use static_distro.GenControl.{newline}
use static_distro.LibC.{isspace, span_len}
use static_distro.Shared.{
  false, List, [], ◌∷◌, ◌++◌, map, ◌==◌, ◌≡◌, refl, sym, ap, ◌∙◌, All, append-nil, append_assoc,
  length, drop, Bytes, codes, arith,
}

parse_lines-ok :
    (c c' : ControlParse) (l : Bytes) (ls : List Bytes)
    → controlparse_line c l ≡ ok c'
    → parse_lines c (l ∷ ls) ≡ parse_lines c' ls
unfolding parse_lines
parse_lines-ok c c' l ls h = rw (parse_lines, h)

abbrev with_lines : Field → List Bytes → Field
with_lines f ts = record f { lines = f.lines ++ ts }

parse_lines-further :
    (fs : List Field) (f : Field) (ts ls : List Bytes)
    → All IsText ts
    → parse_lines (in_para (fs ++ (f ∷ []))) (map further_line ts ++ ls)
      ≡ parse_lines (in_para (fs ++ (with_lines f ts ∷ []))) ls
parse_lines-further fs f [] ls h = rw (append-nil)
parse_lines-further fs f (t ∷ ts) ls (h, hs) =
    parse_lines-ok (in_para (fs ++ (f ∷ []))) (in_para (fs ++ (with_line f t ∷ [])))
      (further_line t) (map further_line ts ++ ls) (controlparse_line-further fs f t h)
    ∙ parse_lines-further fs (with_line f t) ts ls hs
    ∙ ap (λ ls'. parse_lines (in_para (fs ++ (record f { lines = ls' } ∷ []))) ls)
        (append_assoc f.lines (t ∷ []) ts)

-- The value of a field on its first line.
value :
    (t : Bytes)
    → IsText t
    → c_str (
        trim_end
          (drop (span_len isspace (codes " " ++ (t ++ newline))) (codes " " ++ (t ++ newline))))
      ≡ t
unfolding span_len isspace
value t h =
    let one : span_len isspace (codes " " ++ (t ++ newline)) ≡ 1 =
      rw (span_len, text-span t newline h) in
    rw (one) (text-trimmed t h)

abbrev pub single : Bytes → Bytes → Field
single name t = record { name = name; lines = t ∷ [] }

version-parsed :
    (fs : List Field) (t : Bytes)
    → IsText t
    → controlparse_line (in_para fs) (codes "Version: " ++ (t ++ newline))
      ≡ ok (in_para (fs ++ (single (codes "Version") t ∷ [])))
unfolding isspace
version-parsed fs t h =
    controlparse_line-field fs b'V' (codes "ersion") (codes " " ++ (t ++ newline)) t refl refl
      (value t h)

source-parsed :
    (fs : List Field) (t : Bytes)
    → IsText t
    → controlparse_line (in_para fs) (codes "Source: " ++ (t ++ newline))
      ≡ ok (in_para (fs ++ (single (codes "Source") t ∷ [])))
unfolding isspace
source-parsed fs t h =
    controlparse_line-field fs b'S' (codes "ource") (codes " " ++ (t ++ newline)) t refl refl
      (value t h)

first_line :
    (s : Bytes)
    → controlparse_line controlparse_init (b'P' ∷ s) ≡ controlparse_line (in_para []) (b'P' ∷ s)
unfolding controlparse_line content_line open_para span_len isspace controlparse_init
first_line s =
    let some_bytes : (0 == length (b'P' ∷ s)) ≡ false = ground arith in
    rw (controlparse_line, content_line, some_bytes, open_para)

package-parsed :
    (t : Bytes)
    → IsText t
    → controlparse_line controlparse_init (codes "Package: " ++ (t ++ newline))
      ≡ ok (in_para (single (codes "Package") t ∷ []))
unfolding isspace
package-parsed t h =
    first_line (codes "ackage: " ++ (t ++ newline))
    ∙ controlparse_line-field [] b'P' (codes "ackage") (codes " " ++ (t ++ newline)) t refl refl
        (value t h)

depends-parsed :
    (fs : List Field)
    → controlparse_line (in_para fs) (codes "Depends-Run:\n")
      ≡ ok (in_para (fs ++ (single (codes "Depends-Run") [] ∷ [])))
unfolding isspace span_len trim_end c_str
depends-parsed fs = controlparse_line-field fs b'D' (codes "epends-Run") newline [] refl refl refl

built_from-parsed :
    (fs : List Field)
    → controlparse_line (in_para fs) (codes "Built-From:\n")
      ≡ ok (in_para (fs ++ (single (codes "Built-From") [] ∷ [])))
unfolding isspace span_len trim_end c_str
built_from-parsed fs = controlparse_line-field fs b'B' (codes "uilt-From") newline [] refl refl refl

-- The fields of the one paragraph.
abbrev pub front_fields : Bytes → Bytes → Bytes → List Field
front_fields name v source_version =
    single (codes "Package") name
    ∷ single (codes "Version") v
    ∷ single (codes "Source") source_version
    ∷ []

abbrev pub depends_field : List Bytes → Field
depends_field depends = record { name = codes "Depends-Run"; lines = [] ∷ depends }

abbrev pub bf_fields : List BuiltFrom → List Field
bf_fields [] = []
bf_fields (bf ∷ bfs) =
    record { name = codes "Built-From"; lines = [] ∷ map bf_text (bf ∷ bfs) } ∷ []

bf_lines-parsed :
    (fs : List Field) (extra : List BuiltFrom)
    → All (λ bf. IsWord bf.package_name × IsWord bf.version) extra
    → parse_lines (in_para fs) (bf_lines extra) ≡ ok (in_para (fs ++ bf_fields extra))
unfolding parse_lines
bf_lines-parsed fs [] h = rw (append-nil)
bf_lines-parsed fs (bf ∷ bfs) h =
    parse_lines-ok (in_para fs) (in_para (fs ++ (single (codes "Built-From") [] ∷ [])))
      (codes "Built-From:\n") (map further_line texts) (built_from-parsed fs)
    ∙ ap (parse_lines (in_para (fs ++ (single (codes "Built-From") [] ∷ []))))
        (sym (append-nil (map further_line texts)))
    ∙ parse_lines-further fs (single (codes "Built-From") []) texts [] (all_texts (bf ∷ bfs) h)
  where
    texts : List Bytes
    texts = map bf_text (bf ∷ bfs)

    all_texts :
        (bfs : List BuiltFrom)
        → All (λ bf. IsWord bf.package_name × IsWord bf.version) bfs
        → All IsText (map bf_text bfs)
    all_texts [] h = tt
    all_texts (b ∷ bs) ((n, v), hs) =
        (two_words-IsText b.package_name b.version n v, all_texts bs hs)

pub file_lines-parsed :
    (name v source_version : Bytes) (depends : List Bytes) (extra : List BuiltFrom)
    → IsText name
    → IsText v
    → IsText source_version
    → All IsText depends
    → All (λ bf. IsWord bf.package_name × IsWord bf.version) extra
    → parse_lines controlparse_init (file_lines name v source_version depends extra)
      ≡ ok (
          in_para (front_fields name v source_version ++ (depends_field depends ∷ bf_fields extra)))
file_lines-parsed name v source_version depends extra hn hv hs hd he =
    parse_lines-ok controlparse_init _ _ _ (package-parsed name hn)
    ∙ parse_lines-ok _ _ _ _ (version-parsed (single (codes "Package") name ∷ []) v hv)
    ∙ parse_lines-ok _ _ _ _ (
        source-parsed (single (codes "Package") name ∷ single (codes "Version") v ∷ [])
          source_version hs)
    ∙ parse_lines-ok _ _ _ _ (depends-parsed front)
    ∙ parse_lines-further front (single (codes "Depends-Run") []) depends (bf_lines extra) hd
    ∙ bf_lines-parsed (front ++ (depends_field depends ∷ [])) extra he
  where
    front : List Field
    front = front_fields name v source_version
