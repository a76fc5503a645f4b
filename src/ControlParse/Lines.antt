-- ===== src/ControlParse/Lines.antt =====
-- Lines of control files as tools/controlparse.c reads them: a field with its first line, and the
-- further lines of a field.
use static_distro.ControlParse.Append.{add_line_to-append}
use static_distro.ControlParse.{
  Field, ControlParse, ok, c_str, trim_end, add_field, add_line, finish_line, start_field,
  content_line, controlparse_line, split_lines, cons_line, open_para,
}
use static_distro.LibC.Search.{strchr-append, take-length, drop-suc-length}
use static_distro.LibC.{isspace, strchr, span_len}
use static_distro.Shared.{
  ℕ, Bool, true, false, not, ◌&&◌, List, [], ◌∷◌, ◌++◌, some, ◌==◌, ◌≡◌, ◌≢◌, refl, all, All,
  length, drop, Bytes, codes, arith,
}

-- A byte of a word: no white space, and no NUL.
abbrev pub is_word : ℕ → Bool
is_word c = not (isspace c) && not (c == 0)

-- A text on a line: its first and its last byte belong to words, and no byte is a newline or NUL.
abbrev pub is_text_byte : ℕ → Bool
is_text_byte c = not (c == b'\n') && not (c == 0)

abbrev pub ends_in_word : ℕ → Bytes → Bool
ends_in_word c [] = is_word c
ends_in_word c (d ∷ ds) = ends_in_word d ds

pub data IsText : Bytes → Type 0 where
  text :
      {c : ℕ} {s : Bytes}
      → is_word c ≡ true
      → all is_text_byte (c ∷ s) ≡ true
      → ends_in_word c s ≡ true
      → IsText (c ∷ s)

pub word_bytes : (s : Bytes) → all is_word s ≡ true → all is_text_byte s ≡ true
unfolding isspace
word_bytes [] h = refl
word_bytes (c ∷ s) h = ground (arith, word_bytes s)

pub word_end : (c : ℕ) (s : Bytes) → all is_word (c ∷ s) ≡ true → ends_in_word c s ≡ true
word_end c [] h = ground arith
word_end c (d ∷ ds) h = word_end d ds (ground arith)

-- A text of one word.
pub word-IsText : (c : ℕ) (s : Bytes) → all is_word (c ∷ s) ≡ true → IsText (c ∷ s)
word-IsText c s h = text (ground arith) (word_bytes (c ∷ s) h) (word_end c s h)

c_str-text : (s : Bytes) → all is_text_byte s ≡ true → c_str s ≡ s
unfolding c_str
c_str-text [] h = refl
c_str-text (c ∷ s) h = ground (arith, c_str-text s)

trim_end-text :
    (c : ℕ) (s : Bytes) → ends_in_word c s ≡ true → trim_end (c ∷ (s ++ (b'\n' ∷ []))) ≡ c ∷ s
unfolding trim_end isspace
trim_end-text c [] h = ground arith
trim_end-text c (d ∷ ds) h = rw (trim_end, trim_end-text d ds h)

pub text-trimmed : (t : Bytes) → IsText t → c_str (trim_end (t ++ (b'\n' ∷ []))) ≡ t
text-trimmed t (text {c} {s} w bytes last) = rw (trim_end-text c s last) (c_str-text (c ∷ s) bytes)

-- No white space in front of a text.
pub text-span : (t rest : Bytes) → IsText t → span_len isspace (t ++ rest) ≡ 0
unfolding span_len
text-span t rest (text {c} {s} w bytes last) = ground arith

-- A line of a file is split off.
pub split_lines-line :
    (l rest : Bytes)
    → all (λ c. not (c == b'\n')) l ≡ true
    → split_lines (l ++ (b'\n' ∷ rest)) ≡ (l ++ (b'\n' ∷ [])) ∷ split_lines rest
unfolding split_lines cons_line
split_lines-line [] rest h = refl
split_lines-line (c ∷ l) rest h =
    let no_newline : (c == b'\n') ≡ false = ground arith in
    rw (split_lines, no_newline, split_lines-line l rest (ground arith))

-- A parser in its first paragraph.
abbrev pub in_para : List Field → ControlParse
in_para fs = record { paras = record { fields = fs } ∷ []; in_break = false }

abbrev pub with_line : Field → Bytes → Field
with_line f l = record f { lines = f.lines ++ (l ∷ []) }

finish_line-append :
    (fs : List Field) (f : Field) (s t : Bytes)
    → c_str (trim_end s) ≡ t
    → finish_line (in_para (fs ++ (f ∷ []))) s ≡ ok (in_para (fs ++ (with_line f t ∷ [])))
unfolding finish_line add_line
finish_line-append fs f s t h = rw (finish_line, h, add_line, add_line_to-append fs f t)

-- A further line of the last field.
pub controlparse_line-further :
    (fs : List Field) (f : Field) (t : Bytes)
    → IsText t
    → controlparse_line (in_para (fs ++ (f ∷ []))) (codes "  " ++ (t ++ (b'\n' ∷ [])))
      ≡ ok (in_para (fs ++ (with_line f t ∷ [])))
unfolding controlparse_line content_line open_para span_len isspace
controlparse_line-further fs f t h =
    let blanks : span_len isspace (codes "  " ++ (t ++ (b'\n' ∷ []))) ≡ 2 =
      rw (span_len, text-span t (b'\n' ∷ []) h) in
    let more : (2 == length (codes "  " ++ (t ++ (b'\n' ∷ [])))) ≡ false = text-length t h in
    rw (controlparse_line, blanks, content_line, more)
      (finish_line-append fs f (t ++ (b'\n' ∷ [])) t (text-trimmed t h))
  where
    text-length : (t : Bytes) → IsText t → (2 == length (codes "  " ++ (t ++ (b'\n' ∷ [])))) ≡ false
    text-length t (text w bytes last) = ground arith

-- A name of a field: words, and no colon; it does not look like a comment.
abbrev pub is_name_byte : ℕ → Bool
is_name_byte c = is_word c && not (c == b':')

name_bytes : (s : Bytes) → all is_name_byte s ≡ true → All (λ c. c ≢ b':') s
name_bytes [] h = tt
name_bytes (c ∷ s) h = ((λ e. ground arith), name_bytes s (ground arith))

c_str-name : (s rest : Bytes) → all is_name_byte s ≡ true → c_str (s ++ rest) ≡ s ++ c_str rest
unfolding c_str
c_str-name [] rest h = refl
c_str-name (c ∷ s) rest h = ground (arith, c_str-name s rest)

-- A line that starts a field, with its first line behind the colon and white space.
pub controlparse_line-field :
    (fs : List Field) (n : ℕ) (ns rest t : Bytes)
    → all is_name_byte (n ∷ ns) ≡ true
    → (n == b'#') ≡ false
    → c_str (trim_end (drop (span_len isspace rest) rest)) ≡ t
    → controlparse_line (in_para fs) ((n ∷ ns) ++ (b':' ∷ rest))
      ≡ ok (in_para (fs ++ (record { name = n ∷ ns; lines = t ∷ [] } ∷ [])))
unfolding controlparse_line content_line open_para span_len start_field add_field c_str
controlparse_line-field fs n ns rest t name comment h =
    let no_space : isspace n ≡ false = ground arith in
    let start : span_len isspace ((n ∷ ns) ++ (b':' ∷ rest)) ≡ 0 = rw (span_len, no_space) in
    let some_bytes : (0 == length ((n ∷ ns) ++ (b':' ∷ rest))) ≡ false = ground arith in
    let colon : strchr (c_str ((n ∷ ns) ++ (b':' ∷ rest))) b':' ≡ some (length (n ∷ ns)) =
      rw (c_str-name (n ∷ ns) (b':' ∷ rest) name, c_str)
        (strchr-append (n ∷ ns) (c_str rest) b':' (name_bytes (n ∷ ns) name)) in
    rw
      (
        controlparse_line,
        comment,
        start,
        content_line,
        some_bytes,
        colon,
        start_field,
        add_field,
        drop-suc-length (n ∷ ns) b':' rest,
        take-length (n ∷ ns) (b':' ∷ rest),
      )
      (finish_line-append fs (record { name = n ∷ ns; lines = [] })
        (drop (span_len isspace rest) rest) t h)
