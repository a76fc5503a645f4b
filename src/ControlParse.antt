-- ===== src/ControlParse.antt =====
-- tools/controlparse.c: files of paragraphs, their fields, and the lines of a field.
-- The stored names and lines are read as C strings only, so they are kept up to their first NUL.
-- Allocation is taken to succeed.
pub mod Append
pub mod Safe
pub mod Lines
pub mod Destroy
mod Tests
use static_distro.LibC.{isspace, strchr, span_len}
use static_distro.Shared.{
  ℕ, zero, suc, ◌+◌, ◌-◌, Bool, true, false, not, ◌&&◌, List, [], ◌∷◌, ◌++◌, Option, none, some,
  ◌==◌, if◌then◌else◌, length, take, drop, Bytes,
}
use mathlib.Core.Option

pub record Field : Type 0 where
  pub name : Bytes
  pub lines : List Bytes

pub record Para : Type 0 where
  pub fields : List Field

-- `paras` from `para_first` to `para_last`
pub record ControlParse : Type 0 where
  pub paras : List Para
  pub in_break : Bool

-- A call returns 0 or -1, with the state that it leaves, or follows a null pointer.
pub data Parsed : Type 0 where
  ok : ControlParse → Parsed
  error : ControlParse → Parsed
  null_deref : Parsed

unfoldable pub controlparse_init : ControlParse
controlparse_init = record { paras = []; in_break = true }

-- The bytes in front of the first NUL.
unfoldable pub c_str : Bytes → Bytes
c_str [] = []
c_str (c ∷ cs) = let more = c ∷ c_str cs in if c == 0 then [] else more

-- The white space at the end, taken off.
unfoldable pub trim_end : Bytes → Bytes
trim_end [] = []
trim_end (c ∷ cs) = elim (trim_end cs) [
  | [] ↦ if isspace c then [] else c ∷ []
  | d ∷ ds ↦ c ∷ d ∷ ds
]

-- A field appended to the last paragraph; `none` if there is none.
unfoldable pub add_field : List Para → Field → Option (List Para)
add_field [] f = none
add_field (p ∷ []) f = some (record { fields = p.fields ++ (f ∷ []) } ∷ [])
add_field (p ∷ q ∷ ps) f = Option.map (◌∷◌ p) (add_field (q ∷ ps) f)

-- A line appended to the last field; `none` if there is none.
unfoldable pub add_line_to : List Field → Bytes → Option (List Field)
add_line_to [] line = none
add_line_to (f ∷ []) line = some (record f { lines = f.lines ++ (line ∷ []) } ∷ [])
add_line_to (f ∷ g ∷ fs) line = Option.map (◌∷◌ f) (add_line_to (g ∷ fs) line)

-- What became of a line: no paragraph, no field in the last one, or the new paragraphs.
pub data Added : Type 0 where
  no_para no_field : Added
  added : List Para → Added

unfoldable pub add_line : List Para → Bytes → Added
add_line [] line = no_para
add_line (p ∷ []) line = elim (add_line_to p.fields line) [
  | none ↦ no_field
  | some fs ↦ added (record { fields = fs } ∷ [])
]
add_line (p ∷ q ∷ ps) line = elim (add_line (q ∷ ps) line) [
  | no_para ↦ no_para
  | no_field ↦ no_field
  | added qs ↦ added (p ∷ qs)
]

-- A new paragraph behind a break.
unfoldable pub open_para : ControlParse → ControlParse
open_para c =
    if c.in_break
    then record { paras = c.paras ++ (record { fields = [] } ∷ []); in_break = false }
    else c

-- The end of `controlparse_line`: the rest of the line goes to the last field.
unfoldable pub finish_line : ControlParse → Bytes → Parsed
finish_line c text = elim (add_line c.paras (c_str (trim_end text))) [
  | no_para ↦ null_deref
  | no_field ↦ error c
  | added ps ↦ ok (record c { paras = ps })
]

-- A line that starts a new field, with the offset of its colon.
unfoldable pub start_field : ControlParse → Bytes → Option ℕ → Parsed
start_field c line none = error c
start_field c line (some col) =
    let rest = drop (suc col) line in
    elim (add_field c.paras (record { name = take col line; lines = [] })) [
      | none ↦ null_deref
      | some ps ↦ finish_line (record c { paras = ps }) (drop (span_len isspace rest) rest)
    ]

-- A line that is no comment, with the number of blanks at its start.
unfoldable pub content_line : ControlParse → Bytes → ℕ → Parsed
content_line c line off =
    if off == length line
    then ok (record c { in_break = true })
    else if off == 0
    then start_field (open_para c) line (strchr (c_str line) b':')
    else finish_line (open_para c) (drop off line)

abbrev pub is_comment : Bytes → Bool
is_comment [] = false
is_comment (c ∷ cs) = c == b'#'

unfoldable pub controlparse_line : ControlParse → Bytes → Parsed
controlparse_line c line =
    if is_comment line then ok c else content_line c line (span_len isspace line)

-- The lines that `getline` returns, each with its newline.
unfoldable pub cons_line : ℕ → List Bytes → List Bytes
cons_line c [] = (c ∷ []) ∷ []
cons_line c (l ∷ ls) = (c ∷ l) ∷ ls

unfoldable pub split_lines : Bytes → List Bytes
split_lines [] = []
split_lines (c ∷ cs) =
    let rest = split_lines cs in if c == b'\n' then (c ∷ []) ∷ rest else cons_line c rest

-- The loop over the lines.
unfoldable pub parse_lines : ControlParse → List Bytes → Parsed
parse_lines c [] = ok c
parse_lines c (l ∷ ls) = elim (controlparse_line c l) [
  | ok c' ↦ parse_lines c' ls
  | error c' ↦ error c'
  | null_deref ↦ null_deref
]

-- The end of the file leaves the parser as it is.
abbrev pub controlparse_eof : ControlParse → Parsed
controlparse_eof c = ok c

-- What a file descriptor gives: the bytes read from it, and whether reading ended by an error.
pub record File : Type 0 where
  pub contents : Bytes
  pub read_error : Bool

-- A descriptor that cannot be duplicated or opened as a stream is `none`.
unfoldable pub controlparse_parsefd : ControlParse → Option File → Parsed
controlparse_parsefd c none = error c
controlparse_parsefd c (some f) = elim (parse_lines c (split_lines f.contents)) [
  | ok c' ↦ if f.read_error then error c' else controlparse_eof c'
  | error c' ↦ error c'
  | null_deref ↦ null_deref
]
