-- ===== src/ControlParse/Safe.antt =====
-- What tools/controlparse.c keeps from line to line.
use static_distro.ControlParse.Append.{
  add_field-append, add_line_to-append, add_line-append, add_line-no_field, unsnoc, All-append,
  All-init, All-last,
}
use static_distro.ControlParse.{
  Field, Para, ControlParse, Parsed, File, ok, error, null_deref, controlparse_init, c_str,
  trim_end, open_para, finish_line, start_field, content_line, is_comment, controlparse_line,
  split_lines, parse_lines, controlparse_parsefd,
}
use static_distro.LibC.{isspace, strchr, span_len}
use static_distro.Shared.{
  ℕ, suc, ◌≡◌, ◌≢◌, ◌⊎◌, inl, inr, refl, sym, subst, Bool, false, List, [], ◌∷◌, ◌++◌, Option, none,
  some, ◌==◌, arith, All, Bool-cases, length, take, drop, Bytes,
}

abbrev pub NonEmpty {ℓ} : {A : Type ℓ} → List A → Type 0
NonEmpty [] = ⊥
NonEmpty (x ∷ xs) = Unit

-- A field with a line.
abbrev pub HasLines : Field → Type 0
HasLines f = NonEmpty f.lines

-- A paragraph with a field, in which each field has a line.
abbrev pub IsFilled : Para → Type 0
IsFilled p = NonEmpty p.fields × All HasLines p.fields

-- Between lines.
pub record Inv (c : ControlParse) : Type 0 where
  pub filled : All IsFilled c.paras
  pub open_yet : c.in_break ≡ false → NonEmpty c.paras

Parsed-cases :
    (r : Parsed)
    → ((c : ControlParse) × (r ≡ ok c)) ⊎ ((c : ControlParse) × (r ≡ error c)) ⊎ (r ≡ null_deref)
Parsed-cases (ok c) = inl (c, refl)
Parsed-cases (error c) = inr (inl (c, refl))
Parsed-cases null_deref = inr (inr refl)

-- A call that follows no null pointer, and after which the invariant holds if it returns 0.
abbrev pub Safe : Parsed → Type 0
Safe (ok c) = Inv c
Safe (error c) = Unit
Safe null_deref = ⊥

NonEmpty-snoc {ℓ} : {A : Type ℓ} (xs : List A) (y : A) → NonEmpty (xs ++ (y ∷ []))
NonEmpty-snoc [] y = tt
NonEmpty-snoc (x ∷ xs) y = tt

-- A line behind the last field of the last paragraph.
finish_line-Safe :
    (ps : List Para) (fs : List Field) (f : Field) (b : Bool) (text : Bytes)
    → All IsFilled ps
    → All HasLines fs
    → Safe (
        finish_line
          (record { paras = ps ++ (record { fields = fs ++ (f ∷ []) } ∷ []); in_break = b })
          text)
unfolding finish_line
finish_line-Safe ps fs f b text all_ps all_fs =
    let line = c_str (trim_end text) in
    let f' = record f { lines = f.lines ++ (line ∷ []) } in
    let p' : Para = record { fields = fs ++ (f' ∷ []) } in
    rw
      (
        Safe,
        finish_line,
        add_line-append ps (record { fields = fs ++ (f ∷ []) }) line p'.fields
            (add_line_to-append fs f line),
      )
      (record {
        filled = All-append IsFilled ps (p' ∷ []) all_ps (
          (
            NonEmpty-snoc fs f',
            All-append HasLines fs (f' ∷ []) all_fs (NonEmpty-snoc f.lines line, tt),
          ),
          tt,
        );
        open_yet = λ h. NonEmpty-snoc ps p';
      })

-- A line that continues the last field, when no paragraph is opened for it.
continue-Safe :
    (ps : List Para) (p : Para) (fs : List Field) (f : Field) (b : Bool) (text : Bytes)
    → p.fields ≡ fs ++ (f ∷ [])
    → All IsFilled (ps ++ (p ∷ []))
    → Safe (finish_line (record { paras = ps ++ (p ∷ []); in_break = b }) text)
continue-Safe ps p fs f b text e filled =
    let ((_, lines), _) = All-last IsFilled ps (p ∷ []) filled in
    subst
      (λ xs.
        Safe
          (finish_line (record { paras = ps ++ (record { fields = xs } ∷ []); in_break = b }) text))
      (sym e)
      (finish_line-Safe ps fs f b text (All-init IsFilled ps (p ∷ []) filled)
        (All-init HasLines fs (f ∷ []) (subst (All HasLines) e lines)))

start_field-Safe :
    (ps : List Para) (p : Para) (b : Bool) (line : Bytes) (col : Option ℕ)
    → All IsFilled ps
    → All HasLines p.fields
    → Safe (start_field (record { paras = ps ++ (p ∷ []); in_break = b }) line col)
unfolding start_field
start_field-Safe ps p b line none all_ps all_fs = tt
start_field-Safe ps p b line (some col) all_ps all_fs =
    let f : Field = record { name = take col line; lines = [] } in
    rw (Safe, start_field, add_field-append ps p f)
      (finish_line-Safe ps p.fields f b
        (drop (span_len isspace (drop (suc col) line)) (drop (suc col) line)) all_ps all_fs)

-- The end of the line of a paragraph that has no field yet.
fresh-Safe :
    (ps : List Para) (b : Bool) (text : Bytes)
    → Safe (finish_line (record { paras = ps ++ (record { fields = [] } ∷ []); in_break = b }) text)
unfolding finish_line
fresh-Safe ps b text = rw (Safe, finish_line, add_line-no_field ps (c_str (trim_end text))) tt

-- The last paragraph and, in it, the last field.
record Ends (ps : List Para) : Type 0 where
  init : List Para
  last : Para
  splits : ps ≡ init ++ (last ∷ [])
  init_fields : List Field
  last_field : Field
  splits_fields : last.fields ≡ init_fields ++ (last_field ∷ [])

filled-Ends : (ps : List Para) → All IsFilled ps → NonEmpty ps → Ends ps
filled-Ends [] filled nonempty = absurd nonempty
filled-Ends (p ∷ ps) filled nonempty =
    let (qs, q, e) = unsnoc p ps in
    let ((some_field, _), _) = All-last IsFilled qs (q ∷ []) (subst (All IsFilled) e filled) in
    let (fs, f, g) = fields_end q.fields some_field in
    record { init = qs; last = q; splits = e; init_fields = fs; last_field = f; splits_fields = g }
  where
    fields_end :
        (fs : List Field) → NonEmpty fs → (gs : List Field) × (g : Field) × (fs ≡ gs ++ (g ∷ []))
    fields_end [] h = absurd h
    fields_end (f ∷ fs) h = unsnoc f fs

-- A line of a paragraph that is open.
open-Safe :
    (c : ControlParse)
    → Inv c
    → c.in_break ≡ false
    → (text : Bytes) → Safe (finish_line (record c { in_break = false }) text)
open-Safe c inv is_open text =
    let r = filled-Ends c.paras inv.filled (inv.open_yet is_open) in
    subst (λ ps. Safe (finish_line (record { paras = ps; in_break = false }) text)) (sym r.splits)
      (continue-Safe r.init r.last r.init_fields r.last_field false text r.splits_fields
        (subst (All IsFilled) r.splits inv.filled))

open-start-Safe :
    (c : ControlParse)
    → Inv c
    → c.in_break ≡ false
    → (line : Bytes) (col : Option ℕ) → Safe (start_field (record c { in_break = false }) line col)
open-start-Safe c inv is_open line col =
    let r = filled-Ends c.paras inv.filled (inv.open_yet is_open) in
    let filled = subst (All IsFilled) r.splits inv.filled in
    let ((_, lines), _) = All-last IsFilled r.init (r.last ∷ []) filled in
    subst (λ ps. Safe (start_field (record { paras = ps; in_break = false }) line col))
      (sym r.splits)
      (start_field-Safe r.init r.last false line col (All-init IsFilled r.init (r.last ∷ []) filled)
        lines)

content_line-Safe :
    (c : ControlParse) (line : Bytes) (off : ℕ) → Inv c → Safe (content_line c line off)
unfolding content_line open_para
content_line-Safe c line off inv = elim (Bool-cases (off == length line)) [
  | inl blank ↦
      rw (content_line, blank)
        (record { filled = inv.filled; open_yet = λ h. absurd (ground arith) })
  | inr text ↦ elim (Bool-cases c.in_break) [
    | inl closed ↦ elim (Bool-cases (off == 0)) [
      | inl starts ↦
          rw (content_line, open_para, text, starts, closed)
            (start_field-Safe c.paras (record { fields = [] }) false line (strchr (c_str line) 58)
              inv.filled tt)
      | inr continues ↦
          rw (content_line, open_para, text, continues, closed)
            (fresh-Safe c.paras false (drop off line))
    ]
    | inr is_open ↦ elim (Bool-cases (off == 0)) [
      | inl starts ↦
          rw (content_line, open_para, text, starts, is_open)
            (open-start-Safe c inv is_open line (strchr (c_str line) 58))
      | inr continues ↦
          rw (content_line, open_para, text, continues, is_open)
            (open-Safe c inv is_open (drop off line))
    ]
  ]
]

controlparse_line-Safe : (c : ControlParse) (line : Bytes) → Inv c → Safe (controlparse_line c line)
unfolding controlparse_line
controlparse_line-Safe c line inv = elim (Bool-cases (is_comment line)) [
  | inl comment ↦ rw (controlparse_line, comment) inv
  | inr content ↦
      rw (controlparse_line, content) (content_line-Safe c line (span_len isspace line) inv)
]

parse_lines-Safe : (c : ControlParse) (ls : List Bytes) → Inv c → Safe (parse_lines c ls)
unfolding parse_lines
parse_lines-Safe c [] inv = inv
parse_lines-Safe c (l ∷ ls) inv = elim (Parsed-cases (controlparse_line c l)) [
  | inl (c', e) ↦
      rw (parse_lines, e) (parse_lines-Safe c' ls (subst Safe e (controlparse_line-Safe c l inv)))
  | inr (inl (c', e)) ↦ rw (parse_lines, e) tt
  | inr (inr e) ↦ absurd (subst Safe e (controlparse_line-Safe c l inv))
]

init-Inv : Inv controlparse_init
unfolding controlparse_init
init-Inv = record { filled = tt; open_yet = λ h. absurd (ground arith) }

parsefd-Safe : (fd : Option File) → Safe (controlparse_parsefd controlparse_init fd)
unfolding controlparse_parsefd
parsefd-Safe none = tt
parsefd-Safe (some f) =
    let safe = parse_lines-Safe controlparse_init (split_lines f.contents) init-Inv in
    elim (Parsed-cases (parse_lines controlparse_init (split_lines f.contents))) [
      | inl (c', e) ↦ elim (Bool-cases f.read_error) [
        | inl bad ↦ rw (controlparse_parsefd, e, bad) tt
        | inr good ↦ rw (controlparse_parsefd, e, good) (subst Safe e safe)
      ]
      | inr (inl (c', e)) ↦ rw (controlparse_parsefd, e) tt
      | inr (inr e) ↦ absurd (subst Safe e safe)
    ]

-- Parsing any file from a fresh parser follows no null pointer; when it succeeds, each paragraph has
-- a field, and each field has a line.
pub controlparse_parsefd-Safe :
    (fd : Option File)
    → (controlparse_parsefd controlparse_init fd ≢ null_deref)
      × ((c : ControlParse)
          → controlparse_parsefd controlparse_init fd ≡ ok c
          → All IsFilled c.paras)
controlparse_parsefd-Safe fd =
    (λ e. subst Safe e (parsefd-Safe fd), λ c e. (subst Safe e (parsefd-Safe fd)).filled)
