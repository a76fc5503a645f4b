-- ===== src/LibC/Getopt.antt =====
-- `getopt` of the C library, as the tools call it: short options, without a colon in front of the
-- list of options, and stopping at the first error. The flag `posix` stands for the `+` in front of
-- the list: options end at the first operand. Otherwise the operands are moved behind the options.
use static_distro.Shared.{
  ◌≡◌, ℕ, Bool, true, false, List, [], ◌∷◌, ◌++◌, Option, none, some, ◌==◌, if◌then◌else◌, Bytes,
}

-- What one call returns: an option, an option with `optarg`, or `?`.
pub data Event : Type 0 where
  opt : ℕ → Event
  opt_arg : ℕ → Bytes → Event
  bad : ℕ → Event

pub data Kind : Type 0 where
  flag takes_arg unknown : Kind

-- What the list of options says of a letter.
unfoldable pub kind_of : Bytes → ℕ → Kind
kind_of [] c = unknown
kind_of (o ∷ []) c = if o == c then flag else unknown
kind_of (o ∷ n ∷ os) c =
    let later = kind_of (n ∷ os) c in
    let here = if n == b':' then takes_arg else flag in
    if c == b':' then unknown else if o == c then here else later

-- A word of options: all that it says, or what it says in front of an option that waits for the
-- next word as its argument.
pub data Word : Type 0 where
  ends : List Event → Word
  waits : List Event → ℕ → Word

abbrev pub in_front : Event → Word → Word
in_front e (ends es) = ends (e ∷ es)
in_front e (waits es c) = waits (e ∷ es) c

unfoldable pub scan_word : Bytes → Bytes → Word
scan_word os [] = ends []
scan_word os (c ∷ []) = elim (kind_of os c) [
  | flag ↦ ends (opt c ∷ [])
  | takes_arg ↦ waits [] c
  | unknown ↦ ends (bad c ∷ [])
]
scan_word os (c ∷ d ∷ cs) = elim (kind_of os c) [
  | flag ↦ in_front (opt c) (scan_word os (d ∷ cs))
  | takes_arg ↦ ends (opt_arg c (d ∷ cs) ∷ [])
  | unknown ↦ in_front (bad c) (scan_word os (d ∷ cs))
]

-- What a word of the command line is.
pub data Arg : Type 0 where
  end_mark operand : Arg
  options : Bytes → Arg

unfoldable pub arg_of : Bytes → Arg
arg_of [] = operand
arg_of (c ∷ []) = operand
arg_of (c ∷ d ∷ []) =
    if c == b'-' then (if d == b'-' then end_mark else options (d ∷ [])) else operand
arg_of (c ∷ d ∷ e ∷ cs) = if c == b'-' then options (d ∷ e ∷ cs) else operand

abbrev pub with_events : List Event → List Event × List Bytes → List Event × List Bytes
with_events es (later, operands) = (es ++ later, operands)

abbrev pub with_operand : Bytes → List Event × List Bytes → List Event × List Bytes
with_operand w (later, operands) = (later, w ∷ operands)

-- All calls until the one that returns -1, and the arguments from `optind` on.
unfoldable pub getopt : Bool → Bytes → List Bytes → List Event × List Bytes
getopt posix os [] = ([], [])
getopt posix os (w ∷ []) = elim (arg_of w) [
  | end_mark ↦ ([], [])
  | operand ↦ ([], w ∷ [])
  | options cs ↦ elim (scan_word os cs) [
    | ends es ↦ (es, [])
    | waits es c ↦ (es ++ (bad c ∷ []), [])
  ]
]
getopt posix os (w ∷ v ∷ ws) = elim (arg_of w) [
  | end_mark ↦ ([], v ∷ ws)
  | operand ↦ elim posix [
    | true ↦ ([], w ∷ v ∷ ws)
    | false ↦ with_operand w (getopt posix os (v ∷ ws))
  ]
  | options cs ↦ elim (scan_word os cs) [
    | ends es ↦ with_events es (getopt posix os (v ∷ ws))
    | waits es c ↦ with_events (es ++ (opt_arg c v ∷ [])) (getopt posix os ws)
  ]
]

-- A loop over the calls, with a switch on each: `none` is the return value -1.
unfoldable pub fold_events {ℓ} : {S : Type ℓ} → (S → Event → Option S) → S → List Event → Option S
fold_events switch s [] = some s
fold_events switch s (e ∷ es) = elim (switch s e) [
  | none ↦ none
  | some s' ↦ fold_events switch s' es
]

-- With the `+`, options end at an operand.
pub getopt_operand :
    (os w : Bytes) (ws : List Bytes) → arg_of w ≡ operand → getopt true os (w ∷ ws) ≡ ([], w ∷ ws)
unfolding getopt
getopt_operand os w [] h = rw (getopt, h)
getopt_operand os w (v ∷ ws) h = rw (getopt, h)
