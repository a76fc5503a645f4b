-- ===== src/NewNs/Ids.antt =====
-- The identifiers that tools/newns.c prints and reads.
use static_distro.LibC.Getopt.{
  getopt_operand, opt_arg, getopt, arg_of, operand, fold_events, scan_word, kind_of,
}
use static_distro.LibC.Search.{drop_all}
use static_distro.LibC.{isspace, isdigit, span_len, digits_value}
use static_distro.NewNs.{
  NewIds, convert_long, convert_sign, strtol, option_switch, parse_opts, print_digits,
  print_unsigned, idmap_text, buffer_size, set_idmap, write_proc,
}
use static_distro.Shared.{
  ℕ, zero, suc, ◌+◌, ◌-◌, ◌*◌, ◌/◌, ◌%◌, ◌^◌, ◌≤◌, ◌<◌, ◌≡◌, inl, inr, refl, ◌∙◌, true, false, List,
  [], ◌∷◌, ◌++◌, some, arith, all, leb_of_lt, ltb, ◌==◌, Bool-cases, length, length-append, drop,
  Bytes, codes,
}

-- Powers of ten.
abbrev tens : ℕ → ℕ
tens zero = 1
tens (suc k) = 10 * tens k

length-print_digits :
    (k fuel n : ℕ) (acc : Bytes)
    → n < tens (suc k)
    → length (print_digits fuel n acc) ≤ suc k + length acc
unfolding print_digits
length-print_digits k zero n acc h = omega arith
length-print_digits zero (suc fuel) n acc h =
    let small : ltb n 10 ≡ true = ground arith in rw (print_digits, small) (omega arith)
length-print_digits (suc k) (suc fuel) n acc h = elim (Bool-cases (ltb n 10)) [
  | inl small ↦ rw (print_digits, small) (omega arith)
  | inr large ↦
      rw (print_digits, large)
        (omega (arith, length-print_digits k fuel (n / 10) ((b'0' + n % 10) ∷ acc) (omega arith)))
]

length-print_unsigned : (n : ℕ) → n < 2 ^ 32 → length (print_unsigned n) ≤ 10
unfolding print_unsigned
length-print_unsigned n h = omega (arith, length-print_digits 9 20 n [] (omega arith))

-- For identifiers of 32 bits, the text that `set_idmap` prints fits into its buffer, so
-- `set_idmap` always opens the file and writes the text.
pub set_idmap_room :
    (path : Bytes) (new_id env_id : ℕ)
    → new_id < 2 ^ 32
    → env_id < 2 ^ 32
    → (length (idmap_text new_id env_id) < buffer_size)
      × (set_idmap path new_id env_id ≡ write_proc path (idmap_text new_id env_id))
unfolding idmap_text set_idmap
set_idmap_room path new_id env_id h k =
    let room : length (idmap_text new_id env_id) < buffer_size = omega (
      arith,
      length-append (print_unsigned new_id) (codes " " ++ (print_unsigned env_id ++ codes " 1")),
      length-append (print_unsigned env_id) (codes " 1"),
      length-print_unsigned new_id h,
      length-print_unsigned env_id k,
    ) in
    (room, rw (set_idmap, leb_of_lt _ _ room))

digit_step :
    (m d : ℕ) (acc : Bytes)
    → d < 10
    → digits_value m ((b'0' + d) ∷ acc) ≡ digits_value (10 * m + d) acc
unfolding digits_value isdigit
digit_step m d acc h =
    let digit : isdigit (b'0' + d) ≡ true = ground arith in
    let back : b'0' + d - b'0' ≡ d = omega arith in rw (digits_value, digit, back)

digits_value-print_digits :
    (k fuel n : ℕ) (acc : Bytes)
    → n < tens (suc k)
    → k < fuel
    → digits_value 0 (print_digits fuel n acc) ≡ digits_value n acc
unfolding print_digits
digits_value-print_digits k zero n acc h le = absurd (omega arith)
digits_value-print_digits zero (suc fuel) n acc h le =
    let small : ltb n 10 ≡ true = ground arith in
    let zero_first : 10 * 0 + n ≡ n = omega arith in
    rw (print_digits, small) (digit_step 0 n acc (omega arith) ∙ rw zero_first)
digits_value-print_digits (suc k) (suc fuel) n acc h le = elim (Bool-cases (ltb n 10)) [
  | inl small ↦
      let zero_first : 10 * 0 + n ≡ n = omega arith in
      rw (print_digits, small) (digit_step 0 n acc (ground arith) ∙ rw zero_first)
  | inr large ↦
      let together : 10 * (n / 10) + n % 10 ≡ n = omega arith in
      rw (print_digits, large)
        (digits_value-print_digits k fuel (n / 10) ((b'0' + n % 10) ∷ acc) (omega arith)
            (omega arith)
          ∙ digit_step (n / 10) (n % 10) acc (omega arith)
          ∙ rw together)
]

-- All that is printed is digits.
print_digits-isdigit :
    (fuel n : ℕ) (acc : Bytes)
    → all isdigit acc ≡ true
    → all isdigit (print_digits fuel n acc) ≡ true
unfolding print_digits isdigit
print_digits-isdigit zero n acc h = h
print_digits-isdigit (suc fuel) n acc h = elim (Bool-cases (ltb n 10)) [
  | inl small ↦ rw (print_digits, small) (ground arith)
  | inr large ↦
      rw (print_digits, large)
        (print_digits-isdigit fuel (n / 10) ((b'0' + n % 10) ∷ acc) (ground arith))
]

span_len-all : (s : Bytes) → all isdigit s ≡ true → span_len isdigit s ≡ length s
unfolding span_len
span_len-all [] h = refl
span_len-all (c ∷ s) h = ground (arith, span_len-all s)

digit_not_space : (c : ℕ) → isdigit c ≡ true → isspace c ≡ false
unfolding isdigit isspace
digit_not_space c h = ground arith

digit_not_sign : (c : ℕ) → isdigit c ≡ true → ((c == b'-') ≡ false) × ((c == b'+') ≡ false)
unfolding isdigit
digit_not_sign c h = ground arith

-- A text of digits alone, read by `strtol`.
strtol_digits :
    (c : ℕ) (cs : Bytes) (n : ℕ)
    → all isdigit (c ∷ cs) ≡ true
    → digits_value 0 (c ∷ cs) ≡ n
    → n < 2 ^ 32
    → strtol (c ∷ cs) ≡ record { bits = n; rest = [] }
unfolding strtol convert_sign convert_long span_len
strtol_digits c cs n digits value h =
    let digit : isdigit c ≡ true = ground arith in
    let no_space = digit_not_space c digit in
    let (no_minus, no_plus) = digit_not_sign c digit in
    let len = span_len-all (c ∷ cs) digits in
    let rest : drop (length (c ∷ cs)) (c ∷ cs) ≡ [] =
      drop_all (c ∷ cs) (length (c ∷ cs)) (omega arith) in
    let fits : n % 2 ^ 32 ≡ n = omega arith in
    let start : span_len isspace (c ∷ cs) ≡ 0 = rw (span_len, no_space) in
    let some_digits : (length (c ∷ cs) == 0) ≡ false = ground arith in
    rw (
      strtol,
      start,
      convert_sign,
      no_minus,
      no_plus,
      convert_long,
      len,
      some_digits,
      value,
      leb_of_lt n (2 ^ 63) (omega arith),
      fits,
      rest,
    )

strtol_digits_alone :
    (s : Bytes) (n : ℕ)
    → all isdigit s ≡ true
    → digits_value 0 s ≡ n
    → n < 2 ^ 32
    → strtol s ≡ record { bits = n; rest = [] }
unfolding strtol convert_sign convert_long span_len digits_value
strtol_digits_alone [] n digits value h = rw (← value)
strtol_digits_alone (c ∷ cs) n digits value h = strtol_digits c cs n digits value h

-- `strtol` reads back an identifier that `%u` printed.
strtol-print_unsigned :
    (n : ℕ) → n < 2 ^ 32 → strtol (print_unsigned n) ≡ record { bits = n; rest = [] }
unfolding print_unsigned
strtol-print_unsigned n h =
    strtol_digits_alone (print_unsigned n) n (print_digits-isdigit 20 n [] refl)
      (digits_value-print_digits 9 20 n [] (omega arith) (omega arith) ∙ empty) h
  where
    empty : digits_value n [] ≡ n
    empty = unfold digits_value in refl

-- One turn of the loop of `parse_opts`, on an identifier printed in decimal.
switch_uid :
    (ids : NewIds) (n : ℕ)
    → n < 2 ^ 32
    → option_switch ids (opt_arg b'u' (print_unsigned n)) ≡ some (record ids { new_uid = n })
unfolding option_switch
switch_uid ids n h = rw (option_switch, strtol-print_unsigned n h)

switch_gid :
    (ids : NewIds) (n : ℕ)
    → n < 2 ^ 32
    → option_switch ids (opt_arg b'g' (print_unsigned n)) ≡ some (record ids { new_gid = n })
unfolding option_switch
switch_gid ids n h = rw (option_switch, strtol-print_unsigned n h)

fold_both :
    (uid gid : ℕ)
    → uid < 2 ^ 32
    → gid < 2 ^ 32
    → fold_events option_switch
        (record { new_uid = 0; new_gid = 0 })
        (opt_arg b'u' (print_unsigned uid) ∷ opt_arg b'g' (print_unsigned gid) ∷ [])
      ≡ some (record { new_uid = uid; new_gid = gid })
unfolding fold_events
fold_both uid gid h k = rw (
  fold_events,
  switch_uid (record { new_uid = 0; new_gid = 0 }) uid h,
  switch_gid (record { new_uid = uid; new_gid = 0 }) gid k,
)

getopt_both :
    (u g c : Bytes) (cmd : List Bytes)
    → arg_of c ≡ operand
    → getopt true (codes "u:g:") (codes "-u" ∷ u ∷ codes "-g" ∷ g ∷ c ∷ cmd)
      ≡ (opt_arg b'u' u ∷ opt_arg b'g' g ∷ [], c ∷ cmd)
unfolding getopt arg_of scan_word kind_of
getopt_both u g c cmd plain = rw (getopt_operand (codes "u:g:") c cmd plain)

-- Identifiers of 32 bits, printed in decimal, are read back from the options `-u` and `-g` in
-- front of a command that does not look like an option; the command is left as it is.
pub parse_opts-print_unsigned :
    (uid gid : ℕ) (c : Bytes) (cmd : List Bytes)
    → uid < 2 ^ 32
    → gid < 2 ^ 32
    → arg_of c ≡ operand
    → parse_opts (codes "-u" ∷ print_unsigned uid ∷ codes "-g" ∷ print_unsigned gid ∷ c ∷ cmd)
      ≡ some (record { new_uid = uid; new_gid = gid }, c ∷ cmd)
unfolding parse_opts
parse_opts-print_unsigned uid gid c cmd h k plain = rw (
  parse_opts,
  getopt_both (print_unsigned uid) (print_unsigned gid) c cmd plain,
  fold_both uid gid h k,
)
