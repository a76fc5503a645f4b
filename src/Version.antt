-- ===== src/Version.antt =====
-- tools/version.c: parsing, validating and comparing version numbers.
-- A `const char *` is the rest of its string, and a slice is such a pointer with its length.
pub mod Chars
pub mod Key
pub mod Loop
pub mod Parse
pub mod Slices
pub mod Compare
pub mod Greater
pub mod Hyphen
mod Tests
use static_distro.LibC.{isdigit, isalpha, isalnum, strchr, Converted, strtoul}
use static_distro.Shared.{
  ℕ, zero, suc, ◌+◌, ◌-◌, ◌%◌, ◌^◌, compare, Ordering, Bool, true, false, not, ◌&&◌, ◌||◌, List, [],
  ◌∷◌, Option, none, some, ◌>>=◌, ◌>>◌, guard, ltb, leb, ◌==◌, if◌then◌else◌, length, drop, all,
  Bytes,
}

pub data VercmpResult : Type 0 where
  ver_lt ver_eq ver_gt ver_failed : VercmpResult

-- The out parameters of `parse_coarse`.
pub record Coarse : Type 0 where
  pub epoch : ℕ
  pub upstream : Bytes
  pub us_len : ℕ
  pub rev : Bytes
  pub rev_len : ℕ

unfoldable pub is_revchar : ℕ → Bool
is_revchar c = isalnum c || c == b'+' || c == b'.' || c == b'~'

unfoldable pub is_uschar : ℕ → Bool → Bool → Bool
is_uschar c has_epoch has_rev =
    isalnum c
    || c == b'+'
    || c == b'.'
    || c == b'~'
    || (has_epoch && c == b':')
    || (has_rev && c == b'-')

abbrev pub uint_max : ℕ
uint_max = 2 ^ 32 - 1

abbrev pub size_mod : ℕ
size_mod = 2 ^ 64

abbrev starts_with : ℕ → Bytes → Bool
starts_with c [] = false
starts_with c (x ∷ xs) = x == c

abbrev pub is_some : Option ℕ → Bool
is_some none = false
is_some (some _) = true

-- The epoch, and the offset of `*upstream` from `v`, given the offset of the first colon.
unfoldable pub parse_epoch : Bytes → Option ℕ → Option (ℕ × ℕ)
parse_epoch v none = some (0, 0)
parse_epoch v (some col) =
    let u = strtoul v in
    if starts_with b'-' v
    then none
    else if u.out_of_range || not (u.end == col) || ltb uint_max u.value
    then none
    else some (u.value, suc col)

-- `*rev`, `*rev_len` and `*us_len`, given the offsets of `*upstream` and of the first hyphen. The
-- difference of two pointers is stored in a `size_t`, hence the modulus.
unfoldable pub parse_revision : Bytes → ℕ → Option ℕ → Option (Bytes × ℕ × ℕ)
parse_revision v start none = some ([], 0, length v - start)
parse_revision v start (some hyp) =
    let rev = drop (suc hyp) v in
    if all is_revchar rev
    then some (rev, length v - suc hyp, (hyp + size_mod - start) % size_mod)
    else none

-- The loop over `*upstream`, which stops at the hyphen or at the end of the string.
unfoldable pub uschars_ok : Bool → Option ℕ → ℕ → Bytes → Bool
uschars_ok has_epoch hyp pos [] = true
uschars_ok has_epoch none pos (c ∷ cs) =
    is_uschar c has_epoch false && uschars_ok has_epoch none (suc pos) cs
uschars_ok has_epoch (some hyp) pos (c ∷ cs) =
    if pos == hyp
    then true
    else is_uschar c has_epoch true && uschars_ok has_epoch (some hyp) (suc pos) cs

unfoldable pub parse_coarse : Bytes → Option Coarse
parse_coarse v =
    let col = strchr v b':' in
    let hyp = strchr v b'-' in
    do
      (epoch, start) ← parse_epoch v col
      (rev, rev_len, us_len) ← parse_revision v start hyp
      guard (uschars_ok (is_some col) hyp start (drop start v))
      some (record {
        epoch = epoch;
        upstream = drop start v;
        us_len = us_len;
        rev = rev;
        rev_len = rev_len;
      })

-- true for the return value 0
unfoldable pub version_validate : Bytes → Bool
version_validate v = elim (parse_coarse v) [ none ↦ false | some _ ↦ true ]

-- The negative, zero and positive results of the comparisons below are `lt`, `eq` and `gt`.
unfoldable pub cmp_verchar : ℕ → ℕ → Ordering
unfolding isalpha
cmp_verchar c1 c2 =
    if c1 == c2
    then Ordering.eq
    else if c1 == b'~'
    then Ordering.lt
    else if c2 == b'~'
    then Ordering.gt
    else if isalpha c1 && isalpha c2
    then if ltb c1 c2 then Ordering.lt else Ordering.gt
    else if isalpha c1
    then Ordering.lt
    else if isalpha c2
    then Ordering.gt
    else if ltb c1 c2
    then Ordering.lt
    else Ordering.gt

-- `*s`, where the end of the string is its NUL
abbrev pub char_at : Bytes → ℕ
char_at [] = 0
char_at (c ∷ cs) = c

-- The loop of `cmp_nondig`; a side that is used up counts as NUL.
unfoldable pub cmp_nondig : Bytes → ℕ → Bytes → ℕ → Ordering
cmp_nondig s1 zero s2 zero = Ordering.eq
cmp_nondig s1 zero s2 (suc l2) = elim (cmp_verchar 0 (char_at s2)) [
  | Ordering.lt ↦ Ordering.lt
  | Ordering.gt ↦ Ordering.gt
  | Ordering.eq ↦ cmp_nondig s1 zero (drop 1 s2) l2
]
cmp_nondig s1 (suc l1) s2 zero = elim (cmp_verchar (char_at s1) 0) [
  | Ordering.lt ↦ Ordering.lt
  | Ordering.gt ↦ Ordering.gt
  | Ordering.eq ↦ cmp_nondig (drop 1 s1) l1 s2 zero
]
cmp_nondig s1 (suc l1) s2 (suc l2) = elim (cmp_verchar (char_at s1) (char_at s2)) [
  | Ordering.lt ↦ Ordering.lt
  | Ordering.gt ↦ Ordering.gt
  | Ordering.eq ↦ cmp_nondig (drop 1 s1) l1 (drop 1 s2) l2
]

-- The lengths are ignored, as in the source: `strtoull` reads on to the first byte that is no digit.
unfoldable pub cmp_dig : Bytes → ℕ → Bytes → ℕ → Ordering
cmp_dig s1 s1_len s2 s2_len = compare (strtoul s1).value (strtoul s2).value

-- The two inner loops: how many bytes of a slice from here on are digits, or are not.
unfoldable pub run_len : Bool → Bytes → ℕ → ℕ
run_len digit s zero = 0
run_len digit s (suc n) =
    let more = run_len digit (drop 1 s) n in
    if isdigit (char_at s) then (if digit then suc more else 0) else if digit then 0 else suc more

-- One round of the loop's body, then `next` at the new positions; `n1` and `n2` are the bytes left.
unfoldable pub verstr_round : (Bytes → ℕ → Bytes → ℕ → Ordering) → Bytes → ℕ → Bytes → ℕ → Ordering
verstr_round next s1 n1 s2 n2 =
    let a1 = run_len false s1 n1 in
    let a2 = run_len false s2 n2 in
    let t1 = drop a1 s1 in
    let t2 = drop a2 s2 in
    let b1 = run_len true t1 (n1 - a1) in
    let b2 = run_len true t2 (n2 - a2) in
    elim (cmp_nondig s1 a1 s2 a2) [
      | Ordering.lt ↦ Ordering.lt
      | Ordering.gt ↦ Ordering.gt
      | Ordering.eq ↦ elim (cmp_dig t1 b1 t2 b2) [
        | Ordering.lt ↦ Ordering.lt
        | Ordering.gt ↦ Ordering.gt
        | Ordering.eq ↦ next (drop b1 t1) (n1 - a1 - b1) (drop b2 t2) (n2 - a2 - b2)
      ]
    ]

-- The loop on fuel. Each round takes a byte off a slice that has one left.
unfoldable pub verstr_loop : ℕ → Bytes → ℕ → Bytes → ℕ → Ordering
verstr_loop zero s1 n1 s2 n2 = Ordering.eq
verstr_loop (suc fuel) s1 n1 s2 n2 =
    if n1 == 0 && n2 == 0 then Ordering.eq else verstr_round (verstr_loop fuel) s1 n1 s2 n2

unfoldable pub cmp_verstr : Bytes → ℕ → Bytes → ℕ → Ordering
cmp_verstr s1 n1 s2 n2 = verstr_loop (n1 + n2) s1 n1 s2 n2

abbrev pub vercmp_result : Ordering → VercmpResult
vercmp_result Ordering.lt = ver_lt
vercmp_result Ordering.gt = ver_gt
vercmp_result Ordering.eq = ver_eq

-- `version_cmp` on two parsed version numbers.
unfoldable pub coarse_cmp : Coarse → Coarse → VercmpResult
coarse_cmp c1 c2 =
    if ltb c1.epoch c2.epoch
    then ver_lt
    else if ltb c2.epoch c1.epoch
    then ver_gt
    else elim (cmp_verstr c1.upstream c1.us_len c2.upstream c2.us_len) [
      | Ordering.lt ↦ ver_lt
      | Ordering.gt ↦ ver_gt
      | Ordering.eq ↦ vercmp_result (cmp_verstr c1.rev c1.rev_len c2.rev c2.rev_len)
    ]

unfoldable pub version_cmp : Bytes → Bytes → VercmpResult
version_cmp v1 v2 = elim (parse_coarse v1) [
  | none ↦ ver_failed
  | some c1 ↦ elim (parse_coarse v2) [ none ↦ ver_failed | some c2 ↦ coarse_cmp c1 c2 ]
]
