-- ===== src/LibC.antt =====
-- The C standard library's functions that the tools call, in the C locale on a 64-bit machine:
-- character classes, `strchr`, `strtoul` and `strtoull` at base 10. A string is its bytes without
-- the NUL, and a pointer into it is the rest of the string.
pub mod Search
pub mod Numbers
pub mod Getopt
use static_distro.Shared.{
  ℕ, suc, ◌+◌, ◌-◌, ◌*◌, ◌%◌, ◌^◌, Bool, true, false, ◌&&◌, ◌||◌, List, [], ◌∷◌, Option, none, some,
  leb, ◌==◌, if◌then◌else◌, take, drop, Bytes,
}
use mathlib.Core.Option

unfoldable pub isdigit : ℕ → Bool
isdigit c = leb b'0' c && leb c b'9'

unfoldable pub isalpha : ℕ → Bool
isalpha c = (leb b'A' c && leb c b'Z') || (leb b'a' c && leb c b'z')

unfoldable pub isalnum : ℕ → Bool
unfolding isalpha isdigit
isalnum c = isalpha c || isdigit c

-- space, and \t \n \v \f \r
unfoldable pub isspace : ℕ → Bool
isspace c = c == 32 || (leb 9 c && leb c 13)

-- `strchr(s, c)` for a `c` other than NUL, as an offset from `s`.
unfoldable pub strchr : Bytes → ℕ → Option ℕ
strchr [] c = none
strchr (x ∷ xs) c = if x == c then some 0 else Option.map suc (strchr xs c)

-- How many bytes from the start pass the test.
unfoldable pub span_len : (ℕ → Bool) → Bytes → ℕ
span_len p [] = 0
span_len p (x ∷ xs) = if p x then suc (span_len p xs) else 0

-- The number written by the digits at the start, read after `acc`.
unfoldable pub digits_value : ℕ → Bytes → ℕ
digits_value acc [] = acc
digits_value acc (x ∷ xs) =
    let more = digits_value (10 * acc + (x - b'0')) xs in if isdigit x then more else acc

abbrev pub ulong_mod : ℕ
ulong_mod = 2 ^ 64

-- The value that is returned, the offset that `*end` is set to, and whether `errno` is ERANGE.
pub record Converted : Type 0 where
  pub value : ℕ
  pub end : ℕ
  pub out_of_range : Bool

-- Behind `off` bytes of white space and sign.
unfoldable pub convert : Bool → ℕ → Bytes → Converted
convert neg off s =
    let len = span_len isdigit s in
    let n = digits_value 0 s in
    if len == 0
    then record { value = 0; end = 0; out_of_range = false }
    else if leb ulong_mod n
    then record { value = ulong_mod - 1; end = off + len; out_of_range = true }
    else record {
      value = if neg then (ulong_mod - n) % ulong_mod else n;
      end = off + len;
      out_of_range = false;
    }

unfoldable pub convert_signed : ℕ → Bytes → Converted
convert_signed off [] = convert false off []
convert_signed off (c ∷ s) =
    if c == b'-'
    then convert true (suc off) s
    else if c == b'+'
    then convert false (suc off) s
    else convert false off (c ∷ s)

-- `unsigned long` and `unsigned long long` both have 64 bits, so this is `strtoull` too.
unfoldable pub strtoul : Bytes → Converted
strtoul s = let blanks = span_len isspace s in convert_signed blanks (drop blanks s)

-- A string that is cut at the first place of a byte.
unfoldable pub cut_at : ℕ → Bytes → Option (Bytes × Bytes)
cut_at c s = elim (strchr s c) [ none ↦ none | some i ↦ some (take i s, drop (suc i) s) ]
