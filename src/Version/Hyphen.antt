-- ===== src/Version/Hyphen.antt =====
-- Upstream parts that end in another byte than a digit, in tools/version.c: `cmp_dig` is called at
-- the end of the slice, where `strtoull` reads the hyphen and the revision as a negative number.
use static_distro.LibC.Numbers.{EndsOther, strtoul-prefix, strtoul_negative}
use static_distro.LibC.Search.{strchr-append, strchr-none, drop-suc-length}
use static_distro.LibC.{isdigit, isalnum, strchr, strtoul, digits_value, ulong_mod}
use static_distro.Shared.{
  ℕ, suc, ◌+◌, ◌<◌, compare, ◌≡◌, ◌≢◌, inl, inr, refl, subst, ◌∙◌, Bool, true, false, [], ◌∷◌, ◌++◌,
  none, some, arith, Bool-cases, ◌==◌, length, drop, all, All, Bytes, length-append,
}
use static_distro.Shared.Order.{lex}
use static_distro.Version.Compare.{version_cmp-key}
use static_distro.Version.Key.{key}
use static_distro.Version.Parse.{IsCString}
use static_distro.Version.{
  ver_gt, size_mod, Coarse, is_revchar, is_uschar, parse_epoch, parse_revision, uschars_ok,
  parse_coarse, version_cmp,
}

-- Two strings that start with the same slice: the keys differ by the number read behind it.
key-prefix :
    (d : Bool) (u t t' : Bytes)
    → EndsOther d u
    → lex compare (key d (u ++ t) (length u)) (key d (u ++ t') (length u))
      ≡ compare (strtoul t).value (strtoul t').value
unfolding lex key
key-prefix true [] t t' h = cc
key-prefix false [] t t' h = ground arith
key-prefix false (c ∷ u) t t' h = elim (Bool-cases (isdigit c)) [
  | inl d ↦
      let u_ends = subst (λ b. EndsOther b u) d h in
      rw d (rw (strtoul-prefix c u t t' d u_ends) (ground (arith, key-prefix true u t t' u_ends)))
  | inr d ↦ rw d (ground (arith, key-prefix false u t t' (subst (λ b. EndsOther b u) d h)))
]
key-prefix true (c ∷ u) t t' h = elim (Bool-cases (isdigit c)) [
  | inl d ↦ rw d (key-prefix true u t t' (subst (λ b. EndsOther b u) d h))
  | inr d ↦ rw d (ground (arith, key-prefix false u t t' (subst (λ b. EndsOther b u) d h)))
]

all-cons :
    (p : ℕ → Bool) (x : ℕ) (xs : Bytes) → all p (x ∷ xs) ≡ true → (p x ≡ true) × (all p xs ≡ true)
all-cons p x xs h = (ground arith, ground arith)

All-append : (P : ℕ → Type 0) (xs ys : Bytes) → All P xs → All P ys → All P (xs ++ ys)
All-append P [] ys h k = k
All-append P (x ∷ xs) ys h k = (h.0, All-append P xs ys h.1 k)

-- Bytes that both an upstream part and a revision may hold are neither a colon nor a hyphen.
revchar-ne : (c : ℕ) → is_revchar c ≡ true → (c ≢ b':') × (c ≢ b'-') × (c ≢ 0)
unfolding is_revchar isalnum
revchar-ne c h = (ground arith, ground arith, ground arith)

revchar-uschar :
    (c : ℕ) (has_epoch has_rev : Bool) → is_revchar c ≡ true → is_uschar c has_epoch has_rev ≡ true
unfolding is_revchar is_uschar
revchar-uschar c has_epoch has_rev h = ground arith

revchars-ne :
    (u : Bytes)
    → all is_revchar u ≡ true
    → All (λ c. c ≢ b':') u × All (λ c. c ≢ b'-') u × All (λ c. c ≢ 0) u
revchars-ne [] h = (tt, tt, tt)
revchars-ne (c ∷ u) h =
    let (first, others) = all-cons is_revchar c u h in
    let more = revchars-ne u others in
    let here = revchar-ne c first in ((here.0, more.0), (here.1, more.1), (here.2, more.2))

upstream_ok :
    (u r : Bytes) (hyp pos : ℕ)
    → all is_revchar u ≡ true
    → hyp ≡ pos + length u
    → uschars_ok false (some hyp) pos (u ++ (b'-' ∷ r)) ≡ true
unfolding uschars_ok
upstream_ok [] r hyp pos h e = ground arith
upstream_ok (c ∷ u) r hyp pos h e =
    let (first, others) = all-cons is_revchar c u h in
    rw (revchar-uschar c false true first, other_place)
      (upstream_ok u r hyp (suc pos) others (omega arith))
  where
    other_place : (pos == hyp) ≡ false
    other_place = ground arith

-- The parse of an upstream part and a revision with no epoch.
abbrev pub with_revision : Bytes → Bytes → Coarse
with_revision u r = record {
  epoch = 0;
  upstream = u ++ (b'-' ∷ r);
  us_len = length u;
  rev = r;
  rev_len = length r;
}

-- An upstream part and a revision, each of letters, digits, `+`, `.` and `~`, are read back from
-- the version number that joins them with a hyphen.
pub parse_coarse-revision :
    (u r : Bytes)
    → all is_revchar u ≡ true
    → all is_revchar r ≡ true
    → length u + length r + 1 < size_mod
    → parse_coarse (u ++ (b'-' ∷ r)) ≡ some (with_revision u r)
unfolding parse_coarse parse_epoch parse_revision
parse_coarse-revision u r hu hr fits =
    rw (no_colon, hyphen, drop-length-suc, hr, upstream_ok u r (length u) 0 hu (omega arith))
      (ground (arith, length-append {0} u (b'-' ∷ r)))
  where
    no_colon : strchr (u ++ (b'-' ∷ r)) b':' ≡ none
    no_colon =
        strchr-none _ b':' (
          All-append _ u _ (revchars-ne u hu).0 ((λ e. absurd (omega arith)), (revchars-ne r hr).0))

    hyphen : strchr (u ++ (b'-' ∷ r)) b'-' ≡ some (length u)
    hyphen = strchr-append u r b'-' (revchars-ne u hu).1

    drop-length-suc : drop (suc (length u)) (u ++ (b'-' ∷ r)) ≡ r
    drop-length-suc = drop-suc-length u b'-' r

digit-revchar : (c : ℕ) → isdigit c ≡ true → is_revchar c ≡ true
unfolding is_revchar isalnum isdigit
digit-revchar c h = ground arith

digits-revchars : (r : Bytes) → all isdigit r ≡ true → all is_revchar r ≡ true
digits-revchars [] h = refl
digits-revchars (c ∷ r) h =
    let (first, others) = all-cons isdigit c r h in
    rw (digit-revchar c first, digits-revchars r others)

revision-IsCString :
    (u r : Bytes)
    → all is_revchar u ≡ true
    → all is_revchar r ≡ true
    → length u + length r + 1 < size_mod
    → IsCString (u ++ (b'-' ∷ r))
revision-IsCString u r hu hr fits = record {
  no_nul =
      All-append _ u _ (revchars-ne u hu).2 ((λ e. absurd (omega arith)), (revchars-ne r hr).2);
  fits = omega (arith, length-append {0} u (b'-' ∷ r));
}

-- Two version numbers of which each is shorter than 2^64 bytes, without an epoch, with the same upstream
-- part, which is not empty, has only letters, digits, `+`, `.` and `~`, and ends in another byte than a
-- digit, and with different revisions of digits only, the smaller one at least 1 and the larger one
-- below 2^64: version_cmp compares the revisions the wrong way round, so that the version with the
-- smaller revision is the greater one.
pub version_cmp_reversed :
    (u r1 r2 : Bytes) (d1 d2 : ℕ)
    → 0 < length u
    → all is_revchar u ≡ true
    → EndsOther false u
    → all isdigit (d1 ∷ r1) ≡ true
    → all isdigit (d2 ∷ r2) ≡ true
    → 0 < digits_value 0 (d1 ∷ r1)
    → digits_value 0 (d1 ∷ r1) < digits_value 0 (d2 ∷ r2)
    → digits_value 0 (d2 ∷ r2) < ulong_mod
    → length u + length r1 + 2 < size_mod
    → length u + length r2 + 2 < size_mod
    → version_cmp (u ++ (b'-' ∷ d1 ∷ r1)) (u ++ (b'-' ∷ d2 ∷ r2)) ≡ ver_gt
version_cmp_reversed u r1 r2 d1 d2 some_u hu ends h1 h2 pos less big fits1 fits2 =
    version_cmp-key _ _ (revision-IsCString u (d1 ∷ r1) hu ok1 (omega arith))
      (revision-IsCString u (d2 ∷ r2) hu ok2 (omega arith))
      (parse_coarse-revision u (d1 ∷ r1) hu ok1 (omega arith))
      (parse_coarse-revision u (d2 ∷ r2) hu ok2 (omega arith)) (omega arith)
    ∙ unfold lex in
      ground (
        arith,
        key-prefix false u (b'-' ∷ d1 ∷ r1) (b'-' ∷ d2 ∷ r2) ends,
        strtoul_negative d1 r1 h1 (omega arith),
        strtoul_negative d2 r2 h2 big,
      )
  where
    ok1 : all is_revchar (d1 ∷ r1) ≡ true
    ok1 = digits-revchars (d1 ∷ r1) h1

    ok2 : all is_revchar (d2 ∷ r2) ≡ true
    ok2 = digits-revchars (d2 ∷ r2) h2
