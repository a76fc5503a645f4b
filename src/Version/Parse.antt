-- ===== src/Version/Parse.antt =====
-- What `parse_coarse` of tools/version.c returns: the slices and their lengths.
use native.Mathlib.Decide.{dec_lt}
use static_distro.LibC.Search.{
  strchr-get_elem?, strchr-lt, get_elem?-drop, all-get_elem?, length-drop, drop-drop,
  drop-get_elem?, drop_all,
}
use static_distro.LibC.{strchr, isalnum}
use static_distro.Shared.{
  ℕ, zero, suc, ◌+◌, ◌-◌, ◌%◌, ◌≤◌, ◌<◌, ◌≡◌, ◌≢◌, ◌⊎◌, inl, inr, refl, sym, ◌∙◌, true, [], ◌∷◌,
  Option, none, some, arith, Bool-cases, Option-cases, >>=-eq-some, guard-eq-some, length,
  get_elem?, drop, all, All, Bytes,
}
use static_distro.Version.Key.{Slice}
use static_distro.Version.{
  Coarse, is_revchar, is_some, size_mod, parse_epoch, parse_revision, uschars_ok, parse_coarse,
}

-- A string as it lies in memory: no NUL inside, and short enough for a `size_t`.
pub record IsCString (v : Bytes) : Type 0 where
  pub no_nul : All (λ c. c ≢ 0) v
  pub fits : length v < size_mod

pub All-drop : (P : ℕ → Type 0) (n : ℕ) (s : Bytes) → All P s → All P (drop n s)
All-drop P zero s h = h
All-drop P (suc n) [] h = h
All-drop P (suc n) (c ∷ s) h = All-drop P n s h.1

pub Slice-of_le : (s : Bytes) (n : ℕ) → All (λ c. c ≢ 0) s → n ≤ length s → Slice s n
Slice-of_le s zero h k = tt
Slice-of_le [] (suc n) h k = absurd (omega arith)
Slice-of_le (c ∷ s) (suc n) h k = (h.0, Slice-of_le s n h.1 (omega arith))

-- Where the revision has no bad byte, the hyphen does not stand before the colon.
colon-lt-hyphen :
    (v : Bytes) (col hyp : ℕ)
    → strchr v b':' ≡ some col
    → strchr v b'-' ≡ some hyp
    → all is_revchar (drop (suc hyp) v) ≡ true
    → col < hyp
unfolding is_revchar isalnum
colon-lt-hyphen v col hyp h k ok = elim (dec_lt col hyp) [
  | yes before ↦ before
  | no other ↦ elim (dec_lt hyp col) [
    | yes behind ↦
        let here : get_elem? (drop (suc hyp) v) (col - suc hyp) ≡ some b':' =
          get_elem?-drop (suc hyp) col v behind ∙ strchr-get_elem? v b':' col h in
        let bad : is_revchar b':' ≡ true =
          all-get_elem? is_revchar (drop (suc hyp) v) (col - suc hyp) ok here in
        cc bad
    | no same ↦
        let at : hyp ≡ col = omega arith in
        let colon : get_elem? v col ≡ some b':' = strchr-get_elem? v b':' col h in
        let hyphen : get_elem? v col ≡ some b'-' = rw (← at) (strchr-get_elem? v b'-' hyp k) in
        let one : some b':' ≡ some b'-' = sym colon ∙ hyphen in ground arith
  ]
]

-- The offset of `*upstream` is not behind the hyphen or the end of the string.
abbrev pub StartsAt : Bytes → ℕ → Type 0
StartsAt v start =
    (start ≤ length v)
    × ((hyp : ℕ)
        → strchr v b'-' ≡ some hyp
        → all is_revchar (drop (suc hyp) v) ≡ true
        → start ≤ hyp)

pub parse_epoch-StartsAt :
    (v : Bytes) (e start : ℕ) → parse_epoch v (strchr v b':') ≡ some (e, start) → StartsAt v start
unfolding parse_epoch
parse_epoch-StartsAt v e start h = elim (Option-cases (strchr v b':')) [
  | inl none' ↦
      let at : some (0, 0) ≡ some (e, start) = rw (none', parse_epoch) at h in ground arith
  | inr (col, found) ↦
      let at = rw (found, parse_epoch) at h in
      let at_col : start ≡ suc col = ground arith in
      (
        omega (arith, strchr-lt v b':' col found),
        λ hyp k ok. omega (arith, colon-lt-hyphen v col hyp found k ok),
      )
]

-- The steps of a successful parse.
pub record Steps (v : Bytes) (c : Coarse) : Type 0 where
  pub start : ℕ
  pub epoch_ok : parse_epoch v (strchr v b':') ≡ some (c.epoch, start)
  pub rev_ok : parse_revision v start (strchr v b'-') ≡ some (c.rev, c.rev_len, c.us_len)
  pub upstream_is : c.upstream ≡ drop start v
  pub chars_ok : uschars_ok (is_some (strchr v b':')) (strchr v b'-') start (drop start v) ≡ true

pub parse_coarse-Steps : (v : Bytes) {c : Coarse} → parse_coarse v ≡ some c → Steps v c
unfolding parse_coarse
parse_coarse-Steps v {c} h =
    let ((e, start), epoch_ok, h1) = >>=-eq-some (parse_epoch v (strchr v b':')) _ h in
    let ((rev, rev_len, us_len), rev_ok, h2) =
      >>=-eq-some (parse_revision v start (strchr v b'-')) _ h1 in
    let (chars_ok, last) =
      guard-eq-some (uschars_ok (is_some (strchr v b':')) (strchr v b'-') start (drop start v)) _
        h2 in
    record {
      start = start;
      epoch_ok = ground arith;
      rev_ok = ground arith;
      upstream_is = ground arith;
      chars_ok = chars_ok;
    }

-- The slices of a parsed version number: upstream runs to the hyphen in front of the revision, or
-- both run to the end of the string.
pub record IsParsed (c : Coarse) : Type 0 where
  pub us_slice : Slice c.upstream c.us_len
  pub rev_slice : Slice c.rev c.rev_len
  pub rev_whole : c.rev_len ≡ length c.rev
  pub splits :
      ((c.rev ≡ []) × (drop c.us_len c.upstream ≡ [])) ⊎ (drop c.us_len c.upstream ≡ b'-' ∷ c.rev)

pub us_len_fits : (h s n : ℕ) → s ≤ h → h < n → n < size_mod → (h + size_mod - s) % size_mod ≡ h - s
us_len_fits h s n a b c = omega arith

revision-IsParsed :
    (v : Bytes) (c : Coarse) (start : ℕ) (hyp : Option ℕ)
    → IsCString v
    → strchr v b'-' ≡ hyp
    → StartsAt v start
    → parse_revision v start hyp ≡ some (c.rev, c.rev_len, c.us_len)
    → c.upstream ≡ drop start v
    → IsParsed c
unfolding parse_revision
revision-IsParsed v c start none str e at h u =
    let rev_is : c.rev ≡ [] = ground arith in
    let len_is : c.rev_len ≡ 0 = ground arith in
    let us_is : c.us_len ≡ length v - start = ground arith in
    record {
      us_slice =
          rw (u, us_is)
            (Slice-of_le (drop start v) (length v - start) (All-drop _ start v str.no_nul)
              (omega (arith, length-drop {0} start v)));
      rev_slice = rw (rev_is, len_is) tt;
      rev_whole = rw (rev_is, len_is);
      splits = inl (
        rev_is,
        rw (u, us_is) (drop_all (drop start v) _ (omega (arith, length-drop {0} start v))),
      );
    }
revision-IsParsed v c start (some hyp) str e at h u =
    elim (Bool-cases (all is_revchar (drop (suc hyp) v))) [
      | inr bad ↦ absurd (ground arith)
      | inl ok ↦
          let rev_is : c.rev ≡ drop (suc hyp) v = ground arith in
          let len_is : c.rev_len ≡ length v - suc hyp = ground arith in
          let le : start ≤ hyp = at.1 hyp e ok in
          let fits = us_len_fits hyp start (length v) le (strchr-lt v b'-' hyp e) str.fits in
          let us_is : c.us_len ≡ hyp - start = ground arith in
          record {
            us_slice =
                rw (u, us_is)
                  (Slice-of_le (drop start v) (hyp - start) (All-drop _ start v str.no_nul)
                    (omega (arith, length-drop {0} start v, strchr-lt v b'-' hyp e)));
            rev_slice =
                rw (rev_is, len_is)
                  (Slice-of_le (drop (suc hyp) v) _ (All-drop _ (suc hyp) v str.no_nul)
                    (omega (arith, length-drop {0} (suc hyp) v)));
            rev_whole = rw (rev_is, len_is) (sym (length-drop (suc hyp) v));
            splits = inr (
                rw (u, us_is, rev_is)
                  (drop-drop start hyp v le
                    ∙ drop-get_elem? v hyp (strchr-get_elem? v b'-' hyp e)));
          }
    ]

pub parse_coarse-IsParsed :
    (v : Bytes) {c : Coarse} → IsCString v → parse_coarse v ≡ some c → IsParsed c
parse_coarse-IsParsed v {c} str h =
    let s = parse_coarse-Steps v h in
    revision-IsParsed v c s.start (strchr v b'-') str refl
      (parse_epoch-StartsAt v c.epoch s.start s.epoch_ok) s.rev_ok s.upstream_is
