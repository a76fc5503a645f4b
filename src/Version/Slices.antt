-- ===== src/Version/Slices.antt =====
-- Where the slices that `parse_coarse` of tools/version.c returns lie in the string.
use static_distro.LibC.Search.{strchr-lt}
use static_distro.LibC.{strchr}
use static_distro.Shared.{
  ℕ, suc, ◌+◌, ◌-◌, ◌≡◌, ◌⊎◌, inl, inr, refl, [], Option, none, some, arith, Bool-cases,
  Option-cases, length, drop, all, Bytes,
}
use static_distro.Version.Parse.{
  IsCString, IsParsed, StartsAt, parse_epoch-StartsAt, parse_coarse-Steps, parse_coarse-IsParsed,
  us_len_fits,
}
use static_distro.Version.{Coarse, is_revchar, parse_epoch, parse_revision, parse_coarse}

-- Upstream starts behind the first colon, or with the string.
abbrev pub UpstreamAt : Bytes → ℕ → Type 0
UpstreamAt v start =
    ((strchr v b':' ≡ none) × (start ≡ 0))
    ⊎ ((col : ℕ) × (strchr v b':' ≡ some col) × (start ≡ suc col))

-- It ends at the first hyphen, with the revision behind that, or at the end of the string.
abbrev pub RevisionAt : Bytes → ℕ → Coarse → Type 0
RevisionAt v start c =
    ((strchr v b'-' ≡ none) × (c.rev ≡ []) × (start + c.us_len ≡ length v))
    ⊎ ((hyp : ℕ) × (strchr v b'-' ≡ some hyp)
        × (c.rev ≡ drop (suc hyp) v)
        × (start + c.us_len ≡ hyp))

-- The places of the slices in the string.
pub record LiesIn (v : Bytes) (c : Coarse) : Type 0 where
  pub start : ℕ
  pub start_at : UpstreamAt v start
  pub upstream_at : c.upstream ≡ drop start v
  pub revision_at : RevisionAt v start c

parse_epoch-UpstreamAt :
    (v : Bytes) (e start : ℕ) → parse_epoch v (strchr v b':') ≡ some (e, start) → UpstreamAt v start
unfolding parse_epoch
parse_epoch-UpstreamAt v e start h = elim (Option-cases (strchr v b':')) [
  | inl none_is ↦
      let at : some (0, 0) ≡ some (e, start) = rw (none_is, parse_epoch) at h in
      inl (none_is, ground arith)
  | inr (col, found) ↦ let at = rw (found, parse_epoch) at h in inr (col, found, ground arith)
]

parse_revision-RevisionAt :
    (v : Bytes) (c : Coarse) (start : ℕ) (hyp : Option ℕ)
    → IsCString v
    → strchr v b'-' ≡ hyp
    → StartsAt v start
    → parse_revision v start hyp ≡ some (c.rev, c.rev_len, c.us_len)
    → RevisionAt v start c
unfolding parse_revision
parse_revision-RevisionAt v c start none str e at h =
    let us_is : c.us_len ≡ length v - start = ground arith in
    inl (e, ground arith, omega (arith, us_is, at.0))
parse_revision-RevisionAt v c start (some hyp) str e at h =
    elim (Bool-cases (all is_revchar (drop (suc hyp) v))) [
      | inr bad ↦ absurd (ground arith)
      | inl ok ↦
          let le = at.1 hyp e ok in
          let fits = us_len_fits hyp start (length v) le (strchr-lt v b'-' hyp e) str.fits in
          let us_is : c.us_len ≡ hyp - start = ground arith in
          inr (hyp, e, ground arith, omega (arith, us_is, le))
    ]

-- Whatever `parse_coarse` accepts, as a C string, it returns slices of this string: upstream starts
-- behind the first colon, or with the string where there is no colon, and ends at the first hyphen,
-- with the revision from there to the end of the string, or with the string where there is no hyphen.
-- Both lengths are those of the slices, which hold no NUL, and `us_len` did not wrap around.
pub parse_coarse-LiesIn :
    (v : Bytes) {c : Coarse} → IsCString v → parse_coarse v ≡ some c → IsParsed c × LiesIn v c
parse_coarse-LiesIn v {c} str h =
    let s = parse_coarse-Steps v h in
    (
      parse_coarse-IsParsed v str h,
      record {
        start = s.start;
        start_at = parse_epoch-UpstreamAt v c.epoch s.start s.epoch_ok;
        upstream_at = s.upstream_is;
        revision_at =
            parse_revision-RevisionAt v c s.start (strchr v b'-') str refl
              (parse_epoch-StartsAt v c.epoch s.start s.epoch_ok) s.rev_ok;
      },
    )
