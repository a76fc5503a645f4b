-- ===== src/Version/Tests.antt =====
-- Runs of tools/version.c on concrete version numbers.
use static_distro.LibC.Numbers.{EndsOther}
use static_distro.Shared.{
  ◌<◌, ◌≡◌, inl, refl, true, false, [], ◌∷◌, ◌++◌, some, arith, all, Bytes, codes,
}
use static_distro.Version.Compare.{
  AtMost, cmp_keys, sort_key, vercmp_flip, version_cmp-key, version_cmp_flipped, version_cmp_trans,
}
use static_distro.Version.Hyphen.{parse_coarse-revision, version_cmp_reversed, with_revision}
use static_distro.Version.Parse.{IsCString, IsParsed}
use static_distro.Version.Slices.{LiesIn, parse_coarse-LiesIn}
use static_distro.LibC.{
  strchr, strtoul, convert, convert_signed, digits_value, span_len, isspace, isdigit, isalpha,
  isalnum, ulong_mod,
}
use static_distro.Version.{
  is_revchar, is_uschar, parse_epoch, parse_revision, uschars_ok, cmp_verchar, cmp_nondig, cmp_dig,
  run_len, verstr_round, verstr_loop, cmp_verstr, coarse_cmp, version_cmp, ver_lt, ver_eq, ver_gt,
  ver_failed, version_validate, parse_coarse, Coarse, vercmp_result,
}

-- Opens all that a run computes with.
runs : Unit {0}
unfolding strchr strtoul convert convert_signed digits_value span_len isspace isdigit isalpha
    isalnum is_revchar is_uschar parse_epoch parse_revision uschars_ok parse_coarse version_validate
    cmp_verchar cmp_nondig cmp_dig run_len verstr_round verstr_loop cmp_verstr coarse_cmp
    version_cmp
runs = tt

cmp_runs :
    (version_cmp (codes "1.0") (codes "1.0.1") ≡ ver_lt)
    × (version_cmp (codes "1.0~rc1") (codes "1.0") ≡ ver_lt)
    × (version_cmp (codes "1:1.0") (codes "2.0") ≡ ver_gt)
    × (version_cmp (codes "1.10-2") (codes "1.9-10") ≡ ver_gt)
    × (version_cmp (codes "1.0-2") (codes "1.00-2") ≡ ver_eq)
    × (version_cmp (codes "1.0a-1") (codes "1.0a-2") ≡ ver_gt)
    × (version_cmp (codes "1_0") (codes "1.0") ≡ ver_failed)
unfolding runs
cmp_runs = (refl, refl, refl, refl, refl, refl, refl)

-- Each version number below holds no NUL and is shorter than 2 ^ 64.
abbrev tilde : Bytes
tilde = codes "1.0~rc1-2"

abbrev plain : Bytes
plain = codes "1.0-2"

abbrev longer : Bytes
longer = codes "1.0.1-1"

abbrev tilde_coarse : Coarse
tilde_coarse = record { epoch = 0; upstream = tilde; us_len = 7; rev = codes "2"; rev_len = 1 }

abbrev plain_coarse : Coarse
plain_coarse = record { epoch = 0; upstream = plain; us_len = 3; rev = codes "2"; rev_len = 1 }

abbrev longer_coarse : Coarse
longer_coarse = record { epoch = 0; upstream = longer; us_len = 5; rev = codes "1"; rev_len = 1 }

tilde-parse : parse_coarse tilde ≡ some tilde_coarse
unfolding runs
tilde-parse = refl

plain-parse : parse_coarse plain ≡ some plain_coarse
unfolding runs
plain-parse = refl

longer-parse : parse_coarse longer ≡ some longer_coarse
unfolding runs
longer-parse = refl

tilde-IsCString : IsCString tilde
tilde-IsCString = omega arith

plain-IsCString : IsCString plain
plain-IsCString = omega arith

longer-IsCString : IsCString longer
longer-IsCString = omega arith

tilde-lt-plain : AtMost (version_cmp tilde plain)
unfolding runs
tilde-lt-plain = inl refl

plain-lt-longer : AtMost (version_cmp plain longer)
unfolding runs
plain-lt-longer = inl refl

version_cmp-key_example :
    version_cmp tilde plain
    ≡ vercmp_result (cmp_keys (sort_key tilde_coarse) (sort_key plain_coarse))
version_cmp-key_example =
    version_cmp-key tilde plain tilde-IsCString plain-IsCString tilde-parse plain-parse
      (omega arith)

version_cmp_trans_example :
    AtMost (version_cmp tilde longer)
    × (version_cmp tilde longer ≡ ver_eq
        → (version_cmp tilde plain ≡ ver_eq) × (version_cmp plain longer ≡ ver_eq))
version_cmp_trans_example =
    version_cmp_trans tilde plain longer tilde-IsCString plain-IsCString longer-IsCString
      tilde-parse plain-parse longer-parse (omega arith) (omega arith) (omega arith) tilde-lt-plain
      plain-lt-longer

version_cmp_flipped_example : version_cmp plain tilde ≡ vercmp_flip (version_cmp tilde plain)
version_cmp_flipped_example = version_cmp_flipped tilde plain tilde-IsCString plain-IsCString

parse_coarse-LiesIn_example : IsParsed tilde_coarse × LiesIn tilde tilde_coarse
parse_coarse-LiesIn_example = parse_coarse-LiesIn tilde tilde-IsCString tilde-parse

parse_coarse-revision_example :
    parse_coarse (codes "1.0~rc1" ++ (b'-' ∷ codes "2"))
    ≡ some (with_revision (codes "1.0~rc1") (codes "2"))
parse_coarse-revision_example =
    parse_coarse-revision (codes "1.0~rc1") (codes "2") plain_bytes.0 plain_bytes.1 (omega arith)
  where
    plain_bytes : (all is_revchar (codes "1.0~rc1") ≡ true) × (all is_revchar (codes "2") ≡ true)
    plain_bytes = unfold runs in (refl, refl)

reversed :
    (all is_revchar (codes "1.0a") ≡ true)
    × EndsOther false (codes "1.0a")
    × (all isdigit (b'1' ∷ []) ≡ true)
    × (all isdigit (b'2' ∷ []) ≡ true)
    × (0 < digits_value 0 (b'1' ∷ []))
    × (digits_value 0 (b'1' ∷ []) < digits_value 0 (b'2' ∷ []))
    × (digits_value 0 (b'2' ∷ []) < ulong_mod)
unfolding runs
reversed = (refl, refl, refl, refl, omega arith, omega arith, omega arith)

version_cmp_reversed_example :
    version_cmp (codes "1.0a" ++ (b'-' ∷ b'1' ∷ [])) (codes "1.0a" ++ (b'-' ∷ b'2' ∷ [])) ≡ ver_gt
version_cmp_reversed_example =
    version_cmp_reversed (codes "1.0a") [] [] b'1' b'2' (omega arith) reversed.0 reversed.1
      reversed.2 reversed.3 reversed.4 reversed.5 reversed.6 (omega arith) (omega arith)
