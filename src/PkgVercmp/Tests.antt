-- ===== src/PkgVercmp/Tests.antt =====
-- Runs of tools/pkgvercmp.c.
use static_distro.LibC.{
  strchr, strtoul, convert, convert_signed, digits_value, span_len, isspace, isdigit, isalpha,
  isalnum,
}
use static_distro.PkgVercmp.Best.{IsBest, pkgvercmp-IsBest}
use static_distro.PkgVercmp.{mode_max, printed, pkgvercmp}
use static_distro.Shared.{◌≡◌, refl, inr, [], ◌∷◌, ◌++◌, some, arith, Bytes, codes}
use static_distro.Version.Greater.{IsVersion}
use static_distro.Version.{
  is_revchar, is_uschar, parse_epoch, parse_revision, uschars_ok, parse_coarse,
}

abbrev low : Bytes
low = codes "1.0~rc1"

abbrev high : Bytes
high = codes "1.0.1"

parses :
    (parse_coarse low
      ≡ some (record { epoch = 0; upstream = low; us_len = 7; rev = []; rev_len = 0 }))
    × (parse_coarse high
        ≡ some (record { epoch = 0; upstream = high; us_len = 5; rev = []; rev_len = 0 }))
unfolding strchr strtoul convert convert_signed digits_value span_len isspace isdigit isalpha
    isalnum is_revchar is_uschar parse_epoch parse_revision uschars_ok parse_coarse
parses = (refl, refl)

low-IsVersion : IsVersion low
low-IsVersion = record {
  bytes = omega arith;
  coarse = _;
  parsed = parses.0;
  upstream = omega arith;
}

high-IsVersion : IsVersion high
high-IsVersion = record {
  bytes = omega arith;
  coarse = _;
  parsed = parses.1;
  upstream = omega arith;
}

pkgvercmp-IsBest_example :
    (r : Bytes) × (pkgvercmp mode_max (low ∷ high ∷ []) ≡ printed (r ++ codes "\n"))
    × IsBest mode_max (low ∷ high ∷ []) r
pkgvercmp-IsBest_example =
    pkgvercmp-IsBest mode_max low (high ∷ []) (inr refl) (low-IsVersion, (high-IsVersion, tt))
