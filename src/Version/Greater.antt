-- ===== src/Version/Greater.antt =====
-- Which of two version numbers is greater, by `version_cmp` of tools/version.c.
use static_distro.Shared.{◌<◌, ◌≡◌, ◌≢◌, inl, inr, sym, ap, ◌∙◌, some, arith, Bytes}
use static_distro.Version.Compare.{vercmp_flip, version_cmp_flipped, version_cmp_trans}
use static_distro.Version.Parse.{IsCString}
use static_distro.Version.{Coarse, ver_lt, ver_eq, ver_gt, parse_coarse, version_cmp}

-- A version number with an upstream part.
pub record IsVersion (v : Bytes) : Type 0 where
  pub bytes : IsCString v
  pub coarse : Coarse
  pub parsed : parse_coarse v ≡ some coarse
  pub upstream : 0 < coarse.us_len

-- Greater is transitive.
pub version_cmp_gt_trans :
    (a b c : Bytes)
    → IsVersion a
    → IsVersion b
    → IsVersion c
    → version_cmp a b ≡ ver_gt
    → version_cmp b c ≡ ver_gt
    → version_cmp a c ≡ ver_gt
version_cmp_gt_trans a b c va vb vc ab bc =
    let ba = version_cmp_flipped a b va.bytes vb.bytes ∙ ap vercmp_flip ab in
    let cb = version_cmp_flipped b c vb.bytes vc.bytes ∙ ap vercmp_flip bc in
    let (ca, eq) =
      version_cmp_trans c b a vc.bytes vb.bytes va.bytes vc.parsed vb.parsed va.parsed vc.upstream
        vb.upstream va.upstream (inl cb) (inl ba) in
    elim ca [
      | inl lt ↦ version_cmp_flipped c a vc.bytes va.bytes ∙ ap vercmp_flip lt
      | inr same ↦ absurd (lt_not_eq (sym cb ∙ (eq same).0))
    ]
  where
    lt_not_eq : ver_lt ≢ ver_eq
    lt_not_eq h = ground arith
