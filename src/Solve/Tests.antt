-- ===== src/Solve/Tests.antt =====
-- Runs of tools/solve.c.
use static_distro.LibC.{
  strchr, strtoul, convert, convert_signed, digits_value, span_len, isspace, isdigit, isalpha,
  isalnum,
}
use static_distro.Shared.{
  ℕ, zero, suc, ◌≡◌, ◌⊎◌, Elem, refl, subst, List, [], ◌∷◌, some, arith, All, get_elem?, str_eq,
  codes,
}
use static_distro.Solve.Sorted.{
  IsSorted, HasCString, Descending, solve_package_version_add-IsSorted, choose-newest,
}
use static_distro.Solve.{
  Version, Package, SolveProblem, not_run, new_package, done, choose, add_deps, pkg_lookup, pkg_add,
  has_version, push_deps, insert_version, version_add_to, solve_package_version_add,
}
use static_distro.Version.{
  is_revchar, is_uschar, parse_epoch, parse_revision, uschars_ok, cmp_verchar, cmp_nondig, cmp_dig,
  run_len, verstr_round, verstr_loop, cmp_verstr, coarse_cmp, parse_coarse, version_cmp, ver_gt,
}

-- Opens all that a run computes with.
runs : Unit {0}
unfolding str_eq strchr strtoul convert convert_signed digits_value span_len isspace isdigit isalpha
    isalnum is_revchar is_uschar parse_epoch parse_revision uschars_ok parse_coarse cmp_verchar
    cmp_nondig cmp_dig run_len verstr_round verstr_loop cmp_verstr coarse_cmp version_cmp pkg_lookup
    pkg_add has_version push_deps insert_version version_add_to solve_package_version_add
runs = tt

abbrev old : Version
old = record { version = codes "1.0"; dependencies = [] }

abbrev new : Version
new = record { version = codes "1.1"; dependencies = codes "b" ∷ codes "a" ∷ [] }

abbrev newest_version : Version
newest_version = record { version = codes "1.10"; dependencies = [] }

abbrev lib : Package
lib = record (new_package (codes "lib")) { available = newest_version ∷ old ∷ [] }

abbrev lib_added : Package
lib_added = record lib { available = newest_version ∷ new ∷ old ∷ [] }

abbrev before_add : SolveProblem
before_add = record { packages = lib ∷ []; solved = not_run }

abbrev after_add : SolveProblem
after_add = record { packages = lib_added ∷ []; solved = not_run }

lib-sorted : Descending lib.available
unfolding runs
lib-sorted = (refl, tt)

before-IsSorted : IsSorted before_add
before-IsSorted = record {
  strings = λ i a h. at_lib (All HasCString) (omega arith, (omega arith, tt)) i h;
  sorted = λ i a h. at_lib Descending lib-sorted i h;
}
  where
    at_lib :
        (P : List Version → Type 0)
        → P lib.available
        → (i : ℕ) {a : Package} → get_elem? before_add.packages i ≡ some a
        → P a.available
    at_lib P h zero {a} e =
        let same : lib ≡ a = cc e in subst (λ (x : Package). P x.available) same h
    at_lib P h (suc i) e = cc e

add-runs :
    solve_package_version_add before_add (codes "lib") (codes "1.1") (codes "a" ∷ codes "b" ∷ [])
    ≡ done after_add
unfolding runs
add-runs = refl

solve_package_version_add-IsSorted_example : IsSorted after_add
solve_package_version_add-IsSorted_example =
    solve_package_version_add-IsSorted before_add (codes "lib") (codes "1.1")
      (codes "a" ∷ codes "b" ∷ []) after_add (omega arith) before-IsSorted add-runs

parses :
    (parse_coarse (codes "1.10")
      ≡ some (record { epoch = 0; upstream = codes "1.10"; us_len = 4; rev = []; rev_len = 0 }))
    × (parse_coarse (codes "1.0")
        ≡ some (record { epoch = 0; upstream = codes "1.0"; us_len = 3; rev = []; rev_len = 0 }))
unfolding runs
parses = (refl, refl)

abbrev lib_chosen : SolveProblem
lib_chosen = record before_add { packages = record lib { chosen = some newest_version } ∷ [] }

choose-runs : choose tt before_add 0 lib ≡ done (tt, lib_chosen)
unfolding choose add_deps
choose-runs = refl

choose-newest_example :
    (q : Package) × (u : Version) × (get_elem? lib_chosen.packages 0 ≡ some q)
    × (q.name ≡ codes "lib")
    × (q.chosen ≡ some u)
    × Elem u lib.available
    × ((v : Version) → Elem v lib.available → (v ≡ u) ⊎ (version_cmp u.version v.version ≡ ver_gt))
choose-newest_example =
    choose-newest tt before_add 0 lib tt lib_chosen before-IsSorted refl
      (
        record { bytes = omega arith; coarse = _; parsed = parses.0; upstream = omega arith },
        (record { bytes = omega arith; coarse = _; parsed = parses.1; upstream = omega arith }, tt),
      )
      choose-runs
