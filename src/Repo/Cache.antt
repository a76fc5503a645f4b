-- ===== src/Repo/Cache.antt =====
-- The packages that tools/repo.c has read already.
use static_distro.Repo.{
  Disk, Repo, RepoPackage, package_lookup, read_versions, repo_package_load, repo_package_get,
}
use static_distro.Shared.{
  ◌≡◌, inl, inr, sym, ap, ◌∙◌, List, [], ◌∷◌, arith, Bool-cases, List-cases, Option-cases, str_eq,
  str_eq_iff, Bytes,
}

-- What the lookup finds has the name, and is found again from any list that it heads.
package_lookup_head :
    (qs : List RepoPackage) (name : Bytes) (pkg : RepoPackage) (pkgs : List RepoPackage)
    → package_lookup qs name ≡ pkg ∷ pkgs
    → pkg.name ≡ name
unfolding package_lookup
package_lookup_head [] name pkg pkgs h = absurd (ground arith)
package_lookup_head (q ∷ qs) name pkg pkgs h = elim (Bool-cases (str_eq q.name name)) [
  | inl same ↦
      let e : q ∷ qs ≡ pkg ∷ pkgs = ground arith in
      let head : q ≡ pkg = ground arith in
      sym (ap (λ (x : RepoPackage). x.name) head) ∙ (str_eq_iff q.name name).0 same
  | inr other ↦ package_lookup_head qs name pkg pkgs (ground arith)
]

package_lookup_first :
    (qs : List RepoPackage) (q : RepoPackage) → package_lookup (q ∷ qs) q.name ≡ q ∷ qs
unfolding package_lookup
package_lookup_first qs q = ground (arith, str_eq_iff q.name q.name)

-- What `repo_package_get` returned is found in what it left.
found_again :
    (repo repo' : Repo) (name : Bytes) (pkg : RepoPackage) (pkgs : List RepoPackage)
    → repo_package_get repo name ≡ (repo', pkg ∷ pkgs)
    → package_lookup repo'.packages name ≡ pkg ∷ pkgs
unfolding repo_package_get repo_package_load
found_again repo repo' name pkg pkgs h = elim (List-cases (package_lookup repo.packages name)) [
  | inr (q, qs, e) ↦
      let out : (repo, q ∷ qs) ≡ (repo', pkg ∷ pkgs) = rw (repo_package_get, e) at h in
      let same : repo ≡ repo' = ap (λ (s : Repo × List RepoPackage). s.0) out in
      let list : q ∷ qs ≡ pkg ∷ pkgs = ap (λ (s : Repo × List RepoPackage). s.1) out in
      sym (ap (λ (r : Repo). package_lookup r.packages name) same) ∙ e ∙ list
  | inl missing ↦ elim (Option-cases (repo.disk name)) [
    | inl no_dir ↦
        let out : (repo, []) ≡ (repo', pkg ∷ pkgs) =
          rw (repo_package_get, missing, repo_package_load, no_dir) at h in
        let list : [] ≡ pkg ∷ pkgs = ap (λ (s : Repo × List RepoPackage). s.1) out in
        absurd (cc list)
    | inr (des, e) ↦
        let loaded : RepoPackage = record { name = name; versions = read_versions [] des } in
        let out : (record repo { packages = loaded ∷ repo.packages }, loaded ∷ repo.packages)
            ≡ (repo', pkg ∷ pkgs) =
          rw (repo_package_get, missing, repo_package_load, e) at h in
        sym (ap (λ (s : Repo × List RepoPackage). package_lookup s.0.packages name) out)
        ∙ package_lookup_first repo.packages loaded
        ∙ ap (λ (s : Repo × List RepoPackage). s.1) out
  ]
]

-- A package that `repo_package_get` returned has the name that was asked for, and is returned again
-- from what was read, whatever the directory holds by then.
pub repo_package_get_again :
    (repo repo' : Repo) (name : Bytes) (pkg : RepoPackage) (pkgs : List RepoPackage) (later : Disk)
    → repo_package_get repo name ≡ (repo', pkg ∷ pkgs)
    → (pkg.name ≡ name)
      × (repo_package_get (record repo' { disk = later }) name
          ≡ (record repo' { disk = later }, pkg ∷ pkgs))
unfolding repo_package_get
repo_package_get_again repo repo' name pkg pkgs later h =
    let key = found_again repo repo' name pkg pkgs h in
    (package_lookup_head repo'.packages name pkg pkgs key, rw (repo_package_get, key))
