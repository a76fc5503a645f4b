-- ===== src/Solve/Insert.antt =====
-- The insertion of a version in `solve_package_version_add` of tools/solve.c.
use static_distro.Shared.{◌≡◌, inl, inr, refl, List, [], ◌∷◌, arith}
use static_distro.Solve.{Version, Outcome, done, failed, aborted, insert_version}
use static_distro.Version.Compare.{VercmpResult-cases}
use static_distro.Version.{version_cmp, ver_lt, ver_gt}

-- `vs'` is `vs` with `ver` put in front of the first version that it is greater than.
pub data Inserted (ver : Version) : List Version → List Version → Type 0 where
  last : Inserted ver [] (ver ∷ [])
  before :
      {v : Version} {vs : List Version}
      → version_cmp ver.version v.version ≡ ver_gt
      → Inserted ver (v ∷ vs) (ver ∷ v ∷ vs)
  after :
      {v : Version} {vs vs' : List Version}
      → version_cmp ver.version v.version ≡ ver_lt
      → Inserted ver vs vs'
      → Inserted ver (v ∷ vs) (v ∷ vs')

further_done :
    (v : Version) (o : Outcome (List Version)) (vs' : List Version)
    → elim o [ done us ↦ done (v ∷ us) | failed us ↦ failed (v ∷ us) | aborted ↦ aborted ]
      ≡ done vs'
    → (us : List Version) × (o ≡ done us) × (v ∷ us ≡ vs')
further_done v (done us) vs' h = (us, refl, ground arith)
further_done v (failed us) vs' h = absurd (ground arith)
further_done v aborted vs' h = absurd (ground arith)

pub insert_version-Inserted :
    (ver : Version) (vs vs' : List Version) → insert_version ver vs ≡ done vs' → Inserted ver vs vs'
unfolding insert_version
insert_version-Inserted ver [] vs' h = let e : ver ∷ [] ≡ vs' = ground arith in rw (← e) last
insert_version-Inserted ver (v ∷ vs) vs' h =
    elim (VercmpResult-cases (version_cmp ver.version v.version)) [
      | inl lt ↦
          let (us, e, is_vs') =
            further_done v (insert_version ver vs) vs' (rw (lt, insert_version) at h) in
          rw (← is_vs') (after lt (insert_version-Inserted ver vs us e))
      | inr (inl eq) ↦ absurd (ground arith)
      | inr (inr (inl gt)) ↦ let e : ver ∷ v ∷ vs ≡ vs' = ground arith in rw (← e) (before gt)
      | inr (inr (inr bad)) ↦ absurd (ground arith)
    ]
