-- ===== src/PkgVercmp/Best.antt =====
-- The loop of tools/pkgvercmp.c that looks for the least or the greatest version number.
use static_distro.PkgVercmp.{
  Mode, mode_cmp, mode_min, mode_max, printed, better, best, run_mode, params_ok, pkgvercmp,
}
use static_distro.Shared.{
  Ordering, ◌≡◌, ◌≢◌, ◌⊎◌, inl, inr, refl, sym, ap, ◌∙◌, subst, true, List, [], ◌∷◌, ◌++◌, some,
  arith, all, All, Elem, Bytes, codes,
}
use static_distro.Version.Greater.{IsVersion}
use static_distro.Version.Compare.{
  AtMost, vercmp_flip, version_cmp_flipped, version_cmp_same, version_cmp_trans, version_cmp-key,
  VercmpResult-cases, sort_key, cmp_keys,
}
use static_distro.Version.{vercmp_result, ver_failed, version_cmp, version_validate}

-- `a` is at most `b` where the minimum is wanted, and at least `b` where the maximum is.
abbrev pub Beats : Mode → Bytes → Bytes → Type 0
Beats mode_cmp a b = Unit
Beats mode_min a b = AtMost (version_cmp a b)
Beats mode_max a b = AtMost (version_cmp b a)

Beats-same : (mode : Mode) (a : Bytes) → IsVersion a → Beats mode a a
Beats-same mode_cmp a ok = tt
Beats-same mode_min a ok = inr (version_cmp_same a ok.bytes ok.parsed)
Beats-same mode_max a ok = inr (version_cmp_same a ok.bytes ok.parsed)

Beats-trans :
    (mode : Mode) (a b c : Bytes)
    → IsVersion a
    → IsVersion b
    → IsVersion c
    → Beats mode a b
    → Beats mode b c
    → Beats mode a c
Beats-trans mode_cmp a b c va vb vc ab bc = tt
Beats-trans mode_min a b c va vb vc ab bc =
    (version_cmp_trans a b c va.bytes vb.bytes vc.bytes va.parsed vb.parsed vc.parsed va.upstream
      vb.upstream vc.upstream ab bc).0
Beats-trans mode_max a b c va vb vc ab bc =
    (version_cmp_trans c b a vc.bytes vb.bytes va.bytes vc.parsed vb.parsed va.parsed vc.upstream
      vb.upstream va.upstream bc ab).0

-- What one round keeps.
record Better (mode : Mode) (v b b' : Bytes) : Type 0 where
  one_of : (b' ≡ v) ⊎ (b' ≡ b)
  beats_v : Beats mode b' v
  beats_b : Beats mode b' b

not_failed : (o : Ordering) → vercmp_result o ≢ ver_failed
not_failed Ordering.lt h = ground arith
not_failed Ordering.eq h = ground arith
not_failed Ordering.gt h = ground arith

no_failure : (v b : Bytes) → IsVersion v → IsVersion b → version_cmp v b ≢ ver_failed
no_failure v b ok_v ok_b bad = not_failed (cmp_keys (sort_key ok_v.coarse) (sort_key ok_b.coarse)) (
    sym (
      version_cmp-key v b ok_v.bytes ok_b.bytes ok_v.parsed ok_b.parsed
        (omega (arith, ok_v.upstream)))
    ∙ bad)

better_lem :
    (mode : Mode) (v b : Bytes)
    → IsVersion v
    → IsVersion b
    → (b' : Bytes) × (better mode (version_cmp v b) v b ≡ some b') × Better mode v b b'
unfolding better
better_lem mode_cmp v b ok_v ok_b = elim (VercmpResult-cases (version_cmp v b)) [
  | inl lt ↦ (b, rw (lt, better), record { one_of = inr refl; beats_v = tt; beats_b = tt })
  | inr (inl eq) ↦ (b, rw (eq, better), record { one_of = inr refl; beats_v = tt; beats_b = tt })
  | inr (inr (inl gt)) ↦
      (b, rw (gt, better), record { one_of = inr refl; beats_v = tt; beats_b = tt })
  | inr (inr (inr bad)) ↦ absurd (no_failure v b ok_v ok_b bad)
]
better_lem mode_min v b ok_v ok_b = elim (VercmpResult-cases (version_cmp v b)) [
  | inl lt ↦ (
    v,
    rw (lt, better),
    record { one_of = inl refl; beats_v = Beats-same mode_min v ok_v; beats_b = inl lt },
  )
  | inr (inl eq) ↦ (
    b,
    rw (eq, better),
    record {
      one_of = inr refl;
      beats_v = inr (version_cmp_flipped v b ok_v.bytes ok_b.bytes ∙ ap vercmp_flip eq);
      beats_b = Beats-same mode_min b ok_b;
    },
  )
  | inr (inr (inl gt)) ↦ (
    b,
    rw (gt, better),
    record {
      one_of = inr refl;
      beats_v = inl (version_cmp_flipped v b ok_v.bytes ok_b.bytes ∙ ap vercmp_flip gt);
      beats_b = Beats-same mode_min b ok_b;
    },
  )
  | inr (inr (inr bad)) ↦ absurd (no_failure v b ok_v ok_b bad)
]
better_lem mode_max v b ok_v ok_b = elim (VercmpResult-cases (version_cmp v b)) [
  | inl lt ↦ (
    b,
    rw (lt, better),
    record { one_of = inr refl; beats_v = inl lt; beats_b = Beats-same mode_max b ok_b },
  )
  | inr (inl eq) ↦ (
    b,
    rw (eq, better),
    record { one_of = inr refl; beats_v = inr eq; beats_b = Beats-same mode_max b ok_b },
  )
  | inr (inr (inl gt)) ↦ (
    v,
    rw (gt, better),
    record {
      one_of = inl refl;
      beats_v = Beats-same mode_max v ok_v;
      beats_b = inl (version_cmp_flipped v b ok_v.bytes ok_b.bytes ∙ ap vercmp_flip gt);
    },
  )
  | inr (inr (inr bad)) ↦ absurd (no_failure v b ok_v ok_b bad)
]

-- The best of a list of version numbers.
pub record IsBest (mode : Mode) (vs : List Bytes) (r : Bytes) : Type 0 where
  pub one_of : Elem r vs
  pub beats : All (Beats mode r) vs

Beats-All :
    (mode : Mode) (a b : Bytes) (vs : List Bytes)
    → IsVersion a
    → IsVersion b
    → All IsVersion vs
    → Beats mode a b
    → All (Beats mode b) vs
    → All (Beats mode a) vs
Beats-All mode a b [] va vb oks ab bs = tt
Beats-All mode a b (v ∷ vs) va vb (ok, oks) ab (bv, bs) =
    (Beats-trans mode a b v va vb ok ab bv, Beats-All mode a b vs va vb oks ab bs)

best_lem :
    (mode : Mode) (b : Bytes) (vs : List Bytes)
    → IsVersion b
    → All IsVersion vs
    → (r : Bytes) × (best mode b vs ≡ some r) × IsVersion r × IsBest mode (b ∷ vs) r
unfolding best
best_lem mode b [] ok oks =
    (b, refl, ok, record { one_of = inl refl; beats = (Beats-same mode b ok, tt) })
best_lem mode b (v ∷ vs) ok (ok_v, oks) =
    let (b', e, one) = better_lem mode v b ok_v ok in
    let ok' : IsVersion b' = elim one.one_of [
      | inl is_v ↦ subst IsVersion (sym is_v) ok_v
      | inr is_b ↦ subst IsVersion (sym is_b) ok
    ] in
    let (r, found, ok_r, is_best) = best_lem mode b' vs ok' oks in
    let (beats_b', beats_vs) = is_best.beats in
    (
      r,
      rw (e) found,
      ok_r,
      record {
        one_of = elim is_best.one_of [
          | inl is_b' ↦ elim one.one_of [
            | inl is_v ↦ inr (inl (is_b' ∙ is_v))
            | inr is_b ↦ inl (is_b' ∙ is_b)
          ]
          | inr later ↦ inr (inr later)
        ];
        beats = (
          Beats-trans mode r b' b ok_r ok' ok beats_b' one.beats_b,
          (Beats-trans mode r b' v ok_r ok' ok_v beats_b' one.beats_v, beats_vs),
        );
      },
    )

params_ok-min : (v : Bytes) (vs : List Bytes) → params_ok mode_min (v ∷ vs) ≡ true
unfolding params_ok
params_ok-min v [] = refl
params_ok-min v (w ∷ []) = refl
params_ok-min v (w ∷ x ∷ vs) = refl

params_ok-max : (v : Bytes) (vs : List Bytes) → params_ok mode_max (v ∷ vs) ≡ true
unfolding params_ok
params_ok-max v [] = refl
params_ok-max v (w ∷ []) = refl
params_ok-max v (w ∷ x ∷ vs) = refl

IsVersion-valid : (v : Bytes) → IsVersion v → version_validate v ≡ true
unfolding version_validate
IsVersion-valid v ok = rw (ok.parsed, version_validate)

all_validate : (vs : List Bytes) → All IsVersion vs → all version_validate vs ≡ true
all_validate [] oks = refl
all_validate (v ∷ vs) (ok, oks) = rw (IsVersion-valid v ok, all_validate vs oks)

-- On a list of version numbers that each have an upstream part, `-m` prints one of the list that is
-- less than or equal to each of them, and `-M` prints one that each of them is less than or equal
-- to.
pub pkgvercmp-IsBest :
    (mode : Mode) (v : Bytes) (vs : List Bytes)
    → (mode ≡ mode_min) ⊎ (mode ≡ mode_max)
    → All IsVersion (v ∷ vs)
    → (r : Bytes) × (pkgvercmp mode (v ∷ vs) ≡ printed (r ++ codes "\n")) × IsBest mode (v ∷ vs) r
unfolding pkgvercmp run_mode
pkgvercmp-IsBest mode v vs which (ok, oks) =
    let (r, e, ok_r, is_best) = best_lem mode v vs ok oks in
    let valid = all_validate (v ∷ vs) (ok, oks) in
    (
      r,
      elim which [
        | inl is_min ↦ rw (is_min, params_ok-min v vs, valid, ← is_min, e)
        | inr is_max ↦ rw (is_max, params_ok-max v vs, valid, ← is_max, e)
      ],
      is_best,
    )
