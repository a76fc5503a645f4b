-- ===== src/Version/Compare.antt =====
-- `version_cmp` of tools/version.c as an order: it compares sort keys.
use static_distro.Shared.{
  ℕ, zero, suc, ◌+◌, ◌<◌, compare, Ordering, ◌≡◌, ◌⊎◌, inl, inr, refl, sym, ◌∙◌, false, List, [],
  ◌∷◌, none, some, arith, Option-cases, length, Bytes,
}
use static_distro.Shared.Order.{IsOrder, compare-IsOrder, lex, lex-IsOrder, flip}
use static_distro.Version.Key.{Slice, key}
use static_distro.Version.Loop.{cmp_verstr_lem, cmp_verstr-key}
use static_distro.Version.Parse.{IsCString, IsParsed, parse_coarse-IsParsed}
use static_distro.Version.{
  VercmpResult, ver_lt, ver_eq, ver_gt, ver_failed, Coarse, parse_coarse, cmp_verstr, coarse_cmp,
  vercmp_result, version_cmp,
}

-- Epoch, upstream and revision, from the part that decides first to the one that decides last.
abbrev pub sort_key : Coarse → List (List ℕ)
sort_key c = (c.epoch ∷ []) ∷ key false c.upstream c.us_len ∷ key false c.rev c.rev_len ∷ []

abbrev pub cmp_keys : List (List ℕ) → List (List ℕ) → Ordering
cmp_keys = lex (lex compare)

abbrev keys : IsOrder (lex compare)
keys = lex-IsOrder compare-IsOrder

cmp_keys-IsOrder : IsOrder cmp_keys
cmp_keys-IsOrder = lex-IsOrder (lex-IsOrder compare-IsOrder)

cmp_verstr_empty : (s1 s2 : Bytes) → cmp_verstr s1 0 s2 0 ≡ Ordering.eq
cmp_verstr_empty s1 s2 = cmp_verstr_lem s1 0 s2 0

length-eq-zero : (s : Bytes) → length s ≡ 0 → s ≡ []
length-eq-zero [] h = refl
length-eq-zero (c ∷ s) h = absurd (omega arith)

-- A slice that runs to the end of its string has no number behind it.
cmp_whole :
    (s1 : Bytes) (n1 : ℕ) (s2 : Bytes) (n2 : ℕ)
    → Slice s1 n1
    → Slice s2 n2
    → n1 ≡ length s1
    → n2 ≡ length s2
    → cmp_verstr s1 n1 s2 n2 ≡ lex compare (key false s1 n1) (key false s2 n2)
cmp_whole s1 zero s2 zero t1 t2 e1 e2 =
    cmp_verstr_empty s1 s2
    ∙ rw (length-eq-zero s1 (sym e1), length-eq-zero s2 (sym e2)) (sym (keys.same _))
cmp_whole s1 (suc n1) s2 n2 t1 t2 e1 e2 = cmp_verstr-key s1 (suc n1) s2 n2 t1 t2 (omega arith)
cmp_whole s1 zero s2 (suc n2) t1 t2 e1 e2 = cmp_verstr-key s1 0 s2 (suc n2) t1 t2 (omega arith)

coarse_cmp-key :
    (c1 c2 : Coarse)
    → IsParsed c1
    → IsParsed c2
    → 0 < c1.us_len + c2.us_len
    → coarse_cmp c1 c2 ≡ vercmp_result (cmp_keys (sort_key c1) (sort_key c2))
unfolding coarse_cmp lex
coarse_cmp-key c1 c2 p1 p2 h = ground (
  arith,
  cmp_verstr-key c1.upstream c1.us_len c2.upstream c2.us_len p1.us_slice p2.us_slice h,
  cmp_whole c1.rev c1.rev_len c2.rev c2.rev_len p1.rev_slice p2.rev_slice p1.rev_whole p2.rev_whole,
)

coarse_cmp_lem :
    (v1 v2 : Bytes) {c1 c2 : Coarse}
    → parse_coarse v1 ≡ some c1
    → parse_coarse v2 ≡ some c2
    → version_cmp v1 v2 ≡ coarse_cmp c1 c2
unfolding version_cmp
coarse_cmp_lem v1 v2 h1 h2 = ground arith

-- `version_cmp` compares, by the lexicographic order, the keys of two version numbers that
-- `parse_coarse` accepts, unless both upstream parts are empty.
pub version_cmp-key :
    (v1 v2 : Bytes) {c1 c2 : Coarse}
    → IsCString v1
    → IsCString v2
    → parse_coarse v1 ≡ some c1
    → parse_coarse v2 ≡ some c2
    → 0 < c1.us_len + c2.us_len
    → version_cmp v1 v2 ≡ vercmp_result (cmp_keys (sort_key c1) (sort_key c2))
version_cmp-key v1 v2 {c1} {c2} s1 s2 h1 h2 n =
    coarse_cmp_lem v1 v2 h1 h2
    ∙ coarse_cmp-key c1 c2 (parse_coarse-IsParsed v1 s1 h1) (parse_coarse-IsParsed v2 s2 h2) n

-- What comparing the other way round gives.
abbrev pub vercmp_flip : VercmpResult → VercmpResult
vercmp_flip ver_lt = ver_gt
vercmp_flip ver_gt = ver_lt
vercmp_flip ver_eq = ver_eq
vercmp_flip ver_failed = ver_failed

cmp_verstr_flipped :
    (s1 : Bytes) (n1 : ℕ) (s2 : Bytes) (n2 : ℕ)
    → Slice s1 n1
    → Slice s2 n2
    → cmp_verstr s2 n2 s1 n1 ≡ flip (cmp_verstr s1 n1 s2 n2)
cmp_verstr_flipped s1 zero s2 zero t1 t2 =
    ground (arith, cmp_verstr_empty s1 s2, cmp_verstr_empty s2 s1)
cmp_verstr_flipped s1 n1 s2 n2 t1 t2 =
    rw
      (
        cmp_verstr-key s1 n1 s2 n2 t1 t2 (omega arith),
        cmp_verstr-key s2 n2 s1 n1 t2 t1 (omega arith),
      )
      (keys.flipped _ _)

cmp_verstr_same : (s : Bytes) (n : ℕ) → Slice s n → cmp_verstr s n s n ≡ Ordering.eq
cmp_verstr_same s zero t = cmp_verstr_empty s s
cmp_verstr_same s (suc n) t = cmp_verstr-key s (suc n) s (suc n) t t (omega arith) ∙ keys.same _

coarse_cmp_flipped :
    (c1 c2 : Coarse) → IsParsed c1 → IsParsed c2 → coarse_cmp c2 c1 ≡ vercmp_flip (coarse_cmp c1 c2)
unfolding coarse_cmp
coarse_cmp_flipped c1 c2 p1 p2 = ground (
  arith,
  cmp_verstr_flipped c1.upstream c1.us_len c2.upstream c2.us_len p1.us_slice p2.us_slice,
  cmp_verstr_flipped c1.rev c1.rev_len c2.rev c2.rev_len p1.rev_slice p2.rev_slice,
)

coarse_cmp_same : (c : Coarse) → IsParsed c → coarse_cmp c c ≡ ver_eq
unfolding coarse_cmp
coarse_cmp_same c p = ground (
  arith,
  cmp_verstr_same c.upstream c.us_len p.us_slice,
  cmp_verstr_same c.rev c.rev_len p.rev_slice,
)

version_cmp_fails :
    (v1 v2 : Bytes)
    → (parse_coarse v1 ≡ none) ⊎ (parse_coarse v2 ≡ none)
    → version_cmp v1 v2 ≡ ver_failed
unfolding version_cmp
version_cmp_fails v1 v2 h = ground arith

-- Swapping the arguments of `version_cmp` flips its result, for any two strings: it fails on both
-- orders or on neither, and `VER_LT` and `VER_GT` change places.
pub version_cmp_flipped :
    (v1 v2 : Bytes)
    → IsCString v1
    → IsCString v2
    → version_cmp v2 v1 ≡ vercmp_flip (version_cmp v1 v2)
version_cmp_flipped v1 v2 s1 s2 = elim (Option-cases (parse_coarse v1)) [
  | inl bad ↦ ground (arith, version_cmp_fails v1 v2 (inl bad), version_cmp_fails v2 v1 (inr bad))
  | inr (c1, h1) ↦ elim (Option-cases (parse_coarse v2)) [
    | inl bad ↦ ground (arith, version_cmp_fails v1 v2 (inr bad), version_cmp_fails v2 v1 (inl bad))
    | inr (c2, h2) ↦
        rw (coarse_cmp_lem v1 v2 h1 h2, coarse_cmp_lem v2 v1 h2 h1)
          (coarse_cmp_flipped c1 c2 (parse_coarse-IsParsed v1 s1 h1)
            (parse_coarse-IsParsed v2 s2 h2))
  ]
]

-- A version number that `parse_coarse` accepts equals itself.
pub version_cmp_same :
    (v : Bytes) {c : Coarse} → IsCString v → parse_coarse v ≡ some c → version_cmp v v ≡ ver_eq
version_cmp_same v {c} s h =
    coarse_cmp_lem v v h h ∙ coarse_cmp_same c (parse_coarse-IsParsed v s h)

pub VercmpResult-cases :
    (r : VercmpResult) → (r ≡ ver_lt) ⊎ (r ≡ ver_eq) ⊎ (r ≡ ver_gt) ⊎ (r ≡ ver_failed)
VercmpResult-cases ver_lt = inl refl
VercmpResult-cases ver_eq = inr (inl refl)
VercmpResult-cases ver_gt = inr (inr (inl refl))
VercmpResult-cases ver_failed = inr (inr (inr refl))

abbrev pub AtMost : VercmpResult → Type 0
AtMost r = (r ≡ ver_lt) ⊎ (r ≡ ver_eq)

vercmp_result_trans {ℓ} :
    {A : Type ℓ} {cmp : A → A → Ordering} (o : IsOrder cmp) (a b c : A)
    → AtMost (vercmp_result (cmp a b))
    → AtMost (vercmp_result (cmp b c))
    → AtMost (vercmp_result (cmp a c))
      × (vercmp_result (cmp a c) ≡ ver_eq
          → (vercmp_result (cmp a b) ≡ ver_eq) × (vercmp_result (cmp b c) ≡ ver_eq))
vercmp_result_trans o a b c h k = ground (
  arith,
  o.trans a b c,
  o.eq_only a b,
  o.eq_only b c,
  o.eq_only a c,
  o.flipped a b,
  o.same c,
  o.same b,
)

-- Among version numbers with an upstream part, "less than or equal" is transitive, and the ends
-- are equal only if both steps are.
pub version_cmp_trans :
    (v1 v2 v3 : Bytes) {c1 c2 c3 : Coarse}
    → IsCString v1
    → IsCString v2
    → IsCString v3
    → parse_coarse v1 ≡ some c1
    → parse_coarse v2 ≡ some c2
    → parse_coarse v3 ≡ some c3
    → 0 < c1.us_len
    → 0 < c2.us_len
    → 0 < c3.us_len
    → AtMost (version_cmp v1 v2)
    → AtMost (version_cmp v2 v3)
    → AtMost (version_cmp v1 v3)
      × (version_cmp v1 v3 ≡ ver_eq → (version_cmp v1 v2 ≡ ver_eq) × (version_cmp v2 v3 ≡ ver_eq))
version_cmp_trans v1 v2 v3 {c1} {c2} {c3} s1 s2 s3 h1 h2 h3 n1 n2 n3 =
    rw
      (
        version_cmp-key v1 v2 s1 s2 h1 h2 (omega arith),
        version_cmp-key v2 v3 s2 s3 h2 h3 (omega arith),
        version_cmp-key v1 v3 s1 s3 h1 h3 (omega arith),
      )
      (vercmp_result_trans cmp_keys-IsOrder (sort_key c1) (sort_key c2) (sort_key c3))
