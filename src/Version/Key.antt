-- ===== src/Version/Key.antt =====
-- The sort key of a slice of a version number, and `cmp_verstr` of tools/version.c against the
-- lexicographic order of keys.
use static_distro.LibC.{isdigit, strtoul}
use static_distro.Shared.{
  ℕ, zero, suc, ◌-◌, ◌≤◌, compare, ◌≡◌, ◌≢◌, inl, inr, refl, ap, Bool, true, false, List, [], ◌∷◌,
  ◌++◌, arith, Bool-cases, if◌then◌else◌, drop, Bytes,
}
use native.Mathlib.Nat.{sub-zero, suc-sub-suc}
use static_distro.Shared.Order.{lex, then_cmp}
use static_distro.Version.Chars.{rank, rank_injective, cmp_verchar-rank}
use static_distro.Version.{char_at, cmp_nondig, run_len}

-- A slice lies within its string and holds no NUL.
abbrev pub Slice : Bytes → ℕ → Type 0
Slice s zero = Unit
Slice [] (suc n) = ⊥
Slice (c ∷ s) (suc n) = (c ≢ 0) × Slice s n

-- Key of a slice read from left to right; `digit` says that the byte before it was a digit. A run
-- of other bytes becomes the ranks of its bytes and of NUL, a run of digits becomes its number.
-- Behind a run of other bytes that ends the slice stands the number that `strtoull` reads there.
unfoldable pub key : Bool → Bytes → ℕ → List ℕ
key true s zero = rank 0 ∷ []
key false s zero = rank 0 ∷ (strtoul s).value ∷ rank 0 ∷ []
key true s (suc n) =
    let skip = key true (drop 1 s) n in
    let other = rank (char_at s) ∷ key false (drop 1 s) n in
    if isdigit (char_at s) then skip else other
key false s (suc n) =
    let number = rank 0 ∷ (strtoul s).value ∷ key true (drop 1 s) n in
    let other = rank (char_at s) ∷ key false (drop 1 s) n in
    if isdigit (char_at s) then number else other

abbrev pub ranks : Bytes → ℕ → List ℕ
ranks s zero = []
ranks s (suc n) = rank (char_at s) ∷ ranks (drop 1 s) n

pub run_len-le : (d : Bool) (s : Bytes) (n : ℕ) → run_len d s n ≤ n
unfolding run_len
run_len-le d s zero = omega arith
run_len-le d s (suc n) = ground (arith, run_len-le d (drop 1 s) n)

-- A slice that starts with another byte than a digit, or is empty.
abbrev pub AtBreak : Bytes → ℕ → Type 0
AtBreak s zero = Unit
AtBreak s (suc n) = isdigit (char_at s) ≡ false

drop-drop_one : (a : ℕ) (s : Bytes) → drop (suc a) s ≡ drop a (drop 1 s)
drop-drop_one zero [] = refl
drop-drop_one (suc a) [] = refl
drop-drop_one a (c ∷ s) = refl

pub key-run_false :
    (s : Bytes) (n : ℕ)
    → key false s n
      ≡ ranks s (run_len false s n)
        ++ (rank 0
            ∷ (strtoul (drop (run_len false s n) s)).value
            ∷ key true (drop (run_len false s n) s) (n - run_len false s n))
unfolding key run_len
key-run_false s zero = refl
key-run_false s (suc n) = elim (Bool-cases (isdigit (char_at s))) [
  | inl d ↦ rw d (rw (sub-zero, key, d))
  | inr d ↦ rw d (
      rw (drop-drop_one (run_len false (drop 1 s) n) s)
        (rw suc-sub-suc (ap (◌∷◌ (rank (char_at s))) (key-run_false (drop 1 s) n))))
]

pub key-run_true :
    (s : Bytes) (n : ℕ) → key true s n ≡ key true (drop (run_len true s n) s) (n - run_len true s n)
unfolding key run_len
key-run_true s zero = refl
key-run_true s (suc n) = elim (Bool-cases (isdigit (char_at s))) [
  | inl d ↦ rw d (
      rw (drop-drop_one (run_len true (drop 1 s) n) s) (rw suc-sub-suc (key-run_true (drop 1 s) n)))
  | inr d ↦ rw d (rw (sub-zero, key, d))
]

pub AtBreak-after_digits :
    (s : Bytes) (n : ℕ) → AtBreak (drop (run_len true s n) s) (n - run_len true s n)
unfolding run_len
AtBreak-after_digits s zero = tt
AtBreak-after_digits s (suc n) = elim (Bool-cases (isdigit (char_at s))) [
  | inl d ↦ rw d (
      rw (drop-drop_one (run_len true (drop 1 s) n) s)
        (rw suc-sub-suc (AtBreak-after_digits (drop 1 s) n)))
  | inr d ↦ rw d (rw sub-zero d)
]

-- The other bytes of two slices, with the NUL that ends them, compared by rank.
pub ranks-cmp_nondig :
    (s1 : Bytes) (a1 : ℕ) (s2 : Bytes) (a2 : ℕ) (k1 k2 : List ℕ)
    → Slice s1 a1
    → Slice s2 a2
    → lex compare (ranks s1 a1 ++ (rank 0 ∷ k1)) (ranks s2 a2 ++ (rank 0 ∷ k2))
      ≡ then_cmp (cmp_nondig s1 a1 s2 a2) (lex compare k1 k2)
unfolding cmp_nondig lex
ranks-cmp_nondig s1 zero s2 zero k1 k2 h1 h2 = ground arith
ranks-cmp_nondig s1 zero [] (suc a2) k1 k2 h1 h2 = absurd h2
ranks-cmp_nondig s1 zero (c ∷ s2) (suc a2) k1 k2 h1 h2 =
    ground (arith, cmp_verchar-rank 0 c, rank_injective 0 c)
ranks-cmp_nondig [] (suc a1) s2 zero k1 k2 h1 h2 = absurd h1
ranks-cmp_nondig (c ∷ s1) (suc a1) s2 zero k1 k2 h1 h2 =
    ground (arith, cmp_verchar-rank c 0, rank_injective c 0)
ranks-cmp_nondig [] (suc a1) s2 (suc a2) k1 k2 h1 h2 = absurd h1
ranks-cmp_nondig (c ∷ s1) (suc a1) [] (suc a2) k1 k2 h1 h2 = absurd h2
ranks-cmp_nondig (c ∷ s1) (suc a1) (d ∷ s2) (suc a2) k1 k2 h1 h2 =
    ground (arith, cmp_verchar-rank c d, ranks-cmp_nondig s1 a1 s2 a2 k1 k2 h1.1 h2.1)

pub Slice-take : (s : Bytes) (n a : ℕ) → a ≤ n → Slice s n → Slice s a
Slice-take s n zero h t = tt
Slice-take s zero (suc a) h t = absurd (omega arith)
Slice-take [] (suc n) (suc a) h t = t
Slice-take (c ∷ s) (suc n) (suc a) h t = (t.0, Slice-take s n a (omega arith) t.1)

pub Slice-drop : (s : Bytes) (n a : ℕ) → a ≤ n → Slice s n → Slice (drop a s) (n - a)
Slice-drop s n zero h t = rw sub-zero t
Slice-drop s zero (suc a) h t = absurd (omega arith)
Slice-drop [] (suc n) (suc a) h t = absurd t
Slice-drop (c ∷ s) (suc n) (suc a) h t = rw suc-sub-suc (Slice-drop s n a (omega arith) t.1)
