-- ===== src/Version/Loop.antt =====
-- The loop of `cmp_verstr` in tools/version.c: its fuel is enough, and it compares sort keys.
use static_distro.LibC.{isdigit, strtoul}
use static_distro.Shared.{
  ℕ, zero, suc, ◌+◌, ◌-◌, ◌≤◌, ◌<◌, compare, Ordering, ◌≡◌, ◌≢◌, inl, inr, refl, sym, ap, ◌∙◌, true,
  false, ◌&&◌, [], ◌∷◌, ◌++◌, arith, Bool-cases, ◌==◌, if◌then◌else◌, drop, Bytes,
}
use native.Mathlib.Nat.{sub-zero}
use static_distro.Shared.Order.{lex, then_cmp}
use static_distro.Version.Chars.{rank, rank_injective, cmp_verchar-rank}
use static_distro.Version.Key.{
  Slice, key, ranks, run_len-le, AtBreak, key-run_false, key-run_true, AtBreak-after_digits,
  ranks-cmp_nondig, Slice-drop, Slice-take,
}
use static_distro.Version.{
  char_at, cmp_nondig, cmp_dig, run_len, verstr_round, verstr_loop, cmp_verstr,
}

-- A byte of a slice is in the first run of other bytes, or in the run of digits behind it.
run_len_pos :
    (s : Bytes) (n : ℕ)
    → 0 < n
    → 0 < run_len false s n + run_len true (drop (run_len false s n) s) (n - run_len false s n)
unfolding run_len
run_len_pos s zero h = absurd (omega arith)
run_len_pos s (suc n) h = elim (Bool-cases (isdigit (char_at s))) [
  | inl d ↦ rw d (rw (sub-zero, run_len, d) (omega arith))
  | inr d ↦ rw d (omega arith)
]

-- What one round leaves of the two slices.
abbrev left : Bytes → ℕ → ℕ
left s n = n - run_len false s n - run_len true (drop (run_len false s n) s) (n - run_len false s n)

abbrev rest : Bytes → ℕ → Bytes
rest s n =
    drop (run_len true (drop (run_len false s n) s) (n - run_len false s n))
      (drop (run_len false s n) s)

left-lt : (s : Bytes) (n : ℕ) → 0 < n → left s n < n
left-lt s n h = omega (
  arith,
  run_len_pos s n h,
  run_len-le false s n,
  run_len-le true (drop (run_len false s n) s) (n - run_len false s n),
)

left-le : (s : Bytes) (n : ℕ) → left s n ≤ n
left-le s n = omega arith

-- One round: the runs of other bytes decide, then the runs of digits, then what follows.
verstr_round_lem :
    (f : Bytes → ℕ → Bytes → ℕ → Ordering) (s1 : Bytes) (n1 : ℕ) (s2 : Bytes) (n2 : ℕ)
    → verstr_round f s1 n1 s2 n2
      ≡ then_cmp (cmp_nondig s1 (run_len false s1 n1) s2 (run_len false s2 n2)) (
          then_cmp
            (compare
              (strtoul (drop (run_len false s1 n1) s1)).value
              (strtoul (drop (run_len false s2 n2) s2)).value)
            (f (rest s1 n1) (left s1 n1) (rest s2 n2) (left s2 n2)))
unfolding verstr_round cmp_dig
verstr_round_lem f s1 n1 s2 n2 = ground arith

verstr_round-next :
    (f g : Bytes → ℕ → Bytes → ℕ → Ordering) (s1 : Bytes) (n1 : ℕ) (s2 : Bytes) (n2 : ℕ)
    → f (rest s1 n1) (left s1 n1) (rest s2 n2) (left s2 n2)
      ≡ g (rest s1 n1) (left s1 n1) (rest s2 n2) (left s2 n2)
    → verstr_round f s1 n1 s2 n2 ≡ verstr_round g s1 n1 s2 n2
verstr_round-next f g s1 n1 s2 n2 h =
    verstr_round_lem f s1 n1 s2 n2 ∙ rw h (sym (verstr_round_lem g s1 n1 s2 n2))

left_falls :
    (s1 : Bytes) (n1 : ℕ) (s2 : Bytes) (n2 : ℕ)
    → (n1 == 0 && n2 == 0) ≡ false
    → left s1 n1 + left s2 n2 < n1 + n2
left_falls s1 zero s2 zero h = cc
left_falls s1 zero s2 (suc n2) h = omega (arith, left-le s1 0, left-lt s2 (suc n2))
left_falls s1 (suc n1) s2 n2 h = omega (arith, left-lt s1 (suc n1), left-le s2 n2)

verstr_loop-fuel :
    (f g : ℕ) (s1 : Bytes) (n1 : ℕ) (s2 : Bytes) (n2 : ℕ)
    → n1 + n2 ≤ f
    → n1 + n2 ≤ g
    → verstr_loop f s1 n1 s2 n2 ≡ verstr_loop g s1 n1 s2 n2
unfolding verstr_loop
verstr_loop-fuel zero zero s1 n1 s2 n2 h k = refl
verstr_loop-fuel zero (suc g) s1 n1 s2 n2 h k = ground arith
verstr_loop-fuel (suc f) zero s1 n1 s2 n2 h k = ground arith
verstr_loop-fuel (suc f) (suc g) s1 n1 s2 n2 h k = elim (Bool-cases (n1 == 0 && n2 == 0)) [
  | inl done ↦ rw done
  | inr more ↦ rw more (
      verstr_round-next (verstr_loop f) (verstr_loop g) s1 n1 s2 n2 (
        verstr_loop-fuel f g (rest s1 n1) (left s1 n1) (rest s2 n2) (left s2 n2)
          (omega (arith, left_falls s1 n1 s2 n2 more))
          (omega (arith, left_falls s1 n1 s2 n2 more))))
]

-- The loop without fuel: `cmp_verstr` stops when both slices are used up, and otherwise makes a
-- round of the loop's body and goes on as `cmp_verstr` from the positions that the round reached.
pub cmp_verstr_lem :
    (s1 : Bytes) (n1 : ℕ) (s2 : Bytes) (n2 : ℕ)
    → cmp_verstr s1 n1 s2 n2
      ≡ (if n1 == 0 && n2 == 0 then Ordering.eq else verstr_round cmp_verstr s1 n1 s2 n2)
unfolding cmp_verstr verstr_loop
cmp_verstr_lem s1 n1 s2 n2 = elim (Bool-cases (n1 == 0 && n2 == 0)) [
  | inl done ↦
      verstr_loop-fuel (n1 + n2) (suc (n1 + n2)) s1 n1 s2 n2 (omega arith) (omega arith)
      ∙ rw (verstr_loop, done)
  | inr more ↦
      verstr_loop-fuel (n1 + n2) (suc (n1 + n2)) s1 n1 s2 n2 (omega arith) (omega arith)
      ∙ rw (verstr_loop, more)
          (verstr_round-next (verstr_loop (n1 + n2)) cmp_verstr s1 n1 s2 n2 (
            verstr_loop-fuel (n1 + n2) (left s1 n1 + left s2 n2) (rest s1 n1) (left s1 n1)
              (rest s2 n2) (left s2 n2) (omega (arith, left_falls s1 n1 s2 n2 more)) (omega arith)))
]

key-parts :
    (s : Bytes) (n : ℕ)
    → key false s n
      ≡ ranks s (run_len false s n)
        ++ (rank 0 ∷ (strtoul (drop (run_len false s n) s)).value ∷ key true (rest s n) (left s n))
key-parts s n =
    key-run_false s n
    ∙ ap
        (λ k.
          ranks s (run_len false s n)
          ++ (rank 0 ∷ (strtoul (drop (run_len false s n) s)).value ∷ k))
        (key-run_true (drop (run_len false s n) s) (n - run_len false s n))

Slice-run : (s : Bytes) (n : ℕ) → Slice s n → Slice s (run_len false s n)
Slice-run s n h = Slice-take s n (run_len false s n) (run_len-le false s n) h

Slice-rest : (s : Bytes) (n : ℕ) → Slice s n → Slice (rest s n) (left s n)
Slice-rest s n h =
    Slice-drop (drop (run_len false s n) s) (n - run_len false s n)
      (run_len true (drop (run_len false s n) s) (n - run_len false s n))
      (run_len-le true (drop (run_len false s n) s) (n - run_len false s n))
      (Slice-drop s n (run_len false s n) (run_len-le false s n) h)

AtBreak-rest : (s : Bytes) (n : ℕ) → AtBreak (rest s n) (left s n)
AtBreak-rest s n = AtBreak-after_digits (drop (run_len false s n) s) (n - run_len false s n)

-- A round compares the keys, if what it goes on to compares the keys of what is left.
round-key :
    (f : Bytes → ℕ → Bytes → ℕ → Ordering) (s1 : Bytes) (n1 : ℕ) (s2 : Bytes) (n2 : ℕ)
    → Slice s1 n1
    → Slice s2 n2
    → f (rest s1 n1) (left s1 n1) (rest s2 n2) (left s2 n2)
      ≡ lex compare (key true (rest s1 n1) (left s1 n1)) (key true (rest s2 n2) (left s2 n2))
    → verstr_round f s1 n1 s2 n2 ≡ lex compare (key false s1 n1) (key false s2 n2)
unfolding lex
round-key f s1 n1 s2 n2 h1 h2 next =
    verstr_round_lem f s1 n1 s2 n2
    ∙ rw (key-parts s1 n1, key-parts s2 n2)
        (rw
          (ranks-cmp_nondig s1 (run_len false s1 n1) s2 (run_len false s2 n2) _ _
            (Slice-run s1 n1 h1) (Slice-run s2 n2 h2))
          (rw next))

-- Behind a digit the keys of two nonempty slices are those of slices read from a new start.
key-AtBreak : (s : Bytes) (n : ℕ) → AtBreak s (suc n) → key true s (suc n) ≡ key false s (suc n)
unfolding key
key-AtBreak s n b = rw b

-- Where one slice is used up and the other goes on behind a digit, its first byte decides.
round_used_left :
    (f : Bytes → ℕ → Bytes → ℕ → Ordering) (s1 : Bytes) (c : ℕ) (s2 : Bytes) (n2 : ℕ)
    → c ≢ 0
    → isdigit c ≡ false
    → verstr_round f s1 0 (c ∷ s2) (suc n2)
      ≡ lex compare (key true s1 0) (key true (c ∷ s2) (suc n2))
unfolding run_len cmp_nondig lex key
round_used_left f s1 c s2 n2 z d =
    verstr_round_lem f s1 0 (c ∷ s2) (suc n2)
    ∙ ground (arith, cmp_verchar-rank 0 c, rank_injective 0 c)

round_used_right :
    (f : Bytes → ℕ → Bytes → ℕ → Ordering) (c : ℕ) (s1 : Bytes) (n1 : ℕ) (s2 : Bytes)
    → c ≢ 0
    → isdigit c ≡ false
    → verstr_round f (c ∷ s1) (suc n1) s2 0
      ≡ lex compare (key true (c ∷ s1) (suc n1)) (key true s2 0)
unfolding run_len cmp_nondig lex key
round_used_right f c s1 n1 s2 z d =
    verstr_round_lem f (c ∷ s1) (suc n1) s2 0
    ∙ ground (arith, cmp_verchar-rank c 0, rank_injective c 0)

verstr_loop-more :
    (f : ℕ) (s1 : Bytes) (n1 : ℕ) (s2 : Bytes) (n2 : ℕ)
    → 0 < n1 + n2
    → verstr_loop (suc f) s1 n1 s2 n2 ≡ verstr_round (verstr_loop f) s1 n1 s2 n2
unfolding verstr_loop
verstr_loop-more f s1 n1 s2 n2 h = ground arith

loop-key :
    (f : ℕ) (s1 : Bytes) (n1 : ℕ) (s2 : Bytes) (n2 : ℕ)
    → n1 + n2 ≤ f
    → Slice s1 n1
    → Slice s2 n2
    → AtBreak s1 n1
    → AtBreak s2 n2
    → verstr_loop f s1 n1 s2 n2 ≡ lex compare (key true s1 n1) (key true s2 n2)
loop-key zero s1 zero s2 zero h t1 t2 b1 b2 = unfold verstr_loop lex key in ground arith
loop-key (suc f) s1 zero s2 zero h t1 t2 b1 b2 = unfold verstr_loop lex key in ground arith
loop-key zero s1 (suc n1) s2 n2 h t1 t2 b1 b2 = absurd (omega arith)
loop-key zero s1 zero s2 (suc n2) h t1 t2 b1 b2 = absurd (omega arith)
loop-key (suc f) s1 zero [] (suc n2) h t1 t2 b1 b2 = absurd t2
loop-key (suc f) s1 zero (c ∷ s2) (suc n2) h t1 t2 b1 b2 =
    verstr_loop-more f s1 0 (c ∷ s2) (suc n2) (omega arith)
    ∙ round_used_left (verstr_loop f) s1 c s2 n2 t2.0 b2
loop-key (suc f) [] (suc n1) s2 zero h t1 t2 b1 b2 = absurd t1
loop-key (suc f) (c ∷ s1) (suc n1) s2 zero h t1 t2 b1 b2 =
    verstr_loop-more f (c ∷ s1) (suc n1) s2 0 (omega arith)
    ∙ round_used_right (verstr_loop f) c s1 n1 s2 t1.0 b1
loop-key (suc f) s1 (suc n1) s2 (suc n2) h t1 t2 b1 b2 =
    verstr_loop-more f s1 (suc n1) s2 (suc n2) (omega arith)
    ∙ rw (key-AtBreak s1 n1 b1, key-AtBreak s2 n2 b2)
        (round-key (verstr_loop f) s1 (suc n1) s2 (suc n2) t1 t2 (
          loop-key f (rest s1 (suc n1)) (left s1 (suc n1)) (rest s2 (suc n2)) (left s2 (suc n2))
            (omega (arith, left_falls s1 (suc n1) s2 (suc n2) (ground arith)))
            (Slice-rest s1 (suc n1) t1) (Slice-rest s2 (suc n2) t2) (AtBreak-rest s1 (suc n1))
            (AtBreak-rest s2 (suc n2))))

-- Unless both slices are empty, `cmp_verstr` is the lexicographic order of the sort keys.
pub cmp_verstr-key :
    (s1 : Bytes) (n1 : ℕ) (s2 : Bytes) (n2 : ℕ)
    → Slice s1 n1
    → Slice s2 n2
    → 0 < n1 + n2
    → cmp_verstr s1 n1 s2 n2 ≡ lex compare (key false s1 n1) (key false s2 n2)
cmp_verstr-key s1 n1 s2 n2 t1 t2 h =
    cmp_verstr_lem s1 n1 s2 n2
    ∙ rw some_left (
        round-key cmp_verstr s1 n1 s2 n2 t1 t2 (
          unfold cmp_verstr in
          loop-key (left s1 n1 + left s2 n2) (rest s1 n1) (left s1 n1) (rest s2 n2) (left s2 n2)
            (omega arith) (Slice-rest s1 n1 t1) (Slice-rest s2 n2 t2) (AtBreak-rest s1 n1)
            (AtBreak-rest s2 n2)))
  where
    some_left : (n1 == 0 && n2 == 0) ≡ false
    some_left = ground arith
