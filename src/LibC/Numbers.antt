-- ===== src/LibC/Numbers.antt =====
-- Facts about `strtoul` on digits.
use static_distro.LibC.{
  isdigit, isspace, span_len, digits_value, strtoul, convert, convert_signed, ulong_mod,
}
use static_distro.Shared.{
  ℕ, suc, ◌+◌, ◌-◌, ◌*◌, ◌%◌, ◌<◌, ◌≡◌, refl, Bool, true, false, [], ◌∷◌, ◌++◌, arith, Bool-cases,
  subst, ap, inl, inr, ◌∙◌, length, all, Bytes,
}

-- The last byte, or `prev` where there is none, is not a digit.
abbrev pub EndsOther : Bool → Bytes → Type 0
EndsOther prev [] = prev ≡ false
EndsOther prev (c ∷ u) = EndsOther (isdigit c) u

span_len-prefix :
    (u t t' : Bytes) → EndsOther true u → span_len isdigit (u ++ t) ≡ span_len isdigit (u ++ t')
unfolding span_len
span_len-prefix [] t t' h = cc
span_len-prefix (c ∷ u) t t' h = elim (Bool-cases (isdigit c)) [
  | inl d ↦ rw d (ap suc (span_len-prefix u t t' (subst (λ b. EndsOther b u) d h)))
  | inr d ↦ rw d
]

digits_value-prefix :
    (acc : ℕ) (u t t' : Bytes)
    → EndsOther true u
    → digits_value acc (u ++ t) ≡ digits_value acc (u ++ t')
unfolding digits_value
digits_value-prefix acc [] t t' h = cc
digits_value-prefix acc (c ∷ u) t t' h = elim (Bool-cases (isdigit c)) [
  | inl d ↦
      rw d (digits_value-prefix (10 * acc + (c - b'0')) u t t' (subst (λ b. EndsOther b u) d h))
  | inr d ↦ rw d
]

no_blank : (c : ℕ) (s : Bytes) → isspace c ≡ false → strtoul (c ∷ s) ≡ convert_signed 0 (c ∷ s)
unfolding strtoul
no_blank c s h = rw none_skipped
  where
    none_skipped : span_len isspace (c ∷ s) ≡ 0
    none_skipped = unfold span_len in rw h

strtoul-convert : (c : ℕ) (s : Bytes) → isdigit c ≡ true → strtoul (c ∷ s) ≡ convert false 0 (c ∷ s)
unfolding convert_signed isdigit
strtoul-convert c s h = no_blank c s (unfold isspace in ground arith) ∙ ground arith

pub strtoul-prefix :
    (c : ℕ) (u t t' : Bytes)
    → isdigit c ≡ true
    → EndsOther true u
    → (strtoul (c ∷ (u ++ t))).value ≡ (strtoul (c ∷ (u ++ t'))).value
strtoul-prefix c u t t' d h =
    rw (strtoul-convert c (u ++ t) d, strtoul-convert c (u ++ t') d)
      (unfold convert in
        rw (span_len-prefix (c ∷ u) t t' (rw d h), digits_value-prefix 0 (c ∷ u) t t' (rw d h)))

span_len-digits : (r : Bytes) → all isdigit r ≡ true → span_len isdigit r ≡ length r
unfolding span_len
span_len-digits [] h = refl
span_len-digits (c ∷ r) h = ground (arith, span_len-digits r)

-- A hyphen in front of digits is read as a minus sign.
pub strtoul_negative :
    (c : ℕ) (r : Bytes)
    → all isdigit (c ∷ r) ≡ true
    → digits_value 0 (c ∷ r) < ulong_mod
    → (strtoul (b'-' ∷ c ∷ r)).value ≡ (ulong_mod - digits_value 0 (c ∷ r)) % ulong_mod
strtoul_negative c r d h =
    rw (no_blank b'-' (c ∷ r) (unfold isspace in refl))
      (unfold convert_signed convert in ground (arith, span_len-digits (c ∷ r)))

pub strtoul_digits :
    (c : ℕ) (r : Bytes)
    → all isdigit (c ∷ r) ≡ true
    → digits_value 0 (c ∷ r) < ulong_mod
    → (strtoul (c ∷ r)).value ≡ digits_value 0 (c ∷ r)
strtoul_digits c r d h =
    rw (strtoul-convert c r (unfold isdigit in ground arith))
      (unfold convert in ground (arith, span_len-digits (c ∷ r)))
