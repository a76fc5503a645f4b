-- ===== src/LibC/Search.antt =====
-- Facts about `strchr` and about positions in byte strings.
use native.Mathlib.Nat.{suc-sub-suc, sub-zero}
use static_distro.LibC.{strchr}
use static_distro.Shared.{
  ℕ, zero, suc, ◌-◌, ◌≤◌, ◌<◌, ◌≡◌, ◌≢◌, refl, ap, Bool, true, List, [], ◌∷◌, ◌++◌, none, some,
  arith, Option-cases, length, get_elem?, drop, take, all, All, Bytes, get_elem?-lt,
}

pub strchr-get_elem? : (s : Bytes) (c i : ℕ) → strchr s c ≡ some i → get_elem? s i ≡ some c
unfolding strchr
strchr-get_elem? [] c i h = cc
strchr-get_elem? (x ∷ s) c zero h = ground (arith, Option-cases (strchr s c))
strchr-get_elem? (x ∷ s) c (suc i) h =
    ground (arith, Option-cases (strchr s c), strchr-get_elem? s c i)

pub strchr-lt : (s : Bytes) (c i : ℕ) → strchr s c ≡ some i → i < length s
strchr-lt s c i h = get_elem?-lt s i (strchr-get_elem? s c i h)

pub get_elem?-drop {ℓ} :
    {A : Type ℓ} (n i : ℕ) (xs : List A) → n ≤ i → get_elem? (drop n xs) (i - n) ≡ get_elem? xs i
get_elem?-drop zero i xs h = rw sub-zero
get_elem?-drop (suc n) zero xs h = absurd (omega arith)
get_elem?-drop (suc n) (suc i) [] h = refl
get_elem?-drop (suc n) (suc i) (x ∷ xs) h = rw suc-sub-suc (get_elem?-drop n i xs (omega arith))

all-tail {ℓ} :
    {A : Type ℓ} (p : A → Bool) (x : A) (xs : List A) → all p (x ∷ xs) ≡ true → all p xs ≡ true
all-tail p x xs h = ground arith

pub all-get_elem? {ℓ} :
    {A : Type ℓ} (p : A → Bool) (xs : List A) (i : ℕ) {x : A}
    → all p xs ≡ true
    → get_elem? xs i ≡ some x
    → p x ≡ true
all-get_elem? p [] i h e = cc
all-get_elem? p (y ∷ xs) zero h e = ground arith
all-get_elem? p (y ∷ xs) (suc i) h e = all-get_elem? p xs i (all-tail p y xs h) e

pub length-drop {ℓ} : {A : Type ℓ} (n : ℕ) (xs : List A) → length (drop n xs) ≡ length xs - n
length-drop zero xs = omega arith
length-drop (suc n) [] = omega arith
length-drop (suc n) (x ∷ xs) = omega (arith, length-drop n xs)

-- A string that holds the byte is not found short of it.
pub strchr-append :
    (s t : Bytes) (c : ℕ) → All (λ x. x ≢ c) s → strchr (s ++ (c ∷ t)) c ≡ some (length s)
unfolding strchr
strchr-append [] t c h = ground arith
strchr-append (x ∷ s) t c h = ground (arith, strchr-append s t c h.1)

pub strchr-none : (s : Bytes) (c : ℕ) → All (λ x. x ≢ c) s → strchr s c ≡ none
unfolding strchr
strchr-none [] c h = refl
strchr-none (x ∷ s) c h = ground (arith, strchr-none s c h.1)

pub drop-length {ℓ} : {A : Type ℓ} (s t : List A) → drop (length s) (s ++ t) ≡ t
drop-length [] t = refl
drop-length (x ∷ s) t = drop-length s t

pub take-length {ℓ} : {A : Type ℓ} (s t : List A) → take (length s) (s ++ t) ≡ s
take-length [] t = refl
take-length (x ∷ s) t = ap (◌∷◌ x) (take-length s t)

pub drop_all {ℓ} : {A : Type ℓ} (xs : List A) (n : ℕ) → length xs ≤ n → drop n xs ≡ []
drop_all [] zero h = refl
drop_all [] (suc n) h = refl
drop_all (x ∷ xs) zero h = absurd (omega arith)
drop_all (x ∷ xs) (suc n) h = drop_all xs n (omega arith)

pub drop-drop {ℓ} :
    {A : Type ℓ} (a b : ℕ) (xs : List A) → a ≤ b → drop (b - a) (drop a xs) ≡ drop b xs
drop-drop zero b xs h = rw sub-zero
drop-drop (suc a) zero xs h = absurd (omega arith)
drop-drop (suc a) (suc b) [] h = drop_all [] (suc b - suc a) (omega arith)
drop-drop (suc a) (suc b) (x ∷ xs) h = rw suc-sub-suc (drop-drop a b xs (omega arith))

pub drop-get_elem? {ℓ} :
    {A : Type ℓ} (xs : List A) (i : ℕ) {x : A}
    → get_elem? xs i ≡ some x
    → drop i xs ≡ x ∷ drop (suc i) xs
drop-get_elem? [] i h = cc
drop-get_elem? (y ∷ xs) zero h = cc
drop-get_elem? (y ∷ xs) (suc i) h = drop-get_elem? xs i h

pub drop-suc-length {ℓ} :
    {A : Type ℓ} (s : List A) (c : A) (t : List A) → drop (suc (length s)) (s ++ (c ∷ t)) ≡ t
drop-suc-length [] c t = refl
drop-suc-length (x ∷ s) c t = drop-suc-length s c t
