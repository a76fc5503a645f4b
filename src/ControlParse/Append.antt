-- ===== src/ControlParse/Append.antt =====
-- Where tools/controlparse.c appends fields and lines: at the end of the last paragraph.
use static_distro.ControlParse.{Field, Para, no_field, added, add_field, add_line_to, add_line}
use static_distro.Shared.{◌≡◌, refl, ap, List, [], ◌∷◌, ◌++◌, some, All, Bytes}

pub add_field-append :
    (ps : List Para) (p : Para) (f : Field)
    → add_field (ps ++ (p ∷ [])) f ≡ some (ps ++ (record { fields = p.fields ++ (f ∷ []) } ∷ []))
unfolding add_field
add_field-append [] p f = refl
add_field-append (q ∷ []) p f = refl
add_field-append (q ∷ r ∷ ps) p f = rw (add_field-append (r ∷ ps) p f)

pub add_line_to-append :
    (fs : List Field) (f : Field) (line : Bytes)
    → add_line_to (fs ++ (f ∷ [])) line
      ≡ some (fs ++ (record f { lines = f.lines ++ (line ∷ []) } ∷ []))
unfolding add_line_to
add_line_to-append [] f line = refl
add_line_to-append (g ∷ []) f line = refl
add_line_to-append (g ∷ h ∷ fs) f line = rw (add_line_to-append (h ∷ fs) f line)

pub add_line-append :
    (ps : List Para) (p : Para) (line : Bytes) (fs : List Field)
    → add_line_to p.fields line ≡ some fs
    → add_line (ps ++ (p ∷ [])) line ≡ added (ps ++ (record { fields = fs } ∷ []))
unfolding add_line
add_line-append [] p line fs e = rw (e, add_line)
add_line-append (q ∷ []) p line fs e = rw (e, add_line)
add_line-append (q ∷ r ∷ ps) p line fs e = rw (add_line-append (r ∷ ps) p line fs e)

pub add_line-no_field :
    (ps : List Para) (line : Bytes) → add_line (ps ++ (record { fields = [] } ∷ [])) line ≡ no_field
unfolding add_line add_line_to
add_line-no_field [] line = refl
add_line-no_field (q ∷ []) line = refl
add_line-no_field (q ∷ r ∷ ps) line = rw (add_line-no_field (r ∷ ps) line)

-- A list that is not empty ends in an element.
pub unsnoc {ℓ} :
    {A : Type ℓ} (x : A) (xs : List A) → (ys : List A) × (y : A) × (x ∷ xs ≡ ys ++ (y ∷ []))
unsnoc x [] = ([], x, refl)
unsnoc x (x' ∷ xs) = let (ys, y, e) = unsnoc x' xs in (x ∷ ys, y, ap (◌∷◌ x) e)

pub All-append {ℓ κ} :
    {A : Type ℓ} (P : A → Type κ) (xs ys : List A) → All P xs → All P ys → All P (xs ++ ys)
All-append P [] ys h k = k
All-append P (x ∷ xs) ys (a, h) k = (a, All-append P xs ys h k)

pub All-init {ℓ κ} : {A : Type ℓ} (P : A → Type κ) (xs ys : List A) → All P (xs ++ ys) → All P xs
All-init P [] ys h = tt
All-init P (x ∷ xs) ys (a, h) = (a, All-init P xs ys h)

pub All-last {ℓ κ} : {A : Type ℓ} (P : A → Type κ) (xs ys : List A) → All P (xs ++ ys) → All P ys
All-last P [] ys h = h
All-last P (x ∷ xs) ys (a, h) = All-last P xs ys h
