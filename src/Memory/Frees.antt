-- ===== src/Memory/Frees.antt =====
-- Programs that free what pointers own, as the destroy functions of tools/*.c do.
use static_distro.Shared.{
  ℕ, zero, suc, ◌≤◌, List, [], ◌∷◌, ◌++◌, none, some, ◌≡◌, refl, sym, ap, ◌∙◌, subst, inl,
  append_assoc, length, length-append, false, Elem, arith, append-nil,
}
use static_distro.Memory.{
  Kind, text, Pointer, deref, Block, Heap, M, done, pure, ◌>>=◌, ◌>>◌, load, free, list_loop,
}
use static_distro.Memory.Owned.{
  Pointers, parts, rest, nullable, Owned, nothing, null, block, Distinct, without, Distinct-left,
  Distinct-right, Elem-left, Elem-right, Distinct-apart, without-append, without-apart, Owned-frame,
  Owned-split,
}

-- A program that frees exactly the blocks that the pointers own, when these are at most `n`.
pub data Releases (n : ℕ) (m : M (Unit {0})) (ps : Pointers) : Type 0 where
  releases :
      ((h : Heap) (xs : List ℕ)
        → Owned h ps xs
        → Distinct xs
        → length xs ≤ n
        → m h ≡ done tt (without xs h))
      → Releases n m ps

-- A program that frees exactly the blocks that the pointers own, and then the block `f` at `a`, which
-- it may read until then, and returns `x`.
pub data Destroys (n : ℕ) (k : Kind) (a : ℕ) (f : Block k) {A : Type 0} (m : M A) (x : A)
    (ps : Pointers) : Type 0 where
  destroys :
      ((h : Heap) (xs : List ℕ)
        → h k a ≡ some f
        → Owned h ps xs
        → Distinct (xs ++ (a ∷ []))
        → length xs ≤ n
        → m h ≡ done x (without (xs ++ (a ∷ [])) h))
      → Destroys n k a f m x ps

pub Releases-run :
    {n : ℕ} {m : M (Unit {0})} {ps : Pointers}
    → Releases n m ps
    → (h : Heap) (xs : List ℕ) → Owned h ps xs
    → Distinct xs
    → length xs ≤ n
    → m h ≡ done tt (without xs h)
Releases-run (releases r) = r

pub Destroys-run :
    {n : ℕ} {k : Kind} {a : ℕ} {f : Block k} {A : Type 0} {m : M A} {x : A} {ps : Pointers}
    → Destroys n k a f m x ps
    → (h : Heap) (xs : List ℕ) → h k a ≡ some f
    → Owned h ps xs
    → Distinct (xs ++ (a ∷ []))
    → length xs ≤ n
    → m h ≡ done x (without (xs ++ (a ∷ [])) h)
Destroys-run (destroys s) = s

pub free-Releases : (n : ℕ) (p : Pointer) → Releases n (free text p) ((text, p) ∷ [])
unfolding parts rest
free-Releases n p = releases (freed p)
  where
    freed :
        (p : Pointer) (h : Heap) (xs : List ℕ)
        → Owned h ((text, p) ∷ []) xs
        → Distinct xs
        → length xs ≤ n
        → free text p h ≡ done tt (without xs h)
    freed none h xs (null e nothing) d b = refl
    freed (some a) h xs (block f e nothing nothing nothing eq) d b = rw (eq, e)

module _ {n : ℕ} {k : Kind} {a : ℕ} {f : Block k} {A : Type 0} {x : A} where
  pub then-Destroys :
      {m : M (Unit {0})} {m' : M A} {ps qs : Pointers}
      → Releases n m ps
      → Destroys n k a f m' x qs
      → Destroys n k a f (m >> m') x (ps ++ qs)
  then-Destroys {m} {m'} {ps} {qs} (releases r) (destroys s) = destroys λ h xs e o d b.
      let (us, vs, op, oq, eq) = Owned-split ps qs o in
      let last = vs ++ (a ∷ []) in
      let order : xs ++ (a ∷ []) ≡ us ++ last =
        ap (λ l. l ++ (a ∷ [])) eq ∙ append_assoc us vs (a ∷ []) in
      let d' : Distinct (us ++ last) = subst Distinct order d in
      let kept : (j : Kind) (c : ℕ) → Elem c last → without us h j c ≡ h j c =
        λ j c w. without-apart us h j c (Distinct-apart us last d' c w) in
      let size = length-append us vs in
      let size' : length xs ≡ length (us ++ vs) = ap length eq in
      let first : m h ≡ done tt (without us h) =
        r h us op (Distinct-left us last d') (omega arith) in
      let second : m' (without us h) ≡ done x (without last (without us h)) =
        s (without us h) vs (kept k a (Elem-right a vs (a ∷ []) (inl refl)) ∙ e)
          (Owned-frame (λ j c w. kept j c (Elem-left c vs (a ∷ []) w)) oq)
          (Distinct-right us last d') (omega arith) in
      rw (first) second
      ∙ ap (done x) (sym (without-append us last h))
      ∙ ap (λ l. done x (without l h)) (sym order)

  pub load-Destroys :
      {m : Block k → M A} {ps : Pointers}
      → Destroys n k a f (m f) x ps
      → Destroys n k a f (load k a >>= m) x ps
  load-Destroys (destroys s) = destroys λ h xs e o d b. rw (e) (s h xs e o d b)

-- A list is freed whose pointer stands in the block.
pub list-Destroys :
    {n : ℕ} {k k' : Kind} {a : ℕ} {f : Block k} {A : Type 0} {x : A} {m : Pointer → M (Unit {0})}
    {m' : M A} {qs : Pointers} (p : Block k → Pointer)
    → ((q : Pointer) → Releases n (m q) ((k', q) ∷ []))
    → Destroys n k a f m' x qs
    → Destroys n k a f (load k a >>= λ g. m (p g) >> m') x ((k', p f) ∷ qs)
list-Destroys {f} p r s = load-Destroys (then-Destroys (r (p f)) s)

-- A text is freed whose pointer stands in the block.
pub text-Destroys :
    {n : ℕ} {k : Kind} {a : ℕ} {f : Block k} {A : Type 0} {x : A} {m' : M A} {qs : Pointers}
    (p : Block k → Pointer)
    → Destroys n k a f m' x qs
    → Destroys n k a f (load k a >>= λ g. free text (p g) >> m') x ((text, p f) ∷ qs)
text-Destroys {n} p s = list-Destroys p (free-Releases n) s

-- The block itself comes last.
pub free-Destroys :
    {n : ℕ} {k : Kind} {a : ℕ} {f : Block k} → Destroys n k a f (free k (some a)) tt []
free-Destroys {n} {k} {a} {f} = destroys freed
  where
    freed :
        (h : Heap) (xs : List ℕ)
        → h k a ≡ some f
        → Owned h [] xs
        → Distinct (xs ++ (a ∷ []))
        → length xs ≤ n
        → free k (some a) h ≡ done tt (without (xs ++ (a ∷ [])) h)
    freed h xs e nothing d b = rw (e)

-- A program that ends behind the last block.
pub last-Destroys :
    {n : ℕ} {k : Kind} {a : ℕ} {f : Block k} {A : Type 0} {m : M (Unit {0})} {x : A} {ps : Pointers}
    → Destroys n k a f m tt ps
    → Destroys n k a f (m >> pure x) x ps
last-Destroys (destroys s) = destroys λ h xs e o d b. rw (s h xs e o d b)

-- The end of the body of a loop.
pub next-Destroys :
    {n : ℕ} {k : Kind} {a : ℕ} {f : Block k} {next : Pointer}
    → Destroys n k a f (free k (some a) >> pure next) next []
next-Destroys = last-Destroys free-Destroys

nothing-owned : {h : Heap} {xs : List ℕ} → Owned h [] xs → xs ≡ []
nothing-owned nothing = refl

-- A pointer to one block that is no part of a list, and that is not null.
pub block-Releases :
    {n : ℕ} {k : Kind} {m : ℕ → M (Unit {0})}
    → (nullable k ≡ false)
    → ((f : Block k) → rest k f ≡ [])
    → ((a : ℕ) (f : Block k) → Destroys n k a f (m a) tt (parts k f))
    → (p : Pointer) → Releases n (deref p m) ((k, p) ∷ [])
block-Releases {n} {k} {m} some_block single body p = releases (freed p)
  where
    freed :
        (p : Pointer) (h : Heap) (xs : List ℕ)
        → Owned h ((k, p) ∷ []) xs
        → Distinct xs
        → length xs ≤ n
        → deref p m h ≡ done tt (without xs h)
    freed none h xs (null e nothing) d b = cc (e, some_block)
    freed (some a) h xs (block {xs = us} {ys = ys} f e op or nothing eq) d b =
        let alone : xs ≡ us ++ (a ∷ []) =
          eq
          ∙ ap (λ l. us ++ (a ∷ l))
              (append-nil ys ∙ nothing-owned (subst (λ ps. Owned h ps ys) (single f) or)) in
        let size = length-append us (a ∷ []) in
        let size' : length xs ≡ length (us ++ (a ∷ [])) = ap length alone in
        Destroys-run (body a f) h us e op (subst Distinct alone d) (omega arith)
        ∙ ap (λ l. done tt (without l h)) (sym alone)

-- A loop with a body that frees each block and gives the pointer to the next one.
pub loop-Releases :
    {n : ℕ} {k : Kind} {body : ℕ → M Pointer} {next : Block k → Pointer}
    → ((f : Block k) → rest k f ≡ (k, next f) ∷ [])
    → ((a : ℕ) (f : Block k) → Destroys n k a f (body a) (next f) (parts k f))
    → (p : Pointer) → Releases n (list_loop body n p) ((k, p) ∷ [])
unfolding list_loop
loop-Releases {n} {k} {body} {next} listed each p = releases λ h xs o d b. loop n p h xs o d b b
  where
    loop :
        (m : ℕ) (p : Pointer) (h : Heap) (xs : List ℕ)
        → Owned h ((k, p) ∷ []) xs
        → Distinct xs
        → length xs ≤ n
        → length xs ≤ m
        → list_loop body m p h ≡ done tt (without xs h)
    loop m none h xs (null e nothing) d b c = refl
    loop zero (some a) h xs (block {xs = us} {ys = ys} f e op or nothing eq) d b c =
        let size = length-append us (a ∷ (ys ++ [])) in
        let size' : length xs ≡ length (us ++ (a ∷ (ys ++ []))) = ap length eq in
        absurd (omega arith)
    loop (suc m) (some a) h xs (block {xs = us} {ys = ys} f e op or nothing eq) d b c =
        let first = us ++ (a ∷ []) in
        let order : xs ≡ first ++ ys =
          eq ∙ ap (λ l. us ++ (a ∷ l)) (append-nil ys) ∙ sym (append_assoc us (a ∷ []) ys) in
        let d' : Distinct (first ++ ys) = subst Distinct order d in
        let size = length-append us (a ∷ []) in
        let size' = length-append first ys in
        let size'' : length xs ≡ length (first ++ ys) = ap length order in
        let now = Destroys-run (each a f) h us e op (Distinct-left first ys d') (omega arith) in
        let kept : (j : Kind) (x : ℕ) → Elem x ys → without first h j x ≡ h j x =
          λ j x w. without-apart first h j x (Distinct-apart first ys d' x w) in
        let later : list_loop body m (next f) (without first h)
            ≡ done tt (without ys (without first h)) =
          loop m (next f) (without first h) ys
            (Owned-frame kept (subst (λ ps. Owned h ps ys) (listed f) or))
            (Distinct-right first ys d') (omega arith) (omega arith) in
        rw (now) later
        ∙ ap (done tt) (sym (without-append first ys h))
        ∙ ap (λ l. done tt (without l h)) (sym order)
