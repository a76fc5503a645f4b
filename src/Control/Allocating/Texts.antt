-- ===== src/Control/Allocating/Texts.antt =====
-- What the list of parse_deplist of tools/control.c says that it allocates in the memory.
use static_distro.Control
use static_distro.Control.{nonempty}
use static_distro.ControlParse.{Field}
use static_distro.Control.Allocating.{add_dependency, deplist_loop, parse_deplist, next_dependency}
use static_distro.Control.Allocating.Lists.{
  failed, made, new_dependency-cases, two-Distinct, filled-Extends, filled_struct, filled_text,
  with_struct, filled,
}
use static_distro.Memory.{
  Kind, Pointer, Heap, Result, done, put, text, control_dependency, ControlDependencyBlock,
}
use static_distro.Memory.Alloc.{Malloc, Fresh, link_last, put-same, put-apart}
use static_distro.Memory.Holds.{Extends, Lacks, Extends-nothing, Extends-append, Distinct-append}
use static_distro.Memory.Owned.{Distinct}
use static_distro.Shared.{
  ℕ, zero, suc, ◌+◌, ◌*◌, ◌≤◌, Bool, true, false, List, [], ◌∷◌, ◌++◌, none, some, ◌≡◌, refl, sym,
  ap, ◌∙◌, subst, inl, inr, Elem, Bytes, length, length-append, arith, append_assoc, append-nil,
  ◌⊎◌, Bool-cases,
}

-- The list of dependencies at a pointer says these texts, in the blocks at these addresses.
pub data Says (h : Heap) : Pointer → List Bytes → List ℕ → Type 0 where
  ends : Says h none [] []
  says :
      {cd s : ℕ} {p : Pointer} {d : Bytes} {ds : List Bytes} {xs : List ℕ}
      → h control_dependency cd ≡ some (record { package_name = some s; next = p })
      → h text s ≡ some d
      → Says h p ds xs
      → Says h (some cd) (d ∷ ds) (s ∷ cd ∷ xs)

Says-frame :
    {h h' : Heap} {p : Pointer} {ds : List Bytes} {xs : List ℕ}
    → ((k : Kind) (a : ℕ) → Elem a xs → h' k a ≡ h k a)
    → Says h p ds xs
    → Says h' p ds xs
Says-frame same ends = ends
Says-frame same (says {cd = cd} {s = s} e t more) =
    says (same control_dependency cd (inr (inl refl)) ∙ e) (same text s (inl refl) ∙ t)
      (Says-frame (λ k a w. same k a (inr (inr w))) more)

-- Every address of the list is that of a block.
Says-Elem :
    {h : Heap} {p : Pointer} {ds : List Bytes} {xs : List ℕ} (b : ℕ)
    → Says h p ds xs
    → Elem b xs
    → ((j : Kind) → h j b ≡ none)
    → ⊥
Says-Elem b ends w n = elim w [ ]
Says-Elem b (says {cd = cd} {s = s} e t more) (inl same) n = cc (t, n text, same)
Says-Elem b (says {cd = cd} {s = s} e t more) (inr (inl same)) n =
    cc (e, n control_dependency, same)
Says-Elem b (says e t more) (inr (inr w)) n = Says-Elem b more w n

-- Two lists one behind the other.
SaysBoth : ℕ → ℕ → ℕ → Heap → List Bytes → List ℕ → Type 0
SaysBoth n a c h ds xs =
    (h' : Heap) × (link_last control_dependency (λ f. f.next) next_dependency n a c h ≡ done tt h')
    × Says h' (some a) ds xs
    × ((j : Kind) (b : ℕ) → ¬ Elem b xs → h' j b ≡ h j b)

link-Says :
    (n a c : ℕ) (h : Heap) (ds es : List Bytes) (xs ys : List ℕ)
    → Says h (some a) ds xs
    → Says h (some c) es ys
    → Distinct (xs ++ ys)
    → length xs ≤ n
    → SaysBoth n a c h (ds ++ es) (xs ++ ys)
unfolding link_last SaysBoth
link-Says zero a c h ds es xs ys (says e t more) o d b = absurd (omega arith)
link-Says (suc n) a c h _ es _ ys (says {s = s} {p = none} e t ends) o dis b =
    let g : ControlDependencyBlock = record { package_name = some s; next = some c } in
    let h' = put control_dependency a g h in
    let kept : (j : Kind) (x : ℕ) → ¬ (a ≡ x) → h' j x ≡ h j x =
      λ j x ne. put-apart control_dependency j a x g h ne in
    (
      h',
      rw (e, e) refl,
      says (put-same control_dependency a g h) (kept text s (λ same. dis.0 (inl (sym same))) ∙ t) (
          Says-frame (λ j x w. kept j x (λ same. dis.1.0 (subst (λ z. Elem z ys) (sym same) w))) o),
      λ j x w. kept j x (λ same. w (inr (inl (sym same)))),
    )
link-Says (suc n) a c h _ es _ ys (says {s = s} {p = some b'} {ds = ds} {xs = xs} e t more) o dis
      b =
    let (h', run, both, same) = link-Says n b' c h ds es xs ys more o dis.1.1 (omega arith) in
    (
      h',
      rw (e) run,
      says (same control_dependency a dis.1.0 ∙ e) (same text s (λ w. dis.0 (inr w)) ∙ t) both,
      λ j x w. same j x (λ v. w (inr (inr v))),
    )

-- `h` holds what `h0` holds and the list, which says these texts in at most `m` blocks.
pub data Lists (h0 : Heap) (m : ℕ) (p : Pointer) (ds : List Bytes) (h : Heap) : Type 0 where
  lists :
      {xs : List ℕ}
      → Says h p ds xs
      → Distinct xs
      → Extends h0 xs h
      → length xs ≤ m
      → Lists h0 m p ds h

new_dependency-Lists :
    {malloc : Malloc} (ok : Fresh malloc) (line : Bytes) (h : Heap) (cd s : ℕ)
    (f : ControlDependencyBlock)
    → ((j : Kind) → h j cd ≡ none)
    → ((j : Kind) → with_struct ok line h cd f j s ≡ none)
    → Lists h 2 (some cd) (line ∷ []) (filled ok line h cd s f)
new_dependency-Lists ok line h cd s f fresh fresh' =
    lists
      (says (filled_struct ok line h cd s f fresh fresh')
        (filled_text ok line h cd s f fresh fresh') ends)
      (two-Distinct ok line h cd s f fresh fresh') (filled-Extends ok line h cd s f fresh fresh')
      (omega arith)

add_dependency-Lists :
    (n m : ℕ) (h0 h h1 : Heap) (pcd : Pointer) (cd : ℕ) (ds es : List Bytes)
    → Lists h0 m pcd ds h
    → Lists h 2 (some cd) es h1
    → m + 2 ≤ n
    → (p : Pointer) × (h2 : Heap) × (add_dependency n pcd cd h1 ≡ done p h2)
      × Lists h0 (m + 2) p (ds ++ es) h2
unfolding add_dependency SaysBoth
add_dependency-Lists n m h0 h h1 none cd ds es (lists ends d ex b) (lists {xs = ys} o' d' ex' b')
      le =
    (some cd, h1, refl, lists o' d' (Extends-append [] ys ex ex' (λ a w v. v)) (omega arith))
add_dependency-Lists n m h0 h h1 (some a) cd ds es (lists {xs = xs} o d ex b)
      (lists {xs = ys} o' d' ex' b') le =
    let apart : (x : ℕ) → Elem x ys → ¬ Elem x xs = λ x w v. Says-Elem x o v (λ j. ex'.new j x w) in
    let size = length-append xs ys in
    let dis = Distinct-append xs ys d d' (λ x v w. apart x w v) in
    let (h2, run, both, same) =
      link-Says n a cd h1 ds es xs ys (Says-frame (λ j x v. ex'.same j x (λ w. apart x w v)) o) o'
        dis (omega arith) in
    let whole = Extends-append xs ys ex ex' apart in
    (
      some a,
      h2,
      rw (run) refl,
      lists both dis (record { new = whole.new; same = λ j x w. same j x w ∙ whole.same j x w })
          (omega arith),
    )

Lists-more :
    {h0 h : Heap} {m n : ℕ} {p : Pointer} {ds : List Bytes}
    → m ≤ n
    → Lists h0 m p ds h
    → Lists h0 n p ds h
Lists-more le (lists o d ex b) = lists o d ex (omega arith)

-- A run that leaves no block.
Lists-same :
    {h0 h h1 : Heap} {m : ℕ} {p : Pointer} {ds : List Bytes}
    → Extends h [] h1
    → Lists h0 m p ds h
    → Lists h0 m p (ds ++ []) h1
Lists-same {h1} {p} {ds} none_new (lists {xs = xs} o d ex b) =
    lists
      (subst (λ l. Says h1 p l xs) (sym (append-nil ds))
        (Says-frame (λ j x w. none_new.same j x (λ v. v)) o))
      d (record { new = ex.new; same = λ j x w. none_new.same j x (λ v. v) ∙ ex.same j x w }) b

-- How the loop ends. The list says something more behind what it said before, which is the lines that
-- are not empty if the loop succeeds, and nothing else is new in the memory. It fails only where
-- `malloc` gives no block for a heap of the run.
Lacks-more : {malloc : Malloc} {h : Heap} {m n : ℕ} → m ≤ n → Lacks malloc h m → Lacks malloc h n
Lacks-more le (j, g, xs, ex, b, e) = (j, g, xs, ex, omega arith, e)

-- What is lacking behind a list is lacking behind the memory without it.
Lists-Lacks :
    {malloc : Malloc} {h0 h : Heap} {m n : ℕ} {p : Pointer} {ds : List Bytes}
    → Lists h0 m p ds h
    → Lacks malloc h n
    → Lacks malloc h0 (m + n)
Lists-Lacks (lists {xs = xs} o d ex b) (j, g, ys, ex', b', e) = (
  j,
  g,
  xs ++ ys,
  Extends-append xs ys ex ex' (λ a w v. Says-Elem a o v (λ k. ex'.new k a w)),
  omega (arith, length-append xs ys),
  e,
)

abbrev Added : Malloc → Heap → ℕ → List Bytes → List Bytes → Result (Bool × Pointer) → Type 0
Added malloc h0 m ds lines r =
    (b : Bool) × (p : Pointer) × (h' : Heap) × (es : List Bytes) × (r ≡ done (b, p) h')
    × Lists h0 m p (ds ++ es) h'
    × (b ≡ true → es ≡ nonempty lines)
    × (b ≡ false → Lacks malloc h0 m)

deplist_loop-Added :
    {malloc : Malloc} (ok : Fresh malloc) (n m : ℕ) (ls : List Bytes) (pcd : Pointer)
    (ds : List Bytes) (h0 h : Heap)
    → Lists h0 m pcd ds h
    → m + 2 * length ls ≤ n
    → Added malloc h0 (m + 2 * length ls) ds ls (deplist_loop malloc n ls pcd h)
unfolding deplist_loop nonempty
deplist_loop-Added ok n m [] pcd ds h0 h (lists {xs = xs} o d ex b) le = (
  true,
  pcd,
  h,
  [],
  refl,
  lists (subst (λ l. Says h pcd l xs) (sym (append-nil ds)) o) d ex (omega arith),
  (λ e. refl),
  λ e. cc,
)
deplist_loop-Added ok n m ([] ∷ ls) pcd ds h0 h held le =
    let (b, p, h', es, run, held', all, why) =
      deplist_loop-Added ok n m ls pcd ds h0 h held (omega arith) in
    (b, p, h', es, run, Lists-more (omega arith) held', all, λ w. Lacks-more (omega arith) (why w))
deplist_loop-Added ok n m ((c ∷ l) ∷ ls) pcd ds h0 h held le =
    elim (new_dependency-cases ok (c ∷ l) h) [
      | failed h1 lacking e ex ↦ (
        false,
        pcd,
        h1,
        [],
        rw (e) refl,
        Lists-more (omega arith) (Lists-same ex held),
        (λ w. cc),
        λ w. Lacks-more (omega arith) (Lists-Lacks held lacking),
      )
      | made cd s f e fresh fresh' ↦
          let new = new_dependency-Lists ok (c ∷ l) h cd s f fresh fresh' in
          let (p, h2, run, held') =
            add_dependency-Lists n m h0 h (filled ok (c ∷ l) h cd s f) pcd cd ds ((c ∷ l) ∷ []) held
              new (omega arith) in
          let (b, q, h3, es, run', held'', all, why) =
            deplist_loop-Added ok n (m + 2) ls p (ds ++ ((c ∷ l) ∷ [])) h0 h2 held' (omega arith) in
          (
            b,
            q,
            h3,
            (c ∷ l) ∷ es,
            rw (e, run) run',
            subst (λ t. Lists h0 (m + 2 * length ((c ∷ l) ∷ ls)) q t h3)
                (append_assoc ds ((c ∷ l) ∷ []) es) (Lists-more (omega arith) held''),
            (λ w. ap (λ t. (c ∷ l) ∷ t) (all w)),
            λ w. Lacks-more (omega arith) (why w),
          )
    ]

-- Whatever `malloc` gives, of new addresses, with fuel for two blocks for each line of the field:
-- parse_deplist, for a list that is not set before, ends without a fault and leaves a list that
-- is all that is new in the memory. Either it succeeds, and the list says what parse_deplist on
-- lists gives for the field, or it fails, and `malloc` gives no block for a heap that holds what
-- the memory held and at most two more blocks for each line of the field.
pub parse_deplist-Lists :
    {malloc : Malloc} (ok : Fresh malloc) (n : ℕ) (pf : Field) (h : Heap)
    → 2 * length pf.lines ≤ n
    → (b : Bool) × (p : Pointer) × (h' : Heap) × (es : List Bytes) × (parse_deplist malloc n pf none
          h
        ≡ done (b, p) h')
      × Lists h (2 * length pf.lines) p es h'
      × (((b ≡ true) × (Control.parse_deplist pf [] ≡ some es))
          ⊎ ((b ≡ false) × Lacks malloc h (2 * length pf.lines)))
unfolding parse_deplist Control.parse_deplist
parse_deplist-Lists ok n pf h le =
    let (b, p, h', es, run, held, all, why) =
      deplist_loop-Added ok n 0 pf.lines none [] h h (lists ends tt Extends-nothing (omega arith))
        (omega arith) in
    (
      b,
      p,
      h',
      es,
      run,
      Lists-more (omega arith) held,
      elim (Bool-cases b) [
        | inl t ↦ inl (t, sym (ap some (all t)))
        | inr f ↦ inr (f, Lacks-more (omega arith) (why f))
      ],
    )
