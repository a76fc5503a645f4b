-- ===== src/Memory/Owned.antt =====
-- Which blocks of the memory belong to the structs of tools/*.c: the pointers of a block that own
-- what they point to, and the addresses of all that pointers own.
use static_distro.Shared.{
  ℕ, Bool, true, false, List, [], ◌∷◌, ◌++◌, none, some, ◌≡◌, inl, inr, refl, sym, ap, ◌∙◌, subst,
  Elem, arith, append_assoc,
}
use static_distro.Memory.{
  Kind, text, control_dependency, control_source, control_built_from, control_block,
  source_control_block, source_control_bin, controlparse_line, controlparse_field,
  controlparse_para, solve_dependency, solve_version, solve_package, solve_problem, repo_version,
  repo_package, repo_block, Pointer, Block, Heap, erase,
}

-- Pointers, with the kinds of blocks that they point to.
abbrev pub Pointers : Type 0
Pointers = List (Kind × Pointer)

-- The pointers that a block owns, except for the one to the rest of its list, in the order in which
-- the code frees what they point to. `unpack_depend` of a source control file is not one of them.
unfoldable pub parts : (k : Kind) → Block k → Pointers
parts text s = []
parts control_dependency cd = (text, cd.package_name) ∷ []
parts control_source cs = (text, cs.source) ∷ []
parts control_built_from cbf = (text, cbf.package_name) ∷ (text, cbf.version) ∷ []
parts control_block c =
    (control_dependency, c.run_depend)
    ∷ (control_built_from, c.built_froms)
    ∷ (text, c.package_name)
    ∷ (text, c.version)
    ∷ (text, c.src_package)
    ∷ (text, c.src_version)
    ∷ []
parts source_control_block sc =
    (control_dependency, sc.build_depend)
    ∷ (control_source, sc.sources)
    ∷ (source_control_bin, sc.bins)
    ∷ (text, sc.source)
    ∷ (text, sc.version)
    ∷ []
parts source_control_bin sb = (control_dependency, sb.run_depend) ∷ (text, sb.package_name) ∷ []
parts controlparse_line cl = []
parts controlparse_field cf = (controlparse_line, cf.line_first) ∷ []
parts controlparse_para cp = (controlparse_field, cp.field_first) ∷ []
parts solve_dependency dep = (text, dep.constraint) ∷ []
parts solve_version ver = (solve_dependency, ver.dependencies) ∷ (text, ver.version) ∷ []
parts solve_package pkg = (solve_version, pkg.available) ∷ (text, pkg.name) ∷ []
parts solve_problem p = (solve_package, p.packages_first) ∷ []
parts repo_version ver = (control_block, ver.control) ∷ (text, ver.version) ∷ []
parts repo_package pkg = (repo_version, pkg.versions) ∷ (text, pkg.name) ∷ []
parts repo_block repo = (repo_package, repo.packages) ∷ []

-- The pointer to the rest of the list, for a block that is one of a list.
unfoldable pub rest : (k : Kind) → Block k → Pointers
rest text s = []
rest control_dependency cd = (control_dependency, cd.next) ∷ []
rest control_source cs = (control_source, cs.next) ∷ []
rest control_built_from cbf = (control_built_from, cbf.next) ∷ []
rest control_block c = []
rest source_control_block sc = []
rest source_control_bin sb = (source_control_bin, sb.next) ∷ []
rest controlparse_line cl = (controlparse_line, cl.next) ∷ []
rest controlparse_field cf = (controlparse_field, cf.next) ∷ []
rest controlparse_para cp = (controlparse_para, cp.next) ∷ []
rest solve_dependency dep = (solve_dependency, dep.next) ∷ []
rest solve_version ver = (solve_version, ver.next) ∷ []
rest solve_package pkg = (solve_package, pkg.next) ∷ []
rest solve_problem p = []
rest repo_version ver = (repo_version, ver.next) ∷ []
rest repo_package pkg = (repo_package, pkg.next) ∷ []
rest repo_block repo = []

-- A text and a list may be null pointers.
unfoldable pub nullable : Kind → Bool
nullable text = true
nullable control_dependency = true
nullable control_source = true
nullable control_built_from = true
nullable control_block = false
nullable source_control_block = false
nullable source_control_bin = true
nullable controlparse_line = true
nullable controlparse_field = true
nullable controlparse_para = true
nullable solve_dependency = true
nullable solve_version = true
nullable solve_package = true
nullable solve_problem = false
nullable repo_version = true
nullable repo_package = true
nullable repo_block = false

-- The pointers own the blocks at these addresses: those of the parts of a block, the block itself,
-- those of the rest of its list, and those of the other pointers.
pub data Owned (h : Heap) : Pointers → List ℕ → Type 0 where
  nothing : Owned h [] []
  null :
      {k : Kind} {ps : Pointers} {xs : List ℕ}
      → nullable k ≡ true
      → Owned h ps xs
      → Owned h ((k, none) ∷ ps) xs
  block :
      {k : Kind} {ps : Pointers} {a : ℕ} {xs ys zs all : List ℕ} (f : Block k)
      → h k a ≡ some f
      → Owned h (parts k f) xs
      → Owned h (rest k f) ys
      → Owned h ps zs
      → all ≡ xs ++ (a ∷ (ys ++ zs))
      → Owned h ((k, some a) ∷ ps) all

abbrev pub owned :
    {h : Heap} {k : Kind} {ps : Pointers} {a : ℕ} {xs ys zs : List ℕ} (f : Block k)
    → h k a ≡ some f
    → Owned h (parts k f) xs
    → Owned h (rest k f) ys
    → Owned h ps zs
    → Owned h ((k, some a) ∷ ps) (xs ++ (a ∷ (ys ++ zs)))
owned f e op or os = block f e op or os refl

-- No address stands twice.
abbrev pub Distinct : List ℕ → Type 0
Distinct [] = Unit
Distinct (x ∷ xs) = ¬ Elem x xs × Distinct xs

abbrev pub without : List ℕ → Heap → Heap
without [] h = h
without (x ∷ xs) h = without xs (erase x h)

pub Elem-left : (a : ℕ) (xs ys : List ℕ) → Elem a xs → Elem a (xs ++ ys)
Elem-left a [] ys e = elim e [ ]
Elem-left a (x ∷ xs) ys (inl e) = inl e
Elem-left a (x ∷ xs) ys (inr later) = inr (Elem-left a xs ys later)

pub Elem-right : (a : ℕ) (xs ys : List ℕ) → Elem a ys → Elem a (xs ++ ys)
Elem-right a [] ys e = e
Elem-right a (x ∷ xs) ys e = inr (Elem-right a xs ys e)

pub Distinct-left : (xs ys : List ℕ) → Distinct (xs ++ ys) → Distinct xs
Distinct-left [] ys d = tt
Distinct-left (x ∷ xs) ys d = (λ e. d.0 (Elem-left x xs ys e), Distinct-left xs ys d.1)

pub Distinct-right : (xs ys : List ℕ) → Distinct (xs ++ ys) → Distinct ys
Distinct-right [] ys d = d
Distinct-right (x ∷ xs) ys d = Distinct-right xs ys d.1

-- An address of the second list is none of the first.
pub Distinct-apart : (xs ys : List ℕ) → Distinct (xs ++ ys) → (a : ℕ) → Elem a ys → ¬ Elem a xs
Distinct-apart [] ys d a e e' = elim e' [ ]
Distinct-apart (x ∷ xs) ys d a e (inl same) =
    d.0 (subst (λ b. Elem b (xs ++ ys)) same (Elem-right a xs ys e))
Distinct-apart (x ∷ xs) ys d a e (inr later) = Distinct-apart xs ys d.1 a e later

pub without-append : (xs ys : List ℕ) (h : Heap) → without (xs ++ ys) h ≡ without ys (without xs h)
without-append [] ys h = refl
without-append (x ∷ xs) ys h = without-append xs ys (erase x h)

-- What is at other addresses stays.
pub without-apart :
    (xs : List ℕ) (h : Heap) (k : Kind) (a : ℕ) → ¬ Elem a xs → without xs h k a ≡ h k a
without-apart [] h k a n = refl
without-apart (x ∷ xs) h k a n = without-apart xs (erase x h) k a (λ e. n (inr e)) ∙ erase-apart
  where
    erase-apart : erase x h k a ≡ h k a
    erase-apart = ground (arith, λ (e : x ≡ a). n (inl (sym e)))

-- Pointers own the same in a heap that holds the same at all these addresses.
pub Owned-frame :
    {h h' : Heap} {ps : Pointers} {xs : List ℕ}
    → ((k : Kind) (a : ℕ) → Elem a xs → h' k a ≡ h k a)
    → Owned h ps xs
    → Owned h' ps xs
Owned-frame same nothing = nothing
Owned-frame same (null e o) = null e (Owned-frame same o)
Owned-frame {h = h} {h' = h'} same
      (block {k = k} {ps = ps} {a = a} {xs = xs} {ys = ys} {zs = zs} f e op or os eq) =
    let within : (k : Kind) (b : ℕ) → Elem b (xs ++ (a ∷ (ys ++ zs))) → h' k b ≡ h k b =
      λ k b w. same k b (subst (Elem b) (sym eq) w) in
    block f (within k a (Elem-right a xs (a ∷ (ys ++ zs)) (inl refl)) ∙ e)
      (Owned-frame (λ k b w. within k b (Elem-left b xs (a ∷ (ys ++ zs)) w)) op)
      (Owned-frame
        (λ k b w. within k b (Elem-right b xs (a ∷ (ys ++ zs)) (inr (Elem-left b ys zs w)))) or)
      (Owned-frame
        (λ k b w. within k b (Elem-right b xs (a ∷ (ys ++ zs)) (inr (Elem-right b ys zs w)))) os)
      eq

pub regroup :
    (a : ℕ) (xs ys us vs : List ℕ) → xs ++ (a ∷ (ys ++ (us ++ vs))) ≡ (xs ++ (a ∷ (ys ++ us))) ++ vs
regroup a xs ys us vs = simp (append_assoc)

-- Pointers own what the first and what the second of them own.
pub Owned-split :
    {h : Heap} (ps qs : Pointers) {all : List ℕ}
    → Owned h (ps ++ qs) all
    → (xs : List ℕ) × (ys : List ℕ) × Owned h ps xs × Owned h qs ys × (all ≡ xs ++ ys)
Owned-split [] qs {all} o = ([], all, nothing, o, refl)
Owned-split ((k, none) ∷ ps) qs (null e o) =
    let (us, vs, o1, o2, eq) = Owned-split ps qs o in (us, vs, null e o1, o2, eq)
Owned-split ((k, some a) ∷ ps) qs (block {xs = xs} {ys = ys} {zs = zs} f e op or os eq) =
    let (us, vs, o1, o2, eq') = Owned-split ps qs os in
    (
      xs ++ (a ∷ (ys ++ us)),
      vs,
      block f e op or o1 refl,
      o2,
      eq ∙ ap (λ l. xs ++ (a ∷ (ys ++ l))) eq' ∙ regroup a xs ys us vs,
    )
