-- ===== src/WithEnv/LinkTree/Links.antt =====
-- The links that `link_tree` of tools/withenv.c makes.
use static_distro.Shared.{
  codes, ◌++◌, ◌≤◌, length, length-append, ◌≡◌, ◌≢◌, ◌⊎◌, ◌↔◌, inl, inr, refl, sym, subst, ◌∙◌,
  false, List, [], ◌∷◌, some, arith, Bool-cases, str_eq, str_eq_iff, Bytes,
}
use static_distro.WithEnv.LinkTree.Exact.{
  HasFile, here, deeper, later, below_all, link_tree-Keeps, round_done, file_done, dir_done,
  end_done, broken_fails,
}
use static_distro.WithEnv.LinkTree.Lookup.{find_in, find_in-put}
use static_distro.WithEnv.{path_max}
use static_distro.WithEnv.LinkTree.{
  Node, broken, file, dir, Entries, no_entry, entry, Dest, link, subdir, Dests, no_dest, lookup,
  put, linked, is_hidden, below, link_tree, link_entry,
}

-- What stands at the path of a new entry.
find_in-put_self :
    (name : Bytes) (ns : List Bytes) (d : Dest) (dst : Dests)
    → find_in (name ∷ ns) (subdir (put name d dst)) ≡ find_in ns d
find_in-put_self name ns d dst =
    ground (arith, find_in-put name name ns d dst, str_eq_iff name name)

link_tree-links :
    {es : Entries} {p : List Bytes} (path : Bytes) (dst dst' : Dests)
    → HasFile es p
    → link_tree path es dst ≡ linked dst'
    → find_in p (subdir dst') ≡ some (link (below_all path p))
unfolding find_in
link_tree-links path dst dst' (here {n} {es} shown) h =
    elim (round_done path n file es dst dst' h) [
      | inl (hidden, _) ↦ absurd (cc (sym hidden ∙ shown))
      | inr (_, (d, made, rest)) ↦
          let (_, is_d) = file_done path n dst d made in
          link_tree-Keeps es path d dst' rest (n ∷ []) (below path n)
            (rw (is_d) (find_in-put_self n [] (link (below path n)) dst))
    ]
link_tree-links path dst dst' (deeper {n} {cs} {es} {p} shown inside) h =
    elim (round_done path n (dir cs) es dst dst' h) [
      | inl (hidden, _) ↦ absurd (cc (sym hidden ∙ shown))
      | inr (_, (d, made, rest)) ↦
          let (ds, ds', _, below_made, is_d) = dir_done path n cs dst d made in
          link_tree-Keeps es path d dst' rest (n ∷ p) (below_all (below path n) p) (
            rw (is_d) (
              find_in-put_self n p (subdir ds') dst
              ∙ link_tree-links (below path n) ds ds' inside below_made))
    ]
link_tree-links path dst dst' (later {n} {x} {es} {p} inside) h =
    elim (round_done path n x es dst dst' h) [
      | inl (_, rest) ↦ link_tree-links path dst dst' inside rest
      | inr (_, (d, _, rest)) ↦ link_tree-links path d dst' inside rest
    ]

-- Where a link in the new destination comes from: it was there, or it is that of a file.
abbrev From : Bytes → Entries → Dests → List Bytes → Bytes → Type 0
From path es dst p target =
    (find_in p (subdir dst) ≡ some (link target)) ⊎ (HasFile es p × (target ≡ below_all path p))

no_link : (p : List Bytes) (target : Bytes) → find_in p (subdir no_dest) ≢ some (link target)
unfolding find_in lookup
no_link [] target h = ground arith
no_link (n ∷ ns) target h = ground arith

no_root : (ds : Dests) (target : Bytes) → find_in [] (subdir ds) ≢ some (link target)
unfolding find_in
no_root ds target h = ground arith

other_name :
    (name n : Bytes) (ns : List Bytes) (d : Dest) (dst : Dests) (target : Bytes)
    → str_eq name n ≡ false
    → find_in (n ∷ ns) (subdir (put name d dst)) ≡ some (link target)
    → find_in (n ∷ ns) (subdir dst) ≡ some (link target)
other_name name n ns d dst target other h = ground (arith, find_in-put name n ns d dst)

through :
    (name : Bytes) (ns : List Bytes) (ds dst : Dests) (target : Bytes)
    → lookup name dst ≡ some (subdir ds)
    → find_in ns (subdir ds) ≡ some (link target)
    → find_in (name ∷ ns) (subdir dst) ≡ some (link target)
unfolding find_in
through name ns ds dst target old h = rw (find_in, old) h

only_itself :
    (ns : List Bytes) (t target : Bytes)
    → find_in ns (link t) ≡ some (link target)
    → (ns ≡ []) × (target ≡ t)
unfolding find_in
only_itself [] t target h = (refl, ground arith)
only_itself (n ∷ ns) t target h = absurd (ground arith)

file-From :
    (es : Entries) (path name : Bytes) (dst : Dests) (p : List Bytes) (target : Bytes)
    → is_hidden name ≡ false
    → find_in p (subdir (put name (link (below path name)) dst)) ≡ some (link target)
    → From path (entry name file es) dst p target
file-From es path name dst [] target shown h =
    absurd (no_root (put name (link (below path name)) dst) target h)
file-From es path name dst (n ∷ ns) target shown h = elim (Bool-cases (str_eq name n)) [
  | inr other ↦ inl (other_name name n ns (link (below path name)) dst target other h)
  | inl same ↦
      let is_n : name ≡ n = (str_eq_iff name n).0 same in
      let new = put name (link (below path name)) dst in
      let (empty, is_target) = only_itself ns (below path name) target (
        sym (find_in-put_self name ns (link (below path name)) dst)
        ∙ subst (λ m. find_in (m ∷ ns) (subdir new) ≡ some (link target)) (sym is_n) h) in
      subst (λ m. From path (entry name file es) dst (m ∷ ns) target) is_n
        (subst (λ ms. From path (entry name file es) dst (name ∷ ms) target) (sym empty)
          (inr (here shown, is_target)))
]

mutual
  link_tree-From :
      (es : Entries) (path : Bytes) (dst dst' : Dests) (p : List Bytes) (target : Bytes)
      → link_tree path es dst ≡ linked dst'
      → find_in p (subdir dst') ≡ some (link target)
      → From path es dst p target
  link_tree-From no_entry path dst dst' p target h found = inl (
      subst (λ ds. find_in p (subdir ds) ≡ some (link target)) (sym (end_done path dst dst' h))
        found)
  link_tree-From (entry name node es) path dst dst' p target h found =
      elim (round_done path name node es dst dst' h) [
        | inl (_, rest) ↦ elim (link_tree-From es path dst dst' p target rest found) [
          | inl old ↦ inl old
          | inr (inside, e) ↦ inr (later inside, e)
        ]
        | inr (shown, (d, made, rest)) ↦ elim (link_tree-From es path d dst' p target rest found) [
          | inl in_d ↦ link_entry-From node es path name dst d p target shown made in_d
          | inr (inside, e) ↦ inr (later inside, e)
        ]
      ]

  link_entry-From :
      (node : Node) (es : Entries) (path name : Bytes) (dst dst' : Dests) (p : List Bytes)
      (target : Bytes)
      → is_hidden name ≡ false
      → link_entry path name node dst ≡ linked dst'
      → find_in p (subdir dst') ≡ some (link target)
      → From path (entry name node es) dst p target
  link_entry-From broken es path name dst dst' p target shown h found =
      absurd (broken_fails path name dst dst' h)
  link_entry-From file es path name dst dst' p target shown h found =
      let (_, is_dst') = file_done path name dst dst' h in
      file-From es path name dst p target shown
        (subst (λ ds. find_in p (subdir ds) ≡ some (link target)) is_dst' found)
  link_entry-From (dir cs) es path name dst dst' [] target shown h found =
      absurd (no_root dst' target found)
  link_entry-From (dir cs) es path name dst dst' (n ∷ ns) target shown h found =
      let (ds, ds', start, made, is_dst') = dir_done path name cs dst dst' h in
      let found' = subst (λ ds. find_in (n ∷ ns) (subdir ds) ≡ some (link target)) is_dst' found in
      elim (Bool-cases (str_eq name n)) [
        | inr other ↦ inl (other_name name n ns (subdir ds') dst target other found')
        | inl same ↦
            let is_n : name ≡ n = (str_eq_iff name n).0 same in
            let in_ds' =
              sym (find_in-put_self name ns (subdir ds') dst)
              ∙ subst
                  (λ m. find_in (m ∷ ns) (subdir (put name (subdir ds') dst)) ≡ some (link target))
                  (sym is_n) found' in
            subst (λ m. From path (entry name (dir cs) es) dst (m ∷ ns) target) is_n
              (elim (link_tree-From cs (below path name) ds ds' ns target made in_ds') [
                | inr (inside, e) ↦ inr (deeper shown inside, e)
                | inl in_ds ↦ elim start [
                  | inl old ↦ inl (through name ns ds dst target old in_ds)
                  | inr (_, empty) ↦ absurd (
                      no_link ns target
                        (subst (λ ds. find_in ns (subdir ds) ≡ some (link target)) empty in_ds))
                ]
              ])
      ]

-- When `link_tree` succeeds, the links in the destination are those that were there before, at their
-- paths, and a link for each file below the source whose path has no hidden name: it stands at the
-- same path below the destination, and leads to the file.
pub link_tree_exact :
    (path : Bytes) (es : Entries) (dst dst' : Dests) (p : List Bytes) (target : Bytes)
    → link_tree path es dst ≡ linked dst'
    → (find_in p (subdir dst') ≡ some (link target)) ↔ (
        (find_in p (subdir dst) ≡ some (link target))
        ⊎ (HasFile es p × (target ≡ below_all path p)))
link_tree_exact path es dst dst' p target h = (
  λ found. link_tree-From es path dst dst' p target h found,
  λ from. elim from [
    | inl old ↦ link_tree-Keeps es path dst dst' h p target old
    | inr (inside, e) ↦ rw (e) (link_tree-links path dst dst' inside h)
  ],
)

file_room :
    (path name : Bytes) (dst dst' : Dests)
    → link_entry path name file dst ≡ linked dst'
    → length (below path name) ≤ path_max
unfolding link_tree
file_room path name dst dst' h = ground (arith, length-append path (codes "/" ++ name))

-- When `link_tree` succeeds, the path of each file that it links has at most `path_max` bytes.
pub link_tree_room :
    {es : Entries} {p : List Bytes} (path : Bytes) (dst dst' : Dests)
    → HasFile es p
    → link_tree path es dst ≡ linked dst'
    → length (below_all path p) ≤ path_max
link_tree_room path dst dst' (here {n} {es} shown) h = elim (round_done path n file es dst dst' h) [
  | inl (hidden, _) ↦ absurd (cc (sym hidden ∙ shown))
  | inr (_, (d, made, rest)) ↦ file_room path n dst d made
]
link_tree_room path dst dst' (deeper {n} {cs} {es} {p} shown inside) h =
    elim (round_done path n (dir cs) es dst dst' h) [
      | inl (hidden, _) ↦ absurd (cc (sym hidden ∙ shown))
      | inr (_, (d, made, rest)) ↦
          let (ds, ds', _, below_made, is_d) = dir_done path n cs dst d made in
          link_tree_room (below path n) ds ds' inside below_made
    ]
link_tree_room path dst dst' (later {n} {x} {es} {p} inside) h =
    elim (round_done path n x es dst dst' h) [
      | inl (_, rest) ↦ link_tree_room path dst dst' inside rest
      | inr (_, (d, _, rest)) ↦ link_tree_room path d dst' inside rest
    ]
