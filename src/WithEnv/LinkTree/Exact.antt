-- ===== src/WithEnv/LinkTree/Exact.antt =====
-- What `link_tree` leaves in the destination when it succeeds.
use static_distro.Shared.{
  ◌≡◌, ◌≢◌, ◌⊎◌, inl, inr, refl, subst, true, false, List, [], ◌∷◌, none, some, arith, Bool-cases,
  Option-cases, str_eq_iff, Bytes,
}
use static_distro.WithEnv.LinkTree.Lookup.{find_in, find_in-put}
use static_distro.WithEnv.LinkTree.{
  Node, broken, file, dir, Entries, no_entry, entry, Dest, link, subdir, Dests, no_dest, lookup,
  put, Linked, linked, failed, is_hidden, below, too_long, within, link_tree, link_entry,
}

-- The file stands at the path, and no name on the path is hidden.
pub data HasFile : Entries → List Bytes → Type 0 where
  here : {n : Bytes} {es : Entries} → is_hidden n ≡ false → HasFile (entry n file es) (n ∷ [])
  deeper :
      {n : Bytes} {cs es : Entries} {p : List Bytes}
      → is_hidden n ≡ false
      → HasFile cs p
      → HasFile (entry n (dir cs) es) (n ∷ p)
  later :
      {n : Bytes} {x : Node} {es : Entries} {p : List Bytes}
      → HasFile es p
      → HasFile (entry n x es) p

-- The path of what stands below a directory.
abbrev pub below_all : Bytes → List Bytes → Bytes
below_all path [] = path
below_all path (n ∷ ns) = below_all (below path n) ns

Linked-cases : (r : Linked) → ((d : Dests) × (r ≡ linked d)) ⊎ ((d : Dests) × (r ≡ failed d))
Linked-cases (linked d) = inl (d, refl)
Linked-cases (failed d) = inr (d, refl)

-- How a round that succeeds goes.
pub round_done :
    (path name : Bytes) (node : Node) (es : Entries) (dst dst' : Dests)
    → link_tree path (entry name node es) dst ≡ linked dst'
    → ((is_hidden name ≡ true) × (link_tree path es dst ≡ linked dst'))
      ⊎ ((is_hidden name ≡ false)
          × ((d : Dests) × (link_entry path name node dst ≡ linked d)
              × (link_tree path es d ≡ linked dst')))
unfolding link_tree
round_done path name node es dst dst' h = elim (Bool-cases (is_hidden name)) [
  | inl hidden ↦ inl (hidden, ground arith)
  | inr shown ↦ elim (Linked-cases (link_entry path name node dst)) [
    | inl (d, e) ↦ inr (shown, (d, e, ground arith))
    | inr (d, e) ↦ absurd (ground arith)
  ]
]

pub file_done :
    (path name : Bytes) (dst dst' : Dests)
    → link_entry path name file dst ≡ linked dst'
    → (lookup name dst ≡ none) × (dst' ≡ put name (link (below path name)) dst)
unfolding link_tree
file_done path name dst dst' h = elim (Option-cases (lookup name dst)) [
  | inl new ↦ (new, ground arith)
  | inr (d, old) ↦ absurd (ground arith)
]

within_done :
    (name : Bytes) (dst dst' : Dests) (r : Linked)
    → within name dst r ≡ linked dst'
    → (ds : Dests) × (r ≡ linked ds) × (dst' ≡ put name (subdir ds) dst)
within_done name dst dst' (linked ds) h = (ds, refl, ground arith)
within_done name dst dst' (failed ds) h = absurd (ground arith)

-- A directory starts from the one that is there, or from a new one.
pub dir_done :
    (path name : Bytes) (es : Entries) (dst dst' : Dests)
    → link_entry path name (dir es) dst ≡ linked dst'
    → (ds ds' : Dests) × ((lookup name dst ≡ some (subdir ds))
        ⊎ ((lookup name dst ≡ none) × (ds ≡ no_dest)))
      × (link_tree (below path name) es ds ≡ linked ds')
      × (dst' ≡ put name (subdir ds') dst)
unfolding link_tree
dir_done path name es dst dst' h = elim (Bool-cases (too_long path name)) [
  | inl long ↦ absurd (ground arith)
  | inr short ↦ elim (Option-cases (lookup name dst)) [
    | inl new ↦
        let opened : within name dst (link_tree (below path name) es no_dest) ≡ linked dst' =
          ground arith in
        let (ds', made, is_dst') =
          within_done name dst dst' (link_tree (below path name) es no_dest) opened in
        (no_dest, ds', inr (new, refl), made, is_dst')
    | inr (link target, old) ↦ absurd (ground arith)
    | inr (subdir ds, old) ↦
        let opened : within name dst (link_tree (below path name) es ds) ≡ linked dst' =
          ground arith in
        let (ds', made, is_dst') =
          within_done name dst dst' (link_tree (below path name) es ds) opened in
        (ds, ds', inl old, made, is_dst')
  ]
]

pub end_done :
    (path : Bytes) (dst dst' : Dests) → link_tree path no_entry dst ≡ linked dst' → dst ≡ dst'
unfolding link_tree
end_done path dst dst' h = ground arith

pub broken_fails :
    (path name : Bytes) (dst dst' : Dests) → link_entry path name broken dst ≢ linked dst'
unfolding link_tree
broken_fails path name dst dst' h = ground arith

-- The links below a destination that stay where they are.
abbrev pub Keeps : Dests → Dests → Type 0
Keeps dst dst' =
    (p : List Bytes) (target : Bytes)
    → find_in p (subdir dst) ≡ some (link target)
    → find_in p (subdir dst') ≡ some (link target)

-- A new entry hides no link, if what stood there is empty or keeps its links.
put-Keeps_new :
    (name : Bytes) (d : Dest) (dst : Dests) → lookup name dst ≡ none → Keeps dst (put name d dst)
unfolding find_in
put-Keeps_new name d dst new [] target h = absurd (ground arith)
put-Keeps_new name d dst new (n ∷ ns) target h =
    ground (arith, find_in-put name n ns d dst, str_eq_iff name n)

put-Keeps_subdir :
    (name : Bytes) (ds ds' dst : Dests)
    → lookup name dst ≡ some (subdir ds)
    → Keeps ds ds'
    → Keeps dst (put name (subdir ds') dst)
unfolding find_in
put-Keeps_subdir name ds ds' dst old keeps [] target h = absurd (ground arith)
put-Keeps_subdir name ds ds' dst old keeps (n ∷ ns) target h =
    ground (arith, find_in-put name n ns (subdir ds') dst, str_eq_iff name n, keeps ns target)

mutual
  pub link_tree-Keeps :
      (es : Entries) (path : Bytes) (dst dst' : Dests)
      → link_tree path es dst ≡ linked dst'
      → Keeps dst dst'
  link_tree-Keeps no_entry path dst dst' h p target found =
      subst (λ ds. find_in p (subdir ds) ≡ some (link target)) (end_done path dst dst' h) found
  link_tree-Keeps (entry name node es) path dst dst' h p target found =
      elim (round_done path name node es dst dst' h) [
        | inl (hidden, rest) ↦ link_tree-Keeps es path dst dst' rest p target found
        | inr (shown, (d, made, rest)) ↦
            link_tree-Keeps es path d dst' rest p target
              (link_entry-Keeps node path name dst d made p target found)
      ]

  link_entry-Keeps :
      (node : Node) (path name : Bytes) (dst dst' : Dests)
      → link_entry path name node dst ≡ linked dst'
      → Keeps dst dst'
  link_entry-Keeps broken path name dst dst' h p target found =
      absurd (broken_fails path name dst dst' h)
  link_entry-Keeps file path name dst dst' h p target found =
      let (new, is_dst') = file_done path name dst dst' h in
      rw (is_dst') (put-Keeps_new name (link (below path name)) dst new p target found)
  link_entry-Keeps (dir es) path name dst dst' h p target found =
      let (ds, ds', start, made, is_dst') = dir_done path name es dst dst' h in
      rw (is_dst') (elim start [
        | inl old ↦
            put-Keeps_subdir name ds ds' dst old (link_tree-Keeps es (below path name) ds ds' made)
              p target found
        | inr (new, empty) ↦ put-Keeps_new name (subdir ds') dst new p target found
      ])
