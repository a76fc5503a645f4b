-- ===== src/WithEnv/LinkTree/Lookup.antt =====
-- Looking up paths in the destination of `link_tree`.
use static_distro.Shared.{
  ◌≡◌, inl, inr, refl, List, [], ◌∷◌, Option, none, some, ◌>>=◌, arith, if◌then◌else◌, Bool-cases,
  str_eq, str_eq_iff, Bytes,
}
use static_distro.WithEnv.LinkTree.{Dest, link, subdir, Dests, no_dest, dest, lookup, put}

pub lookup-put :
    (n m : Bytes) (d : Dest) (ds : Dests)
    → lookup m (put n d ds) ≡ (if str_eq n m then some d else lookup m ds)
unfolding lookup put
lookup-put n m d no_dest = refl
lookup-put n m d (dest k e ds) =
    ground (arith, str_eq_iff n m, str_eq_iff k n, str_eq_iff k m, lookup-put n m d ds)

-- What stands at a path below an entry.
unfoldable pub find_in : List Bytes → Dest → Option Dest
find_in [] d = some d
find_in (n ∷ ns) (link target) = none
find_in (n ∷ ns) (subdir ds) = lookup n ds >>= find_in ns

pub find_in-put :
    (n m : Bytes) (ns : List Bytes) (d : Dest) (ds : Dests)
    → find_in (m ∷ ns) (subdir (put n d ds))
      ≡ (if str_eq n m then find_in ns d else find_in (m ∷ ns) (subdir ds))
unfolding find_in
find_in-put n m ns d ds = elim (Bool-cases (str_eq n m)) [
  | inl same ↦ rw (lookup-put n m d ds, same)
  | inr other ↦ rw (lookup-put n m d ds, other)
]
