-- ===== src/WithEnv/LinkTree.antt =====
-- `link_tree` of tools/withenv.c: links to the entries of a directory and of all below it.
-- A directory is the list of its entries in the order of `readdir`, without `.` and `..`; opening a
-- directory that is there succeeds, and so does making one. A link that stands in the destination
-- leads to something that is no directory, as those do that are made here.
pub mod Lookup
pub mod Exact
pub mod Links
use static_distro.Shared.{
  suc, ◌+◌, Bool, true, false, List, [], ◌∷◌, ◌++◌, Option, none, some, ◌>>=◌, ltb, ◌==◌,
  if◌then◌else◌, length, str_eq, Bytes, codes,
}
use static_distro.WithEnv.{path_max}

-- The source: an entry for which `fstatat` fails, one that is no directory, or a directory.
mutual
  pub data Node : Type 0 where
    broken file : Node
    dir : Entries → Node

  pub data Entries : Type 0 where
    no_entry : Entries
    entry : Bytes → Node → Entries → Entries

-- The destination.
mutual
  pub data Dest : Type 0 where
    link : Bytes → Dest
    subdir : Dests → Dest

  pub data Dests : Type 0 where
    no_dest : Dests
    dest : Bytes → Dest → Dests → Dests

unfoldable pub lookup : Bytes → Dests → Option Dest
lookup n no_dest = none
lookup n (dest m d ds) = if str_eq m n then some d else lookup n ds

-- A new entry, or one in place of the entry of this name.
unfoldable pub put : Bytes → Dest → Dests → Dests
put n d no_dest = dest n d no_dest
put n d (dest m e ds) = let rest = dest m e (put n d ds) in if str_eq m n then dest m d ds else rest

-- A call returns 0 or -1, with the destination that it leaves.
pub data Linked : Type 0 where
  linked failed : Dests → Linked

abbrev pub is_hidden : Bytes → Bool
is_hidden [] = false
is_hidden (c ∷ cs) = c == b'.'

-- The path of an entry.
abbrev pub below : Bytes → Bytes → Bytes
below path name = path ++ (codes "/" ++ name)

abbrev pub too_long : Bytes → Bytes → Bool
too_long path name = ltb path_max (length path + 1 + length name)

-- What a call for a directory leaves in the destination above it.
abbrev pub within : Bytes → Dests → Linked → Linked
within name dst (linked ds) = linked (put name (subdir ds) dst)
within name dst (failed ds) = failed (put name (subdir ds) dst)

unfoldable mutual
  -- The loop.
  pub link_tree : Bytes → Entries → Dests → Linked
  link_tree path no_entry dst = linked dst
  link_tree path (entry name node es) dst = elim (is_hidden name) [
    | true ↦ link_tree path es dst
    | false ↦ elim (link_entry path name node dst) [
      | failed ds ↦ failed ds
      | linked ds ↦ link_tree path es ds
    ]
  ]

  -- Its body, for an entry that is not hidden.
  pub link_entry : Bytes → Bytes → Node → Dests → Linked
  link_entry path name broken dst = failed dst
  link_entry path name file dst = elim (too_long path name) [
    | true ↦ failed dst
    | false ↦ elim (lookup name dst) [
      | some d ↦ failed dst
      | none ↦ linked (put name (link (below path name)) dst)
    ]
  ]
  link_entry path name (dir es) dst = elim (too_long path name) [
    | true ↦ failed dst
    | false ↦ elim (lookup name dst) [
      | some (link target) ↦ failed dst
      | some (subdir ds) ↦ within name dst (link_tree (below path name) es ds)
      | none ↦ within name dst (link_tree (below path name) es no_dest)
    ]
  ]
