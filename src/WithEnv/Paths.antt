-- ===== src/WithEnv/Paths.antt =====
-- `path_parts` of tools/withenv.c, and the room in its buffer.
use static_distro.Shared.{
  ℕ, suc, ◌+◌, ◌≤◌, ◌<◌, ◌≡◌, refl, Bool, true, ◌&&◌, List, [], ◌∷◌, ◌++◌, none, some, arith, leb,
  if◌then◌else◌, length, length-append, append-nil, ◌∙◌, all, Bytes, codes,
}
use static_distro.WithEnv.{path_max, path_loop, path_parts}

-- The parts with a slash between each two.
abbrev pub join : List Bytes → Bytes
join [] = []
join (p ∷ []) = p
join (p ∷ q ∷ ps) = p ++ (codes "/" ++ join (q ∷ ps))

-- What the code compares: each part, with the slash in front of it, by itself.
abbrev pub fits : Bytes → Bool
fits part = leb (suc (length part)) path_max

abbrev pub each_fits : List Bytes → Bool
each_fits [] = true
each_fits (p ∷ ps) = leb (length p) path_max && all fits ps

-- What the parts and the slashes behind a first part take.
abbrev behind_first : List Bytes → Bytes
behind_first [] = []
behind_first (p ∷ ps) = codes "/" ++ (p ++ behind_first ps)

path_loop-behind :
    (ps : List Bytes) → path_loop true ps ≡ (if all fits ps then some (behind_first ps) else none)
unfolding path_loop
path_loop-behind [] = refl
path_loop-behind (p ∷ ps) = ground (arith, path_loop-behind ps)

join-behind : (p : Bytes) (ps : List Bytes) → join (p ∷ ps) ≡ p ++ behind_first ps
join-behind p [] = rw append-nil
join-behind p (q ∷ ps) = rw (join-behind q ps)

-- `path_parts` joins its parts with slashes, if each of them fits by itself, and refuses them
-- otherwise.
pub path_parts-join :
    (parts : List Bytes) → path_parts parts ≡ (if each_fits parts then some (join parts) else none)
unfolding path_parts path_loop
path_parts-join [] = refl
path_parts-join (p ∷ ps) = ground (arith, path_loop-behind ps, join-behind p ps)

-- The bytes of the joined parts and the NUL behind them.
abbrev pub room : List Bytes → ℕ
room [] = 0
room (p ∷ ps) = suc (length p) + room ps

length-join : (p : Bytes) (ps : List Bytes) → suc (length (join (p ∷ ps))) ≡ room (p ∷ ps)
length-join p [] = omega arith
length-join p (q ∷ ps) =
    omega (arith, length-append p (codes "/" ++ join (q ∷ ps)), length-join q ps)

room-fits : (ps : List Bytes) → room ps ≤ path_max → all fits ps ≡ true
room-fits [] h = refl
room-fits (p ∷ ps) h =
    let first : length p < path_max = omega arith in
    let later : all fits ps ≡ true = room-fits ps (omega arith) in ground arith

-- Parts that fit together, with their slashes and the NUL, are joined in the room of the buffer,
-- which has one byte more than `path_max`.
pub path_parts-within :
    (p : Bytes) (ps : List Bytes)
    → room (p ∷ ps) ≤ suc path_max
    → (path_parts (p ∷ ps) ≡ some (join (p ∷ ps))) × (suc (length (join (p ∷ ps))) ≤ suc path_max)
path_parts-within p ps h =
    let later : all fits ps ≡ true = room-fits ps (omega arith) in
    let first : length p ≤ path_max = omega arith in
    let each : each_fits (p ∷ ps) ≡ true = ground arith in
    (path_parts-join (p ∷ ps) ∙ rw each, omega (arith, length-join p ps))

-- Parts of which each fits by itself, but that need more than the buffer together, are not refused:
-- the path that is written ends behind the buffer.
pub path_parts_overflow :
    (p : Bytes) (ps : List Bytes)
    → each_fits (p ∷ ps) ≡ true
    → suc path_max < room (p ∷ ps)
    → (path_parts (p ∷ ps) ≡ some (join (p ∷ ps))) × (suc path_max < suc (length (join (p ∷ ps))))
path_parts_overflow p ps each h =
    (path_parts-join (p ∷ ps) ∙ rw each, omega (arith, length-join p ps))
