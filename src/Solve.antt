-- ===== src/Solve.antt =====
-- tools/solve.c: the dependency solver. A pointer to a package is its position in the list from
-- `packages_first`, which only grows at its end. Allocation is taken to succeed.
pub mod Insert
pub mod Names
pub mod Round
pub mod Loop
pub mod Closed
pub mod VersionAdd
pub mod Results
pub mod Pigeonhole
pub mod Fuel
pub mod Sorted
pub mod Destroy
mod Tests
use static_distro.Shared.{
  ℕ, zero, suc, ◌+◌, ◌-◌, Bool, true, false, List, [], ◌∷◌, ◌++◌, Option, none, some, ◌==◌,
  if◌then◌else◌, length, get_elem?, set, str_eq, Bytes,
}
use static_distro.Version.{VercmpResult, ver_lt, ver_eq, ver_gt, ver_failed, version_cmp}
use mathlib.Core.Option

-- `struct version`, with the list of `struct dependency` as the list of their constraints
pub record Version : Type 0 where
  pub version : Bytes
  pub dependencies : List Bytes

pub record Package : Type 0 where
  pub name : Bytes
  pub available : List Version
  pub chosen : Option Version
  pub scanned : Bool

-- The values 0, 1 and -1 of `solved`.
pub data Solved : Type 0 where
  not_run solved failed_run : Solved

pub record SolveProblem : Type 0 where
  pub packages : List Package
  pub solved : Solved

-- How a call ends: it returns 0 or -1, with the state it leaves, or the process ends, by `abort` or
-- by following a null pointer.
pub data Outcome {ℓ} (A : Type ℓ) : Type ℓ where
  done : A → Outcome A
  failed : A → Outcome A
  aborted : Outcome A

unfoldable pub solve_init : SolveProblem
solve_init = record { packages = []; solved = not_run }

unfoldable pub pkg_lookup : List Package → Bytes → Option ℕ
pkg_lookup [] name = none
pkg_lookup (pkg ∷ pkgs) name =
    if str_eq pkg.name name then some 0 else Option.map suc (pkg_lookup pkgs name)

abbrev pub new_package : Bytes → Package
new_package name = record { name = name; available = []; chosen = none; scanned = false }

-- The package that is found or appended, as a position.
unfoldable pub pkg_add : SolveProblem → Bytes → SolveProblem × ℕ
pkg_add p name = elim (pkg_lookup p.packages name) [
  | some i ↦ (p, i)
  | none ↦ (record p { packages = p.packages ++ (new_package name ∷ []) }, length p.packages)
]

unfoldable pub solve_constraint_add : SolveProblem → Bytes → SolveProblem
solve_constraint_add p constraint = (pkg_add p constraint).0

-- The test for a version that is there already.
unfoldable pub has_version : List Version → Bytes → Bool
has_version [] version = false
has_version (v ∷ vs) version = if str_eq v.version version then true else has_version vs version

-- `dependencies` of the new version: each one is put in front of those before it.
unfoldable pub push_deps : List Bytes → List Bytes → List Bytes
push_deps [] deps = deps
push_deps (d ∷ ds) deps = push_deps ds (d ∷ deps)

-- The loop that looks for the place of a new version, and the insertion there.
unfoldable pub insert_version : Version → List Version → Outcome (List Version)
insert_version ver [] = done (ver ∷ [])
insert_version ver (v ∷ vs) =
    let further = insert_version ver vs in
    elim (version_cmp ver.version v.version) [
      | ver_failed ↦ failed (v ∷ vs)
      | ver_eq ↦ aborted
      | ver_gt ↦ done (ver ∷ v ∷ vs)
      | ver_lt ↦ elim further [
        | done vs' ↦ done (v ∷ vs')
        | failed vs' ↦ failed (v ∷ vs')
        | aborted ↦ aborted
      ]
    ]

abbrev pub set_package : SolveProblem → ℕ → Package → SolveProblem
set_package p i pkg = record p { packages = set p.packages i pkg }

-- The rest of `solve_package_version_add`, with the package that `pkg_add` returned.
unfoldable pub version_add_to : SolveProblem → ℕ → Package → Version → Outcome SolveProblem
version_add_to p i pkg ver =
    if has_version pkg.available ver.version
    then done p
    else elim (insert_version ver pkg.available) [
      | done vs ↦ done (set_package p i (record pkg { available = vs }))
      | failed vs ↦ failed p
      | aborted ↦ aborted
    ]

unfoldable pub solve_package_version_add :
    SolveProblem → Bytes → Bytes → List Bytes → Outcome SolveProblem
solve_package_version_add p name version deps =
    let ver : Version = record { version = version; dependencies = push_deps deps [] } in
    let (p', i) = pkg_add p name in
    elim (get_elem? p'.packages i) [ none ↦ aborted | some pkg ↦ version_add_to p' i pkg ver ]

-- What `solve_result_package` returns: a package with its chosen version, -1, or nothing, since it
-- follows a null pointer.
pub data ResultPackage : Type 0 where
  found : Bytes → Bytes → ResultPackage
  no_more null_deref : ResultPackage

-- Its two loops, on the packages from `pkg` on and on `n - i`. The flag says that `pkg` has been
-- moved by the inner loop. The counters are `unsigned` in the code, and are taken here without their
-- wrap-around, which is the same for fewer than 2^32 packages.
unfoldable pub result_loop : Bool → List Package → ℕ → ResultPackage
result_loop false [] n = no_more
result_loop true [] n = if n == 0 then no_more else null_deref
result_loop skipped (pkg ∷ pkgs) n = elim pkg.chosen [
  | none ↦ result_loop true pkgs n
  | some v ↦ if n == 0 then found pkg.name v.version else result_loop false pkgs (n - 1)
]

unfoldable pub solve_result_package : SolveProblem → ℕ → ResultPackage
solve_result_package p n = result_loop false p.packages n

-- The loop that adds the constraints of the chosen version.
unfoldable pub add_deps : SolveProblem → List Bytes → SolveProblem
add_deps p [] = p
add_deps p (d ∷ ds) = add_deps (solve_constraint_add p d) ds

-- The callback `get_pkt`, over the state `W` behind its `opaque` pointer.
abbrev pub GetPkt : Type 0 → Type 0
GetPkt W = W → SolveProblem → Bytes → Outcome (W × SolveProblem)

-- `solve_run`
module _ {W : Type 0} where
  -- The call of `get_pkt`, if there is one.
  abbrev pub call_get_pkt :
      Option (GetPkt W) → W → SolveProblem → Bytes → Outcome (W × SolveProblem)
  call_get_pkt none w p name = done (w, p)
  call_get_pkt (some get) w p name = get w p name

  -- The choice of the first available version of the package at position `i`.
  unfoldable pub choose : W → SolveProblem → ℕ → Package → Outcome (W × SolveProblem)
  choose w p i pkg = elim pkg.available [
    | [] ↦ failed (w, p)
    | v ∷ _ ↦ done (w, add_deps (set_package p i (record pkg { chosen = some v })) v.dependencies)
  ]

  -- One round of the loop, for the package `pkg` at position `i`.
  unfoldable pub run_round :
      Option (GetPkt W) → W → SolveProblem → ℕ → Package → Outcome (W × SolveProblem)
  run_round get w p i pkg = elim (call_get_pkt get w p pkg.name) [
    | failed s ↦ failed s
    | aborted ↦ aborted
    | done (w', p') ↦ elim (get_elem? p'.packages i) [ none ↦ aborted | some q ↦ choose w' p' i q ]
  ]

  -- The loop from position `i` on; `none` means that the fuel ran out.
  unfoldable pub run_loop :
      ℕ → Option (GetPkt W) → W → SolveProblem → ℕ → Option (Outcome (W × SolveProblem))
  run_loop zero get w p i = elim (get_elem? p.packages i) [
    | none ↦ some (done (w, p))
    | some pkg ↦ none
  ]
  run_loop (suc fuel) get w p i = elim (get_elem? p.packages i) [
    | none ↦ some (done (w, p))
    | some pkg ↦ elim (run_round get w p i pkg) [
      | failed s ↦ some (failed s)
      | aborted ↦ some aborted
      | done (w', p') ↦ run_loop fuel get w' p' (suc i)
    ]
  ]

  abbrev pub mark : Outcome (W × SolveProblem) → Outcome (W × SolveProblem)
  mark (done (w, p)) = done (w, record p { solved = solved })
  mark (failed (w, p)) = failed (w, record p { solved = failed_run })
  mark aborted = aborted

  unfoldable pub solve_run :
      ℕ → Option (GetPkt W) → W → SolveProblem → Option (Outcome (W × SolveProblem))
  solve_run fuel get w p = elim p.solved [
    | not_run ↦ Option.map mark (run_loop fuel get w p 0)
    | solved ↦ some (failed (w, p))
    | failed_run ↦ some (failed (w, p))
  ]
