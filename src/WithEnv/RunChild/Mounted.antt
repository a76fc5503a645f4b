-- ===== src/WithEnv/RunChild/Mounted.antt =====
-- What tools/withenv.c has mounted when the command takes over.
use static_distro.Shared.Calls.{System, go}
use static_distro.Shared.Plans.Done.{
  SucceededBefore, run_plan-SucceededBefore, run_plan_refused, NeedsOrRefuses, needs_left,
  needs_right,
}
use static_distro.Shared.Plans.{need, run_plan, Follows-run_plan}
use static_distro.Shared.{
  List, [], ◌∷◌, ◌++◌, none, some, ◌≡◌, ◌⊎◌, inl, inr, refl, sym, ap, subst, ◌∙◌, true, Bool-cases,
  Bytes, codes,
}
use static_distro.WithEnv.Paths.{join, each_fits, path_parts-join}
use static_distro.WithEnv.RunChild.Plan.{
  mkdir_plan, make_plan, mountbind_plan, package_parts, host_parts, packages_plan, late_plan,
  run_child-Follows, root_plan, usr_plan, change_plan, mounts_front, child_plan-front,
}
use static_distro.WithEnv.RunChild.{Call, mount_bind, remount_ro, exec, read_mode, run_child}
use static_distro.WithEnv.{EnvPackage, EnvOpts, path_parts}
use mathlib.Core.List.{Memᴰ}
use mathlib.Core.List.Memᴰ.{head, tail, not-nil, append_left, append_right}

path_parts-cases :
    (parts : List Bytes) → (path_parts parts ≡ none) ⊎ (path_parts parts ≡ some (join parts))
path_parts-cases parts = elim (Bool-cases (each_fits parts)) [
  | inl fits ↦ inr (path_parts-join parts ∙ rw fits)
  | inr over ↦ inl (path_parts-join parts ∙ rw over)
]

mountbind_plan-bind :
    (src target : List Bytes)
    → NeedsOrRefuses (mount_bind (join src) (join target)) (mountbind_plan src target true)
mountbind_plan-bind src target = elim (path_parts-cases src) [
  | inl long ↦ rw (long) (inr (head refl))
  | inr path ↦ elim (path_parts-cases target) [
    | inl long ↦ rw (path, long) (inr (head refl))
    | inr target_path ↦ rw (path, target_path) (inl (head refl))
  ]
]

mountbind_plan-remount :
    (src target : List Bytes)
    → NeedsOrRefuses (remount_ro (join target)) (mountbind_plan src target true)
mountbind_plan-remount src target = elim (path_parts-cases src) [
  | inl long ↦ rw (long) (inr (head refl))
  | inr path ↦ elim (path_parts-cases target) [
    | inl long ↦ rw (path, long) (inr (head refl))
    | inr target_path ↦ rw (path, target_path) (inl (tail (head refl)))
  ]
]

packages_plan-needs :
    (root packagedir : Bytes) (p : EnvPackage) (ps : List EnvPackage) (c : Call)
    → Memᴰ p ps
    → NeedsOrRefuses c (mountbind_plan (host_parts packagedir p) (package_parts root p) true)
    → NeedsOrRefuses c (packages_plan root packagedir ps)
packages_plan-needs root packagedir p [] c m h = absurd (not-nil m)
packages_plan-needs root packagedir p (q ∷ qs) c (head is_q) h =
    let h' =
      subst
        (λ r.
          NeedsOrRefuses c (mountbind_plan (host_parts packagedir r) (package_parts root r) true))
        is_q h in
    needs_right c (make_plan (root ∷ codes "packages" ∷ q.name ∷ []) read_mode) _ (
      needs_right c (mkdir_plan (package_parts root q) read_mode) _ (
        needs_left c (mountbind_plan (host_parts packagedir q) (package_parts root q) true)
          (packages_plan root packagedir qs) h'))
packages_plan-needs root packagedir p (q ∷ qs) c (tail m) h =
    needs_right c (make_plan (root ∷ codes "packages" ∷ q.name ∷ []) read_mode) _ (
      needs_right c (mkdir_plan (package_parts root q) read_mode) _ (
        needs_right c (mountbind_plan (host_parts packagedir q) (package_parts root q) true) _
          (packages_plan-needs root packagedir p qs c m h)))

late_plan-exec :
    (root : Bytes) (o : EnvOpts) (cmd : List Bytes) → Memᴰ (need (exec cmd)) (late_plan root o cmd)
late_plan-exec root o cmd = tail (
    tail (
      append_right (root_plan o.packages)
        (tail (append_right usr_plan (tail (append_right (change_plan o.new_cwdir) (head refl)))))))

before_exec :
    (root : Bytes) (o : EnvOpts) (cmd : List Bytes) (p : EnvPackage) (c : Call) (sys : System Call)
    (calls done : List Call)
    → Memᴰ p o.packages
    → NeedsOrRefuses c (mountbind_plan (host_parts o.packagedir p) (package_parts root p) true)
    → run_child root o cmd sys calls ≡ go tt done
    → SucceededBefore sys c (exec cmd) done
before_exec root o cmd p c sys calls done m h ran =
    let front = mounts_front root o ++ packages_plan root o.packagedir o.packages in
    let planned : run_plan (front ++ late_plan root o cmd) sys calls ≡ go tt done =
      subst (λ es. run_plan es sys calls ≡ go tt done) (child_plan-front root o cmd)
        (sym (ap (λ m. m sys calls) (Follows-run_plan (run_child-Follows root o cmd))) ∙ ran) in
    let needs : NeedsOrRefuses c front =
      needs_right c (mounts_front root o) _
        (packages_plan-needs root o.packagedir p o.packages c m h) in
    elim needs [
      | inl needed ↦
          run_plan-SucceededBefore front (late_plan root o cmd) sys c (exec cmd) calls done needed
            (late_plan-exec root o cmd) planned
      | inr refused ↦ absurd (
          run_plan_refused (front ++ late_plan root o cmd) sys calls done
            (append_left (late_plan root o cmd) refused) planned)
    ]

-- When `run_child` gets to its end, so that the command takes over, each package of the options
-- was mounted from its version's directory on the host to its place in the new root, and mounted
-- for reading only, both with success and before the command was called.
pub run_child-mounts :
    (root : Bytes) (o : EnvOpts) (cmd : List Bytes) (p : EnvPackage) (sys : System Call)
    (calls done : List Call)
    → Memᴰ p o.packages
    → run_child root o cmd sys calls ≡ go tt done
    → SucceededBefore sys
        (mount_bind (join (host_parts o.packagedir p)) (join (package_parts root p)))
        (exec cmd)
        done
      × SucceededBefore sys (remount_ro (join (package_parts root p))) (exec cmd) done
run_child-mounts root o cmd p sys calls done m ran = (
  before_exec root o cmd p _ sys calls done m
      (mountbind_plan-bind (host_parts o.packagedir p) (package_parts root p)) ran,
  before_exec root o cmd p _ sys calls done m
      (mountbind_plan-remount (host_parts o.packagedir p) (package_parts root p)) ran,
)
