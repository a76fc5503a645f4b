-- ===== src/NewNs/Order.antt =====
-- The order in which tools/newns.c gives the command its identifiers.
use static_distro.NewNs.Ids.{set_idmap_room}
use static_distro.NewNs.{
  NewIds, Call, fork, umask, unshare, open_file, write_file, mount_proc, setgid, setuid, exec,
  write_proc, setgroups_deny, idmap_text, set_idmap, new_namespaces, run_child, newns,
}
use static_distro.Shared.Calls.{System, go}
use static_distro.Shared.Plans.Done.{SucceededBefore, run_plan-SucceededBefore}
use static_distro.Shared.Plans.{
  Entry, need, any, run_plan, Follows, Follows-run_plan, then-Follows, entry-Follows, then_entry,
}
use static_distro.Shared.{
  ℕ, ◌^◌, ◌<◌, List, [], ◌∷◌, ◌++◌, ◌==◌, ◌≡◌, refl, sym, ap, ◌∙◌, true, false, Bytes, codes, arith,
}
use mathlib.Core.List.Memᴰ.{head, tail, append_right}

abbrev uid_map : Bytes
uid_map = codes "/proc/self/uid_map"

abbrev gid_map : Bytes
gid_map = codes "/proc/self/gid_map"

abbrev setgroups : Bytes
setgroups = codes "/proc/self/setgroups"

abbrev write_plan : Bytes → Bytes → List (Entry Call)
write_plan path text = need (open_file path) ∷ need (write_file path text) ∷ []

-- The calls for a user that is not root.
abbrev user_plan : NewIds → ℕ → ℕ → List (Entry Call)
user_plan ids env_uid env_gid =
    need (unshare true)
    ∷ (write_plan setgroups (codes "deny")
        ++ (write_plan uid_map (idmap_text ids.new_uid env_uid)
            ++ write_plan gid_map (idmap_text ids.new_gid env_gid)))

abbrev child_plan : NewIds → List Bytes → List (Entry Call)
child_plan ids cmd =
    any (umask 0)
    ∷ need fork
    ∷ need mount_proc
    ∷ any (umask 18)
    ∷ need (setgid ids.new_gid)
    ∷ need (setuid ids.new_uid)
    ∷ need (exec cmd)
    ∷ []

write_proc-plan : (path text : Bytes) → Follows (write_proc path text) (write_plan path text)
unfolding write_proc
write_proc-plan path text =
    then_entry (need (open_file path)) (entry-Follows (need (write_file path text)))

set_idmap-plan :
    (path : Bytes) (new_id env_id : ℕ)
    → new_id < 2 ^ 32
    → env_id < 2 ^ 32
    → Follows (set_idmap path new_id env_id) (write_plan path (idmap_text new_id env_id))
set_idmap-plan path new_id env_id h k =
    let (_, is_write) = set_idmap_room path new_id env_id h k in
    rw (is_write) (write_proc-plan path (idmap_text new_id env_id))

new_namespaces-plan :
    (ids : NewIds) (env_uid env_gid : ℕ)
    → ids.new_uid < 2 ^ 32
    → ids.new_gid < 2 ^ 32
    → 0 < env_uid
    → env_uid < 2 ^ 32
    → env_gid < 2 ^ 32
    → Follows (new_namespaces ids env_uid env_gid) (user_plan ids env_uid env_gid)
unfolding new_namespaces setgroups_deny
new_namespaces-plan ids env_uid env_gid hu hg other ku kg =
    let no_root : (env_uid == 0) ≡ false = ground arith in
    rw (new_namespaces, no_root)
      (then_entry (need (unshare true)) (
        then-Follows (write_proc-plan setgroups (codes "deny")) (
          then-Follows (set_idmap-plan uid_map ids.new_uid env_uid hu ku)
            (set_idmap-plan gid_map ids.new_gid env_gid hg kg))))

run_child-plan :
    (ids : NewIds) (cmd : List Bytes) → Follows (run_child ids cmd) (child_plan ids cmd)
unfolding run_child
run_child-plan ids cmd = then_entry (any (umask 0)) (
    then_entry (need fork) (
      then_entry (need mount_proc) (
        then_entry (any (umask 18)) (
          then_entry (need (setgid ids.new_gid))
            (then_entry (need (setuid ids.new_uid)) (entry-Follows (need (exec cmd))))))))

newns-plan :
    (ids : NewIds) (env_uid env_gid : ℕ) (cmd : List Bytes)
    → ids.new_uid < 2 ^ 32
    → ids.new_gid < 2 ^ 32
    → 0 < env_uid
    → env_uid < 2 ^ 32
    → env_gid < 2 ^ 32
    → Follows
        (newns env_uid env_gid ids cmd)
        (need fork ∷ (user_plan ids env_uid env_gid ++ child_plan ids cmd))
unfolding newns
newns-plan ids env_uid env_gid cmd hu hg other ku kg = then_entry (need fork) (
    then-Follows (new_namespaces-plan ids env_uid env_gid hu hg other ku kg)
      (run_child-plan ids cmd))

-- When the command of a user that is not root takes over, with all identifiers in 32 bits:
-- `setgroups` was denied before the map of the groups was written, the map of the groups was
-- written before the group was taken and that of the users before the user was taken, and the
-- group was taken before the user, and the user before the command was called.
pub newns-order :
    (ids : NewIds) (env_uid env_gid : ℕ) (cmd : List Bytes) (sys : System Call) (done : List Call)
    → ids.new_uid < 2 ^ 32
    → ids.new_gid < 2 ^ 32
    → 0 < env_uid
    → env_uid < 2 ^ 32
    → env_gid < 2 ^ 32
    → newns env_uid env_gid ids cmd sys [] ≡ go tt done
    → SucceededBefore sys
        (write_file setgroups (codes "deny"))
        (write_file gid_map (idmap_text ids.new_gid env_gid))
        done
      × SucceededBefore sys
          (write_file gid_map (idmap_text ids.new_gid env_gid))
          (setgid ids.new_gid)
          done
      × SucceededBefore sys
          (write_file uid_map (idmap_text ids.new_uid env_uid))
          (setuid ids.new_uid)
          done
      × SucceededBefore sys (setgid ids.new_gid) (setuid ids.new_uid) done
      × SucceededBefore sys (setuid ids.new_uid) (exec cmd) done
newns-order ids env_uid env_gid cmd sys done hu hg other ku kg ran =
    let follows = newns-plan ids env_uid env_gid cmd hu hg other ku kg in
    let planned : run_plan (first ++ (maps ++ child_plan ids cmd)) sys [] ≡ go tt done =
      sym (ap (λ m. m sys []) (Follows-run_plan follows)) ∙ ran in
    (
      run_plan-SucceededBefore first (maps ++ child_plan ids cmd) sys _ _ [] done
          (tail (tail (tail (head refl)))) (tail (tail (tail (head refl)))) planned,
      run_plan-SucceededBefore (first ++ maps) (child_plan ids cmd) sys _ _ [] done
          (append_right first (tail (tail (tail (head refl)))))
          (tail (tail (tail (tail (head refl))))) planned,
      run_plan-SucceededBefore (first ++ maps) (child_plan ids cmd) sys _ _ [] done
          (append_right first (tail (head refl))) (tail (tail (tail (tail (tail (head refl))))))
          planned,
      run_plan-SucceededBefore (first ++ (maps ++ group))
          (need (setuid ids.new_uid) ∷ need (exec cmd) ∷ []) sys _ _ [] done
          (append_right first (append_right maps (tail (tail (tail (tail (head refl)))))))
          (head refl) planned,
      run_plan-SucceededBefore (first ++ (maps ++ (group ++ (need (setuid ids.new_uid) ∷ []))))
          (need (exec cmd) ∷ []) sys _ _ [] done
          (append_right first (append_right maps (append_right group (head refl)))) (head refl)
          planned,
    )
  where
    first : List (Entry Call)
    first = need fork ∷ need (unshare true) ∷ write_plan setgroups (codes "deny")

    maps : List (Entry Call)
    maps =
        write_plan uid_map (idmap_text ids.new_uid env_uid)
        ++ write_plan gid_map (idmap_text ids.new_gid env_gid)

    group : List (Entry Call)
    group =
        any (umask 0)
        ∷ need fork
        ∷ need mount_proc
        ∷ any (umask 18)
        ∷ need (setgid ids.new_gid)
        ∷ []
