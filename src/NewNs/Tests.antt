-- ===== src/NewNs/Tests.antt =====
-- Runs of tools/newns.c.
use static_distro.LibC.Getopt.{operand, arg_of, scan_word, kind_of, fold_events, getopt}
use static_distro.LibC.{isspace, isdigit, span_len, digits_value}
use static_distro.NewNs.Ids.{parse_opts-print_unsigned}
use static_distro.NewNs.{
  convert_long, convert_sign, strtol, option_switch, parse_opts, print_digits, print_unsigned,
  idmap_text, set_idmap, write_proc, NewIds, newns, new_namespaces, setgroups_deny, run_child,
  exit_status, Call, fork, umask, unshare, open_file, write_file, mount_proc, setgid, setuid, exec,
}
use static_distro.NewNs.Order.{newns-order}
use static_distro.Shared.Calls.{System, Step, ok, go, stop}
use static_distro.Shared.Plans.Done.{SucceededBefore}
use static_distro.Shared.{ℕ, ◌*◌, ◌≡◌, refl, true, List, [], ◌∷◌, some, none, codes, arith}

-- Opens all that a run computes with.
runs : Unit {0}
unfolding isspace isdigit span_len digits_value convert_long convert_sign strtol option_switch
    kind_of scan_word arg_of getopt fold_events parse_opts print_digits print_unsigned idmap_text
    set_idmap write_proc setgroups_deny new_namespaces run_child newns exit_status
runs = tt

abbrev command : List (List ℕ)
command = codes "sh" ∷ codes "-c" ∷ codes "id" ∷ []

parse_opts_runs :
    parse_opts (codes "-u1000" ∷ codes "-g" ∷ codes " 100" ∷ command)
    ≡ some (record { new_uid = 1000; new_gid = 100 }, command)
unfolding runs
parse_opts_runs = refl

parse_opts_trailing : parse_opts (codes "-u" ∷ codes "10x" ∷ command) ≡ none
unfolding runs
parse_opts_trailing = refl

parse_opts_no_command : parse_opts (codes "-u" ∷ codes "10" ∷ []) ≡ none
unfolding runs
parse_opts_no_command = refl

abbrev willing : System Call
willing calls c = ok

newns_runs :
    newns 1000 100 (record { new_uid = 0; new_gid = 0 }) command willing []
    ≡ go tt (
        exec command
        ∷ setuid 0
        ∷ setgid 0
        ∷ umask 18
        ∷ mount_proc
        ∷ fork
        ∷ umask 0
        ∷ write_file (codes "/proc/self/gid_map") (codes "0 100 1")
        ∷ open_file (codes "/proc/self/gid_map")
        ∷ write_file (codes "/proc/self/uid_map") (codes "0 1000 1")
        ∷ open_file (codes "/proc/self/uid_map")
        ∷ write_file (codes "/proc/self/setgroups") (codes "deny")
        ∷ open_file (codes "/proc/self/setgroups")
        ∷ unshare true
        ∷ fork
        ∷ [])
unfolding runs
newns_runs = refl

exit_status_runs : exit_status (some (3 * 256)) ≡ 3
unfolding runs
exit_status_runs = refl

-- A failed wait is reported as a status of 255.
exit_status_failed : exit_status none ≡ 255
unfolding runs
exit_status_failed = refl

parse_opts-print_unsigned_example :
    parse_opts
      (codes "-u" ∷ print_unsigned 1000 ∷ codes "-g" ∷ print_unsigned 4294967295 ∷ codes "sh" ∷ [])
    ≡ some (record { new_uid = 1000; new_gid = 4294967295 }, codes "sh" ∷ [])
parse_opts-print_unsigned_example =
    parse_opts-print_unsigned 1000 4294967295 (codes "sh") [] (omega arith) (omega arith) plain
  where
    plain : arg_of (codes "sh") ≡ operand
    plain = unfold runs in refl

abbrev calls_of : Step Call (Unit {0}) → List Call
calls_of (go a done) = done
calls_of (stop done) = done

abbrev root_ids : NewIds
root_ids = record { new_uid = 0; new_gid = 0 }

abbrev all_calls : List Call
all_calls = calls_of (newns 1000 100 root_ids command willing [])

newns-order_example :
    SucceededBefore willing
      (write_file (codes "/proc/self/setgroups") (codes "deny"))
      (write_file (codes "/proc/self/gid_map") (idmap_text 0 100))
      all_calls
    × SucceededBefore willing
        (write_file (codes "/proc/self/gid_map") (idmap_text 0 100))
        (setgid 0)
        all_calls
    × SucceededBefore willing
        (write_file (codes "/proc/self/uid_map") (idmap_text 0 1000))
        (setuid 0)
        all_calls
    × SucceededBefore willing (setgid 0) (setuid 0) all_calls
    × SucceededBefore willing (setuid 0) (exec command) all_calls
newns-order_example =
    newns-order root_ids 1000 100 command willing all_calls (omega arith) (omega arith)
      (omega arith) (omega arith) (omega arith) ran
  where
    ran : newns 1000 100 root_ids command willing [] ≡ go tt all_calls
    ran = unfold runs in refl
