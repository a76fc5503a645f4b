-- ===== src/NewNs.antt =====
-- tools/newns.c: a command in new namespaces. The calls of the child processes are in one sequence:
-- the parents only wait. `int` and `id_t` have 32 bits, `long` has 64.
pub mod Ids
pub mod Order
mod Tests
use static_distro.LibC.Getopt.{Event, opt, opt_arg, bad, getopt, fold_events}
use static_distro.LibC.{isspace, isdigit, span_len, digits_value}
use static_distro.Shared.Calls.{M, ◌>>=◌, ◌>>◌, must, just_call, pure, give_up}
use static_distro.Shared.{
  ℕ, zero, suc, ◌+◌, ◌-◌, ◌*◌, ◌/◌, ◌%◌, ◌^◌, Bool, true, false, List, [], ◌∷◌, ◌++◌, Option, none,
  some, ltb, leb, ◌==◌, if◌then◌else◌, length, drop, Bytes, codes,
}

-- `strtol(s, &end, 10)`, converted to `int`: the 32 bits of the value, and what `end` points to.
pub record LongConverted : Type 0 where
  pub bits : ℕ
  pub rest : Bytes

unfoldable pub convert_long : Bool → Bytes → Bytes → LongConverted
convert_long neg whole s =
    let len = span_len isdigit s in
    let n = digits_value 0 s in
    if len == 0 then record { bits = 0; rest = whole } else record {
      bits =
          if neg
          then (if ltb (2 ^ 63) n then 0 else (2 ^ 64 - n) % 2 ^ 32)
          else (if leb (2 ^ 63) n then 2 ^ 32 - 1 else n % 2 ^ 32);
      rest = drop len s;
    }

unfoldable pub convert_sign : Bytes → Bytes → LongConverted
convert_sign whole [] = convert_long false whole []
convert_sign whole (c ∷ s) =
    if c == b'-'
    then convert_long true whole s
    else if c == b'+'
    then convert_long false whole s
    else convert_long false whole (c ∷ s)

unfoldable pub strtol : Bytes → LongConverted
strtol s = convert_sign s (drop (span_len isspace s) s)

-- The bits of `new_uid` and `new_gid`.
pub record NewIds : Type 0 where
  pub new_uid : ℕ
  pub new_gid : ℕ

abbrev pub is_end : Bytes → Bool
is_end [] = true
is_end (_ ∷ _) = false

-- The switch of `parse_opts`.
unfoldable pub option_switch : NewIds → Event → Option NewIds
option_switch ids (opt c) = none
option_switch ids (bad c) = none
option_switch ids (opt_arg c arg) =
    let id = strtol arg in
    if c == b'u'
    then (if is_end id.rest then some (record ids { new_uid = id.bits }) else none)
    else if c == b'g'
    then (if is_end id.rest then some (record ids { new_gid = id.bits }) else none)
    else none

abbrev pub with_command : Option NewIds → List Bytes → Option (NewIds × List Bytes)
with_command none cmd = none
with_command (some ids) [] = none
with_command (some ids) (c ∷ cmd) = some (ids, c ∷ cmd)

unfoldable pub parse_opts : List Bytes → Option (NewIds × List Bytes)
parse_opts args =
    let (events, operands) = getopt true (codes "u:g:") args in
    with_command (fold_events option_switch (record { new_uid = 0; new_gid = 0 }) events) operands

-- The digits that `%u` prints, in front of `acc`; twenty digits are enough for 64 bits.
unfoldable pub print_digits : ℕ → ℕ → Bytes → Bytes
print_digits zero n acc = acc
print_digits (suc fuel) n acc =
    let more = print_digits fuel (n / 10) ((b'0' + n % 10) ∷ acc) in
    if ltb n 10 then (b'0' + n) ∷ acc else more

unfoldable pub print_unsigned : ℕ → Bytes
print_unsigned n = print_digits 20 n []

-- What `set_idmap` prints.
unfoldable pub idmap_text : ℕ → ℕ → Bytes
idmap_text new_id env_id =
    print_unsigned new_id ++ (codes " " ++ (print_unsigned env_id ++ codes " 1"))

-- The calls of the processes.
pub data Call : Type 0 where
  fork : Call
  umask : ℕ → Call
  unshare : Bool → Call
  open_file : Bytes → Call
  write_file : Bytes → Bytes → Call
  mount_proc : Call
  setgid setuid : ℕ → Call
  exec : List Bytes → Call

-- A write that is not complete counts as an error.
unfoldable pub write_proc : Bytes → Bytes → M Call (Unit {0})
write_proc path text = do must (open_file path); must (write_file path text)

unfoldable pub setgroups_deny : M Call (Unit {0})
setgroups_deny = write_proc (codes "/proc/self/setgroups") (codes "deny")

abbrev pub buffer_size : ℕ
buffer_size = 64

-- `snprintf` returns the length of the whole text.
unfoldable pub set_idmap : Bytes → ℕ → ℕ → M Call (Unit {0})
set_idmap path new_id env_id =
    let text = idmap_text new_id env_id in
    if leb buffer_size (length text) then give_up else write_proc path text

-- The namespaces of the first child; the flag of `unshare` says that a user namespace is among them.
unfoldable pub new_namespaces : NewIds → ℕ → ℕ → M Call (Unit {0})
new_namespaces ids env_uid env_gid = if env_uid == 0 then must (unshare false) else (do
  must (unshare true)
  setgroups_deny
  set_idmap (codes "/proc/self/uid_map") ids.new_uid env_uid
  set_idmap (codes "/proc/self/gid_map") ids.new_gid env_gid)

-- `run_child`
unfoldable pub run_child : NewIds → List Bytes → M Call (Unit {0})
run_child ids cmd = do
  just_call (umask 0)
  must fork
  must mount_proc
  just_call (umask 18)
  must (setgid ids.new_gid)
  must (setuid ids.new_uid)
  must (exec cmd)

-- The child of `main`, from the user and group that `getuid` and `getgid` return on.
unfoldable pub newns : ℕ → ℕ → NewIds → List Bytes → M Call (Unit {0})
newns env_uid env_gid ids cmd = do must fork; new_namespaces ids env_uid env_gid; run_child ids cmd

-- WIFEXITED and WEXITSTATUS
read_status : ℕ → ℕ
read_status status = if status % 128 == 0 then status / 256 % 256 else 255

-- The status that `main` exits with, from what `waitpid` gave: a status, or a failure. A failed call
-- leaves EXIT_FAILURE in the place of the status, which is then read as one.
unfoldable pub exit_status : Option ℕ → ℕ
unfolding read_status
exit_status none = read_status 1
exit_status (some status) = read_status status
