-- ===== src/WithPkgs/Options.antt =====
-- The options of tools/withpkgs.c.
use static_distro.Shared.{◌≡◌, refl, true, false, List, [], ◌∷◌, ◌++◌, some, str_eq, Bytes, codes}
use static_distro.WithPkgs.{default_dir, arg_kind, keep, parse_opts}

-- The options `-d DIR` and `-p PKT`.
pub data Opt : Type 0 where
  dir pkt : Bytes → Opt

-- The options as they stand on the command line.
abbrev pub opt_args : List Opt → List Bytes
opt_args [] = []
opt_args (Opt.dir d ∷ os) = codes "-d" ∷ d ∷ opt_args os
opt_args (Opt.pkt c ∷ os) = codes "-p" ∷ c ∷ opt_args os

-- The last directory, if there is one.
abbrev pub last_dir : Bytes → List Opt → Bytes
last_dir d [] = d
last_dir d (Opt.dir d' ∷ os) = last_dir d' os
last_dir d (Opt.pkt c ∷ os) = last_dir d os

-- The constraints, the last one first, in front of `cs`.
abbrev pub push_constraints : List Bytes → List Opt → List Bytes
push_constraints cs [] = cs
push_constraints cs (Opt.dir d ∷ os) = push_constraints cs os
push_constraints cs (Opt.pkt c ∷ os) = push_constraints (c ∷ cs) os

finished_keeps_all :
    (d : Bytes) (cs args : List Bytes)
    → parse_opts true d cs args ≡ some (record { packagedir = d; packages = cs; args = args })
unfolding parse_opts arg_kind keep
finished_keeps_all d cs [] = refl
finished_keeps_all d cs (a ∷ []) = refl
finished_keeps_all d cs (a ∷ b ∷ more) = rw (finished_keeps_all d cs (b ∷ more))

opts_then :
    (os : List Opt) (d : Bytes) (cs : List Bytes) (c : Bytes) (cmd : List Bytes)
    → parse_opts false d cs (opt_args os ++ (codes "--" ∷ c ∷ cmd))
      ≡ some (record {
        packagedir = last_dir d os;
        packages = push_constraints cs os;
        args = codes "--" ∷ c ∷ cmd;
      })
unfolding parse_opts arg_kind str_eq keep
opts_then [] d cs c cmd = rw (finished_keeps_all d cs (c ∷ cmd))
opts_then (Opt.dir d' ∷ os) d cs c cmd = opts_then os d' cs c cmd
opts_then (Opt.pkt c' ∷ os) d cs c cmd = opts_then os d (c' ∷ cs) c cmd

-- `parse_opts` on options, `--` and a command: it keeps the last directory and all constraints, the
-- last one first, and leaves `--` and the command as they are, also what looks like an option there.
pub parse_opts_lem :
    (os : List Opt) (c : Bytes) (cmd : List Bytes)
    → parse_opts false default_dir [] (opt_args os ++ (codes "--" ∷ c ∷ cmd))
      ≡ some (record {
        packagedir = last_dir default_dir os;
        packages = push_constraints [] os;
        args = codes "--" ∷ c ∷ cmd;
      })
parse_opts_lem os c cmd = opts_then os default_dir [] c cmd
