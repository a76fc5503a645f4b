-- ===== src/PkgBuild/Order.antt =====
-- The order of the steps of tools/pkgbuild.c.
use static_distro.Control.{SourceControl, SourceControlBin}
use static_distro.PkgBuild.Plan.{
  Plan, exec_plan, unpack_argv, build_argv, bin_argv, copy_plan, unpack_plan, build_plan, bins_plan,
  source_plan, build_source-plan,
}
use static_distro.PkgBuild.{
  Parsed, Call, setenv, chdir, linkat, fork_exec, wait, binary_version, build_source,
}
use static_distro.Shared.Calls.{System, go}
use static_distro.Shared.Plans.Done.{
  Succeeded, SucceededBefore, NeededBefore, needed_across, needed_left, needed_right, behind,
  run_plan-NeededBefore, run_plan-Succeeded, NeedsOrRefuses, needs_right, run_plan-needs,
  run_plan-rest,
}
use static_distro.Shared.Plans.{need, run_plan, Follows-run_plan}
use static_distro.Shared.{
  List, [], ◌∷◌, ◌++◌, inl, inr, some, Option-cases, true, append_assoc, codes, ◌≡◌, refl, sym, ap,
  subst, ◌∙◌, Bytes,
}
use mathlib.Core.List.{Memᴰ}
use mathlib.Core.List.Memᴰ.{head, tail, not-nil, append_left, append_right}

copy_plan-mem :
    (dist_dir work_dir s : Bytes) (ss : List Bytes)
    → Memᴰ s ss
    → Memᴰ (need (linkat dist_dir s work_dir s)) (copy_plan dist_dir work_dir ss)
copy_plan-mem dist_dir work_dir s [] m = absurd (not-nil m)
copy_plan-mem dist_dir work_dir s (t ∷ ts) (head e) = rw (e) (head refl)
copy_plan-mem dist_dir work_dir s (t ∷ ts) (tail m) = tail (copy_plan-mem dist_dir work_dir s ts m)

bins_plan-needs :
    (p : Parsed) (out_dir version name : Bytes) (sb : SourceControlBin)
    (sbs : List SourceControlBin) (c : Call)
    → sb.package_name ≡ some name
    → Memᴰ sb sbs
    → Memᴰ (need c) (exec_plan (bin_argv p out_dir version name))
    → NeedsOrRefuses c (bins_plan p out_dir version sbs)
bins_plan-needs p out_dir version name sb [] c named m n = absurd (not-nil m)
bins_plan-needs p out_dir version name sb (t ∷ ts) c named (head e) n =
    let t_named : t.package_name ≡ some name = ap (λ x. x.package_name) (sym e) ∙ named in
    rw (t_named) (inl (append_left (bins_plan p out_dir version ts) n))
bins_plan-needs p out_dir version name sb (t ∷ ts) c named (tail m) n =
    elim (Option-cases t.package_name) [
      | inl nameless ↦ rw (nameless) (inr (tail (head refl)))
      | inr (other, t_named) ↦ rw (t_named) (
          needs_right c (exec_plan (bin_argv p out_dir version other))
            (bins_plan p out_dir version ts)
            (bins_plan-needs p out_dir version name sb ts c named m n))
    ]

-- The plan of a run with all of its steps.
abbrev setup_plan : Parsed → Bytes → Bytes → Bytes → Plan
setup_plan p source src_version version =
    need (setenv (codes "PKG_NAME") source)
    ∷ need (setenv (codes "PKG_SRCVERSION") src_version)
    ∷ need (setenv (codes "PKG_VERSION") version)
    ∷ need (setenv (codes "PKG_DIR") (codes "/packages/" ++ (source ++ (codes "/" ++ version))))
    ∷ need (chdir p.work_dir)
    ∷ []

abbrev all_steps : Parsed → SourceControl → Bytes → Bytes → Bytes → Bytes → Bytes → Plan
all_steps p c source src_version dist_dir out_dir version =
    setup_plan p source src_version version
    ++ (unpack_plan p c dist_dir ++ (build_plan p c out_dir ++ bins_plan p out_dir version c.bins))

-- Such a run goes through this plan.
all_steps-planned :
    (p : Parsed) (c : SourceControl) (source src_version dist_dir out_dir : Bytes)
    (sys : System Call) (done : List Call)
    → p.opts.do_unpack ≡ true
    → p.opts.do_build ≡ true
    → p.opts.do_gencontrol ≡ true
    → p.opts.dist_dir ≡ some dist_dir
    → p.opts.out_dir ≡ some out_dir
    → build_source p c source src_version sys [] ≡ go tt done
    → run_plan
        (all_steps p c source src_version dist_dir out_dir
          (binary_version p.opts.ver_mode src_version p.opts.ver_param))
        sys
        []
      ≡ go tt done
all_steps-planned p c source src_version dist_dir out_dir sys done u b g dist out ran =
    let version = binary_version p.opts.ver_mode src_version p.opts.ver_param in
    let is_plan : source_plan p c source src_version version
        ≡ all_steps p c source src_version dist_dir out_dir version =
      rw (u, b, g, dist, out) in
    subst (λ es. run_plan es sys [] ≡ go tt done) is_plan
      (sym (ap (λ m. m sys []) (Follows-run_plan (build_source-plan p c source src_version))) ∙ ran)

unpack_plan-linkat :
    (p : Parsed) (c : SourceControl) (dist_dir s : Bytes)
    → Memᴰ s c.sources
    → NeededBefore
        (linkat dist_dir s p.work_dir s)
        (fork_exec (unpack_argv p c))
        (unpack_plan p c dist_dir)
unpack_plan-linkat p c dist_dir s of_s = behind (
    behind (
      needed_across (copy_plan dist_dir p.work_dir c.sources) (exec_plan (unpack_argv p c))
        (copy_plan-mem dist_dir p.work_dir s c.sources of_s) (head refl)))

-- A run with all of its steps, with a directory for the distfiles and one for the output, that
-- succeeds: each distfile was linked into the working directory before the unpack script started,
-- the unpack script had succeeded before the build script started, the build script had succeeded
-- before `gencontrol` started for any package with a name, and `gencontrol` has succeeded for each
-- of them.
pub build_source-order :
    (p : Parsed) (c : SourceControl) (source src_version dist_dir out_dir s name : Bytes)
    (sb : SourceControlBin) (sys : System Call) (done : List Call)
    → p.opts.do_unpack ≡ true
    → p.opts.do_build ≡ true
    → p.opts.do_gencontrol ≡ true
    → p.opts.dist_dir ≡ some dist_dir
    → p.opts.out_dir ≡ some out_dir
    → Memᴰ s c.sources
    → Memᴰ sb c.bins
    → sb.package_name ≡ some name
    → build_source p c source src_version sys [] ≡ go tt done
    → SucceededBefore sys (linkat dist_dir s p.work_dir s) (fork_exec (unpack_argv p c)) done
      × SucceededBefore sys (wait (unpack_argv p c)) (fork_exec (build_argv p c)) done
      × SucceededBefore sys
          (wait (build_argv p c))
          (fork_exec
            (bin_argv p out_dir (binary_version p.opts.ver_mode src_version p.opts.ver_param) name))
          done
      × Succeeded sys
          (wait
            (bin_argv p out_dir (binary_version p.opts.ver_mode src_version p.opts.ver_param) name))
          done
build_source-order p c source src_version dist_dir out_dir s name sb sys done u b g dist out of_s
      of_sb named ran =
    let version = binary_version p.opts.ver_mode src_version p.opts.ver_param in
    let setup = setup_plan p source src_version version in
    let unpacks = unpack_plan p c dist_dir in
    let builds = build_plan p c out_dir in
    let bins = bins_plan p out_dir version c.bins in
    let argv = bin_argv p out_dir version name in
    let planned =
      all_steps-planned p c source src_version dist_dir out_dir sys done u b g dist out ran in
    let regrouped : setup ++ (unpacks ++ (builds ++ bins))
        ≡ (setup ++ (unpacks ++ builds)) ++ bins =
      simp (append_assoc) in
    let (_, late) =
      run_plan-rest (setup ++ (unpacks ++ builds)) bins sys [] done
        (subst (λ es. run_plan es sys [] ≡ go tt done) regrouped planned) in
    let started =
      run_plan-needs (fork_exec argv) bins sys _ done
        (bins_plan-needs p out_dir version name sb c.bins _ named of_sb (head refl)) late in
    let ended =
      run_plan-needs (wait argv) bins sys _ done
        (bins_plan-needs p out_dir version name sb c.bins _ named of_sb (tail (head refl))) late in
    (
      run_plan-NeededBefore sys [] done
          (needed_right setup
            (needed_left (builds ++ bins) (unpack_plan-linkat p c dist_dir s of_s)))
          planned,
      run_plan-NeededBefore sys [] done
          (needed_right setup (
            needed_across unpacks (builds ++ bins)
              (tail
                (tail (append_right (copy_plan dist_dir p.work_dir c.sources) (tail (head refl)))))
              (tail (head refl))))
          planned,
      run_plan-NeededBefore sys [] done
          (needed_right setup
            (needed_right unpacks (needed_across builds bins (tail (tail (head refl))) started)))
          planned,
      run_plan-Succeeded bins sys (wait argv) _ done ended late,
    )
