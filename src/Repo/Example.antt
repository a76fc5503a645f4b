-- ===== src/Repo/Example.antt =====
-- A repository of two packages, and the run of the solver over it.
use static_distro.Control.{
  Control, control_parsefd, control_paras, control_fields, control_field, parse_singleline,
  parse_source, one_line, parse_builtfromlist, builtfroms, split_space, parse_deplist, nonempty,
  file_paras,
}
use static_distro.ControlParse.{
  controlparse_parsefd, parse_lines, split_lines, cons_line, controlparse_line, content_line,
  start_field, finish_line, open_para, add_line, add_line_to, add_field, trim_end, c_str,
  controlparse_init,
}
use static_distro.LibC.{
  strchr, strtoul, convert, convert_signed, digits_value, span_len, isspace, isdigit, isalpha,
  isalnum,
}
use static_distro.Repo.Closed.{IsClosed, AllIn}
use static_distro.Repo.GetPkg.{get_pkg, add_versions, version_loop}
use static_distro.Repo.Main.{add_constraints, solve_constraints}
use static_distro.Repo.{
  Disk, Dirent, no_dir, control_file, Repo, repo_init, package_lookup, entry_control, read_versions,
  repo_package_load, repo_package_get,
}
use static_distro.Shared.{
  inl, inr, sym, ap, ◌∙◌, subst, All, ◌≡◌, refl, false, List, [], ◌∷◌, Option, none, some,
  if◌then◌else◌, str_eq, Bytes, codes,
}
use static_distro.Solve.Results.{chosen_versions}
use static_distro.Solve.{
  SolveProblem, Outcome, done, solve_init, solve_constraint_add, pkg_lookup, pkg_add, has_version,
  push_deps, insert_version, version_add_to, solve_package_version_add, add_deps, choose, run_round,
  run_loop, solve_run,
}
use static_distro.Version.{
  is_revchar, is_uschar, parse_epoch, parse_revision, uschars_ok, cmp_verchar, cmp_nondig, cmp_dig,
  run_len, verstr_round, verstr_loop, cmp_verstr, coarse_cmp, parse_coarse, version_cmp,
}

-- Opens all that a run computes with.
runs : Unit {0}
unfolding str_eq strchr strtoul convert convert_signed digits_value span_len isspace isdigit isalpha
    isalnum is_revchar is_uschar parse_epoch parse_revision uschars_ok parse_coarse cmp_verchar
    cmp_nondig cmp_dig run_len verstr_round verstr_loop cmp_verstr coarse_cmp version_cmp
    controlparse_init c_str trim_end add_field add_line_to add_line open_para finish_line
    start_field content_line controlparse_line cons_line split_lines parse_lines
    controlparse_parsefd nonempty parse_deplist split_space builtfroms parse_builtfromlist one_line
    parse_source parse_singleline control_field control_fields control_paras control_parsefd
    file_paras solve_init solve_constraint_add pkg_lookup pkg_add has_version push_deps
    insert_version version_add_to solve_package_version_add add_deps choose run_round run_loop
    solve_run repo_init package_lookup entry_control read_versions repo_package_load
    repo_package_get version_loop add_versions get_pkg add_constraints solve_constraints
runs = tt

abbrev version_dir : Bytes → Bytes → Dirent
version_dir version text = record {
  d_name = version;
  dir = control_file (record { contents = text; read_error = false });
}

abbrev app_text : Bytes
app_text = codes "Package: app\nDepends-Run:\n  lib\n  app\n"

abbrev old_text : Bytes
old_text = codes "Package: lib\nVersion: 1.0\n"

abbrev new_text : Bytes
new_text = codes "Package: lib\nVersion: 2.0\n"

-- Two packages; the entry that `readdir` returns last is the first of the list of versions.
abbrev pub disk : Disk
disk name =
    if str_eq name (codes "app")
    then some (record { d_name = codes "."; dir = no_dir } ∷ version_dir (codes "3") app_text ∷ [])
    else if str_eq name (codes "lib")
    then some (version_dir (codes "2.0") new_text ∷ version_dir (codes "1.0") old_text ∷ [])
    else none

abbrev pub constraints : List Bytes
constraints = codes "app" ∷ []

abbrev outcome : Option (Outcome (Repo × SolveProblem)) → Repo × SolveProblem
outcome (some (done s)) = s
outcome (some (Outcome.failed s)) = s
outcome (some Outcome.aborted) = (repo_init disk, solve_init)
outcome none = (repo_init disk, solve_init)

abbrev pub answer : Repo × SolveProblem
answer = outcome (solve_constraints 3 disk constraints)

pub answer-done : solve_constraints 3 disk constraints ≡ some (done (answer.0, answer.1))
unfolding runs
answer-done = refl

pub answer-chosen :
    chosen_versions answer.1.packages ≡ (codes "app", codes "3") ∷ (codes "lib", codes "1.0") ∷ []
unfolding runs
answer-chosen = refl

pub solver-done :
    solve_run 3 (some get_pkg) (repo_init disk) (add_deps solve_init constraints)
    ≡ some (done (answer.0, answer.1))
unfolding runs
solver-done = refl

abbrev pub names : List Bytes
names = codes "app" ∷ codes "lib" ∷ []

some_injective : {A : Type 0} {a b : A} → some a ≡ some b → a ≡ b
some_injective h = cc

-- What an entry of the example depends on.
abbrev EntryIn : Dirent → Type 0
EntryIn de = (c : Control) → entry_control de ≡ some c → AllIn names c.run_depend

hidden-EntryIn : EntryIn (record { d_name = codes "."; dir = no_dir })
unfolding runs
hidden-EntryIn c e = absurd (cc e)

app-EntryIn : EntryIn (version_dir (codes "3") app_text)
unfolding runs
app-EntryIn c e =
    subst (λ (c : Control). AllIn names c.run_depend) (some_injective e)
      (inr (inl refl), (inl refl, tt))

old-EntryIn : EntryIn (version_dir (codes "1.0") old_text)
unfolding runs
old-EntryIn c e = subst (λ (c : Control). AllIn names c.run_depend) (some_injective e) tt

new-EntryIn : EntryIn (version_dir (codes "2.0") new_text)
unfolding runs
new-EntryIn c e = subst (λ (c : Control). AllIn names c.run_depend) (some_injective e) tt

pub disk-IsClosed : IsClosed names disk
unfolding str_eq
disk-IsClosed = record {
  closed = λ n here des e. elim here [
    | inl is_app ↦
        subst (All EntryIn) (some_injective (sym (ap disk is_app) ∙ e))
          (hidden-EntryIn, (app-EntryIn, tt))
    | inr (inl is_lib) ↦
        subst (All EntryIn) (some_injective (sym (ap disk is_lib) ∙ e))
          (new-EntryIn, (old-EntryIn, tt))
    | inr (inr none_left) ↦ absurd none_left
  ];
}
