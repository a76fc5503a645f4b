-- ===== src/Memory/Tests.antt =====
-- Destroy functions on small heaps.
use static_distro.Shared.{◌≡◌, [], ◌∷◌, none, some, refl, true, false, codes, arith}
use static_distro.Memory.{
  text, control_source, source_control_bin, control_dependency, control_built_from, control_block,
  source_control_block, controlparse_line, controlparse_field, controlparse_para, solve_dependency,
  solve_version, solve_package, solve_problem, repo_version, repo_package, repo_block,
  ControlDependencyBlock, ControlBuiltFromBlock, ControlBlock, SourceControlBlock, RepoVersionBlock,
  RepoPackageBlock, RepoBlock, Heap, put, empty, done,
}
use static_distro.Memory.Owned.{Owned, owned, nothing, null, parts, rest, nullable, without}
use static_distro.Control.Destroy.{source_control_destroy, source_control_destroy-without}
use static_distro.ControlParse.Destroy.{controlparse_destroy, controlparse_destroy-without}
use static_distro.Solve.Destroy.{solve_destroy, solve_destroy-without}
use static_distro.Repo.Destroy.{repo_destroy, repo_destroy-without}

-- A control file at 6, with a dependency, a place it is built from, a name and no version.
abbrev sample_control : ControlBlock
sample_control = record {
  package_name = some 12;
  version = none;
  src_package = none;
  src_version = none;
  run_depend = some 7;
  built_froms = some 9;
}

abbrev sample_dependency : ControlDependencyBlock
sample_dependency = record { package_name = some 8; next = none }

abbrev sample_built_from : ControlBuiltFromBlock
sample_built_from = record { package_name = some 10; version = some 11; next = none }

abbrev control_heap : Heap
control_heap = put control_block 6 sample_control (
    put control_dependency 7 sample_dependency (
      put text 8 (codes "musl") (
        put control_built_from 9 sample_built_from (
          put text 10 (codes "zlib")
            (put text 11 (codes "1.3") (put text 12 (codes "gcc") empty))))))

abbrev sample_repo : RepoBlock
sample_repo = record { packages = some 2; repofd = 5 }

abbrev sample_package : RepoPackageBlock
sample_package = record { name = some 3; versions = some 4; next = none }

abbrev sample_version : RepoVersionBlock
sample_version = record { version = some 5; control = some 6; next = none }

-- A repository at 1, with a package at 2 and a version of it at 4, whose control file is this one.
abbrev repo_heap : Heap
repo_heap = put repo_block 1 sample_repo (
    put repo_package 2 sample_package (
      put text 3 (codes "gcc")
        (put repo_version 4 sample_version (put text 5 (codes "13.2") control_heap))))

control_parts : Owned repo_heap (parts control_block sample_control) (8 ∷ 7 ∷ 10 ∷ 11 ∷ 9 ∷ 12 ∷ [])
unfolding parts rest nullable
control_parts =
    owned sample_dependency refl (owned (codes "musl") refl nothing nothing nothing)
      (null refl nothing)
      (owned sample_built_from refl
        (owned (codes "zlib") refl nothing nothing
          (owned (codes "1.3") refl nothing nothing nothing))
        (null refl nothing)
        (owned (codes "gcc") refl nothing nothing (null refl (null refl (null refl nothing)))))

repo-Owned :
    Owned repo_heap
      ((repo_package, some 2) ∷ [])
      (8 ∷ 7 ∷ 10 ∷ 11 ∷ 9 ∷ 12 ∷ 6 ∷ 5 ∷ 4 ∷ 3 ∷ 2 ∷ [])
unfolding parts rest nullable
repo-Owned =
    owned sample_package refl
      (owned sample_version refl
        (owned sample_control refl control_parts nothing
          (owned (codes "13.2") refl nothing nothing nothing))
        (null refl nothing) (owned (codes "gcc") refl nothing nothing nothing))
      (null refl nothing) nothing

repo_destroy-without_example :
    repo_destroy 11 1 repo_heap
    ≡ done 5 (without (8 ∷ 7 ∷ 10 ∷ 11 ∷ 9 ∷ 12 ∷ 6 ∷ 5 ∷ 4 ∷ 3 ∷ 2 ∷ 1 ∷ []) repo_heap)
unfolding parts
repo_destroy-without_example =
    repo_destroy-without 11 1 sample_repo repo_heap
      (8 ∷ 7 ∷ 10 ∷ 11 ∷ 9 ∷ 12 ∷ 6 ∷ 5 ∷ 4 ∷ 3 ∷ 2 ∷ []) refl repo-Owned (ground arith)
      (omega arith)

-- A source control file at 1, with a dependency for unpacking at 2, a source at 4, and a binary
-- package at 6 with a dependency at 8.
abbrev sample_source : SourceControlBlock
sample_source = record {
  source = some 10;
  version = none;
  unpack_depend = some 2;
  build_depend = none;
  sources = some 4;
  bins = some 6;
}

abbrev source_heap : Heap
source_heap = put source_control_block 1 sample_source (
    put control_dependency 2 (record { package_name = some 3; next = none })
      (put text 3 (codes "tar") (
        put control_source 4 (record { source = some 5; next = none })
          (put text 5 (codes "gcc.tar.xz") (
            put source_control_bin 6
              (record { package_name = some 7; run_depend = some 8; next = none })
              (put text 7 (codes "gcc") (
                put control_dependency 8 (record { package_name = some 9; next = none })
                  (put text 9 (codes "musl") (put text 10 (codes "gcc") empty)))))))))

source_parts :
    Owned source_heap (parts source_control_block sample_source) (5 ∷ 4 ∷ 9 ∷ 8 ∷ 7 ∷ 6 ∷ 10 ∷ [])
unfolding parts rest nullable
source_parts = null refl (
    owned (record { source = some 5; next = none }) refl
      (owned (codes "gcc.tar.xz") refl nothing nothing nothing) (null refl nothing)
      (owned (record { package_name = some 7; run_depend = some 8; next = none }) refl
        (owned (record { package_name = some 9; next = none }) refl
          (owned (codes "musl") refl nothing nothing nothing) (null refl nothing)
          (owned (codes "gcc") refl nothing nothing nothing))
        (null refl nothing) (owned (codes "gcc") refl nothing nothing (null refl nothing))))

source_control_destroy-without_example :
    (source_control_destroy 7 1 source_heap
      ≡ done tt (without (5 ∷ 4 ∷ 9 ∷ 8 ∷ 7 ∷ 6 ∷ 10 ∷ 1 ∷ []) source_heap))
    × Owned
        (without (5 ∷ 4 ∷ 9 ∷ 8 ∷ 7 ∷ 6 ∷ 10 ∷ 1 ∷ []) source_heap)
        ((control_dependency, some 2) ∷ [])
        (3 ∷ 2 ∷ [])
unfolding parts rest nullable
source_control_destroy-without_example =
    source_control_destroy-without 7 1 sample_source source_heap (5 ∷ 4 ∷ 9 ∷ 8 ∷ 7 ∷ 6 ∷ 10 ∷ [])
      (3 ∷ 2 ∷ []) refl source_parts
      (owned (record { package_name = some 3; next = none }) refl
        (owned (codes "tar") refl nothing nothing nothing) (null refl nothing) nothing)
      (ground arith) (omega arith)

abbrev paras_heap : Heap
paras_heap =
    put controlparse_para 1 (record { field_first = some 2; field_last = some 2; next = none })
      (put controlparse_field 2
        (record { line_first = some 3; line_last = some 3; next = none; name = codes "Package" })
        (put controlparse_line 3 (record { next = none; line = codes "gcc" }) empty))

controlparse_destroy-without_example :
    controlparse_destroy 3
      (record { para_first = some 1; para_last = some 1; in_break = false })
      paras_heap
    ≡ done
        (record { para_first = none; para_last = none; in_break = true })
        (without (3 ∷ 2 ∷ 1 ∷ []) paras_heap)
unfolding parts rest nullable
controlparse_destroy-without_example =
    controlparse_destroy-without 3
      (record { para_first = some 1; para_last = some 1; in_break = false }) paras_heap
      (3 ∷ 2 ∷ 1 ∷ [])
      (owned (record { field_first = some 2; field_last = some 2; next = none }) refl
        (owned
          (record { line_first = some 3; line_last = some 3; next = none; name = codes "Package" })
          refl
          (owned (record { next = none; line = codes "gcc" }) refl nothing (null refl nothing)
            nothing)
          (null refl nothing) nothing)
        (null refl nothing) nothing)
      (ground arith) (omega arith)

abbrev problem_heap : Heap
problem_heap =
    put solve_problem 1 (record { packages_first = some 2; packages_last = some 2 })
      (put solve_package 2
        (record { name = some 3; available = some 4; chosen = some 4; next = none; scanned = true })
        (put text 3 (codes "gcc") (
          put solve_version 4 (record { version = some 5; dependencies = some 6; next = none })
            (put text 5 (codes "13.2") (
              put solve_dependency 6 (record { constraint = some 7; next = none })
                (put text 7 (codes "musl") empty))))))

solve_destroy-without_example :
    solve_destroy 7 1 problem_heap ≡ done tt (without (7 ∷ 6 ∷ 5 ∷ 4 ∷ 3 ∷ 2 ∷ 1 ∷ []) problem_heap)
unfolding parts rest nullable
solve_destroy-without_example =
    solve_destroy-without 7 1 problem_heap (7 ∷ 6 ∷ 5 ∷ 4 ∷ 3 ∷ 2 ∷ 1 ∷ [])
      (owned (record { packages_first = some 2; packages_last = some 2 }) refl
        (owned
          (record {
            name = some 3;
            available = some 4;
            chosen = some 4;
            next = none;
            scanned = true;
          })
          refl
          (owned (record { version = some 5; dependencies = some 6; next = none }) refl
            (owned (record { constraint = some 7; next = none }) refl
              (owned (codes "musl") refl nothing nothing nothing) (null refl nothing)
              (owned (codes "13.2") refl nothing nothing nothing))
            (null refl nothing) (owned (codes "gcc") refl nothing nothing nothing))
          (null refl nothing) nothing)
        nothing nothing)
      (ground arith) (omega arith)
