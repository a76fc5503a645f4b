-- ===== src/Lib.antt =====
-- The package tools of static-distro (tools/*.c).
--
-- The distribution keeps its packages in a directory, one directory for each version of a package,
-- with a control file in it. `pkgsolve` and `withpkgs` find the packages that constraints need, by
-- the solver over this repository; `gencontrol` writes the control file of a binary package from
-- the control file of its source; `pkgvercmp` compares version numbers; `pkgcontrol` and `srccontrol`
-- print fields of control files. `pkgbuild` runs the scripts of a source package, with the packages
-- they depend on: it calls `newns`, which calls `withpkgs` in new namespaces, which calls `withenv` on
-- the packages of the solution; `withenv` mounts them in a new root, links what is in them, and runs
-- the script.
--
-- How the files correspond to the code:
--   Version      tools/version.c: parse_coarse, version_validate, version_cmp and all below them
--     Chars, Key, Loop, Parse, Slices, Compare, Greater, Hyphen  the proofs about them
--   Solve        tools/solve.c: a pointer to a package is its position in the list, which only
--                grows at its end; the callback get_pkt is a parameter
--     Insert, VersionAdd, Sorted, Names, Round, Loop, Closed, Pigeonhole, Fuel, Results  the proofs;
--                Results also has the loop over solve_result_package of tools/pkgsolve.c and tools/withpkgs.c
--   ControlParse tools/controlparse.c: paragraphs, fields and lines; Append, Safe, Lines  the proofs
--   Control      tools/control.c: control files of binary and of source packages
--   GenControl   tools/gencontrol.c: main behind its parameters; CommandLine  its options;
--                Lines, Fields, RoundTrip  the file that it writes, as it is read again
--   PkgControl, SrcControl  tools/pkgcontrol.c and tools/srccontrol.c
--   Repo         tools/repo.c, over what the directories hold (`Disk`) as a parameter
--     GetPkg     get_pkg of tools/withpkgs.c and tools/pkgsolve.c; Source, Closed, Cache
--                the proofs
--     Main       the constraints and the run of the solver; Example  a repository of two packages
--   WithPkgs     tools/withpkgs.c, and main of tools/pkgsolve.c; Options, Run, Command  the proofs
--   PkgSolve     tools/pkgsolve.c: its options, and main from the command line on
--   WithEnv      tools/withenv.c: parse_opts and path_parts; Paths  the proofs about path_parts
--     LinkTree   link_tree, on directories as trees; Lookup, Exact, Links  the proofs
--     RunChild   run_child and what it calls, as a program of system calls; Plan, Mounted  the proofs
--   NewNs        tools/newns.c; Ids, Order  the proofs
--   PkgBuild     tools/pkgbuild.c; Arguments, Environment  what the tools read of the command lines
--                it makes; Plan, Order  the proofs about its steps
--   Memory       the structs of the tools as blocks of a heap, and programs that read and free
--                them; Owned  what belongs to a block; Frees  proofs about such programs.
--                Alloc  allocation that may fail; Holds, Room, Link, Slot  proofs about what is
--                allocated.
--                The functions that free memory stand in Destroy below Control, ControlParse,
--                Solve and Repo; Control/Allocating  control_parsefd on the memory, Lists,
--                BuiltFroms, Texts, Slots, OneField, Fields, Source  its proofs
--   PkgVercmp    tools/pkgvercmp.c; Best  its proofs
--   LibC         isdigit, isalpha, isalnum, isspace, strchr and strtoul, of the C library in the C
--                locale on 64 bits, as far as the tools use them; Search, Numbers  their lemmas;
--                Getopt  getopt, with its loop
--   Shared       library names, Boolean tests, lists under native indices, orders; Calls  programs
--                that call the system, Plans  the calls they make when all goes well
-- A module's Tests, where it has them, hold runs on concrete input.
--
-- Bytes are natural numbers, a C string is the list of its bytes without the NUL at its end. Sizes
-- and `unsigned` values wrap around or are refused where the code does that, but the counters of
-- solve_result_package and of the loops over the results are taken without their wrap-around, which is
-- the same for fewer than 2^32 packages. The loop of cmp_verstr is a recursion on fuel, the length of
-- both slices, which is enough, since each round shortens one of them. solve_run takes its fuel as an
-- argument: a round chooses the version of one package, and with names taken from a finite list there
-- are at most as many packages as names, so the length of the list is enough. The loops over the
-- results take the number of packages as fuel.
--
-- A program that calls the system keeps the list of its calls, the latest one first; what the system
-- answers may depend on all of them. It stops at a call that it cannot go on from. The calls of the
-- processes of newns are in one sequence, since the parents only wait. link_tree takes directories as
-- trees that do not change while it runs, with the entries in the order of readdir.
--
-- The functions that free memory run on a heap, in which each struct is a block at an address. They
-- stop with a fault when they read or free a block that is not allocated. Their loops take the number
-- of blocks as fuel, which is enough. control_parsefd is there a second time on this heap, from the
-- paragraphs on, with `malloc` as a parameter that gives a new address or none; its fuel is two
-- blocks for each field and three for each line. All other functions work on lists in the place of
-- pointers, and take allocation to succeed.
--
-- Not modelled: failing allocation but for this function, messages on stderr, the closing of files
-- other than the directory of a repository, and the opening of files other than as the parameters
-- above say. The shell scripts and the packages are left out.
pub mod Control
pub mod ControlParse
pub mod GenControl
pub mod LibC
pub mod Memory
pub mod NewNs
pub mod PkgBuild
pub mod PkgControl
pub mod PkgSolve
pub mod PkgVercmp
pub mod Repo
pub mod Shared
pub mod Solve
pub mod SrcControl
pub mod Version
pub mod WithEnv
pub mod WithPkgs
