-- ===== src/Solve/Loop.antt =====
-- The equations of the loop of `solve_run` in tools/solve.c.
use static_distro.Shared.{ℕ, zero, suc, ◌≡◌, Option, none, some, arith, get_elem?}
use static_distro.Solve.{Package, SolveProblem, done, failed, aborted, GetPkt, run_round, run_loop}

module _ {W : Type 0} (get : Option (GetPkt W)) (w : W) (p : SolveProblem) (i : ℕ) where
  pub run_loop_end :
      (fuel : ℕ) → get_elem? p.packages i ≡ none → run_loop fuel get w p i ≡ some (done (w, p))
  unfolding run_loop
  run_loop_end zero h = rw (h, run_loop)
  run_loop_end (suc fuel) h = rw (h, run_loop)

  module _ (pkg : Package) (at : get_elem? p.packages i ≡ some pkg) where
    pub run_loop_empty : run_loop zero get w p i ≡ none
    unfolding run_loop
    run_loop_empty = rw (at, run_loop)

    pub run_loop_done :
        (fuel : ℕ) (w' : W) (q : SolveProblem)
        → run_round get w p i pkg ≡ done (w', q)
        → run_loop (suc fuel) get w p i ≡ run_loop fuel get w' q (suc i)
    unfolding run_loop
    run_loop_done fuel w' q h = ground arith

    pub run_loop_failed :
        (fuel : ℕ) (s : W × SolveProblem)
        → run_round get w p i pkg ≡ failed s
        → run_loop (suc fuel) get w p i ≡ some (failed s)
    unfolding run_loop
    run_loop_failed fuel s h = ground arith

    pub run_loop_aborted :
        (fuel : ℕ)
        → run_round get w p i pkg ≡ aborted
        → run_loop (suc fuel) get w p i ≡ some aborted
    unfolding run_loop
    run_loop_aborted fuel h = ground arith
