-- ===== src/Ems/Runs.antt =====
-- src/kernel/ems.c: `backing_alloc` finds the first run of free pages.
use liberdos.Base.{
  ℕ, zero, suc, ◌+◌, ◌-◌, ◌^◌, ◌≤◌, ◌<◌, ◌≡◌, refl, Option, none, some, arith, Array, ap, sym, ◌∙◌,
  ne→==, ==_refl, ℕ_discrete, dec_lt, subst, ◌≢◌,
}
use liberdos.Base.Word.{u16}
use liberdos.Ems.{Ems, no_owner, run_loop, backing_alloc}

-- The `n` pages from `p` on are free.
abbrev pub AreFree : Array ℕ → ℕ → ℕ → Type 0
AreFree owner p n = (k : ℕ) → p ≤ k → k < p + n → owner k ≡ no_owner

pub data FirstRun (owner : Array ℕ) (total npages : ℕ) (r : Option ℕ) : Type 0 where
  found :
      (p : ℕ)
      → r ≡ some p
      → p + npages ≤ total
      → AreFree owner p npages
      → ((q : ℕ) → q + npages ≤ total → AreFree owner q npages → p ≤ q)
      → FirstRun owner total npages r
  full :
      r ≡ none
      → ((q : ℕ) → q + npages ≤ total → AreFree owner q npages → ⊥)
      → FirstRun owner total npages r

module _ (owner : Array ℕ) (total npages : ℕ) (small : total < 65536) (pos : 0 < npages) where
  run_loop-FirstRun :
      (n start run : ℕ)
      → start + run + n ≡ total
      → run < npages
      → AreFree owner start run
      → ((q : ℕ) → q + npages ≤ total → AreFree owner q npages → start ≤ q)
      → FirstRun owner total npages (run_loop owner npages n (start + run) run)
  unfolding run_loop
  run_loop-FirstRun zero start run e lt free low =
      full refl (λ q fits f. omega (arith, low q fits f))
  run_loop-FirstRun (suc n) start run e lt free low =
      elim (ℕ_discrete (owner (start + run)) no_owner) [
        | yes here ↦
            let longer : AreFree owner start (run + 1) = λ k lo hi.
              elim (ℕ_discrete (start + run) k) [
                | yes same ↦ ap owner (sym same) ∙ here
                | no ne ↦ free k lo (omega arith)
              ] in
            elim (ℕ_discrete (run + 1) npages) [
              | yes enough ↦
                  let at : u16 (start + run + 1 + (2 ^ 16 - npages)) ≡ start = omega arith in
                  rw (here, enough, ==_refl npages, at)
                    (found start refl (omega arith) (λ k lo hi. longer k lo (omega arith)) low)
              | no more ↦
                  let next : start + run + 1 ≡ start + (run + 1) = omega arith in
                  rw (here, ne→== (run + 1) npages more, next)
                    (run_loop-FirstRun n start (run + 1) (omega arith) (omega arith) longer low)
            ]
        | no taken ↦
            let next : start + run + 1 ≡ start + run + 1 + 0 = omega arith in
            rw (ne→== (owner (start + run)) no_owner taken) (
              subst (λ k. FirstRun owner total npages (run_loop owner npages n k 0)) (sym next)
                (run_loop-FirstRun n (start + run + 1) 0 (omega arith) pos
                  (λ k lo hi. absurd (omega arith)) (λ q fits f. behind q (low q fits f) f taken)))
      ]
    where
      behind :
          (q : ℕ)
          → start ≤ q
          → AreFree owner q npages
          → owner (start + run) ≢ no_owner
          → start + run + 1 ≤ q
      behind q lo f taken = elim (dec_lt (start + run) q) [
        | yes past ↦ omega arith
        | no before ↦ absurd (taken (f (start + run) (omega arith) (omega arith)))
      ]

-- `backing_alloc` finds the lowest run of `npages` free pages of the backing store, and fails only
-- when there is none.
pub backing_alloc-FirstRun :
    (x : Ems) (npages : ℕ)
    → x.total_pages < 65536
    → 0 < npages
    → FirstRun x.page_owner x.total_pages npages (backing_alloc x npages)
unfolding backing_alloc
backing_alloc-FirstRun x npages small pos =
    run_loop-FirstRun x.page_owner x.total_pages npages small pos x.total_pages 0 0 (omega arith)
      pos (λ k lo hi. absurd (omega arith)) (λ q fits f. omega arith)
