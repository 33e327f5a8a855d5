-- ===== src/Xms/Pool/Walk.antt =====
-- src/kernel/xms.c: `find_gap` is a first fit, and it ends unless a block in use is empty.
use liberdos.Base.{
  ℕ, zero, suc, ◌+◌, ◌≤◌, ◌<◌, ◌≡◌, inl, inr, refl, sym, ◌∙◌, subst, true, false, some, arith, leb,
  Array, Bool-cases, some→eq, if◌then◌else◌,
}
use liberdos.Base.Loop.{count_from, count_from_bound}
use liberdos.Base.Word.{u32}
use liberdos.Xms.Pool.{
  Handle, handle_count, pool_start_kb, gap_loop, walk_fuel, find_gap, IsPool, HasSizes, IsPlace,
}
use liberdos.Xms.Pool.Ahead.{
  IsBehind, IsNext-IsBehind, IsNext-free, ahead, ahead-lt, end-u32, start-IsBehind,
}
use liberdos.Xms.Pool.Round.{end_of, gap_last, gap_next}
use liberdos.Xms.Pool.Next.{IsNext, nothing, lowest, next_block_above-Lowest}

-- A base, as the answer of `find_gap`: the lowest place, or 0 and no place at all.
pub data FirstFit (xh : Array Handle) (pool_end size g : ℕ) : Type 0 where
  fits :
      IsPlace xh pool_end size g
      → ((p : ℕ) → IsPlace xh pool_end size p → g ≤ p)
      → FirstFit xh pool_end size g
  no_room : g ≡ 0 → ((p : ℕ) → IsPlace xh pool_end size p → ⊥) → FirstFit xh pool_end size g

-- The walk stands at a candidate that no place lies below, with no block across it.
record IsAt (xh : Array Handle) (pool_end size cand : ℕ) : Type 0 where
  start : pool_start_kb ≤ cand
  end : cand ≤ pool_end
  behind : IsBehind xh cand
  low : (p : ℕ) → IsPlace xh pool_end size p → cand ≤ p

module _ (xh : Array Handle) (pool_end size : ℕ) (v : IsPool xh pool_end)
    (small : size < 65536) where
  last-FirstFit :
      (cand : ℕ)
      → IsAt xh pool_end size cand
      → ((k : ℕ) → k < handle_count → (xh k).used ≡ true → (xh k).base_kb < cand)
      → (g : ℕ) × ((if leb (u32 (cand + size)) pool_end then some cand else some 0) ≡ some g)
        × FirstFit xh pool_end size g
  last-FirstFit cand at passed = elim (Bool-cases (leb (u32 (cand + size)) pool_end)) [
    | inl t ↦ (
      cand,
      rw t,
      fits
          (record {
            from = at.start;
            below = ground (arith, at.end, v.bound);
            free = λ i hi u. inl (at.behind i hi u (passed i hi u));
          })
          at.low,
    )
    | inr f ↦
        (0, rw f, no_room refl (λ p pl. ground (arith, at.low p pl, pl.below, at.end, v.bound)))
  ]

  -- The gap before the block `nb` is large enough.
  here-FirstFit :
      (cand nb : ℕ)
      → IsAt xh pool_end size cand
      → IsNext xh cand handle_count nb
      → leb (u32 (cand + size)) (xh nb).base_kb ≡ true
      → FirstFit xh pool_end size cand
  here-FirstFit cand nb at x t =
      let le : cand + size ≤ (xh nb).base_kb = ground (arith, at.end, v.bound) in
      let inside = v.inside nb x.index x.used in
      fits
        (record {
          from = at.start;
          below = omega arith;
          free = λ i hi u. omega (arith, IsNext-free xh cand nb at.behind x i hi u);
        })
        at.low

  -- It is not: no place lies below the end of `nb`, and no block lies across that end.
  next-IsAt :
      (cand nb : ℕ)
      → IsAt xh pool_end size cand
      → IsNext xh cand handle_count nb
      → leb (u32 (cand + size)) (xh nb).base_kb ≡ false
      → IsAt xh pool_end size (end_of (xh nb))
  next-IsAt cand nb at x t =
      let gt : (xh nb).base_kb < cand + size = ground (arith, at.end, v.bound) in
      let inside = v.inside nb x.index x.used in
      record {
        start = omega arith;
        end = inside.1;
        behind = IsNext-IsBehind xh pool_end cand nb v at.behind x;
        low = λ p pl. ground (arith, at.low p pl, pl.free nb x.index x.used);
      }

  gap_loop-FirstFit :
      (fuel cand : ℕ) {g : ℕ}
      → IsAt xh pool_end size cand
      → gap_loop fuel xh pool_end size cand ≡ some g
      → FirstFit xh pool_end size g
  unfolding gap_loop
  gap_loop-FirstFit zero cand at e = absurd (ground arith)
  gap_loop-FirstFit (suc fuel) cand {g} at e = elim (next_block_above-Lowest xh cand) [
    | nothing er passed ↦
        let (g', eg, ff) = last-FirstFit cand at passed in
        subst (FirstFit xh pool_end size)
          (some→eq _ _ (sym eg ∙ sym (gap_last xh pool_end size fuel cand er) ∙ e)) ff
    | lowest nb er x ↦
        let e' = sym (gap_next xh pool_end size fuel cand nb er) ∙ e in
        elim (Bool-cases (leb (u32 (cand + size)) (xh nb).base_kb)) [
          | inl t ↦
              subst (FirstFit xh pool_end size) (some→eq _ _ (rw t at e'))
                (here-FirstFit cand nb at x t)
          | inr f ↦
              gap_loop-FirstFit fuel (end_of (xh nb)) (next-IsAt cand nb at x f)
                (rw (f, end-u32 xh pool_end v cand nb x) at e')
        ]
  ]

  -- Each round passes a block, so a round for each block ahead and one more are enough.
  gap_loop-total :
      (fuel cand : ℕ)
      → HasSizes xh
      → IsAt xh pool_end size cand
      → count_from (ahead xh cand) handle_count 0 < fuel
      → (g : ℕ) × (gap_loop fuel xh pool_end size cand ≡ some g)
  gap_loop-total zero cand sizes at h = absurd (omega arith)
  gap_loop-total (suc fuel) cand sizes at h = elim (next_block_above-Lowest xh cand) [
    | nothing er passed ↦
        let (g, eg, _) = last-FirstFit cand at passed in
        (g, gap_last xh pool_end size fuel cand er ∙ eg)
    | lowest nb er x ↦ elim (Bool-cases (leb (u32 (cand + size)) (xh nb).base_kb)) [
      | inl t ↦ (cand, gap_next xh pool_end size fuel cand nb er ∙ rw t refl)
      | inr f ↦
          let (g, eg) =
            gap_loop-total fuel (end_of (xh nb)) sizes (next-IsAt cand nb at x f)
              (omega (arith, ahead-lt xh cand nb sizes x)) in
          (
            g,
            gap_next xh pool_end size fuel cand nb er ∙ rw (f, end-u32 xh pool_end v cand nb x) eg,
          )
    ]
  ]

  start-IsAt : IsAt xh pool_end size pool_start_kb
  start-IsAt = record {
    start = omega arith;
    end = v.start;
    behind = start-IsBehind xh pool_end v;
    low = λ p pl. pl.from;
  }

  -- `find_gap` answers with the lowest place for the block, and with 0 only where there is none.
  pub find_gap-FirstFit : {g : ℕ} → find_gap xh pool_end size ≡ some g → FirstFit xh pool_end size g
  unfolding find_gap
  find_gap-FirstFit = gap_loop-FirstFit walk_fuel pool_start_kb start-IsAt

  -- In a pool with no empty block the walk of `find_gap` ends, and its answer is the lowest place for
  -- the size, or 0 where no place is large enough.
  pub find_gap-total :
      HasSizes xh → (g : ℕ) × (find_gap xh pool_end size ≡ some g) × FirstFit xh pool_end size g
  unfolding find_gap
  find_gap-total sizes =
      let (g, e) =
        gap_loop-total walk_fuel pool_start_kb sizes start-IsAt
          (omega (arith, count_from_bound (ahead xh pool_start_kb) handle_count 0)) in
      (g, e, find_gap-FirstFit e)
