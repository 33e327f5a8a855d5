-- ===== src/Xms/Pool/Query.antt =====
-- src/kernel/xms.c: what `query_free` reports: the largest block that can be had, and all that is
-- free.
use Prim.Native.Nat.{◌^◌, max}
use liberdos.Base.{
  ℕ, zero, suc, ◌+◌, ◌-◌, ◌≤◌, ◌<◌, ◌≡◌, ◌⊎◌, inl, inr, refl, sym, subst, true, some, arith, Array,
  leb, ◌&&◌, if◌then◌else◌, dec_lt,
}
use liberdos.Base.Loop.{
  count_from, count_from_bound, sum_from, sum_from_eq, sum_from_ne, sum_from_zero,
}
use liberdos.Xms.Pool.{
  Handle, handle_count, pool_start_kb, widen, query_loop, walk_fuel, query_free, IsPool, HasSizes,
  IsPlace,
}
use liberdos.Xms.Pool.Next.{IsNext, nothing, lowest, next_block_above-Lowest}
use liberdos.Xms.Pool.Round.{end_of}
use liberdos.Xms.Pool.Ahead.{
  start-IsBehind, IsBehind, IsNext-IsBehind, IsNext-free, ahead, ahead-lt, end-u32,
}

-- The sizes of the blocks in use from `cand` on, and of all of them.
abbrev size_ahead : Array Handle → ℕ → ℕ → ℕ
size_ahead xh cand i = if (xh i).used && leb cand (xh i).base_kb then (xh i).size_kb else 0

abbrev pub used_kb : Array Handle → ℕ
used_kb xh = sum_from (λ i. if (xh i).used then (xh i).size_kb else 0) handle_count 0

record IsCounted (xh : Array Handle) (pool_end cand : ℕ) (acc : ℕ × ℕ) : Type 0 where
  start : pool_start_kb ≤ cand
  end : cand ≤ pool_end
  behind : IsBehind xh cand
  place : (acc.0 ≡ 0) ⊎ ((p : ℕ) × IsPlace xh pool_end acc.0 p)
  most : (size p : ℕ) → IsPlace xh pool_end size p → p < cand → size ≤ acc.0
  taken : acc.1 + pool_start_kb ≤ cand
  sum : acc.1 + used_kb xh + pool_start_kb ≡ cand + sum_from (size_ahead xh cand) handle_count 0

-- The report: some block of the largest size fits and none above it does, and what is free and what
-- is in use make up the pool.
pub record Reports (xh : Array Handle) (pool_end : ℕ) (r : ℕ × ℕ) : Type 0 where
  pub fits : (r.0 ≡ 0) ⊎ ((p : ℕ) × IsPlace xh pool_end r.0 p)
  pub most : (size p : ℕ) → IsPlace xh pool_end size p → size ≤ r.0
  pub sum : r.1 + used_kb xh + pool_start_kb ≡ pool_end

widen_lem :
    (limit cand largest total : ℕ)
    → total + (limit - cand) < 2 ^ 32
    → widen limit cand (largest, total) ≡ (max largest (limit - cand), total + (limit - cand))
widen_lem limit cand largest total h = ground arith

-- The larger of two sizes has a place if both have one.
IsPlace-max :
    (xh : Array Handle) (pool_end a b : ℕ)
    → (a ≡ 0) ⊎ ((p : ℕ) × IsPlace xh pool_end a p)
    → (b ≡ 0) ⊎ ((p : ℕ) × IsPlace xh pool_end b p)
    → (max a b ≡ 0) ⊎ ((p : ℕ) × IsPlace xh pool_end (max a b) p)
IsPlace-max xh pool_end a b f g = elim (dec_lt a b) [
  | yes lt ↦
      let e : b ≡ max a b = omega arith in
      subst (λ m. (m ≡ 0) ⊎ ((p : ℕ) × IsPlace xh pool_end m p)) e g
  | no ge ↦
      let e : a ≡ max a b = omega arith in
      subst (λ m. (m ≡ 0) ⊎ ((p : ℕ) × IsPlace xh pool_end m p)) e f
]

module _ (xh : Array Handle) (pool_end : ℕ) (v : IsPool xh pool_end) (sizes : HasSizes xh) where
  last-Reports :
      (cand : ℕ) (acc : ℕ × ℕ)
      → IsCounted xh pool_end cand acc
      → ((k : ℕ) → k < handle_count → (xh k).used ≡ true → (xh k).base_kb < cand)
      → Reports xh pool_end (widen pool_end cand acc)
  last-Reports cand (largest, total) at passed =
      let none_left : sum_from (size_ahead xh cand) handle_count 0 ≡ 0 =
        sum_from_zero (size_ahead xh cand) handle_count 0
          (λ k lo hi. ground (arith, passed k hi)) in
      rw (widen_lem pool_end cand largest total (omega (arith, at.taken, at.end, v.bound)))
        (record {
          fits = IsPlace-max xh pool_end largest (pool_end - cand) at.place (
              inr (
                cand,
                record {
                  from = at.start;
                  below = omega (arith, at.end);
                  free = λ i hi u. inl (at.behind i hi u (passed i hi u));
                },
              ));
          most = λ size p pl. elim (dec_lt p cand) [
            | yes lt ↦ omega (arith, at.most size p pl lt)
            | no ge ↦ omega (arith, pl.below)
          ];
          sum = omega (arith, at.sum, at.end, none_left);
        })

  -- The sizes ahead of the next block's end are those ahead of `cand`, less that block's.
  ahead-next :
      (cand nb : ℕ)
      → IsBehind xh cand
      → IsNext xh cand handle_count nb
      → sum_from (size_ahead xh cand) handle_count 0
        ≡ sum_from (size_ahead xh (end_of (xh nb))) handle_count 0 + (xh nb).size_kb
  ahead-next cand nb b x =
      sum_from_ne _ _ handle_count 0 nb (xh nb).size_kb (omega arith) x.index
        (λ k _ hk ne. ground (
          arith,
          sizes k hk,
          sizes nb x.index x.used,
          x.least k hk,
          v.apart nb k x.index hk (λ e. ne (sym e)) x.used,
        ))
        (ground (arith, x.used, x.above, sizes nb x.index x.used))

  next-IsCounted :
      (cand nb : ℕ) (acc : ℕ × ℕ)
      → IsCounted xh pool_end cand acc
      → IsNext xh cand handle_count nb
      → IsCounted xh pool_end (end_of (xh nb)) (widen (xh nb).base_kb cand acc)
  next-IsCounted cand nb (largest, total) at x =
      let inside = v.inside nb x.index x.used in
      rw (widen_lem (xh nb).base_kb cand largest total (omega (arith, at.taken, v.bound))) (record {
        start = omega (arith, at.start, x.above);
        end = inside.1;
        behind = IsNext-IsBehind xh pool_end cand nb v at.behind x;
        place = IsPlace-max xh pool_end largest ((xh nb).base_kb - cand) at.place (
            inr (
              cand,
              record {
                from = at.start;
                below = omega (arith, x.above);
                free = λ i hi u. omega (arith, x.above, IsNext-free xh cand nb at.behind x i hi u);
              },
            ));
        most = λ size p pl below. elim (dec_lt p cand) [
          | yes lt ↦ omega (arith, at.most size p pl lt)
          | no ge ↦ omega (arith, pl.free nb x.index x.used)
        ];
        taken = omega (arith, at.taken, x.above);
        sum = omega (arith, at.sum, x.above, ahead-next cand nb at.behind x);
      })

  query_loop-Reports :
      (fuel cand : ℕ) (acc : ℕ × ℕ)
      → IsCounted xh pool_end cand acc
      → count_from (ahead xh cand) handle_count 0 < fuel
      → (r : ℕ × ℕ) × (query_loop fuel xh pool_end cand acc ≡ some r) × Reports xh pool_end r
  unfolding query_loop
  query_loop-Reports zero cand acc at h = absurd (omega arith)
  query_loop-Reports (suc fuel) cand acc at h = elim (next_block_above-Lowest xh cand) [
    | nothing er passed ↦
        (widen pool_end cand acc, rw (er, query_loop), last-Reports cand acc at passed)
    | lowest nb er x ↦
        let (r, er', rep) =
          query_loop-Reports fuel (end_of (xh nb)) (widen (xh nb).base_kb cand acc)
            (next-IsCounted cand nb acc at x) (omega (arith, ahead-lt xh cand nb sizes x)) in
        (r, rw (er, query_loop) (rw (end-u32 xh pool_end v cand nb x) er'), rep)
  ]

  -- In a pool with no empty block, `query_free` ends. A block of the first number it reports has a
  -- place unless that number is 0, no larger block has one, and the second number is what the blocks
  -- in use leave of the pool.
  pub query_free-Reports : (r : ℕ × ℕ) × (query_free xh pool_end ≡ some r) × Reports xh pool_end r
  unfolding query_free
  query_free-Reports =
      query_loop-Reports walk_fuel pool_start_kb (0, 0) begin
        (omega (arith, count_from_bound (ahead xh pool_start_kb) handle_count 0))
    where
      begin : IsCounted xh pool_end pool_start_kb (0, 0)
      begin = record {
        start = omega arith;
        end = v.start;
        behind = start-IsBehind xh pool_end v;
        place = inl refl;
        most = λ size p pl below. absurd (omega (arith, pl.from));
        taken = omega arith;
        sum = omega (
          arith,
          sum_from_eq (size_ahead xh pool_start_kb) (λ i. if (xh i).used then (xh i).size_kb else 0)
              handle_count 0 (λ k lo hi. ground (arith, v.inside k hi)),
        );
      }
