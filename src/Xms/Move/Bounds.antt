-- ===== src/Xms/Move/Bounds.antt =====
-- src/kernel/xms.c: `emm_linear` and `do_move` against the blocks of the pool.
use liberdos.Base.{
  ℕ, ◌+◌, ◌-◌, ◌*◌, ◌%◌, ◌^◌, ◌≤◌, ◌<◌, ◌≡◌, ◌≢◌, inl, inr, refl, sym, ap, ◌∙◌, subst, true, not,
  ◌||◌, some, arith, Array, Bool-cases, ltb, ◌==◌, if◌then◌else◌,
}
use liberdos.Machine.{Bios, Ram, copied, Disjoint}
use liberdos.Xms.Pool.{Handle, handle_count, IsPool}
use liberdos.Xms.Move.{
  Linear, bad, at, EmmMove, Moved, done, failed, emm_linear, copy_fuel, copy_moved, resolved,
  do_move,
}
use liberdos.Xms.Move.Copy.{Moves, copy_loop-Copies}

-- A region of `len` bytes from `lin` on lies in the block of a handle.
pub record InBlock (xh : Array Handle) (handle lin len : ℕ) : Type 0 where
  pub count : handle ≤ handle_count
  pub used : (xh (handle - 1)).used ≡ true
  pub from : (xh (handle - 1)).base_kb * 1024 ≤ lin
  pub below : lin + len ≤ ((xh (handle - 1)).base_kb + (xh (handle - 1)).size_kb) * 1024

-- Where a side of a move starts, given its handle and offset.
abbrev pub side_at : Array Handle → ℕ → ℕ → ℕ
side_at xh handle off = (xh (handle - 1)).base_kb * 1024 + off

-- What the answer `done` says.
abbrev pub HasCopied : Array Handle → EmmMove → Ram → Moved → Type 0
HasCopied xh m ram r =
    (after : Ram)
    → r ≡ done after
    → InBlock xh m.src_handle (side_at xh m.src_handle m.src_off) m.length
      × InBlock xh m.dst_handle (side_at xh m.dst_handle m.dst_off) m.length
      × ((a : ℕ)
          → after a
            ≡ copied (side_at xh m.dst_handle m.dst_off) (side_at xh m.src_handle m.src_off)
                m.length ram a)

moved_done :
    (status : ℕ) (ram after : Ram)
    → (if status == 0 then done ram else failed 0x82 ram) ≡ done after
    → (status ≡ 0) × (ram ≡ after)
moved_done status ram after e = ground arith

module _ (xh : Array Handle) (pool_end : ℕ) (v : IsPool xh pool_end) where
  -- A side that is resolved lies in its block and at its offset, if `off + len` does not wrap.
  pub emm_linear-InBlock :
      (handle off len err_h err_o : ℕ) {lin : ℕ}
      → handle ≢ 0
      → off + len < 2 ^ 32
      → emm_linear xh handle off len err_h err_o ≡ at lin
      → InBlock xh handle lin len × (lin ≡ (xh (handle - 1)).base_kb * 1024 + off)
  unfolding emm_linear
  emm_linear-InBlock handle off len err_h err_o {lin} ne fits e =
      elim (Bool-cases (ltb handle_count handle || not (xh (handle - 1)).used)) [
        | inl b ↦ absurd (ground arith)
        | inr ok ↦
            let u : (xh (handle - 1)).used ≡ true = ground arith in
            let c : handle ≤ handle_count = ground arith in
            let inside = v.inside (handle - 1) (omega arith) u in
            let size : (xh (handle - 1)).size_kb < 2 ^ 20 = omega (arith, v.bound) in
            let base : (xh (handle - 1)).base_kb < 2 ^ 20 = omega (arith, v.bound) in
            let room : off + len ≤ (xh (handle - 1)).size_kb * 1024 = ground arith in
            let place : lin ≡ (xh (handle - 1)).base_kb * 1024 + off = ground arith in
            (record { count = c; used = u; from = omega arith; below = omega arith }, place)
      ]

  -- Regions in different blocks are apart.
  InBlock-Disjoint :
      (a b x y len : ℕ)
      → a ≢ 0
      → b ≢ 0
      → a ≢ b
      → InBlock xh a x len
      → InBlock xh b y len
      → Disjoint x y len
  InBlock-Disjoint a b x y len na nb ne p q = ground (
    arith,
    v.apart (a - 1) (b - 1) (omega (arith, p.count)) (omega (arith, q.count))
        (λ e. ne (omega arith)) p.used q.used,
    p.from,
    p.below,
    q.from,
    q.below,
  )

  below_4gb : (a x len : ℕ) → InBlock xh a x len → x + len ≤ 2 ^ 32
  below_4gb a x len p =
      omega (arith, v.inside (a - 1) (omega (arith, p.count)) p.used, v.bound, p.below)

  -- In a well-formed pool, a move between two different handles whose offsets plus the length stay
  -- below 4 GB ends, if the BIOS copies as it documents. If it reports success, both regions lie in
  -- the blocks of their handles, and the one has been copied to the other with no other byte changed.
  pub do_move-copies :
      (bios : Bios) (m : EmmMove) (ram : Ram)
      → Moves bios
      → m.src_handle ≢ 0
      → m.dst_handle ≢ 0
      → m.src_handle ≢ m.dst_handle
      → m.src_off + m.length < 2 ^ 32
      → m.dst_off + m.length < 2 ^ 32
      → (r : Moved) × (do_move bios xh m ram ≡ some r) × HasCopied xh m ram r
  unfolding do_move
  do_move-copies bios m ram works ns nd ne fs fd = elim (Bool-cases (m.length % 2 == 1)) [
    | inl odd ↦ (failed 0xA7 ram, rw odd refl, λ after z. cc)
    | inr even ↦
        let (r, e, h) =
          sides (emm_linear xh m.src_handle m.src_off m.length 0xA3 0xA4)
            (emm_linear xh m.dst_handle m.dst_off m.length 0xA5 0xA6) refl refl (ground arith) in
        (r, rw even e, h)
  ]
    where
      sides :
          (s d : Linear)
          → emm_linear xh m.src_handle m.src_off m.length 0xA3 0xA4 ≡ s
          → emm_linear xh m.dst_handle m.dst_off m.length 0xA5 0xA6 ≡ d
          → m.length % 2 ≡ 0
          → (r : Moved) × (resolved bios ram m.length s d ≡ some r) × HasCopied xh m ram r
      sides (bad x) d es ed even = (failed x ram, refl, λ after z. cc)
      sides (at src) (bad x) es ed even = (failed x ram, refl, λ after z. cc)
      sides (at src) (at dst) es ed even =
          let (p, ep) = emm_linear-InBlock m.src_handle m.src_off m.length 0xA3 0xA4 ns fs es in
          let (q, eq) = emm_linear-InBlock m.dst_handle m.dst_off m.length 0xA5 0xA6 nd fd ed in
          let (status, ram', el, good) =
            copy_loop-Copies bios works (copy_fuel m.length) dst src m.length ram even
              (
                below_4gb m.src_handle src m.length p,
                below_4gb m.dst_handle dst m.length q,
                InBlock-Disjoint m.src_handle m.dst_handle src dst m.length ns nd ne p q,
              )
              (omega arith) in
          (
            if status == 0 then done ram' else failed 0x82 ram',
            rw (el, copy_moved) refl,
            λ after z. (
              subst (λ l. InBlock xh m.src_handle l m.length) ep p,
              subst (λ l. InBlock xh m.dst_handle l m.length) eq q,
              λ a.
                  let (zero, same) = moved_done status ram' after z in
                  ap (λ f. f a) (sym same)
                  ∙ good zero a
                  ∙ ap (λ l. copied dst l m.length ram a) ep
                  ∙ ap (λ l. copied l (side_at xh m.src_handle m.src_off) m.length ram a) eq,
            ),
          )

-- Where `off + len` passes 4 GB and what is left of it by the wrap is no more than the size of the
-- block, `emm_linear` accepts the region although it runs out of the block.
pub emm_linear_wraps :
    (xh : Array Handle) (handle off len err_h err_o : ℕ)
    → handle ≢ 0
    → handle ≤ handle_count
    → (xh (handle - 1)).used ≡ true
    → (xh (handle - 1)).size_kb < 2 ^ 22
    → off < 2 ^ 32
    → len < 2 ^ 32
    → 2 ^ 32 ≤ off + len
    → off + len - 2 ^ 32 ≤ (xh (handle - 1)).size_kb * 1024
    → (emm_linear xh handle off len err_h err_o
        ≡ at (((xh (handle - 1)).base_kb * 1024 + off) % 2 ^ 32))
      × ((xh (handle - 1)).size_kb * 1024 < off + len)
unfolding emm_linear
emm_linear_wraps xh handle off len err_h err_o ne c u small ho hl wraps passes = ground arith
