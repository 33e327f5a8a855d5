-- ===== src/Xms/Move/Copy.antt =====
-- src/kernel/xms.c: the copy in chunks is one copy, whatever its length.
use liberdos.Base.{
  ℕ, zero, suc, ◌+◌, ◌-◌, ◌*◌, ◌/◌, ◌%◌, ◌^◌, ◌≤◌, ◌<◌, ◌≡◌, ◌≢◌, refl, sym, ap, some→eq, ◌==◌,
  if◌then◌else◌, dec_lt, ◌∙◌, Option, some, arith, List, ℕ_discrete, ne→==,
}
use liberdos.Base.Word.{u16, u32}
use liberdos.Machine.{Bios, Ram, copied, Disjoint}
use liberdos.Xms.Move.{xms_copy, copy_fuel, put_desc, desc_base, chunk_of, copy_loop}

-- What INT 15h AH=87h documents: at most 32768 words are copied from the base of the first
-- descriptor to that of the second, and all else stays, where the status is 0 and the two regions
-- are apart.
pub record Moves (bios : Bios) : Type 0 where
  pub moved :
      (src dst : List ℕ) (words : ℕ) (ram : Ram) (a : ℕ)
      → words ≤ 0x8000
      → Disjoint (desc_base src) (desc_base dst) (2 * words)
      → (bios.move src dst words ram).0 ≡ 0
      → (bios.move src dst words ram).1 a ≡ copied (desc_base dst) (desc_base src) (2 * words) ram a

-- A descriptor holds the address that it was made for.
pub desc_base-put_desc : (base : ℕ) → base < 2 ^ 32 → desc_base (put_desc base) ≡ base
unfolding put_desc
desc_base-put_desc base h = omega arith

-- Two copies of neighbouring parts are one copy.
copied-copied :
    (dst src c n a : ℕ) (ram mid : Ram)
    → c ≤ n
    → Disjoint src dst n
    → ((b : ℕ) → mid b ≡ copied dst src c ram b)
    → copied (dst + c) (src + c) (n - c) mid a ≡ copied dst src n ram a
copied-copied dst src c n a ram mid h apart m = elim (dec_lt a (dst + c)) [
  | yes lt ↦ ground (arith, m a)
  | no ge ↦
      let same : src + c + (a - (dst + c)) ≡ src + (a - dst) = omega arith in
      ground (arith, m a, m (src + c + (a - (dst + c))), ap ram same)
]

-- The regions of a copy lie below 4 GB and apart.
abbrev pub CanCopy : ℕ → ℕ → ℕ → Type 0
CanCopy dst src len = (src + len ≤ 2 ^ 32) × (dst + len ≤ 2 ^ 32) × Disjoint src dst len

-- A run of the loop: it ends, and with status 0 only after the whole copy.
abbrev pub Copies : ℕ → ℕ → ℕ → Ram → Option (ℕ × Ram) → Type 0
Copies dst src len ram r =
    (status : ℕ) × (after : Ram) × (r ≡ some (status, after))
    × (status ≡ 0 → (a : ℕ) → after a ≡ copied dst src len ram a)

abbrev move_of : Bios → ℕ → ℕ → ℕ → Ram → ℕ × Ram
move_of bios dst src len ram = bios.move (put_desc src) (put_desc dst) (u16 (chunk_of len / 2)) ram

module _ (bios : Bios) (works : Moves bios) where
  copy_nothing :
      (fuel dst src : ℕ) (ram : Ram) → copy_loop bios (suc fuel) dst src 0 ram ≡ some (0, ram)
  unfolding copy_loop
  copy_nothing fuel dst src ram = refl

  -- The two ways through a round that has bytes left.
  copy_ok :
      (fuel dst src len : ℕ) (ram : Ram)
      → len ≢ 0
      → (move_of bios dst src len ram).0 ≡ 0
      → copy_loop bios (suc fuel) dst src len ram
        ≡ copy_loop bios fuel
            (u32 (dst + chunk_of len))
            (u32 (src + chunk_of len))
            (len - chunk_of len)
            (move_of bios dst src len ram).1
  unfolding copy_loop
  copy_ok fuel dst src len ram ne ok = rw (ne→== len 0 ne, ok)

  copy_fault :
      (fuel dst src len : ℕ) (ram : Ram)
      → len ≢ 0
      → (move_of bios dst src len ram).0 ≢ 0
      → copy_loop bios (suc fuel) dst src len ram ≡ some (move_of bios dst src len ram)
  unfolding copy_loop
  copy_fault fuel dst src len ram ne fault = rw (ne→== len 0 ne, ne→== _ 0 fault)

  chunk_moved :
      (dst src len : ℕ) (ram : Ram)
      → 0 < len
      → len % 2 ≡ 0
      → CanCopy dst src len
      → (move_of bios dst src len ram).0 ≡ 0
      → (a : ℕ) → (move_of bios dst src len ram).1 a ≡ copied dst src (chunk_of len) ram a
  chunk_moved dst src len ram pos even fits ok a =
      let es = desc_base-put_desc src (omega arith) in
      let ed = desc_base-put_desc dst (omega arith) in
      let n : 2 * u16 (chunk_of len / 2) ≡ chunk_of len = ground arith in
      works.moved (put_desc src) (put_desc dst) (u16 (chunk_of len / 2)) ram a (ground arith)
        (rw (es, ed, n) (ground arith)) ok
      ∙ rw (es, ed, n) refl

  -- A round with more than 64 KB left, from what the rest of the loop does.
  long_Copies :
      (fuel dst src len : ℕ) (ram : Ram)
      → 0x10000 < len
      → len % 2 ≡ 0
      → CanCopy dst src len
      → (move_of bios dst src len ram).0 ≡ 0
      → Copies
          (dst + chunk_of len)
          (src + chunk_of len)
          (len - chunk_of len)
          (move_of bios dst src len ram).1
          (copy_loop bios fuel
            (dst + chunk_of len)
            (src + chunk_of len)
            (len - chunk_of len)
            (move_of bios dst src len ram).1)
      → Copies dst src len ram (copy_loop bios (suc fuel) dst src len ram)
  long_Copies fuel dst src len ram long even fits ok (status, after, e, good) = (
    status,
    after,
    copy_ok fuel dst src len ram (omega arith) ok ∙ rw (wd, ws) e,
    λ z a.
        good z a
        ∙ copied-copied dst src (chunk_of len) len a ram _ (ground arith) fits.2
            (chunk_moved dst src len ram (omega arith) even fits ok),
  )
    where
      wd : u32 (dst + chunk_of len) ≡ dst + chunk_of len
      wd = ground arith

      ws : u32 (src + chunk_of len) ≡ src + chunk_of len
      ws = ground arith

  -- The last chunk; the addresses behind it may wrap, and are not used.
  short_Copies :
      (fuel dst src len : ℕ) (ram : Ram)
      → len ≤ 0x10000
      → 0 < len
      → len % 2 ≡ 0
      → CanCopy dst src len
      → (move_of bios dst src len ram).0 ≡ 0
      → Copies dst src len ram (copy_loop bios (suc (suc fuel)) dst src len ram)
  short_Copies fuel dst src len ram short pos even fits ok =
      let none_left : len - chunk_of len ≡ 0 = ground arith in
      let whole : chunk_of len ≡ len = ground arith in
      (
        0,
        (move_of bios dst src len ram).1,
        copy_ok (suc fuel) dst src len ram (omega arith) ok
            ∙ rw none_left (copy_nothing fuel _ _ _),
        λ _ a.
            chunk_moved dst src len ram pos even fits ok a ∙ ap (λ n. copied dst src n ram a) whole,
      )

  -- If the BIOS copies as it documents, the loop over an even number of bytes, between regions below
  -- 4 GB that are apart, ends within a fuel of more than one round for each 64 KB and one; and with
  -- status 0 the whole region is copied and no other byte has changed.
  pub copy_loop-Copies :
      (fuel dst src len : ℕ) (ram : Ram)
      → len % 2 ≡ 0
      → CanCopy dst src len
      → len / 0x10000 + 1 < fuel
      → Copies dst src len ram (copy_loop bios fuel dst src len ram)
  copy_loop-Copies zero dst src len ram even fits enough = absurd (omega arith)
  copy_loop-Copies (suc zero) dst src len ram even fits enough = absurd (omega arith)
  copy_loop-Copies (suc (suc fuel)) dst src len ram even fits enough = elim (ℕ_discrete len 0) [
    | yes e ↦ (0, ram, rw e (copy_nothing (suc fuel) dst src ram), λ _ a. ground arith)
    | no ne ↦ elim (ℕ_discrete (move_of bios dst src len ram).0 0) [
      | no fault ↦ (_, _, copy_fault (suc fuel) dst src len ram ne fault, λ z. absurd (fault z))
      | yes ok ↦ elim (dec_lt 0x10000 len) [
        | no short ↦ short_Copies fuel dst src len ram (omega arith) (omega arith) even fits ok
        | yes long ↦
            let c : chunk_of len ≡ 0x10000 = ground arith in
            long_Copies (suc fuel) dst src len ram long even fits ok (
              copy_loop-Copies (suc fuel) (dst + chunk_of len) (src + chunk_of len)
                (len - chunk_of len) (move_of bios dst src len ram).1 (omega arith) (omega arith)
                (omega arith))
      ]
    ]
  ]

-- With no bytes left one round is enough, and each round before takes 64 KB.
copy_loop_end :
    (bios : Bios) (fuel dst src : ℕ) (ram : Ram)
    → copy_loop bios (suc fuel) dst src 0 ram ≡ some (0, ram)
unfolding copy_loop
copy_loop_end bios fuel dst src ram = refl

-- Whatever the BIOS does, the loop ends within its fuel.
pub copy_loop-ends :
    (bios : Bios) (fuel dst src len : ℕ) (ram : Ram)
    → len / 0x10000 + 1 < fuel
    → (r : ℕ × Ram) × (copy_loop bios fuel dst src len ram ≡ some r)
unfolding copy_loop
copy_loop-ends bios zero dst src len ram h = absurd (omega arith)
copy_loop-ends bios (suc fuel) dst src len ram h = elim (ℕ_discrete len 0) [
  | yes e ↦ ((0, ram), rw e refl)
  | no ne ↦ elim (ℕ_discrete (move_of bios dst src len ram).0 0) [
    | no fault ↦ (move_of bios dst src len ram, rw (ne→== len 0 ne, ne→== _ 0 fault) refl)
    | yes ok ↦ elim (dec_lt 0x10000 len) [
      | yes long ↦
          let c : chunk_of len ≡ 0x10000 = ground arith in
          let (r, e) =
            copy_loop-ends bios fuel (u32 (dst + chunk_of len)) (u32 (src + chunk_of len))
              (len - chunk_of len) (move_of bios dst src len ram).1 (omega arith) in
          (r, rw (ne→== len 0 ne, ok) e)
      | no short ↦
          let z : len - chunk_of len ≡ 0 = ground arith in
          let f : fuel ≡ suc (fuel - 1) = omega arith in
          (
            (0, (move_of bios dst src len ram).1),
            rw (ne→== len 0 ne, ok)
                (rw (z, f)
                  (copy_loop_end bios (fuel - 1) (u32 (dst + chunk_of len))
                    (u32 (src + chunk_of len)) (move_of bios dst src len ram).1)),
          )
    ]
  ]
]

-- A whole copy, as `xms_copy` reports it.
pub xms_copy-copied :
    (bios : Bios) (dst src bytes : ℕ) (ram after : Ram)
    → Moves bios
    → bytes % 2 ≡ 0
    → CanCopy dst src bytes
    → xms_copy bios dst src bytes ram ≡ some (0, after)
    → (a : ℕ) → after a ≡ copied dst src bytes ram a
unfolding xms_copy
xms_copy-copied bios dst src bytes ram after works even fits e a =
    let (st, out, run, good) =
      copy_loop-Copies bios works (copy_fuel bytes) dst src bytes ram even fits (omega arith) in
    let reply : some (if st == 0 then 0 else 1, out) ≡ some (0, after) =
      sym (rw (run, xms_copy) refl) ∙ e in
    let both = some→eq _ _ reply in
    let zero : st ≡ 0 = ground (arith, ap (λ p. p.0) both) in
    ap (λ p. p.1 a) (sym both) ∙ good zero a
