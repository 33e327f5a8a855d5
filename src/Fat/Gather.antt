-- ===== src/Fat/Gather.antt =====
-- src/kernel/fat.c: a slot that `fat_alloc_lfn_entry` fills is taken up by `fat_dir_next_lfn`.
use Prim.Native.Nat.{bit_or}
use liberdos.Base.{
  ℕ, zero, suc, ◌+◌, ◌/◌, ◌%◌, ◌≤◌, ◌<◌, ◌≡◌, ◌≢◌, ◌⊎◌, inl, inr, refl, sym, ap, ◌∙◌, Bool, true,
  false, arith, Array, update, update_ne, ◌==◌, if◌then◌else◌, if_true, if_false, subst,
}
use liberdos.Base.Bits.{bit_or_below}
use liberdos.Base.Word.{u8, u16}
use liberdos.Fat.{put_word}
use liberdos.Fat.Cache.{differ}
use liberdos.Fat.Slots.{
  unit_off, unit_of, fill_loop, base_of, empty_slot, filled_slot, gather_loop, Gathered, restart,
  is_in_run, gather,
}
use liberdos.Fat.LongName.{Gives, gather_loop-filled_slot}

-- A byte that is not of a unit.
abbrev IsApart : ℕ → Type 0
IsApart i = (k : ℕ) → k < 13 → (unit_off k ≢ i) × (unit_off k + 1 ≢ i)

-- Filling the units leaves the other bytes of the slot.
fill-apart :
    (name : Array ℕ) (len base n k i : ℕ) (raw : Array ℕ)
    → k + n ≤ 13
    → IsApart i
    → fill_loop name len base n k raw i ≡ raw i
unfolding fill_loop
fill-apart name len base zero k i raw le away = refl
fill-apart name len base (suc n) k i raw le away =
    let unit : ℕ = unit_of name len (u16 (base + k)) in
    let ne = away k (omega arith) in
    fill-apart name len base n (k + 1) i (put_word raw (unit_off k) unit) (omega arith) away
    ∙ update_ne (update raw (unit_off k) (u8 unit)) (unit_off k + 1) i (u8 (unit / 256)) ne.1
    ∙ update_ne raw (unit_off k) i (u8 unit) ne.0

ordinal : Bool → ℕ → ℕ
ordinal is_last ordn = bit_or ordn (if is_last then 0x40 else 0)

-- The two fields of the first byte.
ordinal_low : (is_last : Bool) (ordn : ℕ) → ordn ≤ 20 → u8 (u8 (ordinal is_last ordn)) % 32 ≡ ordn
unfolding ordinal
ordinal_low true ordn hi = omega (arith, bit_or_below 6 1 ordn (omega arith))
ordinal_low false ordn hi = omega (arith, bit_or_below 6 0 ordn (omega arith))

ordinal_last : (ordn : ℕ) → ordn ≤ 20 → u8 (u8 (ordinal true ordn)) / 64 % 2 == 1 ≡ true
unfolding ordinal
ordinal_last ordn hi = ground (arith, bit_or_below 6 1 ordn (omega arith))

ordinal_more : (ordn : ℕ) → ordn ≤ 20 → u8 (u8 (ordinal false ordn)) / 64 % 2 == 1 ≡ false
unfolding ordinal
ordinal_more ordn hi = ground (arith, bit_or_below 6 0 ordn (omega arith))

module _ (name : Array ℕ) (len sum ordn : ℕ) (is_last : Bool) where
  abbrev slot : Array ℕ
  slot = filled_slot name len is_last sum ordn

  byte_0 : slot 0 ≡ u8 (ordinal is_last ordn)
  unfolding filled_slot ordinal
  byte_0 =
      fill-apart name len (base_of ordn) 13 0 0 (empty_slot is_last sum ordn) (omega arith)
        (λ k lt. (ground arith, ground arith))

  byte_11 : slot 11 ≡ 0x0F
  unfolding filled_slot
  byte_11 =
      fill-apart name len (base_of ordn) 13 0 11 (empty_slot is_last sum ordn) (omega arith)
        (λ k lt. (ground arith, ground arith))

  byte_13 : slot 13 ≡ sum
  unfolding filled_slot
  byte_13 =
      fill-apart name len (base_of ordn) 13 0 13 (empty_slot is_last sum ordn) (omega arith)
        (λ k lt. (ground arith, ground arith))

-- A slot of the run, with the ordinal `ordn`, goes through the loop.
gather_run :
    (raw : Array ℕ) (start g : Gathered) (ordn : ℕ)
    → restart raw start ≡ g
    → u8 (raw 0) % 32 ≡ ordn
    → is_in_run raw g ≡ true
    → gather raw start ≡ record g {
      buf = (gather_loop raw (base_of ordn) 13 0 g.buf g.len).0;
      len = (gather_loop raw (base_of ordn) 13 0 g.buf g.len).1;
    }
unfolding gather
gather_run raw start g ordn e o t =
    ap (λ q. next q (u8 (raw 0) % 32)) e ∙ ap (next g) o ∙ if_true _ _ t
  where
    next : Gathered → ℕ → Gathered
    next q n =
        let r = gather_loop raw (base_of n) 13 0 q.buf q.len in
        if is_in_run raw q then record q { buf = r.0; len = r.1 } else record q { have = false }

-- What a slot of the run leaves: the run goes on with the checksum, and has the slot's part of the name.
pub record IsGathered (name : Array ℕ) (len sum ordn : ℕ) (buf : Array ℕ) (l : ℕ) (g : Gathered)
    : Type 0 where
  pub have : g.have ≡ true
  pub claims : g.sum ≡ sum
  pub part : Gives name len (base_of ordn) 0 buf l (g.buf, g.len)

module _ (name : Array ℕ) (len sum ordn : ℕ) (lo : 1 ≤ ordn) (hi : ordn ≤ 20) (byte : sum < 256)
    (chars : (i : ℕ) → i < len → (1 ≤ name i) × (name i < 256)) where
  in_run :
      (is_last : Bool) (g : Gathered)
      → g.have ≡ true
      → g.sum ≡ sum
      → is_in_run (filled_slot name len is_last sum ordn) g ≡ true
  in_run is_last g have same = ground (
    arith,
    byte_13 name len sum ordn is_last,
    ap (λ b. u8 b % 32) (byte_0 name len sum ordn is_last) ∙ ordinal_low is_last ordn hi,
  )

  run-IsGathered :
      (is_last : Bool) (start g : Gathered)
      → restart (filled_slot name len is_last sum ordn) start ≡ g
      → g.have ≡ true
      → g.sum ≡ sum
      → IsGathered name len sum ordn g.buf g.len
          (gather (filled_slot name len is_last sum ordn) start)
  run-IsGathered is_last start g e have same =
      subst (IsGathered name len sum ordn g.buf g.len)
        (sym (
          gather_run (filled_slot name len is_last sum ordn) start g ordn e
            (ap (λ b. u8 b % 32) (byte_0 name len sum ordn is_last) ∙ ordinal_low is_last ordn hi)
            (in_run is_last g have same)))
        (record {
          have = have;
          claims = same;
          part =
              gather_loop-filled_slot name len sum ordn g.len is_last g.buf lo (omega arith) chars;
        })

-- `fat_dir_next_lfn` takes up a slot that `fat_alloc_lfn_entry` has filled, if the slot is the last of
-- the name, where a run begins with length 0, or a run with its checksum is in progress: the run goes
-- on, the characters of that part of the name are at their places and no other character changes,
-- and the length is at least that of the name up to the end of the slot. The slot has the attribute
-- of a long name. It is so for a name of characters other than 0, an ordinal from 1 to 20, which is
-- all that the buffer of 260 characters takes, and a checksum of one byte.
pub gather-filled_slot :
    (name : Array ℕ) (len sum ordn : ℕ) (is_last : Bool) (g : Gathered)
    → 1 ≤ ordn
    → ordn ≤ 20
    → sum < 256
    → ((i : ℕ) → i < len → (1 ≤ name i) × (name i < 256))
    → (is_last ≡ true) ⊎ ((g.have ≡ true) × (g.sum ≡ sum))
    → IsGathered name len sum ordn g.buf
        (if is_last then 0 else g.len)
        (gather (filled_slot name len is_last sum ordn) g)
      × (filled_slot name len is_last sum ordn 11 ≡ 0x0F)
gather-filled_slot name len sum ordn true g lo hi byte chars h = (
  run-IsGathered name len sum ordn lo hi byte chars true g
      (record g { have = true; len = 0; sum = sum })
      (if_true _ _
          (ap (λ b. u8 b / 64 % 2 == 1) (byte_0 name len sum ordn true) ∙ ordinal_last ordn hi)
        ∙ ap (λ s. record g { have = true; len = 0; sum = s })
            (ap u8 (byte_13 name len sum ordn true) ∙ omega arith))
      refl refl,
  byte_11 name len sum ordn true,
)
gather-filled_slot name len sum ordn false g lo hi byte chars (inl e) = absurd (differ e)
gather-filled_slot name len sum ordn false g lo hi byte chars (inr (have, same)) = (
  run-IsGathered name len sum ordn lo hi byte chars false g g
      (if_false _ _
        (ap (λ b. u8 b / 64 % 2 == 1) (byte_0 name len sum ordn false) ∙ ordinal_more ordn hi))
      have same,
  byte_11 name len sum ordn false,
)
