-- ===== src/Fat/LongName.antt =====
-- src/kernel/fat.c: a long name that is filled into slots is gathered from them again.
use liberdos.Base.{
  ℕ, zero, suc, ◌+◌, ◌≤◌, ◌<◌, ◌≡◌, ◌⊎◌, inl, inr, refl, sym, ap, ◌∙◌, Bool, ◌||◌, arith, Array,
  update, update_self, update_ne, ltb, ◌==◌, if◌then◌else◌, if_true, if_false, ℕ_discrete, dec_lt,
  subst,
}
use liberdos.Base.Word.{u8, u16}
use liberdos.Fat.{word_at, put_word}
use liberdos.Fat.Packing.{word-put, word-put_apart}
use liberdos.Fat.Slots.{unit_off, unit_of, fill_loop, base_of, empty_slot, filled_slot, gather_loop}

unit_off_apart : (j k : ℕ) → j < k → unit_off j + 2 ≤ unit_off k
unit_off_apart j k h = ground arith

unit_small : (name : Array ℕ) (len idx : ℕ) → unit_of name len idx < 65536
unit_small name len idx = ground arith

-- What the loop leaves for the units from `k` on: the characters of the name at their places, all else
-- as before, and the length up to the last character of the slot, if it was smaller.
pub record Gives (name : Array ℕ) (len base k : ℕ) (buf : Array ℕ) (l : ℕ) (r : Array ℕ × ℕ)
    : Type 0 where
  pub chars : (i : ℕ) → base + k ≤ i → i < base + 13 → i < len → r.0 i ≡ name i
  pub others : (i : ℕ) → (i < base + k) ⊎ ((base + 13 ≤ i) ⊎ (len ≤ i)) → r.0 i ≡ buf i
  pub reaches : (m : ℕ) → base + k < m → m ≤ base + 13 → m ≤ len → m ≤ r.1
  pub within : (r.1 ≤ l) ⊎ ((r.1 ≤ len) × (r.1 ≤ base + 13))
  pub grows : l ≤ r.1

module _ (name : Array ℕ) (len base : ℕ) (room : base + 13 < 65536) where
  fill-below :
      (n k j : ℕ) (raw : Array ℕ)
      → j < k
      → word_at (fill_loop name len base n k raw) (unit_off j) ≡ word_at raw (unit_off j)
  unfolding fill_loop
  fill-below zero k j raw lt = refl
  fill-below (suc n) k j raw lt =
      fill-below n (k + 1) j (put_word raw (unit_off k) (unit_of name len (u16 (base + k))))
        (omega arith)
      ∙ word-put_apart raw (unit_off k) (unit_off j) (unit_of name len (u16 (base + k)))
          (inr (unit_off_apart j k lt))

  fill-unit :
      (n k j : ℕ) (raw : Array ℕ)
      → k + n ≤ 13
      → k ≤ j
      → j < k + n
      → word_at (fill_loop name len base n k raw) (unit_off j) ≡ unit_of name len (base + j)
  unfolding fill_loop
  fill-unit zero k j raw le lo hi = absurd (omega arith)
  fill-unit (suc n) k j raw le lo hi =
      let here : u16 (base + k) ≡ base + k = omega (arith, room) in
      let unit : ℕ = unit_of name len (u16 (base + k)) in
      elim (ℕ_discrete k j) [
        | yes e ↦
            ap
              (λ q.
                word_at (fill_loop name len base n (k + 1) (put_word raw (unit_off k) unit))
                  (unit_off q))
              (sym e)
            ∙ fill-below n (k + 1) k (put_word raw (unit_off k) unit) (omega arith)
            ∙ word-put raw (unit_off k) unit (unit_small name len (u16 (base + k)))
            ∙ ap (unit_of name len) (here ∙ ap (λ q. base + q) e)
        | no ne ↦
            fill-unit n (k + 1) j (put_word raw (unit_off k) unit) (omega arith) (omega arith)
              (omega arith)
      ]

  -- The name has `len` characters, none of which is 0.
  module _ (chars : (i : ℕ) → i < len → (1 ≤ name i) × (name i < 256)) (raw : Array ℕ)
      (units : (j : ℕ) → j < 13 → word_at raw (unit_off j) ≡ unit_of name len (base + j)) where
    -- A round of the loop at a character, and at an end.
    round_char :
        (n k l : ℕ) (buf : Array ℕ)
        → k < 13
        → base + k < len
        → gather_loop raw base (suc n) k buf l
          ≡ gather_loop raw base n
              (k + 1)
              (update buf (base + k) (name (base + k)))
              (if ltb l (base + k + 1) then base + k + 1 else l)
    unfolding gather_loop
    round_char n k l buf hk lt =
        let c : ℕ = name (base + k) in
        let value : word_at raw (unit_off k) ≡ c =
          units k hk ∙ ground (arith, chars (base + k) lt, lt) in
        let end : u16 (base + k + 1) ≡ base + k + 1 = omega (arith, room) in
        let byte : u8 c ≡ c = omega (arith, chars (base + k) lt) in
        if_false _ _ (ap (λ u. u == 0 || u == 0xFFFF) value ∙ ground (arith, chars (base + k) lt))
        ∙ ap
            (λ u.
              gather_loop raw base n (k + 1) (update buf (base + k) u)
                (if ltb l (u16 (base + k + 1)) then u16 (base + k + 1) else l))
            (ap u8 value ∙ byte)
        ∙ ap
            (λ q.
              gather_loop raw base n (k + 1) (update buf (base + k) c) (if ltb l q then q else l))
            end

    round_end :
        (n k l : ℕ) (buf : Array ℕ)
        → k < 13
        → len ≤ base + k
        → gather_loop raw base (suc n) k buf l ≡ (buf, l)
    unfolding gather_loop
    round_end n k l buf hk le =
        if_true _ _ (ap (λ u. u == 0 || u == 0xFFFF) (units k hk) ∙ ground arith)

    gather-Gives :
        (n k l : ℕ) (buf : Array ℕ)
        → k + n ≡ 13
        → Gives name len base k buf l (gather_loop raw base n k buf l)
    unfolding gather_loop
    gather-Gives zero k l buf e = record {
      chars = λ i lo hi lt. absurd (omega arith);
      others = λ i h. refl;
      reaches = λ m lo hi lt. absurd (omega arith);
      within = inl (omega arith);
      grows = omega arith;
    }
    gather-Gives (suc n) k l buf e = elim (dec_lt (base + k) len) [
      | no ge ↦
          subst (Gives name len base k buf l)
            (sym (round_end n k l buf (omega arith) (omega arith)))
            (record {
              chars = λ i lo hi lt. absurd (omega arith);
              others = λ i h. refl;
              reaches = λ m lo hi lt. absurd (omega arith);
              within = inl (omega arith);
              grows = omega arith;
            })
      | yes lt ↦
          let buf' : Array ℕ = update buf (base + k) (name (base + k)) in
          let l' : ℕ = if ltb l (base + k + 1) then base + k + 1 else l in
          let ih = gather-Gives n (k + 1) l' buf' (omega arith) in
          let r : Array ℕ × ℕ = gather_loop raw base n (k + 1) buf' l' in
          subst (Gives name len base k buf l) (sym (round_char n k l buf (omega arith) lt))
            (record {
              chars = λ i lo hi below. elim (ℕ_discrete (base + k) i) [
                | yes same ↦
                    ih.others i (inl (omega arith))
                    ∙ ap buf' (sym same)
                    ∙ update_self buf (base + k) (name (base + k))
                    ∙ ap name same
                | no ne ↦ ih.chars i (omega arith) hi below
              ];
              others = λ i h.
                  ih.others i (elim h [ inl a ↦ inl (omega arith) | inr b ↦ inr b ])
                  ∙ update_ne buf (base + k) i (name (base + k)) (omega (arith, h, lt));
              reaches = λ m lo hi at. elim (dec_lt (base + (k + 1)) m) [
                | yes more ↦ ih.reaches m more hi at
                | no last ↦ ground (arith, ih.grows)
              ];
              within = ground (arith, ih.within, lt);
              grows = ground (arith, ih.grows);
            })
    ]

-- The loop of `fat_dir_next_lfn` over a slot that `fat_alloc_lfn_entry` has filled puts the characters of
-- that part of the name to their places and no other character, and the length is at least that of
-- the name up to the end of the slot, for a name of characters other than 0 and an ordinal from 1 to
-- 31.
pub gather_loop-filled_slot :
    (name : Array ℕ) (len sum ordn l : ℕ) (is_last : Bool) (buf : Array ℕ)
    → 1 ≤ ordn
    → ordn ≤ 31
    → ((i : ℕ) → i < len → (1 ≤ name i) × (name i < 256))
    → Gives name len
        (base_of ordn)
        0
        buf
        l
        (gather_loop (filled_slot name len is_last sum ordn) (base_of ordn) 13 0 buf l)
unfolding filled_slot
gather_loop-filled_slot name len sum ordn l is_last buf lo hi chars =
    let room : base_of ordn + 13 < 65536 = omega arith in
    gather-Gives name len (base_of ordn) room chars (filled_slot name len is_last sum ordn)
      (λ j hj.
        fill-unit name len (base_of ordn) room 13 0 j (empty_slot is_last sum ordn) (omega arith)
          (omega arith) (omega arith))
      13 0 l buf refl
