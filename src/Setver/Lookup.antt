-- ===== src/Setver/Lookup.antt =====
-- src/kernel/setver.c: `setver_apply` finds the first entry for the program.
use liberdos.Base.{
  ℕ, zero, suc, ◌+◌, ◌≤◌, ◌<◌, ◌≡◌, ◌≢◌, inl, inr, refl, sym, ap, ◌∙◌, true, false, Option, none,
  some, arith, ◌==◌, ==_refl, ne→==, if_true, if_false, Array, Bool-cases, Option-cases, ℕ_discrete,
  subst,
}
use liberdos.Base.Loop.{find_from, find_from-IsFirst, find_from-none}
use liberdos.Base.Word.{u8}
use liberdos.Machine.{Ram, poke_word}
use liberdos.Setver.Path.{char_at, IsBase, whole, base_loop-IsBase}
use liberdos.Setver.{
  SetverEntry, setver_max, name_size, up, name_loop, is_for, version_of, table_loop, text_at,
  apply_at, setver_apply,
}

-- The name is that of the text up to case, and both end within the name's size.
pub record SameName (name text : Array ℕ) (n k : ℕ) : Type 0 where
  pub end : ℕ
  pub from : k ≤ end
  pub below : end < k + n
  pub ends : u8 (name end) ≡ 0
  pub same : (j : ℕ) → k ≤ j → j ≤ end → u8 (name j) ≡ up (u8 (text j))

differ : false ≡ true → ⊥
differ e = cc

name_loop-SameName :
    (name text : Array ℕ) (n k : ℕ) → name_loop name text n k ≡ true → SameName name text n k
unfolding name_loop
name_loop-SameName name text zero k e = absurd (differ e)
name_loop-SameName name text (suc n) k e = elim (ℕ_discrete (u8 (name k)) (up (u8 (text k)))) [
  | no ne ↦ absurd (differ (rw (ne→== (u8 (name k)) (up (u8 (text k))) ne) at e))
  | yes eq ↦
      let t : u8 (name k) == up (u8 (text k)) ≡ true =
        ap (λ v. u8 (name k) == v) (sym eq) ∙ ==_refl (u8 (name k)) in
      let behind = sym (if_true _ false t) ∙ e in
      elim (ℕ_discrete (u8 (name k)) 0) [
        | yes z ↦ record {
          end = k;
          from = omega arith;
          below = omega arith;
          ends = z;
          same = λ j lo hi. subst (λ v. u8 (name v) ≡ up (u8 (text v))) (omega arith) eq;
        }
        | no nz ↦
            let ih =
              name_loop-SameName name text n (k + 1)
                (sym (if_false true _ (ne→== _ 0 nz)) ∙ behind) in
            record {
              end = ih.end;
              from = omega (arith, ih.from);
              below = omega (arith, ih.below);
              ends = ih.ends;
              same = λ j lo hi. elim (ℕ_discrete k j) [
                | yes q ↦ subst (λ v. u8 (name v) ≡ up (u8 (text v))) q eq
                | no far ↦ ih.same j (omega arith) hi
              ];
            }
      ]
]

SameName-name_loop :
    (name text : Array ℕ) (n k end : ℕ)
    → k ≤ end
    → end < k + n
    → u8 (name end) ≡ 0
    → ((j : ℕ) → k ≤ j → j ≤ end → u8 (name j) ≡ up (u8 (text j)))
    → name_loop name text n k ≡ true
unfolding name_loop
SameName-name_loop name text zero k end from below ends same = absurd (omega arith)
SameName-name_loop name text (suc n) k end from below ends same =
    let eq = same k (omega arith) from in
    let t : u8 (name k) == up (u8 (text k)) ≡ true =
      ap (λ v. u8 (name k) == v) (sym eq) ∙ ==_refl (u8 (name k)) in
    if_true _ false t ∙ elim (ℕ_discrete (u8 (name k)) 0) [
      | yes z ↦ if_true true _ (ap (λ v. v == 0) z)
      | no nz ↦
          if_false true _ (ne→== _ 0 nz)
          ∙ SameName-name_loop name text n (k + 1) end (omega (arith, nz, after k nz)) (omega arith)
              ends (λ j lo hi. same j (omega arith) hi)
    ]
  where
    after : (v : ℕ) → u8 (name v) ≢ 0 → v ≢ end
    after v nz q = nz (ap (λ w. u8 (name w)) q ∙ ends)

-- The loop over the table as a search.
abbrev pub applied : Array SetverEntry → ℕ → Ram → Option ℕ → Ram
applied table psp ram none = ram
applied table psp ram (some i) = poke_word ram psp 0x40 (version_of (table i))

table_loop_lem :
    (table : Array SetverEntry) (text : Array ℕ) (psp n i : ℕ) (ram : Ram)
    → table_loop table text psp n i ram
      ≡ applied table psp ram (find_from (λ j. is_for text (table j)) n i)
unfolding table_loop find_from
table_loop_lem table text psp zero i ram = refl
table_loop_lem table text psp (suc n) i ram = elim (Bool-cases (is_for text (table i))) [
  | inl t ↦ rw t refl
  | inr f ↦ rw f (table_loop_lem table text psp n (i + 1) ram)
]

-- An entry that is in use is for the program of this name.
abbrev pub IsNamed : Array ℕ → SetverEntry → Type 0
IsNamed text e = (u8 (e.name 0) ≢ 0) × SameName e.name text name_size 0

is_for-IsNamed : (text : Array ℕ) (e : SetverEntry) → is_for text e ≡ true → IsNamed text e
is_for-IsNamed text e h = elim (ℕ_discrete (u8 (e.name 0)) 0) [
  | yes z ↦ absurd (differ (sym (if_true false _ (ap (λ v. v == 0) z)) ∙ h))
  | no nz ↦
      (nz, name_loop-SameName e.name text name_size 0 (sym (if_false false _ (ne→== _ 0 nz)) ∙ h))
]

is_for-other : (text : Array ℕ) (e : SetverEntry) → is_for text e ≡ false → IsNamed text e → ⊥
is_for-other text e h (nz, s) =
    let t = SameName-name_loop e.name text name_size 0 s.end s.from s.below s.ends s.same in
    differ (sym h ∙ if_false false _ (ne→== _ 0 nz) ∙ t)

-- What the table says of a program: the version of its first entry, or nothing.
pub data Applied (table : Array SetverEntry) (text : Array ℕ) (psp : ℕ) (ram after : Ram)
    : Type 0 where
  found :
      (i : ℕ)
      → i < setver_max
      → IsNamed text (table i)
      → ((j : ℕ) → j < i → IsNamed text (table j) → ⊥)
      → after ≡ poke_word ram psp 0x40 (version_of (table i))
      → Applied table text psp ram after
  unlisted :
      ((j : ℕ) → j < setver_max → IsNamed text (table j) → ⊥)
      → after ≡ ram
      → Applied table text psp ram after

table_loop-Applied :
    (table : Array SetverEntry) (text : Array ℕ) (psp : ℕ) (ram : Ram)
    → Applied table text psp ram (table_loop table text psp setver_max 0 ram)
table_loop-Applied table text psp ram =
    let run = table_loop_lem table text psp setver_max 0 ram in
    let test = λ (j : ℕ). is_for text (table j) in
    elim (Option-cases (find_from test setver_max 0)) [
      | inl e ↦
          unlisted
            (λ j hi.
              is_for-other text (table j)
                (find_from-none test setver_max 0 e j (omega arith) (omega arith)))
            (run ∙ ap (applied table psp ram) e)
      | inr (i, e) ↦
          let first = find_from-IsFirst test setver_max 0 e in
          found i (omega (arith, first.below)) (is_for-IsNamed text (table i) first.hit)
            (λ j lt. is_for-other text (table j) (first.first j (omega arith) lt))
            (run ∙ ap (applied table psp ram) e)
    ]

-- For a path of `len` characters `setver_apply` ends. It takes the part behind the last separator, and
-- the first entry in use with that name, up to the case of the path's letters, gives its version to
-- the PSP, at offset 40h; with no such entry RAM is as it was.
pub setver_apply-Applied :
    (table : Array SetverEntry) (psp seg off len : ℕ) (ram : Ram)
    → len < 65536
    → char_at ram seg off len ≡ 0
    → ((j : ℕ) → j < len → char_at ram seg off j ≢ 0)
    → (base : ℕ) × (after : Ram) × (setver_apply table psp seg off ram ≡ some after)
      × IsBase ram seg off len base
      × Applied table (text_at ram seg base) psp ram after
unfolding setver_apply
setver_apply-Applied table psp seg off len ram small end inner =
    let (base, e, b) =
      base_loop-IsBase ram seg off 65536 0 off len (omega arith) small end inner
        (whole (λ j hi. absurd (omega arith)) refl) in
    (
      base,
      table_loop table (text_at ram seg base) psp setver_max 0 ram,
      ap (apply_at table psp seg ram) e,
      b,
      table_loop-Applied table (text_at ram seg base) psp ram,
    )
