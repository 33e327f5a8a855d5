-- ===== src/Setver/Path.antt =====
-- src/kernel/setver.c: the last component of a path.
use liberdos.Base.{
  ℕ, zero, suc, ◌+◌, ◌≤◌, ◌<◌, ◌≡◌, ◌≢◌, inl, inr, ap, ◌∙◌, true, false, some, arith, ◌==◌, ne→==,
  if◌then◌else◌, if_true, if_false, Bool-cases, ℕ_discrete, subst,
}
use liberdos.Base.Word.{u16}
use liberdos.Machine.{Ram, peek_byte}
use liberdos.Setver.{is_separator, base_loop}

-- The character of the path at an offset.
abbrev pub char_at : Ram → ℕ → ℕ → ℕ → ℕ
char_at ram seg off i = peek_byte ram seg (off + i)

-- The last component of the first `len` characters begins at `base`.
pub data IsBase (ram : Ram) (seg off len : ℕ) (base : ℕ) : Type 0 where
  whole :
      ((j : ℕ) → j < len → is_separator (char_at ram seg off j) ≡ false)
      → base ≡ off
      → IsBase ram seg off len base
  behind :
      (s : ℕ)
      → s < len
      → is_separator (char_at ram seg off s) ≡ true
      → ((j : ℕ) → s < j → j < len → is_separator (char_at ram seg off j) ≡ false)
      → base ≡ u16 (off + s + 1)
      → IsBase ram seg off len base

next-IsBase :
    (ram : Ram) (seg off i base : ℕ)
    → IsBase ram seg off i base
    → IsBase ram seg off
        (i + 1)
        (if is_separator (char_at ram seg off i) then u16 (off + i + 1) else base)
next-IsBase ram seg off i base b = elim (Bool-cases (is_separator (char_at ram seg off i))) [
  | inl t ↦ behind i (omega arith) t (λ j lo hi. absurd (omega arith)) (if_true _ base t)
  | inr f ↦ elim b [
    | whole clear e ↦
        whole (λ j hi. extend j (λ ne. clear j (omega arith)) f) (if_false _ base f ∙ e)
    | behind s lt t clear e ↦
        behind s (omega arith) t (λ j lo hi. extend j (λ ne. clear j lo (omega arith)) f)
          (if_false _ base f ∙ e)
  ]
]
  where
    extend :
        (j : ℕ)
        → (i ≢ j → is_separator (char_at ram seg off j) ≡ false)
        → is_separator (char_at ram seg off i) ≡ false
        → is_separator (char_at ram seg off j) ≡ false
    extend j below f = elim (ℕ_discrete i j) [
      | yes e ↦ subst (λ v. is_separator (char_at ram seg off v) ≡ false) e f
      | no ne ↦ below ne
    ]

pub base_loop-IsBase :
    (ram : Ram) (seg off n i base len : ℕ)
    → i ≤ len
    → len < i + n
    → char_at ram seg off len ≡ 0
    → ((j : ℕ) → j < len → char_at ram seg off j ≢ 0)
    → IsBase ram seg off i base
    → (b : ℕ) × (base_loop ram seg off n i base ≡ some b) × IsBase ram seg off len b
unfolding base_loop
base_loop-IsBase ram seg off zero i base len lo hi end inner v = absurd (omega arith)
base_loop-IsBase ram seg off (suc n) i base len lo hi end inner v = elim (ℕ_discrete i len) [
  | yes e ↦ (
    base,
    if_true (some base) _ (ap (λ j. char_at ram seg off j == 0) e ∙ ap (λ c. c == 0) end),
    subst (λ j. IsBase ram seg off j base) e v,
  )
  | no ne ↦
      let (b, eb, ib) =
        base_loop-IsBase ram seg off n (i + 1) _ len (omega arith) (omega arith) end inner
          (next-IsBase ram seg off i base v) in
      (b, if_false (some base) _ (ne→== _ 0 (inner i (omega arith))) ∙ eb, ib)
]
