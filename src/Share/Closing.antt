-- ===== src/Share/Closing.antt =====
-- src/kernel/share.c: what goes when a file is closed for the last time, or its process ends.
use liberdos.Base.{
  ℕ, ◌<◌, ◌≡◌, ◌≢◌, ◌↔◌, sym, false, ◌&&◌, arith, Array, if◌then◌else◌, ◌==◌, subst, Bool,
}
use liberdos.Base.Loop.{for_each, for_each_lem}
use liberdos.Share.{FileKey, Lock, max_locks, same_file, share_file_closed, share_psp_closed}
use liberdos.Share.Regions.{Holds, IsHeld, same_key→eq, eq→same_key}

-- The body of both loops: the entry is freed if it passes the test.
abbrev drop_if : (Lock → Bool) → Lock → Lock
drop_if p l = if l.used && p l then record l { used = false } else l

Holds-drop_if :
    (p : Lock → Bool) (g : FileKey) (q x : ℕ) (l : Lock)
    → Holds g q x (drop_if p l) ↔ (Holds g q x l × (p l ≡ false))
Holds-drop_if p g q x l = (
  (λ h. (
    record {
      used = ground (arith, h.used);
      file = ground (arith, h.used, h.file);
      owner = ground (arith, h.used, h.owner);
      from = ground (arith, h.used, h.from);
      below = ground (arith, h.used, h.below);
    },
    ground (arith, h.used),
  )),
  (λ (h, miss). record {
    used = ground (arith, h.used);
    file = ground (arith, h.file);
    owner = ground (arith, h.owner);
    from = ground (arith, h.from);
    below = ground (arith, h.below);
  }),
)

IsHeld-drop_if :
    (p : Lock → Bool) (locks : Array Lock) (g : FileKey) (q x : ℕ)
    → IsHeld (for_each max_locks 0 (drop_if p) locks) g q x
      ↔ ((i : ℕ) × (i < max_locks) × Holds g q x (locks i) × (p (locks i) ≡ false))
IsHeld-drop_if p locks g q x = (
  (λ (i, hi, h).
      let (h', miss) = (Holds-drop_if p g q x (locks i)).0 (subst (Holds g q x) (body i hi) h) in
      (i, hi, h', miss)),
  (λ (i, hi, h, miss). (
    i,
    hi,
    subst (Holds g q x) (sym (body i hi)) ((Holds-drop_if p g q x (locks i)).1 (h, miss)),
  )),
)
  where
    body : (i : ℕ) → i < max_locks → for_each max_locks 0 (drop_if p) locks i ≡ drop_if p (locks i)
    body i hi = ground (arith, for_each_lem max_locks 0 (drop_if p) locks i)

-- `share_file_closed` drops exactly the locks on that file: every other byte keeps its owner.
pub share_file_closed_iff :
    (locks : Array Lock) (f g : FileKey) (q x : ℕ)
    → IsHeld (share_file_closed locks f) g q x ↔ (IsHeld locks g q x × (g ≢ f))
unfolding share_file_closed
share_file_closed_iff locks f g q x =
    let (into, out) = IsHeld-drop_if (λ l. same_file l f) locks g q x in
    (
      (λ h.
          let (i, hi, h', miss) = into h in
          ((i, hi, h'), (λ e. ground (arith, h'.file, miss, eq→same_key (locks i).file f)))),
      (λ ((i, hi, h), ne). out (i, hi, h, ground (arith, h.file, same_key→eq (locks i).file f))),
    )

-- `share_psp_closed` drops exactly the locks of that process: every other byte keeps its owner.
pub share_psp_closed_iff :
    (locks : Array Lock) (psp : ℕ) (g : FileKey) (q x : ℕ)
    → IsHeld (share_psp_closed locks psp) g q x ↔ (IsHeld locks g q x × (q ≢ psp))
unfolding share_psp_closed
share_psp_closed_iff locks psp g q x =
    let (into, out) = IsHeld-drop_if (λ l. l.psp == psp) locks g q x in
    (
      (λ h. let (i, hi, h', miss) = into h in ((i, hi, h'), (λ e. ground (arith, h'.owner, miss)))),
      (λ ((i, hi, h), ne). out (i, hi, h, ground (arith, h.owner))),
    )
