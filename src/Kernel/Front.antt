-- ===== src/Kernel/Front.antt =====
-- The result of the scan of src/kernel.rs, and the changed line that opens a region.
use waypipe.Base.{
  ℕ, ◌*◌, ◌≤◌, ◌<◌, ◌≡◌, refl, sym, ap, ◌∙◌, [], ◌++◌, append_assoc, append-nil, arith, length,
  take, drop, length-drop, take-append-drop, true, Bool-cases, inl, inr, if◌then◌else◌, ltb, ok,
}
use waypipe.Util.{Total}
use waypipe.Kernel.Construct.{Bytes, eq_bytes, Scanned}
use waypipe.Kernel.Patch.{Patch}
use waypipe.Kernel.Lines.{eq_bytes_sound, Grown}

-- The result of a scan: it is returned, its diff takes `m` to `m'`, the reference holds `new`, and
-- the diff has at most `bound` bytes.
pub record Scans (mir_start : ℕ) (m m' new : Bytes) (bound : ℕ) (result : Total Scanned)
    : Type 0 where
  pub scanned : Scanned
  pub runs : result ≡ ok scanned
  pub patch : Patch mir_start scanned.diff m m'
  pub copied : scanned.reference ≡ new
  pub short : length scanned.diff ≤ bound

pub past_gap : (skip t : ℕ) → 16 ≤ skip → ltb skip t ≡ true → 16 < t
past_gap skip t h k = ground arith

-- The words at the front of a changed line that are passed over.
abbrev pub leading : Bytes → Bytes → ℕ
leading v r = if eq_bytes (take 32 v) (take 32 r) then 8 else 0

pub leading_lem :
    (v r : Bytes) → (leading v r ≤ 8) × (take (4 * leading v r) v ≡ take (4 * leading v r) r)
leading_lem v r = elim (Bool-cases (eq_bytes (take 32 v) (take 32 r))) [
  | inl same ↦ rw same (omega arith, eq_bytes_sound (take 32 v) (take 32 r) same)
  | inr differ ↦ rw differ (omega arith, refl)
]

pub halves :
    (lead : ℕ) (v r : Bytes)
    → take (4 * lead) v ≡ take (4 * lead) r
    → r ≡ take (4 * lead) v ++ drop (4 * lead) r
halves lead v r alike =
    sym (take-append-drop (4 * lead) r) ∙ ap (λ l. l ++ drop (4 * lead) r) (sym alike)

pub Grown-first :
    (lead : ℕ) (v r : Bytes)
    → length v ≡ 64
    → length r ≡ 64
    → lead ≤ 8
    → Grown (drop (4 * lead) v) (drop (4 * lead) r) 0
Grown-first lead v r hv hr h = record {
  new = drop (4 * lead) v;
  old = drop (4 * lead) r;
  same = [];
  run_eq = sym (append-nil (drop (4 * lead) v));
  was_eq = sym (append-nil (drop (4 * lead) r));
  long = omega (arith, length-drop (4 * lead) v, length-drop (4 * lead) r);
  some_new = omega (arith, length-drop (4 * lead) v);
  tail = refl;
}

pub regroup_line :
    (A P w l back x : Bytes) → x ≡ P ++ w → A ++ ((x ++ l) ++ back) ≡ (A ++ P) ++ (w ++ (l ++ back))
regroup_line A P w l back x e = ap (λ t. A ++ ((t ++ l) ++ back)) e ∙ simp append_assoc
