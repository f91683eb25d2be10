-- ===== src/Kernel/Lines.antt =====
-- The lines of the target and of the reference, and how a changed region grows by a line.
use waypipe.Base.{
  ℕ, zero, suc, ◌+◌, ◌*◌, ◌<◌, ◌≡◌, refl, sym, ap, ◌∙◌, [], ◌∷◌, ◌++◌, append_assoc, append-nil,
  arith, length, length-append, take, drop, length-take, length-drop, take-append-drop, All, true,
  Bool-cases, inl, inr, if◌then◌else◌,
}
use waypipe.Kernel.Construct.{Bytes, Lines, lines, eq_bytes}

pub eq_bytes_sound : (xs ys : Bytes) → eq_bytes xs ys ≡ true → xs ≡ ys
unfolding eq_bytes
eq_bytes_sound [] [] h = refl
eq_bytes_sound [] (y ∷ ys) h = cc
eq_bytes_sound (x ∷ xs) [] h = cc
eq_bytes_sound (x ∷ xs) (y ∷ ys) h = ground (arith, eq_bytes_sound xs ys)

-- The bytes of the target and of the reference that the lines hold.
abbrev pub news : Lines → Bytes
news [] = []
news ((v, r) ∷ ps) = v ++ news ps

abbrev pub olds : Lines → Bytes
olds [] = []
olds ((v, r) ∷ ps) = r ++ olds ps

abbrev pub IsLine : Bytes × Bytes → Type 0
IsLine (v, r) = (length v ≡ 64) × (length r ≡ 64)

pub record Cut (n : ℕ) (t r : Bytes) : Type 0 where
  pub news_eq : news (lines n t r) ≡ t
  pub olds_eq : olds (lines n t r) ≡ r
  pub whole : All IsLine (lines n t r)
  pub count : length (lines n t r) ≡ n

-- Two buffers of `n` lines are cut without loss.
pub lines-Cut : (n : ℕ) (t r : Bytes) → length t ≡ 64 * n → length r ≡ 64 * n → Cut n t r
unfolding lines
lines-Cut zero [] [] h k = record { news_eq = refl; olds_eq = refl; whole = tt; count = refl }
lines-Cut zero [] (x ∷ r) h k = absurd (omega arith)
lines-Cut zero (x ∷ t) r h k = absurd (omega arith)
lines-Cut (suc n) t r h k =
    let rest =
      lines-Cut n (drop 64 t) (drop 64 r) (omega (arith, length-drop 64 t))
        (omega (arith, length-drop 64 r)) in
    record {
      news_eq = ap (λ l. take 64 t ++ l) rest.news_eq ∙ take-append-drop 64 t;
      olds_eq = ap (λ l. take 64 r ++ l) rest.olds_eq ∙ take-append-drop 64 r;
      whole = ((omega (arith, length-take 64 t), omega (arith, length-take 64 r)), rest.whole);
      count = ap suc rest.count;
    }

-- A changed region: the bytes `run` copied so far, in place of `was`. They end alike, with
-- `trailing` unchanged words.
pub record Grown (run was : Bytes) (trailing : ℕ) : Type 0 where
  pub new : Bytes
  pub old : Bytes
  pub same : Bytes
  pub run_eq : run ≡ new ++ same
  pub was_eq : was ≡ old ++ same
  pub long : length new ≡ length old
  pub some_new : 0 < length new
  pub tail : length same ≡ 4 * trailing

pub Grown-length :
    {run was : Bytes} {trailing : ℕ} → Grown run was trailing → length run ≡ length was
Grown-length g = omega (
  arith,
  ap length g.run_eq,
  ap length g.was_eq,
  length-append g.new g.same,
  length-append g.old g.same,
  g.long,
)

-- A line more: its words count as unchanged if it is the same, else the count starts again.
pub Grown-line :
    {run was : Bytes} {trailing : ℕ} (v r : Bytes)
    → Grown run was trailing
    → length v ≡ 64
    → length r ≡ 64
    → Grown (run ++ v) (was ++ r) (if eq_bytes v r then trailing + 16 else 0)
Grown-line {run} {was} {trailing} v r g hv hr = elim (Bool-cases (eq_bytes v r)) [
  | inl clear ↦ rw clear (record {
    new = g.new;
    old = g.old;
    same = g.same ++ v;
    run_eq = ap (λ l. l ++ v) g.run_eq ∙ append_assoc g.new g.same v;
    was_eq =
        ap (λ l. was ++ l) (sym (eq_bytes_sound v r clear))
        ∙ ap (λ l. l ++ v) g.was_eq
        ∙ append_assoc g.old g.same v;
    long = g.long;
    some_new = g.some_new;
    tail = omega (arith, length-append g.same v, g.tail);
  })
  | inr dirty ↦ rw dirty (record {
    new = run ++ v;
    old = was ++ r;
    same = [];
    run_eq = sym (append-nil (run ++ v));
    was_eq = sym (append-nil (was ++ r));
    long = omega (arith, length-append run v, length-append was r, Grown-length g);
    some_new = omega (arith, length-append run v);
    tail = omega arith;
  })
]
