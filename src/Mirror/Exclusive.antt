-- ===== src/Mirror/Exclusive.antt =====
-- src/mirror.rs: the sequences of calls on a mirror, and the ranges that are handed out after them,
-- which the unsafe blocks there rely on.
use waypipe.Base.{
  ℕ, ◌-◌, ◌≤◌, ◌≡◌, refl, sym, ap, ◌∙◌, Bool, true, false, List, [], ◌∷◌, ◌++◌, All, arith, length,
  length-append, length-replicate, replicate, ok, Option, none, some,
}
use waypipe.Damage.{Interval}
use waypipe.Kernel.Construct.{Bytes}
use waypipe.Mirror.{Mirror, contents, contains, get_mut_range, drop_range, write_range, new, extend}
use waypipe.Mirror.Calls.{
  IsHeld, IsSound, handed_IsSound, refused_IsSound, dropped_IsSound, written_IsSound,
}
use waypipe.Mirror.Extend.{MmapZeroed, MremapKeeps, new_lem, grown_lem}

module _ (linux : Bool) (mmap : ℕ → Option Bytes) (mremap : Bytes → ℕ → Option Bytes) where
  -- The mirrors after calls that return, with the ranges that are handed out then.
  pub data Reach : Mirror → List Interval → Type 0 where
    created : (m : Mirror) (size : ℕ) (b : Bool) → new linux mmap mremap size b ≡ ok m → Reach m []
    handed :
        (m m' : Mirror) (held : List Interval) (start end : ℕ) (x : Interval)
        → Reach m held
        → get_mut_range m start end ≡ ok (some x, m')
        → Reach m' (x ∷ held)
    refused :
        (m m' : Mirror) (held : List Interval) (start end : ℕ)
        → Reach m held
        → get_mut_range m start end ≡ ok (none, m')
        → Reach m' held
    dropped :
        (m : Mirror) (front back : List Interval) (x : Interval)
        → Reach m (front ++ (x ∷ back))
        → Reach (drop_range m x) (front ++ back)
    written :
        (m : Mirror) (front back : List Interval) (x : Interval) (bytes : Bytes)
        → Reach m (front ++ (x ∷ back))
        → length bytes ≡ x.1 - x.0
        → Reach (write_range m x bytes) (front ++ (x ∷ back))
    extended :
        (m m' : Mirror) (held : List Interval) (new_size : ℕ)
        → Reach m held
        → extend linux mmap mremap m new_size ≡ ok m'
        → Reach m' held

false_is_not_true : false ≡ true → ⊥
false_is_not_true e = cc

-- Nothing is handed out when the set of ranges is empty.
none_held : (m : Mirror) (held : List Interval) → All (IsHeld m) held → m.ranges ≡ [] → held ≡ []
unfolding contains
none_held m [] a e = refl
none_held m (h ∷ held) ((_, _, c), a) e = absurd (false_is_not_true (ap (contains h) (sym e) ∙ c))

module _ (linux : Bool) (mmap : ℕ → Option Bytes) (mremap : Bytes → ℕ → Option Bytes)
    (zeroed : MmapZeroed mmap) (keeps : MremapKeeps mremap) where
  created_IsSound :
      (m : Mirror) (size : ℕ) (b : Bool) → new linux mmap mremap size b ≡ ok m → IsSound m []
  created_IsSound m size b h =
      let (d, e, l, r) = new_lem linux mmap mremap zeroed keeps size b m h in
      record {
        exclusive = tt;
        in_use = tt;
        sized = rw (d, e) (length-replicate {A = ℕ} size 0);
        small = omega arith;
        nonempty = rw r tt;
      }

  extended_IsSound :
      (m m' : Mirror) (held : List Interval) (n : ℕ)
      → IsSound m held
      → extend linux mmap mremap m n ≡ ok m'
      → IsSound m' held
  extended_IsSound m m' held n s h =
      let (d, e, l, u, r, r') = grown_lem linux mmap mremap zeroed keeps m m' n (s.sized) h in
      let nil = none_held m held (s.in_use) r in
      rw nil (record {
        exclusive = tt;
        in_use = tt;
        sized =
            rw (d, e)
              (omega (
                arith,
                length-append (contents (m.data_)) (replicate (n - m.region_size) 0),
                length-replicate {A = ℕ} (n - m.region_size) 0,
                s.sized,
              ));
        small = omega arith;
        nonempty = rw r' tt;
      })

  -- Where `mmap` gives zeros and `mremap` keeps the bytes and adds zeros: after any sequence of
  -- calls that return, the ranges that are handed out are not empty, lie within the region, share
  -- no position, and are in the set of ranges; the allocation has the size of the region, which
  -- is at most `isize::MAX`, and no range of the set is empty. A holder may write the bytes of
  -- its range.
  pub Reach-IsSound :
      (m : Mirror) (held : List Interval) → Reach linux mmap mremap m held → IsSound m held
  Reach-IsSound m held (created m0 size b h) = created_IsSound m size b h
  Reach-IsSound m held (handed m0 m1 l start end x r h) =
      handed_IsSound m0 m l start end x (Reach-IsSound m0 l r) h
  Reach-IsSound m held (refused m0 m1 l start end r h) =
      refused_IsSound m0 m held start end (Reach-IsSound m0 held r) h
  Reach-IsSound m held (dropped m0 front back x r) =
      dropped_IsSound m0 front back x (Reach-IsSound m0 (front ++ (x ∷ back)) r)
  Reach-IsSound m held (written m0 front back x bytes r e) =
      written_IsSound m0 front back x bytes e (Reach-IsSound m0 (front ++ (x ∷ back)) r)
  Reach-IsSound m held (extended m0 m1 l n r h) =
      extended_IsSound m0 m held n (Reach-IsSound m0 held r) h

  -- Where `mmap` gives zeros and `mremap` keeps the bytes and adds zeros: if `extend` returns
  -- after a sequence of calls and of writes to ranges that are handed out, no range is handed out
  -- then; the region has the new size, which is not smaller, and has the bytes as they were
  -- written, with zeros behind them.
  pub extend_lem :
      (m m' : Mirror) (held : List Interval) (n : ℕ)
      → Reach linux mmap mremap m held
      → extend linux mmap mremap m n ≡ ok m'
      → (held ≡ [])
        × (m'.region_size ≡ n)
        × (m.region_size ≤ n)
        × (contents (m'.data_) ≡ contents (m.data_) ++ replicate (n - m.region_size) 0)
  extend_lem m m' held n r h =
      let s = Reach-IsSound m held r in
      let (d, e, l, u, nil, nil') = grown_lem linux mmap mremap zeroed keeps m m' n (s.sized) h in
      (none_held m held (s.in_use) nil, e, l, d)
