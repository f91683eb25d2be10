-- ===== src/Mirror/Calls.antt =====
-- src/mirror.rs: what each call does to the ranges that are handed out.
use waypipe.Base.{
  ℕ, ◌≤◌, ◌<◌, ◌≡◌, refl, true, false, ◌⊎◌, inl, inr, List, [], ◌∷◌, ◌++◌, All, arith, length, ok,
  ◌-◌, take, drop, length-append, length-take, length-drop, Option, none, some,
}
use waypipe.Damage.{Interval}
use waypipe.Kernel.Construct.{Bytes}
use waypipe.Mirror.{
  Mirror, contents, isize_max, contains, insert, any_overlap, get_mut_range, take_range, drop_range,
  MirrorBacking, mmapped, allocated, with_contents, write_range,
}
use waypipe.Mirror.Ranges.{
  IsNonempty, insert-All, remove-All, IsClear, IsExclusive, contains-insert_self, contains-insert,
  contains-remove, any_overlap-IsClear,
}

-- A range that is handed out: it is not empty, within the region, and known to be in use.
abbrev pub IsHeld : Mirror → Interval → Type 0
IsHeld m h = (h.0 < h.1) × (h.1 ≤ m.region_size) × (contains h (m.ranges) ≡ true)

pub record IsSound (m : Mirror) (held : List Interval) : Type 0 where
  pub exclusive : IsExclusive held
  pub in_use : All (IsHeld m) held
  pub sized : length (contents (m.data_)) ≡ m.region_size
  pub small : m.region_size ≤ isize_max
  pub nonempty : All IsNonempty (m.ranges)

All-IsHeld :
    (m m' : Mirror) (held : List Interval)
    → m.region_size ≡ m'.region_size
    → ((h : Interval) → contains h (m.ranges) ≡ true → contains h (m'.ranges) ≡ true)
    → All (IsHeld m) held
    → All (IsHeld m') held
All-IsHeld m m' [] e f a = tt
All-IsHeld m m' (h ∷ held) e f ((p, q, c), a) =
    ((p, omega arith, f h c), All-IsHeld m m' held e f a)

any_overlap-All :
    (m : Mirror) (x : Interval) (held : List Interval)
    → All (IsHeld m) held
    → any_overlap (m.ranges) x ≡ false
    → All (IsClear x) held
any_overlap-All m x [] a o = tt
any_overlap-All m x (h ∷ held) ((p, q, c), a) o =
    (any_overlap-IsClear h x (m.ranges) c o, any_overlap-All m x held a o)

take_range_lem :
    (m m' : Mirror) (x : Interval) (r : Option Interval)
    → take_range m x ≡ ok (r, m')
    → (r ≡ some x) × (m' ≡ m)
unfolding take_range
take_range_lem m m' x r h = ground arith

-- The cases of a call: nothing is handed out, and the ranges are the old ones or one more; or the
-- range asked for is free, within the region, and in use from now on.
pub get_mut_range_cases :
    (m m' : Mirror) (start end : ℕ) (r : Option Interval)
    → get_mut_range m start end ≡ ok (r, m')
    → ((r ≡ none)
        × ((m' ≡ m)
            ⊎ ((start < end) × (m' ≡ record m { ranges = insert (start, end) (m.ranges) }))))
      ⊎ ((r ≡ some (start, end))
          × (start < end)
          × (end ≤ m.region_size)
          × (any_overlap (m.ranges) (start, end) ≡ false)
          × (m' ≡ record m { ranges = insert (start, end) (m.ranges) }))
unfolding get_mut_range
get_mut_range_cases m m' start end r h =
    ground (
      arith,
      take_range_lem (record m { ranges = insert (start, end) (m.ranges) }) m' (start, end) r,
    )

abbrev marked : Mirror → Interval → Mirror
marked m x = record m { ranges = insert x (m.ranges) }

marked-IsHeld :
    (m : Mirror) (x : Interval) (held : List Interval)
    → All (IsHeld m) held
    → All (IsHeld (marked m x)) held
marked-IsHeld m x held a =
    All-IsHeld m (marked m x) held refl (λ h c. contains-insert x h (m.ranges) c) a

marked-IsSound :
    (m : Mirror) (x : Interval) (held : List Interval)
    → IsNonempty x
    → IsSound m held
    → IsSound (marked m x) held
marked-IsSound m x held some_x s = record {
  exclusive = s.exclusive;
  in_use = marked-IsHeld m x held (s.in_use);
  sized = s.sized;
  small = s.small;
  nonempty = insert-All IsNonempty x (m.ranges) some_x (s.nonempty);
}

pub handed_IsSound :
    (m m' : Mirror) (held : List Interval) (start end : ℕ) (x : Interval)
    → IsSound m held
    → get_mut_range m start end ≡ ok (some x, m')
    → IsSound m' (x ∷ held)
handed_IsSound m m' held start end x s h = elim (get_mut_range_cases m m' start end (some x) h) [
  | inl (e, _) ↦ cc
  | inr (e, lt, le, o, e') ↦
      let at : x ≡ (start, end) = cc in
      rw (e', at)
        (record {
          exclusive = (any_overlap-All m (start, end) held (s.in_use) o, s.exclusive);
          in_use = (
            (lt, le, contains-insert_self (start, end) (m.ranges)),
            marked-IsHeld m (start, end) held (s.in_use),
          );
          sized = s.sized;
          small = s.small;
          nonempty = insert-All IsNonempty (start, end) (m.ranges) lt (s.nonempty);
        })
]

pub refused_IsSound :
    (m m' : Mirror) (held : List Interval) (start end : ℕ)
    → IsSound m held
    → get_mut_range m start end ≡ ok (none, m')
    → IsSound m' held
refused_IsSound m m' held start end s h = elim (get_mut_range_cases m m' start end none h) [
  | inl (e, inl e') ↦ rw e' s
  | inl (e, inr (lt, e')) ↦ rw e' (marked-IsSound m (start, end) held lt s)
  | inr (e, _, _, _, _) ↦ cc
]

dropped_IsExclusive :
    (front back : List Interval) (x : Interval)
    → IsExclusive (front ++ (x ∷ back))
    → IsExclusive (front ++ back)
dropped_IsExclusive [] back x (_, e) = e
dropped_IsExclusive (y ∷ front) back x (a, e) =
    (All_drop front back x a, dropped_IsExclusive front back x e)
  where
    All_drop :
        (front back : List Interval) (x : Interval)
        → All (IsClear y) (front ++ (x ∷ back))
        → All (IsClear y) (front ++ back)
    All_drop [] back x (_, a) = a
    All_drop (z ∷ front) back x (c, a) = (c, All_drop front back x a)

kept_IsHeld : (m : Mirror) (x y : Interval) → IsClear y x → IsHeld m y → IsHeld (drop_range m x) y
unfolding drop_range
kept_IsHeld m x y c (lt, le, u) = (lt, le, contains-remove x y (m.ranges) u (ground arith))

kept_All :
    (m : Mirror) (x : Interval) (l : List Interval)
    → All (IsClear x) l
    → All (IsHeld m) l
    → All (IsHeld (drop_range m x)) l
kept_All m x [] c a = tt
kept_All m x (y ∷ l) (c, cs) (h, a) = (kept_IsHeld m x y (ground arith) h, kept_All m x l cs a)

-- The ranges that remain are clear from the one that is dropped, so they stay in the set.
dropped_IsHeld :
    (m : Mirror) (front back : List Interval) (x : Interval)
    → IsExclusive (front ++ (x ∷ back))
    → All (IsHeld m) (front ++ (x ∷ back))
    → All (IsHeld (drop_range m x)) (front ++ back)
dropped_IsHeld m [] back x (c, _) (_, a) = kept_All m x back c a
dropped_IsHeld m (y ∷ front) back x (c, e) (h, a) =
    (kept_IsHeld m x y (All_at front c) h, dropped_IsHeld m front back x e a)
  where
    All_at : (front : List Interval) → All (IsClear y) (front ++ (x ∷ back)) → IsClear y x
    All_at [] (c, _) = c
    All_at (z ∷ front) (_, a) = All_at front a

pub dropped_IsSound :
    (m : Mirror) (front back : List Interval) (x : Interval)
    → IsSound m (front ++ (x ∷ back))
    → IsSound (drop_range m x) (front ++ back)
unfolding drop_range
dropped_IsSound m front back x s = record {
  exclusive = dropped_IsExclusive front back x (s.exclusive);
  in_use = dropped_IsHeld m front back x (s.exclusive) (s.in_use);
  sized = s.sized;
  small = s.small;
  nonempty = remove-All IsNonempty x (m.ranges) (s.nonempty);
}

IsHeld-at :
    (m : Mirror) (front back : List Interval) (x : Interval)
    → All (IsHeld m) (front ++ (x ∷ back))
    → IsHeld m x
IsHeld-at m [] back x (h, _) = h
IsHeld-at m (y ∷ front) back x (_, a) = IsHeld-at m front back x a

length-write_range :
    (m : Mirror) (x : Interval) (bytes : Bytes)
    → x.0 < x.1
    → x.1 ≤ length (contents (m.data_))
    → length bytes ≡ x.1 - x.0
    → length (contents ((write_range m x bytes).data_)) ≡ length (contents (m.data_))
unfolding write_range
length-write_range m x bytes lt le e = written_length (m.data_) le
  where
    written_length :
        (b : MirrorBacking)
        → x.1 ≤ length (contents b)
        → length (
            contents
              (with_contents b (take (x.0) (contents b) ++ (bytes ++ drop (x.1) (contents b)))))
          ≡ length (contents b)
    written_length (mmapped d) le = omega (
      arith,
      length-append (take (x.0) d) (bytes ++ drop (x.1) d),
      length-append bytes (drop (x.1) d),
      length-take (x.0) d,
      length-drop (x.1) d,
    )
    written_length (allocated d) le = omega (
      arith,
      length-append (take (x.0) d) (bytes ++ drop (x.1) d),
      length-append bytes (drop (x.1) d),
      length-take (x.0) d,
      length-drop (x.1) d,
    )

pub written_IsSound :
    (m : Mirror) (front back : List Interval) (x : Interval) (bytes : Bytes)
    → length bytes ≡ x.1 - x.0
    → IsSound m (front ++ (x ∷ back))
    → IsSound (write_range m x bytes) (front ++ (x ∷ back))
unfolding write_range
written_IsSound m front back x bytes e s =
    let (lt, le, _) = IsHeld-at m front back x (s.in_use) in
    record {
      exclusive = s.exclusive;
      in_use =
          All-IsHeld m (write_range m x bytes) (front ++ (x ∷ back)) refl (λ h c. c) (s.in_use);
      sized =
          omega (arith, s.sized, length-write_range m x bytes lt (omega (arith, le, s.sized)) e);
      small = s.small;
      nonempty = s.nonempty;
    }
