-- ===== src/Kernel/Scan.antt =====
-- The scan of src/kernel.rs on any lines, against what a diff means.
use waypipe.Base.{
  ℕ, suc, ◌+◌, ◌-◌, ◌*◌, ◌^◌, ◌≤◌, ◌<◌, ◌≡◌, refl, sym, ap, ◌∙◌, [], ◌∷◌, ◌++◌, append_assoc,
  append-nil, arith, length, length-append, take, drop, length-take, length-drop, take-append-drop,
  take-append, All, Bool-cases, inl, inr, if◌then◌else◌, ltb, leb, le→leb, ◌>>◌, assert,
}
use waypipe.Util.{Total}
use waypipe.Kernel.Construct.{
  Bytes, Lines, eq_bytes, Scanned, unchanged, changed, scan, ctrl_blocks, write_back, record_run,
}
use waypipe.Kernel.Patch.{Patch, keep, replace, length-ctrl_blocks}
use waypipe.Kernel.Lines.{eq_bytes_sound, news, olds, IsLine, Grown, Grown-line}
use waypipe.Kernel.Front.{Scans, past_gap, leading, leading_lem, halves, Grown-first, regroup_line}

module _ (rb skip mir : ℕ) (C : Bytes) where
  -- The scan in an unchanged region, behind the bytes `A` of the mirror.
  abbrev pub FromUnchanged : Lines → Type 0
  FromUnchanged ps =
      (line_no room : ℕ) (A : Bytes)
      → 64 * length ps ≤ room
      → 4 * (16 * line_no + rb) ≡ mir + length A
      → 16 * (line_no + length ps) + rb < 2 ^ 32
      → All IsLine ps
      → Scans mir (A ++ (olds ps ++ C)) (A ++ (news ps ++ C)) (news ps) (64 * length ps + 8)
          (scan rb skip unchanged line_no room ps)

  -- The scan in a changed region, which began behind `A`.
  abbrev pub FromChanged : Lines → Type 0
  FromChanged ps =
      (start trailing line_no room : ℕ) (A run was : Bytes)
      → Grown run was trailing
      → length run + 64 * length ps ≤ room
      → rb ≤ start
      → 4 * start ≡ mir + length A
      → 4 * start + length run ≡ 4 * (16 * line_no + rb)
      → 16 * (line_no + length ps) + rb < 2 ^ 32
      → All IsLine ps
      → Scans mir (A ++ (was ++ (olds ps ++ C))) (A ++ (run ++ (news ps ++ C))) (news ps)
          (length run + 64 * length ps + 8)
          (scan rb skip (changed start trailing run) line_no room ps)

  unchanged_end : FromUnchanged []
  unfolding scan
  unchanged_end line_no room A fits place small whole = record {
    scanned = record { diff = []; reference = [] };
    runs = refl;
    patch = keep refl refl;
    copied = refl;
    short = omega arith;
  }

  -- The segment of a region that ends: the new bytes replace the old ones, what is alike stays.
  segment :
      {d m' : Bytes} (start trailing end : ℕ) (A run was back : Bytes)
      → Grown run was trailing
      → 4 * start ≡ mir + length A
      → 4 * start + length run ≡ 4 * (end + trailing)
      → end + trailing < 2 ^ 32
      → Patch mir d (A ++ (run ++ back)) m'
      → Patch mir
          (ctrl_blocks start end ++ (take (length run - 4 * trailing) run ++ d))
          (A ++ (was ++ back))
          m'
  segment {d} start trailing end A run was back g place stop small rest =
      replace start end A g.old g.new (g.same ++ back) d
        (ap (λ l. ctrl_blocks start end ++ (l ++ d))
          (ap (take (length run - 4 * trailing)) g.run_eq
            ∙ take-append g.new g.same (length run - 4 * trailing) (omega (arith, size, g.tail))))
        (ap (λ l. A ++ l) (ap (λ l. l ++ back) g.was_eq ∙ append_assoc g.old g.same back))
        (omega (arith, size, g.tail, g.some_new)) (omega arith)
        (omega (arith, size, g.tail, g.some_new)) (omega arith)
        (omega (arith, size, g.tail, g.some_new)) (sym g.long)
        (rw (← append_assoc g.new g.same back, ← g.run_eq) rest)
    where
      size : length run ≡ length g.new + length g.same
      size = ap length g.run_eq ∙ length-append g.new g.same

  -- What a region that ends has recorded.
  length-recorded :
      (start trailing end : ℕ) (run was d : Bytes)
      → Grown run was trailing
      → length (ctrl_blocks start end ++ (take (length run - 4 * trailing) run ++ d))
        ≡ 8 + (length run - 4 * trailing) + length d
  length-recorded start trailing end run was d g = omega (
    arith,
    length-append (ctrl_blocks start end) (take (length run - 4 * trailing) run ++ d),
    length-ctrl_blocks start end,
    length-append (take (length run - 4 * trailing) run) d,
    length-take (length run - 4 * trailing) run,
  )

  trailing-le :
      {run was : Bytes} {trailing : ℕ} → Grown run was trailing → 4 * trailing < length run
  trailing-le g = omega (arith, ap length g.run_eq, length-append g.new g.same, g.tail, g.some_new)

  changed_end : FromChanged []
  unfolding scan
  changed_end start trailing line_no room A run was g fits above place stop small whole =
      let end = 16 * line_no - trailing + rb in
      let kept = take (length run - 4 * trailing) run in
      let inside = trailing-le g in
      record {
        scanned = record { diff = ctrl_blocks start end ++ kept; reference = [] };
        runs = refl;
        patch = rw (← append-nil kept) (
            segment start trailing end A run was C g place (omega (arith, inside))
              (omega (arith, inside)) (keep refl refl));
        copied = refl;
        short =
            rw (← append-nil kept) (omega (arith, length-recorded start trailing end run was [] g));
      }

  -- The region ends behind the line `v`, and the scan goes on in an unchanged one.
  close :
      (v : Bytes) (ps : Lines)
      → FromUnchanged ps
      → (start trailing line_no room : ℕ) (A run was : Bytes) → Grown run was trailing
      → 16 < trailing
      → length run + 64 * length ps ≤ room
      → rb ≤ start
      → 4 * start ≡ mir + length A
      → 4 * start + length run ≡ 4 * (16 * (line_no + 1) + rb)
      → 16 * (line_no + suc (length ps)) + rb < 2 ^ 32
      → All IsLine ps
      → let end = 16 + 16 * line_no - trailing + rb in
        let cut = 4 * (end - start) in
        Scans mir
          (A ++ (was ++ (olds ps ++ C)))
          (A ++ (run ++ (news ps ++ C)))
          (v ++ news ps)
          (length run + 64 * length ps + 8)
          (do
            assert (leb cut room)
            assert (leb 8 (room - cut))
            record_run
                (ctrl_blocks start end ++ take (length run - 4 * trailing) run)
                (write_back v (scan rb skip unchanged (line_no + 1) (room - cut - 8) ps)))
  close v ps from_unchanged start trailing line_no room A run was g gap fits above place stop small
        whole =
      let end = 16 + 16 * line_no - trailing + rb in
      let cut = 4 * (end - start) in
      let inside = trailing-le g in
      let kept = take (length run - 4 * trailing) run in
      let rest =
        from_unchanged (line_no + 1) (room - cut - 8) (A ++ run) (omega (arith, inside))
          (omega (arith, length-append A run)) (omega arith) whole in
      let s = rest.scanned in
      record {
        scanned = record {
          diff = (ctrl_blocks start end ++ kept) ++ s.diff;
          reference = v ++ s.reference;
        };
        runs = rw (
          le→leb cut room (omega (arith, inside)),
          le→leb 8 (room - cut) (omega (arith, inside)),
          rest.runs,
        );
        patch = rw (append_assoc (ctrl_blocks start end) kept s.diff) (
            segment start trailing end A run was (olds ps ++ C) g place (omega (arith, inside))
              (omega (arith, inside))
              (rw (← append_assoc A run (olds ps ++ C), ← append_assoc A run (news ps ++ C))
                rest.patch));
        copied = ap (λ l. v ++ l) rest.copied;
        short = rw (append_assoc (ctrl_blocks start end) kept s.diff) (
            omega (arith, length-recorded start trailing end run was s.diff g, rest.short, inside));
      }

  loosen :
      {m m' new : Bytes} (bound bound' : ℕ) {result : Total Scanned}
      → Scans mir m m' new bound result
      → bound ≤ bound'
      → Scans mir m m' new bound' result
  loosen bound bound' s le = record {
    scanned = s.scanned;
    runs = s.runs;
    patch = s.patch;
    copied = s.copied;
    short = omega (arith, s.short);
  }

  -- A line that is written back.
  back_behind :
      (v : Bytes) {m m' new : Bytes} (bound : ℕ) {result : Total Scanned}
      → Scans mir m m' new bound result
      → Scans mir m m' (v ++ new) bound (write_back v result)
  back_behind v bound rest = record {
    scanned = record { diff = rest.scanned.diff; reference = v ++ rest.scanned.reference };
    runs = rw rest.runs;
    patch = rest.patch;
    copied = ap (λ l. v ++ l) rest.copied;
    short = rest.short;
  }

  -- A line more in a changed region.
  changed_line :
      (v r : Bytes) (ps : Lines)
      → 16 ≤ skip
      → FromUnchanged ps
      → FromChanged ps
      → FromChanged ((v, r) ∷ ps)
  unfolding scan
  changed_line v r ps gap from_unchanged from_changed start trailing line_no room A run was g fits
        above place stop small whole =
      let t = if eq_bytes v r then trailing + 16 else 0 in
      let (hv, hr) = whole.0 in
      let grown = Grown-line v r g hv hr in
      let longer = length-append run v in
      rw
        (
          le→leb (length run + 64) room (omega arith),
          append_assoc r (olds ps) C,
          append_assoc v (news ps) C,
          ← append_assoc was r (olds ps ++ C),
          ← append_assoc run v (news ps ++ C),
        )
        (elim (Bool-cases (ltb skip t)) [
          | inl done ↦ rw done (
              loosen (length (run ++ v) + 64 * length ps + 8)
                (length run + 64 * suc (length ps) + 8)
                (close v ps from_unchanged start t line_no room A (run ++ v) (was ++ r) grown
                  (past_gap skip t gap done) (omega (arith, longer)) above place
                  (omega (arith, longer)) small whole.1)
                (omega (arith, longer)))
          | inr more ↦ rw more (
              loosen (length (run ++ v) + 64 * length ps + 8)
                (length run + 64 * suc (length ps) + 8)
                (back_behind v (length (run ++ v) + 64 * length ps + 8) (
                  from_changed start t (line_no + 1) room A (run ++ v) (was ++ r) grown
                    (omega (arith, longer)) above place (omega (arith, longer)) (omega arith)
                    whole.1))
                (omega (arith, longer)))
        ])

  -- The first line of a changed region: `leading` words of it are alike.
  unchanged_line :
      (v r : Bytes) (ps : Lines) → FromUnchanged ps → FromChanged ps → FromUnchanged ((v, r) ∷ ps)
  unfolding scan
  unchanged_line v r ps from_unchanged from_changed line_no room A fits place small whole =
      let lead = leading v r in
      let (hv, hr) = whole.0 in
      let (lead_le, alike) = leading_lem v r in
      let P = take (4 * lead) v in
      let run = drop (4 * lead) v in
      let run_size = length-drop (4 * lead) v in
      elim (Bool-cases (eq_bytes v r)) [
        | inl clear ↦
            rw
              (
                clear,
                eq_bytes_sound v r clear,
                regroup_line A r [] (olds ps) C r (sym (append-nil r)),
                regroup_line A r [] (news ps) C r (sym (append-nil r)),
              )
              (back_behind r (64 * suc (length ps) + 8) (
                loosen (64 * length ps + 8) (64 * suc (length ps) + 8)
                  (from_unchanged (line_no + 1) room (A ++ r) (omega arith)
                    (omega (arith, length-append A r)) (omega arith) whole.1)
                  (omega arith)))
        | inr dirty ↦
            rw
              (
                dirty,
                le→leb (4 * (16 - lead)) room (omega arith),
                regroup_line A P (drop (4 * lead) r) (olds ps) C r (halves lead v r alike),
                regroup_line A P run (news ps) C v (sym (take-append-drop (4 * lead) v)),
              )
              (back_behind v (64 * suc (length ps) + 8) (
                loosen (length run + 64 * length ps + 8) (64 * suc (length ps) + 8)
                  (from_changed (16 * line_no + lead + rb) 0 (line_no + 1) room (A ++ P) run
                    (drop (4 * lead) r) (Grown-first lead v r hv hr lead_le)
                    (omega (arith, run_size)) (omega arith)
                    (omega (arith, length-append A P, length-take (4 * lead) v))
                    (omega (arith, run_size)) (omega arith) whole.1)
                  (omega (arith, run_size))))
      ]

  -- From any place of the scan, by induction on the lines.
  pub scan-Scans : (ps : Lines) → 16 ≤ skip → FromUnchanged ps × FromChanged ps
  scan-Scans [] gap = (unchanged_end, changed_end)
  scan-Scans ((v, r) ∷ ps) gap =
      let (from_unchanged, from_changed) = scan-Scans ps gap in
      (
        unchanged_line v r ps from_unchanged from_changed,
        changed_line v r ps gap from_unchanged from_changed,
      )
