-- ===== src/Mirror/Extend.antt =====
-- `new` and `extend` of src/mirror.rs. The system calls are assumed to do what is documented: a new
-- mapping is zero, and a mapping that grows keeps its bytes and is zero behind them.
use waypipe.Base.{
  ℕ, zero, suc, ◌+◌, ◌-◌, ◌≤◌, ◌<◌, ◌≡◌, refl, sym, ap, ◌∙◌, Bool, [], ◌∷◌, ◌++◌, arith, length,
  length-replicate, replicate, ok, Option, some, copy_at, copy_at_mid, unwrap, append-nil,
}
use waypipe.Kernel.Construct.{Bytes}
use waypipe.Mirror.{
  Mirror, MirrorBacking, mmapped, allocated, contents, isize_max, new, extend, grow, MirrorError,
  do_mmap, do_mremap,
}

abbrev pub MmapZeroed : (ℕ → Option Bytes) → Type 0
MmapZeroed mmap = (n : ℕ) (d : Bytes) → mmap n ≡ some d → d ≡ replicate n 0

abbrev pub MremapKeeps : (Bytes → ℕ → Option Bytes) → Type 0
MremapKeeps mremap =
    (s d : Bytes) (n : ℕ) → length s < n → mremap s n ≡ some d → d ≡ s ++ replicate (n - length s) 0

replicate-append : (m k n a : ℕ) → n ≡ m + k → replicate n a ≡ replicate m a ++ replicate k a
replicate-append zero k n a h = ap (λ i. replicate i a) (omega arith)
replicate-append (suc m) k (suc n) a h = ap (λ l. a ∷ l) (replicate-append m k n a (omega arith))
replicate-append (suc m) k zero a h = absurd (omega arith)

no_growth : (s : Bytes) (old n : ℕ) → n ≡ old → s ≡ s ++ replicate (n - old) 0
no_growth s old n h =
    let e : n - old ≡ 0 = omega arith in sym (ap (λ k. s ++ replicate k 0) e ∙ append-nil s)

copy_at_zeroes :
    (s : Bytes) (n : ℕ)
    → length s ≤ n
    → copy_at (replicate n 0) 0 s ≡ some (s ++ replicate (n - length s) 0)
copy_at_zeroes s n h = rw (replicate-append (length s) (n - length s) n 0 (omega arith)) (
    copy_at_mid [] (replicate (length s) 0) (replicate (n - length s) 0) 0 s refl
      (sym (length-replicate {A = ℕ} (length s) 0)))

module _ (linux : Bool) (mmap : ℕ → Option Bytes) (mremap : Bytes → ℕ → Option Bytes)
    (zeroed : MmapZeroed mmap) (keeps : MremapKeeps mremap) where
  do_mmap_lem : (n : ℕ) (d : Bytes) → do_mmap linux mmap mremap n ≡ ok d → d ≡ replicate n 0
  unfolding do_mmap
  do_mmap_lem n d h = ground (arith, zeroed n d)

  copied_lem :
      (s fresh d : Bytes) (n : ℕ)
      → length s < n
      → do_mmap linux mmap mremap n ≡ ok fresh
      → unwrap {E = MirrorError} (copy_at fresh 0 s) ≡ ok d
      → d ≡ s ++ replicate (n - length s) 0
  copied_lem s fresh d n lt m h =
      let e : copy_at fresh 0 s ≡ some (s ++ replicate (n - length s) 0) =
        rw (do_mmap_lem n fresh m) (copy_at_zeroes s n (omega arith)) in
      ground arith

  do_mremap_lem :
      (s d : Bytes) (n : ℕ)
      → length s < n
      → do_mremap linux mmap mremap s n ≡ ok d
      → d ≡ s ++ replicate (n - length s) 0
  unfolding do_mremap
  do_mremap_lem s d n lt h = grind (arith, keeps s d n lt, copied_lem)

  grow_lem :
      (b b' : MirrorBacking) (n : ℕ)
      → length (contents b) < n
      → grow linux mmap mremap b (length (contents b)) n ≡ ok b'
      → contents b' ≡ contents b ++ replicate (n - length (contents b)) 0
  unfolding grow
  grow_lem (mmapped []) b' n lt h = ground (arith, do_mmap_lem n (contents b'))
  grow_lem (mmapped (x ∷ p)) b' n lt h = ground (arith, do_mremap_lem (x ∷ p) (contents b') n lt)
  grow_lem (allocated v) b' n lt h = ground (arith, copy_at_zeroes v n (omega arith))

  -- A mirror that `new` returns is all zero, and nothing of it is handed out.
  pub new_lem :
      (size : ℕ) (b : Bool) (m : Mirror)
      → new linux mmap mremap size b ≡ ok m
      → (contents (m.data_) ≡ replicate size 0)
        × (m.region_size ≡ size)
        × (size ≤ isize_max)
        × (m.ranges ≡ [])
  unfolding new
  new_lem zero b m h = ground arith
  new_lem (suc n) b m h = ground (arith, do_mmap_lem (suc n) (contents (m.data_)))

  grown_backing :
      (b b' : MirrorBacking) (old n : ℕ)
      → length (contents b) ≡ old
      → old < n
      → grow linux mmap mremap b old n ≡ ok b'
      → contents b' ≡ contents b ++ replicate (n - old) 0
  grown_backing b b' old n e lt h = rw (← e) (grow_lem b b' n (omega arith) (rw e h))

  pub grown_lem :
      (m m' : Mirror) (n : ℕ)
      → length (contents (m.data_)) ≡ m.region_size
      → extend linux mmap mremap m n ≡ ok m'
      → (contents (m'.data_) ≡ contents (m.data_) ++ replicate (n - m.region_size) 0)
        × (m'.region_size ≡ n)
        × (m.region_size ≤ n)
        × (n ≤ isize_max)
        × (m.ranges ≡ [])
        × (m'.ranges ≡ [])
  unfolding extend
  grown_lem m m' n e h = ground (
    arith,
    grown_backing (m.data_) (m'.data_) (m.region_size) n e,
    no_growth (contents (m.data_)) (m.region_size) n,
  )
