-- ===== src/Drivers/Layout/Directories.antt =====
-- `ensure_layout` of src/drivers/paths.py.
use ai_storybook_storage_ser.Base.{Text, ◌≡◌, some, List, [], ◌∷◌, All}
use ai_storybook_storage_ser.Drivers.PosixPath.{path_join, resolve}
use ai_storybook_storage_ser.Drivers.Paths.{tmp_dir, meta_dir}
use ai_storybook_storage_ser.Drivers.FileSystem.Tree.{dir, Fs, node_at}
use ai_storybook_storage_ser.Drivers.FileSystem.Monad.{World}
use ai_storybook_storage_ser.Drivers.FileSystem.Triple.{
  Ends, Triple, Triple-pure, Triple-bind, Triple-weaken,
}
use ai_storybook_storage_ser.Drivers.FileSystem.Calls.{On}
use ai_storybook_storage_ser.Drivers.FileSystem.MakeDirs.{Extends, Triple-makedirs}
use ai_storybook_storage_ser.Drivers.Layout.{make_buckets, ensure_layout}

abbrev pub IsDirectory : Text → Fs → Text → Type 0
IsDirectory cwd fs path = node_at (resolve cwd path) fs ≡ some dir

module _ (cwd root : Text) where
  -- Both directories of a bucket are there.
  abbrev pub HasBucket : Fs → Text → Type 0
  HasBucket fs bucket =
      IsDirectory cwd fs (path_join root bucket)
      × IsDirectory cwd fs (path_join (path_join root meta_dir) bucket)

  make_buckets-All :
      (P : Fs → Type 0) (buckets : List Text)
      → ((fs fs' : Fs) → Extends fs fs' → P fs → P fs')
      → Triple
          (On P)
          (make_buckets cwd root buckets)
          (λ _. On (λ fs. P fs × All (HasBucket fs) buckets))
          (λ _. On P)
  unfolding make_buckets
  make_buckets-All P [] grows = Triple-pure _ tt (λ w h. (h, tt))
  make_buckets-All P (b ∷ buckets) grows =
      let object_dir = path_join root b in
      let side_dir = path_join (path_join root meta_dir) b in
      let P1 = λ (fs : Fs). P fs × IsDirectory cwd fs object_dir in
      let P2 = λ (fs : Fs). P1 fs × IsDirectory cwd fs side_dir in
      let grows1 : (fs fs' : Fs) → Extends fs fs' → P1 fs → P1 fs' =
        λ fs fs' e (h, d). (grows fs fs' e h, e (resolve cwd object_dir) dir d) in
      let grows2 : (fs fs' : Fs) → Extends fs fs' → P2 fs → P2 fs' =
        λ fs fs' e (h, d). (grows1 fs fs' e h, e (resolve cwd side_dir) dir d) in
      Triple-bind (λ _. On P1) (Triple-makedirs cwd object_dir P grows)
        λ _.
          Triple-bind (λ _. On P2)
            (Triple-weaken (λ w h. h) (λ _ w h. h) (λ e w h. h.0)
              (Triple-makedirs cwd side_dir P1 grows1))
            λ _.
              Triple-weaken (λ w h. h) (λ _ w h. (h.0.0.0, ((h.0.0.1, h.0.1), h.1)))
                (λ e w h. h.0.0) (make_buckets-All P2 buckets grows2)

  -- The tree has the layout of the store.
  abbrev pub IsLaidOut : List Text → Fs → Type 0
  IsLaidOut buckets fs =
      IsDirectory cwd fs (path_join root tmp_dir)
      × IsDirectory cwd fs (path_join root meta_dir)
      × All (HasBucket fs) buckets

-- If `ensure_layout` returns, `.tmp`, `.meta` and both directories of each bucket are directories; and
-- whether it returns or raises, whatever was there before is there and as it was.
pub ensure_layout-IsLaidOut :
    (cwd root : Text) (buckets : List Text) (w : World)
    → Ends
        (ensure_layout cwd root buckets)
        w
        (λ _ w'. Extends w.fs w'.fs × IsLaidOut cwd root buckets w'.fs)
        (λ _ w'. Extends w.fs w'.fs)
unfolding ensure_layout
ensure_layout-IsLaidOut cwd root buckets w =
    (Triple-bind (λ _. On P1) (Triple-makedirs cwd (path_join root tmp_dir) P grows)
        λ _.
          Triple-bind (λ _. On P2)
            (Triple-weaken (λ w h. h) (λ _ w h. h) (λ e w h. h.0)
              (Triple-makedirs cwd (path_join root meta_dir) P1 grows1))
            λ _.
              Triple-weaken (λ w h. h) (λ _ w h. (h.0.0.0, (h.0.0.1, h.0.1, h.1))) (λ e w h. h.0.0)
                (make_buckets-All cwd root P2 buckets grows2)).at
      w (λ q n there. there)
  where
    P : Fs → Type 0
    P fs = Extends w.fs fs

    P1 : Fs → Type 0
    P1 fs = P fs × IsDirectory cwd fs (path_join root tmp_dir)

    P2 : Fs → Type 0
    P2 fs = P1 fs × IsDirectory cwd fs (path_join root meta_dir)

    grows : (fs fs' : Fs) → Extends fs fs' → P fs → P fs'
    grows fs fs' e h = λ q n there. e q n (h q n there)

    grows1 : (fs fs' : Fs) → Extends fs fs' → P1 fs → P1 fs'
    grows1 fs fs' e (h, d) = (grows fs fs' e h, e (resolve cwd (path_join root tmp_dir)) dir d)

    grows2 : (fs fs' : Fs) → Extends fs fs' → P2 fs → P2 fs'
    grows2 fs fs' e (h, d) = (grows1 fs fs' e h, e (resolve cwd (path_join root meta_dir)) dir d)
