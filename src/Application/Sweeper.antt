-- ===== src/Application/Sweeper.antt =====
-- `_tmp_sweeper` of src/main.py.
use ai_storybook_storage_ser.Base.{ℕ, Text, ◌≡◌, ◌≢◌, inl, some, List, [], ◌∷◌}
use ai_storybook_storage_ser.Settings.{Settings}
use ai_storybook_storage_ser.Errors.{Result, ok, err}
use ai_storybook_storage_ser.Drivers.PosixPath.{FilePath, resolve}
use ai_storybook_storage_ser.Drivers.Paths.Places.{tmp_place}
use ai_storybook_storage_ser.Drivers.FileSystem.Tree.{File, file_at}
use ai_storybook_storage_ser.Drivers.FileSystem.Monad.{World}
use ai_storybook_storage_ser.Drivers.FileSystem.Triple.{After}
use ai_storybook_storage_ser.Drivers.Layout.{cleanup_stale_tmp}
use ai_storybook_storage_ser.Drivers.Layout.Sweep.{cleanup_stale_tmp-spares}
use ai_storybook_storage_ser.Application.{survived, sweeper_round, tmp_sweeper}

survived-There :
    (q : FilePath) (f : File) (r : Result ℕ) (w : World)
    → After (λ _ v. file_at q v.fs ≡ some f) (λ _ v. file_at q v.fs ≡ some f) r w
    → file_at q (survived r w).fs ≡ some f
survived-There q f (ok n) w h = h
survived-There q f (err e) w h = h

-- However many rounds the sweeper makes, at whatever times and whichever of them raise, each file outside
-- `.tmp` is as it was, with any failures of the disk.
pub tmp_sweeper-spares :
    (cwd : Text) (settings : Settings) (times : List ℕ) (w : World) (q : FilePath) (f : File)
    → ((name : Text) → tmp_place (resolve cwd settings.storage_root) name ≢ q)
    → file_at q w.fs ≡ some f
    → file_at q (tmp_sweeper cwd settings times w).fs ≡ some f
unfolding tmp_sweeper sweeper_round
tmp_sweeper-spares cwd settings [] w q f outside there = there
tmp_sweeper-spares cwd settings (time ∷ times) w q f outside there =
    let v = record w { now = time } in
    let (r, w') = cleanup_stale_tmp cwd settings.storage_root 3600 v in
    tmp_sweeper-spares cwd settings times (survived r w') q f outside (
      survived-There q f r w'
        (cleanup_stale_tmp-spares cwd settings.storage_root 3600 q f v there (inl outside)))
