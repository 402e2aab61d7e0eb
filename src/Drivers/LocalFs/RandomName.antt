-- ===== src/Drivers/LocalFs/RandomName.antt =====
-- Drawing a random name: an action that goes on with `uuid4().hex` is known by what it does with each name.
use ai_storybook_storage_ser.Base.{ℕ, Text}
use ai_storybook_storage_ser.Errors.{Exn}
use ai_storybook_storage_ser.Drivers.FileSystem.Tree.{Fs}
use ai_storybook_storage_ser.Drivers.FileSystem.Monad.{World, Io, ◌>>=◌}
use ai_storybook_storage_ser.Drivers.FileSystem.Triple.{Triple}
use ai_storybook_storage_ser.Drivers.FileSystem.Calls.{On}
use ai_storybook_storage_ser.Drivers.LocalFs.{Env, uuid4_hex}

pub Triple-uuid4_hex :
    {A : Type 0} (env : Env) (P : Fs → Type 0) (f : Text → Io A) {Q : A → World → Type 0}
    {E : Exn → World → Type 0}
    → ((n : ℕ) → Triple (On P) (f (env.hex n)) Q E)
    → Triple (On P) (uuid4_hex env >>= f) Q E
unfolding uuid4_hex ◌>>=◌
Triple-uuid4_hex env P f t = record { at = λ w h. (t w.drawn).at _ h }
