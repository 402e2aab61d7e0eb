-- ===== src/Drivers/Stream.antt =====
-- A request body as the driver reads it: chunks, then the end or an exception.
use ai_storybook_storage_ser.Base.{[], ◌∷◌, ◌++◌, ◌≡◌, refl, ap}
use ai_storybook_storage_ser.Errors.{Exn}
use ai_storybook_storage_ser.Drivers.FileSystem.Tree.{Bytes}

pub data Stream : Type 0 where
  done : Stream
  chunk : Bytes → Stream → Stream
  fails : Exn → Stream

-- `_as_aiter` of src/drivers/local_fs.py on an iterator: empty chunks are left out.
unfoldable pub as_aiter : Stream → Stream
as_aiter done = done
as_aiter (chunk [] rest) = as_aiter rest
as_aiter (chunk (b ∷ bytes) rest) = chunk (b ∷ bytes) (as_aiter rest)
as_aiter (fails e) = fails e

-- All bytes of a body up to its end.
abbrev pub bytes_of : Stream → Bytes
bytes_of done = []
bytes_of (chunk bytes rest) = bytes ++ bytes_of rest
bytes_of (fails e) = []

-- The body comes to its end.
abbrev pub Completes : Stream → Type 0
Completes done = Unit
Completes (chunk _ rest) = Completes rest
Completes (fails e) = ⊥

pub bytes_of-as_aiter : (s : Stream) → bytes_of (as_aiter s) ≡ bytes_of s
unfolding as_aiter
bytes_of-as_aiter done = refl
bytes_of-as_aiter (chunk [] rest) = bytes_of-as_aiter rest
bytes_of-as_aiter (chunk (b ∷ bytes) rest) =
    ap (λ (t : Bytes). (b ∷ bytes) ++ t) (bytes_of-as_aiter rest)
bytes_of-as_aiter (fails e) = refl

pub Completes-as_aiter : (s : Stream) → Completes (as_aiter s) → Completes s
unfolding as_aiter
Completes-as_aiter done h = h
Completes-as_aiter (chunk [] rest) h = Completes-as_aiter rest h
Completes-as_aiter (chunk (b ∷ bytes) rest) h = Completes-as_aiter rest h
Completes-as_aiter (fails e) h = h
