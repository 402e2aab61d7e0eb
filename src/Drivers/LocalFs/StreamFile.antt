-- ===== src/Drivers/LocalFs/StreamFile.antt =====
-- `_stream_file` of src/drivers/local_fs.py: how the bytes of a file reach a client.
use ai_storybook_storage_ser.Base.{
  ℕ, zero, suc, Text, ◌≡◌, ◌≢◌, refl, sym, ap, subst, ◌∙◌, ◌⊎◌, inl, inr, ◌≤◌, ◌<◌, ◌*◌, Option,
  some, List, [], ◌∷◌, ◌++◌, append_assoc, length, length-append, take, drop, take-drop,
  length-take, arith,
}
use ai_storybook_storage_ser.Errors.{Exn, Errno, Result, ok, err, Result-cases}
use ai_storybook_storage_ser.Drivers.PosixPath.{resolve}
use ai_storybook_storage_ser.Drivers.FileSystem.{read_all}
use ai_storybook_storage_ser.Drivers.FileSystem.Tree.{Bytes, File, file_at}
use ai_storybook_storage_ser.Drivers.FileSystem.Monad.{World, next_fault, tail_of}
use ai_storybook_storage_ser.Drivers.FileSystem.Calls.{read_all-file}
use ai_storybook_storage_ser.Drivers.Stream.{Stream, done, chunk, fails, bytes_of, Completes}
use ai_storybook_storage_ser.Drivers.LocalFs.{Env}

abbrev pub chunk_size : ℕ
chunk_size = 1024 * 1024

-- `finally: fh.close()` behind the end of the loop.
unfoldable closed : Result (Unit {0}) → Stream → Stream
closed (ok _) end = end
closed (err e) end = fails e

-- The loop on an open file, on fuel: `answers` are those of the disk to the reads and to the close.
unfoldable read_chunks : ℕ → ℕ → List (Option Errno) → Bytes → Stream
unfolding closed
read_chunks zero size answers content = done
read_chunks (suc fuel) size answers content = elim (next_fault answers) [
  | err e ↦ closed (next_fault (tail_of answers)) (fails e)
  | ok _ ↦ elim (take size content) [
    | [] ↦ closed (next_fault (tail_of answers)) done
    | b ∷ bytes ↦ chunk (b ∷ bytes) (read_chunks fuel size (tail_of answers) (drop size content))
  ]
]

-- What is opened: the file as it is at this moment, also if another one is renamed over it later.
unfoldable streamed : Result Bytes → World → Stream
unfolding read_chunks
streamed (ok content) w = read_chunks (suc (length content)) chunk_size w.faults content
streamed (err e) w = fails e

unfoldable pub stream_file : Env → Text → World → Stream
unfolding streamed
stream_file env path w = let (opened, w') = read_all env.cwd path w in streamed opened w'

-- The client gets all of the content, or a beginning of it and then an error.
abbrev pub Delivers : Bytes → Stream → Type 0
Delivers content s =
    (Completes s × (bytes_of s ≡ content))
    ⊎ ((Completes s → ⊥) × ((rest : Bytes) × (content ≡ bytes_of s ++ rest)))

-- All chunks of a stream are non-empty and at most of a size.
abbrev pub HasChunks : ℕ → Stream → Type 0
HasChunks size done = Unit
HasChunks size (fails e) = Unit
HasChunks size (chunk bytes rest) = (bytes ≢ []) × (length bytes ≤ size) × HasChunks size rest

closed-Delivers :
    (r : Result (Unit {0})) (end : Stream) (content : Bytes)
    → Delivers content end
    → Delivers content (closed r end)
unfolding closed
closed-Delivers (ok _) end content h = h
closed-Delivers (err e) end content h = inr (λ c. c, (content, refl))

chunk-Delivers :
    (bytes content : Bytes) (s : Stream)
    → Delivers content s
    → Delivers (bytes ++ content) (chunk bytes s)
chunk-Delivers bytes content s (inl (c, e)) = inl (c, ap (λ (t : Bytes). bytes ++ t) e)
chunk-Delivers bytes content s (inr (c, (rest, e))) =
    inr (c, (rest, ap (λ (t : Bytes). bytes ++ t) e ∙ sym (append_assoc bytes (bytes_of s) rest)))

-- The end of the file is where nothing is read any more.
take-eq-nil : (size : ℕ) (content : Bytes) → 0 < size → take size content ≡ [] → content ≡ []
unfolding take
take-eq-nil size [] h e = refl
take-eq-nil zero (c ∷ content) h e = absurd (omega arith)
take-eq-nil (suc size) (c ∷ content) h e = cc

List-cases : (xs : Bytes) → (xs ≡ []) ⊎ ((b : ℕ) × (bytes : Bytes) × (xs ≡ b ∷ bytes))
List-cases [] = inl refl
List-cases (b ∷ bytes) = inr (b, bytes, refl)

answer_cases :
    (answers : List (Option Errno))
    → (next_fault answers ≡ ok tt) ⊎ ((e : Exn) × (next_fault answers ≡ err e))
answer_cases answers = elim (Result-cases (next_fault answers)) [
  | inl (u, e) ↦ inl e
  | inr (x, e) ↦ inr (x, e)
]

closed-HasChunks :
    (size : ℕ) (r : Result (Unit {0})) (end : Stream)
    → HasChunks size end
    → HasChunks size (closed r end)
unfolding closed
closed-HasChunks size (ok _) end h = h
closed-HasChunks size (err e) end h = tt

drop_shorter :
    (size : ℕ) (content : Bytes) (b : ℕ) (bytes : Bytes)
    → take size content ≡ b ∷ bytes
    → length (drop size content) < length content
drop_shorter size content b bytes e = omega (
  arith,
  ap (length {A = ℕ}) (take-drop size content),
  ap (length {A = ℕ}) e,
  length-append {0} (take size content) (drop size content),
)

read_chunks-Delivers :
    (fuel size : ℕ) (answers : List (Option Errno)) (content : Bytes)
    → length content < fuel
    → 0 < size
    → Delivers content (read_chunks fuel size answers content)
      × HasChunks size (read_chunks fuel size answers content)
unfolding read_chunks
read_chunks-Delivers zero size answers content h positive = absurd (omega arith)
read_chunks-Delivers (suc fuel) size answers content h positive = elim (answer_cases answers) [
  | inr (e, failed) ↦
      rw (failed, read_chunks)
        (
          closed-Delivers (next_fault (tail_of answers)) (fails e) content
              (inr (λ c. c, (content, refl))),
          closed-HasChunks size (next_fault (tail_of answers)) (fails e) tt,
        )
  | inl works ↦ elim (List-cases (take size content)) [
    | inl empty ↦
        rw (works, read_chunks)
          (rw (empty, read_chunks)
            (
              closed-Delivers (next_fault (tail_of answers)) done content
                  (inl (tt, sym (take-eq-nil size content positive empty))),
              closed-HasChunks size (next_fault (tail_of answers)) done tt,
            ))
    | inr (b, bytes, some_read) ↦
        let rest = drop size content in
        let shorter = drop_shorter size content b bytes some_read in
        let (delivers, chunks) =
          read_chunks-Delivers fuel size (tail_of answers) rest (omega arith) positive in
        let whole : (b ∷ bytes) ++ rest ≡ content =
          ap (λ (t : Bytes). t ++ rest) (sym some_read) ∙ take-drop size content in
        let short : length (b ∷ bytes) ≤ size =
          omega (arith, ap (length {A = ℕ}) some_read, length-take size content) in
        rw (works, read_chunks)
          (rw (some_read, read_chunks)
            (
              subst
                  (λ (t : Bytes).
                    Delivers t (chunk (b ∷ bytes) (read_chunks fuel size (tail_of answers) rest)))
                  whole
                  (chunk-Delivers (b ∷ bytes) rest (read_chunks fuel size (tail_of answers) rest)
                    delivers),
              ((λ e. cc), short, chunks),
            ))
  ]
]

read_chunks-Completes :
    (fuel size : ℕ) (content : Bytes)
    → length content < fuel
    → 0 < size
    → Completes (read_chunks fuel size [] content)
unfolding read_chunks closed next_fault
read_chunks-Completes zero size content h positive = absurd (omega arith)
read_chunks-Completes (suc fuel) size content h positive = elim (List-cases (take size content)) [
  | inl empty ↦ rw (empty, read_chunks) tt
  | inr (b, bytes, some_read) ↦
      let shorter = drop_shorter size content b bytes some_read in
      rw (some_read, read_chunks)
        (read_chunks-Completes fuel size (drop size content) (omega arith) positive)
]

-- From a file that is there a client gets its whole content, or a beginning of it and then an error, in
-- non-empty chunks of at most 1 MiB; with no failure of the disk it gets the whole content.
pub stream_file-Delivers :
    (env : Env) (path : Text) (w : World) (f : File)
    → file_at (resolve env.cwd path) w.fs ≡ some f
    → Delivers f.content (stream_file env path w)
      × HasChunks chunk_size (stream_file env path w)
      × ((w.faults ≢ []) ⊎ Completes (stream_file env path w))
unfolding stream_file streamed next_fault
stream_file-Delivers env path w f there = elim (read_all-file env.cwd path w f there) [
  | inl (e, failed, raised) ↦
      rw raised
        (inr (λ c. c, (f.content, refl)), tt, inl (λ none_left. absurd (fault e failed none_left)))
  | inr (works, opened) ↦
      let (delivers, chunks) =
        read_chunks-Delivers (suc (length f.content)) chunk_size (tail_of w.faults) f.content
          (omega arith) (omega arith) in
      rw opened (delivers, chunks, healthy w.faults f.content)
]
  where
    fault : (e : Exn) → next_fault w.faults ≡ err e → w.faults ≢ []
    fault e h no_faults = let k = ap next_fault no_faults in ground (arith, h, k)

    healthy :
        (answers : List (Option Errno)) (content : Bytes)
        → (answers ≢ [])
          ⊎ Completes (read_chunks (suc (length content)) chunk_size (tail_of answers) content)
    healthy [] content = inr (
        read_chunks-Completes (suc (length content)) chunk_size content (omega arith) (omega arith))
    healthy (a ∷ answers) content = inl (λ e. cc)
