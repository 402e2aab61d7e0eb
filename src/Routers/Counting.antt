-- ===== src/Routers/Counting.antt =====
-- `counting_stream` of src/routers/storage/common.py: the hard size gate.
use ai_storybook_storage_ser.Base.{
  ℕ, Bool, true, false, ◌≡◌, refl, ap, ◌+◌, ◌≤◌, ◌↔◌, ◌++◌, length, length-append, ltb,
  if◌then◌else◌, Bool-cases, inl, inr, arith,
}
use ai_storybook_storage_ser.Errors.{payload_too_large}
use ai_storybook_storage_ser.Drivers.FileSystem.Tree.{Bytes}
use ai_storybook_storage_ser.Drivers.Stream.{Stream, done, chunk, fails, bytes_of, Completes}

-- The loop, from a running total.
unfoldable counted : ℕ → ℕ → Stream → Stream
counted limit total done = done
counted limit total (fails e) = fails e
counted limit total (chunk bytes rest) =
    let rest' = counted limit (total + length bytes) rest in
    if ltb limit (total + length bytes) then fails payload_too_large else chunk bytes rest'

unfoldable pub counting_stream : Stream → ℕ → Stream
unfolding counted
counting_stream source limit = counted limit 0 source

passed :
    (over : Bool) (bytes : Bytes) (rest : Stream)
    → Completes (if over then fails payload_too_large else chunk bytes rest)
    → (over ≡ false) × Completes rest
passed true bytes rest h = absurd h
passed false bytes rest h = (refl, h)

counted-bytes_of :
    (limit total : ℕ) (source : Stream)
    → Completes (counted limit total source)
    → Completes source × (bytes_of (counted limit total source) ≡ bytes_of source)
unfolding counted
counted-bytes_of limit total done h = (tt, refl)
counted-bytes_of limit total (chunk bytes rest) h =
    let (fits, completes) = passed (ltb limit (total + length bytes)) bytes _ h in
    let (c, e) = counted-bytes_of limit (total + length bytes) rest completes in
    (c, rw fits (ap (λ (t : Bytes). bytes ++ t) e))
counted-bytes_of limit total (fails e) h = absurd h

counted-short :
    (limit total : ℕ) (source : Stream)
    → total ≤ limit
    → total + length (bytes_of (counted limit total source)) ≤ limit
unfolding counted
counted-short limit total done h = omega arith
counted-short limit total (chunk bytes rest) h =
    elim (Bool-cases (ltb limit (total + length bytes))) [
      | inl over ↦ rw over (omega arith)
      | inr fits ↦
          let ih = counted-short limit (total + length bytes) rest (ground arith) in
          rw fits (
            omega (
              arith,
              ih,
              length-append {0} bytes (bytes_of (counted limit (total + length bytes) rest)),
            ))
    ]
counted-short limit total (fails e) h = omega arith

counted-Completes :
    (limit total : ℕ) (source : Stream)
    → Completes source
    → total + length (bytes_of source) ≤ limit
    → Completes (counted limit total source)
unfolding counted
counted-Completes limit total done c h = tt
counted-Completes limit total (chunk bytes rest) c h =
    let long = length-append {0} bytes (bytes_of rest) in
    let fits : ltb limit (total + length bytes) ≡ false = ground arith in
    rw fits (counted-Completes limit (total + length bytes) rest c (omega (arith, long)))
counted-Completes limit total (fails e) c h = c

-- What passes the counter is never longer than the cap, whatever the source yields.
pub counting_stream-short :
    (source : Stream) (limit : ℕ) → length (bytes_of (counting_stream source limit)) ≤ limit
unfolding counting_stream
counting_stream-short source limit = omega (arith, counted-short limit 0 source (omega arith))

-- The counted stream comes to its end exactly if the source ends and is no longer than the cap.
pub counting_stream-Completes :
    (source : Stream) (limit : ℕ)
    → Completes (counting_stream source limit)
      ↔ (Completes source × (length (bytes_of source) ≤ limit))
unfolding counting_stream
counting_stream-Completes source limit = (
  λ h. (
    (counted-bytes_of limit 0 source h).0,
    omega (
      arith,
      counted-short limit 0 source (omega arith),
      ap length (counted-bytes_of limit 0 source h).1,
    ),
  ),
  λ (c, h). counted-Completes limit 0 source c (omega arith),
)

-- A counted stream that comes to its end has passed on all bytes of the source.
pub counting_stream-bytes_of :
    (source : Stream) (limit : ℕ)
    → Completes (counting_stream source limit)
    → bytes_of (counting_stream source limit) ≡ bytes_of source
unfolding counting_stream
counting_stream-bytes_of source limit h = (counted-bytes_of limit 0 source h).1
