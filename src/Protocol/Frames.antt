-- ===== src/Protocol/Frames.antt =====
-- The frames of protocol.py: four bytes of length, most significant first, then the payload.
use mod_playerbot_llm.Prelude.{
  ℕ, zero, suc, ◌+◌, ◌*◌, ◌/◌, ◌%◌, ◌≤◌, ◌≡◌, refl, false, Option, none, some, List, [], ◌∷◌, ◌++◌,
  length, Result, ok, err, arith, ltb, if◌then◌else◌, ◌<◌, Bool-cases, Option-cases, inl, inr,
}
use mod_playerbot_llm.Protocol.{max_frame_payload_bytes}

-- The reasons of a `FrameError`.
pub data FrameError : Type 0 where
  oversized truncated_header truncated_payload : FrameError

abbrev pub Bytes : Type 0
Bytes = List ℕ

-- `struct.Struct("!I").pack`
abbrev pub pack : ℕ → Bytes
pack n = n / 16777216 % 256 ∷ n / 65536 % 256 ∷ n / 256 % 256 ∷ n % 256 ∷ []

unfoldable pub encode_frame : Bytes → Result FrameError Bytes
encode_frame payload =
    if ltb max_frame_payload_bytes (length payload)
    then err oversized
    else ok (pack (length payload) ++ payload)

abbrev pub cons_first : ℕ → Option (Bytes × Bytes) → Option (Bytes × Bytes)
cons_first b none = none
cons_first b (some (bytes, rest)) = some (b ∷ bytes, rest)

-- `reader.readexactly(n)` on what the stream still holds.
unfoldable pub readexactly : ℕ → Bytes → Option (Bytes × Bytes)
readexactly zero stream = some ([], stream)
readexactly (suc n) [] = none
readexactly (suc n) (b ∷ stream) = cons_first b (readexactly n stream)

abbrev payload_of : Option (Bytes × Bytes) → Result FrameError (Bytes × Bytes)
payload_of none = err truncated_payload
payload_of (some read) = ok read

abbrev read_payload : ℕ → Bytes → Result FrameError (Bytes × Bytes)
read_payload n stream =
    if ltb max_frame_payload_bytes n then err oversized else payload_of (readexactly n stream)

-- The payload of the next frame and what the stream holds after it.
unfoldable pub read_frame : Bytes → Result FrameError (Bytes × Bytes)
read_frame (a ∷ b ∷ c ∷ d ∷ stream) = read_payload (a * 16777216 + b * 65536 + c * 256 + d) stream
read_frame _ = err truncated_header

readexactly-append :
    (payload rest : Bytes) → readexactly (length payload) (payload ++ rest) ≡ some (payload, rest)
unfolding readexactly
readexactly-append [] rest = refl
readexactly-append (b ∷ bs) rest = rw (readexactly-append bs rest) refl

readexactly_shorter :
    (n : ℕ) (stream payload rest : Bytes)
    → readexactly n stream ≡ some (payload, rest)
    → length rest ≤ length stream
unfolding readexactly
readexactly_shorter zero stream payload rest h =
    let same : stream ≡ rest = cc in rw same (omega arith)
readexactly_shorter (suc n) [] payload rest h = cc
readexactly_shorter (suc n) (b ∷ stream) payload rest h =
    elim (Option-cases (readexactly n stream)) [
      | inl short ↦ let h' = rw short at h in cc
      | inr ((read, left), enough) ↦
          let h' = rw enough at h in
          let same : left ≡ rest = cc in
          let shorter = readexactly_shorter n stream read left enough in rw (← same) (omega arith)
    ]

-- A frame that is read leaves less of the stream.
pub read_frame-shorter :
    (stream payload rest : Bytes)
    → read_frame stream ≡ ok (payload, rest)
    → length rest < length stream
unfolding read_frame
read_frame-shorter [] payload rest h = cc
read_frame-shorter (a ∷ []) payload rest h = cc
read_frame-shorter (a ∷ b ∷ []) payload rest h = cc
read_frame-shorter (a ∷ b ∷ c ∷ []) payload rest h = cc
read_frame-shorter (a ∷ b ∷ c ∷ d ∷ stream) payload rest h =
    let n = a * 16777216 + b * 65536 + c * 256 + d in
    elim (Bool-cases (ltb max_frame_payload_bytes n)) [
      | inl big ↦ let h' = rw big at h in cc
      | inr fits ↦ elim (Option-cases (readexactly n stream)) [
        | inl short ↦ let h' = rw (fits, short) at h in cc
        | inr ((read, left), enough) ↦
            let h' = rw (fits, enough) at h in
            let same : left ≡ rest = cc in
            let shorter = readexactly_shorter n stream read left enough in rw (← same) (omega arith)
      ]
    ]

unpack-pack :
    (n : ℕ)
    → n ≤ max_frame_payload_bytes
    → n / 16777216 % 256 * 16777216 + n / 65536 % 256 * 65536 + n / 256 % 256 * 256 + n % 256 ≡ n
unpack-pack n h = omega arith

-- A payload within the limit is framed, and read back from the stream whole, whatever follows it.
pub read_frame-encode_frame :
    (payload rest : Bytes)
    → length payload ≤ max_frame_payload_bytes
    → (encode_frame payload ≡ ok (pack (length payload) ++ payload))
      × (read_frame (pack (length payload) ++ payload ++ rest) ≡ ok (payload, rest))
unfolding encode_frame read_frame
read_frame-encode_frame payload rest h =
    let fits : ltb max_frame_payload_bytes (length payload) ≡ false = ground arith in
    rw fits (
      refl,
      rw (unpack-pack (length payload) h) (rw fits (rw (readexactly-append payload rest) refl)),
    )
