-- ===== src/Service/Bridge/Conversation.antt =====
-- What `handle_connection` of app.py makes of a stream of framed requests.
use mod_playerbot_llm.Prelude.{
  ℕ, zero, suc, ◌≡◌, ◌≢◌, ◌≤◌, ◌<◌, refl, none, some, List, [], ◌∷◌, ◌++◌, length, length-append,
  Result, ok, err, Result-cases, arith, inl, inr,
}
use mod_playerbot_llm.Protocol.{max_frame_payload_bytes}
use mod_playerbot_llm.Protocol.Encode.{Payload}
use mod_playerbot_llm.Protocol.Frames.{
  Bytes, FrameError, truncated_header, pack, encode_frame, read_frame, read_frame-encode_frame,
  read_frame-shorter,
}
use mod_playerbot_llm.Service.Calls.{
  Sidecar, Fault, protocol_error, ledger_fault, store_fault, no_output_limit, bad_career_reply,
}
use mod_playerbot_llm.Service.Pipelines.{Response}
use mod_playerbot_llm.Service.Bridge.{
  Bridge, Closed, end_of_stream, out_of_turns, process_frame, write_frame, write_response,
  serve_frames, purge_pending, handle_connection,
}

written :
    (bridge : Bridge) (next : Bytes → Sidecar → Closed) (rest : Bytes) (r : Result FrameError Bytes)
    (s : Sidecar)
    → ((s' : Sidecar) → (next rest s').ending ≢ out_of_turns)
    → (write_frame bridge next rest r s).ending ≢ out_of_turns
written bridge next rest (ok frame) s ends = ends s
written bridge next rest (err e) s ends = λ same. cc

responded :
    (bridge : Bridge) (next : Bytes → Sidecar → Closed) (rest : Bytes)
    (r : Result Fault Response × Sidecar)
    → ((s' : Sidecar) → (next rest s').ending ≢ out_of_turns)
    → (write_response bridge next rest r).ending ≢ out_of_turns
responded bridge next rest (ok none, s) ends = λ same. cc
responded bridge next rest (ok (some response), s) ends =
    written bridge next rest (encode_frame (bridge.dump response)) s ends
responded bridge next rest (err (protocol_error e), s) ends = λ same. cc
responded bridge next rest (err (ledger_fault e), s) ends = λ same. cc
responded bridge next rest (err (store_fault e), s) ends = λ same. cc
responded bridge next rest (err no_output_limit, s) ends = λ same. cc
responded bridge next rest (err bad_career_reply, s) ends = λ same. cc

-- More turns than the stream has bytes are enough.
serve_frames-ends :
    (bridge : Bridge) (turns n : ℕ) (stream : Bytes) (s : Sidecar)
    → length stream < turns
    → (serve_frames bridge turns n stream s).ending ≢ out_of_turns
unfolding serve_frames
serve_frames-ends bridge zero n stream s h = absurd (ground arith)
serve_frames-ends bridge (suc turns) n stream s h = elim (Result-cases (read_frame stream)) [
  | inr (e, shape) ↦ rw shape (λ same. cc)
  | inl ((payload, rest), shape) ↦
      let shorter = read_frame-shorter stream payload rest shape in
      rw shape (
        responded bridge (serve_frames bridge turns (suc n)) rest (process_frame bridge n payload s)
          (λ s'. serve_frames-ends bridge turns (suc n) rest s' (ground arith)))
]

-- `handle_connection` leaves its loop on every stream: it is never out of turns.
pub handle_connection-ends :
    (bridge : Bridge) (stream : Bytes) (s : Sidecar)
    → (handle_connection bridge stream s).ending ≢ out_of_turns
unfolding handle_connection
handle_connection-ends bridge stream s =
    serve_frames-ends bridge (suc (length stream)) 0 stream
      (purge_pending bridge bridge.service.store s) (omega arith)

-- The service answers each of the payloads in turn, the first as its n-th request, with these framed responses.
pub data Answers (bridge : Bridge) : ℕ → Sidecar → List Bytes → List Bytes → Sidecar → Type 0 where
  no_more : (n : ℕ) (s : Sidecar) → Answers bridge n s [] [] s
  one_more :
      (n : ℕ) (s s' s'' : Sidecar) (payload frame : Bytes) (payloads frames : List Bytes)
      (response : Payload)
      → length payload ≤ max_frame_payload_bytes
      → process_frame bridge n payload s ≡ (ok (some response), s')
      → encode_frame (bridge.dump response) ≡ ok frame
      → Answers bridge (suc n) s' payloads frames s''
      → Answers bridge n s (payload ∷ payloads) (frame ∷ frames) s''

abbrev pub concat : List Bytes → Bytes
concat [] = []
concat (frame ∷ frames) = frame ++ concat frames

-- The stream on which the payloads arrive.
abbrev pub framed : List Bytes → Bytes
framed [] = []
framed (payload ∷ payloads) = pack (length payload) ++ (payload ++ framed payloads)

nothing_left : read_frame [] ≡ err truncated_header
unfolding read_frame
nothing_left = refl

serve_frames-Answers :
    (bridge : Bridge) (turns n : ℕ) (s s' : Sidecar) (payloads frames : List Bytes)
    → Answers bridge n s payloads frames s'
    → length (framed payloads) < turns
    → serve_frames bridge turns n (framed payloads) s
      ≡ record { ending = end_of_stream truncated_header; written = concat frames; sidecar = s' }
unfolding serve_frames
serve_frames-Answers bridge zero n s s' payloads frames a h = absurd (ground arith)
serve_frames-Answers bridge (suc turns) _ _ _ _ _ (no_more n s) h = rw nothing_left refl
serve_frames-Answers bridge (suc turns) _ _ _ _ _
      (one_more n s s1 s' payload frame payloads frames response fits answered sent rest) h =
    let whole = (read_frame-encode_frame payload (framed payloads) fits).1 in
    let longer = length-append payload (framed payloads) in
    let later =
      serve_frames-Answers bridge turns (suc n) s1 s' payloads frames rest (omega arith) in
    rw whole (rw answered (rw sent (rw later refl)))

-- A stream of framed payloads that the service answers one after another, once the pending purges are done, gets
-- the framed responses in the same order and nothing else, and the connection is closed at the end of the stream.
pub handle_connection-Answers :
    (bridge : Bridge) (s s' : Sidecar) (payloads frames : List Bytes)
    → Answers bridge 0 (purge_pending bridge bridge.service.store s) payloads frames s'
    → handle_connection bridge (framed payloads) s
      ≡ record { ending = end_of_stream truncated_header; written = concat frames; sidecar = s' }
unfolding handle_connection
handle_connection-Answers bridge s s' payloads frames a =
    serve_frames-Answers bridge (suc (length (framed payloads))) 0
      (purge_pending bridge bridge.service.store s) s' payloads frames a (omega arith)
