-- ===== src/Generation/Gates.antt =====
-- What a memory that passed `validate_memory_reply` is grounded in, and that it can be sent.
use mod_playerbot_llm.Prelude.{
  ◌≡◌, refl, ap, sym, ◌∙◌, Bool, true, false, not, List, [], ◌∷◌, All, Result, ok, err, ltb, ok_inj,
}
use mod_playerbot_llm.Prelude.Text.{Text, text_eq}
use mod_playerbot_llm.Protocol.{
  MemoryRequest, byte_length, is_empty, refuse, max_social_context_entry_bytes,
}
use mod_playerbot_llm.Protocol.Encode.{MemoryCandidate}
use mod_playerbot_llm.Generation.{Gate, is_allowed, refuse_first, ModerationCategory}
use mod_playerbot_llm.Generation.Memory.{
  strip, subject_guids, source_of, is_said_by, quotes, check_candidate, validate_memory_reply,
  prepend,
}

pub refuse_ok :
    {A E : Type 0} (b : Bool) (e : E) (rest : Result E A) (a : A)
    → refuse b e rest ≡ ok a
    → (b ≡ false) × (rest ≡ ok a)
refuse_ok true e rest a h = cc
refuse_ok false e rest a h = (refl, h)

pub refuse_first_ok :
    {A : Type 0} (rows : List (Bool × ModerationCategory)) (rest : Gate A) (a : A)
    → refuse_first rows rest ≡ ok a
    → All (λ row. row.0 ≡ false) rows × (rest ≡ ok a)
refuse_first_ok [] rest a h = (tt, h)
refuse_first_ok ((true, category) ∷ rows) rest a h = cc
refuse_first_ok ((false, category) ∷ rows) rest a h =
    let (others, last) = refuse_first_ok rows rest a h in ((refl, others), last)

pub not-false : (b : Bool) → not b ≡ false → b ≡ true
not-false true h = refl
not-false false h = cc

prepend_ok :
    (c : MemoryCandidate) (rest : Gate (List MemoryCandidate)) (accepted : List MemoryCandidate)
    → prepend c rest ≡ ok accepted
    → (cs : List MemoryCandidate) × (rest ≡ ok cs) × (accepted ≡ c ∷ cs)
prepend_ok c (ok cs) accepted h = (cs, refl, cc)
prepend_ok c (err e) accepted h = cc

module _ (carries_secret is_unsafe : Text → Bool) (normalized : Text → Text)
    (request : MemoryRequest) where
  -- The subject took part, the privacy is the conversation's own, the cited line was said by the subject, and
  -- the text is neither empty nor prose, nor secret, unsafe or a quotation.
  pub record IsGrounded (c : MemoryCandidate) : Type 0 where
    pub about_subject : is_allowed (subject_guids request.subjects) c.about_guid ≡ true
    pub same_scope : text_eq c.scope request.scope ≡ true
    pub said_by_subject :
        is_said_by (source_of request.thread c.source_event_id) c.about_guid ≡ true
    pub not_empty : is_empty (strip c.paraphrase) ≡ false
    pub short : ltb max_social_context_entry_bytes (byte_length (strip c.paraphrase)) ≡ false
    pub no_secret : carries_secret (strip c.paraphrase) ≡ false
    pub safe : is_unsafe (strip c.paraphrase) ≡ false
    pub paraphrased :
        quotes carries_secret is_unsafe normalized request.thread (normalized (strip c.paraphrase))
        ≡ false

  check_candidate_ok :
      (c : MemoryCandidate) (rest : Gate (List MemoryCandidate)) (accepted : List MemoryCandidate)
      → check_candidate carries_secret is_unsafe normalized request c rest ≡ ok accepted
      → IsGrounded c × (rest ≡ ok accepted)
  check_candidate_ok c rest accepted h =
      let (a, h1) = refuse_ok _ _ _ accepted h in
      let (b, h2) = refuse_ok _ _ _ accepted h1 in
      let (s, h3) = refuse_ok _ _ _ accepted h2 in
      let (e, h4) = refuse_ok _ _ _ accepted h3 in
      let (l, h5) = refuse_ok _ _ _ accepted h4 in
      let (k, h6) = refuse_ok _ _ _ accepted h5 in
      let (u, h7) = refuse_ok _ _ _ accepted h6 in
      let (q, h8) = refuse_ok _ _ _ accepted h7 in
      (
        record {
          about_subject = not-false _ a;
          same_scope = not-false _ b;
          said_by_subject = not-false _ s;
          not_empty = e;
          short = l;
          no_secret = k;
          safe = u;
          paraphrased = q;
        },
        h8,
      )

  -- Whatever passes the gate passes whole, and every memory of it is grounded: about somebody who took
  -- part, at the privacy of the conversation, citing a line that its subject said.
  pub validate_memory_reply-IsGrounded :
      (candidates accepted : List MemoryCandidate)
      → validate_memory_reply carries_secret is_unsafe normalized candidates request ≡ ok accepted
      → (accepted ≡ candidates) × All IsGrounded accepted
  unfolding validate_memory_reply
  validate_memory_reply-IsGrounded [] accepted h =
      let none_left : accepted ≡ [] = sym (ok_inj h) in (none_left, rw none_left tt)
  validate_memory_reply-IsGrounded (c ∷ cs) accepted h =
      let (grounded, rest) = check_candidate_ok c _ accepted h in
      let (kept, same, shape) = prepend_ok c _ accepted rest in
      let (whole, all_grounded) = validate_memory_reply-IsGrounded cs kept same in
      (shape ∙ ap (λ xs. c ∷ xs) whole, rw shape (grounded, all_grounded))
