-- ===== src/Generation/Biographies.antt =====
-- `build_biography` and `biography_fields_for_transport` of generation.py, what the encoder makes of their
-- fields, and the identities that the system prompt can name.
use mod_playerbot_llm.Prelude.{
  ℕ, Bool, ◌&&◌, List, ◌≡◌, refl, sym, true, false, [], ◌∷◌, any, All, ok, ltb, ok_inj,
}
use mod_playerbot_llm.Prelude.Text.{Text, codes}
use mod_playerbot_llm.Protocol.{
  BiographyRequest, byte_length, is_blank, is_control, refuse, in_uint64, token_fits,
  max_biography_field_bytes,
}
use mod_playerbot_llm.Protocol.Encode.{Biography, Encoded, check_fields, encode_biography_response}
use mod_playerbot_llm.Protocol.Social.{number_in}
use mod_playerbot_llm.Generation.{Gate, forbidden_claim, uncategorized}
use mod_playerbot_llm.Generation.Words.{TextLibrary, ForbiddenTexts, contains_forbidden_claim}
use mod_playerbot_llm.Generation.Gates.{refuse_ok}
use mod_playerbot_llm.Generation.Sending.{is_encoded}

-- The keys of `RACE_NAMES`, `CLASS_NAMES` and `GENDER_NAMES`
abbrev race_ids : List ℕ
race_ids = 1 ∷ 2 ∷ 3 ∷ 4 ∷ 5 ∷ 6 ∷ 7 ∷ 8 ∷ 10 ∷ 11 ∷ []

abbrev class_ids : List ℕ
class_ids = 1 ∷ 2 ∷ 3 ∷ 4 ∷ 5 ∷ 6 ∷ 7 ∷ 8 ∷ 9 ∷ 11 ∷ []

abbrev gender_ids : List ℕ
gender_ids = 0 ∷ 1 ∷ []

-- Whether `build_biography_system_prompt` can name the character; otherwise it raises before anything is sent.
unfoldable pub can_be_named : BiographyRequest → Bool
can_be_named request =
    number_in race_ids request.race_id
    && (number_in class_ids request.class_id && number_in gender_ids request.gender_id)

-- `BiographyReply`
pub record BiographyReply : Type 0 where
  pub origin : Text
  pub motivation : Text
  pub formative_experience : Text
  pub interests : Text
  pub aversions : Text
  pub preferred_topics : Text
  pub mannerisms : Text
  pub values : Text

-- `reply.model_dump()`
abbrev pub model_dump : BiographyReply → Biography
model_dump r =
    (codes "origin", r.origin)
    ∷ (codes "motivation", r.motivation)
    ∷ (codes "formative_experience", r.formative_experience)
    ∷ (codes "interests", r.interests)
    ∷ (codes "aversions", r.aversions)
    ∷ (codes "preferred_topics", r.preferred_topics)
    ∷ (codes "mannerisms", r.mannerisms)
    ∷ (codes "values", r.values)
    ∷ []

module _ (lib : TextLibrary) (forbidden : ForbiddenTexts) where
  abbrev pub check_profile : Biography → Gate Biography → Gate Biography
  check_profile [] rest = rest
  check_profile ((name, value) ∷ fields) rest = refuse (is_blank value) uncategorized (
      refuse (ltb max_biography_field_bytes (byte_length value)) uncategorized (
        refuse (contains_forbidden_claim lib forbidden value) forbidden_claim
          (check_profile fields rest)))

  -- The identity that `build_biography` adds is dropped again by its caller.
  unfoldable pub biography_fields_for_transport : BiographyReply → Gate Biography
  biography_fields_for_transport reply = check_profile (model_dump reply) (ok (model_dump reply))

  -- A field that the gate accepts.
  pub record IsModest (value : Text) : Type 0 where
    pub written : is_blank value ≡ false
    pub short : ltb max_biography_field_bytes (byte_length value) ≡ false
    pub humble : contains_forbidden_claim lib forbidden value ≡ false

  check_profile-IsModest :
      (fields : Biography) (rest : Gate Biography) (accepted : Biography)
      → check_profile fields rest ≡ ok accepted
      → All (λ field. IsModest field.1) fields × (rest ≡ ok accepted)
  check_profile-IsModest [] rest accepted h = (tt, h)
  check_profile-IsModest ((name, value) ∷ fields) rest accepted h =
      let (written, h1) = refuse_ok _ _ _ accepted h in
      let (short, h2) = refuse_ok _ _ _ accepted h1 in
      let (humble, h3) = refuse_ok _ _ _ accepted h2 in
      let (others, last) = check_profile-IsModest fields rest accepted h3 in
      ((record { written = written; short = short; humble = humble }, others), last)

  biography_fields-IsModest :
      (reply : BiographyReply) (fields : Biography)
      → biography_fields_for_transport reply ≡ ok fields
      → All (λ field. IsModest field.1) fields × (fields ≡ model_dump reply)
  unfolding biography_fields_for_transport
  biography_fields-IsModest reply fields h =
      let (modest, same) = check_profile-IsModest (model_dump reply) _ fields h in
      let shape : model_dump reply ≡ fields = ok_inj same in (rw (← shape) modest, sym shape)

  check_fields_ok :
      (fields : Biography) (rest : Encoded)
      → All (λ field. IsModest field.1) fields
      → All (λ field. any is_control field.1 ≡ false) fields
      → check_fields fields rest ≡ rest
  check_fields_ok [] rest m c = refl
  check_fields_ok ((name, value) ∷ fields) rest (m, ms) (c, cs) =
      rw m.written (rw m.short (rw c (check_fields_ok fields rest ms cs)))

  -- A profile that passed the gate makes claims of no kind that is forbidden, and is accepted by the encoder as
  -- long as none of its fields has a control character, which the gate does not look for.
  pub encode_biography_response-built :
      (request : BiographyRequest) (reply : BiographyReply) (fields : Biography) (token : Text)
      → in_uint64 request.biography_request_token ≡ true
      → in_uint64 request.bot_guid ≡ true
      → token_fits token ≡ true
      → biography_fields_for_transport reply ≡ ok fields
      → All (λ field. any is_control field.1 ≡ false) fields
      → All (λ field. contains_forbidden_claim lib forbidden field.1 ≡ false) fields
        × (is_encoded (
              encode_biography_response request.biography_request_token request.bot_guid fields
                token)
            ≡ true)
  unfolding encode_biography_response
  encode_biography_response-built request reply fields token t g fits passed printable =
      let (modest, shape) = biography_fields-IsModest reply fields passed in
      (
        humble_fields fields modest,
        rw t (
            rw g (
              rw fits (
                rw shape (
                  rw
                    (check_fields_ok (model_dump reply) _ (rw shape at modest)
                      (rw shape at printable))
                    refl)))),
      )
    where
      humble_fields :
          (fields : Biography)
          → All (λ field. IsModest field.1) fields
          → All (λ field. contains_forbidden_claim lib forbidden field.1 ≡ false) fields
      humble_fields [] m = tt
      humble_fields (f ∷ fs) (m, ms) = (m.humble, humble_fields fs ms)
