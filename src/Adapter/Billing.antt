-- ===== src/Adapter/Billing.antt =====
-- What an adapter call reports of its cost, so that the service can settle it.
use mod_playerbot_llm.Prelude.{
  ◌≡◌, ◌⊎◌, inl, inr, refl, Bool, true, false, Option, none, some, ok, err, Bool-cases,
}
use mod_playerbot_llm.Provider.{
  GenerationUsage, is_priceable, GenerationError, invalid_output_error, impossible, billing_status,
  error_usage, Generated,
}
use mod_playerbot_llm.Generation.{Gate}
use mod_playerbot_llm.Adapter.{
  Called, returned, api_failed, http_timeout, authentication, rate_limit, api_timeout,
  other_api_error, map_api_error, ParsedOutput, schema_violation, absent, other_model, parsed,
  Message, totals, conform, with_totals, priced_output, generated,
}

-- The usage that reaches the service, with a reply or with an error.
abbrev pub reported_usage : {S : Type 0} → Generated (S × GenerationUsage) → Option GenerationUsage
reported_usage (ok (reply, usage)) = some usage
reported_usage (err error) = error_usage error

abbrev pub fits_schema : {R : Type 0} → ParsedOutput R → Bool
fits_schema schema_violation = false
fits_schema absent = true
fits_schema other_model = true
fits_schema (parsed reply) = true

module _ {R S : Type 0} (validate : R → Gate S) (is_valid : R → Bool) where
  with_totals-reported :
      (usage : GenerationUsage) (accepted : Gate S)
      → reported_usage (with_totals validate usage accepted) ≡ some usage
  unfolding error_usage
  with_totals-reported usage (ok accepted) = refl
  with_totals-reported usage (err category) = refl

  priced_reported :
      (usage : GenerationUsage) (output : ParsedOutput R)
      → is_priceable usage ≡ true
      → fits_schema output ≡ true
      → reported_usage (priced_output validate usage output) ≡ some usage
  unfolding error_usage
  priced_reported usage schema_violation p fits = cc
  priced_reported usage absent p fits = rw p refl
  priced_reported usage other_model p fits = rw p refl
  priced_reported usage (parsed reply) p fits = rw p (with_totals-reported usage (validate reply))

  -- A completion that the API returned in the asked schema is billed, and its usage reaches the service whatever
  -- the gates make of the reply, as long as its counts can be priced.
  pub generated-reported :
      (m : Message R)
      → is_priceable (totals m) ≡ true
      → fits_schema (conform is_valid m.parsed_output) ≡ true
      → reported_usage (generated validate is_valid (returned m)) ≡ some (totals m)
  unfolding generated
  generated-reported m p fits = priced_reported (totals m) (conform is_valid m.parsed_output) p fits

  priced_possible :
      (usage : GenerationUsage) (output : ParsedOutput R) (e : GenerationError)
      → priced_output validate usage output ≡ err e
      → billing_status e ≡ impossible
      → (usage' : Option GenerationUsage) × (e ≡ invalid_output_error usage')
  priced_possible usage schema_violation e h b = (none, cc)
  priced_possible usage absent e h b = elim (Bool-cases (is_priceable usage)) [
    | inl p ↦ let h' = rw p at h in (some usage, cc)
    | inr p ↦ let h' = rw p at h in (none, cc)
  ]
  priced_possible usage other_model e h b = elim (Bool-cases (is_priceable usage)) [
    | inl p ↦ let h' = rw p at h in (some usage, cc)
    | inr p ↦ let h' = rw p at h in (none, cc)
  ]
  priced_possible usage (parsed reply) e h b = elim (Bool-cases (is_priceable usage)) [
    | inl p ↦ let h' = rw p at h in gate_error (validate reply) h'
    | inr p ↦ let h' = rw p at h in (none, cc)
  ]
    where
      gate_error :
          (accepted : Gate S)
          → with_totals validate usage accepted ≡ err e
          → (usage' : Option GenerationUsage) × (e ≡ invalid_output_error usage')
      gate_error (ok accepted) k = cc
      gate_error (err category) k = (some usage, cc)

  no_output_is_impossible :
      (usage : Option GenerationUsage)
      → billing_status (invalid_output_error usage) ≡ impossible
      → ⊥
  unfolding billing_status
  no_output_is_impossible none h = cc
  no_output_is_impossible (some usage) h = elim (Bool-cases (is_priceable usage)) [
    | inl p ↦ let h' = rw p at h in cc
    | inr p ↦ let h' = rw p at h in cc
  ]

  -- A reservation is given back for free only where the API refused the call before it generated: whenever an
  -- error says that nothing can have been billed, the call failed at authentication or at the rate limit.
  pub generated-impossible :
      (completion : Called (Message R)) (e : GenerationError)
      → generated validate is_valid completion ≡ err e
      → billing_status e ≡ impossible
      → (completion ≡ api_failed authentication) ⊎ (completion ≡ api_failed rate_limit)
  unfolding generated map_api_error billing_status
  generated-impossible (returned m) e h b =
      let (usage, shape) = priced_possible (totals m) (conform is_valid m.parsed_output) e h b in
      absurd (no_output_is_impossible usage (rw shape at b))
  generated-impossible (api_failed api_timeout) e h b = cc
  generated-impossible (api_failed authentication) e h b = inl refl
  generated-impossible (api_failed rate_limit) e h b = inr refl
  generated-impossible (api_failed other_api_error) e h b = cc
  generated-impossible http_timeout e h b = cc
