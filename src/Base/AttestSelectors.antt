-- ===== src/Base/AttestSelectors.antt =====
-- base/src/lib.rs: the selectors of `TpmuAttest`.
use tpm_rs.Prelude.{ℕ, ◌≡◌, ◌≢◌, List, [], ◌∷◌, All}
use tpm_rs.Outcome.{err}
use tpm_rs.Errors.{selector}
use tpm_rs.Derive.Selectors.{no_variants-KnowsOnly, variant-KnowsOnly, derived-unknown}
use tpm_rs.Base.Constants.Tags.{TpmSt, tpm_st_number}
use tpm_rs.Base.AttestUnion.{tpmu_attest_variant, tpmu_attest_sum, tpmu_attest_of}

abbrev pub attest_selectors : List ℕ
attest_selectors =
    tpm_st_number TpmSt.attest_certify
    ∷ tpm_st_number TpmSt.attest_creation
    ∷ tpm_st_number TpmSt.attest_quote
    ∷ tpm_st_number TpmSt.attest_command_audit
    ∷ tpm_st_number TpmSt.attest_session_audit
    ∷ tpm_st_number TpmSt.attest_time
    ∷ tpm_st_number TpmSt.attest_nv
    ∷ []

-- A selector that is none of the seven structure tags of attestations is refused with Selector
-- when a TpmuAttest is unmarshalled, whatever the bytes are.
pub tpmu_attest-unknown_selector :
    (s : ℕ) (buffer : List ℕ)
    → All (λ x. s ≢ x) attest_selectors
    → tpmu_attest_variant.try_unmarshal_variant s buffer ≡ err selector
unfolding tpmu_attest_variant
tpmu_attest-unknown_selector = derived-unknown tpmu_attest_sum tpmu_attest_of (
    variant-KnowsOnly _ _ _ (
      variant-KnowsOnly _ _ _ (
        variant-KnowsOnly _ _ _ (
          variant-KnowsOnly _ _ _ (
            variant-KnowsOnly _ _ _
              (variant-KnowsOnly _ _ _ (variant-KnowsOnly _ _ _ no_variants-KnowsOnly)))))))
