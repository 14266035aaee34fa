-- ===== src/Base/Sizes.antt =====
-- base/src/lib.rs: the layouts that `size_of`, `UnionSize` and the capacity constants go by.
use tpm_rs.Base.Layout.{Layout, word, array, struct_of, union_of, tagged}
use tpm_rs.Base.Limits.{
  tpm2_sha_digest_size, tpm2_sha256_digest_size, tpm2_sha384_digest_size, tpm2_sha512_digest_size,
  tpm2_sm3_256_digest_size, tpm2_max_nv_buffer_size, tpm2_num_pcr_banks, tpm2_pcr_select_max,
  tpm2_label_max_buffer, tpm2_max_sym_data, tpm2_max_ecc_key_bytes, tpm2_max_sym_key_bytes,
  tpm2_max_rsa_key_bytes, tpm2_private_vendor_specific_bytes, tpm2_max_context_size,
  tpm2_max_cap_data,
}
use tpm_rs.Prelude.{ℕ, [], ◌∷◌, ◌/◌}

-- `TpmtHa::UNION_SIZE`
abbrev pub tpmt_ha_union_size : ℕ
tpmt_ha_union_size =
    (union_of (
      (array tpm2_sha_digest_size (word 1))
      ∷ (array tpm2_sha256_digest_size (word 1))
      ∷ (array tpm2_sha384_digest_size (word 1))
      ∷ (array tpm2_sha512_digest_size (word 1))
      ∷ (array tpm2_sm3_256_digest_size (word 1))
      ∷ [])).size

abbrev pub tpmt_ha_layout : Layout
tpmt_ha_layout = tagged (word 2) (
    struct_of ((array tpm2_sha_digest_size (word 1)) ∷ [])
    ∷ struct_of ((array tpm2_sha256_digest_size (word 1)) ∷ [])
    ∷ struct_of ((array tpm2_sha384_digest_size (word 1)) ∷ [])
    ∷ struct_of ((array tpm2_sha512_digest_size (word 1)) ∷ [])
    ∷ struct_of ((array tpm2_sm3_256_digest_size (word 1)) ∷ [])
    ∷ [])

-- `TpmuName::UNION_SIZE`
abbrev pub tpmu_name_union_size : ℕ
tpmu_name_union_size = (union_of (tpmt_ha_layout ∷ (word 4) ∷ [])).size

abbrev pub tpm2b_name_layout : Layout
tpm2b_name_layout = struct_of ((word 2) ∷ (array tpmu_name_union_size (word 1)) ∷ [])

abbrev pub tpm2b_data_layout : Layout
tpm2b_data_layout = struct_of ((word 2) ∷ (array tpmt_ha_union_size (word 1)) ∷ [])

abbrev pub tpms_clock_info_layout : Layout
tpms_clock_info_layout = struct_of ((word 8) ∷ (word 4) ∷ (word 4) ∷ (word 1) ∷ [])

abbrev pub tpms_certify_info_layout : Layout
tpms_certify_info_layout = struct_of (tpm2b_name_layout ∷ tpm2b_name_layout ∷ [])

abbrev pub tpm2b_digest_layout : Layout
tpm2b_digest_layout = struct_of ((word 2) ∷ (array tpmt_ha_union_size (word 1)) ∷ [])

abbrev pub tpms_creation_info_layout : Layout
tpms_creation_info_layout = struct_of (tpm2b_name_layout ∷ tpm2b_digest_layout ∷ [])

abbrev pub tpms_pcr_selection_layout : Layout
tpms_pcr_selection_layout =
    struct_of ((word 2) ∷ (word 1) ∷ (array tpm2_pcr_select_max (word 1)) ∷ [])

abbrev pub tpml_pcr_selection_layout : Layout
tpml_pcr_selection_layout =
    struct_of ((word 4) ∷ (array tpm2_num_pcr_banks tpms_pcr_selection_layout) ∷ [])

abbrev pub tpms_quote_info_layout : Layout
tpms_quote_info_layout = struct_of (tpml_pcr_selection_layout ∷ tpm2b_digest_layout ∷ [])

abbrev pub tpms_command_audit_info_layout : Layout
tpms_command_audit_info_layout =
    struct_of ((word 8) ∷ (word 2) ∷ tpm2b_digest_layout ∷ tpm2b_digest_layout ∷ [])

abbrev pub tpms_session_audit_info_layout : Layout
tpms_session_audit_info_layout = struct_of ((word 1) ∷ tpm2b_digest_layout ∷ [])

abbrev pub tpms_time_info_layout : Layout
tpms_time_info_layout = struct_of ((word 8) ∷ tpms_clock_info_layout ∷ [])

abbrev pub tpms_time_attest_info_layout : Layout
tpms_time_attest_info_layout = struct_of (tpms_time_info_layout ∷ (word 8) ∷ [])

abbrev pub tpm2b_max_nv_buffer_layout : Layout
tpm2b_max_nv_buffer_layout = struct_of ((word 2) ∷ (array tpm2_max_nv_buffer_size (word 1)) ∷ [])

abbrev pub tpms_nv_certify_info_layout : Layout
tpms_nv_certify_info_layout =
    struct_of (tpm2b_name_layout ∷ (word 2) ∷ tpm2b_max_nv_buffer_layout ∷ [])

abbrev pub tpmu_attest_layout : Layout
tpmu_attest_layout = tagged (word 2) (
    struct_of (tpms_certify_info_layout ∷ [])
    ∷ struct_of (tpms_creation_info_layout ∷ [])
    ∷ struct_of (tpms_quote_info_layout ∷ [])
    ∷ struct_of (tpms_command_audit_info_layout ∷ [])
    ∷ struct_of (tpms_session_audit_info_layout ∷ [])
    ∷ struct_of (tpms_time_attest_info_layout ∷ [])
    ∷ struct_of (tpms_nv_certify_info_layout ∷ [])
    ∷ [])

abbrev pub tpms_attest_layout : Layout
tpms_attest_layout = struct_of (
    (word 4)
    ∷ tpm2b_name_layout
    ∷ tpm2b_data_layout
    ∷ tpms_clock_info_layout
    ∷ (word 8)
    ∷ tpmu_attest_layout
    ∷ [])

abbrev pub tpm2b_label_layout : Layout
tpm2b_label_layout = struct_of ((word 2) ∷ (array tpm2_label_max_buffer (word 1)) ∷ [])

abbrev pub tpms_derive_layout : Layout
tpms_derive_layout = struct_of (tpm2b_label_layout ∷ tpm2b_label_layout ∷ [])

-- `TpmuSensitiveCreate::UNION_SIZE`
abbrev pub tpmu_sensitive_create_union_size : ℕ
tpmu_sensitive_create_union_size =
    (union_of ((array tpm2_max_sym_data (word 1)) ∷ tpms_derive_layout ∷ [])).size

abbrev pub tpm2b_sensitive_data_layout : Layout
tpm2b_sensitive_data_layout =
    struct_of ((word 2) ∷ (array tpmu_sensitive_create_union_size (word 1)) ∷ [])

abbrev pub tpms_sensitive_create_layout : Layout
tpms_sensitive_create_layout = struct_of (tpm2b_digest_layout ∷ tpm2b_sensitive_data_layout ∷ [])

abbrev pub tpm2b_ecc_parameter_layout : Layout
tpm2b_ecc_parameter_layout = struct_of ((word 2) ∷ (array tpm2_max_ecc_key_bytes (word 1)) ∷ [])

abbrev pub tpms_ecc_point_layout : Layout
tpms_ecc_point_layout = struct_of (tpm2b_ecc_parameter_layout ∷ tpm2b_ecc_parameter_layout ∷ [])

-- `TpmuEncryptedSecret::UNION_SIZE`
abbrev pub tpmu_encrypted_secret_union_size : ℕ
tpmu_encrypted_secret_union_size =
    (union_of (
      (array tpms_ecc_point_layout.size (word 1))
      ∷ (array tpm2_max_rsa_key_bytes (word 1))
      ∷ (array tpm2b_digest_layout.size (word 1))
      ∷ (array tpm2b_digest_layout.size (word 1))
      ∷ [])).size

abbrev pub tpms_scheme_hash_layout : Layout
tpms_scheme_hash_layout = struct_of ((word 2) ∷ [])

abbrev pub tpms_scheme_xor_layout : Layout
tpms_scheme_xor_layout = struct_of ((word 2) ∷ (word 2) ∷ [])

abbrev pub tpms_empty_layout : Layout
tpms_empty_layout = struct_of []

abbrev pub tpmt_keyed_hash_scheme_layout : Layout
tpmt_keyed_hash_scheme_layout = tagged (word 2) (
    struct_of (tpms_scheme_hash_layout ∷ [])
    ∷ struct_of (tpms_scheme_xor_layout ∷ [])
    ∷ struct_of (tpms_empty_layout ∷ [])
    ∷ [])

abbrev pub tpms_keyed_hash_parms_layout : Layout
tpms_keyed_hash_parms_layout = struct_of (tpmt_keyed_hash_scheme_layout ∷ [])

abbrev pub tpmt_sym_def_object_layout : Layout
tpmt_sym_def_object_layout = tagged (word 2) (
    struct_of ((word 2) ∷ (word 2) ∷ [])
    ∷ struct_of ((word 2) ∷ (word 2) ∷ [])
    ∷ struct_of ((word 2) ∷ (word 2) ∷ [])
    ∷ struct_of ((word 2) ∷ tpms_empty_layout ∷ [])
    ∷ struct_of (tpms_empty_layout ∷ tpms_empty_layout ∷ [])
    ∷ [])

abbrev pub tpms_sym_cipher_parms_layout : Layout
tpms_sym_cipher_parms_layout = struct_of (tpmt_sym_def_object_layout ∷ [])

abbrev pub tpms_scheme_ecdaa_layout : Layout
tpms_scheme_ecdaa_layout = struct_of ((word 2) ∷ (word 2) ∷ [])

abbrev pub tpmt_rsa_scheme_layout : Layout
tpmt_rsa_scheme_layout = tagged (word 2) (
    struct_of (tpms_scheme_hash_layout ∷ [])
    ∷ struct_of (tpms_scheme_hash_layout ∷ [])
    ∷ struct_of (tpms_scheme_hash_layout ∷ [])
    ∷ struct_of (tpms_scheme_ecdaa_layout ∷ [])
    ∷ struct_of (tpms_scheme_hash_layout ∷ [])
    ∷ struct_of (tpms_scheme_hash_layout ∷ [])
    ∷ struct_of (tpms_empty_layout ∷ [])
    ∷ struct_of (tpms_scheme_hash_layout ∷ [])
    ∷ struct_of (tpms_empty_layout ∷ [])
    ∷ [])

abbrev pub tpms_rsa_parms_layout : Layout
tpms_rsa_parms_layout =
    struct_of (tpmt_sym_def_object_layout ∷ tpmt_rsa_scheme_layout ∷ (word 2) ∷ (word 4) ∷ [])

abbrev pub tpm2b_public_key_rsa_layout : Layout
tpm2b_public_key_rsa_layout = struct_of ((word 2) ∷ (array tpm2_max_rsa_key_bytes (word 1)) ∷ [])

abbrev pub tpmt_ecc_scheme_layout : Layout
tpmt_ecc_scheme_layout = tagged (word 2) (
    struct_of (tpms_scheme_hash_layout ∷ [])
    ∷ struct_of (tpms_scheme_hash_layout ∷ [])
    ∷ struct_of (tpms_scheme_hash_layout ∷ [])
    ∷ struct_of (tpms_scheme_ecdaa_layout ∷ [])
    ∷ struct_of (tpms_scheme_hash_layout ∷ [])
    ∷ struct_of (tpms_scheme_hash_layout ∷ [])
    ∷ struct_of (tpms_scheme_hash_layout ∷ [])
    ∷ struct_of (tpms_scheme_hash_layout ∷ [])
    ∷ struct_of (tpms_empty_layout ∷ [])
    ∷ [])

abbrev pub tpmt_kdf_scheme_layout : Layout
tpmt_kdf_scheme_layout = tagged (word 2) (
    struct_of (tpms_scheme_hash_layout ∷ [])
    ∷ struct_of (tpms_scheme_hash_layout ∷ [])
    ∷ struct_of (tpms_scheme_hash_layout ∷ [])
    ∷ struct_of (tpms_scheme_hash_layout ∷ [])
    ∷ struct_of (tpms_empty_layout ∷ [])
    ∷ [])

abbrev pub tpms_ecc_parms_layout : Layout
tpms_ecc_parms_layout =
    struct_of
      (tpmt_sym_def_object_layout ∷ tpmt_ecc_scheme_layout ∷ (word 2) ∷ tpmt_kdf_scheme_layout ∷ [])

abbrev pub public_parms_and_id_layout : Layout
public_parms_and_id_layout = tagged (word 2) (
    struct_of (tpms_keyed_hash_parms_layout ∷ tpm2b_digest_layout ∷ [])
    ∷ struct_of (tpms_sym_cipher_parms_layout ∷ tpm2b_digest_layout ∷ [])
    ∷ struct_of (tpms_rsa_parms_layout ∷ tpm2b_public_key_rsa_layout ∷ [])
    ∷ struct_of (tpms_ecc_parms_layout ∷ tpms_ecc_point_layout ∷ [])
    ∷ [])

abbrev pub tpmt_public_layout : Layout
tpmt_public_layout =
    struct_of ((word 2) ∷ (word 4) ∷ tpm2b_digest_layout ∷ public_parms_and_id_layout ∷ [])

abbrev pub tpm2b_private_key_rsa_layout : Layout
tpm2b_private_key_rsa_layout =
    struct_of ((word 2) ∷ (array (tpm2_max_rsa_key_bytes / 2) (word 1)) ∷ [])

abbrev pub tpm2b_sym_key_layout : Layout
tpm2b_sym_key_layout = struct_of ((word 2) ∷ (array tpm2_max_sym_key_bytes (word 1)) ∷ [])

abbrev pub tpm2b_private_vendor_specific_layout : Layout
tpm2b_private_vendor_specific_layout =
    struct_of ((word 2) ∷ (array tpm2_private_vendor_specific_bytes (word 1)) ∷ [])

abbrev pub tpmu_sensitive_composite_layout : Layout
tpmu_sensitive_composite_layout = tagged (word 2) (
    struct_of (tpm2b_private_key_rsa_layout ∷ [])
    ∷ struct_of (tpm2b_ecc_parameter_layout ∷ [])
    ∷ struct_of (tpm2b_sensitive_data_layout ∷ [])
    ∷ struct_of (tpm2b_sym_key_layout ∷ [])
    ∷ struct_of (tpm2b_private_vendor_specific_layout ∷ [])
    ∷ [])

abbrev pub tpmt_sensitive_layout : Layout
tpmt_sensitive_layout =
    struct_of (tpm2b_digest_layout ∷ tpm2b_digest_layout ∷ tpmu_sensitive_composite_layout ∷ [])

abbrev pub tpm2b_sensitive_layout : Layout
tpm2b_sensitive_layout = struct_of ((word 2) ∷ (array tpmt_sensitive_layout.size (word 1)) ∷ [])

abbrev pub private_layout : Layout
private_layout = struct_of (tpm2b_digest_layout ∷ tpm2b_digest_layout ∷ tpm2b_sensitive_layout ∷ [])

abbrev pub tpms_id_object_layout : Layout
tpms_id_object_layout = struct_of (tpm2b_digest_layout ∷ tpm2b_digest_layout ∷ [])

abbrev pub tpm2b_context_sensitive_layout : Layout
tpm2b_context_sensitive_layout = struct_of ((word 2) ∷ (array tpm2_max_context_size (word 1)) ∷ [])

abbrev pub tpms_context_data_layout : Layout
tpms_context_data_layout = struct_of (tpm2b_digest_layout ∷ tpm2b_context_sensitive_layout ∷ [])

abbrev pub tpms_creation_data_layout : Layout
tpms_creation_data_layout = struct_of (
    tpml_pcr_selection_layout
    ∷ tpm2b_digest_layout
    ∷ (word 1)
    ∷ (word 2)
    ∷ tpm2b_name_layout
    ∷ tpm2b_name_layout
    ∷ tpm2b_data_layout
    ∷ [])

abbrev pub tpms_alg_property_layout : Layout
tpms_alg_property_layout = struct_of ((word 2) ∷ (word 4) ∷ [])

abbrev pub tpm2_max_cap_algs : ℕ
tpm2_max_cap_algs = tpm2_max_cap_data / tpms_alg_property_layout.size

abbrev pub tpm2_max_cap_handles : ℕ
tpm2_max_cap_handles = tpm2_max_cap_data / (word 4).size

abbrev pub tpm2_max_cap_cc : ℕ
tpm2_max_cap_cc = tpm2_max_cap_data / (word 4).size

abbrev pub tpms_tagged_property_layout : Layout
tpms_tagged_property_layout = struct_of ((word 4) ∷ (word 4) ∷ [])

abbrev pub tpm2_max_tpm_properties : ℕ
tpm2_max_tpm_properties = tpm2_max_cap_data / tpms_tagged_property_layout.size

abbrev pub tpms_tagged_pcr_select_layout : Layout
tpms_tagged_pcr_select_layout =
    struct_of ((word 4) ∷ (word 1) ∷ (array tpm2_pcr_select_max (word 1)) ∷ [])

abbrev pub tpm2_max_pcr_properties : ℕ
tpm2_max_pcr_properties = tpm2_max_cap_data / tpms_tagged_pcr_select_layout.size

abbrev pub tpm2_max_ecc_curves : ℕ
tpm2_max_ecc_curves = tpm2_max_cap_data / (word 2).size

abbrev pub tpms_tagged_policy_layout : Layout
tpms_tagged_policy_layout = struct_of ((word 4) ∷ tpmt_ha_layout ∷ [])

abbrev pub tpm2_max_tagged_policies : ℕ
tpm2_max_tagged_policies = tpm2_max_cap_data / tpms_tagged_policy_layout.size
