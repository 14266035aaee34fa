-- ===== src/Base/Limits.antt =====
-- base/src/constants.rs and base/src/lib.rs: the sizes and limits.
use tpm_rs.Prelude.{ℕ, ◌/◌, ◌*◌, ◌+◌, ◌-◌}

abbrev pub tpm2_sha_digest_size : ℕ
tpm2_sha_digest_size = 20

abbrev pub tpm2_sha1_digest_size : ℕ
tpm2_sha1_digest_size = 20

abbrev pub tpm2_sha256_digest_size : ℕ
tpm2_sha256_digest_size = 32

abbrev pub tpm2_sha384_digest_size : ℕ
tpm2_sha384_digest_size = 48

abbrev pub tpm2_sha512_digest_size : ℕ
tpm2_sha512_digest_size = 64

abbrev pub tpm2_sm3_256_digest_size : ℕ
tpm2_sm3_256_digest_size = 32

abbrev pub tpm2_max_digest_buffer : ℕ
tpm2_max_digest_buffer = 1024

abbrev pub tpm2_max_nv_buffer_size : ℕ
tpm2_max_nv_buffer_size = 2048

abbrev pub tpm2_max_cap_buffer : ℕ
tpm2_max_cap_buffer = 1024

abbrev pub tpm2_num_pcr_banks : ℕ
tpm2_num_pcr_banks = 16

abbrev pub tpm2_max_pcrs : ℕ
tpm2_max_pcrs = 32

abbrev pub tpm2_pcr_select_max : ℕ
tpm2_pcr_select_max = (tpm2_max_pcrs + 7) / 8

abbrev pub tpm2_label_max_buffer : ℕ
tpm2_label_max_buffer = 32

abbrev pub tpm2_max_sym_block_size : ℕ
tpm2_max_sym_block_size = 16

abbrev pub tpm2_max_sym_data : ℕ
tpm2_max_sym_data = 256

abbrev pub tpm2_max_ecc_key_bytes : ℕ
tpm2_max_ecc_key_bytes = 128

abbrev pub tpm2_max_sym_key_bytes : ℕ
tpm2_max_sym_key_bytes = 32

abbrev pub tpm2_max_rsa_key_bytes : ℕ
tpm2_max_rsa_key_bytes = 512

abbrev pub tpm2_private_vendor_specific_bytes : ℕ
tpm2_private_vendor_specific_bytes = (tpm2_max_rsa_key_bytes / 2) * (3 + 2)

abbrev pub tpm2_max_context_size : ℕ
tpm2_max_context_size = 5120

abbrev pub tpm2_max_active_sessions : ℕ
tpm2_max_active_sessions = 64

abbrev pub tpm2_max_cap_data : ℕ
tpm2_max_cap_data = tpm2_max_cap_buffer - 4 - 4

abbrev pub tpml_digest_max_digests : ℕ
tpml_digest_max_digests = 8
