-- ===== src/Base/MoreBuffers.antt =====
-- base/src/lib.rs: the other sized buffers and their capacities.
use tpm_rs.Base.Limits.{
  tpm2_max_ecc_key_bytes, tpm2_max_rsa_key_bytes, tpm2_private_vendor_specific_bytes,
  tpm2_max_context_size,
}
use tpm_rs.Base.Sizes.{
  tpmu_encrypted_secret_union_size, tpmt_public_layout, private_layout, tpms_id_object_layout,
  tpms_context_data_layout, tpms_creation_data_layout,
}
use tpm_rs.Marshal.Core.{Marshalable}
use tpm_rs.Marshal.Lawful.{Format, Lawful}
use tpm_rs.Prelude.{ℕ, ◌/◌}
use tpm_rs.Tpm2b.Simple.{Tpm2b, tpm2b}
use tpm_rs.Tpm2b.SimpleLaws.{tpm2b_format, tpm2b-Lawful}

-- `Tpm2bPublicKeyRsa`
abbrev pub tpm2b_public_key_rsa_capacity : ℕ
tpm2b_public_key_rsa_capacity = tpm2_max_rsa_key_bytes

abbrev pub tpm2b_public_key_rsa : Marshalable Tpm2b
tpm2b_public_key_rsa = tpm2b tpm2b_public_key_rsa_capacity

abbrev pub tpm2b_public_key_rsa_format : Format Tpm2b
tpm2b_public_key_rsa_format = tpm2b_format tpm2b_public_key_rsa_capacity

pub tpm2b_public_key_rsa-Lawful : Lawful tpm2b_public_key_rsa tpm2b_public_key_rsa_format
tpm2b_public_key_rsa-Lawful = tpm2b-Lawful tpm2b_public_key_rsa_capacity

-- `Tpm2bPrivateKeyRsa`
abbrev pub tpm2b_private_key_rsa_capacity : ℕ
tpm2b_private_key_rsa_capacity = (tpm2_max_rsa_key_bytes / 2)

abbrev pub tpm2b_private_key_rsa : Marshalable Tpm2b
tpm2b_private_key_rsa = tpm2b tpm2b_private_key_rsa_capacity

abbrev pub tpm2b_private_key_rsa_format : Format Tpm2b
tpm2b_private_key_rsa_format = tpm2b_format tpm2b_private_key_rsa_capacity

pub tpm2b_private_key_rsa-Lawful : Lawful tpm2b_private_key_rsa tpm2b_private_key_rsa_format
tpm2b_private_key_rsa-Lawful = tpm2b-Lawful tpm2b_private_key_rsa_capacity

-- `Tpm2bEccParameter`
abbrev pub tpm2b_ecc_parameter_capacity : ℕ
tpm2b_ecc_parameter_capacity = tpm2_max_ecc_key_bytes

abbrev pub tpm2b_ecc_parameter : Marshalable Tpm2b
tpm2b_ecc_parameter = tpm2b tpm2b_ecc_parameter_capacity

abbrev pub tpm2b_ecc_parameter_format : Format Tpm2b
tpm2b_ecc_parameter_format = tpm2b_format tpm2b_ecc_parameter_capacity

pub tpm2b_ecc_parameter-Lawful : Lawful tpm2b_ecc_parameter tpm2b_ecc_parameter_format
tpm2b_ecc_parameter-Lawful = tpm2b-Lawful tpm2b_ecc_parameter_capacity

-- `Tpm2bEncryptedSecret`
abbrev pub tpm2b_encrypted_secret_capacity : ℕ
tpm2b_encrypted_secret_capacity = tpmu_encrypted_secret_union_size

abbrev pub tpm2b_encrypted_secret : Marshalable Tpm2b
tpm2b_encrypted_secret = tpm2b tpm2b_encrypted_secret_capacity

abbrev pub tpm2b_encrypted_secret_format : Format Tpm2b
tpm2b_encrypted_secret_format = tpm2b_format tpm2b_encrypted_secret_capacity

pub tpm2b_encrypted_secret-Lawful : Lawful tpm2b_encrypted_secret tpm2b_encrypted_secret_format
tpm2b_encrypted_secret-Lawful = tpm2b-Lawful tpm2b_encrypted_secret_capacity

-- `Tpm2bPublic`
abbrev pub tpm2b_public_capacity : ℕ
tpm2b_public_capacity = tpmt_public_layout.size

abbrev pub tpm2b_public : Marshalable Tpm2b
tpm2b_public = tpm2b tpm2b_public_capacity

abbrev pub tpm2b_public_format : Format Tpm2b
tpm2b_public_format = tpm2b_format tpm2b_public_capacity

pub tpm2b_public-Lawful : Lawful tpm2b_public tpm2b_public_format
tpm2b_public-Lawful = tpm2b-Lawful tpm2b_public_capacity

-- `Tpm2bTemplate`
abbrev pub tpm2b_template_capacity : ℕ
tpm2b_template_capacity = tpmt_public_layout.size

abbrev pub tpm2b_template : Marshalable Tpm2b
tpm2b_template = tpm2b tpm2b_template_capacity

abbrev pub tpm2b_template_format : Format Tpm2b
tpm2b_template_format = tpm2b_format tpm2b_template_capacity

pub tpm2b_template-Lawful : Lawful tpm2b_template tpm2b_template_format
tpm2b_template-Lawful = tpm2b-Lawful tpm2b_template_capacity

-- `Tpm2bPrivateVendorSpecific`
abbrev pub tpm2b_private_vendor_specific_capacity : ℕ
tpm2b_private_vendor_specific_capacity = tpm2_private_vendor_specific_bytes

abbrev pub tpm2b_private_vendor_specific : Marshalable Tpm2b
tpm2b_private_vendor_specific = tpm2b tpm2b_private_vendor_specific_capacity

abbrev pub tpm2b_private_vendor_specific_format : Format Tpm2b
tpm2b_private_vendor_specific_format = tpm2b_format tpm2b_private_vendor_specific_capacity

pub tpm2b_private_vendor_specific-Lawful :
    Lawful tpm2b_private_vendor_specific tpm2b_private_vendor_specific_format
tpm2b_private_vendor_specific-Lawful = tpm2b-Lawful tpm2b_private_vendor_specific_capacity

-- `Tpm2bPrivate`
abbrev pub tpm2b_private_capacity : ℕ
tpm2b_private_capacity = private_layout.size

abbrev pub tpm2b_private : Marshalable Tpm2b
tpm2b_private = tpm2b tpm2b_private_capacity

abbrev pub tpm2b_private_format : Format Tpm2b
tpm2b_private_format = tpm2b_format tpm2b_private_capacity

pub tpm2b_private-Lawful : Lawful tpm2b_private tpm2b_private_format
tpm2b_private-Lawful = tpm2b-Lawful tpm2b_private_capacity

-- `Tpm2bIdObject`
abbrev pub tpm2b_id_object_capacity : ℕ
tpm2b_id_object_capacity = tpms_id_object_layout.size

abbrev pub tpm2b_id_object : Marshalable Tpm2b
tpm2b_id_object = tpm2b tpm2b_id_object_capacity

abbrev pub tpm2b_id_object_format : Format Tpm2b
tpm2b_id_object_format = tpm2b_format tpm2b_id_object_capacity

pub tpm2b_id_object-Lawful : Lawful tpm2b_id_object tpm2b_id_object_format
tpm2b_id_object-Lawful = tpm2b-Lawful tpm2b_id_object_capacity

-- `Tpm2bContextSensitive`
abbrev pub tpm2b_context_sensitive_capacity : ℕ
tpm2b_context_sensitive_capacity = tpm2_max_context_size

abbrev pub tpm2b_context_sensitive : Marshalable Tpm2b
tpm2b_context_sensitive = tpm2b tpm2b_context_sensitive_capacity

abbrev pub tpm2b_context_sensitive_format : Format Tpm2b
tpm2b_context_sensitive_format = tpm2b_format tpm2b_context_sensitive_capacity

pub tpm2b_context_sensitive-Lawful : Lawful tpm2b_context_sensitive tpm2b_context_sensitive_format
tpm2b_context_sensitive-Lawful = tpm2b-Lawful tpm2b_context_sensitive_capacity

-- `Tpm2bContextData`
abbrev pub tpm2b_context_data_capacity : ℕ
tpm2b_context_data_capacity = tpms_context_data_layout.size

abbrev pub tpm2b_context_data : Marshalable Tpm2b
tpm2b_context_data = tpm2b tpm2b_context_data_capacity

abbrev pub tpm2b_context_data_format : Format Tpm2b
tpm2b_context_data_format = tpm2b_format tpm2b_context_data_capacity

pub tpm2b_context_data-Lawful : Lawful tpm2b_context_data tpm2b_context_data_format
tpm2b_context_data-Lawful = tpm2b-Lawful tpm2b_context_data_capacity

-- `Tpm2bCreationData`
abbrev pub tpm2b_creation_data_capacity : ℕ
tpm2b_creation_data_capacity = tpms_creation_data_layout.size

abbrev pub tpm2b_creation_data : Marshalable Tpm2b
tpm2b_creation_data = tpm2b tpm2b_creation_data_capacity

abbrev pub tpm2b_creation_data_format : Format Tpm2b
tpm2b_creation_data_format = tpm2b_format tpm2b_creation_data_capacity

pub tpm2b_creation_data-Lawful : Lawful tpm2b_creation_data tpm2b_creation_data_format
tpm2b_creation_data-Lawful = tpm2b-Lawful tpm2b_creation_data_capacity
