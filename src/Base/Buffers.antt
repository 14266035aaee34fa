-- ===== src/Base/Buffers.antt =====
-- base/src/lib.rs: the sized buffers and their capacities, up to `Tpm2bSensitiveCreate`.
use tpm_rs.Base.Limits.{
  tpm2_max_digest_buffer, tpm2_max_nv_buffer_size, tpm2_label_max_buffer, tpm2_max_sym_block_size,
  tpm2_max_sym_key_bytes,
}
use tpm_rs.Base.Sizes.{
  tpmt_ha_union_size, tpmu_name_union_size, tpms_attest_layout, tpmu_sensitive_create_union_size,
  tpms_sensitive_create_layout,
}
use tpm_rs.Marshal.Core.{Marshalable}
use tpm_rs.Marshal.Lawful.{Format, Lawful}
use tpm_rs.Prelude.{ℕ}
use tpm_rs.Tpm2b.Simple.{Tpm2b, tpm2b}
use tpm_rs.Tpm2b.SimpleLaws.{tpm2b_format, tpm2b-Lawful}

-- `Tpm2bDigest`
abbrev pub tpm2b_digest_capacity : ℕ
tpm2b_digest_capacity = tpmt_ha_union_size

abbrev pub tpm2b_digest : Marshalable Tpm2b
tpm2b_digest = tpm2b tpm2b_digest_capacity

abbrev pub tpm2b_digest_format : Format Tpm2b
tpm2b_digest_format = tpm2b_format tpm2b_digest_capacity

pub tpm2b_digest-Lawful : Lawful tpm2b_digest tpm2b_digest_format
tpm2b_digest-Lawful = tpm2b-Lawful tpm2b_digest_capacity

-- `Tpm2bData`
abbrev pub tpm2b_data_capacity : ℕ
tpm2b_data_capacity = tpmt_ha_union_size

abbrev pub tpm2b_data : Marshalable Tpm2b
tpm2b_data = tpm2b tpm2b_data_capacity

abbrev pub tpm2b_data_format : Format Tpm2b
tpm2b_data_format = tpm2b_format tpm2b_data_capacity

pub tpm2b_data-Lawful : Lawful tpm2b_data tpm2b_data_format
tpm2b_data-Lawful = tpm2b-Lawful tpm2b_data_capacity

-- `Tpm2bEvent`
abbrev pub tpm2b_event_capacity : ℕ
tpm2b_event_capacity = 1024

abbrev pub tpm2b_event : Marshalable Tpm2b
tpm2b_event = tpm2b tpm2b_event_capacity

abbrev pub tpm2b_event_format : Format Tpm2b
tpm2b_event_format = tpm2b_format tpm2b_event_capacity

pub tpm2b_event-Lawful : Lawful tpm2b_event tpm2b_event_format
tpm2b_event-Lawful = tpm2b-Lawful tpm2b_event_capacity

-- `Tpm2bMaxBuffer`
abbrev pub tpm2b_max_buffer_capacity : ℕ
tpm2b_max_buffer_capacity = tpm2_max_digest_buffer

abbrev pub tpm2b_max_buffer : Marshalable Tpm2b
tpm2b_max_buffer = tpm2b tpm2b_max_buffer_capacity

abbrev pub tpm2b_max_buffer_format : Format Tpm2b
tpm2b_max_buffer_format = tpm2b_format tpm2b_max_buffer_capacity

pub tpm2b_max_buffer-Lawful : Lawful tpm2b_max_buffer tpm2b_max_buffer_format
tpm2b_max_buffer-Lawful = tpm2b-Lawful tpm2b_max_buffer_capacity

-- `Tpm2bMaxNvBuffer`
abbrev pub tpm2b_max_nv_buffer_capacity : ℕ
tpm2b_max_nv_buffer_capacity = tpm2_max_nv_buffer_size

abbrev pub tpm2b_max_nv_buffer : Marshalable Tpm2b
tpm2b_max_nv_buffer = tpm2b tpm2b_max_nv_buffer_capacity

abbrev pub tpm2b_max_nv_buffer_format : Format Tpm2b
tpm2b_max_nv_buffer_format = tpm2b_format tpm2b_max_nv_buffer_capacity

pub tpm2b_max_nv_buffer-Lawful : Lawful tpm2b_max_nv_buffer tpm2b_max_nv_buffer_format
tpm2b_max_nv_buffer-Lawful = tpm2b-Lawful tpm2b_max_nv_buffer_capacity

-- `Tpm2bIv`
abbrev pub tpm2b_iv_capacity : ℕ
tpm2b_iv_capacity = tpm2_max_sym_block_size

abbrev pub tpm2b_iv : Marshalable Tpm2b
tpm2b_iv = tpm2b tpm2b_iv_capacity

abbrev pub tpm2b_iv_format : Format Tpm2b
tpm2b_iv_format = tpm2b_format tpm2b_iv_capacity

pub tpm2b_iv-Lawful : Lawful tpm2b_iv tpm2b_iv_format
tpm2b_iv-Lawful = tpm2b-Lawful tpm2b_iv_capacity

-- `Tpm2bName`
abbrev pub tpm2b_name_capacity : ℕ
tpm2b_name_capacity = tpmu_name_union_size

abbrev pub tpm2b_name : Marshalable Tpm2b
tpm2b_name = tpm2b tpm2b_name_capacity

abbrev pub tpm2b_name_format : Format Tpm2b
tpm2b_name_format = tpm2b_format tpm2b_name_capacity

pub tpm2b_name-Lawful : Lawful tpm2b_name tpm2b_name_format
tpm2b_name-Lawful = tpm2b-Lawful tpm2b_name_capacity

-- `Tpm2bAttest`
abbrev pub tpm2b_attest_capacity : ℕ
tpm2b_attest_capacity = tpms_attest_layout.size

abbrev pub tpm2b_attest : Marshalable Tpm2b
tpm2b_attest = tpm2b tpm2b_attest_capacity

abbrev pub tpm2b_attest_format : Format Tpm2b
tpm2b_attest_format = tpm2b_format tpm2b_attest_capacity

pub tpm2b_attest-Lawful : Lawful tpm2b_attest tpm2b_attest_format
tpm2b_attest-Lawful = tpm2b-Lawful tpm2b_attest_capacity

-- `Tpm2bSymKey`
abbrev pub tpm2b_sym_key_capacity : ℕ
tpm2b_sym_key_capacity = tpm2_max_sym_key_bytes

abbrev pub tpm2b_sym_key : Marshalable Tpm2b
tpm2b_sym_key = tpm2b tpm2b_sym_key_capacity

abbrev pub tpm2b_sym_key_format : Format Tpm2b
tpm2b_sym_key_format = tpm2b_format tpm2b_sym_key_capacity

pub tpm2b_sym_key-Lawful : Lawful tpm2b_sym_key tpm2b_sym_key_format
tpm2b_sym_key-Lawful = tpm2b-Lawful tpm2b_sym_key_capacity

-- `Tpm2bLabel`
abbrev pub tpm2b_label_capacity : ℕ
tpm2b_label_capacity = tpm2_label_max_buffer

abbrev pub tpm2b_label : Marshalable Tpm2b
tpm2b_label = tpm2b tpm2b_label_capacity

abbrev pub tpm2b_label_format : Format Tpm2b
tpm2b_label_format = tpm2b_format tpm2b_label_capacity

pub tpm2b_label-Lawful : Lawful tpm2b_label tpm2b_label_format
tpm2b_label-Lawful = tpm2b-Lawful tpm2b_label_capacity

-- `Tpm2bSensitiveData`
abbrev pub tpm2b_sensitive_data_capacity : ℕ
tpm2b_sensitive_data_capacity = tpmu_sensitive_create_union_size

abbrev pub tpm2b_sensitive_data : Marshalable Tpm2b
tpm2b_sensitive_data = tpm2b tpm2b_sensitive_data_capacity

abbrev pub tpm2b_sensitive_data_format : Format Tpm2b
tpm2b_sensitive_data_format = tpm2b_format tpm2b_sensitive_data_capacity

pub tpm2b_sensitive_data-Lawful : Lawful tpm2b_sensitive_data tpm2b_sensitive_data_format
tpm2b_sensitive_data-Lawful = tpm2b-Lawful tpm2b_sensitive_data_capacity

-- `Tpm2bSensitiveCreate`
abbrev pub tpm2b_sensitive_create_capacity : ℕ
tpm2b_sensitive_create_capacity = tpms_sensitive_create_layout.size

abbrev pub tpm2b_sensitive_create : Marshalable Tpm2b
tpm2b_sensitive_create = tpm2b tpm2b_sensitive_create_capacity

abbrev pub tpm2b_sensitive_create_format : Format Tpm2b
tpm2b_sensitive_create_format = tpm2b_format tpm2b_sensitive_create_capacity

pub tpm2b_sensitive_create-Lawful : Lawful tpm2b_sensitive_create tpm2b_sensitive_create_format
tpm2b_sensitive_create-Lawful = tpm2b-Lawful tpm2b_sensitive_create_capacity
