-- ===== src/Base/Constants/Properties.antt =====
-- base/src/constants.rs: the property tags, `TpmPt` and `TpmPtPcr`.
use tpm_rs.Prelude.{ℕ}

-- The declared constants of `TpmPt`.
pub data TpmPt : Type 0 where
  family_indicator level revision dayof_year year manufacturer vendor_string1 vendor_string2
        vendor_string3 vendor_string4 vendor_tpm_type firmware_version1 firmware_version2
        input_buffer hr_transient_min hr_persistent_min hr_loaded_min active_sessions_max pcr_count
        pcr_select_min context_gap_max nv_counters_max nv_index_max memory clock_update context_hash
        context_sym context_sym_size orderly_count max_command_size max_response_size max_digest
        max_object_context max_session_context ps_family_indicator ps_level ps_revision
        ps_day_of_year ps_year split_max total_commands library_commands vendor_commands
        nv_buffer_max modes max_cap_buffer permanent startup_clear hrnv_index hr_loaded
        hr_loaded_avail hr_active hr_active_avail hr_transient_avail hr_persistent
        hr_persistent_avail nv_counters nv_counters_avail algorithm_set loaded_curves
        lockout_counter max_auth_fail lockout_interval lockout_recovery nv_write_recovery
        audit_counter0 audit_counter1 :
      TpmPt

abbrev pub tpm_pt_number : TpmPt → ℕ
tpm_pt_number TpmPt.family_indicator = 0x00000100
tpm_pt_number TpmPt.level = 0x00000101
tpm_pt_number TpmPt.revision = 0x00000102
tpm_pt_number TpmPt.dayof_year = 0x00000103
tpm_pt_number TpmPt.year = 0x00000104
tpm_pt_number TpmPt.manufacturer = 0x00000105
tpm_pt_number TpmPt.vendor_string1 = 0x00000106
tpm_pt_number TpmPt.vendor_string2 = 0x00000107
tpm_pt_number TpmPt.vendor_string3 = 0x00000108
tpm_pt_number TpmPt.vendor_string4 = 0x00000109
tpm_pt_number TpmPt.vendor_tpm_type = 0x0000010A
tpm_pt_number TpmPt.firmware_version1 = 0x0000010B
tpm_pt_number TpmPt.firmware_version2 = 0x0000010C
tpm_pt_number TpmPt.input_buffer = 0x0000010D
tpm_pt_number TpmPt.hr_transient_min = 0x0000010E
tpm_pt_number TpmPt.hr_persistent_min = 0x0000010F
tpm_pt_number TpmPt.hr_loaded_min = 0x00000110
tpm_pt_number TpmPt.active_sessions_max = 0x00000111
tpm_pt_number TpmPt.pcr_count = 0x00000112
tpm_pt_number TpmPt.pcr_select_min = 0x00000113
tpm_pt_number TpmPt.context_gap_max = 0x00000114
tpm_pt_number TpmPt.nv_counters_max = 0x00000116
tpm_pt_number TpmPt.nv_index_max = 0x00000117
tpm_pt_number TpmPt.memory = 0x00000118
tpm_pt_number TpmPt.clock_update = 0x00000119
tpm_pt_number TpmPt.context_hash = 0x0000011A
tpm_pt_number TpmPt.context_sym = 0x0000011B
tpm_pt_number TpmPt.context_sym_size = 0x0000011C
tpm_pt_number TpmPt.orderly_count = 0x0000011D
tpm_pt_number TpmPt.max_command_size = 0x0000011E
tpm_pt_number TpmPt.max_response_size = 0x0000011F
tpm_pt_number TpmPt.max_digest = 0x00000120
tpm_pt_number TpmPt.max_object_context = 0x00000121
tpm_pt_number TpmPt.max_session_context = 0x00000122
tpm_pt_number TpmPt.ps_family_indicator = 0x00000123
tpm_pt_number TpmPt.ps_level = 0x00000124
tpm_pt_number TpmPt.ps_revision = 0x00000125
tpm_pt_number TpmPt.ps_day_of_year = 0x00000126
tpm_pt_number TpmPt.ps_year = 0x00000127
tpm_pt_number TpmPt.split_max = 0x00000128
tpm_pt_number TpmPt.total_commands = 0x00000129
tpm_pt_number TpmPt.library_commands = 0x0000012A
tpm_pt_number TpmPt.vendor_commands = 0x0000012B
tpm_pt_number TpmPt.nv_buffer_max = 0x0000012C
tpm_pt_number TpmPt.modes = 0x0000012D
tpm_pt_number TpmPt.max_cap_buffer = 0x0000012E
tpm_pt_number TpmPt.permanent = 0x00000200
tpm_pt_number TpmPt.startup_clear = 0x00000201
tpm_pt_number TpmPt.hrnv_index = 0x00000202
tpm_pt_number TpmPt.hr_loaded = 0x00000203
tpm_pt_number TpmPt.hr_loaded_avail = 0x00000204
tpm_pt_number TpmPt.hr_active = 0x00000205
tpm_pt_number TpmPt.hr_active_avail = 0x00000206
tpm_pt_number TpmPt.hr_transient_avail = 0x00000207
tpm_pt_number TpmPt.hr_persistent = 0x00000208
tpm_pt_number TpmPt.hr_persistent_avail = 0x00000209
tpm_pt_number TpmPt.nv_counters = 0x0000020A
tpm_pt_number TpmPt.nv_counters_avail = 0x0000020B
tpm_pt_number TpmPt.algorithm_set = 0x0000020C
tpm_pt_number TpmPt.loaded_curves = 0x0000020D
tpm_pt_number TpmPt.lockout_counter = 0x0000020E
tpm_pt_number TpmPt.max_auth_fail = 0x0000020F
tpm_pt_number TpmPt.lockout_interval = 0x00000210
tpm_pt_number TpmPt.lockout_recovery = 0x00000211
tpm_pt_number TpmPt.nv_write_recovery = 0x00000212
tpm_pt_number TpmPt.audit_counter0 = 0x00000213
tpm_pt_number TpmPt.audit_counter1 = 0x00000214

-- The declared constants of `TpmPtPcr`.
pub data TpmPtPcr : Type 0 where
  save extend_l0 reset_l0 extend_l1 reset_l1 extend_l2 reset_l2 extend_l3 reset_l3 extend_l4
        reset_l4 no_increment drtm_rest policy auth :
      TpmPtPcr

abbrev pub tpm_pt_pcr_number : TpmPtPcr → ℕ
tpm_pt_pcr_number TpmPtPcr.save = 0x00000000
tpm_pt_pcr_number TpmPtPcr.extend_l0 = 0x00000001
tpm_pt_pcr_number TpmPtPcr.reset_l0 = 0x00000002
tpm_pt_pcr_number TpmPtPcr.extend_l1 = 0x00000003
tpm_pt_pcr_number TpmPtPcr.reset_l1 = 0x00000004
tpm_pt_pcr_number TpmPtPcr.extend_l2 = 0x00000005
tpm_pt_pcr_number TpmPtPcr.reset_l2 = 0x00000006
tpm_pt_pcr_number TpmPtPcr.extend_l3 = 0x00000007
tpm_pt_pcr_number TpmPtPcr.reset_l3 = 0x00000008
tpm_pt_pcr_number TpmPtPcr.extend_l4 = 0x00000009
tpm_pt_pcr_number TpmPtPcr.reset_l4 = 0x0000000A
tpm_pt_pcr_number TpmPtPcr.no_increment = 0x00000011
tpm_pt_pcr_number TpmPtPcr.drtm_rest = 0x00000012
tpm_pt_pcr_number TpmPtPcr.policy = 0x00000013
tpm_pt_pcr_number TpmPtPcr.auth = 0x00000014
