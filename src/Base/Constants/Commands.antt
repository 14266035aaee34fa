-- ===== src/Base/Constants/Commands.antt =====
-- base/src/constants.rs: the command codes, `TpmCc`.
use tpm_rs.Prelude.{ℕ}

-- The declared constants of `TpmCc`.
pub data TpmCc : Type 0 where
  nv_undefine_space_special evict_control hierarchy_control nv_undefine_space change_eps change_pps
        clear clear_control clock_set hierarchy_chaneg_auth nv_define_space pcr_allocate
        pcr_set_auth_policy pp_commands set_primary_policy field_upgrade_start clock_rate_adjust
        create_primary nv_global_write_lock get_command_audit_digest nv_increment nv_set_bits
        nv_extend nv_write nv_write_lock dictionary_attack_lock_reset dictionary_attack_parameters
        nv_change_auth pcr_event pcr_reset sequence_complete set_algorithm_set
        set_command_code_audit_status field_upgrade_data incremental_self_test self_test startup
        shutdown stir_random activate_credential certify policy_nv certify_creation duplicate
        get_time get_session_audit_digest nv_read nv_read_lock object_change_auth policy_secret
        rewrap create ecdhz_gen mac import load quote rsa_decrypt mac_start sequence_update sign
        unseal policy_signed context_load context_save ecdh_key_gen encrypt_decrypt flush_context
        load_external make_credential nv_read_public policy_authorize policy_auth_value
        policy_command_code policy_counter_timer policy_cp_hash policy_locality policy_name_hash
        policy_or policy_ticket read_public rsa_encrypt start_auth_session verify_signature
        ecc_parameters firmware_read get_capability get_random get_test_result hash pcr_read
        policy_pcr policy_restart read_clock pcr_extend pcr_set_auth_value nv_certify
        event_sequence_complete hash_sequence_start policy_physical_presence
        policy_duplication_select policy_get_digest test_params commit policy_password z_gen2_phase
        ec_ephemeral policy_nv_written policy_template create_loaded policy_authorize_nv
        encrypt_decrypt2 ac_get_capability ac_send policy_ac_send_select certify_x509
        act_set_timeout :
      TpmCc

abbrev pub tpm_cc_number : TpmCc → ℕ
tpm_cc_number TpmCc.nv_undefine_space_special = 0x0000011F
tpm_cc_number TpmCc.evict_control = 0x00000120
tpm_cc_number TpmCc.hierarchy_control = 0x00000121
tpm_cc_number TpmCc.nv_undefine_space = 0x00000122
tpm_cc_number TpmCc.change_eps = 0x00000124
tpm_cc_number TpmCc.change_pps = 0x00000125
tpm_cc_number TpmCc.clear = 0x00000126
tpm_cc_number TpmCc.clear_control = 0x00000127
tpm_cc_number TpmCc.clock_set = 0x00000128
tpm_cc_number TpmCc.hierarchy_chaneg_auth = 0x00000129
tpm_cc_number TpmCc.nv_define_space = 0x0000012A
tpm_cc_number TpmCc.pcr_allocate = 0x0000012B
tpm_cc_number TpmCc.pcr_set_auth_policy = 0x0000012C
tpm_cc_number TpmCc.pp_commands = 0x0000012D
tpm_cc_number TpmCc.set_primary_policy = 0x0000012E
tpm_cc_number TpmCc.field_upgrade_start = 0x0000012F
tpm_cc_number TpmCc.clock_rate_adjust = 0x00000130
tpm_cc_number TpmCc.create_primary = 0x00000131
tpm_cc_number TpmCc.nv_global_write_lock = 0x00000132
tpm_cc_number TpmCc.get_command_audit_digest = 0x00000133
tpm_cc_number TpmCc.nv_increment = 0x00000134
tpm_cc_number TpmCc.nv_set_bits = 0x00000135
tpm_cc_number TpmCc.nv_extend = 0x00000136
tpm_cc_number TpmCc.nv_write = 0x00000137
tpm_cc_number TpmCc.nv_write_lock = 0x00000138
tpm_cc_number TpmCc.dictionary_attack_lock_reset = 0x00000139
tpm_cc_number TpmCc.dictionary_attack_parameters = 0x0000013A
tpm_cc_number TpmCc.nv_change_auth = 0x0000013B
tpm_cc_number TpmCc.pcr_event = 0x0000013C
tpm_cc_number TpmCc.pcr_reset = 0x0000013D
tpm_cc_number TpmCc.sequence_complete = 0x0000013E
tpm_cc_number TpmCc.set_algorithm_set = 0x0000013F
tpm_cc_number TpmCc.set_command_code_audit_status = 0x00000140
tpm_cc_number TpmCc.field_upgrade_data = 0x00000141
tpm_cc_number TpmCc.incremental_self_test = 0x00000142
tpm_cc_number TpmCc.self_test = 0x00000143
tpm_cc_number TpmCc.startup = 0x00000144
tpm_cc_number TpmCc.shutdown = 0x00000145
tpm_cc_number TpmCc.stir_random = 0x00000146
tpm_cc_number TpmCc.activate_credential = 0x00000147
tpm_cc_number TpmCc.certify = 0x00000148
tpm_cc_number TpmCc.policy_nv = 0x00000149
tpm_cc_number TpmCc.certify_creation = 0x0000014A
tpm_cc_number TpmCc.duplicate = 0x0000014B
tpm_cc_number TpmCc.get_time = 0x0000014C
tpm_cc_number TpmCc.get_session_audit_digest = 0x0000014D
tpm_cc_number TpmCc.nv_read = 0x0000014E
tpm_cc_number TpmCc.nv_read_lock = 0x0000014F
tpm_cc_number TpmCc.object_change_auth = 0x00000150
tpm_cc_number TpmCc.policy_secret = 0x00000151
tpm_cc_number TpmCc.rewrap = 0x00000152
tpm_cc_number TpmCc.create = 0x00000153
tpm_cc_number TpmCc.ecdhz_gen = 0x00000154
tpm_cc_number TpmCc.mac = 0x00000155
tpm_cc_number TpmCc.import = 0x00000156
tpm_cc_number TpmCc.load = 0x00000157
tpm_cc_number TpmCc.quote = 0x00000158
tpm_cc_number TpmCc.rsa_decrypt = 0x00000159
tpm_cc_number TpmCc.mac_start = 0x0000015B
tpm_cc_number TpmCc.sequence_update = 0x0000015C
tpm_cc_number TpmCc.sign = 0x0000015D
tpm_cc_number TpmCc.unseal = 0x0000015E
tpm_cc_number TpmCc.policy_signed = 0x00000160
tpm_cc_number TpmCc.context_load = 0x00000161
tpm_cc_number TpmCc.context_save = 0x00000162
tpm_cc_number TpmCc.ecdh_key_gen = 0x00000163
tpm_cc_number TpmCc.encrypt_decrypt = 0x00000164
tpm_cc_number TpmCc.flush_context = 0x00000165
tpm_cc_number TpmCc.load_external = 0x00000167
tpm_cc_number TpmCc.make_credential = 0x00000168
tpm_cc_number TpmCc.nv_read_public = 0x00000169
tpm_cc_number TpmCc.policy_authorize = 0x0000016A
tpm_cc_number TpmCc.policy_auth_value = 0x0000016B
tpm_cc_number TpmCc.policy_command_code = 0x0000016C
tpm_cc_number TpmCc.policy_counter_timer = 0x0000016D
tpm_cc_number TpmCc.policy_cp_hash = 0x0000016E
tpm_cc_number TpmCc.policy_locality = 0x0000016F
tpm_cc_number TpmCc.policy_name_hash = 0x00000170
tpm_cc_number TpmCc.policy_or = 0x00000171
tpm_cc_number TpmCc.policy_ticket = 0x00000172
tpm_cc_number TpmCc.read_public = 0x00000173
tpm_cc_number TpmCc.rsa_encrypt = 0x00000174
tpm_cc_number TpmCc.start_auth_session = 0x00000176
tpm_cc_number TpmCc.verify_signature = 0x00000177
tpm_cc_number TpmCc.ecc_parameters = 0x00000178
tpm_cc_number TpmCc.firmware_read = 0x00000179
tpm_cc_number TpmCc.get_capability = 0x0000017A
tpm_cc_number TpmCc.get_random = 0x0000017B
tpm_cc_number TpmCc.get_test_result = 0x0000017C
tpm_cc_number TpmCc.hash = 0x0000017D
tpm_cc_number TpmCc.pcr_read = 0x0000017E
tpm_cc_number TpmCc.policy_pcr = 0x0000017F
tpm_cc_number TpmCc.policy_restart = 0x00000180
tpm_cc_number TpmCc.read_clock = 0x00000181
tpm_cc_number TpmCc.pcr_extend = 0x00000182
tpm_cc_number TpmCc.pcr_set_auth_value = 0x00000183
tpm_cc_number TpmCc.nv_certify = 0x00000184
tpm_cc_number TpmCc.event_sequence_complete = 0x00000185
tpm_cc_number TpmCc.hash_sequence_start = 0x00000186
tpm_cc_number TpmCc.policy_physical_presence = 0x00000187
tpm_cc_number TpmCc.policy_duplication_select = 0x00000188
tpm_cc_number TpmCc.policy_get_digest = 0x00000189
tpm_cc_number TpmCc.test_params = 0x0000018A
tpm_cc_number TpmCc.commit = 0x0000018B
tpm_cc_number TpmCc.policy_password = 0x0000018C
tpm_cc_number TpmCc.z_gen2_phase = 0x0000018D
tpm_cc_number TpmCc.ec_ephemeral = 0x0000018E
tpm_cc_number TpmCc.policy_nv_written = 0x0000018F
tpm_cc_number TpmCc.policy_template = 0x00000190
tpm_cc_number TpmCc.create_loaded = 0x00000191
tpm_cc_number TpmCc.policy_authorize_nv = 0x00000192
tpm_cc_number TpmCc.encrypt_decrypt2 = 0x00000193
tpm_cc_number TpmCc.ac_get_capability = 0x00000194
tpm_cc_number TpmCc.ac_send = 0x00000195
tpm_cc_number TpmCc.policy_ac_send_select = 0x00000196
tpm_cc_number TpmCc.certify_x509 = 0x00000197
tpm_cc_number TpmCc.act_set_timeout = 0x00000198
