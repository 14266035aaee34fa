-- ===== src/Base/Constants/Responses.antt =====
-- base/src/constants.rs: the response codes, `TpmRc`.
use tpm_rs.Prelude.{ℕ, ◌+◌}

abbrev pub rc_ver_1 : ℕ
rc_ver_1 = 0x100

abbrev pub rc_fmt_1 : ℕ
rc_fmt_1 = 0x80

abbrev pub rc_warn : ℕ
rc_warn = 0x900

-- The declared constants of `TpmRc`.
pub data TpmRc : Type 0 where
  success initialize failure sequence private hmac disabled exclusive auth_type auth_missing policy
        pcr pcr_changed upgrade too_many_contexts auth_unavailable reboot unbalanced command_size
        command_code auth_size auth_context nv_range nv_size nv_locked nv_authorization
        nv_uninitialized nv_space nv_defined bad_context cp_hash parent needs_test no_result
        sensitive c_asymmetric attributes hash value hierarchy key_size mgf mode type handle kdf
        range auth_fail nonce pp scheme size symmetric tag selector insufficient signature key
        policy_fail integrity ticket reserved_bits bad_auth expired policy_cc binding curve
        ecc_point context_gap object_memory session_memory memory session_handles object_handles
        locality yielded canceled testing reference_h0 reference_h1 reference_h2 reference_h3
        reference_h4 reference_h5 reference_h6 reference_s0 reference_s1 reference_s2 reference_s3
        reference_s4 reference_s5 reference_s6 nv_rate lockout retry nv_unavailable :
      TpmRc

abbrev pub tpm_rc_number : TpmRc → ℕ
tpm_rc_number TpmRc.success = 0x00000000
tpm_rc_number TpmRc.initialize = rc_ver_1
tpm_rc_number TpmRc.failure = rc_ver_1 + 0x001
tpm_rc_number TpmRc.sequence = rc_ver_1 + 0x003
tpm_rc_number TpmRc.private = rc_ver_1 + 0x00B
tpm_rc_number TpmRc.hmac = rc_ver_1 + 0x019
tpm_rc_number TpmRc.disabled = rc_ver_1 + 0x020
tpm_rc_number TpmRc.exclusive = rc_ver_1 + 0x021
tpm_rc_number TpmRc.auth_type = rc_ver_1 + 0x024
tpm_rc_number TpmRc.auth_missing = rc_ver_1 + 0x025
tpm_rc_number TpmRc.policy = rc_ver_1 + 0x026
tpm_rc_number TpmRc.pcr = rc_ver_1 + 0x027
tpm_rc_number TpmRc.pcr_changed = rc_ver_1 + 0x028
tpm_rc_number TpmRc.upgrade = rc_ver_1 + 0x02D
tpm_rc_number TpmRc.too_many_contexts = rc_ver_1 + 0x02E
tpm_rc_number TpmRc.auth_unavailable = rc_ver_1 + 0x02F
tpm_rc_number TpmRc.reboot = rc_ver_1 + 0x030
tpm_rc_number TpmRc.unbalanced = rc_ver_1 + 0x031
tpm_rc_number TpmRc.command_size = rc_ver_1 + 0x042
tpm_rc_number TpmRc.command_code = rc_ver_1 + 0x043
tpm_rc_number TpmRc.auth_size = rc_ver_1 + 0x044
tpm_rc_number TpmRc.auth_context = rc_ver_1 + 0x045
tpm_rc_number TpmRc.nv_range = rc_ver_1 + 0x046
tpm_rc_number TpmRc.nv_size = rc_ver_1 + 0x047
tpm_rc_number TpmRc.nv_locked = rc_ver_1 + 0x048
tpm_rc_number TpmRc.nv_authorization = rc_ver_1 + 0x049
tpm_rc_number TpmRc.nv_uninitialized = rc_ver_1 + 0x04A
tpm_rc_number TpmRc.nv_space = rc_ver_1 + 0x04B
tpm_rc_number TpmRc.nv_defined = rc_ver_1 + 0x04C
tpm_rc_number TpmRc.bad_context = rc_ver_1 + 0x050
tpm_rc_number TpmRc.cp_hash = rc_ver_1 + 0x051
tpm_rc_number TpmRc.parent = rc_ver_1 + 0x052
tpm_rc_number TpmRc.needs_test = rc_ver_1 + 0x053
tpm_rc_number TpmRc.no_result = rc_ver_1 + 0x054
tpm_rc_number TpmRc.sensitive = rc_ver_1 + 0x055
tpm_rc_number TpmRc.c_asymmetric = rc_fmt_1 + 0x001
tpm_rc_number TpmRc.attributes = rc_fmt_1 + 0x002
tpm_rc_number TpmRc.hash = rc_fmt_1 + 0x003
tpm_rc_number TpmRc.value = rc_fmt_1 + 0x004
tpm_rc_number TpmRc.hierarchy = rc_fmt_1 + 0x005
tpm_rc_number TpmRc.key_size = rc_fmt_1 + 0x007
tpm_rc_number TpmRc.mgf = rc_fmt_1 + 0x008
tpm_rc_number TpmRc.mode = rc_fmt_1 + 0x009
tpm_rc_number TpmRc.type = rc_fmt_1 + 0x00A
tpm_rc_number TpmRc.handle = rc_fmt_1 + 0x00B
tpm_rc_number TpmRc.kdf = rc_fmt_1 + 0x00C
tpm_rc_number TpmRc.range = rc_fmt_1 + 0x00D
tpm_rc_number TpmRc.auth_fail = rc_fmt_1 + 0x00E
tpm_rc_number TpmRc.nonce = rc_fmt_1 + 0x00F
tpm_rc_number TpmRc.pp = rc_fmt_1 + 0x010
tpm_rc_number TpmRc.scheme = rc_fmt_1 + 0x012
tpm_rc_number TpmRc.size = rc_fmt_1 + 0x015
tpm_rc_number TpmRc.symmetric = rc_fmt_1 + 0x016
tpm_rc_number TpmRc.tag = rc_fmt_1 + 0x017
tpm_rc_number TpmRc.selector = rc_fmt_1 + 0x018
tpm_rc_number TpmRc.insufficient = rc_fmt_1 + 0x01A
tpm_rc_number TpmRc.signature = rc_fmt_1 + 0x01B
tpm_rc_number TpmRc.key = rc_fmt_1 + 0x01C
tpm_rc_number TpmRc.policy_fail = rc_fmt_1 + 0x01D
tpm_rc_number TpmRc.integrity = rc_fmt_1 + 0x01F
tpm_rc_number TpmRc.ticket = rc_fmt_1 + 0x020
tpm_rc_number TpmRc.reserved_bits = rc_fmt_1 + 0x021
tpm_rc_number TpmRc.bad_auth = rc_fmt_1 + 0x022
tpm_rc_number TpmRc.expired = rc_fmt_1 + 0x023
tpm_rc_number TpmRc.policy_cc = rc_fmt_1 + 0x024
tpm_rc_number TpmRc.binding = rc_fmt_1 + 0x025
tpm_rc_number TpmRc.curve = rc_fmt_1 + 0x026
tpm_rc_number TpmRc.ecc_point = rc_fmt_1 + 0x027
tpm_rc_number TpmRc.context_gap = rc_warn + 0x001
tpm_rc_number TpmRc.object_memory = rc_warn + 0x002
tpm_rc_number TpmRc.session_memory = rc_warn + 0x003
tpm_rc_number TpmRc.memory = rc_warn + 0x004
tpm_rc_number TpmRc.session_handles = rc_warn + 0x005
tpm_rc_number TpmRc.object_handles = rc_warn + 0x006
tpm_rc_number TpmRc.locality = rc_warn + 0x007
tpm_rc_number TpmRc.yielded = rc_warn + 0x008
tpm_rc_number TpmRc.canceled = rc_warn + 0x009
tpm_rc_number TpmRc.testing = rc_warn + 0x00A
tpm_rc_number TpmRc.reference_h0 = rc_warn + 0x010
tpm_rc_number TpmRc.reference_h1 = rc_warn + 0x011
tpm_rc_number TpmRc.reference_h2 = rc_warn + 0x012
tpm_rc_number TpmRc.reference_h3 = rc_warn + 0x013
tpm_rc_number TpmRc.reference_h4 = rc_warn + 0x014
tpm_rc_number TpmRc.reference_h5 = rc_warn + 0x015
tpm_rc_number TpmRc.reference_h6 = rc_warn + 0x016
tpm_rc_number TpmRc.reference_s0 = rc_warn + 0x018
tpm_rc_number TpmRc.reference_s1 = rc_warn + 0x019
tpm_rc_number TpmRc.reference_s2 = rc_warn + 0x01A
tpm_rc_number TpmRc.reference_s3 = rc_warn + 0x01B
tpm_rc_number TpmRc.reference_s4 = rc_warn + 0x01C
tpm_rc_number TpmRc.reference_s5 = rc_warn + 0x01D
tpm_rc_number TpmRc.reference_s6 = rc_warn + 0x01E
tpm_rc_number TpmRc.nv_rate = rc_warn + 0x020
tpm_rc_number TpmRc.lockout = rc_warn + 0x021
tpm_rc_number TpmRc.retry = rc_warn + 0x022
tpm_rc_number TpmRc.nv_unavailable = rc_warn + 0x023
