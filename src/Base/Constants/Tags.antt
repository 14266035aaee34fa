-- ===== src/Base/Constants/Tags.antt =====
-- base/src/constants.rs: structure tags, handle types and the other small enumerations.
use tpm_rs.Prelude.{ℕ}

-- The declared constants of `TpmEo`.
pub data TpmEo : Type 0 where
  eq neq signed_gt unsigned_gt signed_lt unsigned_lt signed_ge unsigned_ge signed_le unsigned_le
        bit_set bit_clear :
      TpmEo

abbrev pub tpm_eo_number : TpmEo → ℕ
tpm_eo_number TpmEo.eq = 0x0000
tpm_eo_number TpmEo.neq = 0x0001
tpm_eo_number TpmEo.signed_gt = 0x0002
tpm_eo_number TpmEo.unsigned_gt = 0x0003
tpm_eo_number TpmEo.signed_lt = 0x0004
tpm_eo_number TpmEo.unsigned_lt = 0x0005
tpm_eo_number TpmEo.signed_ge = 0x0006
tpm_eo_number TpmEo.unsigned_ge = 0x0007
tpm_eo_number TpmEo.signed_le = 0x0008
tpm_eo_number TpmEo.unsigned_le = 0x0009
tpm_eo_number TpmEo.bit_set = 0x000A
tpm_eo_number TpmEo.bit_clear = 0x000B

-- The declared constants of `TpmSt`.
pub data TpmSt : Type 0 where
  rsp_command null no_sessions sessions attest_nv attest_command_audit attest_session_audit
        attest_certify attest_quote attest_time attest_creation attest_nv_digest creation verified
        auth_secret hash_check auth_signed fu_manifest :
      TpmSt

abbrev pub tpm_st_number : TpmSt → ℕ
tpm_st_number TpmSt.rsp_command = 0x00C4
tpm_st_number TpmSt.null = 0x8000
tpm_st_number TpmSt.no_sessions = 0x8001
tpm_st_number TpmSt.sessions = 0x8002
tpm_st_number TpmSt.attest_nv = 0x8014
tpm_st_number TpmSt.attest_command_audit = 0x8015
tpm_st_number TpmSt.attest_session_audit = 0x8016
tpm_st_number TpmSt.attest_certify = 0x8017
tpm_st_number TpmSt.attest_quote = 0x8018
tpm_st_number TpmSt.attest_time = 0x8019
tpm_st_number TpmSt.attest_creation = 0x801A
tpm_st_number TpmSt.attest_nv_digest = 0x801C
tpm_st_number TpmSt.creation = 0x8021
tpm_st_number TpmSt.verified = 0x8022
tpm_st_number TpmSt.auth_secret = 0x8023
tpm_st_number TpmSt.hash_check = 0x8024
tpm_st_number TpmSt.auth_signed = 0x8025
tpm_st_number TpmSt.fu_manifest = 0x8029

-- The declared constants of `TpmSu`.
pub data TpmSu : Type 0 where
  clear state : TpmSu

abbrev pub tpm_su_number : TpmSu → ℕ
tpm_su_number TpmSu.clear = 0x0000
tpm_su_number TpmSu.state = 0x0001

-- The declared constants of `TpmSe`.
pub data TpmSe : Type 0 where
  hmac policy trial : TpmSe

abbrev pub tpm_se_number : TpmSe → ℕ
tpm_se_number TpmSe.hmac = 0x00
tpm_se_number TpmSe.policy = 0x01
tpm_se_number TpmSe.trial = 0x03

-- The declared constants of `TpmCap`.
pub data TpmCap : Type 0 where
  algs handles commands pp_commands audit_commands pc_rs tpm_properties pcr_properties ecc_curves
        auth_policies act :
      TpmCap

abbrev pub tpm_cap_number : TpmCap → ℕ
tpm_cap_number TpmCap.algs = 0x00000000
tpm_cap_number TpmCap.handles = 0x00000001
tpm_cap_number TpmCap.commands = 0x00000002
tpm_cap_number TpmCap.pp_commands = 0x00000003
tpm_cap_number TpmCap.audit_commands = 0x00000004
tpm_cap_number TpmCap.pc_rs = 0x00000005
tpm_cap_number TpmCap.tpm_properties = 0x00000006
tpm_cap_number TpmCap.pcr_properties = 0x00000007
tpm_cap_number TpmCap.ecc_curves = 0x00000008
tpm_cap_number TpmCap.auth_policies = 0x00000009
tpm_cap_number TpmCap.act = 0x0000000A

-- The declared constants of `TpmHt`.
pub data TpmHt : Type 0 where
  pcr nv_index hmac_session policy_session permanent transient persistent ac : TpmHt

abbrev pub tpm_ht_number : TpmHt → ℕ
tpm_ht_number TpmHt.pcr = 0x00
tpm_ht_number TpmHt.nv_index = 0x01
tpm_ht_number TpmHt.hmac_session = 0x02
tpm_ht_number TpmHt.policy_session = 0x03
tpm_ht_number TpmHt.permanent = 0x40
tpm_ht_number TpmHt.transient = 0x80
tpm_ht_number TpmHt.persistent = 0x81
tpm_ht_number TpmHt.ac = 0x90

-- The declared constants of `TpmHandle`.
pub data TpmHandle : Type 0 where
  rh_owner rh_null rh_unassigned rspw rh_lockout rh_endorsement rh_platform rh_platform_nv :
      TpmHandle

abbrev pub tpm_handle_number : TpmHandle → ℕ
tpm_handle_number TpmHandle.rh_owner = 0x40000001
tpm_handle_number TpmHandle.rh_null = 0x40000007
tpm_handle_number TpmHandle.rh_unassigned = 0x40000008
tpm_handle_number TpmHandle.rspw = 0x40000009
tpm_handle_number TpmHandle.rh_lockout = 0x4000000A
tpm_handle_number TpmHandle.rh_endorsement = 0x4000000B
tpm_handle_number TpmHandle.rh_platform = 0x4000000C
tpm_handle_number TpmHandle.rh_platform_nv = 0x4000000D

-- The declared constants of `TpmNt`.
pub data TpmNt : Type 0 where
  ordinary counter bits extend pin_fail pin_pass : TpmNt

abbrev pub tpm_nt_number : TpmNt → ℕ
tpm_nt_number TpmNt.ordinary = 0x0
tpm_nt_number TpmNt.counter = 0x1
tpm_nt_number TpmNt.bits = 0x2
tpm_nt_number TpmNt.extend = 0x4
tpm_nt_number TpmNt.pin_fail = 0x8
tpm_nt_number TpmNt.pin_pass = 0x9

-- The declared constants of `TpmGenerated`.
pub data TpmGenerated : Type 0 where
  value : TpmGenerated

abbrev pub tpm_generated_number : TpmGenerated → ℕ
tpm_generated_number TpmGenerated.value = 0xFF544347
