-- ===== src/Base/Constants/Interface.antt =====
-- base/src/lib.rs: the constants of the interface types, which are subsets of the enumerations above.
use tpm_rs.Base.Constants.Algorithms.{TpmAlgId, tpm_alg_id_number}
use tpm_rs.Base.Constants.Tags.{TpmSt, tpm_st_number, TpmHandle, tpm_handle_number}
use tpm_rs.Prelude.{ℕ}

-- The declared constants of `TpmiAlgHash`.
pub data TpmiAlgHash : Type 0 where
  sha1 sha256 sha384 sha512 sm3256 sha3256 sha3384 sha3512 : TpmiAlgHash

abbrev pub tpmi_alg_hash_number : TpmiAlgHash → ℕ
tpmi_alg_hash_number TpmiAlgHash.sha1 = tpm_alg_id_number TpmAlgId.sha1
tpmi_alg_hash_number TpmiAlgHash.sha256 = tpm_alg_id_number TpmAlgId.sha256
tpmi_alg_hash_number TpmiAlgHash.sha384 = tpm_alg_id_number TpmAlgId.sha384
tpmi_alg_hash_number TpmiAlgHash.sha512 = tpm_alg_id_number TpmAlgId.sha512
tpmi_alg_hash_number TpmiAlgHash.sm3256 = tpm_alg_id_number TpmAlgId.sm3256
tpmi_alg_hash_number TpmiAlgHash.sha3256 = tpm_alg_id_number TpmAlgId.sha3256
tpmi_alg_hash_number TpmiAlgHash.sha3384 = tpm_alg_id_number TpmAlgId.sha3384
tpmi_alg_hash_number TpmiAlgHash.sha3512 = tpm_alg_id_number TpmAlgId.sha3512

-- The declared constants of `TpmiAlgKdf`.
pub data TpmiAlgKdf : Type 0 where
  mgf1 kdf1_sp80056_a kdf2 kdf1_sp800108 : TpmiAlgKdf

abbrev pub tpmi_alg_kdf_number : TpmiAlgKdf → ℕ
tpmi_alg_kdf_number TpmiAlgKdf.mgf1 = tpm_alg_id_number TpmAlgId.mgf1
tpmi_alg_kdf_number TpmiAlgKdf.kdf1_sp80056_a = tpm_alg_id_number TpmAlgId.kdf1_sp80056_a
tpmi_alg_kdf_number TpmiAlgKdf.kdf2 = tpm_alg_id_number TpmAlgId.kdf2
tpmi_alg_kdf_number TpmiAlgKdf.kdf1_sp800108 = tpm_alg_id_number TpmAlgId.kdf1_sp800108

-- The declared constants of `TpmiAlgPublic`.
pub data TpmiAlgPublic : Type 0 where
  rsa keyed_hash ecc sym_cipher : TpmiAlgPublic

abbrev pub tpmi_alg_public_number : TpmiAlgPublic → ℕ
tpmi_alg_public_number TpmiAlgPublic.rsa = tpm_alg_id_number TpmAlgId.rsa
tpmi_alg_public_number TpmiAlgPublic.keyed_hash = tpm_alg_id_number TpmAlgId.keyed_hash
tpmi_alg_public_number TpmiAlgPublic.ecc = tpm_alg_id_number TpmAlgId.ecc
tpmi_alg_public_number TpmiAlgPublic.sym_cipher = tpm_alg_id_number TpmAlgId.sym_cipher

-- The declared constants of `TpmiAlgSymMode`.
pub data TpmiAlgSymMode : Type 0 where
  cmac ctr ofb cbc cfb ecb : TpmiAlgSymMode

abbrev pub tpmi_alg_sym_mode_number : TpmiAlgSymMode → ℕ
tpmi_alg_sym_mode_number TpmiAlgSymMode.cmac = tpm_alg_id_number TpmAlgId.cmac
tpmi_alg_sym_mode_number TpmiAlgSymMode.ctr = tpm_alg_id_number TpmAlgId.ctr
tpmi_alg_sym_mode_number TpmiAlgSymMode.ofb = tpm_alg_id_number TpmAlgId.ofb
tpmi_alg_sym_mode_number TpmiAlgSymMode.cbc = tpm_alg_id_number TpmAlgId.cbc
tpmi_alg_sym_mode_number TpmiAlgSymMode.cfb = tpm_alg_id_number TpmAlgId.cfb
tpmi_alg_sym_mode_number TpmiAlgSymMode.ecb = tpm_alg_id_number TpmAlgId.ecb

-- The declared constants of `TpmiAlgSymObject`.
pub data TpmiAlgSymObject : Type 0 where
  tdes aes sm4 camellia : TpmiAlgSymObject

abbrev pub tpmi_alg_sym_object_number : TpmiAlgSymObject → ℕ
tpmi_alg_sym_object_number TpmiAlgSymObject.tdes = tpm_alg_id_number TpmAlgId.tdes
tpmi_alg_sym_object_number TpmiAlgSymObject.aes = tpm_alg_id_number TpmAlgId.aes
tpmi_alg_sym_object_number TpmiAlgSymObject.sm4 = tpm_alg_id_number TpmAlgId.sm4
tpmi_alg_sym_object_number TpmiAlgSymObject.camellia = tpm_alg_id_number TpmAlgId.camellia

-- The declared constants of `TpmiAlgKeyedhashScheme`.
pub data TpmiAlgKeyedhashScheme : Type 0 where
  hmac xor : TpmiAlgKeyedhashScheme

abbrev pub tpmi_alg_keyedhash_scheme_number : TpmiAlgKeyedhashScheme → ℕ
tpmi_alg_keyedhash_scheme_number TpmiAlgKeyedhashScheme.hmac = tpm_alg_id_number TpmAlgId.hmac
tpmi_alg_keyedhash_scheme_number TpmiAlgKeyedhashScheme.xor = tpm_alg_id_number TpmAlgId.xor

-- The declared constants of `TpmiAlgRsaScheme`.
pub data TpmiAlgRsaScheme : Type 0 where
  rsapss rsassa ecdsa ecdaa sm2 ec_schnorr rsaes oaep : TpmiAlgRsaScheme

abbrev pub tpmi_alg_rsa_scheme_number : TpmiAlgRsaScheme → ℕ
tpmi_alg_rsa_scheme_number TpmiAlgRsaScheme.rsapss = tpm_alg_id_number TpmAlgId.rsapss
tpmi_alg_rsa_scheme_number TpmiAlgRsaScheme.rsassa = tpm_alg_id_number TpmAlgId.rsassa
tpmi_alg_rsa_scheme_number TpmiAlgRsaScheme.ecdsa = tpm_alg_id_number TpmAlgId.ecdsa
tpmi_alg_rsa_scheme_number TpmiAlgRsaScheme.ecdaa = tpm_alg_id_number TpmAlgId.ecdaa
tpmi_alg_rsa_scheme_number TpmiAlgRsaScheme.sm2 = tpm_alg_id_number TpmAlgId.sm2
tpmi_alg_rsa_scheme_number TpmiAlgRsaScheme.ec_schnorr = tpm_alg_id_number TpmAlgId.ec_schnorr
tpmi_alg_rsa_scheme_number TpmiAlgRsaScheme.rsaes = tpm_alg_id_number TpmAlgId.rsaes
tpmi_alg_rsa_scheme_number TpmiAlgRsaScheme.oaep = tpm_alg_id_number TpmAlgId.oaep

-- The declared constants of `TpmiAlgSigScheme`.
pub data TpmiAlgSigScheme : Type 0 where
  rsapss rsassa ecdsa ecdaa sm2 ec_schnorr hmac : TpmiAlgSigScheme

abbrev pub tpmi_alg_sig_scheme_number : TpmiAlgSigScheme → ℕ
tpmi_alg_sig_scheme_number TpmiAlgSigScheme.rsapss = tpm_alg_id_number TpmAlgId.rsapss
tpmi_alg_sig_scheme_number TpmiAlgSigScheme.rsassa = tpm_alg_id_number TpmAlgId.rsassa
tpmi_alg_sig_scheme_number TpmiAlgSigScheme.ecdsa = tpm_alg_id_number TpmAlgId.ecdsa
tpmi_alg_sig_scheme_number TpmiAlgSigScheme.ecdaa = tpm_alg_id_number TpmAlgId.ecdaa
tpmi_alg_sig_scheme_number TpmiAlgSigScheme.sm2 = tpm_alg_id_number TpmAlgId.sm2
tpmi_alg_sig_scheme_number TpmiAlgSigScheme.ec_schnorr = tpm_alg_id_number TpmAlgId.ec_schnorr
tpmi_alg_sig_scheme_number TpmiAlgSigScheme.hmac = tpm_alg_id_number TpmAlgId.hmac

-- The declared constants of `TpmiAlgEccScheme`.
pub data TpmiAlgEccScheme : Type 0 where
  rsapss rsassa ecdsa ecdaa sm2 ec_schnorr ecdh ecmqv : TpmiAlgEccScheme

abbrev pub tpmi_alg_ecc_scheme_number : TpmiAlgEccScheme → ℕ
tpmi_alg_ecc_scheme_number TpmiAlgEccScheme.rsapss = tpm_alg_id_number TpmAlgId.rsapss
tpmi_alg_ecc_scheme_number TpmiAlgEccScheme.rsassa = tpm_alg_id_number TpmAlgId.rsassa
tpmi_alg_ecc_scheme_number TpmiAlgEccScheme.ecdsa = tpm_alg_id_number TpmAlgId.ecdsa
tpmi_alg_ecc_scheme_number TpmiAlgEccScheme.ecdaa = tpm_alg_id_number TpmAlgId.ecdaa
tpmi_alg_ecc_scheme_number TpmiAlgEccScheme.sm2 = tpm_alg_id_number TpmAlgId.sm2
tpmi_alg_ecc_scheme_number TpmiAlgEccScheme.ec_schnorr = tpm_alg_id_number TpmAlgId.ec_schnorr
tpmi_alg_ecc_scheme_number TpmiAlgEccScheme.ecdh = tpm_alg_id_number TpmAlgId.ecdh
tpmi_alg_ecc_scheme_number TpmiAlgEccScheme.ecmqv = tpm_alg_id_number TpmAlgId.ecmqv

-- The declared constants of `TpmiAlgAsymScheme`.
pub data TpmiAlgAsymScheme : Type 0 where
  sm2 ecdh ecmqv rsapss rsassa ecdsa ecdaa ec_schnorr rsaes oaep : TpmiAlgAsymScheme

abbrev pub tpmi_alg_asym_scheme_number : TpmiAlgAsymScheme → ℕ
tpmi_alg_asym_scheme_number TpmiAlgAsymScheme.sm2 = tpm_alg_id_number TpmAlgId.sm2
tpmi_alg_asym_scheme_number TpmiAlgAsymScheme.ecdh = tpm_alg_id_number TpmAlgId.ecdh
tpmi_alg_asym_scheme_number TpmiAlgAsymScheme.ecmqv = tpm_alg_id_number TpmAlgId.ecmqv
tpmi_alg_asym_scheme_number TpmiAlgAsymScheme.rsapss = tpm_alg_id_number TpmAlgId.rsapss
tpmi_alg_asym_scheme_number TpmiAlgAsymScheme.rsassa = tpm_alg_id_number TpmAlgId.rsassa
tpmi_alg_asym_scheme_number TpmiAlgAsymScheme.ecdsa = tpm_alg_id_number TpmAlgId.ecdsa
tpmi_alg_asym_scheme_number TpmiAlgAsymScheme.ecdaa = tpm_alg_id_number TpmAlgId.ecdaa
tpmi_alg_asym_scheme_number TpmiAlgAsymScheme.ec_schnorr = tpm_alg_id_number TpmAlgId.ec_schnorr
tpmi_alg_asym_scheme_number TpmiAlgAsymScheme.rsaes = tpm_alg_id_number TpmAlgId.rsaes
tpmi_alg_asym_scheme_number TpmiAlgAsymScheme.oaep = tpm_alg_id_number TpmAlgId.oaep

-- The declared constants of `TpmiRhHierarchy`.
pub data TpmiRhHierarchy : Type 0 where
  tpm_rh_owner tpm_rh_platform tpm_rh_endorsement tpm_rh_null : TpmiRhHierarchy

abbrev pub tpmi_rh_hierarchy_number : TpmiRhHierarchy → ℕ
tpmi_rh_hierarchy_number TpmiRhHierarchy.tpm_rh_owner = tpm_handle_number TpmHandle.rh_owner
tpmi_rh_hierarchy_number TpmiRhHierarchy.tpm_rh_platform = tpm_handle_number TpmHandle.rh_platform
tpmi_rh_hierarchy_number TpmiRhHierarchy.tpm_rh_endorsement =
    tpm_handle_number TpmHandle.rh_endorsement
tpmi_rh_hierarchy_number TpmiRhHierarchy.tpm_rh_null = tpm_handle_number TpmHandle.rh_null

-- The declared constants of `TpmiYesNo`.
pub data TpmiYesNo : Type 0 where
  answer_no answer_yes : TpmiYesNo

abbrev pub tpmi_yes_no_number : TpmiYesNo → ℕ
tpmi_yes_no_number TpmiYesNo.answer_no = 0
tpmi_yes_no_number TpmiYesNo.answer_yes = 1

-- The declared constants of `TpmiDhObject`.
pub data TpmiDhObject : Type 0 where
  rh_null : TpmiDhObject

abbrev pub tpmi_dh_object_number : TpmiDhObject → ℕ
tpmi_dh_object_number TpmiDhObject.rh_null = tpm_handle_number TpmHandle.rh_null

-- The declared constants of `TpmiDhEntity`.
pub data TpmiDhEntity : Type 0 where
  rh_owner rh_endorsement rh_platform rh_lockout rh_null : TpmiDhEntity

abbrev pub tpmi_dh_entity_number : TpmiDhEntity → ℕ
tpmi_dh_entity_number TpmiDhEntity.rh_owner = tpm_handle_number TpmHandle.rh_owner
tpmi_dh_entity_number TpmiDhEntity.rh_endorsement = tpm_handle_number TpmHandle.rh_endorsement
tpmi_dh_entity_number TpmiDhEntity.rh_platform = tpm_handle_number TpmHandle.rh_platform
tpmi_dh_entity_number TpmiDhEntity.rh_lockout = tpm_handle_number TpmHandle.rh_lockout
tpmi_dh_entity_number TpmiDhEntity.rh_null = tpm_handle_number TpmHandle.rh_null

-- The declared constants of `TpmiStAttest`.
pub data TpmiStAttest : Type 0 where
  attest_certify attest_quote attest_session_audit attest_command_audit attest_time attest_creation
        attest_nv attest_nv_digest :
      TpmiStAttest

abbrev pub tpmi_st_attest_number : TpmiStAttest → ℕ
tpmi_st_attest_number TpmiStAttest.attest_certify = tpm_st_number TpmSt.attest_certify
tpmi_st_attest_number TpmiStAttest.attest_quote = tpm_st_number TpmSt.attest_quote
tpmi_st_attest_number TpmiStAttest.attest_session_audit = tpm_st_number TpmSt.attest_session_audit
tpmi_st_attest_number TpmiStAttest.attest_command_audit = tpm_st_number TpmSt.attest_command_audit
tpmi_st_attest_number TpmiStAttest.attest_time = tpm_st_number TpmSt.attest_time
tpmi_st_attest_number TpmiStAttest.attest_creation = tpm_st_number TpmSt.attest_creation
tpmi_st_attest_number TpmiStAttest.attest_nv = tpm_st_number TpmSt.attest_nv
tpmi_st_attest_number TpmiStAttest.attest_nv_digest = tpm_st_number TpmSt.attest_nv_digest

-- The declared constants of `TpmiAesKeyBits`.
pub data TpmiAesKeyBits : Type 0 where
  aes128 aes192 aes256 : TpmiAesKeyBits

abbrev pub tpmi_aes_key_bits_number : TpmiAesKeyBits → ℕ
tpmi_aes_key_bits_number TpmiAesKeyBits.aes128 = 128
tpmi_aes_key_bits_number TpmiAesKeyBits.aes192 = 192
tpmi_aes_key_bits_number TpmiAesKeyBits.aes256 = 256

-- The declared constants of `TpmiRsaKeyBits`.
pub data TpmiRsaKeyBits : Type 0 where
  rsa1024 rsa2048 rsa3072 : TpmiRsaKeyBits

abbrev pub tpmi_rsa_key_bits_number : TpmiRsaKeyBits → ℕ
tpmi_rsa_key_bits_number TpmiRsaKeyBits.rsa1024 = 1024
tpmi_rsa_key_bits_number TpmiRsaKeyBits.rsa2048 = 2048
tpmi_rsa_key_bits_number TpmiRsaKeyBits.rsa3072 = 3072

-- The declared constants of `TpmiStCommandTag`.
pub data TpmiStCommandTag : Type 0 where
  no_sessions sessions : TpmiStCommandTag

abbrev pub tpmi_st_command_tag_number : TpmiStCommandTag → ℕ
tpmi_st_command_tag_number TpmiStCommandTag.no_sessions = tpm_st_number TpmSt.no_sessions
tpmi_st_command_tag_number TpmiStCommandTag.sessions = tpm_st_number TpmSt.sessions
