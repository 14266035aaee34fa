-- ===== src/Base/Constants/Algorithms.antt =====
-- base/src/constants.rs: the declared constants of the open enums for algorithms and curves. An open
-- enum is its number, and may hold others too.
use tpm_rs.Prelude.{ℕ}

-- The declared constants of `TpmAlgId`.
pub data TpmAlgId : Type 0 where
  rsa tdes sha1 hmac aes mgf1 keyed_hash xor sha256 sha384 sha512 null sm3256 sm4 rsassa rsaes
        rsapss oaep ecdsa ecdh ecdaa sm2 ec_schnorr ecmqv kdf1_sp80056_a kdf2 kdf1_sp800108 ecc
        sym_cipher camellia sha3256 sha3384 sha3512 cmac ctr ofb cbc cfb ecb :
      TpmAlgId

abbrev pub tpm_alg_id_number : TpmAlgId → ℕ
tpm_alg_id_number TpmAlgId.rsa = 0x0001
tpm_alg_id_number TpmAlgId.tdes = 0x0003
tpm_alg_id_number TpmAlgId.sha1 = 0x0004
tpm_alg_id_number TpmAlgId.hmac = 0x0005
tpm_alg_id_number TpmAlgId.aes = 0x0006
tpm_alg_id_number TpmAlgId.mgf1 = 0x0007
tpm_alg_id_number TpmAlgId.keyed_hash = 0x0008
tpm_alg_id_number TpmAlgId.xor = 0x000A
tpm_alg_id_number TpmAlgId.sha256 = 0x000B
tpm_alg_id_number TpmAlgId.sha384 = 0x000C
tpm_alg_id_number TpmAlgId.sha512 = 0x000D
tpm_alg_id_number TpmAlgId.null = 0x0010
tpm_alg_id_number TpmAlgId.sm3256 = 0x0012
tpm_alg_id_number TpmAlgId.sm4 = 0x0013
tpm_alg_id_number TpmAlgId.rsassa = 0x0014
tpm_alg_id_number TpmAlgId.rsaes = 0x0015
tpm_alg_id_number TpmAlgId.rsapss = 0x0016
tpm_alg_id_number TpmAlgId.oaep = 0x0017
tpm_alg_id_number TpmAlgId.ecdsa = 0x0018
tpm_alg_id_number TpmAlgId.ecdh = 0x0019
tpm_alg_id_number TpmAlgId.ecdaa = 0x001A
tpm_alg_id_number TpmAlgId.sm2 = 0x001B
tpm_alg_id_number TpmAlgId.ec_schnorr = 0x001C
tpm_alg_id_number TpmAlgId.ecmqv = 0x001D
tpm_alg_id_number TpmAlgId.kdf1_sp80056_a = 0x0020
tpm_alg_id_number TpmAlgId.kdf2 = 0x0021
tpm_alg_id_number TpmAlgId.kdf1_sp800108 = 0x0022
tpm_alg_id_number TpmAlgId.ecc = 0x0023
tpm_alg_id_number TpmAlgId.sym_cipher = 0x0025
tpm_alg_id_number TpmAlgId.camellia = 0x0026
tpm_alg_id_number TpmAlgId.sha3256 = 0x0027
tpm_alg_id_number TpmAlgId.sha3384 = 0x0028
tpm_alg_id_number TpmAlgId.sha3512 = 0x0029
tpm_alg_id_number TpmAlgId.cmac = 0x003F
tpm_alg_id_number TpmAlgId.ctr = 0x0040
tpm_alg_id_number TpmAlgId.ofb = 0x0041
tpm_alg_id_number TpmAlgId.cbc = 0x0042
tpm_alg_id_number TpmAlgId.cfb = 0x0043
tpm_alg_id_number TpmAlgId.ecb = 0x0044

-- The declared constants of `TpmEccCurve`.
pub data TpmEccCurve : Type 0 where
  none_curve nist_p192 nist_p224 nist_p256 nist_p384 nist_p521 bnp256 bnp638 sm2_p256 : TpmEccCurve

abbrev pub tpm_ecc_curve_number : TpmEccCurve → ℕ
tpm_ecc_curve_number TpmEccCurve.none_curve = 0x0000
tpm_ecc_curve_number TpmEccCurve.nist_p192 = 0x0001
tpm_ecc_curve_number TpmEccCurve.nist_p224 = 0x0002
tpm_ecc_curve_number TpmEccCurve.nist_p256 = 0x0003
tpm_ecc_curve_number TpmEccCurve.nist_p384 = 0x0004
tpm_ecc_curve_number TpmEccCurve.nist_p521 = 0x0005
tpm_ecc_curve_number TpmEccCurve.bnp256 = 0x0010
tpm_ecc_curve_number TpmEccCurve.bnp638 = 0x0011
tpm_ecc_curve_number TpmEccCurve.sm2_p256 = 0x0020
