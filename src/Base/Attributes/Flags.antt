-- ===== src/Base/Attributes/Flags.antt =====
-- base/src/lib.rs: the named bits of the attributes (`bitflags!`).
use tpm_rs.Prelude.{ℕ, ◌^◌}

-- `TpmaLocality`
pub data TpmaLocalityFlag : Type 0 where
  loc_zero loc_one loc_two loc_three loc_four : TpmaLocalityFlag

abbrev pub tpma_locality_bits : TpmaLocalityFlag → ℕ
tpma_locality_bits TpmaLocalityFlag.loc_zero = 2 ^ 0
tpma_locality_bits TpmaLocalityFlag.loc_one = 2 ^ 1
tpma_locality_bits TpmaLocalityFlag.loc_two = 2 ^ 2
tpma_locality_bits TpmaLocalityFlag.loc_three = 2 ^ 3
tpma_locality_bits TpmaLocalityFlag.loc_four = 2 ^ 4

-- `TpmaNv`
pub data TpmaNvFlag : Type 0 where
  ppwrite ownerwrite authwrite policywrite policy_delete writelocked writeall writedefine
        write_stclear globallock ppread ownerread authread policyread no_da orderly clear_stclear
        readlocked written platformcreate read_stclear :
      TpmaNvFlag

abbrev pub tpma_nv_bits : TpmaNvFlag → ℕ
tpma_nv_bits TpmaNvFlag.ppwrite = 2 ^ 0
tpma_nv_bits TpmaNvFlag.ownerwrite = 2 ^ 1
tpma_nv_bits TpmaNvFlag.authwrite = 2 ^ 2
tpma_nv_bits TpmaNvFlag.policywrite = 2 ^ 3
tpma_nv_bits TpmaNvFlag.policy_delete = 2 ^ 10
tpma_nv_bits TpmaNvFlag.writelocked = 2 ^ 11
tpma_nv_bits TpmaNvFlag.writeall = 2 ^ 12
tpma_nv_bits TpmaNvFlag.writedefine = 2 ^ 13
tpma_nv_bits TpmaNvFlag.write_stclear = 2 ^ 14
tpma_nv_bits TpmaNvFlag.globallock = 2 ^ 15
tpma_nv_bits TpmaNvFlag.ppread = 2 ^ 16
tpma_nv_bits TpmaNvFlag.ownerread = 2 ^ 17
tpma_nv_bits TpmaNvFlag.authread = 2 ^ 18
tpma_nv_bits TpmaNvFlag.policyread = 2 ^ 19
tpma_nv_bits TpmaNvFlag.no_da = 2 ^ 25
tpma_nv_bits TpmaNvFlag.orderly = 2 ^ 26
tpma_nv_bits TpmaNvFlag.clear_stclear = 2 ^ 27
tpma_nv_bits TpmaNvFlag.readlocked = 2 ^ 28
tpma_nv_bits TpmaNvFlag.written = 2 ^ 29
tpma_nv_bits TpmaNvFlag.platformcreate = 2 ^ 30
tpma_nv_bits TpmaNvFlag.read_stclear = 2 ^ 31

-- `TpmaObject`
pub data TpmaObjectFlag : Type 0 where
  fixed_tpm st_clear fixed_parent sensitive_data_origin user_with_auth admin_with_policy no_da
        encrypted_duplication restricted decrypt sign_encrypt x509_sign :
      TpmaObjectFlag

abbrev pub tpma_object_bits : TpmaObjectFlag → ℕ
tpma_object_bits TpmaObjectFlag.fixed_tpm = 2 ^ 1
tpma_object_bits TpmaObjectFlag.st_clear = 2 ^ 2
tpma_object_bits TpmaObjectFlag.fixed_parent = 2 ^ 4
tpma_object_bits TpmaObjectFlag.sensitive_data_origin = 2 ^ 5
tpma_object_bits TpmaObjectFlag.user_with_auth = 2 ^ 6
tpma_object_bits TpmaObjectFlag.admin_with_policy = 2 ^ 7
tpma_object_bits TpmaObjectFlag.no_da = 2 ^ 10
tpma_object_bits TpmaObjectFlag.encrypted_duplication = 2 ^ 11
tpma_object_bits TpmaObjectFlag.restricted = 2 ^ 16
tpma_object_bits TpmaObjectFlag.decrypt = 2 ^ 17
tpma_object_bits TpmaObjectFlag.sign_encrypt = 2 ^ 18
tpma_object_bits TpmaObjectFlag.x509_sign = 2 ^ 19

-- `TpmaAlgorithm`
pub data TpmaAlgorithmFlag : Type 0 where
  asymmetric symmetric hash object signing encrypting method : TpmaAlgorithmFlag

abbrev pub tpma_algorithm_bits : TpmaAlgorithmFlag → ℕ
tpma_algorithm_bits TpmaAlgorithmFlag.asymmetric = 2 ^ 0
tpma_algorithm_bits TpmaAlgorithmFlag.symmetric = 2 ^ 1
tpma_algorithm_bits TpmaAlgorithmFlag.hash = 2 ^ 2
tpma_algorithm_bits TpmaAlgorithmFlag.object = 2 ^ 3
tpma_algorithm_bits TpmaAlgorithmFlag.signing = 2 ^ 8
tpma_algorithm_bits TpmaAlgorithmFlag.encrypting = 2 ^ 9
tpma_algorithm_bits TpmaAlgorithmFlag.method = 2 ^ 10

-- `TpmaSession`
pub data TpmaSessionFlag : Type 0 where
  continue_session audit_exclusive audit_reset decrypt encrypt audit : TpmaSessionFlag

abbrev pub tpma_session_bits : TpmaSessionFlag → ℕ
tpma_session_bits TpmaSessionFlag.continue_session = 2 ^ 0
tpma_session_bits TpmaSessionFlag.audit_exclusive = 2 ^ 1
tpma_session_bits TpmaSessionFlag.audit_reset = 2 ^ 2
tpma_session_bits TpmaSessionFlag.decrypt = 2 ^ 5
tpma_session_bits TpmaSessionFlag.encrypt = 2 ^ 6
tpma_session_bits TpmaSessionFlag.audit = 2 ^ 7

-- `TpmaCc`
pub data TpmaCcFlag : Type 0 where
  nv extensive flushed r_handle v : TpmaCcFlag

abbrev pub tpma_cc_bits : TpmaCcFlag → ℕ
tpma_cc_bits TpmaCcFlag.nv = 2 ^ 22
tpma_cc_bits TpmaCcFlag.extensive = 2 ^ 23
tpma_cc_bits TpmaCcFlag.flushed = 2 ^ 24
tpma_cc_bits TpmaCcFlag.r_handle = 2 ^ 28
tpma_cc_bits TpmaCcFlag.v = 2 ^ 29
