-- ===== src/Base/Handles.antt =====
-- base/src/constants.rs, `TpmHc`, and the conversions of base/src/lib.rs to handles: which numbers are
-- handles of which kind.
pub mod Kinds
use tpm_rs.Prelude.{ℕ, ◌+◌, ◌-◌, ◌*◌, ◌%◌, ◌^◌, Bool, ◌&&◌, ◌||◌, leb, ◌==◌, if◌then◌else◌}
use tpm_rs.Outcome.{Outcome, ok, err}
use tpm_rs.Errors.{TpmRcError, value}
use tpm_rs.Base.Limits.{tpm2_max_active_sessions}
use tpm_rs.Base.Constants.Tags.{TpmHt, tpm_ht_number, TpmHandle, tpm_handle_number}

-- `TpmHc::new`; a `TpmHc` is its number.
abbrev pub tpm_hc_new : TpmHt → ℕ
tpm_hc_new handle_type = tpm_ht_number handle_type * 2 ^ 24 % 2 ^ 32

-- `(first..=last).contains(&value)`
abbrev pub in_range : ℕ → ℕ → ℕ → Bool
in_range first last v = leb first v && leb v last

abbrev pub hmac_session_first : ℕ
hmac_session_first = tpm_hc_new TpmHt.hmac_session

abbrev pub hmac_session_last : ℕ
hmac_session_last = tpm_hc_new TpmHt.hmac_session + tpm2_max_active_sessions - 1

unfoldable pub is_hmac_session : ℕ → Bool
is_hmac_session v = in_range hmac_session_first hmac_session_last v

abbrev pub policy_session_first : ℕ
policy_session_first = tpm_hc_new TpmHt.policy_session

abbrev pub policy_session_last : ℕ
policy_session_last = tpm_hc_new TpmHt.policy_session + tpm2_max_active_sessions - 1

unfoldable pub is_policy_session : ℕ → Bool
is_policy_session v = in_range policy_session_first policy_session_last v

abbrev pub transient_first : ℕ
transient_first = tpm_hc_new TpmHt.transient

abbrev pub transient_last : ℕ
transient_last = tpm_hc_new TpmHt.transient + 0x00FFFFFF

unfoldable pub is_transient_object : ℕ → Bool
is_transient_object v = in_range transient_first transient_last v

abbrev pub persistent_first : ℕ
persistent_first = tpm_hc_new TpmHt.persistent

abbrev pub persistent_last : ℕ
persistent_last = tpm_hc_new TpmHt.persistent + 0x00FFFFFF

abbrev pub nv_index_first : ℕ
nv_index_first = tpm_hc_new TpmHt.nv_index

abbrev pub nv_index_last : ℕ
nv_index_last = nv_index_first + 0x00FFFFFF

unfoldable pub is_nv_index : ℕ → Bool
is_nv_index v = in_range nv_index_first nv_index_last v

-- `impl TryFrom<u32> for TpmiRhNvIndex`
unfoldable pub rh_nv_index_try_from : ℕ → Outcome TpmRcError ℕ
rh_nv_index_try_from v = if is_nv_index v then ok v else err value

-- `impl TryFrom<u32> for TpmiShAuthSession`
unfoldable pub sh_auth_session_try_from : ℕ → Outcome TpmRcError ℕ
sh_auth_session_try_from v =
    if is_hmac_session v || is_policy_session v || v == tpm_handle_number TpmHandle.rspw
    then ok v
    else err value
