-- ===== src/Client/Instances.antt =====
-- base/src/commands: the commands that have a code, with what stands around them.
use tpm_rs.Prelude.{ℕ}
use tpm_rs.Outcome.{Outcome}
use tpm_rs.Errors.{TssError}
use tpm_rs.Marshal.Core.{unit}
use tpm_rs.Base.Newtype.{newtype}
use tpm_rs.Base.Constants.Commands.{TpmCc, tpm_cc_number}
use tpm_rs.Base.Commands.Management.{
  GetCapabilityCmd, get_capability_cmd, GetCapabilityResp, get_capability_resp, GetRandomCmd,
  get_random_cmd, GetRandomResp, get_random_resp, StartupCmd, startup_cmd, PcrReadCmd, pcr_read_cmd,
  PcrReadResp, pcr_read_resp,
}
use tpm_rs.Base.Commands.Objects.{
  StartAuthSessionCmd, start_auth_session_cmd, StartAuthSessionHandles, start_auth_session_handles,
  StartAuthSessionResp, start_auth_session_resp, CreatePrimaryCmd, create_primary_cmd,
  CreatePrimaryResp, create_primary_resp,
}
use tpm_rs.Client.Command.{TpmCommand}
use tpm_rs.Client.Run.{Tpm, run_command}

abbrev pub get_capability_command :
    TpmCommand GetCapabilityCmd (Unit {0}) GetCapabilityResp (Unit {0})
get_capability_command = record {
  cmd_code = tpm_cc_number TpmCc.get_capability;
  command = get_capability_cmd;
  handles = unit;
  handles_default = tt;
  resp = get_capability_resp;
  resp_handles = unit;
}

-- The handle is a `TpmiRhHierarchy`, whose default is 0.
abbrev pub create_primary_command : TpmCommand CreatePrimaryCmd ℕ CreatePrimaryResp ℕ
create_primary_command = record {
  cmd_code = tpm_cc_number TpmCc.create_primary;
  command = create_primary_cmd;
  handles = newtype 4;
  handles_default = 0;
  resp = create_primary_resp;
  resp_handles = newtype 4;
}

abbrev pub pcr_read_command : TpmCommand PcrReadCmd (Unit {0}) PcrReadResp (Unit {0})
pcr_read_command = record {
  cmd_code = tpm_cc_number TpmCc.pcr_read;
  command = pcr_read_cmd;
  handles = unit;
  handles_default = tt;
  resp = pcr_read_resp;
  resp_handles = unit;
}

abbrev pub get_random_command : TpmCommand GetRandomCmd (Unit {0}) GetRandomResp (Unit {0})
get_random_command = record {
  cmd_code = tpm_cc_number TpmCc.get_random;
  command = get_random_cmd;
  handles = unit;
  handles_default = tt;
  resp = get_random_resp;
  resp_handles = unit;
}

-- The handle of the response is a `TpmiShAuthSession`.
abbrev pub start_auth_session_command :
    TpmCommand StartAuthSessionCmd StartAuthSessionHandles StartAuthSessionResp ℕ
start_auth_session_command = record {
  cmd_code = tpm_cc_number TpmCc.start_auth_session;
  command = start_auth_session_cmd;
  handles = start_auth_session_handles;
  handles_default = record { tpm_key = 0; bind = 0 };
  resp = start_auth_session_resp;
  resp_handles = newtype 4;
}

abbrev pub startup_command : TpmCommand StartupCmd (Unit {0}) (Unit {0}) (Unit {0})
startup_command = record {
  cmd_code = tpm_cc_number TpmCc.startup;
  command = startup_cmd;
  handles = unit;
  handles_default = tt;
  resp = unit;
  resp_handles = unit;
}

-- `get_capability`
unfoldable pub get_capability :
    {T : Type 0} → Tpm T → GetCapabilityCmd → T → Outcome TssError GetCapabilityResp × T
get_capability tpm command s = run_command tpm get_capability_command command s
