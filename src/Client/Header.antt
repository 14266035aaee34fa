-- ===== src/Client/Header.antt =====
-- client/src/lib.rs: the headers of commands and responses.
use tpm_rs.Prelude.{ℕ, Bool, refl, if◌then◌else◌}
use tpm_rs.Marshal.Core.{Marshalable, prim}
use tpm_rs.Marshal.Lawful.{Format, Lawful, prim_format, prim-Lawful}
use tpm_rs.Derive.Fields.{field, ◌then◌, derive}
use tpm_rs.Derive.Laws.{
  pair_format, via_format, field-LawfulFragment, then-LawfulFragment, derive-Lawful,
}
use tpm_rs.Base.Newtype.{newtype, newtype_format, newtype-Lawful}
use tpm_rs.Base.Constants.Interface.{TpmiStCommandTag, tpmi_st_command_tag_number}

pub record CmdHeader : Type 0 where
  pub tag : ℕ
  pub size : ℕ
  pub code : ℕ

abbrev pub cmd_header_fields : CmdHeader → (ℕ × (ℕ × ℕ))
cmd_header_fields s = (s.tag, (s.size, s.code))

abbrev pub cmd_header_of : (ℕ × (ℕ × ℕ)) → CmdHeader
cmd_header_of r = record { tag = r.0; size = r.1.0; code = r.1.1 }

unfoldable pub cmd_header : Marshalable CmdHeader
cmd_header =
    derive cmd_header_fields cmd_header_of
      (field (newtype 2) then field (prim 4) then field (newtype 4))

unfoldable pub cmd_header_format : Format CmdHeader
cmd_header_format =
    via_format cmd_header_fields
      (pair_format (newtype_format 2) (pair_format (prim_format 4) (newtype_format 4)))

pub cmd_header-Lawful : Lawful cmd_header cmd_header_format
unfolding cmd_header cmd_header_format
cmd_header-Lawful =
    derive-Lawful cmd_header_fields cmd_header_of (λ s. refl) (λ r. refl)
      (then-LawfulFragment (field-LawfulFragment (newtype-Lawful 2)) (
        then-LawfulFragment (field-LawfulFragment (prim-Lawful 4))
          (field-LawfulFragment (newtype-Lawful 4))))

-- The tags stand the other way round than the name of the argument says; the caller passes
-- `is_empty()`.
unfoldable pub cmd_header_new : Bool → ℕ → CmdHeader
cmd_header_new has_sessions code = record {
  tag =
      if has_sessions
      then tpmi_st_command_tag_number TpmiStCommandTag.no_sessions
      else tpmi_st_command_tag_number TpmiStCommandTag.sessions;
  size = 0;
  code = code;
}

pub record RespHeader : Type 0 where
  pub tag : ℕ
  pub size : ℕ
  pub rc : ℕ

abbrev pub resp_header_fields : RespHeader → (ℕ × (ℕ × ℕ))
resp_header_fields s = (s.tag, (s.size, s.rc))

abbrev pub resp_header_of : (ℕ × (ℕ × ℕ)) → RespHeader
resp_header_of r = record { tag = r.0; size = r.1.0; rc = r.1.1 }

unfoldable pub resp_header : Marshalable RespHeader
resp_header =
    derive resp_header_fields resp_header_of
      (field (newtype 2) then field (prim 4) then field (prim 4))

unfoldable pub resp_header_format : Format RespHeader
resp_header_format =
    via_format resp_header_fields
      (pair_format (newtype_format 2) (pair_format (prim_format 4) (prim_format 4)))

pub resp_header-Lawful : Lawful resp_header resp_header_format
unfolding resp_header resp_header_format
resp_header-Lawful =
    derive-Lawful resp_header_fields resp_header_of (λ s. refl) (λ r. refl)
      (then-LawfulFragment (field-LawfulFragment (newtype-Lawful 2)) (
        then-LawfulFragment (field-LawfulFragment (prim-Lawful 4))
          (field-LawfulFragment (prim-Lawful 4))))
