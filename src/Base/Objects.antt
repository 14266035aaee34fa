-- ===== src/Base/Objects.antt =====
-- base/src/lib.rs: credentials, NV areas, saved contexts and creation data.
use tpm_rs.Base.Buffers.{
  tpm2b_digest, tpm2b_digest_format, tpm2b_digest-Lawful, tpm2b_data, tpm2b_data_format,
  tpm2b_data-Lawful, tpm2b_name, tpm2b_name_format, tpm2b_name-Lawful,
}
use tpm_rs.Base.MoreBuffers.{
  tpm2b_context_sensitive, tpm2b_context_sensitive_format, tpm2b_context_sensitive-Lawful,
}
use tpm_rs.Base.Newtype.{newtype, newtype_format, newtype-Lawful}
use tpm_rs.Base.Pcr.{
  TpmlPcrSelection, tpml_pcr_selection, tpml_pcr_selection_format, tpml_pcr_selection-Lawful,
}
use tpm_rs.Derive.Fields.{field, ◌then◌, derive}
use tpm_rs.Derive.Laws.{
  pair_format, via_format, field-LawfulFragment, then-LawfulFragment, derive-Lawful,
}
use tpm_rs.Marshal.Core.{Marshalable, prim}
use tpm_rs.Marshal.Lawful.{Format, Lawful, prim_format, prim-Lawful}
use tpm_rs.Prelude.{ℕ, refl}
use tpm_rs.Tpm2b.Simple.{Tpm2b}

-- `TpmsIdObject`
pub record TpmsIdObject : Type 0 where
  pub integrity_hmac : Tpm2b
  pub enc_identity : Tpm2b

abbrev pub tpms_id_object_fields : TpmsIdObject → (Tpm2b × Tpm2b)
tpms_id_object_fields s = (s.integrity_hmac, s.enc_identity)

abbrev pub tpms_id_object_of : (Tpm2b × Tpm2b) → TpmsIdObject
tpms_id_object_of r = record { integrity_hmac = r.0; enc_identity = r.1 }

unfoldable pub tpms_id_object : Marshalable TpmsIdObject
tpms_id_object =
    derive tpms_id_object_fields tpms_id_object_of (field tpm2b_digest then field tpm2b_digest)

unfoldable pub tpms_id_object_format : Format TpmsIdObject
tpms_id_object_format =
    via_format tpms_id_object_fields (pair_format tpm2b_digest_format tpm2b_digest_format)

pub tpms_id_object-Lawful : Lawful tpms_id_object tpms_id_object_format
unfolding tpms_id_object tpms_id_object_format
tpms_id_object-Lawful =
    derive-Lawful tpms_id_object_fields tpms_id_object_of (λ s. refl) (λ r. refl)
      (then-LawfulFragment (field-LawfulFragment tpm2b_digest-Lawful)
        (field-LawfulFragment tpm2b_digest-Lawful))

-- `TpmsNvPublic`
pub record TpmsNvPublic : Type 0 where
  pub nv_index : ℕ
  pub name_alg : ℕ
  pub attributes : ℕ
  pub auth_policy : Tpm2b
  pub data_size : ℕ

abbrev pub tpms_nv_public_fields : TpmsNvPublic → (ℕ × (ℕ × (ℕ × (Tpm2b × ℕ))))
tpms_nv_public_fields s = (s.nv_index, (s.name_alg, (s.attributes, (s.auth_policy, s.data_size))))

abbrev pub tpms_nv_public_of : (ℕ × (ℕ × (ℕ × (Tpm2b × ℕ)))) → TpmsNvPublic
tpms_nv_public_of r = record {
  nv_index = r.0;
  name_alg = r.1.0;
  attributes = r.1.1.0;
  auth_policy = r.1.1.1.0;
  data_size = r.1.1.1.1;
}

unfoldable pub tpms_nv_public : Marshalable TpmsNvPublic
tpms_nv_public = derive tpms_nv_public_fields tpms_nv_public_of (
    field (newtype 4)
    then field (newtype 2)
    then field (newtype 4)
    then field tpm2b_digest
    then field (prim 2))

unfoldable pub tpms_nv_public_format : Format TpmsNvPublic
tpms_nv_public_format = via_format tpms_nv_public_fields (
    pair_format (newtype_format 4) (
      pair_format (newtype_format 2)
        (pair_format (newtype_format 4) (pair_format tpm2b_digest_format (prim_format 2)))))

pub tpms_nv_public-Lawful : Lawful tpms_nv_public tpms_nv_public_format
unfolding tpms_nv_public tpms_nv_public_format
tpms_nv_public-Lawful =
    derive-Lawful tpms_nv_public_fields tpms_nv_public_of (λ s. refl) (λ r. refl)
      (then-LawfulFragment (field-LawfulFragment (newtype-Lawful 4)) (
        then-LawfulFragment (field-LawfulFragment (newtype-Lawful 2)) (
          then-LawfulFragment (field-LawfulFragment (newtype-Lawful 4)) (
            then-LawfulFragment (field-LawfulFragment tpm2b_digest-Lawful)
              (field-LawfulFragment (prim-Lawful 2))))))

-- `TpmsContextData`
pub record TpmsContextData : Type 0 where
  pub integrity : Tpm2b
  pub encrypted : Tpm2b

abbrev pub tpms_context_data_fields : TpmsContextData → (Tpm2b × Tpm2b)
tpms_context_data_fields s = (s.integrity, s.encrypted)

abbrev pub tpms_context_data_of : (Tpm2b × Tpm2b) → TpmsContextData
tpms_context_data_of r = record { integrity = r.0; encrypted = r.1 }

unfoldable pub tpms_context_data : Marshalable TpmsContextData
tpms_context_data =
    derive tpms_context_data_fields tpms_context_data_of
      (field tpm2b_digest then field tpm2b_context_sensitive)

unfoldable pub tpms_context_data_format : Format TpmsContextData
tpms_context_data_format =
    via_format tpms_context_data_fields
      (pair_format tpm2b_digest_format tpm2b_context_sensitive_format)

pub tpms_context_data-Lawful : Lawful tpms_context_data tpms_context_data_format
unfolding tpms_context_data tpms_context_data_format
tpms_context_data-Lawful =
    derive-Lawful tpms_context_data_fields tpms_context_data_of (λ s. refl) (λ r. refl)
      (then-LawfulFragment (field-LawfulFragment tpm2b_digest-Lawful)
        (field-LawfulFragment tpm2b_context_sensitive-Lawful))

-- `TpmsCreationData`
pub record TpmsCreationData : Type 0 where
  pub pcr_select : TpmlPcrSelection
  pub pcr_digest : Tpm2b
  pub locality : ℕ
  pub parent_name_alg : ℕ
  pub parent_name : Tpm2b
  pub parent_qualified_name : Tpm2b
  pub outside_info : Tpm2b

abbrev pub tpms_creation_data_fields :
    TpmsCreationData → (TpmlPcrSelection × (Tpm2b × (ℕ × (ℕ × (Tpm2b × (Tpm2b × Tpm2b))))))
tpms_creation_data_fields s = (
  s.pcr_select,
  (
    s.pcr_digest,
    (s.locality, (s.parent_name_alg, (s.parent_name, (s.parent_qualified_name, s.outside_info)))),
  ),
)

abbrev pub tpms_creation_data_of :
    (TpmlPcrSelection × (Tpm2b × (ℕ × (ℕ × (Tpm2b × (Tpm2b × Tpm2b)))))) → TpmsCreationData
tpms_creation_data_of r = record {
  pcr_select = r.0;
  pcr_digest = r.1.0;
  locality = r.1.1.0;
  parent_name_alg = r.1.1.1.0;
  parent_name = r.1.1.1.1.0;
  parent_qualified_name = r.1.1.1.1.1.0;
  outside_info = r.1.1.1.1.1.1;
}

unfoldable pub tpms_creation_data : Marshalable TpmsCreationData
tpms_creation_data = derive tpms_creation_data_fields tpms_creation_data_of (
    field tpml_pcr_selection
    then field tpm2b_digest
    then field (newtype 1)
    then field (newtype 2)
    then field tpm2b_name
    then field tpm2b_name
    then field tpm2b_data)

unfoldable pub tpms_creation_data_format : Format TpmsCreationData
tpms_creation_data_format = via_format tpms_creation_data_fields (
    pair_format tpml_pcr_selection_format (
      pair_format tpm2b_digest_format (
        pair_format (newtype_format 1) (
          pair_format (newtype_format 2)
            (pair_format tpm2b_name_format (pair_format tpm2b_name_format tpm2b_data_format))))))

pub tpms_creation_data-Lawful : Lawful tpms_creation_data tpms_creation_data_format
unfolding tpms_creation_data tpms_creation_data_format
tpms_creation_data-Lawful =
    derive-Lawful tpms_creation_data_fields tpms_creation_data_of (λ s. refl) (λ r. refl)
      (then-LawfulFragment (field-LawfulFragment tpml_pcr_selection-Lawful) (
        then-LawfulFragment (field-LawfulFragment tpm2b_digest-Lawful) (
          then-LawfulFragment (field-LawfulFragment (newtype-Lawful 1)) (
            then-LawfulFragment (field-LawfulFragment (newtype-Lawful 2)) (
              then-LawfulFragment (field-LawfulFragment tpm2b_name-Lawful) (
                then-LawfulFragment (field-LawfulFragment tpm2b_name-Lawful)
                  (field-LawfulFragment tpm2b_data-Lawful)))))))

-- `TpmtTkCreation`
pub record TpmtTkCreation : Type 0 where
  pub tag : ℕ
  pub hierarchy : ℕ
  pub digest : Tpm2b

abbrev pub tpmt_tk_creation_fields : TpmtTkCreation → (ℕ × (ℕ × Tpm2b))
tpmt_tk_creation_fields s = (s.tag, (s.hierarchy, s.digest))

abbrev pub tpmt_tk_creation_of : (ℕ × (ℕ × Tpm2b)) → TpmtTkCreation
tpmt_tk_creation_of r = record { tag = r.0; hierarchy = r.1.0; digest = r.1.1 }

unfoldable pub tpmt_tk_creation : Marshalable TpmtTkCreation
tpmt_tk_creation =
    derive tpmt_tk_creation_fields tpmt_tk_creation_of
      (field (newtype 2) then field (newtype 4) then field tpm2b_digest)

unfoldable pub tpmt_tk_creation_format : Format TpmtTkCreation
tpmt_tk_creation_format =
    via_format tpmt_tk_creation_fields
      (pair_format (newtype_format 2) (pair_format (newtype_format 4) tpm2b_digest_format))

pub tpmt_tk_creation-Lawful : Lawful tpmt_tk_creation tpmt_tk_creation_format
unfolding tpmt_tk_creation tpmt_tk_creation_format
tpmt_tk_creation-Lawful =
    derive-Lawful tpmt_tk_creation_fields tpmt_tk_creation_of (λ s. refl) (λ r. refl)
      (then-LawfulFragment (field-LawfulFragment (newtype-Lawful 2)) (
        then-LawfulFragment (field-LawfulFragment (newtype-Lawful 4))
          (field-LawfulFragment tpm2b_digest-Lawful)))
