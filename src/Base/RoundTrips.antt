-- ===== src/Base/RoundTrips.antt =====
-- base/src/lib.rs: the larger types and their wire format.
use tpm_rs.Prelude.{ℕ, ◌≤◌, ◌≡◌, ◌≢◌, List, ◌++◌, length, drop, All}
use tpm_rs.Outcome.{ok, panic}
use tpm_rs.Marshal.Core.{IsByte}
use tpm_rs.Marshal.RoundTrip.{unmarshal-marshal, marshal-unmarshal}
use tpm_rs.Base.Attest.{TpmsAttest, tpms_attest, tpms_attest_format, tpms_attest-Lawful}
use tpm_rs.Base.Public.{TpmtPublic, tpmt_public, tpmt_public_format, tpmt_public-Lawful}
use tpm_rs.Base.Sensitive.{
  TpmtSensitive, tpmt_sensitive, tpmt_sensitive_format, tpmt_sensitive-Lawful,
}
use tpm_rs.Base.Capability.{
  TpmsCapabilityData, tpms_capability_data, tpms_capability_data_format,
  tpms_capability_data-Lawful,
}
use tpm_rs.Base.Pcr.{
  TpmlPcrSelection, tpml_pcr_selection, tpml_pcr_selection_format, tpml_pcr_selection-Lawful,
}

-- A valid TpmsAttest that is marshalled into a buffer with the room for its encoding takes the
-- length of the encoding, and is unmarshalled again from that buffer, with what stood behind it
-- left over.
pub tpms_attest-unmarshal_marshal :
    (a : TpmsAttest) (buffer : List ℕ)
    → tpms_attest_format.Valid a
    → length (tpms_attest_format.encode a) ≤ length buffer
    → ((tpms_attest.try_marshal a buffer).0 ≡ ok (length (tpms_attest_format.encode a)))
      × (tpms_attest.try_unmarshal (tpms_attest.try_marshal a buffer).1
          ≡ ok (a, drop (length (tpms_attest_format.encode a)) buffer))
tpms_attest-unmarshal_marshal = unmarshal-marshal tpms_attest-Lawful

-- If two buffers of bytes are read as the same TpmsAttest, then the same bytes stand at the
-- beginning of both, with what is left of each behind them, and marshalling it over the first
-- buffer takes as many bytes as these and changes none.
pub tpms_attest-marshal_unmarshal :
    (a : TpmsAttest) (buffer rest buffer' rest' : List ℕ)
    → All IsByte buffer
    → All IsByte buffer'
    → tpms_attest.try_unmarshal buffer ≡ ok (a, rest)
    → tpms_attest.try_unmarshal buffer' ≡ ok (a, rest')
    → (bytes : List ℕ) × (buffer ≡ bytes ++ rest)
      × (buffer' ≡ bytes ++ rest')
      × (tpms_attest.try_marshal a buffer ≡ (ok (length bytes), buffer))
tpms_attest-marshal_unmarshal = marshal-unmarshal tpms_attest-Lawful

-- A valid TpmtPublic that is marshalled into a buffer with the room for its encoding takes the
-- length of the encoding, and is unmarshalled again from that buffer, with what stood behind it
-- left over.
pub tpmt_public-unmarshal_marshal :
    (a : TpmtPublic) (buffer : List ℕ)
    → tpmt_public_format.Valid a
    → length (tpmt_public_format.encode a) ≤ length buffer
    → ((tpmt_public.try_marshal a buffer).0 ≡ ok (length (tpmt_public_format.encode a)))
      × (tpmt_public.try_unmarshal (tpmt_public.try_marshal a buffer).1
          ≡ ok (a, drop (length (tpmt_public_format.encode a)) buffer))
tpmt_public-unmarshal_marshal = unmarshal-marshal tpmt_public-Lawful

-- If two buffers of bytes are read as the same TpmtPublic, then the same bytes stand at the
-- beginning of both, with what is left of each behind them, and marshalling it over the first
-- buffer takes as many bytes as these and changes none.
pub tpmt_public-marshal_unmarshal :
    (a : TpmtPublic) (buffer rest buffer' rest' : List ℕ)
    → All IsByte buffer
    → All IsByte buffer'
    → tpmt_public.try_unmarshal buffer ≡ ok (a, rest)
    → tpmt_public.try_unmarshal buffer' ≡ ok (a, rest')
    → (bytes : List ℕ) × (buffer ≡ bytes ++ rest)
      × (buffer' ≡ bytes ++ rest')
      × (tpmt_public.try_marshal a buffer ≡ (ok (length bytes), buffer))
tpmt_public-marshal_unmarshal = marshal-unmarshal tpmt_public-Lawful

-- A valid TpmtSensitive that is marshalled into a buffer with the room for its encoding takes the
-- length of the encoding, and is unmarshalled again from that buffer, with what stood behind it
-- left over.
pub tpmt_sensitive-unmarshal_marshal :
    (a : TpmtSensitive) (buffer : List ℕ)
    → tpmt_sensitive_format.Valid a
    → length (tpmt_sensitive_format.encode a) ≤ length buffer
    → ((tpmt_sensitive.try_marshal a buffer).0 ≡ ok (length (tpmt_sensitive_format.encode a)))
      × (tpmt_sensitive.try_unmarshal (tpmt_sensitive.try_marshal a buffer).1
          ≡ ok (a, drop (length (tpmt_sensitive_format.encode a)) buffer))
tpmt_sensitive-unmarshal_marshal = unmarshal-marshal tpmt_sensitive-Lawful

-- If two buffers of bytes are read as the same TpmtSensitive, then the same bytes stand at the
-- beginning of both, with what is left of each behind them, and marshalling it over the first
-- buffer takes as many bytes as these and changes none.
pub tpmt_sensitive-marshal_unmarshal :
    (a : TpmtSensitive) (buffer rest buffer' rest' : List ℕ)
    → All IsByte buffer
    → All IsByte buffer'
    → tpmt_sensitive.try_unmarshal buffer ≡ ok (a, rest)
    → tpmt_sensitive.try_unmarshal buffer' ≡ ok (a, rest')
    → (bytes : List ℕ) × (buffer ≡ bytes ++ rest)
      × (buffer' ≡ bytes ++ rest')
      × (tpmt_sensitive.try_marshal a buffer ≡ (ok (length bytes), buffer))
tpmt_sensitive-marshal_unmarshal = marshal-unmarshal tpmt_sensitive-Lawful

-- A valid `TpmsCapabilityData` that is marshalled into a buffer with the room for its encoding takes the encoding's
-- length, and is unmarshalled again from that buffer, with what stood behind it left over.
pub tpms_capability_data-unmarshal_marshal :
    (a : TpmsCapabilityData) (buffer : List ℕ)
    → tpms_capability_data_format.Valid a
    → length (tpms_capability_data_format.encode a) ≤ length buffer
    → ((tpms_capability_data.try_marshal a buffer).0
        ≡ ok (length (tpms_capability_data_format.encode a)))
      × (tpms_capability_data.try_unmarshal (tpms_capability_data.try_marshal a buffer).1
          ≡ ok (a, drop (length (tpms_capability_data_format.encode a)) buffer))
tpms_capability_data-unmarshal_marshal = unmarshal-marshal tpms_capability_data-Lawful

-- If two buffers of bytes are read as the same `TpmsCapabilityData`, then the same bytes stand at the
-- beginning of both, and writing it over the first one writes these bytes and changes none.
pub tpms_capability_data-marshal_unmarshal :
    (a : TpmsCapabilityData) (buffer rest buffer' rest' : List ℕ)
    → All IsByte buffer
    → All IsByte buffer'
    → tpms_capability_data.try_unmarshal buffer ≡ ok (a, rest)
    → tpms_capability_data.try_unmarshal buffer' ≡ ok (a, rest')
    → (bytes : List ℕ) × (buffer ≡ bytes ++ rest)
      × (buffer' ≡ bytes ++ rest')
      × (tpms_capability_data.try_marshal a buffer ≡ (ok (length bytes), buffer))
tpms_capability_data-marshal_unmarshal = marshal-unmarshal tpms_capability_data-Lawful

-- A valid TpmlPcrSelection that is marshalled into a buffer with the room for its encoding takes
-- the length of the encoding, and is unmarshalled again from that buffer, with what stood behind
-- it left over.
pub tpml_pcr_selection-unmarshal_marshal :
    (a : TpmlPcrSelection) (buffer : List ℕ)
    → tpml_pcr_selection_format.Valid a
    → length (tpml_pcr_selection_format.encode a) ≤ length buffer
    → ((tpml_pcr_selection.try_marshal a buffer).0
        ≡ ok (length (tpml_pcr_selection_format.encode a)))
      × (tpml_pcr_selection.try_unmarshal (tpml_pcr_selection.try_marshal a buffer).1
          ≡ ok (a, drop (length (tpml_pcr_selection_format.encode a)) buffer))
tpml_pcr_selection-unmarshal_marshal = unmarshal-marshal tpml_pcr_selection-Lawful

-- If two buffers of bytes are read as the same TpmlPcrSelection, then the same bytes stand at the
-- beginning of both, with what is left of each behind them, and marshalling it over the first
-- buffer takes as many bytes as these and changes none.
pub tpml_pcr_selection-marshal_unmarshal :
    (a : TpmlPcrSelection) (buffer rest buffer' rest' : List ℕ)
    → All IsByte buffer
    → All IsByte buffer'
    → tpml_pcr_selection.try_unmarshal buffer ≡ ok (a, rest)
    → tpml_pcr_selection.try_unmarshal buffer' ≡ ok (a, rest')
    → (bytes : List ℕ) × (buffer ≡ bytes ++ rest)
      × (buffer' ≡ bytes ++ rest')
      × (tpml_pcr_selection.try_marshal a buffer ≡ (ok (length bytes), buffer))
tpml_pcr_selection-marshal_unmarshal = marshal-unmarshal tpml_pcr_selection-Lawful

-- Unmarshalling a TpmsAttest never panics, whatever the bytes are.
pub tpms_attest-unmarshal_total : (buffer : List ℕ) → tpms_attest.try_unmarshal buffer ≢ panic
tpms_attest-unmarshal_total = tpms_attest-Lawful.unmarshal_total

-- Unmarshalling a `TpmsCapabilityData` never panics, whatever the bytes are.
pub tpms_capability_data-unmarshal_total :
    (buffer : List ℕ) → tpms_capability_data.try_unmarshal buffer ≢ panic
tpms_capability_data-unmarshal_total = tpms_capability_data-Lawful.unmarshal_total
