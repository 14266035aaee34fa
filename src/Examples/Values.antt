-- ===== src/Examples/Values.antt =====
-- Values of the types of base/src/lib.rs that can be marshalled.
use tpm_rs.Prelude.{ℕ, ◌≤◌, refl, arith, List, [], ◌∷◌, ◌++◌, replicate, All}
use tpm_rs.Marshal.Core.{IsByte}
use tpm_rs.Tpm2b.Simple.{Tpm2b, overlay}
use tpm_rs.Tpm2b.SimpleLaws.{IsSized, overlay-IsSized}
use tpm_rs.Base.Buffers.{
  tpm2b_digest_capacity, tpm2b_name_capacity, tpm2b_data_capacity, tpm2b_sensitive_data_capacity,
}
use tpm_rs.Base.AttestInfo.{
  TpmsClockInfo, tpms_clock_info_format, tpms_time_info_format, tpms_time_attest_info_format,
}
use tpm_rs.Base.AttestUnion.{TpmuAttest, tpmu_attest_variant_format}
use tpm_rs.Base.Attest.{TpmsAttest, tpms_attest_format}
use tpm_rs.Base.KeyedHash.{
  TpmtKeyedHashScheme, tpmt_keyed_hash_scheme_variant_format, tpmt_keyed_hash_scheme_format,
  tpms_keyed_hash_parms_format,
}
use tpm_rs.Base.PublicParms.{PublicParmsAndId, public_parms_and_id_variant_format}
use tpm_rs.Base.Public.{TpmtPublic, tpmt_public_format}
use tpm_rs.Base.SensitiveParts.{TpmuSensitiveComposite, tpmu_sensitive_composite_variant_format}
use tpm_rs.Base.Sensitive.{TpmtSensitive, tpmt_sensitive_format}
use tpm_rs.Base.Pcr.{
  TpmlPcrSelection, tpms_pcr_selection_default, tpml_pcr_selection_format,
  tpms_pcr_selection_format,
}

abbrev pub abc : List ℕ
abc = 97 ∷ 98 ∷ 99 ∷ []

pub abc-IsByte : All IsByte abc
abc-IsByte = (omega arith, (omega arith, (omega arith, tt)))

-- A sized buffer of a capacity, with three bytes in it.
abbrev pub three_bytes : ℕ → Tpm2b
three_bytes capacity = record { size = 3; buffer = overlay abc (replicate capacity 0) }

pub three_bytes-IsSized : (capacity : ℕ) → 3 ≤ capacity → IsSized capacity (three_bytes capacity)
three_bytes-IsSized capacity h = overlay-IsSized capacity 3 abc refl h (omega arith) abc-IsByte

abbrev pub a_clock : TpmsClockInfo
a_clock = record { clock = 5000; reset_count = 1; restart_count = 2; safe = 1 }

abbrev pub an_attest : TpmsAttest
an_attest = record {
  magic = 0xFF544347;
  qualified_signer = three_bytes tpm2b_name_capacity;
  extra_data = three_bytes tpm2b_data_capacity;
  clock_info = a_clock;
  firmware_version = 7;
  attested =
      TpmuAttest.time
        (record { time = record { time = 9000; clock_info = a_clock }; firmware_version = 7 });
}

pub an_attest-Valid : tpms_attest_format.Valid an_attest
unfolding tpms_attest_format tpmu_attest_variant_format tpms_clock_info_format tpms_time_info_format
    tpms_time_attest_info_format
an_attest-Valid = (
  omega arith,
  (
    (
      three_bytes-IsSized tpm2b_name_capacity (omega arith),
      (three_bytes-IsSized tpm2b_data_capacity (omega arith), ((omega arith), omega arith)),
    ),
    ((omega arith), omega arith),
  ),
)

abbrev pub a_public : TpmtPublic
a_public = record {
  name_alg = 11;
  object_attributes = 0x40;
  auth_policy = three_bytes tpm2b_digest_capacity;
  parms_and_id =
      PublicParmsAndId.keyed_hash (record { scheme = TpmtKeyedHashScheme.null tt })
        (three_bytes tpm2b_digest_capacity);
}

pub a_public-Valid : tpmt_public_format.Valid a_public
unfolding tpmt_public_format public_parms_and_id_variant_format tpms_keyed_hash_parms_format
    tpmt_keyed_hash_scheme_format tpmt_keyed_hash_scheme_variant_format
a_public-Valid = (
  (omega arith, (omega arith, three_bytes-IsSized tpm2b_digest_capacity (omega arith))),
  (tt, three_bytes-IsSized tpm2b_digest_capacity (omega arith)),
)

abbrev pub a_sensitive : TpmtSensitive
a_sensitive = record {
  auth_value = three_bytes tpm2b_digest_capacity;
  seed_value = three_bytes tpm2b_digest_capacity;
  sensitive = TpmuSensitiveComposite.bits (three_bytes tpm2b_sensitive_data_capacity);
}

pub a_sensitive-Valid : tpmt_sensitive_format.Valid a_sensitive
unfolding tpmt_sensitive_format tpmu_sensitive_composite_variant_format
a_sensitive-Valid = (
  (
    three_bytes-IsSized tpm2b_digest_capacity (omega arith),
    three_bytes-IsSized tpm2b_digest_capacity (omega arith),
  ),
  three_bytes-IsSized tpm2b_sensitive_data_capacity (omega arith),
)

abbrev pub a_selection : TpmlPcrSelection
a_selection = record {
  count = 1;
  pcr_selections =
      record { hash = 11; sizeof_select = 3; pcr_select = abc ++ 0 ∷ [] }
      ∷ replicate 15 tpms_pcr_selection_default;
}

pub a_selection-Valid : tpml_pcr_selection_format.Valid a_selection
unfolding tpml_pcr_selection_format tpms_pcr_selection_format
a_selection-Valid = (
  omega arith,
  omega arith,
  (
    (omega arith, (omega arith, omega arith, (omega arith, (omega arith, (omega arith, refl))))),
    refl,
  ),
)
