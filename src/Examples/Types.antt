-- ===== src/Examples/Types.antt =====
-- The wire formats of the types of base/src/lib.rs, at a value of each.
use tpm_rs.Prelude.{
  ℕ, ◌≤◌, ◌≡◌, ◌≢◌, arith, List, [], ◌++◌, length, drop, replicate, All, All-append,
}
use tpm_rs.Outcome.{ok, err, panic}
use tpm_rs.Errors.{selector}
use tpm_rs.Base.AttestSelectors.{tpmu_attest-unknown_selector}
use tpm_rs.Marshal.Core.{IsByte, to_be_bytes}
use tpm_rs.Base.AttestInfo.{
  tpms_clock_info_format, tpms_time_info_format, tpms_time_attest_info_format,
}
use tpm_rs.Base.AttestUnion.{tpmu_attest_variant, tpmu_attest_variant_format}
use tpm_rs.Base.Attest.{tpms_attest, tpms_attest_format, tpms_attest-Lawful}
use tpm_rs.Base.KeyedHash.{
  tpmt_keyed_hash_scheme_variant_format, tpmt_keyed_hash_scheme_format,
  tpms_keyed_hash_parms_format,
}
use tpm_rs.Base.PublicParms.{public_parms_and_id_variant_format}
use tpm_rs.Base.Public.{tpmt_public, tpmt_public_format, tpmt_public-Lawful}
use tpm_rs.Base.SensitiveParts.{tpmu_sensitive_composite_variant_format}
use tpm_rs.Base.Sensitive.{tpmt_sensitive, tpmt_sensitive_format, tpmt_sensitive-Lawful}
use tpm_rs.Base.Pcr.{
  tpml_pcr_selection, tpml_pcr_selection_format, tpms_pcr_selection_format,
  tpml_pcr_selection-Lawful,
}
use tpm_rs.Base.RoundTrips.{
  tpms_attest-unmarshal_marshal, tpms_attest-marshal_unmarshal, tpmt_public-unmarshal_marshal,
  tpmt_public-marshal_unmarshal, tpmt_sensitive-unmarshal_marshal, tpmt_sensitive-marshal_unmarshal,
  tpml_pcr_selection-unmarshal_marshal, tpml_pcr_selection-marshal_unmarshal,
  tpms_attest-unmarshal_total,
}
use tpm_rs.Examples.Values.{
  abc, abc-IsByte, an_attest, an_attest-Valid, a_public, a_public-Valid, a_sensitive,
  a_sensitive-Valid, a_selection, a_selection-Valid,
}

abbrev room : List ℕ
room = replicate 300 0

an_attest-fits : length (tpms_attest_format.encode an_attest) ≤ length room
unfolding tpms_attest_format tpmu_attest_variant_format tpms_clock_info_format tpms_time_info_format
    tpms_time_attest_info_format to_be_bytes
an_attest-fits = omega arith

abbrev an_attest_with : List ℕ → List ℕ
an_attest_with rest = tpms_attest_format.encode an_attest ++ rest

an_attest_with-IsByte : (rest : List ℕ) → All IsByte rest → All IsByte (an_attest_with rest)
an_attest_with-IsByte rest h =
    All-append IsByte (tpms_attest_format.encode an_attest) rest
      (tpms_attest-Lawful.encode_bytes an_attest an_attest-Valid) h

tpms_attest-unmarshal_marshal_example :
    ((tpms_attest.try_marshal an_attest room).0 ≡ ok (length (tpms_attest_format.encode an_attest)))
    × (tpms_attest.try_unmarshal (tpms_attest.try_marshal an_attest room).1
        ≡ ok (an_attest, drop (length (tpms_attest_format.encode an_attest)) room))
tpms_attest-unmarshal_marshal_example =
    tpms_attest-unmarshal_marshal an_attest room an_attest-Valid an_attest-fits

tpms_attest-marshal_unmarshal_example :
    (bytes : List ℕ) × (an_attest_with [] ≡ bytes ++ [])
    × (an_attest_with abc ≡ bytes ++ abc)
    × (tpms_attest.try_marshal an_attest (an_attest_with [])
        ≡ (ok (length bytes), an_attest_with []))
tpms_attest-marshal_unmarshal_example =
    tpms_attest-marshal_unmarshal an_attest (an_attest_with []) [] (an_attest_with abc) abc
      (an_attest_with-IsByte [] tt) (an_attest_with-IsByte abc abc-IsByte)
      (tpms_attest-Lawful.unmarshal_encode an_attest [] an_attest-Valid)
      (tpms_attest-Lawful.unmarshal_encode an_attest abc an_attest-Valid)

a_public-fits : length (tpmt_public_format.encode a_public) ≤ length room
unfolding tpmt_public_format public_parms_and_id_variant_format tpms_keyed_hash_parms_format
    tpmt_keyed_hash_scheme_format tpmt_keyed_hash_scheme_variant_format to_be_bytes
a_public-fits = omega arith

abbrev a_public_with : List ℕ → List ℕ
a_public_with rest = tpmt_public_format.encode a_public ++ rest

a_public_with-IsByte : (rest : List ℕ) → All IsByte rest → All IsByte (a_public_with rest)
a_public_with-IsByte rest h =
    All-append IsByte (tpmt_public_format.encode a_public) rest
      (tpmt_public-Lawful.encode_bytes a_public a_public-Valid) h

tpmt_public-unmarshal_marshal_example :
    ((tpmt_public.try_marshal a_public room).0 ≡ ok (length (tpmt_public_format.encode a_public)))
    × (tpmt_public.try_unmarshal (tpmt_public.try_marshal a_public room).1
        ≡ ok (a_public, drop (length (tpmt_public_format.encode a_public)) room))
tpmt_public-unmarshal_marshal_example =
    tpmt_public-unmarshal_marshal a_public room a_public-Valid a_public-fits

tpmt_public-marshal_unmarshal_example :
    (bytes : List ℕ) × (a_public_with [] ≡ bytes ++ [])
    × (a_public_with abc ≡ bytes ++ abc)
    × (tpmt_public.try_marshal a_public (a_public_with []) ≡ (ok (length bytes), a_public_with []))
tpmt_public-marshal_unmarshal_example =
    tpmt_public-marshal_unmarshal a_public (a_public_with []) [] (a_public_with abc) abc
      (a_public_with-IsByte [] tt) (a_public_with-IsByte abc abc-IsByte)
      (tpmt_public-Lawful.unmarshal_encode a_public [] a_public-Valid)
      (tpmt_public-Lawful.unmarshal_encode a_public abc a_public-Valid)

a_sensitive-fits : length (tpmt_sensitive_format.encode a_sensitive) ≤ length room
unfolding tpmt_sensitive_format tpmu_sensitive_composite_variant_format to_be_bytes
a_sensitive-fits = omega arith

abbrev a_sensitive_with : List ℕ → List ℕ
a_sensitive_with rest = tpmt_sensitive_format.encode a_sensitive ++ rest

a_sensitive_with-IsByte : (rest : List ℕ) → All IsByte rest → All IsByte (a_sensitive_with rest)
a_sensitive_with-IsByte rest h =
    All-append IsByte (tpmt_sensitive_format.encode a_sensitive) rest
      (tpmt_sensitive-Lawful.encode_bytes a_sensitive a_sensitive-Valid) h

tpmt_sensitive-unmarshal_marshal_example :
    ((tpmt_sensitive.try_marshal a_sensitive room).0
      ≡ ok (length (tpmt_sensitive_format.encode a_sensitive)))
    × (tpmt_sensitive.try_unmarshal (tpmt_sensitive.try_marshal a_sensitive room).1
        ≡ ok (a_sensitive, drop (length (tpmt_sensitive_format.encode a_sensitive)) room))
tpmt_sensitive-unmarshal_marshal_example =
    tpmt_sensitive-unmarshal_marshal a_sensitive room a_sensitive-Valid a_sensitive-fits

tpmt_sensitive-marshal_unmarshal_example :
    (bytes : List ℕ) × (a_sensitive_with [] ≡ bytes ++ [])
    × (a_sensitive_with abc ≡ bytes ++ abc)
    × (tpmt_sensitive.try_marshal a_sensitive (a_sensitive_with [])
        ≡ (ok (length bytes), a_sensitive_with []))
tpmt_sensitive-marshal_unmarshal_example =
    tpmt_sensitive-marshal_unmarshal a_sensitive (a_sensitive_with []) [] (a_sensitive_with abc) abc
      (a_sensitive_with-IsByte [] tt) (a_sensitive_with-IsByte abc abc-IsByte)
      (tpmt_sensitive-Lawful.unmarshal_encode a_sensitive [] a_sensitive-Valid)
      (tpmt_sensitive-Lawful.unmarshal_encode a_sensitive abc a_sensitive-Valid)

a_selection-fits : length (tpml_pcr_selection_format.encode a_selection) ≤ length room
unfolding tpml_pcr_selection_format tpms_pcr_selection_format to_be_bytes
a_selection-fits = omega arith

abbrev a_selection_with : List ℕ → List ℕ
a_selection_with rest = tpml_pcr_selection_format.encode a_selection ++ rest

a_selection_with-IsByte : (rest : List ℕ) → All IsByte rest → All IsByte (a_selection_with rest)
a_selection_with-IsByte rest h =
    All-append IsByte (tpml_pcr_selection_format.encode a_selection) rest
      (tpml_pcr_selection-Lawful.encode_bytes a_selection a_selection-Valid) h

tpml_pcr_selection-unmarshal_marshal_example :
    ((tpml_pcr_selection.try_marshal a_selection room).0
      ≡ ok (length (tpml_pcr_selection_format.encode a_selection)))
    × (tpml_pcr_selection.try_unmarshal (tpml_pcr_selection.try_marshal a_selection room).1
        ≡ ok (a_selection, drop (length (tpml_pcr_selection_format.encode a_selection)) room))
tpml_pcr_selection-unmarshal_marshal_example =
    tpml_pcr_selection-unmarshal_marshal a_selection room a_selection-Valid a_selection-fits

tpml_pcr_selection-marshal_unmarshal_example :
    (bytes : List ℕ) × (a_selection_with [] ≡ bytes ++ [])
    × (a_selection_with abc ≡ bytes ++ abc)
    × (tpml_pcr_selection.try_marshal a_selection (a_selection_with [])
        ≡ (ok (length bytes), a_selection_with []))
tpml_pcr_selection-marshal_unmarshal_example =
    tpml_pcr_selection-marshal_unmarshal a_selection (a_selection_with []) [] (a_selection_with abc)
      abc (a_selection_with-IsByte [] tt) (a_selection_with-IsByte abc abc-IsByte)
      (tpml_pcr_selection-Lawful.unmarshal_encode a_selection [] a_selection-Valid)
      (tpml_pcr_selection-Lawful.unmarshal_encode a_selection abc a_selection-Valid)

tpms_attest-unmarshal_total_example : tpms_attest.try_unmarshal abc ≢ panic
tpms_attest-unmarshal_total_example = tpms_attest-unmarshal_total abc

unknown_selector_example : tpmu_attest_variant.try_unmarshal_variant 0x8000 abc ≡ err selector
unknown_selector_example = tpmu_attest-unknown_selector 0x8000 abc (
  (λ e. omega (arith, e)),
  (
    (λ e. omega (arith, e)),
    (
      (λ e. omega (arith, e)),
      (
        (λ e. omega (arith, e)),
        ((λ e. omega (arith, e)), ((λ e. omega (arith, e)), ((λ e. omega (arith, e)), tt))),
      ),
    ),
  ),
)
