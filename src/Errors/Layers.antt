-- ===== src/Errors/Layers.antt =====
-- errors/src/tss_rc.rs: the layers of the client, and the errors that each of them has.
use tpm_rs.Prelude.{ℕ, ◌/◌, ◌%◌, ◌^◌, ◌≡◌, refl}
use tpm_rs.Errors.Tss
use tpm_rs.Errors.Tss.{TssError, layer_new}

-- `TssTddlError`, `TssTcsError` and `TssTspError`
pub data Layer : Type 0 where
  tddl tcs tsp : Layer

abbrev pub layer_number : Layer → ℕ
layer_number Layer.tddl = 0x1
layer_number Layer.tcs = 0x2
layer_number Layer.tsp = 0x3

pub data LayerError : Type 0 where
  general_failure bad_parameter internal_error out_of_memory not_implemented key_alredy_registered
        tpm_unexpected comm_failure timeout unsupported canceled :
      LayerError

abbrev pub layer_error_number : LayerError → ℕ
layer_error_number LayerError.general_failure = 2
layer_error_number LayerError.bad_parameter = 3
layer_error_number LayerError.internal_error = 4
layer_error_number LayerError.out_of_memory = 5
layer_error_number LayerError.not_implemented = 6
layer_error_number LayerError.key_alredy_registered = 8
layer_error_number LayerError.tpm_unexpected = 16
layer_error_number LayerError.comm_failure = 17
layer_error_number LayerError.timeout = 18
layer_error_number LayerError.unsupported = 20
layer_error_number LayerError.canceled = 22

abbrev pub layer_error : Layer → LayerError → TssError
layer_error l e = layer_new (layer_number l) (layer_error_number e)

-- The three that the client returns.
tcs_bad_parameter : layer_error Layer.tcs LayerError.bad_parameter ≡ Tss.bad_parameter
tcs_bad_parameter = refl

tcs_out_of_memory : layer_error Layer.tcs LayerError.out_of_memory ≡ Tss.out_of_memory
tcs_out_of_memory = refl

tcs_tpm_unexpected : layer_error Layer.tcs LayerError.tpm_unexpected ≡ Tss.tpm_unexpected
tcs_tpm_unexpected = refl

-- A code tells the layer and the error apart.
abbrev pub Tells : Layer → LayerError → Type 0
Tells l e =
    ((layer_error l e).code / 2 ^ 12 ≡ layer_number l)
    × ((layer_error l e).code % 2 ^ 12 ≡ layer_error_number e)

pub layer_error-Tells : (l : Layer) (e : LayerError) → Tells l e
layer_error-Tells Layer.tddl LayerError.general_failure = (refl, refl)
layer_error-Tells Layer.tddl LayerError.bad_parameter = (refl, refl)
layer_error-Tells Layer.tddl LayerError.internal_error = (refl, refl)
layer_error-Tells Layer.tddl LayerError.out_of_memory = (refl, refl)
layer_error-Tells Layer.tddl LayerError.not_implemented = (refl, refl)
layer_error-Tells Layer.tddl LayerError.key_alredy_registered = (refl, refl)
layer_error-Tells Layer.tddl LayerError.tpm_unexpected = (refl, refl)
layer_error-Tells Layer.tddl LayerError.comm_failure = (refl, refl)
layer_error-Tells Layer.tddl LayerError.timeout = (refl, refl)
layer_error-Tells Layer.tddl LayerError.unsupported = (refl, refl)
layer_error-Tells Layer.tddl LayerError.canceled = (refl, refl)
layer_error-Tells Layer.tcs LayerError.general_failure = (refl, refl)
layer_error-Tells Layer.tcs LayerError.bad_parameter = (refl, refl)
layer_error-Tells Layer.tcs LayerError.internal_error = (refl, refl)
layer_error-Tells Layer.tcs LayerError.out_of_memory = (refl, refl)
layer_error-Tells Layer.tcs LayerError.not_implemented = (refl, refl)
layer_error-Tells Layer.tcs LayerError.key_alredy_registered = (refl, refl)
layer_error-Tells Layer.tcs LayerError.tpm_unexpected = (refl, refl)
layer_error-Tells Layer.tcs LayerError.comm_failure = (refl, refl)
layer_error-Tells Layer.tcs LayerError.timeout = (refl, refl)
layer_error-Tells Layer.tcs LayerError.unsupported = (refl, refl)
layer_error-Tells Layer.tcs LayerError.canceled = (refl, refl)
layer_error-Tells Layer.tsp LayerError.general_failure = (refl, refl)
layer_error-Tells Layer.tsp LayerError.bad_parameter = (refl, refl)
layer_error-Tells Layer.tsp LayerError.internal_error = (refl, refl)
layer_error-Tells Layer.tsp LayerError.out_of_memory = (refl, refl)
layer_error-Tells Layer.tsp LayerError.not_implemented = (refl, refl)
layer_error-Tells Layer.tsp LayerError.key_alredy_registered = (refl, refl)
layer_error-Tells Layer.tsp LayerError.tpm_unexpected = (refl, refl)
layer_error-Tells Layer.tsp LayerError.comm_failure = (refl, refl)
layer_error-Tells Layer.tsp LayerError.timeout = (refl, refl)
layer_error-Tells Layer.tsp LayerError.unsupported = (refl, refl)
layer_error-Tells Layer.tsp LayerError.canceled = (refl, refl)
