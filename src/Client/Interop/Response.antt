-- ===== src/Client/Interop/Response.antt =====
-- client/src/lib.rs: a response of the server to `TPM2_GetRandom`, as the client reads it.
use tpm_rs.Prelude.{
  ℕ, ◌+◌, ◌≡◌, ap, refl, arith, List, length, take, length-append, length-take, ◌==◌, if◌then◌else◌,
  Bool-cases, inl, inr, All,
}
use tpm_rs.Outcome.{map_err-eq-ok, Outcome, ok, err, >>=-eq-ok}
use tpm_rs.Errors.{TssError, from_rc, tpm_unexpected}
use tpm_rs.Marshal.Core.{IsByte, to_be_bytes}
use tpm_rs.Marshal.Bytes.{length-to_be_bytes}
use tpm_rs.Base.Commands.Management.{
  GetRandomResp, get_random_resp, get_random_resp_format, get_random_resp-Lawful,
}
use tpm_rs.Tpm2b.Simple.{Tpm2b}
use tpm_rs.Tpm2b.SimpleLaws.{IsSized}
use tpm_rs.Base.Buffers.{tpm2b_digest_capacity}
use tpm_rs.Client.Session.{no_session}
use tpm_rs.Client.Areas.{area_0}
use tpm_rs.Client.Response.{parse, read_optional, read_response_sessions, read_body}
use tpm_rs.Client.Instances.{get_random_command}

length-get_random_resp :
    (r : GetRandomResp)
    → get_random_resp_format.Valid r
    → length (get_random_resp_format.encode r) ≡ 2 + r.random_bytes.size
unfolding get_random_resp_format
length-get_random_resp r valid =
    let t : Tpm2b = r.random_bytes in
    let sized : IsSized tpm2b_digest_capacity t = valid in
    omega (
      arith,
      length-append (to_be_bytes 2 t.size) (take t.size t.buffer),
      length-to_be_bytes 2 t.size,
      length-take t.size t.buffer (omega (arith, sized.size_le, sized.full)),
    )

empty_rest :
    (resp r : GetRandomResp) (rest : List ℕ) (result : Outcome TssError (GetRandomResp × Unit {0}))
    → result ≡ (if length rest == 0 then ok (resp, tt) else err tpm_unexpected)
    → result ≡ ok (r, tt)
    → (resp ≡ r) × (length rest ≡ 0)
empty_rest resp r rest result split e = elim (Bool-cases (length rest == 0)) [
  | inl empty ↦ ground arith
  | inr more ↦ absurd (ground arith)
]

pub read_body-filled :
    (size : ℕ) (filled' : List ℕ) (r : GetRandomResp)
    → All IsByte filled'
    → read_body no_session no_session no_session area_0 get_random_command tt
        (record { tag = 0x8001; size = size; rc = 0 })
        filled'
      ≡ ok (r, tt)
    → r.random_bytes.size + 2 ≡ length filled'
unfolding read_body read_response_sessions read_optional
read_body-filled size filled' r bytes accepted =
    let ((resp, rest), parsed, more) = >>=-eq-ok (parse get_random_resp filled') _ accepted in
    let (same, none_left) = empty_rest resp r rest _ refl more in
    let (valid, split) =
      get_random_resp-Lawful.unmarshal_exact resp filled' rest bytes
        (map_err-eq-ok from_rc (get_random_resp.try_unmarshal filled') (resp, rest) parsed) in
    let size_eq : resp.random_bytes.size ≡ r.random_bytes.size =
      ap (λ (x : GetRandomResp). x.random_bytes.size) same in
    omega (
      arith,
      size_eq,
      none_left,
      length-get_random_resp resp valid,
      length-append (get_random_resp_format.encode resp) rest,
      ap length split,
    )
