-- ===== src/Client/Response/Laws.antt =====
-- client/src/lib.rs: which responses are accepted, and what the others are refused with.
use tpm_rs.Prelude.{
  ℕ, ◌+◌, ◌-◌, ◌^◌, ◌<◌, ◌≡◌, ◌≢◌, refl, arith, some, none, false, List, ◌++◌, length, drop, take,
  drop-take, append_assoc, ltb, ◌==◌, ne→==, if◌then◌else◌, Bool-cases, inl, inr,
}
use tpm_rs.Outcome.{Outcome, ok, err, panic}
use tpm_rs.Errors.{TssError, tss_try_from, out_of_memory}
use tpm_rs.Marshal.Core.{to_be_bytes}
use tpm_rs.Server.Requests.{request_of, length-request_of}
use tpm_rs.Client.Session.{Session}
use tpm_rs.Client.Areas.{AuthorizationArea}
use tpm_rs.Client.Header.{RespHeader, resp_header, resp_header_format, resp_header-Lawful}
use tpm_rs.Client.Command.{TpmCommand}
use tpm_rs.Client.Response.{slice, read_response_header, read_body, read_response}

-- A response has the layout of a request: a tag, a size, a code, and what stands behind them.
parse-header :
    (tag size rc : ℕ) (rest : List ℕ)
    → tag < 2 ^ 16
    → size < 2 ^ 32
    → rc < 2 ^ 32
    → resp_header.try_unmarshal (request_of tag size rc rest)
      ≡ ok (record { tag = tag; size = size; rc = rc }, rest)
unfolding request_of resp_header_format
parse-header tag size rc rest a b c =
    let h : RespHeader = record { tag = tag; size = size; rc = rc } in
    let read =
      resp_header-Lawful.unmarshal_encode h rest
        (omega (arith, a), (omega (arith, b), omega (arith, c))) in
    rw
      (
        append_assoc (to_be_bytes 2 tag) (to_be_bytes 4 size ++ to_be_bytes 4 rc) rest,
        append_assoc (to_be_bytes 4 size) (to_be_bytes 4 rc) rest,
      )
      at read

checked_header :
    (header : RespHeader) (total left : ℕ)
    → total - left ≡ 10
    → (elim (tss_try_from header.rc) as (λ r. Outcome TssError (RespHeader × ℕ)) [
      | some error ↦ err error
      | none ↦ ok (header, total - left)
    ])
      ≡ (if header.rc == 0 then ok (header, 10) else err (record { code = header.rc }))
unfolding tss_try_from
checked_header header total left e = elim (Bool-cases (header.rc == 0)) [
  | inl zero_code ↦ rw (tss_try_from, zero_code, e) refl
  | inr failed ↦ rw (tss_try_from, failed) refl
]

pub read_response_header-request_of :
    (tag size rc : ℕ) (rest : List ℕ)
    → tag < 2 ^ 16
    → size < 2 ^ 32
    → rc < 2 ^ 32
    → read_response_header (request_of tag size rc rest) ≡ (
        if rc == 0
        then ok (record { tag = tag; size = size; rc = rc }, 10)
        else err (record { code = rc }))
unfolding read_response_header tss_try_from
read_response_header-request_of tag size rc rest a b c =
    let used : length (request_of tag size rc rest) - length rest ≡ 10 =
      omega (arith, length-request_of tag size rc rest) in
    rw (read_response_header, parse-header tag size rc rest a b c)
      (checked_header (record { tag = tag; size = size; rc = rc })
        (length (request_of tag size rc rest)) (length rest) used)

pub drop_header : (tag size rc : ℕ) (rest : List ℕ) → drop 10 (request_of tag size rc rest) ≡ rest
unfolding request_of to_be_bytes
drop_header tag size rc rest = refl

slice-request_of :
    (tag size : ℕ) (rest : List ℕ)
    → ltb (10 + length rest) size ≡ false
    → slice 10 size (request_of tag size 0 rest)
      ≡ (if ltb size 10 then panic else ok (take (size - 10) rest))
unfolding slice
slice-request_of tag size rest fits =
    let behind = drop_header tag size 0 rest in
    rw
      (
        slice,
        length-request_of tag size 0 rest,
        fits,
        drop-take 10 size (request_of tag size 0 rest),
        behind,
      )
      refl

module _ {X Y Z A : Type 0} (x_ops : Session X) (y_ops : Session Y) (z_ops : Session Z)
    (area : AuthorizationArea X Y Z A) {C H R K : Type 0} (t : TpmCommand C H R K)
    (sessions : A) where
  -- A response whose code is not 0, with fields of their widths, is returned as the error of
  -- that code, whatever its size says and whatever stands behind the header.
  pub read_response-failed :
      (tag size rc : ℕ) (rest : List ℕ)
      → tag < 2 ^ 16
      → size < 2 ^ 32
      → rc < 2 ^ 32
      → rc ≢ 0
      → read_response x_ops y_ops z_ops area t sessions (request_of tag size rc rest)
        ≡ err (record { code = rc })
  unfolding read_response
  read_response-failed tag size rc rest a b c failed =
      rw (read_response, read_response_header-request_of tag size rc rest a b c, ne→== rc 0 failed)
        refl

  module _ (tag size : ℕ) (rest : List ℕ) (tag_small : tag < 2 ^ 16)
      (size_small : size < 2 ^ 32) where
    -- A response with the code 0, with a tag and a size of their widths, is refused with
    -- OutOfMemory if its size exceeds the buffer, panics if its size is below the ten bytes
    -- of the header, and is otherwise what read_body reads from the bytes between the header
    -- and the size.
    pub read_response-sized :
        read_response x_ops y_ops z_ops area t sessions (request_of tag size 0 rest) ≡ (
          if ltb (10 + length rest) size
          then err out_of_memory
          else if ltb size 10
          then panic
          else read_body x_ops y_ops z_ops area t sessions
              (record { tag = tag; size = size; rc = 0 })
              (take (size - 10) rest))
    unfolding read_response
    read_response-sized =
        rw
          (
            read_response,
            read_response_header-request_of tag size 0 rest tag_small size_small (omega arith),
            length-request_of tag size 0 rest,
          )
          (elim (Bool-cases (ltb (10 + length rest) size)) [
            | inl long ↦ rw long refl
            | inr fits ↦
                rw (fits, slice-request_of tag size rest fits)
                  (elim (Bool-cases (ltb size 10)) [
                    | inl short ↦ rw short refl
                    | inr whole ↦ rw whole refl
                  ])
          ])
