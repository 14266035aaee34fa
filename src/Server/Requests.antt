-- ===== src/Server/Requests.antt =====
-- Which requests the server answers, and what it refuses them with (server/src/tpmctx.rs).
use tpm_rs.Prelude.{
  ℕ, ◌+◌, ◌^◌, ◌<◌, ◌≡◌, ◌∙◌, sym, ap, refl, arith, List, [], ◌++◌, Option, none, some, ◌⊎◌, length,
  take, length-append, take-append, drop-append, append_assoc, ◌==◌, ==_refl, le→ltb, lt→ltb,
  if◌then◌else◌, Bool-cases, inl, inr,
}
use tpm_rs.Outcome.{ok, err}
use tpm_rs.Errors.{command_size, command_code}
use tpm_rs.Marshal.Core.{to_be_bytes, from_be_bytes}
use tpm_rs.Marshal.Bytes.{length-to_be_bytes, from_be_bytes-to_be_bytes}
use tpm_rs.Base.Constants.Commands.{TpmCc, tpm_cc_number}
use tpm_rs.Server.Buffer.{read_into, ok_or, map_option}
use tpm_rs.Server.Spec.{number_at, requested}

number_at-append :
    (offset w n : ℕ) (pre post : List ℕ)
    → offset ≡ length pre
    → n < 256 ^ w
    → number_at offset w (pre ++ (to_be_bytes w n ++ post)) ≡ ok n
unfolding number_at read_into
number_at-append offset w n pre post e small =
    let bytes = to_be_bytes w n in
    let len : length bytes ≡ w = length-to_be_bytes w n in
    let front : take w (bytes ++ post) ≡ bytes =
      ap (λ (k : ℕ). take k (bytes ++ post)) (sym len) ∙ take-append bytes post in
    rw
      (
        e,
        le→ltb (length (pre ++ (bytes ++ post))) (length pre + w)
            (omega (arith, length-append pre (bytes ++ post), length-append bytes post)),
        drop-append pre (bytes ++ post),
        front,
        from_be_bytes-to_be_bytes w n small,
      )
      refl

number_at-short :
    (offset w : ℕ) (request : List ℕ)
    → length request < offset + w
    → number_at offset w request ≡ err command_size
unfolding number_at read_into
number_at-short offset w request h = rw (lt→ltb (length request) (offset + w) h) refl

-- A request: the tag of its sessions, its size, the command code, and the parameters.
unfoldable pub request_of : ℕ → ℕ → ℕ → List ℕ → List ℕ
request_of tag size code parameters =
    to_be_bytes 2 tag ++ (to_be_bytes 4 size ++ (to_be_bytes 4 code ++ parameters))

pub length-request_of :
    (tag size code : ℕ) (parameters : List ℕ)
    → length (request_of tag size code parameters) ≡ 10 + length parameters
unfolding request_of
length-request_of tag size code parameters = omega (
  arith,
  length-append (to_be_bytes 2 tag) (to_be_bytes 4 size ++ (to_be_bytes 4 code ++ parameters)),
  length-append (to_be_bytes 4 size) (to_be_bytes 4 code ++ parameters),
  length-append (to_be_bytes 4 code) parameters,
  length-to_be_bytes 2 tag,
  length-to_be_bytes 4 size,
  length-to_be_bytes 4 code,
)

module _ (tag size code : ℕ) (parameters : List ℕ) (tag_small : tag < 2 ^ 16)
    (size_small : size < 2 ^ 32) (code_small : code < 2 ^ 32) where
  front_1 : length (to_be_bytes 2 tag ++ to_be_bytes 4 size) ≡ 6
  front_1 = omega (
    arith,
    length-append (to_be_bytes 2 tag) (to_be_bytes 4 size),
    length-to_be_bytes 2 tag,
    length-to_be_bytes 4 size,
  )

  code_at : number_at 6 4 (request_of tag size code parameters) ≡ ok code
  unfolding request_of
  code_at =
      rw
        (← append_assoc (to_be_bytes 2 tag) (to_be_bytes 4 size) (to_be_bytes 4 code ++ parameters))
        (number_at-append 6 4 code (to_be_bytes 2 tag ++ to_be_bytes 4 size) parameters
          (sym front_1) (omega arith))

  -- The server reads back the fields of a request.
  pub requested-request_of : requested (request_of tag size code parameters) ≡ (
      if size == 10 + length parameters
      then if code == tpm_cc_number TpmCc.get_random
        then number_at 10 2 (request_of tag size code parameters)
        else err command_code
      else err command_size)
  unfolding requested
  requested-request_of =
      let tag_at : number_at 0 2 (request_of tag size code parameters) ≡ ok tag =
        unfold request_of in number_at-append 0 2 tag [] _ refl (omega arith) in
      let size_at : number_at 2 4 (request_of tag size code parameters) ≡ ok size =
        unfold request_of in
        number_at-append 2 4 size (to_be_bytes 2 tag) _ (sym (length-to_be_bytes 2 tag))
          (omega arith) in
      rw (tag_at, size_at, length-request_of tag size code parameters, code_at)
        (elim (Bool-cases (size == 10 + length parameters)) [
          | inl same ↦ rw same refl
          | inr other ↦ rw other refl
        ])

ok_or-cases :
    (m : Option (List ℕ))
    → (ok_or (map_option from_be_bytes m) command_size ≡ err command_size)
      ⊎ ((n : ℕ) × (ok_or (map_option from_be_bytes m) command_size ≡ ok n))
ok_or-cases none = inl refl
ok_or-cases (some x) = inr (from_be_bytes x, refl)

pub number_at-cases :
    (offset w : ℕ) (request : List ℕ)
    → (number_at offset w request ≡ err command_size)
      ⊎ ((n : ℕ) × (number_at offset w request ≡ ok n))
unfolding number_at
number_at-cases offset w request = ok_or-cases (read_into offset w request)

-- A request with less than a header is refused with `CommandSize`.
pub requested_truncated :
    (request : List ℕ) → length request < 10 → requested request ≡ err command_size
unfolding requested
requested_truncated request h = elim (number_at-cases 0 2 request) [
  | inl no_tag ↦ rw no_tag refl
  | inr (tag, tag_at) ↦ elim (number_at-cases 2 4 request) [
    | inl no_size ↦ rw (tag_at, no_size) refl
    | inr (size, size_at) ↦ elim (Bool-cases (size == length request)) [
      | inl same ↦ rw (tag_at, size_at, same, number_at-short 6 4 request h) refl
      | inr other ↦ rw (tag_at, size_at, other) refl
    ]
  ]
]

-- `TPM2_GetRandom` for `n` bytes, with anything behind the parameter.
abbrev pub get_random_request : ℕ → ℕ → List ℕ → List ℕ
get_random_request tag n rest =
    request_of tag (12 + length rest) (tpm_cc_number TpmCc.get_random) (to_be_bytes 2 n ++ rest)

module _ (tag n : ℕ) (rest : List ℕ) (tag_small : tag < 2 ^ 16) (n_small : n < 2 ^ 16)
    (small : 12 + length rest < 2 ^ 32) where
  count_at : number_at 10 2 (get_random_request tag n rest) ≡ ok n
  unfolding request_of
  count_at =
      let a = to_be_bytes 2 tag in
      let b = to_be_bytes 4 (12 + length rest) in
      let c = to_be_bytes 4 (tpm_cc_number TpmCc.get_random) in
      let len : length ((a ++ b) ++ c) ≡ 10 = omega (
        arith,
        length-append (a ++ b) c,
        length-append a b,
        length-to_be_bytes 2 tag,
        length-to_be_bytes 4 (12 + length rest),
        length-to_be_bytes 4 (tpm_cc_number TpmCc.get_random),
      ) in
      rw
        (
          ← append_assoc a b (c ++ (to_be_bytes 2 n ++ rest)),
          ← append_assoc (a ++ b) c (to_be_bytes 2 n ++ rest),
        )
        (number_at-append 10 2 n ((a ++ b) ++ c) rest (sym len) (omega arith))

  pub requested-get_random : requested (get_random_request tag n rest) ≡ ok n
  requested-get_random =
      let size_eq : 12 + length rest ≡ 10 + length (to_be_bytes 2 n ++ rest) =
        omega (arith, length-append (to_be_bytes 2 n) rest, length-to_be_bytes 2 n) in
      requested-request_of tag (12 + length rest) (tpm_cc_number TpmCc.get_random)
        (to_be_bytes 2 n ++ rest) tag_small small (omega arith)
      ∙ rw (← size_eq, ==_refl (12 + length rest)) count_at
