-- ===== src/Client/Response/Sessions.antt =====
-- client/src/lib.rs: what `read_response_sessions` accepts.
use tpm_rs.Prelude.{ℕ, ◌≡◌, refl, Option, none, some, List, [], ◌++◌, append_assoc}
use tpm_rs.Outcome.{Outcome, ok}
use tpm_rs.Errors.{TssError}
use tpm_rs.Marshal.Core.{Marshalable}
use tpm_rs.Marshal.Lawful.{Format, Lawful}
use tpm_rs.Base.Session.{TpmsAuthResponse, tpms_auth_response_format, tpms_auth_response-Lawful}
use tpm_rs.Client.Session.{Session}
use tpm_rs.Client.Areas.{AuthorizationArea}
use tpm_rs.Client.Response.{parse, read_optional, read_response_sessions}

pub parse-encode {ℓ} :
    {A : Type ℓ} {m : Marshalable A} {f : Format A}
    → Lawful m f
    → (a : A) (rest : List ℕ) → f.Valid a
    → parse m (f.encode a ++ rest) ≡ ok (a, rest)
parse-encode lawful a rest valid = rw (lawful.unmarshal_encode a rest valid) refl

-- A session that is there gets a response, one that it validates.
abbrev pub Validates : {X : Type 0} → Session X → Option X → Option TpmsAuthResponse → Type 0
Validates ops none none = Unit
Validates ops none (some r) = ⊥
Validates ops (some s) none = ⊥
Validates ops (some s) (some r) =
    (ops.validate_auth_response s r ≡ ok tt) × tpms_auth_response_format.Valid r

-- The responses up to the first session that is not there.
abbrev pub response_bytes : Option TpmsAuthResponse → List ℕ → List ℕ
response_bytes none more = []
response_bytes (some r) more = tpms_auth_response_format.encode r ++ more

-- The statements read these bytes and leave what stands behind them.
abbrev Reads : (List ℕ → Outcome TssError (List ℕ)) → List ℕ → Type 0
Reads next more = (extra : List ℕ) → next (more ++ extra) ≡ ok extra

read_optional-Reads :
    {X : Type 0} (ops : Session X) (s : Option X) (r : Option TpmsAuthResponse)
    (next : List ℕ → Outcome TssError (List ℕ)) (more : List ℕ)
    → Validates ops s r
    → Reads next more
    → Reads (read_optional ops s next) (response_bytes r more)
unfolding read_optional
read_optional-Reads ops none none next more given reads extra = refl
read_optional-Reads ops none (some r) next more given reads extra = absurd given
read_optional-Reads ops (some s) none next more given reads extra = absurd given
read_optional-Reads ops (some s) (some r) next more (accepts, valid) reads extra =
    rw
      (
        read_optional,
        append_assoc (tpms_auth_response_format.encode r) more extra,
        tpms_auth_response-Lawful.unmarshal_encode r (more ++ extra) valid,
        accepts,
      )
      (reads extra)

module _ {X Y Z A : Type 0} (x_ops : Session X) (y_ops : Session Y) (z_ops : Session Z)
    (area : AuthorizationArea X Y Z A) (a : A) (r1 r2 r3 : Option TpmsAuthResponse) where
  abbrev pub Validated : Type 0
  Validated =
      Validates x_ops (area.decompose_ref a).0 r1
      × Validates y_ops (area.decompose_ref a).1 r2
      × Validates z_ops (area.decompose_ref a).2 r3

  -- The responses of three sessions.
  abbrev pub responses_bytes : List ℕ
  responses_bytes = response_bytes r1 (response_bytes r2 (response_bytes r3 []))

  pub read_response_sessions-append :
      (extra : List ℕ)
      → Validated
      → read_response_sessions x_ops y_ops z_ops area a (responses_bytes ++ extra) ≡ ok extra
  unfolding read_response_sessions
  read_response_sessions-append extra given =
      let third = read_optional z_ops (area.decompose_ref a).2 (λ b. ok b) in
      let second = read_optional y_ops (area.decompose_ref a).1 third in
      let last : Reads third (response_bytes r3 []) =
        read_optional-Reads z_ops (area.decompose_ref a).2 r3 (λ b. ok b) [] given.2 (λ e. refl) in
      read_optional-Reads x_ops (area.decompose_ref a).0 r1 second _ given.0
        (read_optional-Reads y_ops (area.decompose_ref a).1 r2 third _ given.1 last) extra
