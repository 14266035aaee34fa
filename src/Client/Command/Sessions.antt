-- ===== src/Client/Command/Sessions.antt =====
-- client/src/lib.rs: what `write_command_sessions` puts into the buffer: the size of the
-- authorization area, and the command of each session.
use tpm_rs.Prelude.{
  ℕ, ◌+◌, ◌-◌, ◌%◌, ◌^◌, ◌≤◌, ◌<◌, ◌≡◌, refl, arith, Option, none, some, List, [], ◌++◌, length,
  take, drop, length-append, length-take, length-drop, drop-append, append_assoc, take-append-drop,
  append-nil, if◌then◌else◌, Bool-cases, inl, inr,
}
use tpm_rs.Outcome.{ok}
use tpm_rs.Marshal.Core.{to_be_bytes}
use tpm_rs.Marshal.Bytes.{length-to_be_bytes}
use tpm_rs.Marshal.Lawful.{prim-Lawful}
use tpm_rs.Base.Session.{
  TpmsAuthCommand, tpms_auth_command, tpms_auth_command_format, tpms_auth_command-Lawful,
}
use tpm_rs.Client.Session.{Session}
use tpm_rs.Client.Areas.{AuthorizationArea, is_empty}
use tpm_rs.Client.Emit.{Emitted, emit, and_then}
use tpm_rs.Client.Emit.Laws.{filled, Writes, emit-Writes, emit_at-filled}
use tpm_rs.Client.Command.{marshal_auth_size, emit_session, emit_optional, write_command_sessions}

-- A session that is there gives a command, one that can be marshalled.
abbrev pub Authorizes : {X : Type 0} → Session X → Option X → Option TpmsAuthCommand → Type 0
Authorizes ops none none = Unit
Authorizes ops none (some c) = ⊥
Authorizes ops (some s) none = ⊥
Authorizes ops (some s) (some c) =
    (ops.get_auth_command s ≡ ok c) × tpms_auth_command_format.Valid c

-- The commands up to the first session that is not there.
abbrev pub command_bytes : Option TpmsAuthCommand → List ℕ → List ℕ
command_bytes none more = []
command_bytes (some c) more = tpms_auth_command_format.encode c ++ more

-- The size of the area, which does not count itself, and the area.
abbrev pub with_size : List ℕ → List ℕ
with_size area = to_be_bytes 4 (length area) ++ area

-- Whatever stands in the four bytes of the size and behind them, the statements add `more` and set
-- the size.
abbrev Finishes : (ℕ → List ℕ → Emitted) → List ℕ → Type 0
Finishes next more =
    (lead pre buffer : List ℕ)
    → length lead ≡ 4
    → length (with_size (pre ++ more)) ≤ length buffer
    → length buffer < 2 ^ 32
    → next (length (lead ++ pre)) ((lead ++ pre) ++ drop (length (lead ++ pre)) buffer)
      ≡ filled (with_size (pre ++ more)) buffer

length-with_size : (area : List ℕ) → length (with_size area) ≡ 4 + length area
length-with_size area =
    omega
      (arith, length-append (to_be_bytes 4 (length area)) area, length-to_be_bytes 4 (length area))

marshal_auth_size-Finishes : Finishes marshal_auth_size []
unfolding marshal_auth_size and_then
marshal_auth_size-Finishes lead pre buffer four room small =
    let n : length (lead ++ pre) ≡ 4 + length pre = omega (arith, length-append lead pre) in
    let tail = drop (length (lead ++ pre)) buffer in
    let sum : length (with_size (pre ++ [])) ≡ 4 + length pre =
      rw (append-nil pre) (length-with_size pre) in
    let size_eq : (length (lead ++ pre) - 4) % 2 ^ 32 ≡ length pre = omega (arith, n, sum) in
    let bytes = to_be_bytes 4 (length pre) in
    let small' : length ((lead ++ pre) ++ tail) < 2 ^ 32 = omega (
      arith,
      length-append (lead ++ pre) tail,
      length-drop (length (lead ++ pre)) buffer,
      small,
      sum,
    ) in
    let room' : length bytes ≤ length ((lead ++ pre) ++ tail) =
      omega (arith, length-append (lead ++ pre) tail, length-to_be_bytes 4 (length pre)) in
    let behind : drop (length bytes) ((lead ++ pre) ++ tail) ≡ pre ++ tail =
      rw (length-to_be_bytes 4 (length pre), ← four, append_assoc lead pre tail)
        (drop-append lead (pre ++ tail)) in
    rw
      (
        marshal_auth_size,
        size_eq,
        emit-Writes (prim-Lawful 4) (length pre) (omega (arith, n, sum)) ((lead ++ pre) ++ tail)
            small' room',
        append-nil pre,
        behind,
        n,
        length-with_size pre,
        append_assoc bytes pre (drop (4 + length pre) buffer),
      )
      refl

emit_some-Finishes :
    {X : Type 0} (ops : Session X) (s : X) (c : TpmsAuthCommand) (next : ℕ → List ℕ → Emitted)
    (more : List ℕ)
    → Authorizes ops (some s) (some c)
    → Finishes next more
    → Finishes (emit_optional ops (some s) next) (tpms_auth_command_format.encode c ++ more)
unfolding emit_optional emit_session and_then
emit_some-Finishes ops s c next more (given, valid) finishes lead pre buffer four room small =
    let e = tpms_auth_command_format.encode c in
    let room_e : length ((lead ++ pre) ++ e) ≤ length buffer = omega (
      arith,
      room,
      length-with_size (pre ++ (e ++ more)),
      length-append pre (e ++ more),
      length-append e more,
      length-append (lead ++ pre) e,
      length-append lead pre,
    ) in
    let step =
      emit_at-filled (emit tpms_auth_command c) (lead ++ pre) e buffer
        (emit-Writes tpms_auth_command-Lawful c valid) small room_e in
    rw
      (emit_optional, emit_session, given, step, append_assoc lead pre e, ← append_assoc pre e more)
      (finishes lead (pre ++ e) buffer four (rw (append_assoc pre e more) room) small)

emit_optional-Finishes :
    {X : Type 0} (ops : Session X) (s : Option X) (c : Option TpmsAuthCommand)
    (next : ℕ → List ℕ → Emitted) (more : List ℕ)
    → Authorizes ops s c
    → Finishes next more
    → Finishes (emit_optional ops s next) (command_bytes c more)
unfolding emit_optional
emit_optional-Finishes ops none none next more given finishes = marshal_auth_size-Finishes
emit_optional-Finishes ops none (some c) next more given finishes = absurd given
emit_optional-Finishes ops (some s) none next more given finishes = absurd given
emit_optional-Finishes ops (some s) (some c) next more given finishes =
    emit_some-Finishes ops s c next more given finishes

-- The commands of three sessions.
abbrev pub area_bytes :
    Option TpmsAuthCommand → Option TpmsAuthCommand → Option TpmsAuthCommand → List ℕ
area_bytes c1 c2 c3 = command_bytes c1 (command_bytes c2 (command_bytes c3 []))

module _ {X Y Z A : Type 0} (x_ops : Session X) (y_ops : Session Y) (z_ops : Session Z)
    (area : AuthorizationArea X Y Z A) (a : A) where
  abbrev pub Authorized :
      Option TpmsAuthCommand → Option TpmsAuthCommand → Option TpmsAuthCommand → Type 0
  Authorized c1 c2 c3 =
      Authorizes x_ops (area.decompose_ref a).0 c1
      × Authorizes y_ops (area.decompose_ref a).1 c2
      × Authorizes z_ops (area.decompose_ref a).2 c3

  -- What the sessions come to on the wire: nothing at all if there is none.
  abbrev pub sessions_bytes :
      Option TpmsAuthCommand → Option TpmsAuthCommand → Option TpmsAuthCommand → List ℕ
  sessions_bytes c1 c2 c3 = if is_empty area a then [] else with_size (area_bytes c1 c2 c3)

  module _ (c1 c2 c3 : Option TpmsAuthCommand) (given : Authorized c1 c2 c3) where
    optional_sessions : ℕ → List ℕ → Emitted
    optional_sessions = emit_optional x_ops (area.decompose_ref a).0 (
        emit_optional y_ops (area.decompose_ref a).1
          (emit_optional z_ops (area.decompose_ref a).2 marshal_auth_size))

    optional_sessions-Finishes : Finishes optional_sessions (area_bytes c1 c2 c3)
    unfolding optional_sessions
    optional_sessions-Finishes =
        emit_optional-Finishes x_ops (area.decompose_ref a).0 c1
          (emit_optional y_ops (area.decompose_ref a).1
            (emit_optional z_ops (area.decompose_ref a).2 marshal_auth_size))
          (command_bytes c2 (command_bytes c3 [])) given.0
          (emit_optional-Finishes y_ops (area.decompose_ref a).1 c2
            (emit_optional z_ops (area.decompose_ref a).2 marshal_auth_size) (command_bytes c3 [])
            given.1
            (emit_optional-Finishes z_ops (area.decompose_ref a).2 c3 marshal_auth_size [] given.2
              marshal_auth_size-Finishes))

    optional_sessions-filled :
        (buffer : List ℕ)
        → length buffer < 2 ^ 32
        → length (with_size (area_bytes c1 c2 c3)) ≤ length buffer
        → optional_sessions 4 buffer ≡ filled (with_size (area_bytes c1 c2 c3)) buffer
    optional_sessions-filled buffer small room =
        let four : length (take 4 buffer) ≡ 4 =
          length-take 4 buffer (omega (arith, room, length-with_size (area_bytes c1 c2 c3))) in
        let run = optional_sessions-Finishes (take 4 buffer) [] buffer four room small in
        rw (append-nil (take 4 buffer), four, take-append-drop 4 buffer) at run

    pub write_command_sessions-Writes :
        Writes (write_command_sessions x_ops y_ops z_ops area a) (sessions_bytes c1 c2 c3)
    unfolding write_command_sessions optional_sessions
    write_command_sessions-Writes buffer small room = elim (Bool-cases (is_empty area a)) [
      | inl empty ↦ rw (write_command_sessions, empty) refl
      | inr some_session ↦
          let run = optional_sessions-filled buffer small (rw some_session at room) in
          rw (write_command_sessions, some_session) run
    ]
