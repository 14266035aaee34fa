-- ===== src/Client/Command/Layout.antt =====
-- client/src/lib.rs: the bytes that the part of `run_command_with_handles` before the transaction
-- puts into the buffer.
use tpm_rs.Prelude.{
  ℕ, ◌+◌, ◌%◌, ◌^◌, ◌≤◌, ◌<◌, ◌≡◌, ap, refl, arith, Option, List, ◌++◌, length, drop, length-append,
  length-drop, drop-append, append_assoc, [], if◌then◌else◌, ◌∙◌, Bool, true, false,
}
use tpm_rs.Outcome.{ok}
use tpm_rs.Marshal.Core.{to_be_bytes}
use tpm_rs.Marshal.Lawful.{Format, Lawful}
use tpm_rs.Base.Session.{TpmsAuthCommand}
use tpm_rs.Base.Constants.Interface.{TpmiStCommandTag, tpmi_st_command_tag_number}
use tpm_rs.Server.Requests.{request_of, length-request_of}
use tpm_rs.Client.Session.{Session}
use tpm_rs.Client.Areas.{AuthorizationArea, is_empty}
use tpm_rs.Client.Header.{
  CmdHeader, cmd_header, cmd_header_format, cmd_header-Lawful, cmd_header_new,
}
use tpm_rs.Client.Emit.{Emitted, emit, and_then}
use tpm_rs.Client.Emit.Laws.{filled, emit-Writes, and_then-filled}
use tpm_rs.Client.Command.{TpmCommand, write_command_sessions, build_command}
use tpm_rs.Client.Command.Sessions.{Authorized, sessions_bytes, write_command_sessions-Writes}

-- The tag of a command, by whether it has no sessions.
abbrev pub command_tag : Bool → ℕ
command_tag empty =
    if empty
    then tpmi_st_command_tag_number TpmiStCommandTag.no_sessions
    else tpmi_st_command_tag_number TpmiStCommandTag.sessions

pub command_tag-lt : (empty : Bool) → command_tag empty < 256 ^ 2
command_tag-lt true = omega arith
command_tag-lt false = omega arith

encode_header :
    (tag size code : ℕ) (body : List ℕ)
    → cmd_header_format.encode (record { tag = tag; size = size; code = code }) ++ body
      ≡ request_of tag size code body
unfolding cmd_header_format request_of
encode_header tag size code body =
    rw
      (
        request_of,
        append_assoc (to_be_bytes 2 tag) (to_be_bytes 4 size ++ to_be_bytes 4 code) body,
        append_assoc (to_be_bytes 4 size) (to_be_bytes 4 code) body,
      )
      refl

length-encode_header : (h : CmdHeader) → length (cmd_header_format.encode h) ≡ 10
length-encode_header h =
    let e = cmd_header_format.encode h in
    let all = ap length (encode_header h.tag h.size h.code []) in
    omega (arith, length-append e [], all, length-request_of h.tag h.size h.code [])

-- The last statement writes the header again, over its own bytes.
header_again :
    (h : CmdHeader) (old body buffer : List ℕ)
    → cmd_header_format.Valid h
    → length old ≡ 10
    → length buffer < 2 ^ 32
    → length (old ++ body) ≤ length buffer
    → emit cmd_header h ((old ++ body) ++ drop (length (old ++ body)) buffer)
      ≡ (ok 10, request_of h.tag h.size h.code body ++ drop (length (old ++ body)) buffer)
header_again h old body buffer valid ten small room =
    let tail = drop (length (old ++ body)) buffer in
    let e = cmd_header_format.encode h in
    let len : length e ≡ 10 = length-encode_header h in
    let small' : length ((old ++ body) ++ tail) < 2 ^ 32 = omega (
      arith,
      length-append (old ++ body) tail,
      length-drop (length (old ++ body)) buffer,
      small,
      room,
    ) in
    let fits : length e ≤ length ((old ++ body) ++ tail) =
      omega (arith, length-append (old ++ body) tail, length-append old body, len, ten) in
    let behind : drop (length e) ((old ++ body) ++ tail) ≡ body ++ tail =
      rw (len, ← ten, append_assoc old body tail) (drop-append old (body ++ tail)) in
    rw
      (
        emit-Writes cmd_header-Lawful h valid ((old ++ body) ++ tail) small' fits,
        behind,
        len,
        ← append_assoc e body tail,
        encode_header h.tag h.size h.code body,
      )
      refl

-- What follows the parameters: the header with the size, and the size returned.
second_header : CmdHeader → ℕ → List ℕ → Emitted
second_header h n b =
    and_then (emit cmd_header (record { tag = h.tag; size = n % 2 ^ 32; code = h.code }) b)
      λ k b'. (ok n, b')

second_header-eq :
    (h : CmdHeader) (body buffer : List ℕ)
    → h.tag < 2 ^ 16
    → h.code < 2 ^ 32
    → length buffer < 2 ^ 32
    → 10 + length body ≤ length buffer
    → second_header h
        (10 + length body)
        ((cmd_header_format.encode h ++ body) ++ drop (10 + length body) buffer)
      ≡ filled (request_of h.tag (10 + length body) h.code body) buffer
unfolding second_header and_then
second_header-eq h body buffer tag_small code_small small room =
    let e = cmd_header_format.encode h in
    let len : length (e ++ body) ≡ 10 + length body =
      omega (arith, length-append e body, length-encode_header h) in
    let size_eq : (10 + length body) % 2 ^ 32 ≡ 10 + length body = omega (arith, room, small) in
    let again =
      header_again (record { tag = h.tag; size = 10 + length body; code = h.code }) e body buffer
        (unfold cmd_header_format in
          (omega (arith, tag_small), (omega (arith, room, small), code_small)))
        (length-encode_header h) small (rw len room) in
    rw
      (
        second_header,
        size_eq,
        (let x = rw len at again in x),
        length-request_of h.tag (10 + length body) h.code body,
      )
      refl

module _ {X Y Z A : Type 0} (x_ops : Session X) (y_ops : Session Y) (z_ops : Session Z)
    (area : AuthorizationArea X Y Z A) {C H R K : Type 0} (t : TpmCommand C H R K)
    (c_format : Format C) (h_format : Format H) (c_laws : Lawful t.command c_format)
    (h_laws : Lawful t.handles h_format) where
  -- What stands behind the header of a command.
  abbrev pub body_of : C → H → List ℕ → List ℕ
  body_of cmd handles session_bytes =
      h_format.encode handles ++ (session_bytes ++ c_format.encode cmd)

  module _ (cmd : C) (handles : H) (sessions : A) (c1 c2 c3 : Option TpmsAuthCommand)
      (given : Authorized x_ops y_ops z_ops area sessions c1 c2 c3) (cmd_valid : c_format.Valid cmd)
      (handles_valid : h_format.Valid handles) (code_small : t.cmd_code < 2 ^ 32) where
    -- The bytes of the sessions.
    abbrev pub frame : List ℕ
    frame = sessions_bytes x_ops y_ops z_ops area sessions c1 c2 c3

    first_header : CmdHeader
    first_header = cmd_header_new (is_empty area sessions) t.cmd_code

    -- A command and handles whose marshalling is lawful and which are valid, with up to three
    -- sessions whose commands are valid, are put into a buffer of less than 2^32 bytes that
    -- has the room as a tag (that of no sessions for an empty area), the size of the whole,
    -- the code, the handles, the size of the authorization area and its commands (nothing for
    -- an empty area), and the parameters; the size is returned and the rest of the buffer
    -- stays.
    pub build_command-request_of :
        (buffer : List ℕ)
        → length buffer < 2 ^ 32
        → 10 + length (body_of cmd handles frame) ≤ length buffer
        → build_command x_ops y_ops z_ops area t cmd handles sessions buffer
          ≡ filled
              (request_of
                (command_tag (is_empty area sessions))
                (10 + length (body_of cmd handles frame))
                t.cmd_code
                (body_of cmd handles frame))
              buffer
    unfolding build_command first_header second_header cmd_header_new
    build_command-request_of buffer small room =
        let e = cmd_header_format.encode first_header in
        let hs = h_format.encode handles in
        let cs = c_format.encode cmd in
        let body = body_of cmd handles frame in
        let split : ((e ++ hs) ++ frame) ++ cs ≡ e ++ body =
          append_assoc (e ++ hs) frame cs ∙ append_assoc e hs (frame ++ cs) in
        let len : length (e ++ body) ≡ 10 + length body =
          omega (arith, length-append e body, length-encode_header first_header) in
        let tag_small = command_tag-lt (is_empty area sessions) in
        let first =
          emit-Writes cmd_header-Lawful first_header
            (unfold cmd_header_format in (tag_small, (omega arith, code_small))) buffer small
            (omega (arith, len, length-append e body, room)) in
        let steps =
          and_then-filled (emit cmd_header first_header buffer) (emit t.handles handles)
            (write_command_sessions x_ops y_ops z_ops area sessions) (emit t.command cmd)
            (second_header first_header) e hs frame cs buffer first
            (emit-Writes h_laws handles handles_valid)
            (write_command_sessions-Writes x_ops y_ops z_ops area sessions c1 c2 c3 given)
            (emit-Writes c_laws cmd cmd_valid) small (rw (split, len) room) in
        let opened : build_command x_ops y_ops z_ops area t cmd handles sessions buffer
            ≡ second_header first_header (10 + length body)
                ((e ++ body) ++ drop (10 + length body) buffer) =
          steps ∙ rw (split, len) refl in
        opened ∙ second_header-eq first_header body buffer tag_small code_small small room
