-- ===== src/Lib.antt =====
-- tpm-rs: the types and the wire format of TPM 2.0, a service that answers its commands, and a client
-- that sends them.
--
-- The parts of the program, and the files that model them:
--
-- - errors/src: the error codes. Errors/Rc has `TpmRcError` with its constants and the functions that
--   build and read format-1 codes, Errors/Tss has `TssError` and the errors that the client returns,
--   Errors/Layers all layers of the client.
-- - marshalable/src: the trait `Marshalable`, its implementations for numbers, byte arrays and `()`, and
--   the reader `UnmarshalBuf`, in Marshal/Core; Marshal/Signed has the signed numbers. Marshal/Lawful
--   says what a client of the trait may rely on, as the record `Lawful` over a wire format.
-- - marshalable-derive/src: what the derived code does. Derive/Fields has the code for the fields of a
--   struct and for arrays with a length field, Derive/Enum that for enums, Tpm2b/Simple that for the
--   sized buffers (`tpm2b_simple`), Tpm2b/Struct the sized buffers that hold a struct. The other files
--   there are about the laws of `Lawful` for each.
-- - base/src: the types of the TPM. A struct is a record, an enum a data type; `t` is the dictionary of
--   the type `T`, `t_format` its wire format and `t-Lawful` the laws; `t_variant` is the dictionary of
--   `MarshalableVariant`. An open enum is a number (Base/Constants/* list the declared values), and so
--   is a struct of one number (Base/Newtype). Base/Layout and Base/Sizes compute the sizes of structs
--   and unions from which the sized buffers take their capacity. Base/Attest, Base/Public and
--   Base/Sensitive have the three hand-written implementations, over Derive/Tagged. Base/Attributes has
--   the fields and the named bits of the attributes, Base/Handles the ranges of handles, and Base/Tpml
--   the methods of the lists with a count (`impl_tpml!`).
-- - server/src: the command loop. Server/Buffer has the slices and the two pairs of buffers behind the
--   interface `TpmBuffers`, Server/Cursor the cursor of req_resp.rs, Server/Crypto the generator and
--   the source of entropy with the state that holds them, Server/Helpers drbg/helpers.rs, Server/Context
--   tpmctx.rs and handler/random.rs. Server/Spec describes a run with no
--   cursor, and Server/Refinement relates the two. Server/Steps is about the states that a context goes
--   through from one request to the next.
-- - client/src: what a caller runs. Client/Session has the trait `Session` and the sessions without and
--   with a password, Client/Areas the authorization areas, Client/Command what `run_command_with_handles`
--   does before the transaction, over the steps of Client/Emit, Client/Response what it does behind it,
--   Client/Run the whole, and Client/Instances the commands that base/src/commands gives a code.
--   Client/Interop joins the client and the server of the repository, for the command that the server
--   knows, and Client/Refused for the others.
-- - unionify-derive/src: which enums the macro `UnionSize` accepts, and the union that it makes of them,
--   in Unionify.
--
-- How the code is read: a byte is a number below 256 and a buffer the list of its bytes. A function that
-- can fail or panic returns an `Outcome`; a writer returns its result beside the buffer, and a reader what
-- is left of the input. Numbers are not bounded by their types: the theorems ask for the bounds, and
-- casts that cut are written out. Sums of offsets of a buffer do not wrap. All loops are structural
-- recursions on the count that the code runs to, so no fuel is needed.
--
-- The generator (`Drbg`) and the source of entropy (`EntropySource`) are brought by the platform. They
-- are parameters, and what a theorem needs of them is a hypothesis of it: that filling a slice keeps
-- its length, that it succeeds, or what each operation keeps and when it may be called.
--
-- Not modelled: the parsing done by the procedural macros and the tokens that they print, and the
-- printing of errors.
--
-- The examples under Examples apply the theorems at concrete inputs.

pub mod Prelude
pub mod Outcome
pub mod Errors
pub mod Marshal
pub mod Derive
pub mod Tpm2b
pub mod Base
pub mod Server
pub mod Client
pub mod Unionify
pub mod Examples
