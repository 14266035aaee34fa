-- ===== src/Base.antt =====
-- base/src: the data types of the TPM and their marshalling.
pub mod Constants
pub mod Layout
pub mod Limits
pub mod Newtype
pub mod Sizes
pub mod Buffers
pub mod MoreBuffers
pub mod Commands
pub mod Hash
pub mod Pcr
pub mod AttestInfo
pub mod AttestInfo2
pub mod AttestUnion
pub mod Schemes
pub mod KeyedHash
pub mod RsaScheme
pub mod EccScheme
pub mod AsymScheme
pub mod Signature
pub mod SigScheme
pub mod PublicParms
pub mod SensitiveParts
pub mod Properties
pub mod HandleLists
pub mod Capability
pub mod Session
pub mod Objects
pub mod Attest
pub mod Public
pub mod Sensitive
pub mod RoundTrips
pub mod AttestSelectors
pub mod Tpml
pub mod Handles
pub mod Attributes
