-- ===== src/Lib.antt =====
-- Verification of identity_crypto: keys, principals, transcripts, registries and verifiers.
--
-- The crate decides who signed what. An authority signs a registry document (src/authority.rs); the
-- document's body is a registry of principals with root keys, devices and revocations
-- (src/registry.rs), which becomes a resolver (src/resolver.rs). A signer chain goes from a root key
-- over a device to a session key; the verifiers (src/verify.rs) check it, and the message, approval or
-- peer revocation under it, against a resolver at a time. Each signature covers the bytes of a
-- transcript (src/transcripts.rs). A receiver keeps the root chains that it has accepted, and checks
-- each new registry against them (src/accepted.rs).
--
-- Files and sources:
--   Prelude        shared names, Boolean tests, lists, equality tests as instances, and integers: an
--                  i64 is an integer, with its range as a hypothesis where it matters, and the
--                  saturating operations written out
--   Primitives     the `jwk_duo`, `sha2` and `hex` crates, as an instance argument of the definitions
--   KeyTypes, PublicKey           src/public_key.rs
--   Principal                     src/principal.rs
--   Error                         src/error.rs; results with `ok`, `err` and `panic`, which is a failed
--                  `expect`; inversion of do blocks; Error/Restricts relates two computations
--   Pb                            proto/identitycrypto/v1/identity.proto, as `prost` generates it
--   Transcripts    src/transcripts.rs: Enc is the encoder, Keys, Messages and Requests the transcripts,
--                  Layout the items that a transcript consists of
--   Signature                     src/signature.rs
--   Map            `BTreeMap`, as a list of pairs in the order of the keys
--   Authority                     src/authority.rs: `rotation_roots` is a fold over the rotations
--   Kind, Registry                src/registry.rs: Checks are the checks of a part, Entry one round of
--                  the loop of `check_registry`, whose variables are the record `Check`
--   Resolver                      src/resolver.rs; `prost` is an instance argument
--   Verify                        src/verify.rs: Time, Chain, Message and Approval
--   Accepted                      src/accepted.rs
--   Jwk            the key pairs of `jwk_duo`, an instance argument over their type
--   Session                       src/session.rs; Session/Delegated puts the builders together
--   Keys                          src/keys.rs
--   Keyfile        identity-keyfile/src: Disk is the directory as a state, with error.rs; Files is
--                  files.rs, Text what it uses of strings, Identity, Load and Store are keys.rs: the
--                  keys in memory, the operations that read and those that write, Create is its
--                  `create_or_load`; Outcome is a result, Op a function from a state to an outcome and
--                  the state that it leaves; the theorems stand in child modules named for what they
--                  are about
--   Runs           concrete data and runs of the verifiers on it
--
-- State that the source mutates is passed on: an encoder returns its buffer, a loop its variables. The
-- loops are recursions on their lists. A loop on fuel, over the fields of a document's body
-- (`count_registry` in Resolver.antt), has one unit for each byte of the body; a field takes at least
-- one byte, so the fuel is enough (Resolver/Carrier); without fuel the model's result is `panic`.
-- `trim` has as much fuel as the text has bytes, of which a white character takes at least one
-- (Keyfile/Text/Trimmed).
--
-- The directory of identity-keyfile holds an entry for each of its six files, and a list of fates. A
-- call of `write_private` takes the next fate: it is done, or it fails at one of its steps, the rename
-- included. Since every error is passed on at once, the state after a failed step is also the state
-- that a process leaves that ends there. Temporary files are not in the state. Locks
-- are granted, refused or failing; an operation that holds one is a single step. Keys that the source
-- generates are arguments. `serde_json` and the JWK codec are instance arguments; that they read back
-- what they print is a hypothesis (`JsonsLaws`, `DuoLaws`).
--
-- `create_or_load` works on the directory and on a temporary one, where it runs `init`; what listing,
-- removing and renaming come to, and the directory that the rename finds, are fields of a record.
--
-- Not modelled: serde and Debug instances, `clean_dead_temps` of identity-keyfile/src/keys.rs, which
-- removes what dead processes left beside the directory, what a power failure undoes after a rename
-- that was not synced, generated code, tests and test vectors.
pub mod Prelude
pub mod Primitives
pub mod KeyTypes
pub mod Error
pub mod Pb
pub mod PublicKey
pub mod Principal
pub mod Transcripts
pub mod Signature
pub mod Jwk
pub mod Session
pub mod Keys
pub mod Keyfile
pub mod Map
pub mod Authority
pub mod Kind
pub mod Registry
pub mod Resolver
pub mod Verify
pub mod Accepted
pub mod Runs
