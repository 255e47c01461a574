-- ===== src/Lib.antt =====
-- Verification of tzap, an archive format that spreads an encrypted, error-corrected archive over
-- volumes.
--
-- A writer packs entries into envelopes, pads and encrypts them, cuts them into blocks, adds parity
-- blocks and frames each block as a record; volumes carry a header, a crypto header, block records,
-- a manifest footer, recovery data and a trailer. A reader parses those structures from bytes that
-- anyone may have changed, rebuilds lost blocks, decrypts and removes the padding. What is modelled
-- is the code that both sides share: the layouts, the padding, the erasure coding, the index of an
-- archive and the digests that its authenticators sign.
--
-- Files and sources, below crates/tzap-core/src:
--   Format    format.rs: identifiers, `FormatError`, limits. `Result` is the result of fallible
--             code, `>>=` and `>>` its question mark, `reject_if` a test that returns an error.
--   Padding   padding.rs: every function under its own name.
--   Wire      wire.rs: a module for each structure (VolumeHeader, CryptoHeaderFixed, BlockRecord,
--             ManifestFooter, VolumeTrailer, CriticalMetadataRecoveryHeader,
--             CriticalMetadataRecoveryShard, CriticalRecoveryLocator, BootstrapSidecarHeader) with
--             its record, `parse` and `to_bytes`; Wire/Fields holds the helpers at the end of the
--             file, and Wire/Extensions the scanner and the meaning of extensions, with
--             raw_stream_profile.rs in Wire/Extensions/RawStream. A vector that `to_bytes` fills
--             is a list of writes, `pieces`, over zeros; where it has a checksum, that is written
--             last.
--   Fec       fec.rs: Field has the arithmetic, Matrix the rows of the code and the elimination,
--             Shards encoding, Repair repair and recovery. Tests of repair use small tables, since
--             those of the field have 65536 entries.
--   Metadata  metadata.rs: Rows has the records, Lookup the search of files and directories, with
--             the binary search in Search and the order of byte strings in Order; Frames has the
--             frame table and the frame ranges of files, Envelopes the envelope table,
--             Paths the checks of paths, Candidates the shards that may hold a path, and Layout
--             the rows on disk.
--   RootAuth  root_auth.rs: Domains the byte strings that separate digests, Digests the digests of
--             the parts of an archive and of the whole, Merkle the tree over data blocks, Current
--             the functions for the current revision.
--   VolumeFile
--             volume_file.rs: names of volume files.
--   Prelude   lists, slices, little-endian numbers and two's complement that the others share.
--
-- Bytes are numbers below 256 and vectors are lists; a field of w bits is a number with a bound
-- `IsU8` to `IsU64` where it matters, and a `usize` has 64 bits. CRC-32C is a third-party crate and
-- an argument of what uses it; theorems that need it ask that its values have 32 bits, and a sum of
-- bytes stands in for it in the tests. An array of the field's tables is a function of its index.
-- SHA-256 and the test for Unicode's normal form C are arguments too; in the tests a sum of bytes
-- and zeros after it stand in for a digest, and any text counts as normal. A table that is read
-- beyond its end gives an empty value. The map from frame indexes to rows is a search that prefers
-- later rows. The binary search runs on fuel, one more than the rows, since each round leaves
-- fewer; the loop of the Merkle tree has a round for each leaf but one, and each leaves fewer; a
-- `usize` has 20 decimal digits at most. The loop of the extension scanner runs on fuel, one more
-- than the number of bytes, of which each round uses six or more; `gf16_pow` runs 32 rounds for an
-- exponent of 32 bits.
--
-- Not modelled: files, threads, terminal output, compression, ciphers, key derivation, signatures
-- and calls of operating systems; of wire.rs, the key-wrap table, the root-auth footer, the
-- critical metadata image and the key derivation part of the crypto header; of metadata.rs, the
-- index root, the hint table, the order in which a shard's tables lie and the slices of frames in
-- envelopes; of volume_file.rs, what reads directories; and the reader, the writer, the tar model
-- and the command line.
pub mod Prelude
pub mod Format
pub mod Padding
pub mod Wire
pub mod Fec
pub mod Metadata
pub mod RootAuth
pub mod VolumeFile
