-- ===== src/Lib.antt =====
-- PEFS, a stacked encrypted file system of FreeBSD: its kernel module encrypts file names and file
-- data with keys that are added to a mount; its command pefs makes keys of passphrases and key files,
-- and keeps chains of keys in a database.
--
-- A name in the clear is padded, encrypted in CBC with a checksum in front (sys/fs/pefs/pefs_crypto.c)
-- and written in a base64 (sys/fs/pefs/pefs_xbase64.c). The checksum tells which key of the mount's
-- list a name belongs to. The tweak in the name is that of the file's data, which is encrypted by
-- sectors in XTS (sys/fs/pefs/pefs_xts.c).
--
-- - Base: C arrays as lists, tests on numbers, bits, bytes and words of little-endian memory.
-- - Xbase64: pefs_name_ntop (`ntop`) and pefs_name_pton (`pton`).
-- - Xts: gf_mul128, pefs_xts_block_encrypt, pefs_xts_block_decrypt and their helpers, named alike.
-- - Verify: crypto_verify_bytes of sys/crypto/crypto_verify_bytes.c, and pefs_name_checksum_eq.
-- - Crypto: struct pefs_key (`Key`), struct pefs_tkey (`Tkey`) and what is not modelled (`Primitives`).
-- - Crypto.Keyring: the key list of a mount: pefs_key_ref, pefs_key_release, pefs_key_lookup,
--   pefs_key_add, pefs_key_remove, pefs_key_remove_all, pefs_rootkey.
-- - Crypto.Data: pefs_data_encrypt and pefs_data_decrypt.
-- - Crypto.Name: pefs_name_encrypt and pefs_name_decrypt, with padding, checksum and CBC.
-- - Hmac: hmac_sha512 and pbkdf2_hmac_sha512_genkey of sys/crypto/hmac and sys/crypto/pbkdf2.
-- - Crypto.Derive: pefs_hkdf_expand, pefs_key_wipe, pefs_key_generate and pefs_key_get.
-- - Chunk: the buffers of chunks in sys/fs/pefs/pefs_subr.c: pefs_chunk_create, pefs_chunk_restore,
--   pefs_chunk_setsize, pefs_chunk_free and pefs_node_buf_free.
-- - Node: the nodes of sys/fs/pefs/pefs_subr.c: pefs_nodehash_get and pefs_nodehash_insert, pefs_node_get
--   in two parts (`node_get_start`, `node_get_finish`), since it takes the table's lock twice, and
--   pefs_node_asyncfree, pefs_node_free_proc and pefs_node_key.
-- - Dircache: sys/fs/pefs/pefs_dircache.c and pefs_dircache.h, under the names of the source; `Cache` is
--   a directory with the memory, the tables and the references that its operations change.
-- - Ctl: the user's side, sbin/pefs: keys, parameters and algorithms of pefs_ctl.h and pefs_key.c, and
--   pefs_readfiles of pefs_subr.c.
-- - Ctl.Param: the pefs_keyparam_* functions. Ctl.Key: pefs_aes_ctr, pefs_key_generate,
--   pefs_key_encrypt and pefs_key_decrypt of pefs_key.c.
-- - Ctl.Chain: pefs_keychain_get, pefs_keychain_set and pefs_keychain_del of pefs_keychain.c, over a
--   database (`Db`) of which `IsDb` says what is asked.
-- - Ctl.Passfile: pefs_readpassfile and its handler of sbin/pefs/pefs_ctl.c.
-- - Tests: the theorems at concrete inputs.
--
-- An array is the list of its bytes, and a function that writes into an array returns it. A word of
-- w bits keeps its `% 2 ^ w`; the reference counts of keys and vnodes, for which the kernel has
-- functions of its own, are numbers without a bound. An error return is a value, and so is a panic, an
-- assertion that fails, or an access outside of the memory that is given. A loop that is not on the structure of its data takes fuel: the number of the
-- bytes or of the keys left, of which each round takes one at least, so that the fuel is always enough.
-- The loop over a key chain has the fuel as an argument, and gives nothing when it is used up.
--
-- Parameters, with what is asked of them where a theorem needs it: the block ciphers, which map
-- blocks to blocks and decrypt what they encrypt (`IsCipher`); SHA-512, which takes its text in pieces
-- and gives 64 bytes (`IsSha512`); AES of the command, which makes blocks (`MakesBlocks`); the database
-- (`IsDb`); what the system reads of files (`Input`) and what the kernel answers when a node is made
-- (`Kernel`), key setup and VMAC, of which nothing is asked.
-- Not modelled: copies of other projects (rijndael, SHA-2, VMAC), locks, memory allocation, the
-- calls of the kernel in the vnode and mount operations, and the programs' input and output.
pub mod Base
pub mod Chunk
pub mod Crypto
pub mod Ctl
pub mod Dircache
pub mod Hmac
pub mod Node
pub mod Tests
pub mod Verify
pub mod Xbase64
pub mod Xts
