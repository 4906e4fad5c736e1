-- ===== src/Lib.antt =====
-- kubebao encrypts the secrets of a Kubernetes cluster with the block cipher Kuznyechik
-- (GOST R 34.12-2015), under a master key that it keeps in the KV store of OpenBao. The development
-- models the cipher, the authenticated encryption over it and the keeper of the master key:
--
--   * Kuznyechik (internal/kuznyechik): the package of the block cipher. Kuznyechik/Tables has the
--     tables of tables.go, one file per row (t_row0 to it_row15, s_table, is_table, c_table), and
--     Kuznyechik/Cipher the functions of cipher.go under their own names (ls, ils, ilss, isi, f, fk,
--     NewCipher as new_cipher, Encrypt as encrypt, Decrypt as decrypt, ZeroKey as zero_key).
--     Kuznyechik/Gost is the standard's definition of the cipher, with the substitution as the
--     standard lists it; only its inverse substitution reads a table of the code. The modules Mix,
--     Rows, Halves, Rounds, Correct, Schedule, Bytes and Laws relate the two.
--   * Crypto (internal/crypto/kuznyechik_mgm.go): Crypto/Ctr is gostCTR, Crypto/Cmac is gostCMAC
--     with its subkeys and part cursor, Crypto/Aead is KuznyechikAEAD: encrypt, then authenticate,
--     under two keys derived from the master key. Crypto/Block is the interface to a cipher.Block,
--     which Crypto/Block fills with the cipher of Kuznyechik.
--   * Kms (internal/kms): Kms/KeyManager is key_manager.go, the master key in the KV store and its
--     copy in memory, with the runs of a process over it; Kms/Provider is kuznyechik_provider.go,
--     which encrypts and decrypts under that key.
--   * Common and Bits are shared: Boolean tests, lists, results, and exclusive or on numbers.
--
-- A uint64 is a number below 2 ^ 64, a byte slice a list of numbers below 256, with wrap-around
-- written as a remainder. A function that fills a slice takes its old contents and returns the new
-- ones; a panic is `none`, an error `err`. Slices that Encrypt gets do not overlap unless they are
-- the same, which the model allows, since the source reads a block before it writes it. Pointers
-- into the parts of a message are the parts that are left and an offset.
--
-- The loop of gostCTR runs on fuel, the length of the text, of which every round takes at least
-- one byte. All other loops are structural, or run a constant number of rounds (eight, four, or one
-- less than the number of blocks).
--
-- Slices of the counter mode past the end of a buffer, on which the source panics, are cut at the
-- end: all callers pass buffers as long as the text. The comparison of tags is that of the
-- standard library, on which only the answer is modelled.
--
-- SHA-256, base64, the random source, the KV store and its client library are parameters: the
-- digest has 32 bytes, base64 decodes what it encodes, the library decodes a JSON number to a
-- json.Number, and the record World says what JSON the store holds, whether it answers a read,
-- whether a write is done, refused, or done without an answer, and what the random source
-- delivers. Calls of the key manager are taken one after the other, as its lock orders them. KVRead
-- and KVWrite (internal/openbao/client.go) are kv_read and kv_write of Kms/KeyManager, as the
-- manager sees them: a value or an error. They refresh the token first, and only log a failure of
-- that.
--
-- Not modelled: the clearing of keys that are not read again, logging, paths and contexts, and the
-- rest of the program: the KMS server and its other provider (internal/kms/server.go,
-- transit.go), the rest of the OpenBao client (internal/openbao), the CSI provider
-- (internal/csi), the controllers (internal/controller) with the API types (api), the user
-- interface (internal/ui) and the commands (cmd).
pub mod Common
pub mod Bits
pub mod Kuznyechik
pub mod Crypto
pub mod Kms
