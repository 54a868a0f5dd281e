-- ===== src/Lib.antt =====
-- cscrypto: the cryptographic library of the CREDITS project and the key exchange of its demo
-- application, as functions on byte lists and explicit state, with the properties that make them
-- correct.
--
-- The program. The library (include/cscrypto, src) wraps libsodium and BLAKE2: keys and seeds lie in
-- guarded memory (memoryprotection.hpp), which is locked except while a function reads it. On it
-- stand private keys whose region is shared and counted (privatekey.cpp), hashes and signatures
-- (maincryptofunctions.cpp), encrypted data and files (cipher.cpp), session keys
-- (keyexchange.cpp), master seeds (keysderivation.cpp) and their form as words of a dictionary
-- (mnemonic.cpp, dictionary_en.cpp). The application (qt) exchanges session keys over TCP: a
-- request master forms and checks the requests of both ends (requestmaster.cpp), which the client
-- (client.cpp) and the handler of a connection (incomingconnectionhandler.cpp) read and write. Its
-- tabs use the library for what a user does: seeds and pairs of keys (keygenwidget.cpp), signatures
-- (signwidget.cpp), hashes (hashwidget.cpp), encrypted files (cipherwidget.cpp), imported public keys
-- (storagewidget.cpp) and key exchanges (keyexchangewidget.cpp), on one list of own keys
-- (keylistmodel.cpp).
--
-- The files.
--   Base: tests and lists over the native numbers, finite tables, and Outcome, whose `fault` stands
--     for a run that goes wrong: a read of locked or freed memory, an access outside an array, an
--     exception that nothing catches.
--   Sodium, Blake2: the functions of libsodium and BLAKE2 as records. They are git submodules, so
--     each is a parameter with laws from its documentation; Tests has an instance of each.
--     Sodium.Memory is guarded memory owned by one object, Sodium.Heap is guarded memory behind
--     pointers.
--   MainCryptoFunctions: src/maincryptofunctions.cpp (calculateHash, getMatchingPublic,
--     generateSignature, verifySignature), the sizes of include/cscrypto/cryptoconstants.hpp, and
--     the life of a MemAccessGuard (with_access).
--   KeysDerivation: src/keysderivation.cpp, with the pairs of keys derived from a seed.
--   Dictionary: all 2048 words of src/dictionary_en.cpp, in the order of the array.
--   Mnemonic: src/mnemonic.cpp. get_bit, put_bit, get_index and put_index are getBit, putBit,
--     getIndex and putIndex with their loops; master_seed_to_words and words_to_master_seed are
--     masterSeedToWords and wordsToMasterSeed. Bits, Put, Index and Words relate the loops to
--     the bits of a seed; RoundTrip, Recover, Phrase and Checksum hold the results.
--   PrivateKey: src/privatekey.cpp. A World holds all live objects, the heap of guarded regions and
--     the counters; construct, copy_construct, assign and destroy are the special members, and
--     read_from_bytes, read_from_guard, generate_with_pair, read_from_encrypted, get_encrypted and
--     access_object the other members (PrivateKey.Encrypted). PrivateKey.Ops.run is one step of a
--     program that uses them, and IsReady says what each step needs. The moves do what the copies
--     do, as in the source; the guard of access is opened, read and destroyed in one step.
--   MemGuard: include/cscrypto/memoryprotection.hpp, guards as owners of regions on a heap.
--   Cipher: src/cipher.cpp. With a CipherKey, encrypt_data and decrypt_data are encryptData and
--     decryptData, encrypt_file and decrypt_file are encryptFile and decryptFile, with their loops
--     over chunks. A file system is a function from names to contents; a source that is also the
--     target is emptied before it is read, and what is written stays in a buffer and is not read
--     back. Reads, writes and fclose do not fail. With a public and a private key,
--     encrypt_for and decrypt_with of Cipher.Sealing are encryptData and decryptData. Cipher.Key
--     generates cipher keys and makes them from passwords.
--   KeyExchange: src/keyexchange.cpp.
--   RequestMaster: qt/src/requestmaster.cpp. form, validate and form_common_keys are form, validate
--     and formCommonKeys; the signal newCommonSecretKeyPair is a list of emitted pairs. Base58 (a
--     copy of Bitcoin Core's code in src/third-party) and the database are parameters.
--   Client: qt/src/client.cpp. arrive runs onReadyRead after each piece that the socket brings.
--   IncomingConnectionHandler: qt/src/incomingconnectionhandler.cpp. run is the thread's run, over
--     the pieces that arrive before a time-out.
--   Session: both of them at the two ends of a socket.
--   Texts, Base58: what the tabs read from and write to texts; the Base58 code as a record with
--     laws.
--   KeyListModel: qt/src/keylistmodel.cpp.
--   SignWidget: qt/src/signwidget.cpp. The state is what the controls show and whether they can be
--     used; a slot is a function of it. SignWidget.Events runs the events of a user: a click on a
--     control that is disabled does nothing.
--   StorageWidget: qt/src/storagewidget.cpp, the table of imported keys that the request master asks.
--     SQL is a parameter (StorageWidget.Rows), and StorageWidget.Events runs the events of a user.
--   KeyExchangeWidget: qt/src/keyexchangewidget.cpp, with KeyExchangeWidget.Events; the calls of the
--     network are lists. KeyExchangeWidget.Files is about the keys of an exchange in the tab for
--     files.
--   KeyGenWidget: qt/src/keygenwidget.cpp, with the files of keys in KeyGenWidget.Files. The files
--     that a user chooses are arguments, and what is written is a result.
--   CipherWidget: qt/src/cipherwidget.cpp, on the files of Cipher, with CipherWidget.Events.
--   HashWidget: qt/src/hashwidget.cpp. HashWidget.View is what the tab promises, without its
--     controls and with hashes as blake2s gives them.
--   Tests: runs, instances of the parameters, and the theorems at concrete inputs.
--
-- Bounds and fuel. Bytes are numbers below 256 where it matters (IsBytes); the counter of a private
-- key wraps at 2 ^ 32 and `size_t` at 2 ^ 64. Loops over a file take fuel, one read more than the
-- file has full chunks: every read but the last takes a full chunk, so this is enough. All other
-- loops are structural. `size_t` is 64 bits wide and little-endian, which `putIndex` reads byte by
-- byte.
--
-- Uninitialised memory is a parameter (garbage, scratch, stack, fresh), and so are random bytes and
-- the addresses that an allocator chooses.
--
-- Not modelled: threads (the mutex of generateSignature, the connection name that all request
-- masters share), failing reads and writes of files, the helpers, and the layout of all widgets.
-- Sockets are lists of pieces, and writes to them do not fail.
mod Base
pub mod Sodium
pub mod Blake2
pub mod MainCryptoFunctions
pub mod KeysDerivation
pub mod KeyExchange
pub mod RequestMaster
pub mod Client
pub mod IncomingConnectionHandler
pub mod Session
pub mod Texts
pub mod Base58
pub mod KeyListModel
pub mod SignWidget
pub mod StorageWidget
pub mod KeyExchangeWidget
pub mod KeyGenWidget
pub mod Dictionary
pub mod Mnemonic
pub mod PrivateKey
pub mod MemGuard
pub mod Cipher
pub mod CipherWidget
pub mod HashWidget
mod Tests
