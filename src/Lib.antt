-- ===== src/Lib.antt =====
-- A model of pkcs11-provider, the OpenSSL provider that reaches keys and operations on PKCS#11 tokens:
-- of the parts that manage sessions, slots, pools of objects, logins and PKCS#11 URIs, and of the
-- symmetric ciphers, the digests, the signatures, RSA encryption, ML-KEM and the random numbers,
-- which use them.
--
-- The program. OpenSSL's calls come in at src/provider.c and end in calls of a PKCS#11 module, made
-- through src/interface.c. At the start src/slot.c asks the module for its slots; each has a pool of
-- sessions (src/session.c) and a pool of objects (src/obj/pool.c). An operation asks for a session with
-- `p11prov_get_session`: a slot is picked by its identifier, a URI (src/util.c) and a mechanism, the
-- user is logged in if that is needed, and a session is taken from the slot's pool, checked with the
-- module and opened if it has no handle. `p11prov_return_session` gives it back. An object may refer to
-- a session, which then keeps its handle, and `p11prov_try_session_ref` tries that one first. After a
-- fork the child resets the pools.
--
-- The files.
--   Base      the names that all parts share, from the libraries and of its own: Boolean tests on
--             numbers, lemmas on lists, bytes of texts.
--   Codes     the constants of src/pkcs11.h and src/session.h that the code tests; `CKR_*` in Codes/Rv,
--             `CKF_*` in Codes/Flag.
--   Session   src/session.c: `Session` and `Pool` are its two structs. Session/Wait is
--             `cyclewait_with_timeout` of src/util.c; Session/Handle opens, closes and checks handles;
--             Session/Fetch is `fetch_session`, with one `look_*` for each of its loops; Session/Release
--             is `p11prov_return_session`; Session/Lifecycle makes, frees and resets pools.
--   Objects   src/obj/pool.c, with `p11prov_obj_get_attr` of src/obj/object.c.
--   Slot      src/slot.c: the start, the lookups and the pins that a slot remembers.
--   Uri       src/util.c: the escapes of a URI; Uri/Numbers and Uri/Parse parse its components, and
--             match them with a token.
--   Access    src/session.c: `token_login` and `slot_login` in Access/Login, `p11prov_get_session` in
--             Access/Get, and the other two requests for a session in Access/Refs.
--   Word      src/util.h: the helpers that work without a branch on secret data, on words of 64, 32 and
--             8 bits; Word/Masks relates them to comparisons.
--   ByteSwap  src/util.c: `byteswap_buf`, on machines that store the lowest byte first.
--   Cipher    src/cipher.c: Cipher/Unpad is `tlsunpad`, which finds the padding and the MAC of a TLS
--             record; Cipher/Params is the context and its parameters, Cipher/Init begins an operation,
--             Cipher/Run sends data through it and ends it, and Cipher/Ledger is any sequence of calls.
--   AsymmetricCipher   src/asymmetric_cipher.c: what follows a PKCS#1 decryption, for TLS and without;
--             AsymmetricCipher/Context is a context and its parameters, AsymmetricCipher/Run encrypts and
--             decrypts.
--   Digests   src/digests.c: the table of digests; Digests/Context is a context and its operations, and
--             Digests/Ledger any number of contexts.
--   Signature   src/sig/signature.c, which all kinds of signatures share: Signature/Context is a context
--             and the choice of an operation, Signature/Run signs and verifies, Signature/Copy copies a
--             context, Signature/Ledger is any number of contexts. Signature/Ecdsa is src/sig/ecdsa.c,
--             with its two conversions of signatures in Signature/Der.
--   Kem       src/kem.c: encapsulation and decapsulation with ML-KEM; Kem/Lifetime is any calls on one
--             context, and what they take and give back.
--   Random    src/random.c: generation, reseeding and the test of a token's random numbers.
-- A function has the name of the C function without `p11prov_`. The files below a part's own hold its
-- proofs, and the files named Samples and Tests hold examples.
--
-- The state. What the code calls and does not implement is a record of functions over an unknown state
-- `W` of the world: `Host` in Session (the module's session calls, the clock, the allocator, the
-- mutexes) and `Desk` in Access (logins, the state of a token, the prompts). Nothing is assumed of them
-- but by named hypotheses: `IsQuiet` (no lock fails and nobody else changes a session), `Ticks` (the
-- clock runs and a sleep that succeeds takes its time), `GivesHandles` (opening a session gives a
-- handle). Taking a session's mutex may show any other contents than before, which stands for all that
-- other threads did until then; the code's tests before the lock see the old contents.
-- The ciphers, digests, signatures and random numbers see sessions through the records `Token` in
-- Cipher, Digests, Signature, AsymmetricCipher/Run and Kem and `Source` in Random, whose hypotheses
-- `Counts` say that only a request takes a session and only `p11prov_return_session` gives one back;
-- `Weighs` in Kem says the same of references and keys too. `Fills` in Cipher/Run says that the module
-- leaves a whole buffer of bytes. `OPENSSL_strcasecmp` is a parameter, with `IgnoresCase` for what it is documented to
-- compare. OpenSSL's numbers and its encoding of ECDSA signatures are the record `Asn1` in Signature/Der,
-- with `Documented` and `IsDer` for what is documented of them. A read outside a buffer is `none`.
-- A pointer to a session is its index in the pool's array, a pointer to an object is a number, and the
-- objects are a function from numbers. Objects and pools are changed under a mutex, and a call on them is
-- one step; the return values of the mutex and of the slots' lock are arguments.
--
-- Integers. All numbers are natural; the reference count is the bit pattern of a 32-bit `int`, times are
-- taken modulo 2^64, and the subtraction in `p11prov_session_pool_init` wraps round in a `CK_ULONG`.
-- `session_check`, `session_new` and others keep a return value in an `int`; those values are taken to
-- be below 2^31, as all that PKCS#11 defines but the vendors' own. An object is removed from a pool only
-- where it was found, so that `num` is then at least 1.
--
-- Fuel. `open_loop` and `fetch_again` are loops that end by the clock, and take fuel. A round of the
-- first sleeps for 50 microseconds, and the deadline is one second after the first: 20,001 rounds pass
-- it, and two more are needed to note the start and to stop. Loops over arrays are recursions on lists,
-- and the loop over the slots has as many rounds as there are slots.
--
-- Left out with their error paths: the allocations of src/util.c and of src/slot.c that have no argument
-- for them, which are taken to succeed, as are the login text and the two pools of each slot at the
-- start; a provider that has no slots, of which `p11prov_take_slots` answers `CKR_GENERAL_ERROR`; and
-- keys of ECDSA of 2^63 bytes or more.
--
-- Not modelled: messages and the stack of errors, the freeing of memory (but for the sessions of a pool),
-- `p11prov_session_prompt_for_pin` (it is the parameter `prompt_for_pin`), the profiles and the list of
-- mechanisms of a slot as they are read, `p11prov_context_specific_login`, `p11prov_obj_to_uri`, the
-- parameters that OpenSSL reads from a cipher, a digest, a signature or a source of random numbers, and all
-- files of src that are not named above: they are the calls that OpenSSL makes and the encodings that it
-- asks for, which use the parts that are here.
pub mod Base
pub mod Word
pub mod Codes
pub mod Session
pub mod Objects
pub mod Slot
pub mod Uri
pub mod Access
pub mod AsymmetricCipher
pub mod ByteSwap
pub mod Cipher
pub mod Digests
pub mod Random
pub mod Signature
pub mod Kem
