-- ===== src/Codes.antt =====
-- The constants of src/pkcs11.h, src/session.h and src/session.c that the provider's logic tests,
-- and the fixed-width types that hold them.
pub mod Rv
pub mod Flag
use pkcs11_provider.Base.{ℕ, ◌-◌, ◌^◌}

-- `CK_UNAVAILABLE_INFORMATION`, the largest `CK_ULONG`.
abbrev pub unavailable : ℕ
unavailable = 2 ^ 64 - 1

-- `CK_INVALID_HANDLE`.
abbrev pub invalid_handle : ℕ
invalid_handle = 0

-- `CK_EFFECTIVELY_INFINITE`.
abbrev pub effectively_infinite : ℕ
effectively_infinite = 0

-- `MAX_CONCURRENT_SESSIONS` of src/session.h.
abbrev pub max_concurrent_sessions : ℕ
max_concurrent_sessions = 1024

-- `DEFLT_SESSION_FLAGS` of src/session.c.
abbrev pub deflt_session_flags : ℕ
deflt_session_flags = Flag.serial_session

-- `SESS_ALLOC_SIZE` of src/session.c.
abbrev pub sess_alloc_size : ℕ
sess_alloc_size = 32

-- `CKU_USER` and `CKU_CONTEXT_SPECIFIC`.
abbrev pub cku_user : ℕ
cku_user = 1

abbrev pub cku_context_specific : ℕ
cku_context_specific = 2

-- The values of an `int`, as bit patterns, and of a `CK_ULONG`.
abbrev pub int_mod : ℕ
int_mod = 2 ^ 32

abbrev pub ulong_mod : ℕ
ulong_mod = 2 ^ 64
