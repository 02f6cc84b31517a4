-- ===== src/Codes/Flag.antt =====
-- `CKF_*` of src/pkcs11.h: the flags of sessions, slots and tokens.
use pkcs11_provider.Base.{ℕ}

abbrev pub rw_session : ℕ
rw_session = 0x02

abbrev pub serial_session : ℕ
serial_session = 0x04

abbrev pub token_present : ℕ
token_present = 0x01

abbrev pub write_protected : ℕ
write_protected = 0x02

abbrev pub login_required : ℕ
login_required = 0x04

abbrev pub protected_authentication_path : ℕ
protected_authentication_path = 0x100

abbrev pub token_initialized : ℕ
token_initialized = 0x400

abbrev pub user_pin_final_try : ℕ
user_pin_final_try = 0x20000

abbrev pub user_pin_locked : ℕ
user_pin_locked = 0x40000

abbrev pub user_pin_to_be_changed : ℕ
user_pin_to_be_changed = 0x80000
