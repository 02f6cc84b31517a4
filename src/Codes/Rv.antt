-- ===== src/Codes/Rv.antt =====
-- `CKR_*` of src/pkcs11.h: what the calls return.
use pkcs11_provider.Base.{ℕ}

abbrev pub ok : ℕ
ok = 0x00

abbrev pub cancel : ℕ
cancel = 0x01

abbrev pub host_memory : ℕ
host_memory = 0x02

abbrev pub slot_id_invalid : ℕ
slot_id_invalid = 0x03

abbrev pub general_error : ℕ
general_error = 0x05

abbrev pub cant_lock : ℕ
cant_lock = 0x0A

abbrev pub mechanism_invalid : ℕ
mechanism_invalid = 0x70

abbrev pub pin_incorrect : ℕ
pin_incorrect = 0xA0

abbrev pub pin_expired : ℕ
pin_expired = 0xA3

abbrev pub pin_locked : ℕ
pin_locked = 0xA4

abbrev pub session_closed : ℕ
session_closed = 0xB0

abbrev pub session_count : ℕ
session_count = 0xB1

abbrev pub session_read_only : ℕ
session_read_only = 0xB5

abbrev pub token_not_present : ℕ
token_not_present = 0xE0

abbrev pub token_write_protected : ℕ
token_write_protected = 0xE2

abbrev pub user_already_logged_in : ℕ
user_already_logged_in = 0x100

abbrev pub arguments_bad : ℕ
arguments_bad = 0x07

abbrev pub function_not_supported : ℕ
function_not_supported = 0x54

abbrev pub mechanism_param_invalid : ℕ
mechanism_param_invalid = 0x71

abbrev pub buffer_too_small : ℕ
buffer_too_small = 0x150

abbrev pub key_needed : ℕ
key_needed = 0x66

abbrev pub data_invalid : ℕ
data_invalid = 0x20

abbrev pub key_handle_invalid : ℕ
key_handle_invalid = 0x60

abbrev pub key_type_inconsistent : ℕ
key_type_inconsistent = 0x63

abbrev pub key_indigestible : ℕ
key_indigestible = 0x67

abbrev pub signature_invalid : ℕ
signature_invalid = 0xC0

abbrev pub key_size_range : ℕ
key_size_range = 0x62
