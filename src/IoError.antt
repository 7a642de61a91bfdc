-- ===== src/IoError.antt =====
-- handle/Error/IOError/IOError.c and IOError.h: the kinds of I/O errors.
use fermi.Base.{ℕ, ◌≡◌, ◌≢◌, arith, Bool, true, false, ◌||◌, if◌then◌else◌, ◌==◌}
use fermi.Base.Text.{Bytes, codes}

pub data IoErrorKind : Type 0 where
  io_ok io_not_found io_permission_denied io_already_exists io_invalid_path : IoErrorKind
  io_is_directory io_not_directory io_read_failed io_write_failed : IoErrorKind
  io_unexpected_eof io_invalid_data io_out_of_memory io_out_of_space : IoErrorKind
  io_too_many_open_files io_device_error io_interrupted io_timeout : IoErrorKind
  io_system_error io_connection_failed io_connection_reset : IoErrorKind
  io_connection_timeout io_unknown_error : IoErrorKind

unfoldable pub to_string : IoErrorKind → Bytes
to_string io_ok = codes "operation completed successfully"
to_string io_not_found = codes "no such file or directory"
to_string io_permission_denied = codes "permission denied; insufficient access rights"
to_string io_already_exists = codes "file already exists at the specified path"
to_string io_invalid_path = codes "invalid path specification"
to_string io_read_failed = codes "read operation failed"
to_string io_write_failed = codes "write operation failed"
to_string io_unexpected_eof = codes "unexpected end-of-file encountered"
to_string io_invalid_data = codes "invalid data format"
to_string io_out_of_memory = codes "memory allocation failed; insufficient memory available"
to_string io_out_of_space = codes "write failed; no space remaining on device"
to_string io_interrupted = codes "operation interrupted by signal"
to_string io_timeout = codes "operation exceeded time limit"
to_string _ = codes "unspecified I/O error"

-- The numbers of <errno.h>, which the system defines.
pub record Errno : Type 0 where
  pub enoent : ℕ
  pub eacces : ℕ
  pub eexist : ℕ
  pub enospc : ℕ
  pub enomem : ℕ
  pub eintr : ℕ

unfoldable pub from_errno : Errno → ℕ → IoErrorKind
from_errno n err =
    if err == n.enoent
    then io_not_found
    else if err == n.eacces
    then io_permission_denied
    else if err == n.eexist
    then io_already_exists
    else if err == n.enospc
    then io_out_of_space
    else if err == n.enomem
    then io_out_of_memory
    else if err == n.eintr
    then io_interrupted
    else io_unknown_error

unfoldable pub is_fatal : IoErrorKind → Bool
is_fatal io_out_of_memory = true
is_fatal io_out_of_space = true
is_fatal _ = false

-- Where the numbers before it in the switch are different from ENOSPC and ENOMEM: an `errno` is
-- fatal if and only if it is one of these two.
is_fatal-from_errno :
    (n : Errno) (err : ℕ)
    → n.enospc ≢ n.enoent
    → n.enospc ≢ n.eacces
    → n.enospc ≢ n.eexist
    → n.enomem ≢ n.enoent
    → n.enomem ≢ n.eacces
    → n.enomem ≢ n.eexist
    → is_fatal (from_errno n err) ≡ (err == n.enospc || err == n.enomem)
unfolding is_fatal from_errno
is_fatal-from_errno n err a b c d e f = ground (arith, a, b, c, d, e, f)
