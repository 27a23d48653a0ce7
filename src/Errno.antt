-- ===== src/Errno.antt =====
-- src/x86/include/errno.h: the error numbers that the modelled code returns or leaves in `errno`.
use icariusos.Base.{ℕ, ◌-◌, ◌^◌}

abbrev pub enoent : ℕ
enoent = 2

abbrev pub esrch : ℕ
esrch = 3

abbrev pub eio : ℕ
eio = 5

abbrev pub ebadf : ℕ
ebadf = 9

abbrev pub enomem : ℕ
enomem = 12

abbrev pub einval : ℕ
einval = 22

-- `-e`, as the `int32_t` or the `size_t` that it is returned in.
abbrev pub negated : ℕ → ℕ
negated e = 2 ^ 32 - e

abbrev pub enospc : ℕ
enospc = 28
