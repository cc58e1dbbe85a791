-- ===== src/Config/RoundTrip.antt =====
-- libel/libel.c: what a call of `sky_set_option` means for the calls of `sky_get_option` after it.
use embedded_client.Config.Options.{sky_set_option, ConfigName, sky_get_option, to_u32}
use embedded_client.Types.{error, success, error_bad_parameters, error_none, Session, Errno, Status}
use embedded_client.Common.{some, ℤ, ◌≡◌, ◌⊎◌, arith}

-- What setting an option to a value does to it and to an option `other`: refused, it changes
-- nothing; otherwise it reads as the value, and `other`, unless it is the same, as before.
abbrev pub Sets : Session → ConfigName → ConfigName → ℤ → Session × Errno × Status → Type 0
Sets s name other value (q, code, error) = (q ≡ s) × (code ≡ error_bad_parameters)
Sets s name other value (q, code, success) =
    (sky_get_option q name ≡ (some (to_u32 value), error_none, success))
    × ((name ≡ other) ⊎ (sky_get_option q other ≡ sky_get_option s other))
    × (q.header ≡ s.header)
    × (q.cacheline ≡ s.cacheline)
    × (q.open_flag ≡ s.open_flag)
    × (q.backoff ≡ s.backoff)
    × (code ≡ error_none)

-- Setting an option either fails and changes nothing, or succeeds; then reading that option gives
-- the value as an unsigned number, and reading any other gives what it gave before.
pub sky_set_option-Sets :
    (s : Session) (name other : ConfigName) (value : ℤ)
    → Sets s name other value (sky_set_option s name value)
unfolding sky_set_option sky_get_option
sky_set_option-Sets s name other value = ground arith
