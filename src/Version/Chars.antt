-- ===== src/Version/Chars.antt =====
-- The order of characters behind `cmp_verchar` in tools/version.c.
use static_distro.LibC.{isalpha}
use static_distro.Shared.{ℕ, suc, ◌+◌, compare, ◌≡◌, arith, ◌==◌, if◌then◌else◌}
use static_distro.Version.{cmp_verchar}

-- The tilde, the letters, the end of the string (NUL), then all else by its byte value.
unfoldable pub rank : ℕ → ℕ
unfolding isalpha
rank c = if c == b'~' then 0 else if isalpha c then suc c else 256 + c

pub cmp_verchar-rank : (a b : ℕ) → cmp_verchar a b ≡ compare (rank a) (rank b)
unfolding cmp_verchar rank
cmp_verchar-rank a b = ground arith

pub rank_injective : (a b : ℕ) → rank a ≡ rank b → a ≡ b
unfolding rank
rank_injective a b h = ground arith
