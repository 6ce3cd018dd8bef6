-- ===== src/Ctl/Passfile.antt =====
-- Passphrases from files: pefs_readpassfile and its handler of sbin/pefs/pefs_ctl.c.
pub mod Lines
use pefs.Base.{
  ℕ, ◌+◌, Bool, true, false, Option, List, [], ◌∷◌, ◌++◌, length, ltb, leb, ◌==◌, if◌then◌else◌,
}
use pefs.Ctl.{Input, pefs_readfiles, err_invalid}

-- `strlen(buf) != len`, for the bytes of one read with a zero behind them.
unfoldable pub has_zero : List ℕ → Bool
has_zero [] = false
has_zero (c ∷ buf) = if c == 0 then true else has_zero buf

-- The text up to a new-line character.
unfoldable pub first_line : List ℕ → List ℕ
first_line [] = []
first_line (c ∷ buf) = if c == 10 then [] else c ∷ first_line buf

-- The context is the passphrase, in an array of `size` bytes; strlcat returns the length that it
-- tried to make.
unfoldable pub pefs_readpassfile_handler : ℕ → List ℕ → List ℕ → List ℕ → ℕ × List ℕ
unfolding has_zero first_line
pefs_readpassfile_handler size passphrase buf file =
    if has_zero buf
    then (err_invalid, passphrase)
    else if leb size (length passphrase + length (first_line buf))
    then (err_invalid, [])
    else (0, passphrase ++ first_line buf)

unfoldable pub readpassfile_end : ℕ × List ℕ → ℕ × List ℕ
readpassfile_end (error, passphrase) = if error == 0 then (0, passphrase) else (error, [])

unfoldable pub pefs_readpassfile :
    (ℕ → List ℕ → Option Input) → (ℕ → Input) → ℕ → List (List ℕ) → ℕ × List ℕ
unfolding pefs_readpassfile_handler readpassfile_end
pefs_readpassfile open_at stdin size files =
    readpassfile_end (pefs_readfiles (pefs_readpassfile_handler size) open_at stdin files [])
