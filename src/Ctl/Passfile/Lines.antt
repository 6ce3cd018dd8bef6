-- ===== src/Ctl/Passfile/Lines.antt =====
-- What pefs_readpassfile of sbin/pefs/pefs_ctl.c takes of its files.
use pefs.Base.{
  ℕ, ◌+◌, ◌≤◌, ◌<◌, ◌≡◌, ◌≢◌, ◌⊎◌, Option, none, some, List, [], ◌∷◌, ◌++◌, length, if◌then◌else◌,
}
use pefs.Base.Bytes.{bytes_eq}
use pefs.Base.Text.{codes}
use pefs.Ctl.{Input, err_invalid}
use pefs.Ctl.Passfile.{has_zero, first_line}

-- Texts one behind the other, if all are there.
abbrev pub join : Option (List ℕ) → Option (List ℕ) → Option (List ℕ)
join none o = none
join (some t) none = none
join (some t) (some u) = some (t ++ u)

-- The first line of one read, unless it has a zero byte; and of all reads of a file and of all files.
abbrev pub line_of : List ℕ → Option (List ℕ)
line_of buf = if has_zero buf then none else some (first_line buf)

unfoldable pub lines_of : List (List ℕ) → Option (List ℕ)
lines_of [] = some []
lines_of (buf ∷ reads) = join (line_of buf) (lines_of reads)

abbrev pub file_lines : Option Input → Option (List ℕ)
file_lines none = none
file_lines (some input) = join (lines_of input.reads) (if input.fails then none else some [])

unfoldable pub all_lines :
    (ℕ → List ℕ → Option Input) → (ℕ → Input) → ℕ → List (List ℕ) → Option (List ℕ)
all_lines open_at stdin n [] = some []
all_lines open_at stdin n (file ∷ rest) =
    join (file_lines (if bytes_eq file (codes "-") then some (stdin n) else open_at n file))
      (all_lines open_at stdin (n + 1) rest)

-- A step from a passphrase: an error, or the passphrase with the text behind it, if it fits.
abbrev pub Gives : ℕ → List ℕ → Option (List ℕ) → ℕ × List ℕ → Type 0
Gives size pass none r = r.0 ≢ 0
Gives size pass (some u) r =
    ((length (pass ++ u) < size) × (r ≡ (0, pass ++ u)))
    ⊎ ((size ≤ length (pass ++ u)) × (r.0 ≡ err_invalid))

-- The outcome by the text of all files.
abbrev pub Outcome : ℕ → Option (List ℕ) → ℕ × List ℕ → Type 0
Outcome size none r = (r.0 ≢ 0) × (r.1 ≡ [])
Outcome size (some t) r =
    ((length t < size) × (r ≡ (0, t))) ⊎ ((size ≤ length t) × (r ≡ (err_invalid, [])))
