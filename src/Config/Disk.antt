-- ===== src/Config/Disk.antt =====
-- The files that config_manager.py reads and writes, and the library routines that it calls.
use Prim.Native.Char.{code}
use Prim.Native.String
use mathlib.Core.Path.{subst}
use master_control.Prelude.{
  inl, inr, Bool-cases, ℕ, ◌+◌, String, Bool, true, false, ◌&&◌, ◌||◌, Option, none, some, List, [],
  ◌∷◌, ◌≡◌, refl, ◌==◌, eqb, ltb, is_some, eq_iff, arith, if◌then◌else◌,
}
use master_control.Codec.{Texts}
use master_control.Config.Targets.{FilePath, relative_to}
use master_control.Tools.Attempt.{Attempt, done, escaped}
use master_control.Tools.Machine.{CommandResult}

-- What a file holds: a text, in UTF-8, or a number of bytes that are no UTF-8.
pub data Content : Type 0 where
  utf8 : String → Content
  binary : ℕ → Content

pub record File : Type 0 where
  pub content : Content
  pub mode : ℕ

pub record Disk : Type 0 where
  pub file : FilePath → Option File
  pub directory : FilePath → Bool

-- The routines of the standard library and of the operating system. `os_error` is the exception of a
-- write, if it has one; `make_temp` is the last name that `tempfile.mkstemp` tries.
pub record Os : Type 0 where
  pub texts : Texts
  pub resolve : String → FilePath
  pub real : FilePath → FilePath
  pub subpath : FilePath → String → FilePath
  pub path_text : FilePath → String
  pub make_temp : FilePath → Disk → FilePath
  pub timestamp : String
  pub default_mode : ℕ
  pub os_error : String → FilePath → Disk → Option String
  pub ini_error : String → Option String
  pub json_error : String → Option String
  pub format_part : String → String → Attempt String
  pub run_validator : List String → Disk → Attempt CommandResult × Disk

unfoldable pub same_path : FilePath → FilePath → Bool
same_path [] [] = true
same_path [] (q ∷ qs) = false
same_path (p ∷ ps) [] = false
same_path (p ∷ ps) (q ∷ qs) = (p == q) && same_path ps qs

char_size : ℕ → ℕ
char_size c = if ltb c 128 then 1 else if ltb c 2048 then 2 else if ltb c 65536 then 3 else 4

-- `len(text.encode("utf-8"))`
unfoldable pub encoded_size : String → ℕ
unfolding char_size
encoded_size String.[] = 0
encoded_size (String.◌∷◌ c s) = char_size (code c) + encoded_size s

unfoldable pub size_of : Content → ℕ
size_of (utf8 text) = encoded_size text
size_of (binary n) = n

starts_with_newline : String → Bool
starts_with_newline String.[] = false
starts_with_newline (String.◌∷◌ c s) = eqb (code c) 10

-- What reading in text mode makes of the line ends: `\r\n` and `\r` become `\n`.
unfoldable pub newlines : String → String
unfolding starts_with_newline
newlines String.[] = ""
newlines (String.◌∷◌ c s) =
    let rest = newlines s in
    if eqb (code c) 13
    then (if starts_with_newline s then rest else String.◌++◌ "\n" rest)
    else String.◌∷◌ c rest

unfoldable pub parent_of : FilePath → FilePath
parent_of [] = []
parent_of (p ∷ []) = []
parent_of (p ∷ q ∷ path) = p ∷ parent_of (q ∷ path)

unfoldable pub exists : FilePath → Disk → Bool
exists path disk = is_some (disk.file path) || disk.directory path

-- The disk with another file, or without one, at a path.
unfoldable pub put_file : FilePath → Option File → Disk → Disk
put_file path file disk = record disk { file = λ p. if same_path p path then file else disk.file p }

-- `path.read_text(encoding="utf-8")`
unfoldable pub read_text : FilePath → Disk → Attempt String
read_text path disk = elim (disk.file path) [
  | none ↦ escaped (if disk.directory path then "IsADirectoryError" else "FileNotFoundError")
  | some file ↦ elim file.content [
    | binary n ↦ escaped "UnicodeDecodeError"
    | utf8 text ↦ done (newlines text)
  ]
]

-- `path.unlink(missing_ok=True)`
unfoldable pub unlink : FilePath → Disk → Disk
unlink path disk = put_file path none disk

module _ (os : Os) where
  open os use {os_error, default_mode, make_temp}

  -- `path.mkdir(parents=True, exist_ok=True)`
  unfoldable pub make_directory : FilePath → Disk → Attempt (Unit {0}) × Disk
  make_directory path disk = elim (os_error "mkdir" path disk) [
    | some text ↦ (escaped text, disk)
    | none ↦
        (done tt, record disk { directory = λ p. is_some (relative_to path p) || disk.directory p })
  ]

  -- The mode that a file keeps when it is written again.
  mode_at : FilePath → Disk → ℕ
  mode_at path disk = elim (disk.file path) [ none ↦ default_mode | some file ↦ file.mode ]

  -- `path.write_text(text, encoding="utf-8")`
  unfoldable pub write_file : FilePath → String → Disk → Attempt (Unit {0}) × Disk
  unfolding mode_at
  write_file path text disk = elim (os_error "write" path disk) [
    | some e ↦ (escaped e, disk)
    | none ↦ (
      done tt,
      put_file path (some (record { content = utf8 text; mode = mode_at path disk })) disk,
    )
  ]

pub same_path_self : (p : FilePath) → same_path p p ≡ true
unfolding same_path
same_path_self [] = refl
same_path_self (x ∷ p) = ground (arith, eq_iff x x, same_path_self p)

pub same_path-eq : (p q : FilePath) → same_path p q ≡ true → p ≡ q
unfolding same_path
same_path-eq [] [] h = refl
same_path-eq [] (y ∷ q) h = ground (arith, h)
same_path-eq (x ∷ p) [] h = ground (arith, h)
same_path-eq (x ∷ p) (y ∷ q) h = ground (arith, h, eq_iff x y, same_path-eq p q)

-- What a path reads as after a write to it.
pub file-put_file :
    (path : FilePath) (file : Option File) (disk : Disk)
    → (put_file path file disk).file path ≡ file
unfolding put_file
file-put_file path file disk = rw (same_path_self path) refl

-- A write to another path is not seen.
pub file-put_file_other :
    (p path : FilePath) (file : Option File) (disk : Disk)
    → same_path p path ≡ false
    → (put_file path file disk).file p ≡ disk.file p
unfolding put_file
file-put_file_other p path file disk h = rw h refl

pub same_path_sym : (p q : FilePath) → same_path p q ≡ false → same_path q p ≡ false
same_path_sym p q h = elim (Bool-cases (same_path q p)) [
  | inr e ↦ e
  | inl e ↦
      let same = same_path-eq q p e in
      let k : same_path p p ≡ false = subst (λ q. same_path p q ≡ false) same h in
      ground (arith, same_path_self p, k)
]
