-- ===== src/Files.antt =====
-- src/common/tools/files.py. The file system is a parameter: what `open` and reading do.
use fastapi_claude_template.Prelude.{
  String, Bool, true, false, not, Option, none, some, List, [], ◌∷◌, any, ◌==◌, ◌<>◌, is_some,
  if◌then◌else◌,
}
use text.Mathlib.Text.{find?}
use fastapi_claude_template.Errors.{Failure, value_error, external}
use fastapi_claude_template.Exec.{Exec, pure, raise, try_except, finally, ◌>>=◌, ◌>>◌}

-- What the file system may answer with
pub data OsError : Type 0 where
  file_not_found : OsError
  os_error : String → OsError

pub record FileSystem (S : Type 0) : Type 0 where
  pub open_ : String → String → Exec S (Unit {0})
  pub read : Exec S String
  pub close : Exec S (Unit {0})
  -- Which exceptions are FileNotFoundError and other OSErrors
  pub classify : Failure → Option OsError

abbrev pub modes : List String
modes = "r" ∷ "w" ∷ "a" ∷ "rb" ∷ "wb" ∷ "ab" ∷ "r+" ∷ "w+" ∷ "a+" ∷ "rb+" ∷ "wb+" ∷ "ab+" ∷ []

module _ {S : Type 0} (fs : FileSystem S) where
  abbrev pub read_if : Bool → Exec S (Option String)
  read_if true = do text ← fs.read; pure (some text)
  read_if false = pure none

  abbrev pub convert_os : String → Failure → Option OsError → Exec S (Option String)
  convert_os path e none = raise e
  convert_os path e (some file_not_found) = raise (external ("File not found: " <> path))
  convert_os path e (some (os_error m)) =
      raise (external ("Error accessing file " <> path <> ": " <> m))

  unfoldable pub open_file_sync : String → String → Exec S (Option String)
  open_file_sync path mode =
      if not (any (λ m. m == mode) modes)
      then raise (value_error ("Invalid mode '" <> mode <> "'. Must be a valid file access mode."))
      else try_except (fs.open_ path mode >> finally (read_if (is_some (find? mode "r"))) fs.close)
          (λ e. convert_os path e (fs.classify e))
