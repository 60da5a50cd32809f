-- ===== src/Workspace/Machine.antt =====
-- What workspace.py uses of the disk and of git: an interface that its functions take.
use orchestrator_service.Prelude.{
  Text, codes, Bool, Option, List, [], ◌∷◌, ◌++◌, if◌then◌else◌, is_empty, ◌==◌, reverse,
  starts_with,
}

-- How a git command ends: with its output, with a code other than 0, or git is not installed.
pub data GitEnd : Type 0 where
  done : Text → GitEnd
  failed no_git : GitEnd

-- The operations of os, pathlib and subprocess that the code calls, on the state `W` of the machine.
-- Writing to the disk succeeds; `read_text` gives none for an OSError.
pub record Machine (W : Type 0) : Type 0 where
  pub is_dir : Text → W → Bool
  pub is_file : Text → W → Bool
  pub path_exists : Text → W → Bool
  pub list_dir : Text → W → List Text
  pub real_path : Text → W → Text
  pub read_text : Text → W → Option Text
  pub write_text : Text → Text → W → W
  pub make_dirs : Text → W → W
  pub remove_tree : Text → W → W
  pub git : Text → List Text → W → GitEnd × W

-- The exceptions that leave the functions.
pub data Failure : Type 0 where
  escapes_base command_failed : Failure

-- A call that changes the state, and returns or raises.
pub data Ran (A W : Type 0) : Type 0 where
  returned : A → W → Ran A W
  raised : Failure → W → Ran A W

-- One call after another.
module _ {A B W : Type 0} where
  infixl 5 ◌>>=◌
  abbrev pub ◌>>=◌ : Ran A W → (A → W → Ran B W) → Ran B W
  returned a w >>= rest = rest a w
  raised failure w >>= rest = raised failure w

-- os.path.join(a, b)
unfoldable pub join_path : Text → Text → Text
join_path a b =
    if starts_with (codes "/") b
    then b
    else if is_empty a
    then b
    else if starts_with (codes "/") (reverse a)
    then a ++ b
    else a ++ b'/' ∷ b

-- text.replace("/", "-")
unfoldable pub dashed : Text → Text
dashed [] = []
dashed (c ∷ t) = (if c == b'/' then b'-' else c) ∷ dashed t

-- subprocess.run(..., check=True): a command that fails, or is not there, raises.
unfoldable pub checked : {W : Type 0} → GitEnd × W → Ran Text W
checked (done out, w) = returned out w
checked (failed, w) = raised command_failed w
checked (no_git, w) = raised command_failed w
