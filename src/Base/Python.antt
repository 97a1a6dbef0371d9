-- ===== src/Base/Python.antt =====
-- What the services use of Python's `str` and `re`: the characters of `\d`, `text.upper()` and
-- `text.strip().lower()`, on code points. They are parameters of the models that use them.
use Prim.Native.Nat.{ℕ}
use mathlib.Core.Bool.{Bool}
use mathlib.Core.List.{List}

pub record PythonText : Type 0 where
  pub is_digit : ℕ → Bool
  pub upper : List ℕ → List ℕ
  pub strip_lower : List ℕ → List ℕ
