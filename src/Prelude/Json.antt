-- ===== src/Prelude/Json.antt =====
-- The values of `JSON.parse`, as far as the code reads them. A number is a whole number of zero or
-- more, or another one.
use Prim.Native.Nat.{ℕ}
use Prim.Native.String.{String}
use mathlib.Core.Option.{Option, none, some}
use text.Mathlib.Text.{◌==◌}
use perk_os_nayori_platform.Prelude.Tests.{leb, if◌then◌else◌}

mutual
  pub data Value : Type 0 where
    null : Value
    boolean : Value
    number : ℕ → Value
    other_number : Value
    string : String → Value
    array : Value
    object : Fields → Value

  pub data Fields : Type 0 where
    end : Fields
    field : String → Value → Fields → Fields

-- The value of a key of an object; of two fields with one key the later counts, as in
-- `JSON.parse`.
unfoldable pub find_field : String → Fields → Option Value
find_field k end = none
find_field k (field j v fs) = elim (find_field k fs) [
  | none ↦ if j == k then some v else none
  | some w ↦ some w
]

-- `asRecord`
abbrev pub as_record : Option Value → Option Fields
as_record (some (object fs)) = some fs
as_record _ = none

abbrev pub property : String → Option Fields → Option Value
property k none = none
property k (some fs) = find_field k fs

abbrev pub as_text : Option Value → Option String
as_text (some (string s)) = some s
as_text _ = none

-- `safeInteger`: `Number.isSafeInteger(value) && value >= 0`
abbrev pub max_safe_integer : ℕ
max_safe_integer = 9007199254740991

abbrev pub safe_integer : Option Value → Option ℕ
safe_integer (some (number n)) = if leb n max_safe_integer then some n else none
safe_integer _ = none
