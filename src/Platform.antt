-- ===== src/Platform.antt =====
-- What the engine uses of Go's standard library beyond plain data: text, clock and JSON
-- functions, as parameters. A time is in nanoseconds, 0 the zero time.
pub mod Sample
use text.Mathlib.Text.{◌==◌ as str_eq}
use erebor.Prelude.{ℕ, ◌≡◌, false, String, List, Option, some}
use erebor.Prelude.Int.{ℤ, IsInt64}

pub record Platform : Type 0 where
  pub to_upper : String → String
  pub unix_milli : ℤ → ℕ
  -- time.Parse with the layout RFC3339Nano.
  pub parse_time : String → Option ℕ
  -- The layout 2006-01-02T15:04:05.999999999Z.
  pub parse_time_z : String → Option ℕ
  pub format_time : ℕ → String
  -- json.Unmarshal into a slice of pairs of strings.
  pub unmarshal_pairs : String → Option (List (String × String))
  -- json.Marshal of one.
  pub marshal_pairs : List (String × String) → String
  -- An int64 in base 10, and the value that strconv.ParseInt returns, also beside an error.
  pub format_int : ℤ → String
  pub parse_int : String → ℤ

-- Printing and parsing agree, in both layouts of a time: those that print a UTC time end in Z,
-- which both parse; a time stands for one of the years up to 9999, which the layouts cover. A
-- printed time is never empty, nor is a JSON array.
pub record IsFaithful (𝒫 : Platform) : Type 0 where
  pub parse_time-format_time : (t : ℕ) → 𝒫.parse_time (𝒫.format_time t) ≡ some t
  pub parse_time_z-format_time : (t : ℕ) → 𝒫.parse_time_z (𝒫.format_time t) ≡ some t
  pub format_time_nonempty : (t : ℕ) → str_eq (𝒫.format_time t) "" ≡ false
  pub unmarshal-marshal :
      (ps : List (String × String)) → 𝒫.unmarshal_pairs (𝒫.marshal_pairs ps) ≡ some ps
  pub marshal_nonempty : (ps : List (String × String)) → str_eq (𝒫.marshal_pairs ps) "" ≡ false
  pub parse-format_int : (n : ℤ) → IsInt64 n → 𝒫.parse_int (𝒫.format_int n) ≡ n
  pub format_int_nonempty : (n : ℤ) → str_eq (𝒫.format_int n) "" ≡ false
