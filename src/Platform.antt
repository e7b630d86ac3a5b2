-- ===== src/Platform.antt =====
-- What the engine takes from outside its own sources: 64-bit floats, hashing, hex, signatures,
-- UUIDs and calendar time. Each is an interface; the engine's code is generic over it.
use irl_engine_ax.Prelude.{ℕ, ℤ, Text, Bool, List, Option}

-- IEEE 754 binary64 arithmetic, PostgreSQL's SUM over a NUMERIC column cast to float8, the
-- `Display` of a float and its form `{:.n}`. `column` is what a float8 read of a NUMERIC column gives after the float
-- was stored in it. `decimal m k` is the literal m · 10⁻ᵏ. No law is assumed of rounding.
pub record Float64 (F : Type 0) : Type 0 where
  pub decimal : ℕ → ℕ → F
  pub add : F → F → F
  pub sub : F → F → F
  pub mul : F → F → F
  pub neg : F → F
  pub abs : F → F
  pub gt : F → F → Bool
  pub eq : F → F → Bool
  pub sum : List F → F
  pub column : F → F
  pub to_bits : F → ℕ
  pub display : F → Text
  pub fixed : ℕ → F → Text

-- SHA-256, the `hex` crate, Ed25519 verification (key, message, signature), the `Display` of a
-- `Uuid`, and chrono's `timestamp_millis_opt`, where a `DateTime` is its Unix milliseconds and
-- `none` stands for a value out of chrono's range.
pub record Externals : Type 0 where
  pub sha256 : List ℕ → List ℕ
  pub hex_encode : List ℕ → Text
  pub hex_decode : Text → Option (List ℕ)
  pub ed25519_verify : List ℕ → List ℕ → List ℕ → Bool
  pub uuid_text : ℕ → Text
  pub timestamp_millis_opt : ℤ → Option ℤ

module _ {F : Type 0} ⦃fl : Float64 F⦄ where
  -- The literals 0.0 and 1.0.
  abbrev pub zero : F
  zero = fl.decimal 0 0

  abbrev pub one : F
  one = fl.decimal 1 0
