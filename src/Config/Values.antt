-- ===== src/Config/Values.antt =====
-- What src/utils/config.rs relies on of the library yaml_rust.
use torc_scheduler.Config.{YamlLibrary}
use torc_scheduler.HashMap.{HashMap, get}
use torc_scheduler.Machine.F64.{F64, is_finite}
use torc_scheduler.Prelude.{
  String, ◌≡◌, Bool, true, false, not, ◌&&◌, some, List, [], ◌∷◌, ◌==◌, if◌then◌else◌,
}

-- No key stands twice.
abbrev has_key : {V : Type 0} → String → HashMap V → Bool
has_key k [] = false
has_key k ((j, v) ∷ m) = if j == k then true else has_key k m

abbrev pub is_distinct : {V : Type 0} → HashMap V → Bool
is_distinct [] = true
is_distinct ((j, v) ∷ m) = not (has_key j m) && is_distinct m

-- What yaml_rust documents of the values that a document can have. A real number is kept as its text
-- and parsed when it is read; the text of a finite number is parsed as that number.
pub record YamlValues (lib : YamlLibrary) : Type 0 where
  pub string : String → lib.Yaml
  pub boolean : Bool → lib.Yaml
  pub real : F64 → lib.Yaml
  pub array : List lib.Yaml → lib.Yaml
  pub hash : HashMap lib.Yaml → lib.Yaml
  pub as_str-string : (s : String) → lib.as_str (string s) ≡ some s
  pub as_bool-boolean : (b : Bool) → lib.as_bool (boolean b) ≡ some b
  pub as_f64-real : (x : F64) → is_finite x ≡ true → lib.as_f64 (real x) ≡ some x
  pub as_vec-array : (vs : List lib.Yaml) → lib.as_vec (array vs) ≡ some vs
  pub string_present : (s : String) → lib.is_badvalue (string s) ≡ false
  pub boolean_present : (b : Bool) → lib.is_badvalue (boolean b) ≡ false
  pub real_present : (x : F64) → lib.is_badvalue (real x) ≡ false
  pub array_present : (vs : List lib.Yaml) → lib.is_badvalue (array vs) ≡ false
  pub index-hash :
      (k : String) (v : lib.Yaml) (m : HashMap lib.Yaml)
      → is_distinct m ≡ true
      → get k m ≡ some v
      → lib.index (hash m) k ≡ v
