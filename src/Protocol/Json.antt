-- ===== src/Protocol/Json.antt =====
-- What src/protocol/messages.cpp uses of jsoncpp. Integers are their bit patterns, and `none` is an
-- exception.
use asystem_astate.Base.{
  ℕ, ◌^◌, ◌<◌, ◌≡◌, ◌||◌, Bool, true, false, ◌==◌, Option, none, some, ◌>>=◌, List, [], ◌∷◌,
  if◌then◌else◌, All,
}
use Prim.Native.String.{String}
use text.Mathlib.Text.{◌==◌ as same_text}

-- The enumerators of `Json::ValueType` that are used.
abbrev pub int_value : ℕ
int_value = 1

abbrev pub string_value : ℕ
string_value = 4

abbrev pub array_value : ℕ
array_value = 6

abbrev pub object_value : ℕ
object_value = 7

abbrev pub is_listed : String → List String → Bool
is_listed name [] = false
is_listed name (n ∷ ns) = same_text n name || is_listed name ns

module _ {ℓ} {V : Type ℓ} where
  -- The member of a name after the assignments `root[name] = value` of a list, in order.
  abbrev pub assigned : String → List (String × V) → Option V → Option V
  assigned name [] last = last
  assigned name (f ∷ fs) last = assigned name fs (if same_text f.0 name then some f.1 else last)

  abbrev pub or_default : V → Option V → V
  or_default x none = x
  or_default x (some y) = y

  abbrev pub is_some : Option V → Bool
  is_some none = false
  is_some (some x) = true

pub record Json : Type 1 where
  pub Value : Type 0
  pub null : Value
  -- an object with the members that a list of assignments gives it
  pub object : List (String × Value) → Value
  pub array : List Value → Value
  pub of_string : String → Value
  pub of_bool : Bool → Value
  pub of_int : ℕ → Value
  pub of_int64 : ℕ → Value
  pub of_uint64 : ℕ → Value
  pub is_member : Value → String → Option Bool
  pub member : Value → String → Option Value
  pub member_names : Value → List String
  pub elements : Value → List Value
  pub type_of : Value → ℕ
  pub is_int : Value → Bool
  pub is_int64 : Value → Bool
  pub is_array : Value → Bool
  pub as_string : Value → Option String
  pub as_bool : Value → Option Bool
  pub as_int : Value → Option ℕ
  pub as_int64 : Value → Option ℕ
  pub as_uint64 : Value → Option ℕ
  pub write : Value → String
  pub parse : String → Option Value

-- The documented behaviour that the messages rely on. Text that is written is read back as the same
-- value if the value holds no unsigned and no real numbers.
pub record IsJson (json : Json) : Type 1 where
  pub is_member_object :
      (fs : List (String × json.Value)) (name : String)
      → json.is_member (json.object fs) name ≡ some (is_some (assigned name fs none))
  pub member_object :
      (fs : List (String × json.Value)) (name : String)
      → json.member (json.object fs) name ≡ some (or_default json.null (assigned name fs none))
  pub names_object :
      (fs : List (String × json.Value)) (name : String)
      → is_listed name (json.member_names (json.object fs)) ≡ is_some (assigned name fs none)
  pub elements_array : (vs : List json.Value) → json.elements (json.array vs) ≡ vs
  pub type_object : (fs : List (String × json.Value)) → json.type_of (json.object fs) ≡ object_value
  pub type_array : (vs : List json.Value) → json.type_of (json.array vs) ≡ array_value
  pub type_string : (s : String) → json.type_of (json.of_string s) ≡ string_value
  pub type_int : (x : ℕ) → json.type_of (json.of_int x) ≡ int_value
  pub type_int64 : (x : ℕ) → json.type_of (json.of_int64 x) ≡ int_value
  pub is_int_int : (x : ℕ) → json.is_int (json.of_int x) ≡ true
  pub is_int64_int64 : (x : ℕ) → json.is_int64 (json.of_int64 x) ≡ true
  pub is_array_array : (vs : List json.Value) → json.is_array (json.array vs) ≡ true
  pub as_string_string : (s : String) → json.as_string (json.of_string s) ≡ some s
  pub as_bool_bool : (b : Bool) → json.as_bool (json.of_bool b) ≡ some b
  pub as_int_int : (x : ℕ) → x < 2 ^ 32 → json.as_int (json.of_int x) ≡ some x
  pub as_int64_int64 : (x : ℕ) → x < 2 ^ 64 → json.as_int64 (json.of_int64 x) ≡ some x
  pub as_uint64_uint64 : (x : ℕ) → x < 2 ^ 64 → json.as_uint64 (json.of_uint64 x) ≡ some x
  pub IsSigned : json.Value → Type 0
  pub string_signed : (s : String) → IsSigned (json.of_string s)
  pub int_signed : (x : ℕ) → IsSigned (json.of_int x)
  pub int64_signed : (x : ℕ) → IsSigned (json.of_int64 x)
  pub array_signed : (vs : List json.Value) → All IsSigned vs → IsSigned (json.array vs)
  pub object_signed :
      (fs : List (String × json.Value)) → All (λ f. IsSigned f.1) fs → IsSigned (json.object fs)
  pub read_back : (v : json.Value) → IsSigned v → json.parse (json.write v) ≡ some v

module _ (json : Json) where
  open json use {Value, is_member, member, type_of}

  unfoldable pub check_required_field : Value → String → Option {0} Unit
  check_required_field root field = do found ← is_member root field; if found then some tt else none

  unfoldable pub check_field_type : Value → String → ℕ → Option {0} Unit
  check_field_type root field type = do
    v ← member root field
    if type_of v == type then some tt else none
