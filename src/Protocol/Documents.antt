-- ===== src/Protocol/Documents.antt =====
-- A small JSON library, for runs of the messages.
use Prim.Native.String.{String}
use text.Mathlib.Text.{◌==◌ as same_text}
use asystem_astate.Base.{
  ℕ, ◌≡◌, refl, ap, ◌∙◌, Bool, true, false, ◌||◌, ◌==◌, if◌then◌else◌, Option, none, some, List, [],
  ◌∷◌,
}
use asystem_astate.Protocol.Json.{Json, IsJson, assigned, is_some, is_listed, or_default}
use asystem_astate.Protocol.Trees.{
  Doc, null, str, flag, number, of_items, items, of_fields, fields, names, kind, write_doc, run,
  read-write,
}

abbrev as_text : Doc → Option String
as_text (str s) = some s
as_text d = none

abbrev as_flag : Doc → Option Bool
as_flag (flag b) = some b
as_flag d = none

abbrev as_number : Doc → Option ℕ
as_number (number n) = some n
as_number d = none

pub documents : Json
documents = record {
  Value = Doc;
  null = null;
  object = of_fields;
  array = of_items;
  of_string = str;
  of_bool = flag;
  of_int = number;
  of_int64 = number;
  of_uint64 = number;
  is_member = λ d n. some (is_some (assigned n (fields d) none));
  member = λ d n. some (or_default null (assigned n (fields d) none));
  member_names = λ d. names (fields d);
  elements = items;
  type_of = kind;
  is_int = λ d. kind d == 1;
  is_int64 = λ d. kind d == 1;
  is_array = λ d. kind d == 6;
  as_string = as_text;
  as_bool = as_flag;
  as_int = as_number;
  as_int64 = as_number;
  as_uint64 = as_number;
  write = λ d. write_doc d "";
  parse = λ s. run false s [];
}

fields-of_fields : (fs : List (String × Doc)) → fields (of_fields fs) ≡ fs
fields-of_fields [] = refl
fields-of_fields (f ∷ fs) = ap (λ gs. f ∷ gs) (fields-of_fields fs)

items-of_items : (ds : List Doc) → items (of_items ds) ≡ ds
items-of_items [] = refl
items-of_items (d ∷ ds) = ap (λ es. d ∷ es) (items-of_items ds)

kind-of_fields : (fs : List (String × Doc)) → kind (of_fields fs) ≡ 7
kind-of_fields [] = refl
kind-of_fields (f ∷ fs) = refl

kind-of_items : (ds : List Doc) → kind (of_items ds) ≡ 6
kind-of_items [] = refl
kind-of_items (d ∷ ds) = refl

or-true : (c : Bool) → true ≡ (c || true)
or-true true = refl
or-true false = refl

or-false : (c : Bool) → c ≡ (c || false)
or-false true = refl
or-false false = refl

is_listed-names :
    (fs : List (String × Doc)) (n : String) (last : Option Doc)
    → (is_listed n (names fs) || is_some last) ≡ is_some (assigned n fs last)
is_listed-names [] n last = refl
is_listed-names (f ∷ fs) n last = first (same_text f.0 n) (is_listed-names fs n)
  where
    first :
        (b : Bool)
        → ((last' : Option Doc)
            → (is_listed n (names fs) || is_some last') ≡ is_some (assigned n fs last'))
        → ((b || is_listed n (names fs)) || is_some last)
          ≡ is_some (assigned n fs (if b then some f.1 else last))
    first true h = or-true (is_listed n (names fs)) ∙ h (some f.1)
    first false h = h last

pub documents-IsJson : IsJson documents
unfolding documents
documents-IsJson = record {
  is_member_object = λ fs n. ap (λ gs. some (is_some (assigned n gs none))) (fields-of_fields fs);
  member_object =
      λ fs n. ap (λ gs. some (or_default null (assigned n gs none))) (fields-of_fields fs);
  names_object = λ fs n.
      ap (λ gs. is_listed n (names gs)) (fields-of_fields fs)
      ∙ or-false (is_listed n (names fs))
      ∙ is_listed-names fs n none;
  elements_array = items-of_items;
  type_object = kind-of_fields;
  type_array = kind-of_items;
  type_string = λ _. refl;
  type_int = λ _. refl;
  type_int64 = λ _. refl;
  is_int_int = λ _. refl;
  is_int64_int64 = λ _. refl;
  is_array_array = λ ds. ap (λ k. k == 6) (kind-of_items ds);
  as_string_string = λ _. refl;
  as_bool_bool = λ _. refl;
  as_int_int = λ _ _. refl;
  as_int64_int64 = λ _ _. refl;
  as_uint64_uint64 = λ _ _. refl;
  IsSigned = λ _. Unit;
  string_signed = λ _. tt;
  int_signed = λ _. tt;
  int64_signed = λ _. tt;
  array_signed = λ _ _. tt;
  object_signed = λ _ _. tt;
  read_back = λ d _. read-write d;
}
