-- ===== src/Protocol/Trees.antt =====
-- Values as trees, and their text in postfix notation.
use Prim.Native.Char.{Char, code}
use Prim.Native.String.{String, [] as empty_text, ◌∷◌ as ◌+>◌}
use asystem_astate.Base.{
  ℕ, zero, suc, ◌≡◌, refl, ◌∙◌, Bool, true, false, ◌==◌, if◌then◌else◌, Option, none, some, ◌>>=◌,
  List, [], ◌∷◌,
}

pub data Doc : Type 0 where
  null : Doc
  str : String → Doc
  flag : Bool → Doc
  number : ℕ → Doc
  no_items : Doc
  item : Doc → Doc → Doc
  no_fields : Doc
  field : String → Doc → Doc → Doc

abbrev pub of_items : List Doc → Doc
of_items [] = no_items
of_items (d ∷ ds) = item d (of_items ds)

abbrev pub items : Doc → List Doc
items (item d ds) = d ∷ items ds
items d = []

abbrev pub of_fields : List (String × Doc) → Doc
of_fields [] = no_fields
of_fields (f ∷ fs) = field f.0 f.1 (of_fields fs)

abbrev pub fields : Doc → List (String × Doc)
fields (field n d ds) = (n, d) ∷ fields ds
fields d = []

abbrev pub names : List (String × Doc) → List String
names [] = []
names (f ∷ fs) = f.0 ∷ names fs

abbrev pub kind : Doc → ℕ
kind null = 0
kind (str s) = 4
kind (flag b) = 5
kind (number n) = 1
kind no_items = 6
kind (item d ds) = 6
kind no_fields = 7
kind (field n d ds) = 7

write_text : String → String → String
write_text empty_text rest = "e" +> rest
write_text (c +> s) rest = write_text s ("c" +> (c +> rest))

write_number : ℕ → String → String
write_number zero rest = "z" +> rest
write_number (suc n) rest = write_number n ("s" +> rest)

pub write_doc : Doc → String → String
unfolding write_text write_number
write_doc null rest = "u" +> rest
write_doc (str s) rest = write_text s rest
write_doc (flag true) rest = "y" +> rest
write_doc (flag false) rest = "w" +> rest
write_doc (number n) rest = write_number n rest
write_doc no_items rest = "n" +> rest
write_doc (item d ds) rest = write_doc d (write_doc ds ("k" +> rest))
write_doc no_fields rest = "o" +> rest
write_doc (field n d ds) rest = write_text n (write_doc d (write_doc ds ("f" +> rest)))

-- The stack after a character.
step : Char → List Doc → Option (List Doc)
step c st =
    if code c == code "e"
    then some (str "" ∷ st)
    else if code c == code "z"
    then some (number 0 ∷ st)
    else if code c == code "u"
    then some (null ∷ st)
    else if code c == code "y"
    then some (flag true ∷ st)
    else if code c == code "w"
    then some (flag false ∷ st)
    else if code c == code "n"
    then some (no_items ∷ st)
    else if code c == code "o"
    then some (no_fields ∷ st)
    else if code c == code "s"
    then grow st
    else if code c == code "k"
    then add_item st
    else if code c == code "f"
    then add_field st
    else none
  where
    grow : List Doc → Option (List Doc)
    grow (number n ∷ st) = some (number (suc n) ∷ st)
    grow st = none

    add_item : List Doc → Option (List Doc)
    add_item (ds ∷ d ∷ st) = some (item d ds ∷ st)
    add_item st = none

    add_field : List Doc → Option (List Doc)
    add_field (ds ∷ d ∷ str n ∷ st) = some (field n d ds ∷ st)
    add_field st = none

abbrev prepend : Char → List Doc → Option (List Doc)
prepend c (str s ∷ st) = some (str (c +> s) ∷ st)
prepend c st = none

abbrev top : List Doc → Option Doc
top [] = none
top (d ∷ st) = some d

-- `quoted`: the next character belongs to the text on the stack.
pub run : Bool → String → List Doc → Option Doc
unfolding step
run quoted empty_text st = top st
run true (c +> rest) st = do st' ← prepend c st; run false rest st'
run false (c +> rest) st =
    let quote = run true rest st in
    let next = (do st' ← step c st; run false rest st') in
    if code c == code "c" then quote else next

run-text :
    (s rest : String) (st : List Doc)
    → run false (write_text s rest) st ≡ run false rest (str s ∷ st)
unfolding run write_text step
run-text empty_text rest st = refl
run-text (c +> s) rest st = run-text s ("c" +> (c +> rest)) st ∙ refl

run-number :
    (n : ℕ) (rest : String) (st : List Doc)
    → run false (write_number n rest) st ≡ run false rest (number n ∷ st)
unfolding run write_number step
run-number zero rest st = refl
run-number (suc n) rest st = run-number n ("s" +> rest) st ∙ refl

run-doc :
    (d : Doc) (rest : String) (st : List Doc)
    → run false (write_doc d rest) st ≡ run false rest (d ∷ st)
unfolding run write_doc step
run-doc null rest st = refl
run-doc (str s) rest st = run-text s rest st
run-doc (flag true) rest st = refl
run-doc (flag false) rest st = refl
run-doc (number n) rest st = run-number n rest st
run-doc no_items rest st = refl
run-doc (item d ds) rest st = run-doc d _ st ∙ run-doc ds ("k" +> rest) (d ∷ st) ∙ refl
run-doc no_fields rest st = refl
run-doc (field n d ds) rest st =
    run-text n _ st ∙ run-doc d _ (str n ∷ st) ∙ run-doc ds ("f" +> rest) (d ∷ str n ∷ st) ∙ refl

pub read-write : (d : Doc) → run false (write_doc d "") [] ≡ some d
unfolding run
read-write d = run-doc d "" []
