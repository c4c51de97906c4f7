-- ===== src/Json/Sample.antt =====
-- A small JSON library, for tests: values as data, and their text.
use aribcap_dump.Json.{JsonLibrary}
use aribcap_dump.Output.{Text}
use aribcap_dump.Prelude.{
  contains_byte, sym, ◌∙◌, subst, zero, ◌%◌, ◌/◌, false, ◌||◌, ◌+◌, arith, suc, ◌==◌, ltb, ap, some,
  true, none, codes, ◌∷◌, ◌∷◌, ◌++◌, same_text, [], Option, if◌then◌else◌, Bool, ℕ, ◌≡◌, List, refl,
}

mutual
  pub data Value : Type 0 where
    null : Value
    text : Text → Value
    number : ℕ → Value
    boolean : Bool → Value
    object : Fields → Value
    array : Items → Value

  pub data Items : Type 0 where
    nil : Items
    cons : Value → Items → Items

  pub data Fields : Type 0 where
    end : Fields
    field : Text → Value → Fields → Fields

abbrev assign : Fields → Text → Value → Fields
assign end key v = field key v end
assign (field k w fs) key v =
    let rest = assign fs key v in if same_text k key then field k v fs else field k w rest

abbrev at : Fields → Text → Option Value
at end q = none
at (field k v fs) q = if same_text k q then some v else at fs q

abbrev push_back : Items → Value → Items
push_back nil v = cons v nil
push_back (cons w vs) v = cons w (push_back vs v)

abbrev elements : Items → List Value
elements nil = []
elements (cons v vs) = v ∷ elements vs

abbrev as_text : Value → Option Text
as_text (text t) = some t
as_text _ = none

abbrev as_number : Value → Option ℕ
as_number (number n) = some n
as_number _ = none

abbrev as_boolean : Value → Option Bool
as_boolean (boolean b) = some b
as_boolean _ = none

abbrev as_object : Value → Option Fields
as_object (object o) = some o
as_object _ = none

abbrev as_array : Value → Option Items
as_array (array a) = some a
as_array _ = none

same_text-eq : (a b : Text) → same_text a b ≡ true → a ≡ b
same_text-eq [] [] h = refl
same_text-eq [] (b ∷ bs) h = cc
same_text-eq (a ∷ as') [] h = cc
same_text-eq (a ∷ as') (b ∷ bs) h = ground (arith, h, same_text-eq as' bs)

same_text_refl : (a : Text) → same_text a a ≡ true
same_text_refl [] = refl
same_text_refl (a ∷ as') = ground (arith, same_text_refl as')

agree : (k l q : Text) → same_text k q ≡ true → same_text l q ≡ true → same_text k l ≡ true
agree k l q a b =
    subst (λ t. same_text k t ≡ true) (same_text-eq k q a ∙ sym (same_text-eq l q b))
      (same_text_refl k)

pub at-assign :
    (o : Fields) (key : Text) (v : Value) (q : Text)
    → at (assign o key v) q ≡ (if same_text key q then some v else at o q)
at-assign end key v q = refl
at-assign (field k w fs) key v q = ground (
  arith,
  same_text-eq k key,
  same_text-eq k q,
  same_text-eq key q,
  agree k key q,
  at-assign fs key v q,
)

pub elements-push_back : (a : Items) (v : Value) → elements (push_back a v) ≡ elements a ++ (v ∷ [])
elements-push_back nil v = refl
elements-push_back (cons w a) v = ap (λ vs. w ∷ vs) (elements-push_back a v)

-- Decimal digits; enough for the numbers of a record.
unfoldable pub digits : ℕ → ℕ → Text
digits zero n = []
digits (suc k) n =
    let rest = digits k (n / 10) in if ltb n 10 then (48 + n) ∷ [] else rest ++ ((48 + n % 10) ∷ [])

unfoldable pub hex : ℕ → ℕ
hex n = if ltb n 10 then 48 + n else 87 + n

unfoldable pub escaped : ℕ → Text
escaped c =
    if c == b'"' || c == b'\\'
    then b'\\' ∷ c ∷ []
    else if ltb c 32
    then codes "\\u00" ++ (hex (c / 16) ∷ hex (c % 16) ∷ [])
    else c ∷ []

unfoldable pub escape : Text → Text
escape [] = []
escape (c ∷ cs) = escaped c ++ escape cs

unfoldable pub quoted : Text → Text
quoted t = b'"' ∷ (escape t ++ (b'"' ∷ []))

unfoldable mutual
  unfolding quoted escape digits

  pub to_string : Value → Text
  to_string null = codes "null"
  to_string (text t) = quoted t
  to_string (number n) = digits 20 n
  to_string (boolean true) = codes "true"
  to_string (boolean false) = codes "false"
  to_string (object fs) = b'{' ∷ (fields_to_string fs ++ (b'}' ∷ []))
  to_string (array vs) = b'[' ∷ (items_to_string vs ++ (b']' ∷ []))

  pub items_to_string : Items → Text
  items_to_string nil = []
  items_to_string (cons v nil) = to_string v
  items_to_string (cons v (cons w vs)) = to_string v ++ (b',' ∷ items_to_string (cons w vs))

  pub fields_to_string : Fields → Text
  fields_to_string end = []
  fields_to_string (field k v end) = quoted k ++ (b':' ∷ to_string v)
  fields_to_string (field k v (field l w fs)) =
      quoted k ++ (b':' ∷ (to_string v ++ (b',' ∷ fields_to_string (field l w fs))))

contains-append :
    (b : ℕ) (s t : Text) → contains_byte b (s ++ t) ≡ contains_byte b s || contains_byte b t
contains-append b [] t = refl
contains-append b (c ∷ s) t = ground (arith, contains-append b s t)

OneLine-append :
    (s t : Text)
    → contains_byte b'\n' s ≡ false
    → contains_byte b'\n' t ≡ false
    → contains_byte b'\n' (s ++ t) ≡ false
OneLine-append s t a b = contains-append b'\n' s t ∙ ground (arith, a, b)

digits_one_line : (k n : ℕ) → contains_byte b'\n' (digits k n) ≡ false
unfolding digits
digits_one_line zero n = refl
digits_one_line (suc k) n =
    ground
      (arith, OneLine-append (digits k (n / 10)) ((48 + n % 10) ∷ []) (digits_one_line k (n / 10)))

hex-ne : (n : ℕ) → (hex n == b'\n') ≡ false
unfolding hex
hex-ne n = ground arith

escaped_one_line : (c : ℕ) → contains_byte b'\n' (escaped c) ≡ false
unfolding escaped
escaped_one_line c = ground (arith, hex-ne (c / 16), hex-ne (c % 16))

escape_one_line : (t : Text) → contains_byte b'\n' (escape t) ≡ false
unfolding escape
escape_one_line [] = refl
escape_one_line (c ∷ cs) =
    OneLine-append (escaped c) (escape cs) (escaped_one_line c) (escape_one_line cs)

quoted_one_line : (t : Text) → contains_byte b'\n' (quoted t) ≡ false
unfolding quoted
quoted_one_line t = OneLine-append (escape t) (b'"' ∷ []) (escape_one_line t) refl

mutual
  unfolding to_string items_to_string fields_to_string

  pub to_string_one_line : (v : Value) → contains_byte b'\n' (to_string v) ≡ false
  to_string_one_line null = refl
  to_string_one_line (text t) = quoted_one_line t
  to_string_one_line (number n) = digits_one_line 20 n
  to_string_one_line (boolean true) = refl
  to_string_one_line (boolean false) = refl
  to_string_one_line (object fs) =
      OneLine-append (fields_to_string fs) (b'}' ∷ []) (fields_one_line fs) refl
  to_string_one_line (array vs) =
      OneLine-append (items_to_string vs) (b']' ∷ []) (items_one_line vs) refl

  items_one_line : (vs : Items) → contains_byte b'\n' (items_to_string vs) ≡ false
  items_one_line nil = refl
  items_one_line (cons v nil) = to_string_one_line v
  items_one_line (cons v (cons w vs)) =
      OneLine-append (to_string v) (b',' ∷ items_to_string (cons w vs)) (to_string_one_line v)
        (items_one_line (cons w vs))

  fields_one_line : (fs : Fields) → contains_byte b'\n' (fields_to_string fs) ≡ false
  fields_one_line end = refl
  fields_one_line (field k v end) =
      OneLine-append (quoted k) (b':' ∷ to_string v) (quoted_one_line k) (to_string_one_line v)
  fields_one_line (field k v (field l w fs)) =
      let rest = fields_to_string (field l w fs) in
      OneLine-append (quoted k) (b':' ∷ (to_string v ++ (b',' ∷ rest))) (quoted_one_line k) (
        OneLine-append (to_string v) (b',' ∷ rest) (to_string_one_line v)
          (fields_one_line (field l w fs)))

-- The library's interface, filled by these values.
unfoldable pub sample : JsonLibrary
sample = record {
  Json = Value;
  Object = Fields;
  Array = Items;
  null = null;
  text = text;
  number = number;
  boolean = boolean;
  object = object;
  array = array;
  empty_object = end;
  assign = assign;
  empty_array = nil;
  push_back = push_back;
  to_string = to_string;
  as_text = as_text;
  as_number = as_number;
  as_boolean = as_boolean;
  as_object = as_object;
  as_array = as_array;
  at = at;
  elements = elements;
  as_text-text = λ t. refl;
  as_text-null = refl;
  as_number-number = λ n. refl;
  as_number-null = refl;
  as_boolean-boolean = λ b. refl;
  as_object-object = λ o. refl;
  as_array-array = λ a. refl;
  at-assign = at-assign;
  elements-empty_array = refl;
  elements-push_back = elements-push_back;
  to_string_one_line = to_string_one_line;
}
