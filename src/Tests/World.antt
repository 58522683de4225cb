-- ===== src/Tests/World.antt =====
-- JSON values, ids and numbers to run the store and the service with, and one instance under way.
use Prim.Native.String.{[] as no_text, ◌∷◌ as ◌∷ᶜ◌}
use fusions.Shared.{
  ℕ, zero, suc, String, Option, none, some, List, [], ◌∷◌, Bool, true, false, ◌==◌, ◌≡◌, refl, ap,
  sym, ◌∙◌, if◌then◌else◌,
}
use fusions.Shared.Int.{ℤ, pos, negsuc, leb_ℤ, ltb_ℤ, ◌+ℤ◌}
use fusions.Core.Definition.{DefinitionSnapshot}
use fusions.Store.External.{External, IsLawful, field}

mutual
  pub data Value : Type 0 where
    null : Value
    text : String → Value
    number : ℤ → Value
    texts : List String → Value
    object : Fields → Value
    definition : DefinitionSnapshot → Value

  pub data Fields : Type 0 where
    no_fields : Fields
    with_field : String → Value → Fields → Fields

abbrev pub written : List (String × Value) → Fields
written [] = no_fields
written ((key, v) ∷ fs) = with_field key v (written fs)

abbrev pub at_field : Fields → String → Option Value
at_field no_fields key = none
at_field (with_field k v fs) key = if k == key then some v else at_field fs key

abbrev pub at_key : Value → String → Option Value
at_key (object fs) key = at_field fs key
at_key _ key = none

abbrev pub text_of : Value → Option String
text_of (text s) = some s
text_of _ = none

abbrev pub number_of : Value → Option ℤ
number_of (number n) = some n
number_of _ = none

abbrev pub definition_of : Value → Option DefinitionSnapshot
definition_of (definition s) = some s
definition_of _ = none

abbrev pub read_definition : Option Value → Option DefinitionSnapshot
read_definition none = none
read_definition (some v) = definition_of v

abbrev pub is_object_value : Value → Bool
is_object_value (object fs) = true
is_object_value _ = false

abbrev pub is_null_value : Value → Bool
is_null_value null = true
is_null_value _ = false

abbrev pub joined : Fields → Fields → Fields
joined old no_fields = old
joined old (with_field key v new) = with_field key v (joined old new)

abbrev pub merged : Value → Value → Value
merged (object old) (object new) = object (joined old new)
merged _ new = new

-- A number is a sign and as many strokes as it says.
abbrev pub strokes : ℕ → String
strokes zero = no_text
strokes (suc n) = "i" ∷ᶜ strokes n

abbrev pub count_strokes : String → ℕ
count_strokes no_text = zero
count_strokes (c ∷ᶜ s) = suc (count_strokes s)

abbrev pub numeral : ℤ → String
numeral (pos n) = "p" ∷ᶜ strokes n
numeral (negsuc n) = "n" ∷ᶜ strokes n

abbrev pub signed : Bool → ℕ → ℤ
signed true n = pos n
signed false n = negsuc n

abbrev pub number_in : String → Option ℤ
number_in no_text = none
number_in (c ∷ᶜ s) = some (signed ((c ∷ᶜ no_text) == "p") (count_strokes s))

count-strokes : (n : ℕ) → count_strokes (strokes n) ≡ n
count-strokes zero = refl
count-strokes (suc n) = ap suc (count-strokes n)

at_field-written :
    (fs : List (String × Value)) (key : String) → at_field (written fs) key ≡ field fs key
unfolding field
at_field-written [] key = refl
at_field-written ((k, v) ∷ fs) key =
    ap (λ rest. if k == key then some v else rest) (at_field-written fs key)

abbrev pub world : External ℤ Value
world = record {
  json = record { get = at_key; as_str = text_of; as_i64 = number_of; display = numeral };
  null_value = null;
  string_value = λ s. text s;
  number_value = λ n. number n;
  strings_value = λ ss. texts ss;
  object_value = λ fs. object (written fs);
  is_null = is_null_value;
  is_object = is_object_value;
  empty_object = object no_fields;
  merge = merged;
  snapshot_value = λ s. some (definition s);
  snapshot_of = definition_of;
  notification_value = λ n. some (text n.template_code);
  notification_of = λ v. none;
  callback_value = λ c. some c.payload;
  callback_of = λ v. none;
  terminal_value = λ c. some c.payload;
  terminal_of = λ v. none;
  definition_hash = λ v. "hash";
  uuid_of = λ s. some s;
  nil_uuid = "";
  made_uuid = λ n. strokes n;
  i64_of = number_in;
  is_blank = λ s. s == "";
  error_text = λ e. "error";
  le_time = leb_ℤ;
  lt_time = ltb_ℤ;
  later = λ t n. t +ℤ n;
  max_attempts = pos 5;
}

number_in-numeral : (n : ℤ) → number_in (numeral n) ≡ some n
number_in-numeral (pos n) = ap (λ m. some (pos m)) (count-strokes n)
number_in-numeral (negsuc n) = ap (λ m. some (negsuc m)) (count-strokes n)

pub world-IsLawful : IsLawful world
world-IsLawful = record {
  get-object = at_field-written;
  as_str-string = λ s. refl;
  as_str-null = refl;
  as_i64-number = λ n. refl;
  snapshot_of-value = λ s v e. sym (ap read_definition e);
  uuid_of-made = λ n. refl;
  made_uuid-injective = λ m n e. sym (count-strokes m) ∙ (ap count_strokes e ∙ count-strokes n);
  uuid_of-canonical = λ s u e. refl;
  i64_of-display = number_in-numeral;
}
