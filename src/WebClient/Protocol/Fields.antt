-- ===== src/WebClient/Protocol/Fields.antt =====
-- The fields of a message: the loop ends, and each field that it returns occurs once and fits the schema.
use rustdesk_console.Common.{
  ℕ, zero, suc, ◌+◌, ◌*◌, ◌%◌, ◌^◌, ◌<◌, ◌≤◌, ◌≡◌, ◌≢◌, refl, Bool, true, false, Option, none, some,
  List, [], ◌∷◌, ◌++◌, nat_eq, length, arith,
}
use rustdesk_console.Common.Effects.{Result, ok, err}
use rustdesk_console.Common.Results.{◌>>=◌, bind-ok}
use rustdesk_console.WebClient.Protocol.{
  read_from, read_varint, Stop, out_of_fuel, Wire, number_wire, bytes_wire, Schema, WireValue,
  Values, drop, or_invalid, refuse_if, read_value, read_field, next_fields, fields_from, fields,
}

read_from-shorter :
    (left i value : ℕ) (bs : List ℕ) (n : ℕ) (rest : List ℕ)
    → read_from left i value bs ≡ some (n, rest)
    → length rest < length bs
unfolding read_from
read_from-shorter zero i value bs n rest h = cc
read_from-shorter (suc left) i value [] n rest h = cc
read_from-shorter (suc left) i value (b ∷ bs) n rest h =
    ground (arith, read_from-shorter left (i + 1) (value + (b % 128) * 2 ^ (7 * i)) bs n rest)

read_varint-shorter :
    (bs : List ℕ) (r : ℕ × List ℕ) → or_invalid (read_varint bs) ≡ ok r → length r.1 < length bs
unfolding read_varint
read_varint-shorter bs r h = from_option (read_from 5 0 0 bs) refl h
  where
    from_option :
        (o : Option (ℕ × List ℕ))
        → read_from 5 0 0 bs ≡ o
        → or_invalid o ≡ ok r
        → length r.1 < length bs
    from_option none e k = cc
    from_option (some (n, rest)) e k = ground (arith, read_from-shorter 5 0 0 bs n rest e)

length-drop : (n : ℕ) (xs : List ℕ) → length (drop n xs) ≤ length xs
length-drop zero xs = omega arith
length-drop (suc n) [] = omega arith
length-drop (suc n) (x ∷ xs) = omega (arith, length-drop n xs)

read_value-shorter :
    (wire : Wire) (max : Option ℕ) (left : List ℕ) (v : WireValue × List ℕ)
    → read_value wire max left ≡ ok v
    → length v.1 < length left
unfolding read_value
read_value-shorter number_wire max left v h =
    let (read, e, h1) = bind-ok h in
    let (_, _, h2) = bind-ok h1 in ground (arith, read_varint-shorter left read e)
read_value-shorter bytes_wire max left v h =
    let (read, e, h1) = bind-ok h in
    let (_, _, h2) = bind-ok h1 in
    ground (arith, read_varint-shorter left read e, length-drop read.0 read.1)

-- A turn of the loop reads something.
read_field-shorter :
    (schema : Schema) (values : Values) (left : List ℕ) (r : (ℕ × WireValue) × List ℕ)
    → read_field schema values left ≡ ok r
    → length r.1 < length left
unfolding read_field
read_field-shorter schema values left r h =
    let (tag, e, h1) = bind-ok h in
    let (definition, _, h2) = bind-ok h1 in
    let (_, _, h3) = bind-ok h2 in
    let (value, read, h4) = bind-ok h3 in
    ground (
      arith,
      read_varint-shorter left tag e,
      read_value-shorter definition.wire definition.max tag.1 value read,
    )

-- Only the loop can run out of fuel.
Ends : {A : Type 0} → Result Stop A → Type 0
Ends r = r ≢ err out_of_fuel

bind-Ends :
    {A B : Type 0} (r : Result Stop A) (f : A → Result Stop B)
    → Ends r
    → ((a : A) → Ends (f a))
    → Ends (r >>= f)
unfolding Ends ◌>>=◌
bind-Ends (ok a) f h k = k a
bind-Ends (err e) f h k = λ x. h (cc x)

ok-Ends : {A : Type 0} (a : A) → Ends (ok a)
unfolding Ends
ok-Ends a h = cc

or_invalid-Ends : {A : Type 0} (o : Option A) → Ends (or_invalid o)
unfolding Ends
or_invalid-Ends none h = cc
or_invalid-Ends (some a) h = cc

refuse_if-Ends : (b : Bool) → Ends (refuse_if b)
unfolding Ends
refuse_if-Ends true h = cc
refuse_if-Ends false h = cc

read_value-Ends : (wire : Wire) (max : Option ℕ) (left : List ℕ) → Ends (read_value wire max left)
unfolding read_value
read_value-Ends number_wire max left =
    bind-Ends _ _ (or_invalid-Ends _) λ read. bind-Ends _ _ (refuse_if-Ends _) λ _. ok-Ends _
read_value-Ends bytes_wire max left =
    bind-Ends _ _ (or_invalid-Ends _) λ read. bind-Ends _ _ (refuse_if-Ends _) λ _. ok-Ends _

read_field-Ends :
    (schema : Schema) (values : Values) (left : List ℕ) → Ends (read_field schema values left)
unfolding read_field
read_field-Ends schema values left = bind-Ends _ _ (or_invalid-Ends _) λ tag.
    bind-Ends _ _ (or_invalid-Ends _) λ definition.
      bind-Ends _ _ (refuse_if-Ends _)
        λ _. bind-Ends _ _ (read_value-Ends definition.wire definition.max tag.1) λ value. ok-Ends _

next_fields-Ends :
    (r : Result Stop ((ℕ × WireValue) × List ℕ))
    (rest : ℕ × WireValue → List ℕ → Result Stop Values)
    → Ends r
    → ((entry : ℕ × WireValue) (left : List ℕ) → r ≡ ok (entry, left) → Ends (rest entry left))
    → Ends (next_fields r rest)
unfolding Ends
next_fields-Ends (err e) rest h k = λ x. h (cc x)
next_fields-Ends (ok (entry, left)) rest h k = k entry left refl

fields_from-Ends :
    (fuel : ℕ) (schema : Schema) (values : Values) (left : List ℕ)
    → length left ≤ fuel
    → Ends (fields_from fuel schema values left)
unfolding fields_from
fields_from-Ends fuel schema values [] k = ok-Ends values
fields_from-Ends zero schema values (b ∷ bs) k = absurd (omega (arith, k))
fields_from-Ends (suc fuel) schema values (b ∷ bs) k =
    next_fields-Ends (read_field schema values (b ∷ bs)) _ (read_field-Ends schema values (b ∷ bs))
      λ entry left e.
        fields_from-Ends fuel schema (values ++ (entry ∷ [])) left
          (omega (arith, k, read_field-shorter schema values (b ∷ bs) (entry, left) e))

-- The loop over the fields of a message always ends: it returns the fields, or refuses the message.
pub fields-ends : (buffer : List ℕ) (schema : Schema) → fields buffer schema ≢ err out_of_fuel
unfolding fields Ends
fields-ends buffer schema h = ground (arith, fields_from-Ends (length buffer) schema [] buffer)
