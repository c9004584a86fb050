-- ===== src/Harness/Topics.antt =====
-- test.py: the topics that the tests expect to read back.
use Prim.Native.String.{◌++◌}
use server_client_app.Base.{String, Bool, true, false, List, [], ◌∷◌}

pub record Topic : Type 0 where
  pub name : String
  pub category : String
  pub value : String

abbrev pub topic : String → String → String → Topic
topic name category value = record { name = name; category = category; value = value }

-- Topic.print
unfoldable pub show : Topic → String
show t = t.name ++ " - " ++ t.category ++ " - " ++ t.value

-- Topic.generate_topics(use_wildcard)
unfoldable pub generate_topics : Bool → List Topic
generate_topics false =
    topic "a_non_negative_int" "INT" "10"
    ∷ topic "a_negative_int" "INT" "-10"
    ∷ topic "a_larger_value" "INT" "1234567890"
    ∷ topic "a_large_negative_value" "INT" "-1234567890"
    ∷ topic "abcdefghijklmnopqrstuvwxyzabcdefghijklmnopqrstuvwx" "INT" "10"
    ∷ topic "that_is_small_short_real" "SHORT_REAL" "2.30"
    ∷ topic "that_is_big_short_real" "SHORT_REAL" "655.05"
    ∷ topic "that_is_integer_short_real" "SHORT_REAL" "17"
    ∷ topic "float_seventeen" "FLOAT" "17"
    ∷ topic "float_minus_seventeen" "FLOAT" "-17"
    ∷ topic "a_strange_float" "FLOAT" "1234.4321"
    ∷ topic "a_negative_strange_float" "FLOAT" "-1234.4321"
    ∷ topic "a_subunitary_float" "FLOAT" "0.042"
    ∷ topic "a_negative_subunitary_float" "FLOAT" "-0.042"
    ∷ topic "ana_string_announce" "STRING" "Ana are mere"
    ∷ topic "huge_string" "STRING" "abcdefghijklmnopqrstuvwxyz"
    ∷ []
generate_topics true =
    topic "upb/precis/elevator/1/people" "INT" "5"
    ∷ topic "upb/precis/elevator/1/floor" "INT" "4"
    ∷ topic "upb/precis/elevator/2/people" "INT" "0"
    ∷ topic "upb/precis/elevator/2/floor" "INT" "0"
    ∷ topic "upb/precis/100/temperature" "SHORT_REAL" "24.30"
    ∷ topic "upb/precis/100/humidity" "SHORT_REAL" "29.87"
    ∷ topic "upb/ec/100/temperature" "SHORT_REAL" "21.30"
    ∷ topic "upb/ec/100/humidity" "SHORT_REAL" "26.11"
    ∷ topic "upb/ec/100/pressure" "FLOAT" "1013.2512"
    ∷ topic "upb/precis/100/pressure" "FLOAT" "1043.1249"
    ∷ topic "upb/precis/100/schedule/monday/8" "STRING" "Protocoale De Comunicatie"
    ∷ topic "upb/ec/100/schedule/tuesday/12" "STRING" "Protocoale De Comunicatie"
    ∷ topic "upb/precis/100/schedule/monday/8" "STRING" "Protocoale De Comunicatie"
    ∷ topic "upb/ec/100/schedule/tuesday/12" "STRING" "Protocoale De Comunicatie"
    ∷ []
