-- ===== src/Logger/Json.antt =====
-- `json.Marshal` of the payload that `customLogger.Error` writes: two texts, and a map from texts
-- to texts and numbers, whose keys come out sorted.
use git_sync.Common.{
  ℕ, ◌+◌, ◌-◌, ◌/◌, ◌%◌, Bool, true, false, ◌||◌, List, [], ◌∷◌, ◌++◌, ltb, ◌==◌, if◌then◌else◌, ℤ,
  itoa, Text, codes, equal,
}

-- What the program passes behind a message: keys and values.
pub data Value : Type 0 where
  text : Text → Value
  int : ℤ → Value

pub record Payload : Type 0 where
  pub msg : Text
  pub err : Text
  pub args : List (Text × Value)

hex_digit : ℕ → ℕ
hex_digit d = if ltb d 10 then b'0' + d else b'a' + (d - 10)

hex_escape : ℕ → Text
hex_escape r =
    codes "\\u"
    ++ (hex_digit (r / 4096)
        ∷ hex_digit (r / 256 % 16)
        ∷ hex_digit (r / 16 % 16)
        ∷ hex_digit (r % 16)
        ∷ [])

json_rune : ℕ → Text
json_rune r =
    if r == b'"' || r == b'\\'
    then b'\\' ∷ r ∷ []
    else if r == b'\n'
    then codes "\\n"
    else if r == 13
    then codes "\\r"
    else if r == b'\t'
    then codes "\\t"
    else if ltb r 32 || r == b'<' || r == b'>' || r == b'&' || r == 0x2028 || r == 0x2029
    then hex_escape r
    else r ∷ []

json_runes : Text → Text
json_runes [] = b'"' ∷ []
json_runes (r ∷ s) = json_rune r ++ json_runes s

abbrev json_text : Text → Text
json_text s = b'"' ∷ json_runes s

json_value : Value → Text
json_value (text s) = json_text s
json_value (int n) = itoa n

-- The order of the keys: code point by code point.
before : Text → Text → Bool
before a [] = false
before [] (_ ∷ _) = true
before (x ∷ a) (y ∷ b) = let rest = before a b in if x == y then rest else ltb x y

-- `payload.Args[k] = v`, with the keys kept in order.
unfoldable pub set_arg : Text → Value → List (Text × Value) → List (Text × Value)
unfolding before
set_arg k v [] = (k, v) ∷ []
set_arg k v ((j, w) ∷ m) =
    let later = set_arg k v m in
    if equal k j then (k, v) ∷ m else if before k j then (k, v) ∷ (j, w) ∷ m else (j, w) ∷ later

json_args : List (Text × Value) → Text
json_args [] = []
json_args ((k, v) ∷ []) = json_text k ++ (b':' ∷ json_value v)
json_args ((k, v) ∷ e ∷ m) = json_text k ++ (b':' ∷ (json_value v ++ (b',' ∷ json_args (e ∷ m))))

unfoldable pub marshal : Payload → Text
unfolding json_args json_value json_runes json_rune hex_escape hex_digit
marshal p =
    codes "{\"Msg\":"
    ++ (json_text p.msg
        ++ (codes ",\"Err\":"
            ++ (json_text p.err ++ (codes ",\"Args\":{" ++ (json_args p.args ++ codes "}}")))))
