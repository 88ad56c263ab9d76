-- ===== src/Wire/Bson/Names.antt =====
-- The keys of extended documents in wire/bson.go.
use mlstore_db.Prelude.{[], ◌∷◌}
use mlstore_db.Prelude.Bytes.{Bytes}

-- $oid
abbrev pub oid : Bytes
oid = 36 ∷ 111 ∷ 105 ∷ 100 ∷ []

-- $minKey
abbrev pub min_key : Bytes
min_key = 36 ∷ 109 ∷ 105 ∷ 110 ∷ 75 ∷ 101 ∷ 121 ∷ []

-- $maxKey
abbrev pub max_key : Bytes
max_key = 36 ∷ 109 ∷ 97 ∷ 120 ∷ 75 ∷ 101 ∷ 121 ∷ []

-- $numberInt
abbrev pub number_int : Bytes
number_int = 36 ∷ 110 ∷ 117 ∷ 109 ∷ 98 ∷ 101 ∷ 114 ∷ 73 ∷ 110 ∷ 116 ∷ []

-- $numberLong
abbrev pub number_long : Bytes
number_long = 36 ∷ 110 ∷ 117 ∷ 109 ∷ 98 ∷ 101 ∷ 114 ∷ 76 ∷ 111 ∷ 110 ∷ 103 ∷ []

-- $numberDouble
abbrev pub number_double : Bytes
number_double = 36 ∷ 110 ∷ 117 ∷ 109 ∷ 98 ∷ 101 ∷ 114 ∷ 68 ∷ 111 ∷ 117 ∷ 98 ∷ 108 ∷ 101 ∷ []

-- $numberDecimal
abbrev pub number_decimal : Bytes
number_decimal = 36 ∷ 110 ∷ 117 ∷ 109 ∷ 98 ∷ 101 ∷ 114 ∷ 68 ∷ 101 ∷ 99 ∷ 105 ∷ 109 ∷ 97 ∷ 108 ∷ []

-- $date
abbrev pub date : Bytes
date = 36 ∷ 100 ∷ 97 ∷ 116 ∷ 101 ∷ []

-- $code
abbrev pub code : Bytes
code = 36 ∷ 99 ∷ 111 ∷ 100 ∷ 101 ∷ []

-- $scope
abbrev pub scope : Bytes
scope = 36 ∷ 115 ∷ 99 ∷ 111 ∷ 112 ∷ 101 ∷ []

-- $binary
abbrev pub binary : Bytes
binary = 36 ∷ 98 ∷ 105 ∷ 110 ∷ 97 ∷ 114 ∷ 121 ∷ []

-- $regularExpression
abbrev pub regular_expression : Bytes
regular_expression =
    36 ∷ 114 ∷ 101 ∷ 103 ∷ 117 ∷ 108 ∷ 97 ∷ 114 ∷ 69 ∷ 120 ∷ 112 ∷ 114 ∷ 101 ∷ 115 ∷ 115 ∷ 105 ∷ 111
    ∷ 110 ∷ []

-- $timestamp
abbrev pub timestamp : Bytes
timestamp = 36 ∷ 116 ∷ 105 ∷ 109 ∷ 101 ∷ 115 ∷ 116 ∷ 97 ∷ 109 ∷ 112 ∷ []

-- $dbPointer
abbrev pub db_pointer : Bytes
db_pointer = 36 ∷ 100 ∷ 98 ∷ 80 ∷ 111 ∷ 105 ∷ 110 ∷ 116 ∷ 101 ∷ 114 ∷ []

-- $ref
abbrev pub ref : Bytes
ref = 36 ∷ 114 ∷ 101 ∷ 102 ∷ []

-- $id
abbrev pub id : Bytes
id = 36 ∷ 105 ∷ 100 ∷ []

-- base64
abbrev pub base64 : Bytes
base64 = 98 ∷ 97 ∷ 115 ∷ 101 ∷ 54 ∷ 52 ∷ []

-- subType
abbrev pub sub_type : Bytes
sub_type = 115 ∷ 117 ∷ 98 ∷ 84 ∷ 121 ∷ 112 ∷ 101 ∷ []

-- pattern
abbrev pub pattern_key : Bytes
pattern_key = 112 ∷ 97 ∷ 116 ∷ 116 ∷ 101 ∷ 114 ∷ 110 ∷ []

-- options
abbrev pub options : Bytes
options = 111 ∷ 112 ∷ 116 ∷ 105 ∷ 111 ∷ 110 ∷ 115 ∷ []

-- t
abbrev pub t : Bytes
t = 116 ∷ []

-- i
abbrev pub i : Bytes
i = 105 ∷ []
