-- ===== src/Wire/Update/Keys.antt =====
-- The names that wire/update.go reads and writes.
use mlstore_db.Prelude.{[], ◌∷◌}
use mlstore_db.Prelude.Bytes.{Bytes}

-- $set
abbrev pub op_set : Bytes
op_set = 36 ∷ 115 ∷ 101 ∷ 116 ∷ []

-- $unset
abbrev pub op_unset : Bytes
op_unset = 36 ∷ 117 ∷ 110 ∷ 115 ∷ 101 ∷ 116 ∷ []

-- $inc
abbrev pub op_inc : Bytes
op_inc = 36 ∷ 105 ∷ 110 ∷ 99 ∷ []

-- $mul
abbrev pub op_mul : Bytes
op_mul = 36 ∷ 109 ∷ 117 ∷ 108 ∷ []

-- $min
abbrev pub op_min : Bytes
op_min = 36 ∷ 109 ∷ 105 ∷ 110 ∷ []

-- $max
abbrev pub op_max : Bytes
op_max = 36 ∷ 109 ∷ 97 ∷ 120 ∷ []

-- $rename
abbrev pub op_rename : Bytes
op_rename = 36 ∷ 114 ∷ 101 ∷ 110 ∷ 97 ∷ 109 ∷ 101 ∷ []

-- $push
abbrev pub op_push : Bytes
op_push = 36 ∷ 112 ∷ 117 ∷ 115 ∷ 104 ∷ []

-- $addToSet
abbrev pub op_add_to_set : Bytes
op_add_to_set = 36 ∷ 97 ∷ 100 ∷ 100 ∷ 84 ∷ 111 ∷ 83 ∷ 101 ∷ 116 ∷ []

-- $pop
abbrev pub op_pop : Bytes
op_pop = 36 ∷ 112 ∷ 111 ∷ 112 ∷ []

-- $pull
abbrev pub op_pull : Bytes
op_pull = 36 ∷ 112 ∷ 117 ∷ 108 ∷ 108 ∷ []

-- $pullAll
abbrev pub op_pull_all : Bytes
op_pull_all = 36 ∷ 112 ∷ 117 ∷ 108 ∷ 108 ∷ 65 ∷ 108 ∷ 108 ∷ []

-- $currentDate
abbrev pub op_current_date : Bytes
op_current_date = 36 ∷ 99 ∷ 117 ∷ 114 ∷ 114 ∷ 101 ∷ 110 ∷ 116 ∷ 68 ∷ 97 ∷ 116 ∷ 101 ∷ []

-- $setOnInsert
abbrev pub op_set_on_insert : Bytes
op_set_on_insert = 36 ∷ 115 ∷ 101 ∷ 116 ∷ 79 ∷ 110 ∷ 73 ∷ 110 ∷ 115 ∷ 101 ∷ 114 ∷ 116 ∷ []

-- $each
abbrev pub each : Bytes
each = 36 ∷ 101 ∷ 97 ∷ 99 ∷ 104 ∷ []

-- $position
abbrev pub position : Bytes
position = 36 ∷ 112 ∷ 111 ∷ 115 ∷ 105 ∷ 116 ∷ 105 ∷ 111 ∷ 110 ∷ []

-- $slice
abbrev pub slice : Bytes
slice = 36 ∷ 115 ∷ 108 ∷ 105 ∷ 99 ∷ 101 ∷ []

-- $type
abbrev pub type_key : Bytes
type_key = 36 ∷ 116 ∷ 121 ∷ 112 ∷ 101 ∷ []

-- timestamp
abbrev pub timestamp_text : Bytes
timestamp_text = 116 ∷ 105 ∷ 109 ∷ 101 ∷ 115 ∷ 116 ∷ 97 ∷ 109 ∷ 112 ∷ []

-- t
abbrev pub seconds : Bytes
seconds = 116 ∷ []

-- i
abbrev pub increment : Bytes
increment = 105 ∷ []

-- _id
abbrev pub id_key : Bytes
id_key = 95 ∷ 105 ∷ 100 ∷ []

-- $eq
abbrev pub eq_key : Bytes
eq_key = 36 ∷ 101 ∷ 113 ∷ []

-- $ne
abbrev pub ne_key : Bytes
ne_key = 36 ∷ 110 ∷ 101 ∷ []

-- $gt
abbrev pub gt_key : Bytes
gt_key = 36 ∷ 103 ∷ 116 ∷ []

-- $gte
abbrev pub gte_key : Bytes
gte_key = 36 ∷ 103 ∷ 116 ∷ 101 ∷ []

-- $lt
abbrev pub lt_key : Bytes
lt_key = 36 ∷ 108 ∷ 116 ∷ []

-- $lte
abbrev pub lte_key : Bytes
lte_key = 36 ∷ 108 ∷ 116 ∷ 101 ∷ []

-- $in
abbrev pub in_key : Bytes
in_key = 36 ∷ 105 ∷ 110 ∷ []

-- true
abbrev pub true_text : Bytes
true_text = 116 ∷ 114 ∷ 117 ∷ 101 ∷ []

-- false
abbrev pub false_text : Bytes
false_text = 102 ∷ 97 ∷ 108 ∷ 115 ∷ 101 ∷ []
