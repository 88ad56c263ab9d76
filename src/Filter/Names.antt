-- ===== src/Filter/Names.antt =====
-- The names of the operators in db/filter.go.
use mlstore_db.Prelude.{[], ◌∷◌}
use mlstore_db.Prelude.Bytes.{Bytes}

-- $and
abbrev pub op_and : Bytes
op_and = 36 ∷ 97 ∷ 110 ∷ 100 ∷ []

-- $or
abbrev pub op_or : Bytes
op_or = 36 ∷ 111 ∷ 114 ∷ []

-- $not
abbrev pub op_not : Bytes
op_not = 36 ∷ 110 ∷ 111 ∷ 116 ∷ []

-- $nor
abbrev pub op_nor : Bytes
op_nor = 36 ∷ 110 ∷ 111 ∷ 114 ∷ []

-- $eq
abbrev pub op_eq : Bytes
op_eq = 36 ∷ 101 ∷ 113 ∷ []

-- $ne
abbrev pub op_ne : Bytes
op_ne = 36 ∷ 110 ∷ 101 ∷ []

-- $gt
abbrev pub op_gt : Bytes
op_gt = 36 ∷ 103 ∷ 116 ∷ []

-- $gte
abbrev pub op_gte : Bytes
op_gte = 36 ∷ 103 ∷ 116 ∷ 101 ∷ []

-- $lt
abbrev pub op_lt : Bytes
op_lt = 36 ∷ 108 ∷ 116 ∷ []

-- $lte
abbrev pub op_lte : Bytes
op_lte = 36 ∷ 108 ∷ 116 ∷ 101 ∷ []

-- $in
abbrev pub op_in : Bytes
op_in = 36 ∷ 105 ∷ 110 ∷ []

-- $nin
abbrev pub op_nin : Bytes
op_nin = 36 ∷ 110 ∷ 105 ∷ 110 ∷ []

-- $exists
abbrev pub op_exists : Bytes
op_exists = 36 ∷ 101 ∷ 120 ∷ 105 ∷ 115 ∷ 116 ∷ 115 ∷ []

-- $regex
abbrev pub op_regex : Bytes
op_regex = 36 ∷ 114 ∷ 101 ∷ 103 ∷ 101 ∷ 120 ∷ []

-- $options
abbrev pub op_options : Bytes
op_options = 36 ∷ 111 ∷ 112 ∷ 116 ∷ 105 ∷ 111 ∷ 110 ∷ 115 ∷ []

-- (?i)
abbrev pub ignore_case : Bytes
ignore_case = 40 ∷ 63 ∷ 105 ∷ 41 ∷ []
