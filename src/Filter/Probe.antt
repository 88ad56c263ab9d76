-- ===== src/Filter/Probe.antt =====
-- db/auth.go: filterTouchesFields, the test that keeps a session from filters on denied fields.
pub mod Blind
pub mod Dotted
mod Tests
use mlstore_db.Prelude.{
  ◌≡◌, ◌⊎◌, refl, ap, Bool, true, false, ◌&&◌, ◌||◌, Option, none, some, List, [], ◌∷◌, arith,
  if◌then◌else◌, ◌==◌, Bool-cases, Option-cases, inl, inr,
}
use mlstore_db.Prelude.Bytes.{Bytes, bytes_eq}
use mlstore_db.Prelude.Maps.{contains}
use mlstore_db.Filter.{
  Json, null, bool, number, string, document, plain_map, array, documents, Fields, no_fields, field,
  Items, no_items, item, FilterLib, Outcome, bad_filter, all_of, is_logical_op, logical_list,
  logical_doc, map_condition, list_condition, value_condition, lookup_multi, match, results,
  match_field, each_match, match_item, has_op_keys, match_ops_multi, match_equal,
}
use mlstore_db.Filter.Names

-- strings.HasPrefix(k, "$")
abbrev pub is_dollar_key : Bytes → Bool
is_dollar_key [] = false
is_dollar_key (c ∷ k) = c == 36

abbrev pub is_list_op : Bytes → Bool
is_list_op k = bytes_eq k Names.op_and || (bytes_eq k Names.op_or || bytes_eq k Names.op_nor)

abbrev pub found_one : Option Bool → Bool
found_one none = false
found_one (some b) = b

module _ (deny : List Bytes) where
  abbrev pub doc_touches : Bytes → Bool → Bool
  doc_touches k sub = if is_dollar_key k then bytes_eq k Names.op_not && sub else contains deny k

  abbrev pub list_touches : Bytes → Option Bool → Bool
  list_touches k subs = if is_dollar_key k then is_list_op k && found_one subs else contains deny k

  abbrev pub value_touches : Bytes → Bool
  value_touches k = if is_dollar_key k then false else contains deny k

  unfoldable mutual
    -- filterTouchesFields
    pub filter_touches : Fields → Bool
    filter_touches no_fields = false
    filter_touches (field k v fs) = key_touches k v || filter_touches fs

    pub key_touches : Bytes → Json → Bool
    key_touches k (document fs) = doc_touches k (filter_touches fs)
    key_touches k (plain_map fs) = doc_touches k (filter_touches fs)
    key_touches k (array vs) = list_touches k (items_touch vs)
    key_touches k (documents vs) = list_touches k (items_touch vs)
    key_touches k null = value_touches k
    key_touches k (bool _) = value_touches k
    key_touches k (number _) = value_touches k
    key_touches k (string _) = value_touches k

    -- The documents of a list, none where toDocList fails.
    pub items_touch : Items → Option Bool
    items_touch no_items = some false
    items_touch (item v vs) = elim (item_touches v) [
      | none ↦ none
      | some b ↦ elim (items_touch vs) [ none ↦ none | some c ↦ some (b || c) ]
    ]

    pub item_touches : Json → Option Bool
    item_touches (document fs) = some (filter_touches fs)
    item_touches (plain_map fs) = some (filter_touches fs)
    item_touches (array _) = none
    item_touches (documents _) = none
    item_touches null = none
    item_touches (bool _) = none
    item_touches (number _) = none
    item_touches (string _) = none
