-- ===== src/Values/Within.antt =====
-- The values at any depth of a value, itself among them.
use pmqa.Values.{Key, Value, list, tuple, dict, frozen, Items, cons, Entries, entry}

mutual
  pub data Within (w : Value) : Value → Type 0 where
    here : Within w w
    in_list : {items : Items} → WithinItems w items → Within w (list items)
    in_tuple : {items : Items} → WithinItems w items → Within w (tuple items)
    in_dict : {entries : Entries} → WithinEntries w entries → Within w (dict entries)
    in_frozen : {entries : Entries} → WithinEntries w entries → Within w (frozen entries)

  pub data WithinItems (w : Value) : Items → Type 0 where
    first_item : {item : Value} {rest : Items} → Within w item → WithinItems w (cons item rest)
    later_item : {item : Value} {rest : Items} → WithinItems w rest → WithinItems w (cons item rest)

  pub data WithinEntries (w : Value) : Entries → Type 0 where
    first_entry :
        {key : Key} {item : Value} {rest : Entries}
        → Within w item
        → WithinEntries w (entry key item rest)
    later_entry :
        {key : Key} {item : Value} {rest : Entries}
        → WithinEntries w rest
        → WithinEntries w (entry key item rest)
