-- ===== src/Audiofs/Codec/Connections.antt =====
-- The list of a widget's connections in audiofs.c: `audiofs_widget_read_conns`. The answers of the codec
-- to the commands that it sends are arguments. What it logs is not part of the model.
pub mod Ranges
pub mod Reading
use awase.Base.{
  ℕ, zero, suc, ◌+◌, ◌-◌, ◌*◌, ◌/◌, ◌%◌, ◌^◌, Bool, true, false, ◌||◌, Option, none, some, List, [],
  ◌∷◌, ◌++◌, length, ltb, leb, ◌==◌, if◌then◌else◌,
}

abbrev pub conn_max : ℕ
conn_max = 16

-- An entry of the list: a number, and whether it ends a range.
pub record Entry : Type 0 where
  pub cnid : ℕ
  pub range : Bool

-- What has been read, the number before, and whether reading has stopped.
pub record Conns : Type 0 where
  pub conns : List ℕ
  pub overflow : Bool
  pub prevcnid : ℕ
  pub stopped : Bool

abbrev pub no_conns : Conns
no_conns = record { conns = []; overflow = false; prevcnid = 0; stopped = false }

abbrev pub entry_number : Bool → ℕ
entry_number long = if long then 2 else 4

-- The entries of a response, from the lowest bits on.
abbrev pub entry_of : ℕ → ℕ → ℕ → Entry
entry_of width res j = record {
  cnid = res / 2 ^ (width * j) % 2 ^ (width - 1);
  range = res / 2 ^ (width * j + (width - 1)) % 2 == 1;
}

abbrev pub entries_of : Bool → ℕ → List Entry
entries_of long res =
    if long
    then entry_of 16 res 0 ∷ entry_of 16 res 1 ∷ []
    else entry_of 8 res 0 ∷ entry_of 8 res 1 ∷ entry_of 8 res 2 ∷ entry_of 8 res 3 ∷ []

-- Numbers one after the other, as long as there is room.
unfoldable pub add_conns : ℕ → ℕ → Conns → Conns
add_conns zero addcnid s = s
add_conns (suc n) addcnid s =
    let rest = add_conns n (addcnid + 1) (record s { conns = s.conns ++ (addcnid ∷ []) }) in
    if leb conn_max (length s.conns) then record s { overflow = true; stopped = true } else rest

-- The first number of an entry: its own, or that behind the entry before, for a range that ascends.
unfoldable pub first_conn : ℕ → Entry → ℕ
first_conn prevcnid e =
    if e.range
    then if prevcnid == 0 || leb e.cnid prevcnid then e.cnid else prevcnid + 1
    else e.cnid

unfoldable pub read_entry : Entry → Conns → Conns
unfolding add_conns first_conn
read_entry e s =
    let first = first_conn s.prevcnid e in
    if e.cnid == 0
    then record s { stopped = true }
    else record (add_conns (e.cnid + 1 - first) first s) { prevcnid = e.cnid }

unfoldable pub read_entries : List Entry → Conns → Conns
unfolding read_entry
read_entries [] s = s
read_entries (e ∷ es) s =
    let rest = read_entries es (read_entry e s) in if s.stopped then s else rest

-- The responses from an index on, `none` being HDA_INVALID, which ends the reading.
unfoldable pub read_responses : (ℕ → Option ℕ) → Bool → ℕ → ℕ → Conns → Conns
unfolding read_entries
read_responses answer long zero i s = s
read_responses answer long (suc n) i s = if s.stopped then s else elim (answer i) [
  | none ↦ s
  | some res ↦
      read_responses answer long n (i + entry_number long) (read_entries (entries_of long res) s)
]

-- Whether the widget has a list, the answer on its length and form, and those on its entries.
unfoldable pub widget_read_conns : Bool → Option (ℕ × Bool) → (ℕ → Option ℕ) → Conns
unfolding read_responses
widget_read_conns false list_length answer = no_conns
widget_read_conns true none answer = no_conns
widget_read_conns true (some (ents, long)) answer =
    read_responses answer long ((ents + (entry_number long - 1)) / entry_number long) 0 no_conns
