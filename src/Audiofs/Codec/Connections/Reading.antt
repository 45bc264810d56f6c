-- ===== src/Audiofs/Codec/Connections/Reading.antt =====
-- Reading the responses of a codec in audiofs.c, entry by entry.
use awase.Base.{
  ℕ, zero, suc, ◌+◌, ◌-◌, ◌/◌, ◌≤◌, ◌≡◌, Bool, true, false, ◌&&◌, Option, none, some, List, [], ◌∷◌,
  ◌++◌, length, ltb, if◌then◌else◌,
}
use awase.Audiofs.Codec.Connections.{Entry, Conns, entry_number, entries_of, read_entries}
use awase.Audiofs.Codec.Connections.Ranges.{count_from, expand, Reads}

-- The entries of the answers, up to the first that is missing.
unfoldable pub answered : (ℕ → Option ℕ) → Bool → ℕ → ℕ → List Entry
answered answer long zero i = []
answered answer long (suc n) i = elim (answer i) [
  | none ↦ []
  | some res ↦ entries_of long res ++ answered answer long n (i + entry_number long)
]

abbrev piece : ℕ → Entry → List ℕ
piece prev e =
    if e.range && (ltb 0 prev && ltb prev e.cnid)
    then count_from (e.cnid - prev) (prev + 1)
    else e.cnid ∷ []

-- Reading on behind an entry.
abbrev Continues : List Entry → Type 0
Continues es =
    (s : Conns)
    → length s.conns ≤ 16
    → s.overflow ≡ false
    → s.stopped ≡ false
    → Reads (s.conns ++ expand s.prevcnid es) (read_entries es s)

-- What a widget's list stands for: there are as many responses as the entries need.
unfoldable pub described : Bool → Option (ℕ × Bool) → (ℕ → Option ℕ) → List ℕ
described false list_length answer = []
described true none answer = []
described true (some (ents, long)) answer =
    expand 0 (answered answer long ((ents + (entry_number long - 1)) / entry_number long) 0)
