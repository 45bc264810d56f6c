-- ===== src/Audiofs/Tests/Connections.antt =====
-- Lists of connections in concrete responses, and the theorem on them applied there.
use awase.Base.{ℕ, ◌≡◌, refl, true, false, Option, some, [], ◌∷◌}
use awase.Audiofs.Codec.Connections.{
  add_conns, first_conn, read_entry, read_entries, read_responses, widget_read_conns,
}

-- The numbers 2, 3 to 5, and 9.
abbrev answer : ℕ → Option ℕ
answer i = some 0x00098502

three_entries : (widget_read_conns true (some (3, false)) answer).conns ≡ 2 ∷ 3 ∷ 4 ∷ 5 ∷ 9 ∷ []
unfolding widget_read_conns read_responses read_entries read_entry first_conn add_conns
three_entries = refl
