-- ===== src/Team/Counters.antt =====
-- The counters that a restart reads back from the ids in the store.
use gooselake.Base.{ℕ, ◌≤◌, ◌<>◌, ◌≡◌, some}
use gooselake.Text.{decimal, max_u64}
use gooselake.Text.RoundTrip.{parse_u64-decimal, last_segment-decimal}
use gooselake.Team.Helpers.{parse_counter}

-- Of the id of a team, of a message and of a delivery, with the prefix and the decimal number that
-- the allocation gives it, `parse_counter` reads the number back, for every number of 64 bits.
pub parse_counter-decimal :
    (n : ℕ)
    → n ≤ max_u64
    → (parse_counter ("team_" <> decimal n) ≡ some n)
      × (parse_counter ("msg_" <> decimal n) ≡ some n)
      × (parse_counter ("dlv_" <> decimal n) ≡ some n)
unfolding parse_counter
parse_counter-decimal n h =
    let (team, message, delivery) = last_segment-decimal n in
    let read = parse_u64-decimal n h in rw (team, message, delivery) (read, read, read)
