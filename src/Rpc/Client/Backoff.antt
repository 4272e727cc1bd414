-- ===== src/Rpc/Client/Backoff.antt =====
-- The delays between attempts to connect.
use smoljudge.Prelude.{ℕ, ◌+◌, ◌*◌, ◌≤◌}
use smoljudge.Rpc.Client.{backoff}

abbrev IsBounded : ℕ → Type 0
IsBounded n =
    (backoff n ≤ backoff (n + 1))
    × (backoff (n + 2) ≤ 2 * backoff (n + 1))
    × (1 ≤ backoff (n + 1))
    × (backoff n ≤ 64)
