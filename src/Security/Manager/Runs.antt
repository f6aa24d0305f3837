-- ===== src/Security/Manager/Runs.antt =====
-- infrastructure/peer/security/revocation.go: a manager together with the connections that it admitted,
-- over any sequence of its operations. Each operation holds the manager's lock while it changes the
-- manager, so what goroutines do at once is one of these sequences.
use pluginprotocol.Errors.{Result, ok, err}
use pluginprotocol.Prelude.{ℕ, ◌+◌, ◌==◌, Bool, false, ◌||◌, some, List, [], ◌∷◌, ◌++◌, Bytes}
use pluginprotocol.Security.Bundle.{RevocationManager}
use pluginprotocol.Security.Crypto.{Certificate, Crypto}
use pluginprotocol.Security.Manager.{apply, close, close_connection, expire, track_connection}
use pluginprotocol.Security.Records.{RevocationBundle}

-- A connection that was admitted, and the digest of the bundle it was checked against.
pub record Admission : Type 0 where
  pub connection : ℕ
  pub bundle : Bytes

-- The tracked connections are numbered as they are made; `ended` are those whose Close was called.
pub record World : Type 0 where
  pub manager : RevocationManager
  pub next : ℕ
  pub admitted : List Admission
  pub ended : List ℕ

-- Apply, TrackConnection of a transport that is not nil, the function of a timer that fires, Close of
-- the manager, and Close of a tracked connection.
pub data Operation : Type 0 where
  apply_bundle : ℕ → RevocationBundle → Operation
  track : ℕ → List (List Certificate) → Operation
  fire : ℕ → Operation
  shut : Operation
  hang_up : ℕ → Operation

unfoldable pub has_number : ℕ → List ℕ → Bool
has_number k [] = false
has_number k (x ∷ xs) = x == k || has_number k xs

abbrev pub fenced_by : World → RevocationManager → List ℕ → World
fenced_by w m fenced = record w { manager = m; ended = fenced ++ w.ended }

abbrev pub tracked_by : World → RevocationManager × Result ℕ → World
tracked_by w (m, err e) = record w { manager = m }
tracked_by w (m, ok connection) = record w {
  manager = m;
  next = w.next + 1;
  admitted = record { connection = connection; bundle = w.manager.bundle_hash } ∷ w.admitted;
}

unfoldable pub run : Crypto → Operation → World → World
unfolding apply track_connection expire close close_connection
run crypto (apply_bundle now bundle) w =
    let (m, _, fenced) = apply crypto w.manager now bundle in fenced_by w m fenced
run crypto (track now chains) w =
    tracked_by w (track_connection crypto w.manager now (some w.next) chains)
run crypto (fire generation) w =
    let (m, fenced) = expire generation w.manager in fenced_by w m fenced
run crypto shut w = let (m, fenced) = close w.manager in fenced_by w m fenced
run crypto (hang_up connection) w = record w {
  manager = close_connection connection w.manager;
  ended = connection ∷ w.ended;
}

unfoldable pub run_all : Crypto → List Operation → World → World
unfolding run
run_all crypto [] w = w
run_all crypto (operation ∷ operations) w = run_all crypto operations (run crypto operation w)

-- A manager that has tracked nothing yet.
abbrev pub fresh_world : RevocationManager → World
fresh_world m = record { manager = m; next = 0; admitted = []; ended = [] }
