-- ===== src/RateLimit/Tests.antt =====
-- Runs of the rate limits (RateLimit.cc), and their theorems at small states.
use lftp.Prelude.{ℕ, ◌≤◌, ◌≡◌, ◌≢◌, refl, Option, [], ◌∷◌, Bytes, codes, arith}
use lftp.HashMap.{no_entries, find}
use lftp.HashMap.Laws.{no_entries-IsMap}
use lftp.Heap.Laws.{Gives}
use lftp.RateLimit.{
  BytesPool, adjust_time, large, get_dir, per_conn, Limits, new_conn, destroy, bytes_allowed,
}
use lftp.RateLimit.Xfer.{Conn}
use lftp.RateLimit.Counts.{IsSound, new_conn-IsSound, destroy-IsSound}
use lftp.RateLimit.Share.{IsShare, bytes_allowed-IsShare}

abbrev no_pool : BytesPool
no_pool = record { pool = 0; rate = 0; pool_max = 0; t = 0 }

-- The state of the program when it starts.
abbrev no_limits : Limits
no_limits = record {
  level = λ p. per_conn;
  parent = λ p. 0;
  xfer_number = λ p. 0;
  pools = record { gets = λ p. no_pool; puts = λ p. no_pool };
  table = no_entries;
  top = 0;
  now = 0;
}

-- 1000 bytes for a second, and the double of it as the bound.
abbrev pair : Bytes → Option Bytes → ℕ × ℕ
pair name c = (1000, 2000)

half_second :
    (adjust_time 500000 (record { pool = 100; rate = 1000; pool_max = 2000; t = 0 })).pool ≡ 600
unfolding adjust_time
half_second = refl

no_limits-IsSound : IsSound no_limits []
unfolding find
no_limits-IsSound = record {
  table = record {
    fresh = λ q p. refl;
    table = no_entries-IsMap;
    hosts = λ k q n e. absurd (ground arith);
    totals = λ q e. absurd (ground arith);
  };
  live = λ x i. elim i [ ];
  counts = λ r. refl;
}

host_named : codes "host" ≢ []
host_named e = ground arith

new_conn-IsSound_example :
    Gives
      (λ r. (x : Conn) × (x.conn ≡ r.0) × IsSound r.1 (x ∷ []))
      (new_conn pair (codes "host") no_limits)
new_conn-IsSound_example =
    new_conn-IsSound pair (codes "host") no_limits [] host_named no_limits-IsSound

-- One connection is there.
abbrev connected :
    Gives
      (λ r. (x : Conn) × (x.conn ≡ r.0) × IsSound r.1 (x ∷ []))
      (new_conn pair (codes "host") no_limits)
connected = new_conn-IsSound pair (codes "host") no_limits [] host_named no_limits-IsSound

abbrev one_limits : Limits
one_limits = connected.0.1

abbrev one_conn : Conn
one_conn = connected.2.0

destroy-IsSound_example : Gives (λ s'. IsSound s' []) (destroy one_conn.conn one_limits)
destroy-IsSound_example = destroy-IsSound one_limits [] [] one_conn connected.2.2

bytes_allowed-IsShare_example :
    Gives
      (λ (n, ps).
        (n ≤ large)
        × IsShare get_dir one_limits ps n one_conn.conn
        × IsShare get_dir one_limits ps n one_conn.host
        × IsShare get_dir one_limits ps n one_conn.whole)
      (bytes_allowed 3 get_dir one_conn.conn one_limits)
bytes_allowed-IsShare_example =
    bytes_allowed-IsShare get_dir one_limits [] [] one_conn connected.2.2

abbrev small_pool : BytesPool
small_pool = record { pool = 100; rate = 1000; pool_max = 2000; t = 0 }
