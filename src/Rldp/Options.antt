-- ===== src/Rldp/Options.antt =====
-- `QueryOptions` of src/rldp/transfers_cache.rs and `is_timed_out`: the timeouts of a transfer, in
-- milliseconds. The time that has passed is an argument.
pub mod Clamp
mod Tests
use tiny_adnl.Prelude.Bytes.{add64, mul64}
use tiny_adnl.Prelude.{
  ℕ, ◌+◌, ◌*◌, ◌/◌, Bool, Option, none, some, List, [], ◌∷◌, if◌then◌else◌, ltb, ◌==◌, min, max,
}

pub record QueryOptions : Type 0 where
  pub query_wave_len : ℕ
  pub query_wave_interval_ms : ℕ
  pub query_min_timeout_ms : ℕ
  pub query_max_timeout_ms : ℕ

pub compute_timeout : QueryOptions → Option ℕ → ℕ
compute_timeout o none = o.query_max_timeout_ms
compute_timeout o (some roundtrip) =
    if ltb o.query_max_timeout_ms roundtrip
    then o.query_max_timeout_ms
    else max roundtrip o.query_min_timeout_ms

-- The new roundtrip, and the timeout.
pub update_roundtrip : QueryOptions → ℕ → ℕ → ℕ × ℕ
unfolding compute_timeout
update_roundtrip o roundtrip elapsed =
    let next : ℕ = if roundtrip == 0 then elapsed else add64 roundtrip elapsed / 2 in
    (next, compute_timeout o (some next))

pub big_roundtrip : QueryOptions → ℕ → ℕ
big_roundtrip o roundtrip = min (mul64 roundtrip 2) o.query_max_timeout_ms

pub completion_interval : QueryOptions → ℕ
completion_interval o = mul64 o.query_max_timeout_ms 2

pub is_timed_out : ℕ → ℕ → ℕ → Bool
is_timed_out elapsed timeout updates = ltb (add64 timeout (mul64 timeout updates / 100)) elapsed
