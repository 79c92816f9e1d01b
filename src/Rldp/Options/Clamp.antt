-- ===== src/Rldp/Options/Clamp.antt =====
-- The timeouts of src/rldp/transfers_cache.rs stay in their range.
use tiny_adnl.Prelude.Bytes.{mul64}
use tiny_adnl.Prelude.{
  ℕ, ◌+◌, ◌*◌, ◌/◌, ◌^◌, ◌≤◌, ◌<◌, ◌≡◌, true, Option, none, some, List, [], ◌∷◌, min, arith,
}
use tiny_adnl.Rldp.Options.{
  QueryOptions, compute_timeout, update_roundtrip, big_roundtrip, is_timed_out,
}

-- The least timeout is at most the greatest, and sums of two timeouts do not wrap.
pub record IsValid (o : QueryOptions) : Type 0 where
  pub ordered : o.query_min_timeout_ms ≤ o.query_max_timeout_ms
  pub small : o.query_max_timeout_ms < 2 ^ 62

abbrev pub InRange : QueryOptions → ℕ → Type 0
InRange o timeout = (o.query_min_timeout_ms ≤ timeout) × (timeout ≤ o.query_max_timeout_ms)

compute_timeout-InRange :
    (o : QueryOptions) (r : Option ℕ) → IsValid o → InRange o (compute_timeout o r)
unfolding compute_timeout
compute_timeout-InRange o none v = omega (arith, v.ordered)
compute_timeout-InRange o (some r) v = ground (arith, v.ordered)

-- The roundtrip after a sequence of measurements, and the last timeout.
unfoldable pub measured : QueryOptions → ℕ → ℕ → List ℕ → ℕ × ℕ
measured o roundtrip timeout [] = (roundtrip, timeout)
measured o roundtrip timeout (t ∷ ts) =
    let (next, timeout') = update_roundtrip o roundtrip t in measured o next timeout' ts

abbrev pub AllAtMost : ℕ → List ℕ → Type 0
AllAtMost n [] = Unit
AllAtMost n (t ∷ ts) = (t ≤ n) × AllAtMost n ts

update_roundtrip-le :
    (o : QueryOptions) (n r t : ℕ) → n < 2 ^ 62 → r ≤ n → t ≤ n → (update_roundtrip o r t).0 ≤ n
unfolding update_roundtrip
update_roundtrip-le o n r t small hr ht = ground arith

-- Where the least timeout is at most the greatest, the first timeout is in the range of the options,
-- and the first roundtrip and each measured time are at most `n`: after any measurements the timeout
-- is in that range, and the roundtrip at most `n`. The greatest timeout and `n` are below 2^62.
pub measured-InRange :
    (o : QueryOptions) (n r timeout : ℕ) (ts : List ℕ)
    → IsValid o
    → n < 2 ^ 62
    → r ≤ n
    → InRange o timeout
    → AllAtMost n ts
    → InRange o (measured o r timeout ts).1 × ((measured o r timeout ts).0 ≤ n)
unfolding measured
measured-InRange o n r timeout [] v small h range all = (range, h)
measured-InRange o n r timeout (t ∷ ts) v small h range all =
    measured-InRange o n (update_roundtrip o r t).0 (update_roundtrip o r t).1 ts v small
      (update_roundtrip-le o n r t small h all.0)
      (unfold update_roundtrip in compute_timeout-InRange o (some _) v) all.1

mul_mono : (a u w : ℕ) → u ≤ w → a * u ≤ a * w
mul_mono a u w h = grind arith

-- A query that has waited for `timeout` and one hundredth of it for each update is not yet timed
-- out, and one that has waited longer is; more updates never make it time out earlier.
pub is_timed_out_mono :
    (elapsed timeout u w : ℕ)
    → timeout * (w + 100) < 2 ^ 64
    → u ≤ w
    → is_timed_out elapsed timeout w ≡ true
    → (is_timed_out elapsed timeout u ≡ true) × (timeout + timeout * u / 100 < elapsed)
unfolding is_timed_out
is_timed_out_mono elapsed timeout u w small h late =
    let le = mul_mono timeout u w h in
    let fits : timeout * w + 100 * timeout < 2 ^ 64 = omega (arith, small) in
    let e : mul64 timeout w ≡ timeout * w = omega (arith, fits) in
    let e' : mul64 timeout u ≡ timeout * u = omega (arith, fits, le) in
    ground (arith, le, fits, e, e')

-- The roundtrip that is reported for a query with no answer is at least the measured one or the
-- greatest timeout, and never above it.
pub big_roundtrip_bounds :
    (o : QueryOptions) (r : ℕ)
    → r < 2 ^ 63
    → (big_roundtrip o r ≤ o.query_max_timeout_ms)
      × (min r o.query_max_timeout_ms ≤ big_roundtrip o r)
unfolding big_roundtrip
big_roundtrip_bounds o r h = omega arith
