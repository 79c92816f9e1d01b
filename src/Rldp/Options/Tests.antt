-- ===== src/Rldp/Options/Tests.antt =====
-- The timeouts of src/rldp/transfers_cache.rs at concrete options.
use tiny_adnl.Prelude.{◌≤◌, ◌≡◌, refl, true, [], ◌∷◌, arith}
use tiny_adnl.Rldp.Options.{QueryOptions, compute_timeout, update_roundtrip, is_timed_out}
use tiny_adnl.Rldp.Options.Clamp.{IsValid, InRange, measured, measured-InRange}

-- The defaults.
abbrev usual : QueryOptions
usual = record {
  query_wave_len = 10;
  query_wave_interval_ms = 10;
  query_min_timeout_ms = 500;
  query_max_timeout_ms = 10000;
}

usual-IsValid : IsValid usual
usual-IsValid = record { ordered = omega arith; small = omega arith }

-- The mean of the old roundtrip and the new one.
roundtrips : measured usual 0 10000 (800 ∷ 400 ∷ []) ≡ (600, 600)
unfolding measured update_roundtrip compute_timeout
roundtrips = refl

measured-InRange_example :
    InRange usual (measured usual 0 10000 (800 ∷ 400 ∷ [])).1
    × ((measured usual 0 10000 (800 ∷ 400 ∷ [])).0 ≤ 800)
measured-InRange_example =
    measured-InRange usual 800 0 10000 (800 ∷ 400 ∷ []) usual-IsValid (omega arith) (omega arith)
      (omega arith, omega arith) (omega arith, (omega arith, tt))

late : is_timed_out 2000 1000 50 ≡ true
unfolding is_timed_out
late = refl
